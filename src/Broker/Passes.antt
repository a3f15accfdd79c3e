-- ===== src/Broker/Passes.antt =====
-- The broker for a client that plans, arms and re-issues a call (src/relay_shell/broker.py).
use relay_shell.Prelude.{
  ℕ, ◌+◌, ◌≤◌, ◌<◌, ◌≡◌, refl, inl, inr, true, false, [], ◌∷◌, some, Text, text_eq_refl, Dict,
  IsDict, get, put, arith, Option-cases, length, get-put, length-put-le, length-put, get-has_key,
  put-IsDict,
}
use relay_shell.Broker.Store.{Entry, sweep_entries, drop_expired, evict}
use relay_shell.Broker.Evict.{sweep_entries-IsDict, length-sweep_entries}
use relay_shell.Broker.Armed.{get-drop_expired}
use relay_shell.Broker.Invariant.{set_armed-put}
use relay_shell.Broker.Confirmation.{match_token-none}
use relay_shell.Broker.{
  Broker, sweep, plan, arm, arm_entry, set_armed, consume, burn, match_token, op_hash,
}

length-drop_expired-le : (now : ℕ) (d : Dict Entry) → length (drop_expired now d) ≤ length d
unfolding drop_expired
length-drop_expired-le now [] = omega arith
length-drop_expired-le now ((k, e) ∷ d) = ground (arith, length-drop_expired-le now d)

-- A store within its bound loses only what has expired.
sweep_within :
    (now bound : ℕ) (d : Dict Entry)
    → length d ≤ bound
    → sweep_entries now bound d ≡ drop_expired now d
unfolding sweep_entries evict
sweep_within now bound d h = ground (arith, length-drop_expired-le now d)

record Holds (b : Broker) (k : Text) (e : Entry) : Type 0 where
  keys : IsDict b.by_token
  room : length b.by_token ≤ b.max_pending
  found : get k b.by_token ≡ some e

sweep-Holds :
    (now : ℕ) (b : Broker) (k : Text) (e : Entry)
    → now < e.expires_at
    → Holds b k e
    → Holds (sweep now b) k e
unfolding sweep
sweep-Holds now b k e live h = record {
  keys = sweep_entries-IsDict now b.max_pending b.by_token h.keys;
  room = length-sweep_entries now b.max_pending b.by_token h.keys;
  found =
      rw (sweep_within now b.max_pending b.by_token h.room)
        (get-drop_expired now b.by_token k e h.keys h.found live);
}

module _ (sha256_hex : Text → Text) (token tool key client : Text) (b : Broker) where
  abbrev pub planned_entry : ℕ → Entry
  planned_entry t = record {
    op_hash = op_hash sha256_hex tool key;
    expires_at = t + b.ttl;
    client_id = client;
    armed = false;
  }

  plan-Holds :
      (t : ℕ)
      → 0 < b.ttl
      → IsDict b.by_token
      → length b.by_token < b.max_pending
      → Holds (plan sha256_hex t token tool key client b).0 token (planned_entry t)
  unfolding plan
  plan-Holds t pos keys room = sweep-Holds t _ token (planned_entry t) (omega arith) (record {
    keys = put-IsDict token _ _ swept_keys;
    room = put_room;
    found = simp (get-put, text_eq_refl);
  })
    where
      swept_keys : IsDict (sweep t b).by_token
      swept_keys = unfold sweep in sweep_entries-IsDict t b.max_pending b.by_token keys

      swept_length : length (sweep t b).by_token ≤ length b.by_token
      swept_length =
          unfold sweep in
          rw (sweep_within t b.max_pending b.by_token (omega arith))
            (length-drop_expired-le t b.by_token)

      put_room : length (put token (planned_entry t) (sweep t b).by_token) ≤ b.max_pending
      put_room =
          omega (arith, length-put-le token (planned_entry t) (sweep t b).by_token, swept_length)

arm-Holds :
    (t : ℕ) (b : Broker) (k : Text) (e : Entry)
    → t < e.expires_at
    → Holds b k e
    → Holds (arm t k e.client_id b).0 k (record e { armed = true })
      × ((arm t k e.client_id b).1 ≡ true)
unfolding arm
arm-Holds t b k e live h =
    let s : Holds (sweep t b) k e = sweep-Holds t b k e live h in
    rw (s.found, arm_entry, text_eq_refl e.client_id) (armed s, refl)
  where
    length_same :
        Holds (sweep t b) k e
        → length (put k (record e { armed = true }) (sweep t b).by_token) ≤ (sweep t b).max_pending
    length_same s = ground (
      arith,
      length-put k (record e { armed = true }) (sweep t b).by_token,
      get-has_key k (sweep t b).by_token e s.found,
      s.room,
    )

    armed :
        Holds (sweep t b) k e
        → Holds
            (record (sweep t b) { by_token = set_armed k (sweep t b).by_token })
            k
            (record e { armed = true })
    armed s = rw (set_armed-put k (sweep t b).by_token e s.found) (record {
      keys = put-IsDict k _ _ s.keys;
      room = length_same s;
      found = simp (get-put, text_eq_refl);
    })

-- A token that stands armed for the operation lets the call through.
consume-Holds :
    (sha256_hex : Text → Text) (t : ℕ) (b : Broker) (k tool key : Text) (e : Entry)
    → t < e.expires_at
    → e.armed ≡ true
    → e.op_hash ≡ op_hash sha256_hex tool key
    → Holds b k e
    → (consume sha256_hex t tool key e.client_id b).1 ≡ true
unfolding consume
consume-Holds sha256_hex t b k tool key e live on op h =
    let s : Holds (sweep t b) k e = sweep-Holds t b k e live h in
    elim (Option-cases
      (match_token (op_hash sha256_hex tool key) e.client_id (sweep t b).by_token)) [
        | inl miss ↦
            absurd (
              match_token-none _ e.client_id (sweep t b).by_token k e s.keys miss s.found on op
                refl)
        | inr (tok, hit) ↦ rw (hit, burn)
      ]

-- A client that plans, arms and re-issues its call in time is let through, while the store has
-- room for the plan.
pub confirmed_call_passes :
    (sha256_hex : Text → Text) (b : Broker) (token tool key client : Text) (t u v : ℕ)
    → IsDict b.by_token
    → length b.by_token < b.max_pending
    → t ≤ u
    → u ≤ v
    → v < t + b.ttl
    → let armed = arm u token client (plan sha256_hex t token tool key client b).0 in
      (armed.1 ≡ true) × ((consume sha256_hex v tool key client armed.0).1 ≡ true)
confirmed_call_passes sha256_hex b token tool key client t u v keys room tu uv vt =
    let e : Entry = planned_entry sha256_hex token tool key client b t in
    let (held, granted) =
      arm-Holds u _ token e (omega arith)
        (plan-Holds sha256_hex token tool key client b t (omega arith) keys room) in
    (
      granted,
      consume-Holds sha256_hex v _ token tool key (record e { armed = true }) vt refl refl held,
    )

-- ===== src/Sessions/Limits.antt =====
-- The session registry under requests: its size, its sweep, its teardown list
-- (src/relay_shell/sessions.py).
use relay_shell.Prelude.{
  ℕ, ◌-◌, ◌⊎◌, ◌≤◌, ◌<◌, ◌≡◌, ◌↔◌, refl, true, false, List, [], ◌∷◌, Option, none, some, Text, Dict,
  IsDict, get, has_key, length, Bool-cases, inl, inr, arith, text_eq_iff, put-IsDict, remove-IsDict,
  length-remove, length-put, get-has_key, get_of_has_key, leb,
}
use relay_shell.Sessions.{
  Session, Registry, is_empty, is_doomed, kept, sweep, insert_new, add, on_session, on_found,
  or_refused, close, close_found, shutdown, new_session, count,
}

kept-has_key :
    (now idle : ℕ) (j : Text) (d : Dict Session)
    → has_key j d ≡ false
    → has_key j (kept now idle d) ≡ false
unfolding kept has_key
kept-has_key now idle j [] h = refl
kept-has_key now idle j ((sid, s) ∷ d) h = ground (arith, kept-has_key now idle j d)

kept-IsDict : (now idle : ℕ) (d : Dict Session) → IsDict d → IsDict (kept now idle d)
unfolding kept
kept-IsDict now idle [] h = h
kept-IsDict now idle ((sid, s) ∷ d) h = elim (Bool-cases (is_doomed now idle s)) [
  | inl e ↦ rw e (kept-IsDict now idle d h.1)
  | inr e ↦ rw e (kept-has_key now idle sid d h.0, kept-IsDict now idle d h.1)
]

length-kept : (now idle : ℕ) (d : Dict Session) → length (kept now idle d) ≤ length d
unfolding kept
length-kept now idle [] = omega arith
length-kept now idle ((sid, s) ∷ d) = ground (arith, length-kept now idle d)

get-kept :
    (now idle : ℕ) (sid : Text) (s : Session) (d : Dict Session)
    → IsDict d
    → (get sid (kept now idle d) ≡ some s) ↔ (get sid d ≡ some s) × (is_doomed now idle s ≡ false)
unfolding kept get
get-kept now idle sid s [] h = ground arith
get-kept now idle sid s ((j, t) ∷ d) h = ground (
  arith,
  get-kept now idle sid s d h.1,
  text_eq_iff j sid,
  get_of_has_key sid d,
  get_of_has_key sid (kept now idle d),
  kept-has_key now idle j d h.0,
)

pub data Request : Type 0 where
  adds : ℕ → Text → Text → ℕ → ℕ → Text → Request
  uses : Text → (Session → Session) → Request
  closes : Text → Request
  sweeps : ℕ → Request
  shuts : Request

unfoldable pub or_same : Registry → Option Registry → Registry
or_same r none = r
or_same r (some s) = s

unfoldable pub step : Request → Registry → Registry
unfolding add on_session close sweep shutdown or_same
step (adds now kind title cols rows sid) r = (add now kind title cols rows sid r).0
step (uses sid f) r = or_same r (on_session sid f r)
step (closes sid) r = or_same r (close sid r)
step (sweeps now) r = sweep now r
step shuts r = shutdown r

-- The latest request first.
unfoldable pub run : Registry → List Request → Registry
run r [] = r
run r (q ∷ qs) = step q (run r qs)

-- The registry holds an id once, and no more sessions than its limit.
abbrev pub Within : ℕ → Registry → Type 0
Within bound r = IsDict r.sessions × (r.max_sessions ≡ bound) × (count r ≤ bound)

sweep-Within : (now bound : ℕ) (r : Registry) → Within bound r → Within bound (sweep now r)
unfolding sweep count
sweep-Within now bound r (keys, limit, size) = (
  kept-IsDict now r.idle_timeout r.sessions keys,
  limit,
  omega (arith, length-kept now r.idle_timeout r.sessions),
)

insert_new-Within :
    (bound : ℕ) (sid : Text) (s : Session) (r : Registry)
    → Within bound r
    → Within bound (or_same r (insert_new sid s r))
unfolding insert_new or_same count
insert_new-Within bound sid s r (keys, limit, size) =
    elim (Bool-cases (leb r.max_sessions (length r.sessions))) [
      | inl e ↦ rw e (keys, limit, size)
      | inr e ↦
          rw e
            (put-IsDict sid s r.sessions keys, limit, ground (arith, length-put sid s r.sessions))
    ]

pub or_refused-or_same : (r : Registry) (o : Option Registry) → (or_refused r o).0 ≡ or_same r o
unfolding or_refused or_same
or_refused-or_same r none = refl
or_refused-or_same r (some s) = refl

on_found-Within :
    (bound : ℕ) (sid : Text) (f : Session → Session) (r : Registry) (o : Option Session)
    → get sid r.sessions ≡ o
    → Within bound r
    → Within bound (or_same r (on_found sid f r o))
unfolding on_found or_same count
on_found-Within bound sid f r none e w = w
on_found-Within bound sid f r (some s) e (keys, limit, size) = (
  put-IsDict sid (f s) r.sessions keys,
  limit,
  ground (arith, length-put sid (f s) r.sessions, get-has_key sid r.sessions s e),
)

close_found-Within :
    (bound : ℕ) (sid : Text) (r : Registry) (o : Option Session)
    → Within bound r
    → Within bound (or_same r (close_found sid r o))
unfolding close_found or_same count
close_found-Within bound sid r none w = w
close_found-Within bound sid r (some s) (keys, limit, size) =
    (remove-IsDict sid r.sessions keys, limit, ground (arith, length-remove sid r.sessions))

step-Within : (bound : ℕ) (q : Request) (r : Registry) → Within bound r → Within bound (step q r)
step-Within bound (adds now kind title cols rows sid) r w =
    unfold step add in
    rw (or_refused-or_same r (insert_new sid (new_session kind title cols rows now) r))
      (insert_new-Within bound sid _ r w)
step-Within bound (uses sid f) r w =
    unfold step on_session in on_found-Within bound sid f r _ refl w
step-Within bound (closes sid) r w = unfold step close in close_found-Within bound sid r _ w
step-Within bound (sweeps now) r w = unfold step in sweep-Within now bound r w
step-Within bound shuts r (keys, limit, size) =
    unfold step shutdown count in (tt, limit, omega arith)

-- A registry never holds more sessions than its limit, and an id once, whatever is asked of it.
pub run-Within :
    (bound : ℕ) (r : Registry) (qs : List Request) → Within bound r → Within bound (run r qs)
unfolding run
run-Within bound r [] w = w
run-Within bound r (q ∷ qs) w = step-Within bound q _ (run-Within bound r qs w)

is_doomed_iff :
    (now idle : ℕ) (s : Session)
    → (is_doomed now idle s ≡ false) ↔ (
        (s.waiters ≡ 0
          × (((s.closed ≡ true) × (s.buffer ≡ []) × (5 < now - s.last_used))
              ⊎ (idle < now - s.last_used)))
        → ⊥)
unfolding is_doomed is_empty
is_doomed_iff now idle s = ground arith

-- The sweep takes exactly the sessions with no waiting `recv` that are idle over the timeout, or
-- closed, drained and idle over five seconds; every other session stays as it is.
pub get-sweep :
    (now : ℕ) (sid : Text) (s : Session) (r : Registry)
    → IsDict r.sessions
    → (get sid (sweep now r).sessions ≡ some s)
      ↔ (get sid r.sessions ≡ some s)
        × ((s.waiters ≡ 0
              × (((s.closed ≡ true) × (s.buffer ≡ []) × (5 < now - s.last_used))
                  ⊎ (r.idle_timeout < now - s.last_used)))
            → ⊥)
get-sweep now sid s r keys =
    unfold sweep in
    let (there, back) = get-kept now r.idle_timeout sid s r.sessions keys in
    let (idle, busy) = is_doomed_iff now r.idle_timeout s in
    (λ h. let (held, calm) = there h in (held, idle calm), λ (held, calm). back (held, busy calm))

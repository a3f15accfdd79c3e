-- ===== src/Broker/Confirmation.antt =====
-- The token behind a granted call of the broker (src/relay_shell/broker.py).
use relay_shell.Prelude.{
  ℕ, ◌<◌, ◌≡◌, ◌≢◌, inl, inr, Bool, true, false, [], ◌∷◌, some, none, Text, text_eq, text_eq_iff,
  Dict, IsDict, get, has_key, remove, All, arith, Bool-cases, Option-cases, All-get, max,
  has_key-remove, text_eq_refl, get-has_key, ◌&&◌,
}
use relay_shell.Broker.Store.{Entry}
use relay_shell.Broker.Evict.{sweep_entries-IsLive, IsLive}
use relay_shell.Broker.History.{History, run, Confirmed, Justified, Inv}
use relay_shell.Broker.Invariant.{run-Inv, sweep-Inv}
use relay_shell.Broker.{Broker, init, sweep, consume, burn, match_token, op_hash}

-- What a match is: an armed entry of the store, for this operation and client.
pub match_token-get :
    (target client : Text) (d : Dict Entry) (tok : Text)
    → IsDict d
    → match_token target client d ≡ some tok
    → (e : Entry) × (get tok d ≡ some e)
      × (e.armed ≡ true)
      × (e.op_hash ≡ target)
      × (e.client_id ≡ client)
unfolding match_token get
match_token-get target client [] tok h m = cc
match_token-get target client ((j, e) ∷ d) tok h m =
    elim (Bool-cases (e.armed && (text_eq e.op_hash target && text_eq e.client_id client))) [
      | inl hit ↦ (
        e,
        ground (arith, text_eq_iff j tok),
        ground arith,
        ground (arith, text_eq_iff e.op_hash target),
        ground (arith, text_eq_iff e.client_id client),
      )
      | inr miss ↦
          let (f, g, on, op, own) = match_token-get target client d tok h.1 (rw miss at m) in
          (f, ground (arith, text_eq_iff j tok, get-has_key tok d f), on, op, own)
    ]

-- No match means that no such entry stands in the store.
pub match_token-none :
    (target client : Text) (d : Dict Entry) (k : Text) (e : Entry)
    → IsDict d
    → match_token target client d ≡ none
    → get k d ≡ some e
    → e.armed ≡ true
    → e.op_hash ≡ target
    → e.client_id ≢ client
unfolding match_token get
match_token-none target client [] k e h m g on op own = cc
match_token-none target client ((j, v) ∷ d) k e h m g on op own = ground (
  arith,
  text_eq_iff e.op_hash target,
  text_eq_iff e.client_id client,
  match_token-none target client d k e h.1,
)

module _ (sha256_hex : Text → Text) (ttl bound : ℕ) (hs : History) (now : ℕ)
    (tool key client : Text) where
  abbrev store_before : Broker
  store_before = run sha256_hex (init ttl bound) hs

  abbrev outcome : Broker × Bool
  outcome = consume sha256_hex now tool key client store_before

  -- The token that a successful call used up: planned for this very operation by this very
  -- client, armed by it afterwards, not run out, and gone from the store.
  pub record Released : Type 0 where
    pub token : Text
    pub entry : Entry
    pub operation : entry.op_hash ≡ op_hash sha256_hex tool key
    pub owner : entry.client_id ≡ client
    pub confirmed : Confirmed sha256_hex (max 1 ttl) token entry hs
    pub live : now < entry.expires_at
    pub spent : has_key token outcome.0.by_token ≡ false

  released :
      (b : Broker) (tok : Text)
      → Inv sha256_hex (max 1 ttl) hs b
      → All (IsLive now) b.by_token
      → match_token (op_hash sha256_hex tool key) client b.by_token ≡ some tok
      → outcome.0.by_token ≡ remove tok b.by_token
      → Released
  released b tok v live m e =
      let (entry, g, on, op, own) = match_token-get _ client b.by_token tok v.keys m in
      record {
        token = tok;
        entry = entry;
        operation = op;
        owner = own;
        confirmed =
            (All-get (Justified sha256_hex (max 1 ttl) hs) tok b.by_token entry v.justified
                g).confirmed
              on;
        live = All-get (IsLive now) tok b.by_token entry live g;
        spent = rw e (ground (arith, has_key-remove tok tok b.by_token v.keys, text_eq_refl tok));
      }

  -- A call passes the gate only on a token that the same client planned for the same operation,
  -- then armed, and that has not run out; the token leaves the store.
  pub consume-Released : outcome.1 ≡ true → Released
  unfolding consume
  consume-Released h =
      elim (Option-cases
        (match_token (op_hash sha256_hex tool key) client (sweep now store_before).by_token)) [
          | inl e ↦ absurd (let bad : false ≡ true = (rw (e, burn) at h) in cc)
          | inr (tok, e) ↦
              released (sweep now store_before) tok
                (sweep-Inv sha256_hex (max 1 ttl) hs now store_before
                  (run-Inv sha256_hex ttl bound hs))
                (unfold sweep in
                  sweep_entries-IsLive now store_before.max_pending store_before.by_token)
                e (rw (e, burn))
        ]

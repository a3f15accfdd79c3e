-- ===== src/Broker/Invariant.antt =====
-- The invariant of the token store over the calls of the broker (src/relay_shell/broker.py).
use relay_shell.Prelude.{
  ℕ, ◌+◌, ◌<◌, ◌≡◌, refl, ap, inl, inr, true, false, [], ◌∷◌, Option, some, none, Text, text_eq,
  text_eq_sound, Dict, get, put, All, arith, Bool-cases, All-get, All-imp, All-put, All-remove, max,
  put-IsDict, remove-IsDict,
}
use relay_shell.Broker.Store.{Entry}
use relay_shell.Broker.Evict.{All-sweep_entries, sweep_entries-IsLive, sweep_entries-IsDict, IsLive}
use relay_shell.Broker.History.{
  Call, plans, arms, consumes, counts, History, step, run, Planned, made, before, done, earlier,
  Justified, Inv,
}
use relay_shell.Broker.{
  Broker, init, sweep, plan, arm, arm_entry, set_armed, consume, burn, match_token, pending,
  op_hash,
}

pub set_armed-put :
    (tok : Text) (d : Dict Entry) (e : Entry)
    → get tok d ≡ some e
    → set_armed tok d ≡ put tok (record e { armed = true }) d
unfolding set_armed get put
set_armed-put tok [] e g = cc
set_armed-put tok ((j, v) ∷ d) e g = ground (arith, set_armed-put tok d e)

module _ (sha256_hex : Text → Text) (ttl : ℕ) where
  older :
      (hs : History) (h : ℕ × Call) (k : Text) (e : Entry)
      → Justified sha256_hex ttl hs (k, e)
      → Justified sha256_hex ttl (h ∷ hs) (k, e)
  older hs h k e j = record {
    planned = before j.planned;
    confirmed = λ on. earlier (j.confirmed on);
  }

  rearm :
      (tok : Text) (e : Entry) {hs : History}
      → Planned sha256_hex ttl tok e hs
      → Planned sha256_hex ttl tok (record e { armed = true }) hs
  rearm tok e (made t tool key p q) = made t tool key p q
  rearm tok e (before p) = before (rearm tok e p)

  armed_now :
      (hs : History) (now : ℕ) (tok : Text) (e : Entry)
      → Justified sha256_hex ttl hs (tok, e)
      → now < e.expires_at
      → Justified sha256_hex ttl ((now, arms tok e.client_id) ∷ hs) (tok, record e { armed = true })
  armed_now hs now tok e j live = record {
    planned = before (rearm tok e j.planned);
    confirmed = λ _. done now (rearm tok e j.planned) live;
  }

  older-Inv :
      (hs : History) (h : ℕ × Call) (b : Broker)
      → Inv sha256_hex ttl hs b
      → Inv sha256_hex ttl (h ∷ hs) b
  older-Inv hs h b v = record {
    keys = v.keys;
    term = v.term;
    justified =
        All-imp (Justified sha256_hex ttl hs) (Justified sha256_hex ttl (h ∷ hs)) (older hs h)
          b.by_token v.justified;
  }

  pub sweep-Inv :
      (hs : History) (now : ℕ) (b : Broker)
      → Inv sha256_hex ttl hs b
      → Inv sha256_hex ttl hs (sweep now b)
  unfolding sweep
  sweep-Inv hs now b v = record {
    keys = sweep_entries-IsDict now b.max_pending b.by_token v.keys;
    term = v.term;
    justified =
        All-sweep_entries (Justified sha256_hex ttl hs) now b.max_pending b.by_token v.justified;
  }

  plan-Inv :
      (hs : History) (now : ℕ) (tok tool key client : Text) (b : Broker)
      → Inv sha256_hex ttl hs b
      → Inv sha256_hex ttl
          ((now, plans tok tool key client) ∷ hs)
          (plan sha256_hex now tok tool key client b).0
  unfolding plan
  plan-Inv hs now tok tool key client b v =
      let h : ℕ × Call = (now, plans tok tool key client) in
      let swept : Inv sha256_hex ttl (h ∷ hs) (sweep now b) =
        older-Inv hs h _ (sweep-Inv hs now b v) in
      let e : Entry = record {
        op_hash = op_hash sha256_hex tool key;
        expires_at = now + b.ttl;
        client_id = client;
        armed = false;
      } in
      sweep-Inv (h ∷ hs) now _ (record {
        keys = put-IsDict tok e (sweep now b).by_token swept.keys;
        term = swept.term;
        justified =
            All-put (Justified sha256_hex ttl (h ∷ hs)) tok e (sweep now b).by_token
              (record {
                planned = made now tool key refl (ap (λ t. now + t) v.term);
                confirmed = λ on. cc;
              })
              swept.justified;
      })

  arm_entry-Inv :
      (hs : History) (now : ℕ) (tok client : Text) (b : Broker) (o : Option Entry)
      → get tok b.by_token ≡ o
      → All (IsLive now) b.by_token
      → Inv sha256_hex ttl hs b
      → Inv sha256_hex ttl ((now, arms tok client) ∷ hs) (arm_entry tok client b o).0
  unfolding arm_entry
  arm_entry-Inv hs now tok client b none g live v = older-Inv hs _ b v
  arm_entry-Inv hs now tok client b (some e) g live v =
      elim (Bool-cases (text_eq e.client_id client)) [
        | inr other ↦ rw other (older-Inv hs _ b v)
        | inl own ↦
            let same : e.client_id ≡ client = text_eq_sound e.client_id client own in
            rw (own, ← same, set_armed-put tok b.by_token e g)
              (record {
                keys = put-IsDict tok _ b.by_token v.keys;
                term = v.term;
                justified =
                    All-put (Justified sha256_hex ttl ((now, arms tok e.client_id) ∷ hs)) tok _
                      b.by_token
                      (armed_now hs now tok e
                        (All-get (Justified sha256_hex ttl hs) tok b.by_token e v.justified g)
                        (All-get (IsLive now) tok b.by_token e live g))
                      (older-Inv hs (now, arms tok e.client_id) b v).justified;
              })
      ]

  burn-Inv :
      (hs : History) (b : Broker) (o : Option Text)
      → Inv sha256_hex ttl hs b
      → Inv sha256_hex ttl hs (burn b o).0
  unfolding burn
  burn-Inv hs b none v = v
  burn-Inv hs b (some tok) v = record {
    keys = remove-IsDict tok b.by_token v.keys;
    term = v.term;
    justified = All-remove (Justified sha256_hex ttl hs) tok b.by_token v.justified;
  }

  step-Inv :
      (hs : History) (h : ℕ × Call) (b : Broker)
      → Inv sha256_hex ttl hs b
      → Inv sha256_hex ttl (h ∷ hs) (step sha256_hex h b)
  unfolding step arm consume pending
  step-Inv hs (now, plans tok tool key client) b v = plan-Inv hs now tok tool key client b v
  step-Inv hs (now, arms tok client) b v =
      arm_entry-Inv hs now tok client (sweep now b) (get tok (sweep now b).by_token) refl
        (unfold sweep in sweep_entries-IsLive now b.max_pending b.by_token) (sweep-Inv hs now b v)
  step-Inv hs (now, consumes tool key client) b v =
      burn-Inv _ (sweep now b)
        (match_token (op_hash sha256_hex tool key) client (sweep now b).by_token)
        (older-Inv hs _ _ (sweep-Inv hs now b v))
  step-Inv hs (now, counts) b v = older-Inv hs _ _ (sweep-Inv hs now b v)

module _ (sha256_hex : Text → Text) (ttl bound : ℕ) where
  init-Inv : Inv sha256_hex (max 1 ttl) [] (init ttl bound)
  unfolding init
  init-Inv = record { keys = tt; term = refl; justified = tt }

  -- Whatever the calls since the broker was built.
  pub run-Inv : (hs : History) → Inv sha256_hex (max 1 ttl) hs (run sha256_hex (init ttl bound) hs)
  unfolding run
  run-Inv [] = init-Inv
  run-Inv (h ∷ hs) = step-Inv sha256_hex (max 1 ttl) hs h _ (run-Inv hs)

-- ===== src/Broker/Bounds.antt =====
-- The size of the token store (src/relay_shell/broker.py).
use relay_shell.Prelude.{
  ℕ, ◌≤◌, ◌≡◌, refl, [], ◌∷◌, Option, some, none, Text, Dict, IsDict, has_key, put, arith, length,
  put-IsDict, remove-IsDict, length-remove,
}
use relay_shell.Broker.Store.{Entry}
use relay_shell.Broker.Evict.{sweep_entries-IsDict, length-sweep_entries}
use relay_shell.Broker.History.{Call, plans, arms, consumes, counts, History, step, run}
use relay_shell.Broker.Passes.{planned_entry}
use relay_shell.Broker.{
  Broker, init, sweep, plan, arm, arm_entry, set_armed, consume, burn, pending,
}

abbrev Within : ℕ → Broker → Type 0
Within bound b = IsDict b.by_token × (b.max_pending ≡ bound) × (length b.by_token ≤ bound)

sweep-Within :
    (now bound : ℕ) (b : Broker)
    → IsDict b.by_token
    → b.max_pending ≡ bound
    → Within bound (sweep now b)
unfolding sweep
sweep-Within now bound b keys m = (
  sweep_entries-IsDict now b.max_pending b.by_token keys,
  m,
  rw (← m) (length-sweep_entries now b.max_pending b.by_token keys),
)

length-set_armed : (k : Text) (d : Dict Entry) → length (set_armed k d) ≡ length d
unfolding set_armed
length-set_armed k [] = refl
length-set_armed k ((j, e) ∷ d) = ground (arith, length-set_armed k d)

has_key-set_armed : (j k : Text) (d : Dict Entry) → has_key j (set_armed k d) ≡ has_key j d
unfolding set_armed has_key
has_key-set_armed j k [] = refl
has_key-set_armed j k ((i, e) ∷ d) = ground (arith, has_key-set_armed j k d)

set_armed-IsDict : (k : Text) (d : Dict Entry) → IsDict d → IsDict (set_armed k d)
unfolding set_armed
set_armed-IsDict k [] h = tt
set_armed-IsDict k ((j, e) ∷ d) h =
    ground (arith, has_key-set_armed j k d, set_armed-IsDict k d h.1)

arm_entry-Within :
    (bound : ℕ) (tok client : Text) (b : Broker) (o : Option Entry)
    → Within bound b
    → Within bound (arm_entry tok client b o).0
unfolding arm_entry
arm_entry-Within bound tok client b none w = w
arm_entry-Within bound tok client b (some e) w =
    ground (arith, length-set_armed tok b.by_token, set_armed-IsDict tok b.by_token w.0)

burn-Within :
    (bound : ℕ) (b : Broker) (o : Option Text) → Within bound b → Within bound (burn b o).0
unfolding burn
burn-Within bound b none w = w
burn-Within bound b (some tok) w =
    ground (arith, length-remove tok b.by_token, remove-IsDict tok b.by_token w.0)

step-Within :
    (sha256_hex : Text → Text) (bound : ℕ) (h : ℕ × Call) (b : Broker)
    → Within bound b
    → Within bound (step sha256_hex h b)
unfolding step plan arm consume pending
step-Within sha256_hex bound (now, plans tok tool key client) b w =
    let s : Within bound (sweep now b) = sweep-Within now bound b w.0 w.1 in
    sweep-Within now bound
      (record (sweep now b) {
        by_token =
            put tok (planned_entry sha256_hex tok tool key client b now) (sweep now b).by_token;
      })
      (put-IsDict tok _ _ s.0) s.1
step-Within sha256_hex bound (now, arms tok client) b w =
    arm_entry-Within bound tok client (sweep now b) _ (sweep-Within now bound b w.0 w.1)
step-Within sha256_hex bound (now, consumes tool key client) b w =
    burn-Within bound (sweep now b) _ (sweep-Within now bound b w.0 w.1)
step-Within sha256_hex bound (now, counts) b w = sweep-Within now bound b w.0 w.1

run-Within :
    (sha256_hex : Text → Text) (ttl bound : ℕ) (hs : History)
    → Within bound (run sha256_hex (init ttl bound) hs)
unfolding run init
run-Within sha256_hex ttl bound [] = (tt, refl, omega arith)
run-Within sha256_hex ttl bound (h ∷ hs) =
    step-Within sha256_hex bound h _ (run-Within sha256_hex ttl bound hs)

-- Whatever the calls, the store keeps to its bound and never holds a token twice.
pub run_bounded :
    (sha256_hex : Text → Text) (ttl bound : ℕ) (hs : History)
    → IsDict (run sha256_hex (init ttl bound) hs).by_token
      × (length (run sha256_hex (init ttl bound) hs).by_token ≤ bound)
run_bounded sha256_hex ttl bound hs =
    let w : Within bound (run sha256_hex (init ttl bound) hs) =
      run-Within sha256_hex ttl bound hs in
    (w.0, w.2)

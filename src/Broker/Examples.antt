-- ===== src/Broker/Examples.antt =====
-- Runs of the broker, and the theorems at concrete inputs.
use relay_shell.Prelude.{
  ◌≡◌, ◌≤◌, refl, true, false, [], ◌∷◌, some, Text, codes, length, get, Dict, IsDict, text_eq,
  arith, has_key, put, remove,
}
use relay_shell.Broker.Store.{Entry, sweep_entries}
use relay_shell.Broker.Armed.{get-sweep_armed, count_armed}
use relay_shell.Broker.History.{History, run, plans, arms, step}
use relay_shell.Broker.Confirmation.{Released, consume-Released}
use relay_shell.Broker.Passes.{confirmed_call_passes}
use relay_shell.Broker.Bounds.{run_bounded}
use relay_shell.Broker.{init, plan, arm, set_armed, consume}

-- A stand-in for SHA-256: the identity.
abbrev digest : Text → Text
digest t = t

abbrev confirmed_history : History
confirmed_history =
    (20, arms (codes "t1") (codes "c"))
    ∷ (10, plans (codes "t1") (codes "sh") (codes "rm") (codes "c"))
    ∷ []

consume_grants :
    (consume digest 30
      (codes "sh")
      (codes "rm")
      (codes "c")
      (run digest (init 60 4) confirmed_history)).1
    ≡ true
unfolding run step plan arm set_armed consume init sweep_entries text_eq get put remove
consume_grants = refl

consume_foreign :
    (consume digest 30
      (codes "sh")
      (codes "rm")
      (codes "d")
      (run digest (init 60 4) confirmed_history)).1
    ≡ false
unfolding run step plan arm set_armed consume init sweep_entries text_eq get put remove
consume_foreign = refl

consume-Released_example :
    Released digest 60 4 confirmed_history 30 (codes "sh") (codes "rm") (codes "c")
consume-Released_example =
    consume-Released digest 60 4 confirmed_history 30 (codes "sh") (codes "rm") (codes "c")
      consume_grants

confirmed_call_passes_example :
    let armed =
      arm 20
        (codes "t1")
        (codes "c")
        (plan digest 10 (codes "t1") (codes "sh") (codes "rm") (codes "c") (init 60 4)).0 in
    (armed.1 ≡ true) × ((consume digest 69 (codes "sh") (codes "rm") (codes "c") armed.0).1 ≡ true)
confirmed_call_passes_example =
    unfold init in
    confirmed_call_passes digest (init 60 4) (codes "t1") (codes "sh") (codes "rm") (codes "c") 10
      20 69 tt (omega arith) (omega arith) (omega arith) (omega arith)

run_bounded_example :
    IsDict (run digest (init 60 4) confirmed_history).by_token
    × (length (run digest (init 60 4) confirmed_history).by_token ≤ 4)
run_bounded_example = run_bounded digest 60 4 confirmed_history

abbrev armed_entry : Entry
armed_entry = record { op_hash = codes "h"; expires_at = 50; client_id = codes "c"; armed = true }

abbrev crowded : Dict Entry
crowded =
    (codes "x", record armed_entry { armed = false; expires_at = 90 })
    ∷ (codes "a", armed_entry)
    ∷ (codes "y", record armed_entry { armed = false; expires_at = 80 })
    ∷ []

get-sweep_armed_example : get (codes "a") (sweep_entries 20 1 crowded) ≡ some armed_entry
unfolding get text_eq count_armed has_key
get-sweep_armed_example =
    get-sweep_armed 20 1 crowded (codes "a") armed_entry (refl, (refl, (refl, tt))) (omega arith)
      refl refl (omega arith)

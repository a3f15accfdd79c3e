-- ===== src/Sessions/Examples.antt =====
-- The sessions at concrete inputs.
use relay_shell.Prelude.{
  ℕ, ◌≡◌, ◌⊎◌, ◌<◌, ◌-◌, refl, true, List, [], ◌∷◌, some, Text, codes, get, has_key, text_eq, arith,
}
use relay_shell.Sessions.{Registry, sink, new_session, sweep, count}
use relay_shell.Sessions.Line.{advance_line, utf8_cut, advance_line-append}
use relay_shell.Sessions.Stream.{Event, step, Delivered, run, fresh, output, polled, run-Delivered}
use relay_shell.Sessions.Limits.{Within, run-Within, Request, adds, sweeps, get-sweep}
use relay_shell.Sessions.Held.{is_held, run-held}
use relay_shell.Sessions.Limits.{run as serve}
use relay_shell.Sessions.Wakes.{event-run}

abbrev decode : List ℕ → Text
decode bs = bs

-- `rm` in one text, `-rf` in the next.
advance_line-append_example :
    advance_line (advance_line (codes "a\nb") (codes "rm ")) (codes "-rf")
    ≡ advance_line (codes "a\nb") (codes "rm -rf")
advance_line-append_example = advance_line-append (codes "a\nb") (codes "rm ") (codes "-rf")

-- A two-byte character at the limit stays whole.
cut_spares : utf8_cut (65 ∷ 195 ∷ 169 ∷ []) 2 ≡ 1
unfolding utf8_cut
cut_spares = refl

abbrev events : List Event
events = polled 2 ∷ output (3 ∷ 4 ∷ []) ∷ output (1 ∷ 2 ∷ []) ∷ []

run-Delivered_example :
    Delivered 3 decode (run 3 decode (fresh 3 decode (codes "sh") [] 80 24 0) events)
run-Delivered_example = run-Delivered 3 decode (codes "sh") [] 80 24 0 events

-- Four bytes come, one is dropped, two are read.
run_leaves : (run 3 decode (fresh 3 decode (codes "sh") [] 80 24 0) events).session.buffer ≡ 4 ∷ []
unfolding run step fresh new_session
run_leaves = refl

event-run_example :
    (sink 3 (7 ∷ []) (run 3 decode (fresh 3 decode (codes "sh") [] 80 24 0) events).session).event
    ≡ true
event-run_example = (event-run 3 decode (codes "sh") [] 80 24 0 2 events).2 (7 ∷ [])

abbrev empty_registry : Registry
empty_registry = record {
  max_sessions = 1;
  idle_timeout = 10;
  buffer_cap = 3;
  sessions = [];
  doomed = [];
}

abbrev requests : List Request
requests =
    sweeps 20
    ∷ adds 1 (codes "sh") [] 80 24 (codes "b")
    ∷ adds 0 (codes "sh") [] 80 24 (codes "a")
    ∷ []

abbrev one_session : Registry
unfolding new_session
one_session = record empty_registry {
  sessions = (codes "a", new_session (codes "sh") [] 80 24 0) ∷ [];
}

run-held_example : is_held (codes "a") (serve one_session requests) ≡ true
unfolding count is_held one_session has_key text_eq
run-held_example = run-held (codes "a") 1 one_session requests ((refl, tt), refl, omega arith) refl

stays :
    let s = new_session (codes "sh") [] 80 24 0 in
    (s.waiters ≡ 0)
      × (((s.closed ≡ true) × (s.buffer ≡ []) × (5 < 5 - s.last_used)) ⊎ (10 < 5 - s.last_used))
    → ⊥
unfolding new_session
stays h = ground arith

get-sweep_example :
    get (codes "a") (sweep 5 one_session).sessions ≡ some (new_session (codes "sh") [] 80 24 0)
unfolding one_session get new_session has_key text_eq
get-sweep_example =
    (get-sweep 5 (codes "a") (new_session (codes "sh") [] 80 24 0) one_session (refl, tt)).1
      (refl, stays)

run-Within_example : Within 1 (serve one_session requests)
unfolding count one_session has_key
run-Within_example = run-Within 1 one_session requests ((refl, tt), refl, omega arith)

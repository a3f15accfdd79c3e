-- ===== src/Sessions/Held.antt =====
-- The sessions that the registry holds or hands to the teardown (src/relay_shell/sessions.py).
use relay_shell.Prelude.{
  ℕ, ◌≡◌, refl, Bool, true, ◌||◌, List, [], ◌∷◌, ◌++◌, Option, none, some, Text, Dict, IsDict,
  has_key, length, Bool-cases, inl, inr, arith, text_eq_iff, is_among, has_key-put, has_key-remove,
  leb,
}
use relay_shell.Sessions.{
  Session, Registry, kept, popped, sweep, insert_new, add, on_session, on_found, close, close_found,
  ids, shutdown, new_session,
}
use relay_shell.Sessions.Limits.{
  Request, adds, uses, closes, sweeps, shuts, or_same, step, run, Within, run-Within,
  or_refused-or_same,
}

is_among-append :
    (t : Text) (a b : List Text) → is_among t (a ++ b) ≡ (is_among t a || is_among t b)
unfolding is_among
is_among-append t [] b = refl
is_among-append t (x ∷ a) b = ground (arith, is_among-append t a b)

-- A session of the registry stays in it or is handed to the teardown.
popped-kept :
    (now idle : ℕ) (sid : Text) (d : Dict Session)
    → has_key sid d ≡ true
    → (has_key sid (kept now idle d) || is_among sid (popped now idle d)) ≡ true
unfolding kept popped has_key is_among
popped-kept now idle sid [] h = cc
popped-kept now idle sid ((j, s) ∷ d) h = ground (arith, popped-kept now idle sid d)

has_key-ids : (sid : Text) (d : Dict Session) → has_key sid d ≡ true → is_among sid (ids d) ≡ true
unfolding has_key is_among ids
has_key-ids sid [] h = cc
has_key-ids sid ((j, s) ∷ d) h = ground (arith, has_key-ids sid d)

-- Whether a session can be named or is being torn down.
unfoldable pub is_held : Text → Registry → Bool
is_held sid r = has_key sid r.sessions || is_among sid r.doomed

sweep-held :
    (sid : Text) (now : ℕ) (r : Registry) → is_held sid r ≡ true → is_held sid (sweep now r) ≡ true
unfolding is_held sweep
sweep-held sid now r h = ground (
  arith,
  popped-kept now r.idle_timeout sid r.sessions,
  is_among-append sid r.doomed (popped now r.idle_timeout r.sessions),
)

insert_new-held :
    (sid new : Text) (s : Session) (r : Registry)
    → is_held sid r ≡ true
    → is_held sid (or_same r (insert_new new s r)) ≡ true
unfolding is_held insert_new or_same
insert_new-held sid new s r h = elim (Bool-cases (leb r.max_sessions (length r.sessions))) [
  | inl e ↦ rw e h
  | inr e ↦ rw e (ground (arith, has_key-put new sid s r.sessions))
]

on_found-held :
    (sid used : Text) (f : Session → Session) (r : Registry) (o : Option Session)
    → is_held sid r ≡ true
    → is_held sid (or_same r (on_found used f r o)) ≡ true
unfolding is_held on_found or_same
on_found-held sid used f r none h = h
on_found-held sid used f r (some s) h = ground (arith, has_key-put used sid (f s) r.sessions)

close_found-held :
    (sid closed : Text) (r : Registry) (o : Option Session)
    → IsDict r.sessions
    → is_held sid r ≡ true
    → is_held sid (or_same r (close_found closed r o)) ≡ true
unfolding is_held close_found or_same is_among
close_found-held sid closed r none keys h = h
close_found-held sid closed r (some s) keys h = ground (
  arith,
  has_key-remove closed sid r.sessions keys,
  is_among-append sid r.doomed (closed ∷ []),
  text_eq_iff closed sid,
)

shutdown-held : (sid : Text) (r : Registry) → is_held sid r ≡ true → is_held sid (shutdown r) ≡ true
unfolding is_held shutdown has_key
shutdown-held sid r h =
    ground (arith, has_key-ids sid r.sessions, is_among-append sid r.doomed (ids r.sessions))

step-held :
    (sid : Text) (q : Request) (r : Registry)
    → IsDict r.sessions
    → is_held sid r ≡ true
    → is_held sid (step q r) ≡ true
step-held sid (adds now kind title cols rows new) r keys h =
    unfold step add in
    rw (or_refused-or_same r (insert_new new (new_session kind title cols rows now) r))
      (insert_new-held sid new _ r h)
step-held sid (uses used f) r keys h = unfold step on_session in on_found-held sid used f r _ h
step-held sid (closes closed) r keys h = unfold step close in close_found-held sid closed r _ keys h
step-held sid (sweeps now) r keys h = unfold step in sweep-held sid now r h
step-held sid shuts r keys h = unfold step in shutdown-held sid r h

-- A session that the registry holds is never lost: after any further requests it is still in the
-- registry or was handed to the teardown.
pub run-held :
    (sid : Text) (bound : ℕ) (r : Registry) (qs : List Request)
    → Within bound r
    → is_held sid r ≡ true
    → is_held sid (run r qs) ≡ true
unfolding run
run-held sid bound r [] w h = h
run-held sid bound r (q ∷ qs) w h =
    step-held sid q (run r qs) (run-Within bound r qs w).0 (run-held sid bound r qs w h)

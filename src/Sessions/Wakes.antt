-- ===== src/Sessions/Wakes.antt =====
-- The event that `recv` waits for (src/relay_shell/sessions.py).
use relay_shell.Prelude.{
  ℕ, ℤ, ◌≡◌, ◌⊎◌, refl, true, false, ◌||◌, not, List, [], ◌∷◌, Option, Text, take, Bool-cases, inl,
  inr, arith,
}
use relay_shell.Sessions.{
  Session, Received, sink, send, recv_enter, recv_round, recv_leave, resize, kill, reader_done,
  new_session, is_empty,
}
use relay_shell.Sessions.Stream.{
  Event, Log, step, run, fresh, output, sent, entered, polled, left, resized, killed, reader_ended,
}
use relay_shell.Sessions.Line.{utf8_cut}
use Received.{bytes, ended, waits}

-- Bytes in the buffer, or a closed session, come with the event set.
abbrev Woken : Session → Type 0
Woken s = (not (is_empty s.buffer) || s.closed) ≡ true → s.event ≡ true

recv_round-Woken : (limit : ℕ) (s : Session) → Woken s → Woken (recv_round limit s).0
recv_round-Woken limit s w = elim (Bool-cases (is_empty s.buffer)) [
  | inl e ↦ elim (Bool-cases s.closed) [
    | inl f ↦ unfold recv_round in rw (e, f) (ground arith)
    | inr f ↦ unfold recv_round in rw (e, f) (ground arith)
  ]
  | inr e ↦ unfold recv_round in rw e (ground arith)
]

step-Woken :
    (cap : ℕ) (decode : List ℕ → Text) (e : Event) (l : Log)
    → Woken l.session
    → Woken (step cap decode e l).session
step-Woken cap decode (output bs) l w = unfold step sink in λ h. refl
step-Woken cap decode (polled limit) l w = unfold step in recv_round-Woken limit l.session w
step-Woken cap decode (sent now bs) l w = unfold step send in w
step-Woken cap decode (entered now) l w = unfold step recv_enter in w
step-Woken cap decode (left now) l w = unfold step recv_leave in w
step-Woken cap decode (resized now cols rows) l w = unfold step resize in w
step-Woken cap decode (killed now) l w = unfold step kill in w
step-Woken cap decode (reader_ended code) l w = unfold step reader_done in λ h. refl

run-Woken :
    (cap : ℕ) (decode : List ℕ → Text) (kind title : Text) (cols rows now : ℕ) (es : List Event)
    → Woken (run cap decode (fresh cap decode kind title cols rows now) es).session
unfolding run
run-Woken cap decode kind title cols rows now [] = unfold fresh new_session is_empty in λ h. h
run-Woken cap decode kind title cols rows now (e ∷ es) =
    step-Woken cap decode e _ (run-Woken cap decode kind title cols rows now es)

Woken-cases :
    (s : Session) → Woken s → (s.event ≡ true) ⊎ ((is_empty s.buffer ≡ true) × (s.closed ≡ false))
Woken-cases s w = ground arith

recv_round-waits :
    (limit : ℕ) (s : Session)
    → (recv_round limit s).1 ≡ waits
    → (is_empty s.buffer ≡ true) × (s.closed ≡ false) × ((recv_round limit s).0.event ≡ false)
recv_round-waits limit s h = elim (Bool-cases (is_empty s.buffer)) [
  | inl e ↦ elim (Bool-cases s.closed) [
    | inl f ↦
        absurd (let bad : ended s.exit_code ≡ waits = unfold recv_round in rw (e, f) at h in cc)
    | inr f ↦ (e, f, unfold recv_round in rw (e, f) refl)
  ]
  | inr e ↦ absurd (
      let bad : bytes (take (utf8_cut s.buffer limit) s.buffer) ≡ waits =
        unfold recv_round in rw e at h in
      cc)
]

-- After any sequence of events, a round of `recv` finds nothing only where no byte is buffered and
-- the session runs; then its event is clear, and the next output or the end of the reader sets it.
-- Elsewhere the event is set, so that a waiting `recv` comes to its next round.
pub event-run :
    (cap : ℕ) (decode : List ℕ → Text) (kind title : Text) (cols rows now limit : ℕ)
    (es : List Event)
    → let s = (run cap decode (fresh cap decode kind title cols rows now) es).session in
      (((s.event ≡ true) ⊎ ((is_empty s.buffer ≡ true) × (s.closed ≡ false))))
      × ((recv_round limit s).1 ≡ waits
          → (is_empty s.buffer ≡ true)
            × (s.closed ≡ false)
            × ((recv_round limit s).0.event ≡ false))
      × ((bs : List ℕ) → (sink cap bs s).event ≡ true)
      × ((code : Option ℤ) → (reader_done code s).event ≡ true)
event-run cap decode kind title cols rows now limit es =
    let s = (run cap decode (fresh cap decode kind title cols rows now) es).session in
    (
      Woken-cases s (run-Woken cap decode kind title cols rows now es),
      recv_round-waits limit s,
      λ bs. unfold sink in refl,
      λ code. unfold reader_done in refl,
    )

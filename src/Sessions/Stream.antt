-- ===== src/Sessions/Stream.antt =====
-- The buffer of a session, over any interleaving of the reader's chunks with the other operations
-- (src/relay_shell/sessions.py).
use relay_shell.Prelude.{
  append_assoc, append-nil, ℕ, ◌+◌, ◌-◌, ◌≤◌, ◌≡◌, refl, List, [], ◌∷◌, ◌++◌, Option, Text, length,
  take, drop, Bool-cases, inl, inr, arith, ap, ◌∙◌, sym, length-append, length-take, length-drop,
  take-append-drop, ℤ,
}
use relay_shell.Sessions.{
  Session, Received, sink, send, recv_enter, recv_round, recv_leave, resize, kill, reader_done,
  new_session, is_empty,
}
use relay_shell.Sessions.Line.{utf8_cut}
use Received.{bytes, ended, waits}

pub data Event : Type 0 where
  output : List ℕ → Event
  sent : ℕ → List ℕ → Event
  entered : ℕ → Event
  polled : ℕ → Event
  left : ℕ → Event
  resized : ℕ → ℕ → ℕ → Event
  killed : ℕ → Event
  reader_ended : Option ℤ → Event

-- The session, all that its backend produced, and all that `recv` has returned.
pub record Log : Type 0 where
  pub session : Session
  pub produced : List ℕ
  pub received : List ℕ

pub bytes_of : Received → List ℕ
bytes_of (bytes bs) = bs
bytes_of (ended code) = []
bytes_of waits = []

module _ (cap : ℕ) (decode : List ℕ → Text) where
  unfoldable pub step : Event → Log → Log
  unfolding sink send recv_enter recv_round recv_leave resize kill reader_done bytes_of
  step (output bs) l = record l { session = sink cap bs l.session; produced = l.produced ++ bs }
  step (sent now bs) l = record l { session = send decode now bs l.session }
  step (entered now) l = record l { session = recv_enter now l.session }
  step (polled limit) l =
      let (s, r) = recv_round limit l.session in
      record l { session = s; received = l.received ++ bytes_of r }
  step (left now) l = record l { session = recv_leave now l.session }
  step (resized now cols rows) l = record l { session = resize now cols rows l.session }
  step (killed now) l = record l { session = kill now l.session }
  step (reader_ended code) l = record l { session = reader_done code l.session }

  -- The latest event first.
  unfoldable pub run : Log → List Event → Log
  run l [] = l
  run l (e ∷ es) = step e (run l es)

  -- The buffer is what the backend produced last, within the cap; what stands before it was
  -- returned or is counted as dropped, and without a drop the returned bytes are exactly that.
  pub record Delivered (l : Log) : Type 0 where
    pub before : List ℕ
    pub split : l.produced ≡ before ++ l.session.buffer
    pub accounted : length before ≡ length l.received + l.session.dropped
    pub counted : l.session.produced ≡ length l.produced
    pub within : length l.session.buffer ≤ cap
    pub exact : l.session.dropped ≡ 0 → l.received ≡ before

  -- A prefix of the buffer goes to the front.
  shifted :
      (p before buffer : List ℕ) (n : ℕ)
      → p ≡ before ++ buffer
      → p ≡ (before ++ take n buffer) ++ drop n buffer
  shifted p before buffer n h =
      h ∙ ap (λ b. before ++ b) (sym (take-append-drop n buffer)) ∙ sym (append_assoc before _ _)

  sink-Delivered : (bs : List ℕ) (l : Log) → Delivered l → Delivered (step (output bs) l)
  unfolding step sink
  sink-Delivered bs l d =
      let whole = l.session.buffer ++ bs in
      record {
        before = d.before ++ take (length whole - cap) whole;
        split =
            shifted (l.produced ++ bs) d.before whole _
              (ap (λ p. p ++ bs) d.split ∙ append_assoc d.before l.session.buffer bs);
        accounted = omega (
          arith,
          length-append d.before (take (length whole - cap) whole),
          length-take (length whole - cap) whole,
          d.accounted,
        );
        counted = omega (arith, length-append l.produced bs, d.counted);
        within = omega (arith, length-drop (length whole - cap) whole);
        exact = λ h.
            d.exact (omega (arith, h))
            ∙ sym (append-nil d.before)
            ∙ ap (λ k. d.before ++ take k whole)
                (let z : 0 ≡ length whole - cap = omega (arith, h) in z);
      }

  -- A step that leaves the stream alone.
  carry :
      (l m : Log)
      → m.produced ≡ l.produced
      → m.received ≡ l.received
      → m.session.buffer ≡ l.session.buffer
      → m.session.produced ≡ l.session.produced
      → m.session.dropped ≡ l.session.dropped
      → Delivered l
      → Delivered m
  carry l m p r b n o d = record {
    before = d.before;
    split = rw (p, b) d.split;
    accounted = rw (r, o) d.accounted;
    counted = rw (p, n) d.counted;
    within = rw b d.within;
    exact = λ h. rw r (d.exact (rw o at h));
  }

  round-Delivered : (limit : ℕ) (l : Log) → Delivered l → Delivered (step (polled limit) l)
  round-Delivered limit l d = elim (Bool-cases (is_empty l.session.buffer)) [
    | inl e ↦ elim (Bool-cases l.session.closed) [
      | inl f ↦
          carry l _ (unfold step recv_round in refl)
            (unfold step recv_round bytes_of in rw (e, f) (append-nil l.received))
            (unfold step recv_round in rw (e, f) refl) (unfold step recv_round in rw (e, f) refl)
            (unfold step recv_round in rw (e, f) refl) d
      | inr f ↦
          carry l _ (unfold step recv_round in refl)
            (unfold step recv_round bytes_of in rw (e, f) (append-nil l.received))
            (unfold step recv_round in rw (e, f) refl) (unfold step recv_round in rw (e, f) refl)
            (unfold step recv_round in rw (e, f) refl) d
    ]
    | inr e ↦
        let n = utf8_cut l.session.buffer limit in
        unfold step recv_round bytes_of in
        rw e record {
          before = d.before ++ take n l.session.buffer;
          split = shifted l.produced d.before l.session.buffer n d.split;
          accounted = omega (
            arith,
            length-append d.before (take n l.session.buffer),
            length-append l.received (take n l.session.buffer),
            d.accounted,
          );
          counted = d.counted;
          within = omega (arith, length-drop n l.session.buffer, d.within);
          exact = λ h. ap (λ b. b ++ take n l.session.buffer) (d.exact h);
        }
  ]

  step-Delivered : (e : Event) (l : Log) → Delivered l → Delivered (step e l)
  step-Delivered (output bs) l d = sink-Delivered bs l d
  step-Delivered (polled limit) l d = round-Delivered limit l d
  step-Delivered (sent now bs) l d = unfold step send in carry l _ refl refl refl refl refl d
  step-Delivered (entered now) l d = unfold step recv_enter in carry l _ refl refl refl refl refl d
  step-Delivered (left now) l d = unfold step recv_leave in carry l _ refl refl refl refl refl d
  step-Delivered (resized now cols rows) l d =
      unfold step resize in carry l _ refl refl refl refl refl d
  step-Delivered (killed now) l d = unfold step kill in carry l _ refl refl refl refl refl d
  step-Delivered (reader_ended code) l d =
      unfold step reader_done in carry l _ refl refl refl refl refl d

  unfoldable pub fresh : Text → Text → ℕ → ℕ → ℕ → Log
  fresh kind title cols rows now = record {
    session = new_session kind title cols rows now;
    produced = [];
    received = [];
  }

  -- Over any sequence of chunks, reads and other operations on a new session, the buffer is what
  -- its backend produced last and stays within the cap; what stands before it is, byte for byte in
  -- number, returned or counted as dropped, and as long as nothing is dropped the returned bytes
  -- are exactly the produced ones, in order.
  pub run-Delivered :
      (kind title : Text) (cols rows now : ℕ) (es : List Event)
      → Delivered (run (fresh kind title cols rows now) es)
  unfolding run
  run-Delivered kind title cols rows now [] =
      unfold fresh new_session in
      record {
        before = [];
        split = refl;
        accounted = refl;
        counted = refl;
        within = omega arith;
        exact = λ h. refl;
      }
  run-Delivered kind title cols rows now (e ∷ es) =
      step-Delivered e _ (run-Delivered kind title cols rows now es)

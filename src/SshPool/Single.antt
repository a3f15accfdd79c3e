-- ===== src/SshPool/Single.antt =====
-- Single flight over every course of steps (`connect` of src/relay_shell/sshpool.py).
use relay_shell.Prelude.{
  ℕ, ◌≡◌, refl, subst, Bool, true, false, List, Option, none, some, Text, get, Bool-cases, inl, inr,
  ◌⊎◌, arith, get-put, text_eq_iff, values,
}
use relay_shell.SshPool.Cache.{
  Pool, Entry, Handle, claim, claim_from, claim_pending, pin, unpin, fail, discard, publish,
  cache_conn, sweep_conns, is_in, conns_of,
}
use relay_shell.SshPool.Forwards.{track-some, pop_forward, pop_found, close_all}
use relay_shell.SshPool.Steps.{
  World, Step, sweeps, claims, fails, discards, publishes, strands, pins, unpins, tracks, closes,
  closes_all, Reach, starts, goes, start, is_dialing, claimed, pinned, unpinned, untracked, tracked,
  empty_pool,
}
use relay_shell.SshPool.Flight.{
  Flight, Flight-release, Flight-claim, Flight-close, get-release_own, get-release_other,
  is_in-append, get-values,
}

abbrev FlightOf : World → Type 0
FlightOf w = Flight w.pool.pending w.pool.cancelled w.pool.next_future w.dialing

claim_pending-Flight :
    (key : Text) (w : World) (p : Pool) (o : Option ℕ)
    → get key p.pending ≡ o
    → Flight p.pending p.cancelled p.next_future w.dialing
    → FlightOf (claimed key w (claim_pending key p o))
unfolding claim_pending claimed
claim_pending-Flight key w p none e f = Flight-claim key e f
claim_pending-Flight key w p (some g) e f = f

claim_from-Flight :
    (is_closed : ℕ → Bool) (now : ℕ) (key : Text) (w : World) (o : Option Entry)
    → FlightOf w
    → FlightOf (claimed key w (claim_from is_closed now key w.pool o))
unfolding claim_from claimed
claim_from-Flight is_closed now key w none f = claim_pending-Flight key w w.pool _ refl f
claim_from-Flight is_closed now key w (some e) f = elim (Bool-cases (is_closed e.conn)) [
  | inl dead ↦ rw dead (claim_pending-Flight key w w.pool _ refl f)
  | inr live ↦ rw live f
]

pin-Flight : (conn now : ℕ) (w : World) → FlightOf w → FlightOf (pinned w (pin conn now w.pool))
unfolding pin pinned
pin-Flight conn now w f = elim (Bool-cases (is_in conn (conns_of w.pool.conns))) [
  | inl e ↦ rw e f
  | inr e ↦ rw e f
]

unpin-Flight :
    (entry : Option ℕ) (now : ℕ) (p : Pool) {dialing : List (Text × ℕ)}
    → Flight p.pending p.cancelled p.next_future dialing
    → let q = unpin entry now p in Flight q.pending q.cancelled q.next_future dialing
unfolding unpin
unpin-Flight none now p f = f
unpin-Flight (some c) now p f = f

pop_found-Flight :
    (fid : Text) (w : World) (o : Option Handle)
    → FlightOf w
    → FlightOf (untracked w (pop_found fid w.pool o))
unfolding pop_found untracked
pop_found-Flight fid w none f = f
pop_found-Flight fid w (some h) f = f

Step-Flight : {w v : World} → Step w v → FlightOf w → FlightOf v
Step-Flight {w} (sweeps is_closed now) f = unfold sweep_conns in f
Step-Flight {w} (claims is_closed now key) f =
    unfold claim in claim_from-Flight is_closed now key w (get key w.pool.conns) f
Step-Flight {w} (fails key g d live) f = unfold fail in Flight-release key g d f
Step-Flight {w} (discards key g d live) f = unfold discard fail in Flight-release key g d f
Step-Flight {w} (publishes key g now d live) f =
    unfold publish fail cache_conn in Flight-release key g d f
Step-Flight {w} (strands key g d) f = f
Step-Flight {w} (pins conn now) f = pin-Flight conn now w f
Step-Flight {w} (unpins entry now h) f = unfold unpinned in unpin-Flight entry now w.pool f
Step-Flight {w} (tracks fid h p held free e) f =
    unfold tracked in
    subst (λ q. Flight q.pending q.cancelled q.next_future w.dialing)
      (track-some fid h w.pool p e).1 f
Step-Flight {w} (closes fid) f = unfold pop_forward in pop_found-Flight fid w _ f
Step-Flight {w} closes_all f = unfold close_all in Flight-close f

-- A slot that other owners leave alone, or that `close_all` cancelled.
abbrev Stays : Text → ℕ → World → Type 0
Stays k f v =
    (is_in f v.stranded ≡ true)
    × ((get k v.pool.pending ≡ some f)
        ⊎ ((get k v.pool.pending ≡ none) × (is_in f v.pool.cancelled ≡ true)))

claim_pending-Stays :
    (k : Text) (f : ℕ) (key : Text) (w : World) (p : Pool) (o : Option ℕ)
    → get key p.pending ≡ o
    → get k p.pending ≡ some f
    → is_in f w.stranded ≡ true
    → Stays k f (claimed key w (claim_pending key p o))
unfolding claim_pending claimed
claim_pending-Stays k f key w p none e slot stuck =
    (stuck, inl (ground (arith, get-put key k p.next_future p.pending, text_eq_iff key k)))
claim_pending-Stays k f key w p (some g) e slot stuck = (stuck, inl slot)

claim_from-Stays :
    (k : Text) (f : ℕ) (is_closed : ℕ → Bool) (now : ℕ) (key : Text) (w : World) (o : Option Entry)
    → get k w.pool.pending ≡ some f
    → is_in f w.stranded ≡ true
    → Stays k f (claimed key w (claim_from is_closed now key w.pool o))
unfolding claim_from claimed
claim_from-Stays k f is_closed now key w none slot stuck =
    claim_pending-Stays k f key w w.pool _ refl slot stuck
claim_from-Stays k f is_closed now key w (some e) slot stuck =
    elim (Bool-cases (is_closed e.conn)) [
      | inl dead ↦ rw dead (claim_pending-Stays k f key w w.pool _ refl slot stuck)
      | inr live ↦ rw live (stuck, inl slot)
    ]

pin-Stays :
    (k : Text) (f conn now : ℕ) (w : World)
    → get k w.pool.pending ≡ some f
    → is_in f w.stranded ≡ true
    → Stays k f (pinned w (pin conn now w.pool))
unfolding pin pinned
pin-Stays k f conn now w slot stuck = elim (Bool-cases (is_in conn (conns_of w.pool.conns))) [
  | inl e ↦ rw e (stuck, inl slot)
  | inr e ↦ rw e (stuck, inl slot)
]

unpin-pending : (entry : Option ℕ) (now : ℕ) (p : Pool) → (unpin entry now p).pending ≡ p.pending
unfolding unpin
unpin-pending none now p = refl
unpin-pending (some c) now p = refl

pop_found-Stays :
    (k : Text) (f : ℕ) (fid : Text) (w : World) (o : Option Handle)
    → get k w.pool.pending ≡ some f
    → is_in f w.stranded ≡ true
    → Stays k f (untracked w (pop_found fid w.pool o))
unfolding pop_found untracked
pop_found-Stays k f fid w none slot stuck = (stuck, inl slot)
pop_found-Stays k f fid w (some h) slot stuck = (stuck, inl slot)

Step-stranded :
    (k : Text) (f : ℕ) {w v : World}
    → Step w v
    → FlightOf w
    → get k w.pool.pending ≡ some f
    → is_in f w.stranded ≡ true
    → Stays k f v
Step-stranded k f {w} (sweeps is_closed now) flight slot stuck =
    unfold sweep_conns in (stuck, inl slot)
Step-stranded k f {w} (claims is_closed now key) flight slot stuck =
    unfold claim in claim_from-Stays k f is_closed now key w _ slot stuck
Step-stranded k f {w} (fails key g d live) flight slot stuck =
    unfold fail in
    (stuck, inl (get-release_other k f key g w.pool.pending w.stranded flight.keys slot stuck live))
Step-stranded k f {w} (discards key g d live) flight slot stuck =
    unfold discard fail in
    (stuck, inl (get-release_other k f key g w.pool.pending w.stranded flight.keys slot stuck live))
Step-stranded k f {w} (publishes key g now d live) flight slot stuck =
    unfold publish fail cache_conn in
    (stuck, inl (get-release_other k f key g w.pool.pending w.stranded flight.keys slot stuck live))
Step-stranded k f {w} (strands key g d) flight slot stuck =
    (unfold is_in in ground (arith, stuck), inl slot)
Step-stranded k f {w} (pins conn now) flight slot stuck = pin-Stays k f conn now w slot stuck
Step-stranded k f {w} (unpins entry now h) flight slot stuck =
    unfold unpinned in (stuck, inl (rw (unpin-pending entry now w.pool) slot))
Step-stranded k f {w} (tracks fid h p held free e) flight slot stuck =
    unfold tracked in
    (stuck, inl (subst (λ q. get k q.pending ≡ some f) (track-some fid h w.pool p e).1 slot))
Step-stranded k f {w} (closes fid) flight slot stuck =
    unfold pop_forward in pop_found-Stays k f fid w _ slot stuck
Step-stranded k f {w} closes_all flight slot stuck =
    unfold close_all get in
    (
      stuck,
      inr (
        refl,
        ground (
          arith,
          is_in-append f w.pool.cancelled (values w.pool.pending),
          get-values k f w.pool.pending slot,
        ),
      ),
    )

Reach-Flight : (a b c : ℕ) {w : World} → Reach a b c w → FlightOf w
unfolding start empty_pool is_dialing get is_in
Reach-Flight a b c starts = record {
  keys = tt;
  slots = λ k f e. cc;
  single = λ k f e g. cc;
  fresh = λ k f e. cc;
  gone = λ f e. cc;
  owner = λ j k f e g. cc;
}
Reach-Flight a b c (goes r s) = Step-Flight s (Reach-Flight a b c r)

-- In every world that steps lead to, one key has at most one owner that did not come to its end and
-- whose future is not cancelled. Every slot has such an owner, which its failure at once frees, unless
-- the owner was cancelled while it waited for the lock: that slot stays after every further step,
-- until `close_all` takes and cancels it.
pub Reach-single_flight :
    (max_conns idle_timeout max_forwards : ℕ) {w : World}
    → Reach max_conns idle_timeout max_forwards w
    → (k : Text) (f : ℕ)
    → ((g : ℕ)
        → is_dialing k f w.dialing ≡ true
        → is_dialing k g w.dialing ≡ true
        → is_in f w.pool.cancelled ≡ false
        → is_in g w.pool.cancelled ≡ false
        → f ≡ g)
      × (get k w.pool.pending ≡ some f
          → is_in f w.stranded ≡ false
          → (is_dialing k f w.dialing ≡ true)
            × ((v : World) × (Step w v × (get k v.pool.pending ≡ none))))
      × (get k w.pool.pending ≡ some f
          → is_in f w.stranded ≡ true
          → (v : World) → Step w v
          → (is_in f v.stranded ≡ true)
            × ((get k v.pool.pending ≡ some f)
                ⊎ ((get k v.pool.pending ≡ none) × (is_in f v.pool.cancelled ≡ true))))
unfolding fail
Reach-single_flight max_conns idle_timeout max_forwards {w} r k f =
    let flight = Reach-Flight max_conns idle_timeout max_forwards r in
    (
      λ g a b c d. let one = flight.single k f a c in let other = flight.single k g b d in cc,
      λ slot live.
          let d = flight.slots k f slot in
          (d, (_, (fails k f d live, get-release_own k f w.pool.pending flight.keys slot))),
      λ slot stuck v s. Step-stranded k f s flight slot stuck,
    )

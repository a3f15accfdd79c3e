-- ===== src/SshPool/Limit.antt =====
-- The limit of port forwards (`add_forward` of src/relay_shell/sshpool.py).
use relay_shell.Prelude.{
  ℕ, ◌≤◌, ◌≡◌, refl, subst, Bool, Option, none, some, Text, get, length, arith, length-put-le,
  length-remove, Bool-cases, inl, inr,
}
use relay_shell.SshPool.Cache.{
  Pool, Entry, Handle, claim, claim_from, claim_pending, pin, unpin, fail, discard, publish,
  cache_conn, sweep_conns, is_in, conns_of,
}
use relay_shell.SshPool.Forwards.{track-some, pop_forward, pop_found, close_all, forward_count}
use relay_shell.SshPool.Steps.{
  World, Step, sweeps, claims, fails, discards, publishes, strands, pins, unpins, tracks, closes,
  closes_all, Reach, starts, goes, start, claimed, pinned, unpinned, untracked, tracked, empty_pool,
}

abbrev Within : ℕ → Pool → Type 0
Within most p = (p.max_forwards ≡ most) × (length p.forwards ≤ most)

claim_pending-Within :
    (most : ℕ) (key : Text) (w : World) (o : Option ℕ)
    → Within most w.pool
    → Within most (claimed key w (claim_pending key w.pool o)).pool
unfolding claim_pending claimed
claim_pending-Within most key w none h = h
claim_pending-Within most key w (some f) h = h

claim_from-Within :
    (most : ℕ) (is_closed : ℕ → Bool) (now : ℕ) (key : Text) (w : World) (o : Option Entry)
    → Within most w.pool
    → Within most (claimed key w (claim_from is_closed now key w.pool o)).pool
unfolding claim_from claimed
claim_from-Within most is_closed now key w none h =
    claim_pending-Within most key w (get key w.pool.pending) h
claim_from-Within most is_closed now key w (some e) h = elim (Bool-cases (is_closed e.conn)) [
  | inl dead ↦ rw dead (claim_pending-Within most key w (get key w.pool.pending) h)
  | inr live ↦ rw live h
]

unpin-Within :
    (most : ℕ) (entry : Option ℕ) (now : ℕ) (p : Pool)
    → Within most p
    → Within most (unpin entry now p)
unfolding unpin
unpin-Within most none now p h = h
unpin-Within most (some c) now p h = h

pin-Within :
    (most conn now : ℕ) (w : World)
    → Within most w.pool
    → Within most (pinned w (pin conn now w.pool)).pool
unfolding pin pinned
pin-Within most conn now w h = elim (Bool-cases (is_in conn (conns_of w.pool.conns))) [
  | inl there ↦ rw there h
  | inr gone ↦ rw gone h
]

pop_found-Within :
    (most : ℕ) (fid : Text) (w : World) (o : Option Handle)
    → Within most w.pool
    → Within most (untracked w (pop_found fid w.pool o)).pool
unfolding pop_found untracked
pop_found-Within most fid w none h = h
pop_found-Within most fid w (some g) (limit, size) =
    (limit, ground (arith, length-remove fid w.pool.forwards))

Step-Within : (most : ℕ) {w v : World} → Step w v → Within most w.pool → Within most v.pool
Step-Within most {w} (sweeps is_closed now) h = unfold sweep_conns in h
Step-Within most {w} (claims is_closed now key) h =
    unfold claim in claim_from-Within most is_closed now key w (get key w.pool.conns) h
Step-Within most {w} (fails key f d live) h = unfold fail in h
Step-Within most {w} (discards key f d live) h = unfold discard fail in h
Step-Within most {w} (publishes key f now d live) h = unfold publish fail cache_conn in h
Step-Within most {w} (strands key f d) h = h
Step-Within most {w} (pins conn now) h = pin-Within most conn now w h
Step-Within most {w} (unpins entry now held) h =
    unfold unpinned in unpin-Within most entry now w.pool h
Step-Within most {w} (tracks fid g p held free e) (limit, size) =
    let (room, same) = track-some fid g w.pool p e in
    unfold tracked in
    subst (Within most) same
      (limit, omega (arith, room, limit, length-put-le fid g w.pool.forwards))
Step-Within most {w} (closes fid) h =
    unfold pop_forward in pop_found-Within most fid w (get fid w.pool.forwards) h
Step-Within most {w} closes_all (limit, size) = unfold close_all in (limit, omega arith)

Reach-Within : (a b most : ℕ) {w : World} → Reach a b most w → Within most w.pool
unfolding start empty_pool
Reach-Within a b most starts = (refl, omega arith)
Reach-Within a b most (goes r s) = Step-Within most s (Reach-Within a b most r)

-- However the calls interleave, no more forwards are open than the limit allows: of the callers
-- that pass the first check together, only those that still find room keep their listener.
pub forward_count-le :
    (max_conns idle_timeout max_forwards : ℕ) {w : World}
    → Reach max_conns idle_timeout max_forwards w
    → forward_count w.pool ≤ max_forwards
unfolding forward_count
forward_count-le max_conns idle_timeout max_forwards r =
    (Reach-Within max_conns idle_timeout max_forwards r).1

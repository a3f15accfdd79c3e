-- ===== src/SshPool/Safe.antt =====
-- No connection in use is reaped (src/relay_shell/sshpool.py).
use relay_shell.Prelude.{
  ℕ, ◌+◌, ◌≡◌, refl, subst, Bool, List, Option, none, some, Text, Dict, IsDict, get, has_key, put,
  remove, if◌then◌else◌, Bool-cases, inl, inr, arith, put-IsDict, remove-IsDict,
}
use relay_shell.SshPool.Cache.{
  Pool, Entry, Handle, claim, claim_from, claim_pending, pin, unpin, fail, discard, publish,
  cache_conn, sweep_conns, is_in, conns_of, select_conn_evictions,
}
use relay_shell.SshPool.Forwards.{track-some, pop_forward, pop_found, close_all}
use relay_shell.SshPool.Steps.{
  World, Step, sweeps, claims, fails, discards, publishes, strands, pins, unpins, tracks, closes,
  closes_all, Reach, starts, goes, start, claimed, pinned, unpinned, untracked, hold, tracked,
  empty_pool, drop_held,
}
use relay_shell.SshPool.Pins.{conn_uses, uses, entry_use, forward_uses}
use relay_shell.SshPool.Counted.{
  Counted, holders, Counted-kept, Counted-touch, Counted-insert, Counted-pin, Counted-unpin,
  Counted-move, Counted-clear, Counted-later, uses-drop_held, uses-hold, forward_uses-put,
  forward_uses-remove,
}

abbrev pub CountedPool : List ℕ → Pool → Type 0
CountedPool held p = Counted p.conns p.forwards held p.next_conn

abbrev pub CountedWorld : World → Type 0
CountedWorld w = CountedPool w.held w.pool

claim_pending-Counted :
    (key : Text) (w : World) (o : Option ℕ)
    → CountedWorld w
    → CountedWorld (claimed key w (claim_pending key w.pool o))
unfolding claim_pending claimed
claim_pending-Counted key w none c = c
claim_pending-Counted key w (some f) c = c

claim_from-Counted :
    (is_closed : ℕ → Bool) (now : ℕ) (key : Text) (w : World) (o : Option Entry)
    → get key w.pool.conns ≡ o
    → CountedWorld w
    → CountedWorld (claimed key w (claim_from is_closed now key w.pool o))
unfolding claim_from claimed
claim_from-Counted is_closed now key w none h c = claim_pending-Counted key w _ c
claim_from-Counted is_closed now key w (some e) h c = elim (Bool-cases (is_closed e.conn)) [
  | inl dead ↦ rw dead (claim_pending-Counted key w _ c)
  | inr live ↦ rw live (Counted-touch c key e now h)
]

pin-Counted :
    (conn now : ℕ) (w : World) → CountedWorld w → CountedWorld (pinned w (pin conn now w.pool))
unfolding pin pinned
pin-Counted conn now w c = elim (Bool-cases (is_in conn (conns_of w.pool.conns))) [
  | inl there ↦ rw there (Counted-pin c conn now there)
  | inr gone ↦ rw gone c
]

-- A pin of a caller or of a closed forward goes back.
unpin-Counted :
    (entry : Option ℕ) (now : ℕ) (p : Pool) (forwards : Dict Handle) (held held' : List ℕ)
    → IsDict forwards
    → ((x : ℕ) → holders held' forwards x + entry_use x entry ≡ holders held p.forwards x)
    → CountedPool held p
    → CountedPool held' (unpin entry now (record p { forwards = forwards }))
unfolding unpin entry_use
unpin-Counted none now p forwards held held' names less c =
    Counted-move c forwards held' names (λ x. omega (arith, less x))
unpin-Counted (some conn) now p forwards held held' names less c =
    Counted-unpin c conn now forwards held' names less

pop_found-Counted :
    (fid : Text) (w : World) (o : Option Handle)
    → get fid w.pool.forwards ≡ o
    → CountedWorld w
    → CountedWorld (untracked w (pop_found fid w.pool o))
unfolding pop_found untracked
pop_found-Counted fid w none e c = c
pop_found-Counted fid w (some h) e c =
    Counted-move c (remove fid w.pool.forwards) (hold h.entry w.held)
      (remove-IsDict fid w.pool.forwards c.names)
      (λ x.
        omega (arith, uses-hold x h.entry w.held, forward_uses-remove x fid h w.pool.forwards e))

Step-Counted : {w v : World} → Step w v → CountedWorld w → CountedWorld v
Step-Counted {w} (sweeps is_closed now) c = unfold sweep_conns in Counted-kept c _
Step-Counted {w} (claims is_closed now key) c =
    unfold claim in claim_from-Counted is_closed now key w _ refl c
Step-Counted {w} (fails key f d live) c = unfold fail in c
Step-Counted {w} (discards key f d live) c = unfold discard fail in Counted-later c
Step-Counted {w} (publishes key f now d live) c =
    let need : ℕ = if has_key key w.pool.conns then 0 else 1 in
    unfold publish fail cache_conn in
    Counted-insert c key now (select_conn_evictions need w.pool.max_conns w.pool.conns)
Step-Counted {w} (strands key f d) c = c
Step-Counted {w} (pins conn now) c = pin-Counted conn now w c
Step-Counted {w} (unpins entry now h) c =
    unfold unpinned in
    unpin-Counted entry now w.pool w.pool.forwards w.held (drop_held entry w.held) c.names
      (λ x. omega (arith, uses-drop_held x entry w.held h)) c
Step-Counted {w} (tracks fid h p held free e) c =
    unfold tracked in
    subst (λ q. CountedPool (drop_held h.entry w.held) q) (track-some fid h w.pool p e).1
      (Counted-move c (put fid h w.pool.forwards) (drop_held h.entry w.held)
        (put-IsDict fid h w.pool.forwards c.names)
        (λ x. omega (
          arith,
          uses-drop_held x h.entry w.held held,
          forward_uses-put x fid h w.pool.forwards free,
        )))
Step-Counted {w} (closes fid) c = unfold pop_forward in pop_found-Counted fid w _ refl c
Step-Counted {w} closes_all c = unfold close_all in Counted-clear c

-- In every world that steps lead to, each cached connection has one pin for each caller that has
-- pinned it and each forward that listens on it.
pub Reach-Counted : (a b c : ℕ) {w : World} → Reach a b c w → CountedWorld w
unfolding start empty_pool conn_uses uses forward_uses
Reach-Counted a b c starts = record {
  keys = tt;
  names = tt;
  pins = tt;
  one = λ c. omega arith;
  fresh = λ c le. (refl, refl, refl);
}
Reach-Counted a b c (goes r s) = Step-Counted s (Reach-Counted a b c r)

-- ===== src/SshPool/Steps.antt =====
-- The pool under the coroutines that use it (src/relay_shell/sshpool.py): a step is a stretch of
-- `connect`, `_pinned`, `open_process`, `add_forward`, `close_forward` or `close_all`.
use relay_shell.Prelude.{
  ℕ, ◌≡◌, Bool, true, false, List, [], ◌∷◌, Option, none, some, Text, has_key, text_eq, ◌==◌, ◌&&◌,
  ◌||◌, if◌then◌else◌,
}
use relay_shell.SshPool.Cache.{
  Pool, Handle, Claim, cached, waits, owns, sweep_conns, claim, pin, unpin, fail, discard, publish,
  is_in,
}
use relay_shell.SshPool.Forwards.{track, pop_forward, close_all}

-- The pool with what the coroutines hold: the entries pinned by a caller that has neither released
-- the pin nor handed it to a forward, the closing of a forward included; the owners that claimed a
-- future and did not come to their end, each with key and future; and the futures among these whose
-- owner was cancelled while it waited for the lock, so that it never will.
pub record World : Type 0 where
  pub pool : Pool
  pub held : List ℕ
  pub dialing : List (Text × ℕ)
  pub stranded : List ℕ

unfoldable pub drop_one : ℕ → List ℕ → List ℕ
drop_one c [] = []
drop_one c (x ∷ xs) = let rest = drop_one c xs in if x == c then xs else x ∷ rest

unfoldable pub is_dialing : Text → ℕ → List (Text × ℕ) → Bool
is_dialing k f [] = false
is_dialing k f ((j, g) ∷ ds) = (text_eq j k && g == f) || is_dialing k f ds

-- An owner has ended.
unfoldable pub without : ℕ → List (Text × ℕ) → List (Text × ℕ)
without f [] = []
without f ((j, g) ∷ ds) = let rest = without f ds in if g == f then rest else (j, g) ∷ rest

unfoldable pub claimed : Text → World → Pool × Claim → World
claimed key w (p, cached c) = record w { pool = p }
claimed key w (p, waits f) = record w { pool = p }
claimed key w (p, owns f) = record w { pool = p; dialing = (key, f) ∷ w.dialing }

unfoldable pub pinned : World → Pool × Option ℕ → World
pinned w (p, none) = record w { pool = p }
pinned w (p, some c) = record w { pool = p; held = c ∷ w.held }

unfoldable pub drop_held : Option ℕ → List ℕ → List ℕ
unfolding drop_one
drop_held none held = held
drop_held (some c) held = drop_one c held

unfoldable pub is_held : Option ℕ → List ℕ → Bool
unfolding is_in
is_held none held = true
is_held (some c) held = is_in c held

unfoldable pub unpinned : Option ℕ → ℕ → World → World
unfolding drop_held unpin
unpinned entry now w = record w { pool = unpin entry now w.pool; held = drop_held entry w.held }

unfoldable pub hold : Option ℕ → List ℕ → List ℕ
hold none held = held
hold (some c) held = c ∷ held

-- Who closes a forward has its pin until the listener is closed.
unfoldable pub untracked : World → Pool × Option Handle → World
unfolding hold
untracked w (p, none) = record w { pool = p }
untracked w (p, some h) = record w { pool = p; held = hold h.entry w.held }

-- A forward takes the pin over.
unfoldable pub tracked : Option ℕ → Pool → World → World
unfolding drop_held
tracked entry p w = record w { pool = p; held = drop_held entry w.held }

-- One stretch. The lock of `connect` behind a dial stands outside its `try`, or in the handler: an
-- owner that is cancelled while it waits for it leaves its slot as it is. An id that `gen_id` draws for a forward is new.
pub data Step (w : World) : World → Type 0 where
  sweeps :
      (is_closed : ℕ → Bool) (now : ℕ)
      → Step w (record w { pool = sweep_conns is_closed now w.pool })
  claims :
      (is_closed : ℕ → Bool) (now : ℕ) (key : Text)
      → Step w (claimed key w (claim is_closed now key w.pool))
  fails :
      (key : Text) (f : ℕ)
      → is_dialing key f w.dialing ≡ true
      → is_in f w.stranded ≡ false
      → Step w (record w { pool = fail key f w.pool; dialing = without f w.dialing })
  discards :
      (key : Text) (f : ℕ)
      → is_dialing key f w.dialing ≡ true
      → is_in f w.stranded ≡ false
      → Step w (record w { pool = discard key f w.pool; dialing = without f w.dialing })
  publishes :
      (key : Text) (f now : ℕ)
      → is_dialing key f w.dialing ≡ true
      → is_in f w.stranded ≡ false
      → Step w (record w { pool = publish key f now w.pool; dialing = without f w.dialing })
  strands :
      (key : Text) (f : ℕ)
      → is_dialing key f w.dialing ≡ true
      → Step w (record w { stranded = f ∷ w.stranded })
  pins : (conn now : ℕ) → Step w (pinned w (pin conn now w.pool))
  unpins :
      (entry : Option ℕ) (now : ℕ) → is_held entry w.held ≡ true → Step w (unpinned entry now w)
  tracks :
      (fid : Text) (h : Handle) (p : Pool)
      → is_held h.entry w.held ≡ true
      → has_key fid w.pool.forwards ≡ false
      → track fid h w.pool ≡ some p
      → Step w (tracked h.entry p w)
  closes : (fid : Text) → Step w (untracked w (pop_forward fid w.pool))
  closes_all : Step w (record w { pool = close_all w.pool })

unfoldable pub empty_pool : ℕ → ℕ → ℕ → Pool
empty_pool max_conns idle_timeout max_forwards = record {
  max_conns = max_conns;
  idle_timeout = idle_timeout;
  max_forwards = max_forwards;
  conns = [];
  forwards = [];
  pending = [];
  cancelled = [];
  closed = [];
  next_conn = 0;
  next_future = 0;
}

unfoldable pub start : ℕ → ℕ → ℕ → World
unfolding empty_pool
start max_conns idle_timeout max_forwards = record {
  pool = empty_pool max_conns idle_timeout max_forwards;
  held = [];
  dialing = [];
  stranded = [];
}

-- The worlds that steps lead to from an empty pool.
pub data Reach (max_conns idle_timeout max_forwards : ℕ) : World → Type 0 where
  starts : Reach max_conns idle_timeout max_forwards (start max_conns idle_timeout max_forwards)
  goes :
      {w v : World}
      → Reach max_conns idle_timeout max_forwards w
      → Step w v
      → Reach max_conns idle_timeout max_forwards v

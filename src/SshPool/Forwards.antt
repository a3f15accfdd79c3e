-- ===== src/SshPool/Forwards.antt =====
-- The port forwards of `SshPool` and its shutdown (src/relay_shell/sshpool.py).
use relay_shell.Prelude.{
  ℕ, ◌<◌, ◌≡◌, inl, inr, arith, Bool-cases, Bool, [], ◌++◌, Option, none, some, Text, get, put,
  remove, length, values, ltb, leb, if◌then◌else◌,
}
use relay_shell.SshPool.Cache.{Handle, Pool, conns_of}

-- The first check of `add_forward`, before it connects.
unfoldable pub has_room : Pool → Bool
has_room p = ltb (length p.forwards) p.max_forwards

-- The check of `add_forward` that counts, with the entry of the handle; `none` is `ForwardError`,
-- behind which the caller gives its pin back.
unfoldable pub track : Text → Handle → Pool → Option Pool
track fid h p =
    if leb p.max_forwards (length p.forwards)
    then none
    else some (record p { forwards = put fid h p.forwards })

-- The critical section of `close_forward`, which gives the handle it took out; `none` is its error
-- text. Behind it the listener is closed, and then the pin of the entry goes back by `unpin`.
unfoldable pub pop_found : Text → Pool → Option Handle → Pool × Option Handle
pop_found fid p none = (p, none)
pop_found fid p (some h) = (record p { forwards = remove fid p.forwards }, some h)

unfoldable pub pop_forward : Text → Pool → Pool × Option Handle
unfolding pop_found
pop_forward fid p = pop_found fid p (get fid p.forwards)

-- `forward_count`
unfoldable pub forward_count : Pool → ℕ
forward_count p = length p.forwards

-- `close_all`, which cancels the futures that callers wait for.
unfoldable pub close_all : Pool → Pool
unfolding conns_of values
close_all p = record p {
  forwards = [];
  conns = [];
  pending = [];
  cancelled = p.cancelled ++ values p.pending;
  closed = p.closed ++ conns_of p.conns;
}

-- A forward is tracked only below the limit.
pub track-some :
    (fid : Text) (h : Handle) (p q : Pool)
    → track fid h p ≡ some q
    → (length p.forwards < p.max_forwards) × (record p { forwards = put fid h p.forwards } ≡ q)
unfolding track
track-some fid h p q e = elim (Bool-cases (leb p.max_forwards (length p.forwards))) [
  | inl full ↦ let wrong : none ≡ some q = rw full at e in cc
  | inr room ↦ (
    ground arith,
    let same : some (record p { forwards = put fid h p.forwards }) ≡ some q = rw room at e in cc,
  )
]

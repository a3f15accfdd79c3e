-- ===== src/SshPool/Cache.antt =====
-- The connection cache and the port forwards of `SshPool` (src/relay_shell/sshpool.py). Every
-- definition is one stretch of code without an `await`, and the lock's critical sections are among
-- them. A connection, an entry and its connection, and a future have a number for their identity:
-- an entry is made with its connection and never given another. The clock is in whole seconds.
use relay_shell.Prelude.{
  ℕ, suc, ◌+◌, ◌-◌, Bool, false, ◌&&◌, ◌||◌, List, [], ◌∷◌, ◌++◌, Option, none, some, Text, Dict,
  get, has_key, put, remove, remove_all, length, take, ltb, leb, ◌==◌, if◌then◌else◌,
}

-- `_ConnEntry`
pub record Entry : Type 0 where
  pub conn : ℕ
  pub last_used : ℕ
  pub pins : ℕ

-- `ForwardHandle`; `entry` is the connection of the entry it pins.
pub record Handle : Type 0 where
  pub kind : Text
  pub spec : Text
  pub listen_port : ℕ
  pub target : Text
  pub entry : Option ℕ

-- `SshPool` with the three settings it reads, the futures that were cancelled, the connections that
-- it closed, and the next numbers.
pub record Pool : Type 0 where
  pub max_conns : ℕ
  pub idle_timeout : ℕ
  pub max_forwards : ℕ
  pub conns : Dict Entry
  pub forwards : Dict Handle
  pub pending : Dict ℕ
  pub cancelled : List ℕ
  pub closed : List ℕ
  pub next_conn : ℕ
  pub next_future : ℕ

unfoldable pub is_in : ℕ → List ℕ → Bool
is_in x [] = false
is_in x (y ∷ ys) = y == x || is_in x ys

-- The test of `_sweep_conns`; what a closed connection answers is an argument.
unfoldable pub is_doomed : (ℕ → Bool) → ℕ → ℕ → Entry → Bool
is_doomed is_closed now timeout e =
    is_closed e.conn || (ltb 0 timeout && e.pins == 0 && ltb timeout (now - e.last_used))

unfoldable pub kept : (Entry → Bool) → Dict Entry → Dict Entry
kept doomed [] = []
kept doomed ((k, e) ∷ d) = let rest = kept doomed d in if doomed e then rest else (k, e) ∷ rest

unfoldable pub popped : (Entry → Bool) → Dict Entry → List ℕ
popped doomed [] = []
popped doomed ((k, e) ∷ d) = let rest = popped doomed d in if doomed e then e.conn ∷ rest else rest

-- `_sweep_conns`
unfoldable pub sweep_conns : (ℕ → Bool) → ℕ → Pool → Pool
unfolding is_doomed kept popped
sweep_conns is_closed now p =
    let doomed = is_doomed is_closed now p.idle_timeout in
    record p { conns = kept doomed p.conns; closed = p.closed ++ popped doomed p.conns }

-- `sorted` by the time of the last use, which keeps the order of equal times.
unfoldable pub insert_by_use : Text × Entry → Dict Entry → Dict Entry
insert_by_use x [] = x ∷ []
insert_by_use x (y ∷ ys) =
    let rest = insert_by_use x ys in
    if leb x.1.last_used y.1.last_used then x ∷ y ∷ ys else y ∷ rest

unfoldable pub unpinned_by_use : Dict Entry → Dict Entry
unfolding insert_by_use
unpinned_by_use [] = []
unpinned_by_use ((k, e) ∷ d) =
    let rest = unpinned_by_use d in if e.pins == 0 then insert_by_use (k, e) rest else rest

-- `_select_conn_evictions`, with the entries of the keys.
unfoldable pub select_conn_evictions : ℕ → ℕ → Dict Entry → Dict Entry
unfolding unpinned_by_use
select_conn_evictions need cap d =
    if cap == 0 then [] else take (length d + need - cap) (unpinned_by_use d)

unfoldable pub conns_of : Dict Entry → List ℕ
conns_of [] = []
conns_of ((k, e) ∷ d) = e.conn ∷ conns_of d

-- The first entry of a connection is changed.
unfoldable pub on_first : (Entry → Entry) → ℕ → Dict Entry → Dict Entry
on_first f conn [] = []
on_first f conn ((k, e) ∷ d) =
    let rest = on_first f conn d in if e.conn == conn then (k, f e) ∷ d else (k, e) ∷ rest

unfoldable pub add_pin : ℕ → Entry → Entry
add_pin now e = record e { pins = suc e.pins; last_used = now }

unfoldable pub drop_pin : ℕ → Entry → Entry
drop_pin now e = record e { pins = e.pins - 1; last_used = now }

-- `_pin`, which returns the entry by its connection's number.
unfoldable pub pin : ℕ → ℕ → Pool → Pool × Option ℕ
unfolding is_in conns_of on_first add_pin
pin conn now p =
    if is_in conn (conns_of p.conns)
    then (record p { conns = on_first (add_pin now) conn p.conns }, some conn)
    else (p, none)

-- `_unpin`, which leaves an entry that is no longer cached out of account.
unfoldable pub unpin : Option ℕ → ℕ → Pool → Pool
unfolding on_first drop_pin
unpin none now p = p
unpin (some conn) now p = record p { conns = on_first (drop_pin now) conn p.conns }

-- What `connect` comes to under its lock: the cached connection, the future of another caller, or a
-- future of its own.
pub data Claim : Type 0 where
  cached : ℕ → Claim
  waits : ℕ → Claim
  owns : ℕ → Claim

unfoldable pub claim_pending : Text → Pool → Option ℕ → Pool × Claim
claim_pending key p (some f) = (p, waits f)
claim_pending key p none = (
  record p { pending = put key p.next_future p.pending; next_future = suc p.next_future },
  owns p.next_future,
)

unfoldable pub claim_from : (ℕ → Bool) → ℕ → Text → Pool → Option Entry → Pool × Claim
unfolding claim_pending
claim_from is_closed now key p none = claim_pending key p (get key p.pending)
claim_from is_closed now key p (some e) =
    if is_closed e.conn
    then claim_pending key p (get key p.pending)
    else (record p { conns = put key (record e { last_used = now }) p.conns }, cached e.conn)

unfoldable pub claim : (ℕ → Bool) → ℕ → Text → Pool → Pool × Claim
unfolding claim_from
claim is_closed now key p = claim_from is_closed now key p (get key p.conns)

-- `if self._pending.get(key) is own_future: self._pending.pop(key, None)`
unfoldable pub is_own : ℕ → Option ℕ → Bool
is_own f none = false
is_own f (some g) = g == f

unfoldable pub release : Text → ℕ → Dict ℕ → Dict ℕ
unfolding is_own
release key f pending = if is_own f (get key pending) then remove key pending else pending

-- `connect` behind a dial that failed or was cancelled.
unfoldable pub fail : Text → ℕ → Pool → Pool
unfolding release
fail key f p = record p { pending = release key f p.pending }

unfoldable pub cache_conn : Text → ℕ → Pool → Pool
unfolding select_conn_evictions remove_all conns_of
cache_conn key now p =
    let need = if has_key key p.conns then 0 else 1 in
    let evicted = select_conn_evictions need p.max_conns p.conns in
    record p {
      conns =
          put key (record { conn = p.next_conn; last_used = now; pins = 0 })
            (remove_all evicted p.conns);
      closed = p.closed ++ conns_of evicted;
      next_conn = suc p.next_conn;
    }

-- `connect` behind a dial that gave a new connection, when its future was cancelled meanwhile. The
-- connection is closed in front of the lock; nothing else reads that.
unfoldable pub discard : Text → ℕ → Pool → Pool
unfolding fail
discard key f p = record (fail key f p) {
  closed = p.closed ++ p.next_conn ∷ [];
  next_conn = suc p.next_conn;
}

-- The same when it was not. Between the test and the lock others may run, `close_all` as well.
unfoldable pub publish : Text → ℕ → ℕ → Pool → Pool
unfolding fail cache_conn
publish key f now p = fail key f (cache_conn key now p)

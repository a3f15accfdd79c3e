-- ===== src/SshPool/Reaper.antt =====
-- What the idle sweep and the evictions of a reached pool leave (src/relay_shell/sshpool.py).
use relay_shell.Prelude.{
  ℕ, ◌+◌, ◌≤◌, ◌<◌, ◌≡◌, ◌≢◌, max, refl, Bool, false, [], ◌∷◌, some, Text, Dict, IsDict, get,
  has_key, text_eq, text_eq_iff, if◌then◌else◌, arith, All-get, get-put, length, length-put-le,
  count_if, remove_all, Bool-cases, inl, inr,
}
use relay_shell.SshPool.Cache.{
  Pool, Entry, is_doomed, kept, sweep_conns, publish, fail, cache_conn, select_conn_evictions,
}
use relay_shell.SshPool.Steps.{World, Reach}
use relay_shell.SshPool.Pins.{Pinned}
use relay_shell.SshPool.Counted.{holders}
use relay_shell.SshPool.Safe.{Reach-Counted}
use relay_shell.SshPool.Evictions.{is_pinned, get-evictions, length-evictions}

get-kept :
    (doomed : Entry → Bool) (key : Text) (e : Entry) (d : Dict Entry)
    → get key d ≡ some e
    → doomed e ≡ false
    → get key (kept doomed d) ≡ some e
unfolding get kept
get-kept doomed key e [] g n = cc
get-kept doomed key e ((k, x) ∷ d) g n = elim (Bool-cases (text_eq k key)) [
  | inl same ↦
      let this : some x ≡ some e = rw same at g in let here : x ≡ e = cc in rw (here, n, same) refl
  | inr other ↦ ground (arith, get-kept doomed key e d (rw other at g) n)
]

pinned_stays :
    (is_closed : ℕ → Bool) (now timeout : ℕ) (e : Entry)
    → is_closed e.conn ≡ false
    → e.pins ≢ 0
    → is_doomed is_closed now timeout e ≡ false
unfolding is_doomed
pinned_stays is_closed now timeout e live busy = ground arith

cached_elsewhere :
    (other : Text) (f now : ℕ) (key : Text) (e : Entry) (p : Pool)
    → IsDict p.conns
    → get key p.conns ≡ some e
    → e.pins ≢ 0
    → other ≢ key
    → get key (publish other f now p).conns ≡ some e
unfolding publish fail cache_conn
cached_elsewhere other f now key e p keys g busy ne = ground (
  arith,
  get-put other key (record { conn = p.next_conn; last_used = now; pins = 0 })
      (remove_all
        (select_conn_evictions (if has_key other p.conns then 0 else 1) p.max_conns p.conns)
        p.conns),
  get-evictions (if has_key other p.conns then 0 else 1) p.max_conns key e p.conns keys g busy,
  text_eq_iff other key,
)

-- In every world that steps lead to, an entry whose connection a caller has pinned or a forward
-- listens on survives the sweep while the connection is open, and the caching of any other
-- connection.
pub Reach-held_stays :
    (max_conns idle_timeout max_forwards : ℕ) {w : World}
    → Reach max_conns idle_timeout max_forwards w
    → (key : Text) (e : Entry) → get key w.pool.conns ≡ some e
    → 1 ≤ holders w.held w.pool.forwards e.conn
    → ((is_closed : ℕ → Bool) (now : ℕ)
        → is_closed e.conn ≡ false
        → get key (sweep_conns is_closed now w.pool).conns ≡ some e)
      × ((other : Text) (f now : ℕ)
          → other ≢ key
          → get key (publish other f now w.pool).conns ≡ some e)
Reach-held_stays max_conns idle_timeout max_forwards {w} r key e g held =
    let counted = Reach-Counted max_conns idle_timeout max_forwards r in
    let pins : e.pins ≡ holders w.held w.pool.forwards e.conn =
      All-get (Pinned (holders w.held w.pool.forwards)) key w.pool.conns e counted.pins g in
    let busy : e.pins ≢ 0 = λ z. omega (arith, pins, z, held) in
    (
      λ is_closed now live.
          unfold sweep_conns in
          get-kept _ key e w.pool.conns g
            (pinned_stays is_closed now w.pool.idle_timeout e live busy),
      λ other f now ne. cached_elsewhere other f now key e w.pool counted.keys g busy ne,
    )

-- In every world that steps lead to, caching a connection under a new key leaves at most
-- `max_conns` connections, or one more than those that are pinned where they are as many. A limit
-- of 0 is none.
pub Reach-conns_bounded :
    (max_conns idle_timeout max_forwards : ℕ) {w : World}
    → Reach max_conns idle_timeout max_forwards w
    → (key : Text) (f now : ℕ) → 0 < w.pool.max_conns
    → has_key key w.pool.conns ≡ false
    → length (publish key f now w.pool).conns
      ≤ max w.pool.max_conns (count_if is_pinned w.pool.conns + 1)
unfolding publish fail cache_conn
Reach-conns_bounded max_conns idle_timeout max_forwards {w} r key f now on new =
    let counted = Reach-Counted max_conns idle_timeout max_forwards r in
    let left = remove_all (select_conn_evictions 1 w.pool.max_conns w.pool.conns) w.pool.conns in
    let made : Entry = record { conn = w.pool.next_conn; last_used = now; pins = 0 } in
    rw new (
      omega (
        arith,
        length-evictions 1 w.pool.max_conns w.pool.conns counted.keys on,
        length-put-le key made left,
      ))

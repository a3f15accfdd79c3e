-- ===== src/Sessions.antt =====
-- The session registry (src/relay_shell/sessions.py). Every definition is one stretch of code
-- without an `await`, so that a sequence of them is an interleaving of the coroutines. A clock
-- reading, an id from `gen_id` and a backend's exit code are arguments; times are whole seconds.
pub mod Line
pub mod Stream
pub mod Limits
pub mod Wakes
pub mod Held
mod Examples
use relay_shell.Prelude.{
  ℕ, suc, ◌+◌, ◌-◌, Bool, true, false, ◌&&◌, ◌||◌, List, [], ◌∷◌, ◌++◌, Option, none, some, Text,
  codes, Dict, get, put, remove, length, take, drop, ltb, leb, ◌==◌, if◌then◌else◌, ℤ, show_int,
  text_eq,
}
use Line.{advance_line, utf8_cut, last_chars}

-- `Session`. The lock is left out: each definition is atomic.
pub record Session : Type 0 where
  pub kind : Text
  pub title : Text
  pub cols : ℕ
  pub rows : ℕ
  pub created : ℕ
  pub last_used : ℕ
  pub buffer : List ℕ
  pub produced : ℕ
  pub dropped : ℕ
  pub closed : Bool
  pub exit_code : Option ℤ
  pub event : Bool
  pub waiters : ℕ
  pub pending : Text
  pub tail : List ℕ

-- `SessionRegistry`, with the sessions that were handed to `_teardown_unregistered`.
pub record Registry : Type 0 where
  pub max_sessions : ℕ
  pub idle_timeout : ℕ
  pub buffer_cap : ℕ
  pub sessions : Dict Session
  pub doomed : List Text

unfoldable pub is_empty : List ℕ → Bool
is_empty [] = true
is_empty (b ∷ bs) = false

unfoldable pub new_session : Text → Text → ℕ → ℕ → ℕ → Session
new_session kind title cols rows now = record {
  kind = kind;
  title = title;
  cols = cols;
  rows = rows;
  created = now;
  last_used = now;
  buffer = [];
  produced = 0;
  dropped = 0;
  closed = false;
  exit_code = none;
  event = false;
  waiters = 0;
  pending = [];
  tail = [];
}

-- `_sink` in `add`: the buffer drops from its front what is over the cap.
unfoldable pub sink : ℕ → List ℕ → Session → Session
unfolding last_chars
sink cap bs s =
    let buffer = s.buffer ++ bs in
    let overflow = length buffer - cap in
    record s {
      produced = s.produced + length bs;
      buffer = drop overflow buffer;
      dropped = s.dropped + overflow;
      tail = last_chars 512 (s.tail ++ bs);
      event = true;
    }

-- The `finally` of `_run_reader`.
unfoldable pub reader_done : Option ℤ → Session → Session
reader_done returncode s = record s { closed = true; exit_code = returncode; event = true }

-- `send` up to the write of the transport; `decode` is the UTF-8 decoder with replacement.
unfoldable pub send : (List ℕ → Text) → ℕ → List ℕ → Session → Session
unfolding advance_line
send decode now bs s = record s {
  last_used = now;
  pending = advance_line s.pending (decode bs);
  tail = [];
}

-- `recv`: its entry, one round under the session's lock, and its `finally`.
unfoldable pub recv_enter : ℕ → Session → Session
recv_enter now s = record s { last_used = now; waiters = suc s.waiters }

-- What a round of `recv` comes to: the bytes it takes, the end of the session, or a wait.
pub data Received : Type 0 where
  bytes : List ℕ → Received
  ended : Option ℤ → Received
  waits : Received

unfoldable pub recv_round : ℕ → Session → Session × Received
unfolding utf8_cut is_empty
recv_round max_bytes s =
    if is_empty s.buffer
    then (if s.closed then (s, ended s.exit_code) else (record s { event = false }, waits))
    else (let n = utf8_cut s.buffer max_bytes in
        let rest = drop n s.buffer in
        (
          record s {
            buffer = rest;
            event = if is_empty rest && (if s.closed then false else true) then false else s.event;
          },
          bytes (take n s.buffer),
        ))

unfoldable pub recv_leave : ℕ → Session → Session
recv_leave now s = record s { waiters = s.waiters - 1; last_used = now }

unfoldable pub resize : ℕ → ℕ → ℕ → Session → Session
resize now cols rows s = record s { cols = cols; rows = rows; last_used = now }

unfoldable pub kill : ℕ → Session → Session
kill now s = record s { last_used = now }

-- The test of `_sweep`.
unfoldable pub is_doomed : ℕ → ℕ → Session → Bool
unfolding is_empty
is_doomed now idle_timeout s =
    s.waiters == 0
    && ((s.closed && is_empty s.buffer && ltb 5 (now - s.last_used))
        || ltb idle_timeout (now - s.last_used))

unfoldable pub kept : ℕ → ℕ → Dict Session → Dict Session
unfolding is_doomed
kept now idle [] = []
kept now idle ((sid, s) ∷ d) =
    let rest = kept now idle d in if is_doomed now idle s then rest else (sid, s) ∷ rest

unfoldable pub popped : ℕ → ℕ → Dict Session → List Text
unfolding is_doomed
popped now idle [] = []
popped now idle ((sid, s) ∷ d) =
    let rest = popped now idle d in if is_doomed now idle s then sid ∷ rest else rest

unfoldable pub sweep : ℕ → Registry → Registry
unfolding kept popped
sweep now r = record r {
  sessions = kept now r.idle_timeout r.sessions;
  doomed = r.doomed ++ popped now r.idle_timeout r.sessions;
}

-- The check and the insertion of `add`; `none` is the `SessionError` of a full registry.
unfoldable pub insert_new : Text → Session → Registry → Option Registry
insert_new sid s r =
    if leb r.max_sessions (length r.sessions)
    then none
    else some (record r { sessions = put sid s r.sessions })

unfoldable pub or_refused : Registry → Option Registry → Registry × Bool
or_refused r none = (r, false)
or_refused r (some s) = (s, true)

-- The critical section of `add`; the sweep in front of it is a stretch of its own.
unfoldable pub add : ℕ → Text → Text → ℕ → ℕ → Text → Registry → Registry × Bool
unfolding insert_new new_session or_refused
add now kind title cols rows sid r =
    or_refused r (insert_new sid (new_session kind title cols rows now) r)

-- An operation on the session of an id; `none` is `unknown session`.
unfoldable pub on_found : Text → (Session → Session) → Registry → Option Session → Option Registry
on_found sid f r none = none
on_found sid f r (some s) = some (record r { sessions = put sid (f s) r.sessions })

unfoldable pub on_session : Text → (Session → Session) → Registry → Option Registry
unfolding on_found
on_session sid f r = on_found sid f r (get sid r.sessions)

unfoldable pub close_found : Text → Registry → Option Session → Option Registry
close_found sid r none = none
close_found sid r (some s) =
    some (record r { sessions = remove sid r.sessions; doomed = r.doomed ++ sid ∷ [] })

unfoldable pub close : Text → Registry → Option Registry
unfolding close_found
close sid r = close_found sid r (get sid r.sessions)

-- The ids of a registry, in order.
unfoldable pub ids : Dict Session → List Text
ids [] = []
ids ((sid, s) ∷ d) = sid ∷ ids d

unfoldable pub shutdown : Registry → Registry
unfolding ids
shutdown r = record r { sessions = []; doomed = r.doomed ++ ids r.sessions }

-- `count`
unfoldable pub count : Registry → ℕ
count r = length r.sessions

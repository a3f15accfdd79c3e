-- ===== src/Broker.antt =====
-- The two-step confirmation broker (src/relay_shell/broker.py). Each method takes the clock
-- reading that it makes; `plan` takes the token that `secrets.token_urlsafe` draws.
pub mod Store
pub mod Evict
pub mod Armed
pub mod History
pub mod Invariant
pub mod Confirmation
pub mod Passes
pub mod Bounds
mod Examples
use relay_shell.Prelude.{
  ℕ, ◌+◌, max, Bool, true, false, Option, none, some, List, [], ◌∷◌, ◌++◌, Text, text_eq, Dict, get,
  put, remove, length, ◌&&◌, if◌then◌else◌,
}
use Store.{Entry, sweep_entries}

-- `ConfirmationBroker`, without its lock: every method is one critical section.
pub record Broker : Type 0 where
  pub ttl : ℕ
  pub max_pending : ℕ
  pub by_token : Dict Entry

pub record Challenge : Type 0 where
  pub token : Text
  pub challenge_ttl : ℕ

-- `__init__`
unfoldable pub init : ℕ → ℕ → Broker
init ttl max_pending = record { ttl = max 1 ttl; max_pending = max_pending; by_token = [] }

unfoldable pub sweep : ℕ → Broker → Broker
sweep now b = record b { by_token = sweep_entries now b.max_pending b.by_token }

-- The first armed entry of the operation and client, as `next(...)` over the dict's items.
unfoldable pub match_token : Text → Text → Dict Entry → Option Text
match_token target client [] = none
match_token target client ((tok, e) ∷ d) =
    if e.armed && (text_eq e.op_hash target && text_eq e.client_id client)
    then some tok
    else match_token target client d

-- The entry is one object of the store: arming it is seen at its token.
unfoldable pub set_armed : Text → Dict Entry → Dict Entry
set_armed tok [] = []
set_armed tok ((j, e) ∷ d) =
    if text_eq j tok then (j, record e { armed = true }) ∷ d else (j, e) ∷ set_armed tok d

unfoldable pub arm_entry : Text → Text → Broker → Option Entry → Broker × Bool
arm_entry tok client b none = (b, false)
arm_entry tok client b (some e) =
    if text_eq e.client_id client
    then (record b { by_token = set_armed tok b.by_token }, true)
    else (b, false)

unfoldable pub arm : ℕ → Text → Text → Broker → Broker × Bool
unfolding sweep arm_entry
arm now tok client b = let s = sweep now b in arm_entry tok client s (get tok s.by_token)

unfoldable pub burn : Broker → Option Text → Broker × Bool
burn b none = (b, false)
burn b (some tok) = (record b { by_token = remove tok b.by_token }, true)

unfoldable pub pending : ℕ → Broker → Broker × ℕ
unfolding sweep
pending now b = let s = sweep now b in (s, length s.by_token)

-- SHA-256 is the standard library's: a parameter here.
module _ (sha256_hex : Text → Text) where
  unfoldable pub op_hash : Text → Text → Text
  op_hash tool op_key = sha256_hex (tool ++ 0 ∷ op_key)

  unfoldable pub plan : ℕ → Text → Text → Text → Text → Broker → Broker × Challenge
  unfolding sweep op_hash
  plan now token tool op_key client b =
      let s = sweep now b in
      let e : Entry = record {
        op_hash = op_hash tool op_key;
        expires_at = now + b.ttl;
        client_id = client;
        armed = false;
      } in
      (
        sweep now (record s { by_token = put token e s.by_token }),
        record { token = token; challenge_ttl = b.ttl },
      )

  unfoldable pub consume : ℕ → Text → Text → Text → Broker → Broker × Bool
  unfolding sweep op_hash match_token burn
  consume now tool op_key client b =
      let s = sweep now b in burn s (match_token (op_hash tool op_key) client s.by_token)

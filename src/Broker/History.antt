-- ===== src/Broker/History.antt =====
-- Sequences of calls on one broker, and what a token in its store says of the calls before.
use relay_shell.Prelude.{ℕ, ◌+◌, ◌<◌, ◌≡◌, true, List, [], ◌∷◌, Text, IsDict, All}
use relay_shell.Broker.Store.{Entry}
use relay_shell.Broker.{Broker, plan, arm, consume, pending, op_hash}

pub data Call : Type 0 where
  plans : Text → Text → Text → Text → Call
  arms : Text → Text → Call
  consumes : Text → Text → Text → Call
  counts : Call

-- Each call with its clock reading, the latest first.
abbrev pub History : Type 0
History = List (ℕ × Call)

module _ (sha256_hex : Text → Text) where
  unfoldable pub step : ℕ × Call → Broker → Broker
  unfolding plan arm consume pending
  step (now, plans tok tool key client) b = (plan sha256_hex now tok tool key client b).0
  step (now, arms tok client) b = (arm now tok client b).0
  step (now, consumes tool key client) b = (consume sha256_hex now tool key client b).0
  step (now, counts) b = (pending now b).0

  unfoldable pub run : Broker → History → Broker
  run b [] = b
  run b (h ∷ hs) = step h (run b hs)

-- `client` planned `tok` for the operation of this hash, and the token runs out at `expires`.
pub data Planned (sha256_hex : Text → Text) (ttl : ℕ) (tok : Text) (e : Entry)
    : History → Type 0 where
  made :
      {hs : History} (t : ℕ) (tool key : Text)
      → e.op_hash ≡ op_hash sha256_hex tool key
      → e.expires_at ≡ t + ttl
      → Planned sha256_hex ttl tok e ((t, plans tok tool key e.client_id) ∷ hs)
  before :
      {hs : History} {h : ℕ × Call}
      → Planned sha256_hex ttl tok e hs
      → Planned sha256_hex ttl tok e (h ∷ hs)

-- The same client armed it after that, and before it ran out.
pub data Confirmed (sha256_hex : Text → Text) (ttl : ℕ) (tok : Text) (e : Entry)
    : History → Type 0 where
  done :
      {hs : History} (t : ℕ)
      → Planned sha256_hex ttl tok e hs
      → t < e.expires_at
      → Confirmed sha256_hex ttl tok e ((t, arms tok e.client_id) ∷ hs)
  earlier :
      {hs : History} {h : ℕ × Call}
      → Confirmed sha256_hex ttl tok e hs
      → Confirmed sha256_hex ttl tok e (h ∷ hs)

module _ (sha256_hex : Text → Text) (ttl : ℕ) where
  pub record Justified (hs : History) (p : Text × Entry) : Type 0 where
    pub planned : Planned sha256_hex ttl p.0 p.1 hs
    pub confirmed : p.1.armed ≡ true → Confirmed sha256_hex ttl p.0 p.1 hs

  pub record Inv (hs : History) (b : Broker) : Type 0 where
    pub keys : IsDict b.by_token
    pub term : b.ttl ≡ ttl
    pub justified : All (Justified hs) b.by_token

-- ===== src/Oauth/Grants.antt =====
-- The records of the OAuth stores, their keys, and the texts that may be looked up
-- (src/relay_shell/auth/oauth.py). SHA-256 is a parameter.
use relay_shell.Prelude.{
  ℕ, Bool, true, false, ◌&&◌, ◌||◌, List, [], ◌∷◌, ◌++◌, Option, none, some, Text, codes, Dict, get,
  remove, length, leb, ltb, ◌==◌, if◌then◌else◌,
}

-- A record of tokens.json: an access token, a refresh token, or the marker of a spent one.
pub record Grant : Type 0 where
  pub client_id : Text
  pub scopes : List Text
  pub resource : Option Text
  pub expires_at : ℕ
  pub spent_at : Option ℕ

-- A record of codes.json.
pub record Code : Type 0 where
  pub client_id : Text
  pub scopes : List Text
  pub resource : Option Text
  pub expires_at : ℕ
  pub code_challenge : Text
  pub redirect_uri : Text
  pub redirect_uri_provided_explicitly : Bool

-- `_SECRET_RE`
unfoldable pub is_secret_char : ℕ → Bool
is_secret_char c =
    (leb 65 c && leb c 90)
    || (leb 97 c && leb c 122)
    || (leb 48 c && leb c 57)
    || c == 95
    || c == 45

unfoldable pub all_secret : Text → Bool
unfolding is_secret_char
all_secret [] = true
all_secret (c ∷ s) = is_secret_char c && all_secret s

unfoldable pub is_secret : Text → Bool
unfolding all_secret
is_secret s = leb 1 (length s) && leb (length s) 512 && all_secret s

-- `int(rec.get("expires_at", 0)) < _now()` of a record that has the field.
unfoldable pub is_expired : ℕ → ℕ → Bool
is_expired expires_at now = ltb expires_at now

-- `_purge_expired`
unfoldable pub purge_codes : ℕ → Dict Code → Dict Code
purge_codes now [] = []
purge_codes now ((k, r) ∷ d) =
    let rest = purge_codes now d in if leb now r.expires_at then (k, r) ∷ rest else rest

unfoldable pub purge_grants : ℕ → Dict Grant → Dict Grant
purge_grants now [] = []
purge_grants now ((k, r) ∷ d) =
    let rest = purge_grants now d in if leb now r.expires_at then (k, r) ∷ rest else rest

-- `dict.pop(key, None)`, and then the key of a record that was written before secrets were hashed.
unfoldable pub pop_raw {ℓ} : {V : Type ℓ} → Text → Dict V → Option V → Option (V × Dict V)
pop_raw raw_key d none = none
pop_raw raw_key d (some v) = some (v, remove raw_key d)

unfoldable pub pop_or {ℓ} :
    {V : Type ℓ} → Bool → Text → Text → Dict V → Option V → Option (V × Dict V)
unfolding pop_raw
pop_or legacy key raw_key d (some v) = some (v, remove key d)
pop_or false key raw_key d none = none
pop_or true key raw_key d none = pop_raw raw_key d (get raw_key d)

unfoldable pub pop_secret {ℓ} : {V : Type ℓ} → Bool → Text → Text → Dict V → Option (V × Dict V)
unfolding pop_or
pop_secret legacy key raw_key d = pop_or legacy key raw_key d (get key d)

-- The lookup of the same two keys.
unfoldable pub find_or {ℓ} : {V : Type ℓ} → Text → Dict V → Option V → Option V
find_or raw_key d (some v) = some v
find_or raw_key d none = get raw_key d

unfoldable pub find_secret {ℓ} : {V : Type ℓ} → Text → Text → Dict V → Option V
unfolding find_or
find_secret key raw_key d = find_or raw_key d (get key d)

module _ (sha256_hex : Text → Text) where
  unfoldable pub hashed : Text → Text
  hashed secret = codes "sha256:" ++ sha256_hex secret

  unfoldable pub refresh_key : Text → Text
  unfolding hashed
  refresh_key secret = codes "refresh:" ++ hashed secret

  unfoldable pub spent_key : Text → Text
  spent_key secret = codes "sha256:spent:" ++ sha256_hex secret

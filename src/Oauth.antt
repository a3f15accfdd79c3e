-- ===== src/Oauth.antt =====
-- The OAuth provider with its file stores (src/relay_shell/auth/oauth.py) and the operator's
-- commands (src/relay_shell/auth/admin.py). Each operation holds the lock, so it is one step on the
-- stores; the clock reading and the drawn secrets are arguments. The records are those that the
-- provider writes; SHA-256 and `normalize_resource` are parameters.
pub mod Grants
pub mod Refresh
pub mod OneShot
pub mod Reuse
pub mod Registration
pub mod Markers
pub mod Kept
pub mod Rotated
pub mod Rotation
pub mod Replay
mod Examples
use relay_shell.Prelude.{
  starts_with, ℕ, zero, suc, ◌+◌, ◌-◌, max, Bool, true, false, not, ◌&&◌, ◌||◌, List, [], ◌∷◌, ◌++◌,
  Option, none, some, Text, codes, Dict, get, has_key, put, remove, length, leb, ltb, if◌then◌else◌,
  text_eq, is_among,
}
use Grants.{
  Grant, Code, is_secret, is_expired, purge_codes, purge_grants, pop_secret, find_secret, hashed,
  refresh_key, spent_key,
}

-- `FileOAuthProvider` and its four files; `none` is a file that cannot be parsed. A client is
-- the JSON text of its record.
pub record Provider : Type 0 where
  pub resource : Text
  pub require_approval : Bool
  pub single_client : Bool
  pub access_ttl : ℕ
  pub refresh_ttl : ℕ
  pub code_ttl : ℕ
  pub clients : Option (Dict Text)
  pub approvals : Option (Dict Bool)
  pub codes : Dict Code
  pub tokens : Dict Grant

pub data Refusal : Type 0 where
  invalid_grant invalid_scope invalid_target access_denied : Refusal
  no_client_id store_unreadable registration_closed : Refusal

pub data Answer {ℓ} (A : Type ℓ) : Type ℓ where
  granted : A → Answer A
  refused : Refusal → Answer A

-- `OAuthToken`
pub record TokenPair : Type 0 where
  pub access_token : Text
  pub refresh_token : Text
  pub expires_in : ℕ
  pub scope : List Text

-- A tolerant `load`: an unreadable file reads as empty.
unfoldable pub tolerant {ℓ} : {V : Type ℓ} → Option (Dict V) → Dict V
tolerant none = []
tolerant (some d) = d

unfoldable pub is_true : Option Bool → Bool
is_true none = false
is_true (some b) = b

unfoldable pub is_approved : Provider → Text → Bool
unfolding tolerant is_true
is_approved p client = not p.require_approval || is_true (get client (tolerant p.approvals))

unfoldable pub is_empty_dict {ℓ} : {V : Type ℓ} → Dict V → Bool
is_empty_dict [] = true
is_empty_dict (e ∷ d) = false

unfoldable pub is_same_client : Option Text → Text → Bool
is_same_client none incoming = false
is_same_client (some t) incoming = text_eq t incoming

-- The end of `register_client`: the approval first, then the client.
unfoldable pub save_client : Text → Text → Dict Text → Provider → Provider
unfolding tolerant
save_client cid incoming clients p = record p {
  approvals =
      if has_key cid clients
      then p.approvals
      else some (put cid (not p.require_approval) (tolerant p.approvals));
  clients = some (put cid incoming clients);
}

unfoldable pub register_with :
    Text → Text → Provider → Option (Dict Text) → Provider × Option Refusal
unfolding save_client is_same_client is_empty_dict
register_with cid incoming p none = (p, some store_unreadable)
register_with cid incoming p (some clients) =
    if p.single_client
      && (not (is_empty_dict clients) && not (is_same_client (get cid clients) incoming))
    then (p, some registration_closed)
    else (save_client cid incoming clients p, none)

unfoldable pub register_client : Text → Text → Provider → Provider × Option Refusal
unfolding register_with
register_client [] incoming p = (p, some no_client_id)
register_client (c ∷ cid) incoming p = register_with (c ∷ cid) incoming p p.clients

-- `approve_client`: `none` is the `StoreUnreadableError`.
unfoldable pub approve_with :
    Text → Provider → Option (Dict Text) → Option (Dict Bool) → Option (Provider × Bool)
approve_with cid p none approvals = none
approve_with cid p (some clients) none = if has_key cid clients then none else some (p, false)
approve_with cid p (some clients) (some approvals) =
    if has_key cid clients
    then some (record p { approvals = some (put cid true approvals) }, true)
    else some (p, false)

unfoldable pub approve_client : Text → Provider → Option (Provider × Bool)
unfolding approve_with
approve_client cid p = approve_with cid p p.clients p.approvals

-- Records of other clients (`_belongs_to`).
unfoldable pub other_codes : Text → Dict Code → Dict Code
other_codes client [] = []
other_codes client ((k, r) ∷ d) =
    let rest = other_codes client d in if text_eq r.client_id client then rest else (k, r) ∷ rest

unfoldable pub other_grants : Text → Dict Grant → Dict Grant
other_grants client [] = []
other_grants client ((k, r) ∷ d) =
    let rest = other_grants client d in if text_eq r.client_id client then rest else (k, r) ∷ rest

-- `reject_client`, where all four files can be read.
unfoldable pub reject_client : Text → Dict Text → Dict Bool → Provider → Provider × Bool
unfolding other_codes other_grants
reject_client cid clients approvals p =
    if has_key cid clients
    then (
      record p {
        clients = some (remove cid clients);
        approvals = some (remove cid approvals);
        codes = other_codes cid p.codes;
        tokens = other_grants cid p.tokens;
      },
      true,
    )
    else (p, false)

module _ (sha256_hex : Text → Text) (normalize_resource : Text → Option Text) where
  -- `_checked_resource`
  unfoldable pub is_bound : Provider → Option Text → Bool
  is_bound p none = false
  is_bound p (some r) = elim (normalize_resource r) [ none ↦ false | some n ↦ text_eq n p.resource ]

  -- `authorize` with its drawn code; the redirect URI is built from the code.
  unfoldable pub authorize :
      ℕ
      → Text
      → Text
      → Option Text
      → List Text
      → Text
      → Text
      → Bool
      → Provider
      → Provider × Answer Text
  unfolding is_bound is_approved hashed purge_codes
  authorize now code client asked scopes challenge redirect_uri explicit p =
      if not (is_bound p (elim asked [ none ↦ some p.resource | some r ↦ some r ]))
      then (p, refused invalid_target)
      else if not (is_approved p client)
      then (p, refused access_denied)
      else (
        record p {
          codes =
              put (hashed sha256_hex code)
                record {
                  client_id = client;
                  scopes = scopes;
                  resource = some p.resource;
                  expires_at = now + p.code_ttl;
                  code_challenge = challenge;
                  redirect_uri = redirect_uri;
                  redirect_uri_provided_explicitly = explicit;
                }
                (purge_codes now p.codes);
        },
        granted code,
      )

  -- `_issue`, which its callers give the provider's own resource, normalised when it was built, so
  -- that the check in it passes.
  unfoldable pub issue : ℕ → Text → Text → Text → List Text → Provider → Provider × Answer TokenPair
  unfolding hashed refresh_key purge_grants
  issue now access refresh client scopes p = (
    record p {
      tokens =
          put (refresh_key sha256_hex refresh)
            record {
              client_id = client;
              scopes = scopes;
              resource = some p.resource;
              expires_at = now + p.refresh_ttl;
              spent_at = none;
            }
            (put (hashed sha256_hex access)
              record {
                client_id = client;
                scopes = scopes;
                resource = some p.resource;
                expires_at = now + p.access_ttl;
                spent_at = none;
              }
              (purge_grants now p.tokens));
    },
    granted record {
      access_token = access;
      refresh_token = refresh;
      expires_in = p.access_ttl;
      scope = scopes;
    },
  )

  -- `load_authorization_code`
  unfoldable pub load_code : ℕ → Text → Text → Provider → Option Code → Provider × Option Code
  unfolding is_expired is_bound hashed
  load_code now client secret p none = (p, none)
  load_code now client secret p (some r) =
      if not (text_eq r.client_id client)
      then (p, none)
      else if is_expired r.expires_at now
      then (
        record p {
          codes =
              remove
                (if has_key (hashed sha256_hex secret) p.codes
                  then hashed sha256_hex secret
                  else secret)
                p.codes;
        },
        none,
      )
      else (p, if is_bound p r.resource then some r else none)

  unfoldable pub load_authorization_code : ℕ → Text → Text → Provider → Provider × Option Code
  unfolding load_code find_secret is_secret
  load_authorization_code now client secret p =
      if is_secret secret
      then load_code now client secret p (find_secret (hashed sha256_hex secret) secret p.codes)
      else (p, none)

  -- `exchange_authorization_code`; what was popped is saved only where the source saves.
  unfoldable pub redeem_code :
      ℕ → Text → Text → Text → Provider → Option (Code × Dict Code) → Provider × Answer TokenPair
  unfolding is_expired is_bound issue
  redeem_code now access refresh client p none = (p, refused invalid_grant)
  redeem_code now access refresh client p (some (r, rest)) =
      if not (text_eq r.client_id client)
      then (p, refused invalid_grant)
      else if is_expired r.expires_at now
      then (record p { codes = rest }, refused invalid_grant)
      else if not (is_bound p r.resource)
      then (record p { codes = rest }, refused invalid_grant)
      else issue now access refresh client r.scopes (record p { codes = rest })

  unfoldable pub exchange_authorization_code :
      ℕ → Text → Text → Text → Text → Provider → Provider × Answer TokenPair
  unfolding redeem_code pop_secret is_secret hashed
  exchange_authorization_code now access refresh client raw p =
      redeem_code now access refresh client p
        (pop_secret (is_secret raw) (hashed sha256_hex raw) raw p.codes)

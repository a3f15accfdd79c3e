-- ===== src/Oauth/Refresh.antt =====
-- Access and refresh tokens in use: lookup, rotation with the markers of spent tokens, the reaction
-- to a replay, and revocation (src/relay_shell/auth/oauth.py).
use relay_shell.Prelude.{
  starts_with, ℕ, ◌+◌, ◌-◌, max, Bool, true, not, ◌&&◌, ◌||◌, List, [], ◌∷◌, ◌++◌, Option, none,
  some, Text, codes, Dict, get, has_key, put, remove, take, drop, leb, if◌then◌else◌, text_eq,
  is_among, keep_if,
}
use relay_shell.Oauth.Grants.{
  Grant, is_secret, is_expired, hashed, refresh_key, spent_key, pop_secret, find_secret,
}
use relay_shell.Oauth.{Provider, Refusal, Answer, TokenPair, other_grants, is_bound, issue}
use Refusal.{invalid_grant, invalid_scope}
use Answer.{refused}

unfoldable pub spent_time : Option ℕ → ℕ
spent_time none = 0
spent_time (some t) = t

unfoldable pub is_marker : Text → Text × Grant → Bool
unfolding starts_with
is_marker client (k, g) = starts_with (codes "sha256:spent:") k && text_eq g.client_id client

-- `sorted(..., reverse=True)` by `spent_at`: stable, the latest first.
unfoldable pub insert_marker : Text × Grant → Dict Grant → Dict Grant
unfolding spent_time
insert_marker m [] = m ∷ []
insert_marker m (n ∷ ms) =
    let rest = insert_marker m ms in
    if leb (spent_time n.1.spent_at) (spent_time m.1.spent_at) then m ∷ n ∷ ms else n ∷ rest

unfoldable pub sort_markers : Dict Grant → Dict Grant
unfolding insert_marker
sort_markers [] = []
sort_markers (m ∷ ms) = insert_marker m (sort_markers ms)

unfoldable pub markers : Text → Dict Grant → Dict Grant
unfolding is_marker sort_markers
markers client d = sort_markers (keep_if (is_marker client) d)

-- The two loops over the markers: the newest 64 live on, the others go.
unfoldable pub extend_all : ℕ → Dict Grant → Dict Grant → Dict Grant
extend_all until [] d = d
extend_all until ((k, g) ∷ ms) d =
    extend_all until ms (put k (record g { expires_at = max g.expires_at until }) d)

unfoldable pub drop_all : Dict Grant → Dict Grant → Dict Grant
drop_all [] d = d
drop_all ((k, g) ∷ ms) d = drop_all ms (remove k d)

unfoldable pub trim_markers : Text → ℕ → Dict Grant → Dict Grant
unfolding markers extend_all drop_all
trim_markers client until d =
    let ms = markers client d in drop_all (drop 64 ms) (extend_all until (take 64 ms) d)

unfoldable pub is_subset : List Text → List Text → Bool
is_subset [] granted = true
is_subset (s ∷ ss) granted = is_among s granted && is_subset ss granted

-- `list(scopes or granted)`
unfoldable pub effective_scopes : List Text → List Text → List Text
effective_scopes [] granted = granted
effective_scopes (s ∷ ss) granted = s ∷ ss

module _ (sha256_hex : Text → Text) (normalize_resource : Text → Option Text) where
  -- `load_access_token`
  unfoldable pub load_access : ℕ → Text → Provider → Option Grant → Provider × Option Grant
  unfolding is_expired is_bound hashed
  load_access now token p none = (p, none)
  load_access now token p (some r) =
      if is_expired r.expires_at now
      then (
        record p {
          tokens =
              remove
                (if has_key (hashed sha256_hex token) p.tokens
                  then hashed sha256_hex token
                  else token)
                p.tokens;
        },
        none,
      )
      else (p, if is_bound sha256_hex normalize_resource p r.resource then some r else none)

  unfoldable pub load_access_token : ℕ → Text → Provider → Provider × Option Grant
  unfolding load_access find_secret is_secret starts_with hashed
  load_access_token now token p =
      if starts_with (codes "refresh:") token || not (is_secret token)
      then (p, none)
      else load_access now token p (find_secret (hashed sha256_hex token) token p.tokens)

  -- `_detect_refresh_reuse`, ten seconds of grace included.
  unfoldable pub detect_with : ℕ → Text → Provider → Option Grant → Provider
  unfolding spent_time other_grants
  detect_with now client p none = p
  detect_with now client p (some spent) =
      if not (text_eq spent.client_id client)
      then p
      else if leb (now - spent_time spent.spent_at) 10
      then p
      else record p { tokens = other_grants client p.tokens }

  unfoldable pub detect_refresh_reuse : ℕ → Text → Text → Provider → Provider
  unfolding detect_with spent_key
  detect_refresh_reuse now client raw p =
      detect_with now client p (get (spent_key sha256_hex raw) p.tokens)

  -- `load_refresh_token`
  unfoldable pub load_refresh : ℕ → Text → Text → Provider → Option Grant → Provider × Option Grant
  unfolding detect_refresh_reuse is_expired is_bound
  load_refresh now client raw p none = (detect_refresh_reuse now client raw p, none)
  load_refresh now client raw p (some r) = (
    p,
    if not (text_eq r.client_id client)
        then none
        else if is_expired r.expires_at now
        then none
        else if is_bound sha256_hex normalize_resource p r.resource
        then some r
        else none,
  )

  unfoldable pub load_refresh_token : ℕ → Text → Text → Provider → Provider × Option Grant
  unfolding load_refresh find_secret refresh_key is_secret
  load_refresh_token now client raw p =
      if is_secret raw
      then load_refresh now client raw p
          (find_secret (refresh_key sha256_hex raw) (codes "refresh:" ++ raw) p.tokens)
      else (p, none)

  -- The marker of a spent token, and the trimmed markers of its client.
  unfoldable pub spend : ℕ → Text → Text → Provider → Dict Grant → Provider
  unfolding trim_markers spent_key
  spend now client raw p rest = record p {
    tokens = trim_markers client (now + p.refresh_ttl) (
        put (spent_key sha256_hex raw)
          record {
            client_id = client;
            scopes = [];
            resource = none;
            expires_at = now + p.refresh_ttl;
            spent_at = some now;
          }
          rest);
  }

  -- The end of `exchange_refresh_token`: the rotation is saved before the scope test.
  unfoldable pub reissue :
      ℕ → Text → Text → Text → List Text → Grant → Provider → Provider × Answer TokenPair
  unfolding is_bound is_subset effective_scopes issue
  reissue now access refresh client scopes r p =
      if not (is_bound sha256_hex normalize_resource p r.resource)
      then (p, refused invalid_grant)
      else if not (is_subset (effective_scopes scopes r.scopes) r.scopes)
      then (p, refused invalid_scope)
      else issue sha256_hex normalize_resource now access refresh client
          (effective_scopes scopes r.scopes) p

  unfoldable pub rotate :
      ℕ
      → Text
      → Text
      → Text
      → Text
      → List Text
      → Provider
      → Option (Grant × Dict Grant)
      → Provider × Answer TokenPair
  unfolding is_expired spend reissue
  rotate now access refresh client raw scopes p none = (p, refused invalid_grant)
  rotate now access refresh client raw scopes p (some (r, rest)) =
      if not (text_eq r.client_id client)
      then (p, refused invalid_grant)
      else if is_expired r.expires_at now
      then (record p { tokens = rest }, refused invalid_grant)
      else reissue now access refresh client scopes r (spend now client raw p rest)

  unfoldable pub exchange_refresh_token :
      ℕ → Text → Text → Text → Text → List Text → Provider → Provider × Answer TokenPair
  unfolding rotate pop_secret refresh_key is_secret
  exchange_refresh_token now access refresh client raw scopes p =
      rotate now access refresh client raw scopes p
        (pop_secret (is_secret raw) (refresh_key sha256_hex raw) (codes "refresh:" ++ raw) p.tokens)

  -- `revoke_token`
  unfoldable pub revoke_token : Text → Provider → Provider
  unfolding hashed refresh_key
  revoke_token raw p = record p {
    tokens = remove (codes "refresh:" ++ raw) (
        remove raw (remove (refresh_key sha256_hex raw) (remove (hashed sha256_hex raw) p.tokens)));
  }

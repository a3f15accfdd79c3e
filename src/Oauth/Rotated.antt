-- ===== src/Oauth/Rotated.antt =====
-- The granted rotation of a refresh token (src/relay_shell/auth/oauth.py).
use relay_shell.Prelude.{
  ℕ, ◌+◌, ◌≤◌, ◌≡◌, refl, ◌∙◌, true, false, List, Option, none, some, Text, Dict, IsDict, get,
  has_key, remove, Bool-cases, inl, inr, arith, text_eq, text_eq_refl, text_eq_sound, has_key-put,
  has_key-remove, ltb, ap, sym,
}
use relay_shell.Oauth.Grants.{Grant, is_expired, hashed, refresh_key, spent_key}
use relay_shell.Oauth.{Provider, Refusal, Answer, TokenPair, is_bound, issue}
use relay_shell.Oauth.OneShot.{scope_of}
use relay_shell.Oauth.Refresh.{is_subset, effective_scopes, spend, reissue, rotate}
use Refusal.{invalid_grant, invalid_scope}
use Answer.{granted, refused}
use relay_shell.Oauth.Markers.{has_key-trim_markers, has_key-purge_grants}

module _ (sha256_hex : Text → Text) (normalize_resource : Text → Option Text) where
  -- What a granted rotation found and left.
  pub record Rotated (p after : Provider) (client raw : Text) (now : ℕ) (pair : TokenPair)
      : Type 0 where
    pub grant : Grant
    pub stored : get (refresh_key sha256_hex raw) p.tokens ≡ some grant
    pub owner : grant.client_id ≡ client
    pub in_time : now ≤ grant.expires_at
    pub bound : is_bound sha256_hex normalize_resource p grant.resource ≡ true
    pub no_more_scopes : is_subset pair.scope grant.scopes ≡ true
    pub spent : has_key (refresh_key sha256_hex raw) after.tokens ≡ false

  issue-gone :
      (now : ℕ) (access refresh client j : Text) (scopes : List Text) (p : Provider)
      → text_eq (hashed sha256_hex access) j ≡ false
      → text_eq (refresh_key sha256_hex refresh) j ≡ false
      → has_key j p.tokens ≡ false
      → has_key j (issue sha256_hex normalize_resource now access refresh client scopes p).0.tokens
        ≡ false
  unfolding issue
  issue-gone now access refresh client j scopes p not_access not_refresh h =
      rw
        (
          has_key-put (refresh_key sha256_hex refresh) j _ _,
          not_refresh,
          has_key-put (hashed sha256_hex access) j _ _,
          not_access,
        )
        (has_key-purge_grants j now p.tokens h)

  spend-gone :
      (now : ℕ) (client raw j : Text) (p : Provider) (rest : Dict Grant)
      → text_eq (spent_key sha256_hex raw) j ≡ false
      → has_key j rest ≡ false
      → has_key j (spend sha256_hex normalize_resource now client raw p rest).tokens ≡ false
  unfolding spend
  spend-gone now client raw j p rest other h =
      has_key-trim_markers j client (now + p.refresh_ttl) _
        (rw (has_key-put (spent_key sha256_hex raw) j _ rest, other) h)

  pub access_other :
      (access raw : Text) → text_eq (hashed sha256_hex access) (refresh_key sha256_hex raw) ≡ false
  unfolding hashed refresh_key text_eq
  access_other access raw = refl

  pub spent_other :
      (spent raw : Text) → text_eq (spent_key sha256_hex spent) (refresh_key sha256_hex raw) ≡ false
  unfolding spent_key refresh_key hashed text_eq
  spent_other spent raw = refl

  is_bound-spend :
      (now : ℕ) (client raw : Text) (p : Provider) (rest : Dict Grant) (o : Option Text)
      → is_bound sha256_hex normalize_resource
          (spend sha256_hex normalize_resource now client raw p rest)
          o
        ≡ is_bound sha256_hex normalize_resource p o
  unfolding is_bound spend
  is_bound-spend now client raw p rest none = refl
  is_bound-spend now client raw p rest (some t) = refl

  pub reissue-granted :
      (now : ℕ) (access refresh client : Text) (scopes : List Text) (r : Grant) (p : Provider)
      (pair : TokenPair)
      → (reissue sha256_hex normalize_resource now access refresh client scopes r p).1
        ≡ granted pair
      → (is_bound sha256_hex normalize_resource p r.resource ≡ true)
        × (is_subset pair.scope r.scopes ≡ true)
        × ((reissue sha256_hex normalize_resource now access refresh client scopes r p).0
            ≡ (issue sha256_hex normalize_resource now access refresh client
                (effective_scopes scopes r.scopes)
                p).0)
  unfolding reissue
  reissue-granted now access refresh client scopes r p pair h =
      elim (Bool-cases (is_bound sha256_hex normalize_resource p r.resource)) [
        | inr e ↦ absurd (let bad : refused invalid_grant ≡ granted pair = (rw e at h) in cc)
        | inl e ↦ elim (Bool-cases (is_subset (effective_scopes scopes r.scopes) r.scopes)) [
          | inr f ↦ absurd (let bad : refused invalid_scope ≡ granted pair = (rw (e, f) at h) in cc)
          | inl f ↦
              let same : effective_scopes scopes r.scopes ≡ pair.scope =
                unfold issue scope_of in ap scope_of (rw (e, f) at h) in
              (e, rw (← same) f, rw (e, f) refl)
        ]
      ]

  -- The key is in no place of the tokens that a granted rotation leaves.
  pub rotate-gone :
      (now : ℕ) (access refresh client raw j : Text) (scopes : List Text) (p : Provider)
      (pair : TokenPair) (r : Grant) (rest : Dict Grant)
      → text_eq (hashed sha256_hex access) j ≡ false
      → text_eq (refresh_key sha256_hex refresh) j ≡ false
      → text_eq (spent_key sha256_hex raw) j ≡ false
      → has_key j rest ≡ false
      → (rotate sha256_hex normalize_resource now access refresh client raw scopes p
          (some (r, rest))).1
        ≡ granted pair
      → has_key j
          (rotate sha256_hex normalize_resource now access refresh client raw scopes p
            (some (r, rest))).0.tokens
        ≡ false
  unfolding rotate is_expired
  rotate-gone now access refresh client raw j scopes p pair r rest not_access not_refresh not_spent
        absent h =
      elim (Bool-cases (text_eq r.client_id client)) [
        | inr e ↦ absurd (let bad : refused invalid_grant ≡ granted pair = (rw e at h) in cc)
        | inl e ↦ elim (Bool-cases (ltb r.expires_at now)) [
          | inl f ↦ absurd (let bad : refused invalid_grant ≡ granted pair = (rw (e, f) at h) in cc)
          | inr f ↦
              let middle = spend sha256_hex normalize_resource now client raw p rest in
              let (bound, scoped, left) =
                reissue-granted now access refresh client scopes r middle pair (rw (e, f) at h) in
              rw (e, f)
                (rw left (
                  issue-gone now access refresh client j _ middle not_access not_refresh
                    (spend-gone now client raw j p rest not_spent absent)))
        ]
      ]

  pub rotate-Rotated :
      (now : ℕ) (access refresh client raw : Text) (scopes : List Text) (p : Provider)
      (pair : TokenPair) (r : Grant)
      → IsDict p.tokens
      → text_eq (refresh_key sha256_hex refresh) (refresh_key sha256_hex raw) ≡ false
      → get (refresh_key sha256_hex raw) p.tokens ≡ some r
      → (rotate sha256_hex normalize_resource now access refresh client raw scopes p
          (some (r, remove (refresh_key sha256_hex raw) p.tokens))).1
        ≡ granted pair
      → Rotated p
          (rotate sha256_hex normalize_resource now access refresh client raw scopes p
            (some (r, remove (refresh_key sha256_hex raw) p.tokens))).0
          client
          raw
          now
          pair
  unfolding rotate is_expired
  rotate-Rotated now access refresh client raw scopes p pair r keys new stored h =
      elim (Bool-cases (text_eq r.client_id client)) [
        | inr e ↦ absurd (let bad : refused invalid_grant ≡ granted pair = (rw e at h) in cc)
        | inl e ↦ elim (Bool-cases (ltb r.expires_at now)) [
          | inl f ↦ absurd (let bad : refused invalid_grant ≡ granted pair = (rw (e, f) at h) in cc)
          | inr f ↦
              let key = refresh_key sha256_hex raw in
              let rest = remove key p.tokens in
              let middle = spend sha256_hex normalize_resource now client raw p rest in
              let (bound, scoped, left) =
                reissue-granted now access refresh client scopes r middle pair (rw (e, f) at h) in
              rw (e, f)
                record {
                  grant = r;
                  stored = stored;
                  owner = text_eq_sound r.client_id client e;
                  in_time = ground arith;
                  bound = sym (is_bound-spend now client raw p rest r.resource) ∙ bound;
                  no_more_scopes = scoped;
                  spent = rw left (
                      issue-gone now access refresh client key _ middle (access_other access raw)
                        new
                        (spend-gone now client raw key p rest (spent_other raw raw) (
                          ground (arith, has_key-remove key key p.tokens keys, text_eq_refl key))));
                }
        ]
      ]

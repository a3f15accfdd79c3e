-- ===== src/Oauth/Rotation.antt =====
-- The exchange of a refresh token (src/relay_shell/auth/oauth.py).
use relay_shell.Prelude.{
  ℕ, ◌≡◌, refl, true, false, List, ◌++◌, Option, some, Text, codes, IsDict, get, has_key, remove,
  Bool-cases, Option-cases, inl, inr, arith, text_eq, text_eq_sound, get_of_has_key,
  has_key-remove_ne,
}
use relay_shell.Oauth.Grants.{
  Grant, is_secret, all_secret, is_secret_char, hashed, refresh_key, spent_key,
}
use relay_shell.Oauth.{Provider, Refusal, Answer, TokenPair}
use relay_shell.Oauth.OneShot.{pop_secret-none, pop_secret-some}
use relay_shell.Oauth.Refresh.{rotate, exchange_refresh_token}
use Refusal.{invalid_grant}
use Answer.{granted, refused}
use relay_shell.Oauth.Rotated.{Rotated, rotate-Rotated, rotate-gone}

no_colon : (h : Text) → is_secret (codes "sha256:" ++ h) ≡ true → ⊥
unfolding is_secret all_secret is_secret_char
no_colon h bad = ground (arith, bad)

-- A hashed key is no secret: it holds a colon.
hashed-secret : (h raw : Text) → is_secret raw ≡ true → text_eq (codes "sha256:" ++ h) raw ≡ false
hashed-secret h raw secret = elim (Bool-cases (text_eq (codes "sha256:" ++ h) raw)) [
  | inr e ↦ e
  | inl e ↦ absurd (
      let same : codes "sha256:" ++ h ≡ raw = text_eq_sound _ raw e in
      let bad : is_secret (codes "sha256:" ++ h) ≡ true = rw (← same) at secret in no_colon h bad)
]

module _ (sha256_hex : Text → Text) (normalize_resource : Text → Option Text) where
  pub exchange-found :
      (now : ℕ) (access refresh client raw : Text) (scopes : List Text) (p : Provider)
      (pair : TokenPair)
      → has_key (codes "refresh:" ++ raw) p.tokens ≡ false
      → (exchange_refresh_token sha256_hex normalize_resource now access refresh client raw scopes
          p).1
        ≡ granted pair
      → (r : Grant) × ((get (refresh_key sha256_hex raw) p.tokens ≡ some r)
          × (exchange_refresh_token sha256_hex normalize_resource now access refresh client raw
                scopes p
              ≡ rotate sha256_hex normalize_resource now access refresh client raw scopes p
                  (some (r, remove (refresh_key sha256_hex raw) p.tokens))))
  exchange-found now access refresh client raw scopes p pair old h =
      elim (Option-cases (get (refresh_key sha256_hex raw) p.tokens)) [
        | inl e ↦ absurd (
            let bad : refused invalid_grant ≡ granted pair =
              unfold exchange_refresh_token rotate in
              (rw
                (pop_secret-none (is_secret raw) (refresh_key sha256_hex raw)
                  (codes "refresh:" ++ raw) p.tokens e
                  (get_of_has_key (codes "refresh:" ++ raw) p.tokens old))
                at h) in
            cc)
        | inr (r, e) ↦ (
          r,
          (
            e,
            unfold exchange_refresh_token in
                rw
                  (pop_secret-some (is_secret raw) (refresh_key sha256_hex raw)
                    (codes "refresh:" ++ raw) p.tokens r e)
                  refl,
          ),
        )
      ]

  pub refresh_other :
      (refresh raw : Text)
      → is_secret raw ≡ true
      → text_eq (refresh_key sha256_hex refresh) (codes "refresh:" ++ raw) ≡ false
  unfolding refresh_key hashed text_eq
  refresh_other refresh raw secret = hashed-secret (sha256_hex refresh) raw secret

  pub legacy_other :
      (access spent raw : Text)
      → (text_eq (hashed sha256_hex access) (codes "refresh:" ++ raw) ≡ false)
        × (text_eq (spent_key sha256_hex spent) (codes "refresh:" ++ raw) ≡ false)
  unfolding hashed spent_key text_eq
  legacy_other access spent raw = (refl, refl)

  exchange-absent :
      (now : ℕ) (access refresh client raw : Text) (scopes : List Text) (p : Provider)
      → has_key (refresh_key sha256_hex raw) p.tokens ≡ false
      → has_key (codes "refresh:" ++ raw) p.tokens ≡ false
      → (exchange_refresh_token sha256_hex normalize_resource now access refresh client raw scopes
          p).1
        ≡ refused invalid_grant
  unfolding exchange_refresh_token rotate
  exchange-absent now access refresh client raw scopes p gone old =
      rw
        (pop_secret-none (is_secret raw) (refresh_key sha256_hex raw) (codes "refresh:" ++ raw)
          p.tokens (get_of_has_key _ p.tokens gone) (get_of_has_key _ p.tokens old))
        refl

  -- A granted refresh was for a stored refresh token of this client and this server that had not
  -- run out, and gives no scope that the token did not have; after it the token is refused to
  -- everyone, at any time. The new refresh token is not the old one, and no record from before
  -- secrets were hashed has the old one's key.
  pub refresh-once :
      (now later : ℕ) (access refresh client raw access' refresh' client' : Text)
      (scopes scopes' : List Text) (p : Provider) (pair : TokenPair)
      → IsDict p.tokens
      → is_secret raw ≡ true
      → has_key (codes "refresh:" ++ raw) p.tokens ≡ false
      → text_eq (refresh_key sha256_hex refresh) (refresh_key sha256_hex raw) ≡ false
      → (exchange_refresh_token sha256_hex normalize_resource now access refresh client raw scopes
          p).1
        ≡ granted pair
      → let after =
          (exchange_refresh_token sha256_hex normalize_resource now access refresh client raw scopes
            p).0 in
        Rotated sha256_hex normalize_resource p after client raw now pair
        × ((exchange_refresh_token sha256_hex normalize_resource later access' refresh' client' raw
              scopes' after).1
            ≡ refused invalid_grant)
  refresh-once now later access refresh client raw access' refresh' client' scopes scopes' p pair
        keys secret old new h =
      let (r, (found, same)) = exchange-found now access refresh client raw scopes p pair old h in
      let key = refresh_key sha256_hex raw in
      let passed = rw same at h in
      let rotated =
        rotate-Rotated sha256_hex normalize_resource now access refresh client raw scopes p pair r
          keys new found passed in
      let (not_access, not_spent) = legacy_other access raw raw in
      rw same (
        rotated,
        exchange-absent later access' refresh' client' raw scopes' _ rotated.spent (
            rotate-gone sha256_hex normalize_resource now access refresh client raw
              (codes "refresh:" ++ raw) scopes p pair r (remove key p.tokens) not_access
              (refresh_other refresh raw secret) not_spent
              (has_key-remove_ne key (codes "refresh:" ++ raw) p.tokens old) passed),
      )

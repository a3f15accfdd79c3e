-- ===== src/Oauth/OneShot.antt =====
-- The exchange of an authorization code (src/relay_shell/auth/oauth.py).
use relay_shell.Prelude.{
  ℕ, ◌≤◌, ◌≡◌, refl, ap, sym, Bool, true, false, List, [], Option, none, some, Text, Dict, IsDict,
  get, has_key, remove, Bool-cases, Option-cases, inl, inr, arith, text_eq, text_eq_refl,
  text_eq_sound, get-remove, get_of_has_key, has_key-remove_ne, ltb,
}
use relay_shell.Oauth.Grants.{Code, is_secret, is_expired, pop_or, pop_raw, pop_secret, hashed}
use relay_shell.Oauth.{
  Provider, Refusal, Answer, TokenPair, is_bound, issue, redeem_code, exchange_authorization_code,
}
use Refusal.{invalid_grant}
use Answer.{granted, refused}

pub pop_secret-none {ℓ} :
    {V : Type ℓ} (legacy : Bool) (key raw : Text) (d : Dict V)
    → get key d ≡ none
    → get raw d ≡ none
    → pop_secret legacy key raw d ≡ none
unfolding pop_secret pop_or pop_raw
pop_secret-none true key raw d h g = rw (h, g) refl
pop_secret-none false key raw d h g = rw h refl

pub pop_secret-some {ℓ} :
    {V : Type ℓ} (legacy : Bool) (key raw : Text) (d : Dict V) (v : V)
    → get key d ≡ some v
    → pop_secret legacy key raw d ≡ some (v, remove key d)
unfolding pop_secret pop_or
pop_secret-some legacy key raw d v h = rw h refl

unfoldable pub scope_of : Answer TokenPair → List Text
scope_of (granted pair) = pair.scope
scope_of (refused why) = []

module _ (sha256_hex : Text → Text) (normalize_resource : Text → Option Text) where
  -- What a granted exchange found.
  pub record Redeemed (p after : Provider) (client raw : Text) (now : ℕ) (pair : TokenPair)
      : Type 0 where
    pub code : Code
    pub stored : get (hashed sha256_hex raw) p.codes ≡ some code
    pub owner : code.client_id ≡ client
    pub in_time : now ≤ code.expires_at
    pub bound : is_bound sha256_hex normalize_resource p code.resource ≡ true
    pub same_scopes : pair.scope ≡ code.scopes
    pub spent : after.codes ≡ remove (hashed sha256_hex raw) p.codes

  redeem_code-Redeemed :
      (now : ℕ) (access refresh client raw : Text) (p : Provider) (pair : TokenPair) (r : Code)
      → get (hashed sha256_hex raw) p.codes ≡ some r
      → (redeem_code sha256_hex normalize_resource now access refresh client p
          (some (r, remove (hashed sha256_hex raw) p.codes))).1
        ≡ granted pair
      → Redeemed p
          (redeem_code sha256_hex normalize_resource now access refresh client p
            (some (r, remove (hashed sha256_hex raw) p.codes))).0
          client
          raw
          now
          pair
  unfolding redeem_code is_expired issue scope_of
  redeem_code-Redeemed now access refresh client raw p pair r stored h =
      elim (Bool-cases (text_eq r.client_id client)) [
        | inr e ↦ absurd (let bad : refused invalid_grant ≡ granted pair = (rw e at h) in cc)
        | inl e ↦ elim (Bool-cases (ltb r.expires_at now)) [
          | inl f ↦ absurd (let bad : refused invalid_grant ≡ granted pair = (rw (e, f) at h) in cc)
          | inr f ↦ elim (Bool-cases (is_bound sha256_hex normalize_resource p r.resource)) [
            | inr g ↦
                absurd (let bad : refused invalid_grant ≡ granted pair = (rw (e, f, g) at h) in cc)
            | inl g ↦
                rw (e, f, g)
                  record {
                    code = r;
                    stored = stored;
                    owner = text_eq_sound r.client_id client e;
                    in_time = ground arith;
                    bound = g;
                    same_scopes = sym (ap scope_of (rw (e, f, g) at h));
                    spent = refl;
                  }
          ]
        ]
      ]

  exchange-Redeemed :
      (now : ℕ) (access refresh client raw : Text) (p : Provider) (pair : TokenPair)
      → has_key raw p.codes ≡ false
      → (exchange_authorization_code sha256_hex normalize_resource now access refresh client raw
          p).1
        ≡ granted pair
      → Redeemed p
          (exchange_authorization_code sha256_hex normalize_resource now access refresh client raw
            p).0
          client
          raw
          now
          pair
  exchange-Redeemed now access refresh client raw p pair fresh h =
      elim (Option-cases (get (hashed sha256_hex raw) p.codes)) [
        | inl e ↦ absurd (
            let bad : refused invalid_grant ≡ granted pair =
              unfold exchange_authorization_code redeem_code in
              (rw
                (pop_secret-none (is_secret raw) (hashed sha256_hex raw) raw p.codes e
                  (get_of_has_key raw p.codes fresh))
                at h) in
            cc)
        | inr (r, e) ↦
            unfold exchange_authorization_code in
            rw (pop_secret-some (is_secret raw) (hashed sha256_hex raw) raw p.codes r e) (
              redeem_code-Redeemed now access refresh client raw p pair r e (
                unfold exchange_authorization_code in
                (rw (pop_secret-some (is_secret raw) (hashed sha256_hex raw) raw p.codes r e) at
                  h)))
      ]

  -- A granted exchange was for a stored code of this client, of this server and not run out, with
  -- its scopes; after it the code is refused to everyone, at any time. The code has no record from
  -- before secrets were hashed, which the migration at start removes.
  pub exchange-once :
      (now later : ℕ) (access refresh client raw access' refresh' client' : Text) (p : Provider)
      (pair : TokenPair)
      → IsDict p.codes
      → has_key raw p.codes ≡ false
      → (exchange_authorization_code sha256_hex normalize_resource now access refresh client raw
          p).1
        ≡ granted pair
      → let after =
          (exchange_authorization_code sha256_hex normalize_resource now access refresh client raw
            p).0 in
        Redeemed p after client raw now pair
        × ((exchange_authorization_code sha256_hex normalize_resource later access' refresh' client'
              raw after).1
            ≡ refused invalid_grant)
  exchange-once now later access refresh client raw access' refresh' client' p pair keys fresh h =
      let r = exchange-Redeemed now access refresh client raw p pair fresh h in
      let key = hashed sha256_hex raw in
      (
        r,
        unfold exchange_authorization_code redeem_code in
            rw r.spent (
              rw
                (pop_secret-none (is_secret raw) key raw (remove key p.codes)
                  (ground (arith, get-remove key key p.codes keys, text_eq_refl key))
                  (get_of_has_key raw _ (has_key-remove_ne key raw p.codes fresh)))
                refl),
      )

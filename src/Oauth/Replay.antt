-- ===== src/Oauth/Replay.antt =====
-- The replay of a token behind its rotation (src/relay_shell/auth/oauth.py).
use relay_shell.Prelude.{
  ℕ, ◌+◌, ◌<◌, ◌≡◌, ◌↔◌, refl, true, false, List, [], ◌++◌, Option, none, some, Text, codes, Dict,
  IsDict, get, has_key, put, remove, count_if, Bool-cases, inl, inr, arith, text_eq, text_eq_refl,
  get-put, get_of_has_key, put-IsDict, remove-IsDict, has_key-remove_ne, ltb,
}
use relay_shell.Oauth.Grants.{
  Grant, is_secret, is_expired, find_secret, hashed, refresh_key, spent_key,
}
use relay_shell.Oauth.{Provider, Refusal, Answer, TokenPair, issue}
use relay_shell.Oauth.Refresh.{
  is_marker, spent_time, spend, rotate, exchange_refresh_token, load_refresh_token,
}
use Refusal.{invalid_grant}
use Answer.{granted, refused}
use relay_shell.Oauth.Kept.{
  Marked, trim_markers-Marked, purge_grants-Marked, trim_markers-IsDict, purge_grants-IsDict,
  count_if-remove,
}
use relay_shell.Oauth.Rotated.{rotate-Rotated, rotate-gone, reissue-granted}
use relay_shell.Oauth.Rotation.{exchange-found, legacy_other, refresh_other}
use relay_shell.Oauth.Reuse.{load_refresh_token-revokes}

module _ (sha256_hex : Text → Text) (normalize_resource : Text → Option Text) where
  refresh_spent :
      (refresh raw : Text)
      → text_eq (refresh_key sha256_hex refresh) (spent_key sha256_hex raw) ≡ false
  unfolding refresh_key spent_key text_eq
  refresh_spent refresh raw = refl

  issue-Marked :
      (now : ℕ) (access refresh client raw : Text) (scopes : List Text) (p : Provider)
      → text_eq (hashed sha256_hex access) (spent_key sha256_hex raw) ≡ false
      → Marked (spent_key sha256_hex raw) client now p.tokens
      → Marked
          (spent_key sha256_hex raw)
          client
          now
          (issue sha256_hex normalize_resource now access refresh client scopes p).0.tokens
  unfolding issue
  issue-Marked now access refresh client raw scopes p apart marked =
      let key = spent_key sha256_hex raw in
      let (m, at, own, spent, live) = purge_grants-Marked key client now p.tokens marked in
      (
        m,
        rw
            (
              get-put (refresh_key sha256_hex refresh) key _ _,
              refresh_spent refresh raw,
              get-put (hashed sha256_hex access) key _ _,
              apart,
            )
            at,
        own,
        spent,
        live,
      )

  issue-IsDict :
      (now : ℕ) (access refresh client : Text) (scopes : List Text) (p : Provider)
      → IsDict p.tokens
      → IsDict (issue sha256_hex normalize_resource now access refresh client scopes p).0.tokens
  unfolding issue
  issue-IsDict now access refresh client scopes p keys =
      put-IsDict _ _ _ (put-IsDict _ _ _ (purge_grants-IsDict now p.tokens keys))

  spend-Marked :
      (now : ℕ) (client raw : Text) (p : Provider) (rest : Dict Grant)
      → IsDict rest
      → count_if (is_marker client) rest < 64
      → Marked
          (spent_key sha256_hex raw)
          client
          now
          (spend sha256_hex normalize_resource now client raw p rest).tokens
        × IsDict (spend sha256_hex normalize_resource now client raw p rest).tokens
  unfolding spend
  spend-Marked now client raw p rest keys few =
      let key = spent_key sha256_hex raw in
      let m : Grant = record {
        client_id = client;
        scopes = [];
        resource = none;
        expires_at = now + p.refresh_ttl;
        spent_at = some now;
      } in
      (
        trim_markers-Marked key client now (now + p.refresh_ttl) m rest keys refl refl (omega arith)
            few,
        trim_markers-IsDict client (now + p.refresh_ttl) (put key m rest)
            (put-IsDict key m rest keys),
      )

  rotate-Marked :
      (now : ℕ) (access refresh client raw : Text) (scopes : List Text) (p : Provider)
      (pair : TokenPair) (r : Grant) (rest : Dict Grant)
      → IsDict rest
      → count_if (is_marker client) rest < 64
      → text_eq (hashed sha256_hex access) (spent_key sha256_hex raw) ≡ false
      → (rotate sha256_hex normalize_resource now access refresh client raw scopes p
          (some (r, rest))).1
        ≡ granted pair
      → let after =
          (rotate sha256_hex normalize_resource now access refresh client raw scopes p
            (some (r, rest))).0 in
        Marked (spent_key sha256_hex raw) client now after.tokens × IsDict after.tokens
  unfolding rotate is_expired
  rotate-Marked now access refresh client raw scopes p pair r rest keys few apart h =
      elim (Bool-cases (text_eq r.client_id client)) [
        | inr e ↦ absurd (let bad : refused invalid_grant ≡ granted pair = (rw e at h) in cc)
        | inl e ↦ elim (Bool-cases (ltb r.expires_at now)) [
          | inl f ↦ absurd (let bad : refused invalid_grant ≡ granted pair = (rw (e, f) at h) in cc)
          | inr f ↦
              let middle = spend sha256_hex normalize_resource now client raw p rest in
              let (bound, scoped, left) =
                reissue-granted sha256_hex normalize_resource now access refresh client scopes r
                  middle pair (rw (e, f) at h) in
              let (marked, dict) = spend-Marked now client raw p rest keys few in
              rw (e, f)
                (rw left (
                  issue-Marked now access refresh client raw _ middle apart marked,
                  issue-IsDict now access refresh client _ middle dict,
                ))
        ]
      ]

  -- A refresh token that its client presents again more than ten seconds after its granted rotation
  -- gets nothing and costs the client every access token, refresh token and marker it has then, the
  -- newly issued ones included; the tokens of all other clients stay as they are. Before the rotation
  -- the client has fewer than 64 markers, of which more are trimmed; between the two nothing else is
  -- asked of the provider; the new tokens hash to other keys than the old one and its marker, and no
  -- record from before secrets were hashed has its key.
  pub exchange-replay_revokes :
      (now later : ℕ) (access refresh client raw : Text) (scopes : List Text) (p : Provider)
      (pair : TokenPair)
      → IsDict p.tokens
      → is_secret raw ≡ true
      → has_key (codes "refresh:" ++ raw) p.tokens ≡ false
      → text_eq (refresh_key sha256_hex refresh) (refresh_key sha256_hex raw) ≡ false
      → text_eq (hashed sha256_hex access) (spent_key sha256_hex raw) ≡ false
      → count_if (is_marker client) p.tokens < 64
      → 10 + now < later
      → (exchange_refresh_token sha256_hex normalize_resource now access refresh client raw scopes
          p).1
        ≡ granted pair
      → let after =
          (exchange_refresh_token sha256_hex normalize_resource now access refresh client raw scopes
            p).0 in
        let outcome = load_refresh_token sha256_hex normalize_resource later client raw after in
        (outcome.1 ≡ none)
        × ((k : Text) (g : Grant)
            → (get k outcome.0.tokens ≡ some g)
              ↔ (get k after.tokens ≡ some g) × (text_eq g.client_id client ≡ false))
  exchange-replay_revokes now later access refresh client raw scopes p pair keys secret old new
        apart few late h =
      let (r, (found, same)) =
        exchange-found sha256_hex normalize_resource now access refresh client raw scopes p pair old
          h in
      let key = refresh_key sha256_hex raw in
      let rest = remove key p.tokens in
      let passed = rw same at h in
      let rotated =
        rotate-Rotated sha256_hex normalize_resource now access refresh client raw scopes p pair r
          keys new found passed in
      let (not_access, not_spent) = legacy_other sha256_hex normalize_resource access raw raw in
      let absent =
        rotate-gone sha256_hex normalize_resource now access refresh client raw
          (codes "refresh:" ++ raw) scopes p pair r rest not_access
          (refresh_other sha256_hex normalize_resource refresh raw secret) not_spent
          (has_key-remove_ne key (codes "refresh:" ++ raw) p.tokens old) passed in
      let ((m, at, own, spent, live), dict) =
        rotate-Marked now access refresh client raw scopes p pair r rest
          (remove-IsDict key p.tokens keys)
          (omega (arith, count_if-remove (is_marker client) key p.tokens, few)) apart passed in
      let after =
        (rotate sha256_hex normalize_resource now access refresh client raw scopes p
          (some (r, rest))).0 in
      rw same (
        load_refresh_token-revokes sha256_hex normalize_resource later client raw after m dict
          secret
          (unfold find_secret in
            rw (get_of_has_key key after.tokens rotated.spent)
              (get_of_has_key (codes "refresh:" ++ raw) after.tokens absent))
          at (rw own (text_eq_refl client)) (unfold spent_time in rw spent late))

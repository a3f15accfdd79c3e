-- ===== src/Oauth/Reuse.antt =====
-- The replay of a refresh token (src/relay_shell/auth/oauth.py).
use relay_shell.Prelude.{
  ℕ, ◌+◌, ◌-◌, ◌<◌, ◌≡◌, ◌↔◌, refl, true, false, [], ◌∷◌, ◌++◌, Option, none, some, Text, codes,
  Dict, IsDict, get, has_key, arith, text_eq, text_eq_iff, get_of_has_key, leb,
}
use relay_shell.Oauth.Grants.{Grant, is_secret, find_secret, refresh_key, spent_key}
use relay_shell.Oauth.{Provider, other_grants}
use relay_shell.Oauth.Refresh.{
  spent_time, detect_with, detect_refresh_reuse, load_refresh, load_refresh_token,
}

has_key-other_grants :
    (client j : Text) (d : Dict Grant)
    → has_key j d ≡ false
    → has_key j (other_grants client d) ≡ false
unfolding other_grants has_key
has_key-other_grants client j [] h = refl
has_key-other_grants client j ((k, r) ∷ d) h = ground (arith, has_key-other_grants client j d)

pub get-other_grants :
    (client k : Text) (g : Grant) (d : Dict Grant)
    → IsDict d
    → (get k (other_grants client d) ≡ some g)
      ↔ (get k d ≡ some g) × (text_eq g.client_id client ≡ false)
unfolding other_grants get
get-other_grants client k g [] h = ground arith
get-other_grants client k g ((j, r) ∷ d) h = ground (
  arith,
  get-other_grants client k g d h.1,
  text_eq_iff j k,
  get_of_has_key k d,
  get_of_has_key k (other_grants client d),
  has_key-other_grants client j d h.0,
)

detect_with-revokes :
    (sha256_hex : Text → Text) (normalize_resource : Text → Option Text) (now : ℕ) (client : Text)
    (p : Provider) (m : Grant)
    → text_eq m.client_id client ≡ true
    → 10 + spent_time m.spent_at < now
    → (detect_with sha256_hex normalize_resource now client p (some m)).tokens
      ≡ other_grants client p.tokens
unfolding detect_with
detect_with-revokes sha256_hex normalize_resource now client p m own late =
    let past : leb (now - spent_time m.spent_at) 10 ≡ false = ground arith in rw (own, past) refl

-- A client that presents a refresh token whose marker is stored, more than ten seconds after the
-- time of the marker, gets nothing and loses every access token, refresh token and marker it has; the
-- tokens of all other clients stay as they are.
pub load_refresh_token-revokes :
    (sha256_hex : Text → Text) (normalize_resource : Text → Option Text) (now : ℕ)
    (client raw : Text) (p : Provider) (m : Grant)
    → IsDict p.tokens
    → is_secret raw ≡ true
    → find_secret (refresh_key sha256_hex raw) (codes "refresh:" ++ raw) p.tokens ≡ none
    → get (spent_key sha256_hex raw) p.tokens ≡ some m
    → text_eq m.client_id client ≡ true
    → 10 + spent_time m.spent_at < now
    → let outcome = load_refresh_token sha256_hex normalize_resource now client raw p in
      (outcome.1 ≡ none)
      × ((k : Text) (g : Grant)
          → (get k outcome.0.tokens ≡ some g)
            ↔ (get k p.tokens ≡ some g) × (text_eq g.client_id client ≡ false))
load_refresh_token-revokes sha256_hex normalize_resource now client raw p m keys secret gone spent
      own late =
    unfold load_refresh_token load_refresh detect_refresh_reuse in
    rw (secret, gone, spent)
      (
        refl,
        λ k g.
            rw (detect_with-revokes sha256_hex normalize_resource now client p m own late)
              (get-other_grants client k g p.tokens keys),
      )

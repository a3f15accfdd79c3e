-- ===== src/Oauth/Examples.antt =====
-- The provider at concrete inputs.
use relay_shell.Prelude.{
  count_if, is_among, ◌≡◌, ◌≢◌, refl, true, false, [], ◌∷◌, Option, none, some, Text, codes, get,
  has_key, text_eq, arith,
}
use relay_shell.Oauth.Grants.{is_secret, refresh_key}
use relay_shell.Oauth.{
  Provider, Refusal, Answer, TokenPair, register_client, authorize, exchange_authorization_code,
}
use relay_shell.Oauth.Rotated.{Rotated}
use relay_shell.Oauth.Rotation.{refresh-once}
use relay_shell.Oauth.Refresh.{exchange_refresh_token, load_refresh_token}
use relay_shell.Oauth.OneShot.{Redeemed, exchange-once}
use relay_shell.Oauth.Replay.{exchange-replay_revokes}
use relay_shell.Oauth.Registration.{client_at, register_client-frozen, authorize-pending}

-- The digest is the text, and a resource is normal as it is.
abbrev digest : Text → Text
digest t = t

abbrev normal : Text → Option Text
normal t = some t

abbrev provider : Provider
provider = record {
  resource = codes "https://relay";
  require_approval = true;
  single_client = true;
  access_ttl = 60;
  refresh_ttl = 600;
  code_ttl = 30;
  clients = some ((codes "a", codes "{}") ∷ []);
  approvals = some ((codes "a", true) ∷ []);
  codes =
      (
        codes "sha256:c1",
        record {
          client_id = codes "a";
          scopes = codes "relay" ∷ [];
          resource = some (codes "https://relay");
          expires_at = 40;
          code_challenge = [];
          redirect_uri = codes "http://localhost";
          redirect_uri_provided_explicitly = true;
        },
      )
      ∷ [];
  tokens = [];
}

abbrev first_pair : TokenPair
first_pair = record {
  access_token = codes "x";
  refresh_token = codes "y";
  expires_in = 60;
  scope = codes "relay" ∷ [];
}

exchange-once_example :
    let after =
      (exchange_authorization_code digest normal 20
        (codes "x")
        (codes "y")
        (codes "a")
        (codes "c1")
        provider).0 in
    Redeemed digest normal provider after (codes "a") (codes "c1") 20 first_pair
    × ((exchange_authorization_code digest normal 21
          (codes "v")
          (codes "w")
          (codes "a")
          (codes "c1")
          after).1
        ≡ Answer.refused Refusal.invalid_grant)
unfolding exchange_authorization_code has_key text_eq get
exchange-once_example =
    exchange-once digest normal 20 21 (codes "x") (codes "y") (codes "a") (codes "c1") (codes "v")
      (codes "w") (codes "a") provider first_pair (refl, tt) refl refl

register_client-frozen_example :
    client_at (codes "a") (register_client (codes "b") (codes "{}") provider).0
    ≡ client_at (codes "a") provider
register_client-frozen_example =
    register_client-frozen (codes "b") (codes "{}") (codes "a") provider _ _ refl refl

abbrev open_provider : Provider
open_provider = record provider { single_client = false }

authorize-pending_example :
    (authorize digest normal 5
      (codes "k")
      (codes "b")
      none
      []
      []
      []
      true
      (register_client (codes "b") (codes "{}") open_provider).0).1
    ≢ Answer.granted (codes "k")
unfolding has_key register_client text_eq
authorize-pending_example =
    (authorize-pending digest normal 98 [] (codes "{}") ((codes "a", codes "{}") ∷ []) open_provider
        refl refl refl refl).0
      5 (codes "k") none [] [] [] true (codes "k")

abbrev refreshing : Provider
refreshing = record provider {
  tokens =
      (
        codes "refresh:sha256:r1",
        record {
          client_id = codes "a";
          scopes = codes "relay" ∷ [];
          resource = some (codes "https://relay");
          expires_at = 600;
          spent_at = none;
        },
      )
      ∷ [];
}

refresh-once_example :
    let after =
      (exchange_refresh_token digest normal 20
        (codes "x")
        (codes "y")
        (codes "a")
        (codes "r1")
        []
        refreshing).0 in
    Rotated digest normal refreshing after (codes "a") (codes "r1") 20 first_pair
    × ((exchange_refresh_token digest normal 21
          (codes "v")
          (codes "w")
          (codes "a")
          (codes "r1")
          []
          after).1
        ≡ Answer.refused Refusal.invalid_grant)
unfolding exchange_refresh_token has_key text_eq get is_secret refresh_key is_among
refresh-once_example =
    refresh-once digest normal 20 21 (codes "x") (codes "y") (codes "a") (codes "r1") (codes "v")
      (codes "w") (codes "a") [] [] refreshing first_pair (refl, tt) refl refl refl refl

exchange-replay_revokes_example :
    (load_refresh_token digest normal 31
      (codes "a")
      (codes "r1")
      (exchange_refresh_token digest normal 20
        (codes "x")
        (codes "y")
        (codes "a")
        (codes "r1")
        []
        refreshing).0).1
    ≡ none
unfolding exchange_refresh_token has_key text_eq get is_secret refresh_key is_among count_if
exchange-replay_revokes_example =
    (exchange-replay_revokes digest normal 20 31 (codes "x") (codes "y") (codes "a") (codes "r1") []
      refreshing first_pair (refl, tt) refl refl refl refl (omega arith) (omega arith) refl).0

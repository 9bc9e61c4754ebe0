-- ===== src/Auth/Refresh.antt =====
-- internal/tokenrefresh/service.go, with `RefreshToken` of internal/osm/oauthclient/oauth.go below
-- it. `S` is the state that the two callbacks write to.
use osm_device_adapter.Prelude.{
  ℕ, String, Bool, ◌||◌, Option, none, some, ltb, leb, ◌==◌, str_eq, if◌then◌else◌,
}
use osm_device_adapter.Osm.Types.{token_expiry, OsmTokenResponse}

-- What `RefreshToken` of the OAuth client gives: tokens, `ErrAccessRevoked` or any other error.
pub data OauthAnswer : Type 0 where
  new_tokens : OsmTokenResponse → OauthAnswer
  access_revoked : OauthAnswer
  oauth_failed : OauthAnswer

abbrev decoded : Option OsmTokenResponse → OauthAnswer
decoded none = oauth_failed
decoded (some tokens) = new_tokens tokens

-- From the HTTP answer: `none` where the request ended in an error, and the status with the body,
-- `none` where it does not decode.
unfoldable pub oauth_refresh : Option (ℕ × Option OsmTokenResponse) → OauthAnswer
oauth_refresh none = oauth_failed
oauth_refresh (some (status, body)) =
    if status == 401
    then access_revoked
    else if ltb status 200 || leb 300 status
    then oauth_failed
    else decoded body

-- The errors of authentication, of both services.
pub data AuthError : Type 0 where
  invalid_token token_revoked token_refresh_failed : AuthError

pub data TokenResult : Type 0 where
  refreshed : (access_token : String) → TokenResult
  refused : AuthError → TokenResult

-- A callback gives the state it leaves, and whether it ended in an error.
module _ {S : Type 0} (on_success : String → String → ℕ → S → S × Bool)
    (on_revoked : S → S × Bool) where
  abbrev pub stored : String → S × Bool → S × TokenResult
  stored access (s, failed) = (s, if failed then refused token_refresh_failed else refreshed access)

  abbrev pub handled : ℕ → S → OauthAnswer → S × TokenResult
  handled now s (new_tokens tokens) =
      stored tokens.access_token
        (on_success tokens.access_token tokens.refresh_token (token_expiry now tokens.expires_in) s)
  handled now s access_revoked = ((on_revoked s).0, refused token_revoked)
  handled now s oauth_failed = (s, refused token_refresh_failed)

  -- `osm` is what the OAuth client answers for a refresh token, `now` the clock after its answer.
  unfoldable pub refresh_token : (String → OauthAnswer) → ℕ → String → S → S × TokenResult
  refresh_token osm now refresh s =
      if str_eq refresh "" then (s, refused token_refresh_failed) else handled now s (osm refresh)

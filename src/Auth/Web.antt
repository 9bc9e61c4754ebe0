-- ===== src/Auth/Web.antt =====
-- internal/webauth/service.go and internal/middleware/session.go: the requests of the admin pages,
-- with the chain of middleware that internal/server/server.go builds for them.
pub mod Laws
use Prim.Native.String.{len}
use osm_device_adapter.Prelude.{
  ℕ, ◌+◌, ◌*◌, String, Bool, true, false, not, ◌||◌, ◌&&◌, Option, none, some, ltb, str_eq,
  if◌then◌else◌,
}
use osm_device_adapter.Prelude.Int.{ℤ}
use osm_device_adapter.Db.Models.{WebSession}
use osm_device_adapter.Db.WebSessions.{
  WebSessions, find_by_id, update_tokens, update_activity, delete_web_session,
}
use osm_device_adapter.Osm.Request.{OsmUser}
use osm_device_adapter.Auth.Refresh.{
  OauthAnswer, AuthError, TokenResult, refreshed, refused, refresh_token,
}
use osm_device_adapter.Auth.Device.{near_expiry}

-- Which calls of the database fail.
pub record WebFaults : Type 0 where
  pub find : Bool
  pub update_tokens : Bool
  pub delete : Bool

-- `session.User()`: a copy of the access token.
abbrev pub user_of : WebSession → OsmUser
user_of s = record { user_id = some s.osm_user_id; access_token = s.osm_access_token }

-- What a middleware does: the request goes on with this in its context, or it is answered, with or
-- without clearing the cookie. `crashes` is a run-time panic.
pub data WebPassage : Type 0 where
  enters : (session : WebSession) → (user : OsmUser) → WebPassage
  halts : (status : ℕ) → (message : String) → (clears_cookie : Bool) → WebPassage
  crashes : WebPassage

abbrev with_session : Option WebSession → WebPassage
with_session none = halts 401 "Unauthorized" true
with_session (some s) = enters s (user_of s)

abbrev with_cookie : Bool → ℕ → WebSessions → Option String → WebPassage
with_cookie fault now table none = halts 401 "Unauthorized" false
with_cookie fault now table (some id) =
    if str_eq id ""
    then halts 401 "Unauthorized" false
    else if fault
    then halts 500 "Internal server error" false
    else with_session (find_by_id now id table)

-- `SessionMiddleware`, less the update of the activity, which runs on its own: it may come at any
-- later time, and is `touch_session`.
unfoldable pub session_middleware : WebFaults → ℕ → WebSessions → Option String → WebPassage
session_middleware faults now table cookie = with_cookie faults.find now table cookie

-- `none` is the panic of the log line, which cuts `sessionID[:8]`; it ends the program.
unfoldable pub touch_session : Bool → ℕ → String → WebSessions → Option WebSessions
touch_session fault now id table =
    if not fault
    then some (update_activity now id table)
    else if ltb (len id) 8
    then none
    else some table

-- `CSRFMiddleware`: `none` lets the request pass, else the status and the message.
abbrev pub is_state_changing : String → Bool
is_state_changing method =
    str_eq method "POST" || str_eq method "PUT" || str_eq method "DELETE" || str_eq method "PATCH"

abbrev csrf_checked : Option WebSession → String → Option (ℕ × String)
csrf_checked none token = some (401, "Unauthorized")
csrf_checked (some s) token =
    if str_eq token ""
    then some (403, "CSRF token required")
    else if not (str_eq token s.csrf_token)
    then some (403, "Invalid CSRF token")
    else none

unfoldable pub csrf_middleware : String → Option WebSession → String → Option (ℕ × String)
csrf_middleware method session token =
    if is_state_changing method then csrf_checked session token else none

abbrev unless : Bool → (WebSessions → WebSessions) → WebSessions → WebSessions × Bool
unless true write table = (table, true)
unless false write table = (write table, false)

unfoldable pub refresh_web_session_token :
    WebFaults → (String → OauthAnswer) → ℕ → WebSession → WebSessions → WebSessions × TokenResult
refresh_web_session_token faults osm now session table =
    refresh_token
      (λ access refresh expiry.
        unless faults.update_tokens (update_tokens session.id access refresh expiry))
      (unless faults.delete (delete_web_session session.id)) osm now session.osm_refresh_token table

-- The session in the context is replaced; the user that stands in the context beside it is not.
abbrev after_refresh : WebSession → OsmUser → WebSessions × TokenResult → WebSessions × WebPassage
after_refresh session user (table, refreshed access) =
    (table, enters (record session { osm_access_token = access }) user)
after_refresh session user (table, refused e) = (table, enters session user)

-- `TokenRefreshMiddleware` on a request with a session. Before the refresh, log lines cut
-- `session.ID[:8]`.
unfoldable pub token_refresh_middleware :
    WebFaults
    → (String → OauthAnswer)
    → ℕ
    → ℕ
    → WebSession
    → OsmUser
    → WebSessions
    → WebSessions × WebPassage
token_refresh_middleware faults osm now later session user table =
    let renewed =
      after_refresh session user (refresh_web_session_token faults osm later session table) in
    if not (near_expiry now session.osm_token_expiry)
    then (table, enters session user)
    else if ltb (len session.id) 8
    then (table, crashes)
    else renewed

-- The chain of `adminMiddleware`.
abbrev then_refresh :
    WebFaults → (String → OauthAnswer) → ℕ → ℕ → WebSessions → WebPassage → WebSessions × WebPassage
then_refresh faults osm now later table (enters session user) =
    token_refresh_middleware faults osm now later session user table
then_refresh faults osm now later table (halts status message clears) =
    (table, halts status message clears)
then_refresh faults osm now later table crashes = (table, crashes)

unfoldable pub admin_middleware :
    WebFaults
    → (String → OauthAnswer)
    → ℕ
    → ℕ
    → Option String
    → WebSessions
    → WebSessions × WebPassage
unfolding session_middleware
admin_middleware faults osm now later cookie table =
    then_refresh faults osm now later table (session_middleware faults now table cookie)

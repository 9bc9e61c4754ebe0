-- ===== src/Admin/Login.antt =====
-- internal/handlers/admin_oauth.go: logging in to the admin pages through OSM, and logging out.
pub mod Laws
use osm_device_adapter.Prelude.{
  ℕ, ◌+◌, ◌*◌, String, Bool, true, false, not, ◌||◌, ◌&&◌, Option, none, some, ltb, leb, str_eq,
  if◌then◌else◌,
}
use osm_device_adapter.Prelude.Dict.{Dict, lookup, insert, erase}
use osm_device_adapter.Db.Models.{WebSession, second, minute, hour}
use osm_device_adapter.Db.WebSessions.{WebSessions, create_web_session, delete_web_session}
use osm_device_adapter.Osm.Types.{
  token_expiry, OsmTokenResponse, OsmProfileData, OsmProfileResponse,
}

-- The keys `admin_oauth_state:<state>` of Redis, with the time at which each expires.
pub record LoginWorld : Type 0 where
  pub states : Dict ℕ
  pub sessions : WebSessions

pub data LoginReply : Type 0 where
  http_error : ℕ → String → LoginReply
  redirect_to_osm : (state : String) → LoginReply
  logged_in : (session_id : String) → (cookie_expires : ℕ) → LoginReply
  logged_out : LoginReply

abbrev pub admin_oauth_state_ttl : ℕ
admin_oauth_state_ttl = 15 * minute

abbrev pub admin_session_duration : ℕ
admin_session_duration = 7 * 24 * hour

unfoldable pub store_admin_oauth_state : ℕ → String → Dict ℕ → Dict ℕ
store_admin_oauth_state now state states = insert state (now + admin_oauth_state_ttl) states

-- `AdminLoginHandler`. The random state is an argument, `none` where none could be generated;
-- `fault` is an error of Redis.
unfoldable pub admin_login : Bool → ℕ → Option String → LoginWorld → LoginWorld × LoginReply
unfolding store_admin_oauth_state
admin_login fault now none w = (w, http_error 500 "Failed to initiate login")
admin_login fault now (some state) w =
    if fault
    then (w, http_error 500 "Failed to initiate login")
    else (record w { states = store_admin_oauth_state now state w.states }, redirect_to_osm state)

-- Whether the state is there; the error of `Get` reads as no.
abbrev pub is_live : ℕ → Option ℕ → Bool
is_live now none = false
is_live now (some expires) = ltb now expires

-- `get` and `del` are errors of the two calls of Redis, with nothing between them.
unfoldable pub verify_and_delete_admin_oauth_state :
    (get : Bool) → (del : Bool) → ℕ → String → Dict ℕ → Dict ℕ × Bool
verify_and_delete_admin_oauth_state get del now state states =
    if get || not (is_live now (lookup state states))
    then (states, false)
    else (if del then states else erase state states, true)

pub record LoginCallback : Type 0 where
  pub code : String
  pub state : String
  pub error : String

-- What comes from outside during a callback: OSM's answer to the exchange of the code (its HTTP
-- status, and the body where it decodes), the profile, the random values, the clock, and which
-- calls fail.
pub record CallbackWorld : Type 0 where
  pub exchange : String → Option (ℕ × Option OsmTokenResponse)
  pub profile : String → Option OsmProfileResponse
  pub uuid : Option String
  pub csrf_token : Option String
  pub verified_at : ℕ
  pub now : ℕ
  pub get_fails : Bool
  pub del_fails : Bool
  pub create_fails : Bool

unfoldable pub exchange_admin_code : Option (ℕ × Option OsmTokenResponse) → Option OsmTokenResponse
exchange_admin_code none = none
exchange_admin_code (some (status, body)) = if ltb status 200 || leb 300 status then none else body

abbrev pub new_session : ℕ → String → String → OsmTokenResponse → OsmProfileData → WebSession
new_session now id csrf tokens profile = record {
  id = id;
  osm_user_id = profile.user_id;
  osm_access_token = tokens.access_token;
  osm_refresh_token = tokens.refresh_token;
  osm_token_expiry = token_expiry now tokens.expires_in;
  csrf_token = csrf;
  selected_section_id = none;
  created_at = now;
  last_activity = now;
  expires_at = now + admin_session_duration;
}

abbrev stored : LoginWorld → WebSession → Option WebSessions → LoginWorld × LoginReply
stored w s none = (w, http_error 500 "Failed to create session")
stored w s (some sessions) = (record w { sessions = sessions }, logged_in s.id s.expires_at)

abbrev create_session :
    CallbackWorld
    → OsmTokenResponse
    → OsmProfileData
    → LoginWorld
    → Option String
    → Option String
    → LoginWorld × LoginReply
create_session out tokens profile w (some id) (some csrf) =
    let s = new_session out.now id csrf tokens profile in
    stored w s (if out.create_fails then none else create_web_session s w.sessions)
create_session out tokens profile w id csrf = (w, http_error 500 "Failed to create session")

abbrev with_data :
    CallbackWorld → OsmTokenResponse → LoginWorld → Option OsmProfileData → LoginWorld × LoginReply
with_data out tokens w none = (w, http_error 400 "No profile data returned")
with_data out tokens w (some profile) = create_session out tokens profile w out.uuid out.csrf_token

abbrev with_profile :
    CallbackWorld
    → OsmTokenResponse
    → LoginWorld
    → Option OsmProfileResponse
    → LoginWorld × LoginReply
with_profile out tokens w none = (w, http_error 500 "Failed to fetch user profile")
with_profile out tokens w (some answer) = with_data out tokens w answer.payload

abbrev exchanged : CallbackWorld → LoginWorld → Option OsmTokenResponse → LoginWorld × LoginReply
exchanged out w none = (w, http_error 500 "Failed to exchange authorization code")
exchanged out w (some tokens) = with_profile out tokens w (out.profile tokens.access_token)

abbrev verified : CallbackWorld → String → LoginWorld → Dict ℕ × Bool → LoginWorld × LoginReply
verified out code w (states, valid) =
    let w' : LoginWorld = record w { states = states } in
    if not valid
    then (w', http_error 400 "Invalid or expired state")
    else exchanged out w' (exchange_admin_code (out.exchange code))

-- `AdminCallbackHandler`
unfoldable pub admin_callback : CallbackWorld → LoginCallback → LoginWorld → LoginWorld × LoginReply
admin_callback out call w =
    if not (str_eq call.error "")
    then (w, http_error 401 "Authorization denied")
    else if str_eq call.code "" || str_eq call.state ""
    then (w, http_error 400 "Missing required parameters")
    else verified out call.code w (
        verify_and_delete_admin_oauth_state out.get_fails out.del_fails out.verified_at call.state
          w.states)

-- `AdminLogoutHandler`; the cookie is cleared in any case.
abbrev ended : Bool → Option String → WebSessions → WebSessions
ended fault none sessions = sessions
ended fault (some id) sessions =
    if str_eq id "" || fault then sessions else delete_web_session id sessions

unfoldable pub admin_logout : Bool → Option String → LoginWorld → LoginWorld × LoginReply
admin_logout fault cookie w = (record w { sessions = ended fault cookie w.sessions }, logged_out)

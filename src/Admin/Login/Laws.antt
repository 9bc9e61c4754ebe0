-- ===== src/Admin/Login/Laws.antt =====
-- What the login of internal/handlers/admin_oauth.go keeps, with the middleware of the admin pages
-- that comes after it.
use osm_device_adapter.Prelude.{
  ℕ, ◌+◌, ◌*◌, ◌≤◌, ◌<◌, ◌≡◌, refl, ap, ◌∙◌, String, Bool, true, false, Option, none, some, arith,
  ltb, str_eq, eq_refl, if◌then◌else◌,
}
use osm_device_adapter.Prelude.Dict.{lookup, insert, erase, lookup-erase, lookup-insert_self}
use osm_device_adapter.Db.Models.{WebSession, minute}
use osm_device_adapter.Db.WebSessions.{WebSessions, create_web_session}
use osm_device_adapter.Db.WebSessions.Laws.{find_by_id-create, find_by_id-delete}
use osm_device_adapter.Osm.Types.{
  token_expiry, OsmTokenResponse, OsmProfileData, OsmProfileResponse,
}
use osm_device_adapter.Auth.Refresh.{OauthAnswer}
use osm_device_adapter.Auth.Web.{
  WebFaults, enters, halts, session_middleware, token_refresh_middleware, admin_middleware,
}
use osm_device_adapter.Admin.Login.{
  LoginWorld, LoginReply, http_error, redirect_to_osm, logged_in, logged_out,
  admin_session_duration, admin_oauth_state_ttl, store_admin_oauth_state, admin_login,
  verify_and_delete_admin_oauth_state, LoginCallback, CallbackWorld, exchange_admin_code,
  new_session, stored, create_session, with_data, with_profile, exchanged, admin_callback,
  admin_logout,
}

abbrev pub logs_in : LoginReply → Bool
logs_in (http_error status message) = false
logs_in (redirect_to_osm state) = false
logs_in (logged_in id expires) = true
logs_in logged_out = false

-- What follows the verification leaves the states.
stored-states :
    (w : LoginWorld) (s : WebSession) (o : Option WebSessions) → (stored w s o).0.states ≡ w.states
stored-states w s none = refl
stored-states w s (some sessions) = refl

create_session-states :
    (out : CallbackWorld) (tokens : OsmTokenResponse) (profile : OsmProfileData) (w : LoginWorld)
    (id csrf : Option String)
    → (create_session out tokens profile w id csrf).0.states ≡ w.states
create_session-states out tokens profile w (some id) (some csrf) =
    stored-states w (new_session out.now id csrf tokens profile) (
      if out.create_fails
      then none
      else create_web_session (new_session out.now id csrf tokens profile) w.sessions)
create_session-states out tokens profile w (some id) none = refl
create_session-states out tokens profile w none (some csrf) = refl
create_session-states out tokens profile w none none = refl

with_data-states :
    (out : CallbackWorld) (tokens : OsmTokenResponse) (w : LoginWorld) (o : Option OsmProfileData)
    → (with_data out tokens w o).0.states ≡ w.states
with_data-states out tokens w none = refl
with_data-states out tokens w (some profile) =
    create_session-states out tokens profile w out.uuid out.csrf_token

with_profile-states :
    (out : CallbackWorld) (tokens : OsmTokenResponse) (w : LoginWorld)
    (o : Option OsmProfileResponse)
    → (with_profile out tokens w o).0.states ≡ w.states
with_profile-states out tokens w none = refl
with_profile-states out tokens w (some answer) = with_data-states out tokens w answer.payload

exchanged-states :
    (out : CallbackWorld) (w : LoginWorld) (o : Option OsmTokenResponse)
    → (exchanged out w o).0.states ≡ w.states
exchanged-states out w none = refl
exchanged-states out w (some tokens) =
    with_profile-states out tokens w (out.profile tokens.access_token)

-- A callback with a state that Redis does not have logs nobody in.
pub admin_callback-unknown :
    (out : CallbackWorld) (call : LoginCallback) (w : LoginWorld)
    → lookup call.state w.states ≡ none
    → logs_in (admin_callback out call w).1 ≡ false
unfolding admin_callback verify_and_delete_admin_oauth_state
admin_callback-unknown out call w gone = ground (arith, gone)

-- A callback that logs in has used its state up, if Redis deletes it.
admin_callback-used :
    (out : CallbackWorld) (call : LoginCallback) (w : LoginWorld)
    → logs_in (admin_callback out call w).1 ≡ true
    → out.del_fails ≡ false
    → (admin_callback out call w).0.states ≡ erase call.state w.states
unfolding admin_callback verify_and_delete_admin_oauth_state
admin_callback-used out call w ok deletes =
    let after : LoginWorld = record w { states = erase call.state w.states } in
    ground (
      arith,
      ok,
      deletes,
      exchanged-states out after (exchange_admin_code (out.exchange call.code)),
    )

-- The state of a login works once: after a callback that logs in, no callback with the same state
-- does, whenever it comes, unless Redis has failed to delete the state.
pub admin_callback-once :
    (out again : CallbackWorld) (call later : LoginCallback) (w : LoginWorld)
    → logs_in (admin_callback out call w).1 ≡ true
    → out.del_fails ≡ false
    → later.state ≡ call.state
    → logs_in (admin_callback again later (admin_callback out call w).0).1 ≡ false
admin_callback-once out again call later w ok deletes same =
    admin_callback-unknown again later (admin_callback out call w).0 (
      rw (
        admin_callback-used out call w ok deletes,
        same,
        lookup-erase call.state call.state w.states,
        eq_refl call.state,
      ))

-- What has to go well for a login: the random values, the calls of Redis and of the database, and
-- OSM's answers.
abbrev pub GoesWell :
    CallbackWorld
    → String
    → OsmTokenResponse
    → OsmProfileResponse
    → OsmProfileData
    → String
    → String
    → Type 0
GoesWell out code tokens answer profile id csrf =
    (exchange_admin_code (out.exchange code) ≡ some tokens)
    × ((out.profile tokens.access_token ≡ some answer)
        × ((answer.payload ≡ some profile)
            × ((out.uuid ≡ some id)
                × ((out.csrf_token ≡ some csrf)
                    × ((out.get_fails ≡ false) × (out.create_fails ≡ false))))))

-- The reply of a callback that goes well with a state that is stored.
admin_callback-logs_in :
    (out : CallbackWorld) (state code : String) (expires : ℕ) (w : LoginWorld)
    (tokens : OsmTokenResponse) (answer : OsmProfileResponse) (profile : OsmProfileData)
    (id csrf : String) (sessions : WebSessions)
    → str_eq state "" ≡ false
    → str_eq code "" ≡ false
    → lookup state w.states ≡ some expires
    → ltb out.verified_at expires ≡ true
    → GoesWell out code tokens answer profile id csrf
    → create_web_session (new_session out.now id csrf tokens profile) w.sessions ≡ some sessions
    → admin_callback out (record { code = code; state = state; error = "" }) w ≡ (
      record {
        states = if out.del_fails then w.states else erase state w.states;
        sessions = sessions;
      },
      logged_in id (out.now + admin_session_duration),
    )
unfolding admin_callback verify_and_delete_admin_oauth_state
admin_callback-logs_in out state code expires w tokens answer profile id csrf sessions has_state
      has_code known live (exchanges, (fetches, (has_data, (uuid, (token, (reads, creates))))))
      fresh =
    rw (
      has_code, has_state, known, live, reads, exchanges, fetches, has_data, uuid, token, creates,
      fresh,
    )

-- From the login to the pages: a user who starts a login, is sent back by OSM within 15 minutes
-- with the same state, and for whom everything goes well, is let in with the cookie that he gets,
-- as the user of the profile, for seven days, or until five minutes before the token's expiry as it
-- was stored, which is the sum that an int64 gives.
pub admin_login-enters :
    (out : CallbackWorld) (faults : WebFaults) (osm : String → OauthAnswer) (now at at' : ℕ)
    (state code : String) (w : LoginWorld) (tokens : OsmTokenResponse) (answer : OsmProfileResponse)
    (profile : OsmProfileData) (id csrf : String) (sessions : WebSessions)
    → str_eq state "" ≡ false
    → str_eq code "" ≡ false
    → str_eq id "" ≡ false
    → out.verified_at < now + 15 * minute
    → GoesWell out code tokens answer profile id csrf
    → create_web_session (new_session out.now id csrf tokens profile) w.sessions ≡ some sessions
    → faults.find ≡ false
    → at < out.now + admin_session_duration
    → at + 5 * minute ≤ token_expiry out.now tokens.expires_in
    → (admin_middleware faults osm at at'
        (some id)
        (admin_callback out
          (record { code = code; state = state; error = "" })
          (admin_login false now (some state) w).0).0.sessions).1
      ≡ enters
          (new_session out.now id csrf tokens profile)
          (record { user_id = some profile.user_id; access_token = tokens.access_token })
unfolding admin_login store_admin_oauth_state admin_middleware session_middleware
    token_refresh_middleware
admin_login-enters out faults osm now at at' state code w tokens answer profile id csrf sessions
      has_state has_code has_id soon well fresh finds alive early =
    let s = new_session out.now id csrf tokens profile in
    let started : LoginWorld = record w {
      states = insert state (now + admin_oauth_state_ttl) w.states;
    } in
    let in_time : ltb out.verified_at (now + admin_oauth_state_ttl) ≡ true = ground (arith, soon) in
    let done =
      admin_callback-logs_in out state code (now + admin_oauth_state_ttl) started tokens answer
        profile id csrf sessions has_state has_code
        (lookup-insert_self state (now + admin_oauth_state_ttl) w.states) in_time well fresh in
    let lives : ltb at (out.now + admin_session_duration) ≡ true = ground (arith, alive) in
    let no_refresh : ltb (token_expiry out.now tokens.expires_in) (at + 5 * minute) ≡ false =
      ground (arith, early) in
    ap
      (λ (r : LoginWorld × LoginReply).
        (admin_middleware faults osm at at' (some id) r.0.sessions).1)
      done
    ∙ rw (
      has_id,
      finds,
      find_by_id-create at s w.sessions sessions id fresh,
      eq_refl id,
      lives,
      no_refresh,
    )

-- After a logout that the database carries out, the cookie's session lets nobody in any more.
pub admin_logout-halts :
    (faults : WebFaults) (osm : String → OauthAnswer) (now later : ℕ) (id : String) (w : LoginWorld)
    → str_eq id "" ≡ false
    → faults.find ≡ false
    → (admin_middleware faults osm now later
        (some id)
        (admin_logout false (some id) w).0.sessions).1
      ≡ halts 401 "Unauthorized" true
unfolding admin_logout admin_middleware session_middleware
admin_logout-halts faults osm now later id w has_id finds =
    rw (has_id, finds, find_by_id-delete now id id w.sessions, eq_refl id)

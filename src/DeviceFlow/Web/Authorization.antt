-- ===== src/DeviceFlow/Web/Authorization.antt =====
-- `OAuthCallbackHandler`, `OAuthSelectSectionHandler` and `markDeviceCodeStatus` of
-- internal/handlers/oauth_web.go.
pub mod Laws
use osm_device_adapter.Prelude.{
  ℕ, ◌+◌, ◌*◌, String, Bool, true, false, not, ◌||◌, Option, none, some, List, [], ◌∷◌, str_eq,
  if◌then◌else◌,
}
use osm_device_adapter.Prelude.Int.{ℤ}
use osm_device_adapter.Db.Models.{
  Status, awaiting_section, authorized, denied, DeviceSession, second,
}
use osm_device_adapter.Db.DeviceCodes.{update_status, update_with_tokens, update_with_section}
use osm_device_adapter.Db.Sessions.{find_device_session}
use osm_device_adapter.Osm.Types.{
  token_expiry, OsmTokenResponse, OsmSection, OsmProfileData, OsmProfileResponse,
}
use osm_device_adapter.DeviceFlow.World.{
  World, Faults, auth_denied, auth_success, section_select, Reply, http_error, page, attempt,
  attempt_write,
}

-- The query of the callback.
pub record CallbackCall : Type 0 where
  pub code : String
  pub state : String
  pub error : String

-- What OSM answers during the callback: the exchange of the code, and the profile.
pub record OsmAnswers : Type 0 where
  pub exchange : Option OsmTokenResponse
  pub profile : Option OsmProfileResponse

mark_session : Faults → Status → World → Option (Option DeviceSession) → World
mark_session faults status w none = w
mark_session faults status w (some none) = w
mark_session faults status w (some (some session)) =
    if faults.write_code
    then w
    else record w { codes = update_status session.device_code status w.codes }

unfoldable pub mark_device_code_status : Faults → ℕ → String → Status → World → World
unfolding mark_session
mark_device_code_status faults now session_id status w =
    mark_session faults status w
      (attempt faults.find_session (find_device_session now session_id w.sessions))

store_tokens :
    Faults
    → ℕ
    → World
    → CallbackCall
    → DeviceSession
    → OsmTokenResponse
    → OsmProfileData
    → World × Reply
store_tokens faults later w call session tokens profile =
    if faults.write_code then (w, http_error 500 "Failed to store tokens") else (
      record w {
        codes =
            update_with_tokens session.device_code awaiting_section tokens.access_token
              tokens.refresh_token (token_expiry later tokens.expires_in) profile.user_id w.codes;
      },
      page 200 (section_select call.state),
    )

abbrev no_sections : List OsmSection → Bool
no_sections [] = true
no_sections (s ∷ ss) = false

callback_data :
    Faults
    → ℕ
    → World
    → CallbackCall
    → DeviceSession
    → OsmTokenResponse
    → Option OsmProfileData
    → World × Reply
callback_data faults later w call session tokens none =
    (w, http_error 400 "No sections found for this account")
callback_data faults later w call session tokens (some profile) =
    if no_sections profile.sections
    then (w, http_error 400 "No sections found for this account")
    else store_tokens faults later w call session tokens profile

callback_profile :
    Faults
    → ℕ
    → World
    → CallbackCall
    → DeviceSession
    → OsmTokenResponse
    → Option OsmProfileResponse
    → World × Reply
callback_profile faults later w call session tokens none =
    (w, http_error 500 "Failed to fetch profile")
callback_profile faults later w call session tokens (some profile) =
    callback_data faults later w call session tokens profile.payload

callback_exchange :
    Faults
    → ℕ
    → World
    → CallbackCall
    → OsmAnswers
    → DeviceSession
    → Option OsmTokenResponse
    → World × Reply
callback_exchange faults later w call osm session none =
    (w, http_error 500 "Failed to exchange code")
callback_exchange faults later w call osm session (some tokens) =
    callback_profile faults later w call session tokens osm.profile

callback_session :
    Faults → ℕ → World → CallbackCall → OsmAnswers → Option (Option DeviceSession) → World × Reply
callback_session faults later w call osm none = (w, http_error 500 "Database error")
callback_session faults later w call osm (some none) =
    (w, http_error 400 "Invalid or expired session")
callback_session faults later w call osm (some (some session)) =
    callback_exchange faults later w call osm session osm.exchange

-- `now` is the clock at the session's lookup, `later` where the token's expiry is computed.
unfoldable pub oauth_callback : Faults → ℕ → ℕ → World → CallbackCall → OsmAnswers → World × Reply
unfolding callback_session callback_exchange callback_profile callback_data store_tokens
    mark_device_code_status
oauth_callback faults now later w call osm =
    if not (str_eq call.error "")
    then (
      if str_eq call.state "" then w else mark_device_code_status faults now call.state denied w,
      page 200 auth_denied,
    )
    else if str_eq call.code "" || str_eq call.state ""
    then (w, http_error 400 "Missing required parameters")
    else callback_session faults later w call osm
        (attempt faults.find_session (find_device_session now call.state w.sessions))

-- The section form. `section_number` is what `fmt.Sscanf(section_id, "%d", ...)` reads.
pub record SelectCall : Type 0 where
  pub is_post : Bool
  pub session_id : String
  pub section_id : String
  pub section_number : Option ℤ

select_token : Faults → World → DeviceSession → ℤ → Option String → World × Reply
select_token faults w session section none =
    (w, http_error 500 "Failed to generate device access token")
select_token faults w session section (some token) =
    elim (attempt_write faults.write_code
      (update_with_section session.device_code authorized section token w.codes)) [
        | none ↦ (w, http_error 500 "Failed to update device code")
        | some codes ↦ (record w { codes = codes }, page 200 auth_success)
      ]

select_session : Faults → World → ℤ → Option String → Option (Option DeviceSession) → World × Reply
select_session faults w section random none = (w, http_error 500 "Database error")
select_session faults w section random (some none) =
    (w, http_error 400 "Invalid or expired session")
select_session faults w section random (some (some session)) =
    select_token faults w session section random

select_number : Faults → ℕ → World → SelectCall → Option String → Option ℤ → World × Reply
select_number faults now w call random none = (w, http_error 400 "Invalid section ID")
select_number faults now w call random (some section) =
    select_session faults w section random
      (attempt faults.find_session (find_device_session now call.session_id w.sessions))

-- `random` is the text of `generateDeviceAccessToken`, or `none` for its error.
unfoldable pub oauth_select_section :
    Faults → ℕ → Option String → World → SelectCall → World × Reply
unfolding select_number select_session select_token
oauth_select_section faults now random w call =
    if not call.is_post
    then (w, http_error 405 "Method not allowed")
    else if str_eq call.session_id "" || str_eq call.section_id ""
    then (w, http_error 400 "Missing required parameters")
    else select_number faults now w call random call.section_number

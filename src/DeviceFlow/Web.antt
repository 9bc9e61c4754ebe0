-- ===== src/DeviceFlow/Web.antt =====
-- The pages of the device flow, internal/handlers/oauth_web.go. Rendering is left out: a page is
-- named by its template and what decides its content.
pub mod Authorization
use Prim.Native.String.{◌++◌ as append}
use osm_device_adapter.Prelude.{
  ℕ, ◌+◌, ◌*◌, String, Bool, true, false, not, ◌&&◌, ◌||◌, Option, none, some, List, [], ◌∷◌,
  str_eq, if◌then◌else◌,
}
use osm_device_adapter.Prelude.Int.{ℤ}
use osm_device_adapter.Db.Models.{
  Status, pending, awaiting_section, authorized, denied, status_eq, DeviceCode, DeviceSession,
  second, minute,
}
use osm_device_adapter.Db.DeviceCodes.{
  find_by_user_code, update_status, update_with_tokens, update_with_section,
}
use osm_device_adapter.Db.Sessions.{create_device_session, find_device_session}
use osm_device_adapter.Redis.RateLimit.{check_rate_limit}
use osm_device_adapter.Osm.Types.{OsmTokenResponse, OsmProfileResponse, OsmProfileData}
use osm_device_adapter.DeviceFlow.UserCode.{normalize_user_code}
use osm_device_adapter.DeviceFlow.World.{
  World, Faults, Config, RemoteMetadata, Page, device_auth, rate_limited_entry, invalid_format,
  invalid_code, already_used, auth_denied, auth_cancelled, auth_success, confirm, section_select,
  Reply, http_error, page, redirect_to_osm, blocked, attempt, attempt_write,
}

-- `OAuthAuthorizeHandler` --

pub record EntryCall : Type 0 where
  pub is_get : Bool
  pub remote : RemoteMetadata
  pub user_code : List ℕ

-- `showCountryWarning` of `showDeviceConfirmationPage`.
abbrev country_or_unknown : Option String → String
country_or_unknown none = "Unknown"
country_or_unknown (some c) = c

country_warning : DeviceCode → RemoteMetadata → Bool
country_warning r remote =
    let device = country_or_unknown r.device_request_country in
    let current : String = if str_eq remote.country "" then "Unknown" else remote.country in
    not (str_eq device "Unknown") && not (str_eq current "Unknown") && not (str_eq device current)

open_session : Faults → ℕ → RemoteMetadata → World → DeviceCode → Option String → World × Reply
open_session faults now remote w r none = (w, http_error 500 "Failed to create session")
open_session faults now remote w r (some session_id) =
    let session : DeviceSession = record {
      session_id = session_id;
      device_code = r.device_code;
      created_at = now;
      expires_at = now + 15 * minute;
    } in
    elim (attempt_write faults.write_session (create_device_session session w.sessions)) [
      | none ↦ (w, http_error 500 "Failed to create session")
      | some sessions ↦ (
        record w { sessions = sessions },
        page 200 (confirm session_id (country_warning r remote)),
      )
    ]

enter_record :
    Faults → ℕ → RemoteMetadata → Option String → World → Option (Option DeviceCode) → World × Reply
enter_record faults now remote random w none = (w, http_error 500 "Database error")
enter_record faults now remote random w (some none) = (w, page 400 invalid_code)
enter_record faults now remote random w (some (some r)) =
    if not (status_eq r.status pending)
    then (w, page 400 already_used)
    else open_session faults now remote w r random

enter_code : Faults → ℕ → RemoteMetadata → Option String → World → Option (List ℕ) → World × Reply
enter_code faults now remote random w none = (w, page 400 invalid_format)
enter_code faults now remote random w (some user_code) =
    enter_record faults now remote random w
      (attempt faults.find_code (find_by_user_code now user_code w.codes))

-- One reading of the clock, `now`, serves the whole request; `random` is the new session's id.
unfoldable pub oauth_authorize :
    Config → Faults → ℕ → Option String → World → EntryCall → World × Reply
unfolding open_session enter_record enter_code country_warning
oauth_authorize cfg faults now random w call = elim call.user_code [
  | [] ↦
      if call.is_get then (w, page 200 device_auth) else (w, http_error 400 "user_code is required")
  | c ∷ cs ↦
      let (result, counters) =
        check_rate_limit faults.rate_limiter now "device_entry"
          (append call.remote.ip ":device_entry") 1 (cfg.device_entry_rate_limit * second)
          w.counters in
      let w' : World = record w { counters = counters } in
      elim (blocked result) [
        | some retry ↦ (w', page 200 rate_limited_entry)
        | none ↦ enter_code faults now call.remote random w' (normalize_user_code (c ∷ cs))
      ]
]

-- `OAuthConfirmHandler` --

pub record ConfirmCall : Type 0 where
  pub is_post : Bool
  pub form_parses : Bool
  pub user_code : List ℕ
  pub session_id : String

abbrev is_empty : List ℕ → Bool
is_empty [] = true
is_empty (c ∷ cs) = false

confirm_record : World → ConfirmCall → DeviceSession → Option (Option DeviceCode) → World × Reply
confirm_record w call session none = (w, http_error 400 "Invalid or expired user code")
confirm_record w call session (some none) = (w, http_error 400 "Invalid or expired user code")
confirm_record w call session (some (some r)) =
    if not (str_eq session.device_code r.device_code)
    then (w, http_error 400 "Session mismatch")
    else if not (status_eq r.status pending)
    then (w, http_error 400 "This code has already been used")
    else (w, redirect_to_osm call.session_id)

confirm_code : Faults → ℕ → World → ConfirmCall → DeviceSession → Option (List ℕ) → World × Reply
confirm_code faults now w call session none = (w, http_error 400 "Invalid user code format")
confirm_code faults now w call session (some user_code) =
    confirm_record w call session
      (attempt faults.find_code (find_by_user_code now user_code w.codes))

confirm_session : Faults → ℕ → World → ConfirmCall → Option (Option DeviceSession) → World × Reply
confirm_session faults now w call none = (w, http_error 400 "Invalid or expired session")
confirm_session faults now w call (some none) = (w, http_error 400 "Invalid or expired session")
confirm_session faults now w call (some (some session)) =
    confirm_code faults now w call session (normalize_user_code call.user_code)

unfoldable pub oauth_confirm : Faults → ℕ → World → ConfirmCall → World × Reply
unfolding confirm_session confirm_code confirm_record
oauth_confirm faults now w call =
    if not call.is_post
    then (w, http_error 405 "Method not allowed")
    else if not call.form_parses
    then (w, http_error 400 "Invalid form data")
    else if is_empty call.user_code || str_eq call.session_id ""
    then (w, http_error 400 "Missing required fields")
    else confirm_session faults now w call
        (attempt faults.find_session (find_device_session now call.session_id w.sessions))

-- `OAuthCancelHandler` --

cancel_record : Faults → World → Option (Option DeviceCode) → World × Reply
cancel_record faults w none = (w, http_error 400 "Invalid or expired user code")
cancel_record faults w (some none) = (w, http_error 400 "Invalid or expired user code")
cancel_record faults w (some (some r)) =
    if faults.write_code
    then (w, http_error 500 "Failed to cancel authorization")
    else (record w { codes = update_status r.device_code denied w.codes }, page 200 auth_cancelled)

cancel_code : Faults → ℕ → World → Option (List ℕ) → World × Reply
cancel_code faults now w none = (w, http_error 400 "Invalid user code format")
cancel_code faults now w (some user_code) =
    cancel_record faults w (attempt faults.find_code (find_by_user_code now user_code w.codes))

unfoldable pub oauth_cancel : Faults → ℕ → World → List ℕ → World × Reply
unfolding cancel_code cancel_record
oauth_cancel faults now w user_code =
    if is_empty user_code
    then (w, http_error 400 "user_code is required")
    else cancel_code faults now w (normalize_user_code user_code)

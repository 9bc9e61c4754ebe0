-- ===== src/Auth/Device.antt =====
-- internal/deviceauth/service.go and internal/middleware/auth.go: the requests of devices.
pub mod Laws
pub mod Revoked
use Prim.Native.String.{len, slice}
use text.Mathlib.Text.{starts_with}
use osm_device_adapter.Prelude.{
  ℕ, ◌+◌, ◌*◌, String, Bool, true, false, not, ◌||◌, ◌&&◌, Option, none, some, ltb, str_eq,
  if◌then◌else◌,
}
use osm_device_adapter.Prelude.Int.{ℤ}
use osm_device_adapter.Db.Models.{DeviceCode, minute}
use osm_device_adapter.Db.DeviceCodes.{
  Table, find_by_device_access_token, update_tokens_only, update_last_used, revoke,
}
use osm_device_adapter.Auth.Refresh.{
  OauthAnswer, AuthError, invalid_token, TokenResult, refreshed, refused, refresh_token,
}

-- The bytes of the text are compared, as the source does.
unfoldable pub extract_bearer_token : String → String
extract_bearer_token header =
    if ltb (len header) 7
    then ""
    else if not (starts_with header "Bearer ")
    then ""
    else slice header 7 (len header)

-- Which calls of the database fail.
pub record DeviceFaults : Type 0 where
  pub find : Bool
  pub update_tokens : Bool
  pub revoke : Bool
  pub last_used : Bool

abbrev pub no_device_faults : DeviceFaults
no_device_faults = record { find = false; update_tokens = false; revoke = false; last_used = false }

-- `AuthContext`. The record is the one that was read.
pub record AuthContext : Type 0 where
  pub device : DeviceCode
  pub osm_access_token : String

-- `panics` is the run-time panic of a slice out of range.
pub data AuthResult : Type 0 where
  authenticated : AuthContext → AuthResult
  rejected : AuthError → AuthResult
  panics : AuthResult

abbrev pub text_or_empty : Option String → String
text_or_empty none = ""
text_or_empty (some t) = t

-- A write that a fault keeps from the table.
abbrev pub unless : Bool → (Table → Table) → Table → Table × Bool
unless true write table = (table, true)
unless false write table = (write table, false)

abbrev pub refresh_device_token :
    DeviceFaults → (String → OauthAnswer) → ℕ → DeviceCode → Table → Table × TokenResult
refresh_device_token faults osm now device table =
    refresh_token
      (λ access refresh expiry.
        unless faults.update_tokens (update_tokens_only device.device_code access refresh expiry))
      (unless faults.revoke (revoke device.device_code)) osm now
      (text_or_empty device.osm_refresh_token) table

-- The update of `last_used_at`. The log line of its error cuts `DeviceCode[:8]`.
abbrev used : DeviceFaults → ℕ → DeviceCode → String → Table → Table × AuthResult
used faults now device access table =
    if not faults.last_used
    then (
      update_last_used now device.device_code table,
      authenticated (record { device = device; osm_access_token = access }),
    )
    else if ltb (len device.device_code) 8
    then (table, panics)
    else (table, authenticated (record { device = device; osm_access_token = access }))

abbrev after_refresh : DeviceFaults → ℕ → DeviceCode → Table × TokenResult → Table × AuthResult
after_refresh faults now device (table, refreshed access) = used faults now device access table
after_refresh faults now device (table, refused e) = (table, rejected e)

-- `time.Now().After(expiry.Add(-5*time.Minute))`
abbrev pub near_expiry : ℕ → ℕ → Bool
near_expiry now expiry = ltb expiry (now + 5 * minute)

abbrev pub needs_refresh : ℕ → Option ℕ → Bool
needs_refresh now none = false
needs_refresh now (some expiry) = near_expiry now expiry

-- `now` is the clock at the test, `later` after OSM's answer. `refreshDeviceToken` cuts
-- `DeviceCode[:8]` for its log lines.
abbrev with_device :
    DeviceFaults → (String → OauthAnswer) → ℕ → ℕ → DeviceCode → Table → Table × AuthResult
with_device faults osm now later device table =
    if not (needs_refresh now device.osm_token_expiry)
    then used faults later device (text_or_empty device.osm_access_token) table
    else if ltb (len device.device_code) 8
    then (table, panics)
    else after_refresh faults later device (refresh_device_token faults osm later device table)

abbrev with_lookup :
    DeviceFaults → (String → OauthAnswer) → ℕ → ℕ → Table → Option DeviceCode → Table × AuthResult
with_lookup faults osm now later table none = (table, rejected invalid_token)
with_lookup faults osm now later table (some device) = with_device faults osm now later device table

unfoldable pub authenticate_token :
    DeviceFaults → (String → OauthAnswer) → ℕ → ℕ → String → Table → Table × AuthResult
authenticate_token faults osm now later token table =
    if str_eq token ""
    then (table, rejected invalid_token)
    else if faults.find
    then (table, rejected invalid_token)
    else with_lookup faults osm now later table (find_by_device_access_token token table)

unfoldable pub authenticate :
    DeviceFaults → (String → OauthAnswer) → ℕ → ℕ → String → Table → Table × AuthResult
unfolding extract_bearer_token authenticate_token
authenticate faults osm now later header table =
    authenticate_token faults osm now later (extract_bearer_token header) table

-- What the middleware does with the request: it goes on, or the answer with its status and the
-- `Retry-After`. `aborts` is a panic, which ends the connection.
pub data Passage : Type 0 where
  goes_on : AuthContext → Passage
  answers : (status : ℕ) → (message : String) → (retry_after : Option ℕ) → Passage
  aborts : Passage

abbrev auth_error : AuthError → Passage
auth_error AuthError.invalid_token = answers 401 "Unauthorized" none
auth_error AuthError.token_revoked =
    answers 401 "Access revoked - please re-authorize this device" none
auth_error AuthError.token_refresh_failed = answers 503 "Server Error" (some 60)

unfoldable pub device_auth : AuthResult → Passage
device_auth (authenticated c) = goes_on c
device_auth (rejected e) = auth_error e
device_auth panics = aborts

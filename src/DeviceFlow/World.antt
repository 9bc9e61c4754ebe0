-- ===== src/DeviceFlow/World.antt =====
-- What the handlers of the device flow share: the stores that they read and write, the calls that
-- may fail, their configuration and their replies.
use osm_device_adapter.Prelude.{
  ℕ, String, Bool, true, false, Option, none, some, List, if◌then◌else◌,
}
use osm_device_adapter.Prelude.Int.{ℤ}
use osm_device_adapter.Db.Models.{AllowedClientId}
use osm_device_adapter.Db.DeviceCodes.{Table}
use osm_device_adapter.Db.Sessions.{DeviceSessions}
use osm_device_adapter.Redis.RateLimit.{Counters, RateLimitResult}

pub record World : Type 0 where
  pub codes : Table
  pub sessions : DeviceSessions
  pub clients : List AllowedClientId
  pub counters : Counters

-- Which calls of the database or of Redis end in an error during one request.
pub record Faults : Type 0 where
  pub rate_limiter : Bool
  pub poll_limiter : Bool
  pub find_client : Bool
  pub find_code : Bool
  pub write_code : Bool
  pub find_session : Bool
  pub write_session : Bool

abbrev pub no_faults : Faults
no_faults = record {
  rate_limiter = false;
  poll_limiter = false;
  find_client = false;
  find_code = false;
  write_code = false;
  find_session = false;
  write_session = false;
}

-- `internal/config`, as far as these handlers read it. Durations are in seconds.
pub record Config : Type 0 where
  pub exposed_domain : List ℕ
  pub device_prefix : List ℕ
  pub device_code_expiry : ℕ
  pub device_poll_interval : ℕ
  pub device_authorize_rate_limit : ℕ
  pub device_token_rate_limit : ℕ
  pub device_entry_rate_limit : ℕ

-- The proxy's metadata of the request.
pub record RemoteMetadata : Type 0 where
  pub ip : String
  pub country : String

pub record DeviceAuthorizationResponse : Type 0 where
  pub device_code : String
  pub user_code : List ℕ
  pub verification_uri : List ℕ
  pub verification_uri_complete : List ℕ
  pub verification_uri_short : List ℕ
  pub expires_in : ℕ
  pub interval : ℕ

pub data Page : Type 0 where
  device_auth rate_limited_entry invalid_format invalid_code already_used : Page
  auth_denied auth_cancelled auth_success : Page
  confirm : (session_id : String) → (country_warning : Bool) → Page
  section_select : (session_id : String) → Page

-- What a handler answers. `panicked` is a run-time panic, which net/http turns into an aborted
-- connection.
pub data Reply : Type 0 where
  http_error : ℕ → String → Reply
  too_many_requests : (retry_after : ℤ) → (limit : ℕ) → Reply
  token_error : String → String → Reply
  token_issued : (access_token : String) → (expires_in : ℤ) → Reply
  device_authorization : DeviceAuthorizationResponse → Reply
  page : ℕ → Page → Reply
  redirect_to_osm : (state : String) → Reply
  panicked : Reply

-- `some retry_after` where the limiter answered that the request is not allowed; its own failure
-- lets the request pass.
abbrev pub blocked : Option RateLimitResult → Option ℤ
blocked none = none
blocked (some r) = if r.allowed then none else some r.retry_after

-- A read that may end in a database error, `none`.
abbrev pub attempt {ℓ} : {A : Type ℓ} → Bool → A → Option A
attempt true a = none
attempt false a = some a

-- A write that may end in a database error, or be refused by a constraint.
abbrev pub attempt_write {ℓ} : {A : Type ℓ} → Bool → Option A → Option A
attempt_write true a = none
attempt_write false a = a

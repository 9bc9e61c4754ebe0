-- ===== src/DeviceFlow/Token.antt =====
-- `DeviceTokenHandler` of internal/handlers/device_oauth.go.
pub mod Laws
use Prim.Native.String.{◌++◌ as append, len}
use osm_device_adapter.Prelude.{
  ℕ, zero, suc, ◌+◌, ◌-◌, ◌*◌, ◌/◌, String, Bool, true, false, not, Option, none, some, ltb, leb,
  str_eq, if◌then◌else◌,
}
use osm_device_adapter.Prelude.Int.{ℤ, pos, negsuc}
use osm_device_adapter.Db.Models.{
  Status, pending, awaiting_section, authorized, denied, revoked, DeviceCode, second, minute,
}
use osm_device_adapter.Db.DeviceCodes.{find_by_code}
use osm_device_adapter.Redis.RateLimit.{check_rate_limit}
use osm_device_adapter.DeviceFlow.World.{
  World, Faults, Config, Reply, http_error, too_many_requests, token_error, token_issued, panicked,
  blocked, attempt,
}

pub record DeviceTokenRequest : Type 0 where
  pub grant_type : String
  pub device_code : String
  pub client_id : String

-- The HTTP request; `body` is `none` where it does not decode.
pub record TokenCall : Type 0 where
  pub is_post : Bool
  pub client_ip : String
  pub body : Option DeviceTokenRequest

abbrev pub device_code_grant : String
device_code_grant = "urn:ietf:params:oauth:grant-type:device_code"

-- The sign of a number of seconds whose absolute value is given.
abbrev negative : ℕ → ℤ
negative zero = pos 0
negative (suc n) = negsuc n

-- `int(time.Until(expiry).Seconds())`, truncated towards 0.
unfoldable pub seconds_until : ℕ → ℕ → ℤ
seconds_until now expiry =
    if leb now expiry then pos ((expiry - now) / second) else negative ((now - expiry) / second)

abbrev pub expires_in : ℕ → Option ℕ → ℤ
expires_in now none = pos 0
expires_in now (some expiry) = seconds_until now expiry

unfoldable pub issue : ℕ → DeviceCode → Option String → Reply
unfolding seconds_until
issue now r none = http_error 500 "Token not available"
issue now r (some token) = token_issued token (expires_in now r.osm_token_expiry)

-- The switch on the status. No other text than the five of `Status` is ever written.
unfoldable pub token_status : ℕ → DeviceCode → Status → Reply
unfolding issue
token_status now r pending = token_error "authorization_pending" "User has not yet authorized"
token_status now r awaiting_section =
    token_error "authorization_pending" "User has not yet authorized"
token_status now r denied = token_error "access_denied" "User denied authorization"
token_status now r authorized = issue now r r.device_access_token
token_status now r revoked = http_error 500 "Unknown status"

-- What follows the lookup; `none` is the database's error. `now` is the clock at the expiry test,
-- `later` at the computation of `expires_in`.
unfoldable pub token_record : ℕ → ℕ → Option (Option DeviceCode) → Reply
unfolding token_status
token_record now later none = http_error 500 "Database error"
token_record now later (some none) = token_error "invalid_grant" "Invalid device code"
token_record now later (some (some r)) =
    if ltb r.expires_at now
    then token_error "expired_token" "Device code has expired"
    else token_status later r r.status

-- The answer to a client that polls too fast, its description less the number of seconds to wait.
-- The log line before it cuts `req.DeviceCode[:8]`.
unfoldable pub slow_down : String → Reply
slow_down code =
    if ltb (len code) 8
    then panicked
    else token_error "slow_down" "Polling too fast. Please wait between requests."

unfoldable pub token_poll : Config → Faults → ℕ → ℕ → World → DeviceTokenRequest → World × Reply
unfolding token_record slow_down
token_poll cfg faults now later w req =
    let (result, counters) =
      check_rate_limit faults.poll_limiter now "device_token_poll"
        (append "device_token_poll:" req.device_code) 1 (cfg.device_poll_interval * second)
        w.counters in
    let w' : World = record w { counters = counters } in
    elim (blocked result) [
      | some _ ↦ (w', slow_down req.device_code)
      | none ↦ (
        w',
        token_record now later (attempt faults.find_code (find_by_code req.device_code w.codes)),
      )
    ]

unfoldable pub token_body :
    Config → Faults → ℕ → ℕ → World → Option DeviceTokenRequest → World × Reply
unfolding token_poll
token_body cfg faults now later w none = (w, token_error "invalid_request" "Invalid request body")
token_body cfg faults now later w (some req) =
    if not (str_eq req.grant_type device_code_grant)
    then (w, token_error "unsupported_grant_type" "")
    else if str_eq req.device_code ""
    then (w, token_error "invalid_request" "device_code is required")
    else token_poll cfg faults now later w req

unfoldable pub device_token : Config → Faults → ℕ → ℕ → World → TokenCall → World × Reply
unfolding token_body
device_token cfg faults now later w call =
    if not call.is_post
    then (w, http_error 405 "Method not allowed")
    else let (result, counters) =
        check_rate_limit faults.rate_limiter now "device_token"
          (append call.client_ip ":/device/token") cfg.device_token_rate_limit minute w.counters in
      let w' : World = record w { counters = counters } in
      elim (blocked result) [
        | some retry ↦ (w', too_many_requests retry cfg.device_token_rate_limit)
        | none ↦ token_body cfg faults now later w' call.body
      ]

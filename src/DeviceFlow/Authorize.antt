-- ===== src/DeviceFlow/Authorize.antt =====
-- `DeviceAuthorizeHandler` of internal/handlers/device_oauth.go.
use Prim.Native.String.{◌++◌ as append}
use osm_device_adapter.Prelude.{
  ℕ, ◌+◌, ◌*◌, String, Bool, not, Option, none, some, List, [], ◌∷◌, ◌++◌, str_eq, if◌then◌else◌,
}
use osm_device_adapter.Db.Models.{pending, DeviceCode, second, minute}
use osm_device_adapter.Db.DeviceCodes.{create}
use osm_device_adapter.Db.Sessions.{is_allowed}
use osm_device_adapter.Redis.RateLimit.{check_rate_limit}
use osm_device_adapter.DeviceFlow.UserCode.{
  Draws, generate_user_code, strip_hyphens, user_code_query,
}
use osm_device_adapter.DeviceFlow.World.{
  World, Faults, Config, RemoteMetadata, DeviceAuthorizationResponse, Reply, http_error,
  too_many_requests, device_authorization, blocked, attempt, attempt_write,
}

-- The HTTP request; `body` is the client id, or `none` where the body does not decode.
pub record AuthorizeCall : Type 0 where
  pub is_post : Bool
  pub remote : RemoteMetadata
  pub body : Option String

-- What the random source gives: the text of `generateRandomString(32)`, and the draws of
-- `generateUserCode`.
pub record Randomness : Type 0 where
  pub device_code : Option String
  pub draws : Draws

-- The two readings of the clock where the record is made.
pub record Instants : Type 0 where
  pub expiry_base : ℕ
  pub created : ℕ

unfoldable pub new_record :
    Config → Instants → RemoteMetadata → String → ℕ → String → List ℕ → DeviceCode
new_record cfg at remote client_id allowed_id device_code user_code = record {
  device_code = device_code;
  user_code = user_code;
  client_id = client_id;
  created_by_id = some allowed_id;
  expires_at = at.expiry_base + cfg.device_code_expiry * second;
  created_at = at.created;
  status = pending;
  device_access_token = none;
  osm_access_token = none;
  osm_refresh_token = none;
  osm_token_expiry = none;
  section_id = none;
  osm_user_id = none;
  term_id = none;
  term_checked_at = none;
  term_end_date = none;
  device_request_ip = some remote.ip;
  device_request_country = some remote.country;
  device_request_time = some at.created;
  last_used_at = none;
}

-- The path "/d/" of the short links.
abbrev short_link : List ℕ
short_link = b'/' ∷ b'd' ∷ b'/' ∷ []

unfoldable pub authorization_response : Config → String → List ℕ → DeviceAuthorizationResponse
authorization_response cfg device_code user_code = record {
  device_code = device_code;
  user_code = user_code;
  verification_uri = cfg.exposed_domain ++ cfg.device_prefix;
  verification_uri_complete =
      cfg.exposed_domain ++ cfg.device_prefix ++ user_code_query ++ user_code;
  verification_uri_short = cfg.exposed_domain ++ short_link ++ strip_hyphens user_code;
  expires_in = cfg.device_code_expiry;
  interval = cfg.device_poll_interval;
}

store_code :
    Config
    → Faults
    → Instants
    → RemoteMetadata
    → String
    → ℕ
    → World
    → String
    → List ℕ
    → World × Reply
store_code cfg faults at remote client_id allowed_id w device_code user_code =
    let row = new_record cfg at remote client_id allowed_id device_code user_code in
    elim (attempt_write faults.write_code (create row w.codes)) [
      | none ↦ (w, http_error 500 "Failed to store device code")
      | some codes ↦ (
        record w { codes = codes },
        device_authorization (authorization_response cfg device_code user_code),
      )
    ]

with_codes :
    Config
    → Faults
    → Instants
    → RemoteMetadata
    → String
    → ℕ
    → World
    → Option String
    → Option (List ℕ)
    → World × Reply
with_codes cfg faults at remote client_id allowed_id w none user_code =
    (w, http_error 500 "Failed to generate device code")
with_codes cfg faults at remote client_id allowed_id w (some device_code) none =
    (w, http_error 500 "Failed to generate user code")
with_codes cfg faults at remote client_id allowed_id w (some device_code) (some user_code) =
    store_code cfg faults at remote client_id allowed_id w device_code user_code

with_client :
    Config
    → Faults
    → Instants
    → RemoteMetadata
    → Randomness
    → String
    → World
    → Option (Option ℕ)
    → World × Reply
with_client cfg faults at remote random client_id w none = (w, http_error 500 "Database error")
with_client cfg faults at remote random client_id w (some none) =
    (w, http_error 401 "invalid client_id")
with_client cfg faults at remote random client_id w (some (some allowed_id)) =
    with_codes cfg faults at remote client_id allowed_id w random.device_code
      (generate_user_code random.draws)

with_body :
    Config → Faults → Instants → RemoteMetadata → Randomness → World → Option String → World × Reply
with_body cfg faults at remote random w none = (w, http_error 400 "Invalid request body")
with_body cfg faults at remote random w (some client_id) =
    if str_eq client_id ""
    then (w, http_error 400 "client_id is required")
    else with_client cfg faults at remote random client_id w
        (attempt faults.find_client (is_allowed client_id w.clients))

unfoldable pub device_authorize :
    Config → Faults → ℕ → Instants → Randomness → World → AuthorizeCall → World × Reply
unfolding store_code with_codes with_client with_body
device_authorize cfg faults now at random w call =
    if not call.is_post
    then (w, http_error 405 "Method not allowed")
    else let (result, counters) =
        check_rate_limit faults.rate_limiter now "device_authorize"
          (append call.remote.ip ":/device/authorize") cfg.device_authorize_rate_limit minute
          w.counters in
      let w' : World = record w { counters = counters } in
      elim (blocked result) [
        | some retry ↦ (w', too_many_requests retry cfg.device_authorize_rate_limit)
        | none ↦ with_body cfg faults at call.remote random w' call.body
      ]

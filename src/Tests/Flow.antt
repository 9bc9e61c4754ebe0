-- ===== src/Tests/Flow.antt =====
-- The device flow, from the request for a code to the device's token.
use osm_device_adapter.Prelude.{
  ◌*◌, ◌≡◌, refl, String, true, Option, none, some, List, [], ◌∷◌, arith,
}
use osm_device_adapter.Prelude.Int.{ℤ, pos}
use osm_device_adapter.Prelude.Dict.{lookup, insert}
use osm_device_adapter.Db.Models.{
  Status, authorized, awaiting_section, AllowedClientId, DeviceCode, DeviceSession, second,
}
use osm_device_adapter.Db.DeviceCodes.{find_by_code, update_with_section}
use osm_device_adapter.Db.Sessions.{find_device_session}
use osm_device_adapter.Redis.RateLimit.{check_rate_limit}
use osm_device_adapter.DeviceFlow.World.{World, no_faults, Config, RemoteMetadata, token_issued}
use osm_device_adapter.DeviceFlow.Token.{
  DeviceTokenRequest, TokenCall, device_code_grant, device_token, expires_in,
}
use osm_device_adapter.DeviceFlow.Token.Laws.{Grants, device_token-issued, device_token-Grants}
use osm_device_adapter.DeviceFlow.Web.Authorization.{SelectCall, oauth_select_section}
use osm_device_adapter.DeviceFlow.Web.Authorization.Laws.{oauth_select_section-then_token}
use osm_device_adapter.DeviceFlow.Events.{selects, Event, authorizes, polls, enters}

abbrev cfg : Config
cfg = record {
  exposed_domain = [];
  device_prefix = b'/' ∷ b'd' ∷ b'e' ∷ b'v' ∷ b'i' ∷ b'c' ∷ b'e' ∷ [];
  device_code_expiry = 600;
  device_poll_interval = 5;
  device_authorize_rate_limit = 6;
  device_token_rate_limit = 13;
  device_entry_rate_limit = 5;
}

abbrev row_with : Status → Option String → DeviceCode
row_with status token = record {
  device_code = "device-code-1";
  user_code = b'A' ∷ b'B' ∷ b'C' ∷ b'D' ∷ b'-' ∷ b'E' ∷ b'F' ∷ b'G' ∷ b'H' ∷ [];
  client_id = "client";
  created_by_id = some 1;
  expires_at = 600 * second;
  created_at = 0;
  status = status;
  device_access_token = token;
  osm_access_token = some "osm-token";
  osm_refresh_token = some "osm-refresh";
  osm_token_expiry = some (400 * second);
  section_id = none;
  osm_user_id = some (pos 7);
  term_id = none;
  term_checked_at = none;
  term_end_date = none;
  device_request_ip = some "10.0.0.1";
  device_request_country = some "GB";
  device_request_time = some 0;
  last_used_at = none;
}

abbrev session : DeviceSession
session = record {
  session_id = "session-1";
  device_code = "device-code-1";
  created_at = 0;
  expires_at = 900 * second;
}

abbrev world_with : DeviceCode → World
world_with row = record { codes = row ∷ []; sessions = session ∷ []; clients = []; counters = [] }

abbrev token_request : String → DeviceTokenRequest
token_request code = record {
  grant_type = device_code_grant;
  device_code = code;
  client_id = "client";
}

abbrev call : String → TokenCall
call code = record { is_post = true; client_ip = "10.0.0.1"; body = some (token_request code) }

abbrev granted : DeviceCode
granted = row_with authorized (some "device-token")

abbrev select : SelectCall
select = record {
  is_post = true;
  session_id = "session-1";
  section_id = "42";
  section_number = some (pos 42);
}

abbrev waiting : World
waiting = world_with (row_with awaiting_section none)

device_token-issued_example :
    (req : DeviceTokenRequest) × (some (token_request "device-code-1") ≡ some req)
    × (req.grant_type ≡ device_code_grant)
    × (r : DeviceCode) × (find_by_code req.device_code (granted ∷ []) ≡ some r)
    × Grants second "device-token" r
unfolding device_token check_rate_limit find_by_code lookup insert
device_token-issued_example =
    device_token-issued cfg no_faults second second (world_with granted) (call "device-code-1")
      "device-token" (pos 399) refl

device_token-Grants_example :
    (device_token cfg no_faults second second (world_with granted) (call "device-code-1")).1
    ≡ token_issued "device-token" (expires_in second (some (400 * second)))
unfolding check_rate_limit find_by_code lookup insert
device_token-Grants_example =
    device_token-Grants cfg no_faults second second (world_with granted) (call "device-code-1")
      (token_request "device-code-1") granted "device-token" refl refl refl refl refl refl refl refl
      (record { is_authorized = refl; holds_token = refl; is_unexpired = omega arith })

-- The world after a poll.
abbrev polled : String → World
polled code = (device_token cfg no_faults second second (world_with granted) (call code)).0

oauth_select_section-then_token_example :
    (token : String) × (e : ℤ) × (some "new-token" ≡ some token)
    × ((device_token cfg no_faults
          (2 * second)
          (2 * second)
          (oauth_select_section no_faults second (some "new-token") waiting select).0
          (call "device-code-1")).1
        ≡ token_issued token e)
unfolding oauth_select_section find_by_code find_device_session update_with_section check_rate_limit
    lookup insert
oauth_select_section-then_token_example =
    oauth_select_section-then_token cfg no_faults no_faults second (2 * second) (2 * second)
      (some "new-token") waiting select (call "device-code-1") (token_request "device-code-1")
      (row_with awaiting_section none) session refl refl refl (omega arith) refl refl refl refl refl
      refl refl refl

abbrev client : AllowedClientId
client = record {
  id = 1;
  client_id = "client";
  comment = "";
  contact_email = "";
  enabled = true;
  created_at = 0;
  updated_at = 0;
}

abbrev new_world : World
new_world = record { codes = []; sessions = []; clients = client ∷ []; counters = [] }

abbrev remote : RemoteMetadata
remote = record { ip = "10.0.0.1"; country = "GB" }

abbrev history : List Event
history =
    authorizes no_faults second (record { expiry_base = second; created = second })
      (record { device_code = some "device-code-1"; draws = λ i. some 3 })
      (record { is_post = true; remote = remote; body = some "client" })
    ∷ enters no_faults (2 * second) (some "session-1") (record {
      is_get = true;
      remote = remote;
      user_code = b'D' ∷ b'D' ∷ b'D' ∷ b'D' ∷ b'-' ∷ b'D' ∷ b'D' ∷ b'D' ∷ b'D' ∷ [];
    })
    ∷ polls no_faults (3 * second) (3 * second) (call "device-code-1")
    ∷ selects no_faults (4 * second) (some "new-token") select
    ∷ []

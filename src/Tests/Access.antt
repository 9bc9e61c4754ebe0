-- ===== src/Tests/Access.antt =====
-- Devices and sessions: authentication, login and the refresh of tokens.
use osm_device_adapter.Prelude.{
  ◌*◌, ◌≡◌, refl, ℕ, String, false, true, ◌&&◌, Option, none, some, List, [], ◌∷◌, arith,
}
use osm_device_adapter.Prelude.Int.{pos, ◌+ℤ◌, wrap_64}
use osm_device_adapter.Prelude.Dict.{insert, erase, lookup}
use osm_device_adapter.Db.Models.{
  authorized, DeviceCode, WebSession, second, minute, hour, status_eq,
}
use osm_device_adapter.Db.DeviceCodes.{
  find_by_device_access_token, update_last_used, revoke, is_text,
}
use osm_device_adapter.Db.WebSessions.{find_by_id, create_web_session}
use osm_device_adapter.Osm.Types.{
  token_expiry, OsmTokenResponse, OsmProfileData, OsmProfileResponse,
}
use osm_device_adapter.Auth.Refresh.{OauthAnswer, new_tokens, access_revoked, refresh_token}
use osm_device_adapter.Auth.Device.{
  extract_bearer_token, no_device_faults, authenticated, authenticate, authenticate_token, answers,
  device_auth,
}
use osm_device_adapter.Auth.Device.Laws.{
  refreshed_device, authenticate-found, authenticate-refreshed_again,
}
use osm_device_adapter.Auth.Device.Revoked.{
  AuthRequest, asked, asked_all, IsOther, authenticate-revoked,
}
use osm_device_adapter.Auth.Web.{WebFaults, enters, halts, user_of, admin_middleware}
use osm_device_adapter.Auth.Web.Laws.{IsOf, admin_middleware-IsOf, admin_middleware-revoked}
use osm_device_adapter.Admin.Login.{
  LoginWorld, CallbackWorld, new_session, exchange_admin_code, admin_callback, admin_login,
  verify_and_delete_admin_oauth_state, store_admin_oauth_state,
}
use osm_device_adapter.Admin.Login.Laws.{logs_in, admin_callback-once, admin_login-enters}

abbrev device : String → String → Option ℕ → DeviceCode
device code token expiry = record {
  device_code = code;
  user_code = b'A' ∷ [];
  client_id = "client";
  created_by_id = none;
  expires_at = second;
  created_at = 0;
  status = authorized;
  device_access_token = some token;
  osm_access_token = some "osm-token";
  osm_refresh_token = some "refresh";
  osm_token_expiry = expiry;
  section_id = none;
  osm_user_id = none;
  term_id = none;
  term_checked_at = none;
  term_end_date = none;
  device_request_ip = none;
  device_request_country = none;
  device_request_time = none;
  last_used_at = some hour;
}

abbrev old_device : DeviceCode
old_device = device "device-one" "token-1" (some second)

abbrev other_device : DeviceCode
other_device = device "device-two" "token-2" none

abbrev devices : List DeviceCode
devices = old_device ∷ other_device ∷ []

abbrev revoking : String → OauthAnswer
revoking token = access_revoked

abbrev tokens : OsmTokenResponse
tokens = record {
  access_token = "new-token";
  token_type = "Bearer";
  expires_in = pos 3600;
  refresh_token = "new-refresh";
}

abbrev refreshing : String → OauthAnswer
refreshing token = new_tokens tokens

authenticate-found_example :
    (find_by_device_access_token "token-2" devices ≡ some other_device)
    × (is_text "token-2" (some "token-2") && status_eq authorized authorized ≡ true)
unfolding authenticate authenticate_token extract_bearer_token find_by_device_access_token
    update_last_used
authenticate-found_example =
    authenticate-found no_device_faults revoking second second "Bearer token-2" devices
      (update_last_used second "device-two" devices)
      (record { device = other_device; osm_access_token = "osm-token" }) refl

abbrev request_of : (String → OauthAnswer) → ℕ → String → AuthRequest
request_of osm at header = record {
  faults = no_device_faults;
  osm = osm;
  now = at;
  later = at;
  header = header;
}

authenticate-revoked_example :
    (device_auth (asked (request_of revoking second "Bearer token-1") devices).1
      ≡ answers 401 "Access revoked - please re-authorize this device" none)
    × IsOther "device-one"
        (asked (request_of refreshing hour "Bearer token-1") (
          asked_all
            (request_of refreshing minute "Bearer token-2" ∷ [])
            (asked (request_of revoking second "Bearer token-1") devices).0)).1
unfolding authenticate authenticate_token extract_bearer_token find_by_device_access_token
    update_last_used refresh_token revoke
authenticate-revoked_example =
    authenticate-revoked (request_of revoking second "Bearer token-1")
      (request_of refreshing hour "Bearer token-1")
      (request_of refreshing minute "Bearer token-2" ∷ []) devices old_device
      (refl, (refl, (refl, (refl, refl)))) refl refl refl

authenticate-refreshed_again_example :
    ((authenticate no_device_faults refreshing second second "Bearer token-1" devices).1
      ≡ authenticated (record { device = old_device; osm_access_token = "new-token" }))
    × ((authenticate no_device_faults revoking minute minute "Bearer token-1"
          (authenticate no_device_faults refreshing second second "Bearer token-1" devices).0).1
        ≡ authenticated (record {
          device = refreshed_device second tokens old_device;
          osm_access_token = "new-token";
        }))
unfolding extract_bearer_token find_by_device_access_token token_expiry ◌+ℤ◌ wrap_64
authenticate-refreshed_again_example =
    authenticate-refreshed_again refreshing revoking second second minute minute "Bearer token-1"
      devices old_device tokens (refl, (refl, (refl, (refl, refl)))) refl (omega arith)

abbrev session : WebSession
session = record {
  id = "5f0c-session";
  osm_user_id = pos 7;
  osm_access_token = "osm-token";
  osm_refresh_token = "refresh";
  osm_token_expiry = hour;
  csrf_token = "csrf";
  selected_section_id = none;
  created_at = 0;
  last_activity = 0;
  expires_at = 2 * hour;
}

abbrev no_web_faults : WebFaults
no_web_faults = record { find = false; update_tokens = false; delete = false }

admin_middleware-IsOf_example :
    IsOf second
      (some "5f0c-session")
      (session ∷ [])
      (admin_middleware no_web_faults revoking second second (some "5f0c-session") (session ∷ [])).1
admin_middleware-IsOf_example =
    admin_middleware-IsOf no_web_faults revoking second second (some "5f0c-session") (session ∷ [])

admin_middleware-revoked_example :
    ((admin_middleware no_web_faults revoking hour hour (some "5f0c-session") (session ∷ [])).1
      ≡ enters session (user_of session))
    × ((admin_middleware no_web_faults refreshing hour hour
          (some "5f0c-session")
          (admin_middleware no_web_faults revoking hour hour
            (some "5f0c-session")
            (session ∷ [])).0).1
        ≡ halts 401 "Unauthorized" true)
unfolding find_by_id
admin_middleware-revoked_example =
    admin_middleware-revoked no_web_faults no_web_faults revoking refreshing hour hour hour hour
      (session ∷ []) session (refl, (refl, (refl, (refl, (refl, refl))))) refl refl refl

abbrev profile : OsmProfileData
profile = record {
  user_id = pos 7;
  full_name = "Leader";
  email = "";
  sections = [];
  has_parent_access = false;
  has_section_access = true;
}

abbrev profile_answer : OsmProfileResponse
profile_answer = record { status = true; error = none; payload = some profile }

abbrev good_callback : CallbackWorld
good_callback = record {
  exchange = λ code. some (200, some tokens);
  profile = λ token. some profile_answer;
  uuid = some "uuid-1";
  csrf_token = some "csrf-1";
  verified_at = minute;
  now = minute;
  get_fails = false;
  del_fails = false;
  create_fails = false;
}

abbrev no_logins : LoginWorld
no_logins = record { states = []; sessions = [] }

admin_callback-once_example :
    logs_in
      (admin_callback good_callback
        (record { code = "c2"; state = "st"; error = "" })
        (admin_callback good_callback
          (record { code = "c1"; state = "st"; error = "" })
          (admin_login false second (some "st") no_logins).0).0).1
    ≡ false
unfolding admin_callback admin_login store_admin_oauth_state verify_and_delete_admin_oauth_state
    exchange_admin_code create_web_session insert lookup erase
admin_callback-once_example =
    admin_callback-once good_callback good_callback
      (record { code = "c1"; state = "st"; error = "" })
      (record { code = "c2"; state = "st"; error = "" })
      (admin_login false second (some "st") no_logins).0 refl refl refl

admin_login-enters_example :
    (admin_middleware no_web_faults revoking
      (50 * minute)
      (50 * minute)
      (some "uuid-1")
      (admin_callback good_callback
        (record { code = "c1"; state = "st"; error = "" })
        (admin_login false second (some "st") no_logins).0).0.sessions).1
    ≡ enters
        (new_session minute "uuid-1" "csrf-1" tokens profile)
        (record { user_id = some (pos 7); access_token = "new-token" })
unfolding create_web_session exchange_admin_code token_expiry ◌+ℤ◌ wrap_64
admin_login-enters_example =
    admin_login-enters good_callback no_web_faults revoking second (50 * minute) (50 * minute) "st"
      "c1" no_logins tokens profile_answer profile "uuid-1" "csrf-1"
      (new_session minute "uuid-1" "csrf-1" tokens profile ∷ []) refl refl refl (omega arith)
      (refl, (refl, (refl, (refl, (refl, (refl, refl)))))) refl refl (omega arith) (omega arith)

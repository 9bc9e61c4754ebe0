-- ===== src/Tests/Pages.antt =====
-- The admin pages for devices, scores and settings.
use osm_device_adapter.Prelude.{◌≡◌, refl, String, false, true, none, some, [], ◌∷◌}
use osm_device_adapter.Prelude.Int.{pos, ◌+ℤ◌, wrap_64}
use osm_device_adapter.Prelude.Dict.{Dict}
use osm_device_adapter.Db.Models.{authorized, DeviceCode, WebSession, AdhocPatrol, second, hour}
use osm_device_adapter.Db.DeviceCodes.{find_by_user, list_by_section_id}
use osm_device_adapter.Db.AdhocPatrols.{find_by_id_and_user, update_patrol_score}
use osm_device_adapter.Db.SectionSettings.{
  object, get_parsed, get_settings, upsert, upsert_patrol_colors,
}
use osm_device_adapter.Osm.Types.{PatrolScore}
use osm_device_adapter.Scores.Cache.{CachedPatrolScores, no_limit}
use osm_device_adapter.Scores.Update.{UpdateResponse, updated as updated_response}
use osm_device_adapter.Admin.Replies.{json, json_error, AdminRequest, validate_csrf_token}
use osm_device_adapter.Admin.Paths.{path_part, ends_with, out_of_range}
use osm_device_adapter.Admin.World.{AdminWorld, AdminFaults}
use osm_device_adapter.Admin.Scoreboards.{answers, success, admin_scoreboard_section}
use osm_device_adapter.Admin.Scoreboards.Laws.{moved}
use osm_device_adapter.Admin.Scores.{
  AdminScoreUpdate, ScoreService, Numerals, result_of, updated, audit_logs, handle_update_scores,
}
use osm_device_adapter.Admin.Scores as Scores
use osm_device_adapter.Admin.Scores.Adhoc.{handle_update_adhoc_scores}
use osm_device_adapter.Admin.Scores.Page.{admin_scores}
use osm_device_adapter.Admin.Scores.Laws.{IsUpdated, handle_update_scores-fresh}
use osm_device_adapter.Admin.Scores.Batches.{
  IsBatched, handle_update_adhoc_scores-IsBatched, handle_update_adhoc_scores_partial,
}
use osm_device_adapter.Admin.Scores.Guards.{admin_scores-token}
use osm_device_adapter.Admin.Settings.{
  SettingsWorld, SettingsFaults, handle_get_settings, handle_update_settings,
}
use osm_device_adapter.Admin.Settings as Settings
use osm_device_adapter.Admin.Settings.Laws.{handle_get_settings-update}

abbrev pub scoreboard : DeviceCode
scoreboard = record {
  device_code = "device-one";
  user_code = b'A' ∷ [];
  client_id = "client";
  created_by_id = none;
  expires_at = second;
  created_at = 0;
  status = authorized;
  device_access_token = some "token";
  osm_access_token = some "osm-token";
  osm_refresh_token = some "refresh";
  osm_token_expiry = none;
  section_id = some (pos 12);
  osm_user_id = some (pos 7);
  term_id = none;
  term_checked_at = none;
  term_end_date = none;
  device_request_ip = none;
  device_request_country = none;
  device_request_time = none;
  last_used_at = some hour;
}

abbrev pub owls : AdhocPatrol
owls = record {
  id = 1;
  osm_user_id = pos 7;
  position = pos 0;
  name = "Owls";
  color = "red";
  score = pos 3;
}

abbrev pub cached : CachedPatrolScores
cached = record { patrols = []; cached_at = 0; valid_until = hour; rate_limit_state = no_limit }

abbrev pub world : AdminWorld
world = record {
  codes = scoreboard ∷ [];
  adhoc = record { rows = owls ∷ []; next_id = 2 };
  audit = [];
  locks = [];
  score_cache = ("device-one", cached) ∷ [];
  adhoc_cache = [];
  published = [];
}

abbrev pub healthy : AdminFaults
healthy = record {
  find_devices = false;
  update_section = false;
  list_devices = false;
  audit = false;
  adhoc_list = false;
  adhoc_find = λ id. false;
  adhoc_write = λ id. false;
  has_hub = true;
  del = λ key. false;
  publish = false;
}

abbrev pub leader : WebSession
leader = record {
  id = "session";
  osm_user_id = pos 7;
  osm_access_token = "osm-token";
  osm_refresh_token = "refresh";
  osm_token_expiry = hour;
  csrf_token = "csrf";
  selected_section_id = none;
  created_at = 0;
  last_activity = 0;
  expires_at = hour;
}

abbrev pub asks : String → String → String → AdminRequest
asks method path token = record {
  method = method;
  path = path;
  x_csrf_token = token;
  session = some leader;
}

abbrev move : AdminRequest
move = asks "PUT" "/api/admin/scoreboards/device-o/section" "csrf"

-- The device is moved to the ad-hoc section.
moves_device :
    admin_scoreboard_section healthy none move (some (pos 0)) world
    ≡ (moved healthy (pos 0) scoreboard world, answers (json 200 success))
unfolding admin_scoreboard_section validate_csrf_token path_part ends_with find_by_user
moves_device = refl

-- A path in which the prefix and the suffix overlap is out of range.
timer_out_of_range :
    path_part "/api/admin/scoreboards/" "/timer" "/api/admin/scoreboards/timer" ≡ out_of_range
unfolding path_part ends_with
timer_out_of_range = refl

abbrev pub numerals : Numerals
numerals = record { itoa = λ n. "12"; parse_int = λ text. some (pos 1) }

abbrev eagles : PatrolScore
eagles = record { id = "eagles"; name = "Eagles"; score = pos 10 }

abbrev response : UpdateResponse
response = updated_response (record { patrol_id = "eagles"; delta = pos 5 }) eagles (pos 15)

abbrev service : ScoreService
service = record {
  term = λ section. some (pos 3);
  patrols = λ section term. some (eagles ∷ []);
  update = λ section requests locks. (some (response ∷ []), locks);
}

abbrev pub five_points : String → AdminScoreUpdate
five_points patrol = record { patrol_id = patrol; points = pos 5 }

abbrev too_many : AdminScoreUpdate
too_many = record { patrol_id = "1"; points = pos 1001 }

admin_scores-token_example :
    (admin_scores numerals healthy service second none
      (asks "POST" "/api/admin/sections/12/scores" "")
      (some (five_points "eagles" ∷ []))
      world).0
    ≡ world
admin_scores-token_example =
    admin_scores-token numerals healthy service second none
      (asks "POST" "/api/admin/sections/12/scores" "") (some (five_points "eagles" ∷ [])) world refl

handle_update_scores-fresh_example : IsUpdated numerals leader (pos 12) world (response ∷ []) (
    handle_update_scores numerals healthy service second
      (asks "POST" "" "csrf")
      leader
      (pos 12)
      (some (five_points "eagles" ∷ []))
      world)
unfolding list_by_section_id validate_csrf_token
handle_update_scores-fresh_example =
    handle_update_scores-fresh numerals healthy service second (asks "POST" "" "csrf") leader
      (pos 12) (five_points "eagles") [] world (response ∷ []) [] refl refl refl refl (refl, tt)
      refl refl refl

handle_update_adhoc_scores-IsBatched_example :
    IsBatched (five_points "1" ∷ five_points "1" ∷ []) world (
      handle_update_adhoc_scores numerals healthy
        (asks "POST" "" "csrf")
        leader
        (some (five_points "1" ∷ five_points "1" ∷ []))
        world)
unfolding validate_csrf_token
handle_update_adhoc_scores-IsBatched_example =
    handle_update_adhoc_scores-IsBatched numerals healthy (asks "POST" "" "csrf") leader
      (five_points "1") (five_points "1" ∷ []) world refl refl refl

handle_update_adhoc_scores_partial_example :
    handle_update_adhoc_scores numerals healthy
      (asks "POST" "" "csrf")
      leader
      (some (five_points "1" ∷ too_many ∷ []))
      world
    ≡ (
      record world { adhoc = record { rows = record owls { score = pos 8 } ∷ []; next_id = 2 } },
      Scores.answers (json_error 400 "validation_error" "Points must be between -1000 and 1000"),
    )
unfolding validate_csrf_token find_by_id_and_user update_patrol_score ◌+ℤ◌ wrap_64
handle_update_adhoc_scores_partial_example =
    handle_update_adhoc_scores_partial numerals healthy (asks "POST" "" "csrf") leader
      (five_points "1") too_many [] world refl refl refl

abbrev no_settings_yet : SettingsWorld
no_settings_yet = record { settings = []; adhoc = world.adhoc }

abbrev healthy_settings : SettingsFaults
healthy_settings = record {
  read = false;
  write = false;
  adhoc_list = false;
  adhoc_find = λ id. false;
  adhoc_write = λ id. false;
}

abbrev red_eagles : Dict String
red_eagles = ("eagles", "red") ∷ []

handle_get_settings-update_example :
    (handle_get_settings numerals healthy_settings service leader
      (pos 12)
      (handle_update_settings numerals healthy_settings service
        (asks "PUT" "" "csrf")
        leader
        (pos 12)
        (some red_eagles)
        no_settings_yet).0).1
    ≡ Settings.answers (
        json 200 (record {
          section_id = pos 12;
          patrol_colors = red_eagles;
          patrols = record { id = "eagles"; name = "Eagles" } ∷ [];
        }))
unfolding validate_csrf_token upsert_patrol_colors get_parsed get_settings upsert
handle_get_settings-update_example =
    handle_get_settings-update numerals healthy_settings healthy_settings service
      (asks "PUT" "" "csrf") leader (pos 12) (pos 3) red_eagles (eagles ∷ []) no_settings_yet
      (upsert
        (record {
          osm_user_id = pos 7;
          section_id = pos 12;
          settings = object (some red_eagles) [];
        })
        [])
      refl refl refl refl refl refl

-- ===== src/Admin/Scoreboards.antt =====
-- internal/handlers/admin_scoreboards.go and internal/handlers/admin_timer.go: the pages for the
-- devices of a user.
pub mod Devices
pub mod Laws
pub mod Timers
use Prim.Native.String.{◌++◌ as append, len, slice}
use osm_device_adapter.Prelude.{
  ℕ, String, Bool, true, false, not, ◌||◌, Option, none, some, List, [], ◌∷◌, map, ltb, str_eq,
  find?, if◌then◌else◌,
}
use osm_device_adapter.Prelude.Int.{ℤ, pos, ltb_ℤ, eq_ℤ}
use osm_device_adapter.Db.Models.{WebSession, DeviceCode}
use osm_device_adapter.Db.DeviceCodes.{Table, find_by_user, update_section_id}
use osm_device_adapter.Osm.Types.{OsmSection, OsmProfileData, OsmProfileResponse}
use osm_device_adapter.Hub.Messages.{
  Message, reconnect_message, timer_start_message, timer_pause_message, timer_resume_message,
  timer_reset_message,
}
use osm_device_adapter.Admin.Replies.{Answer, json, json_error, AdminRequest, validate_csrf_token}
use osm_device_adapter.Admin.Paths.{PathPart, no_match, out_of_range, part, path_part}
use osm_device_adapter.Admin.World.{AdminWorld, AdminFaults, deleted_key, publish, with_access}

-- The time of the last use stands as the number, which `Format` writes.
pub record ScoreboardResponse : Type 0 where
  pub device_code_prefix : String
  pub section_id : Option ℤ
  pub section_name : String
  pub client_id : String
  pub last_used_at : Option ℕ

pub data ScoreboardReply : Type 0 where
  scoreboards : List ScoreboardResponse → ScoreboardReply
  success : ScoreboardReply

-- What a handler does: it answers, or a run-time panic ends the request.
pub data Handled : Type 0 where
  answers : Answer ScoreboardReply → Handled
  panics : Handled

-- The first 8 bytes of a longer code.
abbrev pub device_prefix : String → String
device_prefix code = if ltb 8 (len code) then slice code 0 8 else code

-- The names of the sections: the map that starts with the ad-hoc section, and in which a later
-- section of the profile overwrites an earlier one.
abbrev pub name_in : ℤ → String → List OsmSection → String
name_in section name [] = name
name_in section name (s ∷ ss) =
    name_in section (if eq_ℤ s.section_id section then s.section_name else name) ss

abbrev sections_of : Option OsmProfileData → List OsmSection
sections_of none = []
sections_of (some profile) = profile.sections

abbrev pub known_sections : Option OsmProfileResponse → List OsmSection
known_sections none = []
known_sections (some answer) = sections_of answer.payload

-- `itoa` is `strconv.Itoa`.
module _ (itoa : ℤ → String) where
  abbrev pub section_name_of : List OsmSection → Option ℤ → String
  section_name_of sections none = ""
  section_name_of sections (some section) =
      let name = name_in section (if eq_ℤ section (pos 0) then "Ad-hoc Teams" else "") sections in
      if str_eq name "" then append "Section " (itoa section) else name

  abbrev pub scoreboard_of : List OsmSection → DeviceCode → ScoreboardResponse
  scoreboard_of sections d = record {
    device_code_prefix = device_prefix d.device_code;
    section_id = d.section_id;
    section_name = section_name_of sections d.section_id;
    client_id = d.client_id;
    last_used_at = d.last_used_at;
  }

  abbrev listed :
      AdminFaults
      → Option OsmProfileResponse
      → AdminWorld
      → Option WebSession
      → Answer ScoreboardReply
  listed faults profile w none = json_error 401 "unauthorized" "Not authenticated"
  listed faults profile w (some s) =
      if faults.find_devices
      then json_error 500 "internal_error" "Failed to list scoreboards"
      else json 200 (
          scoreboards
            (map (scoreboard_of (known_sections profile)) (find_by_user s.osm_user_id w.codes)))

  -- `AdminScoreboardsHandler`; `profile` is what OSM answers, none for an error.
  unfoldable pub admin_scoreboards :
      AdminFaults → Option OsmProfileResponse → AdminRequest → AdminWorld → Answer ScoreboardReply
  admin_scoreboards faults profile r w =
      if not (str_eq r.method "GET")
      then json_error 405 "method_not_allowed" "Method not allowed"
      else listed faults profile w r.session

-- The first of the user's devices with that prefix.
abbrev pub target_device : String → Table → Option DeviceCode
target_device prefix devices = find? (λ d. str_eq (device_prefix d.device_code) prefix) devices

abbrev pub failed : AdminWorld → Answer ScoreboardReply → AdminWorld × Handled
failed w a = (w, answers a)

-- The change of a device's section.
abbrev change_section : AdminFaults → ℤ → DeviceCode → AdminWorld → AdminWorld × Handled
change_section faults section d w =
    if faults.update_section
    then failed w (json_error 500 "internal_error" "Failed to update section")
    else (
      publish faults (append "device:" d.device_code) reconnect_message (record w {
        codes = update_section_id d.device_code section w.codes;
        score_cache = deleted_key faults d.device_code w.score_cache;
      }),
      answers (json 200 success),
    )

abbrev for_device :
    AdminFaults
    → Option OsmProfileResponse
    → ℤ
    → AdminWorld
    → Option DeviceCode
    → AdminWorld × Handled
for_device faults profile section w none = failed w (json_error 404 "not_found" "Device not found")
for_device faults profile section w (some d) =
    let done = change_section faults section d w in
    if ltb_ℤ (pos 0) section then with_access (failed w) profile section (λ s. done) else done

abbrev request_section :
    AdminFaults
    → Option OsmProfileResponse
    → WebSession
    → String
    → AdminWorld
    → Option ℤ
    → AdminWorld × Handled
request_section faults profile s prefix w none =
    failed w (json_error 400 "bad_request" "Invalid request body")
request_section faults profile s prefix w (some section) =
    if faults.find_devices
    then failed w (json_error 500 "internal_error" "Failed to look up devices")
    else for_device faults profile section w
        (target_device prefix (find_by_user s.osm_user_id w.codes))

abbrev section_path :
    AdminFaults
    → Option OsmProfileResponse
    → WebSession
    → Option ℤ
    → AdminWorld
    → PathPart
    → AdminWorld × Handled
section_path faults profile s body w no_match = failed w (json_error 404 "not_found" "Invalid path")
section_path faults profile s body w out_of_range = (w, panics)
section_path faults profile s body w (part prefix) = request_section faults profile s prefix w body

abbrev section_token :
    AdminFaults
    → Option OsmProfileResponse
    → AdminRequest
    → WebSession
    → Option ℤ
    → AdminWorld
    → Option String
    → AdminWorld × Handled
section_token faults profile r s body w (some message) =
    failed w (json_error 403 "csrf_invalid" message)
section_token faults profile r s body w none =
    section_path faults profile s body w (path_part "/api/admin/scoreboards/" "/section" r.path)

abbrev section_session :
    AdminFaults
    → Option OsmProfileResponse
    → AdminRequest
    → Option ℤ
    → AdminWorld
    → Option WebSession
    → AdminWorld × Handled
section_session faults profile r body w none =
    failed w (json_error 401 "unauthorized" "Not authenticated")
section_session faults profile r body w (some s) =
    section_token faults profile r s body w (validate_csrf_token r s)

-- `AdminScoreboardSectionHandler`; `body` is the section of the request's body, none where it does
-- not decode.
unfoldable pub admin_scoreboard_section :
    AdminFaults
    → Option OsmProfileResponse
    → AdminRequest
    → Option ℤ
    → AdminWorld
    → AdminWorld × Handled
admin_scoreboard_section faults profile r body w =
    if not (str_eq r.method "PUT")
    then failed w (json_error 405 "method_not_allowed" "Method not allowed")
    else section_session faults profile r body w r.session

pub record TimerCommandRequest : Type 0 where
  pub command : String
  pub duration : ℤ

-- The message of a command, none for an unknown one.
unfoldable pub timer_message : TimerCommandRequest → Option Message
timer_message req =
    if str_eq req.command "start"
    then some (timer_start_message req.duration)
    else if str_eq req.command "pause"
    then some timer_pause_message
    else if str_eq req.command "resume"
    then some timer_resume_message
    else if str_eq req.command "reset"
    then some timer_reset_message
    else none

abbrev timer_device : AdminFaults → Message → AdminWorld → Option DeviceCode → AdminWorld × Handled
timer_device faults m w none = failed w (json_error 404 "not_found" "Device not found")
timer_device faults m w (some d) =
    (publish faults (append "device:" d.device_code) m w, answers (json 200 success))

abbrev timer_command :
    AdminFaults
    → WebSession
    → String
    → TimerCommandRequest
    → AdminWorld
    → Option Message
    → AdminWorld × Handled
timer_command faults s prefix req w none =
    failed w (json_error 400 "bad_request" (append "Unknown command: " req.command))
timer_command faults s prefix req w (some m) =
    if faults.find_devices
    then failed w (json_error 500 "internal_error" "Failed to look up devices")
    else timer_device faults m w (target_device prefix (find_by_user s.osm_user_id w.codes))

abbrev timer_body :
    AdminFaults
    → WebSession
    → String
    → AdminWorld
    → Option TimerCommandRequest
    → AdminWorld × Handled
timer_body faults s prefix w none = failed w (json_error 400 "bad_request" "Invalid request body")
timer_body faults s prefix w (some req) = timer_command faults s prefix req w (timer_message req)

abbrev timer_path :
    AdminFaults
    → WebSession
    → Option TimerCommandRequest
    → AdminWorld
    → PathPart
    → AdminWorld × Handled
timer_path faults s body w no_match = failed w (json_error 404 "not_found" "Invalid path")
timer_path faults s body w out_of_range = (w, panics)
timer_path faults s body w (part prefix) = timer_body faults s prefix w body

abbrev timer_token :
    AdminFaults
    → AdminRequest
    → WebSession
    → Option TimerCommandRequest
    → AdminWorld
    → Option String
    → AdminWorld × Handled
timer_token faults r s body w (some message) = failed w (json_error 403 "csrf_invalid" message)
timer_token faults r s body w none =
    timer_path faults s body w (path_part "/api/admin/scoreboards/" "/timer" r.path)

abbrev timer_session :
    AdminFaults
    → AdminRequest
    → Option TimerCommandRequest
    → AdminWorld
    → Option WebSession
    → AdminWorld × Handled
timer_session faults r body w none = failed w (json_error 401 "unauthorized" "Not authenticated")
timer_session faults r body w (some s) = timer_token faults r s body w (validate_csrf_token r s)

-- `AdminScoreboardTimerHandler`
unfoldable pub admin_scoreboard_timer :
    AdminFaults → AdminRequest → Option TimerCommandRequest → AdminWorld → AdminWorld × Handled
admin_scoreboard_timer faults r body w =
    if not (str_eq r.method "POST")
    then failed w (json_error 405 "method_not_allowed" "Method not allowed")
    else timer_session faults r body w r.session

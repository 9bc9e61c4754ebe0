-- ===== src/Admin/Settings.antt =====
-- The settings pages of internal/handlers/admin_api.go: the colours of the patrols, of a section of
-- OSM and of the ad-hoc section. Go leaves open in which order a map is walked: the order of the
-- colours here is the one that the loop takes.
pub mod Laws
use Prim.Native.String.{◌++◌ as append}
use osm_device_adapter.Prelude.{
  ℕ, String, Bool, true, false, not, ◌&&◌, Option, none, some, List, [], ◌∷◌, map, str_eq,
  if◌then◌else◌, ◌⊎◌, inl, inr, find?,
}
use osm_device_adapter.Prelude.Int.{ℤ, pos, eq_ℤ}
use osm_device_adapter.Prelude.Dict.{Dict, insert}
use osm_device_adapter.Db.Models.{WebSession, AdhocPatrol}
use osm_device_adapter.Db.AdhocPatrols.{
  AdhocTable, StoreError, list_by_user, find_by_id_and_user, update_patrol,
}
use osm_device_adapter.Db.SectionSettings.{SettingsTable, get_parsed, upsert_patrol_colors}
use osm_device_adapter.Osm.Types.{PatrolScore, OsmSection, OsmProfileResponse}
use osm_device_adapter.Admin.Replies.{Answer, json, json_error, AdminRequest, validate_csrf_token}
use osm_device_adapter.Admin.Paths.{PathPart, no_match, out_of_range, part, path_part}
use osm_device_adapter.Admin.World.{with_access}
use osm_device_adapter.Admin.Adhoc.{as_id, is_color}
use osm_device_adapter.Admin.Scores.{Numerals, ScoreService}

pub record PatrolInfo : Type 0 where
  pub id : String
  pub name : String

pub record AdminSettingsResponse : Type 0 where
  pub section_id : ℤ
  pub patrol_colors : Dict String
  pub patrols : List PatrolInfo

pub record SettingsWorld : Type 0 where
  pub settings : SettingsTable
  pub adhoc : AdhocTable

-- Which calls of the database fail.
pub record SettingsFaults : Type 0 where
  pub read : Bool
  pub write : Bool
  pub adhoc_list : Bool
  pub adhoc_find : ℕ → Bool
  pub adhoc_write : ℕ → Bool

pub data SettingsHandled : Type 0 where
  answers : Answer AdminSettingsResponse → SettingsHandled
  panics : SettingsHandled

abbrev pub failed : SettingsWorld → Answer AdminSettingsResponse → SettingsWorld × SettingsHandled
failed w a = (w, answers a)

-- The first colour that is neither empty nor a colour, by its patrol.
abbrev pub bad_color : String → Bool
bad_color color = not (str_eq color "") && not (is_color color)

abbrev pub first_bad : Dict String → Option String
first_bad [] = none
first_bad ((patrol, color) ∷ colors) = if bad_color color then some patrol else first_bad colors

abbrev pub color_error : String → Answer AdminSettingsResponse
color_error patrol =
    json_error 400 "validation_error"
      (append "Invalid color for patrol " (append patrol ": must be a valid color name"))

module _ (numerals : Numerals) (faults : SettingsFaults) (service : ScoreService) where
  -- The colours of the ad-hoc patrols that have one, and the patrols.
  abbrev adhoc_colors : List AdhocPatrol → Dict String → Dict String
  adhoc_colors [] colors = colors
  adhoc_colors (p ∷ ps) colors =
      adhoc_colors ps
        (if str_eq p.color "" then colors else insert (numerals.itoa (pos p.id)) p.color colors)

  abbrev adhoc_info : AdhocPatrol → PatrolInfo
  adhoc_info p = record { id = numerals.itoa (pos p.id); name = p.name }

  abbrev pub handle_get_adhoc_settings :
      WebSession → SettingsWorld → SettingsWorld × SettingsHandled
  handle_get_adhoc_settings s w =
      let patrols = list_by_user s.osm_user_id w.adhoc in
      if faults.adhoc_list
      then failed w (json_error 500 "internal_error" "Failed to fetch settings")
      else failed w (
          json 200 (record {
            section_id = pos 0;
            patrol_colors = adhoc_colors patrols [];
            patrols = map adhoc_info patrols;
          }))

  -- One round of the loop over the colours: what cannot be parsed, found or written is passed over.
  abbrev recolored : ℤ → ℕ → String → AdhocTable → StoreError ⊎ AdhocPatrol → AdhocTable
  recolored user id color table (inl e) = table
  recolored user id color table (inr p) =
      (update_patrol (faults.adhoc_write id) id user p.name color table).0

  abbrev recolored_number : ℤ → String → AdhocTable → Option ℤ → AdhocTable
  recolored_number user color table none = table
  recolored_number user color table (some number) =
      let id = as_id number in
      recolored user id color table (find_by_id_and_user (faults.adhoc_find id) id user table)

  -- The loop: the patrol whose colour is bad ends it, with what it has written.
  abbrev pub recolor_each : ℤ → Dict String → AdhocTable → AdhocTable × Option String
  recolor_each user [] table = (table, none)
  recolor_each user ((patrol, color) ∷ colors) table =
      let rest =
        recolor_each user colors (recolored_number user color table (numerals.parse_int patrol)) in
      if bad_color color then (table, some patrol) else rest

  abbrev recolored_all :
      Dict String → SettingsWorld → AdhocTable × Option String → SettingsWorld × SettingsHandled
  recolored_all colors w (table, some patrol) =
      failed (record w { adhoc = table }) (color_error patrol)
  recolored_all colors w (table, none) =
      failed (record w { adhoc = table })
        (json 200 (record { section_id = pos 0; patrol_colors = colors; patrols = [] }))

  abbrev adhoc_settings_body :
      WebSession → SettingsWorld → Option (Dict String) → SettingsWorld × SettingsHandled
  adhoc_settings_body s w none = failed w (json_error 400 "bad_request" "Invalid request body")
  adhoc_settings_body s w (some colors) =
      recolored_all colors w (recolor_each s.osm_user_id colors w.adhoc)

  abbrev adhoc_settings_token :
      WebSession
      → Option (Dict String)
      → SettingsWorld
      → Option String
      → SettingsWorld × SettingsHandled
  adhoc_settings_token s body w (some message) = failed w (json_error 403 "csrf_invalid" message)
  adhoc_settings_token s body w none = adhoc_settings_body s w body

  abbrev pub handle_update_adhoc_settings :
      AdminRequest
      → WebSession
      → Option (Dict String)
      → SettingsWorld
      → SettingsWorld × SettingsHandled
  handle_update_adhoc_settings r s body w = adhoc_settings_token s body w (validate_csrf_token r s)

  abbrev info_of : PatrolScore → PatrolInfo
  info_of p = record { id = p.id; name = p.name }

  abbrev settings_read :
      ℤ → List PatrolScore → SettingsWorld → Option (Dict String) → SettingsWorld × SettingsHandled
  settings_read section patrols w none =
      failed w (json_error 500 "internal_error" "Failed to fetch settings")
  settings_read section patrols w (some colors) = failed w (
      json 200
        (record { section_id = section; patrol_colors = colors; patrols = map info_of patrols }))

  abbrev patrols_read :
      WebSession → ℤ → SettingsWorld → Option (List PatrolScore) → SettingsWorld × SettingsHandled
  patrols_read s section w none =
      failed w (json_error 502 "osm_error" "Failed to fetch patrol list")
  patrols_read s section w (some patrols) =
      settings_read section patrols w (get_parsed faults.read s.osm_user_id section w.settings)

  abbrev term_read : WebSession → ℤ → SettingsWorld → Option ℤ → SettingsWorld × SettingsHandled
  term_read s section w none =
      failed w (json_error 502 "osm_error" "Failed to determine current term")
  term_read s section w (some term) = patrols_read s section w (service.patrols section term)

  abbrev pub handle_get_settings : WebSession → ℤ → SettingsWorld → SettingsWorld × SettingsHandled
  handle_get_settings s section w = term_read s section w (service.term section)

  abbrev saved :
      ℤ → Dict String → SettingsWorld → Option SettingsTable → SettingsWorld × SettingsHandled
  saved section colors w none = failed w (json_error 500 "internal_error" "Failed to save settings")
  saved section colors w (some rows) =
      failed (record w { settings = rows })
        (json 200 (record { section_id = section; patrol_colors = colors; patrols = [] }))

  abbrev checked_colors :
      WebSession → ℤ → Dict String → SettingsWorld → Option String → SettingsWorld × SettingsHandled
  checked_colors s section colors w (some patrol) = failed w (color_error patrol)
  checked_colors s section colors w none =
      saved section colors w
        (upsert_patrol_colors faults.read faults.write s.osm_user_id section colors w.settings)

  abbrev settings_body :
      WebSession → ℤ → SettingsWorld → Option (Dict String) → SettingsWorld × SettingsHandled
  settings_body s section w none = failed w (json_error 400 "bad_request" "Invalid request body")
  settings_body s section w (some colors) = checked_colors s section colors w (first_bad colors)

  abbrev pub handle_update_settings :
      AdminRequest
      → WebSession
      → ℤ
      → Option (Dict String)
      → SettingsWorld
      → SettingsWorld × SettingsHandled
  handle_update_settings r s section body w =
      if str_eq r.x_csrf_token ""
      then failed w (json_error 403 "csrf_required" "CSRF token required")
      else if not (str_eq r.x_csrf_token s.csrf_token)
      then failed w (json_error 403 "csrf_invalid" "Invalid CSRF token")
      else settings_body s section w body

  abbrev osm_settings :
      AdminRequest
      → WebSession
      → Option (Dict String)
      → SettingsWorld
      → ℤ
      → OsmSection
      → SettingsWorld × SettingsHandled
  osm_settings r s body w section target =
      if str_eq r.method "GET"
      then handle_get_settings s section w
      else if str_eq r.method "PUT"
      then handle_update_settings r s section body w
      else failed w (json_error 405 "method_not_allowed" "Method not allowed")

  abbrev local_settings :
      AdminRequest
      → WebSession
      → Option (Dict String)
      → SettingsWorld
      → SettingsWorld × SettingsHandled
  local_settings r s body w =
      if str_eq r.method "GET"
      then handle_get_adhoc_settings s w
      else if str_eq r.method "PUT"
      then handle_update_adhoc_settings r s body w
      else failed w (json_error 405 "method_not_allowed" "Method not allowed")

  abbrev settings_number :
      Option OsmProfileResponse
      → AdminRequest
      → WebSession
      → Option (Dict String)
      → SettingsWorld
      → Option ℤ
      → SettingsWorld × SettingsHandled
  settings_number profile r s body w none =
      failed w (json_error 400 "bad_request" "Invalid section ID")
  settings_number profile r s body w (some section) =
      if eq_ℤ section (pos 0)
      then local_settings r s body w
      else with_access (failed w) profile section (osm_settings r s body w section)

  abbrev settings_path :
      Option OsmProfileResponse
      → AdminRequest
      → WebSession
      → Option (Dict String)
      → SettingsWorld
      → PathPart
      → SettingsWorld × SettingsHandled
  settings_path profile r s body w no_match = failed w (json_error 404 "not_found" "Invalid path")
  settings_path profile r s body w out_of_range = (w, panics)
  settings_path profile r s body w (part text) =
      settings_number profile r s body w (numerals.parse_int text)

  abbrev settings_session :
      Option OsmProfileResponse
      → AdminRequest
      → Option (Dict String)
      → SettingsWorld
      → Option WebSession
      → SettingsWorld × SettingsHandled
  settings_session profile r body w none =
      failed w (json_error 401 "unauthorized" "Not authenticated")
  settings_session profile r body w (some s) =
      settings_path profile r s body w (path_part "/api/admin/sections/" "/settings" r.path)

  -- `AdminSettingsHandler`; a body with no colours, or null, has none, and `body` is none where it
  -- does not decode.
  unfoldable pub admin_settings :
      Option OsmProfileResponse
      → AdminRequest
      → Option (Dict String)
      → SettingsWorld
      → SettingsWorld × SettingsHandled
  admin_settings profile r body w = settings_session profile r body w r.session

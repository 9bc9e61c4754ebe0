-- ===== src/Admin/Scores/Page.antt =====
-- `AdminScoresHandler` of internal/handlers/admin_api.go, for both kinds of section.
use osm_device_adapter.Prelude.{ℕ, Option, none, some, List, str_eq, if◌then◌else◌}
use osm_device_adapter.Prelude.Int.{ℤ, pos, eq_ℤ}
use osm_device_adapter.Db.Models.{WebSession}
use osm_device_adapter.Osm.Types.{OsmSection, OsmProfileResponse}
use osm_device_adapter.Admin.Replies.{json_error, AdminRequest}
use osm_device_adapter.Admin.Paths.{PathPart, no_match, out_of_range, part, path_part}
use osm_device_adapter.Admin.World.{AdminWorld, AdminFaults, with_access}
use osm_device_adapter.Admin.Scores.{
  AdminScoreUpdate, ScoresHandled, panics, failed, ScoreService, Numerals, handle_get_scores,
  handle_update_scores,
}
use osm_device_adapter.Admin.Scores.Adhoc.{handle_get_adhoc_scores, handle_update_adhoc_scores}

module _ (numerals : Numerals) (faults : AdminFaults) (service : ScoreService) (now : ℕ) where
  abbrev pub adhoc_section :
      AdminRequest
      → WebSession
      → Option (List AdminScoreUpdate)
      → AdminWorld
      → AdminWorld × ScoresHandled
  adhoc_section r s body w =
      if str_eq r.method "GET"
      then handle_get_adhoc_scores numerals faults now s w
      else if str_eq r.method "POST"
      then handle_update_adhoc_scores numerals faults r s body w
      else failed w (json_error 405 "method_not_allowed" "Method not allowed")

  abbrev pub osm_section :
      AdminRequest
      → WebSession
      → Option (List AdminScoreUpdate)
      → AdminWorld
      → ℤ
      → OsmSection
      → AdminWorld × ScoresHandled
  osm_section r s body w section target =
      if str_eq r.method "GET"
      then handle_get_scores numerals faults service now section target w
      else if str_eq r.method "POST"
      then handle_update_scores numerals faults service now r s section body w
      else failed w (json_error 405 "method_not_allowed" "Method not allowed")

  abbrev pub with_number :
      Option OsmProfileResponse
      → AdminRequest
      → WebSession
      → Option (List AdminScoreUpdate)
      → AdminWorld
      → Option ℤ
      → AdminWorld × ScoresHandled
  with_number profile r s body w none = failed w (json_error 400 "bad_request" "Invalid section ID")
  with_number profile r s body w (some section) =
      if eq_ℤ section (pos 0)
      then adhoc_section r s body w
      else with_access (failed w) profile section (osm_section r s body w section)

  abbrev pub with_path :
      Option OsmProfileResponse
      → AdminRequest
      → WebSession
      → Option (List AdminScoreUpdate)
      → AdminWorld
      → PathPart
      → AdminWorld × ScoresHandled
  with_path profile r s body w no_match = failed w (json_error 404 "not_found" "Invalid path")
  with_path profile r s body w out_of_range = (w, panics)
  with_path profile r s body w (part text) =
      with_number profile r s body w (numerals.parse_int text)

  abbrev pub with_session :
      Option OsmProfileResponse
      → AdminRequest
      → Option (List AdminScoreUpdate)
      → AdminWorld
      → Option WebSession
      → AdminWorld × ScoresHandled
  with_session profile r body w none = failed w (json_error 401 "unauthorized" "Not authenticated")
  with_session profile r body w (some s) =
      with_path profile r s body w (path_part "/api/admin/sections/" "/scores" r.path)

  -- `profile` is what OSM answers, none for an error.
  unfoldable pub admin_scores :
      Option OsmProfileResponse
      → AdminRequest
      → Option (List AdminScoreUpdate)
      → AdminWorld
      → AdminWorld × ScoresHandled
  admin_scores profile r body w = with_session profile r body w r.session

-- ===== src/Admin/Scores/Adhoc.antt =====
-- The scores of the ad-hoc section in internal/handlers/admin_api.go.
use Prim.Native.String.{◌++◌ as append}
use osm_device_adapter.Prelude.{
  ℕ, String, true, false, not, Option, none, some, List, [], ◌∷◌, ◌++◌, map, if◌then◌else◌, ◌⊎◌,
  inl, inr,
}
use osm_device_adapter.Prelude.Int.{ℤ, pos, ◌+ℤ◌, wrap_64}
use osm_device_adapter.Db.Models.{WebSession, AdhocPatrol, ScoreAuditLog}
use osm_device_adapter.Db.AdhocPatrols.{
  AdhocTable, StoreError, list_by_user, find_by_id_and_user, update_patrol_score,
}
use osm_device_adapter.Osm.Types.{PatrolScore}
use osm_device_adapter.Hub.Messages.{refresh_scores_message}
use osm_device_adapter.Admin.Replies.{json, json_error, AdminRequest, validate_csrf_token}
use osm_device_adapter.Admin.World.{AdminWorld, AdminFaults, deleted_key, publish}
use osm_device_adapter.Admin.Adhoc.{as_id}
use osm_device_adapter.Admin.Scores.{
  AdminScoreUpdate, AdminPatrolResult, scores, updated, ScoresHandled, answers, failed, in_range,
  create_batch, Numerals,
}

module _ (numerals : Numerals) (faults : AdminFaults) (now : ℕ) where
  abbrev score_of : AdhocPatrol → PatrolScore
  score_of p = record { id = numerals.itoa (pos p.id); name = p.name; score = p.score }

  abbrev pub handle_get_adhoc_scores : WebSession → AdminWorld → AdminWorld × ScoresHandled
  handle_get_adhoc_scores s w =
      if faults.adhoc_list
      then failed w (json_error 500 "internal_error" "Failed to fetch ad-hoc scores")
      else failed w (
          json 200 (
            scores (record {
              section_id = pos 0;
              section_name = "Ad-hoc Teams";
              term_id = pos 0;
              patrols = map score_of (list_by_user s.osm_user_id w.adhoc);
              fetched_at = now;
            })))

abbrev refused : AdminScoreUpdate → String → String → AdminPatrolResult
refused u name message = record {
  id = u.patrol_id;
  name = name;
  success = false;
  previous_score = pos 0;
  new_score = pos 0;
  is_temporary_error = none;
  retry_after = none;
  error_message = some message;
}

abbrev pub adhoc_score : AdhocPatrol → AdminScoreUpdate → ℤ
adhoc_score p u = wrap_64 (p.score +ℤ u.points)

abbrev accepted : AdminScoreUpdate → AdhocPatrol → AdminPatrolResult
accepted u p = record {
  id = u.patrol_id;
  name = p.name;
  success = true;
  previous_score = p.score;
  new_score = adhoc_score p u;
  is_temporary_error = none;
  retry_after = none;
  error_message = none;
}

abbrev pub adhoc_log : ℤ → AdminScoreUpdate → AdhocPatrol → ScoreAuditLog
adhoc_log user u p = record {
  osm_user_id = user;
  section_id = pos 0;
  patrol_id = u.patrol_id;
  patrol_name = p.name;
  previous_score = p.score;
  new_score = adhoc_score p u;
  points_added = u.points;
}

-- One round of the loop: the table, the result, and the entry of the log for a success.
module _ (numerals : Numerals) (faults : AdminFaults) (user : ℤ) where
  abbrev pub Round : Type 0
  Round = AdhocTable × (AdminPatrolResult × List ScoreAuditLog)

  abbrev pub round_written : AdminScoreUpdate → AdhocPatrol → AdhocTable × Option StoreError → Round
  round_written u p (table, some e) = (table, (refused u p.name "Failed to update score", []))
  round_written u p (table, none) = (table, (accepted u p, adhoc_log user u p ∷ []))

  abbrev pub round_found : AdminScoreUpdate → ℕ → AdhocTable → StoreError ⊎ AdhocPatrol → Round
  round_found u id table (inl e) = (table, (refused u "" "Patrol not found", []))
  round_found u id table (inr p) =
      round_written u p
        (update_patrol_score (faults.adhoc_write id) id user (adhoc_score p u) table)

  abbrev pub round_parsed : AdminScoreUpdate → AdhocTable → Option ℤ → Round
  round_parsed u table none = (table, (refused u "" (append "Invalid patrol ID: " u.patrol_id), []))
  round_parsed u table (some number) =
      let id = as_id number in
      round_found u id table (find_by_id_and_user (faults.adhoc_find id) id user table)

  abbrev pub adhoc_round : AdminScoreUpdate → AdhocTable → Round
  adhoc_round u table = round_parsed u table (numerals.parse_int u.patrol_id)

  abbrev pub Loop : Type 0
  Loop = AdhocTable × Option (List AdminPatrolResult × List ScoreAuditLog)

  abbrev pub joined : AdminPatrolResult × List ScoreAuditLog → Loop → Loop
  joined entry (last, none) = (last, none)
  joined (result, logs) (last, some (results, more)) = (last, some (result ∷ results, logs ++ more))

  -- The loop: none is the answer to a number of points that is out of range, which leaves what the
  -- rounds before it have written.
  unfoldable pub adhoc_each : List AdminScoreUpdate → AdhocTable → Loop
  adhoc_each [] table = (table, some ([], []))
  adhoc_each (u ∷ us) table =
      let (table', entry) = adhoc_round u table in
      let rest = adhoc_each us table' in
      if not (in_range u) then (table, none) else joined entry rest

  abbrev pub after_loop : AdminWorld → Loop → AdminWorld × ScoresHandled
  after_loop w (table, none) =
      failed (record w { adhoc = table })
        (json_error 400 "validation_error" "Points must be between -1000 and 1000")
  after_loop w (table, some (results, logs)) =
      let logged = create_batch faults logs (record w { adhoc = table }) in
      (
        publish faults (append "adhoc:" (numerals.itoa user)) refresh_scores_message
            (record logged {
              adhoc_cache = deleted_key faults (numerals.itoa user) logged.adhoc_cache;
            }),
        answers (json 200 (updated results)),
      )

  abbrev pub adhoc_updates : AdminWorld → List AdminScoreUpdate → AdminWorld × ScoresHandled
  adhoc_updates w [] = failed w (json_error 400 "bad_request" "No updates provided")
  adhoc_updates w (u ∷ us) = after_loop w (adhoc_each (u ∷ us) w.adhoc)

  abbrev pub adhoc_body : AdminWorld → Option (List AdminScoreUpdate) → AdminWorld × ScoresHandled
  adhoc_body w none = failed w (json_error 400 "bad_request" "Invalid request body")
  adhoc_body w (some updates) = adhoc_updates w updates

  abbrev pub adhoc_token :
      AdminWorld → Option (List AdminScoreUpdate) → Option String → AdminWorld × ScoresHandled
  adhoc_token w body (some message) = failed w (json_error 403 "csrf_invalid" message)
  adhoc_token w body none = adhoc_body w body

unfoldable pub handle_update_adhoc_scores :
    Numerals
    → AdminFaults
    → AdminRequest
    → WebSession
    → Option (List AdminScoreUpdate)
    → AdminWorld
    → AdminWorld × ScoresHandled
handle_update_adhoc_scores numerals faults r s body w =
    adhoc_token numerals faults s.osm_user_id w body (validate_csrf_token r s)

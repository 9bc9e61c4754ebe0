-- ===== src/Admin/Scores.antt =====
-- The scores of internal/handlers/admin_api.go: reading and changing the points of a section of OSM
-- or of the ad-hoc section.
pub mod Adhoc
pub mod Page
pub mod Laws
pub mod Batches
pub mod Guards
use Prim.Native.String.{◌++◌ as append}
use osm_device_adapter.Prelude.{
  ℕ, String, Bool, true, false, not, ◌&&◌, ◌||◌, Option, none, some, List, [], ◌∷◌, ◌++◌, map,
  str_eq, if◌then◌else◌, all, ◌⊎◌, inl, inr,
}
use osm_device_adapter.Prelude.Int.{ℤ, pos, negsuc, ◌+ℤ◌, ◌-ℤ◌, ltb_ℤ, eq_ℤ, wrap_64}
use osm_device_adapter.Prelude.Dict.{Dict}
use osm_device_adapter.Db.Models.{WebSession, DeviceCode, AdhocPatrol, ScoreAuditLog}
use osm_device_adapter.Db.DeviceCodes.{Table, list_by_section_id}
use osm_device_adapter.Db.AdhocPatrols.{
  AdhocTable, StoreError, list_by_user, find_by_id_and_user, update_patrol_score,
}
use osm_device_adapter.Osm.Types.{PatrolScore, OsmSection, OsmProfileResponse}
use osm_device_adapter.Scores.Cache.{CachedPatrolScores}
use osm_device_adapter.Scores.Locks.{RedisLock}
use osm_device_adapter.Scores.Update.{UpdateRequest, UpdateResponse}
use osm_device_adapter.Hub.Messages.{refresh_scores_message}
use osm_device_adapter.Admin.Replies.{Answer, json, json_error, AdminRequest, validate_csrf_token}
use osm_device_adapter.Admin.Paths.{PathPart, no_match, out_of_range, part, path_part}
use osm_device_adapter.Admin.World.{AdminWorld, AdminFaults, deleted_key, publish, with_access}
use osm_device_adapter.Admin.Adhoc.{as_id}

pub record AdminScoreUpdate : Type 0 where
  pub patrol_id : String
  pub points : ℤ

pub record AdminPatrolResult : Type 0 where
  pub id : String
  pub name : String
  pub success : Bool
  pub previous_score : ℤ
  pub new_score : ℤ
  pub is_temporary_error : Option Bool
  pub retry_after : Option ℤ
  pub error_message : Option String

pub record AdminScoresResponse : Type 0 where
  pub section_id : ℤ
  pub section_name : String
  pub term_id : ℤ
  pub patrols : List PatrolScore
  pub fetched_at : ℕ

pub data ScoresReply : Type 0 where
  scores : AdminScoresResponse → ScoresReply
  updated : List AdminPatrolResult → ScoresReply

pub data ScoresHandled : Type 0 where
  answers : Answer ScoresReply → ScoresHandled
  panics : ScoresHandled

abbrev pub failed : AdminWorld → Answer ScoresReply → AdminWorld × ScoresHandled
failed w a = (w, answers a)

-- `update.Points < -1000 || update.Points > 1000`, negated.
abbrev pub in_range : AdminScoreUpdate → Bool
in_range u = not (ltb_ℤ u.points (negsuc 999) || ltb_ℤ (pos 1000) u.points)

abbrev pub or_zero : Option ℤ → ℤ
or_zero none = pos 0
or_zero (some n) = n

abbrev pub result_of : UpdateResponse → AdminPatrolResult
result_of r = record {
  id = r.patrol_id;
  name = r.patrol_name;
  success = r.success;
  previous_score = or_zero r.previous_score;
  new_score = or_zero r.new_score;
  is_temporary_error = r.is_temporary_error;
  retry_after = r.retry_after;
  error_message = r.error_message;
}

abbrev pub audited : ℤ → ℤ → UpdateResponse → Option ℤ → Option ℤ → List ScoreAuditLog
audited user section r (some previous) (some new) =
    if r.success
    then record {
      osm_user_id = user;
      section_id = section;
      patrol_id = r.patrol_id;
      patrol_name = r.patrol_name;
      previous_score = previous;
      new_score = new;
      points_added = wrap_64 (new -ℤ previous);
    }
      ∷ []
    else []
audited user section r previous new = []

abbrev pub audit_logs : ℤ → ℤ → List UpdateResponse → List ScoreAuditLog
audit_logs user section [] = []
audit_logs user section (r ∷ rs) =
    audited user section r r.previous_score r.new_score ++ audit_logs user section rs

-- `scoreaudit.CreateBatch`, whose error is only logged.
abbrev pub create_batch : AdminFaults → List ScoreAuditLog → AdminWorld → AdminWorld
create_batch faults logs w = if faults.audit then w else record w { audit = logs ++ w.audit }

-- The caches of the section's devices, if they can be listed.
abbrev pub deleted_keys : AdminFaults → Table → Dict CachedPatrolScores → Dict CachedPatrolScores
deleted_keys faults [] cache = cache
deleted_keys faults (d ∷ ds) cache = deleted_keys faults ds (deleted_key faults d.device_code cache)

unfoldable pub invalidate_section : AdminFaults → ℤ → AdminWorld → AdminWorld
invalidate_section faults section w = if faults.list_devices then w else record w {
  score_cache = deleted_keys faults (list_by_section_id section w.codes) w.score_cache;
}

-- What the term and the patrols of a section are in OSM, none for an error; and `UpdateScores` of
-- the score service, none for its error, with the locks that it leaves.
pub record ScoreService : Type 0 where
  pub term : ℤ → Option ℤ
  pub patrols : ℤ → ℤ → Option (List PatrolScore)
  pub update :
      ℤ → List UpdateRequest → Dict RedisLock → Option (List UpdateResponse) × Dict RedisLock

-- `strconv.Itoa`, and `strconv.ParseInt` and `strconv.Atoi`, none for their errors.
pub record Numerals : Type 0 where
  pub itoa : ℤ → String
  pub parse_int : String → Option ℤ

abbrev pub request_of : AdminScoreUpdate → UpdateRequest
request_of u = record { patrol_id = u.patrol_id; delta = u.points }

module _ (numerals : Numerals) (faults : AdminFaults) (service : ScoreService) (now : ℕ) where
  abbrev with_patrols :
      AdminWorld → OsmSection → ℤ → ℤ → Option (List PatrolScore) → AdminWorld × ScoresHandled
  with_patrols w s section term none =
      failed w (json_error 502 "osm_error" "Failed to fetch patrol scores")
  with_patrols w s section term (some patrols) = failed w (
      json 200 (
        scores (record {
          section_id = section;
          section_name = s.section_name;
          term_id = term;
          patrols = patrols;
          fetched_at = now;
        })))

  abbrev with_term : AdminWorld → OsmSection → ℤ → Option ℤ → AdminWorld × ScoresHandled
  with_term w s section none =
      failed w (json_error 502 "osm_error" "Failed to determine current term")
  with_term w s section (some term) = with_patrols w s section term (service.patrols section term)

  abbrev pub handle_get_scores : ℤ → OsmSection → AdminWorld → AdminWorld × ScoresHandled
  handle_get_scores section s w = with_term w s section (service.term section)

  -- What follows the call of the score service.
  abbrev pub after_update :
      ℤ
      → ℤ
      → AdminWorld
      → Option (List UpdateResponse) × Dict RedisLock
      → AdminWorld × ScoresHandled
  after_update user section w (none, locks) =
      failed (record w { locks = locks }) (json_error 502 "osm_error" "Failed to update scores")
  after_update user section w (some responses, locks) = (
    publish faults (append "section:" (numerals.itoa section)) refresh_scores_message (
        invalidate_section faults section
          (create_batch faults (audit_logs user section responses) (record w { locks = locks }))),
    answers (json 200 (updated (map result_of responses))),
  )

  abbrev update_checked : ℤ → ℤ → List AdminScoreUpdate → AdminWorld → AdminWorld × ScoresHandled
  update_checked user section [] w = failed w (json_error 400 "bad_request" "No updates provided")
  update_checked user section (u ∷ us) w =
      if not (all in_range (u ∷ us))
      then failed w (json_error 400 "validation_error" "Points must be between -1000 and 1000")
      else after_update user section w (service.update section (map request_of (u ∷ us)) w.locks)

  abbrev update_body :
      ℤ → ℤ → AdminWorld → Option (List AdminScoreUpdate) → AdminWorld × ScoresHandled
  update_body user section w none = failed w (json_error 400 "bad_request" "Invalid request body")
  update_body user section w (some updates) = update_checked user section updates w

  abbrev pub handle_update_scores :
      AdminRequest
      → WebSession
      → ℤ
      → Option (List AdminScoreUpdate)
      → AdminWorld
      → AdminWorld × ScoresHandled
  handle_update_scores r s section body w =
      if str_eq r.x_csrf_token ""
      then failed w (json_error 403 "csrf_required" "CSRF token required")
      else if not (str_eq r.x_csrf_token s.csrf_token)
      then failed w (json_error 403 "csrf_invalid" "Invalid CSRF token")
      else update_body s.osm_user_id section w body

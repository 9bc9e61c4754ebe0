-- ===== src/Admin/Scores/Laws.antt =====
-- What the score pages of internal/handlers/admin_api.go leave.
use Prim.Native.String.{◌++◌ as append}
use osm_device_adapter.Prelude.{
  ℕ, ◌≡◌, refl, String, true, false, none, some, List, [], ◌∷◌, ◌++◌, map, arith, str_eq, eq_refl,
  all, All, if_both, filter, Bool, ◌&&◌, if◌then◌else◌, sym, Option,
}
use osm_device_adapter.Prelude.Int.{ℤ, ◌-ℤ◌, wrap_64}
use osm_device_adapter.Prelude.Dict.{Dict, lookup, lookup-erase}
use osm_device_adapter.Db.Models.{WebSession, ScoreAuditLog, authorized, status_eq}
use osm_device_adapter.Db.DeviceCodes.{Table, is_number, list_by_section_id}
use osm_device_adapter.Scores.Cache.{CachedPatrolScores}
use osm_device_adapter.Scores.Locks.{RedisLock}
use osm_device_adapter.Scores.Update.{UpdateResponse}
use osm_device_adapter.Hub.Messages.{refresh_scores_message}
use osm_device_adapter.Admin.Replies.{json, AdminRequest, validate_csrf_token}
use osm_device_adapter.Admin.World.{AdminWorld, AdminFaults, deleted_key}
use osm_device_adapter.Admin.Scores.{
  AdminScoreUpdate, result_of, updated, ScoresHandled, answers, in_range, or_zero, audited,
  audit_logs, deleted_keys, invalidate_section, ScoreService, Numerals, request_of,
  handle_update_scores,
}

-- A key that has been deleted stays deleted.
deleted_keys-gone :
    (faults : AdminFaults) (key : String) (ds : Table) (cache : Dict CachedPatrolScores)
    → lookup key cache ≡ none
    → lookup key (deleted_keys faults ds cache) ≡ none
deleted_keys-gone faults key [] cache gone = gone
deleted_keys-gone faults key (d ∷ ds) cache gone =
    deleted_keys-gone faults key ds (deleted_key faults d.device_code cache) (
      if_both (λ (c : Dict CachedPatrolScores). lookup key c ≡ none) (faults.del d.device_code) gone
        (ground (arith, gone, lookup-erase d.device_code key cache)))

-- The deletion of the keys of some devices leaves none of them.
deleted_keys-All :
    (faults : AdminFaults) (ds : Table) (cache : Dict CachedPatrolScores)
    → All (λ d. faults.del d.device_code ≡ false) ds
    → All (λ d. lookup d.device_code (deleted_keys faults ds cache) ≡ none) ds
deleted_keys-All faults [] cache works = tt
deleted_keys-All faults (d ∷ ds) cache (here, works) = (
  deleted_keys-gone faults d.device_code ds (deleted_key faults d.device_code cache)
      (rw (here, lookup-erase d.device_code d.device_code cache, eq_refl d.device_code)),
  deleted_keys-All faults ds (deleted_key faults d.device_code cache) works,
)

csrf_tests :
    (r : AdminRequest) (s : WebSession)
    → validate_csrf_token r s ≡ none
    → (str_eq r.x_csrf_token "" ≡ false) × (str_eq r.x_csrf_token s.csrf_token ≡ true)
unfolding validate_csrf_token
csrf_tests r s token = (ground (arith, token), ground (arith, token))

-- The entry of the log for an update, and which updates have one: those that succeeded and say the
-- score before and after.
abbrev pub log_entry : ℤ → ℤ → UpdateResponse → ScoreAuditLog
log_entry user section r = record {
  osm_user_id = user;
  section_id = section;
  patrol_id = r.patrol_id;
  patrol_name = r.patrol_name;
  previous_score = or_zero r.previous_score;
  new_score = or_zero r.new_score;
  points_added = wrap_64 (or_zero r.new_score -ℤ or_zero r.previous_score);
}

abbrev pub has_number : Option ℤ → Bool
has_number none = false
has_number (some n) = true

abbrev pub is_logged : UpdateResponse → Bool
is_logged r = r.success && (has_number r.previous_score && has_number r.new_score)

audited_lem :
    (user section : ℤ) (r : UpdateResponse) (previous new : Option ℤ) (rest : List ScoreAuditLog)
    → r.previous_score ≡ previous
    → r.new_score ≡ new
    → audited user section r previous new ++ rest ≡ (
        if r.success && (has_number previous && has_number new)
        then log_entry user section r ∷ rest
        else rest)
audited_lem user section r none new rest e e' = ground arith
audited_lem user section r (some a) none rest e e' = ground arith
audited_lem user section r (some a) (some b) rest e e' = chosen r.success
  where
    chosen :
        (s : Bool)
        → (if s
              then record (log_entry user section r) {
                previous_score = a;
                new_score = b;
                points_added = wrap_64 (b -ℤ a);
              }
                ∷ []
              else [])
            ++ rest
          ≡ (if s && true then log_entry user section r ∷ rest else rest)
    chosen true = rw (e, e') refl
    chosen false = refl

audit_logs_lem :
    (user section : ℤ) (rs : List UpdateResponse)
    → audit_logs user section rs ≡ map (log_entry user section) (filter is_logged rs)
audit_logs_lem user section [] = refl
audit_logs_lem user section (r ∷ rs) =
    rw
      (
        audited_lem user section r r.previous_score r.new_score (audit_logs user section rs) refl
            refl,
        audit_logs_lem user section rs,
      )
      (ground arith)

-- The authorized devices of a section.
abbrev pub section_devices : ℤ → Table → Table
section_devices section codes =
    filter (λ d. is_number section d.section_id && status_eq d.status authorized) codes

-- What an update leaves and answers: none of the authorized devices of the section has cached
-- scores, the section is told to refresh, an entry for each success is in front of the log, and
-- the answer has a result for each response.
abbrev pub IsUpdated :
    Numerals
    → WebSession
    → ℤ
    → AdminWorld
    → List UpdateResponse
    → AdminWorld × ScoresHandled
    → Type 0
IsUpdated numerals s section w responses (after, answer) =
    All (λ d. lookup d.device_code after.score_cache ≡ none) (section_devices section w.codes)
    × ((after.published
          ≡ w.published ++ (append "section:" (numerals.itoa section), refresh_scores_message) ∷ [])
        × ((after.audit
              ≡ map (log_entry s.osm_user_id section) (filter is_logged responses) ++ w.audit)
            × (answer ≡ answers (json 200 (updated (map result_of responses))))))

-- After an update that the score service has carried out, where the devices can be listed, their
-- cached scores deleted, the log written and the message published: the section is told to
-- refresh, the log has in front one entry for each success, with its two scores and their
-- difference, and no authorized device of the section has cached scores.
pub handle_update_scores-fresh :
    (numerals : Numerals) (faults : AdminFaults) (service : ScoreService) (now : ℕ)
    (r : AdminRequest) (s : WebSession) (section : ℤ) (u : AdminScoreUpdate)
    (us : List AdminScoreUpdate) (w : AdminWorld) (responses : List UpdateResponse)
    (locks : Dict RedisLock)
    → validate_csrf_token r s ≡ none
    → all in_range (u ∷ us) ≡ true
    → service.update section (map request_of (u ∷ us)) w.locks ≡ (some responses, locks)
    → faults.list_devices ≡ false
    → All (λ d. faults.del d.device_code ≡ false) (list_by_section_id section w.codes)
    → faults.audit ≡ false
    → faults.has_hub ≡ true
    → faults.publish ≡ false
    → IsUpdated numerals s section w responses
        (handle_update_scores numerals faults service now r s section (some (u ∷ us)) w)
unfolding invalidate_section list_by_section_id
handle_update_scores-fresh numerals faults service now r s section u us w responses locks token good
      done lists works audits hub published =
    let tested = csrf_tests r s token in
    rw
      (
        tested.0,
        tested.1,
        good,
        done,
        lists,
        audits,
        hub,
        published,
        sym (audit_logs_lem s.osm_user_id section responses),
      )
      (
        deleted_keys-All faults (list_by_section_id section w.codes) w.score_cache works,
        (refl, (refl, refl)),
      )

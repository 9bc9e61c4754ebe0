-- ===== src/Admin/Scores/Batches.antt =====
-- The loop over the updates of the ad-hoc section in internal/handlers/admin_api.go.
use osm_device_adapter.Prelude.{
  ℕ, String, ◌≡◌, refl, ap, true, false, Option, none, some, List, [], ◌∷◌, ◌++◌, map, arith,
  if◌then◌else◌, all, filter, ◌⊎◌, inl, inr,
}
use osm_device_adapter.Prelude.Int.{ℤ}
use osm_device_adapter.Db.Models.{WebSession, AdhocPatrol, ScoreAuditLog}
use osm_device_adapter.Db.AdhocPatrols.{
  AdhocTable, StoreError, find_by_id_and_user, update_patrol_score,
}
use osm_device_adapter.Admin.Replies.{json, json_error, AdminRequest, validate_csrf_token}
use osm_device_adapter.Admin.World.{AdminWorld, AdminFaults}
use osm_device_adapter.Admin.Adhoc.{as_id}
use osm_device_adapter.Admin.Scores.{
  AdminScoreUpdate, AdminPatrolResult, updated, ScoresHandled, answers, in_range, Numerals,
}
use osm_device_adapter.Admin.Scores.Adhoc.{
  Loop, after_loop, joined, round_written, round_found, round_parsed, adhoc_score, adhoc_round,
  adhoc_each, handle_update_adhoc_scores,
}

-- What a result and an entry of the log say: the patrol, its score before and its score after.
abbrev pub result_scores : AdminPatrolResult → String × (ℤ × ℤ)
result_scores r = (r.id, (r.previous_score, r.new_score))

abbrev pub log_scores : ScoreAuditLog → String × (ℤ × ℤ)
log_scores l = (l.patrol_id, (l.previous_score, l.new_score))

-- What a loop that ends well has for each update.
abbrev pub IsAnswered :
    List AdminScoreUpdate → Option (List AdminPatrolResult × List ScoreAuditLog) → Type 0
IsAnswered us none = ⊥
IsAnswered us (some (results, logs)) =
    (map (λ (r : AdminPatrolResult). r.id) results ≡ map (λ (u : AdminScoreUpdate). u.patrol_id) us)
    × (map log_scores logs
        ≡ map result_scores (filter (λ (r : AdminPatrolResult). r.success) results))

abbrev IsEntry : AdminScoreUpdate → AdminPatrolResult × List ScoreAuditLog → Type 0
IsEntry u (result, logs) =
    (result.id ≡ u.patrol_id)
    × (map log_scores logs ≡ (if result.success then result_scores result ∷ [] else []))

map-append_scores :
    (logs more : List ScoreAuditLog)
    → map log_scores (logs ++ more) ≡ map log_scores logs ++ map log_scores more
map-append_scores [] more = refl
map-append_scores (l ∷ logs) more = ap (λ ids. log_scores l ∷ ids) (map-append_scores logs more)

module _ (numerals : Numerals) (faults : AdminFaults) (user : ℤ) where
  written-IsEntry :
      (u : AdminScoreUpdate) (p : AdhocPatrol) (o : AdhocTable × Option StoreError)
      → IsEntry u (round_written numerals faults user u p o).1
  written-IsEntry u p (table, some e) = (refl, refl)
  written-IsEntry u p (table, none) = (refl, refl)

  found-IsEntry :
      (u : AdminScoreUpdate) (id : ℕ) (table : AdhocTable) (o : StoreError ⊎ AdhocPatrol)
      → IsEntry u (round_found numerals faults user u id table o).1
  found-IsEntry u id table (inl e) = (refl, refl)
  found-IsEntry u id table (inr p) =
      written-IsEntry u p
        (update_patrol_score (faults.adhoc_write id) id user (adhoc_score p u) table)

  parsed-IsEntry :
      (u : AdminScoreUpdate) (table : AdhocTable) (o : Option ℤ)
      → IsEntry u (round_parsed numerals faults user u table o).1
  parsed-IsEntry u table none = (refl, refl)
  parsed-IsEntry u table (some number) =
      found-IsEntry u (as_id number) table
        (find_by_id_and_user (faults.adhoc_find (as_id number)) (as_id number) user table)

  joined-IsAnswered :
      (u : AdminScoreUpdate) (us : List AdminScoreUpdate)
      (entry : AdminPatrolResult × List ScoreAuditLog)
      (rest : AdhocTable × Option (List AdminPatrolResult × List ScoreAuditLog))
      → IsEntry u entry
      → IsAnswered us rest.1
      → IsAnswered (u ∷ us) (joined numerals faults user entry rest).1
  joined-IsAnswered u us (result, logs) (last, none) (same, logged) answered = answered
  joined-IsAnswered u us (result, logs) (last, some (results, more)) (same, logged) (ids, log_ids) =
      (
        ground (arith, same, ids),
        ground (arith, same, logged, log_ids, map-append_scores logs more),
      )

  -- Whatever fails: the loop over a batch whose points are all in range has a result for every
  -- update, in its order, and an entry for the log for each success, in the same order.
  pub adhoc_each-IsAnswered :
      (us : List AdminScoreUpdate) (table : AdhocTable)
      → all in_range us ≡ true
      → IsAnswered us (adhoc_each numerals faults user us table).1
  unfolding adhoc_each
  adhoc_each-IsAnswered [] table good = (refl, refl)
  adhoc_each-IsAnswered (u ∷ us) table good =
      let here : in_range u ≡ true = ground (arith, good) in
      let rest : all in_range us ≡ true = ground (arith, good) in
      let round = adhoc_round numerals faults user u table in
      rw here (
        joined-IsAnswered u us round.1 (adhoc_each numerals faults user us round.0)
          (parsed-IsEntry u table (numerals.parse_int u.patrol_id))
          (adhoc_each-IsAnswered us round.0 rest))

-- The answer to a batch, and the entries that the log has got in front.
abbrev pub IsBatched : List AdminScoreUpdate → AdminWorld → AdminWorld × ScoresHandled → Type 0
IsBatched us w (after, answer) =
    (results : List AdminPatrolResult) × ((logs : List ScoreAuditLog) × (IsAnswered us
          (some (results, logs))
        × ((answer ≡ answers (json 200 (updated results))) × (after.audit ≡ logs ++ w.audit))))

after_loop-IsBatched :
    (numerals : Numerals) (faults : AdminFaults) (user : ℤ) (us : List AdminScoreUpdate)
    (w : AdminWorld) (loop : Loop numerals faults user)
    → faults.audit ≡ false
    → IsAnswered us loop.1
    → IsBatched us w (after_loop numerals faults user w loop)
after_loop-IsBatched numerals faults user us w (table, none) works answered = elim answered [ ]
after_loop-IsBatched numerals faults user us w (table, some (results, logs)) works answered =
    (results, (logs, (answered, (refl, rw works (ground arith)))))

-- A batch that is not empty, with the CSRF token and points that are all in range, is answered with
-- 200 and one result for each update, in its order, whatever becomes of the updates; and where the
-- log can be written, it gets in front one entry for each success, in the same order, with the
-- patrol and the two scores of the result, and none for a failure.
pub handle_update_adhoc_scores-IsBatched :
    (numerals : Numerals) (faults : AdminFaults) (r : AdminRequest) (s : WebSession)
    (u : AdminScoreUpdate) (us : List AdminScoreUpdate) (w : AdminWorld)
    → validate_csrf_token r s ≡ none
    → all in_range (u ∷ us) ≡ true
    → faults.audit ≡ false
    → IsBatched (u ∷ us) w (handle_update_adhoc_scores numerals faults r s (some (u ∷ us)) w)
unfolding handle_update_adhoc_scores
handle_update_adhoc_scores-IsBatched numerals faults r s u us w token good works = rw token (
    after_loop-IsBatched numerals faults s.osm_user_id (u ∷ us) w
      (adhoc_each numerals faults s.osm_user_id (u ∷ us) w.adhoc) works
      (adhoc_each-IsAnswered numerals faults s.osm_user_id (u ∷ us) w.adhoc good))

-- A number of points that is out of range, behind one that is not: the request is refused with
-- 400, but the update before it stays written, without an entry in the log, with the old scores
-- still cached and nobody told.
pub handle_update_adhoc_scores_partial :
    (numerals : Numerals) (faults : AdminFaults) (r : AdminRequest) (s : WebSession)
    (u v : AdminScoreUpdate) (us : List AdminScoreUpdate) (w : AdminWorld)
    → validate_csrf_token r s ≡ none
    → in_range u ≡ true
    → in_range v ≡ false
    → handle_update_adhoc_scores numerals faults r s (some (u ∷ v ∷ us)) w ≡ (
      record w { adhoc = (adhoc_round numerals faults s.osm_user_id u w.adhoc).0 },
      answers (json_error 400 "validation_error" "Points must be between -1000 and 1000"),
    )
unfolding handle_update_adhoc_scores adhoc_each
handle_update_adhoc_scores_partial numerals faults r s u v us w token good bad =
    rw (token, good, bad)

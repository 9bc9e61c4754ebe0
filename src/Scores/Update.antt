-- ===== src/Scores/Update.antt =====
-- internal/services/scoreupdateservice/score_update_service.go: the updates that one request makes,
-- under the locks on its patrols.
pub mod Laws
use osm_device_adapter.Prelude.{
  ℕ, ◌+◌, ◌*◌, String, Bool, true, false, not, Option, none, some, List, [], ◌∷◌, ◌++◌, find?, map,
  str_eq, if◌then◌else◌,
}
use osm_device_adapter.Prelude.Int.{ℤ, pos, ◌+ℤ◌, wrap_64}
use osm_device_adapter.Prelude.Dict.{Dict}
use osm_device_adapter.Db.Models.{second, hour}
use osm_device_adapter.Osm.Types.{PatrolScore}
use osm_device_adapter.Osm.Request.{
  OsmError, service_blocked, user_blocked, unauthorized, other_error,
}
use osm_device_adapter.Osm.Terms.{TermInfo}
use osm_device_adapter.Scores.Locks.{
  LockSet, RedisLock, new_patrol_lock_set, add_patrols, acquire, is_held, release, internal_key,
}

pub record UpdateRequest : Type 0 where
  pub patrol_id : String
  pub delta : ℤ

pub record UpdateResponse : Type 0 where
  pub patrol_id : String
  pub patrol_name : String
  pub success : Bool
  pub is_temporary_error : Option Bool
  pub retry_after : Option ℤ
  pub error_message : Option String
  pub previous_score : Option ℤ
  pub new_score : Option ℤ

abbrev pub new_patrol_not_found_response : UpdateRequest → UpdateResponse
new_patrol_not_found_response r = record {
  patrol_id = r.patrol_id;
  patrol_name = "";
  success = false;
  is_temporary_error = some false;
  retry_after = none;
  error_message = some "Patrol not found";
  previous_score = none;
  new_score = none;
}

abbrev pub new_locked_update_response : ℕ → UpdateRequest → PatrolScore → UpdateResponse
new_locked_update_response now r current = record {
  patrol_id = r.patrol_id;
  patrol_name = current.name;
  success = false;
  is_temporary_error = some true;
  retry_after = some (pos (now + 30 * second));
  error_message = some "Patrol is being updated by another user. Please try again later.";
  previous_score = some current.score;
  new_score = some current.score;
}

-- The retry time and whether the error is temporary, by its kind.
abbrev pub error_retry : ℕ → OsmError → ℤ
error_retry now (user_blocked until) = until
error_retry now service_blocked = pos (now + 6 * hour)
error_retry now unauthorized = pos (now + 60 * second)
error_retry now other_error = pos (now + 60 * second)

abbrev pub is_temporary : OsmError → Bool
is_temporary unauthorized = false
is_temporary service_blocked = true
is_temporary (user_blocked until) = true
is_temporary other_error = true

-- `message` is `err.Error()`.
abbrev pub new_osm_error_update_response :
    ℕ → UpdateRequest → PatrolScore → OsmError → String → UpdateResponse
new_osm_error_update_response now r current err message = record {
  patrol_id = r.patrol_id;
  patrol_name = current.name;
  success = false;
  is_temporary_error = some (is_temporary err);
  retry_after = some (error_retry now err);
  error_message = some message;
  previous_score = some current.score;
  new_score = some current.score;
}

abbrev pub find_patrol_score : List PatrolScore → String → Option PatrolScore
find_patrol_score scores patrol_id = find? (λ s. str_eq s.id patrol_id) scores

abbrev pub abandoned : UpdateRequest → UpdateResponse → Option PatrolScore → UpdateResponse
abandoned r model none = new_patrol_not_found_response r
abandoned r model (some current) = record {
  patrol_id = r.patrol_id;
  patrol_name = current.name;
  success = model.success;
  is_temporary_error = model.is_temporary_error;
  retry_after = model.retry_after;
  error_message = model.error_message;
  previous_score = some current.score;
  new_score = some current.score;
}

-- `abandonRemainingWork`, on the requests from the failed one on.
unfoldable pub abandon_remaining_work :
    List UpdateRequest → List PatrolScore → UpdateResponse → List UpdateResponse
abandon_remaining_work [] scores model = []
abandon_remaining_work (r ∷ rs) scores model =
    abandoned r model (find_patrol_score scores r.patrol_id)
    ∷ abandon_remaining_work rs scores model

abbrev pub updated : UpdateRequest → PatrolScore → ℤ → UpdateResponse
updated r current new = record {
  patrol_id = r.patrol_id;
  patrol_name = current.name;
  success = true;
  is_temporary_error = none;
  retry_after = none;
  error_message = none;
  previous_score = some current.score;
  new_score = some new;
}

-- The calls of `UpdatePatrolScore`, the first one first.
abbrev pub Writes : Type 0
Writes = List (String × ℤ)

-- The sum of two Go ints.
abbrev pub new_score_of : PatrolScore → UpdateRequest → ℤ
new_score_of current r = wrap_64 (current.score +ℤ r.delta)

-- `osm` is what the call of `UpdatePatrolScore` that comes after the others gives: none, or its
-- error with the error's text.
module _ (osm : Writes → String × ℤ → Option (OsmError × String)) (now : ℕ) where
  -- The responses, and the calls made, these last ones included.
  abbrev pub and_then : UpdateResponse → List UpdateResponse × Writes → List UpdateResponse × Writes
  and_then response (responses, writes) = (response ∷ responses, writes)

  -- The patrol has been found and its lock is held.
  abbrev pub written :
      UpdateRequest
      → List UpdateRequest
      → List PatrolScore
      → PatrolScore
      → List UpdateResponse × Writes
      → Writes
      → Option (OsmError × String)
      → List UpdateResponse × Writes
  written r rs scores current rest writes none =
      and_then (updated r current (new_score_of current r)) rest
  written r rs scores current rest writes (some (err, message)) = (
    abandon_remaining_work (r ∷ rs) scores
        (new_osm_error_update_response now r current err message),
    writes,
  )

  -- One round: `rest` is what the rounds after it give without, `rest'` with a call of this one.
  abbrev pub updated_one :
      Bool
      → UpdateRequest
      → List UpdateRequest
      → List PatrolScore
      → List UpdateResponse × Writes
      → List UpdateResponse × Writes
      → Writes
      → Option PatrolScore
      → List UpdateResponse × Writes
  updated_one held r rs scores rest rest' writes none =
      and_then (new_patrol_not_found_response r) rest
  updated_one held r rs scores rest rest' writes (some current) =
      if not held
      then and_then (new_locked_update_response now r current) rest
      else written r rs scores current rest' (writes ++ (r.patrol_id, new_score_of current r) ∷ [])
          (osm writes (r.patrol_id, new_score_of current r))

  abbrev pub write_of : UpdateRequest → Option PatrolScore → Writes
  write_of r none = []
  write_of r (some current) = (r.patrol_id, new_score_of current r) ∷ []

  -- The loop of `UpdateScores`; `held` is `locks.IsHeld` for the section.
  unfoldable pub update_each :
      (String → Bool)
      → List PatrolScore
      → List UpdateRequest
      → Writes
      → List UpdateResponse × Writes
  update_each held scores [] writes = ([], writes)
  update_each held scores (r ∷ rs) writes =
      let current = find_patrol_score scores r.patrol_id in
      updated_one (held r.patrol_id) r rs scores (update_each held scores rs writes)
        (update_each held scores rs (writes ++ write_of r current)) writes current

-- How the calls before the loop end.
pub record Preparation : Type 0 where
  pub term : Option TermInfo
  pub redis_fails : String → Bool
  pub scores : Option (List PatrolScore)
  pub release_fails : String → Bool

-- `UpdateScores`: none for an error, with Redis and the calls made. The locks that were taken are
-- given back when the function returns, unless `Acquire` itself gave an error.
module _ (osm : Writes → String × ℤ → Option (OsmError × String)) (itoa : ℤ → String) where
  abbrev pub finished :
      Option (List UpdateResponse)
      → Writes
      → ℕ
      → Preparation
      → LockSet
      → Dict RedisLock
      → (Option (List UpdateResponse) × Writes) × Dict RedisLock
  finished responses writes now prep locks redis =
      ((responses, writes), (release now prep.release_fails locks redis).0.1)

  abbrev pub locked :
      ℕ
      → ℤ
      → List UpdateRequest
      → Preparation
      → (LockSet × Dict RedisLock) × Bool
      → Option (List PatrolScore)
      → (Option (List UpdateResponse) × Writes) × Dict RedisLock
  locked now section_id requests prep ((locks, redis), false) scores = ((none, []), redis)
  locked now section_id requests prep ((locks, redis), true) none =
      finished none [] now prep locks redis
  locked now section_id requests prep ((locks, redis), true) (some scores) =
      let held : String → Bool =
        (λ patrol_id. is_held (internal_key itoa section_id patrol_id) locks) in
      let (responses, writes) = update_each osm now held scores requests [] in
      finished (some responses) writes now prep locks redis

  abbrev pub lock_ttl : ℕ
  lock_ttl = 60 * second

  abbrev pub with_term :
      ℕ
      → String
      → ℤ
      → List UpdateRequest
      → Preparation
      → Dict RedisLock
      → Option TermInfo
      → (Option (List UpdateResponse) × Writes) × Dict RedisLock
  with_term now lock_value section_id requests prep redis none = ((none, []), redis)
  with_term now lock_value section_id requests prep redis (some term) =
      let keys = map (λ (r : UpdateRequest). internal_key itoa section_id r.patrol_id) requests in
      let locks = add_patrols keys (new_patrol_lock_set lock_value lock_ttl) in
      locked now section_id requests prep (acquire now prep.redis_fails locks redis) prep.scores

  -- `lock_value` is the text of the time and the user's id.
  unfoldable pub update_scores :
      ℕ
      → String
      → ℤ
      → List UpdateRequest
      → Preparation
      → Dict RedisLock
      → (Option (List UpdateResponse) × Writes) × Dict RedisLock
  update_scores now lock_value section_id requests prep redis =
      with_term now lock_value section_id requests prep redis prep.term

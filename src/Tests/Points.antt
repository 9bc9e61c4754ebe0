-- ===== src/Tests/Points.antt =====
-- The scores: locks, updates and the cache.
use osm_device_adapter.Prelude.{
  ◌*◌, ◌≡◌, refl, String, Bool, true, false, Option, none, some, List, [], ◌∷◌, arith, ◌⊎◌, inl,
  inr,
}
use osm_device_adapter.Prelude.Int.{ℤ, pos, negsuc, ◌+ℤ◌, wrap_64}
use osm_device_adapter.Prelude.Dict.{lookup, insert}
use osm_device_adapter.Db.Models.{second, minute}
use osm_device_adapter.Osm.Types.{PatrolScore}
use osm_device_adapter.Osm.Request.{OsmError, UserRateLimitInfo, service_blocked, other_error}
use osm_device_adapter.Scores.Locks.{
  RedisLock, LockSet, find_lock, acquire, acquire_all, add_patrols, add_patrol, set_nx, is_held,
  internal_key,
}
use osm_device_adapter.Scores.Locks.Laws.{acquire_exclusive}
use osm_device_adapter.Scores.Update.{
  UpdateRequest, UpdateResponse, Writes, Preparation, update_each, update_scores,
  abandon_remaining_work,
}
use osm_device_adapter.Scores.Update.Laws.{
  response_ids, IsDone, planned, holds, taken_locks, update_scores_lem, update_each_duplicate,
}
use osm_device_adapter.Scores.Cache.{
  CachedPatrolScores, PatrolScoreResponse, no_limit, service_block, serves, from_cached,
  get_patrol_scores,
}
use osm_device_adapter.Scores.Cache.Laws.{
  IsServed, IsCurrent, get_patrol_scores-IsServed, get_patrol_scores_again,
  get_patrol_scores-IsCurrent,
}

abbrev no_failure : String → Bool
no_failure key = false

abbrev locks_of : String → LockSet
locks_of value = record { ttl = minute; lock_value = value; held = ("eagles", false) ∷ [] }

acquire_exclusive_example :
    is_held "eagles"
      (acquire
        (2 * second)
        no_failure
        (locks_of "two")
        (acquire second no_failure (locks_of "one") []).0.1).0.0
    ≡ false
unfolding acquire acquire_all set_nx find_lock lookup insert is_held
acquire_exclusive_example =
    acquire_exclusive no_failure no_failure second (2 * second) (locks_of "one") (locks_of "two") []
      "eagles" (omega arith) (omega arith) refl refl refl

abbrev others_lock : RedisLock
others_lock = record { value = "two"; expires = 2 * minute }

abbrev eagles : PatrolScore
eagles = record { id = "eagles"; name = "Eagles"; score = pos 10 }

abbrev lions : PatrolScore
lions = record { id = "lions"; name = "Lions"; score = pos 4 }

abbrev change : String → ℤ → UpdateRequest
change id d = record { patrol_id = id; delta = d }

abbrev requests : List UpdateRequest
requests = change "eagles" (pos 5) ∷ change "bears" (pos 1) ∷ change "lions" (negsuc 0) ∷ []

abbrev prep : Preparation
prep = record {
  term = some (record { term_id = pos 3; end_date = 0; user_id = pos 7 });
  redis_fails = no_failure;
  scores = some (eagles ∷ lions ∷ []);
  release_fails = no_failure;
}

-- OSM takes the first write only.
abbrev osm : Writes → String × ℤ → Option (OsmError × String)
osm [] w = none
osm (x ∷ xs) w = some (other_error, "refused")

abbrev itoa : ℤ → String
itoa n = "42"

abbrev answers : List UpdateResponse
answers = (update_each osm second (λ id. true) (eagles ∷ lions ∷ []) requests []).0

update_scores_example :
    (response_ids answers ≡ "eagles" ∷ "bears" ∷ "lions" ∷ [])
    × IsDone osm []
        (planned
          (holds osm itoa (pos 42) (taken_locks osm itoa second "one" (pos 42) requests prep []))
          (eagles ∷ lions ∷ [])
          requests)
        (answers, (update_scores osm itoa second "one" (pos 42) requests prep []).0.1)
unfolding update_scores add_patrols add_patrol acquire acquire_all set_nx find_lock lookup insert
    is_held internal_key update_each ◌+ℤ◌ wrap_64 abandon_remaining_work
update_scores_example =
    update_scores_lem osm itoa second "one" (pos 42) requests prep [] (eagles ∷ lions ∷ []) answers
      refl refl

update_each_duplicate_example :
    (update_each
      (λ ws w. none)
      second
      (λ id. true)
      (eagles ∷ [])
      (change "eagles" (pos 5) ∷ change "eagles" (pos 2) ∷ [])
      []).1
    ≡ ("eagles", pos 15) ∷ ("eagles", pos 12) ∷ []
unfolding ◌+ℤ◌ wrap_64
update_each_duplicate_example =
    update_each_duplicate second (λ id. true) (eagles ∷ []) eagles "eagles" (pos 5) (pos 2) refl
      refl

abbrev old_scores : CachedPatrolScores
old_scores = record {
  patrols = eagles ∷ [];
  cached_at = second;
  valid_until = minute;
  rate_limit_state = no_limit;
}

abbrev fails_always : ℤ → (List PatrolScore × UserRateLimitInfo) ⊎ OsmError
fails_always term = inr service_blocked

get_patrol_scores-IsServed_example :
    IsServed {S = String} old_scores (inr service_blocked) (
      get_patrol_scores (2 * minute) (2 * minute) none (some old_scores) (inl (pos 3)) fails_always)
get_patrol_scores-IsServed_example =
    get_patrol_scores-IsServed (2 * minute) (2 * minute) none old_scores (inl (pos 3)) fails_always

abbrev no_settings : Option String
no_settings = none

abbrev kept_scores : CachedPatrolScores
kept_scores = record {
  patrols = eagles ∷ [];
  cached_at = second;
  valid_until = 12 * minute;
  rate_limit_state = no_limit;
}

abbrev stale_answer : PatrolScoreResponse String
stale_answer = record {
  scores = eagles ∷ [];
  from_cache = true;
  scores_cached_at = second;
  cache_expires_at = 12 * minute;
  state = service_block;
  settings = none;
}

get_patrol_scores_again_example :
    (get_patrol_scores
        (3 * minute)
        (3 * minute)
        no_settings
        (some kept_scores)
        (inl (pos 3))
        fails_always
      ≡ serves (from_cached kept_scores (12 * minute) no_limit no_settings) none)
    × (eagles ∷ [] ≡ eagles ∷ [])
unfolding get_patrol_scores
get_patrol_scores_again_example =
    get_patrol_scores_again (2 * minute) (2 * minute) (3 * minute) (3 * minute) none none
      (some old_scores) (inl (pos 3)) (inl (pos 3)) fails_always fails_always stale_answer
      kept_scores refl (omega arith)

get_patrol_scores-IsCurrent_example :
    IsCurrent {S = String} (2 * minute) (
      get_patrol_scores (2 * minute) (2 * minute) none (some old_scores) (inl (pos 3)) fails_always)
get_patrol_scores-IsCurrent_example =
    get_patrol_scores-IsCurrent (2 * minute) (2 * minute) none (some old_scores) (inl (pos 3))
      fails_always (omega arith) (λ until e. cc)

-- ===== src/Scores/Cache.antt =====
-- internal/services/patrol_score_service.go: the scores that a device is given, from OSM or from
-- the cache in Redis.
pub mod Laws
use osm_device_adapter.Prelude.{
  ℕ, ◌+◌, ◌*◌, String, Bool, true, false, not, ◌&&◌, ◌||◌, Option, none, some, List, [], ◌∷◌, ltb,
  leb, if◌then◌else◌, ◌⊎◌, inl, inr,
}
use osm_device_adapter.Prelude.Int.{ℤ, pos, negsuc, ltb_ℤ, eq_ℤ}
use osm_device_adapter.Db.Models.{DeviceCode, second, minute, hour}
use osm_device_adapter.Db.DeviceCodes.{Table, update_term_info}
use osm_device_adapter.Osm.Types.{PatrolScore}
use osm_device_adapter.Osm.Request.{
  OsmError, UserRateLimitInfo, service_blocked, user_blocked, unauthorized, other_error,
}
use osm_device_adapter.Osm.Terms.{TermInfo}

pub data RateLimitState : Type 0 where
  no_limit degraded user_temporary_block service_block : RateLimitState

pub record CachedPatrolScores : Type 0 where
  pub patrols : List PatrolScore
  pub cached_at : ℕ
  pub valid_until : ℕ
  pub rate_limit_state : RateLimitState

-- `S` is the type of the device's settings.
pub record PatrolScoreResponse (S : Type 0) : Type 0 where
  pub scores : List PatrolScore
  pub from_cache : Bool
  pub scores_cached_at : ℕ
  pub cache_expires_at : ℕ
  pub state : RateLimitState
  pub settings : Option S

-- The arms of the switch, tried in their order.
unfoldable pub calculate_cache_ttl : ℤ → ℕ
calculate_cache_ttl remaining =
    if ltb_ℤ (pos 500) remaining
    then 1 * minute
    else if not (ltb_ℤ remaining (pos 200))
    then 5 * minute
    else if not (ltb_ℤ remaining (pos 100))
    then 10 * minute
    else if not (ltb_ℤ remaining (pos 50))
    then 15 * minute
    else 30 * minute

unfoldable pub determine_rate_limit_state : ℤ → RateLimitState
determine_rate_limit_state remaining =
    if not (ltb_ℤ remaining (pos 200)) then no_limit else degraded

-- `now.After(device.TermCheckedAt.Add(24*time.Hour))` and `now.After(*device.TermEndDate)`
abbrev pub term_is_stale : ℕ → ℕ → ℕ → Bool
term_is_stale now checked_at end_date = ltb (checked_at + 24 * hour) now || ltb end_date now

-- The term that needs no refresh.
abbrev pub fresh_term : ℕ → Option ℤ → Option ℕ → Option ℕ → Option ℤ
fresh_term now (some term_id) (some checked_at) (some end_date) =
    if term_is_stale now checked_at end_date then none else some term_id
fresh_term now term_id checked_at end_date = none

-- The table of device codes, and the term or the error. `updates` says whether the database takes
-- the update, which is not needed to go on.
abbrev pub refreshed_term :
    Bool → ℕ → DeviceCode → Table → TermInfo ⊎ OsmError → Table × (ℤ ⊎ OsmError)
refreshed_term updates later device table (inr e) = (table, inr e)
refreshed_term updates later device table (inl info) = (
  if updates
      then update_term_info device.device_code info.user_id info.term_id later info.end_date table
      else table,
  inl info.term_id,
)

abbrev pub term_or_refresh :
    Bool → ℕ → DeviceCode → Table → TermInfo ⊎ OsmError → Option ℤ → Table × (ℤ ⊎ OsmError)
term_or_refresh updates later device table fetched (some term_id) = (table, inl term_id)
term_or_refresh updates later device table fetched none =
    refreshed_term updates later device table fetched

unfoldable pub ensure_term_info :
    Bool → ℕ → ℕ → DeviceCode → TermInfo ⊎ OsmError → Table → Table × (ℤ ⊎ OsmError)
ensure_term_info updates now later device fetched table =
    term_or_refresh updates later device table fetched
      (fresh_term now device.term_id device.term_checked_at device.term_end_date)

-- The end of the block that a failure implies, and the state that it is reported as.
abbrev pub fallback_block : ℕ
fallback_block = 10 * minute

-- A time before the clock's origin is 0 here, as it is to every comparison with a later one.
abbrev pub instant : ℤ → ℕ
instant (pos t) = t
instant (negsuc t) = 0

abbrev pub cache_until : ℕ → OsmError → ℕ
cache_until now (user_blocked until) = instant until
cache_until now service_blocked = now + fallback_block
cache_until now unauthorized = now + fallback_block
cache_until now other_error = now + fallback_block

abbrev pub failure_state : OsmError → RateLimitState
failure_state service_blocked = service_block
failure_state (user_blocked until) = user_temporary_block
failure_state unauthorized = user_temporary_block
failure_state other_error = user_temporary_block

-- What `GetPatrolScores` does: the scores are served, with what it writes to the cache, or it fails.
pub data Served (S : Type 0) : Type 0 where
  serves : PatrolScoreResponse S → Option CachedPatrolScores → Served S
  fails_with : OsmError → Served S

-- What the term and OSM give.
abbrev pub fetched_with :
    ℤ ⊎ OsmError
    → (ℤ → (List PatrolScore × UserRateLimitInfo) ⊎ OsmError)
    → (List PatrolScore × UserRateLimitInfo) ⊎ OsmError
fetched_with (inl term_id) fetch = fetch term_id
fetched_with (inr err) fetch = inr err

abbrev pub is_valid : ℕ → Option CachedPatrolScores → Bool
is_valid now none = false
is_valid now (some c) = ltb now c.valid_until

module _ {S : Type 0} where
  abbrev pub from_cached :
      CachedPatrolScores → ℕ → RateLimitState → Option S → PatrolScoreResponse S
  from_cached c until state settings = record {
    scores = c.patrols;
    from_cache = true;
    scores_cached_at = c.cached_at;
    cache_expires_at = until;
    state = state;
    settings = settings;
  }

  -- The error branch, with what the cache has.
  abbrev pub serve_stale : ℕ → Option S → OsmError → Option CachedPatrolScores → Served S
  serve_stale now settings err none = fails_with err
  serve_stale now settings err (some c) =
      let until = cache_until now err in
      if ltb c.valid_until until
      then serves (from_cached c until (failure_state err) settings) (
          some (record {
            patrols = c.patrols;
            cached_at = c.cached_at;
            valid_until = until;
            rate_limit_state = c.rate_limit_state;
          }))
      else serves (from_cached c c.valid_until (failure_state err) settings) none

  abbrev pub serve_fresh : ℕ → Option S → List PatrolScore → UserRateLimitInfo → Served S
  serve_fresh now settings patrols limits =
      let state = determine_rate_limit_state limits.remaining in
      let until = now + calculate_cache_ttl limits.remaining in
      serves
        (record {
          scores = patrols;
          from_cache = false;
          scores_cached_at = now;
          cache_expires_at = until;
          state = state;
          settings = settings;
        })
        (some (record {
          patrols = patrols;
          cached_at = now;
          valid_until = until;
          rate_limit_state = state;
        }))

  abbrev pub serve_fetched :
      ℕ
      → Option S
      → Option CachedPatrolScores
      → (List PatrolScore × UserRateLimitInfo) ⊎ OsmError
      → Served S
  serve_fetched now settings cached (inl (patrols, limits)) =
      serve_fresh now settings patrols limits
  serve_fetched now settings cached (inr err) = serve_stale now settings err cached

  abbrev pub serve_valid : Option CachedPatrolScores → Option S → Served S → Served S
  serve_valid none settings otherwise = otherwise
  serve_valid (some c) settings otherwise =
      serves (from_cached c c.valid_until c.rate_limit_state settings) none

  -- The part of `GetPatrolScores` for a section of OSM: `now` is when the cache is read, `later`
  -- when the answer is handled.
  unfoldable pub get_patrol_scores :
      ℕ
      → ℕ
      → Option S
      → Option CachedPatrolScores
      → ℤ ⊎ OsmError
      → (ℤ → (List PatrolScore × UserRateLimitInfo) ⊎ OsmError)
      → Served S
  get_patrol_scores now later settings cached term fetch =
      if is_valid now cached
      then serve_valid cached settings
          (serve_fetched later settings cached (fetched_with term fetch))
      else serve_fetched later settings cached (fetched_with term fetch)

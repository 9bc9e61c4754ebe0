-- ===== src/Scores/Service.antt =====
-- internal/services/patrol_score_service.go: `GetPatrolScores` as a whole, which serves the ad-hoc
-- section from the database and every other section from OSM, with the settings of the device.
pub mod Laws
use osm_device_adapter.Prelude.{
  ℕ, ◌+◌, ◌*◌, String, Bool, true, false, not, Option, none, some, List, [], ◌∷◌, ltb, map,
  if◌then◌else◌, ◌⊎◌, inl, inr, str_eq,
}
use osm_device_adapter.Prelude.Int.{ℤ, pos, eq_ℤ}
use osm_device_adapter.Prelude.Dict.{Dict, lookup, insert}
use osm_device_adapter.Db.Models.{DeviceCode, AdhocPatrol, second}
use osm_device_adapter.Db.DeviceCodes.{Table}
use osm_device_adapter.Db.AdhocPatrols.{AdhocTable, list_by_user}
use osm_device_adapter.Db.SectionSettings.{SettingsTable, get_parsed}
use osm_device_adapter.Osm.Types.{PatrolScore}
use osm_device_adapter.Osm.Request.{OsmError, UserRateLimitInfo}
use osm_device_adapter.Osm.Terms.{TermInfo}
use osm_device_adapter.Scores.Cache.{
  CachedPatrolScores, PatrolScoreResponse, no_limit, ensure_term_info, Served, serves, fails_with,
  is_valid, from_cached, serve_valid, get_patrol_scores,
}

-- `DeviceSettings`, which has only the patrols' colours.
abbrev pub DeviceSettings : Type 0
DeviceSettings = Dict String

pub data ServiceError : Type 0 where
  no_section_configured no_user_id adhoc_failed : ServiceError
  osm_failed : OsmError → ServiceError

-- What the service reads and writes. `osm_cache` has the keys `patrol_scores:<device code>` of
-- Redis, `team_cache` the keys `adhoc_scores:<user>`. Redis drops an entry of `team_cache` when it
-- is no longer valid, and one that stands longer is not served.
pub record ScoreWorld : Type 0 where
  pub device_codes : Table
  pub settings_rows : SettingsTable
  pub adhoc_teams : AdhocTable
  pub osm_cache : Dict CachedPatrolScores
  pub team_cache : Dict CachedPatrolScores

-- Which calls fail: reading and writing Redis, the list of the teams, the settings, and the update
-- of the term.
pub record PollFaults : Type 0 where
  pub get : Bool
  pub set : Bool
  pub list : Bool
  pub parse : Bool
  pub update : Bool

-- When the clock is read, in the order of the code, and what OSM would answer.
pub record Poll : Type 0 where
  pub cache_at : ℕ
  pub term_at : ℕ
  pub updated_at : ℕ
  pub served_at : ℕ
  pub term : TermInfo ⊎ OsmError
  pub fetch : ℤ → (List PatrolScore × UserRateLimitInfo) ⊎ OsmError

abbrev pub non_empty : Dict String → Option DeviceSettings
non_empty [] = none
non_empty (c ∷ cs) = some (c ∷ cs)

abbrev pub parsed_content : Option (Dict String) → Option DeviceSettings
parsed_content none = none
parsed_content (some colors) = non_empty colors

unfoldable pub fetch_device_settings :
    Bool → Option ℤ → Option ℤ → SettingsTable → Option DeviceSettings
fetch_device_settings fault none section table = none
fetch_device_settings fault (some user) none table = none
fetch_device_settings fault (some user) (some section) table =
    parsed_content (get_parsed fault user section table)

-- `getCachedPatrolScores` and the read of the ad-hoc cache: none is a miss or an error.
abbrev pub get_cached : PollFaults → String → Dict CachedPatrolScores → Option CachedPatrolScores
get_cached faults key cache = if faults.get then none else lookup key cache

abbrev pub cache_patrol_scores :
    PollFaults
    → String
    → Option CachedPatrolScores
    → Dict CachedPatrolScores
    → Dict CachedPatrolScores
cache_patrol_scores faults key none cache = cache
cache_patrol_scores faults key (some c) cache = if faults.set then cache else insert key c cache

abbrev pub Polled : Type 0
Polled = ScoreWorld × (PatrolScoreResponse DeviceSettings ⊎ ServiceError)

abbrev pub adhoc_cache_ttl : ℕ
adhoc_cache_ttl = 15 * second

-- `itoa` is `%d`.
module _ (itoa : ℤ → String) where
  abbrev pub team_score : AdhocPatrol → PatrolScore
  team_score p = record { id = itoa (pos p.id); name = p.name; score = p.score }

  abbrev pub team_colors : List AdhocPatrol → DeviceSettings → DeviceSettings
  team_colors [] colors = colors
  team_colors (p ∷ ps) colors =
      team_colors ps (if str_eq p.color "" then colors else insert (itoa (pos p.id)) p.color colors)

  abbrev pub team_record : ℕ → List AdhocPatrol → CachedPatrolScores
  team_record now teams = record {
    patrols = map team_score teams;
    cached_at = now;
    valid_until = now + adhoc_cache_ttl;
    rate_limit_state = no_limit;
  }

  abbrev pub team_response : ℕ → List AdhocPatrol → PatrolScoreResponse DeviceSettings
  team_response now teams = record {
    scores = map team_score teams;
    from_cache = false;
    scores_cached_at = now;
    cache_expires_at = now + adhoc_cache_ttl;
    state = no_limit;
    settings = non_empty (team_colors teams []);
  }

  abbrev pub serve_teams : PollFaults → ℕ → ℤ → ScoreWorld → Polled
  serve_teams faults now user w =
      let teams = list_by_user user w.adhoc_teams in
      if faults.list then (w, inr adhoc_failed) else (
        record w {
          team_cache =
              cache_patrol_scores faults (itoa user) (some (team_record now teams)) w.team_cache;
        },
        inl (team_response now teams),
      )

  abbrev pub cached_teams : Option CachedPatrolScores → ScoreWorld → Polled → Polled
  cached_teams none w otherwise = otherwise
  cached_teams (some c) w otherwise = (w, inl (from_cached c c.valid_until no_limit none))

  abbrev pub get_user_scores : PollFaults → Poll → ℤ → ScoreWorld → Polled
  get_user_scores faults p user w =
      let cached = get_cached faults (itoa user) w.team_cache in
      let fresh = serve_teams faults p.served_at user w in
      if is_valid p.cache_at cached then cached_teams cached w fresh else fresh

  abbrev pub get_adhoc_patrol_scores : PollFaults → Poll → Option ℤ → ScoreWorld → Polled
  get_adhoc_patrol_scores faults p none w = (w, inr no_user_id)
  get_adhoc_patrol_scores faults p (some user) w = get_user_scores faults p user w

  abbrev pub osm_served : PollFaults → String → ScoreWorld → Served DeviceSettings → Polled
  osm_served faults key w (fails_with err) = (w, inr (osm_failed err))
  osm_served faults key w (serves resp write) =
      (record w { osm_cache = cache_patrol_scores faults key write w.osm_cache }, inl resp)

  -- The part for a section of OSM. The term is looked at where the cache is not valid.
  abbrev pub get_osm_scores : PollFaults → Poll → DeviceCode → ScoreWorld → Polled
  get_osm_scores faults p device w =
      let settings =
        fetch_device_settings faults.parse device.osm_user_id device.section_id w.settings_rows in
      let cached = get_cached faults device.device_code w.osm_cache in
      let (codes, term) =
        ensure_term_info (not faults.update) p.term_at p.updated_at device p.term w.device_codes in
      osm_served faults device.device_code
        (record w { device_codes = if is_valid p.cache_at cached then w.device_codes else codes })
        (get_patrol_scores p.cache_at p.served_at settings cached term p.fetch)

  abbrev pub section_scores : PollFaults → Poll → DeviceCode → ScoreWorld → Option ℤ → Polled
  section_scores faults p device w none = (w, inr no_section_configured)
  section_scores faults p device w (some section) =
      if eq_ℤ section (pos 0)
      then get_adhoc_patrol_scores faults p device.osm_user_id w
      else get_osm_scores faults p device w

  -- `GetPatrolScores`
  unfoldable pub poll_scores : PollFaults → Poll → DeviceCode → ScoreWorld → Polled
  poll_scores faults p device w = section_scores faults p device w device.section_id

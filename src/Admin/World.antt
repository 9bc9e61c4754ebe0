-- ===== src/Admin/World.antt =====
-- What the handlers of the admin pages read and write, beside the tables of sessions and settings,
-- and which of their calls fail.
use osm_device_adapter.Prelude.{
  ℕ, String, Bool, Option, none, some, List, [], ◌∷◌, ◌++◌, if◌then◌else◌,
}
use osm_device_adapter.Prelude.Int.{ℤ, eq_ℤ}
use osm_device_adapter.Prelude.Dict.{Dict, erase}
use osm_device_adapter.Prelude.{find?}
use osm_device_adapter.Db.Models.{ScoreAuditLog}
use osm_device_adapter.Db.DeviceCodes.{Table}
use osm_device_adapter.Db.AdhocPatrols.{AdhocTable}
use osm_device_adapter.Osm.Types.{OsmSection, OsmProfileData, OsmProfileResponse}
use osm_device_adapter.Scores.Locks.{RedisLock}
use osm_device_adapter.Scores.Cache.{CachedPatrolScores}
use osm_device_adapter.Hub.Messages.{Message}
use osm_device_adapter.Admin.Replies.{Answer, json_error}

-- `score_cache` has the keys `patrol_scores:<device code>` of Redis, `adhoc_cache` the keys
-- `adhoc_scores:<user>`. `published` is what has been published on channels of Redis, in order.
pub record AdminWorld : Type 0 where
  pub codes : Table
  pub adhoc : AdhocTable
  pub audit : List ScoreAuditLog
  pub locks : Dict RedisLock
  pub score_cache : Dict CachedPatrolScores
  pub adhoc_cache : Dict CachedPatrolScores
  pub published : List (String × Message)

-- `has_hub` is `deps.WebSocketHub != nil`; `del` and `publish` are errors of Redis, by the key,
-- which nobody looks at.
pub record AdminFaults : Type 0 where
  pub find_devices : Bool
  pub update_section : Bool
  pub list_devices : Bool
  pub audit : Bool
  pub adhoc_list : Bool
  pub adhoc_find : ℕ → Bool
  pub adhoc_write : ℕ → Bool
  pub has_hub : Bool
  pub del : String → Bool
  pub publish : Bool

-- `Redis.Del`, without a look at its error.
abbrev pub deleted_key : AdminFaults → String → Dict CachedPatrolScores → Dict CachedPatrolScores
deleted_key faults key cache = if faults.del key then cache else erase key cache

-- `Hub.publish`
abbrev pub publish : AdminFaults → String → Message → AdminWorld → AdminWorld
publish faults channel m w =
    if faults.has_hub
    then if faults.publish then w else record w { published = w.published ++ (channel, m) ∷ [] }
    else w

-- The check of a section against the user's profile: `none` lets the request pass.
abbrev pub find_section : ℤ → List OsmSection → Option OsmSection
find_section section sections = find? (λ s. eq_ℤ s.section_id section) sections

-- What a handler does with the sections of the profile, or its error. `R` is what a handler gives.
module _ {A R : Type 0} (fail : Answer A → R) where
  abbrev pub with_data : Option OsmProfileData → (OsmProfileData → R) → R
  with_data none go = fail (json_error 502 "osm_error" "Invalid response from OSM")
  with_data (some profile) go = go profile

  abbrev pub with_found : Option OsmSection → (OsmSection → R) → R
  with_found none go = fail (json_error 403 "forbidden" "You do not have access to this section")
  with_found (some s) go = go s

  abbrev pub with_access : Option OsmProfileResponse → ℤ → (OsmSection → R) → R
  with_access none section go =
      fail (json_error 502 "osm_error" "Failed to validate section access")
  with_access (some answer) section go =
      with_data answer.payload (λ profile. with_found (find_section section profile.sections) go)

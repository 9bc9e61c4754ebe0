-- ===== src/Osm/Blocks.antt =====
-- The `RateLimitStore` that internal/osm/request.go consults, as internal/db/metrics_store.go keeps
-- it in Redis, with the requests that went out to OSM.
use osm_device_adapter.Prelude.{
  ℕ, ◌-◌, ◌%◌, String, Bool, true, not, ◌&&◌, Option, none, some, List, ◌∷◌, ltb, if◌then◌else◌,
}
use osm_device_adapter.Prelude.Int.{ℤ, eq_ℤ}
use osm_device_adapter.Db.Models.{second}

-- The value under a user's key, which Redis keeps until it expires.
pub record UserBlock : Type 0 where
  pub until : ℕ
  pub expires : ℕ

-- `sent` has the token of every request that reached OSM, the last one first.
pub record OsmState : Type 0 where
  pub service_blocked : Bool
  pub user_blocks : ℤ → Option UserBlock
  pub sent : List String

-- Which calls of Redis fail: reading the key of the service, reading the key of a user, and `Set`.
-- The store looks at none of these errors: what cannot be read is not blocked.
pub record RedisFaults : Type 0 where
  pub get_service : Bool
  pub get_user : Bool
  pub set : Bool

unfoldable pub mark_osm_service_blocked : RedisFaults → OsmState → OsmState
mark_osm_service_blocked redis s =
    if redis.set
    then s
    else record { service_blocked = true; user_blocks = s.user_blocks; sent = s.sent }

abbrev pub is_osm_service_blocked : RedisFaults → OsmState → Bool
is_osm_service_blocked redis s = not redis.get_service && s.service_blocked

-- The format RFC 3339 has no fractions of a second.
abbrev pub whole_seconds : ℕ → ℕ
whole_seconds t = t - t % second

unfoldable pub mark_user_temporarily_blocked : RedisFaults → ℕ → ℤ → ℕ → OsmState → OsmState
mark_user_temporarily_blocked redis now user until s = if redis.set then s else record {
  service_blocked = s.service_blocked;
  user_blocks = λ u.
      if eq_ℤ u user
      then if ltb now until
        then some (record { until = whole_seconds until; expires = until })
        else s.user_blocks u
      else s.user_blocks u;
  sent = s.sent;
}

-- 0 is the zero time.
abbrev pub block_end : ℕ → Option UserBlock → ℕ
block_end now none = 0
block_end now (some b) = if ltb now b.expires then b.until else 0

unfoldable pub get_user_block_end_time : RedisFaults → ℕ → ℤ → OsmState → ℕ
get_user_block_end_time redis now user s =
    if redis.get_user then 0 else block_end now (s.user_blocks user)

abbrev pub log_sent : String → OsmState → OsmState
log_sent token s = record {
  service_blocked = s.service_blocked;
  user_blocks = s.user_blocks;
  sent = token ∷ s.sent;
}

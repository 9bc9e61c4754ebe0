-- ===== src/Redis/RateLimit.antt =====
-- `CheckRateLimit` of internal/db/redis.go and its Lua script. Redis' INCR, EXPIRE and TTL act as
-- documented: a key past its expiry is gone, INCR of a missing key gives 1 and sets no expiry, TTL
-- is the remaining time in seconds, rounded to the nearest.
pub mod Laws
use Prim.Native.String.{◌++◌ as append}
use osm_device_adapter.Prelude.{
  ℕ, zero, suc, ◌+◌, ◌-◌, ◌*◌, ◌/◌, String, Bool, true, false, not, Option, none, some, ltb, leb,
  ◌==◌, if◌then◌else◌,
}
use osm_device_adapter.Prelude.Int.{ℤ, pos, negsuc}
use osm_device_adapter.Prelude.Dict.{Dict, lookup, insert}
use osm_device_adapter.Db.Models.{second}

pub record Counter : Type 0 where
  pub count : ℕ
  pub expires_at : ℕ

abbrev pub Counters : Type 0
Counters = Dict Counter

pub record RateLimitResult : Type 0 where
  pub allowed : Bool
  pub remaining : ℕ
  pub retry_after : ℤ  -- seconds

-- The key's value at `now`: an expired key is no key.
unfoldable pub live : ℕ → Option Counter → Option Counter
live now none = none
live now (some c) = if ltb now c.expires_at then some c else none

-- INCR, then EXPIRE when the count is 1.
unfoldable pub bump : ℕ → ℕ → Option Counter → Counter
bump now window_seconds none = record { count = 1; expires_at = now + window_seconds * second }
bump now window_seconds (some c) = record c { count = c.count + 1 }

-- TTL; a key that EXPIRE 0 deleted at once answers -2.
unfoldable pub ttl : ℕ → Counter → ℤ
ttl now c =
    if ltb now c.expires_at then pos ((c.expires_at - now + second / 2) / second) else negsuc 1

unfoldable pub answer : ℕ → ℕ → Counter → RateLimitResult
unfolding ttl
answer now limit c = record {
  allowed = leb c.count limit;
  remaining = limit - c.count;
  retry_after = ttl now c;
}

abbrev pub rate_limit_key : String → String → String
rate_limit_key name key = append "ratelimit:" (append name (append ":" key))

-- The flag says that Redis failed, and then there is no result. `window` is in nanoseconds.
unfoldable pub check_rate_limit :
    Bool → ℕ → String → String → ℕ → ℕ → Counters → Option RateLimitResult × Counters
unfolding live bump answer
check_rate_limit true now name key limit window counters = (none, counters)
check_rate_limit false now name key limit window counters =
    let k = rate_limit_key name key in
    let c = bump now (window / second) (live now (lookup k counters)) in
    (some (answer now limit c), insert k c counters)

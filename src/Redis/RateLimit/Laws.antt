-- ===== src/Redis/RateLimit/Laws.antt =====
-- How many requests a rate limit lets through.
use Prim.Native.Nat.{min}
use osm_device_adapter.Prelude.{
  ℕ, ◌+◌, ◌*◌, ◌/◌, ◌<◌, ◌≡◌, refl, String, Bool, true, false, Option, none, some, List, [], ◌∷◌,
  arith, str_eq, if◌then◌else◌, length, All,
}
use osm_device_adapter.Prelude.Dict.{lookup, insert, lookup-insert, lookup-insert_self}
use osm_device_adapter.Db.Models.{second}
use osm_device_adapter.Redis.RateLimit.{
  Counter, Counters, RateLimitResult, live, bump, answer, rate_limit_key, check_rate_limit,
}

abbrev one_if : Option RateLimitResult → ℕ
one_if none = 0
one_if (some r) = if r.allowed then 1 else 0

bump-live :
    (now w : ℕ) (c : Counter) (o : Option Counter)
    → o ≡ some c
    → now < c.expires_at
    → bump now w (live now o) ≡ record c { count = c.count + 1 }
unfolding bump live
bump-live now w c o e h = rw e (ground arith)

module _ (name key : String) (limit window : ℕ) where
  -- How many of the checks at the given times are allowed, Redis answering each of them.
  pub allowed_count : List ℕ → Counters → ℕ
  allowed_count [] counters = 0
  allowed_count (now ∷ times) counters =
      let (r, counters') = check_rate_limit false now name key limit window counters in
      one_if r + allowed_count times counters'

  allowed_count_live :
      (times : List ℕ) (counters : Counters) (c : Counter)
      → lookup (rate_limit_key name key) counters ≡ some c
      → All (λ t. t < c.expires_at) times
      → allowed_count times counters + min c.count limit ≡ min (c.count + length times) limit
  unfolding allowed_count check_rate_limit answer
  allowed_count_live [] counters c e h = omega arith
  allowed_count_live (now ∷ times) counters c e h =
      let k = rate_limit_key name key in
      let c' : Counter = record c { count = c.count + 1 } in
      let step : bump now (window / second) (live now (lookup k counters)) ≡ c' =
        bump-live now (window / second) c (lookup k counters) e h.0 in
      let rest =
        allowed_count_live times (insert k c' counters) c' (lookup-insert_self k c' counters) h.1 in
      rw step (ground (arith, rest))

  -- In the window that a first request opens, with a Redis that answers, of n + 1 requests as
  -- many are let through as the limit allows: n + 1 or the limit, whichever is less.
  pub allowed_count_window :
      (first : ℕ) (times : List ℕ) (counters : Counters)
      → live first (lookup (rate_limit_key name key) counters) ≡ none
      → All (λ t. t < first + window / second * second) times
      → allowed_count (first ∷ times) counters ≡ min (1 + length times) limit
  unfolding allowed_count check_rate_limit answer bump
  allowed_count_window first times counters e h =
      let k = rate_limit_key name key in
      let c : Counter = record { count = 1; expires_at = first + window / second * second } in
      let rest =
        allowed_count_live times (insert k c counters) c (lookup-insert_self k c counters) h in
      rw e (ground (arith, rest))

-- A check under one key leaves the counter of every other key as it was.
pub check_rate_limit_other :
    (down : Bool) (now : ℕ) (name key : String) (limit window : ℕ) (counters : Counters)
    (other : String)
    → str_eq (rate_limit_key name key) other ≡ false
    → lookup other (check_rate_limit down now name key limit window counters).1
      ≡ lookup other counters
unfolding check_rate_limit
check_rate_limit_other true now name key limit window counters other h = refl
check_rate_limit_other false now name key limit window counters other h = rw (lookup-insert, h)

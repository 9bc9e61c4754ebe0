-- ===== src/Scores/Locks.antt =====
-- internal/services/scoreupdateservice/patrol_lock_set.go: the locks on patrols, in Redis.
pub mod Laws
use Prim.Native.String.{◌++◌ as append_text}
use osm_device_adapter.Prelude.{
  ℕ, ◌+◌, String, Bool, true, false, not, Option, none, some, List, [], ◌∷◌, ltb, str_eq,
  if◌then◌else◌,
}
use osm_device_adapter.Prelude.Int.{ℤ}
use osm_device_adapter.Prelude.Dict.{Dict, lookup, insert, erase}

-- A lock's key in Redis.
pub record RedisLock : Type 0 where
  pub value : String
  pub expires : ℕ

pub record LockSet : Type 0 where
  pub ttl : ℕ
  pub lock_value : String
  pub held : Dict Bool

-- `NewPatrolLockSet`, given its lock value.
abbrev pub new_patrol_lock_set : String → ℕ → LockSet
new_patrol_lock_set lock_value ttl = record { ttl = ttl; lock_value = lock_value; held = [] }

-- "patrol:lock:%d:%s"; the first argument prints an int.
unfoldable pub internal_key : (ℤ → String) → ℤ → String → String
internal_key itoa section_id patrol_id =
    append_text "patrol:lock:" (append_text (itoa section_id) (append_text ":" patrol_id))

-- `AddPatrol`
abbrev known_or_new : String → Dict Bool → Option Bool → Dict Bool
known_or_new key held none = insert key false held
known_or_new key held (some state) = held

unfoldable pub add_patrol : String → LockSet → LockSet
add_patrol key l = record {
  ttl = l.ttl;
  lock_value = l.lock_value;
  held = known_or_new key l.held (lookup key l.held);
}

unfoldable pub add_patrols : List String → LockSet → LockSet
add_patrols [] l = l
add_patrols (key ∷ keys) l = add_patrols keys (add_patrol key l)

-- A key that has expired is no key.
abbrev pub live_lock : ℕ → Option RedisLock → Option RedisLock
live_lock now none = none
live_lock now (some lock) = if ltb now lock.expires then some lock else none

unfoldable pub find_lock : ℕ → String → Dict RedisLock → Option RedisLock
find_lock now key redis = live_lock now (lookup key redis)

-- SET NX with an expiry: whether the key was set, and Redis afterwards.
abbrev set_if_free :
    ℕ → String → LockSet → Dict RedisLock → Option RedisLock → Bool × Dict RedisLock
set_if_free now key l redis none =
    (true, insert key (record { value = l.lock_value; expires = now + l.ttl }) redis)
set_if_free now key l redis (some lock) = (false, redis)

unfoldable pub set_nx : ℕ → String → LockSet → Dict RedisLock → Bool × Dict RedisLock
set_nx now key l redis = set_if_free now key l redis (find_lock now key redis)

-- The loop of `Acquire` over the entries, `fails` saying where Redis gives an error: the entries and
-- Redis afterwards, and whether the loop ran to its end.
unfoldable pub acquire_all :
    ℕ → (String → Bool) → LockSet → Dict Bool → Dict RedisLock → (Dict Bool × Dict RedisLock) × Bool
acquire_all now fails l [] redis = (([], redis), true)
acquire_all now fails l ((key, held) ∷ entries) redis =
    let (ok, redis') = set_nx now key l redis in
    let skipped = acquire_all now fails l entries redis in
    let taken = acquire_all now fails l entries redis' in
    if held
    then (((key, held) ∷ skipped.0.0, skipped.0.1), skipped.1)
    else if fails key
    then (((key, held) ∷ entries, redis), false)
    else (((key, ok) ∷ taken.0.0, taken.0.1), taken.1)

abbrev pub with_held : LockSet → Dict Bool → LockSet
with_held l held = record { ttl = l.ttl; lock_value = l.lock_value; held = held }

unfoldable pub acquire :
    ℕ → (String → Bool) → LockSet → Dict RedisLock → (LockSet × Dict RedisLock) × Bool
acquire now fails l redis =
    let ((held, redis'), ok) = acquire_all now fails l l.held redis in
    ((with_held l held, redis'), ok)

unfoldable pub is_held : String → LockSet → Bool
is_held key l = elim (lookup key l.held) [ none ↦ false | some state ↦ state ]

-- The script of `Release`: whether the key was deleted, and Redis afterwards.
abbrev delete_own : String → LockSet → Dict RedisLock → Option RedisLock → Bool × Dict RedisLock
delete_own key l redis none = (false, redis)
delete_own key l redis (some lock) =
    if str_eq lock.value l.lock_value then (true, erase key redis) else (false, redis)

unfoldable pub delete_if_own : ℕ → String → LockSet → Dict RedisLock → Bool × Dict RedisLock
delete_if_own now key l redis = delete_own key l redis (find_lock now key redis)

unfoldable pub release_all :
    ℕ → (String → Bool) → LockSet → Dict Bool → Dict RedisLock → (Dict Bool × Dict RedisLock) × Bool
release_all now fails l [] redis = (([], redis), true)
release_all now fails l ((key, held) ∷ entries) redis =
    let (deleted, redis') = delete_if_own now key l redis in
    let skipped = release_all now fails l entries redis in
    let given = release_all now fails l entries redis' in
    if not held
    then (((key, held) ∷ skipped.0.0, skipped.0.1), skipped.1)
    else if fails key
    then (((key, held) ∷ entries, redis), false)
    else (((key, if deleted then false else held) ∷ given.0.0, given.0.1), given.1)

unfoldable pub release :
    ℕ → (String → Bool) → LockSet → Dict RedisLock → (LockSet × Dict RedisLock) × Bool
release now fails l redis =
    let ((held, redis'), ok) = release_all now fails l l.held redis in
    ((with_held l held, redis'), ok)

-- ===== src/Scores/Locks/Laws.antt =====
-- Two sets of locks never hold the same patrol at once, and a set only gives back its own locks.
use osm_device_adapter.Prelude.{
  ℕ, ◌+◌, ◌<◌, ◌≤◌, String, Bool, true, false, Option, none, some, [], ◌∷◌, str_eq, eq_iff, eq_refl,
  ◌≡◌, ◌≢◌, refl, sym, subst, arith,
}
use osm_device_adapter.Prelude.Dict.{Dict, lookup, lookup-insert, lookup-erase}
use osm_device_adapter.Scores.Locks.{
  RedisLock, LockSet, live_lock, find_lock, set_nx, acquire_all, acquire, is_held, delete_if_own,
  release_all, release,
}

-- A lock that stands is not overwritten.
set_nx-find_lock :
    (now : ℕ) (key k : String) (l : LockSet) (redis : Dict RedisLock) (lock : RedisLock)
    → find_lock now k redis ≡ some lock
    → find_lock now k (set_nx now key l redis).1 ≡ some lock
unfolding set_nx find_lock
set_nx-find_lock now key k l redis lock e =
    let mine : RedisLock = record { value = l.lock_value; expires = now + l.ttl } in
    ground (arith, e, eq_iff key k, lookup-insert key k mine redis)

-- A key with a lock is not taken.
set_nx-taken :
    (now : ℕ) (key : String) (l : LockSet) (redis : Dict RedisLock) (lock : RedisLock)
    → find_lock now key redis ≡ some lock
    → (set_nx now key l redis).0 ≡ false
unfolding set_nx
set_nx-taken now key l redis lock e = rw e refl

-- A key that is taken has the set's own lock.
set_nx-own :
    (now : ℕ) (key : String) (l : LockSet) (redis : Dict RedisLock)
    → now < now + l.ttl
    → (set_nx now key l redis).0 ≡ true
    → find_lock now key (set_nx now key l redis).1
      ≡ some (record { value = l.lock_value; expires = now + l.ttl })
unfolding set_nx find_lock
set_nx-own now key l redis lasts e =
    let mine : RedisLock = record { value = l.lock_value; expires = now + l.ttl } in
    ground (arith, e, lasts, lookup-insert key key mine redis, eq_refl key)

delete_if_own-find_lock :
    (now : ℕ) (key k : String) (l : LockSet) (redis : Dict RedisLock) (lock : RedisLock)
    → find_lock now k redis ≡ some lock
    → str_eq lock.value l.lock_value ≡ false
    → find_lock now k (delete_if_own now key l redis).1 ≡ some lock
unfolding delete_if_own find_lock
delete_if_own-find_lock now key k l redis lock e other =
    ground (arith, e, other, eq_iff key k, lookup-erase key k redis)

abbrev pub held_in : String → Dict Bool → Bool
held_in k entries = elim (lookup k entries) [ none ↦ false | some state ↦ state ]

acquire_all-find_lock :
    (now : ℕ) (fails : String → Bool) (l : LockSet) (entries : Dict Bool) (redis : Dict RedisLock)
    (k : String) (lock : RedisLock)
    → find_lock now k redis ≡ some lock
    → find_lock now k (acquire_all now fails l entries redis).0.1 ≡ some lock
unfolding acquire_all
acquire_all-find_lock now fails l [] redis k lock e = e
acquire_all-find_lock now fails l ((key, held) ∷ entries) redis k lock e =
    let redis' = (set_nx now key l redis).1 in
    let e' = set_nx-find_lock now key k l redis lock e in
    ground (
      arith,
      e,
      acquire_all-find_lock now fails l entries redis k lock e,
      acquire_all-find_lock now fails l entries redis' k lock e',
    )

acquire_all-excluded :
    (now : ℕ) (fails : String → Bool) (l : LockSet) (entries : Dict Bool) (redis : Dict RedisLock)
    (k : String) (lock : RedisLock)
    → find_lock now k redis ≡ some lock
    → held_in k entries ≡ false
    → held_in k (acquire_all now fails l entries redis).0.0 ≡ false
unfolding acquire_all lookup
acquire_all-excluded now fails l [] redis k lock e free = free
acquire_all-excluded now fails l ((key, held) ∷ entries) redis k lock e free =
    let redis' = (set_nx now key l redis).1 in
    let e' = set_nx-find_lock now key k l redis lock e in
    let taken : str_eq key k ≡ true → (set_nx now key l redis).0 ≡ false = (λ same.
      set_nx-taken now key l redis lock
        (subst (λ j. find_lock now j redis ≡ some lock) (sym ((eq_iff key k).0 same)) e)) in
    let free' : str_eq key k ≡ false → held_in k entries ≡ false =
      (λ other. ground (arith, free, other)) in
    let skipped : str_eq key k ≡ false
        → held_in k (acquire_all now fails l entries redis).0.0 ≡ false =
      (λ other. acquire_all-excluded now fails l entries redis k lock e (free' other)) in
    let passed : str_eq key k ≡ false
        → held_in k (acquire_all now fails l entries redis').0.0 ≡ false =
      (λ other. acquire_all-excluded now fails l entries redis' k lock e' (free' other)) in
    ground (arith, free, taken, free', skipped, passed)

acquire_all-own :
    (now : ℕ) (fails : String → Bool) (l : LockSet) (entries : Dict Bool) (redis : Dict RedisLock)
    (k : String)
    → now < now + l.ttl
    → held_in k entries ≡ false
    → held_in k (acquire_all now fails l entries redis).0.0 ≡ true
    → find_lock now k (acquire_all now fails l entries redis).0.1
      ≡ some (record { value = l.lock_value; expires = now + l.ttl })
unfolding acquire_all lookup
acquire_all-own now fails l [] redis k lasts free has = cc
acquire_all-own now fails l ((key, held) ∷ entries) redis k lasts free has =
    let redis' = (set_nx now key l redis).1 in
    let mine : RedisLock = record { value = l.lock_value; expires = now + l.ttl } in
    let free' : str_eq key k ≡ false → held_in k entries ≡ false =
      (λ other. ground (arith, free, other)) in
    let here : str_eq key k ≡ true
        → (set_nx now key l redis).0 ≡ true
        → find_lock now k (acquire_all now fails l entries redis').0.1 ≡ some mine =
      (λ same ok. acquire_all-find_lock now fails l entries redis' k mine (
        subst (λ j. find_lock now j redis' ≡ some mine) ((eq_iff key k).0 same)
          (set_nx-own now key l redis lasts ok))) in
    let skipped : str_eq key k ≡ false
        → held_in k (acquire_all now fails l entries redis).0.0 ≡ true
        → find_lock now k (acquire_all now fails l entries redis).0.1 ≡ some mine =
      (λ other. acquire_all-own now fails l entries redis k lasts (free' other)) in
    let passed : str_eq key k ≡ false
        → held_in k (acquire_all now fails l entries redis').0.0 ≡ true
        → find_lock now k (acquire_all now fails l entries redis').0.1 ≡ some mine =
      (λ other. acquire_all-own now fails l entries redis' k lasts (free' other)) in
    ground (arith, free, has, free', here, skipped, passed)

live_lock-later :
    (t t' : ℕ) (o : Option RedisLock) (lock : RedisLock)
    → t ≤ t'
    → t' < lock.expires
    → live_lock t o ≡ some lock
    → live_lock t' o ≡ some lock
live_lock-later t t' none lock le lasts e = cc
live_lock-later t t' (some x) lock le lasts e =
    let same : x ≡ lock = ground (arith, e) in
    subst (λ y. live_lock t' (some y) ≡ some lock) (sym same) (ground (arith, lasts))

-- Where one set takes the lock of a patrol, another set that did not hold it and whose `Acquire` is
-- the next, before that lock expires, does not take it.
pub acquire_exclusive :
    (fails fails' : String → Bool) (t t' : ℕ) (l l' : LockSet) (redis : Dict RedisLock) (k : String)
    → t ≤ t'
    → t' < t + l.ttl
    → held_in k l.held ≡ false
    → held_in k l'.held ≡ false
    → is_held k (acquire t fails l redis).0.0 ≡ true
    → is_held k (acquire t' fails' l' (acquire t fails l redis).0.1).0.0 ≡ false
unfolding acquire is_held
acquire_exclusive fails fails' t t' l l' redis k le lasts free free' has =
    let mine : RedisLock = record { value = l.lock_value; expires = t + l.ttl } in
    let redis' = (acquire_all t fails l l.held redis).0.1 in
    let own = acquire_all-own t fails l l.held redis k (omega (arith, le, lasts)) free has in
    acquire_all-excluded t' fails' l' l'.held redis' k mine
      (unfold find_lock in live_lock-later t t' (lookup k redis') mine le lasts own) free'

release_all-foreign :
    (now : ℕ) (fails : String → Bool) (l : LockSet) (entries : Dict Bool) (redis : Dict RedisLock)
    (k : String) (lock : RedisLock)
    → find_lock now k redis ≡ some lock
    → str_eq lock.value l.lock_value ≡ false
    → find_lock now k (release_all now fails l entries redis).0.1 ≡ some lock
unfolding release_all
release_all-foreign now fails l [] redis k lock e other = e
release_all-foreign now fails l ((key, held) ∷ entries) redis k lock e other =
    let redis' = (delete_if_own now key l redis).1 in
    let e' = delete_if_own-find_lock now key k l redis lock e other in
    ground (
      arith,
      e,
      release_all-foreign now fails l entries redis k lock e other,
      release_all-foreign now fails l entries redis' k lock e' other,
    )

-- A set that gives its locks back leaves every lock with another value as it is, even one that has
-- taken the place of its own.
pub release_foreign :
    (now : ℕ) (fails : String → Bool) (l : LockSet) (redis : Dict RedisLock) (k : String)
    (lock : RedisLock)
    → find_lock now k redis ≡ some lock
    → lock.value ≢ l.lock_value
    → find_lock now k (release now fails l redis).0.1 ≡ some lock
unfolding release
release_foreign now fails l redis k lock e other =
    release_all-foreign now fails l l.held redis k lock e
      (ground (arith, eq_iff lock.value l.lock_value, other))

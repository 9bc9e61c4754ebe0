-- ===== src/Scores/Cache/Laws.antt =====
-- How long scores are cached, and what a device is served when OSM cannot be reached.
use osm_device_adapter.Prelude.{
  ℕ, ◌*◌, ◌≤◌, ◌<◌, Bool, true, false, Option, none, some, List, ltb, ◌⊎◌, inl, inr, ◌≡◌, refl, ap,
  subst, arith, if_split,
}
use osm_device_adapter.Prelude.Int.{ℤ, ◌≤ℤ◌}
use osm_device_adapter.Db.Models.{minute}
use osm_device_adapter.Osm.Types.{PatrolScore}
use osm_device_adapter.Osm.Request.{
  OsmError, UserRateLimitInfo, service_blocked, user_blocked, unauthorized, other_error,
}
use osm_device_adapter.Scores.Cache.{
  CachedPatrolScores, PatrolScoreResponse, calculate_cache_ttl, cache_until, instant, Served,
  serves, fails_with, from_cached, serve_fetched, fetched_with, is_valid, serve_valid,
  get_patrol_scores,
}

-- The fewer requests remain, the longer scores are cached, between one minute and thirty.
pub calculate_cache_ttl_lem :
    (a b : ℤ)
    → a ≤ℤ b
    → (calculate_cache_ttl b ≤ calculate_cache_ttl a)
      × (minute ≤ calculate_cache_ttl a)
      × (calculate_cache_ttl a ≤ 30 * minute)
unfolding calculate_cache_ttl
calculate_cache_ttl_lem a b le = (ground (arith, le), ground arith, ground arith)

-- The scores are those of the cache where they are said to be, and else those that OSM has given.
abbrev pub Comes :
    CachedPatrolScores
    → (List PatrolScore × UserRateLimitInfo) ⊎ OsmError
    → List PatrolScore
    → Bool
    → Type 0
Comes c fetched scores true = scores ≡ c.patrols
Comes c fetched scores false = (limits : UserRateLimitInfo) × (fetched ≡ inl (scores, limits))

module _ {S : Type 0} where
  -- The result is that scores are served, from where they are said to be.
  abbrev pub IsServed :
      CachedPatrolScores → (List PatrolScore × UserRateLimitInfo) ⊎ OsmError → Served S → Type 0
  IsServed c fetched (fails_with err) = ⊥
  IsServed c fetched (serves resp write) = Comes c fetched resp.scores resp.from_cache

  serve_fetched-IsServed :
      (now : ℕ) (settings : Option S) (c : CachedPatrolScores)
      (fetched : (List PatrolScore × UserRateLimitInfo) ⊎ OsmError)
      → IsServed c fetched (serve_fetched now settings (some c) fetched)
  serve_fetched-IsServed now settings c (inl (patrols, limits)) = (limits, refl)
  serve_fetched-IsServed now settings c (inr err) =
      if_split (IsServed c (inr err)) (ltb c.valid_until (cache_until now err)) (λ e. refl)
        (λ e. refl)

  -- A device with scores in the cache is always served, however the requests to OSM fail: with the
  -- scores of the cache, or, where the response does not say that it is from the cache, with those
  -- that OSM has given for the term.
  pub get_patrol_scores-IsServed :
      (now later : ℕ) (settings : Option S) (c : CachedPatrolScores) (term : ℤ ⊎ OsmError)
      (fetch : ℤ → (List PatrolScore × UserRateLimitInfo) ⊎ OsmError)
      → IsServed c
          (fetched_with term fetch)
          (get_patrol_scores now later settings (some c) term fetch)
  unfolding get_patrol_scores
  get_patrol_scores-IsServed now later settings c term fetch =
      if_split (IsServed c (fetched_with term fetch)) (ltb now c.valid_until) (λ e. refl)
        (λ e. serve_fetched-IsServed later settings c (fetched_with term fetch))

  -- The record that is written to the cache has the scores that are served, and is valid as long as
  -- the response says.
  abbrev pub IsKept : Served S → Type 0
  IsKept (fails_with err) = Unit
  IsKept (serves resp none) = Unit
  IsKept (serves resp (some c)) =
      (c.patrols ≡ resp.scores)
      × (c.cached_at ≡ resp.scores_cached_at)
      × (c.valid_until ≡ resp.cache_expires_at)

  serve_fetched-IsKept :
      (now : ℕ) (settings : Option S) (cached : Option CachedPatrolScores)
      (fetched : (List PatrolScore × UserRateLimitInfo) ⊎ OsmError)
      → IsKept (serve_fetched now settings cached fetched)
  serve_fetched-IsKept now settings cached (inl (patrols, limits)) = (refl, refl, refl)
  serve_fetched-IsKept now settings none (inr err) = tt
  serve_fetched-IsKept now settings (some c) (inr err) =
      if_split IsKept (ltb c.valid_until (cache_until now err)) (λ e. (refl, refl, refl)) (λ e. tt)

  serve_valid-IsKept :
      (cached : Option CachedPatrolScores) (settings : Option S) (otherwise : Served S)
      → IsKept otherwise
      → IsKept (serve_valid cached settings otherwise)
  serve_valid-IsKept none settings otherwise v = v
  serve_valid-IsKept (some c) settings otherwise v = tt

  get_patrol_scores-IsKept :
      (now later : ℕ) (settings : Option S) (cached : Option CachedPatrolScores)
      (term : ℤ ⊎ OsmError) (fetch : ℤ → (List PatrolScore × UserRateLimitInfo) ⊎ OsmError)
      → IsKept (get_patrol_scores now later settings cached term fetch)
  unfolding get_patrol_scores
  get_patrol_scores-IsKept now later settings cached term fetch =
      let fetched = serve_fetched-IsKept later settings cached (fetched_with term fetch) in
      if_split IsKept (is_valid now cached)
        (λ e.
          serve_valid-IsKept cached settings
            (serve_fetched later settings cached (fetched_with term fetch)) fetched)
        (λ e. fetched)

  -- Until a response that was written to the cache expires, every request gets the same scores
  -- from the cache, whatever OSM would answer, and writes nothing.
  pub get_patrol_scores_again :
      (now later now' later' : ℕ) (settings settings' : Option S)
      (cached : Option CachedPatrolScores) (term term' : ℤ ⊎ OsmError)
      (fetch fetch' : ℤ → (List PatrolScore × UserRateLimitInfo) ⊎ OsmError)
      (resp : PatrolScoreResponse S) (c : CachedPatrolScores)
      → get_patrol_scores now later settings cached term fetch ≡ serves resp (some c)
      → now' < resp.cache_expires_at
      → (get_patrol_scores now' later' settings' (some c) term' fetch'
          ≡ serves (from_cached c resp.cache_expires_at c.rate_limit_state settings') none)
        × (c.patrols ≡ resp.scores)
  get_patrol_scores_again now later now' later' settings settings' cached term term' fetch fetch'
        resp c done soon =
      let (scores, at, until) =
        subst IsKept done (get_patrol_scores-IsKept now later settings cached term fetch) in
      let valid : ltb now' c.valid_until ≡ true = ground (arith, until, soon) in
      (unfold get_patrol_scores in rw (valid, until) refl, scores)

  -- What is served has not expired when it is served.
  abbrev pub IsCurrent : ℕ → Served S → Type 0
  IsCurrent now (fails_with err) = Unit
  IsCurrent now (serves resp write) = now < resp.cache_expires_at

  serve_fetched-IsCurrent :
      (now : ℕ) (settings : Option S) (cached : Option CachedPatrolScores)
      (fetched : (List PatrolScore × UserRateLimitInfo) ⊎ OsmError)
      → ((until : ℤ) → fetched ≡ inr (user_blocked until) → now < instant until)
      → IsCurrent now (serve_fetched now settings cached fetched)
  unfolding calculate_cache_ttl
  serve_fetched-IsCurrent now settings cached (inl (patrols, limits)) blocked = ground arith
  serve_fetched-IsCurrent now settings none (inr err) blocked = tt
  serve_fetched-IsCurrent now settings (some c) (inr err) blocked =
      let ahead = cache_until-ahead err (λ until e. blocked until (ap inr e)) in
      if_split (IsCurrent now) (ltb c.valid_until (cache_until now err)) (λ e. ahead)
        (λ e. ground (arith, e, ahead))
    where
      cache_until-ahead :
          (err : OsmError)
          → ((until : ℤ) → err ≡ user_blocked until → now < instant until)
          → now < cache_until now err
      cache_until-ahead service_blocked b = omega arith
      cache_until-ahead unauthorized b = omega arith
      cache_until-ahead other_error b = omega arith
      cache_until-ahead (user_blocked until) b = b until refl

  IsCurrent-earlier : (a b : ℕ) (r : Served S) → a ≤ b → IsCurrent b r → IsCurrent a r
  IsCurrent-earlier a b (fails_with err) le v = tt
  IsCurrent-earlier a b (serves resp write) le v = omega (arith, le, v)

  serve_valid-IsCurrent :
      (now : ℕ) (cached : Option CachedPatrolScores) (settings : Option S) (otherwise : Served S)
      → is_valid now cached ≡ true
      → IsCurrent now otherwise
      → IsCurrent now (serve_valid cached settings otherwise)
  serve_valid-IsCurrent now none settings otherwise e v = v
  serve_valid-IsCurrent now (some c) settings otherwise e v = ground (arith, e)

  -- Where a block that OSM reports ends after the answer is handled, no scores are served whose
  -- time in the cache has ended when the cache is read.
  pub get_patrol_scores-IsCurrent :
      (now later : ℕ) (settings : Option S) (cached : Option CachedPatrolScores)
      (term : ℤ ⊎ OsmError) (fetch : ℤ → (List PatrolScore × UserRateLimitInfo) ⊎ OsmError)
      → now ≤ later
      → ((until : ℤ) → fetched_with term fetch ≡ inr (user_blocked until) → later < instant until)
      → IsCurrent now (get_patrol_scores now later settings cached term fetch)
  unfolding get_patrol_scores
  get_patrol_scores-IsCurrent now later settings cached term fetch le blocked =
      let fresh = serve_fetched-IsCurrent later settings cached (fetched_with term fetch) blocked in
      let fresh' =
        IsCurrent-earlier now later (serve_fetched later settings cached (fetched_with term fetch))
          le fresh in
      if_split (IsCurrent now) (is_valid now cached)
        (λ e.
          serve_valid-IsCurrent now cached settings
            (serve_fetched later settings cached (fetched_with term fetch)) e fresh')
        (λ e. fresh')

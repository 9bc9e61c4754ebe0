-- ===== src/Osm/Request/Laws.antt =====
-- What a request to OSM leaves: how often OSM is called, and which calls are held back after OSM
-- has blocked the service or the user.
use osm_device_adapter.Prelude.{
  ℕ, suc, ◌+◌, ◌*◌, ◌≤◌, ◌<◌, String, Bool, true, false, Option, none, some, ltb, str_eq,
  if◌then◌else◌, length, ◌≡◌, refl, arith, if_both, if_split,
}
use osm_device_adapter.Prelude.Int.{
  ℤ, pos, negsuc, ◌+ℤ◌, ◌<ℤ◌, ltb_ℤ, two_63, wrap_64-pos, eq_ℤ-refl,
}
use osm_device_adapter.Db.Models.{second}
use osm_device_adapter.Osm.Blocks.{
  OsmState, RedisFaults, mark_osm_service_blocked, mark_user_temporarily_blocked,
  get_user_block_end_time, log_sent, whole_seconds,
}
use osm_device_adapter.Osm.Request.{
  service_blocked, user_blocked, HttpResponse, Client, OsmUser, Outcome, succeeds, fails, panics,
  refused, exchange, received, request, Conversation, retried, retry_with, settled,
  parse_retry_after_header, seconds_duration, fallback_user_block_time, parse_rate_limit_headers,
  mark_user, user_block, store_blocked,
}

-- A positive number of seconds is a positive duration, unless it overflows.
seconds_duration-positive :
    (z : ℤ) → ((n : ℕ) → z ≡ pos n → n * second < two_63) → pos 0 <ℤ z → pos 0 <ℤ seconds_duration z
seconds_duration-positive (pos n) fits p =
    let e = wrap_64-pos (second * n) (omega (arith, fits n refl)) in rw e (omega (arith, p))
seconds_duration-positive (negsuc n) fits p = ground (arith, p)

+ℤ_increasing : (a : ℕ) (d : ℤ) → pos 0 <ℤ d → pos a <ℤ pos a +ℤ d
unfolding ◌+ℤ◌
+ℤ_increasing a (pos n) p = ground (arith, p)
+ℤ_increasing a (negsuc n) p = ground (arith, p)

-- The block that a 429 sets ends in the future, unless its seconds overflow a duration.
pub parse_retry_after_header_future :
    (atoi : String → ℤ × Bool) (now : ℕ) (text : String) (default_seconds : ℤ)
    → ((n : ℕ) → (atoi text).0 ≡ pos n → n * second < two_63)
    → ((n : ℕ) → default_seconds ≡ pos n → n * second < two_63)
    → pos now <ℤ parse_retry_after_header atoi now text default_seconds
unfolding parse_retry_after_header
parse_retry_after_header_future atoi now text default_seconds fits fits' =
    let z : ℤ = if (atoi text).1 then (atoi text).0 else default_seconds in
    let fits_z : (n : ℕ) → z ≡ pos n → n * second < two_63 =
      if_both (λ (z : ℤ). (n : ℕ) → z ≡ pos n → n * second < two_63) (atoi text).1 fits fits' in
    if_split (λ t. pos now <ℤ t) (ltb_ℤ (pos 0) z)
      (λ e.
        +ℤ_increasing now (seconds_duration z)
          (seconds_duration-positive z fits_z (ground (arith, e))))
      (λ e. +ℤ_increasing now fallback_user_block_time (ground arith))

sent-mark_user :
    (c : Client) (redis : RedisFaults) (now : ℕ) (user : Option ℤ) (until : ℤ) (s : OsmState)
    → (mark_user c redis now user until s).sent ≡ s.sent
unfolding mark_user_temporarily_blocked
sent-mark_user c redis now none until s = refl
sent-mark_user c redis now (some u) (negsuc n) s = refl
sent-mark_user c redis now (some u) (pos n) s = ground arith

module _ {A : Type 0} (atoi : String → ℤ × Bool) (c : Client) where
  sent-received :
      (redis : RedisFaults) (now : ℕ) (u : OsmUser) (resp : Option (HttpResponse A)) (s : OsmState)
      → (received atoi c redis now u s resp).0.sent ≡ s.sent
  unfolding mark_osm_service_blocked
  sent-received redis now u none s = refl
  sent-received redis now u (some resp) s = ground (
    arith,
    sent-mark_user c redis now u.user_id
        (parse_retry_after_header atoi now resp.headers.retry_after
          (parse_rate_limit_headers atoi resp.headers).2)
        s,
  )

  -- One pass sends at most one request.
  exchange-sent :
      (redis : RedisFaults) (now : ℕ) (u : OsmUser) (resp : Option (HttpResponse A)) (s : OsmState)
      → length (exchange atoi c redis now u resp s).0.sent ≤ suc (length s.sent)
  unfolding exchange
  exchange-sent redis now u resp s =
      ground (arith, sent-received redis now u resp (log_sent u.access_token s))

  settled-state : (r : OsmState × Outcome A) → (settled atoi c r).0 ≡ r.0
  settled-state (s, succeeds limits a) = refl
  settled-state (s, fails e) = refl
  settled-state (s, panics) = refl
  settled-state (s, refused) = refl

  retry_with-sent :
      (v : Conversation A) (u : OsmUser) (s : OsmState) (token : Option String)
      → length (retry_with atoi c v u s token).0.sent ≤ suc (length s.sent)
  retry_with-sent v u s none = omega arith
  retry_with-sent v u s (some token) =
      let u' : OsmUser = record { user_id = u.user_id; access_token = token } in
      let answer = v.second_answer token in
      rw (settled-state (exchange atoi c v.later_redis v.later u' answer s))
        (exchange-sent v.later_redis v.later u' answer s)

  retried-sent :
      (v : Conversation A) (u : OsmUser) (r : OsmState × Outcome A)
      → length (retried atoi c v u r).0.sent ≤ suc (length r.0.sent)
  retried-sent v u (s, succeeds limits a) = omega arith
  retried-sent v u (s, fails e) = omega arith
  retried-sent v u (s, panics) = omega arith
  retried-sent v u (s, refused) = retry_with-sent v u s v.new_token

  -- A request calls OSM at most twice.
  pub request-sent :
      (v : Conversation A) (u : OsmUser) (s : OsmState)
      → length (request atoi c v u s).0.sent ≤ 2 + length s.sent
  unfolding request
  request-sent v u s =
      let first = exchange atoi c v.redis v.now u v.first s in
      omega (arith, retried-sent v u first, exchange-sent v.redis v.now u v.first s)

  -- After the service has been marked blocked, a request that can read the mark fails and sends
  -- nothing.
  request-blocked :
      (v : Conversation A) (u : OsmUser) (s : OsmState)
      → c.has_store ≡ true
      → v.redis.get_service ≡ false
      → s.service_blocked ≡ true
      → request atoi c v u s ≡ (s, fails service_blocked)
  unfolding request exchange
  request-blocked v u s store reads e =
      let b : store_blocked c v.redis s ≡ true = ground (arith, store, reads, e) in rw b refl

  -- Where a client keeps blocks, and OSM answers a first request that no block held back with the
  -- header X-Blocked, and Redis takes the mark: the next request, whoever makes it, sends nothing
  -- and fails with the service blocked, if it can read the mark, and it leaves the mark.
  pub request_after_x_blocked :
      (v v' : Conversation A) (u u' : OsmUser) (s : OsmState) (resp : HttpResponse A)
      → c.has_store ≡ true
      → v.redis.set ≡ false
      → v'.redis.get_service ≡ false
      → s.service_blocked ≡ false
      → ltb v.now (user_block c v.redis v.now u.user_id s) ≡ false
      → v.first ≡ some resp
      → str_eq resp.headers.x_blocked "" ≡ false
      → request atoi c v' u' (request atoi c v u s).0
        ≡ ((request atoi c v u s).0, fails service_blocked)
  request_after_x_blocked v v' u u' s resp store sets reads e free answer header =
      request-blocked v' u' (request atoi c v u s).0 store reads (
        let e' : store_blocked c v.redis s ≡ false = ground (arith, e) in
        unfold request exchange mark_osm_service_blocked in
        rw (free, e', sets, store, answer, header) refl)

  -- A user with a block that has not ended makes no requests.
  request-user_blocked :
      (v : Conversation A) (u : OsmUser) (s : OsmState)
      → s.service_blocked ≡ false
      → v.now < user_block c v.redis v.now u.user_id s
      → request atoi c v u s
        ≡ (s, fails (user_blocked (pos (user_block c v.redis v.now u.user_id s))))
  unfolding request exchange
  request-user_blocked v u s e blocked =
      let b : ltb v.now (user_block c v.redis v.now u.user_id s) ≡ true = ground (arith, blocked) in
      let e' : store_blocked c v.redis s ≡ false = ground (arith, e) in rw (b, e') refl

  -- Where a client keeps blocks and records limits, and OSM answers a user's first request, which no
  -- block held back, with a 429 and no header X-Blocked, for a block that ends in the future, and
  -- Redis takes the block: the next request of the same user before that end, rounded down to the
  -- second, sends nothing and fails with the block, if it can read it, and it leaves the block.
  pub request_after_429 :
      (v v' : Conversation A) (u u' : OsmUser) (user : ℤ) (s : OsmState) (resp : HttpResponse A)
      (until : ℕ)
      → c.has_store ≡ true
      → c.has_recorder ≡ true
      → v.redis.set ≡ false
      → v'.redis.get_user ≡ false
      → s.service_blocked ≡ false
      → ltb v.now (user_block c v.redis v.now u.user_id s) ≡ false
      → u.user_id ≡ some user
      → u'.user_id ≡ some user
      → v.first ≡ some resp
      → str_eq resp.headers.x_blocked "" ≡ true
      → resp.status_code ≡ 429
      → parse_retry_after_header atoi v.now resp.headers.retry_after
          (parse_rate_limit_headers atoi resp.headers).2
        ≡ pos until
      → v.now < until
      → v'.now < whole_seconds until
      → request atoi c v' u' (request atoi c v u s).0
        ≡ ((request atoi c v u s).0, fails (user_blocked (pos (whole_seconds until))))
  request_after_429 v v' u u' user s resp until store recorder sets reads e free id id' answer
        header status ends future soon =
      let s' = mark_user_temporarily_blocked v.redis v.now user until (log_sent u.access_token s) in
      let e' : store_blocked c v.redis s ≡ false = ground (arith, e) in
      let after : (request atoi c v u s).0 ≡ s' =
        unfold request exchange in
        rw (free, e', answer, header, recorder, status, ends, id, store) refl in
      let block : user_block c v'.redis v'.now u'.user_id s' ≡ whole_seconds until =
        unfold mark_user_temporarily_blocked get_user_block_end_time in
        rw (id', store, sets, reads, eq_ℤ-refl user) (ground (arith, future, soon)) in
      let still : v'.now < user_block c v'.redis v'.now u'.user_id s' = rw block soon in
      let unblocked : s'.service_blocked ≡ false =
        unfold mark_user_temporarily_blocked in rw sets e in
      rw (after, request-user_blocked v' u' s' unblocked still, block) refl

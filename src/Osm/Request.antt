-- ===== src/Osm/Request.antt =====
-- `Request` of internal/osm/request.go: the checks of the blocks, one exchange with OSM, what its
-- headers say, and the one retry with a refreshed token.
pub mod Laws
use osm_device_adapter.Prelude.{
  ℕ, ◌+◌, ◌*◌, String, Bool, true, false, not, ◌&&◌, Option, none, some, ltb, ◌==◌, str_eq,
  if◌then◌else◌,
}
use osm_device_adapter.Prelude.Int.{ℤ, pos, negsuc, ◌+ℤ◌, ltb_ℤ, wrap_64, scale}
use osm_device_adapter.Db.Models.{second, minute}
use osm_device_adapter.Osm.Blocks.{
  OsmState, RedisFaults, is_osm_service_blocked, mark_osm_service_blocked,
  mark_user_temporarily_blocked, get_user_block_end_time, log_sent,
}

-- What the callers tell apart by `errors.Is` and `errors.As`.
pub data OsmError : Type 0 where
  service_blocked : OsmError
  user_blocked : ℤ → OsmError
  unauthorized : OsmError
  other_error : OsmError

pub record UserRateLimitInfo : Type 0 where
  pub remaining : ℤ
  pub limit : ℤ
  pub resets_at : ℤ

-- A missing header reads as "".
pub record Headers : Type 0 where
  pub x_blocked : String
  pub rate_limit_limit : String
  pub rate_limit_remaining : String
  pub rate_limit_reset : String
  pub retry_after : String

-- What OSM answers; `body` is none where it does not decode into the target.
pub record HttpResponse (A : Type 0) : Type 0 where
  pub status_code : ℕ
  pub headers : Headers
  pub body : Option A

-- The `time.Duration` of a number of seconds, in nanoseconds.
abbrev pub seconds_duration : ℤ → ℤ
seconds_duration n = wrap_64 (scale second n)

abbrev pub fallback_user_block_time : ℤ
fallback_user_block_time = pos (10 * minute)

-- `strconv.Atoi`, with whether it gives no error.
module _ (atoi : String → ℤ × Bool) where
  abbrev pub atoi_or : ℤ → String → ℤ
  atoi_or default text = if (atoi text).1 then (atoi text).0 else default

  unfoldable pub parse_retry_after_header : ℕ → String → ℤ → ℤ
  parse_retry_after_header now text default_seconds =
      let retry_after = atoi_or default_seconds text in
      if ltb_ℤ (pos 0) retry_after
      then pos now +ℤ seconds_duration retry_after
      else pos now +ℤ fallback_user_block_time

  -- `limit, _ = strconv.Atoi(limitStr)`
  abbrev pub optional_header : String → ℤ
  optional_header text = if str_eq text "" then pos 0 else (atoi text).0

  -- Remaining, limit, reset.
  unfoldable pub parse_rate_limit_headers : Headers → ℤ × ℤ × ℤ
  parse_rate_limit_headers h =
      if str_eq h.rate_limit_remaining ""
      then (pos 0, pos 0, pos 0)
      else if not (atoi h.rate_limit_remaining).1
      then (pos 0, pos 0, pos 0)
      else (
        (atoi h.rate_limit_remaining).0,
        optional_header h.rate_limit_limit,
        optional_header h.rate_limit_reset,
      )

-- Whether the client was built with a `RateLimitStore` and with a `LatencyRecorder`.
pub record Client : Type 0 where
  pub has_store : Bool
  pub has_recorder : Bool

-- `WithUser`
pub record OsmUser : Type 0 where
  pub user_id : Option ℤ
  pub access_token : String

pub data Outcome (A : Type 0) : Type 0 where
  succeeds : UserRateLimitInfo → A → Outcome A
  fails : OsmError → Outcome A
  panics : Outcome A
  -- A 401, which may be retried.
  refused : Outcome A

abbrev pub store_blocked : Client → RedisFaults → OsmState → Bool
store_blocked c redis s = c.has_store && is_osm_service_blocked redis s

abbrev pub user_block : Client → RedisFaults → ℕ → Option ℤ → OsmState → ℕ
user_block c redis now none s = 0
user_block c redis now (some user) s =
    if c.has_store then get_user_block_end_time redis now user s else 0

abbrev pub mark_user : Client → RedisFaults → ℕ → Option ℤ → ℤ → OsmState → OsmState
mark_user c redis now (some user) (pos until) s =
    if c.has_store then mark_user_temporarily_blocked redis now user until s else s
mark_user c redis now user until s = s

-- `config.userId != nil`
abbrev pub has_user : OsmUser → Bool
has_user u = elim u.user_id [ none ↦ false | some id ↦ true ]

-- What OSM and the refresh of the token do: the answers to the first request and to the retry, and
-- the token that `TokenRefreshFunc` returns, if the context has one and it works; and which calls
-- of Redis fail in the first pass and in the retry.
pub record Conversation (A : Type 0) : Type 0 where
  pub now : ℕ
  pub redis : RedisFaults
  pub first : Option (HttpResponse A)
  pub new_token : Option String
  pub later : ℕ
  pub later_redis : RedisFaults
  pub second_answer : String → Option (HttpResponse A)

module _ {A : Type 0} (atoi : String → ℤ × Bool) (c : Client) where
  -- `json.NewDecoder(resp.Body).Decode(target)`
  abbrev decoded : UserRateLimitInfo → Option A → Outcome A
  decoded limits none = fails other_error
  decoded limits (some a) = succeeds limits a

  -- What is done about the answer, with no retry.
  abbrev pub answered : RedisFaults → ℕ → OsmUser → OsmState → HttpResponse A → OsmState × Outcome A
  answered redis now u s resp =
      let (remaining, limit, reset) = parse_rate_limit_headers atoi resp.headers in
      let until = parse_retry_after_header atoi now resp.headers.retry_after reset in
      let limits : UserRateLimitInfo = record {
        remaining = remaining;
        limit = limit;
        resets_at = pos now +ℤ seconds_duration reset;
      } in
      if not (str_eq resp.headers.x_blocked "")
      then (if c.has_store then mark_osm_service_blocked redis s else s, fails service_blocked)
      else if has_user u && not c.has_recorder
      then (s, panics)
      else if resp.status_code == 429
      then (mark_user c redis now u.user_id until s, fails (user_blocked until))
      else if resp.status_code == 401
      then (s, refused)
      else if not (resp.status_code == 200)
      then (s, fails other_error)
      else (s, decoded limits resp.body)

  -- `c.httpClient.Do(req)`: none is a transport error.
  abbrev pub received :
      RedisFaults → ℕ → OsmUser → OsmState → Option (HttpResponse A) → OsmState × Outcome A
  received redis now u s none = (s, fails other_error)
  received redis now u s (some resp) = answered redis now u s resp

  -- One pass of `Request`, up to the decision on a retry.
  unfoldable pub exchange :
      RedisFaults → ℕ → OsmUser → Option (HttpResponse A) → OsmState → OsmState × Outcome A
  exchange redis now u resp s =
      if store_blocked c redis s
      then (s, fails service_blocked)
      else if ltb now (user_block c redis now u.user_id s)
      then (s, fails (user_blocked (pos (user_block c redis now u.user_id s))))
      else received redis now u (log_sent u.access_token s) resp

  -- `errors.Is(err, ErrUnauthorized)` where no further retry is made.
  abbrev pub settled : OsmState × Outcome A → OsmState × Outcome A
  settled (s, refused) = (s, fails unauthorized)
  settled (s, outcome) = (s, outcome)

  abbrev pub retry_with : Conversation A → OsmUser → OsmState → Option String → OsmState × Outcome A
  retry_with v u s none = (s, fails unauthorized)
  retry_with v u s (some token) = settled (
      exchange v.later_redis v.later (record { user_id = u.user_id; access_token = token })
        (v.second_answer token) s)

  -- `attemptTokenRefreshAndRetry`, where the first pass ended in a 401.
  abbrev pub retried : Conversation A → OsmUser → OsmState × Outcome A → OsmState × Outcome A
  retried v u (s, refused) = retry_with v u s v.new_token
  retried v u (s, outcome) = (s, outcome)

  unfoldable pub request : Conversation A → OsmUser → OsmState → OsmState × Outcome A
  request v u s = retried v u (exchange v.redis v.now u v.first s)

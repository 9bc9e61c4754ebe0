-- ===== src/DeviceFlow/Token/Laws.antt =====
-- When the token endpoint hands out a token, and what it leaves alone.
use Prim.Native.String.{◌++◌ as append, len}
use osm_device_adapter.Prelude.{
  ℕ, ◌*◌, ◌≤◌, ◌<◌, ◌≡◌, refl, String, Bool, true, false, Option, none, some, arith, str_eq, eq_iff,
}
use osm_device_adapter.Prelude.Int.{ℤ}
use osm_device_adapter.Db.Models.{Status, authorized, DeviceCode, second, minute}
use osm_device_adapter.Db.DeviceCodes.{find_by_code}
use osm_device_adapter.Redis.RateLimit.{Counters, RateLimitResult, check_rate_limit}
use osm_device_adapter.DeviceFlow.World.{
  World, Faults, Config, token_issued, panicked, blocked, attempt,
}
use osm_device_adapter.DeviceFlow.Token.{
  DeviceTokenRequest, TokenCall, device_code_grant, issue, token_status, token_record, slow_down,
  expires_in, token_poll, token_body, device_token,
}

-- The row allows `token` to be handed out at `now`.
pub record Grants (now : ℕ) (token : String) (r : DeviceCode) : Type 0 where
  pub is_authorized : r.status ≡ authorized
  pub holds_token : r.device_access_token ≡ some token
  pub is_unexpired : now ≤ r.expires_at

token_status-issued :
    (now : ℕ) (r : DeviceCode) (s : Status) (t : String) (e : ℤ)
    → token_status now r s ≡ token_issued t e
    → (s ≡ authorized) × (r.device_access_token ≡ some t)
unfolding token_status issue
token_status-issued now r s t e h = ground arith

token_record-issued :
    (now later : ℕ) (o : Option (Option DeviceCode)) (t : String) (e : ℤ)
    → token_record now later o ≡ token_issued t e
    → (r : DeviceCode) × (o ≡ some (some r)) × Grants now t r
unfolding token_record
token_record-issued now later none t e h = cc
token_record-issued now later (some none) t e h = cc
token_record-issued now later (some (some r)) t e h =
    (r, refl, ground (arith, token_status-issued later r r.status t e))

slow_down-ne-issued : (code : String) (t : String) (e : ℤ) → ¬ (slow_down code ≡ token_issued t e)
unfolding slow_down
slow_down-ne-issued code t e h = ground arith

attempt-eq-some {ℓ} : {A : Type ℓ} (b : Bool) (a x : A) → attempt b a ≡ some x → a ≡ x
attempt-eq-some b a x h = ground arith

token_poll-issued :
    (cfg : Config) (faults : Faults) (now later : ℕ) (w : World) (req : DeviceTokenRequest)
    (t : String) (e : ℤ)
    → (token_poll cfg faults now later w req).1 ≡ token_issued t e
    → (r : DeviceCode) × (find_by_code req.device_code w.codes ≡ some r) × Grants now t r
unfolding token_poll
token_poll-issued cfg faults now later w req t e h =
    let found = attempt faults.find_code (find_by_code req.device_code w.codes) in
    let answered : token_record now later found ≡ token_issued t e =
      ground (arith, slow_down-ne-issued req.device_code t e) in
    let (r, at, grants) = token_record-issued now later found t e answered in
    (r, attempt-eq-some faults.find_code _ (some r) at, grants)

token_body-issued :
    (cfg : Config) (faults : Faults) (now later : ℕ) (w : World) (body : Option DeviceTokenRequest)
    (t : String) (e : ℤ)
    → (token_body cfg faults now later w body).1 ≡ token_issued t e
    → (req : DeviceTokenRequest) × (body ≡ some req)
      × (req.grant_type ≡ device_code_grant)
      × (r : DeviceCode) × (find_by_code req.device_code w.codes ≡ some r)
      × Grants now t r
unfolding token_body
token_body-issued cfg faults now later w none t e h = cc
token_body-issued cfg faults now later w (some req) t e h =
    let polled : (token_poll cfg faults now later w req).1 ≡ token_issued t e = ground arith in
    let (r, at, grants) = token_poll-issued cfg faults now later w req t e polled in
    (req, refl, ground (arith, eq_iff req.grant_type device_code_grant), r, at, grants)

-- A token is handed out only to a device code grant whose device code is in the table, authorized
-- and not expired, and it is that row's device access token.
pub device_token-issued :
    (cfg : Config) (faults : Faults) (now later : ℕ) (w : World) (call : TokenCall) (t : String)
    (e : ℤ)
    → (device_token cfg faults now later w call).1 ≡ token_issued t e
    → (req : DeviceTokenRequest) × (call.body ≡ some req)
      × (req.grant_type ≡ device_code_grant)
      × (r : DeviceCode) × (find_by_code req.device_code w.codes ≡ some r)
      × Grants now t r
unfolding device_token
device_token-issued cfg faults now later w call t e h =
    let counters =
      (check_rate_limit faults.rate_limiter now "device_token"
        (append call.client_ip ":/device/token") cfg.device_token_rate_limit minute w.counters).1 in
    let w' : World = record w { counters = counters } in
    let passed : (token_body cfg faults now later w' call.body).1 ≡ token_issued t e =
      ground arith in
    token_body-issued cfg faults now later w' call.body t e passed

-- The IP limit of the token endpoint, at a call.
abbrev pub ip_check : Config → Faults → ℕ → World → TokenCall → Option RateLimitResult × Counters
ip_check cfg faults now w call =
    check_rate_limit faults.rate_limiter now "device_token" (append call.client_ip ":/device/token")
      cfg.device_token_rate_limit minute w.counters

-- The poll limit of the token endpoint, after the IP limit.
abbrev pub poll_check :
    Config → Faults → ℕ → World → TokenCall → DeviceTokenRequest → Option RateLimitResult × Counters
poll_check cfg faults now w call req =
    check_rate_limit faults.poll_limiter now "device_token_poll"
      (append "device_token_poll:" req.device_code) 1 (cfg.device_poll_interval * second)
      (ip_check cfg faults now w call).1

-- A device code grant within both limits, whose row is in a table that can be read and grants the
-- token, is answered with that token.
pub device_token-Grants :
    (cfg : Config) (faults : Faults) (now later : ℕ) (w : World) (call : TokenCall)
    (req : DeviceTokenRequest) (r : DeviceCode) (token : String)
    → call.is_post ≡ true
    → call.body ≡ some req
    → req.grant_type ≡ device_code_grant
    → str_eq req.device_code "" ≡ false
    → blocked (ip_check cfg faults now w call).0 ≡ none
    → blocked (poll_check cfg faults now w call req).0 ≡ none
    → faults.find_code ≡ false
    → find_by_code req.device_code w.codes ≡ some r
    → Grants now token r
    → (device_token cfg faults now later w call).1
      ≡ token_issued token (expires_in later r.osm_token_expiry)
unfolding device_token token_body token_poll token_record token_status issue
device_token-Grants cfg faults now later w call req r token p b g n i q d f grants =
    ground (arith, eq_iff req.grant_type device_code_grant)

-- A call that passes the IP limit and polls too fast makes the handler panic if its device code
-- has fewer than 8 bytes.
pub device_token_panics :
    (cfg : Config) (faults : Faults) (now later : ℕ) (w : World) (call : TokenCall)
    (req : DeviceTokenRequest) (retry : ℤ)
    → call.is_post ≡ true
    → call.body ≡ some req
    → req.grant_type ≡ device_code_grant
    → str_eq req.device_code "" ≡ false
    → blocked (ip_check cfg faults now w call).0 ≡ none
    → blocked (poll_check cfg faults now w call req).0 ≡ some retry
    → len req.device_code < 8
    → (device_token cfg faults now later w call).1 ≡ panicked
unfolding device_token token_body token_poll slow_down
device_token_panics cfg faults now later w call req retry p b g n i q l =
    ground (arith, eq_iff req.grant_type device_code_grant)

-- The endpoint writes nothing but the counters of the rate limiter.
pub device_token_reads_only :
    (cfg : Config) (faults : Faults) (now later : ℕ) (w : World) (call : TokenCall)
    → ((device_token cfg faults now later w call).0.codes ≡ w.codes)
      × ((device_token cfg faults now later w call).0.sessions ≡ w.sessions)
      × ((device_token cfg faults now later w call).0.clients ≡ w.clients)
unfolding device_token token_body token_poll
device_token_reads_only cfg faults now later w call = ground arith

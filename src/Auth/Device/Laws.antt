-- ===== src/Auth/Device/Laws.antt =====
-- What the authentication of internal/deviceauth/service.go and internal/middleware/auth.go keeps.
use Prim.Native.String.{◌++◌ as append, len}
use text.Mathlib.TextPositions.{len-append, slice-append_right, starts_with-append}
use osm_device_adapter.Prelude.{
  ℕ, ◌+◌, ◌*◌, ◌≤◌, ◌≡◌, refl, ap, ◌∙◌, String, true, false, not, ◌&&◌, Option, none, some, [], ◌∷◌,
  arith, ltb, str_eq, eq_refl, if◌then◌else◌, find?-passes, if_both, subst,
}
use mathlib.Core.Option
use osm_device_adapter.Db.Models.{authorized, status_eq, DeviceCode, minute}
use osm_device_adapter.Db.DeviceCodes.{
  Table, is_text, update_where, find_by_device_access_token, update_tokens_only, update_last_used,
  revoke,
}
use osm_device_adapter.Osm.Types.{token_expiry, OsmTokenResponse}
use osm_device_adapter.Auth.Refresh.{
  OauthAnswer, new_tokens, access_revoked, oauth_failed, token_revoked, token_refresh_failed,
  TokenResult, refreshed, refused, refresh_token,
}
use osm_device_adapter.Auth.Device.{
  extract_bearer_token, DeviceFaults, AuthContext, AuthResult, authenticated, rejected, panics,
  text_or_empty, needs_refresh, no_device_faults, authenticate_token, authenticate,
  refresh_device_token, used, after_refresh, with_lookup, answers, device_auth,
}

-- The token of a header that is written as `Bearer` and the token.
pub extract_bearer_token-append : (t : String) → extract_bearer_token (append "Bearer " t) ≡ t
unfolding extract_bearer_token
extract_bearer_token-append t =
    ground (
      arith,
      len-append "Bearer " t,
      starts_with-append "Bearer " t,
      slice-append_right "Bearer " t,
    )

-- The device of a request that goes on is the one that was found.
abbrev pub IsFrom : Option DeviceCode → AuthResult → Type 0
IsFrom found (authenticated c) = found ≡ some c.device
IsFrom found (rejected e) = Unit
IsFrom found panics = Unit

module _ (faults : DeviceFaults) where
  used-IsFrom :
      (now : ℕ) (device : DeviceCode) (access : String) (table : Table)
      → IsFrom (some device) (used faults now device access table).1
  used-IsFrom now device access table =
      if_both (λ (r : Table × AuthResult). IsFrom (some device) r.1) (not faults.last_used) refl
        (if_both (λ (r : Table × AuthResult). IsFrom (some device) r.1)
          (ltb (len device.device_code) 8) tt refl)

  after_refresh-IsFrom :
      (now : ℕ) (device : DeviceCode) (r : Table × TokenResult)
      → IsFrom (some device) (after_refresh faults now device r).1
  after_refresh-IsFrom now device (table, refreshed access) = used-IsFrom now device access table
  after_refresh-IsFrom now device (table, refused e) = tt

  with_lookup-IsFrom :
      (osm : String → OauthAnswer) (now later : ℕ) (table : Table) (found : Option DeviceCode)
      → IsFrom found (with_lookup faults osm now later table found).1
  with_lookup-IsFrom osm now later table none = tt
  with_lookup-IsFrom osm now later table (some device) =
      if_both (λ (r : Table × AuthResult). IsFrom (some device) r.1)
        (not (needs_refresh now device.osm_token_expiry))
        (used-IsFrom later device (text_or_empty device.osm_access_token) table)
        (if_both (λ (r : Table × AuthResult). IsFrom (some device) r.1)
          (ltb (len device.device_code) 8) tt
          (after_refresh-IsFrom later device (refresh_device_token faults osm later device table)))

  authenticate_token-IsFrom :
      (osm : String → OauthAnswer) (now later : ℕ) (token : String) (table : Table)
      → IsFrom
          (find_by_device_access_token token table)
          (authenticate_token faults osm now later token table).1
  unfolding authenticate_token
  authenticate_token-IsFrom osm now later token table =
      if_both (λ (r : Table × AuthResult). IsFrom (find_by_device_access_token token table) r.1)
        (str_eq token "") tt
        (if_both (λ (r : Table × AuthResult). IsFrom (find_by_device_access_token token table) r.1)
          faults.find tt
          (with_lookup-IsFrom osm now later table (find_by_device_access_token token table)))

-- Whatever the faults and OSM's answers, a request goes on only as a device that the table has,
-- that is authorized and whose device access token is the request's bearer token.
pub authenticate-found :
    (faults : DeviceFaults) (osm : String → OauthAnswer) (now later : ℕ) (header : String)
    (table rows : Table) (c : AuthContext)
    → authenticate faults osm now later header table ≡ (rows, authenticated c)
    → (find_by_device_access_token (extract_bearer_token header) table ≡ some c.device)
      × (is_text (extract_bearer_token header) c.device.device_access_token
            && status_eq c.device.status authorized
          ≡ true)
unfolding authenticate find_by_device_access_token
authenticate-found faults osm now later header table rows c h =
    let token = extract_bearer_token header in
    let found : find_by_device_access_token token table ≡ some c.device =
      subst (λ (r : Table × AuthResult). IsFrom (find_by_device_access_token token table) r.1) h
        (authenticate_token-IsFrom faults osm now later token table) in
    (
      found,
      find?-passes (λ r. is_text token r.device_access_token && status_eq r.status authorized) table
          c.device found,
    )

-- A request that needs a refresh, from a device whose code can be cut for the log.
abbrev pub NeedsRefresh : ℕ → String → Table → DeviceCode → Type 0
NeedsRefresh now token table device =
    (find_by_device_access_token token table ≡ some device)
    × ((str_eq token "" ≡ false)
        × ((ltb (len device.device_code) 8 ≡ false)
            × ((needs_refresh now device.osm_token_expiry ≡ true)
                × (str_eq (text_or_empty device.osm_refresh_token) "" ≡ false))))

-- Such a request is answered by the refresh.
authenticate-refreshes :
    (faults : DeviceFaults) (osm : String → OauthAnswer) (now later : ℕ) (token : String)
    (table : Table) (device : DeviceCode)
    → NeedsRefresh now token table device
    → faults.find ≡ false
    → authenticate_token faults osm now later token table
      ≡ after_refresh faults later device (refresh_device_token faults osm later device table)
unfolding authenticate_token
authenticate-refreshes faults osm now later token table device
      (found, (full, (long, (near, some_refresh)))) finds =
    rw (full, finds, found, near, long)

-- A request whose refresh finds that the access was revoked is refused and revokes the device.
pub authenticate-revokes :
    (faults : DeviceFaults) (osm : String → OauthAnswer) (now later : ℕ) (header : String)
    (table : Table) (device : DeviceCode)
    → NeedsRefresh now (extract_bearer_token header) table device
    → osm (text_or_empty device.osm_refresh_token) ≡ access_revoked
    → faults.find ≡ false
    → faults.revoke ≡ false
    → authenticate faults osm now later header table
      ≡ (revoke device.device_code table, rejected token_revoked)
unfolding authenticate refresh_token
authenticate-revokes faults osm now later header table device needs gone finds revokes =
    let some_refresh = needs.1.1.1.1 in
    authenticate-refreshes faults osm now later (extract_bearer_token header) table device needs
      finds
    ∙ rw (some_refresh, gone, revokes)

-- Where OSM cannot be reached, or fails in any other way, nothing is written, and the device is
-- told to come back in a minute.
pub authenticate-unavailable :
    (faults : DeviceFaults) (osm : String → OauthAnswer) (now later : ℕ) (header : String)
    (table : Table) (device : DeviceCode)
    → NeedsRefresh now (extract_bearer_token header) table device
    → osm (text_or_empty device.osm_refresh_token) ≡ oauth_failed
    → faults.find ≡ false
    → ((authenticate faults osm now later header table).0 ≡ table)
      × (device_auth (authenticate faults osm now later header table).1
          ≡ answers 503 "Server Error" (some 60))
unfolding authenticate refresh_token device_auth
authenticate-unavailable faults osm now later header table device needs down finds =
    let some_refresh = needs.1.1.1.1 in
    let refused_now : authenticate faults osm now later header table
        ≡ (table, rejected token_refresh_failed) =
      authenticate-refreshes faults osm now later (extract_bearer_token header) table device needs
        finds
      ∙ rw (some_refresh, down) in
    (
      ap (λ (r : Table × AuthResult). r.0) refused_now,
      ap (λ (r : Table × AuthResult). device_auth r.1) refused_now,
    )

-- The writes of a request keep what a device is found by.
find_by_device_access_token-update_where :
    (k token : String) (f : DeviceCode → DeviceCode) (table : Table)
    → ((r : DeviceCode)
        → ((f r).device_access_token ≡ r.device_access_token) × ((f r).status ≡ r.status))
    → find_by_device_access_token token (update_where k f table)
      ≡ Option.map
          (λ r. if str_eq r.device_code k then f r else r)
          (find_by_device_access_token token table)
unfolding find_by_device_access_token
find_by_device_access_token-update_where k token f [] keeps = refl
find_by_device_access_token-update_where k token f (r ∷ rs) keeps =
    ground (arith, keeps r, find_by_device_access_token-update_where k token f rs keeps)

-- The table and the row that a refresh and the note of its use leave.
abbrev pub refreshed_table : ℕ → OsmTokenResponse → DeviceCode → Table → Table
refreshed_table later tokens device table = update_last_used later device.device_code (
    update_tokens_only device.device_code tokens.access_token tokens.refresh_token
      (token_expiry later tokens.expires_in) table)

abbrev pub refreshed_device : ℕ → OsmTokenResponse → DeviceCode → DeviceCode
refreshed_device later tokens device = record device {
  osm_access_token = some tokens.access_token;
  osm_refresh_token = some tokens.refresh_token;
  osm_token_expiry = some (token_expiry later tokens.expires_in);
  last_used_at = some later;
}

find-refreshed_table :
    (later : ℕ) (tokens : OsmTokenResponse) (token : String) (table : Table) (device : DeviceCode)
    → find_by_device_access_token token table ≡ some device
    → find_by_device_access_token token (refreshed_table later tokens device table)
      ≡ some (refreshed_device later tokens device)
unfolding update_tokens_only update_last_used
find-refreshed_table later tokens token table device found =
    let code = device.device_code in
    let with_new_tokens : DeviceCode → DeviceCode = (λ r. record r {
      osm_access_token = some tokens.access_token;
      osm_refresh_token = some tokens.refresh_token;
      osm_token_expiry = some (token_expiry later tokens.expires_in);
    }) in
    let with_last_used : DeviceCode → DeviceCode = (λ r. record r { last_used_at = some later }) in
    let written : Table = update_where code with_new_tokens table in
    rw (
      find_by_device_access_token-update_where code token with_last_used written
          (λ r. (refl, refl)),
      find_by_device_access_token-update_where code token with_new_tokens table (λ r. (refl, refl)),
      found,
      eq_refl code,
      eq_refl code,
    )

-- The access token that a refresh gives is stored: the next request uses it and does not ask OSM,
-- if it comes five minutes before the expiry that was stored, which is the sum that an int64 gives.
pub authenticate-refreshed_again :
    (osm later_osm : String → OauthAnswer) (now later now' later' : ℕ) (header : String)
    (table : Table) (device : DeviceCode) (tokens : OsmTokenResponse)
    → NeedsRefresh now (extract_bearer_token header) table device
    → osm (text_or_empty device.osm_refresh_token) ≡ new_tokens tokens
    → now' + 5 * minute ≤ token_expiry later tokens.expires_in
    → ((authenticate no_device_faults osm now later header table).1
        ≡ authenticated (record { device = device; osm_access_token = tokens.access_token }))
      × ((authenticate no_device_faults later_osm now' later' header
            (authenticate no_device_faults osm now later header table).0).1
          ≡ authenticated (record {
            device = refreshed_device later tokens device;
            osm_access_token = tokens.access_token;
          }))
unfolding authenticate authenticate_token refresh_token
authenticate-refreshed_again osm later_osm now later now' later' header table device tokens needs
      good early =
    let token = extract_bearer_token header in
    let full = needs.1.0 in
    let some_refresh = needs.1.1.1.1 in
    let written = refreshed_table later tokens device table in
    let first : authenticate no_device_faults osm now later header table ≡ (
      written,
      authenticated (record { device = device; osm_access_token = tokens.access_token }),
    ) =
      authenticate-refreshes no_device_faults osm now later token table device needs refl
      ∙ rw (some_refresh, good) in
    let fresh : ltb (token_expiry later tokens.expires_in) (now' + 5 * minute) ≡ false =
      ground (arith, early) in
    (
      ap (λ (r : Table × AuthResult). r.1) first,
      ap
            (λ (r : Table × AuthResult).
              (authenticate no_device_faults later_osm now' later' header r.0).1)
            first
          ∙ rw (full, find-refreshed_table later tokens token table device needs.0, fresh),
    )

-- A failing database is answered as a wrong token is: 401, and not 503.
pub authenticate-database_error :
    (faults : DeviceFaults) (osm : String → OauthAnswer) (now later : ℕ) (header : String)
    (table : Table)
    → faults.find ≡ true
    → ((authenticate faults osm now later header table).0 ≡ table)
      × (device_auth (authenticate faults osm now later header table).1
          ≡ answers 401 "Unauthorized" none)
unfolding authenticate authenticate_token device_auth
authenticate-database_error faults osm now later header table down = ground (arith, down)

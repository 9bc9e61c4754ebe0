-- ===== src/Auth/Device/Revoked.antt =====
-- A device whose access was revoked, in every later history of requests to
-- internal/deviceauth/service.go.
use Prim.Native.String.{len}
use osm_device_adapter.Prelude.{
  ℕ, ◌≡◌, refl, ap, String, Bool, true, false, not, ◌&&◌, Option, none, some, List, [], ◌∷◌, arith,
  ltb, str_eq, All, All-Mem, if_both, find?-Mem, subst, sym,
}
use osm_device_adapter.Db.Models.{authorized, status_eq, DeviceCode}
use osm_device_adapter.Db.DeviceCodes.{
  Table, is_text, find_by_device_access_token, update_tokens_only, update_last_used, revoke,
}
use osm_device_adapter.Db.DeviceCodes.Laws.{All-update_where}
use osm_device_adapter.Osm.Types.{token_expiry}
use osm_device_adapter.Auth.Refresh.{
  OauthAnswer, new_tokens, access_revoked, oauth_failed, TokenResult, refreshed, refused,
  refresh_token, handled,
}
use osm_device_adapter.Auth.Device.{
  extract_bearer_token, DeviceFaults, AuthResult, authenticated, rejected, panics, text_or_empty,
  needs_refresh, unless, authenticate_token, authenticate, refresh_device_token, used,
  after_refresh, with_lookup, answers, device_auth,
}
use osm_device_adapter.Auth.Device.Laws.{NeedsRefresh, authenticate-found, authenticate-revokes}

-- The device code has no authorized row.
abbrev is_usable : String → DeviceCode → Bool
is_usable code r = str_eq r.device_code code && status_eq r.status authorized

abbrev IsOut : String → Table → Type 0
IsOut code table = All (λ r. is_usable code r ≡ false) table

revoke-IsOut : (code : String) (table : Table) → IsOut code (revoke code table)
unfolding revoke
revoke-IsOut code [] = tt
revoke-IsOut code (r ∷ rs) = (ground arith, revoke-IsOut code rs)

module _ (code : String) where
  revoke-keeps : (k : String) (table : Table) → IsOut code table → IsOut code (revoke k table)
  unfolding revoke
  revoke-keeps k table out =
      All-update_where (λ r. is_usable code r ≡ false) k _ table (λ r e p. ground arith) out

  update_last_used-keeps :
      (now : ℕ) (k : String) (table : Table)
      → IsOut code table
      → IsOut code (update_last_used now k table)
  unfolding update_last_used
  update_last_used-keeps now k table out =
      All-update_where (λ r. is_usable code r ≡ false) k _ table (λ r e p. p) out

  update_tokens_only-keeps :
      (k access refresh : String) (expiry : ℕ) (table : Table)
      → IsOut code table
      → IsOut code (update_tokens_only k access refresh expiry table)
  unfolding update_tokens_only
  update_tokens_only-keeps k access refresh expiry table out =
      All-update_where (λ r. is_usable code r ≡ false) k _ table (λ r e p. p) out

  module _ (faults : DeviceFaults) where
    used-IsOut :
        (now : ℕ) (device : DeviceCode) (access : String) (table : Table)
        → IsOut code table
        → IsOut code (used faults now device access table).0
    used-IsOut now device access table out =
        if_both (λ (r : Table × AuthResult). IsOut code r.0) (not faults.last_used)
          (update_last_used-keeps now device.device_code table out)
          (if_both (λ (r : Table × AuthResult). IsOut code r.0) (ltb (len device.device_code) 8) out
            out)

    abbrev on_success : DeviceCode → String → String → ℕ → Table → Table × Bool
    on_success device access refresh expiry =
        unless faults.update_tokens (update_tokens_only device.device_code access refresh expiry)

    abbrev on_revoked : DeviceCode → Table → Table × Bool
    on_revoked device = unless faults.revoke (revoke device.device_code)

    on_success-IsOut :
        (device : DeviceCode) (access refresh : String) (expiry : ℕ) (table : Table) (b : Bool)
        → IsOut code table
        → IsOut code
            (unless b (update_tokens_only device.device_code access refresh expiry) table).0
    on_success-IsOut device access refresh expiry table true out = out
    on_success-IsOut device access refresh expiry table false out =
        update_tokens_only-keeps device.device_code access refresh expiry table out

    on_revoked-IsOut :
        (device : DeviceCode) (table : Table) (b : Bool)
        → IsOut code table
        → IsOut code (unless b (revoke device.device_code) table).0
    on_revoked-IsOut device table true out = out
    on_revoked-IsOut device table false out = revoke-keeps device.device_code table out

    handled-IsOut :
        (now : ℕ) (device : DeviceCode) (table : Table) (a : OauthAnswer)
        → IsOut code table
        → IsOut code (handled (on_success device) (on_revoked device) now table a).0
    handled-IsOut now device table (new_tokens tokens) out =
        on_success-IsOut device tokens.access_token tokens.refresh_token
          (token_expiry now tokens.expires_in) table faults.update_tokens out
    handled-IsOut now device table access_revoked out =
        on_revoked-IsOut device table faults.revoke out
    handled-IsOut now device table oauth_failed out = out

    refresh-IsOut :
        (osm : String → OauthAnswer) (now : ℕ) (device : DeviceCode) (table : Table)
        → IsOut code table
        → IsOut code (refresh_device_token faults osm now device table).0
    unfolding refresh_token
    refresh-IsOut osm now device table out =
        let refresh = text_or_empty device.osm_refresh_token in
        if_both (λ (r : Table × TokenResult). IsOut code r.0) (str_eq refresh "") out
          (handled-IsOut now device table (osm refresh) out)

    after_refresh-IsOut :
        (now : ℕ) (device : DeviceCode) (r : Table × TokenResult)
        → IsOut code r.0
        → IsOut code (after_refresh faults now device r).0
    after_refresh-IsOut now device (table, refreshed access) out =
        used-IsOut now device access table out
    after_refresh-IsOut now device (table, refused e) out = out

    with_lookup-IsOut :
        (osm : String → OauthAnswer) (now later : ℕ) (table : Table) (o : Option DeviceCode)
        → IsOut code table
        → IsOut code (with_lookup faults osm now later table o).0
    with_lookup-IsOut osm now later table none out = out
    with_lookup-IsOut osm now later table (some device) out =
        if_both (λ (r : Table × AuthResult). IsOut code r.0)
          (not (needs_refresh now device.osm_token_expiry))
          (used-IsOut later device (text_or_empty device.osm_access_token) table out)
          (if_both (λ (r : Table × AuthResult). IsOut code r.0) (ltb (len device.device_code) 8) out
            (after_refresh-IsOut later device (refresh_device_token faults osm later device table)
              (refresh-IsOut osm later device table out)))

    authenticate-IsOut :
        (osm : String → OauthAnswer) (now later : ℕ) (header : String) (table : Table)
        → IsOut code table
        → IsOut code (authenticate faults osm now later header table).0
    unfolding authenticate authenticate_token
    authenticate-IsOut osm now later header table out =
        let token = extract_bearer_token header in
        if_both (λ (r : Table × AuthResult). IsOut code r.0) (str_eq token "") out
          (if_both (λ (r : Table × AuthResult). IsOut code r.0) faults.find out
            (with_lookup-IsOut osm now later table (find_by_device_access_token token table) out))

-- A request of a device, with what the clock, the database and OSM do about it.
pub record AuthRequest : Type 0 where
  pub faults : DeviceFaults
  pub osm : String → OauthAnswer
  pub now : ℕ
  pub later : ℕ
  pub header : String

abbrev pub asked : AuthRequest → Table → Table × AuthResult
asked r table = authenticate r.faults r.osm r.now r.later r.header table

-- The table after the requests of any devices, one after the other.
abbrev pub asked_all : List AuthRequest → Table → Table
asked_all [] table = table
asked_all (r ∷ rs) table = asked_all rs (asked r table).0

asked_all-IsOut :
    (code : String) (rs : List AuthRequest) (table : Table)
    → IsOut code table
    → IsOut code (asked_all rs table)
asked_all-IsOut code [] table out = out
asked_all-IsOut code (r ∷ rs) table out =
    asked_all-IsOut code rs (asked r table).0
      (authenticate-IsOut code r.faults r.osm r.now r.later r.header table out)

-- The result is not that the request goes on as the device.
abbrev pub IsOther : String → AuthResult → Type 0
IsOther code (authenticated c) = str_eq c.device.device_code code ≡ false
IsOther code (rejected e) = Unit
IsOther code panics = Unit

asked-IsOther :
    (code : String) (r : AuthRequest) (table : Table) (o : Table × AuthResult)
    → IsOut code table
    → asked r table ≡ o
    → IsOther code o.1
unfolding find_by_device_access_token
asked-IsOther code r table (rows, rejected e) out h = tt
asked-IsOther code r table (rows, panics) out h = tt
asked-IsOther code r table (rows, authenticated c) out h =
    let token = extract_bearer_token r.header in
    let found = authenticate-found r.faults r.osm r.now r.later r.header table rows c h in
    let here =
      find?-Mem (λ d. is_text token d.device_access_token && status_eq d.status authorized) table
        c.device found.0 in
    let unusable = All-Mem (λ d. is_usable code d ≡ false) table c.device out here in
    ground (arith, found.1, unusable)

-- A device whose access the user has revoked at OSM, where the request that finds this out can
-- store it: that request is refused with 401, and after any sequence of further requests of devices
-- to the authentication, with whatever tokens, whatever faults and whatever OSM answers, no such
-- request goes on as this device.
pub authenticate-revoked :
    (first last : AuthRequest) (between : List AuthRequest) (table : Table) (device : DeviceCode)
    → NeedsRefresh first.now (extract_bearer_token first.header) table device
    → first.osm (text_or_empty device.osm_refresh_token) ≡ access_revoked
    → first.faults.find ≡ false
    → first.faults.revoke ≡ false
    → (device_auth (asked first table).1
        ≡ answers 401 "Access revoked - please re-authorize this device" none)
      × IsOther device.device_code (asked last (asked_all between (asked first table).0)).1
unfolding device_auth
authenticate-revoked first last between table device needs gone finds revokes =
    let code = device.device_code in
    let refused_now =
      authenticate-revokes first.faults first.osm first.now first.later first.header table device
        needs gone finds revokes in
    let rows = (asked first table).0 in
    let out : IsOut code rows =
      subst (IsOut code) (sym (ap (λ r. r.0) refused_now)) (revoke-IsOut code table) in
    (
      ap (λ r. device_auth r.1) refused_now,
      asked-IsOther code last (asked_all between rows) (asked last (asked_all between rows))
          (asked_all-IsOut code between rows out) refl,
    )

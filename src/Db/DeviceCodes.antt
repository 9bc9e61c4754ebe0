-- ===== src/Db/DeviceCodes.antt =====
-- internal/db/devicecode/store.go. Each operation gives the table that it leaves; that the
-- database may refuse a call is for the callers to say. `time.Now()` is an argument.
pub mod Laws
use osm_device_adapter.Prelude.{
  ℕ, ◌+◌, String, Bool, true, false, not, ◌&&◌, ◌||◌, Option, none, some, List, [], ◌∷◌, ltb, ◌==◌,
  str_eq, if◌then◌else◌, find?, filter,
}
use osm_device_adapter.Prelude.Int.{ℤ, eq_ℤ}
use osm_device_adapter.Db.Models.{
  Status, pending, awaiting_section, authorized, denied, revoked, status_eq, DeviceCode,
}

abbrev pub Table : Type 0
Table = List DeviceCode

-- Equality of two user codes.
abbrev pub codes_eq : List ℕ → List ℕ → Bool
codes_eq [] [] = true
codes_eq (a ∷ s) (b ∷ t) = a == b && codes_eq s t
codes_eq _ _ = false

-- `column = ?` on a nullable column: NULL equals nothing.
abbrev pub is_text : String → Option String → Bool
is_text t none = false
is_text t (some s) = str_eq s t

-- `UPDATE ... WHERE device_code = ?`
abbrev pub update_where : String → (DeviceCode → DeviceCode) → Table → Table
update_where code f [] = []
update_where code f (r ∷ rs) =
    (if str_eq r.device_code code then f r else r) ∷ update_where code f rs

-- The primary key, and the unique index on user codes; `none` is the constraint's error.
unfoldable pub create : DeviceCode → Table → Option Table
create row table =
    elim (find? (λ r. str_eq r.device_code row.device_code || codes_eq r.user_code row.user_code)
      table) [ none ↦ some (row ∷ table) | some _ ↦ none ]

unfoldable pub find_by_code : String → Table → Option DeviceCode
find_by_code code table = find? (λ r. str_eq r.device_code code) table

unfoldable pub find_by_user_code : ℕ → List ℕ → Table → Option DeviceCode
find_by_user_code now user_code table =
    find? (λ r. codes_eq r.user_code user_code && ltb now r.expires_at) table

unfoldable pub update_status : String → Status → Table → Table
update_status code status table = update_where code (λ r. record r { status = status }) table

unfoldable pub update_with_tokens : String → Status → String → String → ℕ → ℤ → Table → Table
update_with_tokens code status access refresh expiry user_id table =
    update_where code
      (λ r. record r {
        status = status;
        osm_access_token = some access;
        osm_refresh_token = some refresh;
        osm_token_expiry = some expiry;
        osm_user_id = some user_id;
      })
      table

abbrev pub with_section : Status → ℤ → String → DeviceCode → DeviceCode
with_section status section token r = record r {
  status = status;
  section_id = some section;
  device_access_token = some token;
}

-- The unique index on device access tokens refuses a token that another row has.
unfoldable pub update_with_section : String → Status → ℤ → String → Table → Option Table
update_with_section code status section token table =
    elim (find? (λ r. is_text token r.device_access_token && not (str_eq r.device_code code))
      table) [
        | none ↦ some (update_where code (with_section status section token) table)
        | some _ ↦ none
      ]

unfoldable pub find_by_access_token : String → Table → Option DeviceCode
find_by_access_token token table =
    find? (λ r. is_text token r.osm_access_token && status_eq r.status authorized) table

unfoldable pub find_by_device_access_token : String → Table → Option DeviceCode
find_by_device_access_token token table =
    find? (λ r. is_text token r.device_access_token && status_eq r.status authorized) table

unfoldable pub update_tokens_only : String → String → String → ℕ → Table → Table
update_tokens_only code access refresh expiry table =
    update_where code
      (λ r. record r {
        osm_access_token = some access;
        osm_refresh_token = some refresh;
        osm_token_expiry = some expiry;
      })
      table

unfoldable pub delete_expired : ℕ → Table → Table
delete_expired now table =
    filter
      (λ r.
        not (
          ltb r.expires_at now
          && not (status_eq r.status authorized || status_eq r.status revoked)))
      table

unfoldable pub update_term_info : String → ℤ → ℤ → ℕ → ℕ → Table → Table
update_term_info code user_id term_id checked_at end_date table =
    update_where code
      (λ r. record r {
        osm_user_id = some user_id;
        term_id = some term_id;
        term_checked_at = some checked_at;
        term_end_date = some end_date;
      })
      table

unfoldable pub update_last_used : ℕ → String → Table → Table
update_last_used now code table =
    update_where code (λ r. record r { last_used_at = some now }) table

unfoldable pub revoke : String → Table → Table
revoke code table =
    update_where code
      (λ r. record r {
        status = revoked;
        osm_access_token = none;
        osm_refresh_token = none;
        osm_token_expiry = none;
      })
      table

unfoldable pub update_section_id : String → ℤ → Table → Table
update_section_id code section table =
    update_where code
      (λ r. record r {
        section_id = some section;
        term_id = none;
        term_checked_at = none;
        term_end_date = none;
      })
      table

-- `last_used_at IS NULL OR last_used_at < cutoff`, with `now < last + threshold` written for the
-- cutoff `now - threshold`.
abbrev is_unused : ℕ → ℕ → Option ℕ → Bool
is_unused now threshold none = true
is_unused now threshold (some last) = ltb (last + threshold) now

unfoldable pub delete_unused : ℕ → ℕ → Table → Table
delete_unused now threshold table =
    filter
      (λ r. not (
        (status_eq r.status authorized || status_eq r.status revoked)
        && is_unused now threshold r.last_used_at))
      table

-- `ORDER BY last_used_at DESC NULLS LAST`
abbrev pub is_later : Option ℕ → Option ℕ → Bool
is_later none b = false
is_later (some a) none = true
is_later (some a) (some b) = ltb b a

abbrev pub insert_by_use : DeviceCode → Table → Table
insert_by_use r [] = r ∷ []
insert_by_use r (q ∷ qs) =
    let rest = insert_by_use r qs in
    if is_later q.last_used_at r.last_used_at then q ∷ rest else r ∷ q ∷ qs

abbrev pub sort_by_use : Table → Table
sort_by_use [] = []
sort_by_use (r ∷ rs) = insert_by_use r (sort_by_use rs)

-- `column = ?` on a nullable column of integers.
abbrev pub is_number : ℤ → Option ℤ → Bool
is_number n none = false
is_number n (some m) = eq_ℤ m n

unfoldable pub find_by_user : ℤ → Table → Table
find_by_user user table =
    sort_by_use (filter (λ r. is_number user r.osm_user_id && status_eq r.status authorized) table)

unfoldable pub list_by_section_id : ℤ → Table → Table
list_by_section_id section table =
    filter (λ r. is_number section r.section_id && status_eq r.status authorized) table

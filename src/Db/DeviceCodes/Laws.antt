-- ===== src/Db/DeviceCodes/Laws.antt =====
-- How the queries of the device code store see its writes.
use osm_device_adapter.Prelude.{
  ℕ, ◌+◌, ◌≤◌, ◌≡◌, refl, String, Bool, true, false, some, [], ◌∷◌, arith, str_eq, eq_iff,
  if◌then◌else◌, All,
}
use mathlib.Core.Option
use osm_device_adapter.Prelude.Int.{ℤ}
use osm_device_adapter.Db.Models.{Status, DeviceCode}
use osm_device_adapter.Db.DeviceCodes.{
  Table, update_where, find_by_code, find_by_device_access_token, revoke, delete_expired,
  delete_unused, create, with_section, update_with_section,
}

-- A write to the rows of one code changes what is found under that code, and nothing else.
pub find_by_code-update_where :
    (k j : String) (f : DeviceCode → DeviceCode) (table : Table)
    → ((r : DeviceCode) → (f r).device_code ≡ r.device_code)
    → find_by_code j (update_where k f table)
      ≡ (if str_eq k j then Option.map f (find_by_code j table) else find_by_code j table)
unfolding find_by_code
find_by_code-update_where k j f [] keeps = ground arith
find_by_code-update_where k j f (r ∷ rs) keeps = ground (
  arith,
  keeps r,
  eq_iff k j,
  eq_iff r.device_code k,
  eq_iff r.device_code j,
  find_by_code-update_where k j f rs keeps,
)

-- What a successful write leaves.
pub create-rows :
    (row : DeviceCode) (table rows : Table) → create row table ≡ some rows → rows ≡ row ∷ table
unfolding create
create-rows row table rows h = ground arith

pub update_with_section-rows :
    (code : String) (status : Status) (section : ℤ) (token : String) (table rows : Table)
    → update_with_section code status section token table ≡ some rows
    → rows ≡ update_where code (with_section status section token) table
unfolding update_with_section
update_with_section-rows code status section token table rows h = ground arith

pub find_by_code-create :
    (row : DeviceCode) (table rows : Table) (j : String)
    → create row table ≡ some rows
    → find_by_code j rows ≡ (if str_eq row.device_code j then some row else find_by_code j table)
unfolding create find_by_code
find_by_code-create row table rows j h = ground arith

module _ {ℓ} (P : DeviceCode → Type ℓ) where
  pub All-update_where :
      (k : String) (f : DeviceCode → DeviceCode) (table : Table)
      → ((r : DeviceCode) → str_eq r.device_code k ≡ true → P r → P (f r))
      → All P table
      → All P (update_where k f table)
  All-update_where k f [] keeps all = tt
  All-update_where k f (r ∷ rs) keeps (p, ps) =
      (here (str_eq r.device_code k) refl, All-update_where k f rs keeps ps)
    where
      here : (b : Bool) → str_eq r.device_code k ≡ b → P (if b then f r else r)
      here true e = keeps r e p
      here false e = p

-- Once a device is revoked, no device access token finds its row.
pub revoke_effective :
    (token code : String) (table : Table) (r : DeviceCode)
    → find_by_device_access_token token (revoke code table) ≡ some r
    → str_eq r.device_code code ≡ false
unfolding find_by_device_access_token revoke
revoke_effective token code [] r h = cc
revoke_effective token code (x ∷ xs) r h = ground (arith, revoke_effective token code xs r)

-- Revoking one device leaves the token of another at work.
pub revoke_other :
    (token code : String) (table : Table) (r : DeviceCode)
    → find_by_device_access_token token table ≡ some r
    → str_eq r.device_code code ≡ false
    → find_by_device_access_token token (revoke code table) ≡ some r
unfolding find_by_device_access_token revoke
revoke_other token code [] r h n = cc
revoke_other token code (x ∷ xs) r h n = ground (arith, revoke_other token code xs r)

-- The clean-up of expired codes never takes a device's access away.
pub delete_expired-access :
    (now : ℕ) (token : String) (table : Table)
    → find_by_device_access_token token (delete_expired now table)
      ≡ find_by_device_access_token token table
unfolding find_by_device_access_token delete_expired
delete_expired-access now token [] = refl
delete_expired-access now token (x ∷ xs) = ground (arith, delete_expired-access now token xs)

-- The clean-up of unused devices keeps the access of every device used within the threshold.
pub delete_unused-access :
    (now threshold : ℕ) (token : String) (table : Table) (r : DeviceCode) (last : ℕ)
    → find_by_device_access_token token table ≡ some r
    → r.last_used_at ≡ some last
    → now ≤ last + threshold
    → find_by_device_access_token token (delete_unused now threshold table) ≡ some r
unfolding find_by_device_access_token delete_unused
delete_unused-access now threshold token [] r last h u fresh = cc
delete_unused-access now threshold token (x ∷ xs) r last h u fresh =
    ground (arith, delete_unused-access now threshold token xs r last)

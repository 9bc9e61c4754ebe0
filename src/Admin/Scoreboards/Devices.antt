-- ===== src/Admin/Scoreboards/Devices.antt =====
-- Which device a prefix names in internal/handlers/admin_scoreboards.go: one of the user's.
use mathlib.Core.List.{Memᴰ}
use osm_device_adapter.Prelude.{
  All-Mem_self, ◌≡◌, subst, String, Bool, true, false, ◌&&◌, Option, none, some, List, [], ◌∷◌,
  str_eq, if◌then◌else◌, filter, find?, All, if_both, if_split,
}
use osm_device_adapter.Prelude.Int.{ℤ}
use osm_device_adapter.Db.Models.{DeviceCode, authorized, status_eq}
use osm_device_adapter.Db.DeviceCodes.{
  Table, is_number, is_later, insert_by_use, sort_by_use, find_by_user,
}
use osm_device_adapter.Admin.Scoreboards.{device_prefix, target_device}

-- A device of the user, as `FindByUser` has them.
abbrev pub is_users : ℤ → DeviceCode → Bool
is_users user d = is_number user d.osm_user_id && status_eq d.status authorized

All-insert_by_use :
    (P : DeviceCode → Type 0) (r : DeviceCode) (qs : Table)
    → P r
    → All P qs
    → All P (insert_by_use r qs)
All-insert_by_use P r [] h hs = (h, tt)
All-insert_by_use P r (q ∷ qs) h (k, ks) =
    if_both (All P) (is_later q.last_used_at r.last_used_at) (k, All-insert_by_use P r qs h ks)
      (h, (k, ks))

All-find_by_user :
    (P : DeviceCode → Type 0) (user : ℤ) (table : Table)
    → All P table
    → All (λ d. P d × (is_users user d ≡ true)) (sort_by_use (filter (is_users user) table))
All-find_by_user P user [] all = tt
All-find_by_user P user (d ∷ ds) (p, ps) =
    let Good : DeviceCode → Type 0 = (λ e. P e × (is_users user e ≡ true)) in
    let rest = All-find_by_user P user ds ps in
    if_split (λ (t : Table). All Good (sort_by_use t)) (is_users user d)
      (λ e. All-insert_by_use Good d (sort_by_use (filter (is_users user) ds)) (p, e) rest)
      (λ e. rest)

All-find :
    (P : DeviceCode → Type 0) (test : DeviceCode → Bool) (ds : Table) (d : DeviceCode)
    → All P ds
    → find? test ds ≡ some d
    → P d
All-find P test [] d all e = cc
All-find P test (x ∷ xs) d (here, rest) e = chosen (All-find P test xs d rest) (test x) e
  where
    chosen :
        (find? test xs ≡ some d → P d)
        → (b : Bool) → (if b then some x else find? test xs) ≡ some d
        → P d
    chosen later true e = let same : x ≡ d = cc in subst P same here
    chosen later false e = later e

-- The device stands in the table, and is the user's.
abbrev pub IsOwn : ℤ → Table → DeviceCode → Type 0
IsOwn user table d = Memᴰ d table × (is_users user d ≡ true)

-- The device that a request names is the user's.
pub target_device-IsOwn :
    (prefix : String) (user : ℤ) (table : Table) (d : DeviceCode)
    → target_device prefix (find_by_user user table) ≡ some d
    → IsOwn user table d
unfolding find_by_user
target_device-IsOwn prefix user table d h =
    All-find (IsOwn user table) (λ e. str_eq (device_prefix e.device_code) prefix)
      (sort_by_use (filter (is_users user) table)) d
      (All-find_by_user (λ d. Memᴰ d table) user table (All-Mem_self table)) h

abbrev pub option_list {ℓ} : {A : Type ℓ} → Option A → List A
option_list none = []
option_list (some a) = a ∷ []

pub target_device-All :
    (prefix : String) (user : ℤ) (table : Table) (o : Option DeviceCode)
    → target_device prefix (find_by_user user table) ≡ o
    → All (IsOwn user table) (option_list o)
target_device-All prefix user table none h = tt
target_device-All prefix user table (some d) h = (target_device-IsOwn prefix user table d h, tt)

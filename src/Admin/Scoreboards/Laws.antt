-- ===== src/Admin/Scoreboards/Laws.antt =====
-- What the pages of internal/handlers/admin_scoreboards.go can do, and to whom.
use Prim.Native.String.{◌++◌ as append}
use osm_device_adapter.Prelude.{◌≡◌, String, Bool, true, false, not, ◌||◌, Option, none, some, ◌⊎◌}
use osm_device_adapter.Prelude.Int.{ℤ, pos, ltb_ℤ}
use osm_device_adapter.Db.Models.{WebSession, DeviceCode}
use osm_device_adapter.Db.DeviceCodes.{update_section_id}
use osm_device_adapter.Osm.Types.{OsmProfileResponse}
use osm_device_adapter.Hub.Messages.{reconnect_message}
use osm_device_adapter.Admin.Replies.{AdminRequest, validate_csrf_token}
use osm_device_adapter.Admin.World.{AdminWorld, AdminFaults, deleted_key, publish, find_section}
use osm_device_adapter.Admin.Scoreboards.{known_sections}
use osm_device_adapter.Admin.Scoreboards.Devices.{IsOwn}

-- Whether the check of the section lets it pass: a positive one must stand in the profile.
abbrev pub is_some {ℓ} : {A : Type ℓ} → Option A → Bool
is_some none = false
is_some (some a) = true

abbrev pub may_use : Option OsmProfileResponse → ℤ → Bool
may_use profile section =
    not (ltb_ℤ (pos 0) section) || is_some (find_section section (known_sections profile))

-- The world after the change of a device's section.
abbrev pub moved : AdminFaults → ℤ → DeviceCode → AdminWorld → AdminWorld
moved faults section d w =
    publish faults (append "device:" d.device_code) reconnect_message (record w {
      codes = update_section_id d.device_code section w.codes;
      score_cache = deleted_key faults d.device_code w.score_cache;
    })

-- Nothing is changed; or the token was good, one device of the table is moved, it is the user's
-- and authorized, and he may use
-- the section.
abbrev pub IsMove :
    AdminFaults
    → Option OsmProfileResponse
    → AdminRequest
    → WebSession
    → Option ℤ
    → AdminWorld
    → AdminWorld
    → Type 0
IsMove faults profile r s body w w' =
    (w' ≡ w)
    ⊎ ((d : DeviceCode) × ((section : ℤ) × (IsOwn s.osm_user_id w.codes d
            × ((validate_csrf_token r s ≡ none)
                × ((body ≡ some section)
                    × ((may_use profile section ≡ true) × (w' ≡ moved faults section d w)))))))

module _ (faults : AdminFaults) (w : AdminWorld) where
  abbrev Moves : Type 0 → ℤ → DeviceCode → AdminWorld → Type 0
  Moves Allowed section d w' = (w' ≡ w) ⊎ (Allowed × (w' ≡ moved faults section d w))

-- Any number that is not positive passes without a look at the profile: also a negative one, which
-- is no section at all.
pub may_use-not_positive :
    (profile : Option OsmProfileResponse) (section : ℤ)
    → ltb_ℤ (pos 0) section ≡ false
    → may_use profile section ≡ true
may_use-not_positive profile section h = rw h

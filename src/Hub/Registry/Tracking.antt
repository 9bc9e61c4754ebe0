-- ===== src/Hub/Registry/Tracking.antt =====
-- The channel map tracks exactly the registered connections.
mod Keys
pub mod Changes
pub mod Consistent
use osm_device_adapter.Prelude.{String, Bool, false, Option, none, some, List, ◌≡◌}
use osm_device_adapter.Prelude.Dict.{Dict, lookup}
use osm_device_adapter.Prelude.TextSet.{member, is_empty}
use osm_device_adapter.Hub.Registry.{DeviceConn, Registry, devices_of}

-- The device is in the set of the channel key.
unfoldable pub tracked : String → String → Dict (List String) → Bool
tracked key code channels = member code (devices_of key channels)

-- The device has a registered connection, which lists the channel key.
unfoldable pub listed : String → String → Dict DeviceConn → Bool
listed key code conns = elim (lookup code conns) [
  | none ↦ false
  | some dc ↦ member key dc.channel_keys
]

-- No channel is left with an empty set.
pub record IsPruned (channels : Dict (List String)) : Type 0 where
  pub at_key :
      (key : String) (devs : List String) → lookup key channels ≡ some devs → is_empty devs ≡ false

pub record IsConsistent (h : Registry) : Type 0 where
  pub agrees :
      (key code : String) → tracked key code h.channel_devices ≡ listed key code h.device_conns
  pub pruned : IsPruned h.channel_devices

-- ===== src/Hub/Registry.antt =====
-- `Hub` of internal/websocket/hub.go: the two maps that its mutex guards, and what
-- `RegisterDeviceAndSubscribe` and `UnregisterDeviceConn` do to them while they hold it.
pub mod Tracking
use osm_device_adapter.Prelude.{
  ℕ, String, Bool, true, false, not, Option, none, some, List, [], ◌∷◌, ◌++◌, ◌==◌, str_eq,
  if◌then◌else◌,
}
use osm_device_adapter.Prelude.Dict.{Dict, lookup, insert, erase}
use osm_device_adapter.Prelude.TextSet.{member, add, remove, is_empty}

-- A `*deviceConn`: `id` stands for the pointer.
pub record DeviceConn : Type 0 where
  pub id : ℕ
  pub device_code : String
  pub channel_keys : List String

-- The two maps of `Hub`.
pub record Registry : Type 0 where
  pub device_conns : Dict DeviceConn
  pub channel_devices : Dict (List String)

abbrev pub empty : Registry
empty = record { device_conns = []; channel_devices = [] }

-- One round of the loops that drop a device from its channels: the map, and the channels to
-- unsubscribe from so far.
unfoldable pub drop_at :
    String
    → String
    → Dict (List String)
    → List String
    → Option (List String)
    → Dict (List String) × List String
drop_at code key channels to_unsub none = (channels, to_unsub)
drop_at code key channels to_unsub (some devs) =
    let left = remove code devs in
    if is_empty left
    then (erase key channels, to_unsub ++ key ∷ [])
    else (insert key left channels, to_unsub)

unfoldable pub drop_key :
    String → String → Dict (List String) × List String → Dict (List String) × List String
unfolding drop_at
drop_key code key (channels, to_unsub) = drop_at code key channels to_unsub (lookup key channels)

unfoldable pub drop_keys :
    String → List String → Dict (List String) × List String → Dict (List String) × List String
unfolding drop_key
drop_keys code [] acc = acc
drop_keys code (key ∷ keys) acc = drop_keys code keys (drop_key code key acc)

-- A missing key and a nil set read alike.
abbrev pub devices_of : String → Dict (List String) → List String
devices_of key channels = elim (lookup key channels) [ none ↦ [] | some devs ↦ devs ]

-- The loop that adds a device to its channels, and those of them that need a subscription.
unfoldable pub add_keys :
    String → List String → Dict (List String) → Dict (List String) × List String
add_keys code [] channels = (channels, [])
add_keys code (key ∷ keys) channels =
    let devs = devices_of key channels in
    let (channels', needs) = add_keys code keys (insert key (add code devs) channels) in
    (channels', if is_empty devs then key ∷ needs else needs)

-- What the critical section of `RegisterDeviceAndSubscribe` decides.
pub record Registered : Type 0 where
  pub registry : Registry
  pub to_unsub : List String
  pub to_sub : List String
  pub replaced : Option DeviceConn

-- `old != nil && old != dc`
abbrev pub replaced_conn : DeviceConn → Option DeviceConn → Option DeviceConn
replaced_conn dc none = none
replaced_conn dc (some old) = if old.id == dc.id then none else some old

unfoldable pub drop_replaced :
    String → Option DeviceConn → Dict (List String) → Dict (List String) × List String
drop_replaced code none channels = (channels, [])
drop_replaced code (some old) channels = drop_keys code old.channel_keys (channels, [])

-- The handler passes the connection's own device code and channel keys.
unfoldable pub register : DeviceConn → Registry → Registered
unfolding drop_replaced
register dc h =
    let replaced = replaced_conn dc (lookup dc.device_code h.device_conns) in
    let (dropped, to_unsub) = drop_replaced dc.device_code replaced h.channel_devices in
    let (channels, to_sub) = add_keys dc.device_code dc.channel_keys dropped in
    record {
      registry = record {
        device_conns = insert dc.device_code dc h.device_conns;
        channel_devices = channels;
      };
      to_unsub = to_unsub;
      to_sub = to_sub;
      replaced = replaced;
    }

-- `current != dc`
abbrev pub is_current : DeviceConn → Option DeviceConn → Bool
is_current dc none = false
is_current dc (some current) = current.id == dc.id

-- The registry that is left, and the channels to unsubscribe from.
unfoldable pub unregister : DeviceConn → Registry → Registry × List String
unregister dc h =
    if not (is_current dc (lookup dc.device_code h.device_conns))
    then (h, [])
    else let (channels, to_unsub) =
        drop_keys dc.device_code dc.channel_keys (h.channel_devices, []) in
      (
        record { device_conns = erase dc.device_code h.device_conns; channel_devices = channels },
        to_unsub,
      )

unfoldable pub is_connected : String → Registry → Bool
is_connected code h = elim (lookup code h.device_conns) [ none ↦ false | some _ ↦ true ]

-- Whether some device is registered for the channel.
unfoldable pub has_devices : String → Dict (List String) → Bool
has_devices key channels = not (is_empty (devices_of key channels))

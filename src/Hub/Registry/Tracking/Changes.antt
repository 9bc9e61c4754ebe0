-- ===== src/Hub/Registry/Tracking/Changes.antt =====
-- Which channels the loops over a connection's keys report as emptied or as new.
use osm_device_adapter.Prelude.{
  String, true, not, ◌&&◌, ◌||◌, Option, none, some, List, [], ◌∷◌, ◌≡◌, refl, arith, str_eq,
  eq_iff,
}
use osm_device_adapter.Prelude.Dict.{Dict, lookup, insert, lookup-insert, lookup-erase}
use osm_device_adapter.Prelude.TextSet.{member, add, remove, is_empty, member-append, is_empty-add}
use osm_device_adapter.Hub.Registry.{
  DeviceConn, drop_at, drop_key, drop_keys, add_keys, devices_of, has_devices, drop_replaced,
}
use osm_device_adapter.Hub.Registry.Tracking.{IsPruned}
use osm_device_adapter.Hub.Registry.Tracking.Keys.{IsPruned-drop_at}

-- The channels with devices are those of `subs` that are not in the list of the emptied.
abbrev pub Synced : List String → Dict (List String) → List String → Type 0
Synced subs channels u = (k : String) → has_devices k channels ≡ (member k subs && not (member k u))

Synced-drop_at :
    (subs : List String) (code key : String) (channels : Dict (List String)) (u : List String)
    (o : Option (List String))
    → lookup key channels ≡ o
    → IsPruned channels
    → Synced subs channels u
    → Synced subs (drop_at code key channels u o).0 (drop_at code key channels u o).1
unfolding drop_at
Synced-drop_at subs code key channels u none e p v k = v k
Synced-drop_at subs code key channels u (some devs) e p v k =
    let left = remove code devs in
    unfold has_devices member in
    ground (
      arith,
      v k,
      p.at_key key devs e,
      eq_iff key k,
      lookup-erase key k channels,
      lookup-insert key k left channels,
      member-append k u (key ∷ []),
    )

pub Synced-drop_keys :
    (subs : List String) (code : String) (keys : List String) (channels : Dict (List String))
    (u : List String)
    → IsPruned channels
    → Synced subs channels u
    → Synced subs (drop_keys code keys (channels, u)).0 (drop_keys code keys (channels, u)).1
unfolding drop_keys
Synced-drop_keys subs code [] channels u p v = v
Synced-drop_keys subs code (key ∷ keys) channels u p v =
    let (channels', u') = drop_key code key (channels, u) in
    Synced-drop_keys subs code keys channels' u'
      (IsPruned-drop_at code key channels u (lookup key channels) p)
      (Synced-drop_at subs code key channels u (lookup key channels) refl p v)

pub Synced-drop_replaced :
    (subs : List String) (code : String) (replaced : Option DeviceConn)
    (channels : Dict (List String))
    → IsPruned channels
    → Synced subs channels []
    → Synced subs (drop_replaced code replaced channels).0 (drop_replaced code replaced channels).1
unfolding drop_replaced
Synced-drop_replaced subs code none channels p v = v
Synced-drop_replaced subs code (some old) channels p v =
    Synced-drop_keys subs code old.channel_keys channels [] p v

has_devices-insert :
    (key k code : String) (channels : Dict (List String))
    → has_devices k (insert key (add code (devices_of key channels)) channels)
      ≡ (str_eq key k || has_devices k channels)
unfolding has_devices
has_devices-insert key k code channels =
    let devs = devices_of key channels in
    ground (arith, lookup-insert key k (add code devs) channels, is_empty-add code devs)

has_devices-known :
    (key k : String) (channels : Dict (List String))
    → str_eq key k ≡ true
    → has_devices k channels ≡ not (is_empty (devices_of key channels))
unfolding has_devices
has_devices-known key k channels same = ground (arith, eq_iff key k)

-- The channels with devices after the additions: those that had some, and those reported as new.
pub has_devices-add_keys :
    (code : String) (keys : List String) (channels : Dict (List String)) (k : String)
    → has_devices k (add_keys code keys channels).0
      ≡ (has_devices k channels || member k (add_keys code keys channels).1)
unfolding add_keys member
has_devices-add_keys code [] channels k = ground arith
has_devices-add_keys code (key ∷ keys) channels k =
    let channels' = insert key (add code (devices_of key channels)) channels in
    ground (
      arith,
      has_devices-insert key k code channels,
      has_devices-known key k channels,
      has_devices-add_keys code keys channels' k,
    )

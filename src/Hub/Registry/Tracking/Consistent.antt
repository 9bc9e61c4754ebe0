-- ===== src/Hub/Registry/Tracking/Consistent.antt =====
-- Registering and unregistering keep the two maps of the hub consistent.
use osm_device_adapter.Prelude.{
  String, Bool, false, not, ◌&&◌, ◌||◌, Option, none, some, List, [], ◌≡◌, refl, arith, str_eq,
  eq_iff, if◌then◌else◌, ◌≢◌, sym, ◌∙◌, ap, if_split,
}
use osm_device_adapter.Prelude.Dict.{Dict, lookup, insert, erase, lookup-insert, lookup-erase}
use osm_device_adapter.Prelude.TextSet.{member}
use osm_device_adapter.Hub.Registry.{
  DeviceConn, Registry, drop_replaced, replaced_conn, register, unregister, is_current,
}
use osm_device_adapter.Hub.Registry.Tracking.{tracked, listed, IsPruned, IsConsistent}
use osm_device_adapter.Hub.Registry.Tracking.Keys.{
  tracked-drop_keys, tracked-add_keys, IsPruned-drop_keys, IsPruned-add_keys,
}

-- The connection's `id` is a pointer: the hub has no other connection under it.
abbrev pub IsPointer : DeviceConn → Registry → Type 0
IsPointer dc h =
    (c : DeviceConn) → lookup dc.device_code h.device_conns ≡ some c → c.id ≡ dc.id → c ≡ dc

abbrev keys_of : String → Option DeviceConn → Bool
keys_of k none = false
keys_of k (some old) = member k old.channel_keys

tracked-drop_replaced :
    (code k c : String) (replaced : Option DeviceConn) (channels : Dict (List String))
    → tracked k c (drop_replaced code replaced channels).0
      ≡ (not (keys_of k replaced && str_eq code c) && tracked k c channels)
unfolding drop_replaced
tracked-drop_replaced code k c none channels = refl
tracked-drop_replaced code k c (some old) channels =
    tracked-drop_keys code old.channel_keys k c channels []

pub IsPruned-drop_replaced :
    (code : String) (replaced : Option DeviceConn) (channels : Dict (List String))
    → IsPruned channels
    → IsPruned (drop_replaced code replaced channels).0
unfolding drop_replaced
IsPruned-drop_replaced code none channels v = v
IsPruned-drop_replaced code (some old) channels v =
    IsPruned-drop_keys code old.channel_keys channels [] v

listed-insert :
    (code k c : String) (dc : DeviceConn) (conns : Dict DeviceConn)
    → listed k c (insert code dc conns)
      ≡ (if str_eq code c then member k dc.channel_keys else listed k c conns)
unfolding listed
listed-insert code k c dc conns = ground (arith, lookup-insert code c dc conns)

listed-erase :
    (code k c : String) (conns : Dict DeviceConn)
    → listed k c (erase code conns) ≡ (if str_eq code c then false else listed k c conns)
unfolding listed
listed-erase code k c conns = ground (arith, lookup-erase code c conns)

-- The device's set, where the connection replaces what `o` is, is that of the new connection.
set_replaced :
    (dc : DeviceConn) (h : Registry) (k c : String) (o : Option DeviceConn)
    → lookup dc.device_code h.device_conns ≡ o
    → IsPointer dc h
    → tracked k c h.channel_devices ≡ listed k c h.device_conns
    → (member k dc.channel_keys && str_eq dc.device_code c
        || (not (keys_of k (replaced_conn dc o) && str_eq dc.device_code c)
            && tracked k c h.channel_devices))
      ≡ (if str_eq dc.device_code c then member k dc.channel_keys else listed k c h.device_conns)
unfolding listed
set_replaced dc h k c none e same v = ground (arith, eq_iff dc.device_code c)
set_replaced dc h k c (some old) e same v = ground (arith, eq_iff dc.device_code c, same old e)

-- A connection that is registered leaves the channel map with exactly the registered connections
-- and their channels, if no other connection of its device is registered under its pointer.
pub register-IsConsistent :
    (dc : DeviceConn) (h : Registry)
    → IsPointer dc h
    → IsConsistent h
    → IsConsistent (register dc h).registry
unfolding register
register-IsConsistent dc h same v =
    let replaced = replaced_conn dc (lookup dc.device_code h.device_conns) in
    let dropped = (drop_replaced dc.device_code replaced h.channel_devices).0 in
    record {
      agrees = λ k c.
          tracked-add_keys dc.device_code dc.channel_keys k c dropped
          ∙ ap (λ b. member k dc.channel_keys && str_eq dc.device_code c || b)
              (tracked-drop_replaced dc.device_code k c replaced h.channel_devices)
          ∙ set_replaced dc h k c (lookup dc.device_code h.device_conns) refl same (v.agrees k c)
          ∙ sym (listed-insert dc.device_code k c dc h.device_conns);
      pruned =
          IsPruned-add_keys dc.device_code dc.channel_keys dropped
            (IsPruned-drop_replaced dc.device_code replaced h.channel_devices v.pruned);
    }

pub current-eq :
    (dc : DeviceConn) (h : Registry) (o : Option DeviceConn)
    → lookup dc.device_code h.device_conns ≡ o
    → IsPointer dc h
    → not (is_current dc o) ≡ false
    → lookup dc.device_code h.device_conns ≡ some dc
current-eq dc h none e same n = cc
current-eq dc h (some c) e same n = ground (arith, same c e)

-- Dropping the device of the current connection from its channels drops it from all.
unset :
    (dc : DeviceConn) (h : Registry) (k c : String)
    → lookup dc.device_code h.device_conns ≡ some dc
    → tracked k c h.channel_devices ≡ listed k c h.device_conns
    → (not (member k dc.channel_keys && str_eq dc.device_code c) && tracked k c h.channel_devices)
      ≡ (if str_eq dc.device_code c then false else listed k c h.device_conns)
unfolding listed
unset dc h k c e v = ground (arith, eq_iff dc.device_code c)

-- So does a connection that is taken away, whether it is the registered one or not.
pub unregister-IsConsistent :
    (dc : DeviceConn) (h : Registry)
    → IsPointer dc h
    → IsConsistent h
    → IsConsistent (unregister dc h).0
unfolding unregister
unregister-IsConsistent dc h same v =
    if_split (λ (p : Registry × List String). IsConsistent p.0)
      (not (is_current dc (lookup dc.device_code h.device_conns))) (λ stale. v)
      (λ current.
        let e = current-eq dc h (lookup dc.device_code h.device_conns) refl same current in
        record {
          agrees = λ k c.
              tracked-drop_keys dc.device_code dc.channel_keys k c h.channel_devices []
              ∙ unset dc h k c e (v.agrees k c)
              ∙ sym (listed-erase dc.device_code k c h.device_conns);
          pruned = IsPruned-drop_keys dc.device_code dc.channel_keys h.channel_devices [] v.pruned;
        })

-- A connection that has been replaced cannot take its replacement's registration away.
pub unregister_stale :
    (dc current : DeviceConn) (h : Registry)
    → lookup dc.device_code h.device_conns ≡ some current
    → current.id ≢ dc.id
    → unregister dc h ≡ (h, [])
unfolding unregister
unregister_stale dc current h e n = rw e (ground arith)

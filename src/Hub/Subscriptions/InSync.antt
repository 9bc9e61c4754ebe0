-- ===== src/Hub/Subscriptions/InSync.antt =====
-- The subscriptions follow the registry, if the requests are served in the order they are sent.
use osm_device_adapter.Prelude.{
  String, true, false, not, ◌&&◌, ◌||◌, some, List, [], ◌∷◌, ◌≡◌, ◌≢◌, refl, arith, if_split,
}
use osm_device_adapter.Prelude.Dict.{lookup}
use osm_device_adapter.Prelude.TextSet.{member, add, remove, member-add, member-remove}
use osm_device_adapter.Hub.Registry.{
  DeviceConn, Registry, has_devices, register, unregister, drop_replaced, replaced_conn, add_keys,
  drop_keys, is_current,
}
use osm_device_adapter.Hub.Registry.Tracking.{IsPruned}
use osm_device_adapter.Hub.Registry.Tracking.Changes.{
  Synced, Synced-drop_keys, Synced-drop_replaced, has_devices-add_keys,
}
use osm_device_adapter.Hub.Subscriptions.{
  HubState, unsubscribe_all, subscribe_all, connect, connect_reordered, disconnect,
}

-- The hub is subscribed to a channel exactly where some device is registered for it.
pub record IsInSync (s : HubState) : Type 0 where
  pub at_key : (key : String) → member key s.subscribed ≡ has_devices key s.registry.channel_devices

member-unsubscribe_all :
    (k : String) (keys subs : List String)
    → member k (unsubscribe_all keys subs) ≡ (not (member k keys) && member k subs)
unfolding unsubscribe_all member
member-unsubscribe_all k [] subs = refl
member-unsubscribe_all k (key ∷ keys) subs =
    ground (arith, member-remove key k subs, member-unsubscribe_all k keys (remove key subs))

member-subscribe_all :
    (k : String) (keys subs : List String)
    → member k (subscribe_all keys subs) ≡ (member k keys || member k subs)
unfolding subscribe_all member
member-subscribe_all k [] subs = refl
member-subscribe_all k (key ∷ keys) subs =
    ground (arith, member-add key k subs, member-subscribe_all k keys (add key subs))

Synced-start : (s : HubState) → IsInSync s → Synced s.subscribed s.registry.channel_devices []
unfolding member
Synced-start s v k = ground (arith, v.at_key k)

-- In a hub that is subscribed to exactly the channels with devices, and keeps no empty set of
-- devices, a connection that is made, its requests served in their order, leaves it subscribed to
-- exactly the channels with devices.
pub connect-IsInSync :
    (dc : DeviceConn) (s : HubState)
    → IsPruned s.registry.channel_devices
    → IsInSync s
    → IsInSync (connect dc s)
unfolding connect register
connect-IsInSync dc s p v =
    let replaced = replaced_conn dc (lookup dc.device_code s.registry.device_conns) in
    let (dropped, u) = drop_replaced dc.device_code replaced s.registry.channel_devices in
    let needs = (add_keys dc.device_code dc.channel_keys dropped).1 in
    record {
      at_key = λ k. ground (
        arith,
        member-subscribe_all k needs (unsubscribe_all u s.subscribed),
        member-unsubscribe_all k u s.subscribed,
        Synced-drop_replaced s.subscribed dc.device_code replaced s.registry.channel_devices p
            (Synced-start s v) k,
        has_devices-add_keys dc.device_code dc.channel_keys dropped k,
      );
    }

-- In a hub that is subscribed to exactly the channels with devices, and keeps no empty set of
-- devices, a connection that is taken away
-- leaves it subscribed to exactly the channels with devices.
pub disconnect-IsInSync :
    (dc : DeviceConn) (s : HubState)
    → IsPruned s.registry.channel_devices
    → IsInSync s
    → IsInSync (disconnect dc s)
unfolding disconnect unregister
disconnect-IsInSync dc s p v =
    if_split
      (λ (r : Registry × List String).
        IsInSync (record { registry = r.0; subscribed = unsubscribe_all r.1 s.subscribed }))
      (not (is_current dc (lookup dc.device_code s.registry.device_conns)))
      (λ stale. record { at_key = λ k. unfold unsubscribe_all in v.at_key k })
      (λ current.
        let (channels, u) =
          drop_keys dc.device_code dc.channel_keys (s.registry.channel_devices, []) in
        record {
          at_key = λ k. ground (
            arith,
            member-unsubscribe_all k u s.subscribed,
            Synced-drop_keys s.subscribed dc.device_code dc.channel_keys s.registry.channel_devices
                [] p (Synced-start s v) k,
          );
        })

-- Where `Run` takes the new subscriptions first, and a new connection replaces an old one of the
-- same device, the hub is afterwards not subscribed to a channel that the old connection was
-- alone on, whether or not the new one listens to it.
pub connect_reordered_lem :
    (dc old : DeviceConn) (s : HubState) (k : String)
    → old.id ≢ dc.id
    → lookup dc.device_code s.registry.device_conns ≡ some old
    → member k (drop_keys dc.device_code old.channel_keys (s.registry.channel_devices, [])).1 ≡ true
    → member k (connect_reordered dc s).subscribed ≡ false
unfolding connect_reordered register drop_replaced
connect_reordered_lem dc old s k n e gone =
    let keys = old.channel_keys in
    let (dropped, u) = drop_keys dc.device_code keys (s.registry.channel_devices, []) in
    let needs = (add_keys dc.device_code dc.channel_keys dropped).1 in
    rw e (ground (arith, member-unsubscribe_all k u (subscribe_all needs s.subscribed)))

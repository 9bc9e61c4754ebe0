-- ===== src/Hub/Subscriptions.antt =====
-- The hub with the Redis channels that it is subscribed to: the requests that registering and
-- unregistering send to `Run` of internal/websocket/hub.go, and what `Run` does about them. A
-- channel is named by its routing key, without the prefix "ws:".
pub mod InSync
use osm_device_adapter.Prelude.{String, List, [], ◌∷◌}
use osm_device_adapter.Prelude.TextSet.{add, remove}
use osm_device_adapter.Hub.Registry.{DeviceConn, Registry, register, unregister}

pub record HubState : Type 0 where
  pub registry : Registry
  pub subscribed : List String

-- `Run` on the requests of `unsubCh`.
unfoldable pub unsubscribe_all : List String → List String → List String
unsubscribe_all [] subs = subs
unsubscribe_all (key ∷ keys) subs = unsubscribe_all keys (remove key subs)

-- `Run` on the requests of `subCh`, each confirmed by Redis.
unfoldable pub subscribe_all : List String → List String → List String
subscribe_all [] subs = subs
subscribe_all (key ∷ keys) subs = subscribe_all keys (add key subs)

-- `RegisterDeviceAndSubscribe` where all goes well, `Run` serving the requests as they are sent:
-- those to unsubscribe, then those to subscribe.
unfoldable pub connect : DeviceConn → HubState → HubState
connect dc s =
    let r = register dc s.registry in
    record {
      registry = r.registry;
      subscribed = subscribe_all r.to_sub (unsubscribe_all r.to_unsub s.subscribed);
    }

-- The same where the `select` of `Run`, which picks any channel that is ready, takes the requests
-- of `subCh` before those that wait in the buffer of `unsubCh`.
unfoldable pub connect_reordered : DeviceConn → HubState → HubState
connect_reordered dc s =
    let r = register dc s.registry in
    record {
      registry = r.registry;
      subscribed = unsubscribe_all r.to_unsub (subscribe_all r.to_sub s.subscribed);
    }

-- `UnregisterDeviceConn`, its requests served.
unfoldable pub disconnect : DeviceConn → HubState → HubState
disconnect dc s =
    let (registry, to_unsub) = unregister dc s.registry in
    record { registry = registry; subscribed = unsubscribe_all to_unsub s.subscribed }

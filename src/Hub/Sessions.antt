-- ===== src/Hub/Sessions.antt =====
-- The life of a connection: `RegisterDeviceAndSubscribe` of internal/websocket/hub.go with all
-- that can go wrong in it, and the sequences of connections, disconnections and deliveries that
-- `DeviceWebSocketHandler` (internal/websocket/device_handler.go) and `Run` make.
pub mod Sound
pub mod Failures
use osm_device_adapter.Prelude.{
  ℕ, suc, String, Bool, true, false, Option, none, some, List, [], ◌∷◌, ltb, ◌==◌, if◌then◌else◌,
}
use osm_device_adapter.Prelude.TextSet.{add, remove}
use osm_device_adapter.Hub.Messages.{Message}
use osm_device_adapter.Hub.Registry.{
  DeviceConn, Registry, Registered, empty, register, unregister, replaced_conn,
}
use osm_device_adapter.Hub.Subscriptions.{HubState, unsubscribe_all, disconnect}
use osm_device_adapter.Hub.Delivery.{
  Queue, Queues, new_queue, set_queue, deliver_to_channel, close_replaced,
}

-- The hub, with the connections made so far and their channels.
pub record HubWorld : Type 0 where
  pub next : ℕ
  pub heap : ℕ → DeviceConn
  pub queues : Queues
  pub hub : HubState

-- What the context and Redis do about the requests for a channel: whether the context is done
-- when it is to be unsubscribed, and whether its subscription fails or times out.
pub record Outages : Type 0 where
  pub is_done : String → Bool
  pub subscribe_fails : String → Bool

abbrev pub no_outages : Outages
no_outages = record { is_done = λ key. false; subscribe_fails = λ key. false }

-- The loop over `toUnsub`, and whether it ran to its end.
unfoldable pub send_unsubs : Outages → List String → List String → List String × Bool
send_unsubs o [] subs = (subs, true)
send_unsubs o (key ∷ keys) subs =
    let rest = send_unsubs o keys (remove key subs) in if o.is_done key then (subs, false) else rest

-- The loop that calls `subscribeSync`, and whether it ran to its end.
unfoldable pub send_subs : Outages → List String → List String → List String × Bool
send_subs o [] subs = (subs, true)
send_subs o (key ∷ keys) subs =
    let rest = send_subs o keys (add key subs) in
    if o.subscribe_fails key then (subs, false) else rest

-- How `RegisterDeviceAndSubscribe` ends.
pub data Ending : Type 0 where
  accepted : HubState → Queues → Ending
  failed : HubState → Ending
  panics : Ending

abbrev pub ended : HubState → Option Queues → Ending
ended hub none = panics
ended hub (some queues) = accepted hub queues

-- The unsubscriptions have been sent, or not.
abbrev pub subscribing : Outages → DeviceConn → Registered → Queues → List String × Bool → Ending
subscribing o dc r queues (subs, false) =
    failed (record { registry = r.registry; subscribed = subs })
subscribing o dc r queues (subs, true) =
    let (subs', sent) = send_subs o r.to_sub subs in
    let hub : HubState = record { registry = r.registry; subscribed = subs' } in
    if sent then ended hub (close_replaced r.replaced queues) else failed (disconnect dc hub)

unfoldable pub register_device_and_subscribe : Outages → DeviceConn → HubState → Queues → Ending
register_device_and_subscribe o dc s queues =
    let r = register dc s.registry in
    subscribing o dc r queues (send_unsubs o r.to_unsub s.subscribed)

-- What happens to the hub, where each of these ends before the next begins. What may overlap is in
-- Hub/Sections.antt and Hub/Sessions/Failures.antt.
pub data HubEvent : Type 0 where
  connects : Outages → String → List String → HubEvent
  disconnects : ℕ → HubEvent
  delivers : String → Message → HubEvent

-- A failed registration leaves the world with the connection made.
abbrev pub connected : HubWorld → Ending → Option HubWorld
connected w (accepted hub queues) =
    some (record { next = w.next; heap = w.heap; queues = queues; hub = hub })
connected w (failed hub) =
    some (record { next = w.next; heap = w.heap; queues = w.queues; hub = hub })
connected w panics = none

-- `dc := &deviceConn{…}`
unfoldable pub new_conn : String → List String → HubWorld → HubWorld
new_conn code keys w =
    let dc : DeviceConn = record { id = w.next; device_code = code; channel_keys = keys } in
    record {
      next = suc w.next;
      heap = λ i. if i == w.next then dc else w.heap i;
      queues = set_queue w.next new_queue w.queues;
      hub = w.hub;
    }

abbrev pub with_queues : HubWorld → Option Queues → Option HubWorld
with_queues w none = none
with_queues w (some queues) =
    some (record { next = w.next; heap = w.heap; queues = queues; hub = w.hub })

-- none is a panic. Only a connection that has been made can end.
unfoldable pub hub_step : HubWorld → HubEvent → Option HubWorld
hub_step w (connects o code keys) =
    let w' = new_conn code keys w in
    connected w' (register_device_and_subscribe o (w'.heap w.next) w'.hub w'.queues)
hub_step w (disconnects i) = some (
    if ltb i w.next
    then record {
      next = w.next;
      heap = w.heap;
      queues = w.queues;
      hub = disconnect (w.heap i) w.hub;
    }
    else w)
hub_step w (delivers key msg) = with_queues w (deliver_to_channel key msg w.hub.registry w.queues)

unfoldable pub hub_run : HubWorld → List HubEvent → Option HubWorld
hub_run w [] = some w
hub_run w (e ∷ es) = elim (hub_step w e) [ none ↦ none | some w' ↦ hub_run w' es ]

-- `NewHub`
abbrev pub new_hub : HubWorld
new_hub = record {
  next = 0;
  heap = λ i. record { id = i; device_code = ""; channel_keys = [] };
  queues = λ i. new_queue;
  hub = record { registry = empty; subscribed = [] };
}

-- ===== src/Hub/Sessions/Failures.antt =====
-- How `RegisterDeviceAndSubscribe` of internal/websocket/hub.go ends: in good order, with Redis
-- refusing a subscription, with its context done; and a delivery that a replacement overtakes.
use osm_device_adapter.Prelude.{
  ℕ, String, true, false, Option, none, some, List, [], ◌∷◌, ◌≡◌, ◌≢◌, refl, arith, eq_refl, sym,
  subst, ◌∙◌,
}
use osm_device_adapter.Prelude.Dict.{lookup, lookup-insert, lookup-erase}
use osm_device_adapter.Prelude.TextSet.{add, remove}
use osm_device_adapter.Hub.Messages.{Message, disconnect_message}
use osm_device_adapter.Hub.Registry.{DeviceConn, Registry, register, unregister, is_connected}
use osm_device_adapter.Hub.Subscriptions.{
  HubState, connect, disconnect, unsubscribe_all, subscribe_all,
}
use osm_device_adapter.Hub.Delivery.{
  Queue, Queues, try_send, send_all, send_to, stored, close_replaced, close_conn, closed_queue,
  set_queue,
}
use osm_device_adapter.Hub.Sessions.{
  Outages, no_outages, send_unsubs, send_subs, subscribing, register_device_and_subscribe, accepted,
  failed, ended,
}

send_unsubs_good :
    (keys subs : List String) → send_unsubs no_outages keys subs ≡ (unsubscribe_all keys subs, true)
unfolding send_unsubs unsubscribe_all
send_unsubs_good [] subs = refl
send_unsubs_good (key ∷ keys) subs = send_unsubs_good keys (remove key subs)

send_subs_good :
    (keys subs : List String) → send_subs no_outages keys subs ≡ (subscribe_all keys subs, true)
unfolding send_subs subscribe_all
send_subs_good [] subs = refl
send_subs_good (key ∷ keys) subs = send_subs_good keys (add key subs)

-- Where nothing fails, the registration is `connect`, and then ends what it replaces.
pub register_device_and_subscribe-connect :
    (dc : DeviceConn) (s : HubState) (queues : Queues)
    → register_device_and_subscribe no_outages dc s queues
      ≡ ended (connect dc s) (close_replaced (register dc s.registry).replaced queues)
unfolding register_device_and_subscribe connect
register_device_and_subscribe-connect dc s queues =
    let r = register dc s.registry in
    rw
      (
        send_unsubs_good r.to_unsub s.subscribed,
        send_subs_good r.to_sub (unsubscribe_all r.to_unsub s.subscribed),
      )
      refl

registered_current :
    (dc : DeviceConn) (h : Registry)
    → lookup dc.device_code (register dc h).registry.device_conns ≡ some dc
unfolding register
registered_current dc h =
    ground
      (arith, lookup-insert dc.device_code dc.device_code dc h.device_conns, eq_refl dc.device_code)

-- Where the unsubscriptions are sent and a subscription fails, the device is left with no
-- connection: the new one has been taken away, and the old one is not put back.
pub register_device_and_subscribe_refused :
    (o : Outages) (dc : DeviceConn) (s : HubState) (queues : Queues)
    → (send_unsubs o (register dc s.registry).to_unsub s.subscribed).1 ≡ true
    → (send_subs o
        (register dc s.registry).to_sub
        (send_unsubs o (register dc s.registry).to_unsub s.subscribed).0).1
      ≡ false
    → (hub : HubState) × (register_device_and_subscribe o dc s queues ≡ failed hub)
      × (is_connected dc.device_code hub.registry ≡ false)
unfolding register_device_and_subscribe disconnect unregister is_connected
register_device_and_subscribe_refused o dc s queues sent refused =
    let r = register dc s.registry in
    let subs = (send_unsubs o r.to_unsub s.subscribed).0 in
    let hub : HubState = record {
      registry = r.registry;
      subscribed = (send_subs o r.to_sub subs).0;
    } in
    (
      disconnect dc hub,
      rw (sent, subscribing, refused) refl,
      ground (
        arith,
        registered_current dc s.registry,
        lookup-erase dc.device_code dc.device_code r.registry.device_conns,
        eq_refl dc.device_code,
      ),
    )

-- Where the context is done before the unsubscriptions are sent, the registration fails and
-- leaves the connection registered.
pub register_device_and_subscribe_timed_out :
    (o : Outages) (dc : DeviceConn) (s : HubState) (queues : Queues)
    → (send_unsubs o (register dc s.registry).to_unsub s.subscribed).1 ≡ false
    → (hub : HubState) × (register_device_and_subscribe o dc s queues ≡ failed hub)
      × (lookup dc.device_code hub.registry.device_conns ≡ some dc)
unfolding register_device_and_subscribe
register_device_and_subscribe_timed_out o dc s queues sent =
    let r = register dc s.registry in
    let subs = (send_unsubs o r.to_unsub s.subscribed).0 in
    (
      record { registry = r.registry; subscribed = subs },
      rw (sent, subscribing) refl,
      registered_current dc s.registry,
    )

ended-accepted :
    (hub hub' : HubState) (o : Option Queues) (queues : Queues)
    → ended hub o ≡ accepted hub' queues
    → o ≡ some queues
ended-accepted hub hub' none queues e = cc
ended-accepted hub hub' (some q) queues e = cc

-- A channel that is closed is closed afterwards.
stored-closed :
    (id : ℕ) (o : Option Queue) (queues queues' : Queues)
    → stored id queues (closed_queue o) ≡ some queues'
    → (queues' id).closed ≡ true
stored-closed id none queues queues' e = cc
stored-closed id (some q) queues queues' e =
    let same : set_queue id (record { waiting = q.waiting; closed = true }) queues ≡ queues' = cc in
    subst (λ (qs : Queues). (qs id).closed ≡ true) same (ground arith)

replaced-old :
    (dc old : DeviceConn) (h : Registry)
    → lookup dc.device_code h.device_conns ≡ some old
    → old.id ≢ dc.id
    → (register dc h).replaced ≡ some old
unfolding register
replaced-old dc old h was apart = ground (arith, was, apart)

-- A send on a closed channel panics.
send_to-closed :
    (msg : Message) (dc : DeviceConn) (queues : Queues)
    → (queues dc.id).closed ≡ true
    → send_to msg dc queues ≡ none
unfolding try_send
send_to-closed msg dc queues e = rw e refl

-- A delivery whose snapshot has a connection first that a registration replaces before the sends
-- panics: its channel is closed by then.
pub send_all_overtaken :
    (dc old : DeviceConn) (s hub : HubState) (queues queues' : Queues) (msg : Message)
    (others : List DeviceConn)
    → lookup dc.device_code s.registry.device_conns ≡ some old
    → old.id ≢ dc.id
    → register_device_and_subscribe no_outages dc s queues ≡ accepted hub queues'
    → send_all msg (old ∷ others) queues' ≡ none
send_all_overtaken dc old s hub queues queues' msg others was apart done =
    let ends = sym (register_device_and_subscribe-connect dc s queues) ∙ done in
    let closes =
      ended-accepted (connect dc s) hub (close_replaced (register dc s.registry).replaced queues)
        queues' ends in
    let closes' : close_conn "replaced by new connection" old queues ≡ some queues' =
      subst (λ (r : Option DeviceConn). close_replaced r queues ≡ some queues')
        (replaced-old dc old s.registry was apart) closes in
    let reason = disconnect_message "replaced by new connection" in
    let is_closed : (queues' old.id).closed ≡ true =
      unfold close_conn in
      stored-closed old.id (try_send reason (queues old.id)) queues queues' closes' in
    rw (send_to-closed msg old queues' is_closed, send_all) refl

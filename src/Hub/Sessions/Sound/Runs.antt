-- ===== src/Hub/Sessions/Sound/Runs.antt =====
-- The hub after any sequence of connections, disconnections and deliveries that do not overlap.
use osm_device_adapter.Prelude.{
  String, Bool, true, false, some, List, [], ◌∷◌, ◌≡◌, refl, arith, ltb, subst, ap, if_split,
}
use osm_device_adapter.Prelude.Dict.{lookup}
use osm_device_adapter.Prelude.TextSet.{member}
use osm_device_adapter.Hub.Registry.{DeviceConn, register}
use osm_device_adapter.Hub.Registry.Tracking.{listed, tracked}
use osm_device_adapter.Hub.Subscriptions.{HubState, disconnect}
use osm_device_adapter.Hub.Delivery.{targets}
use osm_device_adapter.Hub.Delivery.Targets.{sent_to, targets-listed}
use osm_device_adapter.Hub.Sessions.{
  HubWorld, HubEvent, connects, disconnects, delivers, Outages, hub_step, hub_run, new_conn,
  new_hub, send_unsubs, send_subs, register_device_and_subscribe, subscribing,
}
use osm_device_adapter.Hub.Sessions.Sound.{
  IsSound, IsFresh, HasSound, IsKept, accepted-HasSound, register-IsSound, disconnect-IsSound,
  delivers-IsSound,
}

-- A registration that fails leaves the hub sound.
subscribing-HasSound :
    (w : HubWorld) (dc : DeviceConn) (o : Outages) (unsubs : List String × Bool)
    → IsFresh w dc
    → IsSound w
    → HasSound w (subscribing o dc (register dc w.hub.registry) w.queues unsubs)
subscribing-HasSound w dc o (subs, false) f v =
    let r = register dc w.hub.registry in
    let hub : HubState = record { registry = r.registry; subscribed = subs } in
    (
      record { next = w.next; heap = w.heap; queues = w.queues; hub = hub },
      refl,
      register-IsSound w dc w.queues subs f f.fresh_open
          (λ c x here other. (v.registered c x here).still_open) v,
    )
subscribing-HasSound w dc o (subs, true) f v =
    let r = register dc w.hub.registry in
    let (subs', sent) = send_subs o r.to_sub subs in
    let hub : HubState = record { registry = r.registry; subscribed = subs' } in
    let registered : IsKept w hub w.queues =
      register-IsSound w dc w.queues subs' f f.fresh_open
        (λ c x here other. (v.registered c x here).still_open) v in
    let kept : HubWorld = record { next = w.next; heap = w.heap; queues = w.queues; hub = hub } in
    if_split (HasSound w) sent (λ e. accepted-HasSound w dc subs' f v)
      (λ e. (
        record { next = w.next; heap = w.heap; queues = w.queues; hub = disconnect dc hub },
        refl,
        disconnect-IsSound kept dc f.in_heap registered,
      ))

new_conn-IsSound :
    (code : String) (keys : List String) (w : HubWorld) → IsSound w → IsSound (new_conn code keys w)
unfolding new_conn
new_conn-IsSound code keys w v = record {
  consistent = v.consistent;
  addressed = λ i. ground (arith, v.addressed i);
  registered = λ c x here.
      let old = v.registered c x here in
      let made = old.made in
      record {
        made = omega (arith, made);
        in_heap = ground (arith, made, old.in_heap);
        own_code = old.own_code;
        still_open = ground (arith, made, old.still_open);
      };
}

new_conn-IsFresh :
    (code : String) (keys : List String) (w : HubWorld)
    → IsFresh (new_conn code keys w) ((new_conn code keys w).heap w.next)
unfolding new_conn
new_conn-IsFresh code keys w = record {
  made = ground arith;
  in_heap = ground arith;
  fresh_open = ground arith;
}

hub_step-IsSound :
    (w : HubWorld) (e : HubEvent)
    → IsSound w
    → (w' : HubWorld) × (hub_step w e ≡ some w') × IsSound w'
hub_step-IsSound w (connects o code keys) v =
    let w' = new_conn code keys w in
    let dc = w'.heap w.next in
    unfold hub_step register_device_and_subscribe in
    subscribing-HasSound w' dc o
      (send_unsubs o (register dc w'.hub.registry).to_unsub w'.hub.subscribed)
      (new_conn-IsFresh code keys w) (new_conn-IsSound code keys w v)
hub_step-IsSound w (disconnects i) v =
    let at_i = ap w.heap (v.addressed i) in
    unfold hub_step in
    if_split (λ w'. (w'' : HubWorld) × (some w' ≡ some w'') × IsSound w'') (ltb i w.next)
      (λ e. (_, refl, disconnect-IsSound w (w.heap i) at_i v)) (λ e. (w, refl, v))
hub_step-IsSound w (delivers key msg) v = delivers-IsSound w key msg v

-- From a hub that is sound, no sequence of connections, with any of their requests failing, of
-- disconnections and of deliveries, each ended before the next begins, panics, and the hub that it
-- leaves is sound.
pub hub_run-IsSound :
    (w : HubWorld) (es : List HubEvent)
    → IsSound w
    → (w' : HubWorld) × (hub_run w es ≡ some w') × IsSound w'
unfolding hub_run
hub_run-IsSound w [] v = (w, refl, v)
hub_run-IsSound w (e ∷ es) v =
    let (w', stepped, v') = hub_step-IsSound w e v in
    let (w'', ran, v'') = hub_run-IsSound w' es v' in (w'', rw (stepped, hub_run) ran, v'')

pub new_hub-IsSound : IsSound new_hub
unfolding tracked listed lookup member
new_hub-IsSound = record {
  consistent = record { agrees = λ k c. refl; pruned = record { at_key = λ k d e. cc } };
  addressed = λ i. refl;
  registered = λ c x e. cc;
}

-- In a hub that any sequence of connections, disconnections and deliveries leaves of a new one, a
-- message on a channel goes to a device exactly where the device's registered connection lists
-- the channel.
pub hub_run-targets :
    (es : List HubEvent) (w : HubWorld) (key code : String)
    → hub_run new_hub es ≡ some w
    → sent_to code (targets key w.hub.registry) ≡ listed key code w.hub.registry.device_conns
hub_run-targets es w key code ran =
    let (w', ran', v) = hub_run-IsSound new_hub es new_hub-IsSound in
    let same : w' ≡ w = cc in
    let v' = subst IsSound same v in
    targets-listed key code w.hub.registry v'.consistent
      (λ c x here. (v'.registered c x here).own_code)

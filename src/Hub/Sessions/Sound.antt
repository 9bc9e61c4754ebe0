-- ===== src/Hub/Sessions/Sound.antt =====
-- Connections, disconnections and deliveries that do not overlap, one after the other: the hub does
-- not panic. A delivery that a replacement overtakes does (Hub/Sessions/Failures.antt).
mod Queued
pub mod Runs
use osm_device_adapter.Prelude.{
  ℕ, suc, String, Bool, true, false, not, ◌&&◌, ◌||◌, ◌<◌, Option, none, some, List, [], ◌∷◌, ◌≡◌,
  ◌≢◌, refl, arith, str_eq, eq_iff, ◌==◌, ltb, if◌then◌else◌, ◌∙◌, ap, sym, subst, All, if_split,
}
use osm_device_adapter.Prelude.Dict.{Dict, lookup, insert, erase, lookup-insert, lookup-erase}
use osm_device_adapter.Hub.Messages.{Message}
use osm_device_adapter.Hub.Registry.{
  DeviceConn, Registry, Registered, register, unregister, replaced_conn, is_current, devices_of,
}
use osm_device_adapter.Hub.Registry.Tracking.{IsConsistent}
use osm_device_adapter.Hub.Registry.Tracking.Consistent.{
  IsPointer, register-IsConsistent, unregister-IsConsistent,
}
use osm_device_adapter.Hub.Subscriptions.{HubState, disconnect}
use osm_device_adapter.Hub.Delivery.{
  Queue, Queues, set_queue, new_queue, targets, deliver_to_channel, send_all, close_replaced,
}
use osm_device_adapter.Hub.Sessions.{
  HubWorld, HubEvent, connects, disconnects, delivers, Outages, hub_step, hub_run, new_conn,
  send_unsubs, send_subs, register_device_and_subscribe, subscribing, Ending, accepted, failed,
  panics, connected, ended, with_queues,
}
use osm_device_adapter.Hub.Sessions.Sound.Queued.{
  IsOpen, SameClosed, send_all-IsOpen, conns_of-All, close_replaced-IsOpen,
}

-- A registered connection has been made, under its device code, and its channel is open.
pub record IsMade (w : HubWorld) (code : String) (dc : DeviceConn) : Type 0 where
  pub made : dc.id < w.next
  pub in_heap : w.heap dc.id ≡ dc
  pub own_code : dc.device_code ≡ code
  pub still_open : IsOpen w.queues dc

pub record IsSound (w : HubWorld) : Type 0 where
  pub consistent : IsConsistent w.hub.registry
  pub addressed : (i : ℕ) → (w.heap i).id ≡ i
  pub registered :
      (code : String) (dc : DeviceConn)
      → lookup code w.hub.registry.device_conns ≡ some dc
      → IsMade w code dc

pub lookup-register :
    (dc : DeviceConn) (h : Registry) (c : String)
    → lookup c (register dc h).registry.device_conns
      ≡ (if str_eq dc.device_code c then some dc else lookup c h.device_conns)
unfolding register
lookup-register dc h c = lookup-insert dc.device_code c dc h.device_conns

-- A connection that is left after another was taken away was there before.
pub lookup-unregister :
    (dc : DeviceConn) (h : Registry) (c : String) (x : DeviceConn)
    → lookup c (unregister dc h).0.device_conns ≡ some x
    → lookup c h.device_conns ≡ some x
unfolding unregister
lookup-unregister dc h c x e = ground (arith, lookup-erase dc.device_code c h.device_conns)

-- What a registered connection keeps, where the channels that it may use stay as they are.
abbrev IsKept : HubWorld → HubState → Queues → Type 0
IsKept w hub queues = IsSound (record { next = w.next; heap = w.heap; queues = queues; hub = hub })

IsPointer-made :
    (w : HubWorld) (dc : DeviceConn) → w.heap dc.id ≡ dc → IsSound w → IsPointer dc w.hub.registry
IsPointer-made w dc e v c here same =
    sym (v.registered dc.device_code c here).in_heap ∙ ap w.heap same ∙ e

disconnect-IsSound :
    (w : HubWorld) (dc : DeviceConn)
    → w.heap dc.id ≡ dc
    → IsSound w
    → IsKept w (disconnect dc w.hub) w.queues
unfolding disconnect
disconnect-IsSound w dc e v = record {
  consistent = unregister-IsConsistent dc w.hub.registry (IsPointer-made w dc e v) v.consistent;
  addressed = v.addressed;
  registered = λ c x here.
      let old = v.registered c x (lookup-unregister dc w.hub.registry c x here) in
      record {
        made = old.made;
        in_heap = old.in_heap;
        own_code = old.own_code;
        still_open = old.still_open;
      };
}

delivers-IsSound :
    (w : HubWorld) (key : String) (msg : Message)
    → IsSound w
    → (w' : HubWorld) × (hub_step w (delivers key msg) ≡ some w') × IsSound w'
unfolding hub_step deliver_to_channel targets
delivers-IsSound w key msg v =
    let reg = w.hub.registry in
    let (queues, sent, same) = send_all-IsOpen msg (targets key reg) w.queues (
      conns_of-All (devices_of key reg.channel_devices) reg.device_conns
        (λ c x here. (v.registered c x here).still_open)) in
    (
      record { next = w.next; heap = w.heap; queues = queues; hub = w.hub },
      rw sent refl,
      record {
        consistent = v.consistent;
        addressed = v.addressed;
        registered = λ c x here.
            let old = v.registered c x here in
            record {
              made = old.made;
              in_heap = old.in_heap;
              own_code = old.own_code;
              still_open = same x.id ∙ old.still_open;
            };
      },
    )

-- A connection that has been made and whose channel is open.
record IsFresh (w : HubWorld) (dc : DeviceConn) : Type 0 where
  made : dc.id < w.next
  in_heap : w.heap dc.id ≡ dc
  fresh_open : IsOpen w.queues dc

register-IsSound :
    (w : HubWorld) (dc : DeviceConn) (queues : Queues) (subs : List String)
    → IsFresh w dc
    → IsOpen queues dc
    → ((c : String) (x : DeviceConn)
        → lookup c w.hub.registry.device_conns ≡ some x
        → str_eq dc.device_code c ≡ false
        → IsOpen queues x)
    → IsSound w
    → IsKept w
        (record { registry = (register dc w.hub.registry).registry; subscribed = subs })
        queues
register-IsSound w dc queues subs f new_open others v =
    let reg = w.hub.registry in
    record {
      consistent = register-IsConsistent dc reg (IsPointer-made w dc f.in_heap v) v.consistent;
      addressed = v.addressed;
      registered = λ c x here.
          let here' = sym (lookup-register dc reg c) ∙ here in
          case_of c x (str_eq dc.device_code c) refl here';
    }
  where
    kept : HubWorld
    kept = record {
      next = w.next;
      heap = w.heap;
      queues = queues;
      hub = record { registry = (register dc w.hub.registry).registry; subscribed = subs };
    }

    case_of :
        (c : String) (x : DeviceConn) (b : Bool)
        → str_eq dc.device_code c ≡ b
        → (if b then some dc else lookup c w.hub.registry.device_conns) ≡ some x
        → IsMade kept c x
    case_of c x true e here =
        let same : dc ≡ x = cc in
        subst (IsMade kept c) same (record {
          made = f.made;
          in_heap = f.in_heap;
          own_code = ground (arith, eq_iff dc.device_code c);
          still_open = new_open;
        })
    case_of c x false e here =
        let old = v.registered c x here in
        record {
          made = old.made;
          in_heap = old.in_heap;
          own_code = old.own_code;
          still_open = others c x here e;
        }

-- The connection that a new one replaces is the one that its device has.
replaced_conn-registered :
    (dc : DeviceConn) (o : Option DeviceConn) (old : DeviceConn)
    → replaced_conn dc o ≡ some old
    → (o ≡ some old) × (old.id ≢ dc.id)
replaced_conn-registered dc none old e = cc
replaced_conn-registered dc (some x) old e = (ground arith, ground arith)

-- What the steps of the registration leave, however it ends.
abbrev HasSound : HubWorld → Ending → Type 0
HasSound w ending = (w' : HubWorld) × (connected w ending ≡ some w') × IsSound w'

accepted-HasSound :
    (w : HubWorld) (dc : DeviceConn) (subs : List String)
    → IsFresh w dc
    → IsSound w
    → HasSound w (
        ended
          (record { registry = (register dc w.hub.registry).registry; subscribed = subs })
          (close_replaced (register dc w.hub.registry).replaced w.queues))
unfolding register
accepted-HasSound w dc subs f v =
    let conns = w.hub.registry.device_conns in
    let was = replaced_conn-registered dc (lookup dc.device_code conns) in
    let (queues, closed, same) =
      close_replaced-IsOpen (replaced_conn dc (lookup dc.device_code conns)) w.queues
        (λ old e. (v.registered dc.device_code old (was old e).0).still_open) in
    (
      record {
        next = w.next;
        heap = w.heap;
        queues = queues;
        hub = record { registry = (register dc w.hub.registry).registry; subscribed = subs };
      },
      rw closed refl,
      register-IsSound w dc queues subs f (same dc.id (λ old e. (was old e).1) ∙ f.fresh_open)
          (λ c x here other.
            same x.id (λ old e id. apart w dc c x old here (was old e).0 v other id)
            ∙ (v.registered c x here).still_open)
          v,
    )
  where
    apart :
        (w : HubWorld) (dc : DeviceConn) (c : String) (x old : DeviceConn)
        → lookup c w.hub.registry.device_conns ≡ some x
        → lookup dc.device_code w.hub.registry.device_conns ≡ some old
        → IsSound w
        → str_eq dc.device_code c ≡ false
        → old.id ≢ x.id
    apart w dc c x old here there v other id =
        let made = v.registered c x here in
        let made' = v.registered dc.device_code old there in
        let same : old ≡ x = sym made'.in_heap ∙ ap w.heap id ∙ made.in_heap in
        let code : dc.device_code ≡ c =
          sym made'.own_code ∙ ap (λ (y : DeviceConn). y.device_code) same ∙ made.own_code in
        ground (arith, eq_iff dc.device_code c)

-- ===== src/Tests/Hubs.antt =====
-- The hub: two devices of a section, one of which reconnects.
use mathlib.Core.List.{Memᴰ}
use osm_device_adapter.Prelude.{
  ℕ, ◌==◌, if◌then◌else◌, All, ◌⊎◌, ◌≡◌, refl, String, true, false, none, List, [], ◌∷◌, arith,
}
use osm_device_adapter.Prelude.Dict.{lookup, insert, erase}
use osm_device_adapter.Prelude.TextSet.{member, add, remove}
use osm_device_adapter.Hub.Messages.{refresh_scores_message, disconnect_message}
use osm_device_adapter.Hub.Registry.{
  DeviceConn, Registry, empty, register, unregister, add_keys, drop_keys, has_devices, is_connected,
}
use osm_device_adapter.Hub.Registry.Tracking.{IsConsistent, listed, tracked}
use osm_device_adapter.Hub.Registry.Tracking.Consistent.{register-IsConsistent}
use osm_device_adapter.Hub.Subscriptions.{HubState, connect, subscribe_all, unsubscribe_all}
use osm_device_adapter.Hub.Subscriptions.InSync.{IsInSync, connect-IsInSync}
use osm_device_adapter.Hub.Delivery.{
  Queue, Queues, new_queue, set_queue, send_all, targets, conns_of, deliver_to_channel, try_send,
  close_conn,
}
use osm_device_adapter.Hub.Delivery.Targets.{sent_to}
use osm_device_adapter.Hub.Sessions.{
  Outages, register_device_and_subscribe, send_subs, send_unsubs, failed,
}
use osm_device_adapter.Hub.Sections.{
  Section, registers, unregisters, section_run, section_step, made_conn, new_maps,
}
use osm_device_adapter.Hub.Sections.Mapped.{IsMapped, section_run-IsMapped}
use osm_device_adapter.Hub.Sections.Reached.{IsReached, conn_ids, section_run-IsReached}
use osm_device_adapter.Hub.Sessions.Failures.{
  register_device_and_subscribe_refused, send_all_overtaken,
}

abbrev keys : List String
keys = "section:42" ∷ "device:one" ∷ []

abbrev first : DeviceConn
first = record { id = 0; device_code = "one"; channel_keys = keys }

abbrev second : DeviceConn
second = record { id = 1; device_code = "one"; channel_keys = keys }

abbrev nothing : HubState
nothing = record { registry = empty; subscribed = [] }

abbrev one_connected : Registry
one_connected = record {
  device_conns = ("one", first) ∷ [];
  channel_devices = ("section:42", "one" ∷ []) ∷ ("device:one", "one" ∷ []) ∷ [];
}

abbrev one_state : HubState
one_state = record { registry = one_connected; subscribed = "device:one" ∷ "section:42" ∷ [] }

abbrev open_queues : Queues
open_queues i = new_queue

abbrev refuses : Outages
refuses = record { is_done = λ key. false; subscribe_fails = λ key. true }

abbrev times_out : Outages
times_out = record { is_done = λ key. true; subscribe_fails = λ key. false }

empty-IsConsistent : IsConsistent empty
unfolding tracked listed lookup member
empty-IsConsistent = record { agrees = λ k c. refl; pruned = record { at_key = λ k d e. cc } }

one-IsConsistent : IsConsistent one_connected
unfolding register add_keys lookup insert member add
one-IsConsistent = register-IsConsistent first empty (λ c here same. cc) empty-IsConsistent

empty-IsInSync : IsInSync nothing
unfolding member has_devices lookup
empty-IsInSync = record { at_key = λ k. refl }

connect-IsInSync_example : IsInSync (connect first nothing)
connect-IsInSync_example = connect-IsInSync first nothing empty-IsConsistent.pruned empty-IsInSync

abbrev sections : List Section
sections =
    registers "one" keys
    ∷ registers "two" ("section:42" ∷ "device:two" ∷ [])
    ∷ registers "one" keys
    ∷ unregisters 0
    ∷ unregisters 1
    ∷ []

section_run-IsMapped_example : IsMapped (section_run new_maps sections)
section_run-IsMapped_example = section_run-IsMapped sections

abbrev got : Queues
got i =
    if i == 2 then record { waiting = refresh_scores_message ∷ []; closed = false } else new_queue

section_run-IsReached_example :
    All
      (IsReached refresh_scores_message open_queues got)
      (targets "section:42" (section_run new_maps sections).registry)
    × ((i : ℕ)
        → (got i ≡ open_queues i)
          ⊎ Memᴰ i (conn_ids (targets "section:42" (section_run new_maps sections).registry)))
    × ((code : String)
        → sent_to code (targets "section:42" (section_run new_maps sections).registry)
          ≡ listed "section:42" code (section_run new_maps sections).registry.device_conns)
unfolding deliver_to_channel targets conns_of try_send section_run section_step made_conn register
    unregister drop_keys add_keys lookup insert erase member add remove
section_run-IsReached_example =
    section_run-IsReached sections "section:42" refresh_scores_message open_queues got refl

register_device_and_subscribe_refused_example :
    (hub : HubState) × (register_device_and_subscribe refuses second one_state open_queues
      ≡ failed hub)
    × (is_connected "one" hub.registry ≡ false)
unfolding register lookup drop_keys insert erase remove member add add_keys send_unsubs send_subs
register_device_and_subscribe_refused_example =
    register_device_and_subscribe_refused refuses second one_state open_queues refl refl

abbrev told : Queue
told = record { waiting = disconnect_message "replaced by new connection" ∷ []; closed = true }

send_all_overtaken_example :
    send_all refresh_scores_message (first ∷ []) (set_queue 0 told open_queues) ≡ none
unfolding register_device_and_subscribe connect register lookup drop_keys insert erase remove member
    add add_keys send_unsubs send_subs subscribe_all unsubscribe_all close_conn try_send
send_all_overtaken_example =
    send_all_overtaken second first one_state (connect second one_state) open_queues
      (set_queue 0 told open_queues) refresh_scores_message [] refl (λ e. omega (arith, e)) refl

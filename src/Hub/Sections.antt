-- ===== src/Hub/Sections.antt =====
-- The critical sections of internal/websocket/hub.go, between any two of which everything else may
-- happen: the connections are made by `DeviceWebSocketHandler`, `RegisterDeviceAndSubscribe` enters
-- them into the maps under the mutex, and `UnregisterDeviceConn` takes them out under it. What is
-- done without the mutex (the requests to `Run`, the sends and the ends of channels) does not touch
-- the maps, so that every interleaving is, to the maps, a sequence of these sections.
pub mod Mapped
pub mod Reached
use osm_device_adapter.Prelude.{ℕ, suc, String, List, [], ◌∷◌, ltb, ◌==◌, if◌then◌else◌}
use osm_device_adapter.Hub.Registry.{DeviceConn, Registry, empty, register, unregister}

-- The connections made so far, and the maps.
pub record Maps : Type 0 where
  pub next : ℕ
  pub heap : ℕ → DeviceConn
  pub registry : Registry

pub data Section : Type 0 where
  registers : String → List String → Section
  unregisters : ℕ → Section

-- `dc := &deviceConn{…}`
unfoldable pub made_conn : String → List String → Maps → Maps
made_conn code keys m =
    let dc : DeviceConn = record { id = m.next; device_code = code; channel_keys = keys } in
    record {
      next = suc m.next;
      heap = λ i. if i == m.next then dc else m.heap i;
      registry = m.registry;
    }

abbrev pub entered : DeviceConn → Maps → Maps
entered dc m = record { next = m.next; heap = m.heap; registry = (register dc m.registry).registry }

abbrev pub left : DeviceConn → Maps → Maps
left dc m = record { next = m.next; heap = m.heap; registry = (unregister dc m.registry).0 }

-- Only a connection that has been made is unregistered, as often as may be.
unfoldable pub section_step : Maps → Section → Maps
section_step m (registers code keys) = let m' = made_conn code keys m in entered (m'.heap m.next) m'
section_step m (unregisters i) = if ltb i m.next then left (m.heap i) m else m

unfoldable pub section_run : Maps → List Section → Maps
section_run m [] = m
section_run m (s ∷ ss) = section_run (section_step m s) ss

-- `NewHub`
abbrev pub new_maps : Maps
new_maps = record {
  next = 0;
  heap = λ i. record { id = i; device_code = ""; channel_keys = [] };
  registry = empty;
}

-- ===== src/Hub/Delivery.antt =====
-- The send channels of the connections, and what internal/websocket/hub.go puts on them:
-- `deliverToChannel`, the end of a replaced connection, and `closeAllConnections`.
pub mod Targets
use osm_device_adapter.Prelude.{
  ℕ, String, Bool, true, false, Option, none, some, List, [], ◌∷◌, ◌++◌, length, ltb, ◌==◌,
  if◌then◌else◌,
}
use osm_device_adapter.Prelude.Dict.{Dict, lookup}
use osm_device_adapter.Hub.Messages.{Message, disconnect_message}
use osm_device_adapter.Hub.Registry.{DeviceConn, Registry, devices_of}

-- A `chan Message`: what waits in its buffer, and whether it has been closed.
pub record Queue : Type 0 where
  pub waiting : List Message
  pub closed : Bool

-- The channel of each connection, by the connection's `id`.
abbrev pub Queues : Type 0
Queues = ℕ → Queue

abbrev pub send_buffer_size : ℕ
send_buffer_size = 16

abbrev pub new_queue : Queue
new_queue = record { waiting = []; closed = false }

abbrev pub set_queue : ℕ → Queue → Queues → Queues
set_queue id q queues i = if i == id then q else queues i

-- `select { case c <- msg: default: }`: a full buffer drops the message; none stands for the
-- panic of a send on a closed channel.
unfoldable pub try_send : Message → Queue → Option Queue
try_send msg q =
    if q.closed
    then none
    else if ltb (length q.waiting) send_buffer_size
    then some (record { waiting = q.waiting ++ msg ∷ []; closed = false })
    else some q

abbrev pub stored : ℕ → Queues → Option Queue → Option Queues
stored id queues none = none
stored id queues (some q) = some (set_queue id q queues)

abbrev pub send_to : Message → DeviceConn → Queues → Option Queues
send_to msg dc queues = stored dc.id queues (try_send msg (queues dc.id))

abbrev pub send_all : Message → List DeviceConn → Queues → Option Queues
send_all msg [] queues = some queues
send_all msg (dc ∷ dcs) queues = elim (send_to msg dc queues) [
  | none ↦ none
  | some queues' ↦ send_all msg dcs queues'
]

-- The connections of those of the devices that have one.
unfoldable pub conns_of : List String → Dict DeviceConn → List DeviceConn
conns_of [] conns = []
conns_of (code ∷ codes) conns =
    let rest = conns_of codes conns in
    elim (lookup code conns) [ none ↦ rest | some dc ↦ dc ∷ rest ]

-- The snapshot that `deliverToChannel` takes under the mutex.
unfoldable pub targets : String → Registry → List DeviceConn
targets key h = conns_of (devices_of key h.channel_devices) h.device_conns

-- `deliverToChannel` where nothing comes between the snapshot and the sends.
unfoldable pub deliver_to_channel : String → Message → Registry → Queues → Option Queues
deliver_to_channel key msg h queues = send_all msg (targets key h) queues

-- A farewell is put on the channel if there is room, and the channel is closed.
abbrev pub closed_queue : Option Queue → Option Queue
closed_queue none = none
closed_queue (some q) = some (record { waiting = q.waiting; closed = true })

unfoldable pub close_conn : String → DeviceConn → Queues → Option Queues
close_conn reason dc queues =
    stored dc.id queues (closed_queue (try_send (disconnect_message reason) (queues dc.id)))

-- `if replaced != nil`
abbrev pub close_replaced : Option DeviceConn → Queues → Option Queues
close_replaced none queues = some queues
close_replaced (some old) queues = close_conn "replaced by new connection" old queues

-- `closeAllConnections`
unfoldable pub close_all : String → Dict DeviceConn → Queues → Option Queues
close_all reason [] queues = some queues
close_all reason ((code, dc) ∷ conns) queues = elim (close_conn reason dc queues) [
  | none ↦ none
  | some queues' ↦ close_all reason conns queues'
]

-- ===== src/Hub/Sessions/Sound/Queued.antt =====
-- Sends and closes on channels that are open do not panic.
use osm_device_adapter.Prelude.{
  ℕ, String, true, false, Option, none, some, List, [], ◌∷◌, ◌++◌, length, ltb, ◌≡◌, ◌≢◌, refl,
  arith, if◌then◌else◌, ◌∙◌, All,
}
use osm_device_adapter.Prelude.Dict.{Dict, lookup}
use osm_device_adapter.Hub.Messages.{Message, disconnect_message}
use osm_device_adapter.Hub.Registry.{DeviceConn}
use osm_device_adapter.Hub.Delivery.{
  Queue, Queues, try_send, send_buffer_size, send_to, send_all, conns_of, set_queue, close_conn,
  close_replaced,
}

abbrev pub IsOpen : Queues → DeviceConn → Type 0
IsOpen queues dc = (queues dc.id).closed ≡ false

-- The same channels are closed.
abbrev pub SameClosed : Queues → Queues → Type 0
SameClosed q q' = (i : ℕ) → (q' i).closed ≡ (q i).closed

-- An open channel takes a message, or drops it.
try_send-IsOpen :
    (msg : Message) (q : Queue)
    → q.closed ≡ false
    → (q' : Queue) × (try_send msg q ≡ some q') × (q'.closed ≡ false)
unfolding try_send
try_send-IsOpen msg q e =
    let q' : Queue =
      if ltb (length q.waiting) send_buffer_size
      then record { waiting = q.waiting ++ msg ∷ []; closed = false }
      else q in
    (q', ground arith, ground arith)

send_to-IsOpen :
    (msg : Message) (dc : DeviceConn) (queues : Queues)
    → IsOpen queues dc
    → (queues' : Queues) × (send_to msg dc queues ≡ some queues') × SameClosed queues queues'
send_to-IsOpen msg dc queues e =
    let (q, sent, e') = try_send-IsOpen msg (queues dc.id) e in
    (set_queue dc.id q queues, rw sent refl, λ i. ground arith)

All-IsOpen :
    (dcs : List DeviceConn) (q q' : Queues)
    → SameClosed q q'
    → All (IsOpen q) dcs
    → All (IsOpen q') dcs
All-IsOpen [] q q' same v = v
All-IsOpen (dc ∷ dcs) q q' same (e, v) = (same dc.id ∙ e, All-IsOpen dcs q q' same v)

pub send_all-IsOpen :
    (msg : Message) (dcs : List DeviceConn) (queues : Queues)
    → All (IsOpen queues) dcs
    → (queues' : Queues) × (send_all msg dcs queues ≡ some queues') × SameClosed queues queues'
send_all-IsOpen msg [] queues v = (queues, refl, λ i. refl)
send_all-IsOpen msg (dc ∷ dcs) queues (e, v) =
    let (first, sent, same) = send_to-IsOpen msg dc queues e in
    let (all, sent', same') = send_all-IsOpen msg dcs first (All-IsOpen dcs queues first same v) in
    (all, rw (sent, send_all) sent', λ i. same' i ∙ same i)

conn_step-All :
    {P : DeviceConn → Type 0} (o : Option DeviceConn) (rest : List DeviceConn)
    → ((dc : DeviceConn) → o ≡ some dc → P dc)
    → All P rest
    → All P (elim o [ none ↦ rest | some dc ↦ dc ∷ rest ])
conn_step-All none rest p v = v
conn_step-All (some dc) rest p v = (p dc refl, v)

-- What every registered connection has, the connections found for the devices have.
pub conns_of-All :
    {P : DeviceConn → Type 0} (codes : List String) (conns : Dict DeviceConn)
    → ((code : String) (dc : DeviceConn) → lookup code conns ≡ some dc → P dc)
    → All P (conns_of codes conns)
unfolding conns_of
conns_of-All [] conns p = tt
conns_of-All (code ∷ codes) conns p =
    conn_step-All (lookup code conns) (conns_of codes conns) (p code) (conns_of-All codes conns p)

-- A connection that is replaced can be told so, and of the other channels none is closed.
pub close_replaced-IsOpen :
    (replaced : Option DeviceConn) (queues : Queues)
    → ((old : DeviceConn) → replaced ≡ some old → IsOpen queues old)
    → (queues' : Queues) × (close_replaced replaced queues ≡ some queues')
      × ((i : ℕ)
          → ((old : DeviceConn) → replaced ≡ some old → old.id ≢ i)
          → (queues' i).closed ≡ (queues i).closed)
unfolding close_conn
close_replaced-IsOpen none queues e = (queues, refl, λ i other. refl)
close_replaced-IsOpen (some old) queues e =
    let msg = disconnect_message "replaced by new connection" in
    let (q, sent, e') = try_send-IsOpen msg (queues old.id) (e old refl) in
    (
      set_queue old.id (record { waiting = q.waiting; closed = true }) queues,
      rw sent refl,
      λ i other. ground (arith, other old refl),
    )

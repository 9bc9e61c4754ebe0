-- ===== src/Hub/Delivery/Targets.antt =====
-- A message reaches the devices that are connected and listen to its channel.
use osm_device_adapter.Prelude.{
  String, Bool, true, false, ◌&&◌, ◌||◌, Option, none, some, List, [], ◌∷◌, ◌≡◌, refl, arith,
  str_eq, eq_iff,
}
use osm_device_adapter.Prelude.Dict.{Dict, lookup}
use osm_device_adapter.Prelude.TextSet.{member}
use osm_device_adapter.Hub.Registry.{DeviceConn, Registry, devices_of}
use osm_device_adapter.Hub.Registry.Tracking.{tracked, listed, IsConsistent}
use osm_device_adapter.Hub.Delivery.{conns_of, targets}

-- The device has a connection among these.
abbrev pub sent_to : String → List DeviceConn → Bool
sent_to code [] = false
sent_to code (dc ∷ dcs) = str_eq dc.device_code code || sent_to code dcs

-- A registered connection stands under its own device code.
abbrev pub HasOwnCode : Dict DeviceConn → Type 0
HasOwnCode conns =
    (code : String) (dc : DeviceConn) → lookup code conns ≡ some dc → dc.device_code ≡ code

has_conn : String → Dict DeviceConn → Bool
has_conn code conns = elim (lookup code conns) [ none ↦ false | some dc ↦ true ]

sent_to_step :
    (code c : String) (o : Option DeviceConn) (rest : List DeviceConn)
    → ((dc : DeviceConn) → o ≡ some dc → dc.device_code ≡ c)
    → sent_to code (elim o [ none ↦ rest | some dc ↦ dc ∷ rest ])
      ≡ (str_eq c code && elim o [ none ↦ false | some dc ↦ true ] || sent_to code rest)
sent_to_step code c none rest own = ground arith
sent_to_step code c (some dc) rest own = ground (arith, own dc refl)

sent_to-conns_of :
    (code : String) (codes : List String) (conns : Dict DeviceConn)
    → HasOwnCode conns
    → sent_to code (conns_of codes conns) ≡ (member code codes && has_conn code conns)
unfolding conns_of member has_conn
sent_to-conns_of code [] conns own = refl
sent_to-conns_of code (c ∷ codes) conns own = ground (
  arith,
  eq_iff c code,
  sent_to_step code c (lookup c conns) (conns_of codes conns) (own c),
  sent_to-conns_of code codes conns own,
)

-- A message on a channel goes to a device exactly where the device has a registered connection
-- that lists the channel.
pub targets-listed :
    (key code : String) (h : Registry)
    → IsConsistent h
    → HasOwnCode h.device_conns
    → sent_to code (targets key h) ≡ listed key code h.device_conns
unfolding targets tracked listed has_conn
targets-listed key code h v own = ground (
  arith,
  sent_to-conns_of code (devices_of key h.channel_devices) h.device_conns own,
  v.agrees key code,
)

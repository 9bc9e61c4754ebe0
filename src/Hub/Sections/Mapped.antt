-- ===== src/Hub/Sections/Mapped.antt =====
-- What every interleaving of the critical sections of internal/websocket/hub.go keeps.
use osm_device_adapter.Prelude.{
  ℕ, ◌<◌, String, Bool, true, false, some, List, [], ◌∷◌, ◌≡◌, refl, sym, ap, ◌∙◌, subst, arith,
  str_eq, eq_iff, ltb, if◌then◌else◌, if_split,
}
use osm_device_adapter.Prelude.Dict.{lookup}
use osm_device_adapter.Prelude.TextSet.{member}
use osm_device_adapter.Hub.Registry.{DeviceConn}
use osm_device_adapter.Hub.Registry.Tracking.{IsConsistent, tracked, listed}
use osm_device_adapter.Hub.Registry.Tracking.Consistent.{
  IsPointer, register-IsConsistent, unregister-IsConsistent,
}
use osm_device_adapter.Hub.Sessions.Sound.{lookup-register, lookup-unregister}
use osm_device_adapter.Hub.Sections.{
  Maps, Section, registers, unregisters, made_conn, entered, left, section_step, section_run,
  new_maps,
}

-- A registered connection has been made, and stands under its own device code.
pub record IsPlaced (m : Maps) (code : String) (dc : DeviceConn) : Type 0 where
  pub made : dc.id < m.next
  pub in_heap : m.heap dc.id ≡ dc
  pub own_code : dc.device_code ≡ code

-- The two maps agree on which devices listen to which channel.
pub record IsMapped (m : Maps) : Type 0 where
  pub consistent : IsConsistent m.registry
  pub addressed : (i : ℕ) → (m.heap i).id ≡ i
  pub registered :
      (code : String) (dc : DeviceConn)
      → lookup code m.registry.device_conns ≡ some dc
      → IsPlaced m code dc

IsPointer-placed :
    (m : Maps) (dc : DeviceConn) → m.heap dc.id ≡ dc → IsMapped m → IsPointer dc m.registry
IsPointer-placed m dc e v c here same =
    sym (v.registered dc.device_code c here).in_heap ∙ ap m.heap same ∙ e

made_conn-IsMapped :
    (code : String) (keys : List String) (m : Maps) → IsMapped m → IsMapped (made_conn code keys m)
unfolding made_conn
made_conn-IsMapped code keys m v = record {
  consistent = v.consistent;
  addressed = λ i. ground (arith, v.addressed i);
  registered = λ c x here.
      let old = v.registered c x here in
      let made = old.made in
      record {
        made = omega (arith, made);
        in_heap = ground (arith, made, old.in_heap);
        own_code = old.own_code;
      };
}

made_conn-made :
    (code : String) (keys : List String) (m : Maps)
    → (((made_conn code keys m).heap m.next).id < (made_conn code keys m).next)
      × ((made_conn code keys m).heap ((made_conn code keys m).heap m.next).id
          ≡ (made_conn code keys m).heap m.next)
unfolding made_conn
made_conn-made code keys m = (ground arith, ground arith)

entered-IsPlaced :
    (m : Maps) (dc : DeviceConn) (c : String) (x : DeviceConn) (b : Bool)
    → dc.id < m.next
    → m.heap dc.id ≡ dc
    → IsMapped m
    → str_eq dc.device_code c ≡ b
    → (if b then some dc else lookup c m.registry.device_conns) ≡ some x
    → IsPlaced (entered dc m) c x
entered-IsPlaced m dc c x true made at v e here =
    let same : dc ≡ x = cc in
    subst (IsPlaced (entered dc m) c) same
      (record { made = made; in_heap = at; own_code = ground (arith, eq_iff dc.device_code c) })
entered-IsPlaced m dc c x false made at v e here =
    let old = v.registered c x here in
    record { made = old.made; in_heap = old.in_heap; own_code = old.own_code }

entered-IsMapped :
    (m : Maps) (dc : DeviceConn)
    → dc.id < m.next
    → m.heap dc.id ≡ dc
    → IsMapped m
    → IsMapped (entered dc m)
entered-IsMapped m dc made at v = record {
  consistent = register-IsConsistent dc m.registry (IsPointer-placed m dc at v) v.consistent;
  addressed = v.addressed;
  registered = λ c x here.
      entered-IsPlaced m dc c x (str_eq dc.device_code c) made at v refl
        (sym (lookup-register dc m.registry c) ∙ here);
}

left-IsMapped : (m : Maps) (dc : DeviceConn) → m.heap dc.id ≡ dc → IsMapped m → IsMapped (left dc m)
left-IsMapped m dc at v = record {
  consistent = unregister-IsConsistent dc m.registry (IsPointer-placed m dc at v) v.consistent;
  addressed = v.addressed;
  registered = λ c x here.
      let old = v.registered c x (lookup-unregister dc m.registry c x here) in
      record { made = old.made; in_heap = old.in_heap; own_code = old.own_code };
}

section_step-IsMapped : (m : Maps) (s : Section) → IsMapped m → IsMapped (section_step m s)
unfolding section_step
section_step-IsMapped m (registers code keys) v =
    let m' = made_conn code keys m in
    let (made, at) = made_conn-made code keys m in
    entered-IsMapped m' (m'.heap m.next) made at (made_conn-IsMapped code keys m v)
section_step-IsMapped m (unregisters i) v =
    if_split IsMapped (ltb i m.next) (λ e. left-IsMapped m (m.heap i) (ap m.heap (v.addressed i)) v)
      (λ e. v)

section_run-kept : (m : Maps) (ss : List Section) → IsMapped m → IsMapped (section_run m ss)
unfolding section_run
section_run-kept m [] v = v
section_run-kept m (s ∷ ss) v = section_run-kept (section_step m s) ss (section_step-IsMapped m s v)

new_maps-IsMapped : IsMapped new_maps
unfolding tracked listed lookup member
new_maps-IsMapped = record {
  consistent = record { agrees = λ k c. refl; pruned = record { at_key = λ k d e. cc } };
  addressed = λ i. refl;
  registered = λ c x e. cc;
}

-- After any sequence of critical sections, so in any interleaving of registrations, unregistrations
-- and whatever goes on outside the mutex, the hub's two maps agree: a device is in the set of a
-- channel exactly where its registered connection lists the channel, and no set is empty; and
-- every registered connection stands under its own device code.
pub section_run-IsMapped : (ss : List Section) → IsMapped (section_run new_maps ss)
section_run-IsMapped ss = section_run-kept new_maps ss new_maps-IsMapped

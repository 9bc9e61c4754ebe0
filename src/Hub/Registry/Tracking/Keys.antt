-- ===== src/Hub/Registry/Tracking/Keys.antt =====
-- What the loops over a connection's channel keys do to the channel map.
use osm_device_adapter.Prelude.{
  String, true, false, not, ◌&&◌, ◌||◌, Option, none, some, List, [], ◌∷◌, ◌≡◌, refl, arith, str_eq,
  eq_iff, if◌then◌else◌, if_split,
}
use osm_device_adapter.Prelude.Dict.{Dict, lookup, insert, erase, lookup-insert, lookup-erase}
use osm_device_adapter.Prelude.TextSet.{
  member, add, remove, is_empty, member-add, member-remove, member-of_empty, is_empty-add,
}
use osm_device_adapter.Hub.Registry.{drop_at, drop_key, drop_keys, add_keys, devices_of}
use osm_device_adapter.Hub.Registry.Tracking.{tracked, IsPruned}

tracked-erase :
    (key k c : String) (channels : Dict (List String))
    → tracked k c (erase key channels) ≡ (if str_eq key k then false else tracked k c channels)
unfolding tracked member
tracked-erase key k c channels = ground (arith, lookup-erase key k channels)

tracked-insert :
    (key k c : String) (devs : List String) (channels : Dict (List String))
    → tracked k c (insert key devs channels)
      ≡ (if str_eq key k then member c devs else tracked k c channels)
unfolding tracked
tracked-insert key k c devs channels = ground (arith, lookup-insert key k devs channels)

tracked-drop_at :
    (code key k c : String) (channels : Dict (List String)) (u : List String)
    (o : Option (List String))
    → lookup key channels ≡ o
    → tracked k c (drop_at code key channels u o).0
      ≡ (not (str_eq key k && str_eq code c) && tracked k c channels)
unfolding drop_at
tracked-drop_at code key k c channels u none e =
    unfold tracked member in ground (arith, eq_iff key k)
tracked-drop_at code key k c channels u (some devs) e =
    let left = remove code devs in
    let here : str_eq key k ≡ true → tracked k c channels ≡ member c devs =
      (λ same. unfold tracked in ground (arith, eq_iff key k)) in
    ground (
      arith,
      tracked-erase key k c channels,
      tracked-insert key k c left channels,
      member-remove code c devs,
      member-of_empty c left,
      here,
    )

pub tracked-drop_keys :
    (code : String) (keys : List String) (k c : String) (channels : Dict (List String))
    (u : List String)
    → tracked k c (drop_keys code keys (channels, u)).0
      ≡ (not (member k keys && str_eq code c) && tracked k c channels)
unfolding drop_keys member
tracked-drop_keys code [] k c channels u = refl
tracked-drop_keys code (key ∷ keys) k c channels u =
    let (channels', u') = drop_key code key (channels, u) in
    ground (
      arith,
      tracked-drop_at code key k c channels u (lookup key channels) refl,
      tracked-drop_keys code keys k c channels' u',
    )

pub tracked-add_keys :
    (code : String) (keys : List String) (k c : String) (channels : Dict (List String))
    → tracked k c (add_keys code keys channels).0
      ≡ (member k keys && str_eq code c || tracked k c channels)
unfolding add_keys member
tracked-add_keys code [] k c channels = refl
tracked-add_keys code (key ∷ keys) k c channels =
    let devs = devices_of key channels in
    let here : str_eq key k ≡ true → tracked k c channels ≡ member c devs =
      (λ same. unfold tracked in ground (arith, eq_iff key k)) in
    ground (
      arith,
      tracked-insert key k c (add code devs) channels,
      member-add code c devs,
      here,
      tracked-add_keys code keys k c (insert key (add code devs) channels),
    )

IsPruned-erase :
    (key : String) (channels : Dict (List String))
    → IsPruned channels
    → IsPruned (erase key channels)
IsPruned-erase key channels v = record {
  at_key = λ k devs e. ground (arith, lookup-erase key k channels, v.at_key k devs);
}

IsPruned-insert :
    (key : String) (devs : List String) (channels : Dict (List String))
    → is_empty devs ≡ false
    → IsPruned channels
    → IsPruned (insert key devs channels)
IsPruned-insert key devs channels n v = record {
  at_key = λ k devs' e. ground (arith, lookup-insert key k devs channels, v.at_key k devs');
}

pub IsPruned-drop_at :
    (code key : String) (channels : Dict (List String)) (u : List String) (o : Option (List String))
    → IsPruned channels
    → IsPruned (drop_at code key channels u o).0
unfolding drop_at
IsPruned-drop_at code key channels u none v = v
IsPruned-drop_at code key channels u (some devs) v =
    if_split (λ (p : Dict (List String) × List String). IsPruned p.0) (is_empty (remove code devs))
      (λ gone. IsPruned-erase key channels v)
      (λ left. IsPruned-insert key (remove code devs) channels left v)

pub IsPruned-drop_keys :
    (code : String) (keys : List String) (channels : Dict (List String)) (u : List String)
    → IsPruned channels
    → IsPruned (drop_keys code keys (channels, u)).0
unfolding drop_keys
IsPruned-drop_keys code [] channels u v = v
IsPruned-drop_keys code (key ∷ keys) channels u v =
    let (channels', u') = drop_key code key (channels, u) in
    IsPruned-drop_keys code keys channels' u'
      (IsPruned-drop_at code key channels u (lookup key channels) v)

pub IsPruned-add_keys :
    (code : String) (keys : List String) (channels : Dict (List String))
    → IsPruned channels
    → IsPruned (add_keys code keys channels).0
unfolding add_keys
IsPruned-add_keys code [] channels v = v
IsPruned-add_keys code (key ∷ keys) channels v =
    let devs = devices_of key channels in
    IsPruned-add_keys code keys (insert key (add code devs) channels)
      (IsPruned-insert key (add code devs) channels (is_empty-add code devs) v)

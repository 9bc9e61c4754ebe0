-- ===== src/Db/AdhocPatrols/Laws.antt =====
-- What the rows of internal/db/adhocpatrol/store.go keep: positions that are below the identifiers,
-- and no more patrols of a user than the store allows.
use osm_device_adapter.Prelude.{
  ℕ, suc, ◌<◌, ◌≡◌, refl, ap, ◌∙◌, subst, sym, Bool, true, false, Option, none, some, List, [], ◌∷◌,
  arith, leb, if◌then◌else◌, length, filter, find?, All, inl, inr, if_both,
}
use osm_device_adapter.Prelude.Int.{ℤ, pos, negsuc, ◌+ℤ◌, ltb_ℤ, wrap_64, wrap_64-pos, two_63}
use osm_device_adapter.Db.Models.{AdhocPatrol}
use osm_device_adapter.Db.AdhocPatrols.{
  AdhocTable, StoreError, max_patrols_reached, no_faults, max_patrols_per_user, is_owner, is_owned,
  larger, max_position, next_position, clashes, insert_row, create_patrol, update_rows, write_owned,
  none_affected,
}
use osm_device_adapter.Db.AdhocPatrols.Order.{is_below, max_position-above, All-filter}

-- A position is below the identifier, which the sequence has passed.
abbrev pub IsPlaced : ℕ → AdhocPatrol → Type 0
IsPlaced next p =
    (p.id < next) × ((ltb_ℤ p.position (pos p.id) ≡ true) × (ltb_ℤ p.position (pos 0) ≡ false))

abbrev pub IsPlacedTable : AdhocTable → Type 0
IsPlacedTable table = (0 < table.next_id) × All (IsPlaced table.next_id) table.rows

abbrev pub patrol_count : ℤ → AdhocTable → ℕ
patrol_count user table = length (filter (is_owner user) table.rows)

abbrev HasRoom : ℕ → Option ℤ → Type 0
HasRoom next none = Unit
HasRoom next (some m) = (ltb_ℤ (m +ℤ pos 1) (pos next) ≡ true) × (ltb_ℤ m (pos 0) ≡ false)

HasRoom-larger :
    (next : ℕ) (p : AdhocPatrol) (o : Option ℤ)
    → IsPlaced next p
    → HasRoom next o
    → HasRoom next (some (larger p.position o))
unfolding ◌+ℤ◌
HasRoom-larger next p none placed room = (ground (arith, placed), ground (arith, placed))
HasRoom-larger next p (some m) placed room =
    (ground (arith, placed, room), ground (arith, placed, room))

HasRoom-max :
    (next : ℕ) (ps : List AdhocPatrol) → All (IsPlaced next) ps → HasRoom next (max_position ps)
HasRoom-max next [] placed = tt
HasRoom-max next (p ∷ ps) (placed, rest) =
    HasRoom-larger next p (max_position ps) placed (HasRoom-max next ps rest)

pos-suc : (n : ℕ) → pos n +ℤ pos 1 ≡ pos (suc n)
unfolding ◌+ℤ◌
pos-suc n = ground arith

-- The next position is a number that no row has reached.
pub next_position-HasRoom :
    (next : ℕ) (o : Option ℤ)
    → HasRoom next o
    → 0 < next
    → next < two_63
    → (k : ℕ) × ((next_position o ≡ pos k) × ((k < next) × (is_below o (pos k) ≡ true)))
unfolding ◌+ℤ◌
next_position-HasRoom next none room some_id fits = (0, (refl, (some_id, refl)))
next_position-HasRoom next (some (pos n)) room some_id fits =
    let above : suc n < next = ground (arith, room) in
    (
      suc n,
      (
        ap wrap_64 (pos-suc n) ∙ wrap_64-pos (suc n) (omega (arith, above, fits)),
        (above, ground arith),
      ),
    )
next_position-HasRoom next (some (negsuc n)) room some_id fits = ground (arith, room)

pub All-weaken :
    {P Q : AdhocPatrol → Type 0} (ps : List AdhocPatrol)
    → ((p : AdhocPatrol) → P p → Q p)
    → All P ps
    → All Q ps
All-weaken [] weaker all = tt
All-weaken (p ∷ ps) weaker (here, rest) = (weaker p here, All-weaken ps weaker rest)

All-filter_cons :
    (P : AdhocPatrol → Type 0) (b : Bool) (q : AdhocPatrol) (qs : List AdhocPatrol)
    → All P (if b then q ∷ qs else qs)
    → (b ≡ true → P q) × All P qs
All-filter_cons P true q qs (here, rest) = ((λ e. here), rest)
All-filter_cons P false q qs all = ((λ e. cc), all)

-- A row with an identifier and a position above all others breaks no constraint.
clashes-none :
    (row : AdhocPatrol) (rows : List AdhocPatrol)
    → All (λ q. q.id < row.id) rows
    → All (λ q. ltb_ℤ q.position row.position ≡ true) (filter (is_owner row.osm_user_id) rows)
    → find? (clashes row) rows ≡ none
clashes-none row [] ids positions = refl
clashes-none row (q ∷ qs) (id, ids) positions =
    let (position, later) =
      All-filter_cons (λ r. ltb_ℤ r.position row.position ≡ true) (is_owner row.osm_user_id q) q
        (filter (is_owner row.osm_user_id) qs) positions in
    ground (arith, id, position, clashes-none row qs ids later)

abbrev pub own_rows : AdhocPatrol → AdhocTable → List AdhocPatrol
own_rows p table = filter (is_owner p.osm_user_id) table.rows

-- The row that `Create` inserts.
abbrev pub new_row : AdhocPatrol → AdhocTable → AdhocPatrol
new_row p table = record p {
  position = next_position (max_position (own_rows p table));
  id = table.next_id;
}

-- It comes behind the user's other rows, and no constraint refuses it.
pub new_row-IsPlaced :
    (p : AdhocPatrol) (table : AdhocTable)
    → IsPlacedTable table
    → table.next_id < two_63
    → IsPlaced (suc table.next_id) (new_row p table)
      × (All (λ q. ltb_ℤ q.position (new_row p table).position ≡ true) (own_rows p table)
          × (find? (clashes (new_row p table)) table.rows ≡ none))
new_row-IsPlaced p table (some_id, placed) fits =
    let own = own_rows p table in
    let (k, (at, (below_next, below))) =
      next_position-HasRoom table.next_id (max_position own)
        (HasRoom-max table.next_id own
          (All-filter (IsPlaced table.next_id) (is_owner p.osm_user_id) table.rows placed))
        some_id fits in
    let above : All (λ q. ltb_ℤ q.position (new_row p table).position ≡ true) own =
      subst (λ position. All (λ q. ltb_ℤ q.position position ≡ true) own) (sym at)
        (max_position-above own (pos k) below) in
    (
      subst
          (λ position.
            IsPlaced (suc table.next_id) (record p { position = position; id = table.next_id }))
          (sym at) (omega arith, (ground (arith, below_next), ground arith)),
      (
        above,
        clashes-none (new_row p table) table.rows
            (All-weaken table.rows (λ q (h : IsPlaced table.next_id q). h.0) placed) above,
      ),
    )

-- What `Create` does where no query fails.
pub create_patrol_lem :
    (p : AdhocPatrol) (table : AdhocTable)
    → IsPlacedTable table
    → table.next_id < two_63
    → create_patrol no_faults p table ≡ (
        if leb max_patrols_per_user (length (own_rows p table))
        then (table, inl max_patrols_reached)
        else (
          record { rows = new_row p table ∷ table.rows; next_id = suc table.next_id },
          inr (new_row p table),
        ))
unfolding create_patrol
create_patrol_lem p table placed fits =
    let free = (new_row-IsPlaced p table placed fits).1.1 in
    let with_position : AdhocPatrol = record p {
      position = next_position (max_position (own_rows p table));
    } in
    let inserted : insert_row false with_position table ≡ (
      record { rows = new_row p table ∷ table.rows; next_id = suc table.next_id },
      inr (new_row p table),
    ) =
      rw (free, insert_row) in
    rw inserted

-- A failed write, and one that finds no row, leave the table; any other keeps what the rows keep.
module _ (next : ℕ) (f : AdhocPatrol → AdhocPatrol)
    (keeps : (p : AdhocPatrol) → IsPlaced next p → IsPlaced next (f p)) where
  pub All-update_rows :
      (test : AdhocPatrol → Bool) (ps : List AdhocPatrol)
      → All (IsPlaced next) ps
      → All (IsPlaced next) (update_rows test f ps)
  All-update_rows test [] placed = tt
  All-update_rows test (p ∷ ps) (here, rest) =
      (if_both (IsPlaced next) (test p) (keeps p here) here, All-update_rows test ps rest)

pub write_owned-IsPlacedTable :
    (fault : Bool) (id : ℕ) (user : ℤ) (write : List AdhocPatrol → List AdhocPatrol)
    (table : AdhocTable)
    → All (IsPlaced table.next_id) (write table.rows)
    → IsPlacedTable table
    → IsPlacedTable (write_owned fault id user write table).0
write_owned-IsPlacedTable true id user write table written placed = placed
write_owned-IsPlacedTable false id user write table written (some_id, placed) =
    if_both (λ (r : AdhocTable × Option StoreError). IsPlacedTable r.0)
      (none_affected (is_owned id user) table.rows) (some_id, placed) (some_id, written)

-- ===== src/Db/AdhocPatrols.antt =====
-- internal/db/adhocpatrol/store.go: the patrols of the ad-hoc section, which each user has for
-- himself. The identifiers are from a sequence of the database, which every insert advances, also
-- one that is refused.
pub mod Order
pub mod Laws
pub mod Spec
pub mod Views
pub mod Refinement
pub mod Runs
use osm_device_adapter.Prelude.{
  ℕ, suc, String, Bool, true, false, not, ◌&&◌, ◌||◌, Option, none, some, List, [], ◌∷◌, leb, ◌==◌,
  if◌then◌else◌, length, filter, find?, ◌⊎◌, inl, inr,
}
use osm_device_adapter.Prelude.Int.{ℤ, pos, ◌+ℤ◌, ltb_ℤ, eq_ℤ, wrap_64}
use osm_device_adapter.Db.Models.{AdhocPatrol}

pub record AdhocTable : Type 0 where
  pub rows : List AdhocPatrol
  pub next_id : ℕ

-- `database_error` is any error that is neither of the two that the store names.
pub data StoreError : Type 0 where
  max_patrols_reached not_found database_error : StoreError

abbrev pub max_patrols_per_user : ℕ
max_patrols_per_user = 20

abbrev pub is_owner : ℤ → AdhocPatrol → Bool
is_owner user p = eq_ℤ p.osm_user_id user

-- `id = ? AND osm_user_id = ?`
abbrev pub is_owned : ℕ → ℤ → AdhocPatrol → Bool
is_owned id user p = p.id == id && is_owner user p

-- `ORDER BY position ASC`
abbrev pub insert_by_position : AdhocPatrol → List AdhocPatrol → List AdhocPatrol
insert_by_position p [] = p ∷ []
insert_by_position p (q ∷ qs) =
    let rest = insert_by_position p qs in
    if ltb_ℤ q.position p.position then q ∷ rest else p ∷ q ∷ qs

abbrev pub sort_by_position : List AdhocPatrol → List AdhocPatrol
sort_by_position [] = []
sort_by_position (p ∷ ps) = insert_by_position p (sort_by_position ps)

unfoldable pub list_by_user : ℤ → AdhocTable → List AdhocPatrol
list_by_user user table = sort_by_position (filter (is_owner user) table.rows)

-- `SELECT MAX(position)`
abbrev pub larger : ℤ → Option ℤ → ℤ
larger a none = a
larger a (some b) = if ltb_ℤ a b then b else a

abbrev pub max_position : List AdhocPatrol → Option ℤ
max_position [] = none
max_position (p ∷ ps) = some (larger p.position (max_position ps))

abbrev pub next_position : Option ℤ → ℤ
next_position none = pos 0
next_position (some m) = wrap_64 (m +ℤ pos 1)

-- The primary key and the unique index on the user and the position.
abbrev pub clashes : AdhocPatrol → AdhocPatrol → Bool
clashes p q = q.id == p.id || is_owner p.osm_user_id q && eq_ℤ q.position p.position

abbrev pub insert_row : Bool → AdhocPatrol → AdhocTable → AdhocTable × (StoreError ⊎ AdhocPatrol)
insert_row fault p table =
    let row : AdhocPatrol = record p { id = table.next_id } in
    let advanced : AdhocTable = record table { next_id = suc table.next_id } in
    elim (find? (clashes row) table.rows) [
      | some _ ↦ (advanced, inl database_error)
      | none ↦
          if fault
          then (advanced, inl database_error)
          else (record advanced { rows = row ∷ table.rows }, inr row)
    ]

-- Which of the three queries of `Create` fail. The error of the second is not looked at.
pub record CreateFaults : Type 0 where
  pub count : Bool
  pub max : Bool
  pub insert : Bool

abbrev pub no_faults : CreateFaults
no_faults = record { count = false; max = false; insert = false }

-- The three queries, with nothing between them.
unfoldable pub create_patrol :
    CreateFaults → AdhocPatrol → AdhocTable → AdhocTable × (StoreError ⊎ AdhocPatrol)
create_patrol faults p table =
    let own = filter (is_owner p.osm_user_id) table.rows in
    let position = next_position (if faults.max then none else max_position own) in
    let inserted = insert_row faults.insert (record p { position = position }) table in
    if faults.count
    then (table, inl database_error)
    else if leb max_patrols_per_user (length own)
    then (table, inl max_patrols_reached)
    else inserted

-- `UPDATE ... WHERE` of the rows that pass a test.
abbrev pub update_rows :
    (AdhocPatrol → Bool) → (AdhocPatrol → AdhocPatrol) → List AdhocPatrol → List AdhocPatrol
update_rows test f [] = []
update_rows test f (p ∷ ps) = (if test p then f p else p) ∷ update_rows test f ps

-- `RowsAffected == 0`
abbrev pub none_affected {ℓ} : {A : Type ℓ} → (A → Bool) → List A → Bool
none_affected test rows = elim (find? test rows) [ none ↦ true | some _ ↦ false ]

abbrev pub write_owned :
    Bool
    → ℕ
    → ℤ
    → (List AdhocPatrol → List AdhocPatrol)
    → AdhocTable
    → AdhocTable × Option StoreError
write_owned fault id user write table =
    if fault
    then (table, some database_error)
    else if none_affected (is_owned id user) table.rows
    then (table, some not_found)
    else (record table { rows = write table.rows }, none)

abbrev pub renamed : String → String → AdhocPatrol → AdhocPatrol
renamed name color p = record p { name = name; color = color }

abbrev pub scored : ℤ → AdhocPatrol → AdhocPatrol
scored score p = record p { score = score }

unfoldable pub update_patrol :
    Bool → ℕ → ℤ → String → String → AdhocTable → AdhocTable × Option StoreError
update_patrol fault id user name color table =
    write_owned fault id user (update_rows (is_owned id user) (renamed name color)) table

unfoldable pub delete_patrol : Bool → ℕ → ℤ → AdhocTable → AdhocTable × Option StoreError
delete_patrol fault id user table =
    write_owned fault id user (filter (λ p. not (is_owned id user p))) table

unfoldable pub update_patrol_score : Bool → ℕ → ℤ → ℤ → AdhocTable → AdhocTable × Option StoreError
update_patrol_score fault id user score table =
    write_owned fault id user (update_rows (is_owned id user) (scored score)) table

unfoldable pub reset_all_scores : Bool → ℤ → AdhocTable → AdhocTable × Option StoreError
reset_all_scores fault user table =
    if fault
    then (table, some database_error)
    else (record table { rows = update_rows (is_owner user) (scored (pos 0)) table.rows }, none)

unfoldable pub find_by_id_and_user : Bool → ℕ → ℤ → AdhocTable → StoreError ⊎ AdhocPatrol
find_by_id_and_user fault id user table =
    if fault
    then inl database_error
    else elim (find? (is_owned id user) table.rows) [ none ↦ inl not_found | some p ↦ inr p ]

-- ===== src/Db/AdhocPatrols/Refinement.antt =====
-- The table of internal/db/adhocpatrol/store.go does what its specification says.
use osm_device_adapter.Prelude.{
  suc, ◌<◌, ◌≡◌, refl, true, false, not, ◌∷◌, arith, ◌==◌, length, filter, leb, All,
}
use osm_device_adapter.Prelude.Int.{ℤ, pos, eq_ℤ-refl, two_63}
use osm_device_adapter.Db.Models.{AdhocPatrol}
use osm_device_adapter.Db.AdhocPatrols.{
  AdhocTable, StoreError, is_owner, is_owned, update_rows, renamed, scored, update_patrol,
  delete_patrol, update_patrol_score, reset_all_scores, max_patrols_per_user, list_by_user,
}
use osm_device_adapter.Db.AdhocPatrols.Laws.{
  IsPlaced, IsPlacedTable, own_rows, new_row, new_row-IsPlaced, create_patrol_lem, All-weaken,
  All-update_rows, write_owned-IsPlacedTable,
}
use osm_device_adapter.Db.AdhocPatrols.Order.{All-filter}
use osm_device_adapter.Prelude.{if_both, ◌⊎◌}
use osm_device_adapter.Db.AdhocPatrols.Spec.{
  has_id, teams, Write, add_team, rename, set_score, remove_team, reset_scores, perform, spec,
  new_patrol,
}
use osm_device_adapter.Db.AdhocPatrols.Views.{
  none_affected-teams, teams-update_rows, teams-filter, teams-insert, length-teams,
}

pub perform-spec :
    (user : ℤ) (w : Write) (table : AdhocTable)
    → IsPlacedTable table
    → table.next_id < two_63
    → (teams user (perform user w table).0, (perform user w table).1)
      ≡ spec table.next_id w (teams user table)
unfolding perform spec list_by_user update_patrol delete_patrol update_patrol_score reset_all_scores
perform-spec user (add_team name color) table placed fits =
    let p : AdhocPatrol = new_patrol user name color in
    let below = (new_row-IsPlaced p table placed fits).1.0 in
    let appended =
      teams-insert user (new_row p table) (record table { next_id = suc table.next_id })
        (eq_ℤ-refl user) below in
    ground (arith, create_patrol_lem p table placed fits, appended, length-teams user table)
perform-spec user (rename id name color) table placed fits = ground (
  arith,
  none_affected-teams id user table,
  teams-update_rows user (renamed name color) (λ t. record t { name = name; color = color })
      (λ p. refl) (λ p. refl) (λ p. refl) (is_owned id user) (λ p. p.id == id) (has_id id)
      (λ p. refl) (λ p. refl) table,
)
perform-spec user (set_score id score) table placed fits = ground (
  arith,
  none_affected-teams id user table,
  teams-update_rows user (scored score) (λ t. record t { score = score }) (λ p. refl) (λ p. refl)
      (λ p. refl) (is_owned id user) (λ p. p.id == id) (has_id id) (λ p. refl) (λ p. refl) table,
)
perform-spec user (remove_team id) table placed fits =
    ground (arith, none_affected-teams id user table, teams-filter id user table)
perform-spec user reset_scores table placed fits = ground (
  arith,
  teams-update_rows user (scored (pos 0)) (λ t. record t { score = pos 0 }) (λ p. refl) (λ p. refl)
      (λ p. refl) (is_owner user) (λ p. true) (λ t. true) (λ p. refl) (λ p. refl) table,
)

-- Every write keeps the positions below the identifiers.
pub perform-IsPlacedTable :
    (user : ℤ) (w : Write) (table : AdhocTable)
    → IsPlacedTable table
    → table.next_id < two_63
    → IsPlacedTable (perform user w table).0
unfolding perform update_patrol delete_patrol update_patrol_score reset_all_scores
perform-IsPlacedTable user (add_team name color) table (some_id, placed) fits =
    let p : AdhocPatrol = new_patrol user name color in
    let (new, free) = new_row-IsPlaced p table (some_id, placed) fits in
    let all : All (IsPlaced (suc table.next_id)) (new_row p table ∷ table.rows) = (
      new,
      All-weaken table.rows (λ q (h : IsPlaced table.next_id q). (omega (arith, h.0), h.1)) placed,
    ) in
    rw (create_patrol_lem p table (some_id, placed) fits) (
      if_both (λ (r : AdhocTable × (StoreError ⊎ AdhocPatrol)). IsPlacedTable r.0)
        (leb max_patrols_per_user (length (own_rows p table))) (some_id, placed) (omega arith, all))
perform-IsPlacedTable user (rename id name color) table placed fits =
    write_owned-IsPlacedTable false id user (update_rows (is_owned id user) (renamed name color))
      table
      (All-update_rows table.next_id (renamed name color) (λ p h. h) (is_owned id user) table.rows
        placed.1)
      placed
perform-IsPlacedTable user (set_score id score) table placed fits =
    write_owned-IsPlacedTable false id user (update_rows (is_owned id user) (scored score)) table
      (All-update_rows table.next_id (scored score) (λ p h. h) (is_owned id user) table.rows
        placed.1)
      placed
perform-IsPlacedTable user (remove_team id) table placed fits =
    write_owned-IsPlacedTable false id user (filter (λ p. not (is_owned id user p))) table
      (All-filter (IsPlaced table.next_id) (λ p. not (is_owned id user p)) table.rows placed.1)
      placed
perform-IsPlacedTable user reset_scores table (some_id, placed) fits = (
  some_id,
  All-update_rows table.next_id (scored (pos 0)) (λ p h. h) (is_owner user) table.rows placed,
)

-- ===== src/Db/AdhocPatrols/Runs.antt =====
-- Runs of the writes of internal/db/adhocpatrol/store.go, by several users in turn.
use osm_device_adapter.Prelude.{
  ℕ, suc, ◌+◌, ◌≤◌, ◌<◌, ◌≡◌, refl, sym, ap, ◌∙◌, Bool, true, false, not, Option, none, some, List,
  [], ◌∷◌, map, arith, if◌then◌else◌, length, length-append, filter, if_split, if_both, subst,
}
use osm_device_adapter.Prelude.Int.{ℤ, pos, eq_ℤ, eq_ℤ-path, two_63}
use osm_device_adapter.Db.Models.{AdhocPatrol}
use osm_device_adapter.Db.AdhocPatrols.{
  AdhocTable, StoreError, is_owner, is_owned, list_by_user, update_rows, renamed, scored,
  sort_by_position, update_patrol, delete_patrol, update_patrol_score, reset_all_scores,
  write_owned, max_patrols_per_user,
}
use osm_device_adapter.Db.AdhocPatrols.Laws.{IsPlacedTable, create_patrol_lem}
use osm_device_adapter.Db.AdhocPatrols.Spec.{
  Team, team_of, has_id, map_team, teams, Write, add_team, rename, set_score, remove_team,
  reset_scores, perform, spec, new_patrol, Views, views, next_after, spec_step, run, spec_run,
}
use osm_device_adapter.Db.AdhocPatrols.Views.{filter-update_rows_other, filter-filter_other}
use osm_device_adapter.Db.AdhocPatrols.Refinement.{perform-spec, perform-IsPlacedTable}

write_owned-other :
    (id : ℕ) (user other : ℤ) (write : List AdhocPatrol → List AdhocPatrol) (table : AdhocTable)
    → filter (is_owner other) (write table.rows) ≡ filter (is_owner other) table.rows
    → filter (is_owner other) (write_owned false id user write table).0.rows
      ≡ filter (is_owner other) table.rows
write_owned-other id user other write table same = ground (arith, same)

perform-other_rows :
    (user other : ℤ) (w : Write) (table : AdhocTable)
    → eq_ℤ user other ≡ false
    → IsPlacedTable table
    → table.next_id < two_63
    → filter (is_owner other) (perform user w table).0.rows ≡ filter (is_owner other) table.rows
unfolding perform update_patrol delete_patrol update_patrol_score reset_all_scores
perform-other_rows user other (add_team name color) table differs placed fits =
    let made = create_patrol_lem (new_patrol user name color) table placed fits in
    ground (arith, made, differs)
perform-other_rows user other (rename id name color) table differs placed fits =
    write_owned-other id user other (update_rows (is_owned id user) (renamed name color)) table (
      filter-update_rows_other user other (renamed name color) (is_owned id user) (λ p. refl)
        differs (λ p h. ground (arith, h)) table.rows)
perform-other_rows user other (set_score id score) table differs placed fits =
    write_owned-other id user other (update_rows (is_owned id user) (scored score)) table (
      filter-update_rows_other user other (scored score) (is_owned id user) (λ p. refl) differs
        (λ p h. ground (arith, h)) table.rows)
perform-other_rows user other (remove_team id) table differs placed fits =
    write_owned-other id user other (filter (λ p. not (is_owned id user p))) table
      (filter-filter_other id user other table.rows differs)
perform-other_rows user other reset_scores table differs placed fits =
    filter-update_rows_other user other (scored (pos 0)) (is_owner user) (λ p. refl) differs
      (λ p h. h) table.rows

-- What one user does leaves the teams of every other as they are.
pub perform-other :
    (user other : ℤ) (w : Write) (table : AdhocTable)
    → eq_ℤ user other ≡ false
    → IsPlacedTable table
    → table.next_id < two_63
    → teams other (perform user w table).0 ≡ teams other table
unfolding list_by_user
perform-other user other w table differs placed fits =
    ap (λ ps. map team_of (sort_by_position ps))
      (perform-other_rows user other w table differs placed fits)

perform-next_id :
    (user : ℤ) (w : Write) (table : AdhocTable)
    → IsPlacedTable table
    → table.next_id < two_63
    → (perform user w table).0.next_id ≡ next_after w (perform user w table).1 table.next_id
unfolding perform update_patrol delete_patrol update_patrol_score reset_all_scores
perform-next_id user (add_team name color) table placed fits =
    let made = create_patrol_lem (new_patrol user name color) table placed fits in
    ground (arith, made)
perform-next_id user (rename id name color) table placed fits = ground arith
perform-next_id user (set_score id score) table placed fits = ground arith
perform-next_id user (remove_team id) table placed fits = ground arith
perform-next_id user reset_scores table placed fits = refl

-- One write is one step of the specification, for all users at once.
pub views-perform :
    (user : ℤ) (w : Write) (table : AdhocTable)
    → IsPlacedTable table
    → table.next_id < two_63
    → views (perform user w table).0 ≡ spec_step user w (views table)
views-perform user w table placed fits =
    let same = perform-spec user w table placed fits in
    let next : (perform user w table).0.next_id
        ≡ next_after w (spec table.next_id w (teams user table)).1 table.next_id =
      perform-next_id user w table placed fits
      ∙ ap (λ (r : List Team × Option StoreError). next_after w r.1 table.next_id) same in
    let of : (u : ℤ)
        → teams u (perform user w table).0
          ≡ (if eq_ℤ user u then (spec table.next_id w (teams user table)).0 else teams u table) =
      (λ u.
        if_split (λ (ts : List Team). teams u (perform user w table).0 ≡ ts) (eq_ℤ user u)
          (λ e.
            subst
              (λ v. teams v (perform user w table).0 ≡ (spec table.next_id w (teams user table)).0)
              (eq_ℤ-path user u e) (ap (λ (r : List Team × Option StoreError). r.0) same))
          (λ e. perform-other user u w table e placed fits)) in
    λ i. record { next = next i; of = λ u. of u i }

next_after_le :
    (w : Write) (result : Option StoreError) (next : ℕ) → next_after w result next ≤ suc next
next_after_le (add_team name color) none next = omega arith
next_after_le (add_team name color) (some e) next = omega arith
next_after_le (rename id name color) result next = omega arith
next_after_le (set_score id score) result next = omega arith
next_after_le (remove_team id) result next = omega arith
next_after_le reset_scores result next = omega arith

-- A run of writes by several users leaves each user the teams, and gives each write the result,
-- that the specification says, as long as the sequence's 64-bit identifiers last.
pub run-spec_run :
    (ws : List (ℤ × Write)) (table : AdhocTable)
    → IsPlacedTable table
    → table.next_id + length ws < two_63
    → (views (run ws table).0 ≡ (spec_run ws (views table)).0)
      × ((run ws table).1 ≡ (spec_run ws (views table)).1)
run-spec_run [] table placed fits = (refl, refl)
run-spec_run ((user, w) ∷ ws) table placed fits =
    let now : table.next_id < two_63 = omega (arith, fits) in
    let moved = perform-next_id user w table placed now in
    let by_one = next_after_le w (perform user w table).1 table.next_id in
    let (last, results) =
      run-spec_run ws (perform user w table).0 (perform-IsPlacedTable user w table placed now)
        (omega (arith, fits, moved, by_one)) in
    let step = views-perform user w table placed now in
    let same = perform-spec user w table placed now in
    (
      last ∙ ap (λ v. (spec_run ws v).0) step,
      (λ i. (same i).1 ∷ (results ∙ ap (λ v. (spec_run ws v).1) step) i),
    )

-- A list of teams that is not too long does not become too long.
length-map_team :
    (on : Team → Bool) (f : Team → Team) (ts : List Team) → length (map_team on f ts) ≡ length ts
length-map_team on f [] = refl
length-map_team on f (t ∷ ts) = ap suc (length-map_team on f ts)

length-filter : (on : Team → Bool) (ts : List Team) → length (filter on ts) ≤ length ts
length-filter on [] = omega arith
length-filter on (t ∷ ts) = ground (arith, length-filter on ts)

length-spec :
    (next : ℕ) (w : Write) (ts : List Team)
    → length ts ≤ max_patrols_per_user
    → length (spec next w ts).0 ≤ max_patrols_per_user
unfolding spec
length-spec next (add_team name color) ts short = ground (
  arith,
  short,
  length-append ts (record { id = next; name = name; color = color; score = pos 0 } ∷ []),
)
length-spec next (rename id name color) ts short =
    ground
      (arith, short, length-map_team (has_id id) (λ t. record t { name = name; color = color }) ts)
length-spec next (set_score id score) ts short =
    ground (arith, short, length-map_team (has_id id) (λ t. record t { score = score }) ts)
length-spec next (remove_team id) ts short =
    ground (arith, short, length-filter (λ t. not (has_id id t)) ts)
length-spec next reset_scores ts short =
    omega (arith, short, length-map_team (λ t. true) (λ t. record t { score = pos 0 }) ts)

length-spec_run :
    (ws : List (ℤ × Write)) (v : Views)
    → ((u : ℤ) → length (v.of u) ≤ max_patrols_per_user)
    → (u : ℤ) → length ((spec_run ws v).0.of u) ≤ max_patrols_per_user
length-spec_run [] v short u = short u
length-spec_run ((user, w) ∷ ws) v short u =
    length-spec_run ws (spec_step user w v)
      (λ other.
        if_both (λ (ts : List Team). length ts ≤ max_patrols_per_user) (eq_ℤ user other)
          (length-spec v.next w (v.of user) (short user)) (short other))
      u

-- No run of writes gives a user more than twenty patrols.
pub length-teams-run :
    (ws : List (ℤ × Write)) (table : AdhocTable)
    → IsPlacedTable table
    → table.next_id + length ws < two_63
    → ((u : ℤ) → length (teams u table) ≤ 20)
    → (u : ℤ) → length (teams u (run ws table).0) ≤ 20
length-teams-run ws table placed fits short u =
    subst (λ (v : Views). length (v.of u) ≤ 20) (sym (run-spec_run ws table placed fits).0)
      (length-spec_run ws (views table) short u)

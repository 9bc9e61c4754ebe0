-- ===== src/Db/AdhocPatrols/Views.antt =====
-- How the teams of a user see the writes to the table of internal/db/adhocpatrol/store.go.
use osm_device_adapter.Prelude.{
  ℕ, suc, ◌≡◌, refl, ap, ◌∙◌, Bool, true, false, not, ◌&&◌, List, [], ◌∷◌, ◌++◌, map, arith, ◌==◌,
  length, filter, All,
}
use osm_device_adapter.Prelude.Int.{ℤ, ltb_ℤ, eq_ℤ}
use osm_device_adapter.Db.Models.{AdhocPatrol}
use osm_device_adapter.Db.AdhocPatrols.{
  AdhocTable, is_owner, is_owned, insert_by_position, sort_by_position, list_by_user, update_rows,
  none_affected,
}
use osm_device_adapter.Db.AdhocPatrols.Order.{
  filter-sort, update_rows-sort, insert-last, length-sort, All-sort,
}
use osm_device_adapter.Db.AdhocPatrols.Spec.{Team, team_of, has_id, map_team, teams}

-- `RowsAffected == 0` does not depend on the order, nor on the rows of others.
none_affected-insert :
    (test : AdhocPatrol → Bool) (p : AdhocPatrol) (qs : List AdhocPatrol)
    → none_affected test (insert_by_position p qs) ≡ none_affected test (p ∷ qs)
none_affected-insert test p [] = refl
none_affected-insert test p (q ∷ qs) = ground (arith, none_affected-insert test p qs)

none_affected-sort :
    (test : AdhocPatrol → Bool) (ps : List AdhocPatrol)
    → none_affected test (sort_by_position ps) ≡ none_affected test ps
none_affected-sort test [] = refl
none_affected-sort test (p ∷ ps) =
    ground (arith, none_affected-sort test ps, none_affected-insert test p (sort_by_position ps))

none_affected-filter :
    (id : ℕ) (user : ℤ) (ps : List AdhocPatrol)
    → none_affected (λ p. p.id == id) (filter (is_owner user) ps)
      ≡ none_affected (is_owned id user) ps
none_affected-filter id user [] = refl
none_affected-filter id user (p ∷ ps) = ground (arith, none_affected-filter id user ps)

none_affected-map :
    (id : ℕ) (ps : List AdhocPatrol)
    → none_affected (has_id id) (map team_of ps) ≡ none_affected (λ p. p.id == id) ps
none_affected-map id [] = refl
none_affected-map id (p ∷ ps) = ground (arith, none_affected-map id ps)

pub none_affected-teams :
    (id : ℕ) (user : ℤ) (table : AdhocTable)
    → none_affected (has_id id) (teams user table) ≡ none_affected (is_owned id user) table.rows
unfolding list_by_user
none_affected-teams id user table =
    none_affected-map id (sort_by_position (filter (is_owner user) table.rows))
    ∙ none_affected-sort (λ p. p.id == id) (filter (is_owner user) table.rows)
    ∙ none_affected-filter id user table.rows

-- A write that keeps the owner and the position is a write to the teams.
module _ (user : ℤ) (f : AdhocPatrol → AdhocPatrol) (on_team : Team → Team)
    (keeps_owner : (p : AdhocPatrol) → (f p).osm_user_id ≡ p.osm_user_id)
    (keeps_position : (p : AdhocPatrol) → (f p).position ≡ p.position)
    (same : (p : AdhocPatrol) → team_of (f p) ≡ on_team (team_of p)) where
  map-update_rows :
      (test : AdhocPatrol → Bool) (on : Team → Bool)
      → ((p : AdhocPatrol) → on (team_of p) ≡ test p)
      → (ps : List AdhocPatrol)
      → map team_of (update_rows test f ps) ≡ map_team on on_team (map team_of ps)
  map-update_rows test on agrees [] = refl
  map-update_rows test on agrees (p ∷ ps) =
      ground (arith, agrees p, same p, map-update_rows test on agrees ps)

  filter-update_rows :
      (wide narrow : AdhocPatrol → Bool)
      → ((p : AdhocPatrol) → wide p ≡ (narrow p && is_owner user p))
      → (ps : List AdhocPatrol)
      → filter (is_owner user) (update_rows wide f ps)
        ≡ update_rows narrow f (filter (is_owner user) ps)
  filter-update_rows wide narrow agrees [] = refl
  filter-update_rows wide narrow agrees (p ∷ ps) =
      ground (arith, agrees p, keeps_owner p, filter-update_rows wide narrow agrees ps)

  pub teams-update_rows :
      (wide narrow : AdhocPatrol → Bool) (on : Team → Bool)
      → ((p : AdhocPatrol) → wide p ≡ (narrow p && is_owner user p))
      → ((p : AdhocPatrol) → on (team_of p) ≡ narrow p)
      → (table : AdhocTable)
      → teams user (record table { rows = update_rows wide f table.rows })
        ≡ map_team on on_team (teams user table)
  unfolding list_by_user
  teams-update_rows wide narrow on agrees agrees_on table =
      ap (λ ps. map team_of (sort_by_position ps))
        (filter-update_rows wide narrow agrees table.rows)
      ∙ ap (map team_of)
          (update_rows-sort narrow f keeps_position (filter (is_owner user) table.rows))
      ∙ map-update_rows narrow on agrees_on (sort_by_position (filter (is_owner user) table.rows))

-- It is nothing to the rows of another user.
pub filter-update_rows_other :
    (user other : ℤ) (f : AdhocPatrol → AdhocPatrol) (wide : AdhocPatrol → Bool)
    → ((p : AdhocPatrol) → (f p).osm_user_id ≡ p.osm_user_id)
    → eq_ℤ user other ≡ false
    → ((p : AdhocPatrol) → wide p ≡ true → is_owner user p ≡ true)
    → (ps : List AdhocPatrol)
    → filter (is_owner other) (update_rows wide f ps) ≡ filter (is_owner other) ps
filter-update_rows_other user other f wide keeps differs own [] = refl
filter-update_rows_other user other f wide keeps differs own (p ∷ ps) =
    ground (arith, own p, keeps p, filter-update_rows_other user other f wide keeps differs own ps)

-- The rows that a deletion leaves.
map-filter :
    (id : ℕ) (ps : List AdhocPatrol)
    → map team_of (filter (λ p. not (p.id == id)) ps)
      ≡ filter (λ t. not (has_id id t)) (map team_of ps)
map-filter id [] = refl
map-filter id (p ∷ ps) = ground (arith, map-filter id ps)

filter-filter :
    (id : ℕ) (user : ℤ) (ps : List AdhocPatrol)
    → filter (is_owner user) (filter (λ p. not (is_owned id user p)) ps)
      ≡ filter (λ p. not (p.id == id)) (filter (is_owner user) ps)
filter-filter id user [] = refl
filter-filter id user (p ∷ ps) = ground (arith, filter-filter id user ps)

pub teams-filter :
    (id : ℕ) (user : ℤ) (table : AdhocTable)
    → teams user (record table { rows = filter (λ p. not (is_owned id user p)) table.rows })
      ≡ filter (λ t. not (has_id id t)) (teams user table)
unfolding list_by_user
teams-filter id user table =
    ap (λ ps. map team_of (sort_by_position ps)) (filter-filter id user table.rows)
    ∙ ap (map team_of) (filter-sort (λ p. not (p.id == id)) (filter (is_owner user) table.rows))
    ∙ map-filter id (sort_by_position (filter (is_owner user) table.rows))

pub filter-filter_other :
    (id : ℕ) (user other : ℤ) (ps : List AdhocPatrol)
    → eq_ℤ user other ≡ false
    → filter (is_owner other) (filter (λ p. not (is_owned id user p)) ps)
      ≡ filter (is_owner other) ps
filter-filter_other id user other [] differs = refl
filter-filter_other id user other (p ∷ ps) differs =
    ground (arith, filter-filter_other id user other ps differs)

-- A new row with the largest position is the last team.
map-append : (ps qs : List AdhocPatrol) → map team_of (ps ++ qs) ≡ map team_of ps ++ map team_of qs
map-append [] qs = refl
map-append (p ∷ ps) qs = ap (λ ts. team_of p ∷ ts) (map-append ps qs)

pub teams-insert :
    (user : ℤ) (row : AdhocPatrol) (table : AdhocTable)
    → is_owner user row ≡ true
    → All (λ q. ltb_ℤ q.position row.position ≡ true) (filter (is_owner user) table.rows)
    → teams user (record table { rows = row ∷ table.rows }) ≡ teams user table ++ team_of row ∷ []
unfolding list_by_user
teams-insert user row table own below =
    let ordered = sort_by_position (filter (is_owner user) table.rows) in
    let at_end : insert_by_position row ordered ≡ ordered ++ row ∷ [] = insert-last row ordered (
      All-sort (λ q. ltb_ℤ q.position row.position ≡ true) (filter (is_owner user) table.rows)
        below) in
    rw (own, at_end, map-append ordered (row ∷ []))

length-map : (ps : List AdhocPatrol) → length (map team_of ps) ≡ length ps
length-map [] = refl
length-map (p ∷ ps) = ap suc (length-map ps)

pub length-teams :
    (user : ℤ) (table : AdhocTable)
    → length (teams user table) ≡ length (filter (is_owner user) table.rows)
unfolding list_by_user
length-teams user table =
    length-map (sort_by_position (filter (is_owner user) table.rows))
    ∙ length-sort (filter (is_owner user) table.rows)

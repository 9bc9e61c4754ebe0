-- ===== src/Db/AdhocPatrols/Spec.antt =====
-- What internal/db/adhocpatrol/store.go promises: each user has a list of teams of his own, in the
-- order in which he made them; positions, rows and other users do not come into it.
use osm_device_adapter.Prelude.{
  ℕ, suc, String, Bool, true, false, not, Option, none, some, List, [], ◌∷◌, ◌++◌, map, leb, ◌==◌,
  if◌then◌else◌, length, filter,
}
use osm_device_adapter.Prelude.Int.{ℤ, pos, eq_ℤ}
use osm_device_adapter.Db.Models.{AdhocPatrol}
use osm_device_adapter.Db.AdhocPatrols.{
  AdhocTable, StoreError, not_found, max_patrols_reached, no_faults, max_patrols_per_user,
  none_affected, list_by_user, create_patrol, update_patrol, delete_patrol, update_patrol_score,
  reset_all_scores,
}
use mathlib.Core.Logic.{inl, inr, ◌⊎◌}

pub record Team : Type 0 where
  pub id : ℕ
  pub name : String
  pub color : String
  pub score : ℤ

abbrev pub team_of : AdhocPatrol → Team
team_of p = record { id = p.id; name = p.name; color = p.color; score = p.score }

abbrev pub teams : ℤ → AdhocTable → List Team
teams user table = map team_of (list_by_user user table)

-- The writes that a user can ask for.
pub data Write : Type 0 where
  add_team : (name : String) → (color : String) → Write
  rename : (id : ℕ) → (name : String) → (color : String) → Write
  set_score : (id : ℕ) → ℤ → Write
  remove_team : (id : ℕ) → Write
  reset_scores : Write

-- On the table, where no query fails.
abbrev pub new_patrol : ℤ → String → String → AdhocPatrol
new_patrol user name color = record {
  id = 0;
  osm_user_id = user;
  position = pos 0;
  name = name;
  color = color;
  score = pos 0;
}

abbrev pub error_of : StoreError ⊎ AdhocPatrol → Option StoreError
error_of (inl e) = some e
error_of (inr p) = none

abbrev pub create_result : AdhocTable × (StoreError ⊎ AdhocPatrol) → AdhocTable × Option StoreError
create_result (table, result) = (table, error_of result)

unfoldable pub perform : ℤ → Write → AdhocTable → AdhocTable × Option StoreError
perform user (add_team name color) table =
    create_result (create_patrol no_faults (new_patrol user name color) table)
perform user (rename id name color) table = update_patrol false id user name color table
perform user (set_score id score) table = update_patrol_score false id user score table
perform user (remove_team id) table = delete_patrol false id user table
perform user reset_scores table = reset_all_scores false user table

-- On the teams of the user.
abbrev pub has_id : ℕ → Team → Bool
has_id id t = t.id == id

abbrev pub map_team : (Team → Bool) → (Team → Team) → List Team → List Team
map_team test f [] = []
map_team test f (t ∷ ts) = (if test t then f t else t) ∷ map_team test f ts

abbrev pub if_found : ℕ → List Team → List Team → List Team × Option StoreError
if_found id written ts =
    if none_affected (has_id id) ts then (ts, some not_found) else (written, none)

-- `next` is the identifier that a new team gets.
unfoldable pub spec : ℕ → Write → List Team → List Team × Option StoreError
spec next (add_team name color) ts =
    if leb max_patrols_per_user (length ts)
    then (ts, some max_patrols_reached)
    else (ts ++ record { id = next; name = name; color = color; score = pos 0 } ∷ [], none)
spec next (rename id name color) ts =
    if_found id (map_team (has_id id) (λ t. record t { name = name; color = color }) ts) ts
spec next (set_score id score) ts =
    if_found id (map_team (has_id id) (λ t. record t { score = score }) ts) ts
spec next (remove_team id) ts = if_found id (filter (λ t. not (has_id id t)) ts) ts
spec next reset_scores ts = (map_team (λ t. true) (λ t. record t { score = pos 0 }) ts, none)

-- All users at once.
pub record Views : Type 0 where
  pub next : ℕ
  pub of : ℤ → List Team

abbrev pub views : AdhocTable → Views
views table = record { next = table.next_id; of = λ user. teams user table }

abbrev pub next_after : Write → Option StoreError → ℕ → ℕ
next_after (add_team name color) none next = suc next
next_after w result next = next

abbrev pub spec_step : ℤ → Write → Views → Views
spec_step user w v =
    let (written, result) = spec v.next w (v.of user) in
    record { next = next_after w result v.next; of = λ u. if eq_ℤ user u then written else v.of u }

abbrev pub spec_result : ℤ → Write → Views → Option StoreError
spec_result user w v = (spec v.next w (v.of user)).1

-- The writes of several users in turn, and their results.
abbrev pub run : List (ℤ × Write) → AdhocTable → AdhocTable × List (Option StoreError)
run [] table = (table, [])
run ((user, w) ∷ ws) table =
    let (table', result) = perform user w table in
    let (last, results) = run ws table' in (last, result ∷ results)

abbrev pub spec_run : List (ℤ × Write) → Views → Views × List (Option StoreError)
spec_run [] v = (v, [])
spec_run ((user, w) ∷ ws) v =
    let (last, results) = spec_run ws (spec_step user w v) in (last, spec_result user w v ∷ results)

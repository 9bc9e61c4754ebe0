-- ===== src/Osm/Patrols.antt =====
-- `FetchPatrolScores` of internal/osm/patrol_scores.go: which patrols of OSM's answer are kept, and
-- in which order.
pub mod Laws
use Prim.Native.String.{char_at}
use Prim.Native.Char.{code}
use osm_device_adapter.Prelude.{
  ℕ, String, Bool, true, false, not, Option, none, some, List, [], ◌∷◌, ◌==◌, str_eq, if◌then◌else◌,
}
use osm_device_adapter.Prelude.Int.{ℤ, pos, ltb_ℤ}
use osm_device_adapter.Osm.Types.{PatrolScore}

-- The fields of a patrol in OSM's answer that the code reads; of the members it reads how many
-- there are.
pub record PatrolData : Type 0 where
  pub name : String
  pub points : String
  pub members : ℕ

-- `patrolID[0] == '-'`
abbrev pub is_special : String → Bool
is_special id = code (char_at id 0) == 45

-- The sort by score, the highest first.
unfoldable pub insert_by_score : PatrolScore → List PatrolScore → List PatrolScore
insert_by_score p [] = p ∷ []
insert_by_score p (q ∷ qs) =
    let rest = insert_by_score p qs in if ltb_ℤ q.score p.score then p ∷ q ∷ qs else q ∷ rest

unfoldable pub sort_by_score : List PatrolScore → List PatrolScore
sort_by_score [] = []
sort_by_score (p ∷ ps) = insert_by_score p (sort_by_score ps)

module _ (atoi : String → ℤ × Bool) where
  -- Points that do not parse count as 0.
  unfoldable pub to_score : String → PatrolData → PatrolScore
  to_score id p = record {
    id = id;
    name = p.name;
    score = if (atoi p.points).1 then (atoi p.points).0 else pos 0;
  }

  abbrev pub cons_patrol : PatrolScore → Option (List PatrolScore) → Option (List PatrolScore)
  cons_patrol p none = none
  cons_patrol p (some ps) = some (p ∷ ps)

  -- The loop over the map, in the order that it comes in; none is the panic on an empty key.
  unfoldable pub kept_patrols : List (String × PatrolData) → Option (List PatrolScore)
  kept_patrols [] = some []
  kept_patrols ((id, p) ∷ entries) =
      let rest = kept_patrols entries in
      if str_eq id "unallocated"
      then rest
      else if str_eq id ""
      then none
      else if is_special id
      then rest
      else if p.members == 0
      then rest
      else cons_patrol (to_score id p) rest

  unfoldable pub patrol_scores : List (String × PatrolData) → Option (List PatrolScore)
  patrol_scores entries = elim (kept_patrols entries) [
    | none ↦ none
    | some ps ↦ some (sort_by_score ps)
  ]

-- ===== src/Osm/Patrols/Laws.antt =====
-- The patrols that are listed, and their order.
use mathlib.Core.List.{Perm}
use mathlib.Core.List.Perm
use osm_device_adapter.Prelude.{
  String, Bool, true, not, ◌&&◌, some, List, [], ◌∷◌, ◌==◌, str_eq, filter, map, all, ◌≡◌, refl,
  arith, All, if_split,
}
use osm_device_adapter.Prelude.Int.{ℤ, ltb_ℤ, ◌≤ℤ◌}
use osm_device_adapter.Osm.Types.{PatrolScore}
use osm_device_adapter.Osm.Patrols.{
  PatrolData, is_special, insert_by_score, sort_by_score, to_score, kept_patrols, patrol_scores,
}

-- No patrol comes before one with a higher score.
abbrev pub IsSorted : List PatrolScore → Type 0
IsSorted [] = Unit
IsSorted (p ∷ ps) = All (λ q. q.score ≤ℤ p.score) ps × IsSorted ps

-- A patrol of a section that has members, and is not one of the leaders'.
abbrev pub is_regular : String × PatrolData → Bool
is_regular (id, p) = not (str_eq id "unallocated") && (not (is_special id) && not (p.members == 0))

insert_by_score-Perm :
    (p : PatrolScore) (ps : List PatrolScore) → Perm (insert_by_score p ps) (p ∷ ps)
unfolding insert_by_score
insert_by_score-Perm p [] = Perm.refl (p ∷ [])
insert_by_score-Perm p (q ∷ qs) =
    let rest = insert_by_score-Perm p qs in
    if_split (λ xs. Perm xs (p ∷ q ∷ qs)) (ltb_ℤ q.score p.score) (λ e. Perm.refl (p ∷ q ∷ qs))
      (λ e. Perm.trans (Perm.cons q rest) (Perm.swap _ _ _))

pub sort_by_score-Perm : (ps : List PatrolScore) → Perm (sort_by_score ps) ps
unfolding sort_by_score
sort_by_score-Perm [] = Perm.nil
sort_by_score-Perm (p ∷ ps) =
    Perm.trans (insert_by_score-Perm p (sort_by_score ps)) (Perm.cons p (sort_by_score-Perm ps))

All-weaken :
    (a b : ℤ) (ps : List PatrolScore)
    → a ≤ℤ b
    → All (λ (q : PatrolScore). q.score ≤ℤ a) ps
    → All (λ (q : PatrolScore). q.score ≤ℤ b) ps
All-weaken a b [] le v = tt
All-weaken a b (p ∷ ps) le (v, vs) = (omega (arith, v, le), All-weaken a b ps le vs)

insert_by_score-All :
    (p : PatrolScore) (b : ℤ) (ps : List PatrolScore)
    → p.score ≤ℤ b
    → All (λ (q : PatrolScore). q.score ≤ℤ b) ps
    → All (λ (q : PatrolScore). q.score ≤ℤ b) (insert_by_score p ps)
unfolding insert_by_score
insert_by_score-All p b [] le v = (le, tt)
insert_by_score-All p b (q ∷ qs) le (v, vs) =
    let rest = insert_by_score-All p b qs le vs in
    if_split (All (λ (q : PatrolScore). q.score ≤ℤ b)) (ltb_ℤ q.score p.score) (λ e. (le, (v, vs)))
      (λ e. (v, rest))

insert_by_score-IsSorted :
    (p : PatrolScore) (ps : List PatrolScore) → IsSorted ps → IsSorted (insert_by_score p ps)
unfolding insert_by_score
insert_by_score-IsSorted p [] v = (tt, tt)
insert_by_score-IsSorted p (q ∷ qs) (v, vs) =
    let rest = insert_by_score-IsSorted p qs vs in
    if_split IsSorted (ltb_ℤ q.score p.score)
      (λ e.
        let le : q.score ≤ℤ p.score = ground (arith, e) in
        ((le, All-weaken q.score p.score qs le v), (v, vs)))
      (λ e.
        let le : p.score ≤ℤ q.score = ground (arith, e) in
        (insert_by_score-All p q.score qs le v, rest))

sort_by_score-IsSorted : (ps : List PatrolScore) → IsSorted (sort_by_score ps)
unfolding sort_by_score
sort_by_score-IsSorted [] = tt
sort_by_score-IsSorted (p ∷ ps) =
    insert_by_score-IsSorted p (sort_by_score ps) (sort_by_score-IsSorted ps)

module _ (atoi : String → ℤ × Bool) where
  abbrev pub scored : String × PatrolData → PatrolScore
  scored (id, p) = to_score atoi id p

  kept_patrols-filter :
      (entries : List (String × PatrolData))
      → all (λ e. not (str_eq e.0 "")) entries ≡ true
      → kept_patrols atoi entries ≡ some (map scored (filter is_regular entries))
  unfolding kept_patrols
  kept_patrols-filter [] v = refl
  kept_patrols-filter ((id, p) ∷ entries) v = ground (arith, v, kept_patrols-filter entries)

  -- Where no patrol's key is empty, the scores are those of the regular patrols, each once, the
  -- highest first.
  pub patrol_scores_lem :
      (entries : List (String × PatrolData))
      → all (λ e. not (str_eq e.0 "")) entries ≡ true
      → (ps : List PatrolScore) × (patrol_scores atoi entries ≡ some ps)
        × Perm ps (map scored (filter is_regular entries))
        × IsSorted ps
  unfolding patrol_scores
  patrol_scores_lem entries v =
      let kept = map scored (filter is_regular entries) in
      (
        sort_by_score kept,
        rw (kept_patrols-filter entries v, patrol_scores) refl,
        sort_by_score-Perm kept,
        sort_by_score-IsSorted kept,
      )

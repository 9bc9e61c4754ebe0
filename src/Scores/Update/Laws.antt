-- ===== src/Scores/Update/Laws.antt =====
-- What an update answers, and which scores it writes to OSM.
use mathlib.Core.List.{append-nil}
use osm_device_adapter.Prelude.{
  ℕ, suc, String, Bool, true, false, Option, none, some, List, [], ◌∷◌, ◌++◌, take, map,
  if◌then◌else◌, ◌≡◌, refl, sym, ap, ◌∙◌, arith,
}
use osm_device_adapter.Prelude.Int.{ℤ, pos, wrap_64, ◌+ℤ◌}
use osm_device_adapter.Prelude.Dict.{Dict}
use osm_device_adapter.Osm.Types.{PatrolScore}
use osm_device_adapter.Osm.Request.{OsmError}
use osm_device_adapter.Osm.Terms.{TermInfo}
use osm_device_adapter.Scores.Update.{
  UpdateRequest, UpdateResponse, Writes, find_patrol_score, abandoned, abandon_remaining_work,
  written, updated_one, update_each, new_score_of, write_of, new_osm_error_update_response,
  Preparation, locked, with_term, lock_ttl, update_scores,
}
use osm_device_adapter.Scores.Locks.{
  LockSet, RedisLock, acquire, add_patrols, new_patrol_lock_set, is_held, internal_key,
}

abbrev pub response_ids : List UpdateResponse → List String
response_ids rs = map (λ (r : UpdateResponse). r.patrol_id) rs

abbrev pub request_ids : List UpdateRequest → List String
request_ids rs = map (λ (r : UpdateRequest). r.patrol_id) rs

-- The new scores that the responses report as written.
abbrev pub or_zero : Option ℤ → ℤ
or_zero none = pos 0
or_zero (some n) = n

abbrev pub success_writes : List UpdateResponse → Writes
success_writes [] = []
success_writes (r ∷ rs) =
    let rest = success_writes rs in
    if r.success then (r.patrol_id, or_zero r.new_score) ∷ rest else rest

-- How many of some writes OSM accepts, one after the other, until it refuses one; `done` are the
-- writes before them.
abbrev pub accepted : (Writes → String × ℤ → Option (OsmError × String)) → Writes → Writes → ℕ
accepted osm done [] = 0
accepted osm done (w ∷ ws) = elim (osm done w) [
  | none ↦ suc (accepted osm (done ++ w ∷ []) ws)
  | some err ↦ 0
]

abandoned-id :
    (r : UpdateRequest) (model : UpdateResponse) (o : Option PatrolScore)
    → (abandoned r model o).patrol_id ≡ r.patrol_id
abandoned-id r model none = refl
abandoned-id r model (some current) = refl

abandoned-success :
    (r : UpdateRequest) (model : UpdateResponse) (o : Option PatrolScore)
    → model.success ≡ false
    → (abandoned r model o).success ≡ false
abandoned-success r model none e = refl
abandoned-success r model (some current) e = e

abandon_remaining_work-ids :
    (rs : List UpdateRequest) (scores : List PatrolScore) (model : UpdateResponse)
    → response_ids (abandon_remaining_work rs scores model) ≡ request_ids rs
unfolding abandon_remaining_work
abandon_remaining_work-ids [] scores model = refl
abandon_remaining_work-ids (r ∷ rs) scores model =
    rw
      (
        abandoned-id r model (find_patrol_score scores r.patrol_id),
        abandon_remaining_work-ids rs scores model,
      )
      refl

abandon_remaining_work-success_writes :
    (rs : List UpdateRequest) (scores : List PatrolScore) (model : UpdateResponse)
    → model.success ≡ false
    → success_writes (abandon_remaining_work rs scores model) ≡ []
unfolding abandon_remaining_work
abandon_remaining_work-success_writes [] scores model e = refl
abandon_remaining_work-success_writes (r ∷ rs) scores model e =
    rw
      (
        abandoned-success r model (find_patrol_score scores r.patrol_id) e,
        abandon_remaining_work-success_writes rs scores model e,
      )
      refl

module _ (osm : Writes → String × ℤ → Option (OsmError × String)) (now : ℕ) where
  written-ids :
      (r : UpdateRequest) (rs : List UpdateRequest) (scores : List PatrolScore)
      (current : PatrolScore) (rest : List UpdateResponse × Writes) (writes : Writes)
      (o : Option (OsmError × String))
      → response_ids rest.0 ≡ request_ids rs
      → response_ids (written osm now r rs scores current rest writes o).0 ≡ request_ids (r ∷ rs)
  written-ids r rs scores current rest writes none v = ap (λ xs. r.patrol_id ∷ xs) v
  written-ids r rs scores current rest writes (some (err, message)) v =
      abandon_remaining_work-ids (r ∷ rs) scores
        (new_osm_error_update_response now r current err message)

  updated_one-ids :
      (held : Bool) (r : UpdateRequest) (rs : List UpdateRequest) (scores : List PatrolScore)
      (rest rest' : List UpdateResponse × Writes) (writes : Writes) (o : Option PatrolScore)
      → response_ids rest.0 ≡ request_ids rs
      → response_ids rest'.0 ≡ request_ids rs
      → response_ids (updated_one osm now held r rs scores rest rest' writes o).0
        ≡ request_ids (r ∷ rs)
  updated_one-ids held r rs scores rest rest' writes none v v' = ap (λ xs. r.patrol_id ∷ xs) v
  updated_one-ids false r rs scores rest rest' writes (some current) v v' =
      ap (λ xs. r.patrol_id ∷ xs) v
  updated_one-ids true r rs scores rest rest' writes (some current) v v' =
      let write : String × ℤ = (r.patrol_id, new_score_of current r) in
      written-ids r rs scores current rest' (writes ++ write ∷ []) (osm writes write) v'

  -- Every request gets one response, under its own patrol and in its own place.
  pub update_each-ids :
      (held : String → Bool) (scores : List PatrolScore) (rs : List UpdateRequest) (writes : Writes)
      → response_ids (update_each osm now held scores rs writes).0 ≡ request_ids rs
  unfolding update_each
  update_each-ids held scores [] writes = refl
  update_each-ids held scores (r ∷ rs) writes =
      let current = find_patrol_score scores r.patrol_id in
      let writes' = writes ++ write_of osm now r current in
      updated_one-ids (held r.patrol_id) r rs scores (update_each osm now held scores rs writes)
        (update_each osm now held scores rs writes') writes current
        (update_each-ids held scores rs writes) (update_each-ids held scores rs writes')

-- The writes that the requests ask for: those for the patrols that exist and whose locks are held.
abbrev pub planned_one : Bool → UpdateRequest → Option PatrolScore → Writes → Writes
planned_one held r none rest = rest
planned_one held r (some current) rest =
    if held then (r.patrol_id, wrap_64 (current.score +ℤ r.delta)) ∷ rest else rest

abbrev pub planned : (String → Bool) → List PatrolScore → List UpdateRequest → Writes
planned held scores [] = []
planned held scores (r ∷ rs) =
    planned_one (held r.patrol_id) r (find_patrol_score scores r.patrol_id) (planned held scores rs)

append_snoc : (ws : Writes) (w : String × ℤ) (vs : Writes) → (ws ++ w ∷ []) ++ vs ≡ ws ++ w ∷ vs
append_snoc [] w vs = refl
append_snoc (x ∷ ws) w vs = ap (λ xs. x ∷ xs) (append_snoc ws w vs)

-- The responses report as written the planned writes that OSM has accepted, and the calls are these
-- and the one that it has refused, after those before.
abbrev pub IsDone :
    (Writes → String × ℤ → Option (OsmError × String))
    → Writes
    → Writes
    → List UpdateResponse × Writes
    → Type 0
IsDone osm writes plan (responses, calls) =
    (success_writes responses ≡ take (accepted osm writes plan) plan)
    × (calls ≡ writes ++ take (suc (accepted osm writes plan)) plan)

module _ (osm : Writes → String × ℤ → Option (OsmError × String)) (now : ℕ) where
  accepted-none :
      (done : Writes) (w : String × ℤ) (ws : Writes)
      → osm done w ≡ none
      → accepted osm done (w ∷ ws) ≡ suc (accepted osm (done ++ w ∷ []) ws)
  accepted-none done w ws e = rw (accepted, e) refl

  accepted-some :
      (done : Writes) (w : String × ℤ) (ws : Writes) (err : OsmError × String)
      → osm done w ≡ some err
      → accepted osm done (w ∷ ws) ≡ 0
  accepted-some done w ws err e = rw (accepted, e) refl

  written-IsDone :
      (r : UpdateRequest) (rs : List UpdateRequest) (scores : List PatrolScore)
      (current : PatrolScore) (rest : List UpdateResponse × Writes) (writes plan : Writes)
      (o : Option (OsmError × String))
      → osm writes (r.patrol_id, new_score_of current r) ≡ o
      → IsDone osm (writes ++ (r.patrol_id, new_score_of current r) ∷ []) plan rest
      → IsDone osm writes ((r.patrol_id, new_score_of current r) ∷ plan) (
          written osm now r rs scores current rest
            (writes ++ (r.patrol_id, new_score_of current r) ∷ [])
            o)
  written-IsDone r rs scores current rest writes plan none e v =
      let w : String × ℤ = (r.patrol_id, new_score_of current r) in
      let n = accepted osm (writes ++ w ∷ []) plan in
      let more : suc n ≡ accepted osm writes (w ∷ plan) = sym (accepted-none writes w plan e) in
      (
        ap (λ ws. w ∷ ws) v.0 ∙ ap (λ k. take k (w ∷ plan)) more,
        v.1
            ∙ append_snoc writes w (take (suc n) plan)
            ∙ ap (λ k. writes ++ take (suc k) (w ∷ plan)) more,
      )
  written-IsDone r rs scores current rest writes plan (some (err, message)) e v =
      let w : String × ℤ = (r.patrol_id, new_score_of current r) in
      let model = new_osm_error_update_response now r current err message in
      let stop : 0 ≡ accepted osm writes (w ∷ plan) =
        sym (accepted-some writes w plan (err, message) e) in
      (
        abandon_remaining_work-success_writes (r ∷ rs) scores model refl
            ∙ ap (λ k. take k (w ∷ plan)) stop,
        ap (λ k. writes ++ take (suc k) (w ∷ plan)) stop,
      )

  updated_one-IsDone :
      (held : Bool) (r : UpdateRequest) (rs : List UpdateRequest) (scores : List PatrolScore)
      (rest rest' : List UpdateResponse × Writes) (writes plan : Writes) (o : Option PatrolScore)
      → IsDone osm writes plan rest
      → IsDone osm (writes ++ write_of osm now r o) plan rest'
      → IsDone osm writes
          (planned_one held r o plan)
          (updated_one osm now held r rs scores rest rest' writes o)
  updated_one-IsDone held r rs scores rest rest' writes plan none v v' = v
  updated_one-IsDone false r rs scores rest rest' writes plan (some current) v v' = v
  updated_one-IsDone true r rs scores rest rest' writes plan (some current) v v' =
      written-IsDone r rs scores current rest' writes plan
        (osm writes (r.patrol_id, new_score_of current r)) refl v'

  -- The calls to OSM are the planned writes in their order, up to the first one that OSM refuses,
  -- and the accepted ones are those that the responses report as written.
  pub update_each-IsDone :
      (held : String → Bool) (scores : List PatrolScore) (rs : List UpdateRequest) (writes : Writes)
      → IsDone osm writes (planned held scores rs) (update_each osm now held scores rs writes)
  unfolding update_each
  update_each-IsDone held scores [] writes = (refl, sym (append-nil writes))
  update_each-IsDone held scores (r ∷ rs) writes =
      let current = find_patrol_score scores r.patrol_id in
      let writes' = writes ++ write_of osm now r current in
      updated_one-IsDone (held r.patrol_id) r rs scores (update_each osm now held scores rs writes)
        (update_each osm now held scores rs writes') writes (planned held scores rs) current
        (update_each-IsDone held scores rs writes) (update_each-IsDone held scores rs writes')

-- Where OSM accepts every write, two requests for one patrol in the same batch both start from the
-- score that was read before: the first change is overwritten.
pub update_each_duplicate :
    (now : ℕ) (held : String → Bool) (scores : List PatrolScore) (current : PatrolScore)
    (patrol_id : String) (d d' : ℤ)
    → find_patrol_score scores patrol_id ≡ some current
    → held patrol_id ≡ true
    → (update_each
        (λ ws w. none)
        now
        held
        scores
        ((record { patrol_id = patrol_id; delta = d })
          ∷ (record { patrol_id = patrol_id; delta = d' })
          ∷ [])
        []).1
      ≡ (patrol_id, wrap_64 (current.score +ℤ d)) ∷ (patrol_id, wrap_64 (current.score +ℤ d')) ∷ []
unfolding update_each
update_each_duplicate now held scores current patrol_id d d' there has = rw (there, has) refl

module _ (osm : Writes → String × ℤ → Option (OsmError × String)) (itoa : ℤ → String) where
  abbrev pub holds : ℤ → LockSet → String → Bool
  holds section_id locks patrol_id = is_held (internal_key itoa section_id patrol_id) locks

  -- The locks that the update has asked for, with what it has got.
  abbrev pub taken_locks :
      ℕ → String → ℤ → List UpdateRequest → Preparation → Dict RedisLock → LockSet
  taken_locks now lock_value section_id requests prep redis =
      let keys = map (λ (r : UpdateRequest). internal_key itoa section_id r.patrol_id) requests in
      (acquire now prep.redis_fails
        (add_patrols keys (new_patrol_lock_set lock_value (lock_ttl osm itoa))) redis).0.0

  locked-responses :
      (now : ℕ) (section_id : ℤ) (requests : List UpdateRequest) (prep : Preparation)
      (r : (LockSet × Dict RedisLock) × Bool) (o : Option (List PatrolScore))
      (scores : List PatrolScore) (responses : List UpdateResponse)
      → o ≡ some scores
      → (locked osm itoa now section_id requests prep r o).0.0 ≡ some responses
      → (response_ids responses ≡ request_ids requests)
        × IsDone osm []
            (planned (holds section_id r.0.0) scores requests)
            (responses, (locked osm itoa now section_id requests prep r o).0.1)
  locked-responses now section_id requests prep (l, false) o scores responses e done = cc
  locked-responses now section_id requests prep (l, true) none scores responses e done = cc
  locked-responses now section_id requests prep (l, true) (some x) scores responses e done =
      let same : x ≡ scores = ground (arith, e) in
      let run = update_each osm now (holds section_id l.0) x requests [] in
      let is : run.0 ≡ responses = ground (arith, done) in
      (
        ap response_ids (sym is) ∙ update_each-ids osm now (holds section_id l.0) x requests [],
        rw (sym is, sym same) (update_each-IsDone osm now (holds section_id l.0) x requests []),
      )

  with_term-responses :
      (now : ℕ) (lock_value : String) (section_id : ℤ) (requests : List UpdateRequest)
      (prep : Preparation) (redis : Dict RedisLock) (o : Option TermInfo)
      (scores : List PatrolScore) (responses : List UpdateResponse)
      → prep.scores ≡ some scores
      → (with_term osm itoa now lock_value section_id requests prep redis o).0.0 ≡ some responses
      → (response_ids responses ≡ request_ids requests)
        × IsDone osm []
            (planned
              (holds section_id (taken_locks now lock_value section_id requests prep redis))
              scores
              requests)
            (responses, (with_term osm itoa now lock_value section_id requests prep redis o).0.1)
  with_term-responses now lock_value section_id requests prep redis none scores responses e done =
      cc
  with_term-responses now lock_value section_id requests prep redis (some t) scores responses e
        done =
      let keys = map (λ (r : UpdateRequest). internal_key itoa section_id r.patrol_id) requests in
      let locks = add_patrols keys (new_patrol_lock_set lock_value (lock_ttl osm itoa)) in
      locked-responses now section_id requests prep (acquire now prep.redis_fails locks redis)
        prep.scores scores responses e done

  -- An update that answers gives one response for each request, in their order. Its calls to OSM
  -- are the new scores of the patrols that it found and whose locks it took, in their order, as far
  -- as OSM accepts them, and the first one that OSM refuses, with none after it; and the responses
  -- that report success are those of the accepted calls, with the scores that were written.
  pub update_scores_lem :
      (now : ℕ) (lock_value : String) (section_id : ℤ) (requests : List UpdateRequest)
      (prep : Preparation) (redis : Dict RedisLock) (scores : List PatrolScore)
      (responses : List UpdateResponse)
      → prep.scores ≡ some scores
      → (update_scores osm itoa now lock_value section_id requests prep redis).0.0 ≡ some responses
      → (response_ids responses ≡ request_ids requests)
        × IsDone osm []
            (planned
              (holds section_id (taken_locks now lock_value section_id requests prep redis))
              scores
              requests)
            (responses, (update_scores osm itoa now lock_value section_id requests prep redis).0.1)
  unfolding update_scores
  update_scores_lem now lock_value section_id requests prep redis scores responses e done =
      with_term-responses now lock_value section_id requests prep redis prep.term scores responses e
        done

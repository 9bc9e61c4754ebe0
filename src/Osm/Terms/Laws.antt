-- ===== src/Osm/Terms/Laws.antt =====
-- The active term is one of the section's that the instant lies in.
use osm_device_adapter.Prelude.{
  ℕ, String, Bool, true, false, ◌≤◌, ◌<◌, Option, none, some, List, [], ◌∷◌, find?, find?-passes,
  ◌≡◌, refl, sym, subst, arith,
}
use osm_device_adapter.Prelude.Int.{ℤ, eq_ℤ}
use osm_device_adapter.Osm.Types.{OsmTerm, OsmSection, OsmProfileData, OsmProfileResponse}
use osm_device_adapter.Osm.Terms.{
  TermInfo, found, not_in_term, is_active, within, date_or_zero, term_of, term_in, term_of_answer,
  active_term,
}

module _ (parse_date : String → Option ℕ) (now : ℕ) where
  active-current :
      (t : OsmTerm) → is_active parse_date now t ≡ true → now ≤ date_or_zero parse_date t.end_date
  active-current t e = ground (arith, e)

  term_of-current :
      (profile : OsmProfileData) (terms : List OsmTerm) (o : Option OsmTerm) (info : TermInfo)
      → find? (is_active parse_date now) terms ≡ o
      → term_of parse_date profile o ≡ found info
      → (t : OsmTerm) × (find? (is_active parse_date now) terms ≡ some t)
        × (info.term_id ≡ t.term_id)
        × (info.user_id ≡ profile.user_id)
        × (now ≤ info.end_date)
  term_of-current profile terms none info e r = cc
  term_of-current profile terms (some t) info e r =
      let current = active-current t (find?-passes (is_active parse_date now) terms t e) in
      let id : t.term_id ≡ info.term_id = cc in
      let user : profile.user_id ≡ info.user_id = cc in
      let end : date_or_zero parse_date t.end_date ≡ info.end_date = cc in
      (t, e, sym id, sym user, omega (arith, current, end))

  term_in-current :
      (profile : OsmProfileData) (o : Option OsmSection) (info : TermInfo)
      → term_in parse_date now profile o ≡ found info
      → (s : OsmSection) × (t : OsmTerm) × (o ≡ some s)
        × (find? (is_active parse_date now) s.terms ≡ some t)
        × (info.term_id ≡ t.term_id)
        × (info.user_id ≡ profile.user_id)
        × (now ≤ info.end_date)
  term_in-current profile none info r = cc
  term_in-current profile (some s) info r =
      let (t, at, id, user, current) =
        term_of-current profile s.terms (find? (is_active parse_date now) s.terms) info refl r in
      (s, t, refl, at, id, user, current)

  -- A term that is found is the first active term of the section in the user's profile, and it has
  -- not ended.
  pub active_term_found :
      (section_id : ℤ) (resp : OsmProfileResponse) (profile : OsmProfileData) (info : TermInfo)
      → resp.payload ≡ some profile
      → active_term parse_date now section_id resp ≡ found info
      → (s : OsmSection) × (t : OsmTerm) × (find?
            (λ s. eq_ℤ s.section_id section_id)
            profile.sections
          ≡ some s)
        × (find? (is_active parse_date now) s.terms ≡ some t)
        × (info.term_id ≡ t.term_id)
        × (info.user_id ≡ profile.user_id)
        × (now ≤ info.end_date)
  active_term_found section_id resp profile info has r =
      term_in-current profile (find? (λ s. eq_ℤ s.section_id section_id) profile.sections) info (
        reached resp.status (
          unfold active_term in
          subst (λ o. term_of_answer parse_date now section_id resp.status o ≡ found info) has r))
    where
      reached :
          (b : Bool)
          → term_of_answer parse_date now section_id b (some profile) ≡ found info
          → term_in parse_date now profile
              (find? (λ s. eq_ℤ s.section_id section_id) profile.sections)
            ≡ found info
      reached true r = r
      reached false r = cc

  -- A section whose only term ends on a date is not in term once the first instant of that date
  -- has passed.
  pub active_term_last_day :
      (section_id : ℤ) (resp : OsmProfileResponse) (profile : OsmProfileData) (s : OsmSection)
      (t : OsmTerm) (end : ℕ)
      → resp.status ≡ true
      → resp.payload ≡ some profile
      → find? (λ s. eq_ℤ s.section_id section_id) profile.sections ≡ some s
      → s.terms ≡ t ∷ []
      → parse_date t.end_date ≡ some end
      → end < now
      → active_term parse_date now section_id resp ≡ not_in_term
  unfolding active_term
  active_term_last_day section_id resp profile s t end ok has at only ends past =
      let out : is_active parse_date now t ≡ false =
        ends_before (parse_date t.start_date) (parse_date t.end_date) ends in
      rw (ok, has, at, only, out) refl
    where
      ends_before : (a b : Option ℕ) → b ≡ some end → within parse_date now a b ≡ false
      ends_before none none e = refl
      ends_before none (some x) e = refl
      ends_before (some x) none e = refl
      ends_before (some x) (some y) e = ground (arith, e, past)

-- ===== src/Osm/Terms.antt =====
-- `FetchActiveTermForSection` of internal/osm/term_discovery.go, on the answer to the request for
-- the user's profile.
pub mod Laws
use osm_device_adapter.Prelude.{
  ℕ, String, Bool, true, false, not, ◌&&◌, Option, none, some, List, [], ◌∷◌, find?, leb,
  if◌then◌else◌,
}
use osm_device_adapter.Prelude.Int.{ℤ, eq_ℤ}
use osm_device_adapter.Osm.Types.{OsmTerm, OsmSection, OsmProfileData, OsmProfileResponse}
use osm_device_adapter.Osm.Request.{OsmError}

pub record TermInfo : Type 0 where
  pub term_id : ℤ
  pub end_date : ℕ
  pub user_id : ℤ

pub data TermResult : Type 0 where
  found : TermInfo → TermResult
  not_in_term section_not_found api_error : TermResult
  request_failed : OsmError → TermResult

-- `time.Parse` on the layout "2006-01-02": none is its error, and a date is its first instant.
module _ (parse_date : String → Option ℕ) where
  abbrev pub within : ℕ → Option ℕ → Option ℕ → Bool
  within now (some start) (some end) = leb start now && leb now end
  within now start end = false

  abbrev pub is_active : ℕ → OsmTerm → Bool
  is_active now t = within now (parse_date t.start_date) (parse_date t.end_date)

  -- `endDate, _ := time.Parse(…)`
  abbrev pub date_or_zero : String → ℕ
  date_or_zero text = elim (parse_date text) [ none ↦ 0 | some t ↦ t ]

  abbrev pub term_of : OsmProfileData → Option OsmTerm → TermResult
  term_of profile none = not_in_term
  term_of profile (some t) = found (record {
    term_id = t.term_id;
    end_date = date_or_zero t.end_date;
    user_id = profile.user_id;
  })

  abbrev pub term_in : ℕ → OsmProfileData → Option OsmSection → TermResult
  term_in now profile none = section_not_found
  term_in now profile (some s) = term_of profile (find? (is_active now) s.terms)

  -- `!profileResp.Status || profileResp.Data == nil`
  abbrev pub term_of_answer : ℕ → ℤ → Bool → Option OsmProfileData → TermResult
  term_of_answer now section_id true (some profile) =
      term_in now profile (find? (λ s. eq_ℤ s.section_id section_id) profile.sections)
  term_of_answer now section_id _ _ = api_error

  unfoldable pub active_term : ℕ → ℤ → OsmProfileResponse → TermResult
  active_term now section_id resp = term_of_answer now section_id resp.status resp.payload

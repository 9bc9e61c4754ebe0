-- ===== src/Admin/Scores/Guards.antt =====
-- Who may change scores through the pages of internal/handlers/admin_api.go.
use osm_device_adapter.Prelude.{
  ℕ, ◌≡◌, refl, String, false, Option, none, some, List, arith, str_eq, if_both,
}
use osm_device_adapter.Prelude.Int.{ℤ, pos, eq_ℤ}
use osm_device_adapter.Db.Models.{WebSession}
use osm_device_adapter.Osm.Types.{PatrolScore, OsmSection, OsmProfileData, OsmProfileResponse}
use osm_device_adapter.Admin.Replies.{AdminRequest, validate_csrf_token}
use osm_device_adapter.Admin.Paths.{PathPart, no_match, out_of_range, part, path_part}
use osm_device_adapter.Admin.World.{
  AdminWorld, AdminFaults, find_section, with_data, with_found, with_access,
}
use osm_device_adapter.Admin.Adhoc.Laws.{token_of, carries_token}
use osm_device_adapter.Admin.Scores.{
  AdminScoreUpdate, ScoresHandled, failed, ScoreService, Numerals, with_patrols, with_term,
  handle_get_scores,
}
use osm_device_adapter.Admin.Scores.Adhoc.{handle_update_adhoc_scores, adhoc_token}
use osm_device_adapter.Admin.Scores.Page.{
  adhoc_section, osm_section, with_number, with_path, with_session, admin_scores,
}

-- A page that asks for access to a section does what is done with it, or nothing.
module _ (w : AdminWorld) (go : OsmSection → AdminWorld × ScoresHandled)
    (leaves : (s : OsmSection) → (go s).0 ≡ w) where
  with_found-leaves : (o : Option OsmSection) → (with_found (failed w) o go).0 ≡ w
  with_found-leaves none = refl
  with_found-leaves (some s) = leaves s

  with_data-leaves :
      (section : ℤ) (o : Option OsmProfileData)
      → (with_data
          (failed w)
          o
          (λ profile. with_found (failed w) (find_section section profile.sections) go)).0
        ≡ w
  with_data-leaves section none = refl
  with_data-leaves section (some profile) =
      with_found-leaves (find_section section profile.sections)

  with_access-leaves :
      (profile : Option OsmProfileResponse) (section : ℤ)
      → (with_access (failed w) profile section go).0 ≡ w
  with_access-leaves none section = refl
  with_access-leaves (some answer) section = with_data-leaves section answer.payload

module _ (numerals : Numerals) (faults : AdminFaults) (service : ScoreService) (now : ℕ)
    (r : AdminRequest) (body : Option (List AdminScoreUpdate)) (w : AdminWorld) where
  handle_get_scores-leaves :
      (section : ℤ) (target : OsmSection)
      → (handle_get_scores numerals faults service now section target w).0 ≡ w
  handle_get_scores-leaves section target = term (service.term section)
    where
      patrols :
          (t : ℤ) (o : Option (List PatrolScore))
          → (with_patrols numerals faults service now w target section t o).0 ≡ w
      patrols t none = refl
      patrols t (some ps) = refl

      term : (o : Option ℤ) → (with_term numerals faults service now w target section o).0 ≡ w
      term none = refl
      term (some t) = patrols t (service.patrols section t)

  adhoc_token-leaves :
      (s : WebSession) (o : Option String)
      → validate_csrf_token r s ≡ o
      → token_of r (some s) ≡ false
      → (adhoc_token numerals faults s.osm_user_id w body o).0 ≡ w
  unfolding validate_csrf_token
  adhoc_token-leaves s none token without = absurd (ground (arith, token, without))
  adhoc_token-leaves s (some message) token without = refl

  adhoc_section-leaves :
      (s : WebSession)
      → token_of r (some s) ≡ false
      → (adhoc_section numerals faults service now r s body w).0 ≡ w
  unfolding handle_update_adhoc_scores
  adhoc_section-leaves s without =
      if_both (λ (o : AdminWorld × ScoresHandled). o.0 ≡ w) (str_eq r.method "GET")
        (if_both (λ (o : AdminWorld × ScoresHandled). o.0 ≡ w) faults.adhoc_list refl refl)
        (if_both (λ (o : AdminWorld × ScoresHandled). o.0 ≡ w) (str_eq r.method "POST")
          (adhoc_token-leaves s (validate_csrf_token r s) refl without) refl)

  osm_section-leaves :
      (s : WebSession) (section : ℤ) (target : OsmSection)
      → token_of r (some s) ≡ false
      → (osm_section numerals faults service now r s body w section target).0 ≡ w
  osm_section-leaves s section target without =
      if_both (λ (o : AdminWorld × ScoresHandled). o.0 ≡ w) (str_eq r.method "GET")
        (handle_get_scores-leaves section target)
        (if_both (λ (o : AdminWorld × ScoresHandled). o.0 ≡ w) (str_eq r.method "POST")
          (ground (arith, without)) refl)

  with_path-leaves :
      (profile : Option OsmProfileResponse) (s : WebSession) (p : PathPart)
      → token_of r (some s) ≡ false
      → (with_path numerals faults service now profile r s body w p).0 ≡ w
  with_path-leaves profile s no_match without = refl
  with_path-leaves profile s out_of_range without = refl
  with_path-leaves profile s (part text) without = number (numerals.parse_int text)
    where
      number : (o : Option ℤ) → (with_number numerals faults service now profile r s body w o).0 ≡ w
      number none = refl
      number (some section) =
          if_both (λ (o : AdminWorld × ScoresHandled). o.0 ≡ w) (eq_ℤ section (pos 0))
            (adhoc_section-leaves s without)
            (with_access-leaves w (osm_section numerals faults service now r s body w section)
              (λ target. osm_section-leaves s section target without) profile section)

  with_session-leaves :
      (profile : Option OsmProfileResponse) (o : Option WebSession)
      → token_of r o ≡ false
      → (with_session numerals faults service now profile r body w o).0 ≡ w
  with_session-leaves profile none without = refl
  with_session-leaves profile (some s) without =
      with_path-leaves profile s (path_part "/api/admin/sections/" "/scores" r.path) without

-- Whatever fails and whatever OSM answers: a request to the score pages without the CSRF token of
-- its session changes nothing, neither scores nor logs, caches or locks, and tells no device.
pub admin_scores-token :
    (numerals : Numerals) (faults : AdminFaults) (service : ScoreService) (now : ℕ)
    (profile : Option OsmProfileResponse) (r : AdminRequest) (body : Option (List AdminScoreUpdate))
    (w : AdminWorld)
    → carries_token r ≡ false
    → (admin_scores numerals faults service now profile r body w).0 ≡ w
unfolding admin_scores
admin_scores-token numerals faults service now profile r body w without =
    with_session-leaves numerals faults service now r body w profile r.session without

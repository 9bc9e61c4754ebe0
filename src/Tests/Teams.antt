-- ===== src/Tests/Teams.antt =====
-- The teams of the ad-hoc section.
use osm_device_adapter.Prelude.{◌≤◌, ◌≡◌, refl, none, some, List, [], ◌∷◌, arith, length}
use osm_device_adapter.Prelude.Int.{ℤ, pos, ◌+ℤ◌, wrap_64}
use osm_device_adapter.Prelude.Spaces.{trim_space}
use osm_device_adapter.Db.Models.{WebSession, hour}
use osm_device_adapter.Db.AdhocPatrols.{
  AdhocTable, list_by_user, create_patrol, delete_patrol, update_patrol_score, not_found,
}
use osm_device_adapter.Db.AdhocPatrols.Spec.{
  Write, add_team, set_score, remove_team, teams, perform, views, run, spec_run,
}
use osm_device_adapter.Db.AdhocPatrols.Runs.{run-spec_run, length-teams-run}
use osm_device_adapter.Admin.Replies.{AdminRequest, validate_csrf_token}
use osm_device_adapter.Admin.Adhoc.{
  AdhocPatrolRequest, no_adhoc_faults, admin_adhoc_patrols, admin_adhoc_patrol,
  validate_adhoc_patrol_request,
}
use osm_device_adapter.Admin.Adhoc.Laws.{admin_adhoc-other}

abbrev no_teams : AdhocTable
no_teams = record { rows = []; next_id = 1 }

abbrev me : ℤ
me = pos 7

abbrev you : ℤ
you = pos 8

abbrev evening : List (ℤ × Write)
evening =
    (me, add_team "Red" "red")
    ∷ (you, add_team "Blue" "blue")
    ∷ (me, add_team "Green" "green")
    ∷ (me, set_score 1 (pos 5))
    ∷ (you, set_score 1 (pos 9))
    ∷ (me, remove_team 3)
    ∷ []

-- The last of my teams is gone, and nobody else can score for the first.
evening_results : (run evening no_teams).1 ≡ none ∷ none ∷ none ∷ none ∷ some not_found ∷ none ∷ []
unfolding perform create_patrol update_patrol_score delete_patrol wrap_64 ◌+ℤ◌
evening_results = refl

run-spec_run_example :
    (views (run evening no_teams).0 ≡ (spec_run evening (views no_teams)).0)
    × ((run evening no_teams).1 ≡ (spec_run evening (views no_teams)).1)
run-spec_run_example = run-spec_run evening no_teams (omega arith, tt) (omega arith)

length-teams-run_example : length (teams me (run evening no_teams).0) ≤ 20
unfolding list_by_user
length-teams-run_example =
    length-teams-run evening no_teams (omega arith, tt) (omega arith) (λ u. omega arith) me

abbrev leader : WebSession
leader = record {
  id = "session";
  osm_user_id = me;
  osm_access_token = "osm-token";
  osm_refresh_token = "refresh";
  osm_token_expiry = hour;
  csrf_token = "csrf";
  selected_section_id = none;
  created_at = 0;
  last_activity = 0;
  expires_at = hour;
}

abbrev new_team : AdminRequest
new_team = record {
  method = "POST";
  path = "/api/admin/adhoc/patrols";
  x_csrf_token = "csrf";
  session = some leader;
}

abbrev team_body : AdhocPatrolRequest
team_body = record { name = " Owls "; color = "red" }

abbrev one_team : AdhocTable
one_team = (perform you (add_team "Blue" "blue") no_teams).0

-- The request adds a team, its name trimmed.
new_team_added :
    (admin_adhoc_patrols no_adhoc_faults new_team (some team_body) no_teams).0
    ≡ (perform me (add_team "Owls" "red") no_teams).0
unfolding admin_adhoc_patrols validate_csrf_token validate_adhoc_patrol_request trim_space
    create_patrol perform
new_team_added = refl

admin_adhoc-other_example :
    (teams you (admin_adhoc_patrols no_adhoc_faults new_team (some team_body) one_team).0
      ≡ teams you one_team)
    × (teams you
          (admin_adhoc_patrol (λ text. none) no_adhoc_faults new_team (some team_body) one_team).0
        ≡ teams you one_team)
unfolding perform create_patrol
admin_adhoc-other_example =
    admin_adhoc-other (λ text. none) new_team (some team_body) leader you one_team refl refl
      (omega arith, ((omega arith, (refl, refl)), tt)) (omega arith)

-- ===== src/Tests/Polls.antt =====
-- What the devices of the ad-hoc section are served.
use osm_device_adapter.Prelude.Dict.{lookup}
use osm_device_adapter.Prelude.{
  ℕ, ◌+◌, ◌*◌, ◌≡◌, refl, String, false, true, none, some, [], ◌∷◌, inl, inr, arith,
}
use osm_device_adapter.Prelude.Int.{ℤ, pos, ◌+ℤ◌, wrap_64}
use osm_device_adapter.Db.Models.{DeviceCode, second}
use osm_device_adapter.Db.AdhocPatrols.{find_by_id_and_user, update_patrol_score, list_by_user}
use osm_device_adapter.Osm.Request.{service_blocked}
use osm_device_adapter.Scores.Cache.{no_limit, from_cached}
use osm_device_adapter.Scores.Service.{
  ScoreWorld, PollFaults, Poll, adhoc_cache_ttl, team_record, team_response, poll_scores,
}
use osm_device_adapter.Scores.Service.Laws.{poll_scores-after_update, poll_scores_again}
use osm_device_adapter.Admin.Replies.{validate_csrf_token}
use osm_device_adapter.Admin.World.{AdminWorld}
use osm_device_adapter.Admin.Scores.{AdminPatrolResult, ScoresHandled}
use osm_device_adapter.Admin.Scores.Adhoc.{adhoc_each, handle_update_adhoc_scores}
use osm_device_adapter.Tests.Pages.{
  scoreboard, world, healthy, leader, numerals, asks, five_points, cached,
}

abbrev adhoc_scoreboard : DeviceCode
adhoc_scoreboard = record scoreboard { section_id = some (pos 0) }

abbrev works : PollFaults
works = record { get = false; set = false; list = false; parse = false; update = false }

-- OSM refuses whatever it is asked.
abbrev poll_at : ℕ → Poll
poll_at now = record {
  cache_at = now;
  term_at = now;
  updated_at = now;
  served_at = now;
  term = inr service_blocked;
  fetch = λ term. inr service_blocked;
}

abbrev itoa : ℤ → String
itoa = numerals.itoa

abbrev before : AdminWorld
before = record world { adhoc_cache = (itoa (pos 7), cached) ∷ [] }

abbrev ran : AdminWorld × ScoresHandled
ran =
    handle_update_adhoc_scores numerals healthy (asks "POST" "" "csrf") leader
      (some (five_points "1" ∷ [])) before

abbrev polled : ScoreWorld
polled = record {
  device_codes = adhoc_scoreboard ∷ [];
  settings_rows = [];
  adhoc_teams = ran.0.adhoc;
  osm_cache = [];
  team_cache = ran.0.adhoc_cache;
}

abbrev uncached : ScoreWorld
uncached = record polled { adhoc_teams = world.adhoc; team_cache = [] }

abbrev kept : ScoreWorld
kept = record polled {
  team_cache = (poll_scores itoa works (poll_at second) adhoc_scoreboard uncached).0.team_cache;
}

poll_scores_again_example :
    ((poll_scores itoa works (poll_at second) adhoc_scoreboard uncached).1
      ≡ inl (team_response itoa second (list_by_user (pos 7) world.adhoc)))
    × ((poll_scores itoa works (poll_at (2 * second)) adhoc_scoreboard kept).1
        ≡ inl (
            from_cached
              (team_record itoa second (list_by_user (pos 7) world.adhoc))
              (second + adhoc_cache_ttl)
              no_limit
              none))
unfolding lookup
poll_scores_again_example =
    poll_scores_again itoa works works (poll_at second) (poll_at (2 * second)) adhoc_scoreboard
      (pos 7) uncached kept refl refl refl refl refl refl refl (omega arith)

abbrev eight_points : AdminPatrolResult
eight_points = record {
  id = "1";
  name = "Owls";
  success = true;
  previous_score = pos 3;
  new_score = pos 8;
  is_temporary_error = none;
  retry_after = none;
  error_message = none;
}

poll_scores-after_update_example :
    (poll_scores itoa works (poll_at second) adhoc_scoreboard polled).1
    ≡ inl (team_response itoa second (list_by_user (pos 7) ran.0.adhoc))
unfolding validate_csrf_token find_by_id_and_user update_patrol_score ◌+ℤ◌ wrap_64 adhoc_each
    handle_update_adhoc_scores
poll_scores-after_update_example =
    poll_scores-after_update numerals healthy (asks "POST" "" "csrf") leader
      (some (five_points "1" ∷ [])) before ran.0 (eight_points ∷ []) works (poll_at second)
      adhoc_scoreboard polled refl refl refl refl refl refl refl

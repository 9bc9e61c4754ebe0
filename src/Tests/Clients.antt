-- ===== src/Tests/Clients.antt =====
-- The client of OSM.
use mathlib.Core.List.{Perm}
use osm_device_adapter.Prelude.{
  ℕ, ◌*◌, ◌≡◌, refl, String, Bool, true, false, Option, none, some, List, [], ◌∷◌, arith, map,
  filter, str_eq, if◌then◌else◌,
}
use osm_device_adapter.Prelude.Int.{ℤ, pos, ◌+ℤ◌, wrap_64}
use osm_device_adapter.Db.Models.{second}
use osm_device_adapter.Osm.Types.{
  PatrolScore, OsmTerm, OsmSection, OsmProfileData, OsmProfileResponse,
}
use osm_device_adapter.Osm.Blocks.{OsmState, RedisFaults, whole_seconds, get_user_block_end_time}
use osm_device_adapter.Osm.Request.{
  Headers, HttpResponse, Client, OsmUser, Conversation, request, fails, service_blocked,
  user_blocked, parse_retry_after_header, parse_rate_limit_headers,
}
use osm_device_adapter.Osm.Request.Laws.{request_after_x_blocked, request_after_429}
use osm_device_adapter.Osm.Patrols.{PatrolData, patrol_scores}
use osm_device_adapter.Osm.Patrols.Laws.{patrol_scores_lem, scored, is_regular, IsSorted}

-- The texts that these runs read as numbers.
abbrev atoi : String → ℤ × Bool
atoi text =
    if str_eq text "60"
    then (pos 60, true)
    else if str_eq text "0"
    then (pos 0, true)
    else (pos 0, false)

abbrev client : Client
client = record { has_store = true; has_recorder = true }

abbrev user : OsmUser
user = record { user_id = some (pos 7); access_token = "old" }

abbrev other : OsmUser
other = record { user_id = some (pos 8); access_token = "other" }

abbrev nothing_sent : OsmState
nothing_sent = record { service_blocked = false; user_blocks = λ u. none; sent = [] }

abbrev headers : String → String → Headers
headers blocked retry = record {
  x_blocked = blocked;
  rate_limit_limit = "";
  rate_limit_remaining = "0";
  rate_limit_reset = "60";
  retry_after = retry;
}

abbrev http_answer : ℕ → Headers → Option ℕ → HttpResponse ℕ
http_answer status h body = record { status_code = status; headers = h; body = body }

abbrev redis_works : RedisFaults
redis_works = record { get_service = false; get_user = false; set = false }

abbrev talk : ℕ → HttpResponse ℕ → Conversation ℕ
talk now first = record {
  now = now;
  redis = redis_works;
  first = some first;
  new_token = some "new";
  later = now;
  later_redis = redis_works;
  second_answer = λ token. some (http_answer 200 (headers "" "") (some 5));
}

abbrev after_block : OsmState
after_block =
    (request atoi client (talk second (http_answer 403 (headers "yes" "") none)) user
      nothing_sent).0

request_after_x_blocked_example :
    request atoi client
      (talk (2 * second) (http_answer 200 (headers "" "") (some 5)))
      other
      after_block
    ≡ (after_block, fails service_blocked)
unfolding get_user_block_end_time
request_after_x_blocked_example =
    request_after_x_blocked atoi client (talk second (http_answer 403 (headers "yes" "") none))
      (talk (2 * second) (http_answer 200 (headers "" "") (some 5))) user other nothing_sent
      (http_answer 403 (headers "yes" "") none) refl refl refl refl refl refl refl

abbrev too_many : HttpResponse ℕ
too_many = http_answer 429 (headers "" "60") none

abbrev after_429 : OsmState
after_429 = (request atoi client (talk second too_many) user nothing_sent).0

request_after_429_example :
    request atoi client
      (talk (2 * second) (http_answer 200 (headers "" "") (some 5)))
      user
      after_429
    ≡ (after_429, fails (user_blocked (pos (whole_seconds (61 * second)))))
unfolding get_user_block_end_time parse_retry_after_header parse_rate_limit_headers ◌+ℤ◌ wrap_64
request_after_429_example =
    request_after_429 atoi client (talk second too_many)
      (talk (2 * second) (http_answer 200 (headers "" "") (some 5))) user user (pos 7) nothing_sent
      too_many (61 * second) refl refl refl refl refl refl refl refl refl refl refl refl
      (omega arith) (omega arith)

abbrev entries : List (String × PatrolData)
entries =
    ("11", record { name = "Eagles"; points = "0"; members = 5 })
    ∷ ("-2", record { name = "Leaders"; points = "0"; members = 3 })
    ∷ ("12", record { name = "Lions"; points = "60"; members = 4 })
    ∷ ("13", record { name = "Empty"; points = "60"; members = 0 })
    ∷ []

patrol_scores_example :
    (ps : List PatrolScore) × (patrol_scores atoi entries ≡ some ps)
    × Perm ps (map (scored atoi) (filter is_regular entries))
    × IsSorted ps
patrol_scores_example = patrol_scores_lem atoi entries refl

abbrev parse_date : String → Option ℕ
parse_date text =
    if str_eq text "2026-01-01"
    then some 100
    else if str_eq text "2026-04-01"
    then some 200
    else none

abbrev spring : OsmTerm
spring = record {
  name = "Spring";
  start_date = "2026-01-01";
  end_date = "2026-04-01";
  term_id = pos 3;
}

abbrev scouts : OsmSection
scouts = record {
  section_name = "Scouts";
  group_name = "1st";
  section_id = pos 42;
  group_id = pos 1;
  section_type = "scouts";
  terms = spring ∷ [];
}

abbrev profile : OsmProfileData
profile = record {
  user_id = pos 7;
  full_name = "A User";
  email = "a@example.org";
  sections = scouts ∷ [];
  has_parent_access = false;
  has_section_access = true;
}

abbrev profile_answer : OsmProfileResponse
profile_answer = record { status = true; error = none; payload = some profile }

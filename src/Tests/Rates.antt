-- ===== src/Tests/Rates.antt =====
-- The rate limiter, and the user codes.
use osm_device_adapter.Prelude.{ℕ, ◌*◌, ◌≡◌, refl, some, List, [], ◌∷◌, arith}
use osm_device_adapter.Prelude.Dict.{lookup}
use osm_device_adapter.Db.Models.{second, minute}
use osm_device_adapter.Redis.RateLimit.{live}
use osm_device_adapter.Redis.RateLimit.Laws.{allowed_count, allowed_count_window}
use osm_device_adapter.DeviceFlow.UserCode.{normalize_user_code, generate_user_code}
use osm_device_adapter.DeviceFlow.UserCode.Laws.{IsUserCode, generate_user_code_round_trip}

allowed_count_window_example :
    allowed_count "device_token" "10.0.0.1" 2 minute (second ∷ 2 * second ∷ 3 * second ∷ []) [] ≡ 2
unfolding lookup live
allowed_count_window_example =
    allowed_count_window "device_token" "10.0.0.1" 2 minute second (2 * second ∷ 3 * second ∷ []) []
      refl (omega arith, (omega arith, tt))

abbrev typed : List ℕ
typed = b'a' ∷ b'b' ∷ b'c' ∷ b'd' ∷ b' ' ∷ b'e' ∷ b'f' ∷ b'g' ∷ b'2' ∷ []

abbrev code : List ℕ
code = b'A' ∷ b'B' ∷ b'C' ∷ b'D' ∷ b'-' ∷ b'E' ∷ b'F' ∷ b'G' ∷ b'2' ∷ []

abbrev raw : List ℕ
raw = b'A' ∷ b'B' ∷ b'C' ∷ b'D' ∷ b'E' ∷ b'F' ∷ b'G' ∷ b'2' ∷ []

generate_user_code_round_trip_example :
    (c : List ℕ) × (generate_user_code (λ i. some 7) ≡ some c)
    × IsUserCode c
    × (normalize_user_code c ≡ some c)
generate_user_code_round_trip_example =
    generate_user_code_round_trip (λ i. some 7) (λ i. (7, omega arith, refl))

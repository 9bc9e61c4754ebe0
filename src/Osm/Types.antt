-- ===== src/Osm/Types.antt =====
-- internal/types/types.go: what OSM answers, with `Atoi`-like parsing of dates done by the caller.
use osm_device_adapter.Prelude.{ℕ, ◌+◌, ◌*◌, ◌<◌, ◌≡◌, String, Bool, Option, List, arith}
use osm_device_adapter.Prelude.Int.{ℤ, pos, pos_part, ◌+ℤ◌, scale, wrap_64, two_63, wrap_64-pos}
use osm_device_adapter.Db.Models.{second}

pub record PatrolScore : Type 0 where
  pub id : String
  pub name : String
  pub score : ℤ

pub record OsmTokenResponse : Type 0 where
  pub access_token : String
  pub token_type : String
  pub expires_in : ℤ  -- seconds
  pub refresh_token : String

-- `time.Now().Add(time.Duration(ExpiresIn) * time.Second)`: the product wraps in an int64, and a
-- time before the clock's origin stands as 0.
unfoldable pub token_expiry : ℕ → ℤ → ℕ
token_expiry now expires_in = pos_part (pos now +ℤ wrap_64 (scale second expires_in))

-- A number of seconds whose nanoseconds an int64 holds is added as it is.
pub token_expiry_fits :
    (now n : ℕ) → n * second < two_63 → token_expiry now (pos n) ≡ now + n * second
unfolding token_expiry ◌+ℤ◌
token_expiry_fits now n fits = rw (wrap_64-pos (second * n) (omega (arith, fits))) (ground arith)

pub record OsmTerm : Type 0 where
  pub name : String
  pub start_date : String
  pub end_date : String
  pub term_id : ℤ

pub record OsmSection : Type 0 where
  pub section_name : String
  pub group_name : String
  pub section_id : ℤ
  pub group_id : ℤ
  pub section_type : String
  pub terms : List OsmTerm

pub record OsmProfileData : Type 0 where
  pub user_id : ℤ
  pub full_name : String
  pub email : String
  pub sections : List OsmSection
  pub has_parent_access : Bool
  pub has_section_access : Bool

pub record OsmProfileResponse : Type 0 where
  pub status : Bool
  pub error : Option String
  pub payload : Option OsmProfileData  -- `Data`

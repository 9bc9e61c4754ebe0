-- ===== src/Db/Models.antt =====
-- internal/db/models.go. A nullable column is an `Option`. Times are nanoseconds since a fixed
-- origin, as Go's clock reads them.
use osm_device_adapter.Prelude.{ℕ, ◌*◌, String, Bool, true, false, Option, List}
use osm_device_adapter.Prelude.Int.{ℤ}

abbrev pub second : ℕ
second = 1000000000

abbrev pub minute : ℕ
minute = 60 * second

abbrev pub hour : ℕ
hour = 60 * minute

-- The values that the model's comment on `Status` lists.
pub data Status : Type 0 where
  pending awaiting_section authorized denied revoked : Status

pub Status-discrete : Discrete Status
Status-discrete = hlevel

abbrev pub status_eq : Status → Status → Bool
status_eq pending pending = true
status_eq awaiting_section awaiting_section = true
status_eq authorized authorized = true
status_eq denied denied = true
status_eq revoked revoked = true
status_eq _ _ = false

pub record DeviceCode : Type 0 where
  pub device_code : String
  pub user_code : List ℕ
  pub client_id : String
  pub created_by_id : Option ℕ
  pub expires_at : ℕ
  pub created_at : ℕ
  pub status : Status
  pub device_access_token : Option String
  pub osm_access_token : Option String
  pub osm_refresh_token : Option String
  pub osm_token_expiry : Option ℕ
  pub section_id : Option ℤ
  pub osm_user_id : Option ℤ
  pub term_id : Option ℤ
  pub term_checked_at : Option ℕ
  pub term_end_date : Option ℕ
  pub device_request_ip : Option String
  pub device_request_country : Option String
  pub device_request_time : Option ℕ
  pub last_used_at : Option ℕ

pub record DeviceSession : Type 0 where
  pub session_id : String
  pub device_code : String
  pub created_at : ℕ
  pub expires_at : ℕ

pub record AllowedClientId : Type 0 where
  pub id : ℕ
  pub client_id : String
  pub comment : String
  pub contact_email : String
  pub enabled : Bool
  pub created_at : ℕ
  pub updated_at : ℕ

pub record WebSession : Type 0 where
  pub id : String
  pub osm_user_id : ℤ
  pub osm_access_token : String
  pub osm_refresh_token : String
  pub osm_token_expiry : ℕ
  pub csrf_token : String
  pub selected_section_id : Option ℤ
  pub created_at : ℕ
  pub last_activity : ℕ
  pub expires_at : ℕ

-- The identifier is from a sequence of the database. `created_at` and `updated_at` are not read.
pub record AdhocPatrol : Type 0 where
  pub id : ℕ
  pub osm_user_id : ℤ
  pub position : ℤ
  pub name : String
  pub color : String
  pub score : ℤ

-- `id` and `created_at` are not read.
pub record ScoreAuditLog : Type 0 where
  pub osm_user_id : ℤ
  pub section_id : ℤ
  pub patrol_id : String
  pub patrol_name : String
  pub previous_score : ℤ
  pub new_score : ℤ
  pub points_added : ℤ

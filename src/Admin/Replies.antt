-- ===== src/Admin/Replies.antt =====
-- What the handlers of the admin pages answer: `writeJSON` and `writeJSONError` of
-- internal/handlers/admin_api.go; and the request that they read.
use osm_device_adapter.Prelude.{ℕ, String, not, Option, none, some, str_eq, if◌then◌else◌}
use osm_device_adapter.Db.Models.{WebSession}

pub data Answer (A : Type 0) : Type 0 where
  json : (status : ℕ) → A → Answer A
  json_error : (status : ℕ) → (code : String) → (message : String) → Answer A
  no_content : Answer A

-- What a handler reads of its request, with the session in its context. A missing header reads
-- as "".
pub record AdminRequest : Type 0 where
  pub method : String
  pub path : String
  pub x_csrf_token : String
  pub session : Option WebSession

-- `validateCSRFToken` of internal/handlers/admin_adhoc.go; `none` where the token is valid.
unfoldable pub validate_csrf_token : AdminRequest → WebSession → Option String
validate_csrf_token r s =
    if str_eq r.x_csrf_token ""
    then some "CSRF token required"
    else if not (str_eq r.x_csrf_token s.csrf_token)
    then some "invalid CSRF token"
    else none

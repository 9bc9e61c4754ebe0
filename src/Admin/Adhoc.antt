-- ===== src/Admin/Adhoc.antt =====
-- internal/handlers/admin_adhoc.go: the pages for the patrols of the ad-hoc section.
pub mod Laws
use Prim.Native.String.{◌++◌ as append, len, slice}
use text.Mathlib.Text.{starts_with}
use osm_device_adapter.Prelude.{
  ℕ, ◌+◌, String, Bool, true, false, not, ◌&&◌, ◌||◌, Option, none, some, List, [], ◌∷◌, map, ltb,
  str_eq, if◌then◌else◌, find?, ◌⊎◌, inl, inr,
}
use osm_device_adapter.Prelude.Int.{ℤ, pos, negsuc}
use osm_device_adapter.Prelude.Spaces.{trim_space}
use osm_device_adapter.Db.Models.{WebSession, AdhocPatrol}
use osm_device_adapter.Db.AdhocPatrols.{
  AdhocTable, StoreError, max_patrols_reached, not_found, database_error, CreateFaults, no_faults,
  list_by_user, create_patrol, update_patrol, delete_patrol, reset_all_scores, find_by_id_and_user,
}
use osm_device_adapter.Db.AdhocPatrols.Spec.{new_patrol}
use osm_device_adapter.Admin.Replies.{
  Answer, json, json_error, no_content, AdminRequest, validate_csrf_token,
}

-- The identifier is written in decimal by `strconv.FormatInt`, which is one to one: it stands here
-- as the number.
pub record AdhocPatrolResponse : Type 0 where
  pub id : ℕ
  pub name : String
  pub color : String
  pub score : ℤ
  pub position : ℤ

pub record AdhocPatrolRequest : Type 0 where
  pub name : String
  pub color : String

abbrev pub response_of : AdhocPatrol → AdhocPatrolResponse
response_of p = record {
  id = p.id;
  name = p.name;
  color = p.color;
  score = p.score;
  position = p.position;
}

-- The answers of the pages.
pub data AdhocReply : Type 0 where
  patrol_list : List AdhocPatrolResponse → AdhocReply
  patrol : AdhocPatrolResponse → AdhocReply
  success : AdhocReply

abbrev pub AdhocAnswer : Type 0
AdhocAnswer = Answer AdhocReply

-- `validColorNames`, as its keys.
abbrev pub valid_color_names : List String
valid_color_names =
    "red" ∷ "green" ∷ "blue" ∷ "yellow" ∷ "cyan" ∷ "magenta" ∷ "orange" ∷ "white" ∷ []

abbrev pub is_color : String → Bool
is_color color = elim (find? (str_eq color) valid_color_names) [ none ↦ false | some c ↦ true ]

unfoldable pub validate_adhoc_patrol_request : AdhocPatrolRequest → String ⊎ AdhocPatrolRequest
validate_adhoc_patrol_request req =
    let name = trim_space req.name in
    if str_eq name ""
    then inl "name is required"
    else if ltb 50 (len name)
    then inl "name must be 50 characters or less"
    else if not (str_eq req.color "") && not (is_color req.color)
    then inl "invalid color name"
    else inr (record req { name = name })

-- Which calls of the database fail.
pub record AdhocFaults : Type 0 where
  pub list : Bool
  pub create : CreateFaults
  pub write : Bool
  pub find : Bool

abbrev pub no_adhoc_faults : AdhocFaults
no_adhoc_faults = record { list = false; create = no_faults; write = false; find = false }

abbrev pub handle_list_adhoc_patrols : AdhocFaults → ℤ → AdhocTable → AdhocAnswer
handle_list_adhoc_patrols faults user table =
    if faults.list
    then json_error 500 "internal_error" "Failed to list patrols"
    else json 200 (patrol_list (map response_of (list_by_user user table)))

-- What is done once the CSRF token, the body and its fields have been found good.
abbrev after_validation :
    (AdhocPatrolRequest → AdhocTable × AdhocAnswer)
    → AdhocTable
    → String ⊎ AdhocPatrolRequest
    → AdhocTable × AdhocAnswer
after_validation go table (inl message) = (table, json_error 400 "validation_error" message)
after_validation go table (inr valid) = go valid

abbrev after_body :
    (AdhocPatrolRequest → AdhocTable × AdhocAnswer)
    → AdhocTable
    → Option AdhocPatrolRequest
    → AdhocTable × AdhocAnswer
after_body go table none = (table, json_error 400 "bad_request" "Invalid request body")
after_body go table (some req) = after_validation go table (validate_adhoc_patrol_request req)

abbrev after_token :
    AdhocTable × AdhocAnswer → AdhocTable → Option String → AdhocTable × AdhocAnswer
after_token done table (some message) = (table, json_error 403 "csrf_invalid" message)
after_token done table none = done

abbrev created : AdhocTable × (StoreError ⊎ AdhocPatrol) → AdhocTable × AdhocAnswer
created (table, inl max_patrols_reached) =
    (table, json_error 409 "max_patrols" "maximum of 20 ad-hoc patrols reached")
created (table, inl not_found) = (table, json_error 500 "internal_error" "Failed to create patrol")
created (table, inl database_error) =
    (table, json_error 500 "internal_error" "Failed to create patrol")
created (table, inr p) = (table, json 201 (patrol (response_of p)))

abbrev pub handle_create_adhoc_patrol :
    AdhocFaults
    → AdminRequest
    → WebSession
    → Option AdhocPatrolRequest
    → AdhocTable
    → AdhocTable × AdhocAnswer
handle_create_adhoc_patrol faults r s body table =
    after_token
      (after_body
        (λ req.
          created (create_patrol faults.create (new_patrol s.osm_user_id req.name req.color) table))
        table body)
      table (validate_csrf_token r s)

-- The answer to a failed write: `what` was being done.
abbrev write_error : String → StoreError → AdhocAnswer
write_error what not_found = json_error 404 "not_found" "Patrol not found"
write_error what max_patrols_reached = json_error 500 "internal_error" (append "Failed to " what)
write_error what database_error = json_error 500 "internal_error" (append "Failed to " what)

abbrev fetched : StoreError ⊎ AdhocPatrol → AdhocAnswer
fetched (inl e) = json_error 500 "internal_error" "Failed to fetch updated patrol"
fetched (inr p) = json 200 (patrol (response_of p))

abbrev updated : AdhocFaults → ℕ → ℤ → AdhocTable × Option StoreError → AdhocTable × AdhocAnswer
updated faults id user (table, some e) = (table, write_error "update patrol" e)
updated faults id user (table, none) =
    (table, fetched (find_by_id_and_user faults.find id user table))

abbrev pub handle_update_adhoc_patrol :
    AdhocFaults
    → AdminRequest
    → WebSession
    → Option AdhocPatrolRequest
    → ℕ
    → AdhocTable
    → AdhocTable × AdhocAnswer
handle_update_adhoc_patrol faults r s body id table =
    after_token
      (after_body
        (λ req.
          updated faults id s.osm_user_id
            (update_patrol faults.write id s.osm_user_id req.name req.color table))
        table body)
      table (validate_csrf_token r s)

abbrev deleted : AdhocTable × Option StoreError → AdhocTable × AdhocAnswer
deleted (table, some e) = (table, write_error "delete patrol" e)
deleted (table, none) = (table, no_content)

abbrev pub handle_delete_adhoc_patrol :
    AdhocFaults → AdminRequest → WebSession → ℕ → AdhocTable → AdhocTable × AdhocAnswer
handle_delete_adhoc_patrol faults r s id table =
    after_token (deleted (delete_patrol faults.write id s.osm_user_id table)) table
      (validate_csrf_token r s)

abbrev reset : AdhocTable × Option StoreError → AdhocTable × AdhocAnswer
reset (table, some e) = (table, json_error 500 "internal_error" "Failed to reset scores")
reset (table, none) = (table, json 200 success)

abbrev pub handle_reset_adhoc_scores :
    AdhocFaults → AdminRequest → WebSession → AdhocTable → AdhocTable × AdhocAnswer
handle_reset_adhoc_scores faults r s table =
    after_token (reset (reset_all_scores faults.write s.osm_user_id table)) table
      (validate_csrf_token r s)

abbrev pub method_not_allowed : AdhocAnswer
method_not_allowed = json_error 405 "method_not_allowed" "Method not allowed"

abbrev pub not_authenticated : AdhocAnswer
not_authenticated = json_error 401 "unauthorized" "Not authenticated"

abbrev patrols_of :
    AdhocFaults
    → AdminRequest
    → Option AdhocPatrolRequest
    → AdhocTable
    → Option WebSession
    → AdhocTable × AdhocAnswer
patrols_of faults r body table none = (table, not_authenticated)
patrols_of faults r body table (some s) =
    if str_eq r.method "GET"
    then (table, handle_list_adhoc_patrols faults s.osm_user_id table)
    else if str_eq r.method "POST"
    then handle_create_adhoc_patrol faults r s body table
    else (table, method_not_allowed)

-- `AdminAdhocPatrolsHandler`; `body` is none where it does not decode.
unfoldable pub admin_adhoc_patrols :
    AdhocFaults → AdminRequest → Option AdhocPatrolRequest → AdhocTable → AdhocTable × AdhocAnswer
admin_adhoc_patrols faults r body table = patrols_of faults r body table r.session

-- No row has the identifier 0, with which the sequence does not start, so a negative number, which
-- finds no row, reads as 0.
abbrev pub as_id : ℤ → ℕ
as_id (pos n) = n
as_id (negsuc n) = 0

-- `parse_int` is `strconv.ParseInt` in base 10, none for its error.
module _ (parse_int : String → Option ℤ) where
  abbrev patrol_id :
      AdhocFaults
      → AdminRequest
      → Option AdhocPatrolRequest
      → WebSession
      → AdhocTable
      → Option ℤ
      → AdhocTable × AdhocAnswer
  patrol_id faults r body s table none = (table, json_error 400 "bad_request" "Invalid patrol ID")
  patrol_id faults r body s table (some number) =
      if str_eq r.method "PUT"
      then handle_update_adhoc_patrol faults r s body (as_id number) table
      else if str_eq r.method "DELETE"
      then handle_delete_adhoc_patrol faults r s (as_id number) table
      else (table, method_not_allowed)

  abbrev patrol_of :
      AdhocFaults
      → AdminRequest
      → Option AdhocPatrolRequest
      → AdhocTable
      → Option WebSession
      → AdhocTable × AdhocAnswer
  patrol_of faults r body table none = (table, not_authenticated)
  patrol_of faults r body table (some s) =
      let id = slice r.path 25 (len r.path) in
      if not (starts_with r.path "/api/admin/adhoc/patrols/")
      then (table, json_error 404 "not_found" "Invalid path")
      else if str_eq id "reset" && str_eq r.method "POST"
      then handle_reset_adhoc_scores faults r s table
      else patrol_id faults r body s table (parse_int id)

  -- `AdminAdhocPatrolHandler`
  unfoldable pub admin_adhoc_patrol :
      AdhocFaults → AdminRequest → Option AdhocPatrolRequest → AdhocTable → AdhocTable × AdhocAnswer
  admin_adhoc_patrol faults r body table = patrol_of faults r body table r.session

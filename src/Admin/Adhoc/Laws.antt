-- ===== src/Admin/Adhoc/Laws.antt =====
-- What the pages of internal/handlers/admin_adhoc.go can do to the teams.
use Prim.Native.String.{len, slice}
use text.Mathlib.Text.{starts_with}
use osm_device_adapter.Prelude.{
  ℕ, ◌≡◌, refl, sym, ap, ◌∙◌, subst, String, Bool, true, false, not, ◌&&◌, ◌<◌, Option, none, some,
  str_eq, if◌then◌else◌, ◌⊎◌, inl, inr, if_both,
}
use osm_device_adapter.Prelude.Int.{ℤ, eq_ℤ, two_63}
use osm_device_adapter.Db.Models.{WebSession, AdhocPatrol}
use osm_device_adapter.Db.AdhocPatrols.{
  AdhocTable, StoreError, max_patrols_reached, not_found, database_error, create_patrol,
  update_patrol, delete_patrol, reset_all_scores, no_faults,
}
use osm_device_adapter.Db.AdhocPatrols.Laws.{IsPlacedTable}
use osm_device_adapter.Db.AdhocPatrols.Spec.{
  teams, Write, add_team, rename, remove_team, reset_scores, perform, new_patrol,
}
use osm_device_adapter.Db.AdhocPatrols.Runs.{perform-other}
use osm_device_adapter.Admin.Replies.{json_error, AdminRequest, validate_csrf_token}
use osm_device_adapter.Admin.Adhoc.{
  AdhocPatrolRequest, no_adhoc_faults, AdhocAnswer, after_validation, after_body, after_token,
  created, updated, deleted, reset, validate_adhoc_patrol_request, handle_list_adhoc_patrols,
  method_not_allowed, patrols_of, patrol_of, patrol_id, as_id, admin_adhoc_patrols,
  admin_adhoc_patrol,
}

-- The request carries the token of its session.
abbrev pub token_of : AdminRequest → Option WebSession → Bool
token_of r none = false
token_of r (some s) = not (str_eq r.x_csrf_token "") && str_eq r.x_csrf_token s.csrf_token

abbrev pub carries_token : AdminRequest → Bool
carries_token r = token_of r r.session

-- A table that is left, or written to once by one user.
abbrev pub IsWrite : ℤ → AdhocTable → AdhocTable → Type 0
IsWrite user before after = (after ≡ before) ⊎ ((w : Write) × (after ≡ (perform user w before).0))

-- With the token it may be a write; without, it is none.
abbrev IsAllowed : Bool → ℤ → AdhocTable → AdhocTable × AdhocAnswer → Type 0
IsAllowed true user before (after, answer) = IsWrite user before after
IsAllowed false user before (after, answer) = after ≡ before

same-IsAllowed :
    (b : Bool) (user : ℤ) (table : AdhocTable) (a : AdhocAnswer) → IsAllowed b user table (table, a)
same-IsAllowed true user table a = inl refl
same-IsAllowed false user table a = refl

module _ (r : AdminRequest) (s : WebSession) (table : AdhocTable) where
  after_token-IsAllowed :
      (done : AdhocTable × AdhocAnswer)
      → IsWrite s.osm_user_id table done.0
      → IsAllowed
          (token_of r (some s))
          s.osm_user_id
          table
          (after_token done table (validate_csrf_token r s))
  unfolding validate_csrf_token
  after_token-IsAllowed done write =
      choice (str_eq r.x_csrf_token "") (str_eq r.x_csrf_token s.csrf_token)
    where
      choice :
          (empty same : Bool)
          → IsAllowed (not empty && same) s.osm_user_id table (
              after_token done table (
                if empty
                then some "CSRF token required"
                else if not same
                then some "invalid CSRF token"
                else none))
      choice true same = refl
      choice false true = write
      choice false false = refl

  after_body-IsWrite :
      (go : AdhocPatrolRequest → AdhocTable × AdhocAnswer) (body : Option AdhocPatrolRequest)
      → ((req : AdhocPatrolRequest) → IsWrite s.osm_user_id table (go req).0)
      → IsWrite s.osm_user_id table (after_body go table body).0
  after_body-IsWrite go none writes = inl refl
  after_body-IsWrite go (some req) writes = validated (validate_adhoc_patrol_request req)
    where
      validated :
          (o : String ⊎ AdhocPatrolRequest)
          → IsWrite s.osm_user_id table (after_validation go table o).0
      validated (inl message) = inl refl
      validated (inr valid) = writes valid

created-table : (r : AdhocTable × (StoreError ⊎ AdhocPatrol)) → (created r).0 ≡ r.0
created-table (table, inl max_patrols_reached) = refl
created-table (table, inl not_found) = refl
created-table (table, inl database_error) = refl
created-table (table, inr p) = refl

updated-table :
    (id : ℕ) (user : ℤ) (r : AdhocTable × Option StoreError)
    → (updated no_adhoc_faults id user r).0 ≡ r.0
updated-table id user (table, some e) = refl
updated-table id user (table, none) = refl

deleted-table : (r : AdhocTable × Option StoreError) → (deleted r).0 ≡ r.0
deleted-table (table, some e) = refl
deleted-table (table, none) = refl

reset-table : (r : AdhocTable × Option StoreError) → (reset r).0 ≡ r.0
reset-table (table, some e) = refl
reset-table (table, none) = refl

created-perform :
    (user : ℤ) (name color : String) (table : AdhocTable)
    → (created (create_patrol no_faults (new_patrol user name color) table)).0
      ≡ (perform user (add_team name color) table).0
unfolding perform
created-perform user name color table =
    created-table (create_patrol no_faults (new_patrol user name color) table)

abbrev pub IsAllowedFor :
    AdminRequest → Option WebSession → AdhocTable → AdhocTable × AdhocAnswer → Type 0
IsAllowedFor r none before (after, answer) = after ≡ before
IsAllowedFor r (some s) before result = IsAllowed (token_of r (some s)) s.osm_user_id before result

-- What the list page may do to the table: it writes for the session's user, if the request carries
-- the session's token, or leaves it.
patrols_of-IsAllowed :
    (r : AdminRequest) (body : Option AdhocPatrolRequest) (table : AdhocTable)
    (o : Option WebSession)
    → IsAllowedFor r o table (patrols_of no_adhoc_faults r body table o)
patrols_of-IsAllowed r body table none = refl
patrols_of-IsAllowed r body table (some s) =
    let Good : AdhocTable × AdhocAnswer → Type 0 =
      IsAllowed (token_of r (some s)) s.osm_user_id table in
    let same : (a : AdhocAnswer) → Good (table, a) =
      same-IsAllowed (token_of r (some s)) s.osm_user_id table in
    if_both Good (str_eq r.method "GET")
      (same (handle_list_adhoc_patrols no_adhoc_faults s.osm_user_id table))
      (if_both Good (str_eq r.method "POST")
        (after_token-IsAllowed r s table
          (after_body
            (λ req.
              created (create_patrol no_faults (new_patrol s.osm_user_id req.name req.color) table))
            table body)
          (after_body-IsWrite r s table
            (λ req.
              created (create_patrol no_faults (new_patrol s.osm_user_id req.name req.color) table))
            body
            (λ req. inr (
              add_team req.name req.color,
              created-perform s.osm_user_id req.name req.color table,
            ))))
        (same method_not_allowed))

module _ (parse_int : String → Option ℤ) where
  patrol_id-IsAllowed :
      (r : AdminRequest) (body : Option AdhocPatrolRequest) (s : WebSession) (table : AdhocTable)
      (number : Option ℤ)
      → IsAllowed
          (token_of r (some s))
          s.osm_user_id
          table
          (patrol_id parse_int no_adhoc_faults r body s table number)
  unfolding perform
  patrol_id-IsAllowed r body s table none =
      same-IsAllowed (token_of r (some s)) s.osm_user_id table
        (json_error 400 "bad_request" "Invalid patrol ID")
  patrol_id-IsAllowed r body s table (some number) =
      let id = as_id number in
      let user = s.osm_user_id in
      let Good : AdhocTable × AdhocAnswer → Type 0 = IsAllowed (token_of r (some s)) user table in
      if_both Good (str_eq r.method "PUT")
        (after_token-IsAllowed r s table
          (after_body
            (λ req.
              updated no_adhoc_faults id user
                (update_patrol false id user req.name req.color table))
            table body)
          (after_body-IsWrite r s table
            (λ req.
              updated no_adhoc_faults id user
                (update_patrol false id user req.name req.color table))
            body
            (λ req. inr (
              rename id req.name req.color,
              updated-table id user (update_patrol false id user req.name req.color table),
            ))))
        (if_both Good (str_eq r.method "DELETE")
          (after_token-IsAllowed r s table (deleted (delete_patrol false id user table))
            (inr (remove_team id, deleted-table (delete_patrol false id user table))))
          (same-IsAllowed (token_of r (some s)) user table method_not_allowed))

  patrol_of-IsAllowed :
      (r : AdminRequest) (body : Option AdhocPatrolRequest) (table : AdhocTable)
      (o : Option WebSession)
      → IsAllowedFor r o table (patrol_of parse_int no_adhoc_faults r body table o)
  unfolding perform
  patrol_of-IsAllowed r body table none = refl
  patrol_of-IsAllowed r body table (some s) =
      let id = slice r.path 25 (len r.path) in
      let Good : AdhocTable × AdhocAnswer → Type 0 =
        IsAllowed (token_of r (some s)) s.osm_user_id table in
      if_both Good (not (starts_with r.path "/api/admin/adhoc/patrols/"))
        (same-IsAllowed (token_of r (some s)) s.osm_user_id table
          (json_error 404 "not_found" "Invalid path"))
        (if_both Good (str_eq id "reset" && str_eq r.method "POST")
          (after_token-IsAllowed r s table (reset (reset_all_scores false s.osm_user_id table))
            (inr (reset_scores, reset-table (reset_all_scores false s.osm_user_id table))))
          (patrol_id-IsAllowed r body s table (parse_int id)))

-- The teams of another user, after what one user may have done.
IsWrite-other :
    (user other : ℤ) (before after : AdhocTable)
    → eq_ℤ user other ≡ false
    → IsPlacedTable before
    → before.next_id < two_63
    → IsWrite user before after
    → teams other after ≡ teams other before
IsWrite-other user other before after differs placed fits (inl same) = ap (teams other) same
IsWrite-other user other before after differs placed fits (inr (w, same)) =
    ap (teams other) same ∙ perform-other user other w before differs placed fits

IsAllowed-other :
    (b : Bool) (user other : ℤ) (before : AdhocTable) (result : AdhocTable × AdhocAnswer)
    → eq_ℤ user other ≡ false
    → IsPlacedTable before
    → before.next_id < two_63
    → IsAllowed b user before result
    → teams other result.0 ≡ teams other before
IsAllowed-other true user other before (after, answer) differs placed fits allowed =
    IsWrite-other user other before after differs placed fits allowed
IsAllowed-other false user other before (after, answer) differs placed fits allowed =
    ap (teams other) allowed

-- Where no query fails, no request to the ad-hoc pages, whatever it is, changes the teams of
-- another user than its session's.
pub admin_adhoc-other :
    (parse_int : String → Option ℤ) (r : AdminRequest) (body : Option AdhocPatrolRequest)
    (s : WebSession) (other : ℤ) (table : AdhocTable)
    → r.session ≡ some s
    → eq_ℤ s.osm_user_id other ≡ false
    → IsPlacedTable table
    → table.next_id < two_63
    → (teams other (admin_adhoc_patrols no_adhoc_faults r body table).0 ≡ teams other table)
      × (teams other (admin_adhoc_patrol parse_int no_adhoc_faults r body table).0
          ≡ teams other table)
unfolding admin_adhoc_patrols admin_adhoc_patrol
admin_adhoc-other parse_int r body s other table logged_in differs placed fits = (
  IsAllowed-other (token_of r (some s)) s.osm_user_id other table
      (patrols_of no_adhoc_faults r body table r.session) differs placed fits
      (subst
        (λ o.
          IsAllowed (token_of r (some s)) s.osm_user_id table
            (patrols_of no_adhoc_faults r body table o))
        (sym logged_in) (patrols_of-IsAllowed r body table (some s))),
  IsAllowed-other (token_of r (some s)) s.osm_user_id other table
      (patrol_of parse_int no_adhoc_faults r body table r.session) differs placed fits
      (subst
        (λ o.
          IsAllowed (token_of r (some s)) s.osm_user_id table
            (patrol_of parse_int no_adhoc_faults r body table o))
        (sym logged_in) (patrol_of-IsAllowed parse_int r body table (some s))),
)

untouched :
    (r : AdminRequest) (o : Option WebSession) (before : AdhocTable)
    (result : AdhocTable × AdhocAnswer)
    → IsAllowedFor r o before result
    → token_of r o ≡ false
    → result.0 ≡ before
untouched r none before (after, answer) allowed without = allowed
untouched r (some s) before result allowed without =
    subst (λ b. IsAllowed b s.osm_user_id before result) without allowed

-- Where no query fails, a request without the token of its session changes nothing.
pub admin_adhoc-token :
    (parse_int : String → Option ℤ) (r : AdminRequest) (body : Option AdhocPatrolRequest)
    (table : AdhocTable)
    → carries_token r ≡ false
    → ((admin_adhoc_patrols no_adhoc_faults r body table).0 ≡ table)
      × ((admin_adhoc_patrol parse_int no_adhoc_faults r body table).0 ≡ table)
unfolding admin_adhoc_patrols admin_adhoc_patrol
admin_adhoc-token parse_int r body table without = (
  untouched r r.session table (patrols_of no_adhoc_faults r body table r.session)
      (patrols_of-IsAllowed r body table r.session) without,
  untouched r r.session table (patrol_of parse_int no_adhoc_faults r body table r.session)
      (patrol_of-IsAllowed parse_int r body table r.session) without,
)

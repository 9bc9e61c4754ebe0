-- ===== src/Auth/Web/Laws.antt =====
-- What the sessions of internal/webauth/service.go and internal/middleware/session.go keep.
use Prim.Native.String.{len}
use osm_device_adapter.Prelude.{
  ℕ, ◌+◌, ◌*◌, ◌≤◌, ◌<◌, ◌≡◌, refl, sym, ap, ◌∙◌, ◌&&◌, find?-passes, find?-Mem, String, Bool, true,
  false, not, Option, none, some, arith, ltb, str_eq, eq_iff, eq_refl, if_both,
}
use mathlib.Core.Option
use mathlib.Core.List.{Memᴰ}
use osm_device_adapter.Db.Models.{WebSession, minute}
use osm_device_adapter.Db.WebSessions.{
  WebSessions, find_by_id, with_tokens, update_tokens, update_activity, update_session,
  delete_web_session,
}
use osm_device_adapter.Db.WebSessions.Laws.{find_by_id-update_session, find_by_id-delete}
use osm_device_adapter.Osm.Types.{token_expiry, OsmTokenResponse}
use osm_device_adapter.Osm.Request.{OsmUser}
use osm_device_adapter.Auth.Refresh.{
  OauthAnswer, new_tokens, access_revoked, TokenResult, refreshed, refused, refresh_token,
}
use osm_device_adapter.Auth.Device.{near_expiry}
use osm_device_adapter.Auth.Web.{
  WebFaults, user_of, WebPassage, enters, halts, crashes, with_session, session_middleware,
  is_state_changing, csrf_middleware, touch_session, refresh_web_session_token, after_refresh,
  token_refresh_middleware, then_refresh, admin_middleware,
}

-- What a request that enters is known to have: the session of the cookie, but for its access
-- token, and the user as the session was read.
abbrev pub IsUserOf : WebSession → OsmUser → Option WebSession → Type 0
IsUserOf s user none = ⊥
IsUserOf s user (some found) =
    (s.id ≡ found.id)
    × ((s.osm_user_id ≡ found.osm_user_id)
        × ((s.csrf_token ≡ found.csrf_token) × (user ≡ user_of found)))

abbrev pub IsFor : Option WebSession → WebPassage → Type 0
IsFor found (enters s user) = IsUserOf s user found
IsFor found (halts status message clears) = Unit
IsFor found crashes = Unit

after_refresh-IsFor :
    (s : WebSession) (r : WebSessions × TokenResult)
    → IsFor (some s) (after_refresh s (user_of s) r).1
after_refresh-IsFor s (table, refreshed access) = (refl, (refl, (refl, refl)))
after_refresh-IsFor s (table, refused e) = (refl, (refl, (refl, refl)))

then_refresh-IsFor :
    (faults : WebFaults) (osm : String → OauthAnswer) (now later : ℕ) (table : WebSessions)
    (found : Option WebSession)
    → IsFor found (then_refresh faults osm now later table (with_session found)).1
unfolding token_refresh_middleware
then_refresh-IsFor faults osm now later table none = tt
then_refresh-IsFor faults osm now later table (some s) =
    if_both (λ (r : WebSessions × WebPassage). IsFor (some s) r.1)
      (not (near_expiry now s.osm_token_expiry)) (refl, (refl, (refl, refl)))
      (if_both (λ (r : WebSessions × WebPassage). IsFor (some s) r.1) (ltb (len s.id) 8) tt
        (after_refresh-IsFor s (refresh_web_session_token faults osm later s table)))

-- The request of a cookie that enters has an unexpired session of the table with the cookie's
-- identifier, but for the access token, and the user as that session was read.
abbrev pub IsOf : ℕ → Option String → WebSessions → WebPassage → Type 0
IsOf now cookie table (halts status message clears) = Unit
IsOf now cookie table crashes = Unit
IsOf now cookie table (enters s user) =
    (found : WebSession) × (Memᴰ found table
      × ((cookie ≡ some found.id)
          × ((now < found.expires_at)
              × ((s.id ≡ found.id)
                  × ((s.osm_user_id ≡ found.osm_user_id)
                      × ((s.csrf_token ≡ found.csrf_token) × (user ≡ user_of found)))))))

found-IsOf :
    (now : ℕ) (id : String) (table : WebSessions) (o : Option WebSession) (p : WebPassage)
    → find_by_id now id table ≡ o
    → IsFor o p
    → IsOf now (some id) table p
unfolding find_by_id
found-IsOf now id table o (halts status message clears) e v = tt
found-IsOf now id table o crashes e v = tt
found-IsOf now id table none (enters s user) e v = elim v [ ]
found-IsOf now id table (some found) (enters s user) e v =
    let passes = find?-passes (λ s. str_eq s.id id && ltb now s.expires_at) table found e in
    let same : found.id ≡ id = ground (arith, passes, eq_iff found.id id) in
    (
      found,
      (
        find?-Mem (λ s. str_eq s.id id && ltb now s.expires_at) table found e,
        (ap some (sym same), (ground (arith, passes), v)),
      ),
    )

-- Whatever the faults and OSM's answers, a request reaches an admin page only with a session that
-- stands in the table under the identifier of the request's cookie and expires after now, and as
-- that session's user; so none without a cookie does.
pub admin_middleware-IsOf :
    (faults : WebFaults) (osm : String → OauthAnswer) (now later : ℕ) (cookie : Option String)
    (table : WebSessions)
    → IsOf now cookie table (admin_middleware faults osm now later cookie table).1
unfolding admin_middleware session_middleware
admin_middleware-IsOf faults osm now later none table = tt
admin_middleware-IsOf faults osm now later (some id) table =
    let found = find_by_id now id table in
    let Good : WebPassage → Type 0 =
      (λ p. IsFor found (then_refresh faults osm now later table p).1) in
    found-IsOf now id table found (admin_middleware faults osm now later (some id) table).1 refl (
      if_both Good (str_eq id "") tt
        (if_both Good faults.find tt (then_refresh-IsFor faults osm now later table found)))

-- The note of a session's activity changes neither which sessions are found nor until when.
pub find_by_id-touch_session :
    (fault : Bool) (now later : ℕ) (k j : String) (table rows : WebSessions)
    → touch_session fault later k table ≡ some rows
    → Option.map (λ s. s.expires_at) (find_by_id now j rows)
      ≡ Option.map (λ s. s.expires_at) (find_by_id now j table)
unfolding touch_session update_activity
find_by_id-touch_session fault now later k j table rows h = ground (
  arith,
  h,
  find_by_id-update_session now k j (λ s. record s { last_activity = later }) table
      (λ s. (refl, refl)),
)

-- A request that changes something and passes carries the token of its session, which is not empty.
pub csrf_middleware-passes :
    (method token : String) (s : WebSession)
    → is_state_changing method ≡ true
    → csrf_middleware method (some s) token ≡ none
    → (token ≡ s.csrf_token) × (str_eq token "" ≡ false)
unfolding csrf_middleware
csrf_middleware-passes method token s changes passes =
    (ground (arith, changes, passes, eq_iff token s.csrf_token), ground (arith, changes, passes))

-- A request whose token is about to expire, with a session whose identifier can be cut for the log.
abbrev pub NeedsRefresh : WebFaults → ℕ → String → WebSessions → WebSession → Type 0
NeedsRefresh faults now id table s =
    (find_by_id now id table ≡ some s)
    × ((str_eq id "" ≡ false)
        × ((ltb (len s.id) 8 ≡ false)
            × ((near_expiry now s.osm_token_expiry ≡ true)
                × ((str_eq s.osm_refresh_token "" ≡ false) × (faults.find ≡ false)))))

admin_middleware-refreshes :
    (faults : WebFaults) (osm : String → OauthAnswer) (now later : ℕ) (id : String)
    (table : WebSessions) (s : WebSession)
    → NeedsRefresh faults now id table s
    → admin_middleware faults osm now later (some id) table
      ≡ after_refresh s (user_of s) (refresh_web_session_token faults osm later s table)
unfolding admin_middleware session_middleware token_refresh_middleware
admin_middleware-refreshes faults osm now later id table s
      (found, (full, (long, (near, (some_refresh, finds))))) =
    rw (full, finds, found, near, long)

-- A user who has revoked the access at OSM: the request that finds this out still enters, with the
-- old token, and its session is deleted, so every later request is refused and loses its cookie.
pub admin_middleware-revoked :
    (faults later_faults : WebFaults) (osm later_osm : String → OauthAnswer)
    (now later now' later' : ℕ) (table : WebSessions) (s : WebSession)
    → NeedsRefresh faults now s.id table s
    → osm s.osm_refresh_token ≡ access_revoked
    → faults.delete ≡ false
    → later_faults.find ≡ false
    → ((admin_middleware faults osm now later (some s.id) table).1 ≡ enters s (user_of s))
      × ((admin_middleware later_faults later_osm now' later'
            (some s.id)
            (admin_middleware faults osm now later (some s.id) table).0).1
          ≡ halts 401 "Unauthorized" true)
unfolding admin_middleware session_middleware refresh_web_session_token refresh_token
admin_middleware-revoked faults later_faults osm later_osm now later now' later' table s needs gone
      deletes finds =
    let full = needs.1.0 in
    let some_refresh = needs.1.1.1.1.0 in
    let first : admin_middleware faults osm now later (some s.id) table
        ≡ (delete_web_session s.id table, enters s (user_of s)) =
      admin_middleware-refreshes faults osm now later s.id table s needs
      ∙ rw (some_refresh, gone, deletes) in
    (
      ap (λ (r : WebSessions × WebPassage). r.1) first,
      ap
            (λ (r : WebSessions × WebPassage).
              (admin_middleware later_faults later_osm now' later' (some s.id) r.0).1)
            first
          ∙ rw (full, finds, find_by_id-delete now' s.id s.id table, eq_refl s.id),
    )

-- A refreshed token reaches the handler in the session, is stored, and is what the next request
-- has; but the user that the first request's context has beside the session keeps the old token.
pub admin_middleware-refreshed :
    (faults later_faults : WebFaults) (osm later_osm : String → OauthAnswer)
    (now later now' later' : ℕ) (table : WebSessions) (s : WebSession) (tokens : OsmTokenResponse)
    → NeedsRefresh faults now s.id table s
    → osm s.osm_refresh_token ≡ new_tokens tokens
    → faults.update_tokens ≡ false
    → later_faults.find ≡ false
    → now' + 5 * minute ≤ token_expiry later tokens.expires_in
    → find_by_id now' s.id table ≡ some s
    → ((admin_middleware faults osm now later (some s.id) table).1
        ≡ enters (record s { osm_access_token = tokens.access_token }) (user_of s))
      × ((admin_middleware later_faults later_osm now' later'
            (some s.id)
            (admin_middleware faults osm now later (some s.id) table).0).1
          ≡ enters
              (with_tokens tokens.access_token tokens.refresh_token
                (token_expiry later tokens.expires_in)
                s)
              (record { user_id = some s.osm_user_id; access_token = tokens.access_token }))
unfolding admin_middleware session_middleware refresh_web_session_token refresh_token update_tokens
    token_refresh_middleware
admin_middleware-refreshed faults later_faults osm later_osm now later now' later' table s tokens
      needs good writes finds early alive =
    let full = needs.1.0 in
    let some_refresh = needs.1.1.1.1.0 in
    let new_session =
      with_tokens tokens.access_token tokens.refresh_token (token_expiry later tokens.expires_in) in
    let first : admin_middleware faults osm now later (some s.id) table ≡ (
      update_session s.id new_session table,
      enters (record s { osm_access_token = tokens.access_token }) (user_of s),
    ) =
      admin_middleware-refreshes faults osm now later s.id table s needs
      ∙ rw (some_refresh, good, writes) in
    let fresh : ltb (token_expiry later tokens.expires_in) (now' + 5 * minute) ≡ false =
      ground (arith, early) in
    (
      ap (λ (r : WebSessions × WebPassage). r.1) first,
      ap
            (λ (r : WebSessions × WebPassage).
              (admin_middleware later_faults later_osm now' later' (some s.id) r.0).1)
            first
          ∙ rw (
            full,
            finds,
            find_by_id-update_session now' s.id s.id new_session table (λ x. (refl, refl)),
            eq_refl s.id,
            alive,
            fresh,
          ),
    )

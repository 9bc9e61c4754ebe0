-- ===== src/Db/WebSessions/Laws.antt =====
-- How `FindByID` sees the writes of the web session store.
use osm_device_adapter.Prelude.{
  ℕ, ◌≡◌, refl, String, false, ◌&&◌, none, some, [], ◌∷◌, arith, ltb, str_eq, eq_iff, if◌then◌else◌,
}
use mathlib.Core.Option
use osm_device_adapter.Prelude.Int.{ℤ, eq_ℤ}
use osm_device_adapter.Db.Models.{WebSession}
use osm_device_adapter.Db.WebSessions.{
  WebSessions, create_web_session, find_by_id, update_session, delete_web_session,
  delete_expired_web_sessions, delete_by_user_id,
}

-- A write to one session that keeps its key and its expiry changes what is found under that key,
-- and nothing else.
pub find_by_id-update_session :
    (now : ℕ) (k j : String) (f : WebSession → WebSession) (table : WebSessions)
    → ((s : WebSession) → ((f s).id ≡ s.id) × ((f s).expires_at ≡ s.expires_at))
    → find_by_id now j (update_session k f table)
      ≡ (if str_eq k j then Option.map f (find_by_id now j table) else find_by_id now j table)
unfolding find_by_id
find_by_id-update_session now k j f [] keeps = ground arith
find_by_id-update_session now k j f (s ∷ ss) keeps = ground (
  arith,
  keeps s,
  eq_iff k j,
  eq_iff s.id k,
  eq_iff s.id j,
  find_by_id-update_session now k j f ss keeps,
)

-- A deleted session is found no more, and no other session is touched.
pub find_by_id-delete :
    (now : ℕ) (k j : String) (table : WebSessions)
    → find_by_id now j (delete_web_session k table)
      ≡ (if str_eq k j then none else find_by_id now j table)
unfolding find_by_id delete_web_session
find_by_id-delete now k j [] = ground arith
find_by_id-delete now k j (s ∷ ss) =
    ground (arith, eq_iff k j, eq_iff s.id k, eq_iff s.id j, find_by_id-delete now k j ss)

-- A new session is found until it expires.
pub find_by_id-create :
    (now : ℕ) (s : WebSession) (table rows : WebSessions) (j : String)
    → create_web_session s table ≡ some rows
    → find_by_id now j rows
      ≡ (if str_eq s.id j && ltb now s.expires_at then some s else find_by_id now j table)
unfolding create_web_session find_by_id
find_by_id-create now s table rows j h = ground arith

-- The clean-up of expired sessions takes no session away that a request could still use.
pub find_by_id-delete_expired :
    (now : ℕ) (j : String) (table : WebSessions)
    → find_by_id now j (delete_expired_web_sessions now table) ≡ find_by_id now j table
unfolding find_by_id delete_expired_web_sessions
find_by_id-delete_expired now j [] = refl
find_by_id-delete_expired now j (s ∷ ss) = ground (arith, find_by_id-delete_expired now j ss)

-- After a logout everywhere no session of the user is found.
pub find_by_id-delete_by_user :
    (now : ℕ) (j : String) (user : ℤ) (table : WebSessions) (s : WebSession)
    → find_by_id now j (delete_by_user_id user table) ≡ some s
    → eq_ℤ s.osm_user_id user ≡ false
unfolding find_by_id delete_by_user_id
find_by_id-delete_by_user now j user [] s h = cc
find_by_id-delete_by_user now j user (x ∷ xs) s h =
    ground (arith, find_by_id-delete_by_user now j user xs s)

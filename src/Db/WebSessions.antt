-- ===== src/Db/WebSessions.antt =====
-- internal/db/websession/store.go. As for the device codes, each operation gives the table that it
-- leaves, and `time.Now()` is an argument.
pub mod Laws
use osm_device_adapter.Prelude.{
  ℕ, String, not, ◌&&◌, Option, none, some, List, [], ◌∷◌, ltb, str_eq, if◌then◌else◌, find?,
  filter,
}
use osm_device_adapter.Prelude.Int.{ℤ, eq_ℤ}
use osm_device_adapter.Db.Models.{WebSession}

abbrev pub WebSessions : Type 0
WebSessions = List WebSession

-- `none` is the primary key's error.
unfoldable pub create_web_session : WebSession → WebSessions → Option WebSessions
create_web_session session table = elim (find? (λ s. str_eq s.id session.id) table) [
  | none ↦ some (session ∷ table)
  | some _ ↦ none
]

-- `WHERE id = ? AND expires_at > ?`
unfoldable pub find_by_id : ℕ → String → WebSessions → Option WebSession
find_by_id now session_id table = find? (λ s. str_eq s.id session_id && ltb now s.expires_at) table

-- `UPDATE ... WHERE id = ?`
abbrev pub update_session : String → (WebSession → WebSession) → WebSessions → WebSessions
update_session session_id f [] = []
update_session session_id f (s ∷ ss) =
    (if str_eq s.id session_id then f s else s) ∷ update_session session_id f ss

unfoldable pub update_activity : ℕ → String → WebSessions → WebSessions
update_activity now session_id table =
    update_session session_id (λ s. record s { last_activity = now }) table

abbrev pub with_tokens : String → String → ℕ → WebSession → WebSession
with_tokens access refresh expiry s = record s {
  osm_access_token = access;
  osm_refresh_token = refresh;
  osm_token_expiry = expiry;
}

unfoldable pub update_tokens : String → String → String → ℕ → WebSessions → WebSessions
update_tokens session_id access refresh expiry table =
    update_session session_id (with_tokens access refresh expiry) table

unfoldable pub update_section : String → ℤ → WebSessions → WebSessions
update_section session_id section table =
    update_session session_id (λ s. record s { selected_section_id = some section }) table

unfoldable pub delete_web_session : String → WebSessions → WebSessions
delete_web_session session_id table = filter (λ s. not (str_eq s.id session_id)) table

unfoldable pub delete_expired_web_sessions : ℕ → WebSessions → WebSessions
delete_expired_web_sessions now table = filter (λ s. not (ltb s.expires_at now)) table

unfoldable pub delete_by_user_id : ℤ → WebSessions → WebSessions
delete_by_user_id user table = filter (λ s. not (eq_ℤ s.osm_user_id user)) table

-- ===== src/Db/Sessions.antt =====
-- internal/db/devicesession/store.go, internal/db/websession/store.go and
-- internal/db/allowedclient/store.go.
use osm_device_adapter.Prelude.{
  ℕ, String, not, ◌&&◌, Option, none, some, List, ◌∷◌, ltb, str_eq, find?, filter,
}
use osm_device_adapter.Db.Models.{DeviceSession, AllowedClientId}

abbrev pub DeviceSessions : Type 0
DeviceSessions = List DeviceSession

-- `none` is the primary key's error.
unfoldable pub create_device_session : DeviceSession → DeviceSessions → Option DeviceSessions
create_device_session session table =
    elim (find? (λ s. str_eq s.session_id session.session_id) table) [
      | none ↦ some (session ∷ table)
      | some _ ↦ none
    ]

unfoldable pub find_device_session : ℕ → String → DeviceSessions → Option DeviceSession
find_device_session now id table = find? (λ s. str_eq s.session_id id && ltb now s.expires_at) table

unfoldable pub delete_expired_device_sessions : ℕ → DeviceSessions → DeviceSessions
delete_expired_device_sessions now table = filter (λ s. not (ltb s.expires_at now)) table

unfoldable pub delete_device_session : String → DeviceSessions → DeviceSessions
delete_device_session id table = filter (λ s. not (str_eq s.session_id id)) table

-- The id of the enabled client, `none` where the source answers `false, 0`.
unfoldable pub is_allowed : String → List AllowedClientId → Option ℕ
is_allowed client_id table = elim (find? (λ c. str_eq c.client_id client_id && c.enabled) table) [
  | none ↦ none
  | some c ↦ some c.id
]

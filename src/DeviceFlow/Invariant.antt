-- ===== src/DeviceFlow/Invariant.antt =====
-- What every history of the device flow keeps: a device code that is authorized, or awaits its
-- section, has a row in the table of sessions. Here: the predicate, and what the writes of the
-- tables do to it.
mod Handlers
pub mod Entries
pub mod History
use osm_device_adapter.Prelude.{
  ℕ, ◌≡◌, refl, sym, ap, subst, String, Bool, true, false, not, ◌&&◌, ◌||◌, Option, none, some,
  List, [], ◌∷◌, arith, str_eq, eq_iff, eq_refl, if◌then◌else◌, find?, All, if_both, if_split,
  Option-cases, inl, inr,
}
use osm_device_adapter.Prelude.Int.{ℤ}
use osm_device_adapter.Db.Models.{
  Status, pending, awaiting_section, authorized, denied, revoked, DeviceCode, DeviceSession,
}
use osm_device_adapter.Db.DeviceCodes.{
  Table, create, update_status, update_with_tokens, with_section, update_with_section, update_where,
}
use osm_device_adapter.Db.DeviceCodes.Laws.{All-update_where, create-rows, update_with_section-rows}
use osm_device_adapter.Db.Sessions.{DeviceSessions, create_device_session, find_device_session}
use osm_device_adapter.DeviceFlow.World.{
  World, Reply, Faults, Config, RemoteMetadata, attempt, attempt_write, blocked,
}
use osm_device_adapter.DeviceFlow.Token.{TokenCall, device_token}
use osm_device_adapter.DeviceFlow.Token.Laws.{device_token_reads_only}
use osm_device_adapter.DeviceFlow.Authorize.{
  AuthorizeCall, Randomness, Instants, new_record, device_authorize,
}
use osm_device_adapter.DeviceFlow.Web.{
  EntryCall, ConfirmCall, oauth_authorize, oauth_confirm, oauth_cancel,
}
use osm_device_adapter.DeviceFlow.Web.Authorization.{
  CallbackCall, OsmAnswers, SelectCall, mark_device_code_status, oauth_callback,
  oauth_select_section,
}

-- Whether a session was opened for the device code, expired or not.
pub has_session : String → DeviceSessions → Bool
has_session code [] = false
has_session code (s ∷ ss) = str_eq s.device_code code || has_session code ss

-- The status is `authorized` or `awaiting_section`.
abbrev is_linked : Status → Bool
is_linked authorized = true
is_linked awaiting_section = true
is_linked _ = false

abbrev Entered : DeviceSessions → DeviceCode → Type 0
Entered sessions r = is_linked r.status ≡ true → has_session r.device_code sessions ≡ true

pub record IsLinked (w : World) : Type 0 where
  pub entered : All (Entered w.sessions) w.codes

has_session-find :
    (now : ℕ) (id : String) (sessions : DeviceSessions) (s : DeviceSession)
    → find_device_session now id sessions ≡ some s
    → has_session s.device_code sessions ≡ true
unfolding find_device_session has_session
has_session-find now id [] s h = cc
has_session-find now id (x ∷ xs) s h =
    ground (arith, eq_refl s.device_code, has_session-find now id xs s)

has_session-create :
    (code : String) (s : DeviceSession) (sessions rows : DeviceSessions)
    → create_device_session s sessions ≡ some rows
    → has_session code sessions ≡ true
    → has_session code rows ≡ true
unfolding create_device_session has_session
has_session-create code s sessions rows h k = ground arith

All-imp {ℓ} :
    {A : Type ℓ} (P Q : A → Type 0) (xs : List A) → ((x : A) → P x → Q x) → All P xs → All Q xs
All-imp P Q [] f h = tt
All-imp P Q (x ∷ xs) f h = (f x h.0, All-imp P Q xs f h.1)

-- Writing to the rows of a code that has a session, or writing an unlinked status, keeps it.
Entered-update_where :
    (sessions : DeviceSessions) (code : String) (f : DeviceCode → DeviceCode) (codes : Table)
    → ((r : DeviceCode) → (f r).device_code ≡ r.device_code)
    → has_session code sessions ≡ true
    → All (Entered sessions) codes
    → All (Entered sessions) (update_where code f codes)
Entered-update_where sessions code f codes keeps has h =
    All-update_where (Entered sessions) code f codes
      (λ r e p linked. rw (keeps r) (rw ((eq_iff r.device_code code).0 e) has)) h

Entered-denied :
    (sessions : DeviceSessions) (code : String) (codes : Table)
    → All (Entered sessions) codes
    → All (Entered sessions) (update_status code denied codes)
unfolding update_status
Entered-denied sessions code codes h =
    All-update_where (Entered sessions) code (λ r. record r { status = denied }) codes
      (λ r e p linked. cc) h

Entered-create :
    (sessions : DeviceSessions) (row : DeviceCode) (codes rows : Table)
    → row.status ≡ pending
    → create row codes ≡ some rows
    → All (Entered sessions) codes
    → All (Entered sessions) rows
Entered-create sessions row codes rows p h all =
    subst (All (Entered sessions)) (sym (create-rows row codes rows h)) ((λ linked. cc), all)

Entered-tokens :
    (sessions : DeviceSessions) (now : ℕ) (id : String) (s : DeviceSession) (status : Status)
    (access refresh : String) (expiry : ℕ) (user : ℤ) (codes : Table)
    → find_device_session now id sessions ≡ some s
    → All (Entered sessions) codes
    → All
        (Entered sessions)
        (update_with_tokens s.device_code status access refresh expiry user codes)
unfolding update_with_tokens
Entered-tokens sessions now id s status access refresh expiry user codes e h =
    Entered-update_where sessions s.device_code _ codes (λ r. refl)
      (has_session-find now id sessions s e) h

Entered-section :
    (sessions : DeviceSessions) (now : ℕ) (id : String) (s : DeviceSession) (status : Status)
    (section : ℤ) (token : String) (codes rows : Table)
    → find_device_session now id sessions ≡ some s
    → update_with_section s.device_code status section token codes ≡ some rows
    → All (Entered sessions) codes
    → All (Entered sessions) rows
Entered-section sessions now id s status section token codes rows e written h =
    subst (All (Entered sessions))
      (sym (update_with_section-rows s.device_code status section token codes rows written))
      (Entered-update_where sessions s.device_code _ codes (λ r. refl)
        (has_session-find now id sessions s e) h)

Entered-session :
    (s : DeviceSession) (sessions rows : DeviceSessions) (codes : Table)
    → create_device_session s sessions ≡ some rows
    → All (Entered sessions) codes
    → All (Entered rows) codes
Entered-session s sessions rows codes written h =
    All-imp (Entered sessions) (Entered rows) codes
      (λ r p linked. has_session-create r.device_code s sessions rows written (p linked)) h

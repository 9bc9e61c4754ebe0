-- ===== src/DeviceFlow/Invariant/Entries.antt =====
-- Where the sessions of the device flow come from: the entries of user codes.
use osm_device_adapter.Prelude.{
  ℕ, ◌≡◌, refl, sym, subst, String, Bool, true, false, ◌||◌, Option, none, some, List, [], ◌∷◌,
  ◌++◌, arith, str_eq, eq_iff, eq_refl, filter, All, All-imp, if_split,
}
use osm_device_adapter.Prelude.TextSet.{member}
use osm_device_adapter.Db.Models.{DeviceCode, DeviceSession}
use osm_device_adapter.Db.DeviceCodes.{Table, find_by_user_code}
use osm_device_adapter.Db.Sessions.{DeviceSessions, create_device_session}
use osm_device_adapter.DeviceFlow.World.{World, Faults, Config}
use osm_device_adapter.DeviceFlow.UserCode.{normalize_user_code}
use osm_device_adapter.DeviceFlow.Token.Laws.{device_token_reads_only}
use osm_device_adapter.DeviceFlow.Authorize.{AuthorizeCall, Randomness, Instants, device_authorize}
use osm_device_adapter.DeviceFlow.Web.{
  EntryCall, ConfirmCall, oauth_authorize, oauth_confirm, oauth_cancel,
}
use osm_device_adapter.DeviceFlow.Web.Authorization.{
  CallbackCall, OsmAnswers, SelectCall, mark_device_code_status, oauth_callback,
  oauth_select_section,
}
use osm_device_adapter.DeviceFlow.Events.{
  Event, authorizes, polls, enters, confirms, cancels, calls_back, selects, step, run,
}
use osm_device_adapter.DeviceFlow.Invariant.{Entered, is_linked, has_session}

-- The device code of the row that a user code finds.
abbrev pub row_code : Option DeviceCode → List String
row_code none = []
row_code (some r) = r.device_code ∷ []

abbrev pub code_entered : ℕ → Table → Option (List ℕ) → List String
code_entered now codes none = []
code_entered now codes (some user_code) = row_code (find_by_user_code now user_code codes)

-- The device codes whose user code has been entered on the page, the last one first.
abbrev pub entered_by : World → Event → List String
entered_by w (enters faults now random call) =
    code_entered now w.codes (normalize_user_code call.user_code)
entered_by w (authorizes faults now at random call) = []
entered_by w (polls faults now later call) = []
entered_by w (confirms faults now call) = []
entered_by w (cancels faults now user_code) = []
entered_by w (calls_back faults now later call osm) = []
entered_by w (selects faults now random call) = []

unfoldable pub entries : Config → World → List Event → List String → List String
entries cfg w [] past = past
entries cfg w (e ∷ es) past = entries cfg (step cfg w e) es (entered_by w e ++ past)

abbrev pub HasOrigin : List String → DeviceSessions → Type 0
HasOrigin past sessions = All (λ s. member s.device_code past ≡ true) sessions

oauth_cancel-sessions :
    (faults : Faults) (now : ℕ) (w : World) (user_code : List ℕ)
    → (oauth_cancel faults now w user_code).0.sessions ≡ w.sessions
unfolding oauth_cancel
oauth_cancel-sessions faults now w user_code = ground arith

oauth_confirm-sessions :
    (faults : Faults) (now : ℕ) (w : World) (call : ConfirmCall)
    → (oauth_confirm faults now w call).0.sessions ≡ w.sessions
unfolding oauth_confirm
oauth_confirm-sessions faults now w call = ground arith

oauth_callback-sessions :
    (faults : Faults) (now later : ℕ) (w : World) (call : CallbackCall) (osm : OsmAnswers)
    → (oauth_callback faults now later w call osm).0.sessions ≡ w.sessions
unfolding oauth_callback mark_device_code_status
oauth_callback-sessions faults now later w call osm = ground arith

oauth_select_section-sessions :
    (faults : Faults) (now : ℕ) (random : Option String) (w : World) (call : SelectCall)
    → (oauth_select_section faults now random w call).0.sessions ≡ w.sessions
unfolding oauth_select_section
oauth_select_section-sessions faults now random w call = ground arith

device_authorize-sessions :
    (cfg : Config) (faults : Faults) (now : ℕ) (at : Instants) (random : Randomness) (w : World)
    (call : AuthorizeCall)
    → (device_authorize cfg faults now at random w call).0.sessions ≡ w.sessions
unfolding device_authorize
device_authorize-sessions cfg faults now at random w call = ground arith

created_for :
    (past : List String) (s : DeviceSession) (sessions rows : DeviceSessions)
    → create_device_session s sessions ≡ some rows
    → member s.device_code past ≡ true
    → HasOrigin past sessions
    → HasOrigin past rows
unfolding create_device_session
created_for past s sessions rows h k all =
    let same : s ∷ sessions ≡ rows = ground (arith, h) in subst (HasOrigin past) same (k, all)

oauth_authorize-HasOrigin :
    (cfg : Config) (faults : Faults) (now : ℕ) (random : Option String) (w : World)
    (call : EntryCall) (past : List String)
    → HasOrigin past w.sessions
    → ((user_code : List ℕ) (r : DeviceCode)
        → normalize_user_code call.user_code ≡ some user_code
        → find_by_user_code now user_code w.codes ≡ some r
        → member r.device_code past ≡ true)
    → HasOrigin past (oauth_authorize cfg faults now random w call).0.sessions
unfolding oauth_authorize
oauth_authorize-HasOrigin cfg faults now random w call past v found =
    grind (arith, created_for, v, found)

member-append : (k : String) (xs ys : List String) → member k ys ≡ true → member k (xs ++ ys) ≡ true
unfolding member
member-append k [] ys h = h
member-append k (x ∷ xs) ys h = ground (arith, member-append k xs ys h)

HasOrigin-more :
    (more past : List String) (sessions : DeviceSessions)
    → HasOrigin past sessions
    → HasOrigin (more ++ past) sessions
HasOrigin-more more past sessions v =
    All-imp sessions (λ s. member-append s.device_code more past) v

entered-found :
    (now : ℕ) (codes : Table) (past : List String) (o : Option (List ℕ)) (user_code : List ℕ)
    (r : DeviceCode)
    → o ≡ some user_code
    → find_by_user_code now user_code codes ≡ some r
    → member r.device_code (code_entered now codes o ++ past) ≡ true
unfolding member
entered-found now codes past none user_code r e h = cc
entered-found now codes past (some n) user_code r e h =
    let same : n ≡ user_code = cc in rw (same, h) (ground (arith, eq_refl r.device_code))

step-HasOrigin :
    (cfg : Config) (w : World) (e : Event) (past : List String)
    → HasOrigin past w.sessions
    → HasOrigin (entered_by w e ++ past) (step cfg w e).sessions
unfolding step
step-HasOrigin cfg w (enters faults now random call) past v =
    let more = code_entered now w.codes (normalize_user_code call.user_code) in
    oauth_authorize-HasOrigin cfg faults now random w call (more ++ past)
      (HasOrigin-more more past w.sessions v)
      (λ user_code r.
        entered-found now w.codes past (normalize_user_code call.user_code) user_code r)
step-HasOrigin cfg w (authorizes faults now at random call) past v =
    subst (HasOrigin past) (sym (device_authorize-sessions cfg faults now at random w call)) v
step-HasOrigin cfg w (polls faults now later call) past v =
    let (codes, sessions, _) = device_token_reads_only cfg faults now later w call in
    subst (HasOrigin past) (sym sessions) v
step-HasOrigin cfg w (confirms faults now call) past v =
    subst (HasOrigin past) (sym (oauth_confirm-sessions faults now w call)) v
step-HasOrigin cfg w (cancels faults now user_code) past v =
    subst (HasOrigin past) (sym (oauth_cancel-sessions faults now w user_code)) v
step-HasOrigin cfg w (calls_back faults now later call osm) past v =
    subst (HasOrigin past) (sym (oauth_callback-sessions faults now later w call osm)) v
step-HasOrigin cfg w (selects faults now random call) past v =
    subst (HasOrigin past) (sym (oauth_select_section-sessions faults now random w call)) v

pub run-HasOrigin :
    (cfg : Config) (w : World) (es : List Event) (past : List String)
    → HasOrigin past w.sessions
    → HasOrigin (entries cfg w es past) (run cfg w es).sessions
unfolding run entries
run-HasOrigin cfg w [] past v = v
run-HasOrigin cfg w (e ∷ es) past v =
    run-HasOrigin cfg (step cfg w e) es (entered_by w e ++ past) (step-HasOrigin cfg w e past v)

has_session-origin :
    (code : String) (past : List String) (sessions : DeviceSessions)
    → has_session code sessions ≡ true
    → HasOrigin past sessions
    → member code past ≡ true
unfolding has_session
has_session-origin code past [] h v = cc
has_session-origin code past (s ∷ ss) h (k, ks) =
    chosen (λ later. has_session-origin code past ss later ks) (str_eq s.device_code code) refl h
  where
    chosen :
        (has_session code ss ≡ true → member code past ≡ true)
        → (b : Bool) → str_eq s.device_code code ≡ b
        → (b || has_session code ss) ≡ true
        → member code past ≡ true
    chosen later true e h = subst (λ c. member c past ≡ true) ((eq_iff s.device_code code).0 e) k
    chosen later false e h = later h

-- The rows that are authorized or await their section.
abbrev pub linked_rows : Table → Table
linked_rows codes = filter (λ r. is_linked r.status) codes

pub linked-All :
    (past : List String) (sessions : DeviceSessions) (codes : Table)
    → All (Entered sessions) codes
    → HasOrigin past sessions
    → All (λ r. member r.device_code past ≡ true) (linked_rows codes)
linked-All past sessions [] all v = tt
linked-All past sessions (r ∷ rs) (here, all) v =
    let rest = linked-All past sessions rs all v in
    if_split (λ (t : Table). All (λ r. member r.device_code past ≡ true) t) (is_linked r.status)
      (λ e. (has_session-origin r.device_code past sessions (here e) v, rest)) (λ e. rest)

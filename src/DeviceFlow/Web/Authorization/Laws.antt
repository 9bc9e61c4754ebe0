-- ===== src/DeviceFlow/Web/Authorization/Laws.antt =====
-- What the pages do to a device code, and that the token endpoint then agrees.
use mathlib.Core.Option
use osm_device_adapter.Prelude.{
  ℕ, ◌≤◌, ◌≡◌, refl, sym, ap, ◌∙◌, String, Bool, true, false, ◌||◌, Option, none, some, arith,
  str_eq, eq_refl, inl, inr, Bool-cases,
}
use osm_device_adapter.Prelude.Int.{ℤ}
use osm_device_adapter.Db.Models.{authorized, DeviceCode, DeviceSession}
use osm_device_adapter.Db.DeviceCodes.{Table, find_by_code, with_section, update_with_section}
use osm_device_adapter.Db.DeviceCodes.Laws.{find_by_code-update_where}
use osm_device_adapter.Db.Sessions.{find_device_session}
use osm_device_adapter.DeviceFlow.World.{
  World, Faults, Config, blocked, token_issued, auth_success, page, attempt,
}
use osm_device_adapter.DeviceFlow.Token.{
  DeviceTokenRequest, TokenCall, device_code_grant, device_token,
}
use osm_device_adapter.DeviceFlow.Token.Laws.{ip_check, poll_check, device_token-Grants}
use osm_device_adapter.DeviceFlow.Web.Authorization.{
  SelectCall, select_token, select_session, select_number, oauth_select_section,
}

update_with_section-find :
    (code token : String) (section : ℤ) (table rows : Table)
    → update_with_section code authorized section token table ≡ some rows
    → find_by_code code rows
      ≡ Option.map (with_section authorized section token) (find_by_code code table)
unfolding update_with_section
update_with_section-find code token section table rows h = ground (
  arith,
  eq_refl code,
  find_by_code-update_where code code (with_section authorized section token) table (λ r. refl),
)

select_token-success :
    (faults : Faults) (w : World) (s : DeviceSession) (section : ℤ) (random : Option String)
    → (select_token faults w s section random).1 ≡ page 200 auth_success
    → (token : String) × (random ≡ some token)
      × (update_with_section s.device_code authorized section token w.codes
          ≡ some (select_token faults w s section random).0.codes)
unfolding select_token
select_token-success faults w s section none h = cc
select_token-success faults w s section (some token) h = (token, refl, ground arith)

select_number-success :
    (faults : Faults) (now : ℕ) (w : World) (call : SelectCall) (random : Option String)
    (number : Option ℤ) (s : DeviceSession)
    → (select_number faults now w call random number).1 ≡ page 200 auth_success
    → find_device_session now call.session_id w.sessions ≡ some s
    → (section : ℤ) × (number ≡ some section)
      × (select_number faults now w call random number ≡ select_token faults w s section random)
unfolding select_number select_session
select_number-success faults now w call random none s h e = cc
select_number-success faults now w call random (some section) s h e =
    (section, refl, rw e (session faults.find_session (rw e at h)))
  where
    session :
        (down : Bool)
        → (select_session faults w section random (attempt down (some s))).1 ≡ page 200 auth_success
        → select_session faults w section random (attempt down (some s))
          ≡ select_token faults w s section random
    session true h' = cc
    session false h' = refl

oauth_select_section-passes :
    (faults : Faults) (now : ℕ) (random : Option String) (w : World) (call : SelectCall)
    → (oauth_select_section faults now random w call).1 ≡ page 200 auth_success
    → oauth_select_section faults now random w call
      ≡ select_number faults now w call random call.section_number
unfolding oauth_select_section
oauth_select_section-passes faults now random w call h = elim (Bool-cases call.is_post) [
  | inl posted ↦ elim (Bool-cases (str_eq call.session_id "" || str_eq call.section_id "")) [
    | inl missing ↦ let bad = rw (posted, missing) at h in cc
    | inr given ↦ rw (posted, given)
  ]
  | inr other ↦ let bad = rw other at h in cc
]

oauth_select_section-success :
    (faults : Faults) (now : ℕ) (random : Option String) (w : World) (call : SelectCall)
    (s : DeviceSession)
    → (oauth_select_section faults now random w call).1 ≡ page 200 auth_success
    → find_device_session now call.session_id w.sessions ≡ some s
    → (section : ℤ) × (call.section_number ≡ some section)
      × (oauth_select_section faults now random w call ≡ select_token faults w s section random)
oauth_select_section-success faults now random w call s h e =
    let same = oauth_select_section-passes faults now random w call h in
    let (section, parsed, token) =
      select_number-success faults now w call random call.section_number s
        (ap (λ p. p.1) (sym same) ∙ h) e in
    (section, parsed, same ∙ token)

-- Where the section form succeeds, it has authorized the session's device code, whatever status
-- the code had before, with the chosen section and the new device access token.
pub oauth_select_section-authorizes :
    (faults : Faults) (now : ℕ) (random : Option String) (w : World) (call : SelectCall)
    (r : DeviceCode) (s : DeviceSession)
    → (oauth_select_section faults now random w call).1 ≡ page 200 auth_success
    → find_device_session now call.session_id w.sessions ≡ some s
    → find_by_code s.device_code w.codes ≡ some r
    → (token : String) × (section : ℤ) × (random ≡ some token)
      × (call.section_number ≡ some section)
      × (find_by_code s.device_code (oauth_select_section faults now random w call).0.codes
          ≡ some (with_section authorized section token r))
oauth_select_section-authorizes faults now random w call r s h e f =
    let (section, parsed, same) = oauth_select_section-success faults now random w call s h e in
    let (token, drawn, written) =
      select_token-success faults w s section random (ap (λ p. p.1) (sym same) ∙ h) in
    (
      token,
      section,
      drawn,
      parsed,
      rw same (update_with_section-find s.device_code token section w.codes _ written ∙ rw f),
    )

-- Where the section form succeeds for a session whose device code is in the table, the device's
-- next poll, before the code expires, within the limits and with a database that answers, is
-- answered with the device access token that the form drew.
pub oauth_select_section-then_token :
    (cfg : Config) (faults faults' : Faults) (now at later : ℕ) (random : Option String) (w : World)
    (call : SelectCall) (poll : TokenCall) (req : DeviceTokenRequest) (r : DeviceCode)
    (s : DeviceSession)
    → (oauth_select_section faults now random w call).1 ≡ page 200 auth_success
    → find_device_session now call.session_id w.sessions ≡ some s
    → find_by_code s.device_code w.codes ≡ some r
    → at ≤ r.expires_at
    → poll.is_post ≡ true
    → poll.body ≡ some req
    → req.grant_type ≡ device_code_grant
    → req.device_code ≡ s.device_code
    → str_eq req.device_code "" ≡ false
    → faults'.find_code ≡ false
    → let w' = (oauth_select_section faults now random w call).0 in
      blocked (ip_check cfg faults' at w' poll).0 ≡ none
      → blocked (poll_check cfg faults' at w' poll req).0 ≡ none
      → (token : String) × (e : ℤ) × (random ≡ some token)
        × ((device_token cfg faults' at later w' poll).1 ≡ token_issued token e)
oauth_select_section-then_token cfg faults faults' now at later random w call poll req r s h e f
      live p b g c n d i q =
    let (token, section, drawn, parsed, found) =
      oauth_select_section-authorizes faults now random w call r s h e f in
    let w' = (oauth_select_section faults now random w call).0 in
    (
      token,
      _,
      drawn,
      device_token-Grants cfg faults' at later w' poll req (with_section authorized section token r)
          token p b g n i q d (rw c found)
          (record { is_authorized = refl; holds_token = refl; is_unexpired = live }),
    )

-- ===== src/Admin/Scoreboards/Timers.antt =====
-- What the page of internal/handlers/admin_timer.go can do, and to whom.
use Prim.Native.String.{◌++◌ as append}
use osm_device_adapter.Prelude.{
  ◌≡◌, refl, sym, subst, String, not, Option, none, some, str_eq, ◌⊎◌, inl, inr, All, if_both,
}
use osm_device_adapter.Db.Models.{WebSession, DeviceCode}
use osm_device_adapter.Db.DeviceCodes.{find_by_user}
use osm_device_adapter.Hub.Messages.{Message}
use osm_device_adapter.Admin.Replies.{AdminRequest, validate_csrf_token}
use osm_device_adapter.Admin.Paths.{PathPart, no_match, out_of_range, part, path_part}
use osm_device_adapter.Admin.World.{AdminWorld, AdminFaults, publish}
use osm_device_adapter.Admin.Scoreboards.{
  Handled, target_device, TimerCommandRequest, timer_message, timer_device, timer_command,
  timer_path, timer_token, timer_session, admin_scoreboard_timer,
}
use osm_device_adapter.Admin.Scoreboards.Devices.{IsOwn, option_list, target_device-All}

-- A timer command goes to one device of the session's user, and to nobody else; nothing else is
-- changed by it.
abbrev pub IsCommand :
    AdminFaults → AdminRequest → WebSession → Option Message → AdminWorld → AdminWorld → Type 0
IsCommand faults r s o w w' =
    (w' ≡ w)
    ⊎ ((d : DeviceCode) × ((m : Message) × (IsOwn s.osm_user_id w.codes d
            × ((validate_csrf_token r s ≡ none)
                × ((o ≡ some m) × (w' ≡ publish faults (append "device:" d.device_code) m w))))))

abbrev pub command_of : Option TimerCommandRequest → Option Message
command_of none = none
command_of (some req) = timer_message req

module _ (faults : AdminFaults) (w : AdminWorld) (r : AdminRequest) (s : WebSession)
    (token : validate_csrf_token r s ≡ none) where
  timer_device-IsCommand :
      (m : Message) (o : Option DeviceCode)
      → All (IsOwn s.osm_user_id w.codes) (option_list o)
      → IsCommand faults r s (some m) w (timer_device faults m w o).0
  timer_device-IsCommand m none all = inl refl
  timer_device-IsCommand m (some d) (own, all) = inr (d, (m, (own, (token, (refl, refl)))))

  timer_command-IsCommand :
      (prefix : String) (req : TimerCommandRequest) (o : Option Message)
      → IsCommand faults r s o w (timer_command faults s prefix req w o).0
  timer_command-IsCommand prefix req none = inl refl
  timer_command-IsCommand prefix req (some m) =
      let o = target_device prefix (find_by_user s.osm_user_id w.codes) in
      if_both (λ (x : AdminWorld × Handled). IsCommand faults r s (some m) w x.0)
        faults.find_devices (inl refl)
        (timer_device-IsCommand m o (target_device-All prefix s.osm_user_id w.codes o refl))

  timer_path-IsCommand :
      (body : Option TimerCommandRequest) (p : PathPart)
      → IsCommand faults r s (command_of body) w (timer_path faults s body w p).0
  timer_path-IsCommand body no_match = inl refl
  timer_path-IsCommand body out_of_range = inl refl
  timer_path-IsCommand none (part prefix) = inl refl
  timer_path-IsCommand (some req) (part prefix) =
      timer_command-IsCommand prefix req (timer_message req)

timer_token-IsCommand :
    (faults : AdminFaults) (w : AdminWorld) (r : AdminRequest) (s : WebSession)
    (body : Option TimerCommandRequest) (o : Option String)
    → validate_csrf_token r s ≡ o
    → IsCommand faults r s (command_of body) w (timer_token faults r s body w o).0
timer_token-IsCommand faults w r s body none token =
    timer_path-IsCommand faults w r s token body
      (path_part "/api/admin/scoreboards/" "/timer" r.path)
timer_token-IsCommand faults w r s body (some message) token = inl refl

-- Whatever fails: a timer request changes nothing, or publishes the message of its command to one
-- authorized device of the session's user, with the session's CSRF token.
pub admin_scoreboard_timer-IsCommand :
    (faults : AdminFaults) (r : AdminRequest) (body : Option TimerCommandRequest) (w : AdminWorld)
    (s : WebSession)
    → r.session ≡ some s
    → IsCommand faults r s (command_of body) w (admin_scoreboard_timer faults r body w).0
unfolding admin_scoreboard_timer
admin_scoreboard_timer-IsCommand faults r body w s logged_in =
    if_both (λ (o : AdminWorld × Handled). IsCommand faults r s (command_of body) w o.0)
      (not (str_eq r.method "POST")) (inl refl)
      (subst (λ o. IsCommand faults r s (command_of body) w (timer_session faults r body w o).0)
        (sym logged_in) (timer_token-IsCommand faults w r s body (validate_csrf_token r s) refl))

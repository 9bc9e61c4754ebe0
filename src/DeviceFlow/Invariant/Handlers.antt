-- ===== src/DeviceFlow/Invariant/Handlers.antt =====
-- Each handler of the device flow keeps `IsLinked`.
use osm_device_adapter.Prelude.{ℕ, ◌≡◌, refl, String, Option, List, arith, All}
use osm_device_adapter.Db.Models.{pending, denied}
use osm_device_adapter.DeviceFlow.World.{World, Faults, Config, RemoteMetadata}
use osm_device_adapter.DeviceFlow.Token.{TokenCall, device_token}
use osm_device_adapter.DeviceFlow.Token.Laws.{device_token_reads_only}
use osm_device_adapter.DeviceFlow.Authorize.{
  AuthorizeCall, Randomness, Instants, new_record, device_authorize,
}
use osm_device_adapter.DeviceFlow.Web.{
  EntryCall, ConfirmCall, oauth_authorize, oauth_confirm, oauth_cancel,
}
use osm_device_adapter.DeviceFlow.Web.Authorization.{
  CallbackCall, OsmAnswers, SelectCall, mark_device_code_status, oauth_callback,
  oauth_select_section,
}
use osm_device_adapter.DeviceFlow.Invariant.{
  Entered, IsLinked, Entered-denied, Entered-create, Entered-tokens, Entered-section,
  Entered-session,
}

pub oauth_cancel-IsLinked :
    (faults : Faults) (now : ℕ) (w : World) (user_code : List ℕ)
    → IsLinked w
    → IsLinked (oauth_cancel faults now w user_code).0
unfolding oauth_cancel
oauth_cancel-IsLinked faults now w user_code v = record {
  entered = grind (arith, Entered-denied, v.entered);
}

pub oauth_confirm-IsLinked :
    (faults : Faults) (now : ℕ) (w : World) (call : ConfirmCall)
    → IsLinked w
    → IsLinked (oauth_confirm faults now w call).0
unfolding oauth_confirm
oauth_confirm-IsLinked faults now w call v = record { entered = ground (arith, v.entered) }

mark-IsLinked :
    (faults : Faults) (now : ℕ) (id : String) (w : World)
    → All (Entered w.sessions) w.codes
    → All
        (Entered (mark_device_code_status faults now id denied w).sessions)
        (mark_device_code_status faults now id denied w).codes
unfolding mark_device_code_status
mark-IsLinked faults now id w h = grind (arith, Entered-denied)

pub oauth_callback-IsLinked :
    (faults : Faults) (now later : ℕ) (w : World) (call : CallbackCall) (osm : OsmAnswers)
    → IsLinked w
    → IsLinked (oauth_callback faults now later w call osm).0
unfolding oauth_callback
oauth_callback-IsLinked faults now later w call osm v = record {
  entered = grind (arith, Entered-tokens, mark-IsLinked, v.entered);
}

pub oauth_select_section-IsLinked :
    (faults : Faults) (now : ℕ) (random : Option String) (w : World) (call : SelectCall)
    → IsLinked w
    → IsLinked (oauth_select_section faults now random w call).0
unfolding oauth_select_section
oauth_select_section-IsLinked faults now random w call v = record {
  entered = grind (arith, Entered-section, v.entered);
}

pub oauth_authorize-IsLinked :
    (cfg : Config) (faults : Faults) (now : ℕ) (random : Option String) (w : World)
    (call : EntryCall)
    → IsLinked w
    → IsLinked (oauth_authorize cfg faults now random w call).0
unfolding oauth_authorize
oauth_authorize-IsLinked cfg faults now random w call v = record {
  entered = grind (arith, Entered-session, v.entered);
}

status-new_record :
    (cfg : Config) (at : Instants) (remote : RemoteMetadata) (client : String) (id : ℕ)
    (code : String) (user_code : List ℕ)
    → (new_record cfg at remote client id code user_code).status ≡ pending
unfolding new_record
status-new_record cfg at remote client id code user_code = refl

pub device_authorize-IsLinked :
    (cfg : Config) (faults : Faults) (now : ℕ) (at : Instants) (random : Randomness) (w : World)
    (call : AuthorizeCall)
    → IsLinked w
    → IsLinked (device_authorize cfg faults now at random w call).0
unfolding device_authorize
device_authorize-IsLinked cfg faults now at random w call v = record {
  entered = grind (arith, Entered-create, status-new_record, v.entered);
}

pub device_token-IsLinked :
    (cfg : Config) (faults : Faults) (now later : ℕ) (w : World) (call : TokenCall)
    → IsLinked w
    → IsLinked (device_token cfg faults now later w call).0
device_token-IsLinked cfg faults now later w call v =
    let (codes, sessions, _) = device_token_reads_only cfg faults now later w call in
    record { entered = rw (codes, sessions) v.entered }

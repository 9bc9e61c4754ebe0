-- ===== src/DeviceFlow/Events.antt =====
-- The requests that the device flow serves, and what a sequence of them leaves.
use osm_device_adapter.Prelude.{ℕ, String, Option, List, [], ◌∷◌}
use osm_device_adapter.DeviceFlow.World.{World, Faults, Config}
use osm_device_adapter.DeviceFlow.Token.{TokenCall, device_token}
use osm_device_adapter.DeviceFlow.Authorize.{AuthorizeCall, Randomness, Instants, device_authorize}
use osm_device_adapter.DeviceFlow.Web.{
  EntryCall, ConfirmCall, oauth_authorize, oauth_confirm, oauth_cancel,
}
use osm_device_adapter.DeviceFlow.Web.Authorization.{
  CallbackCall, OsmAnswers, SelectCall, oauth_callback, oauth_select_section,
}

-- One request to the flow, with all that the environment decides about it.
pub data Event : Type 0 where
  authorizes : Faults → ℕ → Instants → Randomness → AuthorizeCall → Event
  polls : Faults → ℕ → ℕ → TokenCall → Event
  enters : Faults → ℕ → Option String → EntryCall → Event
  confirms : Faults → ℕ → ConfirmCall → Event
  cancels : Faults → ℕ → List ℕ → Event
  calls_back : Faults → ℕ → ℕ → CallbackCall → OsmAnswers → Event
  selects : Faults → ℕ → Option String → SelectCall → Event

unfoldable pub step : Config → World → Event → World
step cfg w (authorizes faults now at random call) =
    (device_authorize cfg faults now at random w call).0
step cfg w (polls faults now later call) = (device_token cfg faults now later w call).0
step cfg w (enters faults now random call) = (oauth_authorize cfg faults now random w call).0
step cfg w (confirms faults now call) = (oauth_confirm faults now w call).0
step cfg w (cancels faults now user_code) = (oauth_cancel faults now w user_code).0
step cfg w (calls_back faults now later call osm) = (oauth_callback faults now later w call osm).0
step cfg w (selects faults now random call) = (oauth_select_section faults now random w call).0

unfoldable pub run : Config → World → List Event → World
run cfg w [] = w
run cfg w (e ∷ es) = run cfg (step cfg w e) es

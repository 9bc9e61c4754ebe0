-- ===== src/DeviceFlow/Invariant/History.antt =====
-- `IsLinked` after any history of requests.
use osm_device_adapter.Prelude.{List, [], ◌∷◌}
use osm_device_adapter.DeviceFlow.World.{World, Config}
use osm_device_adapter.DeviceFlow.Events.{
  Event, authorizes, polls, enters, confirms, cancels, calls_back, selects, step, run,
}
use osm_device_adapter.DeviceFlow.Invariant.{IsLinked}
use osm_device_adapter.DeviceFlow.Invariant.Handlers.{
  device_authorize-IsLinked, device_token-IsLinked, oauth_authorize-IsLinked,
  oauth_confirm-IsLinked, oauth_cancel-IsLinked, oauth_callback-IsLinked,
  oauth_select_section-IsLinked,
}

step-IsLinked : (cfg : Config) (w : World) (e : Event) → IsLinked w → IsLinked (step cfg w e)
unfolding step
step-IsLinked cfg w (authorizes faults now at random call) v =
    device_authorize-IsLinked cfg faults now at random w call v
step-IsLinked cfg w (polls faults now later call) v =
    device_token-IsLinked cfg faults now later w call v
step-IsLinked cfg w (enters faults now random call) v =
    oauth_authorize-IsLinked cfg faults now random w call v
step-IsLinked cfg w (confirms faults now call) v = oauth_confirm-IsLinked faults now w call v
step-IsLinked cfg w (cancels faults now user_code) v =
    oauth_cancel-IsLinked faults now w user_code v
step-IsLinked cfg w (calls_back faults now later call osm) v =
    oauth_callback-IsLinked faults now later w call osm v
step-IsLinked cfg w (selects faults now random call) v =
    oauth_select_section-IsLinked faults now random w call v

-- From a world in which every device code that is authorized or awaits its section has a row of a
-- session, expired or not: whatever requests are made, in whatever order and with whatever
-- failures, every such code has one afterwards too.
pub run-IsLinked :
    (cfg : Config) (w : World) (es : List Event) → IsLinked w → IsLinked (run cfg w es)
unfolding run
run-IsLinked cfg w [] v = v
run-IsLinked cfg w (e ∷ es) v = run-IsLinked cfg (step cfg w e) es (step-IsLinked cfg w e v)

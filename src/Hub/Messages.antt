-- ===== src/Hub/Messages.antt =====
-- internal/websocket/messages.go: the messages on a device's WebSocket.
use osm_device_adapter.Prelude.{String}
use osm_device_adapter.Prelude.Int.{ℤ, pos}

-- `type` is called `kind`.
pub record Message : Type 0 where
  pub kind : String
  pub reason : String
  pub uptime : ℤ
  pub duration : ℤ

abbrev message : String → String → ℤ → Message
message kind reason duration = record {
  kind = kind;
  reason = reason;
  uptime = pos 0;
  duration = duration;
}

abbrev pub refresh_scores_message : Message
refresh_scores_message = message "refresh-scores" "" (pos 0)

abbrev pub disconnect_message : String → Message
disconnect_message reason = message "disconnect" reason (pos 0)

abbrev pub reconnect_message : Message
reconnect_message = message "reconnect" "" (pos 0)

abbrev pub timer_start_message : ℤ → Message
timer_start_message duration = message "timer-start" "" duration

abbrev pub timer_pause_message : Message
timer_pause_message = message "timer-pause" "" (pos 0)

abbrev pub timer_resume_message : Message
timer_resume_message = message "timer-resume" "" (pos 0)

abbrev pub timer_reset_message : Message
timer_reset_message = message "timer-reset" "" (pos 0)

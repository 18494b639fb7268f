-- ===== src/Network/Session/Stop.antt =====
-- `stop_session` and the leave command that it sends.
use modern_cpp_room_server.Prelude.{◌≡◌, sym, subst, ap, true, false, if◌then◌else◌, arith}
use modern_cpp_room_server.Concurrency
use modern_cpp_room_server.Concurrency.{CloseableQueue}
use modern_cpp_room_server.Room.Commands.{DisconnectReason, leave_command}
use modern_cpp_room_server.Network.OutboundQueue.{close}
use modern_cpp_room_server.Network.Session.{
  Session, submit_room_command, leave_room_if_joined, count_overflow, update_queue_metrics,
  stop_running, stop_session,
}

-- The fields that stopping leaves alone.
pub record Leaves (s t : Session) : Type 0 where
  pub buffer_kept : t.receive_buffer ≡ s.receive_buffer
  pub id_kept : t.session_id ≡ s.session_id
  pub progress_kept : t.write_in_progress ≡ s.write_in_progress
  pub writers_kept : t.writers ≡ s.writers
  pub posted_kept : t.posted ≡ s.posted

-- A session `s` that runs, and the session `t` after it is stopped.
pub record IsStopped (reason : DisconnectReason) (s t : Session) : Type 0 where
  pub marked : t.stopped ≡ true
  pub left : t.joined_room ≡ false
  pub emptied : t.outbound_queue ≡ close s.outbound_queue
  pub shut : t.socket_open ≡ false
  pub told : t.room_commands ≡ (
      if s.joined_room
      then (Concurrency.push s.room_commands (leave_command s.session_id reason)).1
      else s.room_commands)

pub stop_running_lem :
    (reason : DisconnectReason) (s : Session)
    → Leaves s (stop_running reason s) × IsStopped reason s (stop_running reason s)
unfolding stop_running leave_room_if_joined submit_room_command update_queue_metrics count_overflow
stop_running_lem reason s = ground arith

pub stop_session-running :
    (reason : DisconnectReason) (s : Session)
    → s.stopped ≡ false
    → stop_session reason s ≡ stop_running reason s
unfolding stop_session
stop_session-running reason s e = ap (λ b. if b then s else stop_running reason s) e

pub stop_session-over :
    (reason : DisconnectReason) (s : Session) → s.stopped ≡ true → stop_session reason s ≡ s
unfolding stop_session
stop_session-over reason s e = ap (λ b. if b then s else stop_running reason s) e

-- Stopping a session that runs marks it, takes it out of the room, closes and empties its outbound
-- queue, shuts the socket, and tells the room worker that it leaves exactly if it had joined; the
-- receive buffer, the posted handlers and the writers stay, and a second stop with any reason
-- changes nothing.
pub stop_session_lem :
    (reason again : DisconnectReason) (s : Session)
    → s.stopped ≡ false
    → Leaves s (stop_session reason s)
      × IsStopped reason s (stop_session reason s)
      × (stop_session again (stop_session reason s) ≡ stop_session reason s)
stop_session_lem reason again s running =
    let (leaves, is) = stop_running_lem reason s in
    subst (λ t. Leaves s t × IsStopped reason s t × (stop_session again t ≡ t))
      (sym (stop_session-running reason s running))
      (leaves, is, stop_session-over again (stop_running reason s) is.marked)

-- ===== src/Network/Session/LateJoin.antt =====
-- A join packet that is read when the session was stopped already: nothing in the loop asks for it.
use modern_cpp_room_server.Prelude.{◌≡◌, true, false, [], ◌∷◌, ◌++◌, arith}
use modern_cpp_room_server.Concurrency
use modern_cpp_room_server.Protocol.Bytes.{Endian}
use modern_cpp_room_server.Protocol.Packet.{PacketView, join_room}
use modern_cpp_room_server.Protocol.Gameplay.{validate_empty_payload}
use modern_cpp_room_server.Room.Commands.{DisconnectReason, join_command}
use modern_cpp_room_server.Network.Session.{
  Session, stop_session, handle_join, submitted_or_stop, submit_room_command, is_ok, consume_packet,
}
use modern_cpp_room_server.Network.Session.Steps.{handle_type}

-- A join packet with an empty payload that a session handles when it is stopped already and not in
-- the room, while the room worker takes commands, is accepted: the loop goes on, a join command is
-- queued, the session counts as joined and stays stopped, and stopping it again for any reason
-- changes nothing, so that this stop sends no leave command.
pub handle_type_late_join :
    (e : Endian) (v : PacketView) (reason : DisconnectReason) (s : Session)
    → v.payload ≡ []
    → s.stopped ≡ true
    → s.joined_room ≡ false
    → s.room_commands.is_closed ≡ false
    → let r = handle_type e join_room v s in
      (r.0 ≡ true)
      × (r.1.stopped ≡ true)
      × (r.1.joined_room ≡ true)
      × (r.1.room_commands.values ≡ s.room_commands.values ++ (join_command s.session_id ∷ []))
      × (stop_session reason r.1 ≡ r.1)
unfolding handle_type handle_join submitted_or_stop submit_room_command consume_packet
    Concurrency.push stop_session is_ok validate_empty_payload
handle_type_late_join e v reason s p over idle works = ground arith

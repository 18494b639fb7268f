-- ===== src/Network/Session/Rejects.antt =====
-- Which packets are against the protocol, and what becomes of them.
use modern_cpp_room_server.Prelude.{
  ℕ, ◌≡◌, ◌≢◌, refl, Bool, true, false, not, ◌||◌, ◌==◌, List, [], ◌∷◌, length, if◌then◌else◌,
  arith,
}
use modern_cpp_room_server.Concurrency
use modern_cpp_room_server.Protocol.Bytes.{Endian}
use modern_cpp_room_server.Protocol.Packet.{
  PacketType, ping, join_room, move, leave_room, unknown, is_known, PacketView,
}
use modern_cpp_room_server.Protocol.Gameplay.{validate_empty_payload, decode_move_payload}
use modern_cpp_room_server.Room.Commands.{protocol_error}
use modern_cpp_room_server.Network.Session.{
  Session, stop_session, reject_protocol, submitted_or_stop, submit_room_command, is_ok,
  handle_join, handle_move, handle_movement, handle_leave,
}
use modern_cpp_room_server.Network.Session.Steps.{handle_type}

is_nonempty : List ℕ → Bool
is_nonempty [] = false
is_nonempty (b ∷ bs) = true

-- The protocol, told without the handlers: the packets that a client must not send, by whether it has
-- joined the room.
unfoldable pub violates : Bool → PacketType → List ℕ → Bool
unfolding is_nonempty
violates joined ping payload = false
violates joined join_room payload = joined || is_nonempty payload
violates joined leave_room payload = not joined || is_nonempty payload
violates joined move payload = not joined || not (length payload == 8)
violates joined (unknown n) payload = false
violates joined _ payload = true

-- For a packet of a known type other than ping, in a session whose room worker takes commands, the
-- handlers reject exactly what the protocol forbids, and then stop the session with protocol_error
-- and end the loop: a join by a joined session or with a payload, a move before a join or without
-- a payload of eight bytes, a leave before a join or with a payload, an attack, and every type
-- that only the server sends; every other such packet lets the loop go on.
pub handle_type-violates :
    (e : Endian) (v : PacketView) (s : Session) (type : PacketType)
    → is_known type ≡ true
    → type ≢ ping
    → s.room_commands.is_closed ≡ false
    → handle_type e type v s ≡ (
        if violates s.joined_room type v.payload
        then (false, stop_session protocol_error s)
        else (true, (handle_type e type v s).1))
unfolding handle_type violates handle_join handle_move handle_movement handle_leave reject_protocol
    submitted_or_stop submit_room_command is_ok validate_empty_payload decode_move_payload
    Concurrency.push is_known
handle_type-violates e v s ping k n c = absurd (n refl)
handle_type-violates e v s join_room k n c = ground arith
handle_type-violates e v s move k n c = ground arith
handle_type-violates e v s leave_room k n c = ground arith
handle_type-violates e v s (unknown m) k n c = cc k
handle_type-violates e v s _ k n c = refl

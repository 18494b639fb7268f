-- ===== src/Network/EventEncoder.antt =====
-- src/network/room_event_encoder.cpp: the packet that tells of a room event.
pub mod Writes
pub mod RoundTrip
pub mod Stream
mod Tests
use modern_cpp_room_server.Prelude.{
  ℕ, zero, suc, ◌+◌, ◌-◌, ◌*◌, ◌/◌, ◌^◌, List, [], ◌∷◌, replicate, set, bit_and, Expected, ok, err,
}
use modern_cpp_room_server.Prelude.Int.{bits_of_int32}
use modern_cpp_room_server.Protocol.Bytes.{Endian}
use modern_cpp_room_server.Protocol.Packet.{
  PacketType, player_joined, player_moved, player_left, EncodeError, encode_packet,
}
use modern_cpp_room_server.Room.Commands.{
  SessionId, GridPosition, RoomEvent, player_joined_event, player_moved_event, player_left_event,
  reason_code,
}
use modern_cpp_room_server.Network.OutboundQueue.{SharedPacket, make_shared_packet}

abbrev pub player_state_payload_size : ℕ
player_state_payload_size = 8 + 4 * 2

abbrev pub player_left_payload_size : ℕ
player_left_payload_size = 8 + 2

-- The loop of `write_big_endian`, with the rounds left; `n` is `sizeof(T)`.
unfoldable pub write_rounds : ℕ → ℕ → ℕ → List ℕ → ℕ → ℕ → List ℕ
write_rounds zero n index bytes offset value = bytes
write_rounds (suc left) n index bytes offset value =
    write_rounds left n (index + 1)
      (set bytes (offset + index) (bit_and (value / 2 ^ ((n - index - 1) * 8)) 0xff)) offset value

unfoldable pub write_value : ℕ → List ℕ → ℕ → ℕ → List ℕ
unfolding write_rounds
write_value n bytes offset value = write_rounds n n 0 bytes offset value

unfoldable pub write_session_id : List ℕ → SessionId → List ℕ
write_session_id payload session_id = write_value 8 payload 0 session_id

unfoldable pub write_position : List ℕ → GridPosition → List ℕ
write_position payload position =
    let with_x = write_value 4 payload 8 (bits_of_int32 position.x) in
    write_value 4 with_x (8 + 4) (bits_of_int32 position.y)

unfoldable pub share_encoded : Expected EncodeError (List ℕ) → Expected EncodeError SharedPacket
share_encoded (err error) = err error
share_encoded (ok encoded) = ok (make_shared_packet encoded)

unfoldable pub encode_player_state :
    Endian → PacketType → SessionId → GridPosition → Expected EncodeError SharedPacket
unfolding write_session_id write_position share_encoded
encode_player_state e type session_id position =
    let payload = write_session_id (replicate player_state_payload_size 0) session_id in
    share_encoded (encode_packet e type (write_position payload position))

unfoldable pub encode_room_event : Endian → RoomEvent → Expected EncodeError SharedPacket
unfolding encode_player_state
encode_room_event e (player_joined_event id position) =
    encode_player_state e player_joined id position
encode_room_event e (player_moved_event id position) =
    encode_player_state e player_moved id position
encode_room_event e (player_left_event id reason) =
    let payload = write_session_id (replicate player_left_payload_size 0) id in
    share_encoded (encode_packet e player_left (write_value 2 payload 8 (reason_code reason)))

-- ===== src/Network/EventEncoder/Tests.antt =====
-- An event encoded and read back.
use modern_cpp_room_server.Prelude.{◌≡◌, some, [], ◌∷◌, ◌++◌, ok, arith}
use modern_cpp_room_server.Prelude.Int.{pos, negsuc}
use modern_cpp_room_server.Protocol.Bytes.{little, big}
use modern_cpp_room_server.Protocol.Packet.{decode_one}
use modern_cpp_room_server.Room.Commands.{RoomEvent, player_moved_event}
use modern_cpp_room_server.Network.EventEncoder.{encode_room_event}
use modern_cpp_room_server.Network.EventEncoder.RoundTrip.{
  event_packet, read_view, read_view-encode_room_event,
}

abbrev step_aside : RoomEvent
step_aside = player_moved_event 7 (record { x = pos 3; y = negsuc 1 })

read_view-encode_room_event_example :
    (encode_room_event little step_aside ≡ ok (some (event_packet step_aside)))
    × (read_view (decode_one big (event_packet step_aside ++ (9 ∷ []))) ≡ some step_aside)
read_view-encode_room_event_example =
    read_view-encode_room_event little big step_aside (9 ∷ []) (omega arith) (omega arith)

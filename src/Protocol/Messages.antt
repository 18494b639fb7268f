-- ===== src/Protocol/Messages.antt =====
-- The three functions `to_string` of src/protocol/packet_codec.cpp and gameplay_payload.cpp.
use modern_cpp_room_server.Prelude.{List, ℕ}
use modern_cpp_room_server.Prelude.Text.{codes}
use modern_cpp_room_server.Protocol.Packet.{DecodeError, EncodeError}
use modern_cpp_room_server.Protocol.Gameplay.{GameplayPayloadError}

unfoldable pub decode_error_to_string : DecodeError → List ℕ
decode_error_to_string DecodeError.incomplete_header = codes "incomplete header"
decode_error_to_string DecodeError.payload_too_large = codes "payload exceeds configured limit"
decode_error_to_string DecodeError.unknown_packet_type = codes "unknown packet type"
decode_error_to_string DecodeError.incomplete_payload = codes "incomplete payload"

unfoldable pub encode_error_to_string : EncodeError → List ℕ
encode_error_to_string EncodeError.payload_too_large = codes "payload exceeds configured limit"
encode_error_to_string EncodeError.unknown_packet_type = codes "unknown packet type"

unfoldable pub payload_error_to_string : GameplayPayloadError → List ℕ
payload_error_to_string GameplayPayloadError.expected_empty_payload =
    codes "packet payload must be empty"
payload_error_to_string GameplayPayloadError.invalid_move_payload_size =
    codes "move payload must contain two 32-bit coordinates"
payload_error_to_string GameplayPayloadError.invalid_player_state_payload_size =
    codes "player state payload must contain a session id and two coordinates"
payload_error_to_string GameplayPayloadError.invalid_player_left_payload_size =
    codes "player left payload must contain a session id and reason"

-- ===== src/Protocol/Tests.antt =====
-- Runs of the protocol's functions, and the theorems at concrete inputs.
use modern_cpp_room_server.Prelude.{ℕ, ◌≤◌, ◌≡◌, refl, false, List, [], ◌∷◌, ◌++◌, ok, arith}
use modern_cpp_room_server.Prelude.Int.{pos, negsuc, IsInt32, int32_of_bits}
use modern_cpp_room_server.Protocol.Bytes.{
  little, big, low_first, number, load, store, byteswap, read_big_endian, write_big_endian,
}
use modern_cpp_room_server.Protocol.Packet.{
  ping, PacketView, is_known, packet_code, packet_type, view_of, max_payload_size, decode_fields,
  decode_one, fill_packet, encode_packet,
}
use modern_cpp_room_server.Protocol.Packet.RoundTrip.{
  packet_view, decode_one-encode_packet, encode_packet-decode_one,
}
use modern_cpp_room_server.Protocol.Packet.Stream.{is_decided, decode_one-append, decode_one_front}
use modern_cpp_room_server.Protocol.Gameplay.{
  MovePayload, read_uint16_big_endian, read_uint32_big_endian, read_uint64_big_endian,
  write_uint32_big_endian, decode_move_payload, encode_move_payload,
}
use modern_cpp_room_server.Protocol.Gameplay.Reads.{reads-read_big_endian}
use modern_cpp_room_server.Protocol.Gameplay.Writes.{write_uint32-write_big_endian}
use modern_cpp_room_server.Protocol.Gameplay.RoundTrip.{
  decode_move_payload-encode_move_payload, encode_move_payload-decode_move_payload,
}

abbrev ping_bytes : List ℕ
ping_bytes = 0 ∷ 0 ∷ 0 ∷ 2 ∷ 0 ∷ 1 ∷ 7 ∷ 9 ∷ []

abbrev ping_view : PacketView
ping_view = record {
  header = record { payload_size = 2; type = ping };
  payload = 7 ∷ 9 ∷ [];
  consumed_bytes = 8;
}

encode_ping : encode_packet little ping (7 ∷ 9 ∷ []) ≡ ok ping_bytes
unfolding encode_packet fill_packet is_known packet_code write_big_endian store byteswap low_first
    number
encode_ping = refl

decode_ping : decode_one little ping_bytes ≡ ok ping_view
unfolding decode_one decode_fields view_of packet_type is_known read_big_endian load byteswap
    low_first number
decode_ping = refl

decode_one-encode_packet_example :
    (decode_one big (ping_bytes ++ (0 ∷ [])) ≡ ok (packet_view ping (7 ∷ 9 ∷ [])))
    × ((packet_view ping (7 ∷ 9 ∷ [])).consumed_bytes ≡ 8)
decode_one-encode_packet_example =
    decode_one-encode_packet little big ping (7 ∷ 9 ∷ []) ping_bytes (0 ∷ []) (omega arith)
      (omega arith) encode_ping

encode_packet-decode_one_example :
    (encode_packet big ping (7 ∷ 9 ∷ []) ≡ ok ping_bytes)
    × (◌≡◌ {A = ℕ} 2 2)
    × (2 ≤ max_payload_size)
    × (8 ≤ 8)
encode_packet-decode_one_example =
    encode_packet-decode_one little big ping_bytes (omega arith) decode_ping

decode_one-append_example :
    decode_one little (ping_bytes ++ (5 ∷ [])) ≡ decode_one little ping_bytes
decode_one-append_example =
    decode_one-append little ping_bytes (5 ∷ []) (omega arith) (omega arith)
      (rw decode_ping (unfold is_decided in refl))

decode_one_front_example : is_decided (decode_one big (0 ∷ 0 ∷ 0 ∷ 2 ∷ 0 ∷ 1 ∷ 7 ∷ [])) ≡ false
decode_one_front_example =
    decode_one_front little big ping (7 ∷ 9 ∷ []) (0 ∷ 0 ∷ 0 ∷ 2 ∷ 0 ∷ 1 ∷ 7 ∷ []) [] 9
      (omega arith) (omega arith) encode_ping

abbrev move_wire : List ℕ
move_wire = 0 ∷ 0 ∷ 1 ∷ 2 ∷ 255 ∷ 255 ∷ 255 ∷ 254 ∷ []

abbrev movement : MovePayload
movement = record { x = pos 258; y = negsuc 1 }

decode_movement : decode_move_payload move_wire ≡ ok movement
unfolding decode_move_payload read_uint32_big_endian int32_of_bits
decode_movement = refl

reads-read_big_endian_example :
    (read_uint16_big_endian move_wire 0 ≡ read_big_endian little 2 move_wire 0)
    × (read_uint32_big_endian move_wire 0 ≡ read_big_endian little 4 move_wire 0)
    × (read_uint64_big_endian move_wire 0 ≡ read_big_endian little 8 move_wire 0)
reads-read_big_endian_example = reads-read_big_endian little move_wire 0 (omega arith) (omega arith)

write_uint32-write_big_endian_example :
    write_uint32_big_endian move_wire 4 66051 ≡ write_big_endian little 4 move_wire 4 66051
write_uint32-write_big_endian_example =
    write_uint32-write_big_endian little move_wire 4 66051 (omega arith)

decode_move_payload-encode_move_payload_example :
    decode_move_payload (encode_move_payload movement) ≡ ok movement
decode_move_payload-encode_move_payload_example =
    decode_move_payload-encode_move_payload movement (omega arith) (omega arith)

encode_move_payload-decode_move_payload_example :
    (encode_move_payload movement ≡ move_wire) × IsInt32 (pos 258) × IsInt32 (negsuc 1)
encode_move_payload-decode_move_payload_example =
    encode_move_payload-decode_move_payload move_wire (omega arith) decode_movement

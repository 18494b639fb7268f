-- ===== src/Protocol/Packet.antt =====
-- src/protocol/packet_codec.cpp: the frame of a packet, 4 bytes of payload size, 2 bytes of type, then
-- the payload. A span or a vector of bytes is a list; `subspan` of the input is the list's part.
pub mod Fields
pub mod RoundTrip
pub mod Stream
use modern_cpp_room_server.Prelude.{
  ℕ, ◌+◌, ◌-◌, ◌*◌, ◌%◌, ◌^◌, Bool, true, false, not, ◌||◌, List, [], ◌∷◌, length, take, drop,
  replicate, ltb, leb, ◌==◌, if◌then◌else◌, add_size, Expected, ok, err,
}
use modern_cpp_room_server.Protocol.Bytes.{Endian, copy_at, read_big_endian, write_big_endian}

-- `enum class PacketType : std::uint16_t`; a value that no enumerator names is `unknown`.
pub data PacketType : Type 0 where
  ping join_room move attack leave_room player_joined player_moved player_left : PacketType
  unknown : ℕ → PacketType

unfoldable pub packet_code : PacketType → ℕ
packet_code ping = 1
packet_code join_room = 2
packet_code move = 3
packet_code attack = 4
packet_code leave_room = 5
packet_code player_joined = 101
packet_code player_moved = 102
packet_code player_left = 103
packet_code (unknown n) = n

-- `static_cast<PacketType>`
unfoldable pub packet_type : ℕ → PacketType
packet_type n =
    if n == 1
    then ping
    else if n == 2
    then join_room
    else if n == 3
    then move
    else if n == 4
    then attack
    else if n == 5
    then leave_room
    else if n == 101
    then player_joined
    else if n == 102
    then player_moved
    else if n == 103
    then player_left
    else unknown n

unfoldable pub is_known : PacketType → Bool
is_known (unknown n) = false
is_known _ = true

abbrev pub wire_header_size : ℕ
wire_header_size = 6

abbrev pub max_payload_size : ℕ
max_payload_size = 64 * 1024

pub record PacketHeader : Type 0 where
  pub payload_size : ℕ
  pub type : PacketType

pub data DecodeError : Type 0 where
  incomplete_header payload_too_large unknown_packet_type incomplete_payload : DecodeError

pub data EncodeError : Type 0 where
  payload_too_large unknown_packet_type : EncodeError

pub record PacketView : Type 0 where
  pub header : PacketHeader
  pub payload : List ℕ
  pub consumed_bytes : ℕ

-- The view of the packet at the front of `bytes`, whose header says `payload_size` and `type`.
unfoldable pub view_of : List ℕ → ℕ → PacketType → PacketView
view_of bytes payload_size type = record {
  header = record { payload_size = payload_size; type = type };
  payload = take payload_size (drop wire_header_size bytes);
  consumed_bytes = add_size wire_header_size payload_size;
}

-- The checks that follow once the two header fields are read.
unfoldable pub decode_fields : List ℕ → ℕ → PacketType → Expected DecodeError PacketView
decode_fields bytes payload_size type =
    if ltb max_payload_size payload_size
    then err DecodeError.payload_too_large
    else if not (is_known type)
    then err DecodeError.unknown_packet_type
    else if ltb (length bytes) (add_size wire_header_size payload_size)
    then err incomplete_payload
    else ok (view_of bytes payload_size type)

unfoldable pub decode_one : Endian → List ℕ → Expected DecodeError PacketView
decode_one e bytes =
    if ltb (length bytes) wire_header_size
    then err incomplete_header
    else decode_fields bytes (read_big_endian e 4 bytes 0)
        (packet_type (read_big_endian e 2 bytes 4))

-- The writes of `encode_packet` into its zeroed output buffer.
unfoldable pub fill_packet : Endian → PacketType → List ℕ → List ℕ
fill_packet e type payload =
    let output = replicate (wire_header_size + length payload) 0 in
    let sized = write_big_endian e 4 output 0 (length payload % 2 ^ 32) in
    let typed = write_big_endian e 2 sized 4 (packet_code type) in
    elim payload [ [] ↦ typed | b ∷ bs ↦ copy_at typed wire_header_size (b ∷ bs) ]

unfoldable pub encode_packet : Endian → PacketType → List ℕ → Expected EncodeError (List ℕ)
encode_packet e type payload =
    if ltb max_payload_size (length payload) || ltb (2 ^ 32 - 1) (length payload)
    then err EncodeError.payload_too_large
    else if not (is_known type)
    then err EncodeError.unknown_packet_type
    else ok (fill_packet e type payload)

unfoldable pub is_incomplete : DecodeError → Bool
is_incomplete incomplete_header = true
is_incomplete incomplete_payload = true
is_incomplete _ = false

-- ===== src/Protocol/Gameplay.antt =====
-- src/protocol/gameplay_payload.cpp: the payloads of gameplay packets, read and written by shifts and
-- masks. A read past the end of a span is undefined in the source and gives 0 here; the size checks
-- come first, so none happens.
pub mod Reads
pub mod Writes
pub mod RoundTrip
use modern_cpp_room_server.Prelude.{
  ℕ, zero, suc, ◌+◌, ◌*◌, ◌/◌, ◌%◌, ◌^◌, not, List, [], ◌∷◌, length, get_or, set, replicate,
  bit_and, bit_or, ◌==◌, if◌then◌else◌, Expected, ok, err,
}
use modern_cpp_room_server.Prelude.Int.{ℤ, int32_of_bits, bits_of_int32}

pub read_uint16_big_endian : List ℕ → ℕ → ℕ
read_uint16_big_endian bytes offset =
    bit_or (get_or bytes offset 0 * 2 ^ 8) (get_or bytes (offset + 1) 0) % 2 ^ 16

unfoldable pub read_uint32_big_endian : List ℕ → ℕ → ℕ
read_uint32_big_endian bytes offset =
    bit_or
      (bit_or
        (bit_or (get_or bytes offset 0 * 2 ^ 24 % 2 ^ 32)
          (get_or bytes (offset + 1) 0 * 2 ^ 16 % 2 ^ 32))
        (get_or bytes (offset + 2) 0 * 2 ^ 8 % 2 ^ 32))
      (get_or bytes (offset + 3) 0)

-- The loop of `read_uint64_big_endian`, with the rounds left and the position of the next byte.
pub read_rounds : ℕ → ℕ → List ℕ → ℕ → ℕ
read_rounds zero value bytes position = value
read_rounds (suc left) value bytes position =
    read_rounds left (bit_or (value * 2 ^ 8 % 2 ^ 64) (get_or bytes position 0)) bytes
      (position + 1)

pub read_uint64_big_endian : List ℕ → ℕ → ℕ
read_uint64_big_endian bytes offset = read_rounds 8 0 bytes offset

pub write_uint32_big_endian : List ℕ → ℕ → ℕ → List ℕ
write_uint32_big_endian bytes offset value =
    let first = set bytes offset (bit_and (value / 2 ^ 24) 0xff) in
    let second = set first (offset + 1) (bit_and (value / 2 ^ 16) 0xff) in
    let third = set second (offset + 2) (bit_and (value / 2 ^ 8) 0xff) in
    set third (offset + 3) (bit_and value 0xff)

abbrev pub move_payload_size : ℕ
move_payload_size = 4 * 2

abbrev pub player_state_payload_size : ℕ
player_state_payload_size = 8 + 4 * 2

abbrev pub player_left_payload_size : ℕ
player_left_payload_size = 8 + 2

pub record MovePayload : Type 0 where
  pub x : ℤ
  pub y : ℤ

pub record PlayerStatePayload : Type 0 where
  pub session_id : ℕ
  pub x : ℤ
  pub y : ℤ

pub record PlayerLeftPayload : Type 0 where
  pub session_id : ℕ
  pub reason : ℕ

pub data GameplayPayloadError : Type 0 where
  expected_empty_payload : GameplayPayloadError
  invalid_move_payload_size : GameplayPayloadError
  invalid_player_state_payload_size : GameplayPayloadError
  invalid_player_left_payload_size : GameplayPayloadError

unfoldable pub validate_empty_payload : List ℕ → Expected GameplayPayloadError (Unit {0})
validate_empty_payload [] = ok tt
validate_empty_payload (b ∷ bs) = err expected_empty_payload

unfoldable pub decode_move_payload : List ℕ → Expected GameplayPayloadError MovePayload
decode_move_payload payload =
    if not (length payload == move_payload_size)
    then err invalid_move_payload_size
    else ok (record {
      x = int32_of_bits (read_uint32_big_endian payload 0);
      y = int32_of_bits (read_uint32_big_endian payload 4);
    })

pub encode_move_payload : MovePayload → List ℕ
encode_move_payload payload =
    let encoded = replicate move_payload_size 0 in
    let with_x = write_uint32_big_endian encoded 0 (bits_of_int32 payload.x) in
    write_uint32_big_endian with_x 4 (bits_of_int32 payload.y)

pub decode_player_state_payload : List ℕ → Expected GameplayPayloadError PlayerStatePayload
decode_player_state_payload payload =
    if not (length payload == player_state_payload_size)
    then err invalid_player_state_payload_size
    else ok (record {
      session_id = read_uint64_big_endian payload 0;
      x = int32_of_bits (read_uint32_big_endian payload 8);
      y = int32_of_bits (read_uint32_big_endian payload (8 + 4));
    })

pub decode_player_left_payload : List ℕ → Expected GameplayPayloadError PlayerLeftPayload
decode_player_left_payload payload =
    if not (length payload == player_left_payload_size)
    then err invalid_player_left_payload_size
    else ok (record {
      session_id = read_uint64_big_endian payload 0;
      reason = read_uint16_big_endian payload 8;
    })

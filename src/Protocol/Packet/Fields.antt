-- ===== src/Protocol/Packet/Fields.antt =====
-- What `decode_one` and `encode_packet` do, in terms of the bytes on the wire.
use modern_cpp_room_server.Prelude.{
  ℕ, ◌+◌, ◌%◌, ◌^◌, ◌≤◌, ◌<◌, ◌≡◌, refl, sym, ap, ap₂, ◌∙◌, true, List, [], ◌∷◌, ◌++◌, length, take,
  drop, replicate, All, All-take, All-drop, take-append_of_eq, drop-append_of_eq, take-add,
  length-append, length-take, length-drop, replicate-add, length-replicate, ok, err, arith,
}
use modern_cpp_room_server.Protocol.Bytes.{IsByte, Endian, write_big_endian}
use modern_cpp_room_server.Protocol.Bytes.Laws.{
  big_endian, wire_value, length-big_endian, wire_value-big_endian, read_big_endian-wire_value,
  write_big_endian-copy_at, big_endian-wire_value, copy_at-append,
}
use modern_cpp_room_server.Protocol.Packet.{
  PacketType, unknown, packet_code, packet_type, is_known, max_payload_size, fill_packet,
  encode_packet, decode_fields, decode_one, incomplete_header,
}
use mathlib.Core.List.{append-nil, append_assoc}

-- Every enumerator survives the cast to its number and back.
pub packet_type-packet_code : (t : PacketType) → is_known t ≡ true → packet_type (packet_code t) ≡ t
unfolding packet_type packet_code is_known
packet_type-packet_code (unknown n) h = cc
packet_type-packet_code _ h = refl

pub packet_code-packet_type : (n : ℕ) → packet_code (packet_type n) ≡ n
unfolding packet_type packet_code
packet_code-packet_type n = ground arith

pub packet_code-lt : (t : PacketType) → is_known t ≡ true → packet_code t < 256 ^ 2
unfolding packet_code is_known
packet_code-lt (unknown n) h = cc
packet_code-lt _ h = omega arith

-- The six bytes before the payload.
unfoldable pub header_bytes : PacketType → ℕ → List ℕ
header_bytes type size = big_endian 4 size ++ big_endian 2 (packet_code type)

pub length-header_bytes : (type : PacketType) (size : ℕ) → length (header_bytes type size) ≡ 6
unfolding header_bytes
length-header_bytes type size = omega (
  arith,
  length-append (big_endian 4 size) (big_endian 2 (packet_code type)),
  length-big_endian 4 size,
  length-big_endian 2 (packet_code type),
)

unfoldable pub wire_packet : PacketType → List ℕ → List ℕ
wire_packet type payload = header_bytes type (length payload) ++ payload

pub length-wire_packet :
    (type : PacketType) (payload : List ℕ) → length (wire_packet type payload) ≡ 6 + length payload
unfolding wire_packet
length-wire_packet type payload = omega (
  arith,
  length-append (header_bytes type (length payload)) payload,
  length-header_bytes type (length payload),
)

-- The buffer after each write of `fill_packet`, for a payload of `size` bytes.
sized-eq :
    (e : Endian) (size : ℕ)
    → write_big_endian e 4 (replicate (6 + size) 0) 0 size
      ≡ big_endian 4 size ++ (replicate 2 0 ++ replicate size 0)
sized-eq e size =
    write_big_endian-copy_at e 4 (replicate (6 + size) 0) 0 size
    ∙ copy_at-append [] (replicate 4 0) (replicate 2 0 ++ replicate size 0) (big_endian 4 size)
        (replicate (6 + size) 0) 0 (replicate-add 6 size 0) refl (sym (length-big_endian 4 size))

typed-eq :
    (e : Endian) (type : PacketType) (size : ℕ)
    → write_big_endian e 2
        (big_endian 4 size ++ (replicate 2 0 ++ replicate size 0))
        4
        (packet_code type)
      ≡ header_bytes type size ++ replicate size 0
unfolding header_bytes
typed-eq e type size =
    write_big_endian-copy_at e 2 (big_endian 4 size ++ (replicate 2 0 ++ replicate size 0)) 4
      (packet_code type)
    ∙ copy_at-append (big_endian 4 size) (replicate 2 0) (replicate size 0)
        (big_endian 2 (packet_code type)) _ 4 refl (sym (length-big_endian 4 size))
        (sym (length-big_endian 2 (packet_code type)))
    ∙ sym (append_assoc (big_endian 4 size) (big_endian 2 (packet_code type)) (replicate size 0))

fill_packet-wire_packet :
    (e : Endian) (type : PacketType) (payload : List ℕ)
    → length payload ≤ max_payload_size
    → fill_packet e type payload ≡ wire_packet type payload
unfolding fill_packet wire_packet
fill_packet-wire_packet e type [] h = rw (sized-eq e 0, typed-eq e type 0)
fill_packet-wire_packet e type (b ∷ bs) h =
    let size = length (b ∷ bs) in
    let small : size % 2 ^ 32 ≡ size = omega arith in
    rw (small, sized-eq e size, typed-eq e type size)
      (copy_at-append (header_bytes type size) (replicate size 0) [] (b ∷ bs) _ 6
          (ap (◌++◌ (header_bytes type size)) (sym (append-nil _)))
          (sym (length-header_bytes type size)) (length-replicate size 0)
        ∙ ap (◌++◌ (header_bytes type size)) (append-nil (b ∷ bs)))

-- Every packet that may be sent is encoded, and as the wire format says.
pub encode_packet-wire_packet :
    (e : Endian) (type : PacketType) (payload : List ℕ)
    → length payload ≤ max_payload_size
    → is_known type ≡ true
    → encode_packet e type payload ≡ ok (wire_packet type payload)
unfolding encode_packet
encode_packet-wire_packet e type payload small known =
    ground (arith, fill_packet-wire_packet e type payload small)

-- What an encoded packet was made of.
pub encode_packet-eq_ok :
    (e : Endian) (type : PacketType) (payload : List ℕ) {bytes : List ℕ}
    → encode_packet e type payload ≡ ok bytes
    → (length payload ≤ max_payload_size)
      × (is_known type ≡ true)
      × (bytes ≡ wire_packet type payload)
unfolding encode_packet
encode_packet-eq_ok e type payload h =
    ground
      (arith, λ (p : length payload ≤ max_payload_size). fill_packet-wire_packet e type payload p)

-- The two header fields of a buffer, read off the wire.
abbrev pub size_field : List ℕ → ℕ
size_field bytes = wire_value (take 4 bytes)

abbrev pub type_field : List ℕ → PacketType
type_field bytes = packet_type (wire_value (take 2 (drop 4 bytes)))

-- `decode_one` reads the same fields on a machine of either byte order.
pub decode_one-fields :
    (e : Endian) (bytes : List ℕ)
    → All IsByte bytes
    → 6 ≤ length bytes
    → decode_one e bytes ≡ decode_fields bytes (size_field bytes) (type_field bytes)
unfolding decode_one
decode_one-fields e bytes h long = ground (
  arith,
  read_big_endian-wire_value e 4 bytes 0 h (omega arith),
  read_big_endian-wire_value e 2 bytes 4 h (omega arith),
)

pub decode_one_short :
    (e : Endian) (bytes : List ℕ) → length bytes < 6 → decode_one e bytes ≡ err incomplete_header
unfolding decode_one
decode_one_short e bytes h = ground arith

module _ (type : PacketType) (size : ℕ) (rest : List ℕ) where
  take-header_bytes : take 4 (header_bytes type size ++ rest) ≡ big_endian 4 size
  unfolding header_bytes
  take-header_bytes =
      rw append_assoc (take-append_of_eq 4 (big_endian 4 size) _ (sym (length-big_endian 4 size)))

  drop-header_bytes :
      drop 4 (header_bytes type size ++ rest) ≡ big_endian 2 (packet_code type) ++ rest
  unfolding header_bytes
  drop-header_bytes =
      rw append_assoc (drop-append_of_eq 4 (big_endian 4 size) _ (sym (length-big_endian 4 size)))

  pub size_field-header_bytes :
      size ≤ max_payload_size → size_field (header_bytes type size ++ rest) ≡ size
  size_field-header_bytes h = rw take-header_bytes (wire_value-big_endian 4 size (omega arith))

  pub type_field-header_bytes :
      is_known type ≡ true → type_field (header_bytes type size ++ rest) ≡ type
  type_field-header_bytes known =
      rw
        (
          drop-header_bytes,
          take-append_of_eq 2 (big_endian 2 (packet_code type)) rest
              (sym (length-big_endian 2 (packet_code type))),
          wire_value-big_endian 2 (packet_code type) (packet_code-lt type known),
        )
        (packet_type-packet_code type known)

  pub drop_six-header_bytes : drop 6 (header_bytes type size ++ rest) ≡ rest
  drop_six-header_bytes =
      drop-append_of_eq 6 (header_bytes type size) rest (sym (length-header_bytes type size))

-- The first six bytes of a buffer are the header that its fields make.
pub header_bytes-fields :
    (bytes : List ℕ)
    → All IsByte bytes
    → 6 ≤ length bytes
    → header_bytes (type_field bytes) (size_field bytes) ≡ take 6 bytes
unfolding header_bytes
header_bytes-fields bytes h long = rw packet_code-packet_type (
    ap₂ ◌++◌
      (big_endian-wire_value 4 (take 4 bytes) (All-take IsByte 4 bytes h)
        (omega (arith, length-take 4 bytes)))
      (big_endian-wire_value 2 (take 2 (drop 4 bytes))
        (All-take IsByte 2 (drop 4 bytes) (All-drop IsByte 4 bytes h))
        (omega (arith, length-take 2 (drop 4 bytes), length-drop 4 bytes)))
    ∙ sym (take-add 4 2 bytes))

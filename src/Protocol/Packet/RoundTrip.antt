-- ===== src/Protocol/Packet/RoundTrip.antt =====
-- Encoding and decoding of packets are inverse to each other.
use modern_cpp_room_server.Prelude.{
  ℕ, ◌+◌, ◌≤◌, ◌≡◌, sym, ap, ap₂, ◌∙◌, true, List, ◌++◌, length, take, drop, All, length-append,
  length-take, length-drop, take-append, take-add, All-append, ok, arith, add_size,
}
use modern_cpp_room_server.Protocol.Bytes.{IsByte, Endian}
use modern_cpp_room_server.Protocol.Bytes.Laws.{big_endian-IsByte}
use modern_cpp_room_server.Protocol.Packet.{
  PacketType, PacketView, packet_code, is_known, max_payload_size, view_of, decode_fields,
  decode_one, encode_packet,
}
use modern_cpp_room_server.Protocol.Packet.Fields.{
  header_bytes, length-header_bytes, wire_packet, length-wire_packet, encode_packet-wire_packet,
  encode_packet-eq_ok, size_field, type_field, decode_one-fields, decode_one_short,
  size_field-header_bytes, type_field-header_bytes, drop_six-header_bytes, header_bytes-fields,
}
use mathlib.Core.List.{append_assoc}
use native.Mathlib.Decide.{dec_lt}

pub header_bytes-IsByte : (type : PacketType) (size : ℕ) → All IsByte (header_bytes type size)
unfolding header_bytes
header_bytes-IsByte type size =
    All-append IsByte _ _ (big_endian-IsByte 4 size) (big_endian-IsByte 2 (packet_code type))

-- The view that decoding an encoded packet gives.
unfoldable pub packet_view : PacketType → List ℕ → PacketView
packet_view type payload = record {
  header = record { payload_size = length payload; type = type };
  payload = payload;
  consumed_bytes = 6 + length payload;
}

decode_fields_full :
    (bytes : List ℕ) (size : ℕ) (type : PacketType)
    → size ≤ max_payload_size
    → is_known type ≡ true
    → 6 + size ≤ length bytes
    → decode_fields bytes size type ≡ ok (view_of bytes size type)
unfolding decode_fields
decode_fields_full bytes size type small known fits = ground arith

module _ (e : Endian) (type : PacketType) (payload rest : List ℕ) where
  packet : List ℕ
  packet = header_bytes type (length payload) ++ (payload ++ rest)

  packet-IsByte : All IsByte payload → All IsByte rest → All IsByte packet
  unfolding packet
  packet-IsByte h hr =
      All-append IsByte _ _ (header_bytes-IsByte type (length payload))
        (All-append IsByte payload rest h hr)

  length-packet : length packet ≡ 6 + length payload + length rest
  unfolding packet
  length-packet = omega (
    arith,
    length-append (header_bytes type (length payload)) (payload ++ rest),
    length-append payload rest,
    length-header_bytes type (length payload),
  )

  view_of-packet :
      length payload ≤ max_payload_size
      → view_of packet (length payload) type ≡ packet_view type payload
  unfolding view_of packet packet_view
  view_of-packet small =
      rw (drop_six-header_bytes type (length payload) (payload ++ rest), take-append payload rest)
        (ground arith)

  decode_one-packet :
      All IsByte payload
      → All IsByte rest
      → length payload ≤ max_payload_size
      → is_known type ≡ true
      → decode_one e packet ≡ ok (packet_view type payload)
  decode_one-packet h hr small known =
      decode_one-fields e packet (packet-IsByte h hr) (omega (arith, length-packet))
      ∙ ap₂ (decode_fields packet) sizes types
      ∙ decode_fields_full packet (length payload) type small known (omega (arith, length-packet))
      ∙ ap ok (view_of-packet small)
    where
      sizes : size_field packet ≡ length payload
      sizes = unfold packet in size_field-header_bytes type (length payload) (payload ++ rest) small

      types : type_field packet ≡ type
      types = unfold packet in type_field-header_bytes type (length payload) (payload ++ rest) known

-- If encode_packet on a machine of one byte order accepts a type and a payload of bytes, then
-- decode_one on a machine of any byte order, given the written bytes and any further bytes,
-- succeeds with that type and that payload, and the bytes that it says are consumed are exactly as
-- many as were written.
pub decode_one-encode_packet :
    (e e' : Endian) (type : PacketType) (payload bytes rest : List ℕ)
    → All IsByte payload
    → All IsByte rest
    → encode_packet e type payload ≡ ok bytes
    → (decode_one e' (bytes ++ rest) ≡ ok (packet_view type payload))
      × ((packet_view type payload).consumed_bytes ≡ length bytes)
unfolding packet_view
decode_one-encode_packet e e' type payload bytes rest h hr enc =
    let (small, known, eq) = encode_packet-eq_ok e type payload enc in
    (
      rw eq (
          unfold wire_packet in
          rw append_assoc
            (unfold packet in decode_one-packet e' type payload rest h hr small known)),
      omega (arith, ap length eq, length-wire_packet type payload),
    )

decode_fields-eq_ok :
    (bytes : List ℕ) (size : ℕ) (type : PacketType) {v : PacketView}
    → decode_fields bytes size type ≡ ok v
    → (size ≤ max_payload_size)
      × (is_known type ≡ true)
      × (6 + size ≤ length bytes)
      × (v ≡ view_of bytes size type)
unfolding decode_fields
decode_fields-eq_ok bytes size type h = ground arith

-- What a successful `decode_one` says of the input.
pub decode_one-eq_ok :
    (e : Endian) (bytes : List ℕ) {v : PacketView}
    → All IsByte bytes
    → decode_one e bytes ≡ ok v
    → (size_field bytes ≤ max_payload_size)
      × (is_known (type_field bytes) ≡ true)
      × (6 + size_field bytes ≤ length bytes)
      × (v ≡ view_of bytes (size_field bytes) (type_field bytes))
decode_one-eq_ok e bytes h dec = elim (dec_lt (length bytes) 6) [
  | yes short ↦ cc (dec, decode_one_short e bytes short)
  | no long ↦
      let eq = decode_one-fields e bytes h (omega arith) in
      decode_fields-eq_ok bytes (size_field bytes) (type_field bytes) (sym eq ∙ dec)
]

-- If decode_one accepts a list of bytes, then encode_packet, on a machine of any byte order,
-- writes for the decoded type and payload exactly the consumed front of the input; the payload has
-- the size that the header announces, which is at most 64 KiB, and the consumed bytes lie within
-- the input.
pub encode_packet-decode_one :
    (e e' : Endian) (bytes : List ℕ) {v : PacketView}
    → All IsByte bytes
    → decode_one e bytes ≡ ok v
    → (encode_packet e' v.header.type v.payload ≡ ok (take v.consumed_bytes bytes))
      × (length v.payload ≡ v.header.payload_size)
      × (v.header.payload_size ≤ max_payload_size)
      × (v.consumed_bytes ≤ length bytes)
unfolding view_of wire_packet header_bytes
encode_packet-decode_one e e' bytes {v} h dec =
    let (small, known, fits, eq) = decode_one-eq_ok e bytes h dec in
    let size = size_field bytes in
    let type = type_field bytes in
    let payload = take size (drop 6 bytes) in
    let full : length payload ≡ size =
      omega (arith, length-take size (drop 6 bytes), length-drop 6 bytes) in
    let total : add_size 6 size ≡ 6 + size = omega arith in
    let parts : wire_packet type payload ≡ take (6 + size) bytes =
      ap (λ k. header_bytes type k ++ payload) full
      ∙ ap (λ xs. xs ++ payload) (header_bytes-fields bytes h (omega arith))
      ∙ sym (take-add 6 size bytes) in
    rw eq (
      rw total (encode_packet-wire_packet e' type payload (omega arith) known ∙ ap ok parts),
      full,
      small,
      omega arith,
    )

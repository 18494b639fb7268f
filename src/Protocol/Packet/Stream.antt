-- ===== src/Protocol/Packet/Stream.antt =====
-- Decoding from a stream: an answer that is not "incomplete" is final, and every proper front of a
-- packet is incomplete.
use modern_cpp_room_server.Prelude.{
  ℕ, ◌+◌, ◌≤◌, ◌≡◌, sym, ap₂, ◌∙◌, inl, inr, Bool, true, false, not, List, [], ◌∷◌, ◌++◌, length,
  drop, All, length-append, length-drop, take-append_of_le, drop-append_of_le, All-append,
  All-append_left, All-append_right, ok, err, Expected, arith, Bool-cases,
}
use modern_cpp_room_server.Protocol.Bytes.{IsByte, Endian}
use modern_cpp_room_server.Protocol.Packet.{
  PacketType, PacketView, DecodeError, incomplete_header, view_of, is_incomplete, decode_fields,
  decode_one, encode_packet,
}
use modern_cpp_room_server.Protocol.Packet.Fields.{
  size_field, type_field, decode_one-fields, decode_one_short,
}
use modern_cpp_room_server.Protocol.Packet.RoundTrip.{
  packet_view, decode_one-encode_packet, encode_packet-decode_one,
}
use mathlib.Core.List.{append-nil}
use native.Mathlib.Decide.{dec_lt}

-- Whether the caller may act on the answer without waiting for more bytes.
unfoldable pub is_decided : Expected DecodeError PacketView → Bool
is_decided (ok v) = true
is_decided (err x) = not (is_incomplete x)

module _ (bytes more : List ℕ) (long : 6 ≤ length bytes) where
  size_field-append : size_field (bytes ++ more) ≡ size_field bytes
  size_field-append = rw (take-append_of_le 4 bytes more (omega arith))

  type_field-append : type_field (bytes ++ more) ≡ type_field bytes
  type_field-append = rw (
    drop-append_of_le 4 bytes more (omega arith),
    take-append_of_le 2 (drop 4 bytes) more (omega (arith, length-drop 4 bytes)),
  )

  view_of-append :
      (size : ℕ) (type : PacketType)
      → 6 + size ≤ length bytes
      → view_of (bytes ++ more) size type ≡ view_of bytes size type
  unfolding view_of
  view_of-append size type fits = rw (
    drop-append_of_le 6 bytes more long,
    take-append_of_le size (drop 6 bytes) more (omega (arith, length-drop 6 bytes)),
  )

  decode_fields-append :
      (size : ℕ) (type : PacketType)
      → is_decided (decode_fields bytes size type) ≡ true
      → decode_fields (bytes ++ more) size type ≡ decode_fields bytes size type
  unfolding decode_fields is_decided is_incomplete
  decode_fields-append size type h =
      ground (arith, length-append bytes more, view_of-append size type)

-- If decode_one on a list of bytes answers anything but "incomplete", then it answers the same
-- when further bytes follow.
pub decode_one-append :
    (e : Endian) (bytes more : List ℕ)
    → All IsByte bytes
    → All IsByte more
    → is_decided (decode_one e bytes) ≡ true
    → decode_one e (bytes ++ more) ≡ decode_one e bytes
decode_one-append e bytes more h hm decided = elim (dec_lt (length bytes) 6) [
  | yes short ↦ absurd (short_undecided (rw (decode_one_short e bytes short) at decided))
  | no few ↦
      let long : 6 ≤ length bytes = omega arith in
      let here = decode_one-fields e bytes h long in
      decode_one-fields e (bytes ++ more) (All-append IsByte bytes more h hm)
        (omega (arith, length-append bytes more))
      ∙ ap₂ (decode_fields (bytes ++ more)) (size_field-append bytes more long)
          (type_field-append bytes more long)
      ∙ decode_fields-append bytes more long (size_field bytes) (type_field bytes)
          (rw here at decided)
      ∙ sym here
]
  where
    short_undecided : is_decided (err incomplete_header) ≡ true → ⊥
    short_undecided p = unfold is_decided is_incomplete in cc

-- Every proper front of what encode_packet writes for a payload of bytes is answered by
-- decode_one, on a machine of any byte order, with an error for which is_incomplete holds.
pub decode_one_front :
    (e e' : Endian) (type : PacketType) (payload front back : List ℕ) (x : ℕ)
    → All IsByte payload
    → All IsByte (front ++ (x ∷ back))
    → encode_packet e type payload ≡ ok (front ++ (x ∷ back))
    → is_decided (decode_one e' front) ≡ false
decode_one_front e e' type payload front back x h whole enc =
    elim (Bool-cases (is_decided (decode_one e' front))) [
      | inr waits ↦ waits
      | inl decided ↦
          let all = decode_one-encode_packet e e' type payload (front ++ (x ∷ back)) [] h tt enc in
          let part = All-append_left IsByte front (x ∷ back) whole in
          let same =
            decode_one-append e' front (x ∷ back) part
              (All-append_right IsByte front (x ∷ back) whole) decided in
          let seen : decode_one e' front ≡ ok (packet_view type payload) =
            sym same ∙ (rw append-nil at (all.0)) in
          let bounds = encode_packet-decode_one e' e front part seen in
          absurd (omega (arith, bounds.3, all.1, length-append front (x ∷ back)))
    ]

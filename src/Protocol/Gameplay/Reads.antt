-- ===== src/Protocol/Gameplay/Reads.antt =====
-- The shift-and-or readers read the wire format, as the readers of the packet codec do.
use modern_cpp_room_server.Prelude.{
  ℕ, zero, suc, ◌+◌, ◌*◌, ◌%◌, ◌^◌, ◌≤◌, ◌<◌, ◌≡◌, refl, sym, ap, ◌∙◌, List, [], ◌∷◌, length, take,
  drop, All, length-take, length-drop, take-suc-drop, All-get_or, All-drop, get_or, get_or-drop,
  bit_or, bit_or_disjoint, arith,
}
use modern_cpp_room_server.Protocol.Bytes.{IsByte, Endian, read_big_endian}
use modern_cpp_room_server.Protocol.Bytes.Laws.{wire_value, read_big_endian-wire_value}
use modern_cpp_room_server.Protocol.Bytes.Digits.{wire_value-cons, wire_value-nil}
use modern_cpp_room_server.Protocol.Gameplay.{
  read_uint16_big_endian, read_uint32_big_endian, read_rounds, read_uint64_big_endian,
}
use native.Mathlib.Nat.{pow-suc}

-- A byte of the buffer is a byte of the window that starts at `offset`.
byte-drop :
    (bytes : List ℕ) (offset i : ℕ) → get_or bytes (offset + i) 0 ≡ get_or (drop offset bytes) i 0
byte-drop bytes offset i = sym (get_or-drop offset bytes i 0)

first_byte-drop :
    (bytes : List ℕ) (offset : ℕ) → get_or bytes offset 0 ≡ get_or (drop offset bytes) 0 0
first_byte-drop bytes offset =
    ap (λ k. get_or bytes k 0) {y = offset + 0} (omega arith) ∙ byte-drop bytes offset 0

join_two : (b c : ℕ) → b < 256 → c < 256 → bit_or (b * 2 ^ 8) c % 2 ^ 16 ≡ b * 256 + c
join_two b c hb hc = omega (arith, bit_or_disjoint 8 b c hc)

module _ (b c d f : ℕ) (hb : b < 256) (hc : c < 256) (hd : d < 256) (hf : f < 256) where
  join_upper : bit_or (b * 2 ^ 24 % 2 ^ 32) (c * 2 ^ 16 % 2 ^ 32) ≡ (b * 256 + c) * 2 ^ 16
  join_upper =
      let upper : b * 2 ^ 24 % 2 ^ 32 ≡ b * 2 ^ 24 = omega arith in
      let lower : c * 2 ^ 16 % 2 ^ 32 ≡ c * 2 ^ 16 = omega arith in
      rw (upper, lower) (bit_or_disjoint 24 b (c * 2 ^ 16) (omega arith) ∙ omega arith)

  join_three :
      bit_or ((b * 256 + c) * 2 ^ 16) (d * 2 ^ 8 % 2 ^ 32) ≡ ((b * 256 + c) * 256 + d) * 2 ^ 8
  join_three =
      ap (bit_or ((b * 256 + c) * 2 ^ 16)) {y = d * 2 ^ 8} (omega arith)
      ∙ bit_or_disjoint 16 (b * 256 + c) (d * 2 ^ 8) (omega arith)
      ∙ omega arith

  join_four :
      bit_or (bit_or (bit_or (b * 2 ^ 24 % 2 ^ 32) (c * 2 ^ 16 % 2 ^ 32)) (d * 2 ^ 8 % 2 ^ 32)) f
      ≡ ((b * 256 + c) * 256 + d) * 256 + f
  join_four = rw (join_upper, join_three) (bit_or_disjoint 8 ((b * 256 + c) * 256 + d) f hf)

  wire_value_four : wire_value (b ∷ c ∷ d ∷ f ∷ []) ≡ ((b * 256 + c) * 256 + d) * 256 + f
  wire_value_four = omega (
    arith,
    wire_value-cons b (c ∷ d ∷ f ∷ []),
    wire_value-cons c (d ∷ f ∷ []),
    wire_value-cons d (f ∷ []),
    wire_value-cons f [],
    wire_value-nil,
  )

window32 :
    (w : List ℕ)
    → All IsByte w
    → 4 ≤ length w
    → bit_or
        (bit_or
          (bit_or (get_or w 0 0 * 2 ^ 24 % 2 ^ 32) (get_or w 1 0 * 2 ^ 16 % 2 ^ 32))
          (get_or w 2 0 * 2 ^ 8 % 2 ^ 32))
        (get_or w 3 0)
      ≡ wire_value (take 4 w)
window32 [] h long = absurd (omega arith)
window32 (b ∷ []) h long = absurd (omega arith)
window32 (b ∷ c ∷ []) h long = absurd (omega arith)
window32 (b ∷ c ∷ d ∷ []) h long = absurd (omega arith)
window32 (b ∷ c ∷ d ∷ f ∷ rest) (hb, (hc, (hd, (hf, hr)))) long =
    join_four b c d f hb hc hd hf ∙ sym (wire_value_four b c d f hb hc hd hf)

pub read_uint32-wire_value :
    (bytes : List ℕ) (offset : ℕ)
    → All IsByte bytes
    → offset + 4 ≤ length bytes
    → read_uint32_big_endian bytes offset ≡ wire_value (take 4 (drop offset bytes))
unfolding read_uint32_big_endian
read_uint32-wire_value bytes offset h fits =
    rw
      (
        first_byte-drop bytes offset,
        byte-drop bytes offset 1,
        byte-drop bytes offset 2,
        byte-drop bytes offset 3,
      )
      (window32 (drop offset bytes) (All-drop IsByte offset bytes h)
        (omega (arith, length-drop offset bytes)))

window16 :
    (w : List ℕ)
    → All IsByte w
    → 2 ≤ length w
    → bit_or (get_or w 0 0 * 2 ^ 8) (get_or w 1 0) % 2 ^ 16 ≡ wire_value (take 2 w)
window16 [] h long = absurd (omega arith)
window16 (b ∷ []) h long = absurd (omega arith)
window16 (b ∷ c ∷ rest) (hb, (hc, hr)) long =
    omega
      (arith, join_two b c hb hc, wire_value-cons b (c ∷ []), wire_value-cons c [], wire_value-nil)

pub read_uint16-wire_value :
    (bytes : List ℕ) (offset : ℕ)
    → All IsByte bytes
    → offset + 2 ≤ length bytes
    → read_uint16_big_endian bytes offset ≡ wire_value (take 2 (drop offset bytes))
unfolding read_uint16_big_endian
read_uint16-wire_value bytes offset h fits =
    rw (first_byte-drop bytes offset, byte-drop bytes offset 1)
      (window16 (drop offset bytes) (All-drop IsByte offset bytes h)
        (omega (arith, length-drop offset bytes)))

pow_bound : (m n : ℕ) → m + n ≡ 8 → 256 ^ m ≤ 2 ^ 64
pow_bound zero n e = omega arith
pow_bound (suc zero) n e = omega arith
pow_bound (suc (suc zero)) n e = omega arith
pow_bound (suc (suc (suc zero))) n e = omega arith
pow_bound (suc (suc (suc (suc zero)))) n e = omega arith
pow_bound (suc (suc (suc (suc (suc zero))))) n e = omega arith
pow_bound (suc (suc (suc (suc (suc (suc zero)))))) n e = omega arith
pow_bound (suc (suc (suc (suc (suc (suc (suc zero))))))) n e = omega arith
pow_bound (suc (suc (suc (suc (suc (suc (suc (suc zero)))))))) n e = omega arith
pow_bound (suc (suc (suc (suc (suc (suc (suc (suc (suc m))))))))) n e = absurd (omega arith)

-- `m` bytes are read and `n` are left: the bytes read so far fill the low end, and the shift loses
-- none of them.
read_rounds-wire_value :
    (n m value : ℕ) (bytes : List ℕ) (position : ℕ)
    → All IsByte bytes
    → m + n ≡ 8
    → value < 256 ^ m
    → position + n ≤ length bytes
    → read_rounds n value bytes position
      ≡ value * 256 ^ n + wire_value (take n (drop position bytes))
unfolding read_rounds
read_rounds-wire_value zero m value bytes position h e hv fits = omega (arith, wire_value-nil)
read_rounds-wire_value (suc n) m value bytes position h e hv fits =
    rw (joined, take-suc-drop n bytes position 0 (omega arith))
      (read_rounds-wire_value n (suc m) (value * 256 + b) bytes (position + 1) h (omega arith) small
          (omega arith)
        ∙ omega (
          arith,
          wire_value-cons b window,
          pow-suc 256 n,
          ap (λ (t : ℕ). 256 ^ t * b) full,
          ap (λ (t : ℕ). value * t) (pow-suc 256 n),
        ))
  where
    b : ℕ
    b = get_or bytes position 0

    hb : b < 256
    hb = All-get_or IsByte bytes position 0 h (omega arith)

    window : List ℕ
    window = take n (drop (position + 1) bytes)

    full : length window ≡ n
    full =
        omega (arith, length-take n (drop (position + 1) bytes), length-drop (position + 1) bytes)

    above : value * 256 < 2 ^ 64
    above = omega (arith, pow-suc 256 m, pow_bound (suc m) n (omega arith))

    joined : bit_or (value * 2 ^ 8 % 2 ^ 64) b ≡ value * 256 + b
    joined =
        let kept : value * 2 ^ 8 % 2 ^ 64 ≡ value * 2 ^ 8 = omega (arith, above) in
        rw kept (bit_or_disjoint 8 value b hb)

    small : value * 256 + b < 256 ^ suc m
    small = omega (arith, pow-suc 256 m, hb)

pub read_uint64-wire_value :
    (bytes : List ℕ) (offset : ℕ)
    → All IsByte bytes
    → offset + 8 ≤ length bytes
    → read_uint64_big_endian bytes offset ≡ wire_value (take 8 (drop offset bytes))
unfolding read_uint64_big_endian
read_uint64-wire_value bytes offset h fits =
    read_rounds-wire_value 8 0 0 bytes offset h refl (omega arith) fits ∙ omega arith

-- At an offset of a list of bytes with eight bytes behind it, the readers of 16, 32 and 64 bits in
-- gameplay_payload.cpp, which shift and or, give what read_big_endian of packet_codec.cpp gives
-- there at these sizes on a machine of any byte order.
pub reads-read_big_endian :
    (e : Endian) (bytes : List ℕ) (offset : ℕ)
    → All IsByte bytes
    → offset + 8 ≤ length bytes
    → (read_uint16_big_endian bytes offset ≡ read_big_endian e 2 bytes offset)
      × (read_uint32_big_endian bytes offset ≡ read_big_endian e 4 bytes offset)
      × (read_uint64_big_endian bytes offset ≡ read_big_endian e 8 bytes offset)
reads-read_big_endian e bytes offset h fits = (
  read_uint16-wire_value bytes offset h (omega arith)
      ∙ sym (read_big_endian-wire_value e 2 bytes offset h (omega arith)),
  read_uint32-wire_value bytes offset h (omega arith)
      ∙ sym (read_big_endian-wire_value e 4 bytes offset h (omega arith)),
  read_uint64-wire_value bytes offset h fits
      ∙ sym (read_big_endian-wire_value e 8 bytes offset h fits),
)

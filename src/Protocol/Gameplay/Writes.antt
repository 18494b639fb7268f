-- ===== src/Protocol/Gameplay/Writes.antt =====
-- The shift-and-mask writer puts the wire format into the buffer, as the writer of the packet codec.
use modern_cpp_room_server.Prelude.{
  ℕ, ◌+◌, ◌/◌, ◌%◌, ◌^◌, ◌≤◌, ◌<◌, ◌≡◌, refl, sym, ap, ◌∙◌, List, [], ◌∷◌, ◌++◌, length, take, drop,
  replicate, length-append, take-append-drop, set, bit_and, bit_and_ff, length-set, arith,
}
use modern_cpp_room_server.Protocol.Bytes.{Endian, copy_at, write_big_endian}
use modern_cpp_room_server.Protocol.Bytes.Laws.{
  big_endian, length-big_endian, write_big_endian-copy_at, copy_at-append,
}
use modern_cpp_room_server.Protocol.Bytes.Digits.{big_endian-suc, big_endian-zero, copy_at-set}
use modern_cpp_room_server.Protocol.Gameplay.{
  MovePayload, write_uint32_big_endian, encode_move_payload,
}
use modern_cpp_room_server.Prelude.Int.{bits_of_int32}
use mathlib.Core.List.{append-nil}

copy_at-nil : (bytes : List ℕ) (i : ℕ) → copy_at bytes i [] ≡ bytes
copy_at-nil bytes i =
    ap (λ k. take i bytes ++ drop k bytes) {x = i + 0} (omega arith) ∙ take-append-drop i bytes

big_endian_four :
    (value : ℕ)
    → big_endian 4 value
      ≡ bit_and (value / 2 ^ 24) 0xff
        ∷ bit_and (value / 2 ^ 16) 0xff
        ∷ bit_and (value / 2 ^ 8) 0xff
        ∷ bit_and value 0xff
        ∷ []
big_endian_four value =
    rw
      (
        bit_and_ff (value / 2 ^ 24),
        bit_and_ff (value / 2 ^ 16),
        bit_and_ff (value / 2 ^ 8),
        bit_and_ff value,
        big_endian-suc 3 value,
        big_endian-suc 2 value,
        big_endian-suc 1 value,
        big_endian-suc 0 value,
        big_endian-zero value,
      )
      (ap
        (λ t.
          (value / 2 ^ 24 % 256) ∷ (value / 2 ^ 16 % 256) ∷ (value / 2 ^ 8 % 256) ∷ (t % 256) ∷ [])
        {x = value / 1} (omega arith))

set-copy_at :
    (bytes : List ℕ) (i b : ℕ) → i < length bytes → set bytes i b ≡ copy_at bytes i (b ∷ [])
set-copy_at bytes i b h = sym (copy_at-nil (set bytes i b) (i + 1)) ∙ copy_at-set bytes i b [] h

-- Four bytes set in a row, as one block.
set_four :
    (bytes : List ℕ) (i b c d f : ℕ)
    → i + 4 ≤ length bytes
    → set (set (set (set bytes i b) (i + 1) c) (i + 2) d) (i + 3) f
      ≡ copy_at bytes i (b ∷ c ∷ d ∷ f ∷ [])
set_four bytes i b c d f h =
    set-copy_at s3 (i + 3) f
      (omega (arith, length-set bytes i b, length-set s1 (i + 1) c, length-set s2 (i + 2) d))
    ∙ at (i + 2) (i + 3) s2 d (f ∷ []) (omega arith)
        (omega (arith, length-set bytes i b, length-set s1 (i + 1) c))
    ∙ at (i + 1) (i + 2) s1 c (d ∷ f ∷ []) (omega arith) (omega (arith, length-set bytes i b))
    ∙ copy_at-set bytes i b (c ∷ d ∷ f ∷ []) (omega arith)
  where
    s1 : List ℕ
    s1 = set bytes i b

    s2 : List ℕ
    s2 = set s1 (i + 1) c

    s3 : List ℕ
    s3 = set s2 (i + 2) d

    at :
        (k next : ℕ) (xs : List ℕ) (v : ℕ) (ys : List ℕ)
        → next ≡ k + 1
        → k < length xs
        → copy_at (set xs k v) next ys ≡ copy_at xs k (v ∷ ys)
    at k next xs v ys e fits = rw e (copy_at-set xs k v ys fits)

pub write_uint32-copy_at :
    (bytes : List ℕ) (offset value : ℕ)
    → offset + 4 ≤ length bytes
    → write_uint32_big_endian bytes offset value ≡ copy_at bytes offset (big_endian 4 value)
unfolding write_uint32_big_endian
write_uint32-copy_at bytes offset value h =
    rw (big_endian_four value) (set_four bytes offset _ _ _ _ h)

-- Where four bytes fit behind the offset, write_uint32_big_endian of gameplay_payload.cpp, which
-- shifts and masks, leaves the buffer that write_big_endian of packet_codec.cpp leaves, on a
-- machine of any byte order.
pub write_uint32-write_big_endian :
    (e : Endian) (bytes : List ℕ) (offset value : ℕ)
    → offset + 4 ≤ length bytes
    → write_uint32_big_endian bytes offset value ≡ write_big_endian e 4 bytes offset value
write_uint32-write_big_endian e bytes offset value h =
    write_uint32-copy_at bytes offset value h
    ∙ sym (write_big_endian-copy_at e 4 bytes offset value)

pub encode_move_payload-big_endian :
    (p : MovePayload)
    → encode_move_payload p ≡ big_endian 4 (bits_of_int32 p.x) ++ big_endian 4 (bits_of_int32 p.y)
unfolding encode_move_payload
encode_move_payload-big_endian p =
    let xs = big_endian 4 (bits_of_int32 p.x) in
    let ys = big_endian 4 (bits_of_int32 p.y) in
    let with_x = xs ++ replicate 4 0 in
    let first : write_uint32_big_endian (replicate 8 0) 0 (bits_of_int32 p.x) ≡ with_x =
      write_uint32-copy_at (replicate 8 0) 0 (bits_of_int32 p.x) (omega arith)
      ∙ copy_at-append [] (replicate 4 0) (replicate 4 0) xs (replicate 8 0) 0 refl refl
          (sym (length-big_endian 4 (bits_of_int32 p.x))) in
    rw first (
      write_uint32-copy_at with_x 4 (bits_of_int32 p.y)
        (omega (arith, length-append xs (replicate 4 0), length-big_endian 4 (bits_of_int32 p.x)))
      ∙ copy_at-append xs (replicate 4 0) [] ys with_x 4 refl
          (sym (length-big_endian 4 (bits_of_int32 p.x)))
          (sym (length-big_endian 4 (bits_of_int32 p.y)))
      ∙ ap (◌++◌ xs) (append-nil ys))

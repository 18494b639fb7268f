-- ===== src/Protocol/Bytes/Laws.antt =====
-- What the accesses of Protocol/Bytes.antt mean on the wire, on a machine of either byte order.
use modern_cpp_room_server.Prelude.{
  ℕ, zero, suc, ◌+◌, ◌*◌, ◌/◌, ◌%◌, ◌^◌, ◌≤◌, ◌<◌, ◌≡◌, refl, sym, ap, ap₂, ◌∙◌, List, [], ◌∷◌,
  ◌++◌, reverse, length, take, take-append, drop-append, drop-drop, drop, All, All-append, All-take,
  All-drop, length-reverse, length-take, length-drop, arith,
}
use modern_cpp_room_server.Protocol.Bytes.{
  IsByte, Endian, little, big, low_first, number, load, store, byteswap, copy_at, read_big_endian,
  write_big_endian,
}
use mathlib.Core.List.{reverse-cons, reverse-reverse}
use native.Mathlib.Nat.{pow-suc}

pub length-low_first : (n value : ℕ) → length (low_first n value) ≡ n
unfolding low_first
length-low_first zero value = refl
length-low_first (suc n) value = ap suc (length-low_first n (value / 256))

low_first-IsByte : (n value : ℕ) → All IsByte (low_first n value)
unfolding low_first
low_first-IsByte zero value = tt
low_first-IsByte (suc n) value = (omega arith, low_first-IsByte n (value / 256))

pub number-low_first : (n value : ℕ) → value < 256 ^ n → number (low_first n value) ≡ value
unfolding low_first number
number-low_first zero value h = omega arith
number-low_first (suc n) value h =
    let below : value / 256 < 256 ^ n = omega (arith, pow-suc 256 n) in
    omega (arith, number-low_first n (value / 256) below)

low_first-number : (bs : List ℕ) → All IsByte bs → low_first (length bs) (number bs) ≡ bs
unfolding low_first number
low_first-number [] h = refl
low_first-number (b ∷ bs) (hb, hbs) =
    let low : (b + 256 * number bs) % 256 ≡ b = omega arith in
    let high : (b + 256 * number bs) / 256 ≡ number bs = omega arith in
    rw (low, high) (ap (◌∷◌ b) (low_first-number bs hbs))

All-reverse : (bs : List ℕ) → All IsByte bs → All IsByte (reverse bs)
All-reverse [] h = tt
All-reverse (b ∷ bs) (hb, hbs) =
    rw (reverse-cons b bs) (All-append IsByte (reverse bs) (b ∷ []) (All-reverse bs hbs) (hb, tt))

-- The wire format of an `n`-byte integer, the highest byte first, and its value.
unfoldable pub big_endian : ℕ → ℕ → List ℕ
big_endian n value = reverse (low_first n value)

unfoldable pub wire_value : List ℕ → ℕ
wire_value bytes = number (reverse bytes)

pub length-big_endian : (n value : ℕ) → length (big_endian n value) ≡ n
unfolding big_endian
length-big_endian n value = length-reverse (low_first n value) ∙ length-low_first n value

pub big_endian-IsByte : (n value : ℕ) → All IsByte (big_endian n value)
unfolding big_endian
big_endian-IsByte n value = All-reverse (low_first n value) (low_first-IsByte n value)

pub wire_value-big_endian :
    (n value : ℕ) → value < 256 ^ n → wire_value (big_endian n value) ≡ value
unfolding wire_value big_endian
wire_value-big_endian n value h =
    ap number (reverse-reverse (low_first n value)) ∙ number-low_first n value h

-- A full window of the buffer, read as the wire says.
pub read_big_endian-wire_value :
    (e : Endian) (n : ℕ) (bytes : List ℕ) (offset : ℕ)
    → All IsByte bytes
    → offset + n ≤ length bytes
    → read_big_endian e n bytes offset ≡ wire_value (take n (drop offset bytes))
unfolding read_big_endian load byteswap wire_value
read_big_endian-wire_value big n bytes offset h fits = refl
read_big_endian-wire_value little n bytes offset h fits =
    ap (λ xs. number (reverse xs))
      (subst_length ∙ low_first-number window (All-take IsByte n (drop offset bytes) bounded))
  where
    window : List ℕ
    window = take n (drop offset bytes)

    bounded : All IsByte (drop offset bytes)
    bounded = All-drop IsByte offset bytes h

    full : n ≡ length window
    full = omega (arith, length-take n (drop offset bytes), length-drop offset bytes)

    subst_length : low_first n (number window) ≡ low_first (length window) (number window)
    subst_length = ap (λ k. low_first k (number window)) full

-- Both byte orders put the same bytes on the wire.
pub write_big_endian-copy_at :
    (e : Endian) (n : ℕ) (bytes : List ℕ) (offset value : ℕ)
    → write_big_endian e n bytes offset value ≡ copy_at bytes offset (big_endian n value)
unfolding write_big_endian store byteswap big_endian
write_big_endian-copy_at big n bytes offset value = refl
write_big_endian-copy_at little n bytes offset value =
    ap (copy_at bytes offset)
      (ap (λ k. low_first k (number wire)) full ∙ low_first-number wire bounded)
  where
    wire : List ℕ
    wire = reverse (low_first n value)

    bounded : All IsByte wire
    bounded = All-reverse (low_first n value) (low_first-IsByte n value)

    full : n ≡ length wire
    full = sym (length-reverse (low_first n value) ∙ length-low_first n value)

-- A copy over the middle part of a buffer.
pub copy_at-append :
    (front old rest source target : List ℕ) (offset : ℕ)
    → target ≡ front ++ (old ++ rest)
    → offset ≡ length front
    → length old ≡ length source
    → copy_at target offset source ≡ front ++ (source ++ rest)
copy_at-append front old rest source target offset e at same =
    rw (e, at, ← same) (ap₂ (λ xs ys. xs ++ (source ++ ys)) (take-append front (old ++ rest)) tail)
  where
    tail : drop (length front + length old) (front ++ (old ++ rest)) ≡ rest
    tail =
        sym (drop-drop (length old) (length front) (front ++ (old ++ rest)))
        ∙ ap (drop (length old)) (drop-append front (old ++ rest))
        ∙ drop-append old rest

pub big_endian-wire_value :
    (n : ℕ) (bytes : List ℕ)
    → All IsByte bytes
    → length bytes ≡ n
    → big_endian n (wire_value bytes) ≡ bytes
unfolding big_endian wire_value
big_endian-wire_value n bytes h full =
    ap reverse (
      ap (λ k. low_first k (number (reverse bytes))) (sym full ∙ sym (length-reverse bytes))
      ∙ low_first-number (reverse bytes) (All-reverse bytes h))
    ∙ reverse-reverse bytes

number-lt : (bs : List ℕ) → All IsByte bs → number bs < 256 ^ length bs
unfolding number
number-lt [] h = omega arith
number-lt (b ∷ bs) (hb, hbs) = omega (arith, number-lt bs hbs, pow-suc 256 (length bs))

pub wire_value-lt : (bytes : List ℕ) → All IsByte bytes → wire_value bytes < 256 ^ length bytes
unfolding wire_value
wire_value-lt bytes h =
    rw (← length-reverse bytes) (number-lt (reverse bytes) (All-reverse bytes h))

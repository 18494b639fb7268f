-- ===== src/Protocol/Bytes/Digits.antt =====
-- The wire format one byte at a time: what a loop of shifts and masks reads and writes.
use modern_cpp_room_server.Prelude.{
  ℕ, zero, suc, ◌+◌, ◌*◌, ◌/◌, ◌%◌, ◌^◌, ◌<◌, ◌≡◌, refl, sym, ap, ap₂, ◌∙◌, List, [], ◌∷◌, ◌++◌,
  reverse, length, take, drop, set, take-append_of_eq, drop-append_of_eq, set-eq_append,
  length-reverse, length-take, drop-drop, length-append, arith,
}
use modern_cpp_room_server.Protocol.Bytes.{low_first, number, copy_at}
use modern_cpp_room_server.Protocol.Bytes.Laws.{big_endian, wire_value}
use mathlib.Core.List.{reverse-cons, reverse-append, append_assoc}
use native.Mathlib.Nat.{pow-suc, mul_comm, div-div-eq-div-mul}

number-append_last :
    (xs : List ℕ) (b : ℕ) → number (xs ++ (b ∷ [])) ≡ number xs + 256 ^ length xs * b
unfolding number
number-append_last [] b = omega arith
number-append_last (x ∷ xs) b =
    omega (arith, number-append_last xs b, ap (λ (t : ℕ). t * b) (pow-suc 256 (length xs)))

pub wire_value-cons :
    (b : ℕ) (bs : List ℕ) → wire_value (b ∷ bs) ≡ 256 ^ length bs * b + wire_value bs
unfolding wire_value
wire_value-cons b bs =
    ap number (reverse-cons b bs)
    ∙ omega
        (arith, number-append_last (reverse bs) b, ap (λ (n : ℕ). 256 ^ n * b) (length-reverse bs))

pub wire_value-nil : wire_value [] ≡ 0
unfolding wire_value number
wire_value-nil = refl

low_first-last :
    (n value : ℕ) → low_first (suc n) value ≡ low_first n value ++ ((value / 256 ^ n % 256) ∷ [])
unfolding low_first
low_first-last zero value = ap (λ t. (t % 256) ∷ []) {x = value} (omega arith)
low_first-last (suc n) value = ap (◌∷◌ (value % 256)) (
    low_first-last n (value / 256)
    ∙ ap (λ t. low_first n (value / 256) ++ ((t % 256) ∷ [])) (shifted n value))
  where
    shifted : (n value : ℕ) → value / 256 / 256 ^ n ≡ value / 256 ^ suc n
    shifted n value =
        div-div-eq-div-mul value 256 (256 ^ n)
        ∙ ap (λ t. value / t) (mul_comm 256 (256 ^ n) ∙ sym (pow-suc 256 n))

-- The highest of `n + 1` bytes comes first.
pub big_endian-suc :
    (n value : ℕ) → big_endian (suc n) value ≡ (value / 256 ^ n % 256) ∷ big_endian n value
unfolding big_endian
big_endian-suc n value =
    ap reverse (low_first-last n value)
    ∙ reverse-append (low_first n value) ((value / 256 ^ n % 256) ∷ [])

pub big_endian-zero : (value : ℕ) → big_endian 0 value ≡ []
unfolding big_endian low_first
big_endian-zero value = refl

-- A byte that is set and a block that is copied behind it make one block.
pub copy_at-set {ℓ} :
    {A : Type ℓ} (bytes : List A) (i : ℕ) (b : A) (source : List A)
    → i < length bytes
    → copy_at (set bytes i b) (i + 1) source ≡ copy_at bytes i (b ∷ source)
copy_at-set {A} bytes i b source h =
    rw (set-eq_append bytes i b h, ← append_assoc (take i bytes) (b ∷ []) tail)
      (ap₂ (λ xs ys. xs ++ (source ++ ys)) (take-append_of_eq (i + 1) front tail at) rest
        ∙ append_assoc (take i bytes) (b ∷ []) _)
  where
    tail : List A
    tail = drop (suc i) bytes

    front : List A
    front = take i bytes ++ (b ∷ [])

    at : i + 1 ≡ length front
    at = omega (arith, length-append (take i bytes) (b ∷ []), length-take i bytes)

    rest : drop (i + 1 + length source) (front ++ tail) ≡ drop (i + suc (length source)) bytes
    rest =
        sym (drop-drop (length source) (i + 1) (front ++ tail))
        ∙ ap (drop (length source)) (drop-append_of_eq (i + 1) front tail at)
        ∙ drop-drop (length source) (suc i) bytes
        ∙ ap (λ k. drop k bytes) {x = suc i + length source} (omega arith)

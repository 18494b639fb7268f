-- ===== src/Prelude/Int.antt =====
-- `std::int32_t` as an integer in its range, and `std::bit_cast` between it and `std::uint32_t`.
use modern_cpp_room_server.Prelude.{ℕ, ◌-◌, ◌^◌, ◌<◌, ◌≡◌, arith, ltb, if◌then◌else◌}

-- `negsuc n` is -(n + 1).
pub data ℤ : Type 0 where
  pos : ℕ → ℤ
  negsuc : ℕ → ℤ

abbrev pub IsInt32 : ℤ → Type 0
IsInt32 (pos n) = n < 2 ^ 31
IsInt32 (negsuc n) = n < 2 ^ 31

unfoldable pub int32_of_bits : ℕ → ℤ
int32_of_bits w = if ltb w (2 ^ 31) then pos w else negsuc (2 ^ 32 - w - 1)

unfoldable pub bits_of_int32 : ℤ → ℕ
bits_of_int32 (pos n) = n
bits_of_int32 (negsuc n) = 2 ^ 32 - 1 - n

pub bits_of_int32-lt : (z : ℤ) → IsInt32 z → bits_of_int32 z < 2 ^ 32
unfolding bits_of_int32
bits_of_int32-lt (pos n) h = omega arith
bits_of_int32-lt (negsuc n) h = omega arith

pub int32_of_bits-bits_of_int32 : (z : ℤ) → IsInt32 z → int32_of_bits (bits_of_int32 z) ≡ z
unfolding int32_of_bits bits_of_int32
int32_of_bits-bits_of_int32 (pos n) h = ground arith
int32_of_bits-bits_of_int32 (negsuc n) h = ground arith

pub bits_of_int32-int32_of_bits : (w : ℕ) → w < 2 ^ 32 → bits_of_int32 (int32_of_bits w) ≡ w
unfolding int32_of_bits bits_of_int32
bits_of_int32-int32_of_bits w h = ground arith

pub int32_of_bits-IsInt32 : (w : ℕ) → w < 2 ^ 32 → IsInt32 (int32_of_bits w)
unfolding int32_of_bits
int32_of_bits-IsInt32 w h = ground arith

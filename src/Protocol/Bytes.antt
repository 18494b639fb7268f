-- ===== src/Protocol/Bytes.antt =====
-- The big-endian accesses of src/protocol/packet_codec.cpp. A byte buffer is a list of numbers below
-- 256. `memcpy` moves a value between memory and a variable in the byte order of the machine, which
-- is a parameter; `std::byteswap` reverses the bytes of a value.
pub mod Laws
pub mod Digits
use modern_cpp_room_server.Prelude.{
  ℕ, zero, suc, ◌+◌, ◌*◌, ◌/◌, ◌%◌, ◌<◌, List, [], ◌∷◌, ◌++◌, reverse, length, take, drop,
}

abbrev pub IsByte : ℕ → Type 0
IsByte b = b < 256

pub data Endian : Type 0 where
  little big : Endian

-- The `n` low bytes of a value, the lowest first, and the value of such bytes.
unfoldable pub low_first : ℕ → ℕ → List ℕ
low_first zero value = []
low_first (suc n) value = (value % 256) ∷ low_first n (value / 256)

unfoldable pub number : List ℕ → ℕ
number [] = 0
number (b ∷ bs) = b + 256 * number bs

unfoldable pub load : Endian → List ℕ → ℕ
load little bytes = number bytes
load big bytes = number (reverse bytes)

unfoldable pub store : Endian → ℕ → ℕ → List ℕ
store little n value = low_first n value
store big n value = reverse (low_first n value)

unfoldable pub byteswap : ℕ → ℕ → ℕ
byteswap n value = number (reverse (low_first n value))

-- `memcpy` of `source` to `target + offset`.
abbrev pub copy_at {ℓ} : {A : Type ℓ} → List A → ℕ → List A → List A
copy_at target offset source =
    take offset target ++ (source ++ drop (offset + length source) target)

-- `n` is `sizeof(T)`.
unfoldable pub read_big_endian : Endian → ℕ → List ℕ → ℕ → ℕ
read_big_endian little n bytes offset = byteswap n (load little (take n (drop offset bytes)))
read_big_endian big n bytes offset = load big (take n (drop offset bytes))

unfoldable pub write_big_endian : Endian → ℕ → List ℕ → ℕ → ℕ → List ℕ
write_big_endian little n bytes offset value =
    copy_at bytes offset (store little n (byteswap n value))
write_big_endian big n bytes offset value = copy_at bytes offset (store big n value)

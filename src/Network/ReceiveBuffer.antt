-- ===== src/Network/ReceiveBuffer.antt =====
-- src/network/receive_buffer.cpp. `storage_` is a list with its capacity beside it. How a vector grows
-- is the library's choice: `grow capacity needed` is the capacity after a reallocation for `needed`
-- elements. The `assert` of `consume` is a hypothesis of the theorems.
pub mod Valid
pub mod Refines
use modern_cpp_room_server.Prelude.{
  ℕ, ◌+◌, ◌<◌, ◌≤◌, ◌^◌, Bool, true, false, not, ◌&&◌, List, [], ◌∷◌, ◌++◌, length, take, drop, min,
  ltb, leb, ◌==◌, if◌then◌else◌, add_size, sub_size, Expected, ok, err,
}
use modern_cpp_room_server.Protocol.Bytes.{copy_at}

pub record ReceiveBuffer : Type 0 where
  pub storage : List ℕ
  pub capacity : ℕ
  pub max_buffered_bytes : ℕ
  pub read_offset : ℕ

pub data ReceiveBufferError : Type 0 where
  buffer_limit_exceeded : ReceiveBufferError

-- What is known of the growth of a vector: it makes room, and stays within `max_size`.
pub record IsGrowth (grow : ℕ → ℕ → ℕ) : Type 0 where
  pub enough : (capacity needed : ℕ) → needed ≤ grow capacity needed
  pub addressable : (capacity needed : ℕ) → needed < 2 ^ 63 → grow capacity needed < 2 ^ 63

unfoldable pub readable_bytes : ReceiveBuffer → List ℕ
readable_bytes r = drop r.read_offset r.storage

unfoldable pub size : ReceiveBuffer → ℕ
size r = sub_size (length r.storage) r.read_offset

pub max_size : ReceiveBuffer → ℕ
max_size r = r.max_buffered_bytes

unfoldable pub empty : ReceiveBuffer → Bool
unfolding size
empty r = size r == 0

unfoldable pub compact : ReceiveBuffer → ReceiveBuffer
unfolding size
compact r =
    let readable_size = size r in
    let moved = copy_at r.storage 0 (take readable_size (drop r.read_offset r.storage)) in
    record r { storage = take readable_size moved; read_offset = 0 }

unfoldable pub consume : ReceiveBuffer → ℕ → ReceiveBuffer
consume r byte_count =
    let read_offset = add_size r.read_offset byte_count in
    if read_offset == length r.storage
    then record r { storage = []; read_offset = 0 }
    else record r { read_offset = read_offset }

unfoldable pub make_room : ReceiveBuffer → ℕ → ReceiveBuffer
make_room r count =
    let unused_tail_capacity = sub_size r.capacity (length r.storage) in
    if not (r.read_offset == 0) && ltb unused_tail_capacity count then compact r else r

module _ (grow : ℕ → ℕ → ℕ) where
  -- `ReceiveBuffer(max_buffered_bytes, initial_capacity)`
  pub new : ℕ → ℕ → ReceiveBuffer
  new max_buffered_bytes initial_capacity =
      let wanted = min initial_capacity max_buffered_bytes in
      record {
        storage = [];
        capacity = if wanted == 0 then 0 else grow 0 wanted;
        max_buffered_bytes = max_buffered_bytes;
        read_offset = 0;
      }

  -- `storage_.insert(storage_.end(), ...)`
  unfoldable pub insert_end : ReceiveBuffer → List ℕ → ReceiveBuffer
  insert_end r bytes =
      let needed = length r.storage + length bytes in
      record r {
        storage = r.storage ++ bytes;
        capacity = if leb needed r.capacity then r.capacity else grow r.capacity needed;
      }

  unfoldable pub append :
      ReceiveBuffer → List ℕ → Expected ReceiveBufferError (Unit {0}) × ReceiveBuffer
  append r bytes =
      if length bytes == 0
      then (ok tt, r)
      else if ltb (sub_size r.max_buffered_bytes (size r)) (length bytes)
      then (err buffer_limit_exceeded, r)
      else (ok tt, insert_end (make_room r (length bytes)) bytes)

-- ===== src/Network/ReceiveBuffer/Valid.antt =====
-- The representation invariant of the receive buffer: no subtraction wraps, no access leaves the
-- storage, and the unread bytes stay within the limit.
use modern_cpp_room_server.Prelude.{
  ℕ, ◌+◌, ◌-◌, ◌^◌, ◌≤◌, ◌<◌, min, ◌≡◌, refl, sym, ap, ◌∙◌, ◌⊎◌, inl, inr, not, ◌&&◌, List, length,
  drop, length-append, length-drop, take-append_of_eq, take_of_length_le, arith, ltb, ◌==◌,
  sub_size, Bool-cases,
}
use modern_cpp_room_server.Network.ReceiveBuffer.{
  ReceiveBuffer, IsGrowth, readable_bytes, size, compact, consume, new, insert_end, make_room,
  append,
}

pub record IsValid (r : ReceiveBuffer) : Type 0 where
  pub offset_in : r.read_offset ≤ length r.storage
  pub held : length r.storage ≤ r.capacity
  pub addressable : r.capacity < 2 ^ 63
  pub limited : length r.storage - r.read_offset ≤ r.max_buffered_bytes
  pub limit_small : r.max_buffered_bytes < 2 ^ 63
  pub cleared : (r.read_offset ≡ 0) ⊎ (r.read_offset < length r.storage)

pub size-length : {r : ReceiveBuffer} → IsValid r → size r ≡ length (readable_bytes r)
unfolding size readable_bytes
size-length {r} v = omega (arith, length-drop r.read_offset r.storage)

size-sub : {r : ReceiveBuffer} → IsValid r → size r ≡ length r.storage - r.read_offset
unfolding size
size-sub v = omega arith

-- `compact` moves the unread bytes to the front and keeps them.
pub storage-compact : {r : ReceiveBuffer} → IsValid r → (compact r).storage ≡ readable_bytes r
unfolding compact readable_bytes
storage-compact {r} v =
    let unread = drop r.read_offset r.storage in
    let n = length r.storage - r.read_offset in
    let full : length unread ≡ n = length-drop r.read_offset r.storage in
    rw (size-sub v, take_of_length_le n unread (omega arith))
      (take-append_of_eq n unread _ (sym full))

length-compact : {r : ReceiveBuffer} → IsValid r → length (compact r).storage ≡ size r
length-compact v = ap length (storage-compact v) ∙ sym (size-length v)

compact-IsValid : {r : ReceiveBuffer} → IsValid r → IsValid (compact r)
unfolding compact size
compact-IsValid v = omega (arith, length-compact v)

-- Consuming no more than what is unread keeps the invariant.
pub consume-IsValid : {r : ReceiveBuffer} (n : ℕ) → IsValid r → n ≤ size r → IsValid (consume r n)
unfolding consume size
consume-IsValid n v h = ground arith

-- After `make_room` the bytes fit the storage, or the unread bytes stand at its front.
pub record HasRoom (r s : ReceiveBuffer) (n : ℕ) : Type 0 where
  pub valid : IsValid s
  pub same_bytes : readable_bytes s ≡ readable_bytes r
  pub same_limit : s.max_buffered_bytes ≡ r.max_buffered_bytes
  pub same_capacity : s.capacity ≡ r.capacity
  pub room : (s.read_offset ≡ 0) ⊎ (length s.storage + n ≤ s.capacity)

pub make_room-HasRoom : {r : ReceiveBuffer} (n : ℕ) → IsValid r → HasRoom r (make_room r n) n
unfolding make_room
make_room-HasRoom {r} n v =
    elim (Bool-cases (not (r.read_offset == 0) && ltb (sub_size r.capacity (length r.storage)) n)) [
      | inl moved ↦ rw moved (record {
        valid = compact-IsValid v;
        same_bytes = unfold compact readable_bytes in storage-compact v;
        same_limit = unfold compact in refl;
        same_capacity = unfold compact in refl;
        room = unfold compact in inl refl;
      })
      | inr kept ↦ rw kept (record {
        valid = v;
        same_bytes = refl;
        same_limit = refl;
        same_capacity = refl;
        room = ground arith;
      })
    ]

module _ (grow : ℕ → ℕ → ℕ) (growth : IsGrowth grow) where
  pub new-IsValid : (limit capacity : ℕ) → limit < 2 ^ 63 → IsValid (new grow limit capacity)
  unfolding new
  new-IsValid limit capacity h = ground (arith, growth.addressable 0 (min capacity limit))

  insert_end-IsValid :
      {r : ReceiveBuffer} (bytes : List ℕ)
      → IsValid r
      → size r + length bytes ≤ r.max_buffered_bytes
      → (r.read_offset ≡ 0) ⊎ (length r.storage + length bytes ≤ r.capacity)
      → IsValid (insert_end grow r bytes)
  unfolding insert_end size
  insert_end-IsValid {r} bytes v fits room = ground (
    arith,
    length-append r.storage bytes,
    growth.enough r.capacity (length r.storage + length bytes),
    growth.addressable r.capacity (length r.storage + length bytes),
  )

  -- `append` keeps the invariant, whether it takes the bytes or refuses them.
  pub append-IsValid :
      {r : ReceiveBuffer} (bytes : List ℕ) → IsValid r → IsValid (append grow r bytes).1
  unfolding append
  append-IsValid {r} bytes v =
      let h = make_room-HasRoom (length bytes) v in
      ground (
        arith,
        size-length v,
        size-length h.valid,
        ap length h.same_bytes,
        size-sub v,
        λ (fits : size (make_room r (length bytes)) + length bytes
              ≤ (make_room r (length bytes)).max_buffered_bytes).
            insert_end-IsValid bytes h.valid fits h.room,
      )

-- ===== src/Network/ReceiveBuffer/Refines.antt =====
-- The receive buffer refines a bounded queue of bytes: its unread bytes and its limit are all that a
-- client can see.
use modern_cpp_room_server.Prelude.{
  ℕ, ◌+◌, ◌-◌, ◌^◌, ◌≤◌, ◌<◌, ◌≡◌, refl, sym, ap, ap₂, ◌∙◌, ◌⊎◌, inl, inr, List, [], ◌∷◌, ◌++◌,
  length, drop, length-drop, drop-append_of_le, drop_of_length_le, drop-drop, ok, err, Expected,
  arith, ltb, leb, ◌==◌, if◌then◌else◌, add_size, sub_size, Bool-cases, ==_iff,
}
use modern_cpp_room_server.Network.ReceiveBuffer.{
  ReceiveBuffer, ReceiveBufferError, buffer_limit_exceeded, IsGrowth, readable_bytes, size, consume,
  new, insert_end, make_room, append,
}
use modern_cpp_room_server.Network.ReceiveBuffer.Valid.{
  IsValid, HasRoom, size-length, make_room-HasRoom, new-IsValid, append-IsValid, consume-IsValid,
}
use mathlib.Core.List.{append-nil}

-- The specification: the bytes received and not yet consumed, oldest first.
pub record ByteQueue : Type 0 where
  pub contents : List ℕ
  pub limit : ℕ

unfoldable pub push_bytes : ByteQueue → List ℕ → Expected ReceiveBufferError (Unit {0}) × ByteQueue
push_bytes q bytes =
    if leb (length q.contents + length bytes) q.limit
    then (ok tt, record q { contents = q.contents ++ bytes })
    else (err buffer_limit_exceeded, q)

unfoldable pub drop_bytes : ByteQueue → ℕ → ByteQueue
drop_bytes q n = record q { contents = drop n q.contents }

abbrev pub view : ReceiveBuffer → ByteQueue
view r = record { contents = readable_bytes r; limit = r.max_buffered_bytes }

length-readable : (r : ReceiveBuffer) → length (readable_bytes r) ≡ length r.storage - r.read_offset
unfolding readable_bytes
length-readable r = length-drop r.read_offset r.storage

short : {r : ReceiveBuffer} → IsValid r → length (readable_bytes r) ≤ r.max_buffered_bytes
unfolding readable_bytes
short {r} v = omega (arith, length-drop r.read_offset r.storage)

pub readable-consume :
    {r : ReceiveBuffer} (n : ℕ)
    → IsValid r
    → n ≤ size r
    → readable_bytes (consume r n) ≡ drop n (readable_bytes r)
unfolding readable_bytes consume size
readable-consume {r} n v h =
    let sum : add_size r.read_offset n ≡ r.read_offset + n = omega arith in
    elim (Bool-cases ((r.read_offset + n) == length r.storage)) [
      | inl all ↦
          let reached : r.read_offset + n ≡ length r.storage = (==_iff _ _).0 all in
          rw (sum, all, drop-drop n r.read_offset r.storage)
            (sym (drop_of_length_le (r.read_offset + n) r.storage (omega arith)))
      | inr some_left ↦ rw (sum, some_left) (sym (drop-drop n r.read_offset r.storage))
    ]

-- On a valid buffer, consuming at most size() bytes removes that many bytes from the front of the
-- unread bytes and keeps the limit.
pub consume-refines :
    {r : ReceiveBuffer} (n : ℕ)
    → IsValid r
    → n ≤ size r
    → view (consume r n) ≡ drop_bytes (view r) n
unfolding drop_bytes
consume-refines {r} n v h =
    let same : (consume r n).max_buffered_bytes ≡ r.max_buffered_bytes =
      unfold consume in ground arith in
    ap₂ (λ xs k. record { contents = xs; limit = k }) (readable-consume n v h) same

module _ (grow : ℕ → ℕ → ℕ) (growth : IsGrowth grow) where
  readable-insert_end :
      (r : ReceiveBuffer) (bytes : List ℕ)
      → r.read_offset ≤ length r.storage
      → readable_bytes (insert_end grow r bytes) ≡ readable_bytes r ++ bytes
  unfolding readable_bytes insert_end
  readable-insert_end r bytes h = drop-append_of_le r.read_offset r.storage bytes h

  limit-insert_end :
      (r : ReceiveBuffer) (bytes : List ℕ)
      → (insert_end grow r bytes).max_buffered_bytes ≡ r.max_buffered_bytes
  unfolding insert_end
  limit-insert_end r bytes = refl

  -- On a valid buffer, and with a vector growth that makes room, append answers and leaves the
  -- unread bytes and the limit as a bounded byte queue does: bytes that fit the limit are added at
  -- the end, and bytes that do not are refused and change nothing that can be read.
  pub append-refines :
      {r : ReceiveBuffer} (bytes : List ℕ)
      → IsValid r
      → ((append grow r bytes).0, view (append grow r bytes).1) ≡ push_bytes (view r) bytes
  unfolding append push_bytes
  append-refines {r} [] v = ground (arith, short v, append-nil (readable_bytes r))
  append-refines {r} (b ∷ bs) v =
      let bytes = b ∷ bs in
      let h = make_room-HasRoom (length bytes) v in
      let s = make_room r (length bytes) in
      let at_end : readable_bytes (insert_end grow s bytes) ≡ readable_bytes r ++ bytes =
        readable-insert_end s bytes h.valid.offset_in ∙ ap (λ xs. xs ++ bytes) h.same_bytes in
      let limit : (insert_end grow s bytes).max_buffered_bytes ≡ r.max_buffered_bytes =
        limit-insert_end s bytes ∙ h.same_limit in
      ground (arith, size-length v, short v, at_end, limit)

-- What a client can do from a new buffer on, consuming never more than `size`.
pub data Reach (grow : ℕ → ℕ → ℕ) : ReceiveBuffer → Type 0 where
  made : (limit capacity : ℕ) → limit < 2 ^ 63 → Reach grow (new grow limit capacity)
  fed : {r : ReceiveBuffer} (bytes : List ℕ) → Reach grow r → Reach grow (append grow r bytes).1
  eaten : {r : ReceiveBuffer} (n : ℕ) → n ≤ size r → Reach grow r → Reach grow (consume r n)

-- With a vector growth that makes room and stays below 2^63, every buffer that is reached from a
-- new one with a limit below 2^63 by appends and by consuming at most size() bytes has its read
-- offset within the storage, the storage within its capacity, at most the limit of unread bytes,
-- and no read bytes left over once all are read.
pub Reach-IsValid :
    {grow : ℕ → ℕ → ℕ} {r : ReceiveBuffer} → IsGrowth grow → Reach grow r → IsValid r
Reach-IsValid {grow} growth (made limit capacity h) = new-IsValid grow growth limit capacity h
Reach-IsValid {grow} growth (fed bytes p) =
    append-IsValid grow growth bytes (Reach-IsValid growth p)
Reach-IsValid growth (eaten n h p) = consume-IsValid n (Reach-IsValid growth p) h

module _ (grow : ℕ → ℕ → ℕ) where
  -- On a valid buffer append leaves the capacity, or grows the storage for a need that is above
  -- the capacity and at most max_buffered_bytes.
  pub append_growth_limited :
      {r : ReceiveBuffer} (bytes : List ℕ)
      → IsValid r
      → ((append grow r bytes).1.capacity ≡ r.capacity)
        ⊎ ((needed : ℕ) × ((append grow r bytes).1.capacity ≡ grow r.capacity needed)
            × (needed ≤ r.max_buffered_bytes)
            × (r.capacity < needed))
  unfolding append insert_end
  append_growth_limited {r} bytes v =
      let s = make_room r (length bytes) in
      let needed = length s.storage + length bytes in
      elim (Bool-cases (length bytes == 0)) [
        | inl none_new ↦ rw none_new (inl refl)
        | inr some_new ↦
            elim (Bool-cases (ltb (sub_size r.max_buffered_bytes (size r)) (length bytes))) [
              | inl refused ↦ rw (some_new, refused) (inl refl)
              | inr taken ↦ elim (Bool-cases (leb needed s.capacity)) [
                | inl fits ↦ rw (some_new, taken, fits) (inl same)
                | inr grown ↦
                    rw (some_new, taken, grown)
                      (inr (
                        needed,
                        ap (λ c. grow c needed) same,
                        ground (
                          arith,
                          size-length v,
                          short v,
                          ap length room.same_bytes,
                          length-readable s,
                          room.room,
                        ),
                        ground (arith, same),
                      ))
              ]
            ]
      ]
    where
      same : (make_room r (length bytes)).capacity ≡ r.capacity
      same = (make_room-HasRoom (length bytes) v).same_capacity

      room : HasRoom r (make_room r (length bytes)) (length bytes)
      room = make_room-HasRoom (length bytes) v

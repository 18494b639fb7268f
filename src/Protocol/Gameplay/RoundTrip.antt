-- ===== src/Protocol/Gameplay/RoundTrip.antt =====
-- Round trips of the gameplay payloads.
use modern_cpp_room_server.Prelude.{
  ℕ, ◌+◌, ◌^◌, ◌≤◌, ◌<◌, ◌≡◌, refl, sym, subst, ap, ap₂, ◌∙◌, List, [], ◌++◌, length, take, drop,
  All, length-append, length-take, length-drop, take-append_of_eq, drop-append_of_eq,
  take_of_length_le, take-add, All-append, All-take, All-drop, ok, arith,
}
use modern_cpp_room_server.Prelude.Int.{
  IsInt32, int32_of_bits, bits_of_int32, bits_of_int32-lt, int32_of_bits-bits_of_int32,
  bits_of_int32-int32_of_bits, int32_of_bits-IsInt32,
}
use modern_cpp_room_server.Protocol.Bytes.{IsByte}
use modern_cpp_room_server.Protocol.Bytes.Laws.{
  big_endian, wire_value, length-big_endian, wire_value-big_endian, big_endian-wire_value,
  big_endian-IsByte, wire_value-lt,
}
use modern_cpp_room_server.Protocol.Gameplay.{
  MovePayload, PlayerStatePayload, PlayerLeftPayload, read_uint16_big_endian,
  read_uint32_big_endian, read_uint64_big_endian, decode_move_payload, encode_move_payload,
  decode_player_state_payload, decode_player_left_payload,
}
use modern_cpp_room_server.Protocol.Gameplay.Reads.{
  read_uint16-wire_value, read_uint32-wire_value, read_uint64-wire_value,
}
use modern_cpp_room_server.Protocol.Gameplay.Writes.{encode_move_payload-big_endian}
use mathlib.Core.List.{append-nil, append_assoc}

-- A field of a buffer that is put together from its parts.
module _ (front field rest : List ℕ) (offset n : ℕ) (at : offset ≡ length front)
    (size : n ≡ length field) where
  window-append : take n (drop offset (front ++ (field ++ rest))) ≡ field
  window-append =
      rw (drop-append_of_eq offset front (field ++ rest) at) (take-append_of_eq n field rest size)

  window_fits : offset + n ≤ length (front ++ (field ++ rest))
  window_fits = omega (arith, length-append front (field ++ rest), length-append field rest)

module _ (front rest : List ℕ) (offset value : ℕ) (at : offset ≡ length front) (n : ℕ) where
  field_buffer : List ℕ
  field_buffer = front ++ (big_endian n value ++ rest)

  field_value : value < 256 ^ n → wire_value (take n (drop offset field_buffer)) ≡ value
  unfolding field_buffer
  field_value h =
      rw
        (window-append front (big_endian n value) rest offset n at
          (sym (length-big_endian n value)))
        (wire_value-big_endian n value h)

  field_fits : offset + n ≤ length field_buffer
  unfolding field_buffer
  field_fits =
      window_fits front (big_endian n value) rest offset n at (sym (length-big_endian n value))

-- The bytes of the three payloads.
pub move_bytes : MovePayload → List ℕ
move_bytes p = big_endian 4 (bits_of_int32 p.x) ++ big_endian 4 (bits_of_int32 p.y)

unfoldable pub player_state_bytes : PlayerStatePayload → List ℕ
player_state_bytes p =
    big_endian 8 p.session_id
    ++ (big_endian 4 (bits_of_int32 p.x) ++ big_endian 4 (bits_of_int32 p.y))

unfoldable pub player_left_bytes : PlayerLeftPayload → List ℕ
player_left_bytes p = big_endian 8 p.session_id ++ big_endian 2 p.reason

module _ (id u v : ℕ) (hid : id < 2 ^ 64) (hu : u < 2 ^ 32) (hv : v < 2 ^ 32) where
  state_bytes : List ℕ
  state_bytes = big_endian 8 id ++ (big_endian 4 u ++ big_endian 4 v)

  state_bytes-IsByte : All IsByte state_bytes
  unfolding state_bytes
  state_bytes-IsByte =
      All-append IsByte _ _ (big_endian-IsByte 8 id)
        (All-append IsByte _ _ (big_endian-IsByte 4 u) (big_endian-IsByte 4 v))

  length-state_bytes : length state_bytes ≡ 16
  unfolding state_bytes
  length-state_bytes = omega (
    arith,
    length-append (big_endian 8 id) (big_endian 4 u ++ big_endian 4 v),
    length-append (big_endian 4 u) (big_endian 4 v),
    length-big_endian 8 id,
    length-big_endian 4 u,
    length-big_endian 4 v,
  )

  read_id : read_uint64_big_endian state_bytes 0 ≡ id
  read_id =
      read_uint64-wire_value state_bytes 0 state_bytes-IsByte (omega (arith, length-state_bytes))
      ∙ unfold state_bytes field_buffer in
        field_value [] (big_endian 4 u ++ big_endian 4 v) 0 id refl 8 hid

  read_x : read_uint32_big_endian state_bytes 8 ≡ u
  read_x =
      read_uint32-wire_value state_bytes 8 state_bytes-IsByte (omega (arith, length-state_bytes))
      ∙ unfold state_bytes field_buffer in
        field_value (big_endian 8 id) (big_endian 4 v) 8 u (sym (length-big_endian 8 id)) 4 hu

  regrouped : state_bytes ≡ (big_endian 8 id ++ big_endian 4 u) ++ (big_endian 4 v ++ [])
  unfolding state_bytes
  regrouped = rw (append-nil, append_assoc)

  length-id_x : 12 ≡ length (big_endian 8 id ++ big_endian 4 u)
  length-id_x = omega (
    arith,
    length-append (big_endian 8 id) (big_endian 4 u),
    length-big_endian 8 id,
    length-big_endian 4 u,
  )

  read_y : read_uint32_big_endian state_bytes 12 ≡ v
  read_y =
      read_uint32-wire_value state_bytes 12 state_bytes-IsByte (omega (arith, length-state_bytes))
      ∙ rw regrouped (
          unfold field_buffer in
          field_value (big_endian 8 id ++ big_endian 4 u) [] 12 v length-id_x 4 hv)

-- A player state is read back from its wire bytes.
pub decode_player_state_payload_lem :
    (p : PlayerStatePayload)
    → p.session_id < 2 ^ 64
    → IsInt32 p.x
    → IsInt32 p.y
    → decode_player_state_payload (player_state_bytes p) ≡ ok p
unfolding decode_player_state_payload player_state_bytes state_bytes
decode_player_state_payload_lem p hid hx hy =
    let u = bits_of_int32 p.x in
    let v = bits_of_int32 p.y in
    let hu = bits_of_int32-lt p.x hx in
    let hv = bits_of_int32-lt p.y hy in
    rw (
      length-state_bytes p.session_id u v hid hu hv,
      read_id p.session_id u v hid hu hv,
      read_x p.session_id u v hid hu hv,
      read_y p.session_id u v hid hu hv,
      int32_of_bits-bits_of_int32 p.x hx,
      int32_of_bits-bits_of_int32 p.y hy,
    )

-- A player's departure is read back from its wire bytes.
pub decode_player_left_payload_lem :
    (p : PlayerLeftPayload)
    → p.session_id < 2 ^ 64
    → p.reason < 2 ^ 16
    → decode_player_left_payload (player_left_bytes p) ≡ ok p
unfolding decode_player_left_payload player_left_bytes
decode_player_left_payload_lem p hid hr = rw (size, ids, reasons)
  where
    bytes : List ℕ
    bytes = big_endian 8 p.session_id ++ big_endian 2 p.reason

    bounded : All IsByte bytes
    bounded =
        All-append IsByte _ _ (big_endian-IsByte 8 p.session_id) (big_endian-IsByte 2 p.reason)

    size : length bytes ≡ 10
    size = omega (
      arith,
      length-append (big_endian 8 p.session_id) (big_endian 2 p.reason),
      length-big_endian 8 p.session_id,
      length-big_endian 2 p.reason,
    )

    ids : read_uint64_big_endian bytes 0 ≡ p.session_id
    ids =
        read_uint64-wire_value bytes 0 bounded (omega (arith, size))
        ∙ unfold field_buffer in field_value [] (big_endian 2 p.reason) 0 p.session_id refl 8 hid

    padded : bytes ≡ big_endian 8 p.session_id ++ (big_endian 2 p.reason ++ [])
    padded = rw append-nil

    reasons : read_uint16_big_endian bytes 8 ≡ p.reason
    reasons =
        read_uint16-wire_value bytes 8 bounded (omega (arith, size))
        ∙ rw padded (
            unfold field_buffer in
            field_value (big_endian 8 p.session_id) [] 8 p.reason
              (sym (length-big_endian 8 p.session_id)) 2 hr)

module _ (u v : ℕ) (hu : u < 2 ^ 32) (hv : v < 2 ^ 32) where
  pair_bytes : List ℕ
  pair_bytes = big_endian 4 u ++ big_endian 4 v

  pair_bytes-IsByte : All IsByte pair_bytes
  unfolding pair_bytes
  pair_bytes-IsByte = All-append IsByte _ _ (big_endian-IsByte 4 u) (big_endian-IsByte 4 v)

  length-pair_bytes : length pair_bytes ≡ 8
  unfolding pair_bytes
  length-pair_bytes = omega (
    arith,
    length-append (big_endian 4 u) (big_endian 4 v),
    length-big_endian 4 u,
    length-big_endian 4 v,
  )

  read_first : read_uint32_big_endian pair_bytes 0 ≡ u
  read_first =
      read_uint32-wire_value pair_bytes 0 pair_bytes-IsByte (omega (arith, length-pair_bytes))
      ∙ unfold pair_bytes field_buffer in field_value [] (big_endian 4 v) 0 u refl 4 hu

  read_second : read_uint32_big_endian pair_bytes 4 ≡ v
  read_second =
      read_uint32-wire_value pair_bytes 4 pair_bytes-IsByte (omega (arith, length-pair_bytes))
      ∙ unfold pair_bytes in
        ap (λ xs. wire_value (take 4 (drop 4 (big_endian 4 u ++ xs))))
          (sym (append-nil (big_endian 4 v)))
        ∙ unfold field_buffer in
          field_value (big_endian 4 u) [] 4 v (sym (length-big_endian 4 u)) 4 hv

-- A movement whose coordinates are within std::int32_t is decoded from its encoded payload.
pub decode_move_payload-encode_move_payload :
    (p : MovePayload)
    → IsInt32 p.x
    → IsInt32 p.y
    → decode_move_payload (encode_move_payload p) ≡ ok p
unfolding decode_move_payload pair_bytes
decode_move_payload-encode_move_payload p hx hy =
    let u = bits_of_int32 p.x in
    let v = bits_of_int32 p.y in
    let hu = bits_of_int32-lt p.x hx in
    let hv = bits_of_int32-lt p.y hy in
    rw (
      encode_move_payload-big_endian p,
      length-pair_bytes u v hu hv,
      read_first u v hu hv,
      read_second u v hu hv,
      int32_of_bits-bits_of_int32 p.x hx,
      int32_of_bits-bits_of_int32 p.y hy,
    )

decode_move_payload-eq_ok :
    (bytes : List ℕ) {p : MovePayload}
    → decode_move_payload bytes ≡ ok p
    → (length bytes ≡ 8)
      × (p.x ≡ int32_of_bits (read_uint32_big_endian bytes 0))
      × (p.y ≡ int32_of_bits (read_uint32_big_endian bytes 4))
unfolding decode_move_payload
decode_move_payload-eq_ok bytes h = ground arith

-- A movement that is decoded from a list of bytes is encoded as those bytes, and its coordinates
-- are within std::int32_t.
pub encode_move_payload-decode_move_payload :
    (bytes : List ℕ) {p : MovePayload}
    → All IsByte bytes
    → decode_move_payload bytes ≡ ok p
    → (encode_move_payload p ≡ bytes) × IsInt32 p.x × IsInt32 p.y
encode_move_payload-decode_move_payload bytes {p} h dec =
    let (size, ex, ey) = decode_move_payload-eq_ok bytes dec in
    let front = take 4 bytes in
    let back = take 4 (drop 4 bytes) in
    let hf : All IsByte front = All-take IsByte 4 bytes h in
    let hb : All IsByte back = All-take IsByte 4 (drop 4 bytes) (All-drop IsByte 4 bytes h) in
    let front_size : length front ≡ 4 = omega (arith, length-take 4 bytes) in
    let back_size : length back ≡ 4 =
      omega (arith, length-take 4 (drop 4 bytes), length-drop 4 bytes) in
    let u : wire_value front < 2 ^ 32 = rw front_size at (wire_value-lt front hf) in
    let v : wire_value back < 2 ^ 32 = rw back_size at (wire_value-lt back hb) in
    let px : p.x ≡ int32_of_bits (wire_value front) =
      ex ∙ ap int32_of_bits (read_uint32-wire_value bytes 0 h (omega arith)) in
    let py : p.y ≡ int32_of_bits (wire_value back) =
      ey ∙ ap int32_of_bits (read_uint32-wire_value bytes 4 h (omega arith)) in
    (
      encode_move_payload-big_endian p
          ∙ ap₂ (λ a b. big_endian 4 (bits_of_int32 a) ++ big_endian 4 (bits_of_int32 b)) px py
          ∙ rw
              (
                bits_of_int32-int32_of_bits (wire_value front) u,
                bits_of_int32-int32_of_bits (wire_value back) v,
                big_endian-wire_value 4 front hf front_size,
                big_endian-wire_value 4 back hb back_size,
                ← take-add 4 4 bytes,
              )
              (take_of_length_le 8 bytes (omega arith)),
      subst IsInt32 (sym px) (int32_of_bits-IsInt32 (wire_value front) u),
      subst IsInt32 (sym py) (int32_of_bits-IsInt32 (wire_value back) v),
    )

-- ===== src/Network/EventEncoder/Writes.antt =====
-- What the shift-and-mask writer writes: the payloads of the events.
use modern_cpp_room_server.Prelude.{
  ℕ, zero, suc, ◌+◌, ◌-◌, ◌*◌, ◌/◌, ◌%◌, ◌^◌, ◌≤◌, ◌≡◌, refl, sym, ap, ◌∙◌, List, [], ◌∷◌, ◌++◌,
  length, take, drop, replicate, length-append, take-append-drop, set, length-set, bit_and,
  bit_and_ff, arith,
}
use modern_cpp_room_server.Prelude.Int.{bits_of_int32}
use modern_cpp_room_server.Protocol.Bytes.{copy_at}
use modern_cpp_room_server.Protocol.Bytes.Laws.{big_endian, length-big_endian, copy_at-append}
use modern_cpp_room_server.Protocol.Bytes.Digits.{big_endian-suc, big_endian-zero, copy_at-set}
use modern_cpp_room_server.Protocol.Gameplay.{PlayerStatePayload, PlayerLeftPayload}
use modern_cpp_room_server.Protocol.Gameplay.RoundTrip.{player_state_bytes, player_left_bytes}
use modern_cpp_room_server.Room.Commands.{SessionId, GridPosition, reason_code, DisconnectReason}
use modern_cpp_room_server.Network.EventEncoder.{
  write_rounds, write_value, write_session_id, write_position,
}
use native.Mathlib.Nat.{pow-suc}
use mathlib.Core.List.{append-nil, append_assoc}

power_of_bytes : (n : ℕ) → 2 ^ (n * 8) ≡ 256 ^ n
power_of_bytes zero = refl
power_of_bytes (suc n) =
    ap (λ k. 2 ^ k) {x = suc n * 8} {y = suc (suc (suc (suc (suc (suc (suc (suc (n * 8))))))))}
      (omega arith)
    ∙ rw
        (
          pow-suc 2 (suc (suc (suc (suc (suc (suc (suc (n * 8)))))))),
          pow-suc 2 (suc (suc (suc (suc (suc (suc (n * 8))))))),
          pow-suc 2 (suc (suc (suc (suc (suc (n * 8)))))),
          pow-suc 2 (suc (suc (suc (suc (n * 8))))),
          pow-suc 2 (suc (suc (suc (n * 8)))),
          pow-suc 2 (suc (suc (n * 8))),
          pow-suc 2 (suc (n * 8)),
          pow-suc 2 (n * 8),
          pow-suc 256 n,
        )
        (omega (arith, power_of_bytes n))

copy_at-nil : (bytes : List ℕ) (i : ℕ) → copy_at bytes i [] ≡ bytes
copy_at-nil bytes i =
    ap (λ k. take i bytes ++ drop k bytes) {x = i + 0} (omega arith) ∙ take-append-drop i bytes

write_rounds-copy_at :
    (left n index : ℕ) (bytes : List ℕ) (offset value : ℕ)
    → index + left ≡ n
    → offset + n ≤ length bytes
    → write_rounds left n index bytes offset value
      ≡ copy_at bytes (offset + index) (big_endian left value)
unfolding write_rounds
write_rounds-copy_at zero n index bytes offset value e h =
    rw (big_endian-zero value) (sym (copy_at-nil bytes (offset + index)))
write_rounds-copy_at (suc left) n index bytes offset value e h =
    let b = bit_and (value / 2 ^ ((n - index - 1) * 8)) 0xff in
    let digit : b ≡ value / 256 ^ left % 256 =
      bit_and_ff (value / 2 ^ ((n - index - 1) * 8))
      ∙ ap (λ k. value / 2 ^ (k * 8) % 256) {x = n - index - 1} {y = left} (omega arith)
      ∙ ap (λ k. value / k % 256) (power_of_bytes left) in
    write_rounds-copy_at left n (index + 1) (set bytes (offset + index) b) offset value
      (omega arith) (omega (arith, length-set bytes (offset + index) b))
    ∙ ap (λ k. copy_at (set bytes (offset + index) b) k (big_endian left value))
        {x = offset + (index + 1)} {y = offset + index + 1} (omega arith)
    ∙ copy_at-set bytes (offset + index) b (big_endian left value) (omega arith)
    ∙ ap (copy_at bytes (offset + index))
        (ap (λ d. d ∷ big_endian left value) digit ∙ sym (big_endian-suc left value))

write_value-copy_at :
    (n : ℕ) (bytes : List ℕ) (offset value : ℕ)
    → offset + n ≤ length bytes
    → write_value n bytes offset value ≡ copy_at bytes offset (big_endian n value)
unfolding write_value
write_value-copy_at n bytes offset value h =
    write_rounds-copy_at n n 0 bytes offset value (omega arith) h
    ∙ ap (λ k. copy_at bytes k (big_endian n value)) {x = offset + 0} (omega arith)

-- A value that is written behind what was written before.
write_value-append :
    (n : ℕ) (front old rest : List ℕ) (offset value : ℕ)
    → offset ≡ length front
    → length old ≡ n
    → write_value n (front ++ (old ++ rest)) offset value ≡ front ++ (big_endian n value ++ rest)
write_value-append n front old rest offset value at size =
    write_value-copy_at n (front ++ (old ++ rest)) offset value
      (omega (arith, length-append front (old ++ rest), length-append old rest))
    ∙ copy_at-append front old rest (big_endian n value) (front ++ (old ++ rest)) offset refl at
        (size ∙ sym (length-big_endian n value))

abbrev pub state_of : SessionId → GridPosition → PlayerStatePayload
state_of id position = record { session_id = id; x = position.x; y = position.y }

pub state_payload :
    (id : SessionId) (position : GridPosition)
    → write_position (write_session_id (replicate 16 0) id) position
      ≡ player_state_bytes (state_of id position)
unfolding write_position write_session_id player_state_bytes
state_payload id position =
    let ids = big_endian 8 id in
    let xs = big_endian 4 (bits_of_int32 position.x) in
    let ys = big_endian 4 (bits_of_int32 position.y) in
    ap
      (λ t.
        write_value 4 (write_value 4 t 8 (bits_of_int32 position.x)) 12 (bits_of_int32 position.y))
      (write_value-append 8 [] (replicate 8 0) (replicate 8 0) 0 id refl refl)
    ∙ ap (λ t. write_value 4 t 12 (bits_of_int32 position.y))
        (write_value-append 4 ids (replicate 4 0) (replicate 4 0) 8 (bits_of_int32 position.x)
            (sym (length-big_endian 8 id)) refl
          ∙ sym (append_assoc ids xs (replicate 4 0)))
    ∙ write_value-append 4 (ids ++ xs) (replicate 4 0) [] 12 (bits_of_int32 position.y)
        (omega (
          arith,
          length-append ids xs,
          length-big_endian 8 id,
          length-big_endian 4 (bits_of_int32 position.x),
        ))
        refl
    ∙ append_assoc ids xs (ys ++ [])
    ∙ ap (λ t. ids ++ (xs ++ t)) (append-nil ys)

abbrev pub left_of : SessionId → DisconnectReason → PlayerLeftPayload
left_of id reason = record { session_id = id; reason = reason_code reason }

pub left_payload :
    (id : SessionId) (reason : DisconnectReason)
    → write_value 2 (write_session_id (replicate 10 0) id) 8 (reason_code reason)
      ≡ player_left_bytes (left_of id reason)
unfolding write_session_id player_left_bytes
left_payload id reason =
    ap (λ t. write_value 2 t 8 (reason_code reason))
      (write_value-append 8 [] (replicate 8 0) (replicate 2 0) 0 id refl refl)
    ∙ write_value-append 2 (big_endian 8 id) (replicate 2 0) [] 8 (reason_code reason)
        (sym (length-big_endian 8 id)) refl
    ∙ ap (◌++◌ (big_endian 8 id)) (append-nil (big_endian 2 (reason_code reason)))

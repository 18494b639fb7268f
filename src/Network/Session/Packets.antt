-- ===== src/Network/Session/Packets.antt =====
-- The loop over the packets in the receive buffer: each round that goes on consumes the packet that it
-- handled, so the loop comes to an end.
use modern_cpp_room_server.Prelude.{
  ℕ, zero, suc, ◌≤◌, ◌≡◌, refl, sym, subst, ap, ◌∙◌, Bool, true, false, not, List, length,
  length-drop, All, All-drop, ok, err, arith, if-both, if-split, ◌⊎◌, inl, inr, Expected, ◌==◌,
}
use modern_cpp_room_server.Protocol.Bytes.{Endian, IsByte}
use modern_cpp_room_server.Protocol.Packet.{
  PacketType, ping, join_room, move, leave_room, unknown, is_known, PacketView, DecodeError,
  EncodeError, decode_one, encode_packet, is_incomplete, view_of,
}
use modern_cpp_room_server.Protocol.Packet.RoundTrip.{decode_one-eq_ok}
use modern_cpp_room_server.Protocol.Gameplay.{
  GameplayPayloadError, MovePayload, decode_move_payload, validate_empty_payload,
}
use modern_cpp_room_server.Room.Commands.{join_command, move_command, left_room}
use modern_cpp_room_server.Network.ReceiveBuffer.{empty, readable_bytes, consume, size}
use modern_cpp_room_server.Network.ReceiveBuffer.Valid
use modern_cpp_room_server.Network.ReceiveBuffer.Refines.{readable-consume}
use modern_cpp_room_server.Network.OutboundQueue.{OutboundQueueError, byte_limit_exceeded}
use modern_cpp_room_server.Network.Session.{
  Session, reject_protocol, enqueue_outbound, after_push, update_queue_metrics, consume_packet,
  submitted_or_stop, submit_room_command, leave_room_if_joined, handle_pong, handle_join,
  handle_movement, handle_move, handle_leave, is_ok,
}
use modern_cpp_room_server.Network.Session.Steps.{
  Processed, continues, ends, after_packet, handle_type, after_decode, process, process_all,
}

-- If the packet was handled, and the loop goes on, the buffer is what is left of `s` behind it.
abbrev Consumes : Session → PacketView → Bool × Session → Type 0
Consumes s v r = r.0 ≡ true → r.1.receive_buffer ≡ consume s.receive_buffer v.consumed_bytes

reject-Consumes : (s : Session) (v : PacketView) → Consumes s v (reject_protocol s)
unfolding reject_protocol
reject-Consumes s v e = cc e

submitted_or_stop-Consumes :
    (s : Session) (v : PacketView) (r : Bool × Session) (f : Session → Session)
    → (f r.1).receive_buffer ≡ consume s.receive_buffer v.consumed_bytes
    → Consumes s v (submitted_or_stop r f)
unfolding submitted_or_stop
submitted_or_stop-Consumes s v (true, t) f h e = h
submitted_or_stop-Consumes s v (false, t) f h e = cc e

push-Consumes :
    (s : Session) (v : PacketView) (x : Expected OutboundQueueError (Unit {0})) (t : Session)
    → t.receive_buffer ≡ consume s.receive_buffer v.consumed_bytes
    → Consumes s v (after_push x t)
unfolding after_push
push-Consumes s v (err byte_limit_exceeded) t h = λ e. cc e
push-Consumes s v (err _) t h = λ e. cc e
push-Consumes s v (ok done) t h = if-both (Consumes s v) t.write_in_progress (λ e. h) (λ e. h)

pong-Consumes :
    (s : Session) (v : PacketView) (x : Expected EncodeError (List ℕ))
    → Consumes s v (handle_pong v x s)
unfolding handle_pong enqueue_outbound consume_packet update_queue_metrics
pong-Consumes s v (err x) = λ e. cc e
pong-Consumes s v (ok bytes) =
    if-both (Consumes s v) s.stopped (λ e. cc e) (push-Consumes s v _ _ refl)

join-Consumes : (s : Session) (v : PacketView) → Consumes s v (handle_join v s)
unfolding handle_join submit_room_command consume_packet
join-Consumes s v =
    if-both (Consumes s v) (not (is_ok (validate_empty_payload v.payload))) (reject-Consumes s v) (
      if-both (Consumes s v) s.joined_room (reject-Consumes s v) (
        submitted_or_stop-Consumes s v (submit_room_command (join_command s.session_id) s)
          (λ t. consume_packet v (record t { joined_room = true })) refl))

movement-Consumes :
    (s : Session) (v : PacketView) (x : Expected GameplayPayloadError MovePayload)
    → Consumes s v (handle_movement v x s)
unfolding handle_movement submit_room_command consume_packet
movement-Consumes s v (err x) = reject-Consumes s v
movement-Consumes s v (ok m) =
    submitted_or_stop-Consumes s v
      (submit_room_command (move_command s.session_id (record { x = m.x; y = m.y })) s)
      (consume_packet v) refl

move-Consumes : (s : Session) (v : PacketView) → Consumes s v (handle_move v s)
unfolding handle_move
move-Consumes s v =
    if-both (Consumes s v) (not s.joined_room) (reject-Consumes s v)
      (movement-Consumes s v (decode_move_payload v.payload))

leave-Consumes : (s : Session) (v : PacketView) → Consumes s v (handle_leave v s)
unfolding handle_leave consume_packet
leave-Consumes s v =
    if-both (Consumes s v) (not (is_ok (validate_empty_payload v.payload))) (reject-Consumes s v) (
      if-both (Consumes s v) (not s.joined_room) (reject-Consumes s v)
        (λ e. ap (λ b. consume b v.consumed_bytes) kept))
  where
    kept : (leave_room_if_joined left_room s).receive_buffer ≡ s.receive_buffer
    kept = unfold leave_room_if_joined submit_room_command in ground arith

type-Consumes :
    (e : Endian) (t : PacketType) (s : Session) (v : PacketView)
    → is_known t ≡ true
    → Consumes s v (handle_type e t v s)
unfolding handle_type is_known
type-Consumes e ping s v k = pong-Consumes s v (encode_packet e ping v.payload)
type-Consumes e join_room s v k = join-Consumes s v
type-Consumes e move s v k = move-Consumes s v
type-Consumes e leave_room s v k = leave-Consumes s v
type-Consumes e (unknown n) s v k = cc k
type-Consumes e _ s v k = reject-Consumes s v

-- What `decode_one` accepts in the buffer: a known type, and a packet that lies within the buffer.
record IsPacket (s : Session) (v : PacketView) : Type 0 where
  known : is_known v.header.type ≡ true
  some_bytes : 6 ≤ v.consumed_bytes
  inside : v.consumed_bytes ≤ length (readable_bytes s.receive_buffer)

decoded_IsPacket :
    (e : Endian) (s : Session) (v : PacketView)
    → All IsByte (readable_bytes s.receive_buffer)
    → decode_one e (readable_bytes s.receive_buffer) ≡ ok v
    → IsPacket s v
decoded_IsPacket e s v h d =
    let bytes = readable_bytes s.receive_buffer in
    let (small, known, fits, eq) = decode_one-eq_ok e bytes h d in
    subst (IsPacket s) (sym eq)
      (unfold view_of in record { known = known; some_bytes = omega arith; inside = omega arith })

-- The loop waits for more bytes: the buffer is empty, or holds a front of a packet.
pub record IsWaiting (e : Endian) (s : Session) : Type 0 where
  pub rest_incomplete :
      (empty s.receive_buffer ≡ true)
      ⊎ ((x : DecodeError) × (decode_one e (readable_bytes s.receive_buffer) ≡ err x)
          × (is_incomplete x ≡ true))
  pub rest_valid : Valid.IsValid s.receive_buffer
  pub rest_bytes : All IsByte (readable_bytes s.receive_buffer)

-- The loop has come to an end.
pub data IsFinished (e : Endian) : Processed → Type 0 where
  waiting : {t : Session} → IsWaiting e t → IsFinished e (continues t)
  over : {t : Session} → IsFinished e (ends t)

after_packet-IsFinished :
    (e : Endian) (rest : Session → Processed) (r : Bool × Session)
    → (r.0 ≡ true → IsFinished e (rest r.1))
    → IsFinished e (after_packet rest r)
unfolding after_packet
after_packet-IsFinished e rest (true, t) h = h refl
after_packet-IsFinished e rest (false, t) h = over

-- The loop on a buffer that holds at most as many bytes as there is fuel.
Ends : Endian → ℕ → Type 0
Ends e fuel =
    (s : Session)
    → Valid.IsValid s.receive_buffer
    → All IsByte (readable_bytes s.receive_buffer)
    → length (readable_bytes s.receive_buffer) ≤ fuel
    → IsFinished e (process e fuel s)

packet-IsFinished :
    (e : Endian) (fuel : ℕ) (s : Session) (v : PacketView)
    → Valid.IsValid s.receive_buffer
    → All IsByte (readable_bytes s.receive_buffer)
    → length (readable_bytes s.receive_buffer) ≤ suc fuel
    → IsPacket s v
    → Ends e fuel
    → IsFinished e (after_packet (process e fuel) (handle_type e v.header.type v s))
unfolding Ends
packet-IsFinished e fuel s v valid bytes fits packet below =
    let r = handle_type e v.header.type v s in
    let n = v.consumed_bytes in
    let within : n ≤ size s.receive_buffer =
      omega (arith, packet.inside, Valid.size-length valid) in
    after_packet-IsFinished e (process e fuel) r (λ handled.
      let kept = type-Consumes e v.header.type s v packet.known handled in
      let left = ap readable_bytes kept ∙ readable-consume n valid within in
      below r.1 (rw kept (Valid.consume-IsValid n valid within))
        (rw left (All-drop IsByte n (readable_bytes s.receive_buffer) bytes))
        (rw left (omega (arith, packet, fits, length-drop n (readable_bytes s.receive_buffer)))))

decode-IsFinished :
    (e : Endian) (fuel : ℕ) (s : Session) (x : Expected DecodeError PacketView)
    → Valid.IsValid s.receive_buffer
    → All IsByte (readable_bytes s.receive_buffer)
    → length (readable_bytes s.receive_buffer) ≤ suc fuel
    → decode_one e (readable_bytes s.receive_buffer) ≡ x
    → Ends e fuel
    → IsFinished e (after_decode e (process e fuel) s x)
unfolding after_decode
decode-IsFinished e fuel s (err x) valid bytes fits d below =
    if-split (IsFinished e) (is_incomplete x)
      (λ incomplete. waiting (record {
        rest_incomplete = inr (x, d, incomplete);
        rest_valid = valid;
        rest_bytes = bytes;
      }))
      (λ wrong. over)
decode-IsFinished e fuel s (ok v) valid bytes fits d below =
    packet-IsFinished e fuel s v valid bytes fits (decoded_IsPacket e s v bytes d) below

process-Ends : (e : Endian) (fuel : ℕ) → Ends e fuel
unfolding process Ends empty
process-Ends e zero s valid bytes fits =
    if-split (IsFinished e) (size s.receive_buffer == 0)
      (λ z. waiting (record { rest_incomplete = inl z; rest_valid = valid; rest_bytes = bytes }))
      (λ z. ground (arith, z, fits, Valid.size-length valid))
process-Ends e (suc fuel) s valid bytes fits =
    if-split (IsFinished e) (size s.receive_buffer == 0)
      (λ z. waiting (record { rest_incomplete = inl z; rest_valid = valid; rest_bytes = bytes }))
      (λ z.
        decode-IsFinished e fuel s (decode_one e (readable_bytes s.receive_buffer)) valid bytes fits
          refl (process-Ends e fuel))

-- On a valid receive buffer that holds bytes, the loop over the received packets, with as much
-- fuel as the buffer holds bytes, comes to an end: it ends the session, or it waits for more
-- input, where the buffer is valid and is empty or holds a front of a packet that decode_one calls
-- incomplete.
pub process_all-IsFinished :
    (e : Endian) (s : Session)
    → Valid.IsValid s.receive_buffer
    → All IsByte (readable_bytes s.receive_buffer)
    → IsFinished e (process_all e s)
unfolding process_all Ends
process_all-IsFinished e s valid bytes =
    process-Ends e (length (readable_bytes s.receive_buffer)) s valid bytes (omega arith)

-- ===== src/Network/Session/Process.antt =====
-- The steps of a session keep what holds of it.
use modern_cpp_room_server.Prelude.{
  ℕ, zero, suc, ◌≡◌, refl, Bool, true, false, not, List, ok, err, arith, if-both, Expected,
}
use modern_cpp_room_server.Protocol.Bytes.{Endian}
use modern_cpp_room_server.Protocol.Packet.{
  PacketType, ping, join_room, move, leave_room, unknown, PacketView, DecodeError, EncodeError,
  decode_one, encode_packet, is_incomplete,
}
use modern_cpp_room_server.Protocol.Gameplay.{
  GameplayPayloadError, MovePayload, decode_move_payload, validate_empty_payload,
}
use modern_cpp_room_server.Room.Commands.{
  DisconnectReason, RoomCommand, join_command, move_command, protocol_error, server_shutdown,
  left_room,
}
use modern_cpp_room_server.Network.ReceiveBuffer
use modern_cpp_room_server.Network.ReceiveBuffer.{ReceiveBufferError, append, readable_bytes}
use modern_cpp_room_server.Network.OutboundQueue.{make_shared_packet}
use modern_cpp_room_server.Network.Session.{
  Session, stop_session, reject_protocol, consume_packet, submitted_or_stop, submit_room_command,
  leave_room_if_joined, handle_pong, handle_join, handle_movement, handle_move, handle_leave, is_ok,
}
use modern_cpp_room_server.Network.Session.Steps.{
  Processed, continues, ends, out_of_fuel, after_packet, handle_type, after_decode, process,
  after_process,
}
use modern_cpp_room_server.Network.Session.Sound.{
  IsSound, stop_session-IsSound, enqueue_outbound-IsSound,
}

-- A change of the fields that it does not speak of.
pub record SameOutbound (s t : Session) : Type 0 where
  pub same_queue : t.outbound_queue ≡ s.outbound_queue
  pub same_writers : t.writers ≡ s.writers
  pub same_progress : t.write_in_progress ≡ s.write_in_progress
  pub same_stopped : t.stopped ≡ s.stopped
  pub same_socket : t.socket_open ≡ s.socket_open

pub SameOutbound-IsSound : {s t : Session} → SameOutbound s t → IsSound s → IsSound t
SameOutbound-IsSound {s} {t} e i = record {
  queue_valid = rw e.same_queue i.queue_valid;
  one_writer = rw e.same_writers (rw e.same_progress i.one_writer);
  stopped_queue = rw e.same_queue (rw e.same_stopped i.stopped_queue);
  stopped_socket = rw e.same_socket (rw e.same_stopped i.stopped_socket);
  writer_runs = rw e.same_writers (rw e.same_progress (rw e.same_stopped i.writer_runs));
  nothing_waits = rw e.same_queue (rw e.same_progress (rw e.same_stopped i.nothing_waits));
}

pub stopped_IsSound :
    (reason : DisconnectReason) {s : Session} → IsSound s → IsSound (stop_session reason s)
stopped_IsSound reason {s} i = stop_session-IsSound reason s i.queue_valid i.one_writer (λ e. i)

submit-SameOutbound : (c : RoomCommand) (s : Session) → SameOutbound s (submit_room_command c s).1
unfolding submit_room_command
submit-SameOutbound c s = ground arith

leave-SameOutbound :
    (reason : DisconnectReason) (s : Session) → SameOutbound s (leave_room_if_joined reason s)
unfolding leave_room_if_joined submit_room_command
leave-SameOutbound reason s = ground arith

consume-SameOutbound : (v : PacketView) (s : Session) → SameOutbound s (consume_packet v s)
unfolding consume_packet
consume-SameOutbound v s = ground arith

abbrev pub SoundAfter : Bool × Session → Type 0
SoundAfter r = IsSound r.1

submitted_or_stop-IsSound :
    (r : Bool × Session) (f : Session → Session)
    → (IsSound r.1 → IsSound (f r.1))
    → SoundAfter r
    → SoundAfter (submitted_or_stop r f)
unfolding submitted_or_stop
submitted_or_stop-IsSound (true, t) f h i = h i
submitted_or_stop-IsSound (false, t) f h i = stopped_IsSound server_shutdown i

reject-IsSound : {s : Session} → IsSound s → SoundAfter (reject_protocol s)
unfolding reject_protocol
reject-IsSound i = stopped_IsSound protocol_error i

consume-IsSound : (v : PacketView) {s : Session} → IsSound s → IsSound (consume_packet v s)
consume-IsSound v {s} i = SameOutbound-IsSound (consume-SameOutbound v s) i

submit-IsSound : (c : RoomCommand) {s : Session} → IsSound s → SoundAfter (submit_room_command c s)
submit-IsSound c {s} i = SameOutbound-IsSound (submit-SameOutbound c s) i

joined_IsSound : (t : Session) → IsSound t → IsSound (record t { joined_room = true })
joined_IsSound t i =
    SameOutbound-IsSound
      (record {
        same_queue = refl;
        same_writers = refl;
        same_progress = refl;
        same_stopped = refl;
        same_socket = refl;
      })
      i

join-IsSound : (v : PacketView) (s : Session) → IsSound s → SoundAfter (handle_join v s)
unfolding handle_join
join-IsSound v s i =
    if-both SoundAfter (not (is_ok (validate_empty_payload v.payload))) (reject-IsSound i) (
      if-both SoundAfter s.joined_room (reject-IsSound i) (
        submitted_or_stop-IsSound (submit_room_command (join_command s.session_id) s)
          (λ t. consume_packet v (record t { joined_room = true }))
          (λ k. consume-IsSound v (joined_IsSound _ k))
          (submit-IsSound (join_command s.session_id) i)))

movement-IsSound :
    (v : PacketView) (x : Expected GameplayPayloadError MovePayload) (s : Session)
    → IsSound s
    → SoundAfter (handle_movement v x s)
unfolding handle_movement
movement-IsSound v (err e) s i = reject-IsSound i
movement-IsSound v (ok m) s i =
    submitted_or_stop-IsSound
      (submit_room_command (move_command s.session_id (record { x = m.x; y = m.y })) s)
      (consume_packet v) (consume-IsSound v)
      (submit-IsSound (move_command s.session_id (record { x = m.x; y = m.y })) i)

move-IsSound : (v : PacketView) (s : Session) → IsSound s → SoundAfter (handle_move v s)
unfolding handle_move
move-IsSound v s i =
    if-both SoundAfter (not s.joined_room) (reject-IsSound i)
      (movement-IsSound v (decode_move_payload v.payload) s i)

leave-IsSound : (v : PacketView) (s : Session) → IsSound s → SoundAfter (handle_leave v s)
unfolding handle_leave
leave-IsSound v s i =
    if-both SoundAfter (not (is_ok (validate_empty_payload v.payload))) (reject-IsSound i) (
      if-both SoundAfter (not s.joined_room) (reject-IsSound i)
        (consume-IsSound v (SameOutbound-IsSound (leave-SameOutbound left_room s) i)))

pong-IsSound :
    (v : PacketView) (x : Expected EncodeError (List ℕ)) (s : Session)
    → IsSound s
    → SoundAfter (handle_pong v x s)
unfolding handle_pong
pong-IsSound v (err e) s i = stopped_IsSound protocol_error i
pong-IsSound v (ok bytes) s i =
    enqueue_outbound-IsSound (make_shared_packet bytes) (consume_packet v s) (consume-IsSound v i)

type-IsSound :
    (e : Endian) (t : PacketType) (v : PacketView) (s : Session)
    → IsSound s
    → SoundAfter (handle_type e t v s)
unfolding handle_type
type-IsSound e ping v s i = pong-IsSound v (encode_packet e ping v.payload) s i
type-IsSound e join_room v s i = join-IsSound v s i
type-IsSound e move v s i = move-IsSound v s i
type-IsSound e leave_room v s i = leave-IsSound v s i
type-IsSound e (unknown n) v s i = i
type-IsSound e _ v s i = reject-IsSound i

abbrev SoundEnd : Processed → Type 0
SoundEnd (continues s) = IsSound s
SoundEnd (ends s) = IsSound s
SoundEnd (out_of_fuel s) = IsSound s

after_packet-IsSound :
    (rest : Session → Processed) (r : Bool × Session)
    → ((t : Session) → IsSound t → SoundEnd (rest t))
    → SoundAfter r
    → SoundEnd (after_packet rest r)
unfolding after_packet
after_packet-IsSound rest (true, t) h i = h t i
after_packet-IsSound rest (false, t) h i = i

after_decode-IsSound :
    (e : Endian) (rest : Session → Processed) (s : Session) (x : Expected DecodeError PacketView)
    → ((t : Session) → IsSound t → SoundEnd (rest t))
    → IsSound s
    → SoundEnd (after_decode e rest s x)
unfolding after_decode
after_decode-IsSound e rest s (err x) h i =
    if-both SoundEnd (is_incomplete x) i (stopped_IsSound protocol_error i)
after_decode-IsSound e rest s (ok v) h i =
    after_packet-IsSound rest (handle_type e v.header.type v s) h
      (type-IsSound e v.header.type v s i)

pub process-IsSound :
    (e : Endian) (fuel : ℕ) (s : Session) → IsSound s → SoundEnd (process e fuel s)
unfolding process
process-IsSound e zero s i = if-both SoundEnd (ReceiveBuffer.empty s.receive_buffer) i i
process-IsSound e (suc fuel) s i = if-both SoundEnd (ReceiveBuffer.empty s.receive_buffer) i (
    after_decode-IsSound e (process e fuel) s (decode_one e (readable_bytes s.receive_buffer))
      (process-IsSound e fuel) i)

pub after_process-IsSound : (r : Processed) → SoundEnd r → SoundAfter (after_process r)
unfolding after_process
after_process-IsSound (continues s) i = i
after_process-IsSound (ends s) i = i
after_process-IsSound (out_of_fuel s) i = i

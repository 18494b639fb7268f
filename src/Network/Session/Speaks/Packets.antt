-- ===== src/Network/Session/Speaks/Packets.antt =====
-- What a session sends when it handles what it has read.
use modern_cpp_room_server.Prelude.{
  ℕ, zero, suc, ◌≡◌, refl, sym, ap, ◌∙◌, subst, Bool, true, false, not, some, List, [], ◌∷◌, ◌++◌,
  length, ==_refl, ok, err, Expected, arith, if-both, if-split,
}
use modern_cpp_room_server.Concurrency
use modern_cpp_room_server.Concurrency.{QueuePushError, CloseableQueue}
use modern_cpp_room_server.Room.Commands.{
  io_error, protocol_error, left_room, server_shutdown, client_closed, RoomCommand, join_command,
  move_command,
}
use modern_cpp_room_server.Network.OutboundQueue.{make_shared_packet}
use modern_cpp_room_server.Protocol.Bytes.{Endian}
use modern_cpp_room_server.Protocol.Packet.{
  PacketType, ping, join_room, move, leave_room, unknown, PacketView, DecodeError, EncodeError,
  decode_one, encode_packet, is_incomplete,
}
use modern_cpp_room_server.Protocol.Gameplay.{
  GameplayPayloadError, MovePayload, decode_move_payload, validate_empty_payload,
}
use modern_cpp_room_server.Network.ReceiveBuffer
use modern_cpp_room_server.Network.ReceiveBuffer.{ReceiveBufferError, append, readable_bytes}
use modern_cpp_room_server.Network.Session.Steps.{
  Processed, continues, ends, out_of_fuel, after_packet, handle_type, after_decode, process,
  after_process, process_all, after_append, on_read, ReadResult, end_of_file, connection_reset,
  operation_aborted, other_error, bytes_read,
}
use modern_cpp_room_server.Network.Session.{
  Session, submit_room_command, consume_packet, submitted_or_stop, reject_protocol, handle_pong,
  handle_join, handle_movement, handle_move, handle_leave, is_ok,
}
use modern_cpp_room_server.Network.Session.Speaks.{
  talk, Says, silent, Says-trans, leave-Says, stop_session-Says, SaysAfter, enqueue-Says,
}

-- A command that is accepted, where what follows keeps what was sent and makes `joined` of the
-- session; or refused, where the session is stopped.
submitted-Says :
    (c : RoomCommand) (joined : Bool) (s : Session) (f : Session → Session)
    → talk s.session_id s.joined_room (c ∷ []) ≡ some joined
    → ((q : CloseableQueue RoomCommand)
        → let t = record s { room_commands = q } in
          ((f t).room_commands ≡ q)
          × ((f t).session_id ≡ s.session_id)
          × ((f t).joined_room ≡ joined))
    → SaysAfter s (submitted_or_stop (submit_room_command c s) f)
unfolding submitted_or_stop submit_room_command Concurrency.push is_ok
submitted-Says c joined s f h k =
    if-both
      (λ (r : Expected QueuePushError (Unit {0}) × CloseableQueue RoomCommand).
        SaysAfter s (submitted_or_stop (is_ok r.0, record s { room_commands = r.1 }) f))
      s.room_commands.is_closed (stop_session-Says server_shutdown s)
      (record {
        sent = c ∷ [];
        appended = ap (λ q. q.values) (k longer).0;
        closed_kept = ap (λ q. q.is_closed) (k longer).0;
        same_id = (k longer).1;
        spoken = λ e. h ∙ ap some (sym (k longer).2);
      })
  where
    longer : CloseableQueue RoomCommand
    longer = record (s.room_commands) { values = s.room_commands.values ++ (c ∷ []) }

reject-Says : (s : Session) → SaysAfter s (reject_protocol s)
unfolding reject_protocol
reject-Says s = stop_session-Says protocol_error s

join-Says : (v : PacketView) (s : Session) → SaysAfter s (handle_join v s)
unfolding handle_join talk consume_packet
join-Says v s =
    if-both (SaysAfter s) (not (is_ok (validate_empty_payload v.payload))) (reject-Says s) (
      if-split (SaysAfter s) s.joined_room (λ already. reject-Says s)
        (λ outside.
          submitted-Says (join_command s.session_id) true s
            (λ t. consume_packet v (record t { joined_room = true }))
            (ground (arith, outside, ==_refl s.session_id)) (λ q. (refl, refl, refl))))

movement-Says :
    (v : PacketView) (x : Expected GameplayPayloadError MovePayload) (s : Session)
    → s.joined_room ≡ true
    → SaysAfter s (handle_movement v x s)
unfolding handle_movement talk consume_packet
movement-Says v (err x) s inside = reject-Says s
movement-Says v (ok m) s inside =
    submitted-Says (move_command s.session_id (record { x = m.x; y = m.y })) true s
      (consume_packet v) (ground (arith, inside, ==_refl s.session_id)) (λ q. (refl, refl, inside))

move-Says : (v : PacketView) (s : Session) → SaysAfter s (handle_move v s)
unfolding handle_move
move-Says v s =
    if-split (SaysAfter s) (not s.joined_room) (λ outside. reject-Says s)
      (λ inside. movement-Says v (decode_move_payload v.payload) s (ground arith))

leave_packet-Says : (v : PacketView) (s : Session) → SaysAfter s (handle_leave v s)
unfolding handle_leave consume_packet
leave_packet-Says v s =
    if-both (SaysAfter s) (not (is_ok (validate_empty_payload v.payload))) (reject-Says s) (
      if-both (SaysAfter s) (not s.joined_room) (reject-Says s)
        (Says-trans (leave-Says left_room s) (silent refl refl refl)))

pong-Says :
    (v : PacketView) (x : Expected EncodeError (List ℕ)) (s : Session)
    → SaysAfter s (handle_pong v x s)
unfolding handle_pong consume_packet
pong-Says v (err x) s = stop_session-Says protocol_error s
pong-Says v (ok bytes) s =
    Says-trans (silent refl refl refl)
      (enqueue-Says (make_shared_packet bytes) (consume_packet v s))

type-Says :
    (e : Endian) (t : PacketType) (v : PacketView) (s : Session) → SaysAfter s (handle_type e t v s)
unfolding handle_type
type-Says e ping v s = pong-Says v (encode_packet e ping v.payload) s
type-Says e join_room v s = join-Says v s
type-Says e move v s = move-Says v s
type-Says e leave_room v s = leave_packet-Says v s
type-Says e (unknown n) v s = silent refl refl refl
type-Says e _ v s = reject-Says s

abbrev session_of : Processed → Session
session_of (continues s) = s
session_of (ends s) = s
session_of (out_of_fuel s) = s

after_packet-Says :
    (rest : Session → Processed) (s : Session) (r : Bool × Session)
    → ((t : Session) → Says t (session_of (rest t)))
    → SaysAfter s r
    → Says s (session_of (after_packet rest r))
unfolding after_packet
after_packet-Says rest s (true, t) h i = Says-trans i (h t)
after_packet-Says rest s (false, t) h i = i

after_decode-Says :
    (e : Endian) (rest : Session → Processed) (s : Session) (x : Expected DecodeError PacketView)
    → ((t : Session) → Says t (session_of (rest t)))
    → Says s (session_of (after_decode e rest s x))
unfolding after_decode
after_decode-Says e rest s (err x) h =
    if-both (λ r. Says s (session_of r)) (is_incomplete x) (silent refl refl refl)
      (stop_session-Says protocol_error s)
after_decode-Says e rest s (ok v) h =
    after_packet-Says rest s (handle_type e v.header.type v s) h (type-Says e v.header.type v s)

process-Says : (e : Endian) (fuel : ℕ) (s : Session) → Says s (session_of (process e fuel s))
unfolding process
process-Says e zero s =
    if-both (λ r. Says s (session_of r)) (ReceiveBuffer.empty s.receive_buffer)
      (silent refl refl refl) (silent refl refl refl)
process-Says e (suc fuel) s =
    if-both (λ r. Says s (session_of r)) (ReceiveBuffer.empty s.receive_buffer)
      (silent refl refl refl)
      (after_decode-Says e (process e fuel) s (decode_one e (readable_bytes s.receive_buffer))
        (process-Says e fuel))

after_process-session : (r : Processed) → (after_process r).1 ≡ session_of r
unfolding after_process
after_process-session (continues s) = refl
after_process-session (ends s) = refl
after_process-session (out_of_fuel s) = refl

after_append-Says :
    (e : Endian) (s : Session) (x : Expected ReceiveBufferError (Unit {0}))
    → SaysAfter s (after_append e s x)
unfolding after_append process_all
after_append-Says e s (err x) = stop_session-Says protocol_error s
after_append-Says e s (ok done) =
    subst (Says s) (sym (after_process-session (process_all e s)))
      (process-Says e (length (readable_bytes s.receive_buffer)) s)

pub on_read-Says :
    (grow : ℕ → ℕ → ℕ) (e : Endian) (result : ReadResult) (s : Session)
    → SaysAfter s (on_read grow e result s)
unfolding on_read
on_read-Says grow e end_of_file s = stop_session-Says client_closed s
on_read-Says grow e connection_reset s = stop_session-Says client_closed s
on_read-Says grow e operation_aborted s =
    if-both (SaysAfter s) s.stopped (silent refl refl refl) (stop_session-Says io_error s)
on_read-Says grow e other_error s = stop_session-Says io_error s
on_read-Says grow e (bytes_read bytes) s = Says-trans (silent refl refl refl) (
    after_append-Says e (record s { receive_buffer = (append grow s.receive_buffer bytes).1 })
      (append grow s.receive_buffer bytes).0)

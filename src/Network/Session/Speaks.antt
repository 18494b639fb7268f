-- ===== src/Network/Session/Speaks.antt =====
-- The commands that a session sends to the room worker: it joins before it moves or leaves, and does
-- not join twice without leaving.
pub mod Packets
pub mod Life
use modern_cpp_room_server.Prelude.{
  ℕ, zero, suc, ◌+◌, ◌≡◌, refl, sym, ap, ◌∙◌, subst, Bool, true, false, not, Option, none, some,
  List, [], ◌∷◌, ◌++◌, length, drop, All, if◌then◌else◌, ◌==◌, ==_refl, ok, err, Expected, arith,
  Bool-cases, ◌⊎◌, inl, inr, if-both, if-split,
}
use mathlib.Core.List.{append-nil, append_assoc}
use modern_cpp_room_server.Concurrency
use modern_cpp_room_server.Concurrency.{QueuePushError, CloseableQueue}
use modern_cpp_room_server.Room.Commands.{
  SessionId, DisconnectReason, outbound_overflow, io_error, protocol_error, left_room,
  server_shutdown, client_closed, RoomCommand, join_command, move_command, leave_command,
}
use modern_cpp_room_server.Network.OutboundQueue.{
  OutboundQueueError, SharedPacket, byte_limit_exceeded, push, make_shared_packet,
}
use modern_cpp_room_server.Protocol.Bytes.{Endian}
use modern_cpp_room_server.Protocol.Packet.{
  PacketType, ping, join_room, move, attack, leave_room, player_joined, player_moved, player_left,
  unknown, PacketView, DecodeError, EncodeError, decode_one, encode_packet, is_incomplete,
}
use modern_cpp_room_server.Protocol.Gameplay.{
  GameplayPayloadError, MovePayload, decode_move_payload, validate_empty_payload,
}
use modern_cpp_room_server.Network.ReceiveBuffer
use modern_cpp_room_server.Network.ReceiveBuffer.{ReceiveBufferError, append, readable_bytes}
use modern_cpp_room_server.Network.Session.Steps.{
  Processed, continues, ends, out_of_fuel, after_packet, handle_type, after_decode, process,
  after_process, process_all, after_append, on_read, ReadResult, end_of_file, connection_reset,
  operation_aborted, other_error, bytes_read, deliver, run_posted, write_round, write_popped,
  write_done, write_throws, begin_held,
}
use modern_cpp_room_server.Network.Session.{
  Session, Writer, at_loop, writing, submit_room_command, enqueue_outbound, after_push,
  update_queue_metrics, count_overflow, consume_packet, submitted_or_stop, reject_protocol,
  handle_pong, handle_join, handle_movement, handle_move, handle_leave, leave_room_if_joined,
  stop_session, stop_running, is_ok,
}
use modern_cpp_room_server.Network.Session.Stop.{
  Leaves, IsStopped, stop_running_lem, stop_session-running, stop_session-over,
}

-- Whether the session with this id is in the room after the commands, if they are in a proper order
-- and all its own.
unfoldable pub talk : SessionId → Bool → List RoomCommand → Option Bool
talk id joined [] = some joined
talk id joined (join_command k ∷ cs) =
    if joined then none else if k == id then talk id true cs else none
talk id joined (move_command k p ∷ cs) =
    if joined then if k == id then talk id true cs else none else none
talk id joined (leave_command k r ∷ cs) =
    if joined then if k == id then talk id false cs else none else none

-- From `s` to `t` the session `sent` the commands, in a proper order as long as the worker takes them.
pub record Says (s t : Session) : Type 0 where
  pub sent : List RoomCommand
  pub appended : t.room_commands.values ≡ s.room_commands.values ++ sent
  pub closed_kept : t.room_commands.is_closed ≡ s.room_commands.is_closed
  pub same_id : t.session_id ≡ s.session_id
  pub spoken :
      s.room_commands.is_closed ≡ false → talk s.session_id s.joined_room sent ≡ some t.joined_room

pub silent :
    {s t : Session}
    → t.room_commands ≡ s.room_commands
    → t.session_id ≡ s.session_id
    → t.joined_room ≡ s.joined_room
    → Says s t
unfolding talk
silent {s} {t} c i j = record {
  sent = [];
  appended = ap (λ q. q.values) c ∙ sym (append-nil s.room_commands.values);
  closed_kept = ap (λ q. q.is_closed) c;
  same_id = i;
  spoken = λ e. ap some (sym j);
}

pub talk-append :
    (id : SessionId) (j k : Bool) (cs ds : List RoomCommand)
    → talk id j cs ≡ some k
    → talk id j (cs ++ ds) ≡ talk id k ds
unfolding talk
talk-append id j k [] ds h = ground arith
talk-append id j k (join_command i ∷ cs) ds h = ground (arith, talk-append id true k cs ds)
talk-append id j k (move_command i p ∷ cs) ds h = ground (arith, talk-append id true k cs ds)
talk-append id j k (leave_command i r ∷ cs) ds h = ground (arith, talk-append id false k cs ds)

pub Says-trans : {s t u : Session} → Says s t → Says t u → Says s u
Says-trans {s} {t} {u} a b = record {
  sent = a.sent ++ b.sent;
  appended =
      b.appended
      ∙ ap (λ xs. xs ++ b.sent) a.appended
      ∙ append_assoc s.room_commands.values a.sent b.sent;
  closed_kept = b.closed_kept ∙ a.closed_kept;
  same_id = b.same_id ∙ a.same_id;
  spoken = λ e.
      talk-append s.session_id s.joined_room t.joined_room a.sent b.sent (a.spoken e)
      ∙ ap (λ i. talk i t.joined_room b.sent) (sym a.same_id)
      ∙ b.spoken (a.closed_kept ∙ e);
}

-- What a leave sends.
abbrev sent_leave : DisconnectReason → Session → List RoomCommand
sent_leave reason s =
    if s.joined_room
    then if s.room_commands.is_closed then [] else leave_command s.session_id reason ∷ []
    else []

pub leave-Says : (reason : DisconnectReason) (s : Session) → Says s (leave_room_if_joined reason s)
unfolding leave_room_if_joined submit_room_command Concurrency.push talk
leave-Says reason s = record {
  sent = sent_leave reason s;
  appended = ground (arith, append-nil s.room_commands.values);
  closed_kept = ground arith;
  same_id = ground arith;
  spoken = λ e. ground (arith, ==_refl s.session_id);
}

stop_running-Says : (reason : DisconnectReason) (s : Session) → Says s (stop_running reason s)
unfolding stop_running update_queue_metrics count_overflow
stop_running-Says reason s = Says-trans (silent refl refl refl) (
    Says-trans (leave-Says reason (record s { stopped = true }))
      (silent (ground arith) (ground arith) (ground arith)))

pub stop_session-Says : (reason : DisconnectReason) (s : Session) → Says s (stop_session reason s)
unfolding stop_session
stop_session-Says reason s =
    if-both (Says s) s.stopped (silent refl refl refl) (stop_running-Says reason s)

abbrev pub SaysAfter : Session → Bool × Session → Type 0
SaysAfter s r = Says s r.1

after_push-Says :
    (x : Expected OutboundQueueError (Unit {0})) (s : Session) → SaysAfter s (after_push x s)
unfolding after_push
after_push-Says (err byte_limit_exceeded) s = stop_session-Says outbound_overflow s
after_push-Says (err _) s = stop_session-Says io_error s
after_push-Says (ok done) s =
    if-both (SaysAfter s) s.write_in_progress (silent refl refl refl) (silent refl refl refl)

pub enqueue-Says : (p : SharedPacket) (s : Session) → SaysAfter s (enqueue_outbound p s)
unfolding enqueue_outbound update_queue_metrics
enqueue-Says p s = if-both (SaysAfter s) s.stopped (silent refl refl refl) (
    Says-trans (silent refl refl refl) (
      after_push-Says (push s.outbound_queue p).0
        (update_queue_metrics (record s { outbound_queue = (push s.outbound_queue p).1 }))))

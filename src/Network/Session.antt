-- ===== src/Network/Session.antt =====
-- src/network/session.cpp. A session's code runs on one executor, so what stands between two
-- `co_await`s is one step. The room worker is shared; of it a session uses `submit`, a push to its
-- queue of commands. What the socket reports is an argument of the steps.
pub mod Steps
pub mod Stop
pub mod Process
pub mod Sound
pub mod Reach
pub mod Packets
pub mod LateJoin
pub mod Speaks
pub mod Rejects
pub mod Writes
pub mod Delivers
mod Tests
use modern_cpp_room_server.Prelude.{
  ℕ, zero, suc, ◌+◌, ◌*◌, Bool, true, false, not, ◌&&◌, ◌||◌, Option, none, some, List, [], ◌∷◌,
  ◌++◌, length, take, replicate, ltb, ◌==◌, if◌then◌else◌, add_size, Expected, ok, err,
}
use modern_cpp_room_server.Concurrency.{QueuePushError, CloseableQueue}
use modern_cpp_room_server.Concurrency
use modern_cpp_room_server.Protocol.Bytes.{Endian}
use modern_cpp_room_server.Protocol.Packet.{
  PacketType, ping, join_room, move, attack, leave_room, player_joined, player_moved, player_left,
  unknown, wire_header_size, max_payload_size, PacketView, DecodeError, EncodeError, decode_one,
  encode_packet, is_incomplete,
}
use modern_cpp_room_server.Protocol.Gameplay.{
  GameplayPayloadError, MovePayload, validate_empty_payload, decode_move_payload,
}
use modern_cpp_room_server.Room.Commands.{
  SessionId, GridPosition, DisconnectReason, left_room, client_closed, protocol_error, io_error,
  outbound_overflow, server_shutdown, RoomCommand, join_command, move_command, leave_command,
}
use modern_cpp_room_server.Observability.Metrics.{
  Both, queue_changed, PendingDelivery, new_pending, begin_pending, WriteBatch, new_batch,
  complete_batch, destroy_batch,
}
use modern_cpp_room_server.Observability.Metrics
use modern_cpp_room_server.Network.ReceiveBuffer.{
  ReceiveBuffer, ReceiveBufferError, append, consume, readable_bytes,
}
use modern_cpp_room_server.Network.OutboundQueue.{
  OutboundQueue, OutboundQueueError, SharedPacket, PacketBuffer, make_shared_packet,
  byte_limit_exceeded, push, close, pending_packets,
}

abbrev pub tcp_read_chunk_size : ℕ
tcp_read_chunk_size = 4 * 1024

abbrev pub max_session_buffer_size : ℕ
max_session_buffer_size = wire_header_size + max_payload_size + tcp_read_chunk_size

abbrev pub max_session_outbound_bytes : ℕ
max_session_outbound_bytes = 256 * 1024

abbrev pub max_outbound_batch_packets : ℕ
max_outbound_batch_packets = 64

abbrev pub max_outbound_batch_bytes : ℕ
max_outbound_batch_bytes = 64 * 1024

-- A coroutine `write_queued_packets`: at the head of its loop, or waiting for `async_write`.
pub data Writer : Type 0 where
  at_loop : Writer
  writing : List SharedPacket → WriteBatch → Writer

-- `posted` are the handlers that `deliver` has posted and that did not run yet; `writers` are the
-- spawned coroutines that have not returned.
pub record Session : Type 0 where
  pub receive_buffer : ReceiveBuffer
  pub outbound_queue : OutboundQueue
  pub session_id : SessionId
  pub room_commands : CloseableQueue RoomCommand
  pub metrics : Option Both
  pub joined_room : Bool
  pub write_in_progress : Bool
  pub stopped : Bool
  pub socket_open : Bool
  pub posted : List (SharedPacket × PendingDelivery)
  pub writers : List Writer

unfoldable pub with_metrics : (Both → Both) → Option Both → Option Both
with_metrics f none = none
with_metrics f (some b) = some (f b)

unfoldable pub update_queue_metrics : Session → Session
update_queue_metrics s = record s {
  metrics =
      with_metrics (queue_changed (pending_packets s.outbound_queue) s.outbound_queue.pending_bytes)
        s.metrics;
}

unfoldable pub is_ok {ℓ} : {E : Type 0} {A : Type ℓ} → Expected E A → Bool
is_ok (ok a) = true
is_ok (err e) = false

unfoldable pub submit_room_command : RoomCommand → Session → Bool × Session
unfolding is_ok
submit_room_command command s =
    let (submitted, commands) = Concurrency.push s.room_commands command in
    (is_ok submitted, record s { room_commands = commands })

unfoldable pub leave_room_if_joined : DisconnectReason → Session → Session
leave_room_if_joined reason s =
    if not s.joined_room
    then s
    else (submit_room_command (leave_command s.session_id reason)
        (record s { joined_room = false })).1

unfoldable pub is_overflow : DisconnectReason → Bool
is_overflow outbound_overflow = true
is_overflow _ = false

unfoldable pub count_overflow : DisconnectReason → Session → Session
count_overflow reason s =
    if is_overflow reason
    then record s { metrics = with_metrics (λ b. (b.0, Metrics.outbound_overflow b.1)) s.metrics }
    else s

-- The body of `stop_session` for a session that was not stopped before.
unfoldable pub stop_running : DisconnectReason → Session → Session
stop_running reason s =
    let left = leave_room_if_joined reason (record s { stopped = true }) in
    let emptied =
      update_queue_metrics (record left { outbound_queue = close left.outbound_queue }) in
    record (count_overflow reason emptied) { socket_open = false }

unfoldable pub stop_session : DisconnectReason → Session → Session
stop_session reason s = if s.stopped then s else stop_running reason s

unfoldable pub reject_protocol : Session → Bool × Session
reject_protocol s = (false, stop_session protocol_error s)

-- `enqueue_outbound` after the push. Spawning puts a writer at the head of its loop, where its next step
-- starts; `co_spawn` may take that step on the spot.
unfoldable pub after_push : Expected OutboundQueueError (Unit {0}) → Session → Bool × Session
after_push (err byte_limit_exceeded) s = (false, stop_session outbound_overflow s)
after_push (err _) s = (false, stop_session io_error s)
after_push (ok done) s =
    if s.write_in_progress
    then (true, s)
    else (true, record s { write_in_progress = true; writers = s.writers ++ (at_loop ∷ []) })

unfoldable pub enqueue_outbound : SharedPacket → Session → Bool × Session
enqueue_outbound packet s =
    if s.stopped
    then (false, s)
    else let (pushed, queue) = push s.outbound_queue packet in
      after_push pushed (update_queue_metrics (record s { outbound_queue = queue }))

unfoldable pub consume_packet : PacketView → Session → Session
consume_packet v s = record s { receive_buffer = consume s.receive_buffer v.consumed_bytes }

-- `if (!submit_room_command(...)) { stop_session(server_shutdown); co_return false; }`
unfoldable pub submitted_or_stop : Bool × Session → (Session → Session) → Bool × Session
submitted_or_stop (submitted, s) continue =
    if submitted then (true, continue s) else (false, stop_session server_shutdown s)

unfoldable pub handle_pong : PacketView → Expected EncodeError (List ℕ) → Session → Bool × Session
handle_pong v (err e) s = (false, stop_session protocol_error s)
handle_pong v (ok response) s = enqueue_outbound (make_shared_packet response) (consume_packet v s)

unfoldable pub handle_join : PacketView → Session → Bool × Session
handle_join v s =
    if not (is_ok (validate_empty_payload v.payload))
    then reject_protocol s
    else if s.joined_room
    then reject_protocol s
    else submitted_or_stop (submit_room_command (join_command s.session_id) s)
        (λ t. consume_packet v (record t { joined_room = true }))

unfoldable pub handle_movement :
    PacketView → Expected GameplayPayloadError MovePayload → Session → Bool × Session
handle_movement v (err e) s = reject_protocol s
handle_movement v (ok movement) s =
    submitted_or_stop
      (submit_room_command (move_command s.session_id (record { x = movement.x; y = movement.y }))
        s)
      (consume_packet v)

unfoldable pub handle_move : PacketView → Session → Bool × Session
handle_move v s =
    if not s.joined_room
    then reject_protocol s
    else handle_movement v (decode_move_payload v.payload) s

unfoldable pub handle_leave : PacketView → Session → Bool × Session
handle_leave v s =
    if not (is_ok (validate_empty_payload v.payload))
    then reject_protocol s
    else if not s.joined_room
    then reject_protocol s
    else (true, consume_packet v (leave_room_if_joined left_room s))

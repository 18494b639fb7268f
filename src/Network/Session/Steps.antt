-- ===== src/Network/Session/Steps.antt =====
-- src/network/session.cpp: the loops of a session and the handlers that other threads post. `e` is the
-- byte order of the machine, and `grow` the growth of a vector.
use modern_cpp_room_server.Prelude.{
  ℕ, zero, suc, ◌*◌, Bool, true, false, Option, none, some, List, [], ◌∷◌, ◌++◌, length, take,
  replicate, ◌==◌, if◌then◌else◌, add_size, Expected, ok, err,
}
use modern_cpp_room_server.Protocol.Bytes.{Endian}
use modern_cpp_room_server.Protocol.Packet.{
  PacketType, ping, join_room, move, leave_room, unknown, PacketView, DecodeError, decode_one,
  encode_packet, is_incomplete,
}
use modern_cpp_room_server.Room.Commands.{
  SessionId, client_closed, protocol_error, io_error, RoomCommand,
}
use modern_cpp_room_server.Concurrency.{CloseableQueue}
use modern_cpp_room_server.Observability.Metrics.{
  Both, PendingDelivery, new_pending, begin_pending, WriteBatch, new_batch, complete_batch,
  destroy_batch,
}
use modern_cpp_room_server.Network.ReceiveBuffer
use modern_cpp_room_server.Network.ReceiveBuffer.{ReceiveBufferError, append, readable_bytes}
use modern_cpp_room_server.Network.OutboundQueue.{
  OutboundQueue, SharedPacket, new, pop_batch, close,
}
use modern_cpp_room_server.Network.Session.{
  max_session_buffer_size, max_session_outbound_bytes, max_outbound_batch_packets,
  max_outbound_batch_bytes, Writer, at_loop, writing, Session, with_metrics, update_queue_metrics,
  stop_session, reject_protocol, enqueue_outbound, handle_pong, handle_join, handle_move,
  handle_leave,
}

-- What the loop of `process_packets_and_send_responses` returns, with the session afterwards; with too
-- little fuel it does not come to an end.
pub data Processed : Type 0 where
  continues : Session → Processed
  ends : Session → Processed
  out_of_fuel : Session → Processed

unfoldable pub after_packet : (Session → Processed) → Bool × Session → Processed
after_packet rest (handled, t) = if handled then rest t else ends t

module _ (e : Endian) where
  -- The `switch`. A type that no label names leaves it without a change.
  unfoldable pub handle_type : PacketType → PacketView → Session → Bool × Session
  handle_type ping v s = handle_pong v (encode_packet e ping v.payload) s
  handle_type join_room v s = handle_join v s
  handle_type move v s = handle_move v s
  handle_type leave_room v s = handle_leave v s
  handle_type (unknown n) v s = (true, s)
  handle_type _ v s = reject_protocol s

  unfoldable pub after_decode :
      (Session → Processed) → Session → Expected DecodeError PacketView → Processed
  after_decode rest s (err error) =
      if is_incomplete error then continues s else ends (stop_session protocol_error s)
  after_decode rest s (ok v) = after_packet rest (handle_type v.header.type v s)

  unfoldable pub process : ℕ → Session → Processed
  process zero s = if ReceiveBuffer.empty s.receive_buffer then continues s else out_of_fuel s
  process (suc fuel) s =
      if ReceiveBuffer.empty s.receive_buffer
      then continues s
      else after_decode (process fuel) s (decode_one e (readable_bytes s.receive_buffer))

-- What `async_read_some` reports.
pub data ReadResult : Type 0 where
  end_of_file connection_reset operation_aborted other_error : ReadResult
  bytes_read : List ℕ → ReadResult

-- Whether `run` goes on reading, and the session.
unfoldable pub after_process : Processed → Bool × Session
after_process (continues s) = (true, s)
after_process (ends s) = (false, s)
after_process (out_of_fuel s) = (true, s)

unfoldable pub process_all : Endian → Session → Processed
unfolding process
process_all e s = process e (length (readable_bytes s.receive_buffer)) s

unfoldable pub after_append :
    Endian → Session → Expected ReceiveBufferError (Unit {0}) → Bool × Session
unfolding process_all
after_append e s (err error) = (false, stop_session protocol_error s)
after_append e s (ok done) = after_process (process_all e s)

-- One round of `run`.
unfoldable pub on_read : (grow : ℕ → ℕ → ℕ) → Endian → ReadResult → Session → Bool × Session
unfolding after_append
on_read grow e end_of_file s = (false, stop_session client_closed s)
on_read grow e connection_reset s = (false, stop_session client_closed s)
on_read grow e operation_aborted s =
    if s.stopped then (false, s) else (false, stop_session io_error s)
on_read grow e other_error s = (false, stop_session io_error s)
on_read grow e (bytes_read bytes) s =
    let (appended, buffer) = append grow s.receive_buffer bytes in
    after_append e (record s { receive_buffer = buffer }) appended

unfoldable pub packet_size : SharedPacket → ℕ
packet_size none = 0
packet_size (some bytes) = length bytes

-- A guard object is made and may count in the metrics.
unfoldable pub make_pending : ℕ → Option Both → PendingDelivery × Option Both
make_pending bytes none = (record { held = false; bytes = bytes }, none)
make_pending bytes (some b) =
    let (pending, counted) = new_pending true bytes b in (pending, some counted)

unfoldable pub begin_held : PendingDelivery → Option Both → Option Both
begin_held pending m = with_metrics (λ b. (begin_pending pending b).1) m

-- `deliver`, which any thread may call, and the handler that it posts.
unfoldable pub deliver : SharedPacket → Session → Session
unfolding make_pending packet_size
deliver packet s =
    let (pending, metrics) = make_pending (packet_size packet) s.metrics in
    record s { metrics = metrics; posted = s.posted ++ ((packet, pending) ∷ []) }

unfoldable pub run_posted : List (SharedPacket × PendingDelivery) → Session → Session
unfolding begin_held
run_posted [] s = s
run_posted ((packet, pending) ∷ rest) s =
    (enqueue_outbound packet (record s { metrics = begin_held pending s.metrics; posted = rest })).1

unfoldable pub batch_size : List SharedPacket → ℕ
unfolding packet_size
batch_size [] = 0
batch_size (p ∷ ps) = add_size (packet_size p) (batch_size ps)

unfoldable pub make_batch : ℕ → ℕ → Option Both → WriteBatch × Option Both
make_batch packets bytes none = (record { held = false }, none)
make_batch packets bytes (some b) =
    let (batch, counted) = new_batch true packets bytes b in (batch, some counted)

-- What a writer does with the batch that it has popped: it waits for `async_write`, or returns. The
-- other writers are `rest`.
unfoldable pub write_popped :
    List Writer → Session → ℕ × List SharedPacket × OutboundQueue → Session
unfolding make_batch batch_size
write_popped rest s (packet_count, packet_batch, queue) =
    let popped = update_queue_metrics (record s { outbound_queue = queue }) in
    if packet_count == 0
    then record popped { write_in_progress = false; writers = rest }
    else let packets = take packet_count packet_batch in
      let (batch, metrics) = make_batch packet_count (batch_size packets) popped.metrics in
      record popped { metrics = metrics; writers = writing packets batch ∷ rest }

-- A writer at the head of its loop.
unfoldable pub write_round : List Writer → Session → Session
unfolding write_popped
write_round rest s =
    if s.stopped
    then record s { write_in_progress = false; writers = rest }
    else write_popped rest s (
        pop_batch s.outbound_queue (replicate max_outbound_batch_packets none)
          max_outbound_batch_bytes)

-- `async_write` has ended, with the bytes transferred and whether it failed.
unfoldable pub write_done : WriteBatch → ℕ → Bool → List Writer → Session → Session
write_done batch transferred failed rest s =
    let counted = record s {
      metrics = with_metrics (λ b. (complete_batch batch transferred failed b).1) s.metrics;
    } in
    if failed
    then stop_session io_error (record counted { write_in_progress = false; writers = rest })
    else record counted { writers = at_loop ∷ rest }

-- An exception leaves a writer at its `async_write`: the guard is destroyed, and the spawner's handler
-- runs. Nothing throws before: the arrays have a fixed size, `pop_batch` moves, and the metrics are
-- `noexcept`.
unfoldable pub write_throws : WriteBatch → List Writer → Session → Session
write_throws batch rest s =
    stop_session io_error
      (record s { metrics = with_metrics (destroy_batch batch) s.metrics; writers = rest })

-- The constructor.
unfoldable pub new_session :
    (grow : ℕ → ℕ → ℕ) → SessionId → CloseableQueue RoomCommand → Option Both → Session
new_session grow id commands metrics = record {
  receive_buffer = ReceiveBuffer.new grow max_session_buffer_size (4 * 1024);
  outbound_queue = new max_session_outbound_bytes;
  session_id = id;
  room_commands = commands;
  metrics = metrics;
  joined_room = false;
  write_in_progress = false;
  stopped = false;
  socket_open = true;
  posted = [];
  writers = [];
}

-- The destructor, which changes the queue and what the metrics say of it.
unfoldable pub destroy : Session → Session
destroy s = update_queue_metrics (record s { outbound_queue = close s.outbound_queue })

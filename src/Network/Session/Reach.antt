-- ===== src/Network/Session/Reach.antt =====
-- A session with its environment: the socket, the writer coroutines, and other threads that deliver
-- packets and use the room worker.
use modern_cpp_room_server.Prelude.{
  ℕ, ◌*◌, if-split, ◌≤◌, ◌≡◌, refl, ap, ◌∙◌, Bool, true, false, not, Option, none, List, [], ◌∷◌,
  length, replicate, length-replicate, if◌then◌else◌, ok, err, arith, if-both, Expected, ◌==◌, take,
}
use modern_cpp_room_server.Concurrency.{CloseableQueue}
use modern_cpp_room_server.Protocol.Bytes.{Endian}
use modern_cpp_room_server.Room.Commands.{
  SessionId, DisconnectReason, RoomCommand, protocol_error, io_error, client_closed,
}
use modern_cpp_room_server.Observability.Metrics.{Both, PendingDelivery, WriteBatch, complete_batch}
use modern_cpp_room_server.Network.ReceiveBuffer.{ReceiveBufferError, append, readable_bytes}
use modern_cpp_room_server.Network.OutboundQueue.{OutboundQueue, SharedPacket, new}
use modern_cpp_room_server.Network.OutboundQueue.Valid
use modern_cpp_room_server.Network.OutboundQueue.Batch.{IsBatch, pop_batch-IsBatch}
use modern_cpp_room_server.Network.Session.{
  Session, with_metrics, Writer, at_loop, writing, stop_session, update_queue_metrics,
  max_outbound_batch_packets, max_outbound_batch_bytes,
}
use modern_cpp_room_server.Network.Session.Steps.{
  process_all, after_append, on_read, new_session, begin_held, make_batch, batch_size, ReadResult,
  end_of_file, connection_reset, operation_aborted, other_error, bytes_read, deliver, run_posted,
  write_popped, write_round, write_done, write_throws,
}
use modern_cpp_room_server.Network.Session.Sound.{
  IsSound, stop_session-IsSound, enqueue_outbound-IsSound,
}
use modern_cpp_room_server.Network.Session.Process.{
  SameOutbound, SameOutbound-IsSound, SoundAfter, stopped_IsSound, process-IsSound,
  after_process-IsSound,
}

-- The sessions that can be reached with the growth `grow` of vectors, on a machine of byte order `e`.
pub data Reach (grow : ℕ → ℕ → ℕ) (e : Endian) : Session → Type 0 where
  made :
      (id : SessionId) (commands : CloseableQueue RoomCommand) (metrics : Option Both)
      → Reach grow e (new_session grow id commands metrics)
  reads :
      {s : Session} (result : ReadResult)
      → Reach grow e s
      → Reach grow e (on_read grow e result s).1
  delivered :
      {s : Session} (packet : SharedPacket) → Reach grow e s → Reach grow e (deliver packet s)
  handled : {s : Session} → Reach grow e s → Reach grow e (run_posted s.posted s)
  wrote :
      {s : Session} (rest : List Writer)
      → Reach grow e s
      → s.writers ≡ at_loop ∷ rest
      → Reach grow e (write_round rest s)
  completed :
      {s : Session} (packets : List SharedPacket) (batch : WriteBatch) (transferred : ℕ)
      (failed : Bool) (rest : List Writer)
      → Reach grow e s
      → s.writers ≡ writing packets batch ∷ rest
      → Reach grow e (write_done batch transferred failed rest s)
  thrown :
      {s : Session} (packets : List SharedPacket) (batch : WriteBatch) (rest : List Writer)
      → Reach grow e s
      → s.writers ≡ writing packets batch ∷ rest
      → Reach grow e (write_throws batch rest s)
  shared :
      {s : Session} (commands : CloseableQueue RoomCommand) (metrics : Option Both)
      → Reach grow e s
      → Reach grow e (record s { room_commands = commands; metrics = metrics })

new-IsSound :
    (grow : ℕ → ℕ → ℕ) (id : SessionId) (commands : CloseableQueue RoomCommand)
    (metrics : Option Both)
    → IsSound (new_session grow id commands metrics)
unfolding new_session new
new-IsSound grow id commands metrics = record {
  queue_valid = unfold new in Valid.new-IsValid (256 * 1024) (omega arith);
  one_writer = omega arith;
  stopped_queue = refl;
  stopped_socket = refl;
  writer_runs = λ e f. cc f;
  nothing_waits = λ e f. refl;
}

as_it_was : {s t : Session} → IsSound s → SameOutbound s t → IsSound t
as_it_was i h = SameOutbound-IsSound h i

after_append-IsSound :
    (e : Endian) (s : Session) (x : Expected ReceiveBufferError (Unit {0}))
    → IsSound s
    → SoundAfter (after_append e s x)
unfolding after_append process_all
after_append-IsSound e s (err x) i = stopped_IsSound protocol_error i
after_append-IsSound e s (ok done) i =
    after_process-IsSound (process_all e s)
      (process-IsSound e (length (readable_bytes s.receive_buffer)) s i)

on_read-IsSound :
    (grow : ℕ → ℕ → ℕ) (e : Endian) (result : ReadResult) (s : Session)
    → IsSound s
    → SoundAfter (on_read grow e result s)
unfolding on_read
on_read-IsSound grow e end_of_file s i = stopped_IsSound client_closed i
on_read-IsSound grow e connection_reset s i = stopped_IsSound client_closed i
on_read-IsSound grow e operation_aborted s i =
    if-both SoundAfter s.stopped i (stopped_IsSound io_error i)
on_read-IsSound grow e other_error s i = stopped_IsSound io_error i
on_read-IsSound grow e (bytes_read bytes) s i =
    after_append-IsSound e (record s { receive_buffer = (append grow s.receive_buffer bytes).1 })
      (append grow s.receive_buffer bytes).0
      (as_it_was i (record {
        same_queue = refl;
        same_writers = refl;
        same_progress = refl;
        same_stopped = refl;
        same_socket = refl;
      }))

deliver-IsSound : (packet : SharedPacket) (s : Session) → IsSound s → IsSound (deliver packet s)
unfolding deliver
deliver-IsSound packet s i = as_it_was i (ground arith)

run_posted-IsSound :
    (posted : List (SharedPacket × PendingDelivery)) (s : Session)
    → IsSound s
    → IsSound (run_posted posted s)
unfolding run_posted
run_posted-IsSound [] s i = i
run_posted-IsSound ((packet, pending) ∷ rest) s i =
    enqueue_outbound-IsSound packet
      (record s { metrics = begin_held pending s.metrics; posted = rest })
      (as_it_was i (ground arith))

-- A writer that returns when nothing is left to write.
idle_IsSound :
    (rest : List Writer) (s : Session)
    → length rest ≡ 0
    → Valid.IsValid s.outbound_queue
    → s.outbound_queue.closed ≡ s.stopped
    → s.socket_open ≡ not s.stopped
    → (s.stopped ≡ false → s.outbound_queue.packets ≡ [])
    → IsSound (record s { write_in_progress = false; writers = rest })
idle_IsSound rest s n v c o p = record {
  queue_valid = v;
  one_writer = omega (arith, n);
  stopped_queue = c;
  stopped_socket = o;
  writer_runs = λ e f. cc f;
  nothing_waits = λ e f. p e;
}

-- The writer is the only one, and it is marked.
alone :
    {s : Session} (w : Writer) (rest : List Writer)
    → IsSound s
    → s.writers ≡ w ∷ rest
    → (length rest ≡ 0) × (s.write_in_progress ≡ true)
alone {s} w rest i e = ground (arith, i.one_writer, ap length e)

busy_IsSound :
    (w : Writer) (rest : List Writer) (s : Session)
    → length rest ≡ 0
    → s.write_in_progress ≡ true
    → Valid.IsValid s.outbound_queue
    → s.outbound_queue.closed ≡ s.stopped
    → s.socket_open ≡ not s.stopped
    → IsSound (record s { writers = w ∷ rest })
busy_IsSound w rest s n b v c o = record {
  queue_valid = v;
  one_writer = ground (arith, n, b);
  stopped_queue = c;
  stopped_socket = o;
  writer_runs = λ e f. omega (arith, n);
  nothing_waits = λ e f. cc (f, b);
}

write_popped-IsSound :
    (rest : List Writer) (s : Session) (r : ℕ × List SharedPacket × OutboundQueue)
    → IsSound s
    → s.writers ≡ at_loop ∷ rest
    → IsBatch s.outbound_queue
        (replicate max_outbound_batch_packets none)
        max_outbound_batch_bytes
        r
    → r.2.closed ≡ s.outbound_queue.closed
    → IsSound (write_popped rest s r)
unfolding write_popped update_queue_metrics
write_popped-IsSound rest s r i e batch c =
    let (n, b) = alone at_loop rest i e in
    let closed = c ∙ i.stopped_queue in
    let popped = update_queue_metrics (record s { outbound_queue = r.2 }) in
    if-split IsSound (r.0 == 0)
      (λ none_left.
        idle_IsSound rest popped n batch.valid closed i.stopped_socket
          (λ running. emptied none_left))
      (λ some_left.
        let made = make_batch r.0 (batch_size (take r.0 r.1)) popped.metrics in
        busy_IsSound (writing (take r.0 r.1) made.0) rest (record popped { metrics = made.1 }) n b
          batch.valid closed i.stopped_socket)
  where
    emptied : (r.0 == 0) ≡ true → r.2.packets ≡ []
    emptied z = ground (
      arith,
      z,
      batch.greedy,
      length-replicate {A = SharedPacket} max_outbound_batch_packets none,
    )

write_round-IsSound :
    (rest : List Writer) (s : Session)
    → IsSound s
    → s.writers ≡ at_loop ∷ rest
    → IsSound (write_round rest s)
unfolding write_round
write_round-IsSound rest s i e =
    let destination = replicate max_outbound_batch_packets none in
    if-split IsSound s.stopped
      (λ over.
        idle_IsSound rest s (alone at_loop rest i e).0 i.queue_valid i.stopped_queue
          i.stopped_socket (λ running. cc (running, over)))
      (λ running.
        write_popped-IsSound rest s _ i e
          (pop_batch-IsBatch s.outbound_queue destination max_outbound_batch_bytes i.queue_valid
            (omega arith))
          (Valid.closed-pop_batch s.outbound_queue destination max_outbound_batch_bytes))

-- A writer has gone, and the session is about to be stopped.
gone_IsSound :
    (reason : DisconnectReason) (rest : List Writer) (s : Session) (b : Bool) (m : Option Both)
    → length rest ≡ 0
    → IsSound s
    → IsSound
        (stop_session reason (record s { metrics = m; write_in_progress = b; writers = rest }))
gone_IsSound reason rest s b m n i =
    stop_session-IsSound reason (record s { metrics = m; write_in_progress = b; writers = rest })
      i.queue_valid few
      (λ over. record {
        queue_valid = i.queue_valid;
        one_writer = few;
        stopped_queue = i.stopped_queue;
        stopped_socket = i.stopped_socket;
        writer_runs = λ f. cc (f, over);
        nothing_waits = λ f. cc (f, over);
      })
  where
    few : length rest ≤ (if b then 1 else 0)
    few = ground (arith, n)

write_done-IsSound :
    (packets : List SharedPacket) (batch : WriteBatch) (transferred : ℕ) (failed : Bool)
    (rest : List Writer) (s : Session)
    → IsSound s
    → s.writers ≡ writing packets batch ∷ rest
    → IsSound (write_done batch transferred failed rest s)
unfolding write_done
write_done-IsSound packets batch transferred failed rest s i e =
    let (n, b) = alone (writing packets batch) rest i e in
    let m = with_metrics (λ b. (complete_batch batch transferred failed b).1) s.metrics in
    if-both IsSound failed (gone_IsSound io_error rest s false m n i) (
      busy_IsSound at_loop rest (record s { metrics = m }) n b i.queue_valid i.stopped_queue
        i.stopped_socket)

write_throws-IsSound :
    (packets : List SharedPacket) (batch : WriteBatch) (rest : List Writer) (s : Session)
    → IsSound s
    → s.writers ≡ writing packets batch ∷ rest
    → IsSound (write_throws batch rest s)
unfolding write_throws
write_throws-IsSound packets batch rest s i e =
    gone_IsSound io_error rest s s.write_in_progress _ (alone (writing packets batch) rest i e).0 i

-- In every state of a session that is reached by reads of any result, deliveries and their
-- handlers, rounds, ends and exceptions of its writers, and changes that others make to the room's
-- queue and the metrics: at most one writer coroutine exists, and none when no write is in
-- progress; while the session runs there is exactly one when a write is in progress, and no packet
-- waits when none is; the outbound queue is valid, and it is closed and the socket shut exactly
-- when the session is stopped.
pub Reach-IsSound : {grow : ℕ → ℕ → ℕ} {e : Endian} {s : Session} → Reach grow e s → IsSound s
Reach-IsSound {grow} (made id commands metrics) = new-IsSound grow id commands metrics
Reach-IsSound {grow} {e} (reads {s} result r) = on_read-IsSound grow e result s (Reach-IsSound r)
Reach-IsSound (delivered {s} packet r) = deliver-IsSound packet s (Reach-IsSound r)
Reach-IsSound (handled {s} r) = run_posted-IsSound s.posted s (Reach-IsSound r)
Reach-IsSound (wrote {s} rest r e) = write_round-IsSound rest s (Reach-IsSound r) e
Reach-IsSound (completed {s} packets batch transferred failed rest r e) =
    write_done-IsSound packets batch transferred failed rest s (Reach-IsSound r) e
Reach-IsSound (thrown {s} packets batch rest r e) =
    write_throws-IsSound packets batch rest s (Reach-IsSound r) e
Reach-IsSound (shared commands metrics r) = as_it_was (Reach-IsSound r) (record {
  same_queue = refl;
  same_writers = refl;
  same_progress = refl;
  same_stopped = refl;
  same_socket = refl;
})

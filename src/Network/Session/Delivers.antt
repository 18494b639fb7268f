-- ===== src/Network/Session/Delivers.antt =====
-- Events that are delivered to a session reach the client that reads from its socket.
use modern_cpp_room_server.Prelude.{
  ℕ, suc, ◌+◌, ◌*◌, ◌≤◌, ◌<◌, ◌≡◌, refl, sym, ap, ◌∙◌, subst, Bool, true, false, Option, ◌⊎◌, inl,
  inr, none, some, List, [], ◌∷◌, ◌++◌, map, length, All, if-both, if◌then◌else◌, Expected, ok, err,
  arith,
}
use mathlib.Core.List.{append_assoc, append-nil}
use modern_cpp_room_server.Protocol.Bytes.{Endian}
use modern_cpp_room_server.Protocol.Packet.{EncodeError}
use modern_cpp_room_server.Room.Commands.{RoomEvent}
use modern_cpp_room_server.Network.OutboundQueue.{
  OutboundQueue, OutboundQueueError, SharedPacket, PacketBuffer, push,
}
use modern_cpp_room_server.Network.OutboundQueue.Valid
use modern_cpp_room_server.Network.OutboundQueue.Push.{
  push_error, push_reference, push-push_reference,
}
use modern_cpp_room_server.Network.EventEncoder.{encode_room_event}
use modern_cpp_room_server.Network.EventEncoder.RoundTrip.{
  IsEvent, event_packet, read_view-encode_room_event,
}
use modern_cpp_room_server.Network.EventEncoder.Stream.{
  read_events, event_stream, read_events-event_stream, length-event_packet,
}
use modern_cpp_room_server.Network.Session.{
  Session, at_loop, update_queue_metrics, after_push, enqueue_outbound,
}
use modern_cpp_room_server.Network.Session.Steps.{
  make_pending, packet_size, begin_held, deliver, run_posted,
}
use modern_cpp_room_server.Network.Session.Writes.{
  write_all, write_all-returned, steps_to_drain, write_all-Written,
}
use modern_cpp_room_server.Observability.Metrics.{Both}

-- The registry delivers an encoded event, and the handler that the session posts runs.
unfoldable pub deliver_encoded : Expected EncodeError SharedPacket → Session → Session
deliver_encoded (err error) s = s
deliver_encoded (ok packet) s = let posted = deliver packet s in run_posted posted.posted posted

unfoldable pub deliver_all : Endian → List RoomEvent → Session → Session
unfolding deliver_encoded
deliver_all e [] s = s
deliver_all e (event ∷ events) s =
    deliver_all e events (deliver_encoded (encode_room_event e event) s)

-- Nothing is queued and nobody writes, or the one writer is at the head of its loop.
unfoldable pub Awaits : Session → Type 0
Awaits s =
    (s.outbound_queue.packets ≡ []) × (s.write_in_progress ≡ false) × (s.writers ≡ [])
    ⊎ (s.write_in_progress ≡ true) × (s.writers ≡ at_loop ∷ [])

-- A running session with room for `n` events more.
pub record IsReady (n : ℕ) (s : Session) : Type 0 where
  pub valid : Valid.IsValid s.outbound_queue
  pub not_closed : s.outbound_queue.closed ≡ false
  pub runs : s.stopped ≡ false
  pub none_posted : s.posted ≡ []
  pub writer : Awaits s
  pub room : s.outbound_queue.pending_bytes + 22 * n ≤ s.outbound_queue.max_pending_bytes

record IsDelivered (n : ℕ) (packet : PacketBuffer) (s t : Session) : Type 0 where
  ready : IsReady n t
  last : t.outbound_queue.packets ≡ s.outbound_queue.packets ++ (packet ∷ [])

push_fits :
    (q : OutboundQueue) (p : PacketBuffer)
    → Valid.IsValid q
    → q.closed ≡ false
    → 0 < length p
    → q.pending_bytes + length p ≤ q.max_pending_bytes
    → push q (some p) ≡ (
      ok tt,
      record q {
        packets = q.packets ++ (p ∷ []);
        pending_bytes = Valid.total (q.packets ++ (p ∷ []));
      },
    )
unfolding push_reference push_error
push_fits q p v not_closed full fits =
    push-push_reference q (some p) v ∙ ground (arith, not_closed, full, fits, v.counted)

unfoldable spawned : Session → Bool → Bool × Session
spawned s b =
    if b
    then (true, s)
    else (true, record s { write_in_progress = true; writers = s.writers ++ (at_loop ∷ []) })

-- A push that succeeds leaves one writer at the head of its loop.
after_push-Awaits :
    (s : Session) (q : OutboundQueue) (m : Option Both)
    → Awaits s
    → Awaits (after_push (ok tt) (record s { outbound_queue = q; metrics = m })).1
unfolding Awaits after_push spawned
after_push-Awaits s q m (inl (empty, idle, returned)) =
    let t : Session = record s { outbound_queue = q; metrics = m } in
    subst (λ b. Awaits (spawned t b).1) (sym idle)
      (inr (refl, ap (λ ws. ws ++ (at_loop ∷ [])) returned))
after_push-Awaits s q m (inr (busy, one)) =
    let t : Session = record s { outbound_queue = q; metrics = m } in
    subst (λ b. Awaits (spawned t b).1) (sym busy) (inr (busy, one))

-- The packet is pushed, and there is room for one event less.
pushed_ready :
    (n : ℕ) (p : PacketBuffer) (s : Session)
    → 0 < length p
    → length p ≤ 22
    → IsReady (suc n) s
    → IsDelivered n p s (enqueue_outbound (some p) s).1
unfolding enqueue_outbound after_push update_queue_metrics
pushed_ready n p s full small g =
    let q = s.outbound_queue in
    let pushed = push_fits q p g.valid g.not_closed full (omega (arith, g.room, small)) in
    let after : OutboundQueue = record q {
      packets = q.packets ++ (p ∷ []);
      pending_bytes = Valid.total (q.packets ++ (p ∷ []));
    } in
    let size = Valid.total-append q.packets (p ∷ []) in
    let valid : Valid.IsValid after =
      subst (λ x. Valid.IsValid x.1) pushed (Valid.push-IsValid q (some p) g.valid) in
    let enqueued : Session = update_queue_metrics (record s { outbound_queue = after }) in
    let room : after.pending_bytes + 22 * n ≤ after.max_pending_bytes =
      omega (arith, size, g.room, small, g.valid.counted) in
    let writer = after_push-Awaits s after enqueued.metrics g.writer in
    subst (λ b. IsDelivered n p s (if b then (false, s) else pushed_to (push q (some p))).1)
      (sym g.runs)
      (subst (λ x. IsDelivered n p s (pushed_to x).1) (sym pushed)
        (if-both (λ (r : Bool × Session). Awaits r.1 → IsDelivered n p s r.1) s.write_in_progress
          (λ w. record {
            ready = record {
              valid = valid;
              not_closed = g.not_closed;
              runs = g.runs;
              none_posted = g.none_posted;
              writer = w;
              room = room;
            };
            last = refl;
          })
          (λ w. record {
            ready = record {
              valid = valid;
              not_closed = g.not_closed;
              runs = g.runs;
              none_posted = g.none_posted;
              writer = w;
              room = room;
            };
            last = refl;
          })
          writer))
  where
    pushed_to : Expected OutboundQueueError (Unit {0}) × OutboundQueue → Bool × Session
    pushed_to (x, queue) = after_push x (update_queue_metrics (record s { outbound_queue = queue }))

deliver_ready :
    (n : ℕ) (p : PacketBuffer) (s : Session)
    → 0 < length p
    → length p ≤ 22
    → IsReady (suc n) s
    → IsDelivered n p s (deliver_encoded (ok (some p)) s)
unfolding deliver_encoded deliver run_posted Awaits
deliver_ready n p s full small g =
    let (pending, metrics) = make_pending (packet_size (some p)) s.metrics in
    let run =
      pushed_ready n p (record s { metrics = begin_held pending metrics; posted = [] }) full small
        (record {
          valid = g.valid;
          not_closed = g.not_closed;
          runs = g.runs;
          none_posted = refl;
          writer = g.writer;
          room = g.room;
        }) in
    subst
      (λ xs. IsDelivered n p s (
        run_posted (xs ++ ((some p, pending) ∷ []))
          (record s { metrics = metrics; posted = xs ++ ((some p, pending) ∷ []) })))
      (sym g.none_posted) (record { ready = run.ready; last = run.last })

-- The queue after the deliveries.
record HasQueued (events : List RoomEvent) (s t : Session) : Type 0 where
  ready : IsReady 0 t
  queued : t.outbound_queue.packets ≡ s.outbound_queue.packets ++ map event_packet events

deliver_all-HasQueued :
    (e : Endian) (events : List RoomEvent) (s : Session)
    → All IsEvent events
    → IsReady (length events) s
    → HasQueued events s (deliver_all e events s)
unfolding deliver_all
deliver_all-HasQueued e [] s h g = record {
  ready = g;
  queued = sym (append-nil s.outbound_queue.packets);
}
deliver_all-HasQueued e (event ∷ events) s (fits, h) g =
    let p = event_packet event in
    let size = length-event_packet event in
    let once = deliver_ready (length events) p s (omega (arith, size.0)) (size.1) g in
    let others = deliver_all-HasQueued e events (deliver_encoded (ok (some p)) s) h once.ready in
    subst (λ x. HasQueued (event ∷ events) s (deliver_all e events (deliver_encoded x s)))
      (sym (read_view-encode_room_event e e event [] fits tt).0)
      (record {
        ready = others.ready;
        queued =
            others.queued
            ∙ ap (λ xs. xs ++ map event_packet events) once.last
            ∙ append_assoc s.outbound_queue.packets (p ∷ []) (map event_packet events);
      })

-- What `async_write` sends of the packets that are written.
abbrev pub sent_bytes : List SharedPacket → List ℕ
sent_bytes [] = []
sent_bytes (none ∷ packets) = sent_bytes packets
sent_bytes (some p ∷ packets) = p ++ sent_bytes packets

sent_bytes-event_packet :
    (events : List RoomEvent)
    → sent_bytes (map some (map event_packet events)) ≡ event_stream events
sent_bytes-event_packet [] = refl
sent_bytes-event_packet (event ∷ events) =
    ap (λ t. event_packet event ++ t) (sent_bytes-event_packet events)

-- All that the session's writer sends, if there is one.
abbrev pub sent : Session → List ℕ
sent s = sent_bytes (write_all (steps_to_drain s) s).0

-- All that is queued is sent.
write_all-queued :
    (s : Session)
    → IsReady 0 s
    → (write_all (steps_to_drain s) s).0 ≡ map some s.outbound_queue.packets
unfolding Awaits
write_all-queued s g = elim g.writer [
  | inl (empty, idle, returned) ↦
      ap (λ r. r.0) (write_all-returned (steps_to_drain s) s returned) ∙ ap (map some) (sym empty)
  | inr (busy, one) ↦ (write_all-Written s g.valid g.runs one).in_order
]

-- Events whose fields are within their types, delivered one after another, each encoded on a
-- machine of one byte order, to a running session that has an open, valid and empty queue with
-- room for 22 bytes for each of them, no posted handler, and either no writer and no write in
-- progress or one writer at the head of its loop and a write in progress, are sent by the writers
-- that the session then has, with writes that all succeed, and a client on a machine of any byte
-- order that decodes the bytes sent reads exactly these events in their order.
pub read_events-deliver_all :
    (e e' : Endian) (events : List RoomEvent) (s : Session)
    → All IsEvent events
    → IsReady (length events) s
    → s.outbound_queue.packets ≡ []
    → let bytes = sent (deliver_all e events s) in read_events e' (length bytes) bytes ≡ events
read_events-deliver_all e e' events s h g empty =
    let t = deliver_all e events s in
    let after = deliver_all-HasQueued e events s h g in
    let stream : sent t ≡ event_stream events =
      ap sent_bytes (
        write_all-queued t after.ready
        ∙ ap (map some) (after.queued ∙ ap (λ xs. xs ++ map event_packet events) empty))
      ∙ sent_bytes-event_packet events in
    subst (λ bytes. read_events e' (length bytes) bytes ≡ events) (sym stream)
      (read_events-event_stream e' events h)

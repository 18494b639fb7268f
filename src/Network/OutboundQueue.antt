-- ===== src/Network/OutboundQueue.antt =====
-- src/network/outbound_queue.cpp. A `SharedPacket` points to bytes that nobody changes, so it is the
-- bytes, or `none` for the null pointer. The queue holds no null pointer, since `push` refuses it.
pub mod Valid
pub mod Push
pub mod Batch
use modern_cpp_room_server.Prelude.{
  ℕ, ◌+◌, Bool, true, false, not, ◌&&◌, ◌||◌, Option, none, some, List, [], ◌∷◌, ◌++◌, length, set,
  ltb, leb, ◌==◌, if◌then◌else◌, add_size, sub_size, Expected, ok, err,
}

abbrev pub PacketBuffer : Type 0
PacketBuffer = List ℕ

abbrev pub SharedPacket : Type 0
SharedPacket = Option PacketBuffer

unfoldable pub make_shared_packet : PacketBuffer → SharedPacket
make_shared_packet packet = some packet

pub data OutboundQueueError : Type 0 where
  closed invalid_packet packet_too_large byte_limit_exceeded : OutboundQueueError

pub record OutboundQueue : Type 0 where
  pub packets : List PacketBuffer
  pub pending_bytes : ℕ
  pub max_pending_bytes : ℕ
  pub closed : Bool

unfoldable pub new : ℕ → OutboundQueue
new max_pending_bytes = record {
  packets = [];
  pending_bytes = 0;
  max_pending_bytes = max_pending_bytes;
  closed = false;
}

-- `push` of a packet that is neither null nor empty, on an open queue.
pub push_packet :
    OutboundQueue → PacketBuffer → Expected OutboundQueueError (Unit {0}) × OutboundQueue
push_packet q packet =
    if ltb q.max_pending_bytes (length packet)
    then (err packet_too_large, q)
    else if ltb (sub_size q.max_pending_bytes q.pending_bytes) (length packet)
    then (err byte_limit_exceeded, q)
    else (
      ok tt,
      record q {
        packets = q.packets ++ (packet ∷ []);
        pending_bytes = add_size q.pending_bytes (length packet);
      },
    )

pub push_pointer :
    OutboundQueue → SharedPacket → Expected OutboundQueueError (Unit {0}) × OutboundQueue
unfolding push_packet
push_pointer q none = (err invalid_packet, q)
push_pointer q (some []) = (err invalid_packet, q)
push_pointer q (some (b ∷ bs)) = push_packet q (b ∷ bs)

unfoldable pub push :
    OutboundQueue → SharedPacket → Expected OutboundQueueError (Unit {0}) × OutboundQueue
unfolding push_pointer
push q packet = if q.closed then (err OutboundQueueError.closed, q) else push_pointer q packet

-- The variables of the loop of `pop_batch`, and the span that it fills.
pub record PopState : Type 0 where
  pub packet_count : ℕ
  pub batch_bytes : ℕ
  pub destination : List SharedPacket
  pub packets : List PacketBuffer
  pub pending_bytes : ℕ

-- The condition of the `break`.
abbrev pub exceeds_batch : ℕ → PopState → ℕ → Bool
exceeds_batch max_batch_bytes s packet_bytes =
    not (s.packet_count == 0)
    && (leb max_batch_bytes s.batch_bytes
        || ltb (sub_size max_batch_bytes s.batch_bytes) packet_bytes)

-- The first packet is moved out of the queue into the next entry of the span.
abbrev pub pop_one : PopState → PacketBuffer → List PacketBuffer → PopState
pop_one s packet rest = record {
  packet_count = s.packet_count + 1;
  batch_bytes = add_size s.batch_bytes (length packet);
  destination = set s.destination s.packet_count (some packet);
  packets = rest;
  pending_bytes = sub_size s.pending_bytes (length packet);
}

-- The loop, over the packets still queued (`s.packets` at each round).
pub pop_loop : ℕ → List PacketBuffer → PopState → PopState
pop_loop max_batch_bytes [] s = s
pop_loop max_batch_bytes (packet ∷ rest) s =
    let next = pop_loop max_batch_bytes rest (pop_one s packet rest) in
    if not (ltb s.packet_count (length s.destination))
    then s
    else if exceeds_batch max_batch_bytes s (length packet)
    then s
    else next

-- The count, the filled span and the queue afterwards.
unfoldable pub pop_batch :
    OutboundQueue → List SharedPacket → ℕ → ℕ × List SharedPacket × OutboundQueue
unfolding pop_loop
pop_batch q destination max_batch_bytes =
    if length destination == 0 || max_batch_bytes == 0
    then (0, destination, q)
    else let s = pop_loop max_batch_bytes q.packets (record {
      packet_count = 0;
      batch_bytes = 0;
      destination = destination;
      packets = q.packets;
      pending_bytes = q.pending_bytes;
    }) in
      (
        s.packet_count,
        s.destination,
        record q { packets = s.packets; pending_bytes = s.pending_bytes },
      )

unfoldable pub close : OutboundQueue → OutboundQueue
close q = record q { packets = []; pending_bytes = 0; closed = true }

pub empty : OutboundQueue → Bool
empty q = length q.packets == 0

unfoldable pub pending_packets : OutboundQueue → ℕ
pending_packets q = length q.packets

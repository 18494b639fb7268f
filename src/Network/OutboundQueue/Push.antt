-- ===== src/Network/OutboundQueue/Push.antt =====
-- What each call of `push` does.
use modern_cpp_room_server.Prelude.{
  ◌+◌, ◌≡◌, Option, none, some, [], ◌∷◌, ◌++◌, length, ok, err, Expected, arith, ltb, ◌==◌,
  if◌then◌else◌,
}
use modern_cpp_room_server.Network.OutboundQueue.{
  PacketBuffer, SharedPacket, OutboundQueueError, invalid_packet, packet_too_large,
  byte_limit_exceeded, OutboundQueue, push,
}
use modern_cpp_room_server.Network.OutboundQueue.Valid.{total, total-append, IsValid}

-- Why a push fails, in the order of the checks; `none` if it does not.
unfoldable pub push_error : OutboundQueue → SharedPacket → Option OutboundQueueError
push_error q none = if q.closed then some OutboundQueueError.closed else some invalid_packet
push_error q (some p) =
    if q.closed
    then some OutboundQueueError.closed
    else if length p == 0
    then some invalid_packet
    else if ltb q.max_pending_bytes (length p)
    then some packet_too_large
    else if ltb q.max_pending_bytes (total q.packets + length p)
    then some byte_limit_exceeded
    else none

abbrev pub bytes_of : SharedPacket → PacketBuffer
bytes_of none = []
bytes_of (some p) = p

-- The reference: a failed push changes nothing, and any other appends the packet and counts its bytes.
unfoldable pub push_reference :
    OutboundQueue → SharedPacket → Expected OutboundQueueError (Unit {0}) × OutboundQueue
push_reference q p = elim (push_error q p) [
  | some x ↦ (err x, q)
  | none ↦ (
    ok tt,
    record q {
      packets = q.packets ++ (bytes_of p ∷ []);
      pending_bytes = total (q.packets ++ (bytes_of p ∷ []));
    },
  )
]

-- On a valid queue push fails for the first of the reasons closed, null or empty packet, packet
-- above the limit, packet above what the limit leaves, and then changes nothing; otherwise it
-- succeeds, appends the packet, and pending_bytes is the sum of the sizes of all packets.
pub push-push_reference :
    (q : OutboundQueue) (p : SharedPacket) → IsValid q → push q p ≡ push_reference q p
unfolding push push_reference push_error
push-push_reference q none v = ground arith
push-push_reference q (some []) v = ground arith
push-push_reference q (some (b ∷ bs)) v = ground (arith, total-append q.packets ((b ∷ bs) ∷ []))

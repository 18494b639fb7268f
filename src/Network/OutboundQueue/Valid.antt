-- ===== src/Network/OutboundQueue/Valid.antt =====
-- The invariant of the outbound queue: its byte count is that of its packets and within the limit,
-- no packet is empty, and a closed queue holds nothing.
use modern_cpp_room_server.Prelude.{
  ℕ, ◌+◌, ◌^◌, ◌≤◌, ◌<◌, ◌≡◌, refl, true, none, some, List, [], ◌∷◌, ◌++◌, length, All, All-append,
  arith,
}
use modern_cpp_room_server.Network.OutboundQueue.{
  PacketBuffer, SharedPacket, OutboundQueue, new, push, push_pointer, push_packet, close, pop_batch,
}

-- The bytes of a sequence of packets.
abbrev pub total : List PacketBuffer → ℕ
total [] = 0
total (p ∷ ps) = length p + total ps

abbrev pub IsNonempty : PacketBuffer → Type 0
IsNonempty p = 0 < length p

pub total-append : (ps qs : List PacketBuffer) → total (ps ++ qs) ≡ total ps + total qs
total-append [] qs = omega arith
total-append (p ∷ ps) qs = omega (arith, total-append ps qs)

pub record IsValid (q : OutboundQueue) : Type 0 where
  pub counted : q.pending_bytes ≡ total q.packets
  pub limited : q.pending_bytes ≤ q.max_pending_bytes
  pub limit_small : q.max_pending_bytes < 2 ^ 63
  pub nonempty : All IsNonempty q.packets
  pub closed_empty : q.closed ≡ true → q.packets ≡ []

pub new-IsValid : (limit : ℕ) → limit < 2 ^ 63 → IsValid (new limit)
unfolding new
new-IsValid limit h = record {
  counted = refl;
  limited = omega arith;
  limit_small = h;
  nonempty = tt;
  closed_empty = λ e. refl;
}

pub close-IsValid : (q : OutboundQueue) → IsValid q → IsValid (close q)
unfolding close
close-IsValid q v = record {
  counted = refl;
  limited = omega arith;
  limit_small = v.limit_small;
  nonempty = tt;
  closed_empty = λ e. refl;
}

-- A push keeps the invariant, whether it succeeds or fails.
pub push-IsValid : (q : OutboundQueue) (p : SharedPacket) → IsValid q → IsValid (push q p).1
unfolding push
push-IsValid q none v = ground arith
push-IsValid q (some []) v = ground arith
push-IsValid q (some (b ∷ bs)) v =
    let added : All IsNonempty (q.packets ++ ((b ∷ bs) ∷ [])) =
      All-append IsNonempty q.packets ((b ∷ bs) ∷ []) v.nonempty (omega arith) in
    ground (arith, added, total-append q.packets ((b ∷ bs) ∷ []))

pub closed-push : (q : OutboundQueue) (p : SharedPacket) → (push q p).1.closed ≡ q.closed
unfolding push push_pointer push_packet
closed-push q none = ground arith
closed-push q (some []) = ground arith
closed-push q (some (b ∷ bs)) = ground arith

pub closed-pop_batch :
    (q : OutboundQueue) (destination : List SharedPacket) (budget : ℕ)
    → (pop_batch q destination budget).2.closed ≡ q.closed
unfolding pop_batch
closed-pop_batch q destination budget = ground arith

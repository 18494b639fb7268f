-- ===== src/Network/Tests.antt =====
-- Runs of the network layer's buffers and queues, and the theorems at concrete inputs.
use modern_cpp_room_server.Prelude.{
  ℕ, ◌≤◌, ◌<◌, ◌≡◌, refl, ◌⊎◌, false, none, some, [], ◌∷◌, ok, arith,
}
use modern_cpp_room_server.Network.ReceiveBuffer
use modern_cpp_room_server.Network.ReceiveBuffer.{ReceiveBuffer, IsGrowth}
use modern_cpp_room_server.Network.ReceiveBuffer.Valid.{IsValid}
use modern_cpp_room_server.Network.ReceiveBuffer.Refines.{
  push_bytes, drop_bytes, view, consume-refines, append-refines, made, fed, Reach-IsValid,
  append_growth_limited,
}
use modern_cpp_room_server.Network.OutboundQueue
use modern_cpp_room_server.Network.OutboundQueue.{OutboundQueue}
use modern_cpp_room_server.Network.OutboundQueue.Valid
use modern_cpp_room_server.Network.OutboundQueue.Push.{push_reference, push-push_reference}
use modern_cpp_room_server.Network.OutboundQueue.Batch.{IsBatch, pop_batch-IsBatch}

-- A vector that grows to what is needed.
abbrev exact : ℕ → ℕ → ℕ
exact capacity needed = needed

exact-IsGrowth : IsGrowth exact
exact-IsGrowth = record { enough = λ c n. omega arith; addressable = λ c n h. h }

-- Two bytes read, two unread, and no room behind them.
abbrev half_read : ReceiveBuffer
half_read = record {
  storage = 1 ∷ 2 ∷ 3 ∷ 4 ∷ [];
  capacity = 4;
  max_buffered_bytes = 5;
  read_offset = 2;
}

half_read-IsValid : IsValid half_read
half_read-IsValid = omega arith

append_compacts : ReceiveBuffer.append exact half_read (5 ∷ 6 ∷ []) ≡ (
  ok tt,
  record { storage = 3 ∷ 4 ∷ 5 ∷ 6 ∷ []; capacity = 4; max_buffered_bytes = 5; read_offset = 0 },
)
unfolding ReceiveBuffer.append ReceiveBuffer.insert_end ReceiveBuffer.make_room
    ReceiveBuffer.compact ReceiveBuffer.size
append_compacts = refl

append-refines_example :
    (
      (ReceiveBuffer.append exact half_read (5 ∷ 6 ∷ [])).0,
      view (ReceiveBuffer.append exact half_read (5 ∷ 6 ∷ [])).1,
    )
    ≡ push_bytes (view half_read) (5 ∷ 6 ∷ [])
append-refines_example = append-refines exact exact-IsGrowth (5 ∷ 6 ∷ []) half_read-IsValid

consume-refines_example : view (ReceiveBuffer.consume half_read 1) ≡ drop_bytes (view half_read) 1
consume-refines_example =
    consume-refines 1 half_read-IsValid (unfold ReceiveBuffer.size in omega arith)

Reach-IsValid_example :
    IsValid (ReceiveBuffer.append exact (ReceiveBuffer.new exact 5 4) (1 ∷ 2 ∷ [])).1
Reach-IsValid_example = Reach-IsValid exact-IsGrowth (fed (1 ∷ 2 ∷ []) (made 5 4 (omega arith)))

append_growth_limited_example :
    ((ReceiveBuffer.append exact half_read (5 ∷ 6 ∷ 7 ∷ [])).1.capacity ≡ 4)
    ⊎ ((needed : ℕ) × ((ReceiveBuffer.append exact half_read (5 ∷ 6 ∷ 7 ∷ [])).1.capacity
          ≡ exact 4 needed)
        × (needed ≤ 5)
        × (4 < needed))
append_growth_limited_example = append_growth_limited exact (5 ∷ 6 ∷ 7 ∷ []) half_read-IsValid

abbrev two_packets : OutboundQueue
two_packets = record {
  packets = (1 ∷ 2 ∷ []) ∷ (3 ∷ []) ∷ [];
  pending_bytes = 3;
  max_pending_bytes = 4;
  closed = false;
}

two_packets-IsValid : Valid.IsValid two_packets
two_packets-IsValid = record {
  counted = refl;
  limited = omega arith;
  limit_small = omega arith;
  nonempty = omega arith;
  closed_empty = λ e. cc;
}

pop_first : OutboundQueue.pop_batch two_packets (none ∷ none ∷ []) 2 ≡ (
  1,
  some (1 ∷ 2 ∷ []) ∷ none ∷ [],
  record two_packets { packets = (3 ∷ []) ∷ []; pending_bytes = 1 },
)
unfolding OutboundQueue.pop_batch
pop_first = refl

push-push_reference_example :
    OutboundQueue.push two_packets (some (7 ∷ 8 ∷ []))
    ≡ push_reference two_packets (some (7 ∷ 8 ∷ []))
push-push_reference_example =
    push-push_reference two_packets (some (7 ∷ 8 ∷ [])) two_packets-IsValid

pop_batch-IsBatch_example :
    IsBatch two_packets
      (none ∷ none ∷ [])
      2
      (OutboundQueue.pop_batch two_packets (none ∷ none ∷ []) 2)
pop_batch-IsBatch_example =
    pop_batch-IsBatch two_packets (none ∷ none ∷ []) 2 two_packets-IsValid (omega arith)

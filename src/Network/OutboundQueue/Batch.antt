-- ===== src/Network/OutboundQueue/Batch.antt =====
-- What a batch that `pop_batch` takes is.
use modern_cpp_room_server.Prelude.{
  ℕ, suc, ◌+◌, ◌^◌, ◌≤◌, ◌<◌, ◌≡◌, refl, sym, subst, ap, ◌∙◌, ◌⊎◌, inl, inr, false, not, ◌||◌, some,
  List, [], ◌∷◌, ◌++◌, map, length, take, drop, All, length-take, take-append-drop, All-drop,
  length-set, length-map, drop-nil, arith, ltb, ◌==◌, Bool-cases,
}
use modern_cpp_room_server.Network.OutboundQueue.{
  PacketBuffer, SharedPacket, OutboundQueue, PopState, exceeds_batch, pop_one, pop_loop, pop_batch,
}
use modern_cpp_room_server.Protocol.Bytes.{copy_at}
use modern_cpp_room_server.Protocol.Bytes.Digits.{copy_at-set}
use modern_cpp_room_server.Network.OutboundQueue.Valid.{total, total-append, IsNonempty, IsValid}

-- The first packet that is left does not fit the budget beside `batch` bytes.
abbrev pub Blocked : ℕ → ℕ → List PacketBuffer → Type 0
Blocked budget batch [] = Unit {0}
Blocked budget batch (p ∷ ps) = budget < batch + length p

-- Where the loop stands after `n` packets from the state `s`.
pub record Popped (budget : ℕ) (s r : PopState) (n : ℕ) : Type 0 where
  pub count : r.packet_count ≡ s.packet_count + n
  pub within : n ≤ length s.packets
  pub left : r.packets ≡ drop n s.packets
  pub freed : r.pending_bytes + total (take n s.packets) ≡ s.pending_bytes
  pub batch : r.batch_bytes ≡ s.batch_bytes + total (take n s.packets)
  pub filled : r.destination ≡ copy_at s.destination s.packet_count (map some (take n s.packets))
  pub room : r.packet_count ≤ length s.destination
  pub fits : (n ≡ 0) ⊎ ((r.packet_count ≡ 1) ⊎ (r.batch_bytes ≤ budget))
  pub greedy :
      (r.packet_count ≡ length s.destination)
      ⊎ ((r.packets ≡ []) ⊎ ((0 < r.packet_count) × Blocked budget r.batch_bytes r.packets))

pub record IsLoop (s : PopState) : Type 0 where
  pub counted : total s.packets ≤ s.pending_bytes
  pub small : s.pending_bytes + s.batch_bytes < 2 ^ 63
  pub started : s.packet_count ≤ length s.destination
  pub nonempty : All IsNonempty s.packets

copy_at-nil {ℓ} : {A : Type ℓ} (xs : List A) (i : ℕ) → xs ≡ copy_at xs i []
copy_at-nil xs i =
    sym (ap (λ k. take i xs ++ drop k xs) {x = i + 0} (omega arith) ∙ take-append-drop i xs)

stay :
    (budget : ℕ) (s : PopState)
    → IsLoop s
    → (s.packet_count ≡ length s.destination)
      ⊎ ((s.packets ≡ []) ⊎ ((0 < s.packet_count) × Blocked budget s.batch_bytes s.packets))
    → Popped budget s s 0
stay budget s v g = record {
  count = omega arith;
  within = omega arith;
  left = refl;
  freed = omega arith;
  batch = omega arith;
  filled = copy_at-nil s.destination s.packet_count;
  room = v.started;
  fits = inl refl;
  greedy = g;
}

-- One round, then `n` packets more.
advance :
    (budget n : ℕ) (s r : PopState) (p : PacketBuffer) (ps : List PacketBuffer)
    → s.packets ≡ p ∷ ps
    → IsLoop s
    → s.packet_count < length s.destination
    → exceeds_batch budget s (length p) ≡ false
    → budget < 2 ^ 63
    → Popped budget (pop_one s p ps) r n
    → Popped budget s r (suc n)
advance budget n s r p ps e v roomy ok_budget small h =
    let held : length p + total ps ≤ s.pending_bytes = omega (arith, ap total e) in
    let length_set = length-set s.destination s.packet_count (some p) in
    rw e (record {
      count = omega arith;
      within = omega arith;
      left = h.left;
      freed = omega arith;
      batch = omega arith;
      filled =
          h.filled ∙ copy_at-set s.destination s.packet_count (some p) (map some (take n ps)) roomy;
      room = omega arith;
      fits = inr (ground arith);
      greedy = ground arith;
    })

pop_loop-Popped :
    (budget : ℕ) (ps : List PacketBuffer) (s : PopState)
    → s.packets ≡ ps
    → IsLoop s
    → budget < 2 ^ 63
    → (n : ℕ) × Popped budget s (pop_loop budget ps s) n
unfolding pop_loop
pop_loop-Popped budget [] s e v small = (0, stay budget s v (inr (inl e)))
pop_loop-Popped budget (p ∷ ps) s e v small =
    elim (Bool-cases (not (ltb s.packet_count (length s.destination)))) [
      | inl full ↦ (0, rw full (stay budget s v (inl (ground arith))))
      | inr roomy ↦ elim (Bool-cases (exceeds_batch budget s (length p))) [
        | inl over ↦
            let filled : All IsNonempty (p ∷ ps) = rw e at v.nonempty in
            (0, rw (roomy, over) (stay budget s v (inr (inr (ground arith, rw e (ground arith))))))
        | inr under ↦
            let filled : All IsNonempty (p ∷ ps) = rw e at v.nonempty in
            let held : length p + total ps ≤ s.pending_bytes = omega (arith, ap total e) in
            let length_set = length-set s.destination s.packet_count (some p) in
            let roomy_lt : s.packet_count < length s.destination = ground arith in
            let next : IsLoop (pop_one s p ps) = record {
              counted = omega arith;
              small = omega arith;
              started = omega (arith, length_set, roomy_lt);
              nonempty = filled.1;
            } in
            let (n, h) = pop_loop-Popped budget ps (pop_one s p ps) refl next small in
            (suc n, rw (roomy, under) (advance budget n s _ p ps e v (ground arith) under small h))
      ]
    ]

-- What `pop_batch` promises of the count, the span and the queue that it gives: the packets off the
-- front of the queue fill the first entries of the span, and the others stay; the rest of the queue
-- stays, with its byte count; the batch is within the budget, unless it is one packet; and it ends
-- only where the span is full, the queue is empty, or the next packet does not fit.
pub record IsBatch (q : OutboundQueue) (destination : List SharedPacket) (budget : ℕ)
    (result : ℕ × List SharedPacket × OutboundQueue) : Type 0 where
  pub span : result.1 ≡ map some (take result.0 q.packets) ++ drop result.0 destination
  pub kept : result.2.packets ≡ drop result.0 q.packets
  pub valid : IsValid result.2
  pub within : result.0 ≤ length q.packets
  pub room : result.0 ≤ length destination
  pub fits : (result.0 ≤ 1) ⊎ (total (take result.0 q.packets) ≤ budget)
  pub greedy :
      (result.0 ≡ length destination)
      ⊎ ((result.2.packets ≡ [])
          ⊎ ((budget ≡ 0)
              ⊎ ((0 < result.0)
                  × Blocked budget (total (take result.0 q.packets)) result.2.packets)))

total-take-drop :
    (n : ℕ) (ps : List PacketBuffer) → total (take n ps) + total (drop n ps) ≡ total ps
total-take-drop n ps = sym (total-append (take n ps) (drop n ps)) ∙ ap total (take-append-drop n ps)

-- The start of the loop.
start : OutboundQueue → List SharedPacket → PopState
start q destination = record {
  packet_count = 0;
  batch_bytes = 0;
  destination = destination;
  packets = q.packets;
  pending_bytes = q.pending_bytes;
}

loop_IsBatch :
    (q : OutboundQueue) (destination : List SharedPacket) (budget : ℕ) (r : PopState)
    → IsValid q
    → Popped budget (start q destination) r r.packet_count
    → IsBatch q destination budget (
      r.packet_count,
      r.destination,
      record q { packets = r.packets; pending_bytes = r.pending_bytes },
    )
unfolding start
loop_IsBatch q destination budget r v h =
    let n = r.packet_count in
    let sums = total-take-drop n q.packets in
    let rest : total r.packets ≡ total (drop n q.packets) = ap total h.left in
    record {
      span =
          h.filled
          ∙ ap (λ k. map some (take n q.packets) ++ drop k destination) {y = n}
              (omega
                (arith, length-map (take n q.packets) some, length-take n q.packets, h.within));
      kept = h.left;
      valid = record {
        counted = omega arith;
        limited = omega arith;
        limit_small = v.limit_small;
        nonempty = subst (All IsNonempty) (sym h.left) (All-drop IsNonempty n q.packets v.nonempty);
        closed_empty = λ c. h.left ∙ ap (drop n) (v.closed_empty c) ∙ drop-nil n;
      };
      within = h.within;
      room = h.room;
      fits = omega (arith, h.fits, h.batch);
      greedy = ground (arith, h.greedy, h.batch);
    }

-- On a valid queue and with a budget below 2^63, pop_batch moves packets off the front of the
-- queue in order into the first entries of the span and leaves the other entries; the rest of the
-- queue stays and is valid, with its byte count; the batch has at most one packet or is within the
-- budget; and it ends only where the span is full, the queue is empty, the budget is 0, or, after
-- at least one packet, the next packet would exceed the budget.
pub pop_batch-IsBatch :
    (q : OutboundQueue) (destination : List SharedPacket) (budget : ℕ)
    → IsValid q
    → budget < 2 ^ 63
    → IsBatch q destination budget (pop_batch q destination budget)
unfolding pop_batch start
pop_batch-IsBatch q destination budget v small =
    elim (Bool-cases (length destination == 0 || budget == 0)) [
      | inl idle ↦ rw idle (record {
        span = refl;
        kept = refl;
        valid = v;
        within = omega arith;
        room = omega arith;
        fits = inl (omega arith);
        greedy = ground arith;
      })
      | inr busy ↦
          let ready : IsLoop (start q destination) = record {
            counted = omega arith;
            small = omega arith;
            started = omega arith;
            nonempty = v.nonempty;
          } in
          let (n, h) = pop_loop-Popped budget q.packets (start q destination) refl ready small in
          let counted : n ≡ (pop_loop budget q.packets (start q destination)).packet_count =
            sym (h.count ∙ omega arith) in
          rw busy (
            loop_IsBatch q destination budget _ v
              (subst (Popped budget (start q destination) _) counted h))
    ]

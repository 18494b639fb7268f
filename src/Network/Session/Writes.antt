-- ===== src/Network/Session/Writes.antt =====
-- A writer whose writes succeed: what was queued is written, in order, and the writer returns.
use modern_cpp_room_server.Prelude.{
  ℕ, zero, suc, ◌*◌, ◌≤◌, Option, ◌<◌, ◌≡◌, refl, sym, ap, ap₂, ◌∙◌, subst, false, none, some, List,
  [], ◌∷◌, ◌++◌, map, length, take, drop, take-append-drop, take-append_of_eq, length-map,
  length-take, length-drop, replicate, length-replicate, if◌then◌else◌, ◌==◌, arith, if-split,
}
use mathlib.Core.List.{map-append}
use modern_cpp_room_server.Network.OutboundQueue.{
  OutboundQueue, SharedPacket, PacketBuffer, pop_batch,
}
use modern_cpp_room_server.Network.OutboundQueue.Valid
use modern_cpp_room_server.Network.OutboundQueue.Batch.{IsBatch, pop_batch-IsBatch}
use modern_cpp_room_server.Observability.Metrics.{Both, WriteBatch}
use modern_cpp_room_server.Network.Session.{
  Session, Writer, at_loop, writing, update_queue_metrics, max_outbound_batch_packets,
  max_outbound_batch_bytes,
}
use modern_cpp_room_server.Network.Session.Steps.{write_popped, write_round, write_done, batch_size}

-- The first of the writers there are takes its next step: it makes a round, or its write succeeds,
-- with the packets written. `others` are the steps that follow.
unfoldable pub next_step :
    (others : Session → List SharedPacket × Session)
    → Session
    → List Writer
    → List SharedPacket × Session
unfolding batch_size
next_step others s [] = ([], s)
next_step others s (at_loop ∷ rest) = others (write_round rest s)
next_step others s (writing packets batch ∷ rest) =
    let (written, t) = others (write_done batch (batch_size packets) false rest s) in
    (packets ++ written, t)

unfoldable pub write_all : ℕ → Session → List SharedPacket × Session
unfolding next_step
write_all zero s = ([], s)
write_all (suc steps) s = next_step (write_all steps) s s.writers

pub write_all-returned : (steps : ℕ) (s : Session) → s.writers ≡ [] → write_all steps s ≡ ([], s)
unfolding write_all
write_all-returned zero s e = refl
write_all-returned (suc steps) s e = ap (next_step (write_all steps) s) e

-- The queued packets were written, and the writer has returned.
pub record Written (packets : List PacketBuffer) (r : List SharedPacket × Session) : Type 0 where
  pub in_order : r.0 ≡ map some packets
  pub drained : r.1.outbound_queue.packets ≡ []
  pub idle : r.1.write_in_progress ≡ false
  pub returned : r.1.writers ≡ []
  pub runs : r.1.stopped ≡ false

-- What holds of a running session whose writer has `steps` steps left.
Finishes : ℕ → Type 0
Finishes steps =
    (s : Session)
    → Valid.IsValid s.outbound_queue
    → s.stopped ≡ false
    → s.writers ≡ at_loop ∷ []
    → length s.outbound_queue.packets * 2 < steps
    → Written s.outbound_queue.packets (write_all steps s)

-- The same after the step that ends a write.
FinishesLater : ℕ → Type 0
FinishesLater zero = Unit
FinishesLater (suc steps) = Finishes steps

abbrev destination : List SharedPacket
destination = replicate max_outbound_batch_packets none

module _ (s : Session) (r : ℕ × List SharedPacket × OutboundQueue)
    (batch : IsBatch s.outbound_queue destination max_outbound_batch_bytes r)
    (running : s.stopped ≡ false) where
  -- Nothing was popped, and the writer has returned.
  empty-Written :
      (m : Option Both)
      → r.0 ≡ 0
      → Written s.outbound_queue.packets (
        [],
        record s { outbound_queue = r.2; metrics = m; write_in_progress = false; writers = [] },
      )
  empty-Written m z =
      let packets = s.outbound_queue.packets in
      let full : length destination ≡ 64 =
        length-replicate {A = SharedPacket} max_outbound_batch_packets none in
      let empty : r.2.packets ≡ [] = ground (arith, z, batch.greedy, full) in
      let kept : r.2.packets ≡ packets =
        batch.kept ∙ ap (λ k. drop k packets) {x = r.0} {y = 0} z in
      record {
        in_order = ap (map some) (sym empty ∙ kept);
        drained = empty;
        idle = refl;
        returned = refl;
        runs = running;
      }

  -- A batch was written, and then the rest of the queue.
  batch-Written :
      (x : List SharedPacket × Session)
      → Written r.2.packets x
      → Written s.outbound_queue.packets (take r.0 r.1 ++ x.0, x.1)
  batch-Written x rest =
      let packets = s.outbound_queue.packets in
      let n = r.0 in
      let batch_packets : take n r.1 ≡ map some (take n packets) =
        ap (take n) batch.span
        ∙ take-append_of_eq n (map some (take n packets)) _ (
            omega (arith, batch.within, length-map (take n packets) some, length-take n packets)) in
      record {
        in_order =
            ap₂ ◌++◌ batch_packets (rest.in_order ∙ ap (map some) batch.kept)
            ∙ sym (map-append some (take n packets) (drop n packets))
            ∙ ap (map some) (take-append-drop n packets);
        drained = rest.drained;
        idle = rest.idle;
        returned = rest.returned;
        runs = rest.runs;
      }

  -- The writer waits for the write of the batch.
  waiting-Written :
      (steps : ℕ) (b : WriteBatch) (m : Option Both)
      → 0 < r.0
      → FinishesLater steps
      → length s.outbound_queue.packets * 2 ≤ steps
      → Written s.outbound_queue.packets (
          write_all steps (record s {
            outbound_queue = r.2;
            metrics = m;
            writers = writing (take r.0 r.1) b ∷ [];
          }))
  unfolding write_all write_done Finishes FinishesLater
  waiting-Written zero b m popped below few = absurd (omega (arith, popped, few, batch.within))
  waiting-Written (suc steps) b m popped below few = batch-Written (write_all steps _) (
      below _ batch.valid running refl (
        omega (
          arith,
          few,
          popped,
          batch.within,
          ap length batch.kept,
          length-drop r.0 s.outbound_queue.packets,
        )))

  popped-Written :
      (steps : ℕ)
      → FinishesLater steps
      → length s.outbound_queue.packets * 2 ≤ steps
      → Written s.outbound_queue.packets (write_all steps (write_popped [] s r))
  unfolding write_popped update_queue_metrics
  popped-Written steps below few =
      if-split (λ t. Written s.outbound_queue.packets (write_all steps t)) (r.0 == 0)
        (λ z.
          subst (Written s.outbound_queue.packets) (sym (write_all-returned steps _ refl))
            (empty-Written _ (ground (arith, z))))
        (λ z. waiting-Written steps _ _ (ground (arith, z)) below few)

-- The writer makes a round.
round-Written :
    (steps : ℕ) (s : Session)
    → FinishesLater steps
    → Valid.IsValid s.outbound_queue
    → s.stopped ≡ false
    → length s.outbound_queue.packets * 2 ≤ steps
    → Written s.outbound_queue.packets (write_all steps (write_round [] s))
unfolding write_round
round-Written steps s below v running few =
    let r = pop_batch s.outbound_queue destination max_outbound_batch_bytes in
    subst
      (λ b. Written s.outbound_queue.packets (
        write_all steps (
          if b then record s { write_in_progress = false; writers = [] } else write_popped [] s r)))
      (sym running)
      (popped-Written s r
        (pop_batch-IsBatch s.outbound_queue destination max_outbound_batch_bytes v (omega arith))
        running steps below few)

write_all-Finishes : (steps : ℕ) → Finishes steps
unfolding Finishes FinishesLater write_all next_step
write_all-Finishes zero s v running w few = absurd (omega (arith, few))
write_all-Finishes (suc zero) s v running w few =
    subst (λ ws. Written s.outbound_queue.packets (next_step (write_all zero) s ws)) (sym w)
      (round-Written zero s tt v running (omega (arith, few)))
write_all-Finishes (suc (suc steps)) s v running w few =
    subst (λ ws. Written s.outbound_queue.packets (next_step (write_all (suc steps)) s ws)) (sym w)
      (round-Written (suc steps) s (write_all-Finishes steps) v running (omega (arith, few)))

-- The steps that a writer at the head of its loop needs: a round and a write for each packet at
-- most, and the round that finds the queue empty.
abbrev pub steps_to_drain : Session → ℕ
steps_to_drain s = suc (length s.outbound_queue.packets * 2)

-- In a running session with a valid outbound queue whose only writer is at the head of its loop,
-- where only writers that the session has take steps, all their writes succeed and no packets are
-- pushed meanwhile, after two steps for each queued packet and one more all queued packets are
-- written in their order and no writer is left; the queue is empty, no write is in progress, and
-- the session still runs.
pub write_all-Written :
    (s : Session)
    → Valid.IsValid s.outbound_queue
    → s.stopped ≡ false
    → s.writers ≡ at_loop ∷ []
    → Written s.outbound_queue.packets (write_all (steps_to_drain s) s)
unfolding Finishes
write_all-Written s v running w = write_all-Finishes (steps_to_drain s) s v running w (omega arith)

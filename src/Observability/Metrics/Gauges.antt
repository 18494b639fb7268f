-- ===== src/Observability/Metrics/Gauges.antt =====
-- The gauges of one session: what is counted up for a posted delivery or a write batch is counted
-- down exactly once, whichever way it ends.
use modern_cpp_room_server.Prelude.{
  ℕ, ◌+◌, ◌-◌, ◌%◌, ◌^◌, ◌<◌, ◌≡◌, Bool, true, false, Option, none, some, arith, if◌then◌else◌,
}
use modern_cpp_room_server.Observability.Metrics.{
  ServerMetrics, SessionMetrics, Both, increment, update_peak, post_added, post_released,
  batch_started, batch_finished, new_pending, move_pending, begin_pending, destroy_pending,
  WriteBatch, new_batch, complete_batch, destroy_batch,
}

-- The life of a `PendingDelivery` in `deliver`: it is made, moved into the posted handler, begun by it
-- or not, and both objects are destroyed.
unfoldable pub run_pending : Bool → ℕ → Bool → Both → Both
run_pending has_metrics bytes begun b =
    let (made, counted) = new_pending has_metrics bytes b in
    let (moved, source) = move_pending made in
    let (handler, started) = if begun then begin_pending moved counted else (moved, counted) in
    destroy_pending handler (destroy_pending source started)

-- The life of a `WriteBatch` in `write_queued_packets`: it completes or not, and is destroyed.
unfoldable pub finish_batch : Option (ℕ × Bool) → WriteBatch → Both → Both
finish_batch none w b = destroy_batch w b
finish_batch (some (transferred, failed)) w b =
    let (ended, after) = complete_batch w transferred failed b in destroy_batch ended after

unfoldable pub run_batch : ℕ → ℕ → Option (ℕ × Bool) → Both → Both
unfolding finish_batch
run_batch packets bytes outcome b =
    let (made, counted) = new_batch true packets bytes b in finish_batch outcome made counted

-- A PendingDelivery that is made, moved, begun or not and then destroyed in both places leaves the
-- posted jobs and bytes of its session as they were, when they have no overflow; the peak counts
-- its bytes, and it counts as abandoned exactly if it was not begun.
pub run_pending_lem :
    (bytes : ℕ) (begun : Bool) (s : SessionMetrics) (m : ServerMetrics)
    → s.gauges.posted_jobs < 2 ^ 64
    → s.gauges.posted_bytes + bytes < 2 ^ 64
    → ((run_pending true bytes begun (s, m)).0.gauges ≡ record (s.gauges) {
      posted_peak_bytes = update_peak s.gauges.posted_peak_bytes (s.gauges.posted_bytes + bytes);
    })
      × ((run_pending true bytes begun (s, m)).1 ≡ (
          if begun
          then m
          else record m { post_handlers_abandoned = increment m.post_handlers_abandoned }))
unfolding run_pending new_pending move_pending begin_pending destroy_pending post_added
    post_released
run_pending_lem bytes true s m h k = ground arith
run_pending_lem bytes false s m h k = ground arith

-- How often a batch is counted as completed, as failed and as abandoned, and the bytes it transferred.
abbrev pub completed : Option (ℕ × Bool) → ℕ
completed none = 0
completed (some (transferred, failed)) = 1

abbrev pub failures : Option (ℕ × Bool) → ℕ
failures none = 0
failures (some (transferred, failed)) = if failed then 1 else 0

abbrev pub transferred_bytes : Option (ℕ × Bool) → ℕ
transferred_bytes none = 0
transferred_bytes (some (transferred, failed)) = transferred

-- A WriteBatch that is made, completed or not and then destroyed leaves no packet and no byte in
-- flight, and is counted once as started and once as completed or abandoned, as failed if it
-- completed with a failure, with the bytes that were transferred, when these counters are within
-- 64 bits at the start.
pub run_batch_lem :
    (packets bytes : ℕ) (outcome : Option (ℕ × Bool)) (s : SessionMetrics) (m : ServerMetrics)
    → m.write_batches_failed < 2 ^ 64
    → m.write_batches_completed < 2 ^ 64
    → m.write_batches_abandoned < 2 ^ 64
    → m.bytes_transferred < 2 ^ 64
    → let (s', m') = run_batch packets bytes outcome (s, m) in
      (s'.gauges.inflight_packets ≡ 0)
      × (s'.gauges.inflight_bytes ≡ 0)
      × (m'.write_batches_started ≡ increment m.write_batches_started)
      × (m'.write_batches_completed ≡ (m.write_batches_completed + completed outcome) % 2 ^ 64)
      × (m'.write_batches_abandoned ≡ (m.write_batches_abandoned + 1 - completed outcome) % 2 ^ 64)
      × (m'.write_batches_failed ≡ (m.write_batches_failed + failures outcome) % 2 ^ 64)
      × (m'.bytes_transferred ≡ (m.bytes_transferred + transferred_bytes outcome) % 2 ^ 64)
unfolding run_batch new_batch complete_batch destroy_batch batch_started batch_finished
run_batch_lem packets bytes none s m f c a t = omega arith
run_batch_lem packets bytes (some (transferred, true)) s m f c a t = omega arith
run_batch_lem packets bytes (some (transferred, false)) s m f c a t = omega arith

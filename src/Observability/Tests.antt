-- ===== src/Observability/Tests.antt =====
-- Runs and witnesses for src/observability/server_metrics.cpp.
use modern_cpp_room_server.Prelude.{
  ◌+◌, ◌-◌, ◌%◌, ◌^◌, ◌≡◌, true, false, some, [], ◌∷◌, length, arith,
}
use modern_cpp_room_server.Prelude.{refl, some}
use modern_cpp_room_server.Prelude.Text.{codes, decimal}
use modern_cpp_room_server.Observability.Json.{write_session}
use modern_cpp_room_server.Observability.Metrics.{
  SessionSnapshot, blank_snapshot, fresh_metrics, SessionMetrics, increment, update_peak,
  recent_closed_sessions,
}
use modern_cpp_room_server.Observability.Metrics.History.{
  retire_all, last_of, recent_closed_sessions-retire_all,
}
use modern_cpp_room_server.Observability.Metrics.Gauges.{
  run_pending, run_pending_lem, run_batch, run_batch_lem,
}

abbrev closed_session : SessionSnapshot
closed_session = record blank_snapshot { session_id = 7; queue_peak_bytes = 18 }

abbrev busy_session : SessionMetrics
busy_session = record {
  tracked = true;
  gauges = record blank_snapshot { session_id = 7; posted_jobs = 1; posted_bytes = 16 };
}

recent_closed_sessions-retire_all_example :
    (recent_closed_sessions (retire_all (blank_snapshot ∷ closed_session ∷ []) fresh_metrics)
      ≡ last_of 128 (blank_snapshot ∷ closed_session ∷ []))
    × ((retire_all (blank_snapshot ∷ closed_session ∷ []) fresh_metrics).closed_history_overwritten
        ≡ length (blank_snapshot ∷ closed_session ∷ []) - 128)
recent_closed_sessions-retire_all_example =
    recent_closed_sessions-retire_all (blank_snapshot ∷ closed_session ∷ []) (omega arith)

run_pending_lem_example :
    ((run_pending true 22 false (busy_session, fresh_metrics)).0.gauges
      ≡ record (busy_session.gauges) { posted_peak_bytes = update_peak 0 (16 + 22) })
    × ((run_pending true 22 false (busy_session, fresh_metrics)).1
        ≡ record fresh_metrics { post_handlers_abandoned = increment 0 })
run_pending_lem_example =
    run_pending_lem 22 false busy_session fresh_metrics (omega arith) (omega arith)

run_batch_lem_example :
    let (s', m') = run_batch 2 44 (some (30, true)) (busy_session, fresh_metrics) in
    (s'.gauges.inflight_packets ≡ 0)
    × (s'.gauges.inflight_bytes ≡ 0)
    × (m'.write_batches_started ≡ increment 0)
    × (m'.write_batches_completed ≡ (0 + 1) % 2 ^ 64)
    × (m'.write_batches_abandoned ≡ (0 + 1 - 1) % 2 ^ 64)
    × (m'.write_batches_failed ≡ (0 + 1) % 2 ^ 64)
    × (m'.bytes_transferred ≡ (0 + 30) % 2 ^ 64)
run_batch_lem_example =
    run_batch_lem 2 44 (some (30, true)) busy_session fresh_metrics (omega arith) (omega arith)
      (omega arith) (omega arith)

write_session_text :
    write_session closed_session
    ≡ codes
        "{\"session_id\":7,\"posted_jobs\":0,\"posted_bytes\":0,\"queued_packets\":0,\"queued_bytes\":0,\"inflight_packets\":0,\"inflight_bytes\":0,\"posted_peak_bytes\":0,\"queue_peak_bytes\":18,\"inflight_peak_bytes\":0}"
unfolding write_session decimal
write_session_text = refl

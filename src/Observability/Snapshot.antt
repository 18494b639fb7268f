-- ===== src/Observability/Snapshot.antt =====
-- `ServerSnapshot` and `ServerMetrics::snapshot` of src/observability/server_metrics.cpp. The uptime
-- and what a weak pointer to the metrics of a session gives are arguments.
use modern_cpp_room_server.Prelude.{ℕ, Option, none, some, List, [], ◌∷◌}
use modern_cpp_room_server.Observability.Metrics.{
  SessionSnapshot, ServerMetrics, SessionMetrics, recent_closed_sessions,
}

pub record ServerSnapshot : Type 0 where
  pub uptime_ms : ℕ
  pub room_commands_processed : ℕ
  pub room_commands_rejected : ℕ
  pub event_delivery_failures : ℕ
  pub broadcast_delivery_attempts : ℕ
  pub write_batches_started : ℕ
  pub write_batches_completed : ℕ
  pub write_batches_failed : ℕ
  pub write_batches_abandoned : ℕ
  pub packets_batched : ℕ
  pub max_batch_packets : ℕ
  pub bytes_requested : ℕ
  pub bytes_transferred : ℕ
  pub post_handlers_abandoned : ℕ
  pub outbound_overflow_closes : ℕ
  pub registered_sessions : ℕ
  pub active_rooms : ℕ
  pub session_queue_peak_bytes : ℕ
  pub closed_history_overwritten : ℕ
  pub sessions : List SessionSnapshot
  pub recent_closed_sessions : List SessionSnapshot

-- The loop over the map of sessions: the pointers that could be locked.
unfoldable pub lock_live : (ℕ → Option SessionMetrics) → List (ℕ × Unit {0}) → List SessionMetrics
lock_live lock [] = []
lock_live lock ((id, weak) ∷ rest) = elim (lock id) [
  | none ↦ lock_live lock rest
  | some session ↦ session ∷ lock_live lock rest
]

-- `SessionMetrics::snapshot`; the gauges stand in the record as a snapshot has them.
unfoldable pub session_snapshot : SessionMetrics → SessionSnapshot
session_snapshot s = s.gauges

-- The loop over the locked pointers.
unfoldable pub snapshots : List SessionMetrics → List SessionSnapshot
unfolding session_snapshot
snapshots [] = []
snapshots (session ∷ live) = session_snapshot session ∷ snapshots live

unfoldable pub snapshot : ℕ → (ℕ → Option SessionMetrics) → ServerMetrics → ServerSnapshot
unfolding lock_live snapshots
snapshot uptime lock m = record {
  uptime_ms = uptime;
  room_commands_processed = m.room_commands_processed;
  room_commands_rejected = m.room_commands_rejected;
  event_delivery_failures = m.event_delivery_failures;
  broadcast_delivery_attempts = m.broadcast_delivery_attempts;
  write_batches_started = m.write_batches_started;
  write_batches_completed = m.write_batches_completed;
  write_batches_failed = m.write_batches_failed;
  write_batches_abandoned = m.write_batches_abandoned;
  packets_batched = m.packets_batched;
  max_batch_packets = m.max_batch_packets;
  bytes_requested = m.bytes_requested;
  bytes_transferred = m.bytes_transferred;
  post_handlers_abandoned = m.post_handlers_abandoned;
  outbound_overflow_closes = m.outbound_overflow_closes;
  registered_sessions = m.registered_sessions;
  active_rooms = m.active_rooms;
  session_queue_peak_bytes = m.session_queue_peak_bytes;
  closed_history_overwritten = m.closed_history_overwritten;
  sessions = snapshots (lock_live lock m.sessions);
  recent_closed_sessions = recent_closed_sessions m;
}

-- ===== src/Observability/Json.antt =====
-- `write_json` of src/observability/server_metrics.cpp: the characters that go to the stream.
pub mod Reads
pub mod RoundTrip
use modern_cpp_room_server.Prelude.{ℕ, Bool, true, false, List, [], ◌∷◌, ◌++◌, if◌then◌else◌}
use modern_cpp_room_server.Prelude.Text.{codes, decimal}
use modern_cpp_room_server.Observability.Metrics.{SessionSnapshot}
use modern_cpp_room_server.Observability.Snapshot.{ServerSnapshot}

-- `<< "literal" << number`, in a row.
unfoldable pub write_fields : List (List ℕ × ℕ) → List ℕ
write_fields [] = []
write_fields ((name, n) ∷ fields) = name ++ (decimal n ++ write_fields fields)

abbrev pub session_fields : SessionSnapshot → List (List ℕ × ℕ)
session_fields s =
    (codes "{\"session_id\":", s.session_id)
    ∷ (codes ",\"posted_jobs\":", s.posted_jobs)
    ∷ (codes ",\"posted_bytes\":", s.posted_bytes)
    ∷ (codes ",\"queued_packets\":", s.queued_packets)
    ∷ (codes ",\"queued_bytes\":", s.queued_bytes)
    ∷ (codes ",\"inflight_packets\":", s.inflight_packets)
    ∷ (codes ",\"inflight_bytes\":", s.inflight_bytes)
    ∷ (codes ",\"posted_peak_bytes\":", s.posted_peak_bytes)
    ∷ (codes ",\"queue_peak_bytes\":", s.queue_peak_bytes)
    ∷ (codes ",\"inflight_peak_bytes\":", s.inflight_peak_bytes)
    ∷ []

unfoldable pub write_session : SessionSnapshot → List ℕ
unfolding write_fields
write_session s = write_fields (session_fields s) ++ codes "}"

-- The loop over sessions, with the flag `first`.
unfoldable pub write_sessions : Bool → List SessionSnapshot → List ℕ
unfolding write_session
write_sessions first [] = []
write_sessions first (session ∷ rest) =
    (if first then [] else codes ",") ++ (write_session session ++ write_sessions false rest)

abbrev pub server_fields : ServerSnapshot → List (List ℕ × ℕ)
server_fields s =
    (codes ",\"uptime_ms\":", s.uptime_ms)
    ∷ (codes ",\"room_commands_processed\":", s.room_commands_processed)
    ∷ (codes ",\"room_commands_rejected\":", s.room_commands_rejected)
    ∷ (codes ",\"event_delivery_failures\":", s.event_delivery_failures)
    ∷ (codes ",\"broadcast_delivery_attempts\":", s.broadcast_delivery_attempts)
    ∷ (codes ",\"write_batches_started\":", s.write_batches_started)
    ∷ (codes ",\"write_batches_completed\":", s.write_batches_completed)
    ∷ (codes ",\"write_batches_failed\":", s.write_batches_failed)
    ∷ (codes ",\"write_batches_abandoned\":", s.write_batches_abandoned)
    ∷ (codes ",\"packets_batched\":", s.packets_batched)
    ∷ (codes ",\"max_batch_packets\":", s.max_batch_packets)
    ∷ (codes ",\"bytes_requested\":", s.bytes_requested)
    ∷ (codes ",\"bytes_transferred\":", s.bytes_transferred)
    ∷ (codes ",\"post_handlers_abandoned\":", s.post_handlers_abandoned)
    ∷ (codes ",\"outbound_overflow_closes\":", s.outbound_overflow_closes)
    ∷ (codes ",\"registered_sessions\":", s.registered_sessions)
    ∷ (codes ",\"active_rooms\":", s.active_rooms)
    ∷ (codes ",\"session_queue_peak_bytes\":", s.session_queue_peak_bytes)
    ∷ (codes ",\"closed_history_overwritten\":", s.closed_history_overwritten)
    ∷ []

unfoldable pub write_json : ServerSnapshot → List ℕ
unfolding write_fields write_sessions
write_json s =
    codes "{\"type\":\"server_metrics\",\"scope\":\"process_lifetime\""
    ++ (write_fields (server_fields s)
        ++ (codes ",\"sessions\":["
            ++ (write_sessions true s.sessions
                ++ (codes "],\"recent_closed_sessions\":["
                    ++ (write_sessions true s.recent_closed_sessions ++ codes "]}")))))

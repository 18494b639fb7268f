-- ===== src/Observability/Metrics.antt =====
-- src/observability/server_metrics.cpp. Each counter is a 64-bit atomic, changed by one relaxed
-- operation at a time, so a change is a function on the record. A `SessionMetrics` that exists holds
-- its `ServerMetrics`; its operations take both and give both back. The snapshot and its JSON text are
-- in the modules Snapshot and Json beside this one.
pub mod History
pub mod Gauges
use modern_cpp_room_server.Prelude.{
  ℕ, zero, suc, ◌+◌, ◌-◌, ◌%◌, Bool, true, false, Option, none, some, List, [], ◌∷◌, ◌++◌, get_or,
  set, replicate, ltb, ◌==◌, if◌then◌else◌, add_size, sub_size, Expected, ok, err,
}
use modern_cpp_room_server.Prelude.Map

pub record SessionSnapshot : Type 0 where
  pub session_id : ℕ
  pub posted_jobs : ℕ
  pub posted_bytes : ℕ
  pub queued_packets : ℕ
  pub queued_bytes : ℕ
  pub inflight_packets : ℕ
  pub inflight_bytes : ℕ
  pub posted_peak_bytes : ℕ
  pub queue_peak_bytes : ℕ
  pub inflight_peak_bytes : ℕ

-- `SessionSnapshot{}`
abbrev pub blank_snapshot : SessionSnapshot
blank_snapshot = record {
  session_id = 0;
  posted_jobs = 0;
  posted_bytes = 0;
  queued_packets = 0;
  queued_bytes = 0;
  inflight_packets = 0;
  inflight_bytes = 0;
  posted_peak_bytes = 0;
  queue_peak_bytes = 0;
  inflight_peak_bytes = 0;
}

abbrev pub closed_history_capacity : ℕ
closed_history_capacity = 128

-- The map of sessions holds weak pointers; of each it is enough to know the key.
pub record ServerMetrics : Type 0 where
  pub room_commands_processed : ℕ
  pub room_commands_rejected : ℕ
  pub event_delivery_failures : ℕ
  pub broadcast_delivery_attempts : ℕ
  pub write_batches_started : ℕ
  pub write_batches_completed : ℕ
  pub write_batches_failed : ℕ
  pub write_batches_abandoned : ℕ
  pub packets_batched : ℕ
  pub max_batch_packets : ℕ
  pub bytes_requested : ℕ
  pub bytes_transferred : ℕ
  pub post_handlers_abandoned : ℕ
  pub outbound_overflow_closes : ℕ
  pub registered_sessions : ℕ
  pub active_rooms : ℕ
  pub session_queue_peak_bytes : ℕ
  pub sessions : List (ℕ × Unit {0})
  pub closed : List SessionSnapshot
  pub closed_count : ℕ
  pub closed_next : ℕ
  pub closed_history_overwritten : ℕ

abbrev pub fresh_metrics : ServerMetrics
fresh_metrics = record {
  room_commands_processed = 0;
  room_commands_rejected = 0;
  event_delivery_failures = 0;
  broadcast_delivery_attempts = 0;
  write_batches_started = 0;
  write_batches_completed = 0;
  write_batches_failed = 0;
  write_batches_abandoned = 0;
  packets_batched = 0;
  max_batch_packets = 0;
  bytes_requested = 0;
  bytes_transferred = 0;
  post_handlers_abandoned = 0;
  outbound_overflow_closes = 0;
  registered_sessions = 0;
  active_rooms = 0;
  session_queue_peak_bytes = 0;
  sessions = [];
  closed = replicate closed_history_capacity blank_snapshot;
  closed_count = 0;
  closed_next = 0;
  closed_history_overwritten = 0;
}

abbrev pub increment : ℕ → ℕ
increment n = add_size n 1

abbrev pub decrement : ℕ → ℕ
decrement n = sub_size n 1

-- The peak afterwards, when no other thread interferes.
unfoldable pub update_peak : ℕ → ℕ → ℕ
update_peak peak value = if ltb peak value then value else peak

unfoldable pub room_opened : ServerMetrics → ServerMetrics
room_opened m = record m { active_rooms = increment m.active_rooms }

unfoldable pub room_closed : ServerMetrics → ServerMetrics
room_closed m = record m { active_rooms = decrement m.active_rooms }

unfoldable pub command_processed : Bool → ServerMetrics → ServerMetrics
command_processed rejected m =
    let counted = record m { room_commands_processed = increment m.room_commands_processed } in
    if rejected
    then record counted { room_commands_rejected = increment m.room_commands_rejected }
    else counted

unfoldable pub delivery_attempted : ServerMetrics → ServerMetrics
delivery_attempted m = record m {
  broadcast_delivery_attempts = increment m.broadcast_delivery_attempts;
}

unfoldable pub event_delivery_failed : ServerMetrics → ServerMetrics
event_delivery_failed m = record m { event_delivery_failures = increment m.event_delivery_failures }

unfoldable pub session_registered : ServerMetrics → ServerMetrics
session_registered m = record m { registered_sessions = increment m.registered_sessions }

unfoldable pub session_unregistered : ServerMetrics → ServerMetrics
session_unregistered m = record m { registered_sessions = decrement m.registered_sessions }

unfoldable pub outbound_overflow : ServerMetrics → ServerMetrics
outbound_overflow m = record m { outbound_overflow_closes = increment m.outbound_overflow_closes }

-- `retire_session`
unfoldable pub retire_session : SessionSnapshot → ServerMetrics → ServerMetrics
retire_session state m =
    let stored = record m {
      sessions = Map.erase state.session_id m.sessions;
      closed = set m.closed m.closed_next state;
      closed_next = add_size m.closed_next 1 % closed_history_capacity;
    } in
    if ltb m.closed_count closed_history_capacity
    then record stored { closed_count = increment m.closed_count }
    else record stored { closed_history_overwritten = increment m.closed_history_overwritten }

-- The loop of `snapshot` over the closed sessions, with the rounds left and the index.
unfoldable pub recent_from : ServerMetrics → ℕ → ℕ → ℕ → List SessionSnapshot
recent_from m first zero index = []
recent_from m first (suc left) index =
    get_or m.closed (add_size first index % closed_history_capacity) blank_snapshot
    ∷ recent_from m first left (index + 1)

-- `snapshot().recent_closed_sessions`
unfoldable pub recent_closed_sessions : ServerMetrics → List SessionSnapshot
unfolding recent_from
recent_closed_sessions m =
    let first =
      sub_size (add_size m.closed_next closed_history_capacity) m.closed_count
      % closed_history_capacity in
    recent_from m first m.closed_count 0

pub record SessionMetrics : Type 0 where
  pub tracked : Bool
  pub gauges : SessionSnapshot

-- The body of `create_session`; `err` is the `std::invalid_argument` for a second session of one id.
-- The map is left alone by an `emplace` of a key that is there.
unfoldable pub create_session :
    ℕ → ServerMetrics → Expected (Unit {0}) (SessionMetrics × ServerMetrics)
create_session id m =
    let (sessions, inserted) = Map.try_emplace id tt m.sessions in
    if inserted
    then ok (
      record { tracked = true; gauges = record blank_snapshot { session_id = id } },
      record m { sessions = sessions },
    )
    else err tt

-- `~SessionMetrics`
unfoldable pub destroy_session : SessionMetrics → ServerMetrics → ServerMetrics
destroy_session s m = if s.tracked then retire_session s.gauges m else m

abbrev pub Both : Type 0
Both = SessionMetrics × ServerMetrics

unfoldable pub queue_changed : ℕ → ℕ → Both → Both
queue_changed packets bytes (s, m) = (
  record s {
    gauges = record (s.gauges) {
      queued_packets = packets;
      queued_bytes = bytes;
      queue_peak_bytes = update_peak s.gauges.queue_peak_bytes bytes;
    };
  },
  record m { session_queue_peak_bytes = update_peak m.session_queue_peak_bytes bytes },
)

unfoldable pub post_added : ℕ → Both → Both
post_added bytes (s, m) =
    let posted = add_size s.gauges.posted_bytes bytes in
    (
      record s {
        gauges = record (s.gauges) {
          posted_jobs = increment s.gauges.posted_jobs;
          posted_bytes = posted;
          posted_peak_bytes = update_peak s.gauges.posted_peak_bytes posted;
        };
      },
      m,
    )

unfoldable pub post_released : ℕ → Bool → Both → Both
post_released bytes abandoned (s, m) = (
  record s {
    gauges = record (s.gauges) {
      posted_jobs = decrement s.gauges.posted_jobs;
      posted_bytes = sub_size s.gauges.posted_bytes bytes;
    };
  },
  if abandoned
      then record m { post_handlers_abandoned = increment m.post_handlers_abandoned }
      else m,
)

unfoldable pub batch_started : ℕ → ℕ → Both → Both
batch_started packets bytes (s, m) = (
  record s {
    gauges = record (s.gauges) {
      inflight_packets = packets;
      inflight_bytes = bytes;
      inflight_peak_bytes = update_peak s.gauges.inflight_peak_bytes bytes;
    };
  },
  record m {
    write_batches_started = increment m.write_batches_started;
    packets_batched = add_size m.packets_batched packets;
    bytes_requested = add_size m.bytes_requested bytes;
    max_batch_packets = update_peak m.max_batch_packets packets;
  },
)

-- The counters of a batch that ended by itself.
batch_counted : ℕ → Bool → ServerMetrics → ServerMetrics
batch_counted transferred failed m =
    let completed = record m {
      bytes_transferred = add_size m.bytes_transferred transferred;
      write_batches_completed = increment m.write_batches_completed;
    } in
    if failed
    then record completed { write_batches_failed = increment m.write_batches_failed }
    else completed

unfoldable pub batch_finished : ℕ → Bool → Bool → Both → Both
unfolding batch_counted
batch_finished transferred failed abandoned (s, m) = (
  record s { gauges = record (s.gauges) { inflight_packets = 0; inflight_bytes = 0 } },
  if abandoned
      then record m { write_batches_abandoned = increment m.write_batches_abandoned }
      else batch_counted transferred failed m,
)

-- A guard object holds its `metrics_` pointer until it has reported; `none` is the moved-from or null
-- pointer. `PendingDelivery` keeps the bytes beside it.
pub record PendingDelivery : Type 0 where
  pub held : Bool
  pub bytes : ℕ

unfoldable pub new_pending : Bool → ℕ → Both → PendingDelivery × Both
new_pending has_metrics bytes b =
    (record { held = has_metrics; bytes = bytes }, if has_metrics then post_added bytes b else b)

-- The moved-to object, and the object that was moved from.
unfoldable pub move_pending : PendingDelivery → PendingDelivery × PendingDelivery
move_pending p = (p, record p { held = false })

unfoldable pub begin_pending : PendingDelivery → Both → PendingDelivery × Both
begin_pending p b = (record p { held = false }, if p.held then post_released p.bytes false b else b)

unfoldable pub destroy_pending : PendingDelivery → Both → Both
destroy_pending p b = if p.held then post_released p.bytes true b else b

pub record WriteBatch : Type 0 where
  pub held : Bool

unfoldable pub new_batch : Bool → ℕ → ℕ → Both → WriteBatch × Both
new_batch has_metrics packets bytes b =
    (record { held = has_metrics }, if has_metrics then batch_started packets bytes b else b)

unfoldable pub complete_batch : WriteBatch → ℕ → Bool → Both → WriteBatch × Both
complete_batch w transferred failed b =
    (record { held = false }, if w.held then batch_finished transferred failed false b else b)

unfoldable pub destroy_batch : WriteBatch → Both → Both
destroy_batch w b = if w.held then batch_finished 0 false true b else b

-- ===== src/Room/Worker.antt =====
-- src/room/room_worker.cpp. One thread applies the queued commands; whether the event handler throws
-- is the environment's choice for each command. The metrics may be absent.
pub mod Log
pub mod Drain
pub mod Stop
use modern_cpp_room_server.Prelude.{
  ℕ, zero, suc, Bool, true, false, ◌&&◌, Option, none, some, List, [], ◌∷◌, if◌then◌else◌, add_size,
  Expected, ok, err,
}
use modern_cpp_room_server.Concurrency.{
  QueuePushError, CloseableQueue, new_queue, push, Waited, blocked, returned, pop_front, has_values,
  wait_pop, close, size,
}
use modern_cpp_room_server.Room.Commands.{RoomCommand, RoomEvent}
use modern_cpp_room_server.Room.State.{
  RoomCommandError, PlayerSnapshot, Room, empty_room, apply, snapshot,
}
use modern_cpp_room_server.Observability.Metrics.{
  ServerMetrics, room_opened, room_closed, command_processed, event_delivery_failed,
}

pub record RoomWorkerSummary : Type 0 where
  pub players : List PlayerSnapshot
  pub processed_commands : ℕ
  pub rejected_commands : ℕ
  pub event_delivery_failures : ℕ

-- `finished` tells that the thread has left `run`, and `stop_requested` is its stop token.
pub record RoomWorker : Type 0 where
  pub room : Room
  pub commands : CloseableQueue RoomCommand
  pub processed_commands : ℕ
  pub rejected_commands : ℕ
  pub event_delivery_failures : ℕ
  pub stopped_summary : Option RoomWorkerSummary
  pub has_handler : Bool
  pub metrics : Option ServerMetrics
  pub stop_requested : Bool
  pub finished : Bool

-- `if (metrics_) { metrics_->f(); }`
unfoldable pub with_metrics :
    (ServerMetrics → ServerMetrics) → Option ServerMetrics → Option ServerMetrics
with_metrics f none = none
with_metrics f (some m) = some (f m)

-- The code starts the thread before it counts the room as open; the thread waits, since no command comes
-- before the constructor has returned.
unfoldable pub new : Bool → Option ServerMetrics → RoomWorker
unfolding new_queue empty_room
new has_handler metrics = record {
  room = empty_room;
  commands = new_queue;
  processed_commands = 0;
  rejected_commands = 0;
  event_delivery_failures = 0;
  stopped_summary = none;
  has_handler = has_handler;
  metrics = with_metrics room_opened metrics;
  stop_requested = false;
  finished = false;
}

unfoldable pub submit : RoomWorker → RoomCommand → Expected QueuePushError (Unit {0}) × RoomWorker
submit w command =
    let (result, commands) = push w.commands command in (result, record w { commands = commands })

-- The body of the loop after `apply`, on the answer and whether the handler throws.
unfoldable pub answer_command : Bool → RoomWorker → Expected RoomCommandError RoomEvent → RoomWorker
unfolding with_metrics
answer_command throws w (err error) = record w {
  processed_commands = add_size w.processed_commands 1;
  rejected_commands = add_size w.rejected_commands 1;
  metrics = with_metrics (command_processed true) w.metrics;
}
answer_command throws w (ok event) =
    let counted = record w {
      processed_commands = add_size w.processed_commands 1;
      metrics = with_metrics (command_processed false) w.metrics;
    } in
    if w.has_handler && throws
    then record counted {
      event_delivery_failures = add_size w.event_delivery_failures 1;
      metrics = with_metrics event_delivery_failed counted.metrics;
    }
    else counted

unfoldable pub handle_command : Bool → RoomWorker → RoomCommand → RoomWorker
unfolding answer_command
handle_command throws w command =
    let (result, room) = apply w.room command in
    answer_command throws (record w { room = room }) result

-- One evaluation of the loop's condition, with the body when there is a command.
pub data Round : Type 0 where
  waits : Round
  ends : RoomWorker → Round
  goes_on : RoomCommand → RoomWorker → Round

unfoldable pub round_of :
    Bool → RoomWorker → Waited RoomCommand × CloseableQueue RoomCommand → Round
unfolding handle_command
round_of throws w (blocked, commands) = waits
round_of throws w (returned none, commands) =
    ends (record w { commands = commands; finished = true })
round_of throws w (returned (some command), commands) =
    goes_on command (handle_command throws (record w { commands = commands }) command)

unfoldable pub run_round : Bool → RoomWorker → Round
unfolding round_of
run_round throws w = round_of throws w (wait_pop w.stop_requested w.commands)

-- `run`, for at most `fuel` rounds and until the thread waits or ends; `throws` tells for the number
-- of rounds left whether the handler throws in this one.
unfoldable pub run_after : (RoomWorker → RoomWorker) → RoomWorker → Round → RoomWorker
run_after rest w waits = w
run_after rest w (ends v) = v
run_after rest w (goes_on command v) = rest v

unfoldable pub run : (ℕ → Bool) → ℕ → RoomWorker → RoomWorker
unfolding run_round run_after
run throws zero w = w
run throws (suc fuel) w = run_after (run throws fuel) w (run_round (throws fuel) w)

unfoldable pub close_commands : RoomWorker → RoomWorker
close_commands w = record w { commands = close w.commands }

unfoldable pub request_stop : RoomWorker → RoomWorker
request_stop w = record w { stop_requested = true }

-- The rest of `stop`, after the thread was joined.
unfoldable pub summarise : RoomWorker → RoomWorkerSummary × RoomWorker
unfolding with_metrics
summarise w =
    let summary : RoomWorkerSummary = record {
      players = snapshot w.room;
      processed_commands = w.processed_commands;
      rejected_commands = w.rejected_commands;
      event_delivery_failures = w.event_delivery_failures;
    } in
    (
      summary,
      record w { stopped_summary = some summary; metrics = with_metrics room_closed w.metrics },
    )

-- `stop`, where no other command is submitted while it joins the thread. The thread takes one round
-- for each queued command and one to end.
unfoldable pub stop_from :
    (ℕ → Bool) → RoomWorker → Option RoomWorkerSummary → RoomWorkerSummary × RoomWorker
unfolding summarise close_commands request_stop run
stop_from throws w (some summary) = (summary, w)
stop_from throws w none =
    let stopping = request_stop (close_commands w) in
    summarise (run throws (suc (size stopping.commands)) stopping)

unfoldable pub stop : (ℕ → Bool) → RoomWorker → RoomWorkerSummary × RoomWorker
unfolding stop_from
stop throws w = stop_from throws w w.stopped_summary

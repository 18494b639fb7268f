-- ===== src/Room/Worker/Log.antt =====
-- Which commands the worker has handled, and what its room and its counters must then be: a
-- description that knows no queue and no thread.
use modern_cpp_room_server.Prelude.{
  ℕ, ◌+◌, ◌<◌, ◌%◌, ◌^◌, ◌≡◌, refl, sym, ap, ◌∙◌, Bool, ◌&&◌, List, [], ◌∷◌, ◌++◌, map, length,
  length-append, if◌then◌else◌, Expected, ok, err, arith,
}
use modern_cpp_room_server.Room.Commands.{RoomCommand, RoomEvent}
use modern_cpp_room_server.Room.State.{RoomCommandError, Room, apply, empty_room}
use modern_cpp_room_server.Room.State.Mirror.{apply_all}
use modern_cpp_room_server.Room.Worker.{RoomWorker, answer_command, handle_command}

-- Each handled command, with whether the handler would throw.
abbrev pub Log : Type 0
Log = List (RoomCommand × Bool)

abbrev pub command_of : RoomCommand × Bool → RoomCommand
command_of (command, throws) = command

abbrev pub room_after : Room → Log → Room
room_after r log = (apply_all r (map command_of log)).1

abbrev pub rejection : Expected RoomCommandError RoomEvent → ℕ
rejection (ok event) = 0
rejection (err error) = 1

abbrev pub failure : Bool → Expected RoomCommandError RoomEvent → ℕ
failure throws (ok event) = if throws then 1 else 0
failure throws (err error) = 0

-- How many commands of the log the room refuses.
unfoldable pub rejections : Room → Log → ℕ
rejections r [] = 0
rejections r ((c, throws) ∷ log) = rejection (apply r c).0 + rejections (apply r c).1 log

-- For how many accepted commands the handler, where there is one, throws.
unfoldable pub failures : Bool → Room → Log → ℕ
failures has_handler r [] = 0
failures has_handler r ((c, throws) ∷ log) =
    failure (has_handler && throws) (apply r c).0 + failures has_handler (apply r c).1 log

-- The worker has handled the log, starting with an empty room.
pub record HasHandled (log : Log) (w : RoomWorker) : Type 0 where
  pub room_is : w.room ≡ room_after empty_room log
  pub processed_is : w.processed_commands ≡ length log % 2 ^ 64
  pub rejected_is : w.rejected_commands ≡ rejections empty_room log % 2 ^ 64
  pub failures_are : w.event_delivery_failures ≡ failures w.has_handler empty_room log % 2 ^ 64

room_after-snoc :
    (r : Room) (log : Log) (c : RoomCommand) (throws : Bool)
    → room_after r (log ++ ((c, throws) ∷ [])) ≡ (apply (room_after r log) c).1
unfolding apply_all
room_after-snoc r [] c throws = refl
room_after-snoc r ((d, b) ∷ log) c throws = room_after-snoc (apply r d).1 log c throws

rejections-snoc :
    (r : Room) (log : Log) (c : RoomCommand) (throws : Bool)
    → rejections r (log ++ ((c, throws) ∷ []))
      ≡ rejections r log + rejection (apply (room_after r log) c).0
unfolding apply_all rejections
rejections-snoc r [] c throws = omega arith
rejections-snoc r ((d, b) ∷ log) c throws =
    omega (arith, rejections-snoc (apply r d).1 log c throws)

failures-snoc :
    (h : Bool) (r : Room) (log : Log) (c : RoomCommand) (throws : Bool)
    → failures h r (log ++ ((c, throws) ∷ []))
      ≡ failures h r log + failure (h && throws) (apply (room_after r log) c).0
unfolding apply_all failures
failures-snoc h r [] c throws = omega arith
failures-snoc h r ((d, b) ∷ log) c throws =
    omega (arith, failures-snoc h (apply r d).1 log c throws)

-- What handling a command leaves alone.
pub record Keeps (v w : RoomWorker) : Type 0 where
  pub commands_kept : v.commands ≡ w.commands
  pub handler_kept : v.has_handler ≡ w.has_handler
  pub stop_kept : v.stop_requested ≡ w.stop_requested
  pub finished_kept : v.finished ≡ w.finished
  pub summary_kept : v.stopped_summary ≡ w.stopped_summary

pub handle_command-Keeps :
    (throws : Bool) (w : RoomWorker) (c : RoomCommand) → Keeps (handle_command throws w c) w
unfolding handle_command answer_command
handle_command-Keeps throws w c = ground arith

answer_command-counts :
    (throws : Bool) (w : RoomWorker) (x : Expected RoomCommandError RoomEvent)
    → w.rejected_commands < 2 ^ 64
    → w.event_delivery_failures < 2 ^ 64
    → let v = answer_command throws w x in
      (v.room ≡ w.room)
      × (v.processed_commands ≡ (w.processed_commands + 1) % 2 ^ 64)
      × (v.rejected_commands ≡ (w.rejected_commands + rejection x) % 2 ^ 64)
      × (v.event_delivery_failures
          ≡ (w.event_delivery_failures + failure (w.has_handler && throws) x) % 2 ^ 64)
unfolding answer_command
answer_command-counts throws w (err error) r f = ground arith
answer_command-counts throws w (ok event) r f = ground arith

handle_command-counts :
    (throws : Bool) (w : RoomWorker) (c : RoomCommand)
    → w.rejected_commands < 2 ^ 64
    → w.event_delivery_failures < 2 ^ 64
    → let v = handle_command throws w c in
      (v.room ≡ (apply w.room c).1)
      × (v.processed_commands ≡ (w.processed_commands + 1) % 2 ^ 64)
      × (v.rejected_commands ≡ (w.rejected_commands + rejection (apply w.room c).0) % 2 ^ 64)
      × (v.event_delivery_failures
          ≡ (w.event_delivery_failures + failure (w.has_handler && throws) (apply w.room c).0)
            % 2 ^ 64)
unfolding handle_command
handle_command-counts throws w c r f =
    answer_command-counts throws (record w { room = (apply w.room c).1 }) (apply w.room c).0 r f

pub handle_command-HasHandled :
    (log : Log) (throws : Bool) (w : RoomWorker) (c : RoomCommand)
    → HasHandled log w
    → HasHandled (log ++ ((c, throws) ∷ [])) (handle_command throws w c)
handle_command-HasHandled log throws w c h =
    let counts = handle_command-counts throws w c (omega (arith, h)) (omega (arith, h)) in
    let keeps = handle_command-Keeps throws w c in
    let same : apply w.room c ≡ apply (room_after empty_room log) c =
      ap (λ r. apply r c) h.room_is in
    record {
      room_is = counts.0 ∙ ap (λ t. t.1) same ∙ sym (room_after-snoc empty_room log c throws);
      processed_is = omega (arith, h, counts, length-append log ((c, throws) ∷ []));
      rejected_is =
          counts.2
          ∙ ap (λ t. (w.rejected_commands + rejection (t.0)) % 2 ^ 64) same
          ∙ omega (arith, h, rejections-snoc empty_room log c throws);
      failures_are =
          counts.3
          ∙ ap (λ t. (w.event_delivery_failures + failure (w.has_handler && throws) (t.0)) % 2 ^ 64)
              same
          ∙ rw keeps.handler_kept
              (omega (arith, h, failures-snoc w.has_handler empty_room log c throws));
    }

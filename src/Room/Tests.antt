-- ===== src/Room/Tests.antt =====
-- Runs of the room, and the theorems at concrete inputs.
use modern_cpp_room_server.Prelude.{
  ◌+◌, ◌≡◌, refl, ◌%◌, ◌^◌, true, false, none, List, [], ◌∷◌, ◌++◌, map, length, err, arith,
}
use modern_cpp_room_server.Prelude.Map
use modern_cpp_room_server.Prelude.Sort
use modern_cpp_room_server.Room.Commands.{
  SessionId, GridPosition, origin, RoomCommand, join_command, move_command, leave_command,
}
use modern_cpp_room_server.Room.State.{
  duplicate_session, Room, empty_room, apply, player_count, find, snapshot,
}
use modern_cpp_room_server.Prelude.Int.{pos}
use modern_cpp_room_server.Room.Commands.{left_room}
use modern_cpp_room_server.Concurrency.{new_queue, push, pop_front, has_values, wait_pop}
use modern_cpp_room_server.Room.Worker.{
  RoomWorker, new, submit, round_of, run_round, handle_command, stop,
}
use modern_cpp_room_server.Room.Worker.Log.{command_of, rejections, failures}
use modern_cpp_room_server.Room.Worker.Drain.{
  Reach, starts, accepts, handles, Reach-in_order, Reach-counts,
}
use modern_cpp_room_server.Room.Worker.Stop.{flagged, Reports, stop-Reports}
use modern_cpp_room_server.Room.State.Lookup.{
  IsValid, world, apply_world, joined, departed, apply-apply_world, player_count-apply,
}
use modern_cpp_room_server.Room.State.Snapshot.{id_of, snapshot_lem, snapshot_determined}
use modern_cpp_room_server.Room.State.Mirror.{apply_all, observe_all, observe_all-apply_all}

abbrev corner : GridPosition
corner = record { x = pos 3; y = pos 4 }

abbrev pair : Room
pair = record { players = (7, origin) ∷ (2, corner) ∷ [] }

abbrev pair_reversed : Room
pair_reversed = record { players = (2, corner) ∷ (7, origin) ∷ [] }

pair-IsValid : IsValid pair
unfolding Map.find
pair-IsValid = (refl, (refl, tt))

pair_reversed-IsValid : IsValid pair_reversed
unfolding Map.find
pair_reversed-IsValid = (refl, (refl, tt))

join_twice : apply pair (join_command 7) ≡ (err duplicate_session, pair)
unfolding apply Map.find
join_twice = refl

same_players : (id : SessionId) → find pair id ≡ find pair_reversed id
unfolding find Map.find
same_players id = ground arith

apply-apply_world_example :
    ((apply pair (leave_command 7 left_room)).0, world (apply pair (leave_command 7 left_room)).1)
    ≡ apply_world (world pair) (leave_command 7 left_room)
apply-apply_world_example = apply-apply_world pair (leave_command 7 left_room) pair-IsValid

player_count-apply_example :
    player_count (apply pair (leave_command 7 left_room)).1
      + departed (apply pair (leave_command 7 left_room)).0
    ≡ player_count pair + joined (apply pair (leave_command 7 left_room)).0
player_count-apply_example = player_count-apply pair (leave_command 7 left_room)

snapshot_lem_example :
    Sort.Ascending id_of 0 (snapshot pair)
    × (length (snapshot pair) ≡ player_count pair)
    × (Sort.find_by id_of 2 (snapshot pair) ≡ find pair 2)
snapshot_lem_example = snapshot_lem pair 2 pair-IsValid

snapshot_determined_example : snapshot pair ≡ snapshot pair_reversed
snapshot_determined_example =
    snapshot_determined pair pair_reversed pair-IsValid pair_reversed-IsValid same_players

abbrev moves : List RoomCommand
moves = join_command 9 ∷ move_command 9 corner ∷ leave_command 2 left_room ∷ join_command 9 ∷ []

observe_all-apply_all_example :
    observe_all (world pair) (apply_all pair moves).0 ≡ world (apply_all pair moves).1
observe_all-apply_all_example = observe_all-apply_all pair moves pair-IsValid

-- A worker with a handler and no metrics, two joins of one session, and one round.
abbrev queued : RoomWorker
queued = (submit (submit (new true none) (join_command 7)).1 (join_command 7)).1

queued-Reach : Reach true none (join_command 7 ∷ join_command 7 ∷ []) [] queued
unfolding submit new new_queue push
queued-Reach = accepts (join_command 7) (accepts (join_command 7) starts refl) refl

abbrev handled : RoomWorker
handled =
    handle_command true
      (record queued { commands = record (queued.commands) { values = join_command 7 ∷ [] } })
      (join_command 7)

handled-Reach :
    Reach true none (join_command 7 ∷ join_command 7 ∷ []) ((join_command 7, true) ∷ []) handled
unfolding submit new new_queue push run_round round_of wait_pop pop_front has_values
handled-Reach = handles (join_command 7) true queued-Reach refl refl

Reach-in_order_example :
    ((join_command 7 ∷ join_command 7 ∷ [])
      ≡ map command_of ((join_command 7, true) ∷ []) ++ handled.commands.values)
    × (handled.room ≡ (apply_all empty_room (map command_of ((join_command 7, true) ∷ []))).1)
    × (handled.finished ≡ true
        → (join_command 7 ∷ join_command 7 ∷ []) ≡ map command_of ((join_command 7, true) ∷ []))
Reach-in_order_example = Reach-in_order handled-Reach

Reach-counts_example :
    (handled.processed_commands ≡ 1 % 2 ^ 64)
    × (handled.rejected_commands ≡ rejections empty_room ((join_command 7, true) ∷ []) % 2 ^ 64)
    × (handled.event_delivery_failures
        ≡ failures true empty_room ((join_command 7, true) ∷ []) % 2 ^ 64)
Reach-counts_example = Reach-counts handled-Reach

-- The second join is refused, so that its handler is not called.
stop-Reports_example :
    Reports true
      (join_command 7 ∷ join_command 7 ∷ [])
      (((join_command 7, true) ∷ []) ++ flagged (λ n. true) handled.commands.values)
      (stop (λ n. true) handled)
    × (stop (λ n. false) (stop (λ n. true) handled).1 ≡ stop (λ n. true) handled)
unfolding handle_command apply Map.find submit new
stop-Reports_example = stop-Reports (λ n. true) (λ n. false) handled-Reach refl refl

-- ===== src/Room/State/Mirror.antt =====
-- A client that sees only the room's events knows who is where.
use modern_cpp_room_server.Prelude.{
  ◌≡◌, refl, sym, ap, ◌∙◌, none, some, List, [], ◌∷◌, ok, err, Expected, arith,
}
use modern_cpp_room_server.Room.Commands.{
  RoomCommand, join_command, move_command, leave_command, RoomEvent, player_joined_event,
  player_moved_event, player_left_event,
}
use modern_cpp_room_server.Room.State.{RoomCommandError, Room, apply}
use modern_cpp_room_server.Room.State.Lookup.{
  IsValid, World, world, update, apply_world, apply-IsValid, apply-apply_world,
}

-- The room after a sequence of commands, with the answers given on the way.
unfoldable pub apply_all :
    Room → List RoomCommand → List (Expected RoomCommandError RoomEvent) × Room
apply_all r [] = ([], r)
apply_all r (c ∷ cs) = let (x, s) = apply r c in let (xs, t) = apply_all s cs in (x ∷ xs, t)

-- What a client makes of one answer: an event tells it, and an error tells it nothing.
abbrev pub observe : World → Expected RoomCommandError RoomEvent → World
observe w (ok (player_joined_event id p)) = update w id (some p)
observe w (ok (player_moved_event id p)) = update w id (some p)
observe w (ok (player_left_event id reason)) = update w id none
observe w (err x) = w

abbrev pub observe_all : World → List (Expected RoomCommandError RoomEvent) → World
observe_all w [] = w
observe_all w (x ∷ xs) = observe_all (observe w x) xs

observe-apply_world :
    (w : World) (c : RoomCommand) → observe w (apply_world w c).0 ≡ (apply_world w c).1
unfolding apply_world
observe-apply_world w (join_command id) = ground arith
observe-apply_world w (move_command id p) = ground arith
observe-apply_world w (leave_command id reason) = ground arith

observe-apply :
    (r : Room) (c : RoomCommand) → IsValid r → observe (world r) (apply r c).0 ≡ world (apply r c).1
observe-apply r c v =
    let e = apply-apply_world r c v in
    ap (λ t. observe (world r) (t.0)) e ∙ observe-apply_world (world r) c ∙ sym (ap (λ t. t.1) e)

-- In a room with one position for each session, after any sequence of commands a client that knew
-- the room at the start and has seen each answer since (the events change its view, the errors do
-- not) knows for every session whether it is in the room and where.
pub observe_all-apply_all :
    (r : Room) (cs : List RoomCommand)
    → IsValid r
    → observe_all (world r) (apply_all r cs).0 ≡ world (apply_all r cs).1
unfolding apply_all
observe_all-apply_all r [] v = refl
observe_all-apply_all r (c ∷ cs) v =
    ap (λ w. observe_all w (apply_all (apply r c).1 cs).0) (observe-apply r c v)
    ∙ observe_all-apply_all (apply r c).1 cs (apply-IsValid r c v)

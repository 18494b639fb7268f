-- ===== src/Room/State/Lookup.antt =====
-- The room refines a partial function from sessions to positions.
use modern_cpp_room_server.Prelude.{
  ℕ, ◌+◌, ◌≡◌, ap₂, inl, inr, Option, none, some, ok, err, Expected, arith, ◌==◌, if◌then◌else◌,
  Option-cases,
}
use modern_cpp_room_server.Prelude.Map
use modern_cpp_room_server.Room.Commands.{
  SessionId, GridPosition, origin, RoomCommand, join_command, move_command, leave_command,
  RoomEvent, player_joined_event, player_moved_event, player_left_event,
}
use modern_cpp_room_server.Room.State.{
  RoomCommandError, duplicate_session, session_not_found, Room, apply_leave, apply, player_count,
}
use mathlib.Core.Path.{fun_ext}

abbrev pub IsValid : Room → Type 0
IsValid r = Map.Distinct r.players

-- The specification: who is in the room, and where.
abbrev pub World : Type 0
World = SessionId → Option GridPosition

abbrev pub world : Room → World
world r id = Map.find id r.players

abbrev pub update : World → SessionId → Option GridPosition → World
update w k p j = if k == j then p else w j

unfoldable pub apply_world : World → RoomCommand → Expected RoomCommandError RoomEvent × World
apply_world w (join_command id) = elim (w id) [
  | none ↦ (ok (player_joined_event id origin), update w id (some origin))
  | some p ↦ (err duplicate_session, w)
]
apply_world w (move_command id destination) = elim (w id) [
  | none ↦ (err session_not_found, w)
  | some p ↦ (ok (player_moved_event id destination), update w id (some destination))
]
apply_world w (leave_command id reason) = elim (w id) [
  | none ↦ (err session_not_found, w)
  | some p ↦ (ok (player_left_event id reason), update w id none)
]

-- Every command keeps one position for each session.
pub apply-IsValid : (r : Room) (c : RoomCommand) → IsValid r → IsValid (apply r c).1
unfolding apply
apply-IsValid r (join_command id) v = ground arith
apply-IsValid r (move_command id p) v = ground (arith, Map.assign-Distinct id p r.players v)
apply-IsValid r (leave_command id reason) v = ground (arith, Map.erase-Distinct id r.players v)

apply-world :
    (r : Room) (c : RoomCommand) (j : SessionId)
    → IsValid r
    → ((apply r c).0 ≡ (apply_world (world r) c).0)
      × (world (apply r c).1 j ≡ (apply_world (world r) c).1 j)
unfolding apply apply_world Map.find
apply-world r (join_command id) j v = ground arith
apply-world r (move_command id p) j v = elim (Option-cases (Map.find id r.players)) [
  | inl absent ↦ ground arith
  | inr (old, found) ↦ ground (arith, Map.find-assign id j p old r.players found)
]
apply-world r (leave_command id reason) j v = elim (Option-cases (Map.find id r.players)) [
  | inl absent ↦ ground arith
  | inr (old, found) ↦ ground (arith, Map.find-erase id j r.players v)
]

-- On a room with one position for each session, every command gives the answer that the
-- specification over a partial function from sessions to positions gives, and leaves the sessions
-- and positions that it leaves.
pub apply-apply_world :
    (r : Room) (c : RoomCommand)
    → IsValid r
    → ((apply r c).0, world (apply r c).1) ≡ apply_world (world r) c
apply-apply_world r c v =
    ap₂ (λ x w. (x, w)) ((apply-world r c 0 v).0) (fun_ext (λ j. (apply-world r c j v).1))

-- The number of players that an answer adds or takes away.
abbrev pub joined : Expected RoomCommandError RoomEvent → ℕ
joined (ok (player_joined_event id p)) = 1
joined _ = 0

abbrev pub departed : Expected RoomCommandError RoomEvent → ℕ
departed (ok (player_left_event id reason)) = 1
departed _ = 0

-- A command raises player_count by one if it answers with a joined event, lowers it by one if it
-- answers with a left event, and otherwise keeps it.
pub player_count-apply :
    (r : Room) (c : RoomCommand)
    → player_count (apply r c).1 + departed (apply r c).0 ≡ player_count r + joined (apply r c).0
unfolding apply player_count
player_count-apply r (join_command id) = ground arith
player_count-apply r (move_command id p) = ground (arith, Map.length-assign id p r.players)
player_count-apply r (leave_command id reason) = elim (Option-cases (Map.find id r.players)) [
  | inl absent ↦ rw (absent, apply_leave) (omega arith)
  | inr (old, found) ↦
      rw (found, apply_leave) (omega (arith, Map.length-erase id old r.players found))
]

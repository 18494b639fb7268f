-- ===== src/Room/State.antt =====
-- src/room/room.cpp. The players' map is an association list; its order, which is the table's, must not
-- show in any answer.
pub mod Lookup
pub mod Snapshot
pub mod Mirror
use modern_cpp_room_server.Prelude.{
  ℕ, Bool, true, false, Option, none, some, List, [], ◌∷◌, map, length, if◌then◌else◌, Expected, ok,
  err,
}
use modern_cpp_room_server.Prelude.Map
use modern_cpp_room_server.Prelude.Sort
use modern_cpp_room_server.Room.Commands.{
  SessionId, GridPosition, origin, DisconnectReason, RoomCommand, join_command, move_command,
  leave_command, RoomEvent, player_joined_event, player_moved_event, player_left_event,
}

pub data RoomCommandError : Type 0 where
  duplicate_session session_not_found : RoomCommandError

pub record PlayerSnapshot : Type 0 where
  pub session_id : SessionId
  pub position : GridPosition

pub record Room : Type 0 where
  pub players : List (SessionId × GridPosition)

unfoldable pub empty_room : Room
empty_room = record { players = [] }

abbrev pub Applied : Type 0
Applied = Expected RoomCommandError RoomEvent × Room

unfoldable pub apply_join : Room → SessionId → Applied
apply_join r id =
    let (players, inserted) = Map.try_emplace id origin r.players in
    let after = record r { players = players } in
    if inserted then (ok (player_joined_event id origin), after) else (err duplicate_session, after)

unfoldable pub apply_move : Room → SessionId → GridPosition → Applied
apply_move r id destination = elim (Map.find id r.players) [
  | none ↦ (err session_not_found, r)
  | some old ↦ (
    ok (player_moved_event id destination),
    record r { players = Map.assign id destination r.players },
  )
]

unfoldable pub apply_leave : Room → SessionId → DisconnectReason → Applied
apply_leave r id reason = elim (Map.find id r.players) [
  | none ↦ (err session_not_found, r)
  | some old ↦ (ok (player_left_event id reason), record r { players = Map.erase id r.players })
]

unfoldable pub apply : Room → RoomCommand → Applied
unfolding apply_join apply_move apply_leave Map.try_emplace
apply r (join_command id) = apply_join r id
apply r (move_command id destination) = apply_move r id destination
apply r (leave_command id reason) = apply_leave r id reason

pub player_count : Room → ℕ
player_count r = length r.players

unfoldable pub snapshot_of : SessionId × GridPosition → PlayerSnapshot
snapshot_of (id, position) = record { session_id = id; position = position }

unfoldable pub find : Room → SessionId → Option PlayerSnapshot
unfolding snapshot_of
find r id = elim (Map.find id r.players) [
  | none ↦ none
  | some position ↦ some (snapshot_of (id, position))
]

pub snapshot : Room → List PlayerSnapshot
snapshot r = Sort.sort_by (λ p. p.session_id) (map snapshot_of r.players)

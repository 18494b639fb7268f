-- ===== src/System/Members.antt =====
-- Who is a member of the registry's room is a player of the worker's room.
use modern_cpp_room_server.Prelude.{
  ℕ, ◌^◌, ◌<◌, ◌≡◌, refl, sym, subst, Bool, true, false, Option, none, some, List, [], ◌∷◌,
  if◌then◌else◌, ◌==◌, ok, err, arith,
}
use modern_cpp_room_server.Prelude.Int.{IsInt32}
use modern_cpp_room_server.Prelude.Map
use modern_cpp_room_server.Protocol.Bytes.{Endian}
use modern_cpp_room_server.Room.Commands.{
  SessionId, GridPosition, origin, DisconnectReason, RoomCommand, join_command, move_command,
  leave_command, RoomEvent, player_joined_event, player_moved_event, player_left_event,
}
use modern_cpp_room_server.Room.State.{
  Room, Applied, duplicate_session, session_not_found, apply, apply_join, apply_move, apply_leave,
}
use modern_cpp_room_server.Network.EventEncoder.RoundTrip.{IsEvent, read_view-encode_room_event}
use modern_cpp_room_server.Network.Registry.{
  Endpoint, SessionRegistry, note_event, collect, publish, publish_encoded,
}
use modern_cpp_room_server.Network.Registry.Tables.{IsWithin, note_event-IsWithin}
use modern_cpp_room_server.Network.Registry.Calls.{walk-IsWalked}
use modern_cpp_room_server.System.{handle_answer, Step, submits}

-- The fields of a command are within their types.
abbrev pub IsCommand : RoomCommand → Type 0
IsCommand (join_command id) = id < 2 ^ 64
IsCommand (move_command id p) = (id < 2 ^ 64) × IsInt32 p.x × IsInt32 p.y
IsCommand (leave_command id reason) = id < 2 ^ 64

abbrev pub IsSubmitted : Step → Type 0
IsSubmitted (submits command) = IsCommand command
IsSubmitted _ = Unit {0}

abbrev pub Absent {ℓ} : {V : Type ℓ} → SessionId → List (SessionId × V) → Type ℓ
Absent k m = Map.find k m ≡ none

publish_members :
    (e : Endian) (alive : Endpoint → Bool) (b : ℕ) (event : RoomEvent) (r : SessionRegistry)
    (k : SessionId)
    → b < 2 ^ 64
    → IsEvent event
    → IsWithin b r
    → Absent k (note_event event r).room_members
    → Absent k (publish e alive event r).1.room_members
unfolding publish publish_encoded collect
publish_members e alive b event r k h fits w absent =
    subst (λ x. Absent k (publish_encoded alive event x r).1.room_members)
      (sym (read_view-encode_room_event e e event [] fits tt).0)
      (let noted = note_event event r in
        let before = note_event-IsWithin b event r w in
        (walk-IsWalked alive b noted.room_members noted h before.proper.one_membership
            before).no_new
          k absent)

later_Absent {ℓ} :
    {V : Type ℓ} (k id : SessionId) (v : V) (m : List (SessionId × V))
    → Absent k ((id, v) ∷ m)
    → ((id == k) ≡ false) × Absent k m
unfolding Map.find
later_Absent k id v m h = ground arith

try_emplace-Absent :
    (k id : SessionId) (m : List (SessionId × Unit {0}))
    → (id == k) ≡ false
    → Absent k m
    → Absent k (Map.try_emplace id tt m).0
unfolding Map.try_emplace Map.find
try_emplace-Absent k id m apart h = ground arith

-- What holds of the members while the room and the registry are as they should be.
module _ (e : Endian) (alive : Endpoint → Bool) (b : ℕ) (room : Room) (r : SessionRegistry)
    (k : SessionId) (small : b < 2 ^ 64) (valid : Map.Distinct room.players) (within : IsWithin b r)
    (play : (j : SessionId) → Absent j room.players → Absent j r.room_members) where
  unfoldable pub Kept : Applied → Type 0
  Kept x = Absent k x.1.players → Absent k (handle_answer e alive x.0 r).room_members

  join-Kept : (id : SessionId) → id < 2 ^ 64 → Kept (apply_join room id)
  unfolding Kept apply_join Map.try_emplace handle_answer note_event
  join-Kept id fits = by_found (Map.find id room.players)
    where
      result : List (SessionId × GridPosition) × Bool → Applied
      result x =
          let after = record room { players = x.0 } in
          if x.1
          then (ok (player_joined_event id origin), after)
          else (err duplicate_session, after)

      by_found :
          (o : Option GridPosition)
          → Kept (
              result (elim o [
                | none ↦ ((id, origin) ∷ room.players, true)
                | some w ↦ (room.players, false)
              ]))
      by_found (some p) absent = play k absent
      by_found none absent =
          let (apart, before) = later_Absent k id origin room.players absent in
          publish_members e alive b (player_joined_event id origin) r k small
            (fits, omega arith, omega arith) within
            (try_emplace-Absent k id r.room_members apart (play k before))

  move-Kept :
      (id : SessionId) (p : GridPosition)
      → IsCommand (move_command id p)
      → Kept (apply_move room id p)
  unfolding Kept apply_move handle_answer note_event
  move-Kept id p fits = by_found (Map.find id room.players) refl
    where
      by_found :
          (o : Option GridPosition)
          → Map.find id room.players ≡ o
          → Kept (elim o [
            | none ↦ (err session_not_found, room)
            | some old ↦ (
              ok (player_moved_event id p),
              record room { players = Map.assign id p room.players },
            )
          ])
      by_found none h absent = play k absent
      by_found (some old) h absent =
          publish_members e alive b (player_moved_event id p) r k small fits within
            (play k (ground (arith, absent, Map.find-assign id k p old room.players h)))

  leave-Kept :
      (id : SessionId) (reason : DisconnectReason) → id < 2 ^ 64 → Kept (apply_leave room id reason)
  unfolding Kept apply_leave handle_answer note_event
  leave-Kept id reason fits = by_found (Map.find id room.players)
    where
      by_found :
          (o : Option GridPosition)
          → Kept (elim o [
            | none ↦ (err session_not_found, room)
            | some old ↦ (
              ok (player_left_event id reason),
              record room { players = Map.erase id room.players },
            )
          ])
      by_found none absent = play k absent
      by_found (some old) absent =
          publish_members e alive b (player_left_event id reason) r k small fits within (
            ground (
              arith,
              absent,
              Map.find-erase id k room.players valid,
              Map.find-erase id k r.room_members within.proper.one_membership,
              play k,
            ))

  pub apply-Kept : (c : RoomCommand) → IsCommand c → Kept (apply room c)
  unfolding apply
  apply-Kept (join_command id) fits = join-Kept id fits
  apply-Kept (move_command id p) fits = move-Kept id p fits
  apply-Kept (leave_command id reason) fits = leave-Kept id reason fits

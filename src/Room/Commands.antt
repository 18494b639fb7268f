-- ===== src/Room/Commands.antt =====
-- include/mcrs/room/room_command.hpp and room_event.hpp. A `SessionId` is its number.
use modern_cpp_room_server.Prelude.{ℕ, ◌<◌, ◌^◌, arith}
use modern_cpp_room_server.Prelude.Int.{ℤ, pos}

abbrev pub SessionId : Type 0
SessionId = ℕ

pub record GridPosition : Type 0 where
  pub x : ℤ
  pub y : ℤ

-- `GridPosition{}`
abbrev pub origin : GridPosition
origin = record { x = pos 0; y = pos 0 }

pub data DisconnectReason : Type 0 where
  left_room client_closed protocol_error io_error outbound_overflow server_shutdown :
      DisconnectReason

unfoldable pub reason_code : DisconnectReason → ℕ
reason_code left_room = 1
reason_code client_closed = 2
reason_code protocol_error = 3
reason_code io_error = 4
reason_code outbound_overflow = 5
reason_code server_shutdown = 6

pub reason_code-lt : (r : DisconnectReason) → reason_code r < 2 ^ 16
unfolding reason_code
reason_code-lt left_room = omega arith
reason_code-lt _ = omega arith

pub data RoomCommand : Type 0 where
  join_command : SessionId → RoomCommand
  move_command : SessionId → GridPosition → RoomCommand
  leave_command : SessionId → DisconnectReason → RoomCommand

pub data RoomEvent : Type 0 where
  player_joined_event : SessionId → GridPosition → RoomEvent
  player_moved_event : SessionId → GridPosition → RoomEvent
  player_left_event : SessionId → DisconnectReason → RoomEvent

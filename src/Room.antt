-- ===== src/Room.antt =====
-- The room and its worker: src/room and include/mcrs/room.
pub mod Commands
pub mod State
pub mod Worker
mod Tests

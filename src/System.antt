-- ===== src/System.antt =====
-- The room worker and the registry together, as src/main.cpp joins them: the handler of the worker
-- publishes each event on the worker's thread, while sessions submit commands, register and leave, and
-- `main` stops the worker. Without metrics.
pub mod Members
pub mod Steps
mod Tests
use modern_cpp_room_server.Prelude.{
  ℕ, Bool, true, false, none, List, [], ◌∷◌, if◌then◌else◌, Expected, ok, err,
}
use modern_cpp_room_server.Protocol.Bytes.{Endian}
use modern_cpp_room_server.Room.Commands.{SessionId, RoomCommand, RoomEvent}
use modern_cpp_room_server.Room.State.{RoomCommandError, apply}
use modern_cpp_room_server.Room.Worker
use modern_cpp_room_server.Room.Worker.{
  RoomWorker, Round, waits, ends, goes_on, submit, run_round, close_commands, request_stop,
}
use modern_cpp_room_server.Network.Registry.{
  Endpoint, SessionRegistry, register_session, unregister_session, publish,
}

pub record System : Type 0 where
  pub worker : RoomWorker
  pub registry : SessionRegistry

abbrev pub new_system : System
new_system = record {
  worker = Worker.new true none;
  registry = record { metrics = none; sessions = []; room_members = [] };
}

-- The handler that `main` gives the worker, on what `apply` answers. `publish` does not throw.
unfoldable pub handle_answer :
    Endian
    → (Endpoint → Bool)
    → Expected RoomCommandError RoomEvent
    → SessionRegistry
    → SessionRegistry
handle_answer e alive (err error) r = r
handle_answer e alive (ok event) r = (publish e alive event r).1

unfoldable pub after_round : Endian → (Endpoint → Bool) → System → Round → System
unfolding handle_answer
after_round e alive s waits = s
after_round e alive s (ends worker) = record s { worker = worker }
after_round e alive s (goes_on command worker) = record s {
  worker = worker;
  registry = handle_answer e alive (apply s.worker.room command).0 s.registry;
}

-- What a thread does: the worker makes a round, with the endpoints that are alive then; a session is
-- registered, submits a command or is removed; `stop` closes the queue and asks the thread to end.
pub data Step : Type 0 where
  works : (Endpoint → Bool) → Step
  registers : SessionId → Endpoint → Step
  submits : RoomCommand → Step
  unregisters : SessionId → Step
  closes asks : Step

unfoldable pub step : Endian → Step → System → System
unfolding after_round
step e (works alive) s =
    if s.worker.finished then s else after_round e alive s (run_round false s.worker)
step e (registers id endpoint) s = record s {
  registry = (register_session id endpoint s.registry).1;
}
step e (submits command) s = record s { worker = (submit s.worker command).1 }
step e (unregisters id) s = record s { registry = unregister_session id s.registry }
step e closes s = record s { worker = close_commands s.worker }
step e asks s = record s { worker = request_stop s.worker }

unfoldable pub steps : Endian → List Step → System → System
unfolding step
steps e [] s = s
steps e (now ∷ later) s = steps e later (step e now s)

-- ===== src/Network/Server.antt =====
-- src/network/server.cpp, and `run_session` of src/network/session.cpp. An endpoint is the number of
-- the session object. What `async_accept` reports and when a session ends are the environment's; what
-- a session does while it runs is the module Session.
pub mod Ids
pub mod Keeps
pub mod Serve
mod Tests
use modern_cpp_room_server.Prelude.{
  ℕ, ◌+◌, ◌%◌, ◌^◌, Bool, true, false, not, Option, none, some, List, [], ◌∷◌, ◌++◌, ◌==◌,
  if◌then◌else◌, add_size, Expected, ok, err,
}
use modern_cpp_room_server.Prelude.Text.{codes}
use modern_cpp_room_server.Room.Commands.{SessionId}
use modern_cpp_room_server.Observability.Metrics.{
  ServerMetrics, fresh_metrics, SessionMetrics, create_session, destroy_session,
}
use modern_cpp_room_server.Network.Registry.{
  Endpoint, SessionRegistry, register_session, unregister_session,
}

-- An exception as `std::rethrow_exception` and the handlers tell it: one with a text, or another.
pub data Exception : Type 0 where
  std_exception : List ℕ → Exception
  other_exception : Exception

-- What goes to the error stream when a session's coroutine ends.
unfoldable pub report_session_completion : Option Exception → List ℕ
report_session_completion none = []
report_session_completion (some (std_exception what)) =
    codes "session stopped by exception: " ++ what ++ codes "\n"
report_session_completion (some other_exception) = codes "session stopped by an unknown exception\n"

-- How `run_session` begins: the metrics throw, the registry refuses, or the session runs. The session
-- object holds the metrics of the session.
pub data Begun : Type 0 where
  throws : Begun
  refused : Option SessionMetrics → Begun
  runs : Option SessionMetrics → Begun

unfoldable pub after_register :
    Option SessionMetrics → Bool × SessionRegistry → Begun × SessionRegistry
after_register metrics (registered, r) = (if registered then runs metrics else refused metrics, r)

unfoldable pub after_create :
    SessionId
    → Endpoint
    → SessionRegistry
    → Expected (Unit {0}) (SessionMetrics × ServerMetrics)
    → Begun × SessionRegistry
unfolding after_register
after_create id endpoint r (err error) = (throws, r)
after_create id endpoint r (ok (session, m)) =
    after_register (some session) (register_session id endpoint (record r { metrics = some m }))

unfoldable pub begin_with :
    SessionId → Endpoint → SessionRegistry → Option ServerMetrics → Begun × SessionRegistry
unfolding after_create
begin_with id endpoint r none = after_register none (register_session id endpoint r)
begin_with id endpoint r (some m) = after_create id endpoint r (create_session id m)

unfoldable pub begin_session : SessionId → Endpoint → SessionRegistry → Begun × SessionRegistry
unfolding begin_with
begin_session id endpoint r = begin_with id endpoint r r.metrics

-- The end of `run_session` after `run` has returned, or has thrown, where the exception goes on.
unfoldable pub end_session : SessionId → Bool → SessionRegistry → Bool × SessionRegistry
end_session id thrown r = (thrown, unregister_session id r)

-- The coroutine `run_server`. `running` are the sessions whose `run_session` waits for `run`; `held` are
-- the metrics that session objects hold. `failed` tells that an exception has left it.
pub record Server : Type 0 where
  pub next_session_id : ℕ
  pub accepting : Bool
  pub failed : Bool
  pub registry : SessionRegistry
  pub running : List SessionId
  pub held : List (Option SessionMetrics)

unfoldable pub new_server : Option ServerMetrics → Server
new_server metrics = record {
  next_session_id = 1;
  accepting = true;
  failed = false;
  registry = record { metrics = metrics; sessions = []; room_members = [] };
  running = [];
  held = [];
}

-- The metrics that `main` makes: none where the interval is 0.
abbrev pub make_metrics : ℕ → Option ServerMetrics
make_metrics metrics_interval_ms = if metrics_interval_ms == 0 then none else some fresh_metrics

pub data Accepted : Type 0 where
  operation_aborted other_error : Accepted
  socket : Endpoint → Accepted

-- The session that was spawned, up to its first wait.
unfoldable pub spawned : SessionId → Server → Begun × SessionRegistry → Server
spawned id s (throws, r) = record s { registry = r }
spawned id s (refused metrics, r) = record s { registry = r; held = metrics ∷ s.held }
spawned id s (runs metrics, r) = record s {
  registry = r;
  running = id ∷ s.running;
  held = metrics ∷ s.held;
}

-- One round of the loop of `run_server`.
unfoldable pub on_accept : Accepted → Server → Server
unfolding spawned
on_accept operation_aborted s = record s { accepting = false }
on_accept other_error s = record s { accepting = false; failed = true }
on_accept (socket endpoint) s =
    let id = s.next_session_id in
    spawned id (record s { next_session_id = add_size id 1 }) (begin_session id endpoint s.registry)

unfoldable pub without : SessionId → List SessionId → List SessionId
without id [] = []
without id (k ∷ ks) = if k == id then ks else k ∷ without id ks

-- `run` of a running session has ended.
unfoldable pub on_end : SessionId → Bool → Server → Server
unfolding without
on_end id thrown s = record s {
  registry = (end_session id thrown s.registry).1;
  running = without id s.running;
}

unfoldable pub retire_held : Option SessionMetrics → Option ServerMetrics → Option ServerMetrics
retire_held (some session) (some m) = some (destroy_session session m)
retire_held _ m = m

-- The last pointer to a session object is gone, and its metrics retire.
unfoldable pub on_release : Option SessionMetrics → List (Option SessionMetrics) → Server → Server
unfolding retire_held
on_release metrics rest s = record s {
  registry = record (s.registry) { metrics = retire_held metrics s.registry.metrics };
  held = rest;
}

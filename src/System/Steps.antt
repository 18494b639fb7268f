-- ===== src/System/Steps.antt =====
-- The members after any steps.
use modern_cpp_room_server.Prelude.{
  ℕ, ◌+◌, ◌^◌, ◌<◌, ◌≡◌, refl, sym, subst, Bool, false, none, List, [], ◌∷◌, length, All,
  All-append, if-both, ok, err, Expected, arith,
}
use modern_cpp_room_server.Prelude.Map
use modern_cpp_room_server.Concurrency.{CloseableQueue, QueuePushError}
use modern_cpp_room_server.Concurrency
use modern_cpp_room_server.Protocol.Bytes.{Endian}
use modern_cpp_room_server.Room.Commands.{SessionId, RoomCommand, RoomEvent}
use modern_cpp_room_server.Room.State.{Room, RoomCommandError, empty_room, apply}
use modern_cpp_room_server.Room.State.Lookup.{apply-IsValid}
use modern_cpp_room_server.Room.Worker
use modern_cpp_room_server.Room.Worker.{
  RoomWorker, Round, waits, ends, goes_on, submit, run_round, answer_command, handle_command,
  close_commands, request_stop,
}
use modern_cpp_room_server.Room.Worker.Drain.{run_round-goes_on, run_round-ends}
use modern_cpp_room_server.Network.EventEncoder.{encode_room_event}
use modern_cpp_room_server.Network.Registry.{
  Endpoint, SessionRegistry, register_session, unregister_session, publish,
}
use modern_cpp_room_server.Network.Registry.Tables.{
  IsWithin, register_session-IsWithin, unregister_session-IsWithin,
}
use modern_cpp_room_server.Network.Registry.Calls.{publish_encoded-IsWithin, wider}
use modern_cpp_room_server.System.{
  System, new_system, handle_answer, after_round, Step, works, registers, submits, unregisters,
  closes, asks, step, steps,
}
use modern_cpp_room_server.System.Members.{IsCommand, IsSubmitted, Absent, Kept, apply-Kept}

-- Who is in no room of the worker is no member of the registry; and what keeps it so.
pub record IsConsistent (b : ℕ) (s : System) : Type 0 where
  pub play : (k : SessionId) → Absent k s.worker.room.players → Absent k s.registry.room_members
  pub one_position : Map.Distinct s.worker.room.players
  pub within : IsWithin b s.registry
  pub queued : All IsCommand s.worker.commands.values

more : {b : ℕ} {s : System} → IsConsistent b s → IsConsistent (b + 1) s
more g = record {
  play = g.play;
  one_position = g.one_position;
  within = wider (omega arith) g.within;
  queued = g.queued;
}

handle_answer-IsWithin :
    (e : Endian) (alive : Endpoint → Bool) (b : ℕ) (x : Expected RoomCommandError RoomEvent)
    (r : SessionRegistry)
    → b < 2 ^ 64
    → IsWithin b r
    → IsWithin b (handle_answer e alive x r)
unfolding handle_answer publish
handle_answer-IsWithin e alive b (err error) r h w = w
handle_answer-IsWithin e alive b (ok event) r h w =
    publish_encoded-IsWithin alive b event (encode_room_event e event) r h w

-- The worker's answer changes neither the room nor the queue.
answer_command_kept :
    (throws : Bool) (w : RoomWorker) (x : Expected RoomCommandError RoomEvent)
    → ((answer_command throws w x).room ≡ w.room)
      × ((answer_command throws w x).commands ≡ w.commands)
unfolding answer_command
answer_command_kept throws w (err error) = (refl, refl)
answer_command_kept throws w (ok event) = ground arith

-- The worker handles the first command of its queue.
handled-IsConsistent :
    (e : Endian) (alive : Endpoint → Bool) (b : ℕ) (s : System) (c : RoomCommand)
    (cs : List RoomCommand)
    → b < 2 ^ 64
    → s.worker.commands.values ≡ c ∷ cs
    → IsConsistent b s
    → let w =
        handle_command false
          (record (s.worker) { commands = record (s.worker.commands) { values = cs } })
          c in
      IsConsistent b (record s {
        worker = w;
        registry = handle_answer e alive (apply s.worker.room c).0 s.registry;
      })
unfolding handle_command Kept
handled-IsConsistent e alive b s c cs h split g =
    let room = s.worker.room in
    let taken = record (s.worker) { commands = record (s.worker.commands) { values = cs } } in
    let applied = record taken { room = (apply room c).1 } in
    let kept = answer_command_kept false applied (apply room c).0 in
    let commands : All IsCommand (c ∷ cs) = subst (All IsCommand) split g.queued in
    record {
      play = λ k.
          subst
            (λ q.
              Absent k (Room.players q)
              → Absent k (handle_answer e alive (apply room c).0 s.registry).room_members)
            (sym (kept.0))
            (apply-Kept e alive b room s.registry k h g.one_position g.within g.play c
              (commands.0));
      one_position =
          subst (λ q. Map.Distinct (Room.players q)) (sym (kept.0))
            (apply-IsValid room c g.one_position);
      within = handle_answer-IsWithin e alive b (apply room c).0 s.registry h g.within;
      queued = subst (λ q. All IsCommand (CloseableQueue.values q)) (sym (kept.1)) (commands.1);
    }

round-IsConsistent :
    (e : Endian) (alive : Endpoint → Bool) (b : ℕ) (s : System) (x : Round)
    → b < 2 ^ 64
    → run_round false s.worker ≡ x
    → IsConsistent b s
    → IsConsistent b (after_round e alive s x)
unfolding after_round
round-IsConsistent e alive b s waits h ran g = g
round-IsConsistent e alive b s (ends v) h ran g =
    subst (λ w. IsConsistent b (record s { worker = w }))
      (sym (run_round-ends false s.worker v ran).2)
      (record {
        play = g.play;
        one_position = g.one_position;
        within = g.within;
        queued = g.queued;
      })
round-IsConsistent e alive b s (goes_on c v) h ran g =
    let (cs, split, same) = run_round-goes_on false s.worker v c ran in
    subst
      (λ w. IsConsistent b (record s {
        worker = w;
        registry = handle_answer e alive (apply s.worker.room c).0 s.registry;
      }))
      (sym same) (handled-IsConsistent e alive b s c cs h split g)

unregistered :
    (k id : SessionId) (r : SessionRegistry)
    → Map.Distinct r.room_members
    → Absent k r.room_members
    → Absent k (unregister_session id r).room_members
unfolding unregister_session
unregistered k id r d absent = ground (arith, absent, Map.find-erase id k r.room_members d)

submit-IsConsistent :
    (b : ℕ) (c : RoomCommand) (s : System)
    → IsCommand c
    → IsConsistent b s
    → IsConsistent b (record s { worker = (submit s.worker c).1 })
unfolding submit Concurrency.push
submit-IsConsistent b c s fits g =
    let values = s.worker.commands.values in
    record {
      play = g.play;
      one_position = g.one_position;
      within = g.within;
      queued =
          if-both
            (λ (q : Expected QueuePushError (Unit {0}) × CloseableQueue RoomCommand).
              All IsCommand q.1.values)
            s.worker.commands.is_closed g.queued
            (All-append IsCommand values (c ∷ []) g.queued (fits, tt));
    }

step-IsConsistent :
    (e : Endian) (b : ℕ) (now : Step) (s : System)
    → b + 1 < 2 ^ 64
    → IsSubmitted now
    → IsConsistent b s
    → IsConsistent (b + 1) (step e now s)
unfolding step register_session close_commands request_stop Concurrency.close
step-IsConsistent e b (works alive) s h fits g = more (
    if-both (IsConsistent b) s.worker.finished g
      (round-IsConsistent e alive b s (run_round false s.worker) (omega arith) refl g))
step-IsConsistent e b (registers id endpoint) s h fits g = record {
  play = g.play;
  one_position = g.one_position;
  within = register_session-IsWithin b id endpoint s.registry h g.within;
  queued = g.queued;
}
step-IsConsistent e b (submits c) s h fits g = more (submit-IsConsistent b c s fits g)
step-IsConsistent e b (unregisters id) s h fits g = more (record {
  play = λ k absent. unregistered k id s.registry g.within.proper.one_membership (g.play k absent);
  one_position = g.one_position;
  within = unregister_session-IsWithin b id s.registry (omega arith) g.within;
  queued = g.queued;
})
step-IsConsistent e b closes s h fits g =
    more (record {
      play = g.play;
      one_position = g.one_position;
      within = g.within;
      queued = g.queued;
    })
step-IsConsistent e b asks s h fits g =
    more (record {
      play = g.play;
      one_position = g.one_position;
      within = g.within;
      queued = g.queued;
    })

steps-IsConsistent :
    (e : Endian) (b : ℕ) (later : List Step) (s : System)
    → b + length later < 2 ^ 64
    → All IsSubmitted later
    → IsConsistent b s
    → IsConsistent (b + length later) (steps e later s)
unfolding steps
steps-IsConsistent e b [] s h fits g = subst (λ n. IsConsistent n s) (omega arith) g
steps-IsConsistent e b (now ∷ later) s h fits g =
    subst (λ n. IsConsistent n (steps e later (step e now s))) (omega arith)
      (steps-IsConsistent e (b + 1) later (step e now s) (omega arith) (fits.1)
        (step-IsConsistent e b now s (omega arith) (fits.0) g))

new_system-IsConsistent : IsConsistent 0 new_system
unfolding Worker.new empty_room Concurrency.new_queue Map.find
new_system-IsConsistent = record {
  play = λ k absent. refl;
  one_position = tt;
  within = record {
    proper = record { one_endpoint = tt; one_membership = tt; gauge = tt };
    few = omega arith;
  };
  queued = tt;
}

-- When the worker's rounds, registrations, removals, submitted commands whose fields are within
-- their types, and the two halves of stopping the worker happen in any order from the start of the
-- server, without metrics and fewer than 2^64 of them, and the worker publishes the event of each
-- command to the registry with any endpoints alive, then a session that is not in the worker's
-- room is not a member in the registry.
pub steps-members :
    (e : Endian) (later : List Step) (k : SessionId)
    → length later < 2 ^ 64
    → All IsSubmitted later
    → Map.find k (steps e later new_system).worker.room.players ≡ none
    → Map.find k (steps e later new_system).registry.room_members ≡ none
steps-members e later k h fits absent =
    (steps-IsConsistent e 0 later new_system (omega arith) fits new_system-IsConsistent).play k
      absent

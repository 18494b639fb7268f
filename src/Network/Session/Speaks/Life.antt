-- ===== src/Network/Session/Speaks/Life.antt =====
-- A session from its beginning on, with what its environment does between its steps.
use modern_cpp_room_server.Prelude.{
  ℕ, ◌≡◌, refl, sym, ap, ◌∙◌, Bool, false, Option, some, List, [], ◌∷◌, ◌++◌, length, drop,
  drop-append, All, ◌==◌, if-both,
}
use modern_cpp_room_server.Concurrency.{CloseableQueue}
use modern_cpp_room_server.Room.Commands.{SessionId, io_error, RoomCommand}
use modern_cpp_room_server.Network.OutboundQueue.{OutboundQueue, SharedPacket}
use modern_cpp_room_server.Protocol.Bytes.{Endian}
use modern_cpp_room_server.Network.Session.Steps.{
  on_read, ReadResult, deliver, run_posted, write_round, write_popped, write_done, write_throws,
  begin_held,
}
use modern_cpp_room_server.Network.Session.{Session, Writer, update_queue_metrics}
use modern_cpp_room_server.Network.Session.Speaks.{
  talk, talk-append, Says, silent, Says-trans, stop_session-Says, enqueue-Says,
}
use modern_cpp_room_server.Network.Session.Speaks.Packets.{on_read-Says}
use modern_cpp_room_server.Observability.Metrics.{Both, WriteBatch, PendingDelivery}
use modern_cpp_room_server.Network.Session.Steps.{new_session}

-- A step of the session: a read, a delivery by another thread, a posted handler, or a step of a writer.
pub data Action : Type 0 where
  reads : ReadResult → Action
  delivers : SharedPacket → Action
  handles : Action
  writes : List Writer → Action
  completes : WriteBatch → ℕ → Bool → List Writer → Action
  throws : WriteBatch → List Writer → Action

unfoldable pub act : (ℕ → ℕ → ℕ) → Endian → Action → Session → Session
act grow e (reads result) s = (on_read grow e result s).1
act grow e (delivers packet) s = deliver packet s
act grow e handles s = run_posted s.posted s
act grow e (writes rest) s = write_round rest s
act grow e (completes batch transferred failed rest) s = write_done batch transferred failed rest s
act grow e (throws batch rest) s = write_throws batch rest s

run_posted-Says :
    (posted : List (SharedPacket × PendingDelivery)) (s : Session) → Says s (run_posted posted s)
unfolding run_posted
run_posted-Says [] s = silent refl refl refl
run_posted-Says ((packet, pending) ∷ rest) s =
    Says-trans (silent refl refl refl)
      (enqueue-Says packet (record s { metrics = begin_held pending s.metrics; posted = rest }))

write_popped-Says :
    (rest : List Writer) (s : Session) (r : ℕ × List SharedPacket × OutboundQueue)
    → Says s (write_popped rest s r)
unfolding write_popped update_queue_metrics
write_popped-Says rest s r =
    if-both (Says s) (r.0 == 0) (silent refl refl refl) (silent refl refl refl)

act-Says : (grow : ℕ → ℕ → ℕ) (e : Endian) (a : Action) (s : Session) → Says s (act grow e a s)
unfolding act deliver write_round write_done write_throws
act-Says grow e (reads result) s = on_read-Says grow e result s
act-Says grow e (delivers packet) s = silent refl refl refl
act-Says grow e handles s = run_posted-Says s.posted s
act-Says grow e (writes rest) s =
    if-both (Says s) s.stopped (silent refl refl refl) (write_popped-Says rest s _)
act-Says grow e (completes batch transferred failed rest) s =
    if-both (Says s) failed (Says-trans (silent refl refl refl) (stop_session-Says io_error _))
      (silent refl refl refl)
act-Says grow e (throws batch rest) s =
    Says-trans (silent refl refl refl) (stop_session-Says io_error _)

-- Before each step the environment leaves the worker's queue and the metrics as it likes.
abbrev pub Turn : Type 0
Turn = Action × CloseableQueue RoomCommand × Option Both

-- The commands that the session adds to the queue in a step, and in a life.
unfoldable pub live : (ℕ → ℕ → ℕ) → Endian → List Turn → Session → List RoomCommand × Session
unfolding act
live grow e [] s = ([], s)
live grow e ((a, q, m) ∷ turns) s =
    let t = act grow e a (record s { room_commands = q; metrics = m }) in
    let (sent, u) = live grow e turns t in
    (drop (length q.values) t.room_commands.values ++ sent, u)

-- The worker takes commands in the turn.
abbrev pub IsOpen : Turn → Type 0
IsOpen (a, q, m) = q.is_closed ≡ false

talk-live :
    (grow : ℕ → ℕ → ℕ) (e : Endian) (turns : List Turn) (s : Session)
    → All IsOpen turns
    → talk s.session_id s.joined_room (live grow e turns s).0
      ≡ some (live grow e turns s).1.joined_room
unfolding live talk
talk-live grow e [] s h = refl
talk-live grow e ((a, q, m) ∷ turns) s (is_open, rest) =
    let before : Session = record s { room_commands = q; metrics = m } in
    let t = act grow e a before in
    let says = act-Says grow e a before in
    let added : drop (length q.values) t.room_commands.values ≡ says.sent =
      ap (drop (length q.values)) says.appended ∙ drop-append q.values says.sent in
    ap (λ cs. talk s.session_id s.joined_room (cs ++ (live grow e turns t).0)) added
    ∙ talk-append s.session_id s.joined_room t.joined_room says.sent _ (says.spoken is_open)
    ∙ ap (λ i. talk i t.joined_room (live grow e turns t).0) (sym says.same_id)
    ∙ talk-live grow e turns t rest

-- In any life of a new session (reads of any result, deliveries and their handlers, rounds of its
-- writers and what their writes bring, in any order, while others change the room's queue and the
-- metrics between these as they like, with the queue open at each), the commands that the session
-- submits are all under its own id, join and leave in turn beginning with a join, and move only
-- between a join and the next leave; at the end the session counts as joined exactly if its last
-- join was not followed by a leave.
pub talk-new_session :
    (grow : ℕ → ℕ → ℕ) (e : Endian) (id : SessionId) (q : CloseableQueue RoomCommand)
    (m : Option Both) (turns : List Turn)
    → All IsOpen turns
    → talk id false (live grow e turns (new_session grow id q m)).0
      ≡ some (live grow e turns (new_session grow id q m)).1.joined_room
unfolding new_session
talk-new_session grow e id q m turns h = talk-live grow e turns (new_session grow id q m) h

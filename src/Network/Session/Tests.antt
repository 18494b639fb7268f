-- ===== src/Network/Session/Tests.antt =====
-- The theorems about sessions at concrete sessions.
use modern_cpp_room_server.Prelude.{
  inl, ℕ, ◌≡◌, refl, true, false, none, some, List, [], ◌∷◌, ◌++◌, length, if◌then◌else◌, arith,
}
use modern_cpp_room_server.Protocol.Bytes.{little, big}
use modern_cpp_room_server.Protocol.Packet.{PacketView, join_room, is_known}
use modern_cpp_room_server.Room.Commands.{
  origin, RoomEvent, player_joined_event, player_left_event, client_closed, io_error,
  protocol_error, join_command,
}
use modern_cpp_room_server.Network.ReceiveBuffer.{readable_bytes}
use modern_cpp_room_server.Network.Session.{Session, at_loop, stop_session}
use modern_cpp_room_server.Network.Session.Steps.{
  handle_type, process_all, new_session, deliver, on_read, bytes_read, end_of_file,
}
use modern_cpp_room_server.Network.Session.Stop.{Leaves, IsStopped, stop_session_lem}
use modern_cpp_room_server.Network.Session.Sound.{IsSound}
use modern_cpp_room_server.Network.Session.Reach.{made, reads, delivered, Reach-IsSound}
use modern_cpp_room_server.Network.Session.Packets.{IsFinished, process_all-IsFinished}
use modern_cpp_room_server.Network.OutboundQueue.Valid.{IsValid}
use modern_cpp_room_server.Network.Session.Speaks.{talk}
use modern_cpp_room_server.Network.Session.Speaks.Life.{Turn, live, talk-new_session}
use modern_cpp_room_server.Network.Session.Speaks.Life.{Action}
use modern_cpp_room_server.Network.Session.Rejects.{violates, handle_type-violates}
use modern_cpp_room_server.Network.EventEncoder.Stream.{read_events}
use modern_cpp_room_server.Network.Session.Delivers.{
  Awaits, IsReady, sent, deliver_all, read_events-deliver_all,
}
use modern_cpp_room_server.Network.Session.Writes.{
  Written, write_all, steps_to_drain, write_all-Written,
}
use modern_cpp_room_server.Network.Session.LateJoin.{handle_type_late_join}

abbrev exact : ℕ → ℕ → ℕ
exact capacity needed = needed

-- A joined session with the bytes of a leave packet and half of another header.
abbrev joined_session : Session
joined_session = record {
  receive_buffer = record {
    storage = 0 ∷ 0 ∷ 0 ∷ 0 ∷ 0 ∷ 5 ∷ 0 ∷ 0 ∷ 0 ∷ [];
    capacity = 16;
    max_buffered_bytes = 64;
    read_offset = 0;
  };
  outbound_queue = record {
    packets = (1 ∷ 2 ∷ []) ∷ [];
    pending_bytes = 2;
    max_pending_bytes = 64;
    closed = false;
  };
  session_id = 7;
  room_commands = record { values = []; is_closed = false };
  metrics = none;
  joined_room = true;
  write_in_progress = true;
  stopped = false;
  socket_open = true;
  posted = [];
  writers = [];
}

abbrev stopped_session : Session
stopped_session = record joined_session { joined_room = false; stopped = true }

abbrev join_view : PacketView
join_view = record {
  header = record { payload_size = 0; type = join_room };
  payload = [];
  consumed_bytes = 6;
}

stop_session_lem_example :
    Leaves joined_session (stop_session client_closed joined_session)
    × IsStopped client_closed joined_session (stop_session client_closed joined_session)
    × (stop_session io_error (stop_session client_closed joined_session)
        ≡ stop_session client_closed joined_session)
stop_session_lem_example = stop_session_lem client_closed io_error joined_session refl

Reach-IsSound_example :
    IsSound
      (on_read exact little (bytes_read (1 ∷ 2 ∷ [])) (
        deliver
          (some (9 ∷ []))
          (new_session exact 7 (record { values = []; is_closed = false }) none))).1
Reach-IsSound_example = Reach-IsSound (
    reads (bytes_read (1 ∷ 2 ∷ []))
      (delivered (some (9 ∷ [])) (made 7 (record { values = []; is_closed = false }) none)))

process_all-IsFinished_example : IsFinished little (process_all little joined_session)
unfolding readable_bytes
process_all-IsFinished_example =
    process_all-IsFinished little joined_session (omega arith) (omega arith)

handle_type_late_join_example :
    let r = handle_type little join_room join_view stopped_session in
    (r.0 ≡ true)
    × (r.1.stopped ≡ true)
    × (r.1.joined_room ≡ true)
    × (r.1.room_commands.values ≡ [] ++ (join_command 7 ∷ []))
    × (stop_session client_closed r.1 ≡ r.1)
handle_type_late_join_example =
    handle_type_late_join little join_view client_closed stopped_session refl refl refl refl

-- A new session reads a join packet and then the end of the stream.
abbrev two_turns : List Turn
two_turns =
    (
      Action.reads (bytes_read (0 ∷ 0 ∷ 0 ∷ 0 ∷ 0 ∷ 2 ∷ [])),
      record { values = []; is_closed = false },
      none,
    )
    ∷ (Action.reads end_of_file, record { values = []; is_closed = false }, none)
    ∷ []

talk-new_session_example :
    let start = new_session exact 7 (record { values = []; is_closed = false }) none in
    talk 7 false (live exact little two_turns start).0
    ≡ some (live exact little two_turns start).1.joined_room
talk-new_session_example =
    talk-new_session exact little 7 (record { values = []; is_closed = false }) none two_turns
      (refl, (refl, tt))

handle_type-violates_example : handle_type little join_room join_view joined_session ≡ (
    if violates joined_session.joined_room join_room join_view.payload
    then (false, stop_session protocol_error joined_session)
    else (true, (handle_type little join_room join_view joined_session).1))
unfolding is_known
handle_type-violates_example =
    handle_type-violates little join_view joined_session join_room refl (cc) refl

joined_session-IsValid : IsValid joined_session.outbound_queue
joined_session-IsValid = record {
  counted = refl;
  limited = omega arith;
  limit_small = omega arith;
  nonempty = (omega arith, tt);
  closed_empty = λ e. ground (arith, e);
}

-- A session whose writer is at the head of its loop.
abbrev spawned_session : Session
spawned_session = record joined_session { writers = at_loop ∷ [] }

write_all-Written_example :
    Written spawned_session.outbound_queue.packets
      (write_all (steps_to_drain spawned_session) spawned_session)
write_all-Written_example = write_all-Written spawned_session joined_session-IsValid refl refl

-- A session with nothing to send, and two events.
abbrev idle_session : Session
idle_session = record joined_session {
  outbound_queue = record {
    packets = [];
    pending_bytes = 0;
    max_pending_bytes = 64;
    closed = false;
  };
  write_in_progress = false;
}

abbrev two_events : List RoomEvent
two_events = player_joined_event 7 origin ∷ player_left_event 9 client_closed ∷ []

idle_session-IsReady : IsReady 2 idle_session
unfolding Awaits
idle_session-IsReady = record {
  valid = record {
    counted = refl;
    limited = omega arith;
    limit_small = omega arith;
    nonempty = tt;
    closed_empty = λ e. refl;
  };
  not_closed = refl;
  runs = refl;
  none_posted = refl;
  writer = inl (refl, refl, refl);
  room = omega arith;
}

read_events-deliver_all_example :
    let bytes = sent (deliver_all little two_events idle_session) in
    read_events big (length bytes) bytes ≡ two_events
read_events-deliver_all_example =
    read_events-deliver_all little big two_events idle_session
      ((omega arith, omega arith, omega arith), (omega arith, tt)) idle_session-IsReady refl

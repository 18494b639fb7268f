-- ===== src/Network/Server/Keeps.antt =====
-- The registry and the metrics learn no new id from the end of a session or from an event.
use modern_cpp_room_server.Prelude.{
  ℕ, refl, Bool, Option, none, some, List, [], ◌∷◌, if-both, ok, err, Expected,
}
use modern_cpp_room_server.Prelude.Map
use modern_cpp_room_server.Protocol.Packet.{EncodeError}
use modern_cpp_room_server.Room.Commands.{
  SessionId, RoomEvent, player_joined_event, player_moved_event, player_left_event,
}
use modern_cpp_room_server.Observability.Metrics.{
  ServerMetrics, SessionMetrics, destroy_session, retire_session, session_unregistered,
  delivery_attempted,
}
use modern_cpp_room_server.Network.OutboundQueue.{SharedPacket}
use modern_cpp_room_server.Network.Registry.{
  Endpoint, SessionRegistry, with_metrics, unregister_session, is_some, drop_session, note_event,
  Walk, keep_member, visit, walk, collect, attempt_all, publish_encoded,
}
use modern_cpp_room_server.Network.Server.{retire_held}
use modern_cpp_room_server.Network.Server.Ids.{
  Below, erase-Below, MetricsBelow, with_metrics-Below, Knows,
}

drop_session-Knows :
    (n : ℕ) (id : SessionId) (r : SessionRegistry) → Knows n r → Knows n (drop_session id r)
unfolding drop_session session_unregistered
drop_session-Knows n id r h = record {
  registered = erase-Below n id r.sessions h.registered;
  counted =
      if-both (MetricsBelow n) (is_some (Map.find id r.sessions))
        (with_metrics-Below session_unregistered n r.metrics (λ m. refl) h.counted) h.counted;
}

pub unregister_session-Knows :
    (n : ℕ) (id : SessionId) (r : SessionRegistry) → Knows n r → Knows n (unregister_session id r)
unfolding unregister_session
unregister_session-Knows n id r h =
    let dropped = drop_session-Knows n id r h in
    record { registered = dropped.registered; counted = dropped.counted }

note_event-Knows :
    (n : ℕ) (event : RoomEvent) (r : SessionRegistry) → Knows n r → Knows n (note_event event r)
unfolding note_event
note_event-Knows n (player_joined_event id p) r h = record {
  registered = h.registered;
  counted = h.counted;
}
note_event-Knows n (player_moved_event id p) r h = h
note_event-Knows n (player_left_event id reason) r h = record {
  registered = h.registered;
  counted = h.counted;
}

visit-Knows :
    (alive : Endpoint → Bool) (n : ℕ) (id : SessionId) (o : Option Endpoint)
    (rest : SessionRegistry → Walk) (r : SessionRegistry)
    → ((q : SessionRegistry) → Knows n q → Knows n (rest q).registry)
    → Knows n r
    → Knows n (visit alive id o rest r).registry
unfolding visit keep_member
visit-Knows alive n id none rest r others h = others r h
visit-Knows alive n id (some endpoint) rest r others h =
    if-both (λ w. Knows n (Walk.registry w)) (alive endpoint) (others r h)
      (others (drop_session id r) (drop_session-Knows n id r h))

walk-Knows :
    (alive : Endpoint → Bool) (n : ℕ) (members : List (SessionId × Unit {0})) (r : SessionRegistry)
    → Knows n r
    → Knows n (walk alive members r).registry
unfolding walk
walk-Knows alive n [] r h = h
walk-Knows alive n ((id, u) ∷ members) r h =
    visit-Knows alive n id (Map.find id r.sessions) (walk alive members) r
      (walk-Knows alive n members) h

attempt_all-Below :
    (endpoints : List Endpoint) (n : ℕ) (o : Option ServerMetrics)
    → MetricsBelow n o
    → MetricsBelow n (attempt_all endpoints o)
unfolding attempt_all delivery_attempted
attempt_all-Below [] n o h = h
attempt_all-Below (endpoint ∷ rest) n o h =
    attempt_all-Below rest n (with_metrics delivery_attempted o)
      (with_metrics-Below delivery_attempted n o (λ m. refl) h)

pub publish_encoded-Knows :
    (alive : Endpoint → Bool) (n : ℕ) (event : RoomEvent) (x : Expected EncodeError SharedPacket)
    (r : SessionRegistry)
    → Knows n r
    → Knows n (publish_encoded alive event x r).1
unfolding publish_encoded collect
publish_encoded-Knows alive n event (err error) r h = h
publish_encoded-Knows alive n event (ok packet) r h =
    let noted = note_event event r in
    let walked = walk-Knows alive n noted.room_members noted (note_event-Knows n event r h) in
    record {
      registered = walked.registered;
      counted =
          attempt_all-Below (walk alive noted.room_members noted).recipients n
            (walk alive noted.room_members noted).registry.metrics walked.counted;
    }

pub retire_held-Below :
    (session : Option SessionMetrics) (n : ℕ) (o : Option ServerMetrics)
    → MetricsBelow n o
    → MetricsBelow n (retire_held session o)
unfolding retire_held destroy_session retire_session
retire_held-Below none n o h = h
retire_held-Below (some session) n none h = tt
retire_held-Below (some session) n (some m) h =
    if-both (λ q. Below n (ServerMetrics.sessions q)) session.tracked
      (if-both (λ q. Below n (ServerMetrics.sessions q)) _
        (erase-Below n session.gauges.session_id m.sessions h)
        (erase-Below n session.gauges.session_id m.sessions h))
      h

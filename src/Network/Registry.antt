-- ===== src/Network/Registry.antt =====
-- src/network/session_registry.cpp. Each method is one step under the mutex. An endpoint is the number
-- of its object, and `alive` tells which objects a weak pointer can still lock. The lists of sessions
-- and of members stand in the order in which the tables are walked.
pub mod Publish
pub mod Tables
pub mod Calls
mod Tests
use modern_cpp_room_server.Prelude.{
  ℕ, Bool, true, false, Option, none, some, List, [], ◌∷◌, length, if◌then◌else◌, Expected, ok, err,
}
use modern_cpp_room_server.Prelude.Map
use modern_cpp_room_server.Protocol.Bytes.{Endian}
use modern_cpp_room_server.Protocol.Packet.{EncodeError}
use modern_cpp_room_server.Room.Commands.{
  SessionId, RoomEvent, player_joined_event, player_moved_event, player_left_event,
}
use modern_cpp_room_server.Observability.Metrics.{
  ServerMetrics, session_registered, session_unregistered, delivery_attempted,
}
use modern_cpp_room_server.Network.OutboundQueue.{SharedPacket}
use modern_cpp_room_server.Network.EventEncoder.{encode_room_event}

abbrev pub Endpoint : Type 0
Endpoint = ℕ

pub record SessionRegistry : Type 0 where
  pub metrics : Option ServerMetrics
  pub sessions : List (SessionId × Endpoint)
  pub room_members : List (SessionId × Unit {0})

unfoldable pub with_metrics :
    (ServerMetrics → ServerMetrics) → Option ServerMetrics → Option ServerMetrics
with_metrics f none = none
with_metrics f (some m) = some (f m)

unfoldable pub register_session : SessionId → Endpoint → SessionRegistry → Bool × SessionRegistry
unfolding with_metrics
register_session id endpoint r =
    let (sessions, inserted) = Map.try_emplace id endpoint r.sessions in
    (
      inserted,
      record r {
        sessions = sessions;
        metrics = if inserted then with_metrics session_registered r.metrics else r.metrics;
      },
    )

unfoldable pub is_some {ℓ} : {A : Type ℓ} → Option A → Bool
is_some none = false
is_some (some a) = true

-- `sessions_.erase(id)`, with the metrics told if there was one.
unfoldable pub drop_session : SessionId → SessionRegistry → SessionRegistry
unfolding is_some with_metrics
drop_session id r = record r {
  sessions = Map.erase id r.sessions;
  metrics =
      if is_some (Map.find id r.sessions)
      then with_metrics session_unregistered r.metrics
      else r.metrics;
}

unfoldable pub unregister_session : SessionId → SessionRegistry → SessionRegistry
unfolding drop_session
unregister_session id r =
    let dropped = drop_session id r in record dropped { room_members = Map.erase id r.room_members }

-- The change of the members that an event brings.
unfoldable pub note_event : RoomEvent → SessionRegistry → SessionRegistry
note_event (player_joined_event id position) r = record r {
  room_members = (Map.try_emplace id tt r.room_members).0;
}
note_event (player_moved_event id position) r = r
note_event (player_left_event id reason) r = record r { room_members = Map.erase id r.room_members }

-- The walk over the members: the recipients, the members that stay, and the registry with the
-- sessions that are left.
pub record Walk : Type 0 where
  pub recipients : List Endpoint
  pub kept : List (SessionId × Unit {0})
  pub registry : SessionRegistry

unfoldable pub keep_member : SessionId → Endpoint → Walk → Walk
keep_member id endpoint w = record w {
  recipients = endpoint ∷ w.recipients;
  kept = (id, tt) ∷ w.kept;
}

module _ (alive : Endpoint → Bool) where
  unfoldable pub visit :
      SessionId → Option Endpoint → (SessionRegistry → Walk) → SessionRegistry → Walk
  unfolding drop_session keep_member
  visit id none rest r = rest r
  visit id (some endpoint) rest r =
      if alive endpoint then keep_member id endpoint (rest r) else rest (drop_session id r)

  unfoldable pub walk : List (SessionId × Unit {0}) → SessionRegistry → Walk
  unfolding visit
  walk [] r = record { recipients = []; kept = []; registry = r }
  walk ((id, u) ∷ members) r = visit id (Map.find id r.sessions) (walk members) r

  unfoldable pub collect : SessionRegistry → List Endpoint × SessionRegistry
  unfolding walk
  collect r =
      let w = walk r.room_members r in (w.recipients, record (w.registry) { room_members = w.kept })

-- The loop that counts and makes the deliveries.
unfoldable pub attempt_all : List Endpoint → Option ServerMetrics → Option ServerMetrics
unfolding with_metrics
attempt_all [] m = m
attempt_all (endpoint ∷ rest) m = attempt_all rest (with_metrics delivery_attempted m)

-- The deliveries that `publish` makes, each an endpoint and the packet.
unfoldable pub deliveries : SharedPacket → List Endpoint → List (Endpoint × SharedPacket)
deliveries packet [] = []
deliveries packet (endpoint ∷ rest) = (endpoint, packet) ∷ deliveries packet rest

unfoldable pub publish_encoded :
    (Endpoint → Bool)
    → RoomEvent
    → Expected EncodeError SharedPacket
    → SessionRegistry
    → List (Endpoint × SharedPacket) × SessionRegistry
unfolding attempt_all deliveries
publish_encoded alive event (err error) r = ([], r)
publish_encoded alive event (ok packet) r =
    let (recipients, after) = collect alive (note_event event r) in
    (deliveries packet recipients, record after { metrics = attempt_all recipients after.metrics })

unfoldable pub publish :
    Endian
    → (Endpoint → Bool)
    → RoomEvent
    → SessionRegistry
    → List (Endpoint × SharedPacket) × SessionRegistry
unfolding publish_encoded
publish e alive event r = publish_encoded alive event (encode_room_event e event) r

unfoldable pub connected_count : SessionRegistry → ℕ
connected_count r = length r.sessions

unfoldable pub room_member_count : SessionRegistry → ℕ
room_member_count r = length r.room_members

-- The destructor: the metrics are told of each session that is left.
unfoldable pub unregister_all :
    List (SessionId × Endpoint) → Option ServerMetrics → Option ServerMetrics
unfolding with_metrics
unregister_all [] m = m
unregister_all (session ∷ rest) m = unregister_all rest (with_metrics session_unregistered m)

unfoldable pub destroy : SessionRegistry → Option ServerMetrics
unfolding unregister_all
destroy r = unregister_all r.sessions r.metrics

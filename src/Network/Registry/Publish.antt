-- ===== src/Network/Registry/Publish.antt =====
-- Who receives an event.
use modern_cpp_room_server.Prelude.{
  ◌≡◌, refl, ap, ap₂, inl, inr, ◌∙◌, Bool, true, false, map, Option, none, some, List, [], ◌∷◌,
  if◌then◌else◌, ◌==◌, arith, Bool-cases,
}
use modern_cpp_room_server.Prelude.Map
use modern_cpp_room_server.Room.Commands.{
  SessionId, RoomEvent, player_joined_event, player_moved_event, player_left_event,
}
use modern_cpp_room_server.Network.OutboundQueue.{SharedPacket, PacketBuffer}
use modern_cpp_room_server.Protocol.Bytes.{Endian}
use modern_cpp_room_server.Network.EventEncoder.RoundTrip.{
  IsEvent, event_packet, read_view-encode_room_event,
}
use modern_cpp_room_server.Network.Registry.{
  Endpoint, SessionRegistry, drop_session, keep_member, visit, walk, collect, note_event,
  deliveries, publish, publish_encoded,
}

-- The live endpoint of a session, if it is registered.
abbrev pub live_endpoint : (Endpoint → Bool) → Option Endpoint → Option Endpoint
live_endpoint alive none = none
live_endpoint alive (some endpoint) = if alive endpoint then some endpoint else none

abbrev pub live : (Endpoint → Bool) → List (SessionId × Endpoint) → SessionId → Option Endpoint
live alive sessions id = live_endpoint alive (Map.find id sessions)

abbrev pub list_of {ℓ} : {A : Type ℓ} → Option A → List A → List A
list_of none xs = xs
list_of (some x) xs = x ∷ xs

-- The live endpoints of the members, in the order of the walk.
unfoldable pub live_members :
    (Endpoint → Bool) → List (SessionId × Endpoint) → List (SessionId × Unit {0}) → List Endpoint
live_members alive sessions [] = []
live_members alive sessions ((id, u) ∷ members) =
    list_of (live alive sessions id) (live_members alive sessions members)

-- Two tables that agree on the members have the same live endpoints.
live_members-agree :
    (alive : Endpoint → Bool) (s t : List (SessionId × Endpoint)) (id : SessionId)
    (members : List (SessionId × Unit {0}))
    → Map.find id members ≡ none
    → ((j : SessionId) → (id == j) ≡ false → Map.find j s ≡ Map.find j t)
    → live_members alive s members ≡ live_members alive t members
unfolding live_members Map.find
live_members-agree alive s t id [] h agree = refl
live_members-agree alive s t id ((j, u) ∷ members) h agree =
    let (apart, absent) = not_first in
    ap₂ list_of (ap (live_endpoint alive) (agree j apart))
      (live_members-agree alive s t id members absent agree)
  where
    not_first : ((id == j) ≡ false) × (Map.find id members ≡ none)
    not_first = ground (arith, h)

-- One member, where the walk of the others is as it should be whatever sessions are left.
visit-recipients :
    (alive : Endpoint → Bool) (id : SessionId) (members : List (SessionId × Unit {0}))
    (r : SessionRegistry) (o : Option Endpoint)
    → ((q : SessionRegistry)
        → Map.Distinct q.sessions
        → (walk alive members q).recipients ≡ live_members alive q.sessions members)
    → Map.find id members ≡ none
    → Map.Distinct r.sessions
    → (visit alive id o (walk alive members) r).recipients
      ≡ list_of (live_endpoint alive o) (live_members alive r.sessions members)
unfolding visit drop_session keep_member
visit-recipients alive id members r none others absent s = others r s
visit-recipients alive id members r (some endpoint) others absent s =
    elim (Bool-cases (alive endpoint)) [
      | inl yes_alive ↦ rw yes_alive (ap (◌∷◌ endpoint) (others r s))
      | inr gone ↦ rw gone (
          others (drop_session id r) (Map.erase-Distinct id r.sessions s)
          ∙ live_members-agree alive (Map.erase id r.sessions) r.sessions id members absent erased)
    ]
  where
    erased :
        (j : SessionId)
        → (id == j) ≡ false
        → Map.find j (Map.erase id r.sessions) ≡ Map.find j r.sessions
    erased j e =
        Map.find-erase id j r.sessions s ∙ ap (λ b. if b then none else Map.find j r.sessions) e

walk-recipients :
    (alive : Endpoint → Bool) (members : List (SessionId × Unit {0})) (r : SessionRegistry)
    → Map.Distinct members
    → Map.Distinct r.sessions
    → (walk alive members r).recipients ≡ live_members alive r.sessions members
unfolding walk live_members
walk-recipients alive [] r d s = refl
walk-recipients alive ((id, u) ∷ members) r d s =
    visit-recipients alive id members r (Map.find id r.sessions)
      (λ q. walk-recipients alive members q (d.1)) (d.0) s

note_event-Distinct :
    (event : RoomEvent) (r : SessionRegistry)
    → Map.Distinct r.room_members
    → ((note_event event r).sessions ≡ r.sessions) × Map.Distinct (note_event event r).room_members
unfolding note_event
note_event-Distinct (player_joined_event id p) r d =
    (refl, Map.try_emplace-Distinct id tt r.room_members d)
note_event-Distinct (player_moved_event id p) r d = (refl, d)
note_event-Distinct (player_left_event id reason) r d =
    (refl, Map.erase-Distinct id r.room_members d)

-- The specification: whether a session is in a table of members, whether it hears of an event, and a
-- delivery to each endpoint.
unfoldable pub is_member : SessionId → List (SessionId × Unit {0}) → Bool
is_member k [] = false
is_member k ((j, u) ∷ members) = if j == k then true else is_member k members

unfoldable pub hears : RoomEvent → SessionId → Bool → Bool
hears (player_joined_event id p) k member = if id == k then true else member
hears (player_moved_event id p) k member = member
hears (player_left_event id reason) k member = if id == k then false else member

abbrev pub each_once : PacketBuffer → List Endpoint → List (Endpoint × SharedPacket)
each_once packet endpoints = map (λ endpoint. (endpoint, some packet)) endpoints

-- A table of the sessions that hear of the event, each once, and what they are sent.
pub record IsPublished (alive : Endpoint → Bool) (event : RoomEvent) (r : SessionRegistry)
    (sent : List (Endpoint × SharedPacket)) : Type 0 where
  pub heard : List (SessionId × Unit {0})
  pub one_time : Map.Distinct heard
  pub who : (k : SessionId) → is_member k heard ≡ hears event k (is_member k r.room_members)
  pub delivered : sent ≡ each_once (event_packet event) (live_members alive r.sessions heard)

is_member-find :
    (k : SessionId) (members : List (SessionId × Unit {0}))
    → is_member k members ≡ (elim (Map.find k members) [ none ↦ false | some u ↦ true ])
unfolding is_member Map.find
is_member-find k [] = refl
is_member-find k ((j, u) ∷ members) = ground (arith, is_member-find k members)

note_event-hears :
    (event : RoomEvent) (r : SessionRegistry) (k : SessionId)
    → Map.Distinct r.room_members
    → is_member k (note_event event r).room_members ≡ hears event k (is_member k r.room_members)
unfolding note_event hears Map.try_emplace is_member
note_event-hears (player_joined_event id p) r k d =
    ground (arith, is_member-find id r.room_members, is_member-find k r.room_members, same_key)
  where
    same_key : (id == k) ≡ true → is_member id r.room_members ≡ is_member k r.room_members
    same_key e = ap (λ j. is_member j r.room_members) (ground (arith, e))
note_event-hears (player_moved_event id p) r k d = refl
note_event-hears (player_left_event id reason) r k d = ground (
  arith,
  is_member-find k (Map.erase id r.room_members),
  is_member-find k r.room_members,
  Map.find-erase id k r.room_members d,
)

deliveries-each_once :
    (packet : PacketBuffer) (endpoints : List Endpoint)
    → deliveries (some packet) endpoints ≡ each_once packet endpoints
unfolding deliveries
deliveries-each_once packet [] = refl
deliveries-each_once packet (endpoint ∷ rest) =
    ap (◌∷◌ (endpoint, some packet)) (deliveries-each_once packet rest)

-- In a registry with one entry for each session and each member, publishing an event whose fields
-- are within their types makes exactly one delivery of the event's packet for each session that
-- hears of it and is registered with an endpoint that is alive, to that endpoint, and no other
-- delivery; the sessions that hear of an event are the members, with the one that joins and
-- without the one that leaves, each taken once.
pub publish-live_members :
    (e : Endian) (alive : Endpoint → Bool) (event : RoomEvent) (r : SessionRegistry)
    → IsEvent event
    → Map.Distinct r.sessions
    → Map.Distinct r.room_members
    → IsPublished alive event r (publish e alive event r).0
unfolding publish publish_encoded collect
publish-live_members e alive event r h s m =
    let noted = note_event event r in
    let (same, distinct) = note_event-Distinct event r m in
    let packet = event_packet event in
    record {
      heard = noted.room_members;
      one_time = distinct;
      who = λ k. note_event-hears event r k m;
      delivered =
          ap (λ x. (publish_encoded alive event x r).0)
            (read_view-encode_room_event e e event [] h tt).0
          ∙ deliveries-each_once packet (walk alive noted.room_members noted).recipients
          ∙ ap (each_once packet) (
              walk-recipients alive noted.room_members noted distinct (rw same s)
              ∙ ap (λ t. live_members alive t noted.room_members) same);
    }

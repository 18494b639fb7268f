-- ===== src/Network/EventEncoder/RoundTrip.antt =====
-- A client that decodes an encoded event gets the event.
use modern_cpp_room_server.Prelude.{
  ℕ, ◌^◌, ◌≤◌, ◌<◌, ◌≡◌, refl, ap, ◌∙◌, true, Option, none, some, List, ◌++◌, length, length-append,
  All, All-append, ok, err, Expected, arith, if◌then◌else◌, ◌==◌,
}
use modern_cpp_room_server.Prelude.Int.{IsInt32, bits_of_int32}
use modern_cpp_room_server.Protocol.Bytes.{Endian, IsByte}
use modern_cpp_room_server.Protocol.Bytes.Laws.{big_endian, length-big_endian, big_endian-IsByte}
use modern_cpp_room_server.Protocol.Packet.{
  PacketType, player_joined, player_moved, player_left, PacketView, DecodeError, decode_one,
  encode_packet, is_known,
}
use modern_cpp_room_server.Protocol.Packet.Fields.{wire_packet, encode_packet-wire_packet}
use modern_cpp_room_server.Protocol.Packet.RoundTrip.{packet_view, decode_one-encode_packet}
use modern_cpp_room_server.Protocol.Gameplay.{
  PlayerStatePayload, PlayerLeftPayload, GameplayPayloadError, decode_player_state_payload,
  decode_player_left_payload,
}
use modern_cpp_room_server.Protocol.Gameplay.RoundTrip.{
  player_state_bytes, player_left_bytes, decode_player_state_payload_lem,
  decode_player_left_payload_lem,
}
use modern_cpp_room_server.Room.Commands.{
  SessionId, GridPosition, RoomEvent, player_joined_event, player_moved_event, player_left_event,
  reason_code, reason_code-lt, DisconnectReason, left_room, client_closed, protocol_error, io_error,
  outbound_overflow, server_shutdown,
}
use modern_cpp_room_server.Network.OutboundQueue.{make_shared_packet}
use modern_cpp_room_server.Network.EventEncoder.{
  share_encoded, encode_player_state, encode_room_event,
}
use mathlib.Core.Option
use modern_cpp_room_server.Network.EventEncoder.Writes.{
  state_of, state_payload, left_of, left_payload,
}

-- What a client makes of a packet that tells of an event.
unfoldable pub reason_of : ℕ → Option DisconnectReason
reason_of n =
    if n == 1
    then some left_room
    else if n == 2
    then some client_closed
    else if n == 3
    then some protocol_error
    else if n == 4
    then some io_error
    else if n == 5
    then some outbound_overflow
    else if n == 6
    then some server_shutdown
    else none

unfoldable pub read_state :
    (SessionId → GridPosition → RoomEvent)
    → Expected GameplayPayloadError PlayerStatePayload
    → Option RoomEvent
read_state event (err x) = none
read_state event (ok p) = some (event p.session_id (record { x = p.x; y = p.y }))

unfoldable pub read_left : Expected GameplayPayloadError PlayerLeftPayload → Option RoomEvent
unfolding reason_of
read_left (err x) = none
read_left (ok p) = Option.map (player_left_event p.session_id) (reason_of p.reason)

unfoldable pub read_payload : PacketType → List ℕ → Option RoomEvent
unfolding read_state read_left
read_payload player_joined payload =
    read_state player_joined_event (decode_player_state_payload payload)
read_payload player_moved payload =
    read_state player_moved_event (decode_player_state_payload payload)
read_payload player_left payload = read_left (decode_player_left_payload payload)
read_payload _ payload = none

unfoldable pub read_view : Expected DecodeError PacketView → Option RoomEvent
unfolding read_payload
read_view (err x) = none
read_view (ok v) = read_payload v.header.type v.payload

-- The fields of the event are within their types.
abbrev pub IsEvent : RoomEvent → Type 0
IsEvent (player_joined_event id p) = (id < 2 ^ 64) × IsInt32 p.x × IsInt32 p.y
IsEvent (player_moved_event id p) = (id < 2 ^ 64) × IsInt32 p.x × IsInt32 p.y
IsEvent (player_left_event id reason) = id < 2 ^ 64

abbrev pub event_type : RoomEvent → PacketType
event_type (player_joined_event id p) = player_joined
event_type (player_moved_event id p) = player_moved
event_type (player_left_event id reason) = player_left

abbrev pub event_bytes : RoomEvent → List ℕ
event_bytes (player_joined_event id p) = player_state_bytes (state_of id p)
event_bytes (player_moved_event id p) = player_state_bytes (state_of id p)
event_bytes (player_left_event id reason) = player_left_bytes (left_of id reason)

encode_room_event-eq :
    (e : Endian) (event : RoomEvent)
    → encode_room_event e event
      ≡ share_encoded (encode_packet e (event_type event) (event_bytes event))
unfolding encode_room_event encode_player_state
encode_room_event-eq e (player_joined_event id p) =
    ap (λ t. share_encoded (encode_packet e player_joined t)) (state_payload id p)
encode_room_event-eq e (player_moved_event id p) =
    ap (λ t. share_encoded (encode_packet e player_moved t)) (state_payload id p)
encode_room_event-eq e (player_left_event id reason) =
    ap (λ t. share_encoded (encode_packet e player_left t)) (left_payload id reason)

reason_of-reason_code : (r : DisconnectReason) → reason_of (reason_code r) ≡ some r
unfolding reason_of reason_code
reason_of-reason_code left_room = refl
reason_of-reason_code _ = refl

pub read_payload-event_bytes :
    (event : RoomEvent)
    → IsEvent event
    → read_payload (event_type event) (event_bytes event) ≡ some event
unfolding read_payload read_state read_left
read_payload-event_bytes (player_joined_event id p) h =
    ap (read_state player_joined_event)
      (decode_player_state_payload_lem (state_of id p) h.0 h.1 h.2)
read_payload-event_bytes (player_moved_event id p) h =
    ap (read_state player_moved_event) (decode_player_state_payload_lem (state_of id p) h.0 h.1 h.2)
read_payload-event_bytes (player_left_event id reason) h =
    ap read_left (decode_player_left_payload_lem (left_of id reason) h (reason_code-lt reason))
    ∙ ap (Option.map (player_left_event id)) (reason_of-reason_code reason)

pub event_type-is_known : (event : RoomEvent) → is_known (event_type event) ≡ true
unfolding is_known
event_type-is_known (player_joined_event id p) = refl
event_type-is_known (player_moved_event id p) = refl
event_type-is_known (player_left_event id reason) = refl

state_bytes_fit :
    (p : PlayerStatePayload)
    → All IsByte (player_state_bytes p) × (length (player_state_bytes p) ≤ 16)
unfolding player_state_bytes
state_bytes_fit p =
    let xs = big_endian 4 (bits_of_int32 p.x) in
    let ys = big_endian 4 (bits_of_int32 p.y) in
    (
      All-append IsByte (big_endian 8 p.session_id) (xs ++ ys) (big_endian-IsByte 8 p.session_id) (
          All-append IsByte xs ys (big_endian-IsByte 4 (bits_of_int32 p.x))
            (big_endian-IsByte 4 (bits_of_int32 p.y))),
      omega (
        arith,
        length-append (big_endian 8 p.session_id) (xs ++ ys),
        length-append xs ys,
        length-big_endian 8 p.session_id,
        length-big_endian 4 (bits_of_int32 p.x),
        length-big_endian 4 (bits_of_int32 p.y),
      ),
    )

left_bytes_fit :
    (p : PlayerLeftPayload) → All IsByte (player_left_bytes p) × (length (player_left_bytes p) ≤ 16)
unfolding player_left_bytes
left_bytes_fit p = (
  All-append IsByte (big_endian 8 p.session_id) (big_endian 2 p.reason)
      (big_endian-IsByte 8 p.session_id) (big_endian-IsByte 2 p.reason),
  omega (
    arith,
    length-append (big_endian 8 p.session_id) (big_endian 2 p.reason),
    length-big_endian 8 p.session_id,
    length-big_endian 2 p.reason,
  ),
)

pub event_bytes_fit :
    (event : RoomEvent) → All IsByte (event_bytes event) × (length (event_bytes event) ≤ 16)
event_bytes_fit (player_joined_event id p) = state_bytes_fit (state_of id p)
event_bytes_fit (player_moved_event id p) = state_bytes_fit (state_of id p)
event_bytes_fit (player_left_event id reason) = left_bytes_fit (left_of id reason)

-- The packet of an event.
abbrev pub event_packet : RoomEvent → List ℕ
event_packet event = wire_packet (event_type event) (event_bytes event)

-- For an event whose session id is below 2^64 and whose coordinates are within std::int32_t,
-- encode_room_event on a machine of any byte order succeeds with the packet of the event, and a
-- client on a machine of any byte order that decodes that packet, with any bytes behind it, by
-- decode_one and the payload decoders gets the event.
pub read_view-encode_room_event :
    (e e' : Endian) (event : RoomEvent) (rest : List ℕ)
    → IsEvent event
    → All IsByte rest
    → (encode_room_event e event ≡ ok (some (event_packet event)))
      × (read_view (decode_one e' (event_packet event ++ rest)) ≡ some event)
unfolding share_encoded make_shared_packet read_view packet_view
read_view-encode_room_event e e' event rest h r =
    let type = event_type event in
    let payload = event_bytes event in
    let (bytes, size) = event_bytes_fit event in
    let encoded =
      encode_packet-wire_packet e type payload (omega (arith, size)) (event_type-is_known event) in
    let round =
      decode_one-encode_packet e e' type payload (wire_packet type payload) rest bytes r encoded in
    (
      encode_room_event-eq e event ∙ ap share_encoded encoded,
      ap read_view round.0 ∙ read_payload-event_bytes event h,
    )

-- ===== src/Network/EventEncoder/Stream.antt =====
-- A client that reads a stream of event packets.
use modern_cpp_room_server.Prelude.{
  ℕ, zero, suc, ◌≤◌, ◌≡◌, refl, ap, ap₂, ◌∙◌, Option, none, some, List, [], ◌∷◌, ◌++◌, length,
  length-append, drop, drop-append, All, All-append, Expected, ok, err, arith,
}
use modern_cpp_room_server.Protocol.Bytes.{IsByte, Endian}
use modern_cpp_room_server.Protocol.Packet.{PacketView, DecodeError, decode_one}
use modern_cpp_room_server.Protocol.Packet.Fields.{
  wire_packet, length-wire_packet, header_bytes, encode_packet-wire_packet,
}
use modern_cpp_room_server.Protocol.Packet.RoundTrip.{
  packet_view, header_bytes-IsByte, decode_one-encode_packet,
}
use modern_cpp_room_server.Room.Commands.{RoomEvent}
use modern_cpp_room_server.Network.EventEncoder.RoundTrip.{
  IsEvent, event_packet, event_type, event_bytes, event_bytes_fit, event_type-is_known,
  read_payload, read_payload-event_bytes,
}

-- The events at the front of the bytes; where a packet is not whole or is no event, the client stops.
abbrev pub event_before : Option RoomEvent → List RoomEvent → List RoomEvent
event_before none events = []
event_before (some event) events = event ∷ events

unfoldable pub read_next :
    (List ℕ → List RoomEvent) → List ℕ → Expected DecodeError PacketView → List RoomEvent
read_next others bytes (err error) = []
read_next others bytes (ok v) =
    event_before (read_payload v.header.type v.payload) (others (drop v.consumed_bytes bytes))

unfoldable pub read_events : Endian → ℕ → List ℕ → List RoomEvent
unfolding read_next
read_events e zero bytes = []
read_events e (suc fuel) bytes = read_next (read_events e fuel) bytes (decode_one e bytes)

-- The bytes of the packets of events, one after another.
abbrev pub event_stream : List RoomEvent → List ℕ
event_stream [] = []
event_stream (event ∷ events) = event_packet event ++ event_stream events

event_packet-IsByte : (event : RoomEvent) → All IsByte (event_packet event)
unfolding wire_packet
event_packet-IsByte event =
    All-append IsByte (header_bytes (event_type event) (length (event_bytes event)))
      (event_bytes event) (header_bytes-IsByte (event_type event) (length (event_bytes event)))
      (event_bytes_fit event).0

event_stream-IsByte : (events : List RoomEvent) → All IsByte (event_stream events)
event_stream-IsByte [] = tt
event_stream-IsByte (event ∷ events) =
    All-append IsByte (event_packet event) (event_stream events) (event_packet-IsByte event)
      (event_stream-IsByte events)

pub length-event_packet :
    (event : RoomEvent) → (6 ≤ length (event_packet event)) × (length (event_packet event) ≤ 22)
length-event_packet event =
    let size = length-wire_packet (event_type event) (event_bytes event) in
    (omega (arith, size), omega (arith, size, (event_bytes_fit event).1))

length-event_stream : (events : List RoomEvent) → length events ≤ length (event_stream events)
length-event_stream [] = omega arith
length-event_stream (event ∷ events) = omega (
  arith,
  length-append (event_packet event) (event_stream events),
  (length-event_packet event).0,
  length-event_stream events,
)

read_events-enough :
    (e : Endian) (fuel : ℕ) (events : List RoomEvent)
    → length events ≤ fuel
    → All IsEvent events
    → read_events e fuel (event_stream events) ≡ events
unfolding read_events packet_view decode_one
read_events-enough e zero [] few h = refl
read_events-enough e zero (event ∷ events) few h = absurd (omega arith)
read_events-enough e (suc fuel) [] few h = refl
read_events-enough e (suc fuel) (event ∷ events) few (fits, h) =
    let type = event_type event in
    let payload = event_bytes event in
    let packet = event_packet event in
    let rest = event_stream events in
    let (bytes, size) = event_bytes_fit event in
    let (decoded, consumed) =
      decode_one-encode_packet e e type payload packet rest bytes (event_stream-IsByte events) (
        encode_packet-wire_packet e type payload (omega (arith, size))
          (event_type-is_known event)) in
    ap (read_next (read_events e fuel) (packet ++ rest)) decoded
    ∙ ap₂ (λ x n. event_before x (read_events e fuel (drop n (packet ++ rest))))
        (read_payload-event_bytes event fits) consumed
    ∙ ap (λ t. event ∷ read_events e fuel t) (drop-append packet rest)
    ∙ ap (λ t. event ∷ t) (read_events-enough e fuel events (omega arith) h)

pub read_events-event_stream :
    (e : Endian) (events : List RoomEvent)
    → All IsEvent events
    → read_events e (length (event_stream events)) (event_stream events) ≡ events
read_events-event_stream e events h =
    read_events-enough e (length (event_stream events)) events (length-event_stream events) h

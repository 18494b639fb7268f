-- ===== src/Lib.antt =====
-- Verification of the C++ room server.
--
-- The server reads length-prefixed packets from TCP sessions, turns them into commands for one
-- room, applies them on one worker thread, and sends the room's events to the members. A session
-- appends what it reads to a receive buffer, decodes packets from it, submits commands to the
-- worker's queue, and writes packets from its outbound queue in batches; metrics count all of it.
--
-- Files and the code they model:
--
-- Prelude: Boolean tests, texts and decimal numbers (Text), wrap-around arithmetic of std::size_t
-- (add_size, sub_size, modulo 2^64), std::expected, lists, bit operations, std::int32_t, and
-- association lists for std::unordered_map.
-- Protocol/Bytes, Protocol/Packet: src/protocol/packet_codec.cpp. A byte is a number below 256 and
-- a buffer a list. The byte order of the machine (std::endian) is an argument, so memcpy and
-- std::byteswap are modelled and not assumed away. Bytes/Laws and Bytes/Digits have the laws of
-- the wire format, Packet/Fields, RoundTrip and Stream those of the frame.
-- Protocol/Gameplay: src/protocol/gameplay_payload.cpp, with the shift-and-mask readers and
-- writers (Reads, Writes) and the payloads (RoundTrip).
-- Network/ReceiveBuffer: src/network/receive_buffer.cpp. The storage vector is a list with a
-- capacity; how a vector grows is an argument with its laws (IsGrowth). Valid has the invariant,
-- Refines the bounded byte queue that it implements.
-- Network/OutboundQueue: src/network/outbound_queue.cpp. A shared packet is its bytes, or none for
-- the null pointer. Valid, Push and Batch.
-- Network/EventEncoder: src/network/room_event_encoder.cpp. Writes has what its shift-and-mask
-- writer writes, RoundTrip a client that reads an event, Stream one that reads many.
-- Network/Registry: src/network/session_registry.cpp. An endpoint is the number of its object;
-- which objects a weak pointer can lock is an argument. Publish has who receives an event, Tables
-- and Calls have the tables and the gauge of sessions after any calls.
-- Network/Session: src/network/session.cpp. The fields of the class, the room worker's queue of
-- commands that it shares, the handlers it has posted and the writer coroutines it has spawned.
-- Session has the synchronous functions; Session/Steps the loops, cut at each co_await, where what
-- the socket answers is an argument. Stop, Sound and Process have the lemmas, Reach the sessions
-- that any order of steps reaches, Packets the loop over received packets, LateJoin a packet that
-- is handled after a stop, Speaks the order of the commands that a session submits, Rejects the
-- packets that are against the protocol, Writes the writers of a session whose writes succeed,
-- Delivers the way of an event from its delivery to a client.
-- Network/Server: src/network/server.cpp and run_session of src/network/session.cpp: how a session
-- is created, registered and removed, and the accept loop. Ids, Keeps and Serve have the session
-- ids.
-- Main: src/main.cpp: the command line (std::from_chars included), the reporter of metrics and the
-- handlers that run when a coroutine ends. Arguments and Reports.
-- System: the room worker with the registry as its event handler, as src/main.cpp joins them.
-- Members and Steps.
-- Concurrency: include/mcrs/concurrency/closeable_queue.hpp. Each method holds the mutex and is
-- one step; a wait answers or is blocked.
-- Room/Commands, Room/State: include/mcrs/room/room_command.hpp, room_event.hpp and
-- src/room/room.cpp. Lookup and Snapshot compare the room to a partial function from sessions to
-- positions, and Mirror to what a client sees.
-- Room/Worker: src/room/room_worker.cpp. The thread is a sequence of rounds between which other
-- threads submit and stop; whether the event handler throws is an argument. Log, Drain and Stop.
-- Observability/Metrics: src/observability/server_metrics.cpp. A counter is a number modulo 2^64
-- and each atomic operation a function. History has the ring of closed sessions, Gauges the guard
-- objects. Observability/Snapshot and Observability/Json: snapshot and write_json of the same
-- file; Json/Reads and Json/RoundTrip read the text back.
-- The modules called Tests run the definitions and apply the theorems at concrete inputs.
--
-- Fuel: the loop of a session over its packets takes as much fuel as the buffer has bytes, since
-- each round that goes on consumes at least a header; stopping the worker takes one round for each
-- queued command and one more; a decimal number n is written with fuel n + 1, and a list of
-- sessions is read with as much fuel as the text has characters; a writer takes two steps for each
-- queued packet, a round and a write, and one more; a client reads packets with as much fuel as it
-- has bytes.
--
-- Simplified: asio::co_spawn may run a writer on the spot up to its first co_await, where the
-- model leaves it at the head of its loop, and its next step may come at once; a writer is left by
-- an exception at its async_write only, since what it does before allocates nothing and the
-- metrics are noexcept; allocations do not fail elsewhere; the worker counts the room as open
-- before its thread runs, where the code starts the thread first, which finds no command until the
-- constructor has returned, so that only the order of the counts differs.
--
-- Not modelled: Asio, the clock and the operating system, whose answers are arguments; the line
-- that announces the port; src/benchmark, a client that measures the server and is no part of it.
pub mod Prelude
pub mod Protocol
pub mod Network
pub mod Room
pub mod Concurrency
pub mod Observability
pub mod Main
pub mod System

-- ===== src/Network/Registry/Calls.antt =====
-- The tables after a published event, and after any calls.
use modern_cpp_room_server.Prelude.{
  ℕ, ◌+◌, ◌^◌, ◌≤◌, ◌<◌, ◌≡◌, Bool, false, Option, none, some, List, [], ◌∷◌, length, ◌==◌, if-both,
  ok, err, Expected, arith,
}
use modern_cpp_room_server.Prelude.Map
use modern_cpp_room_server.Protocol.Bytes.{Endian}
use modern_cpp_room_server.Protocol.Packet.{EncodeError}
use modern_cpp_room_server.Room.Commands.{SessionId, RoomEvent}
use modern_cpp_room_server.Observability.Metrics.{ServerMetrics, delivery_attempted}
use modern_cpp_room_server.Network.OutboundQueue.{SharedPacket}
use modern_cpp_room_server.Network.EventEncoder.{encode_room_event}
use modern_cpp_room_server.Network.Registry.{
  Endpoint, SessionRegistry, with_metrics, register_session, drop_session, unregister_session,
  note_event, Walk, keep_member, visit, walk, collect, attempt_all, publish, publish_encoded,
}
use modern_cpp_room_server.Network.Registry.Tables.{
  Shows, IsWithin, register_session-IsWithin, drop_session-IsWithin, unregister_session-IsWithin,
  note_event-IsWithin,
}

-- What the walk leaves: no member that was not there, each once.
pub record IsWalked (b : ℕ) (members : List (SessionId × Unit {0})) (w : Walk) : Type 0 where
  pub within : IsWithin b w.registry
  pub distinct : Map.Distinct w.kept
  pub no_new : (k : SessionId) → Map.find k members ≡ none → Map.find k w.kept ≡ none

unlisted :
    (k id : SessionId) (u : Unit {0}) (members : List (SessionId × Unit {0}))
    → Map.find k ((id, u) ∷ members) ≡ none
    → (Map.find k members ≡ none) × ((id == k) ≡ false)
unfolding Map.find
unlisted k id u members h = ground arith

visit-IsWalked :
    (alive : Endpoint → Bool) (b : ℕ) (id : SessionId) (u : Unit {0})
    (members : List (SessionId × Unit {0})) (o : Option Endpoint) (r : SessionRegistry)
    → b < 2 ^ 64
    → ((q : SessionRegistry) → IsWithin b q → IsWalked b members (walk alive members q))
    → Map.find id members ≡ none
    → IsWithin b r
    → IsWalked b ((id, u) ∷ members) (visit alive id o (walk alive members) r)
unfolding visit keep_member Map.find
visit-IsWalked alive b id u members none r h others absent w =
    let rest = others r w in
    record {
      within = rest.within;
      distinct = rest.distinct;
      no_new = λ k e. rest.no_new k (unlisted k id u members e).0;
    }
visit-IsWalked alive b id u members (some endpoint) r h others absent w =
    if-both (IsWalked b ((id, u) ∷ members)) (alive endpoint)
      (let rest = others r w in
        record {
          within = rest.within;
          distinct = (rest.no_new id absent, rest.distinct);
          no_new =
              λ k e. rw (unlisted k id u members e).1 (rest.no_new k (unlisted k id u members e).0);
        })
      (let rest = others (drop_session id r) (drop_session-IsWithin b id r h w) in
        record {
          within = rest.within;
          distinct = rest.distinct;
          no_new = λ k e. rest.no_new k (unlisted k id u members e).0;
        })

pub walk-IsWalked :
    (alive : Endpoint → Bool) (b : ℕ) (members : List (SessionId × Unit {0})) (r : SessionRegistry)
    → b < 2 ^ 64
    → Map.Distinct members
    → IsWithin b r
    → IsWalked b members (walk alive members r)
unfolding walk
walk-IsWalked alive b [] r h d w = record { within = w; distinct = tt; no_new = λ k e. e }
walk-IsWalked alive b ((id, u) ∷ members) r h (absent, d) w =
    visit-IsWalked alive b id u members (Map.find id r.sessions) r h
      (λ q. walk-IsWalked alive b members q h d) absent w

attempt_all-Shows :
    (endpoints : List Endpoint) (m : Option ServerMetrics) (n : ℕ)
    → Shows m n
    → Shows (attempt_all endpoints m) n
unfolding attempt_all with_metrics delivery_attempted
attempt_all-Shows [] m n g = g
attempt_all-Shows (endpoint ∷ rest) none n g = attempt_all-Shows rest none n g
attempt_all-Shows (endpoint ∷ rest) (some m) n g =
    attempt_all-Shows rest (some (delivery_attempted m)) n g

pub publish_encoded-IsWithin :
    (alive : Endpoint → Bool) (b : ℕ) (event : RoomEvent) (x : Expected EncodeError SharedPacket)
    (r : SessionRegistry)
    → b < 2 ^ 64
    → IsWithin b r
    → IsWithin b (publish_encoded alive event x r).1
unfolding publish_encoded collect
publish_encoded-IsWithin alive b event (err error) r h w = w
publish_encoded-IsWithin alive b event (ok packet) r h w =
    let noted = note_event event r in
    let before = note_event-IsWithin b event r w in
    let after = walk alive noted.room_members noted in
    let walked =
      walk-IsWalked alive b noted.room_members noted h before.proper.one_membership before in
    record {
      proper = record {
        one_endpoint = walked.within.proper.one_endpoint;
        one_membership = walked.distinct;
        gauge =
            attempt_all-Shows after.recipients after.registry.metrics
              (length after.registry.sessions) walked.within.proper.gauge;
      };
      few = walked.within.few;
    }

-- A call of the registry, with the endpoints that are alive when an event is published.
pub data Call : Type 0 where
  registers : SessionId → Endpoint → Call
  unregisters : SessionId → Call
  publishes : RoomEvent → (Endpoint → Bool) → Call

unfoldable pub call : Endian → Call → SessionRegistry → SessionRegistry
call e (registers id endpoint) r = (register_session id endpoint r).1
call e (unregisters id) r = unregister_session id r
call e (publishes event alive) r = (publish e alive event r).1

unfoldable pub call_all : Endian → List Call → SessionRegistry → SessionRegistry
unfolding call
call_all e [] r = r
call_all e (c ∷ calls) r = call_all e calls (call e c r)

pub wider : {b c : ℕ} {r : SessionRegistry} → b ≤ c → IsWithin b r → IsWithin c r
wider h w = record { proper = w.proper; few = omega (arith, w.few, h) }

call-IsWithin :
    (e : Endian) (b : ℕ) (c : Call) (r : SessionRegistry)
    → b + 1 < 2 ^ 64
    → IsWithin b r
    → IsWithin (b + 1) (call e c r)
unfolding call publish
call-IsWithin e b (registers id endpoint) r h w = register_session-IsWithin b id endpoint r h w
call-IsWithin e b (unregisters id) r h w =
    wider (omega arith) (unregister_session-IsWithin b id r (omega arith) w)
call-IsWithin e b (publishes event alive) r h w =
    wider (omega arith)
      (publish_encoded-IsWithin alive b event (encode_room_event e event) r (omega arith) w)

-- From a registry with one entry for each session and each member, whose metrics, where there are
-- any, count as many registered sessions as the table has, every sequence of registrations,
-- removals and published events with any endpoints alive leaves such a registry, with at most one
-- more session for each call, as long as that bound is below 2^64.
pub call_all-IsWithin :
    (e : Endian) (b : ℕ) (calls : List Call) (r : SessionRegistry)
    → b + length calls < 2 ^ 64
    → IsWithin b r
    → IsWithin (b + length calls) (call_all e calls r)
unfolding call_all
call_all-IsWithin e b [] r h w = wider (omega arith) w
call_all-IsWithin e b (c ∷ calls) r h w = wider (omega arith) (
    call_all-IsWithin e (b + 1) calls (call e c r) (omega arith)
      (call-IsWithin e b c r (omega arith) w))

-- ===== src/Network/Server/Serve.antt =====
-- A run of the server: accepted connections, sessions that end, events, and the metrics of others.
use modern_cpp_room_server.Prelude.{
  ℕ, suc, ◌+◌, ◌^◌, ◌≤◌, ◌<◌, ◌≡◌, refl, sym, subst, Bool, Option, none, some, List, [], ◌∷◌,
  length, All, if◌then◌else◌, ◌==◌, if-both, add_size, arith,
}
use modern_cpp_room_server.Prelude.Map
use modern_cpp_room_server.Protocol.Bytes.{Endian}
use modern_cpp_room_server.Room.Commands.{SessionId, RoomEvent}
use modern_cpp_room_server.Observability.Metrics.{ServerMetrics, SessionMetrics}
use modern_cpp_room_server.Network.EventEncoder.{encode_room_event}
use modern_cpp_room_server.Network.Registry.{Endpoint, SessionRegistry, publish}
use modern_cpp_room_server.Network.Server.{
  begin_session, end_session, Server, new_server, make_metrics, Accepted, operation_aborted,
  other_error, socket, spawned, on_accept, on_end, on_release, without,
}
use modern_cpp_room_server.Network.Server.Ids.{MetricsBelow, Knows, begin_session-IsBegun}
use modern_cpp_room_server.Network.Server.Keeps.{
  unregister_session-Knows, publish_encoded-Knows, retire_held-Below,
}

-- What happens to the server. `recounts` is any change of the metrics' counters by the worker, by the
-- registry or by sessions.
pub data Event : Type 0 where
  accepts : Accepted → Event
  ends : SessionId → Bool → Event
  releases : Option SessionMetrics → List (Option SessionMetrics) → Event
  publishes : RoomEvent → (Endpoint → Bool) → Event
  recounts : ServerMetrics → Event

unfoldable pub recount : ServerMetrics → Option ServerMetrics → Option ServerMetrics
recount counters none = none
recount counters (some m) = some (record counters { sessions = m.sessions })

unfoldable pub happen : Endian → Event → Server → Server
unfolding recount
happen e (accepts a) s = if s.accepting then on_accept a s else s
happen e (ends id thrown) s = on_end id thrown s
happen e (releases metrics rest) s = on_release metrics rest s
happen e (publishes event alive) s = record s { registry = (publish e alive event s.registry).1 }
happen e (recounts counters) s = record s {
  registry = record (s.registry) { metrics = recount counters s.registry.metrics };
}

unfoldable pub serve : Endian → List Event → Server → Server
unfolding happen
serve e [] s = s
serve e (event ∷ events) s = serve e events (happen e event s)

-- No id from the next one on was used, after at most `b` connections.
pub record IsGiven (b : ℕ) (s : Server) : Type 0 where
  pub few : s.next_session_id ≤ b + 1
  pub knows : Knows s.next_session_id s.registry
  pub unused : All (λ id. id < s.next_session_id) s.running

without-All :
    (n id : ℕ) (ids : List SessionId) → All (λ k. k < n) ids → All (λ k. k < n) (without id ids)
unfolding without
without-All n id [] h = tt
without-All n id (k ∷ ks) h =
    if-both (All (λ k. k < n)) (k == id) (h.1) (h.0, without-All n id ks (h.1))

suc-All : (n : ℕ) (ids : List SessionId) → All (λ k. k < n) ids → All (λ k. k < suc n) ids
suc-All n [] h = tt
suc-All n (k ∷ ks) h = (omega (arith, h.0), suc-All n ks (h.1))

-- What a connection brings: a session with a new number that runs and is registered.
pub record IsServed (endpoint : Endpoint) (s t : Server) : Type 0 where
  pub numbered : t.next_session_id ≡ suc s.next_session_id
  pub started : t.running ≡ s.next_session_id ∷ s.running
  pub new : All (λ id. id < s.next_session_id) s.running
  pub reachable : Map.find s.next_session_id t.registry.sessions ≡ some endpoint

next-id : (b n : ℕ) → n ≤ b + 1 → b + 2 < 2 ^ 64 → add_size n 1 ≡ suc n
next-id b n few h = ground arith

-- A connection is served, and the server stays one.
record Serves (b : ℕ) (endpoint : Endpoint) (s t : Server) : Type 0 where
  served : IsServed endpoint s t
  given : IsGiven (b + 1) t

on_accept-Serves :
    (b : ℕ) (endpoint : Endpoint) (s : Server)
    → b + 2 < 2 ^ 64
    → IsGiven b s
    → Serves b endpoint s (on_accept (socket endpoint) s)
unfolding on_accept spawned
on_accept-Serves b endpoint s h g =
    let id = s.next_session_id in
    let next = next-id b id g.few h in
    let x = begin_session id endpoint s.registry in
    let begun = begin_session-IsBegun id endpoint s.registry g.knows in
    subst
      (λ y.
        Serves b endpoint s (spawned id (record s { next_session_id = add_size id 1 }) (y, x.1)))
      (sym begun.begun)
      (record {
        served = record {
          numbered = next;
          started = refl;
          new = g.unused;
          reachable = begun.found;
        };
        given = record {
          few = omega (arith, next, g.few);
          knows = subst (λ n. Knows n x.1) (sym next) begun.knows;
          unused =
              subst (λ n. All (λ k. k < n) (id ∷ s.running)) (sym next)
                (omega arith, suc-All id s.running g.unused);
        };
      })

wider : {b : ℕ} {s : Server} → IsGiven b s → IsGiven (b + 1) s
wider g = record { few = omega (arith, g.few); knows = g.knows; unused = g.unused }

-- Another registry in which the same ids are known.
registry_IsGiven :
    (b : ℕ) (s : Server) (r : SessionRegistry)
    → IsGiven b s
    → Knows s.next_session_id r
    → IsGiven b (record s { registry = r })
registry_IsGiven b s r g k = record { few = g.few; knows = k; unused = g.unused }

recount-Below :
    (counters : ServerMetrics) (n : ℕ) (o : Option ServerMetrics)
    → MetricsBelow n o
    → MetricsBelow n (recount counters o)
unfolding recount
recount-Below counters n none h = h
recount-Below counters n (some m) h = h

on_accept-IsGiven :
    (b : ℕ) (a : Accepted) (s : Server)
    → b + 2 < 2 ^ 64
    → IsGiven b s
    → IsGiven (b + 1) (on_accept a s)
unfolding on_accept
on_accept-IsGiven b operation_aborted s h g =
    wider (record { few = g.few; knows = g.knows; unused = g.unused })
on_accept-IsGiven b other_error s h g =
    wider (record { few = g.few; knows = g.knows; unused = g.unused })
on_accept-IsGiven b (socket endpoint) s h g = (on_accept-Serves b endpoint s h g).given

happen-IsGiven :
    (e : Endian) (b : ℕ) (event : Event) (s : Server)
    → b + 2 < 2 ^ 64
    → IsGiven b s
    → IsGiven (b + 1) (happen e event s)
unfolding happen publish on_end end_session on_release
happen-IsGiven e b (accepts a) s h g =
    if-both (IsGiven (b + 1)) s.accepting (on_accept-IsGiven b a s h g) (wider g)
happen-IsGiven e b (ends id thrown) s h g = wider (record {
  few = g.few;
  knows = unregister_session-Knows s.next_session_id id s.registry g.knows;
  unused = without-All s.next_session_id id s.running g.unused;
})
happen-IsGiven e b (releases metrics rest) s h g = wider (record {
  few = g.few;
  knows = record {
    registered = g.knows.registered;
    counted = retire_held-Below metrics s.next_session_id s.registry.metrics g.knows.counted;
  };
  unused = g.unused;
})
happen-IsGiven e b (publishes event alive) s h g = wider (
    registry_IsGiven b s _ g (
      publish_encoded-Knows alive s.next_session_id event (encode_room_event e event) s.registry
        g.knows))
happen-IsGiven e b (recounts counters) s h g = wider (
    registry_IsGiven b s _ g (record {
      registered = g.knows.registered;
      counted = recount-Below counters s.next_session_id s.registry.metrics g.knows.counted;
    }))

serve-IsGiven :
    (e : Endian) (b : ℕ) (events : List Event) (s : Server)
    → b + length events + 1 < 2 ^ 64
    → IsGiven b s
    → IsGiven (b + length events) (serve e events s)
unfolding serve
serve-IsGiven e b [] s h g = subst (λ n. IsGiven n s) (omega arith) g
serve-IsGiven e b (event ∷ events) s h g =
    subst (λ n. IsGiven n (serve e events (happen e event s))) (omega arith)
      (serve-IsGiven e (b + 1) events (happen e event s) (omega arith)
        (happen-IsGiven e b event s (omega arith) g))

new_server-IsGiven : (interval : ℕ) → IsGiven 0 (new_server (make_metrics interval))
unfolding new_server
new_server-IsGiven interval = record {
  few = omega arith;
  knows = record { registered = tt; counted = if-both (MetricsBelow 1) (interval == 0) tt tt };
  unused = tt;
}

-- After any sequence of events on a new server, with or without metrics (connections and failures
-- of the accept loop, ends of sessions, releases of their metrics, published events, changes of
-- the metrics' counters), that has fewer than 2^64 - 2 events, the next accepted connection gets
-- the next session id, which is above the id of every running session; neither the metrics nor the
-- registry refuse it, so its session runs, registered under that id with its own endpoint.
pub serve-IsServed :
    (e : Endian) (interval : ℕ) (events : List Event) (endpoint : Endpoint)
    → length events + 2 < 2 ^ 64
    → let s = serve e events (new_server (make_metrics interval)) in
      IsServed endpoint s (on_accept (socket endpoint) s)
serve-IsServed e interval events endpoint h =
    let s = serve e events (new_server (make_metrics interval)) in
    (on_accept-Serves (0 + length events) endpoint s (omega arith) (
      serve-IsGiven e 0 events (new_server (make_metrics interval)) (omega arith)
        (new_server-IsGiven interval))).served

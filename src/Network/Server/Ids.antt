-- ===== src/Network/Server/Ids.antt =====
-- The session ids: each accepted connection gets a new one, and its session runs.
use modern_cpp_room_server.Prelude.{
  ℕ, suc, ◌<◌, ◌≡◌, refl, sym, subst, ap, Bool, true, false, Option, none, some, List, [], ◌∷◌, All,
  if◌then◌else◌, ◌==◌, if-both, ==_refl, ok, err, Expected, arith,
}
use modern_cpp_room_server.Prelude.Map
use modern_cpp_room_server.Room.Commands.{SessionId}
use modern_cpp_room_server.Observability.Metrics.{
  ServerMetrics, SessionMetrics, blank_snapshot, create_session, session_registered,
}
use modern_cpp_room_server.Network.Registry.{
  Endpoint, SessionRegistry, with_metrics, register_session,
}
use modern_cpp_room_server.Network.Server.{
  Begun, runs, after_register, after_create, begin_with, begin_session,
}

-- Every key is below `n`.
abbrev pub Below {ℓ} : {V : Type ℓ} → ℕ → List (ℕ × V) → Type 0
Below n [] = Unit {0}
Below n ((k, v) ∷ m) = (k < n) × Below n m

find-Below {ℓ} : {V : Type ℓ} (n : ℕ) (m : List (ℕ × V)) → Below n m → Map.find n m ≡ none
unfolding Map.find
find-Below n [] h = refl
find-Below n ((k, v) ∷ m) h = ground (arith, find-Below n m (h.1))

pub erase-Below {ℓ} :
    {V : Type ℓ} (n k : ℕ) (m : List (ℕ × V)) → Below n m → Below n (Map.erase k m)
unfolding Map.erase
erase-Below n k [] h = tt
erase-Below n k ((j, v) ∷ m) h = if-both (Below n) (j == k) (h.1) (h.0, erase-Below n k m (h.1))

suc-Below {ℓ} : {V : Type ℓ} (n : ℕ) (m : List (ℕ × V)) → Below n m → Below (suc n) m
suc-Below n [] h = tt
suc-Below n ((k, v) ∷ m) h = (omega (arith, h.0), suc-Below n m (h.1))

-- The ids of running sessions.
AllBelow : ℕ → List SessionId → Type 0
AllBelow n ids = All (λ id. id < n) ids

abbrev pub MetricsBelow : ℕ → Option ServerMetrics → Type 0
MetricsBelow n none = Unit {0}
MetricsBelow n (some m) = Below n m.sessions

-- The tables of the registry and of the metrics, and the running sessions, know only ids below `n`.
pub record Knows (n : ℕ) (r : SessionRegistry) : Type 0 where
  pub registered : Below n r.sessions
  pub counted : MetricsBelow n r.metrics

pub with_metrics-Below :
    (f : ServerMetrics → ServerMetrics) (n : ℕ) (o : Option ServerMetrics)
    → ((m : ServerMetrics) → (f m).sessions ≡ m.sessions)
    → MetricsBelow n o
    → MetricsBelow n (with_metrics f o)
unfolding with_metrics
with_metrics-Below f n none same h = tt
with_metrics-Below f n (some m) same h = subst (Below n) (sym (same m)) h

pub Knows-suc : (n : ℕ) (r : SessionRegistry) → Knows n r → Knows (suc n) r
Knows-suc n r h = record {
  registered = suc-Below n r.sessions h.registered;
  counted = metrics r.metrics h.counted;
}
  where
    metrics : (o : Option ServerMetrics) → MetricsBelow n o → MetricsBelow (suc n) o
    metrics none b = tt
    metrics (some m) b = suc-Below n m.sessions b

-- The session with the first unknown id began, and runs.
pub record IsBegun (n : ℕ) (endpoint : Endpoint) (x : Begun × SessionRegistry) : Type 0 where
  pub session : Option SessionMetrics
  pub begun : x.0 ≡ runs session
  pub knows : Knows (suc n) x.1
  pub found : Map.find n x.1.sessions ≡ some endpoint

-- The metrics may know the id already: the session was created there.
after_register-IsBegun :
    (n : ℕ) (endpoint : Endpoint) (session : Option SessionMetrics) (r : SessionRegistry)
    → Below n r.sessions
    → MetricsBelow (suc n) r.metrics
    → IsBegun n endpoint (after_register session (register_session n endpoint r))
unfolding after_register register_session Map.try_emplace Map.find session_registered
after_register-IsBegun n endpoint session r below counted =
    subst
      (λ o. IsBegun n endpoint (
        result
          (elim o [ none ↦ ((n, endpoint) ∷ r.sessions, true) | some w ↦ (r.sessions, false) ])))
      (sym (find-Below n r.sessions below))
      (record {
        session = session;
        begun = refl;
        knows = record {
          registered = (omega arith, suc-Below n r.sessions below);
          counted = with_metrics-Below session_registered (suc n) r.metrics (λ m. refl) counted;
        };
        found = ground (arith, ==_refl n);
      })
  where
    result : List (SessionId × Endpoint) × Bool → Begun × SessionRegistry
    result x = after_register session (
      x.1,
      record r {
        sessions = x.0;
        metrics = if x.1 then with_metrics session_registered r.metrics else r.metrics;
      },
    )

-- The metrics of a session with an unknown id.
abbrev fresh_session : ℕ → SessionMetrics
fresh_session n = record { tracked = true; gauges = record blank_snapshot { session_id = n } }

create_session-fresh :
    (n : ℕ) (m : ServerMetrics)
    → Below n m.sessions
    → create_session n m ≡ ok (fresh_session n, record m { sessions = (n, tt) ∷ m.sessions })
unfolding create_session Map.try_emplace
create_session-fresh n m below =
    ap (λ o. result (elim o [ none ↦ ((n, tt) ∷ m.sessions, true) | some w ↦ (m.sessions, false) ]))
      (find-Below n m.sessions below)
  where
    result : List (ℕ × Unit {0}) × Bool → Expected (Unit {0}) (SessionMetrics × ServerMetrics)
    result x = if x.1 then ok (fresh_session n, record m { sessions = x.0 }) else err tt

begin_with-IsBegun :
    (n : ℕ) (endpoint : Endpoint) (r : SessionRegistry) (o : Option ServerMetrics)
    → Below n r.sessions
    → r.metrics ≡ o
    → MetricsBelow n o
    → IsBegun n endpoint (begin_with n endpoint r o)
unfolding begin_with after_create
begin_with-IsBegun n endpoint r none below same counted =
    after_register-IsBegun n endpoint none r below (subst (MetricsBelow (suc n)) (sym same) tt)
begin_with-IsBegun n endpoint r (some m) below same counted =
    subst (λ x. IsBegun n endpoint (after_create n endpoint r x))
      (sym (create_session-fresh n m counted))
      (after_register-IsBegun n endpoint (some (fresh_session n))
        (record r { metrics = some (record m { sessions = (n, tt) ∷ m.sessions }) }) below
        (omega arith, suc-Below n m.sessions counted))

pub begin_session-IsBegun :
    (n : ℕ) (endpoint : Endpoint) (r : SessionRegistry)
    → Knows n r
    → IsBegun n endpoint (begin_session n endpoint r)
unfolding begin_session
begin_session-IsBegun n endpoint r h =
    begin_with-IsBegun n endpoint r r.metrics h.registered refl h.counted

-- ===== src/Network/Registry/Tables.antt =====
-- The tables of the registry, and the gauge of registered sessions, after any calls.
use modern_cpp_room_server.Prelude.{
  ℕ, suc, ◌+◌, ◌^◌, ◌≤◌, ◌<◌, ◌≡◌, sym, subst, Bool, Option, none, some, Option-cases, List, length,
  if◌then◌else◌, arith, inl, inr,
}
use modern_cpp_room_server.Prelude.Map
use modern_cpp_room_server.Room.Commands.{
  SessionId, RoomEvent, player_joined_event, player_moved_event, player_left_event,
}
use modern_cpp_room_server.Observability.Metrics.{
  ServerMetrics, session_registered, session_unregistered,
}
use modern_cpp_room_server.Network.Registry.{
  Endpoint, SessionRegistry, with_metrics, register_session, is_some, drop_session,
  unregister_session, note_event,
}

-- The gauge of the metrics, where there are any, shows `n` sessions.
abbrev pub Shows : Option ServerMetrics → ℕ → Type 0
Shows none n = Unit {0}
Shows (some m) n = m.registered_sessions ≡ n

pub record IsProper (r : SessionRegistry) : Type 0 where
  pub one_endpoint : Map.Distinct r.sessions
  pub one_membership : Map.Distinct r.room_members
  pub gauge : Shows r.metrics (length r.sessions)

more_Shows :
    (m : Option ServerMetrics) (n : ℕ)
    → n + 1 < 2 ^ 64
    → Shows m n
    → Shows (with_metrics session_registered m) (suc n)
unfolding with_metrics session_registered
more_Shows none n h g = tt
more_Shows (some m) n h g = omega (arith, g)

fewer_Shows :
    (m : Option ServerMetrics) (n : ℕ)
    → suc n < 2 ^ 64
    → Shows m (suc n)
    → Shows (with_metrics session_unregistered m) n
unfolding with_metrics session_unregistered
fewer_Shows none n h g = tt
fewer_Shows (some m) n h g = omega (arith, g)

-- A proper registry of at most `b` sessions.
pub record IsWithin (b : ℕ) (r : SessionRegistry) : Type 0 where
  pub proper : IsProper r
  pub few : length r.sessions ≤ b

pub register_session-IsWithin :
    (b : ℕ) (id : SessionId) (endpoint : Endpoint) (r : SessionRegistry)
    → b + 1 < 2 ^ 64
    → IsWithin b r
    → IsWithin (b + 1) (register_session id endpoint r).1
unfolding register_session
register_session-IsWithin b id endpoint r h w =
    elim (Map.try_emplace_cases id endpoint r.sessions) [
      | inl (absent, new) ↦
          subst (λ x. IsWithin (b + 1) (after x)) (sym new)
            (record {
              proper = record {
                one_endpoint = (absent, w.proper.one_endpoint);
                one_membership = w.proper.one_membership;
                gauge =
                    more_Shows r.metrics (length r.sessions) (omega (arith, w.few)) w.proper.gauge;
              };
              few = omega (arith, w.few);
            })
      | inr there ↦
          subst (λ x. IsWithin (b + 1) (after x)) (sym there)
            (record { proper = w.proper; few = omega (arith, w.few) })
    ]
  where
    after : List (SessionId × Endpoint) × Bool → SessionRegistry
    after x = record r {
      sessions = x.0;
      metrics = if x.1 then with_metrics session_registered r.metrics else r.metrics;
    }

pub drop_session-IsWithin :
    (b : ℕ) (id : SessionId) (r : SessionRegistry)
    → b < 2 ^ 64
    → IsWithin b r
    → IsWithin b (drop_session id r)
unfolding drop_session is_some
drop_session-IsWithin b id r h w = elim (Option-cases (Map.find id r.sessions)) [
  | inl absent ↦
      subst (λ x. IsWithin b (after (Map.erase id r.sessions) x)) (sym absent)
        (subst (λ m. IsWithin b (after m none)) (sym (Map.erase_absent id r.sessions absent)) w)
  | inr (endpoint, there) ↦
      let shorter = Map.length-erase id endpoint r.sessions there in
      subst (λ x. IsWithin b (after (Map.erase id r.sessions) x)) (sym there)
        (record {
          proper = record {
            one_endpoint = Map.erase-Distinct id r.sessions w.proper.one_endpoint;
            one_membership = w.proper.one_membership;
            gauge =
                fewer_Shows r.metrics (length (Map.erase id r.sessions))
                  (omega (arith, shorter, w.few))
                  (subst (Shows r.metrics) (sym shorter) w.proper.gauge);
          };
          few = omega (arith, shorter, w.few);
        })
]
  where
    after : List (SessionId × Endpoint) → Option Endpoint → SessionRegistry
    after m o = record r {
      sessions = m;
      metrics = if is_some o then with_metrics session_unregistered r.metrics else r.metrics;
    }

members_IsWithin :
    (b : ℕ) (members : List (SessionId × Unit {0})) (r : SessionRegistry)
    → Map.Distinct members
    → IsWithin b r
    → IsWithin b (record r { room_members = members })
members_IsWithin b members r d w = record {
  proper = record {
    one_endpoint = w.proper.one_endpoint;
    one_membership = d;
    gauge = w.proper.gauge;
  };
  few = w.few;
}

pub unregister_session-IsWithin :
    (b : ℕ) (id : SessionId) (r : SessionRegistry)
    → b < 2 ^ 64
    → IsWithin b r
    → IsWithin b (unregister_session id r)
unfolding unregister_session
unregister_session-IsWithin b id r h w =
    members_IsWithin b (Map.erase id r.room_members) (drop_session id r)
      (Map.erase-Distinct id r.room_members w.proper.one_membership)
      (drop_session-IsWithin b id r h w)

pub note_event-IsWithin :
    (b : ℕ) (event : RoomEvent) (r : SessionRegistry)
    → IsWithin b r
    → IsWithin b (note_event event r)
unfolding note_event
note_event-IsWithin b (player_joined_event id p) r w =
    members_IsWithin b (Map.try_emplace id tt r.room_members).0 r
      (Map.try_emplace-Distinct id tt r.room_members w.proper.one_membership) w
note_event-IsWithin b (player_moved_event id p) r w = w
note_event-IsWithin b (player_left_event id reason) r w =
    members_IsWithin b (Map.erase id r.room_members) r
      (Map.erase-Distinct id r.room_members w.proper.one_membership) w

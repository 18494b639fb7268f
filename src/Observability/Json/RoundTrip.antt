-- ===== src/Observability/Json/RoundTrip.antt =====
-- The reader of the whole line, and that it reads back each snapshot.
use mathlib.Core.List.{append_assoc}
use modern_cpp_room_server.Prelude.{
  ℕ, zero, suc, ◌≤◌, ◌<◌, ◌≡◌, refl, sym, ap, subst, ◌∙◌, Bool, true, false, Option, none, some,
  List, [], ◌∷◌, ◌++◌, length, length-append, All, ◌==◌, if◌then◌else◌, arith,
}
use modern_cpp_room_server.Prelude.Text.{codes, is_empty}
use modern_cpp_room_server.Observability.Metrics.{SessionSnapshot}
use modern_cpp_room_server.Observability.Snapshot.{ServerSnapshot}
use modern_cpp_room_server.Observability.Json.{
  write_fields, session_fields, write_session, write_sessions, server_fields, write_json,
}
use modern_cpp_room_server.Observability.Json.Reads.{
  bind, expect, expect-append, read_fields, labels, values_of, IsName, read_fields-write_fields,
  read_session, read_session-write_session,
}

abbrev at_end : List ℕ → Bool
at_end [] = true
at_end (c ∷ text) = c == b']'

-- The sessions up to the bracket that ends them.
unfoldable pub next_session :
    (List ℕ → Option (List SessionSnapshot × List ℕ))
    → Bool
    → List ℕ
    → Bool
    → Option (List SessionSnapshot × List ℕ)
unfolding expect read_session
next_session others first text true = some ([], text)
next_session others first text false =
    bind (expect (if first then [] else codes ",") text) (λ behind.
      bind (read_session behind) (λ (session, rest).
        bind (others rest) (λ (sessions, last). some (session ∷ sessions, last))))

unfoldable pub read_sessions : ℕ → Bool → List ℕ → Option (List SessionSnapshot × List ℕ)
unfolding next_session
read_sessions zero first text = none
read_sessions (suc fuel) first text =
    next_session (read_sessions fuel false) first text (at_end text)

-- More is written than there are sessions.
length-write_sessions :
    (first : Bool) (sessions : List SessionSnapshot)
    → length sessions ≤ length (write_sessions first sessions)
unfolding write_sessions write_session write_fields
length-write_sessions first [] = omega arith
length-write_sessions true (s ∷ sessions) = omega (
  arith,
  length-append (write_session s) (write_sessions false sessions),
  length-append (write_fields (session_fields s)) (codes "}"),
  length-write_sessions false sessions,
)
length-write_sessions false (s ∷ sessions) = omega (
  arith,
  length-append (write_session s) (write_sessions false sessions),
  length-append (write_fields (session_fields s)) (codes "}"),
  length-write_sessions false sessions,
)

not_at_end :
    (first : Bool) (s : SessionSnapshot) (rest : List ℕ)
    → at_end ((if first then [] else codes ",") ++ (write_session s ++ rest)) ≡ false
unfolding write_session write_fields
not_at_end true s rest = refl
not_at_end false s rest = refl

read_sessions_session :
    (fuel : ℕ) (first : Bool) (text behind rest last : List ℕ) (s : SessionSnapshot)
    (sessions : List SessionSnapshot)
    → at_end text ≡ false
    → expect (if first then [] else codes ",") text ≡ some behind
    → read_session behind ≡ some (s, rest)
    → read_sessions fuel false rest ≡ some (sessions, last)
    → read_sessions (suc fuel) first text ≡ some (s ∷ sessions, last)
unfolding read_sessions next_session
read_sessions_session fuel first text behind rest last s sessions more comma one others =
    ap (next_session (read_sessions fuel false) first text) more ∙ rw (comma, one, others) refl

read_sessions-write_sessions :
    (fuel : ℕ) (first : Bool) (sessions : List SessionSnapshot) (rest : List ℕ)
    → length sessions < fuel
    → let tail = codes "]" ++ rest in
      read_sessions fuel first (write_sessions first sessions ++ tail) ≡ some (sessions, tail)
unfolding read_sessions next_session write_sessions
read_sessions-write_sessions zero first sessions rest few = absurd (omega arith)
read_sessions-write_sessions (suc fuel) first [] rest few = refl
read_sessions-write_sessions (suc fuel) first (s ∷ sessions) rest few =
    let comma : List ℕ = if first then [] else codes "," in
    let tail = codes "]" ++ rest in
    let others = write_sessions false sessions in
    subst (λ text. read_sessions (suc fuel) first text ≡ some (s ∷ sessions, tail))
      (sym (
        append_assoc comma (write_session s ++ others) tail
        ∙ ap (λ t. comma ++ t) (append_assoc (write_session s) others tail)))
      (read_sessions_session fuel first (comma ++ (write_session s ++ (others ++ tail)))
        (write_session s ++ (others ++ tail)) (others ++ tail) tail s sessions
        (not_at_end first s (others ++ tail))
        (expect-append comma (write_session s ++ (others ++ tail)))
        (read_session-write_session s (others ++ tail))
        (read_sessions-write_sessions fuel false sessions rest (omega arith)))

read_sessions_whole :
    (sessions : List SessionSnapshot) (rest : List ℕ)
    → let text = write_sessions true sessions ++ (codes "]" ++ rest) in
      read_sessions (length text) true text ≡ some (sessions, codes "]" ++ rest)
read_sessions_whole sessions rest =
    let written = write_sessions true sessions in
    read_sessions-write_sessions (length (written ++ (codes "]" ++ rest))) true sessions rest (
      omega (arith, length-append written (codes "]" ++ rest), length-write_sessions true sessions))

abbrev server_of : List ℕ → List SessionSnapshot → List SessionSnapshot → Option ServerSnapshot
server_of
      (n1 ∷ n2 ∷ n3 ∷ n4 ∷ n5 ∷ n6 ∷ n7 ∷ n8 ∷ n9 ∷ n10 ∷ n11 ∷ n12 ∷ n13 ∷ n14 ∷ n15 ∷ n16 ∷ n17
        ∷ n18 ∷ n19 ∷ [])
      sessions closed =
    some (record {
      uptime_ms = n1;
      room_commands_processed = n2;
      room_commands_rejected = n3;
      event_delivery_failures = n4;
      broadcast_delivery_attempts = n5;
      write_batches_started = n6;
      write_batches_completed = n7;
      write_batches_failed = n8;
      write_batches_abandoned = n9;
      packets_batched = n10;
      max_batch_packets = n11;
      bytes_requested = n12;
      bytes_transferred = n13;
      post_handlers_abandoned = n14;
      outbound_overflow_closes = n15;
      registered_sessions = n16;
      active_rooms = n17;
      session_queue_peak_bytes = n18;
      closed_history_overwritten = n19;
      sessions = sessions;
      recent_closed_sessions = closed;
    })
server_of _ sessions closed = none

-- The keys of the counters, as the reader expects them.
abbrev server_labels : List (List ℕ)
server_labels = labels (codes ",") (
    codes "uptime_ms"
    ∷ codes "room_commands_processed"
    ∷ codes "room_commands_rejected"
    ∷ codes "event_delivery_failures"
    ∷ codes "broadcast_delivery_attempts"
    ∷ codes "write_batches_started"
    ∷ codes "write_batches_completed"
    ∷ codes "write_batches_failed"
    ∷ codes "write_batches_abandoned"
    ∷ codes "packets_batched"
    ∷ codes "max_batch_packets"
    ∷ codes "bytes_requested"
    ∷ codes "bytes_transferred"
    ∷ codes "post_handlers_abandoned"
    ∷ codes "outbound_overflow_closes"
    ∷ codes "registered_sessions"
    ∷ codes "active_rooms"
    ∷ codes "session_queue_peak_bytes"
    ∷ codes "closed_history_overwritten"
    ∷ [])

-- The whole line as a snapshot.
unfoldable pub read_json : List ℕ → Option ServerSnapshot
unfolding expect read_fields read_sessions
read_json text =
    bind (expect (codes "{\"type\":\"server_metrics\",\"scope\":\"process_lifetime\"") text)
      (λ counters. bind (read_fields server_labels counters) (λ (values, behind).
        bind (expect (codes ",\"sessions\":[") behind) (λ live.
          bind (read_sessions (length live) true live) (λ (sessions, between).
            bind (expect (codes "],\"recent_closed_sessions\":[") between) (λ past.
              bind (read_sessions (length past) true past) (λ (closed, last).
                bind (expect (codes "]}") last) (λ none_left.
                  if is_empty none_left then server_of values sessions closed else none)))))))

read_json_parts :
    (text counters behind live between past last none_left values : List ℕ)
    (sessions closed : List SessionSnapshot)
    → expect (codes "{\"type\":\"server_metrics\",\"scope\":\"process_lifetime\"") text
      ≡ some counters
    → read_fields server_labels counters ≡ some (values, behind)
    → expect (codes ",\"sessions\":[") behind ≡ some live
    → read_sessions (length live) true live ≡ some (sessions, between)
    → expect (codes "],\"recent_closed_sessions\":[") between ≡ some past
    → read_sessions (length past) true past ≡ some (closed, last)
    → expect (codes "]}") last ≡ some none_left
    → is_empty none_left ≡ true
    → read_json text ≡ server_of values sessions closed
unfolding read_json
read_json_parts text counters behind live between past last none_left values sessions closed a b c d
      e f g h =
    rw (a, b, c, d, e, f, g, h) refl

server_labels-IsName : All IsName server_labels
server_labels-IsName = ground arith

-- The reader gets every server snapshot from what `write_json` writes, with nothing left over.
pub read_json-write_json : (s : ServerSnapshot) → read_json (write_json s) ≡ some s
unfolding write_json
read_json-write_json s =
    let ending = codes "]}" in
    let past = write_sessions true s.recent_closed_sessions ++ ending in
    let between = codes "],\"recent_closed_sessions\":[" ++ past in
    let live = write_sessions true s.sessions ++ between in
    let behind = codes ",\"sessions\":[" ++ live in
    let counters = write_fields (server_fields s) ++ behind in
    read_json_parts
      (codes "{\"type\":\"server_metrics\",\"scope\":\"process_lifetime\"" ++ counters) counters
      behind live between past ending [] (values_of (server_fields s)) s.sessions
      s.recent_closed_sessions
      (expect-append (codes "{\"type\":\"server_metrics\",\"scope\":\"process_lifetime\"") counters)
      (read_fields-write_fields (server_fields s) behind server_labels-IsName refl)
      (expect-append (codes ",\"sessions\":[") live)
      (read_sessions_whole s.sessions (codes ",\"recent_closed_sessions\":[" ++ past))
      (expect-append (codes "],\"recent_closed_sessions\":[") past)
      (read_sessions_whole s.recent_closed_sessions (codes "}")) (expect-append ending []) refl

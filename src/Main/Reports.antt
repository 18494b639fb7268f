-- ===== src/Main/Reports.antt =====
-- The metrics that the server prints: each line reads back as the snapshot it was written from.
use mathlib.Core.List.{append_assoc, append-nil}
use modern_cpp_room_server.Prelude.{
  ℕ, ◌≡◌, refl, sym, ap, ap₂, ◌∙◌, Bool, true, false, some, List, [], ◌∷◌, ◌++◌, map, All,
  All-append, ◌==◌, if◌then◌else◌, if-both, arith,
}
use modern_cpp_room_server.Prelude.Text.{codes, decimal, decimal-IsDigit, IsDigit}
use modern_cpp_room_server.Observability.Metrics.{SessionSnapshot}
use modern_cpp_room_server.Observability.Snapshot.{ServerSnapshot}
use modern_cpp_room_server.Observability.Json.{
  write_fields, session_fields, write_session, write_sessions, server_fields, write_json,
}
use modern_cpp_room_server.Observability.Json.Reads.{names_of}
use modern_cpp_room_server.Observability.Json.RoundTrip.{read_json, read_json-write_json}
use modern_cpp_room_server.Main.{
  Text, Waited, operation_aborted, other_error, expired, Reporter, new_reporter, report_round,
  report_metrics,
}

-- The lines that a newline ends.
unfoldable pub first_line : ℕ → List Text → List Text
first_line c [] = []
first_line c (line ∷ lines) = (c ∷ line) ∷ lines

unfoldable pub lines : Text → List Text
unfolding first_line
lines [] = []
lines (c ∷ text) = if c == 10 then [] ∷ lines text else first_line c (lines text)

-- A character within a line.
abbrev InLine : ℕ → Type 0
InLine c = (c == 10) ≡ false

lines-append :
    (line rest : Text) → All InLine line → lines (line ++ (codes "\n" ++ rest)) ≡ line ∷ lines rest
unfolding lines first_line
lines-append [] rest h = refl
lines-append (c ∷ line) rest h = rw (h.0, lines-append line rest (h.1)) refl

decimal-InLine : (s : Text) → All IsDigit s → All InLine s
decimal-InLine [] h = tt
decimal-InLine (c ∷ s) h = (ground (arith, h.0), decimal-InLine s (h.1))

fields-InLine :
    (fields : List (Text × ℕ))
    → All (All InLine) (names_of fields)
    → All InLine (write_fields fields)
unfolding write_fields
fields-InLine [] h = tt
fields-InLine ((name, n) ∷ fields) h =
    All-append InLine name (decimal n ++ write_fields fields) (h.0) (
      All-append InLine (decimal n) (write_fields fields)
        (decimal-InLine (decimal n) (decimal-IsDigit n)) (fields-InLine fields (h.1)))

session-InLine : (s : SessionSnapshot) → All InLine (write_session s)
unfolding write_session
session-InLine s =
    All-append InLine (write_fields (session_fields s)) (codes "}")
      (fields-InLine (session_fields s) (ground arith)) (ground arith)

sessions-InLine : (first : Bool) (ss : List SessionSnapshot) → All InLine (write_sessions first ss)
unfolding write_sessions
sessions-InLine first [] = tt
sessions-InLine first (s ∷ ss) =
    All-append InLine (if first then [] else codes ",") (write_session s ++ write_sessions false ss)
      (if-both (All InLine) first tt (ground arith))
      (All-append InLine (write_session s) (write_sessions false ss) (session-InLine s)
        (sessions-InLine false ss))

json-InLine : (s : ServerSnapshot) → All InLine (write_json s)
unfolding write_json
json-InLine s =
    let ending : Text = codes "]}" in
    let past = write_sessions true s.recent_closed_sessions ++ ending in
    let between : Text = codes "],\"recent_closed_sessions\":[" in
    let live = write_sessions true s.sessions ++ (between ++ past) in
    let middle : Text = codes ",\"sessions\":[" in
    All-append InLine (codes "{\"type\":\"server_metrics\",\"scope\":\"process_lifetime\"")
      (write_fields (server_fields s) ++ (middle ++ live)) (ground arith)
      (All-append InLine (write_fields (server_fields s)) (middle ++ live)
        (fields-InLine (server_fields s) (ground arith))
        (All-append InLine middle live (ground arith) (
          All-append InLine (write_sessions true s.sessions) (between ++ past)
            (sessions-InLine true s.sessions)
            (All-append InLine between past (ground arith) (
              All-append InLine (write_sessions true s.recent_closed_sessions) ending
                (sessions-InLine true s.recent_closed_sessions) (ground arith))))))

-- The snapshots of the rounds before the first one whose wait fails.
unfoldable pub reported : List (Waited × ServerSnapshot) → List ServerSnapshot
reported [] = []
reported ((operation_aborted, snapshot) ∷ rounds) = []
reported ((other_error, snapshot) ∷ rounds) = []
reported ((expired, snapshot) ∷ rounds) = snapshot ∷ reported rounds

text_of : List ServerSnapshot → Text
text_of [] = []
text_of (s ∷ snapshots) = write_json s ++ (codes "\n" ++ text_of snapshots)

report_metrics-text_of :
    (rounds : List (Waited × ServerSnapshot)) (r : Reporter)
    → r.running ≡ true
    → (report_metrics rounds r).output ≡ r.output ++ text_of (reported rounds)
unfolding report_metrics report_round reported text_of
report_metrics-text_of [] r running = sym (append-nil r.output)
report_metrics-text_of ((operation_aborted, s) ∷ rounds) r running = sym (append-nil r.output)
report_metrics-text_of ((other_error, s) ∷ rounds) r running = sym (append-nil r.output)
report_metrics-text_of ((expired, s) ∷ rounds) r running =
    let rest = text_of (reported rounds) in
    let line = write_json s in
    let after = report_round expired s r in
    ap (λ b. Reporter.output (if b then report_metrics rounds after else after)) running
    ∙ report_metrics-text_of rounds after running
    ∙ append_assoc r.output (line ++ codes "\n") rest
    ∙ ap (λ t. r.output ++ t) (append_assoc line (codes "\n") rest)

lines-text_of :
    (snapshots : List ServerSnapshot) → lines (text_of snapshots) ≡ map write_json snapshots
unfolding text_of lines
lines-text_of [] = refl
lines-text_of (s ∷ snapshots) =
    lines-append (write_json s) (text_of snapshots) (json-InLine s)
    ∙ ap (λ t. write_json s ∷ t) (lines-text_of snapshots)

read_all :
    (snapshots : List ServerSnapshot)
    → map read_json (map write_json snapshots) ≡ map some snapshots
read_all [] = refl
read_all (s ∷ snapshots) = ap₂ ◌∷◌ (read_json-write_json s) (read_all snapshots)

-- For any waits of the timer and any snapshots, what report_metrics writes falls into lines of
-- which a reader with keys of its own, which asks for each key in quotes with a colon behind it
-- and for decimal numbers with a digit and without needless zeros, reads back, in order, exactly
-- the snapshots of the rounds before the first wait that failed, with every counter, every live
-- session and every closed one.
pub report_metrics-reported :
    (rounds : List (Waited × ServerSnapshot))
    → map read_json (lines (report_metrics rounds new_reporter).output) ≡ map some (reported rounds)
report_metrics-reported rounds =
    ap (λ t. map read_json (lines t)) (report_metrics-text_of rounds new_reporter refl)
    ∙ ap (map read_json) (lines-text_of (reported rounds))
    ∙ read_all (reported rounds)

-- ===== src/Main/Tests.antt =====
-- The command line and the metrics lines at concrete texts.
use modern_cpp_room_server.Prelude.{◌≡◌, refl, ◌↔◌, none, some, List, [], ◌∷◌, map}
use modern_cpp_room_server.Prelude.Text.{codes, span_digits}
use modern_cpp_room_server.Observability.Metrics.{fresh_metrics}
use modern_cpp_room_server.Observability.Snapshot.{ServerSnapshot, snapshot}
use modern_cpp_room_server.Observability.Json.RoundTrip.{read_json}
use modern_cpp_room_server.Main.{
  Text, Waited, operation_aborted, expired, new_reporter, report_metrics, from_chars, parse_port,
  parse_interval, read_arguments,
}
use modern_cpp_room_server.Main.Arguments.{IsCommandLine, read_arguments-IsCommandLine}
use modern_cpp_room_server.Main.Reports.{lines, reported, report_metrics-reported}

abbrev command_line : List Text
command_line = codes "mcrs_server" ∷ codes "9000" ∷ codes "0500" ∷ []

read_command_line : read_arguments command_line ≡ some (9000, 500)
unfolding read_arguments parse_port from_chars span_digits parse_interval
read_command_line = refl

port_zero : read_arguments (codes "mcrs_server" ∷ codes "0" ∷ []) ≡ none
unfolding read_arguments parse_port from_chars span_digits parse_interval
port_zero = refl

port_with_letter : read_arguments (codes "mcrs_server" ∷ codes "80a" ∷ []) ≡ none
unfolding read_arguments parse_port from_chars span_digits parse_interval
port_with_letter = refl

read_arguments-IsCommandLine_example :
    (read_arguments command_line ≡ some (9000, 500)) ↔ IsCommandLine command_line 9000 500
read_arguments-IsCommandLine_example = read_arguments-IsCommandLine command_line 9000 500

abbrev rounds : List (Waited × ServerSnapshot)
rounds =
    (expired, snapshot 500 (λ id. none) fresh_metrics)
    ∷ (operation_aborted, snapshot 700 (λ id. none) fresh_metrics)
    ∷ []

report_metrics-reported_example :
    map read_json (lines (report_metrics rounds new_reporter).output) ≡ map some (reported rounds)
report_metrics-reported_example = report_metrics-reported rounds

-- ===== src/Main.antt =====
-- src/main.cpp. A text is the list of its character codes. What the timer reports, and whether the
-- server's coroutine ends by an exception, are arguments.
pub mod Arguments
pub mod Reports
mod Tests
use modern_cpp_room_server.Prelude.{
  ℕ, zero, suc, ◌+◌, ◌-◌, ◌^◌, ◌≡◌, refl, Bool, true, false, not, ◌&&◌, ◌||◌, Option, none, some,
  List, [], ◌∷◌, ◌++◌, length, get_or, ltb, ◌==◌, if◌then◌else◌, Expected, ok, err,
}
use modern_cpp_room_server.Prelude.Text.{codes, span_digits, value, is_empty}
use modern_cpp_room_server.Observability.Metrics.{ServerMetrics, fresh_metrics}
use modern_cpp_room_server.Observability.Snapshot.{ServerSnapshot}
use modern_cpp_room_server.Observability.Json.{write_json}
use modern_cpp_room_server.Network.Server.{
  Server, new_server, make_metrics, Exception, std_exception, other_exception,
}

abbrev pub Text : Type 0
Text = List ℕ

abbrev pub default_port : ℕ
default_port = 7777

-- `std::errc`, as far as `std::from_chars` uses it.
pub data Errc : Type 0 where
  no_error invalid_argument result_out_of_range : Errc

-- The result of `std::from_chars`, with the text from `ptr` on and the value afterwards.
pub record Parsed : Type 0 where
  pub rest : Text
  pub error : Errc
  pub output : ℕ

-- `std::from_chars` for an unsigned type with the given largest value, in base 10. The value is
-- changed only on success.
unfoldable pub from_digits : ℕ → Text → ℕ → Text × Text → Parsed
from_digits largest text output (digits, rest) =
    if is_empty digits
    then record { rest = text; error = invalid_argument; output = output }
    else if ltb largest (value digits 0)
    then record { rest = rest; error = result_out_of_range; output = output }
    else record { rest = rest; error = no_error; output = value digits 0 }

unfoldable pub from_chars : ℕ → Text → ℕ → Parsed
unfolding from_digits
from_chars largest text output = from_digits largest text output (span_digits text)

abbrev pub is_error : Errc → Bool
is_error no_error = false
is_error _ = true

-- The result, and `output` afterwards.
unfoldable pub parse_port : Text → ℕ → Bool × ℕ
parse_port text output =
    let parsed = from_chars (2 ^ 32 - 1) text 0 in
    if is_error parsed.error
      || not (is_empty parsed.rest)
      || (parsed.output == 0)
      || ltb 65535 parsed.output
    then (false, output)
    else (true, parsed.output)

unfoldable pub parse_interval : Text → ℕ → Bool × ℕ
parse_interval text output =
    let parsed = from_chars (2 ^ 32 - 1) text output in
    (
      not (is_error parsed.error) && is_empty parsed.rest && not (ltb 60000 parsed.output),
      parsed.output,
    )

-- The start of `main`: the port and the interval, or none where it prints the usage and returns 1.
unfoldable pub read_port : List Text → Bool × ℕ
read_port argv =
    if ltb (length argv) 2 then (true, default_port) else parse_port (get_or argv 1 []) default_port

unfoldable pub read_interval : List Text → Bool × ℕ
read_interval argv = if length argv == 3 then parse_interval (get_or argv 2 []) 0 else (true, 0)

unfoldable pub read_arguments : List Text → Option (ℕ × ℕ)
unfolding read_port read_interval
read_arguments argv =
    let (port_read, port) = read_port argv in
    let (interval_read, interval) = read_interval argv in
    if ltb 3 (length argv) || not port_read || not interval_read
    then none
    else some (port, interval)

-- What a wait for the timer of `report_metrics` ends with.
pub data Waited : Type 0 where
  operation_aborted other_error expired : Waited

-- The coroutine `report_metrics`, with what went to the output stream.
pub record Reporter : Type 0 where
  pub running : Bool
  pub failed : Bool
  pub output : Text

abbrev pub new_reporter : Reporter
new_reporter = record { running = true; failed = false; output = [] }

-- One round of its loop, with the snapshot of that moment.
unfoldable pub report_round : Waited → ServerSnapshot → Reporter → Reporter
report_round operation_aborted snapshot r = record r { running = false }
report_round other_error snapshot r = record r { running = false; failed = true }
report_round expired snapshot r = record r {
  output = r.output ++ (write_json snapshot ++ codes "\n");
}

-- The rounds of `report_metrics` until it returns, each with what the wait brings and the snapshot.
unfoldable pub report_metrics : List (Waited × ServerSnapshot) → Reporter → Reporter
unfolding report_round
report_metrics [] r = r
report_metrics ((waited, snapshot) ∷ rounds) r =
    let after = report_round waited snapshot r in
    let last = report_metrics rounds after in if after.running then last else after

-- What `main` keeps while the context runs: its flag, the timer, what goes to the error stream, and
-- the coroutines that it has spawned.
pub record Process : Type 0 where
  pub server_failed : Bool
  pub timer_cancelled : Bool
  pub errors : Text
  pub reporter : Option Reporter
  pub server : Server

abbrev pub usage : Text
usage = codes "usage: mcrs_server [port] [metrics_interval_ms: 0..60000; 0 disables]\n"

-- `main` until the context runs: the usage where it returns 1, or the port and the process.
unfoldable pub start_with : Option (ℕ × ℕ) → Expected Text (ℕ × Process)
start_with none = err usage
start_with (some (port, metrics_interval_ms)) = ok (
  port,
  record {
    server_failed = false;
    timer_cancelled = false;
    errors = [];
    reporter = if metrics_interval_ms == 0 then none else some new_reporter;
    server = new_server (make_metrics metrics_interval_ms);
  },
)

unfoldable pub start : List Text → Expected Text (ℕ × Process)
unfolding start_with
start argv = start_with (read_arguments argv)

-- The completion handler of `run_server`.
unfoldable pub report_server : Exception → Text
report_server (std_exception what) = codes "server stopped by exception: " ++ what ++ codes "\n"
report_server other_exception = codes "server stopped by an unknown exception\n"

-- The handler holds the timer where there is a reporter.
unfoldable pub has_timer : Option Reporter → Bool
has_timer none = false
has_timer (some r) = true

unfoldable pub server_completed : Option Exception → Process → Process
unfolding report_server has_timer
server_completed exception p =
    let cancelled = if has_timer p.reporter then record p { timer_cancelled = true } else p in
    elim exception [
      | none ↦ cancelled
      | some thrown ↦ record cancelled {
        server_failed = true;
        errors = p.errors ++ report_server thrown;
      }
    ]

-- The completion handler of `report_metrics`.
unfoldable pub reporter_completed : Option Exception → Process → Process
reporter_completed none p = p
reporter_completed (some thrown) p = record p {
  errors = p.errors ++ codes "metrics reporter stopped by exception\n";
}

-- What `main` returns after the context has run and the worker has stopped.
unfoldable pub exit_status : Process → ℕ
exit_status p = if p.server_failed then 1 else 0

-- ===== src/Room/Worker/Stop.antt =====
-- `stop`: it handles all that was accepted before, reports it, and does so once.
use modern_cpp_room_server.Prelude.{
  ℕ, suc, ◌%◌, ◌^◌, length, ◌≡◌, refl, sym, ap, subst, ◌∙◌, Bool, true, false, Option, none, List,
  [], ◌∷◌, ◌++◌, map, arith,
}
use mathlib.Core.List.{append-nil, append_assoc}
use modern_cpp_room_server.Concurrency.{size, pop_front, has_values, wait_pop, close}
use modern_cpp_room_server.Room.Commands.{RoomCommand}
use modern_cpp_room_server.Room.State.{empty_room, snapshot}
use modern_cpp_room_server.Room.State.Mirror.{apply_all}
use modern_cpp_room_server.Observability.Metrics.{ServerMetrics}
use modern_cpp_room_server.Room.Worker.{
  RoomWorkerSummary, RoomWorker, handle_command, ends, goes_on, round_of, run_round, run, run_after,
  summarise, stop, stop_from, close_commands, request_stop,
}
use modern_cpp_room_server.Room.Worker.Log.{
  Log, command_of, handle_command-Keeps, rejections, failures,
}
use modern_cpp_room_server.Room.Worker.Drain.{
  Reach, closes, asks, handles, leaves, Reach-in_order, Reach-counts,
}

run_round-nil :
    (throws : Bool) (w : RoomWorker)
    → w.commands.values ≡ []
    → w.commands.is_closed ≡ true
    → run_round throws w ≡ ends (record w { finished = true })
unfolding run_round round_of wait_pop pop_front has_values
run_round-nil throws w e c = ground arith

run_round-cons :
    (throws : Bool) (w : RoomWorker) (c : RoomCommand) (cs : List RoomCommand)
    → w.commands.values ≡ c ∷ cs
    → run_round throws w
      ≡ goes_on c
          (handle_command throws (record w { commands = record (w.commands) { values = cs } }) c)
unfolding run_round round_of wait_pop pop_front has_values
run_round-cons throws w c cs e = ground arith

-- The queued commands with what their handlers do, where `throws` tells it by the number of commands
-- that are queued when one is taken.
unfoldable pub flagged : (ℕ → Bool) → List RoomCommand → Log
flagged throws [] = []
flagged throws (c ∷ queued) = (c, throws (suc (length queued))) ∷ flagged throws queued

-- The states that a thread ends in, when it has handled all that was accepted.
record Drained (h : Bool) (m : Option ServerMetrics) (cs : List RoomCommand) (log : Log)
    (v : RoomWorker) : Type 0 where
  reached : Reach h m cs log v
  over : v.finished ≡ true

run-drains :
    {h : Bool} {m : Option ServerMetrics} {cs : List RoomCommand} {log : Log} (throws : ℕ → Bool)
    (w : RoomWorker) (queued : List RoomCommand)
    → Reach h m cs log w
    → w.commands.values ≡ queued
    → w.commands.is_closed ≡ true
    → w.finished ≡ false
    → Drained h m cs (log ++ flagged throws queued) (run throws (suc (length queued)) w)
unfolding run run_after flagged
run-drains {h} {m} {cs} {log} throws w [] r e c f =
    let round = run_round-nil (throws 0) w e c in
    subst (λ l. Drained h m cs l (run throws 1 w)) (sym (append-nil log))
      (subst (λ x. Drained h m cs log (run_after (run throws 0) w x)) (sym round)
        (record { reached = leaves (throws 0) r f round; over = refl }))
run-drains {h} {m} {cs} {log} throws w (d ∷ queued) r e c f =
    let b = throws (suc (length queued)) in
    let popped : RoomWorker = record w { commands = record (w.commands) { values = queued } } in
    let round = run_round-cons b w d queued e in
    let keeps = handle_command-Keeps b popped d in
    let all = log ++ ((d, b) ∷ flagged throws queued) in
    subst (λ x. Drained h m cs all (run_after (run throws (suc (length queued))) w x)) (sym round)
      (subst (λ l. Drained h m cs l (run throws (suc (length queued)) (handle_command b popped d)))
        (append_assoc log ((d, b) ∷ []) (flagged throws queued))
        (run-drains throws (handle_command b popped d) queued (handles d b r f round)
          (ap (λ q. q.values) keeps.commands_kept) (ap (λ q. q.is_closed) keeps.commands_kept ∙ c)
          (keeps.finished_kept ∙ f)))

-- What `stop` leaves when `cs` are the commands that were accepted, and the log is what the worker has
-- handled: the thread has ended, and the summary tells of the log.
pub record Reports (h : Bool) (cs : List RoomCommand) (log : Log)
    (r : RoomWorkerSummary × RoomWorker) : Type 0 where
  pub ended : r.1.finished ≡ true
  pub all_handled : map command_of log ≡ cs
  pub players_are : r.0.players ≡ snapshot (apply_all empty_room cs).1
  pub processed_are : r.0.processed_commands ≡ length cs % 2 ^ 64
  pub rejected_are : r.0.rejected_commands ≡ rejections empty_room log % 2 ^ 64
  pub failures_are : r.0.event_delivery_failures ≡ failures h empty_room log % 2 ^ 64

summarise-Reports :
    {h : Bool} {m : Option ServerMetrics} {cs : List RoomCommand} {log : Log} (v : RoomWorker)
    → Drained h m cs log v
    → Reports h cs log (summarise v)
unfolding summarise
summarise-Reports {h} {m} {cs} {log} v d =
    let order = Reach-in_order d.reached in
    let counts = Reach-counts d.reached in
    let all : cs ≡ map command_of log = order.2 d.over in
    record {
      ended = d.over;
      all_handled = sym all;
      players_are = ap snapshot (order.1 ∙ ap (λ xs. (apply_all empty_room xs).1) (sym all));
      processed_are = counts.0 ∙ ap (λ n. n % 2 ^ 64) (sym (ap length all ∙ length_map log));
      rejected_are = counts.1;
      failures_are = counts.2;
    }
  where
    length_map : (log : Log) → length (map command_of log) ≡ length log
    length_map [] = refl
    length_map (x ∷ log) = ap suc (length_map log)

-- From every reachable state in which the thread runs and no summary was made, stop, when no other
-- thread submits while it joins, comes to an end, with the thread ended too, after one round for
-- each queued command and one more; what it has handled by then is what it had handled before,
-- followed by the queued commands, for each of which the environment says whether its handler
-- throws, and these are exactly the accepted commands in order; the summary is that of a room to
-- which they were applied, with the counts of the commands, of those the room refused and of those
-- whose handler threw; a second stop returns the same summary and changes nothing.
pub stop-Reports :
    {h : Bool} {m : Option ServerMetrics} {cs : List RoomCommand} {log : Log} {w : RoomWorker}
    (throws again : ℕ → Bool)
    → Reach h m cs log w
    → w.finished ≡ false
    → w.stopped_summary ≡ none
    → Reports h cs (log ++ flagged throws w.commands.values) (stop throws w)
      × (stop again (stop throws w).1 ≡ stop throws w)
unfolding stop stop_from summarise size close_commands request_stop close
stop-Reports {h} {m} {cs} {log} {w} throws again r f e =
    let stopping = request_stop (close_commands w) in
    let all = log ++ flagged throws w.commands.values in
    subst
      (λ o.
        Reports h cs all (stop_from throws w o)
        × (stop_from again (stop_from throws w o).1 (stop_from throws w o).1.stopped_summary
            ≡ stop_from throws w o))
      (sym e)
      (
        summarise-Reports (run throws (suc (size stopping.commands)) stopping) (
            run-drains throws stopping stopping.commands.values (asks (closes r) refl) refl refl f),
        refl,
      )

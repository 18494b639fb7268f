-- ===== src/Room/Worker/Drain.antt =====
-- The worker with other threads: commands are submitted, and `stop` is called, between any two rounds.
use modern_cpp_room_server.Prelude.{
  ◌%◌, ◌^◌, length, ◌≡◌, subst, refl, sym, ap, ◌∙◌, Bool, true, false, Option, List, [], ◌∷◌, ◌++◌,
  map, ok, err, arith, ◌⊎◌, inl, inr,
}
use mathlib.Core.List.{append_assoc, append-nil}
use modern_cpp_room_server.Concurrency.{
  QueuePushError, new_queue, push, pop_front, has_values, wait_pop, close,
}
use modern_cpp_room_server.Room.Commands.{RoomCommand}
use modern_cpp_room_server.Room.State.{empty_room}
use modern_cpp_room_server.Room.State.Mirror.{apply_all}
use modern_cpp_room_server.Observability.Metrics.{ServerMetrics}
use modern_cpp_room_server.Room.Worker.{
  RoomWorker, new, submit, handle_command, ends, goes_on, round_of, run_round, close_commands,
  request_stop,
}
use modern_cpp_room_server.Room.Worker.Log.{
  Log, command_of, HasHandled, handle_command-Keeps, handle_command-HasHandled, rejections,
  failures,
}

-- `Reach h m accepted log w`: after some steps of any threads, `submit` has accepted the commands
-- `accepted`, the worker has handled the `log`, and its state is `w`. `stop` closes the queue before it
-- requests the stop.
pub data Reach (h : Bool) (m : Option ServerMetrics)
    : List RoomCommand → Log → RoomWorker → Type 0 where
  starts : Reach h m [] [] (new h m)
  accepts :
      {cs : List RoomCommand} {log : Log} {w v : RoomWorker} (c : RoomCommand)
      → Reach h m cs log w
      → submit w c ≡ (ok tt, v)
      → Reach h m (cs ++ (c ∷ [])) log v
  refuses :
      {cs : List RoomCommand} {log : Log} {w v : RoomWorker} {e : QueuePushError} (c : RoomCommand)
      → Reach h m cs log w
      → submit w c ≡ (err e, v)
      → Reach h m cs log v
  handles :
      {cs : List RoomCommand} {log : Log} {w v : RoomWorker} (c : RoomCommand) (throws : Bool)
      → Reach h m cs log w
      → w.finished ≡ false
      → run_round throws w ≡ goes_on c v
      → Reach h m cs (log ++ ((c, throws) ∷ [])) v
  leaves :
      {cs : List RoomCommand} {log : Log} {w v : RoomWorker} (throws : Bool)
      → Reach h m cs log w
      → w.finished ≡ false
      → run_round throws w ≡ ends v
      → Reach h m cs log v
  closes :
      {cs : List RoomCommand} {log : Log} {w : RoomWorker}
      → Reach h m cs log w
      → Reach h m cs log (close_commands w)
  asks :
      {cs : List RoomCommand} {log : Log} {w : RoomWorker}
      → Reach h m cs log w
      → w.commands.is_closed ≡ true
      → Reach h m cs log (request_stop w)

-- What holds of every reachable state.
pub record IsOrdered (h : Bool) (accepted : List RoomCommand) (log : Log) (w : RoomWorker)
    : Type 0 where
  pub in_order : accepted ≡ map command_of log ++ w.commands.values
  pub handled : HasHandled log w
  pub handler : w.has_handler ≡ h
  pub stops_closed : w.stop_requested ≡ true → w.commands.is_closed ≡ true
  pub ends_empty : w.finished ≡ true → (w.commands.is_closed ≡ true) × (w.commands.values ≡ [])

pub run_round-goes_on :
    (throws : Bool) (w v : RoomWorker) (c : RoomCommand)
    → run_round throws w ≡ goes_on c v
    → (cs : List RoomCommand) × (w.commands.values ≡ c ∷ cs)
      × (v ≡ handle_command throws (record w { commands = record (w.commands) { values = cs } }) c)
unfolding run_round round_of wait_pop pop_front has_values
run_round-goes_on throws w v c e = ground arith

pub run_round-ends :
    (throws : Bool) (w v : RoomWorker)
    → run_round throws w ≡ ends v
    → (w.commands.values ≡ [])
      × ((w.stop_requested ≡ true) ⊎ (w.commands.is_closed ≡ true))
      × (v ≡ record w { finished = true })
unfolding run_round round_of wait_pop pop_front has_values
run_round-ends throws w v e = ground arith

submit-ok :
    (w v : RoomWorker) (c : RoomCommand)
    → submit w c ≡ (ok tt, v)
    → (w.commands.is_closed ≡ false)
      × (v ≡ record w { commands = record (w.commands) { values = w.commands.values ++ (c ∷ []) } })
unfolding submit push
submit-ok w v c e = ground arith

submit-err :
    (w v : RoomWorker) (c : RoomCommand) (x : QueuePushError) → submit w c ≡ (err x, v) → v ≡ w
unfolding submit push
submit-err w v c x e = ground arith

IsOrdered-new : (h : Bool) (m : Option ServerMetrics) → IsOrdered h [] [] (new h m)
unfolding new new_queue rejections failures apply_all
IsOrdered-new h m = record {
  in_order = refl;
  handled = record { room_is = refl; processed_is = refl; rejected_is = refl; failures_are = refl };
  handler = refl;
  stops_closed = λ e. ground arith;
  ends_empty = λ e. ground arith;
}

handled_as :
    {log : Log} {v w : RoomWorker}
    → HasHandled log w
    → v.room ≡ w.room
    → v.processed_commands ≡ w.processed_commands
    → v.rejected_commands ≡ w.rejected_commands
    → v.event_delivery_failures ≡ w.event_delivery_failures
    → v.has_handler ≡ w.has_handler
    → HasHandled log v
handled_as h a b c d e = record {
  room_is = a ∙ h.room_is;
  processed_is = b ∙ h.processed_is;
  rejected_is = c ∙ h.rejected_is;
  failures_are = rw e (d ∙ h.failures_are);
}

IsOrdered-accepts :
    {h : Bool} {cs : List RoomCommand} {log : Log} {w v : RoomWorker} (c : RoomCommand)
    → IsOrdered h cs log w
    → submit w c ≡ (ok tt, v)
    → IsOrdered h (cs ++ (c ∷ [])) log v
IsOrdered-accepts {h} {cs} {log} {w} {v} c o e =
    let (not_closed, v_is) = submit-ok w v c e in
    subst (IsOrdered h (cs ++ (c ∷ [])) log) (sym v_is) (record {
      in_order =
          ap (λ xs. xs ++ (c ∷ [])) o.in_order
          ∙ append_assoc (map command_of log) w.commands.values (c ∷ []);
      handled = handled_as o.handled refl refl refl refl refl;
      handler = o.handler;
      stops_closed = o.stops_closed;
      ends_empty = λ f. ground (arith, o.ends_empty f, not_closed);
    })

map-snoc :
    (log : Log) (x : RoomCommand × Bool) (cs : List RoomCommand)
    → map command_of (log ++ (x ∷ [])) ++ cs ≡ map command_of log ++ (command_of x ∷ cs)
map-snoc [] x cs = refl
map-snoc (y ∷ log) x cs = ap (◌∷◌ (command_of y)) (map-snoc log x cs)

IsOrdered-handles :
    {h : Bool} {cs : List RoomCommand} {log : Log} {w v : RoomWorker} (c : RoomCommand)
    (throws : Bool)
    → IsOrdered h cs log w
    → w.finished ≡ false
    → run_round throws w ≡ goes_on c v
    → IsOrdered h cs (log ++ ((c, throws) ∷ [])) v
IsOrdered-handles {h} {cs} {log} {w} {v} c throws o running e =
    let (rest, values_are, v_is) = run_round-goes_on throws w v c e in
    let popped : RoomWorker = record w { commands = record (w.commands) { values = rest } } in
    let keeps = handle_command-Keeps throws popped c in
    subst (IsOrdered h cs (log ++ ((c, throws) ∷ []))) (sym v_is) (record {
      in_order =
          o.in_order
          ∙ ap (λ xs. map command_of log ++ xs) values_are
          ∙ sym (map-snoc log (c, throws) rest)
          ∙ ap (λ q. map command_of (log ++ ((c, throws) ∷ [])) ++ q.values)
              (sym keeps.commands_kept);
      handled =
          handle_command-HasHandled log throws popped c
            (handled_as o.handled refl refl refl refl refl);
      handler = keeps.handler_kept ∙ o.handler;
      stops_closed = rw keeps.stop_kept (rw keeps.commands_kept o.stops_closed);
      ends_empty = λ f. ground (arith, keeps.finished_kept, running, f);
    })

IsOrdered-leaves :
    {h : Bool} {cs : List RoomCommand} {log : Log} {w v : RoomWorker} (throws : Bool)
    → IsOrdered h cs log w
    → run_round throws w ≡ ends v
    → IsOrdered h cs log v
IsOrdered-leaves {h} {cs} {log} {w} {v} throws o e =
    let (none_left, cause, v_is) = run_round-ends throws w v e in
    subst (IsOrdered h cs log) (sym v_is) (record {
      in_order = o.in_order;
      handled = handled_as o.handled refl refl refl refl refl;
      handler = o.handler;
      stops_closed = o.stops_closed;
      ends_empty = λ f. (elim cause [ inl s ↦ o.stops_closed s | inr c ↦ c ], none_left);
    })

Reach-IsOrdered :
    {h : Bool} {m : Option ServerMetrics} {cs : List RoomCommand} {log : Log} {w : RoomWorker}
    → Reach h m cs log w
    → IsOrdered h cs log w
unfolding close_commands request_stop close
Reach-IsOrdered {h} {m} starts = IsOrdered-new h m
Reach-IsOrdered (accepts c r e) = IsOrdered-accepts c (Reach-IsOrdered r) e
Reach-IsOrdered {h} {m} {cs} {log} (refuses {w = w} {v = v} {e = x} c r e) =
    subst (IsOrdered h cs log) (sym (submit-err w v c x e)) (Reach-IsOrdered r)
Reach-IsOrdered (handles c throws r f e) = IsOrdered-handles c throws (Reach-IsOrdered r) f e
Reach-IsOrdered (leaves throws r f e) = IsOrdered-leaves throws (Reach-IsOrdered r) e
Reach-IsOrdered (closes r) =
    let o = Reach-IsOrdered r in
    record {
      in_order = o.in_order;
      handled = handled_as o.handled refl refl refl refl refl;
      handler = o.handler;
      stops_closed = λ e. refl;
      ends_empty = λ f. (refl, (o.ends_empty f).1);
    }
Reach-IsOrdered (asks r closed) =
    let o = Reach-IsOrdered r in
    record {
      in_order = o.in_order;
      handled = handled_as o.handled refl refl refl refl refl;
      handler = o.handler;
      stops_closed = λ e. closed;
      ends_empty = o.ends_empty;
    }

-- In every state that the worker can reach when other threads submit commands and call stop
-- between its rounds, the accepted commands are, in order, those handled so far and then those
-- that are still queued; the room is an empty room after the handled ones; and when the thread has
-- ended it has handled every accepted command.
pub Reach-in_order :
    {h : Bool} {m : Option ServerMetrics} {cs : List RoomCommand} {log : Log} {w : RoomWorker}
    → Reach h m cs log w
    → (cs ≡ map command_of log ++ w.commands.values)
      × (w.room ≡ (apply_all empty_room (map command_of log)).1)
      × (w.finished ≡ true → cs ≡ map command_of log)
Reach-in_order {log = log} r =
    let o = Reach-IsOrdered r in
    (
      o.in_order,
      o.handled.room_is,
      λ f.
          o.in_order
          ∙ ap (λ xs. map command_of log ++ xs) (o.ends_empty f).1
          ∙ append-nil (map command_of log),
    )

-- In every state that the worker can reach, its three counters are, within 64 bits, the number of
-- commands handled, the number of these that the room refused, and the number of accepted ones for
-- which the handler, where there is one, threw.
pub Reach-counts :
    {h : Bool} {m : Option ServerMetrics} {cs : List RoomCommand} {log : Log} {w : RoomWorker}
    → Reach h m cs log w
    → (w.processed_commands ≡ length log % 2 ^ 64)
      × (w.rejected_commands ≡ rejections empty_room log % 2 ^ 64)
      × (w.event_delivery_failures ≡ failures h empty_room log % 2 ^ 64)
Reach-counts r =
    let o = Reach-IsOrdered r in
    (o.handled.processed_is, o.handled.rejected_is, rw (sym o.handler) o.handled.failures_are)

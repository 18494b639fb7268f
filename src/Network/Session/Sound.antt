-- ===== src/Network/Session/Sound.antt =====
-- What holds of a session between its steps: there is one writer as long as there is something to
-- write, and a stopped session holds nothing more.
use modern_cpp_room_server.Prelude.{
  ℕ, ◌≤◌, ◌≡◌, sym, subst, ap, ◌∙◌, Bool, true, false, not, [], ◌∷◌, ◌++◌, length, length-append,
  if◌then◌else◌, ok, err, arith, Bool-cases, inl, inr, Expected,
}
use modern_cpp_room_server.Room.Commands.{DisconnectReason, outbound_overflow, io_error}
use modern_cpp_room_server.Network.OutboundQueue.{
  OutboundQueueError, SharedPacket, push, close, byte_limit_exceeded,
}
use modern_cpp_room_server.Network.OutboundQueue.Valid
use modern_cpp_room_server.Network.Session.{
  Session, at_loop, stop_session, after_push, enqueue_outbound, update_queue_metrics,
}
use modern_cpp_room_server.Network.Session.Stop.{
  stop_running_lem, stop_session-running, stop_session-over,
}

pub record IsSound (s : Session) : Type 0 where
  pub queue_valid : Valid.IsValid s.outbound_queue
  pub one_writer : length s.writers ≤ (if s.write_in_progress then 1 else 0)
  pub stopped_queue : s.outbound_queue.closed ≡ s.stopped
  pub stopped_socket : s.socket_open ≡ not s.stopped
  pub writer_runs : s.stopped ≡ false → s.write_in_progress ≡ true → length s.writers ≡ 1
  pub nothing_waits :
      s.stopped ≡ false → s.write_in_progress ≡ false → s.outbound_queue.packets ≡ []

pub stop_session-IsSound :
    (reason : DisconnectReason) (s : Session)
    → Valid.IsValid s.outbound_queue
    → length s.writers ≤ (if s.write_in_progress then 1 else 0)
    → (s.stopped ≡ true → IsSound s)
    → IsSound (stop_session reason s)
unfolding close
stop_session-IsSound reason s v w i = elim (Bool-cases s.stopped) [
  | inl over ↦ subst IsSound (sym (stop_session-over reason s over)) (i over)
  | inr running ↦
      let (leaves, is) = stop_running_lem reason s in
      subst IsSound (sym (stop_session-running reason s running)) (record {
        queue_valid = rw is.emptied (Valid.close-IsValid s.outbound_queue v);
        one_writer = rw leaves.writers_kept (rw leaves.progress_kept w);
        stopped_queue = ap (λ q. q.closed) is.emptied ∙ sym is.marked;
        stopped_socket = is.shut ∙ ap not (sym is.marked);
        writer_runs = λ e. cc (e, is.marked);
        nothing_waits = λ e. cc (e, is.marked);
      })
]

-- The session before the part of `enqueue_outbound` behind the push, and after a push into an open queue.
update_queue_metrics-IsSound : (s : Session) → IsSound s → IsSound (update_queue_metrics s)
unfolding update_queue_metrics
update_queue_metrics-IsSound s i = record {
  queue_valid = i.queue_valid;
  one_writer = i.one_writer;
  stopped_queue = i.stopped_queue;
  stopped_socket = i.stopped_socket;
  writer_runs = i.writer_runs;
  nothing_waits = i.nothing_waits;
}

after_push-IsSound :
    (x : Expected OutboundQueueError (Unit {0})) (s : Session)
    → s.stopped ≡ false
    → Valid.IsValid s.outbound_queue
    → length s.writers ≤ (if s.write_in_progress then 1 else 0)
    → s.outbound_queue.closed ≡ false
    → s.socket_open ≡ true
    → (s.write_in_progress ≡ true → length s.writers ≡ 1)
    → IsSound (after_push x s).1
unfolding after_push
after_push-IsSound (err byte_limit_exceeded) s r v w c o k =
    stop_session-IsSound outbound_overflow s v w (λ e. cc (e, r))
after_push-IsSound (err _) s r v w c o k = stop_session-IsSound io_error s v w (λ e. cc (e, r))
after_push-IsSound (ok done) s r v w c o k = elim (Bool-cases s.write_in_progress) [
  | inl busy ↦
      subst (λ b. IsSound (after s b).1) (sym busy)
        (record {
          queue_valid = v;
          one_writer = w;
          stopped_queue = c ∙ sym r;
          stopped_socket = o ∙ ap not (sym r);
          writer_runs = λ e. k;
          nothing_waits = λ e f. cc (f, busy);
        })
  | inr idle ↦
      subst (λ b. IsSound (after s b).1) (sym idle)
        (record {
          queue_valid = v;
          one_writer = omega (arith, none_runs w idle, length-append s.writers (at_loop ∷ []));
          stopped_queue = c ∙ sym r;
          stopped_socket = o ∙ ap not (sym r);
          writer_runs =
              λ e f. omega (arith, none_runs w idle, length-append s.writers (at_loop ∷ []));
          nothing_waits = λ e f. cc f;
        })
]
  where
    after : Session → Bool → Bool × Session
    after s b =
        if b
        then (true, s)
        else (true, record s { write_in_progress = true; writers = s.writers ++ (at_loop ∷ []) })

    none_runs : {n : ℕ} {b : Bool} → n ≤ (if b then 1 else 0) → b ≡ false → n ≡ 0
    none_runs h e = ground arith

pub enqueue_outbound-IsSound :
    (p : SharedPacket) (s : Session) → IsSound s → IsSound (enqueue_outbound p s).1
unfolding enqueue_outbound update_queue_metrics
enqueue_outbound-IsSound p s i = elim (Bool-cases s.stopped) [
  | inl over ↦ subst (λ b. IsSound (after b).1) (sym over) i
  | inr running ↦
      subst (λ b. IsSound (after b).1) (sym running)
        (after_push-IsSound (push s.outbound_queue p).0
          (update_queue_metrics (record s { outbound_queue = (push s.outbound_queue p).1 })) running
          (Valid.push-IsValid s.outbound_queue p i.queue_valid) i.one_writer
          (Valid.closed-push s.outbound_queue p ∙ i.stopped_queue ∙ running)
          (i.stopped_socket ∙ ap not running) (i.writer_runs running))
]
  where
    after : Bool → Bool × Session
    after b =
        if b
        then (false, s)
        else after_push (push s.outbound_queue p).0
            (update_queue_metrics (record s { outbound_queue = (push s.outbound_queue p).1 }))

-- ===== src/Worker/Loop/Stops.antt =====
-- The worker closes its connection once.
use cocaine_framework_go.Prelude.{
  ℕ, ◌≡◌, Bool, if◌then◌else◌, List, [], ◌∷◌, Option, none, some, arith, Bytes, get_elem?, set,
}
use cocaine_framework_go.Effects.{Outcome, done, panic, blocked, >>=-eq-done}
use cocaine_framework_go.Message.{Message}
use cocaine_framework_go.Worker.Stream
use cocaine_framework_go.Worker.Stream.{Stream}
use cocaine_framework_go.Worker.State.{
  Worker, Timer, WriteChoice, accepted, conn_closed, timed_out, receive, stop, send_or_give_up,
  on_heartbeat_timeout, on_disown_timeout, fresh_worker,
}
use cocaine_framework_go.Worker.State.Control.{receive-Control}
use cocaine_framework_go.Worker.Loop.{
  LoopExit, continues, returns, LoopEvent, incoming, heartbeat_due, disown_due, stop_seen,
  stack_signal, loop_step, take_tick, WorkerEvent, loop, heartbeat_expires, disown_expires,
  stop_called, request_hands, request_notices, chooses, handed, keeping, stored, move_stream,
  worker_step, worker_run, run,
}

-- Stop has run once if the worker is stopped, and not at all if it is not.
pub record StopsOnce (w : Worker) : Type 0 where
  pub closes : w.conn_closes ≡ (if w.stopped then 1 else 0)
  pub tokens : w.token_stops ≡ (if w.stopped then 1 else 0)

stop-StopsOnce : (w : Worker) → StopsOnce w → StopsOnce (stop w)
unfolding stop
stop-StopsOnce w o = ground arith

send-StopsOnce :
    (c : WriteChoice) (msg : Message) (w : Worker)
    → StopsOnce w
    → StopsOnce (send_or_give_up c msg w)
unfolding send_or_give_up
send-StopsOnce accepted msg w o = ground arith
send-StopsOnce conn_closed msg w o = o
send-StopsOnce timed_out msg w o = o

heartbeat-StopsOnce :
    (w : Worker) (t : Timer)
    → StopsOnce w
    → StopsOnce (on_heartbeat_timeout (record w { heartbeat_timer = t }))
unfolding on_heartbeat_timeout
heartbeat-StopsOnce w t o = send-StopsOnce w.next_write _ _ (ground arith)

loop_step-StopsOnce :
    (e : LoopEvent) (w u : Worker) (y : LoopExit)
    → loop_step e w ≡ done (u, y)
    → StopsOnce w
    → StopsOnce u
unfolding loop_step on_disown_timeout
loop_step-StopsOnce (incoming none) w u y p o = ground arith
loop_step-StopsOnce (incoming (some msg)) w u y p o =
    let ((z, e), q, r) = >>=-eq-done (receive msg w) (λ x. done (x.0, continues)) p in
    let c = receive-Control w z msg e q in ground (arith, r)
loop_step-StopsOnce heartbeat_due w u y p o =
    ground (arith, heartbeat-StopsOnce w (take_tick w.heartbeat_timer) o)
loop_step-StopsOnce disown_due w u y p o = ground arith
loop_step-StopsOnce stop_seen w u y p o = ground arith
loop_step-StopsOnce stack_signal w u y p o = ground arith

-- A move of a request's goroutine changes the store alone.
pub move_stream-done :
    (r : ℕ) (f : Stream → Outcome Stream) (w u : Worker) (x y : LoopExit)
    → keeping x (move_stream r f w) ≡ done (u, y)
    → (store : List Stream) × (u ≡ record w { store = store }) × (y ≡ x)
unfolding move_stream
move_stream-done r f w u x y p = by_found (get_elem? w.store r) p
  where
    by_move :
        (s : Stream) (m : Outcome Stream)
        → keeping x (stored r w m) ≡ done (u, y)
        → (store : List Stream) × (u ≡ record w { store = store }) × (y ≡ x)
    by_move s (done t) p = (set w.store r t, ground arith, ground arith)
    by_move s (panic q) p = cc
    by_move s blocked p = cc

    by_found :
        (o : Option Stream)
        → keeping x (elim o [ none ↦ blocked | some s ↦ stored r w (f s) ]) ≡ done (u, y)
        → (store : List Stream) × (u ≡ record w { store = store }) × (y ≡ x)
    by_found none p = cc
    by_found (some s) p = by_move s (f s) p

worker_step-StopsOnce :
    (e : WorkerEvent) (w u : Worker) (x y : LoopExit)
    → worker_step e w x ≡ done (u, y)
    → StopsOnce w
    → StopsOnce u
unfolding worker_step
worker_step-StopsOnce (loop e) w u continues y p o = loop_step-StopsOnce e w u y p o
worker_step-StopsOnce (loop e) w u (returns z) y p o = cc
worker_step-StopsOnce heartbeat_expires w u x y p o = ground arith
worker_step-StopsOnce disown_expires w u x y p o = ground arith
worker_step-StopsOnce stop_called w u x y p o = ground (arith, stop-StopsOnce w o)
worker_step-StopsOnce (request_hands r) w u x y p o =
    let (store, q, _) = move_stream-done r handed w u x y p in ground arith
worker_step-StopsOnce (request_notices r) w u x y p o =
    let (store, q, _) = move_stream-done r Stream.notice_close w u x y p in ground arith
worker_step-StopsOnce (chooses c) w u x y p o = ground arith

-- The steps of a run that returns.
abbrev pub Splits : WorkerEvent → List WorkerEvent → Worker → LoopExit → Worker → LoopExit → Type 0
Splits e es w x u y =
    (v : Worker) × (z : LoopExit) × (worker_step e w x ≡ done (v, z))
    × (worker_run es v z ≡ done (u, y))

pub worker_run-cons :
    (e : WorkerEvent) (es : List WorkerEvent) (w u : Worker) (x y : LoopExit)
    → worker_run (e ∷ es) w x ≡ done (u, y)
    → Splits e es w x u y
unfolding worker_run
worker_run-cons e es w u x y p =
    let ((v, z), q, r) = >>=-eq-done (worker_step e w x) (λ t. worker_run es t.0 t.1) p in
    (v, z, q, r)

worker_run-StopsOnce :
    (es : List WorkerEvent) (w u : Worker) (x y : LoopExit)
    → worker_run es w x ≡ done (u, y)
    → StopsOnce w
    → StopsOnce u
unfolding worker_run
worker_run-StopsOnce [] w u x y p o = ground arith
worker_run-StopsOnce (e ∷ es) w u x y p o =
    let (v, z, q, r) = worker_run-cons e es w u x y p in
    worker_run-StopsOnce es v u z y r (worker_step-StopsOnce e w v x z q o)

-- In every sequence of rounds and outside events from a new worker, calls of Stop included (each
-- one step), the worker closes its connection and stops its token manager once if it is stopped,
-- and never if it is not.
pub run-StopsOnce :
    (id : Bytes) (c : WriteChoice) (has_handler : Bool) (es : List WorkerEvent) (u : Worker)
    (y : LoopExit)
    → run has_handler es (fresh_worker id c) ≡ done (u, y)
    → StopsOnce u
unfolding run
run-StopsOnce id c has_handler es u y p = worker_run-StopsOnce es _ u continues y p (
    heartbeat-StopsOnce (record (fresh_worker id c) { has_termination_handler = has_handler }) _
      (ground arith))

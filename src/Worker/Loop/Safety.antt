-- ===== src/Worker/Loop/Safety.antt =====
-- The event loop never panics, and disposes of its connection once.
use cocaine_framework_go.Prelude.{
  ℕ, ◌≡◌, ◌≢◌, refl, subst, Bool, List, [], ◌∷◌, none, some, not, ◌&&◌, Bytes, get_elem?, arith,
  Bool-cases, Option-cases, inl, inr,
}
use cocaine_framework_go.Effects.{Outcome, done, panic, blocked, ◌>>=◌}
use cocaine_framework_go.Message.{Message, v1_utility_session, v1_invoke}
use cocaine_framework_go.Worker.Stream
use cocaine_framework_go.Worker.Stream.{Stream}
use cocaine_framework_go.Worker.State.{
  Worker, WriteChoice, on_heartbeat_timeout, on_disown_timeout, fresh_worker,
}
use cocaine_framework_go.Worker.State.Invariant.{
  IsOpen, HasSessions, set-Sessions, fresh-HasSessions,
}
use cocaine_framework_go.Worker.State.Handlers.{
  IsSame, stop-IsSame, send-IsSame, receive-HasSessions,
}
use cocaine_framework_go.Worker.Loop.{
  LoopExit, continues, returns, LoopEvent, incoming, heartbeat_due, disown_due, stop_seen,
  stack_signal, loop_step, WorkerEvent, loop, heartbeat_expires, disown_expires, stop_called,
  request_hands, request_notices, chooses, handed, keeping, stored, move_stream, worker_step,
  worker_run, run,
}

-- A message has a payload, unless it is of the utility session, or of a type that is not that of an
-- invocation; heartbeats and chokes have none.
abbrev pub HasPayload : WorkerEvent → Type 0
HasPayload (loop (incoming (some msg))) =
    msg.session ≢ v1_utility_session → msg.msg_type ≡ v1_invoke → msg.payload ≢ []
HasPayload _ = Unit {0}

abbrev pub HavePayload : List WorkerEvent → Type 0
HavePayload [] = Unit {0}
HavePayload (e ∷ es) = HasPayload e × HavePayload es

-- The call did not panic, and what it returned has well-formed sessions.
abbrev pub IsSafe : Outcome (Worker × LoopExit) → Type 0
IsSafe (done (w, x)) = HasSessions w
IsSafe (panic p) = ⊥
IsSafe blocked = Unit {0}

IsSame-HasSessions : {w u : Worker} → IsSame w u → HasSessions w → HasSessions u
IsSame-HasSessions p v = rw (p.sessions, p.store, p.protocol) v

on_heartbeat_timeout-HasSessions :
    (w : Worker) → HasSessions w → HasSessions (on_heartbeat_timeout w)
unfolding on_heartbeat_timeout
on_heartbeat_timeout-HasSessions w v = IsSame-HasSessions (send-IsSame w.next_write _ _) v

loop_step-IsSafe :
    (e : LoopEvent) (w : Worker) → HasPayload (loop e) → HasSessions w → IsSafe (loop_step e w)
unfolding loop_step on_disown_timeout
loop_step-IsSafe (incoming none) w p v = v
loop_step-IsSafe (incoming (some msg)) w p v =
    let (u, e, q, k) = receive-HasSessions w msg v (λ i. p i.0 i.2) in rw q k
loop_step-IsSafe heartbeat_due w p v = elim (Bool-cases w.heartbeat_timer.fired) [
  | inl e ↦ rw e (on_heartbeat_timeout-HasSessions _ v)
  | inr e ↦ rw e tt
]
loop_step-IsSafe disown_due w p v = elim (Bool-cases w.disown_timer.fired) [
  | inl e ↦ rw e (IsSame-HasSessions (stop-IsSame _) v)
  | inr e ↦ rw e tt
]
loop_step-IsSafe stop_seen w p v = elim (Bool-cases w.stopped) [ inl e ↦ rw e v | inr e ↦ rw e tt ]
loop_step-IsSafe stack_signal w p v = elim (Bool-cases w.stack_signal_enabled) [
  | inl e ↦ rw e v
  | inr e ↦ rw e tt
]

-- A move of a request's goroutine does not panic, and leaves an open request open.
abbrev MoveOk : Stream → Outcome Stream → Type 0
MoveOk s (done t) = IsOpen s → IsOpen t
MoveOk s (panic p) = ⊥
MoveOk s blocked = Unit {0}

handed-MoveOk : (s : Stream) → MoveOk s (handed s)
unfolding Stream.hand_over
handed-MoveOk s = by_queue s.pending refl
  where
    by_queue : (ms : List Message) → s.pending ≡ ms → MoveOk s (handed s)
    by_queue [] e = rw (e, handed) tt
    by_queue (m ∷ ms) e = rw (e, handed) (λ o. ground arith)

notice-MoveOk : (s : Stream) → MoveOk s (Stream.notice_close s)
unfolding Stream.notice_close
notice-MoveOk s = elim (Bool-cases (not s.ended && (s.closed && not s.seen))) [
  | inl e ↦ rw e (λ o. ground arith)
  | inr e ↦ rw e tt
]

move_stream-IsSafe :
    (r : ℕ) (f : Stream → Outcome Stream) (x : LoopExit) (w : Worker)
    → ((s : Stream) → MoveOk s (f s))
    → HasSessions w
    → IsSafe (keeping x (move_stream r f w))
unfolding move_stream
move_stream-IsSafe r f x w move v = elim (Option-cases (get_elem? w.store r)) [
  | inl e ↦ rw (e, move_stream) tt
  | inr (s, e) ↦ rw (e, move_stream) (by_move s e (f s) (move s))
]
  where
    by_move :
        (s : Stream)
        → get_elem? w.store r ≡ some s
        → (m : Outcome Stream) → MoveOk s m
        → IsSafe (keeping x (stored r w m))
    by_move s e (done t) o =
        set-Sessions w.protocol.max_session w.sessions w.store r t
          (λ s' e' o'. o (subst IsOpen (ground arith) o')) v
    by_move s e (panic p) o = o
    by_move s e blocked o = tt

worker_step-IsSafe :
    (e : WorkerEvent) (w : Worker) (x : LoopExit)
    → HasPayload e
    → HasSessions w
    → IsSafe (worker_step e w x)
unfolding worker_step
worker_step-IsSafe (loop e) w continues p v = loop_step-IsSafe e w p v
worker_step-IsSafe (loop e) w (returns y) p v = tt
worker_step-IsSafe heartbeat_expires w x p v = elim (Bool-cases w.heartbeat_timer.running) [
  | inl e ↦ rw e v
  | inr e ↦ rw e tt
]
worker_step-IsSafe disown_expires w x p v = elim (Bool-cases w.disown_timer.running) [
  | inl e ↦ rw e v
  | inr e ↦ rw e tt
]
worker_step-IsSafe stop_called w x p v = IsSame-HasSessions (stop-IsSame w) v
worker_step-IsSafe (request_hands r) w x p v = move_stream-IsSafe r handed x w handed-MoveOk v
worker_step-IsSafe (request_notices r) w x p v =
    move_stream-IsSafe r Stream.notice_close x w notice-MoveOk v
worker_step-IsSafe (chooses c) w x p v = v

-- A run step by step: what holds of the first step's outcome holds of the whole.
worker_run-IsSafe :
    (es : List WorkerEvent) (w : Worker) (x : LoopExit)
    → HavePayload es
    → HasSessions w
    → IsSafe (worker_run es w x)
unfolding worker_run
worker_run-IsSafe [] w x p v = v
worker_run-IsSafe (e ∷ es) w x p v =
    after_step (worker_step e w x) (worker_step-IsSafe e w x p.0 v)
      λ (u : Worker) (y : LoopExit) (k : HasSessions u). worker_run-IsSafe es u y p.1 k
  where
    after_step :
        (m : Outcome (Worker × LoopExit))
        → IsSafe m
        → ((u : Worker) (y : LoopExit) → HasSessions u → IsSafe (worker_run es u y))
        → IsSafe (m >>= λ r. worker_run es r.0 r.1)
    after_step (done (u, y)) k rest = rest u y k
    after_step (panic q) k rest = k
    after_step blocked k rest = tt

-- In every sequence of messages, timers, signals, calls of Stop (each one step) and moves of the
-- requests' goroutines the worker does not panic (it closes no channel twice), if every message
-- of the type 0 outside the utility session, which is an invocation or a chunk, has a payload; and
-- its sessions stay well-formed. Heartbeats, chokes and other messages need none.
pub run-IsSafe :
    (id : Bytes) (c : WriteChoice) (has_handler : Bool) (es : List WorkerEvent)
    → HavePayload es
    → IsSafe (run has_handler es (fresh_worker id c))
unfolding run
run-IsSafe id c has_handler es p =
    worker_run-IsSafe es _ continues p (on_heartbeat_timeout-HasSessions _ (fresh-HasSessions id c))

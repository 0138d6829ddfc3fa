-- ===== src/Worker/Loop/Disown.antt =====
-- When the loop returns ErrDisowned, and when it does not.
use cocaine_framework_go.Prelude.{
  ◌≡◌, ◌≢◌, subst, true, false, List, [], ◌∷◌, Option, none, some, arith,
}
use cocaine_framework_go.Errors.{Error, disowned}
use cocaine_framework_go.Effects.{done, >>=-eq-done}
use cocaine_framework_go.Message.{Message, v1_utility_session, v1_heartbeat}
use cocaine_framework_go.Worker.Dispatch.{on_message}
use cocaine_framework_go.Worker.Stream
use cocaine_framework_go.Worker.Stream.{Stream}
use cocaine_framework_go.Worker.State.{Worker, receive, stop, on_heartbeat, on_disown_timeout}
use cocaine_framework_go.Worker.State.Control.{receive-Control}
use cocaine_framework_go.Worker.Loop.{
  LoopExit, continues, returns, LoopEvent, incoming, heartbeat_due, disown_due, stop_seen,
  stack_signal, loop_step, WorkerEvent, loop, heartbeat_expires, disown_expires, stop_called,
  request_hands, request_notices, chooses, handed, worker_step, worker_run,
}
use cocaine_framework_go.Worker.Loop.Stops.{move_stream-done, worker_run-cons}

-- No disown tick waits or will come.
pub record IsQuiet (w : Worker) : Type 0 where
  pub idle : w.disown_timer.running ≡ false
  pub no_tick : w.disown_timer.fired ≡ false

abbrev pub SendsNoHeartbeat : WorkerEvent → Type 0
SendsNoHeartbeat (loop heartbeat_due) = ⊥
SendsNoHeartbeat _ = Unit {0}

abbrev pub SendNoHeartbeat : List WorkerEvent → Type 0
SendNoHeartbeat [] = Unit {0}
SendNoHeartbeat (e ∷ es) = SendsNoHeartbeat e × SendNoHeartbeat es

-- Quiet, and not returned as disowned.
abbrev Calm : Worker → LoopExit → Type 0
Calm w x = IsQuiet w × (x ≢ returns (some disowned))

stop-IsQuiet : (w : Worker) → IsQuiet w → IsQuiet (stop w)
unfolding stop
stop-IsQuiet w o = ground arith

loop_step-Calm :
    (e : LoopEvent) (w u : Worker) (y : LoopExit)
    → SendsNoHeartbeat (loop e)
    → loop_step e w ≡ done (u, y)
    → IsQuiet w
    → Calm u y
unfolding loop_step
loop_step-Calm (incoming none) w u y n p o = ground arith
loop_step-Calm (incoming (some msg)) w u y n p o =
    let ((z, e), q, r) = >>=-eq-done (receive msg w) (λ x. done (x.0, continues)) p in
    let c = receive-Control w z msg e q in ground (arith, r)
loop_step-Calm heartbeat_due w u y n p o = absurd n
loop_step-Calm disown_due w u y n p o = ground arith
loop_step-Calm stop_seen w u y n p o = ground arith
loop_step-Calm stack_signal w u y n p o = ground arith

worker_step-Calm :
    (e : WorkerEvent) (w u : Worker) (x y : LoopExit)
    → SendsNoHeartbeat e
    → worker_step e w x ≡ done (u, y)
    → Calm w x
    → Calm u y
unfolding worker_step
worker_step-Calm (loop e) w u continues y n p (o, i) = loop_step-Calm e w u y n p o
worker_step-Calm (loop e) w u (returns z) y n p (o, i) = cc
worker_step-Calm heartbeat_expires w u x y n p (o, i) = ground arith
worker_step-Calm disown_expires w u x y n p (o, i) = ground arith
worker_step-Calm stop_called w u x y n p (o, i) = ground (arith, stop-IsQuiet w o)
worker_step-Calm (request_hands r) w u x y n p (o, i) =
    let (store, q, q') = move_stream-done r handed w u x y p in ground arith
worker_step-Calm (request_notices r) w u x y n p (o, i) =
    let (store, q, q') = move_stream-done r Stream.notice_close w u x y p in ground arith
worker_step-Calm (chooses c) w u x y n p (o, i) = ground arith

worker_run-Calm :
    (es : List WorkerEvent) (w u : Worker) (x y : LoopExit)
    → SendNoHeartbeat es
    → worker_run es w x ≡ done (u, y)
    → Calm w x
    → Calm u y
unfolding worker_run
worker_run-Calm [] w u x y n p o =
    let same : (w ≡ u) × (x ≡ y) = ground arith in
    subst (λ z. Calm u z) same.1 (subst (λ z. Calm z x) same.0 o)
worker_run-Calm (e ∷ es) w u x y n p o =
    let (v, z, q, r) = worker_run-cons e es w u x y p in
    worker_run-Calm es v u z y n.1 r (worker_step-Calm e w v x z n.0 q o)

-- A heartbeat reply that arrives before the disown timer expires keeps the worker owned: until it
-- sends the next heartbeat, no interleaving makes the loop return ErrDisowned.
pub reply_keeps_owned :
    (w v u : Worker) (msg : Message) (e : Option Error) (es : List WorkerEvent) (y : LoopExit)
    → msg.session ≡ v1_utility_session
    → msg.msg_type ≡ v1_heartbeat
    → w.disown_timer.fired ≡ false
    → receive msg w ≡ done (v, e)
    → SendNoHeartbeat es
    → worker_run es v continues ≡ done (u, y)
    → y ≢ returns (some disowned)
unfolding receive on_message on_heartbeat
reply_keeps_owned w v u msg e es y s t f p n q =
    let quiet : IsQuiet v = ground arith in
    (worker_run-Calm es v u continues y n q (quiet, λ i. cc)).1

-- A reply that is received when the tick of the disown timer already waits does not take the tick
-- away: the loop can still return ErrDisowned.
pub late_reply_disowns :
    (w : Worker) (msg : Message)
    → msg.session ≡ v1_utility_session
    → msg.msg_type ≡ v1_heartbeat
    → w.disown_timer.fired ≡ true
    → (u : Worker) × (worker_run (loop (incoming (some msg)) ∷ loop disown_due ∷ []) w continues
        ≡ done (u, returns (some disowned)))
unfolding worker_run worker_step loop_step receive on_message on_heartbeat
late_reply_disowns w msg s t f = (
  on_disown_timeout (record w { disown_timer = record { running = false; fired = false } }),
  ground arith,
)

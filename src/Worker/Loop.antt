-- ===== src/Worker/Loop.antt =====
-- cocaine12/workerng.go: Run and the event loop. One round of the select is a `LoopEvent`; what
-- happens beside the loop (a timer expires, Stop is called, the goroutine of a request moves, the
-- connection's next choice) is an event too, so that every interleaving is a list of events.
pub mod Safety
pub mod Stops
pub mod Disown
use cocaine_framework_go.Prelude.{
  ℕ, if◌then◌else◌, Bool, true, false, List, [], ◌∷◌, Option, none, some, get_elem?, set,
}
use cocaine_framework_go.Errors.{Error, disowned, connection_lost}
use cocaine_framework_go.Effects.{Outcome, done, blocked, ◌>>=◌}
use cocaine_framework_go.Message.{Message}
use cocaine_framework_go.Worker.Stream
use cocaine_framework_go.Worker.Stream.{Stream}
use cocaine_framework_go.Worker.State.{
  Worker, Timer, WriteChoice, receive, stop, on_heartbeat_timeout, on_disown_timeout,
}

pub data LoopExit : Type 0 where
  continues : LoopExit
  returns : Option Error → LoopExit

pub data LoopEvent : Type 0 where
  -- a message, or `none` from the closed channel
  incoming : Option Message → LoopEvent
  heartbeat_due disown_due stop_seen stack_signal : LoopEvent

abbrev pub take_tick : Timer → Timer
take_tick t = record t { fired = false }

abbrev pub expire : Timer → Timer
expire t = record { running = false; fired = true }

-- One round. A case whose channel has nothing to receive is not chosen.
unfoldable pub loop_step : LoopEvent → Worker → Outcome (Worker × LoopExit)
loop_step (incoming none) w = done (w, returns (if w.stopped then none else some connection_lost))
loop_step (incoming (some msg)) w = receive msg w >>= λ r. done (r.0, continues)
loop_step heartbeat_due w =
    if w.heartbeat_timer.fired
    then done (
      on_heartbeat_timeout (record w { heartbeat_timer = take_tick w.heartbeat_timer }),
      continues,
    )
    else blocked
loop_step disown_due w =
    if w.disown_timer.fired
    then done (
      on_disown_timeout (record w { disown_timer = take_tick w.disown_timer }),
      returns (some disowned),
    )
    else blocked
loop_step stop_seen w = if w.stopped then done (w, returns none) else blocked
loop_step stack_signal w = if w.stack_signal_enabled then done (w, continues) else blocked

pub data WorkerEvent : Type 0 where
  loop : LoopEvent → WorkerEvent
  heartbeat_expires disown_expires stop_called : WorkerEvent
  request_hands request_notices : ℕ → WorkerEvent
  chooses : WriteChoice → WorkerEvent

abbrev pub stored : ℕ → Worker → Outcome Stream → Outcome Worker
stored r w m = m >>= λ t. done (record w { store = set w.store r t })

-- A move of the goroutine of the request at `r`, if there is one.
unfoldable pub move_stream : ℕ → (Stream → Outcome Stream) → Worker → Outcome Worker
move_stream r f w = elim (get_elem? w.store r) [ none ↦ blocked | some s ↦ stored r w (f s) ]

-- The handler receives a message; what it does with it is not the worker's.
abbrev pub handed : Stream → Outcome Stream
handed s = Stream.hand_over s >>= λ r. done r.0

abbrev pub keeping : LoopExit → Outcome Worker → Outcome (Worker × LoopExit)
keeping x m = m >>= λ w. done (w, x)

-- Nothing but the loop itself depends on whether the loop still runs.
unfoldable pub worker_step : WorkerEvent → Worker → LoopExit → Outcome (Worker × LoopExit)
worker_step (loop e) w continues = loop_step e w
worker_step (loop e) w (returns x) = blocked
worker_step heartbeat_expires w x =
    if w.heartbeat_timer.running
    then done (record w { heartbeat_timer = expire w.heartbeat_timer }, x)
    else blocked
worker_step disown_expires w x =
    if w.disown_timer.running
    then done (record w { disown_timer = expire w.disown_timer }, x)
    else blocked
worker_step stop_called w x = done (stop w, x)
worker_step (request_hands r) w x = keeping x (move_stream r handed w)
worker_step (request_notices r) w x = keeping x (move_stream r Stream.notice_close w)
worker_step (chooses c) w x = done (record w { next_write = c }, x)

unfoldable pub worker_run : List WorkerEvent → Worker → LoopExit → Outcome (Worker × LoopExit)
worker_run [] w x = done (w, x)
worker_run (e ∷ es) w x = worker_step e w x >>= λ r. worker_run es r.0 r.1

-- Run: the first heartbeat, then the loop.
unfoldable pub run : Bool → List WorkerEvent → Worker → Outcome (Worker × LoopExit)
run has_handler es w =
    worker_run es (on_heartbeat_timeout (record w { has_termination_handler = has_handler }))
      continues

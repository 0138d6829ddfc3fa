-- ===== src/Tests/Loops.antt =====
-- The event loop of cocaine12/workerng.go.
use cocaine_framework_go.Prelude.{◌≡◌, ◌≢◌, refl, true, false, bytes, List, [], ◌∷◌, none, some}
use cocaine_framework_go.Errors.{Error, disowned}
use cocaine_framework_go.Effects.{done}
use cocaine_framework_go.Message.{new_invoke_v1, new_heartbeat_v1, new_choke_v1}
use cocaine_framework_go.Worker.Dispatch.{on_message}
use cocaine_framework_go.Worker.State.{
  Worker, accepted, fresh_worker, receive, on_heartbeat, on_heartbeat_timeout, stop,
}
use cocaine_framework_go.Worker.Loop.{
  continues, returns, incoming, stop_seen, WorkerEvent, loop, stop_called, worker_run, worker_step,
  loop_step, run,
}
use cocaine_framework_go.Worker.Loop.Safety.{IsSafe, run-IsSafe}
use cocaine_framework_go.Worker.Loop.Stops.{StopsOnce, run-StopsOnce}
use cocaine_framework_go.Worker.Loop.Disown.{reply_keeps_owned}

abbrev fresh : Worker
fresh = fresh_worker (bytes "id") accepted

-- An invocation arrives, then a heartbeat and the choke of its session; then Stop is called twice.
abbrev history : List WorkerEvent
history =
    loop (incoming (some (new_invoke_v1 2 (bytes "ping"))))
    ∷ loop (incoming (some new_heartbeat_v1))
    ∷ loop (incoming (some (new_choke_v1 2)))
    ∷ stop_called
    ∷ stop_called
    ∷ loop stop_seen
    ∷ []

run-IsSafe_example : IsSafe (run false history fresh)
unfolding new_invoke_v1 new_heartbeat_v1 new_choke_v1
run-IsSafe_example =
    run-IsSafe (bytes "id") accepted false history
      ((λ s i. cc), ((λ s i. absurd (s refl)), ((λ s i. cc), (tt, (tt, (tt, tt))))))

abbrev stops : List WorkerEvent
stops = stop_called ∷ stop_called ∷ loop stop_seen ∷ []

abbrev halted : Worker
halted = record fresh {
  heartbeat_timer = record { running = true; fired = false };
  disown_timer = record { running = true; fired = false };
  stopped = true;
  token_stops = 1;
  conn_closes = 1;
  sent = new_heartbeat_v1 ∷ [];
}

halts : run false stops fresh ≡ done (halted, returns none)
unfolding run worker_run worker_step loop_step on_heartbeat_timeout stop
halts = refl

run-StopsOnce_example : StopsOnce halted
run-StopsOnce_example = run-StopsOnce (bytes "id") accepted false stops halted (returns none) halts

-- A heartbeat was sent; the reply is on its way.
abbrev waiting : Worker
waiting = record fresh { disown_timer = record { running = true; fired = false } }

abbrev answered : Worker
answered = record fresh { disown_timer = record { running = false; fired = false } }

reply_received : receive new_heartbeat_v1 waiting ≡ done (answered, none)
unfolding receive on_message on_heartbeat new_heartbeat_v1
reply_received = refl

late_run :
    worker_run (loop (incoming none) ∷ []) answered continues
    ≡ done (answered, returns (some Error.connection_lost))
unfolding worker_run worker_step loop_step
late_run = refl

reply_keeps_owned_example : returns (some Error.connection_lost) ≢ returns (some disowned)
unfolding new_heartbeat_v1
reply_keeps_owned_example =
    reply_keeps_owned waiting answered answered new_heartbeat_v1 none (loop (incoming none) ∷ [])
      (returns (some Error.connection_lost)) refl refl refl reply_received (tt, tt) late_run

abbrev expired : Worker
expired = record fresh { disown_timer = record { running = false; fired = true } }

-- ===== src/Worker/State/Control.antt =====
-- What a message can do to the worker's connection and to its disown timer.
use cocaine_framework_go.Prelude.{
  suc, ◌≡◌, refl, subst, true, false, Option, none, some, arith, ◌⊎◌, Bytes,
}
use cocaine_framework_go.Errors.{Error}
use cocaine_framework_go.Effects.{Outcome, done, panic, blocked, ◌>>=◌, >>=-eq-done}
use cocaine_framework_go.Message.{Message}
use cocaine_framework_go.Worker.Dispatch.{V1Protocol, returns_nil, on_message}
use cocaine_framework_go.Worker.Dispatch.Cases.{on_message_cases}
use cocaine_framework_go.Worker.State.{
  Worker, receive, on_choke, on_chunk, on_error, on_heartbeat, on_invoke, on_terminate, invoked,
  get_event_name, worker_handler, with_protocol,
}

-- From w to u the worker stopped at most once, and its disown timer was at most stopped.
pub record Control (w u : Worker) : Type 0 where
  pub stops :
      ((u.stopped ≡ w.stopped) × (u.conn_closes ≡ w.conn_closes) × (u.token_stops ≡ w.token_stops))
      ⊎ ((w.stopped ≡ false)
          × (u.stopped ≡ true)
          × (u.conn_closes ≡ suc w.conn_closes)
          × (u.token_stops ≡ suc w.token_stops))
  pub tick : u.disown_timer.fired ≡ w.disown_timer.fired
  pub runs : (u.disown_timer.running ≡ w.disown_timer.running) ⊎ (u.disown_timer.running ≡ false)

module _ (w u : Worker) (msg : Message) where
  on_chunk-Control : on_chunk msg w ≡ done u → Control w u
  unfolding on_chunk
  on_chunk-Control p = ground arith

  on_error-Control : on_error msg w ≡ done u → Control w u
  unfolding on_error
  on_error-Control p = ground arith

  on_choke-Control : on_choke msg w ≡ done u → Control w u
  unfolding on_choke
  on_choke-Control p = ground arith

  on_heartbeat-Control : on_heartbeat msg w ≡ done u → Control w u
  unfolding on_heartbeat
  on_heartbeat-Control p = ground arith

  on_terminate-Control : on_terminate msg w ≡ done u → Control w u
  unfolding on_terminate
  on_terminate-Control p = ground arith

  on_invoke-Control : (e : Option Error) → on_invoke msg w ≡ done (u, e) → Control w u
  unfolding on_invoke
  on_invoke-Control e p = by_name (get_event_name msg.payload) p
    where
      by_name : (m : Outcome (Option Bytes)) → (m >>= invoked msg w) ≡ done (u, e) → Control w u
      by_name (done none) p = ground arith
      by_name (done (some b)) p = ground arith
      by_name (panic x) p = cc
      by_name blocked p = cc

abbrev Controls : Worker → V1Protocol × Outcome (Worker × Option Error) → Type 0
Controls w (v, o) = (u : Worker) (e : Option Error) → o ≡ done (u, e) → Control w u

returns-Controls :
    (w : Worker) (v : V1Protocol) (o : Outcome Worker)
    → ((u : Worker) → o ≡ done u → Control w u)
    → Controls w (v, returns_nil o)
returns-Controls w v (done z) h u e p =
    let same : z ≡ u = ground arith in subst (Control w) same (h z refl)
returns-Controls w v (panic x) h u e p = cc
returns-Controls w v blocked h u e p = cc

on_message-Controls :
    (w : Worker) (msg : Message) → Controls w (on_message worker_handler w.protocol msg w)
on_message-Controls w msg = on_message_cases (Controls w) worker_handler w.protocol msg w (record {
  refused = λ e u e' p. ground arith;
  heartbeat = λ _ _. returns-Controls w w.protocol _ (λ u. on_heartbeat-Control w u msg);
  terminate = λ _ _. returns-Controls w w.protocol _ (λ u. on_terminate-Control w u msg);
  invoke = λ _ _ _ u. on_invoke-Control w u msg;
  chunk = λ _ _ _. returns-Controls w w.protocol _ (λ u. on_chunk-Control w u msg);
  choke = λ _ _ _. returns-Controls w w.protocol _ (λ u. on_choke-Control w u msg);
  error = λ _ _ _. returns-Controls w w.protocol _ (λ u. on_error-Control w u msg);
})

pub receive-Control :
    (w u : Worker) (msg : Message) (e : Option Error) → receive msg w ≡ done (u, e) → Control w u
unfolding receive
receive-Control w u msg e p =
    let m = on_message worker_handler w.protocol msg w in
    let ((z, x), q, r) = >>=-eq-done m.1 (λ y. done (with_protocol m.0 y)) p in
    let c = on_message-Controls w msg z x q in ground (arith, r)

-- ===== src/Worker/State/Lifetime.antt =====
-- What a session that has ended, or begun, means for all the messages after.
use cocaine_framework_go.Prelude.{
  ℕ, ◌≤◌, ◌<◌, ◌≡◌, refl, Bytes, subst, List, [], ◌∷◌, Option, none, some, length, arith, ◌⊎◌, inl,
  inr,
}
use cocaine_framework_go.Prelude.Maps.{lookup, delete, lookup-delete, lookup-insert}
use cocaine_framework_go.Errors.{Error}
use cocaine_framework_go.Effects.{Outcome, done, panic, blocked, ◌>>=◌, >>=-eq-done}
use cocaine_framework_go.Message.{Message}
use cocaine_framework_go.Worker.Dispatch.{V1Protocol, returns_nil, on_message}
use cocaine_framework_go.Worker.Dispatch.Cases.{on_message_cases}
use cocaine_framework_go.Worker.State.{
  Worker, Invocation, on_choke, on_chunk, on_error, on_heartbeat, on_invoke, invoked, on_terminate,
  start_handler, worker_handler, receive, get_event_name, with_protocol,
}

module _ (w u : Worker) (msg : Message) where
  on_chunk-done : on_chunk msg w ≡ done u → (u.sessions ≡ w.sessions) × (u.started ≡ w.started)
  unfolding on_chunk
  on_chunk-done p = ground arith

  on_error-done : on_error msg w ≡ done u → (u.sessions ≡ w.sessions) × (u.started ≡ w.started)
  unfolding on_error
  on_error-done p = ground arith

  on_choke-done :
      on_choke msg w ≡ done u
      → ((u.sessions ≡ w.sessions) ⊎ (u.sessions ≡ delete msg.session w.sessions))
        × (u.started ≡ w.started)
  unfolding on_choke
  on_choke-done p = ground arith

  on_terminate-done :
      on_terminate msg w ≡ done u → (u.sessions ≡ w.sessions) × (u.started ≡ w.started)
  unfolding on_terminate
  on_terminate-done p = ground arith

  on_heartbeat-done :
      on_heartbeat msg w ≡ done u → (u.sessions ≡ w.sessions) × (u.started ≡ w.started)
  unfolding on_heartbeat
  on_heartbeat-done p = ground arith

  on_invoke-done :
      (e : Option Error)
      → on_invoke msg w ≡ done (u, e)
      → (u ≡ w) ⊎ ((b : Bytes) × (u ≡ start_handler b msg w))
  unfolding on_invoke
  on_invoke-done e p = by_name (get_event_name msg.payload) p
    where
      by_name :
          (m : Outcome (Option Bytes))
          → (m >>= invoked msg w) ≡ done (u, e)
          → (u ≡ w) ⊎ ((b : Bytes) × (u ≡ start_handler b msg w))
      by_name (done none) p = inl (ground arith)
      by_name (done (some b)) p = inr (b, ground arith)
      by_name (panic x) p = cc
      by_name blocked p = cc

-- What every handler keeps of the sessions and the started handlers, relative to the greatest
-- session seen.
abbrev pub Fact : Type 1
Fact = ℕ → List (ℕ × ℕ) → List Invocation → Type 0

abbrev pub Leads : Fact → V1Protocol × Outcome (Worker × Option Error) → Type 0
Leads P (v, o) =
    (u : Worker) (e : Option Error) → o ≡ done (u, e) → P v.max_session u.sessions u.started

done_worker :
    {w u : Worker} {e e' : Option Error}
    → ◌≡◌ {A = Outcome (Worker × Option Error)} (done (w, e)) (done (u, e'))
    → w ≡ u
done_worker p = ground arith

returns-Leads :
    (P : Fact) (v : V1Protocol) (o : Outcome Worker)
    → ((u : Worker) → o ≡ done u → P v.max_session u.sessions u.started)
    → Leads P (v, returns_nil o)
returns-Leads P v (done w) h u e p =
    let same : w ≡ u = ground arith in
    subst (λ (x : Worker). P v.max_session x.sessions x.started) same (h w refl)
returns-Leads P v (panic x) h u e p = cc
returns-Leads P v blocked h u e p = cc

module _ (P : Fact) (w : Worker) (msg : Message)
    (h : P w.protocol.max_session w.sessions w.started) where
  same-Leads :
      (u : Worker)
      → (u.sessions ≡ w.sessions) × (u.started ≡ w.started)
      → P w.protocol.max_session u.sessions u.started
  same-Leads u (p, q) = rw (p, q) h

  -- It is enough to look at a choke and an invocation.
  on_message-Leads :
      P w.protocol.max_session (delete msg.session w.sessions) w.started
      → (w.protocol.max_session < msg.session
          → (b : Bytes)
          → P msg.session w.sessions w.started
            × P msg.session (start_handler b msg w).sessions (start_handler b msg w).started)
      → Leads P (on_message worker_handler w.protocol msg w)
  on_message-Leads choked started =
      on_message_cases (Leads P) worker_handler w.protocol msg w (record {
        refused = λ e u e' p. same-Leads u (ground arith);
        heartbeat =
            λ _ _. returns-Leads P w.protocol _ (λ u p. same-Leads u (on_heartbeat-done w u msg p));
        terminate =
            λ _ _. returns-Leads P w.protocol _ (λ u p. same-Leads u (on_terminate-done w u msg p));
        invoke = λ _ m _ u e p. elim (on_invoke-done w u msg e p) [
          | inl same ↦ rw same (started m []).0
          | inr (b, new) ↦ rw new (started m b).1
        ];
        chunk =
            λ _ _ _. returns-Leads P w.protocol _ (λ u p. same-Leads u (on_chunk-done w u msg p));
        choke = λ _ _ _. returns-Leads P w.protocol _ λ u p. elim (on_choke-done w u msg p).0 [
          | inl same ↦ same-Leads u (same, (on_choke-done w u msg p).1)
          | inr gone ↦ rw (gone, (on_choke-done w u msg p).1) choked
        ];
        error =
            λ _ _ _. returns-Leads P w.protocol _ (λ u p. same-Leads u (on_error-done w u msg p));
      })

  pub receive-Leads :
      P w.protocol.max_session (delete msg.session w.sessions) w.started
      → (w.protocol.max_session < msg.session
          → (b : Bytes)
          → P msg.session w.sessions w.started
            × P msg.session (start_handler b msg w).sessions (start_handler b msg w).started)
      → (u : Worker) (e : Option Error) → receive msg w ≡ done (u, e)
      → P u.protocol.max_session u.sessions u.started
  unfolding receive
  receive-Leads choked started u e p =
      let m = on_message worker_handler w.protocol msg w in
      let ((u', e'), q, r) = >>=-eq-done m.1 (λ x. done (with_protocol m.0 x)) p in
      let same : (record u' { protocol = m.0 }) ≡ u = done_worker r in
      subst (λ (x : Worker). P x.protocol.max_session x.sessions x.started) same
        (on_message-Leads choked started u' e' q)

-- The worker after a list of messages; the errors are printed and dropped.
unfoldable pub receive_all : List Message → Worker → Outcome Worker
receive_all [] w = done w
receive_all (msg ∷ msgs) w = receive msg w >>= λ r. receive_all msgs r.0

pub receive_all-cons :
    (msg : Message) (msgs : List Message) (w u : Worker)
    → receive_all (msg ∷ msgs) w ≡ done u
    → (v : Worker) × (e : Option Error) × (receive msg w ≡ done (v, e))
      × (receive_all msgs v ≡ done u)
unfolding receive_all
receive_all-cons msg msgs w u p =
    let ((v, e), q, r) = >>=-eq-done (receive msg w) (λ x. receive_all msgs x.0) p in (v, e, q, r)

-- A session that is gone from the map never comes back: whatever messages follow, it stays known
-- and stays out of the map.
pub ended_stays_ended :
    (k : ℕ) (msgs : List Message) (w u : Worker)
    → k ≤ w.protocol.max_session
    → lookup k w.sessions ≡ none
    → receive_all msgs w ≡ done u
    → (k ≤ u.protocol.max_session) × (lookup k u.sessions ≡ none)
unfolding receive_all start_handler
ended_stays_ended k [] w u h e p = ground arith
ended_stays_ended k (msg ∷ msgs) w u h e p =
    let (v, x, q, r) = receive_all-cons msg msgs w u p in
    let (h', e') =
      receive-Leads (λ m links _. (k ≤ m) × (lookup k links ≡ none)) w msg (h, e)
        (h, ground (arith, lookup-delete msg.session k w.sessions))
        (λ n b. (
          (omega arith, e),
          (omega arith, ground (arith, lookup-insert msg.session k (length w.store) w.sessions)),
        ))
        v x q in
    ended_stays_ended k msgs v u h' e' r

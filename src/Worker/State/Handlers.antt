-- ===== src/Worker/State/Handlers.antt =====
-- Every message handler returns and keeps the sessions of the worker well-formed.
use cocaine_framework_go.Prelude.{
  ℕ, Bytes, ◌≤◌, ◌<◌, ◌≡◌, ◌≢◌, refl, ◌∙◌, true, List, [], ◌∷◌, Option, none, some, get_elem?, set,
  arith, ◌⊎◌, Option-cases, inl, inr,
}
use cocaine_framework_go.Prelude.Maps.{lookup, delete}
use cocaine_framework_go.Errors.{Error, no_event_name}
use cocaine_framework_go.Effects.{Outcome, done, panic, index_out_of_range}
use cocaine_framework_go.Message.{Message, Value, byte_slice, text, v1_invoke, v1_utility_session}
use cocaine_framework_go.Worker.Dispatch.{V1Protocol, returns_nil, on_message}
use cocaine_framework_go.Worker.Dispatch.Cases.{on_message_cases}
use cocaine_framework_go.Worker.Stream
use cocaine_framework_go.Worker.Stream.{Stream}
use cocaine_framework_go.Worker.State.{
  Worker, WriteChoice, accepted, conn_closed, timed_out, update_stream, on_choke, on_chunk,
  on_error, on_heartbeat, on_invoke, on_terminate, call_termination_handler, start_handler,
  worker_handler, receive, stop, send_or_give_up, get_event_name,
}
use cocaine_framework_go.Worker.State.Invariant.{
  IsOpen, Sessions, HasSessions, Live, push-IsOpen, set-Sessions, close-Sessions, invoke-Sessions,
}

-- A call returns a worker whose sessions are well-formed, and that is equal in the rest.
abbrev Keeps : ℕ → Outcome Worker → Type 0
Keeps m o = (w : Worker) × (o ≡ done w) × Sessions m w.sessions w.store

pub update_stream_lem :
    (r : ℕ) (f : Stream → Outcome Stream) (w : Worker) (s t : Stream)
    → get_elem? w.store r ≡ some s
    → f s ≡ done t
    → update_stream r f w ≡ done (record w { store = set w.store r t })
unfolding update_stream
update_stream_lem r f w s t found p = rw (found, update_stream, p)

push-Keeps :
    (m : ℕ) (w : Worker) (msg : Message) (r : ℕ)
    → Live w.store r
    → Sessions m w.sessions w.store
    → Keeps m (update_stream r (Stream.push msg) w)
push-Keeps m w msg r (s, found, o) v =
    let (t, p, o') = push-IsOpen msg s o in
    (
      record w { store = set w.store r t },
      update_stream_lem r (Stream.push msg) w s t found p,
      set-Sessions m w.sessions w.store r t (λ _ _ _. o') v,
    )

on_chunk-Keeps :
    (m : ℕ) (w : Worker) (msg : Message) → Sessions m w.sessions w.store → Keeps m (on_chunk msg w)
unfolding on_chunk
on_chunk-Keeps m w msg v = elim (Option-cases (lookup msg.session w.sessions)) [
  | inl e ↦ (w, rw (e, on_chunk), v)
  | inr (r, e) ↦ rw (e, on_chunk) (push-Keeps m w msg r (v.live msg.session r e) v)
]

on_error-Keeps :
    (m : ℕ) (w : Worker) (msg : Message) → Sessions m w.sessions w.store → Keeps m (on_error msg w)
unfolding on_error
on_error-Keeps m w msg v = elim (Option-cases (lookup msg.session w.sessions)) [
  | inl e ↦ (w, rw (e, on_error), v)
  | inr (r, e) ↦ rw (e, on_error) (push-Keeps m w msg r (v.live msg.session r e) v)
]

close-open : (s : Stream) → IsOpen s → Stream.close s ≡ done (record s { closed = true })
unfolding Stream.close
close-open s o = ground arith

on_choke-Keeps :
    (m : ℕ) (w : Worker) (msg : Message) → Sessions m w.sessions w.store → Keeps m (on_choke msg w)
unfolding on_choke
on_choke-Keeps m w msg v = elim (Option-cases (lookup msg.session w.sessions)) [
  | inl e ↦ (w, rw (e, on_choke), v)
  | inr (r, e) ↦
      let (s, found, o) = v.live msg.session r e in
      let t : Stream = record s { closed = true } in
      (
        record w { store = set w.store r t; sessions = delete msg.session w.sessions },
        rw (e, on_choke, update_stream_lem r Stream.close w s t found (close-open s o)) refl,
        close-Sessions m w.sessions w.store msg.session r t e v,
      )
]

-- Two workers with the same sessions and protocol.
pub record IsSame (w u : Worker) : Type 0 where
  pub sessions : u.sessions ≡ w.sessions
  pub store : u.store ≡ w.store
  pub protocol : u.protocol ≡ w.protocol

pub stop-IsSame : (w : Worker) → IsSame w (stop w)
unfolding stop
stop-IsSame w = ground arith

pub send-IsSame :
    (c : WriteChoice) (msg : Message) (w : Worker) → IsSame w (send_or_give_up c msg w)
unfolding send_or_give_up
send-IsSame accepted msg w = ground arith
send-IsSame conn_closed msg w = ground arith
send-IsSame timed_out msg w = ground arith

pub IsSame-trans : {w u z : Worker} → IsSame w u → IsSame u z → IsSame w z
IsSame-trans p q = record {
  sessions = q.sessions ∙ p.sessions;
  store = q.store ∙ p.store;
  protocol = q.protocol ∙ p.protocol;
}

pub IsSame-Sessions :
    {m : ℕ} {w u : Worker}
    → IsSame w u
    → Sessions m w.sessions w.store
    → Sessions m u.sessions u.store
IsSame-Sessions p v = rw (p.sessions, p.store) v

call-IsSame : (w : Worker) → IsSame w (call_termination_handler w)
unfolding call_termination_handler
call-IsSame w = ground arith

pub on_terminate-IsSame :
    (w : Worker) (msg : Message) → (u : Worker) × (on_terminate msg w ≡ done u) × IsSame w u
unfolding on_terminate
on_terminate-IsSame w msg =
    let c = call_termination_handler w in
    let d = send_or_give_up c.next_write msg c in
    (
      stop d,
      refl,
      IsSame-trans (call-IsSame w) (IsSame-trans (send-IsSame c.next_write msg c) (stop-IsSame d)),
    )

on_terminate-Keeps :
    (m : ℕ) (w : Worker) (msg : Message)
    → Sessions m w.sessions w.store
    → Keeps m (on_terminate msg w)
on_terminate-Keeps m w msg v =
    let (u, p, same) = on_terminate-IsSame w msg in (u, p, IsSame-Sessions same v)

on_heartbeat-Keeps :
    (m : ℕ) (w : Worker) (msg : Message)
    → Sessions m w.sessions w.store
    → Keeps m (on_heartbeat msg w)
unfolding on_heartbeat
on_heartbeat-Keeps m w msg v = (_, refl, v)

-- What onMessage returns: the protocol and the call's outcome, with well-formed sessions.
abbrev Handles : V1Protocol × Outcome (Worker × Option Error) → Type 0
Handles (v, o) =
    (u : Worker) × (e : Option Error) × (o ≡ done (u, e))
    × Sessions v.max_session u.sessions u.store

returns-Handles :
    (v : V1Protocol) (o : Outcome Worker) → Keeps v.max_session o → Handles (v, returns_nil o)
returns-Handles v o (u, p, k) = (u, none, rw p, k)

Sessions-mono :
    {m k : ℕ} {links : List (ℕ × ℕ)} {store : List Stream}
    → m ≤ k
    → Sessions m links store
    → Sessions k links store
Sessions-mono h v = record {
  seen_before = λ j r e. omega (arith, v.seen_before j r e);
  live = v.live;
  apart = v.apart;
}

-- The condition under which getEventName does not run out of the payload.
abbrev pub IsInvocation : Worker → Message → Type 0
IsInvocation w msg =
    (msg.session ≢ v1_utility_session)
    × (w.protocol.max_session < msg.session)
    × (msg.msg_type ≡ v1_invoke)

event_name_cases :
    (p : List Value)
    → p ≢ []
    → (get_event_name p ≡ done none) ⊎ ((b : Bytes) × (get_event_name p ≡ done (some b)))
unfolding get_event_name
event_name_cases [] h = absurd (h refl)
event_name_cases (text b ∷ p) h = inr (b, refl)
event_name_cases (byte_slice b ∷ p) h = inr (b, refl)
event_name_cases (_ ∷ p) h = inl refl

on_invoke-Handles :
    (w : Worker) (msg : Message)
    → w.protocol.max_session < msg.session
    → msg.payload ≢ []
    → HasSessions w
    → Handles (record { max_session = msg.session }, on_invoke msg w)
unfolding on_invoke
on_invoke-Handles w msg h p v = elim (event_name_cases msg.payload p) [
  | inl e ↦ (w, some no_event_name, rw (e, on_invoke), Sessions-mono (omega arith) v)
  | inr (b, e) ↦ (
    start_handler b msg w,
    none,
    rw (e, on_invoke),
    invoke-Sessions w.protocol.max_session w.sessions w.store msg.session h v,
  )
]

on_message-Handles :
    (w : Worker) (msg : Message)
    → (IsInvocation w msg → msg.payload ≢ [])
    → HasSessions w
    → Handles (on_message worker_handler w.protocol msg w)
on_message-Handles w msg p v =
    let m = w.protocol.max_session in
    on_message_cases Handles worker_handler w.protocol msg w (record {
      refused = λ e. (w, some e, refl, v);
      heartbeat = λ _ _. returns-Handles w.protocol _ (on_heartbeat-Keeps m w msg v);
      terminate = λ _ _. returns-Handles w.protocol _ (on_terminate-Keeps m w msg v);
      invoke = λ u h t. on_invoke-Handles w msg h (p (u, h, t)) v;
      chunk = λ _ _ _. returns-Handles w.protocol _ (on_chunk-Keeps m w msg v);
      choke = λ _ _ _. returns-Handles w.protocol _ (on_choke-Keeps m w msg v);
      error = λ _ _ _. returns-Handles w.protocol _ (on_error-Keeps m w msg v);
    })

-- The worker handles any message without a panic and without waiting for ever, if an invocation
-- has a payload, and its map again holds only sessions not above the greatest one seen, each with
-- an open request of its own.
pub receive-HasSessions :
    (w : Worker) (msg : Message)
    → HasSessions w
    → (IsInvocation w msg → msg.payload ≢ [])
    → (u : Worker) × (e : Option Error) × (receive msg w ≡ done (u, e)) × HasSessions u
unfolding receive
receive-HasSessions w msg v p =
    let (u, e, q, k) = on_message-Handles w msg p v in
    let protocol = (on_message worker_handler w.protocol msg w).0 in
    (record u { protocol = protocol }, e, rw q, k)

-- An invocation of a new session with an empty payload makes the worker panic: getEventName reads
-- the first element of the payload without looking at its length.
pub receive_empty_invocation :
    (w : Worker) (msg : Message)
    → IsInvocation w msg
    → msg.payload ≡ []
    → receive msg w ≡ panic index_out_of_range
unfolding receive on_message on_invoke
receive_empty_invocation w msg i p = ground arith

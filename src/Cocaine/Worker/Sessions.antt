-- ===== src/Cocaine/Worker/Sessions.antt =====
-- cocaine/worker.go: messages of known sessions are handled, others make the worker panic.
use cocaine_framework_go.Prelude.{
  ℕ, ◌≡◌, refl, ◌∙◌, ◌==◌, if◌then◌else◌, ◌&&◌, ◌||◌, to_uint64, Bool, true, false, List, [], ◌∷◌,
  ◌++◌, none, some, length, set, arith, Bool-cases, inl, inr, Bytes, ℤ,
}
use cocaine_framework_go.Prelude.Maps.{lookup, insert, delete, lookup-delete, lookup-insert}
use cocaine_framework_go.Prelude.Links.{IsLinked, set-IsLinked, delete-IsLinked, insert-IsLinked}
use cocaine_framework_go.Effects.{done, panic, nil_dereference}
use cocaine_framework_go.Cocaine.Message.{
  MessageInterface, handshake_struct, heartbeat, terminate_struct, invoke, chunk, choke, error_msg,
  service_method, info,
}
use cocaine_framework_go.Cocaine.Relay.{
  Relay, new_request, request_push, request_close, relay_round,
}
use cocaine_framework_go.Cocaine.Worker.{
  Worker, RoundExit, goes_on, exits, on_request, worker_chunk, worker_choke, worker_invoke,
  worker_message, worker_messages,
}
use cocaine_framework_go.Worker.State.{stop_timer}

-- A request that the worker may push to and close.
abbrev IsOpen : Relay → Type 0
IsOpen r = (r.quit ≡ false) × (r.ended ≡ false)

-- Each session of the worker has an open request of its own.
abbrev pub HasRequests : Worker → Type 0
HasRequests w = IsLinked IsOpen w.sessions w.requests

push-IsOpen :
    (content : Bytes) (r : Relay)
    → IsOpen r
    → (t : Relay) × (request_push content r ≡ done t) × IsOpen t
unfolding request_push relay_round
push-IsOpen content r o = (record r { pending = r.pending ++ content ∷ [] }, ground arith, o)

close_returns : (r : Relay) → IsOpen r → (t : Relay) × (request_close r ≡ done t)
unfolding request_close
close_returns r o = (relay_round (record r { quit = true }), rw o.1 refl)

worker_chunk-HasRequests :
    (id i : ℕ) (content : Bytes) (w : Worker)
    → lookup id w.sessions ≡ some i
    → HasRequests w
    → (t : Worker) × (worker_chunk id content w ≡ done t)
      × HasRequests t
      × (t.sessions ≡ w.sessions)
unfolding worker_chunk
worker_chunk-HasRequests id i content w e v =
    let (r, found, o) = v.live id i e in
    let (r', pushed, open_still) = push-IsOpen content r o in
    (
      record w { requests = set w.requests i r' },
      rw (e, found, pushed, worker_chunk, on_request) refl,
      set-IsLinked IsOpen w.sessions w.requests i r' (λ a f p. open_still) v,
      refl,
    )

worker_choke-HasRequests :
    (id i : ℕ) (w : Worker)
    → lookup id w.sessions ≡ some i
    → HasRequests w
    → (t : Worker) × (worker_choke id w ≡ done t)
      × HasRequests t
      × (t.sessions ≡ delete id w.sessions)
unfolding worker_choke
worker_choke-HasRequests id i w e v =
    let (r, found, o) = v.live id i e in
    let (r', closed) = close_returns r o in
    (
      record w { requests = set w.requests i r'; sessions = delete id w.sessions },
      rw (e, found, closed, worker_choke, on_request) refl,
      delete-IsLinked IsOpen w.sessions w.requests id i r' e v,
      refl,
    )

-- The sessions that are open after a message, and whether a message is for an open one.
abbrev contains : ℕ → List ℕ → Bool
contains k [] = false
contains k (j ∷ js) = (j == k) || contains k js

abbrev remove : ℕ → List ℕ → List ℕ
remove k [] = []
remove k (j ∷ js) = let rest = remove k js in if j == k then rest else j ∷ rest

-- Each chunk and each choke is for a session that an invoke opened and no choke has closed.
unfoldable pub follows : List ℕ → List MessageInterface → Bool
follows opened [] = true
follows opened (chunk i content ∷ msgs) =
    contains (to_uint64 i.channel) opened && follows opened msgs
follows opened (choke i ∷ msgs) =
    contains (to_uint64 i.channel) opened && follows (remove (to_uint64 i.channel) opened) msgs
follows opened (invoke i event ∷ msgs) = follows (to_uint64 i.channel ∷ opened) msgs
follows opened (handshake_struct i u ∷ msgs) = follows opened msgs
follows opened (heartbeat i ∷ msgs) = follows opened msgs
follows opened (terminate_struct i r m ∷ msgs) = follows opened msgs
follows opened (error_msg i code m ∷ msgs) = follows opened msgs
follows opened (service_method i args ∷ msgs) = follows opened msgs

-- The worker knows these sessions.
abbrev Covers : List ℕ → List (ℕ × ℕ) → Type 0
Covers opened links = (k : ℕ) → contains k opened ≡ true → (i : ℕ) × (lookup k links ≡ some i)

contains-remove :
    (k j : ℕ) (js : List ℕ) → contains j (remove k js) ≡ (if k == j then false else contains j js)
contains-remove k j [] = ground arith
contains-remove k j (i ∷ js) = ground (arith, contains-remove k j js)

remove-Covers :
    (k : ℕ) (opened : List ℕ) (links : List (ℕ × ℕ))
    → Covers opened links
    → Covers (remove k opened) (delete k links)
remove-Covers k opened links h j p =
    let q : ((k == j) ≡ false) × (contains j opened ≡ true) =
      ground (arith, contains-remove k j opened) in
    let (i, e) = h j q.1 in (i, lookup-delete k j links ∙ rw q.0 e)

insert-Covers :
    (k i : ℕ) (opened : List ℕ) (links : List (ℕ × ℕ))
    → Covers opened links
    → Covers (k ∷ opened) (insert k i links)
insert-Covers k i opened links h j p = elim (Bool-cases (k == j)) [
  | inl same ↦ (i, lookup-insert k j i links ∙ rw same refl)
  | inr apart ↦
      let q : contains j opened ≡ true = ground arith in
      let (i', e) = h j q in (i', lookup-insert k j i links ∙ rw apart e)
]

-- The worker leaves the loop at a terminate, and only there.
abbrev pub exit_of : List MessageInterface → RoundExit
exit_of [] = goes_on
exit_of (terminate_struct i r m ∷ msgs) = exits
exit_of (msg ∷ msgs) = exit_of msgs

abbrev Kept : Worker × RoundExit → Type 0
Kept (w, x) = HasRequests w

-- From a worker whose sessions are well-formed and that knows the open ones, messages that follow
-- the sessions are all handled: the call returns, without a panic and without waiting for ever,
-- and the sessions are well-formed again. It leaves the loop if there is a terminate among the
-- messages, and otherwise goes on.
pub worker_messages-returns :
    (msgs : List MessageInterface) (opened : List ℕ) (w : Worker)
    → HasRequests w
    → Covers opened w.sessions
    → follows opened msgs ≡ true
    → (t : Worker) × (worker_messages msgs w ≡ done (t, exit_of msgs)) × HasRequests t
unfolding worker_messages follows
worker_messages-returns [] opened w v c f = (w, refl, v)
worker_messages-returns (chunk i content ∷ msgs) opened w v c f =
    let k = to_uint64 i.channel in
    let (known, later) : (contains k opened ≡ true) × (follows opened msgs ≡ true) = ground arith in
    let (place, e) = c k known in
    let (u, q, v', same) = worker_chunk-HasRequests k place content w e v in
    let (t, r, v'') = worker_messages-returns msgs opened u v' (rw same c) later in
    (t, rw (q, worker_message) r, v'')
worker_messages-returns (choke i ∷ msgs) opened w v c f =
    let k = to_uint64 i.channel in
    let (known, later) : (contains k opened ≡ true) × (follows (remove k opened) msgs ≡ true) =
      ground arith in
    let (place, e) = c k known in
    let (u, q, v', same) = worker_choke-HasRequests k place w e v in
    let (t, r, v'') =
      worker_messages-returns msgs (remove k opened) u v'
        (rw same (remove-Covers k opened w.sessions c)) later in
    (t, rw (q, worker_message) r, v'')
worker_messages-returns (invoke i event ∷ msgs) opened w v c f =
    let k = to_uint64 i.channel in
    worker_messages-returns msgs (k ∷ opened) (worker_invoke i.channel event w)
      (insert-IsLinked IsOpen w.sessions w.requests k new_request (refl, refl) v)
      (insert-Covers k (length w.requests) opened w.sessions c) f
worker_messages-returns (handshake_struct i u ∷ msgs) opened w v c f =
    worker_messages-returns msgs opened w v c f
worker_messages-returns (heartbeat i ∷ msgs) opened w v c f =
    worker_messages-returns msgs opened (record w { disown_timer = stop_timer w.disown_timer }) v c
      f
worker_messages-returns (terminate_struct i r m ∷ msgs) opened w v c f = (w, refl, v)
worker_messages-returns (error_msg i code m ∷ msgs) opened w v c f =
    worker_messages-returns msgs opened w v c f
worker_messages-returns (service_method i args ∷ msgs) opened w v c f =
    worker_messages-returns msgs opened w v c f

-- A chunk or a choke of a session that the worker does not have makes it panic with a nil pointer.
pub unknown_session_panics :
    (session : ℤ) (content : Bytes) (number : ℤ) (w : Worker)
    → lookup (to_uint64 session) w.sessions ≡ none
    → (worker_message (chunk (info number session) content) w ≡ panic nil_dereference)
      × (worker_message (choke (info number session)) w ≡ panic nil_dereference)
unfolding worker_message worker_chunk worker_choke
unknown_session_panics session content number w e =
    (rw (e, worker_chunk) refl, rw (e, worker_choke) refl)

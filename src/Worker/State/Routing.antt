-- ===== src/Worker/State/Routing.antt =====
-- Where a message goes, and what a session that has ended or begun means for the messages after.
use cocaine_framework_go.Prelude.{
  ℕ, ◌≤◌, ◌≡◌, ◌≢◌, leb, subst, if◌then◌else◌, [], ◌∷◌, ◌++◌, Option, none, some, get_elem?, set,
  arith, ◌⊎◌,
}
use cocaine_framework_go.Prelude.Maps.{lookup}
use cocaine_framework_go.Errors.{Error, invalid_message_type}
use cocaine_framework_go.Effects.{done}
use cocaine_framework_go.Message.{Message, v1_utility_session, v1_write, v1_error}
use cocaine_framework_go.Worker.Dispatch.{on_message}
use cocaine_framework_go.Worker.Stream
use cocaine_framework_go.Worker.Stream.{Stream}
use cocaine_framework_go.Worker.State.{Worker, on_choke, on_chunk, on_error, receive}
use cocaine_framework_go.Worker.State.Invariant.{IsOpen, HasSessions}
use cocaine_framework_go.Worker.State.Handlers.{update_stream_lem}

push-open :
    (msg : Message) (s : Stream)
    → IsOpen s
    → Stream.push msg s ≡ done (record s { pending = s.pending ++ msg ∷ [] })
unfolding Stream.push
push-open msg s o = ground arith

-- The worker after a push to the request at `r`.
abbrev pub queued : Worker → Message → ℕ → Stream → Worker
queued w msg r s = record w { store = set w.store r (record s { pending = s.pending ++ msg ∷ [] }) }

module _ (w : Worker) (msg : Message) (r : ℕ) (s : Stream)
    (e : lookup msg.session w.sessions ≡ some r) (found : get_elem? w.store r ≡ some s)
    (o : IsOpen s) where
  on_chunk-queued : on_chunk msg w ≡ done (queued w msg r s)
  unfolding on_chunk
  on_chunk-queued =
      rw (e, on_chunk) (update_stream_lem r (Stream.push msg) w s _ found (push-open msg s o))

  on_error-queued : on_error msg w ≡ done (queued w msg r s)
  unfolding on_error
  on_error-queued =
      rw (e, on_error) (update_stream_lem r (Stream.push msg) w s _ found (push-open msg s o))

-- A chunk or an error for a session of the map is appended to the queue of the session's request,
-- and changes nothing else.
pub receive_routes :
    (w : Worker) (msg : Message) (r : ℕ) (s : Stream)
    → HasSessions w
    → msg.session ≢ v1_utility_session
    → (msg.msg_type ≡ v1_write) ⊎ (msg.msg_type ≡ v1_error)
    → lookup msg.session w.sessions ≡ some r
    → get_elem? w.store r ≡ some s
    → receive msg w ≡ done (queued w msg r s, none)
unfolding receive on_message
receive_routes w msg r s v u t e found =
    let (s', found', o') = v.live msg.session r e in
    let o : IsOpen s = subst IsOpen (ground arith) o' in
    ground (
      arith,
      v.seen_before msg.session r e,
      on_chunk-queued w msg r s e found o,
      on_error-queued w msg r s e found o,
    )

unknown-queued :
    (w : Worker) (msg : Message)
    → lookup msg.session w.sessions ≡ none
    → (on_chunk msg w ≡ done w) × (on_error msg w ≡ done w) × (on_choke msg w ≡ done w)
unfolding on_chunk on_error on_choke
unknown-queued w msg e = (rw (e, on_chunk), rw (e, on_error), rw (e, on_choke))

-- The error that onMessage returns for a message of a known session.
abbrev pub known_error : Message → Option Error
known_error msg = if leb msg.msg_type 2 then none else some (invalid_message_type msg.msg_type)

-- A message for a session that is known and not in the map changes nothing.
pub receive_late :
    (w : Worker) (msg : Message)
    → msg.session ≢ v1_utility_session
    → msg.session ≤ w.protocol.max_session
    → lookup msg.session w.sessions ≡ none
    → receive msg w ≡ done (w, known_error msg)
unfolding receive on_message
receive_late w msg u h e = ground (arith, unknown-queued w msg e)

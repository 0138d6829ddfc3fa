-- ===== src/Worker/Dispatch.antt =====
-- cocaine12/wprotov1.go, onMessage and dispatchUtilityMessage, over the interface
-- protocolHandler of cocaine12/worker_protocol.go. A handler's methods act on a state `S`.
pub mod Cases
use cocaine_framework_go.Prelude.{ℕ, ltb, ◌==◌, if◌then◌else◌, Option, none, some}
use cocaine_framework_go.Errors.{
  Error, session_must_start_from_invoke, invalid_message_type, invalid_utility_message_type,
}
use cocaine_framework_go.Effects.{Outcome, done, ◌>>=◌}
use cocaine_framework_go.Message.{
  Message, v1_heartbeat, v1_invoke, v1_write, v1_error, v1_close, v1_terminate, v1_utility_session,
}

pub record ProtocolHandler (S : Type 0) : Type 0 where
  pub on_choke : Message → S → Outcome S
  pub on_chunk : Message → S → Outcome S
  pub on_error : Message → S → Outcome S
  pub on_heartbeat : Message → S → Outcome S
  pub on_invoke : Message → S → Outcome (S × Option Error)
  pub on_terminate : Message → S → Outcome S

pub record V1Protocol : Type 0 where
  pub max_session : ℕ

abbrev pub new_v1_protocol : V1Protocol
new_v1_protocol = record { max_session = 1 }

-- The result of a method that returns no error.
abbrev pub returns_nil : {S : Type 0} → Outcome S → Outcome (S × Option Error)
returns_nil m = m >>= λ s. done (s, none)

module _ {S : Type 0} (p : ProtocolHandler S) where
  unfoldable pub dispatch_utility_message : Message → S → Outcome (S × Option Error)
  dispatch_utility_message msg s =
      if msg.msg_type == v1_heartbeat
      then returns_nil (p.on_heartbeat msg s)
      else if msg.msg_type == v1_terminate
      then returns_nil (p.on_terminate msg s)
      else done (s, some (invalid_utility_message_type msg.msg_type))

  -- The switch for a session that is not new.
  unfoldable pub dispatch_known : Message → S → Outcome (S × Option Error)
  dispatch_known msg s =
      if msg.msg_type == v1_write
      then returns_nil (p.on_chunk msg s)
      else if msg.msg_type == v1_close
      then returns_nil (p.on_choke msg s)
      else if msg.msg_type == v1_error
      then returns_nil (p.on_error msg s)
      else done (s, some (invalid_message_type msg.msg_type))

  -- The protocol is updated before the handler runs; the state is updated by the handler alone.
  unfoldable pub on_message : V1Protocol → Message → S → V1Protocol × Outcome (S × Option Error)
  unfolding dispatch_utility_message dispatch_known
  on_message v msg s =
      if msg.session == v1_utility_session
      then (v, dispatch_utility_message msg s)
      else if ltb v.max_session msg.session
      then (if msg.msg_type == v1_invoke
          then (record v { max_session = msg.session }, p.on_invoke msg s)
          else (v, done (s, some (session_must_start_from_invoke msg.session msg.msg_type))))
      else (v, dispatch_known msg s)

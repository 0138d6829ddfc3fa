-- ===== src/Worker/Dispatch/Cases.antt =====
-- One rule for all proofs about the dispatcher: the cases of a message.
use cocaine_framework_go.Prelude.{
  ◌≤◌, ◌<◌, ◌≡◌, ◌≢◌, ◌==◌, ltb, ltb→lt, ==_iff, Bool-cases, inl, inr, Option, some, arith,
}
use cocaine_framework_go.Errors.{Error}
use cocaine_framework_go.Effects.{Outcome, done}
use cocaine_framework_go.Message.{
  Message, v1_heartbeat, v1_invoke, v1_write, v1_error, v1_close, v1_terminate, v1_utility_session,
}
use cocaine_framework_go.Worker.Dispatch.{
  ProtocolHandler, V1Protocol, returns_nil, dispatch_utility_message, dispatch_known, on_message,
}

module _ {S : Type 0} (P : V1Protocol × Outcome (S × Option Error) → Type 0) (p : ProtocolHandler S)
    (v : V1Protocol) (msg : Message) (s : S) where
  -- What has to be shown of each method of the handler, and of a refused message.
  pub record Cases : Type 0 where
    pub refused : (e : Error) → P (v, done (s, some e))
    pub heartbeat :
        msg.session ≡ v1_utility_session
        → msg.msg_type ≡ v1_heartbeat
        → P (v, returns_nil (p.on_heartbeat msg s))
    pub terminate :
        msg.session ≡ v1_utility_session
        → msg.msg_type ≡ v1_terminate
        → P (v, returns_nil (p.on_terminate msg s))
    pub invoke :
        msg.session ≢ v1_utility_session
        → v.max_session < msg.session
        → msg.msg_type ≡ v1_invoke
        → P (record { max_session = msg.session }, p.on_invoke msg s)
    pub chunk :
        msg.session ≢ v1_utility_session
        → msg.session ≤ v.max_session
        → msg.msg_type ≡ v1_write
        → P (v, returns_nil (p.on_chunk msg s))
    pub choke :
        msg.session ≢ v1_utility_session
        → msg.session ≤ v.max_session
        → msg.msg_type ≡ v1_close
        → P (v, returns_nil (p.on_choke msg s))
    pub error :
        msg.session ≢ v1_utility_session
        → msg.session ≤ v.max_session
        → msg.msg_type ≡ v1_error
        → P (v, returns_nil (p.on_error msg s))

  utility_cases : Cases → msg.session ≡ v1_utility_session → P (v, dispatch_utility_message p msg s)
  unfolding dispatch_utility_message
  utility_cases c u = elim (Bool-cases (msg.msg_type == v1_heartbeat)) [
    | inl e ↦ rw e (c.heartbeat u ((==_iff _ _).0 e))
    | inr e ↦ elim (Bool-cases (msg.msg_type == v1_terminate)) [
      | inl f ↦ rw (e, f) (c.terminate u ((==_iff _ _).0 f))
      | inr f ↦ rw (e, f) (c.refused _)
    ]
  ]

  known_cases :
      Cases
      → msg.session ≢ v1_utility_session
      → msg.session ≤ v.max_session
      → P (v, dispatch_known p msg s)
  unfolding dispatch_known
  known_cases c u h = elim (Bool-cases (msg.msg_type == v1_write)) [
    | inl e ↦ rw e (c.chunk u h ((==_iff _ _).0 e))
    | inr e ↦ elim (Bool-cases (msg.msg_type == v1_close)) [
      | inl f ↦ rw (e, f) (c.choke u h ((==_iff _ _).0 f))
      | inr f ↦ elim (Bool-cases (msg.msg_type == v1_error)) [
        | inl g ↦ rw (e, f, g) (c.error u h ((==_iff _ _).0 g))
        | inr g ↦ rw (e, f, g) (c.refused _)
      ]
    ]
  ]

  pub on_message_cases : Cases → P (on_message p v msg s)
  unfolding on_message
  on_message_cases c = elim (Bool-cases (msg.session == v1_utility_session)) [
    | inl e ↦ rw e (utility_cases c ((==_iff _ _).0 e))
    | inr e ↦ elim (Bool-cases (ltb v.max_session msg.session)) [
      | inl f ↦ elim (Bool-cases (msg.msg_type == v1_invoke)) [
        | inl g ↦ rw (e, f, g) (c.invoke (ground arith) (ltb→lt _ _ f) ((==_iff _ _).0 g))
        | inr g ↦ rw (e, f, g) (c.refused _)
      ]
      | inr f ↦ rw (e, f) (known_cases c (ground arith) (ground arith))
    ]
  ]

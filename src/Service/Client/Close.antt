-- ===== src/Service/Client/Close.antt =====
-- Close, and what a Call after it does.
use cocaine_framework_go.Prelude.{◌≡◌, ◌∙◌, Bytes, true, List, none, some, arith}
use cocaine_framework_go.Errors.{Error, err}
use cocaine_framework_go.Effects.{done, panic, close_of_closed_channel}
use cocaine_framework_go.Message.{Value}
use cocaine_framework_go.Service.Client
use cocaine_framework_go.Service.Client.{
  Service, service_call, reopened, push_disconnected_error, reconnect, replace_socket, call,
  call_after,
}
use cocaine_framework_go.Service.Client.Quiet.{disconnect-IsQuiet}

-- A Call on a service that Close has closed panics when the service can be reached again and the
-- delivery of the lost connection to its channels returns: Reconnect closes the channel `stop`,
-- which Close has closed.
pub call_after_close_panics :
    (name : Bytes) (args headers : List Value) (s t u : Service)
    → Client.close s ≡ done t
    → push_disconnected_error t ≡ done u
    → call name args headers none t ≡ panic close_of_closed_channel
unfolding call reconnect Client.close
call_after_close_panics name args headers s t u p q =
    let quiet = disconnect-IsQuiet t u q in
    let stopped : u.stop_closed ≡ true = quiet.stop_closed ∙ ground arith in
    let closed : t.is_closed ≡ true = ground arith in simp (closed, q, stopped)

-- A Call on a disconnected service that cannot be reached returns the error of the attempt and
-- opens nothing, if the delivery of the lost connection to its channels returns.
pub call_unreachable :
    (name : Bytes) (args headers : List Value) (s u : Service) (e : Error)
    → s.is_closed ≡ true
    → push_disconnected_error s ≡ done u
    → (call name args headers (some e) s ≡ done (u, err e))
      × (u.sent ≡ s.sent)
      × (u.sessions.counter ≡ s.sessions.counter)
unfolding call reconnect
call_unreachable name args headers s u e c q =
    let quiet = disconnect-IsQuiet s u q in (simp (c, q), quiet.sent, quiet.counter)

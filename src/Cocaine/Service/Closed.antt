-- ===== src/Cocaine/Service/Closed.antt =====
-- cocaine/service.go: a Call on a service that its client has closed.
use cocaine_framework_go.Prelude.{
  ◌⊎◌, inl, inr, subst, ◌≡◌, refl, sym, true, false, List, none, Bytes, arith,
}
use cocaine_framework_go.Effects.{
  Outcome, done, panic, blocked, Safely, ◌>>=◌, close_of_closed_channel,
}
use cocaine_framework_go.Message.{Value}
use cocaine_framework_go.Cocaine.Service.Safety.{HasPairs, IsUsableAt, drop_sessions-IsUsableAt}
use cocaine_framework_go.Cocaine.Service.{
  Client, keeper_keys, drop_sessions, new_socket, client_reconnect, client_close,
  client_call_checked, call_if, reset,
}

-- A call ends in this panic, or waits for ever.
abbrev pub PanicsOrWaits {ℓ} : {A : Type ℓ} → Outcome A → Type ℓ
PanicsOrWaits m = (m ≡ panic close_of_closed_channel) ⊎ (m ≡ blocked)

>>=-PanicsOrWaits {ℓ κ} :
    {A : Type ℓ} {B : Type κ} (m : Outcome A) (f : A → Outcome B)
    → PanicsOrWaits m
    → PanicsOrWaits (m >>= f)
>>=-PanicsOrWaits m f (inl e) = inl (rw e refl)
>>=-PanicsOrWaits m f (inr e) = inr (rw e refl)

then_panics {ℓ} :
    {B : Type ℓ} (m : Outcome Client) (f : Client → Outcome B)
    → Safely (IsUsableAt true) m
    → ((t : Client) → IsUsableAt true t → f t ≡ panic close_of_closed_channel)
    → PanicsOrWaits (m >>= f)
then_panics (done t) f u h = inl (h t u)
then_panics (panic p) f u h = absurd u
then_panics blocked f u h = inr refl

reconnect_after_close :
    (s : Client)
    → IsUsableAt true s
    → s.is_reconnecting ≡ false
    → s.is_closed ≡ true
    → PanicsOrWaits (client_reconnect false none s)
unfolding new_socket client_close client_reconnect drop_sessions
reconnect_after_close s u idle lost =
    let s' = record s { is_reconnecting = true } in
    let opened : client_reconnect false none s ≡ (
        drop_sessions (keeper_keys s.sessions) s' >>= λ t.
        new_socket none t >>= λ x. done (reset x)) =
      rw (client_reconnect, idle, lost) refl in
    subst PanicsOrWaits (sym opened) (
      then_panics (drop_sessions (keeper_keys s.sessions) s') _
        (drop_sessions-IsUsableAt true (keeper_keys s.sessions) s' u) (λ t u'. rw u'.1 refl))

-- After a Close of the client, while no Reconnect is under way, a Call that can resolve the service
-- and connect to it does not return: if each session has an open pair of its own, it closes the
-- closed channel `stop`, which panics, or waits for ever at a session.
pub call_after_close :
    (name : Bytes) (args : List Value) (s t : Client)
    → HasPairs s
    → client_close s ≡ done t
    → s.is_reconnecting ≡ false
    → PanicsOrWaits (client_call_checked name args none t)
unfolding client_close client_call_checked
call_after_close name args s t v c idle =
    let closed : (t.stop_closed ≡ true) × (t.is_closed ≡ true) × (t.is_reconnecting ≡ false) =
      ground arith in
    let same : record s { stop_closed = true; is_closed = true } ≡ t = ground arith in
    let checked : client_call_checked name args none t
        ≡ (client_reconnect false none t >>= call_if name args) =
      rw (client_call_checked, closed.1) refl in
    subst PanicsOrWaits (sym checked) (
      >>=-PanicsOrWaits (client_reconnect false none t) (call_if name args)
        (reconnect_after_close t (subst HasPairs same v, closed.0) closed.2 closed.1))

-- ===== src/Cocaine/Service/Runs.antt =====
-- cocaine/service.go: no event but a Close of the client makes a panic possible.
use cocaine_framework_go.Prelude.{ℕ, ◌≡◌, List, [], ◌∷◌, Option, none, some}
use cocaine_framework_go.Cocaine.Service.{Client, detached}
use cocaine_framework_go.Cocaine.Service.Steps.{
  ClientEvent, closes_service, closes_session, detaches,
}
use cocaine_framework_go.Cocaine.Service.Safety.{IsUsable}

abbrev WithUsable {ℓ} : {A : Type ℓ} → Client × A → Type 0
WithUsable (s, a) = IsUsable s

-- The session that the next event detaches.
abbrev pub detach_of : List ClientEvent → Option ℕ
detach_of (detaches id ∷ es) = some id
detach_of _ = none

-- The client does not call Close, and what follows the close of a session's channel is its Detach.
abbrev pub Follows : ClientEvent → List ClientEvent → Type 0
Follows closes_service es = ⊥
Follows (closes_session id) es = detach_of es ≡ some id
Follows _ es = Unit {0}

abbrev pub IsOrderly : List ClientEvent → Type 0
IsOrderly [] = Unit {0}
IsOrderly (e ∷ es) = Follows e es × IsOrderly es

-- Usable, once the session is detached that is about to be.
abbrev after_detach : Option ℕ → Client → Client
after_detach none s = s
after_detach (some id) s = detached id s

abbrev IsReady : List ClientEvent → Client → Type 0
IsReady es s = IsUsable (after_detach (detach_of es) s)

-- ===== src/Worker/Events.antt =====
-- cocaine12/worker_handlers.go: EventHandlers. A handler is a function from its request to what it
-- does with its response; `none` is a nil handler.
pub mod Registry
use cocaine_framework_go.Prelude.{
  if◌then◌else◌, Bytes, bytes, bytes_eq, List, [], ◌∷◌, ◌++◌, Option, none, some,
}
use cocaine_framework_go.Worker.Response.{Act, fails, error_no_event_handler}

module _ {ℓ} (R : Type ℓ) where
  abbrev pub EventHandler : Type ℓ
  EventHandler = R → List Act

  pub record EventHandlers : Type ℓ where
    pub fallback : Bytes → R → List Act
    pub handlers : List (Bytes × Option EventHandler)

module _ {ℓ} {R : Type ℓ} where
  abbrev pub default_fallback_handler : Bytes → R → List Act
  default_fallback_handler event req =
      fails error_no_event_handler (bytes "There is no handler for an event " ++ event) ∷ []

  abbrev pub new_event_handlers_from_map : List (Bytes × Option (EventHandler R)) → EventHandlers R
  new_event_handlers_from_map handlers = record {
    fallback = default_fallback_handler;
    handlers = handlers;
  }

  abbrev pub new_event_handlers : EventHandlers R
  new_event_handlers = new_event_handlers_from_map []

  -- handlers[name] = handler
  abbrev pub put_handler :
      Bytes
      → Option (EventHandler R)
      → List (Bytes × Option (EventHandler R))
      → List (Bytes × Option (EventHandler R))
  put_handler name handler [] = (name, handler) ∷ []
  put_handler name handler ((n, h) ∷ m) =
      let rest = put_handler name handler m in
      if bytes_eq n name then (n, handler) ∷ m else (n, h) ∷ rest

  unfoldable pub on : Bytes → Option (EventHandler R) → EventHandlers R → EventHandlers R
  on name handler e = record e { handlers = put_handler name handler e.handlers }

  unfoldable pub set_fallback_handler : (Bytes → R → List Act) → EventHandlers R → EventHandlers R
  set_fallback_handler handler e = record e { fallback = handler }

  -- handlers[event], nil if it is not there
  abbrev pub handler_of : Bytes → List (Bytes × Option (EventHandler R)) → Option (EventHandler R)
  handler_of event [] = none
  handler_of event ((n, h) ∷ m) = if bytes_eq n event then h else handler_of event m

  abbrev pub or_fallback : (Bytes → R → List Act) → Bytes → R → Option (EventHandler R) → List Act
  or_fallback fallback event req none = fallback event req
  or_fallback fallback event req (some h) = h req

  unfoldable pub call : Bytes → R → EventHandlers R → List Act
  call event req e = or_fallback e.fallback event req (handler_of event e.handlers)

-- ===== src/Worker/Events/Registry.antt =====
-- Which handler runs.
use cocaine_framework_go.Prelude.{
  ℕ, ◌≡◌, refl, sym, ap, ◌∙◌, if◌then◌else◌, true, false, Bytes, bytes, bytes_eq, bytes_eq_sound,
  bytes_eq_refl, List, [], ◌∷◌, ◌++◌, Option, none, Bool-cases, inl, inr, arith,
}
use cocaine_framework_go.Message.{new_error_v1}
use cocaine_framework_go.Worker.Response.{serve, cworkererrorcategory, error_no_event_handler}
use cocaine_framework_go.Worker.Response.Terminal.{serve_ends_once}
use cocaine_framework_go.Worker.Events
use cocaine_framework_go.Worker.Events.{
  EventHandler, EventHandlers, default_fallback_handler, new_event_handlers, put_handler, on,
  handler_of, or_fallback,
}

other :
    (n name event : Bytes)
    → bytes_eq n name ≡ false
    → bytes_eq n event ≡ true
    → bytes_eq name event ≡ false
other n name event e d = elim (Bool-cases (bytes_eq name event)) [
  | inr f ↦ f
  | inl f ↦
      let same : n ≡ name = bytes_eq_sound n event d ∙ sym (bytes_eq_sound name event f) in
      let equal : bytes_eq n name ≡ true = ap (bytes_eq n) (sym same) ∙ bytes_eq_refl n in cc
]

module _ {ℓ} {R : Type ℓ} where
  -- The calls of On, in their order.
  abbrev pub on_all : List (Bytes × Option (EventHandler R)) → EventHandlers R → EventHandlers R
  on_all [] e = e
  on_all ((name, h) ∷ ons) e = on_all ons (on name h e)

  -- The handler of the last call of On for an event, if there is one; else what was there.
  abbrev pub last_on :
      Bytes
      → List (Bytes × Option (EventHandler R))
      → Option (EventHandler R)
      → Option (EventHandler R)
  last_on event [] before = before
  last_on event ((name, h) ∷ ons) before =
      last_on event ons (if bytes_eq name event then h else before)

  handler_of-put_handler :
      (event name : Bytes) (h : Option (EventHandler R))
      (m : List (Bytes × Option (EventHandler R)))
      → handler_of event (put_handler name h m)
        ≡ (if bytes_eq name event then h else handler_of event m)
  handler_of-put_handler event name h [] = refl
  handler_of-put_handler event name h ((n, x) ∷ m) = elim (Bool-cases (bytes_eq n name)) [
    | inl e ↦
        let same : bytes_eq n event ≡ bytes_eq name event =
          ap (λ z. bytes_eq z event) (bytes_eq_sound n name e) in
        rw e (ground (arith, same))
    | inr e ↦
        let rest = handler_of-put_handler event name h m in
        elim (Bool-cases (bytes_eq n event)) [
          | inl d ↦ rw (e, d, other n name event e d) refl
          | inr d ↦ rw (e, d) rest
        ]
  ]

  on_all-handlers :
      (event : Bytes) (ons : List (Bytes × Option (EventHandler R))) (e : EventHandlers R)
      → (handler_of event (on_all ons e).handlers ≡ last_on event ons (handler_of event e.handlers))
        × ((on_all ons e).fallback ≡ e.fallback)
  unfolding on
  on_all-handlers event [] e = (refl, refl)
  on_all-handlers event ((name, h) ∷ ons) e =
      let (p, q) = on_all-handlers event ons (on name h e) in
      (p ∙ ap (last_on event ons) (handler_of-put_handler event name h e.handlers), q)

  -- Call runs the handler of the last call of On for the event; if there was none, or it was nil,
  -- the client gets one error, of code 200 with the event's name, and nothing else.
  pub call_after_on :
      (event : Bytes) (req : R) (ons : List (Bytes × Option (EventHandler R))) (stack : Bytes)
      (session : ℕ)
      → (Events.call event req (on_all ons new_event_handlers)
          ≡ or_fallback default_fallback_handler event req (last_on event ons none))
        × (last_on event ons none ≡ none
            → serve event (Events.call event req (on_all ons new_event_handlers)) none stack session
              ≡ new_error_v1 session cworkererrorcategory error_no_event_handler
                  (bytes "There is no handler for an event " ++ event)
                ∷ [])
  unfolding Events.call
  call_after_on event req ons stack session =
      let (p, q) = on_all-handlers event ons new_event_handlers in
      let runs =
        ap
          (λ f. or_fallback f event req (handler_of event (on_all ons new_event_handlers).handlers))
          q
        ∙ ap (or_fallback default_fallback_handler event req) p in
      (
        runs,
        (λ unknown.
            ap (λ acts. serve event acts none stack session)
              (runs ∙ ap (or_fallback default_fallback_handler event req) unknown)
            ∙ serve_ends_once event (default_fallback_handler event req) none stack session),
      )

-- ===== src/Service/Connect.antt =====
-- cocaine12/service.go and cocaine12/locator.go: connecting to the first endpoint that answers. The
-- attempt itself (newAsyncConnection) is the parameter `dial`.
use cocaine_framework_go.Prelude.{
  ◌≡◌, refl, sym, ap, ◌∙◌, append-nil, append_assoc, List, [], ◌∷◌, ◌++◌, Option, none, some, ◌⊎◌,
  inl, inr,
}
use cocaine_framework_go.Errors.{Error, Result, ok, err}

-- What serviceCreateIO returns: a socket, ErrZeroEndpoints, or the errors of all endpoints.
pub data Created {ℓ κ} (E : Type ℓ) (S : Type κ) : Type (ℓ ⊔ κ) where
  created : S → Created E S
  zero_endpoints : Created E S
  multi_connection_error : List (E × Error) → Created E S

Result-cases {ℓ} :
    {A : Type ℓ} (m : Result A) → ((a : A) × (m ≡ ok a)) ⊎ ((e : Error) × (m ≡ err e))
Result-cases (ok a) = inl (a, refl)
Result-cases (err e) = inr (e, refl)

module _ {ℓ κ} {E : Type ℓ} {S : Type κ} (dial : E → Result S) where
  -- The loop of serviceCreateIO, with mErr.
  unfoldable pub create_loop : List (E × Error) → List E → Created E S
  create_loop errors [] = multi_connection_error errors
  create_loop errors (endpoint ∷ endpoints) = elim (dial endpoint) [
    | ok sock ↦ created sock
    | err e ↦ create_loop (errors ++ (endpoint, e) ∷ []) endpoints
  ]

  unfoldable pub service_create_io : List E → Created E S
  unfolding create_loop
  service_create_io [] = zero_endpoints
  service_create_io (endpoint ∷ endpoints) = create_loop [] (endpoint ∷ endpoints)

  -- CONN_LOOP of NewLocator: the variables sock and err after it.
  unfoldable pub conn_loop : Option S × Option Error → List E → Option S × Option Error
  conn_loop (sock, e) [] = (sock, e)
  conn_loop (sock, e) (endpoint ∷ endpoints) = elim (dial endpoint) [
    | ok s ↦ (some s, none)
    | err x ↦ conn_loop (none, some x) endpoints
  ]

  -- The endpoints of NewLocator, and its socket or its error; `defaults` are the locators of the
  -- command line.
  unfoldable pub new_locator : List E → List E → Option S × Option Error
  unfolding conn_loop
  new_locator defaults [] = conn_loop (none, none) defaults
  new_locator defaults (endpoint ∷ endpoints) = conn_loop (none, none) (endpoint ∷ endpoints)

  -- The endpoints are tried in order: the first one that answers, after those that do not.
  pub data Tries : List E → List (E × Error) → Option S → Type (ℓ ⊔ κ) where
    none_left : Tries [] [] none
    answers : (e : E) (s : S) (es : List E) → dial e ≡ ok s → Tries (e ∷ es) [] (some s)
    refuses :
        (e : E) (x : Error) (es : List E) (errors : List (E × Error)) (r : Option S)
        → dial e ≡ err x
        → Tries es errors r
        → Tries (e ∷ es) ((e, x) ∷ errors) r

  -- What serviceCreateIO makes of them.
  abbrev pub io_of : List (E × Error) → Option S → Created E S
  io_of errors none = multi_connection_error errors
  io_of errors (some s) = created s

  -- What NewLocator makes of them: the last error counts.
  abbrev last_error : Option Error → List (E × Error) → Option Error
  last_error e [] = e
  last_error e ((endpoint, x) ∷ errors) = last_error (some x) errors

  abbrev pub locator_from : Option Error → List (E × Error) → Option S → Option S × Option Error
  locator_from before errors none = (none, last_error before errors)
  locator_from before errors (some s) = (some s, none)

  create_loop-Tries :
      (es : List E) (seen errors : List (E × Error)) (r : Option S)
      → Tries es errors r
      → create_loop seen es ≡ io_of (seen ++ errors) r
  unfolding create_loop
  create_loop-Tries _ seen _ _ none_left = ap multi_connection_error (sym (append-nil seen))
  create_loop-Tries _ seen _ _ (answers e s es p) = rw (p, create_loop) refl
  create_loop-Tries _ seen _ _ (refuses e x es errors r p t) =
      rw (p, create_loop)
        (create_loop-Tries es (seen ++ (e, x) ∷ []) errors r t
          ∙ ap (λ l. io_of l r) (append_assoc seen ((e, x) ∷ []) errors))

  conn_loop-Tries :
      (es : List E) (before : Option Error) (errors : List (E × Error)) (r : Option S)
      → Tries es errors r
      → conn_loop (none, before) es ≡ locator_from before errors r
  unfolding conn_loop
  conn_loop-Tries _ before _ _ none_left = refl
  conn_loop-Tries _ before _ _ (answers e s es p) = rw (p, conn_loop) refl
  conn_loop-Tries _ before _ _ (refuses e x es errors r p t) =
      rw (p, conn_loop) (conn_loop-Tries es (some x) errors r t ∙ refused r)
    where
      refused :
          (r : Option S) → locator_from (some x) errors r ≡ locator_from before ((e, x) ∷ errors) r
      refused none = refl
      refused (some s) = refl

  -- Some run of attempts always exists.
  tries : (es : List E) → (errors : List (E × Error)) × (r : Option S) × Tries es errors r
  tries [] = ([], none, none_left)
  tries (e ∷ es) = elim (Result-cases (dial e)) [
    | inl (s, p) ↦ ([], some s, answers e s es p)
    | inr (x, p) ↦
        let (errors, r, t) = tries es in ((e, x) ∷ errors, r, refuses e x es errors r p t)
  ]

  -- Connecting to a service and connecting to a locator both try the endpoints in order and stop at
  -- the first one that answers, after the ones that do not. If one answers, both use its socket. If
  -- none does, the service has the error of each endpoint in order, and the locator the last one.
  pub connects_in_order :
      (e : E) (es defaults : List E)
      → (errors : List (E × Error)) × (r : Option S) × Tries (e ∷ es) errors r
        × (service_create_io (e ∷ es) ≡ io_of errors r)
        × (new_locator defaults (e ∷ es) ≡ locator_from none errors r)
  unfolding service_create_io new_locator
  connects_in_order e es defaults =
      let (errors, r, t) = tries (e ∷ es) in
      (
        errors,
        r,
        t,
        create_loop-Tries (e ∷ es) [] errors r t,
        conn_loop-Tries (e ∷ es) none errors r t,
      )

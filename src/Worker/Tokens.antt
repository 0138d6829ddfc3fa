-- ===== src/Worker/Tokens.antt =====
-- cocaine12/token.go: the registry of token manager factories. What a factory creates, or its error,
-- is a parameter; the lock makes each call one step.
use cocaine_framework_go.Prelude.{
  ◌≡◌, refl, sym, ◌∙◌, if◌then◌else◌, Bytes, bytes_eq, bytes_eq_sound, subst, ap, List, [], ◌∷◌,
  Option, none, some, Bool-cases, Option-cases, inl, inr,
}
use cocaine_framework_go.Errors.{Result, ok, err}
use cocaine_framework_go.Effects.{Outcome, done, panic, ◌>>=◌, >>=-eq-done, explicit}

pub record Token : Type 0 where
  pub ty : Bytes
  pub body : Bytes

-- A manager that a factory made, or the NullTokenManager.
pub data TokenManager {ℓ} (M : Type ℓ) : Type ℓ where
  made : M → TokenManager M
  null_token_manager : TokenManager M

unfoldable pub token {ℓ} : {M : Type ℓ} → (M → Token) → TokenManager M → Token
token current (made m) = current m
token current null_token_manager = record { ty = []; body = [] }

abbrev pub Factory {ℓ} : Type ℓ → Type ℓ
Factory M = Bytes → Token → Result M

module _ {ℓ} {M : Type ℓ} where
  -- factories[name]
  unfoldable pub factory_of : Bytes → List (Bytes × Factory M) → Option (Factory M)
  factory_of name [] = none
  factory_of name ((key, factory) ∷ factories) =
      let rest = factory_of name factories in if bytes_eq key name then some factory else rest

  -- A nil factory is `none`.
  unfoldable pub register :
      Bytes → Option (Factory M) → List (Bytes × Factory M) → Outcome (List (Bytes × Factory M))
  unfolding factory_of
  register name none factories = panic explicit
  register name (some factory) factories = elim (factory_of name factories) [
    | some dup ↦ panic explicit
    | none ↦ done ((name, factory) ∷ factories)
  ]

  unfoldable pub register_all :
      List (Bytes × Option (Factory M))
      → List (Bytes × Factory M)
      → Outcome (List (Bytes × Factory M))
  unfolding register
  register_all [] factories = done factories
  register_all ((name, factory) ∷ more) factories =
      register name factory factories >>= register_all more

  unfoldable pub new_token_manager :
      Bytes → Token → List (Bytes × Factory M) → Result (TokenManager M)
  unfolding factory_of
  new_token_manager app t factories = elim (factory_of t.ty factories) [
    | none ↦ ok null_token_manager
    | some factory ↦ elim (factory app t) [ ok m ↦ ok (made m) | err e ↦ err e ]
  ]

  done-injective : {xs ys : List (Bytes × Factory M)} → done xs ≡ done ys → xs ≡ ys
  done-injective h = cc

  panic-not_done : {xs : List (Bytes × Factory M)} → panic explicit ≡ done xs → ⊥
  panic-not_done h = cc

  none-not_some : {f : Factory M} → none ≡ some f → ⊥
  none-not_some h = cc

  -- A factory that is registered stays, whatever is registered after it.
  register-stays :
      (name key : Bytes) (o : Option (Factory M)) (f : Factory M) (fs gs : List (Bytes × Factory M))
      → register name o fs ≡ done gs
      → factory_of key fs ≡ some f
      → factory_of key gs ≡ some f
  unfolding register factory_of
  register-stays name key none f fs gs h k = cc
  register-stays name key (some g) f fs gs h k = elim (Option-cases (factory_of name fs)) [
    | inr (dup, e) ↦ absurd (panics dup e)
    | inl e ↦
        let added : (name, g) ∷ fs ≡ gs = done-injective (sym (adds e) ∙ h) in
        subst (λ x. factory_of key x ≡ some f) added
          (elim (Bool-cases (bytes_eq name key)) [
            | inl same ↦ absurd (taken e (bytes_eq_sound name key same))
            | inr other ↦ rw other k
          ])
  ]
    where
      panics : (dup : Factory M) → factory_of name fs ≡ some dup → ⊥
      panics dup e =
          let p : register name (some g) fs ≡ panic explicit = rw (register, e) refl in
          panic-not_done (sym p ∙ h)

      adds : factory_of name fs ≡ none → register name (some g) fs ≡ done ((name, g) ∷ fs)
      adds e = rw (register, e) refl

      taken : factory_of name fs ≡ none → name ≡ key → ⊥
      taken e same = none-not_some (sym e ∙ ap (λ x. factory_of x fs) same ∙ k)

  -- What is registered under a name stays in effect, whatever is registered later.
  pub registered_stays :
      (rs : List (Bytes × Option (Factory M))) (key : Bytes) (f : Factory M)
      (fs gs : List (Bytes × Factory M))
      → register_all rs fs ≡ done gs
      → factory_of key fs ≡ some f
      → factory_of key gs ≡ some f
  unfolding register_all
  registered_stays [] key f fs gs h k = subst (λ x. factory_of key x ≡ some f) (done-injective h) k
  registered_stays ((name, o) ∷ rs) key f fs gs h k =
      let (mid, p, q) = >>=-eq-done (register name o fs) (register_all rs) h in
      registered_stays rs key f mid gs q (register-stays name key o f fs mid p k)

-- ===== src/Effects.antt =====
-- How a Go call ends: it returns, it panics, or it waits for ever on a channel.
use cocaine_framework_go.Prelude.{◌≡◌, refl}

pub data Panic : Type 0 where
  index_out_of_range nil_dereference close_of_closed_channel send_on_closed_channel : Panic
  type_assertion explicit : Panic

pub data Outcome {ℓ} (A : Type ℓ) : Type ℓ where
  done : A → Outcome A
  panic : Panic → Outcome A
  blocked : Outcome A

infixl 5 ◌>>=◌
abbrev pub ◌>>=◌ {ℓ κ} : {A : Type ℓ} {B : Type κ} → Outcome A → (A → Outcome B) → Outcome B
done a >>= f = f a
panic p >>= f = panic p
blocked >>= f = blocked

-- Inversion of a bind that returns.
pub >>=-eq-done {ℓ κ} :
    {A : Type ℓ} {B : Type κ} (m : Outcome A) (f : A → Outcome B) {b : B}
    → (m >>= f) ≡ done b
    → (a : A) × (m ≡ done a) × (f a ≡ done b)
>>=-eq-done (done a) f h = (a, refl, h)
>>=-eq-done (panic p) f h = cc
>>=-eq-done blocked f h = cc

-- A call does not panic, and what it returns meets P.
abbrev pub Safely {ℓ} : {A : Type ℓ} → (A → Type 0) → Outcome A → Type 0
Safely P (done a) = P a
Safely P (panic p) = ⊥
Safely P blocked = Unit {0}

pub >>=-Safely {ℓ κ} :
    {A : Type ℓ} {B : Type κ} (P : A → Type 0) (Q : B → Type 0) (m : Outcome A) (f : A → Outcome B)
    → Safely P m
    → ((a : A) → P a → Safely Q (f a))
    → Safely Q (m >>= f)
>>=-Safely P Q (done a) f h k = k a h
>>=-Safely P Q (panic p) f h k = absurd h
>>=-Safely P Q blocked f h k = tt

pub Safely-map {ℓ} :
    {A : Type ℓ} (P Q : A → Type 0) (m : Outcome A)
    → Safely P m
    → ((a : A) → P a → Q a)
    → Safely Q m
Safely-map P Q (done a) h f = f a h
Safely-map P Q (panic p) h f = absurd h
Safely-map P Q blocked h f = tt

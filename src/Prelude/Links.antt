-- ===== src/Prelude/Links.antt =====
-- A map from sessions to places in a store whose entries stay: each session has a place of its own,
-- and what stands there is open.
use Prim.Native.Nat.{ℕ, ◌<◌}
use mathlib.Core.Path.{◌≡◌, sym, ap, subst, ◌∙◌}
use mathlib.Core.Logic.{◌≢◌, ◌⊎◌, inl, inr}
use mathlib.Core.Option.{some}
use mathlib.Core.List.{List, [], ◌∷◌, ◌++◌}
use native.Mathlib.Omega.{arith}
use cocaine_framework_go.Prelude.Tests.{◌==◌, ==_iff, Bool-cases}
use cocaine_framework_go.Prelude.Lists.{
  length, get_elem?, set, get_elem?-set_self, get_elem?-set_ne, get_elem?-some_lt,
  get_elem?-append_left, get_elem?-append_length,
}
use cocaine_framework_go.Prelude.Maps.{lookup, delete, insert, lookup-delete, lookup-insert}

abbrev pub Standing {ℓ κ} : {A : Type ℓ} → (A → Type κ) → List A → ℕ → Type (ℓ ⊔ κ)
Standing {A = A} P store i = (a : A) × (get_elem? store i ≡ some a) × P a

pub record IsLinked {ℓ κ} {A : Type ℓ} (P : A → Type κ) (links : List (ℕ × ℕ)) (store : List A)
    : Type (ℓ ⊔ κ) where
  pub live : (k i : ℕ) → lookup k links ≡ some i → Standing P store i
  pub apart : (j k i : ℕ) → lookup j links ≡ some i → lookup k links ≡ some i → j ≡ k

module _ {ℓ κ} {A : Type ℓ} (P : A → Type κ) where
  pub nothing-IsLinked : (store : List A) → IsLinked P [] store
  nothing-IsLinked store = record { live = λ k i e. cc; apart = λ j k i e f. cc }

  -- Another entry in a place, open if the old one was.
  pub set-IsLinked :
      (links : List (ℕ × ℕ)) (store : List A) (i : ℕ) (b : A)
      → ((a : A) → get_elem? store i ≡ some a → P a → P b)
      → IsLinked P links store
      → IsLinked P links (set store i b)
  set-IsLinked links store i b opened v = record { live = live'; apart = v.apart }
    where
      live' : (k i' : ℕ) → lookup k links ≡ some i' → Standing P (set store i b) i'
      live' k i' e =
          let (a, found, o) = v.live k i' e in
          elim (Bool-cases (i == i')) [
            | inl same ↦
                let p : i ≡ i' = (==_iff i i').0 same in
                (
                  b,
                  subst (λ x. get_elem? (set store i b) x ≡ some b) p
                      (get_elem?-set_self store i b
                        (omega (arith, p, get_elem?-some_lt store i' a found))),
                  opened a (subst (λ x. get_elem? store x ≡ some a) (sym p) found) o,
                )
            | inr apart ↦ (a, get_elem?-set_ne store i i' b (ground arith) ∙ found, o)
          ]

  -- A session that is deleted may leave anything in its place.
  pub delete-IsLinked :
      (links : List (ℕ × ℕ)) (store : List A) (k i : ℕ) (b : A)
      → lookup k links ≡ some i
      → IsLinked P links store
      → IsLinked P (delete k links) (set store i b)
  delete-IsLinked links store k i b e v = record {
    live = live';
    apart = λ j j' i' p q. v.apart j j' i' (kept j i' p).1 (kept j' i' q).1;
  }
    where
      kept : (j i' : ℕ) → lookup j (delete k links) ≡ some i' → (k ≢ j) × (lookup j links ≡ some i')
      kept j i' p = ground (arith, lookup-delete k j links)

      live' : (j i' : ℕ) → lookup j (delete k links) ≡ some i' → Standing P (set store i b) i'
      live' j i' p =
          let (ne, q) = kept j i' p in
          let (a, found, o) = v.live j i' q in
          (
            a,
            get_elem?-set_ne store i i' b
                  (λ (same : i ≡ i'). ne (v.apart k j i' (e ∙ ap some same) q))
                ∙ found,
            o,
          )

  -- Deleting alone.
  pub forget-IsLinked :
      (links : List (ℕ × ℕ)) (store : List A) (k : ℕ)
      → IsLinked P links store
      → IsLinked P (delete k links) store
  forget-IsLinked links store k v = record {
    live = λ j i p. v.live j i (kept j i p);
    apart = λ j j' i p q. v.apart j j' i (kept j i p) (kept j' i q);
  }
    where
      kept : (j i : ℕ) → lookup j (delete k links) ≡ some i → lookup j links ≡ some i
      kept j i p = ground (arith, lookup-delete k j links)

  -- A session with a new place, whether or not it had one.
  pub insert-IsLinked :
      (links : List (ℕ × ℕ)) (store : List A) (k : ℕ) (b : A)
      → P b
      → IsLinked P links store
      → IsLinked P (insert k (length store) links) (store ++ b ∷ [])
  insert-IsLinked links store k b o v = record { live = live'; apart = apart' }
    where
      cases :
          (j i : ℕ)
          → lookup j (insert k (length store) links) ≡ some i
          → ((j ≡ k) × (i ≡ length store)) ⊎ ((j ≢ k) × (lookup j links ≡ some i))
      cases j i p = ground (arith, lookup-insert k j (length store) links)

      live' :
          (j i : ℕ)
          → lookup j (insert k (length store) links) ≡ some i
          → Standing P (store ++ b ∷ []) i
      live' j i p = elim (cases j i p) [
        | inl (same, place) ↦ (
          b,
          subst (λ x. get_elem? (store ++ b ∷ []) x ≡ some b) (sym place)
              (get_elem?-append_length store b),
          o,
        )
        | inr (ne, q) ↦
            let (a, found, oa) = v.live j i q in
            (
              a,
              get_elem?-append_left store (b ∷ []) i (get_elem?-some_lt store i a found) ∙ found,
              oa,
            )
      ]

      below : (j i : ℕ) → lookup j links ≡ some i → i < length store
      below j i q = let (a, found, oa) = v.live j i q in get_elem?-some_lt store i a found

      apart' :
          (j j' i : ℕ)
          → lookup j (insert k (length store) links) ≡ some i
          → lookup j' (insert k (length store) links) ≡ some i
          → j ≡ j'
      apart' j j' i p q = elim (cases j i p) [
        | inl (same, place) ↦ elim (cases j' i q) [
          | inl (same', place') ↦ same ∙ sym same'
          | inr (ne', q') ↦ let l = below j' i q' in absurd (omega arith)
        ]
        | inr (ne, p') ↦ elim (cases j' i q) [
          | inl (same', place') ↦ let l = below j i p' in absurd (omega arith)
          | inr (ne', q') ↦ v.apart j j' i p' q'
        ]
      ]

-- ===== src/Service/Locators.antt =====
-- cocaine12/defaults.go: the flag -locator, a list of endpoints.
use cocaine_framework_go.Prelude.{
  ℕ, ◌≡◌, ◌≢◌, refl, sym, ap, ◌∙◌, ◌==◌, ◌||◌, if◌then◌else◌, Bool, false, Bytes, List, [], ◌∷◌,
  ◌++◌, arith, All, Bool-cases, inl, inr,
}

abbrev pub comma : ℕ
comma = 44

-- strings.IndexRune(arg, ',') != -1
abbrev has_comma : Bytes → Bool
has_comma [] = false
has_comma (b ∷ bs) = (b == comma) || has_comma bs

-- A byte before the first part.
abbrev onto_first : ℕ → List Bytes → List Bytes
onto_first b [] = (b ∷ []) ∷ []
onto_first b (part ∷ parts) = (b ∷ part) ∷ parts

-- strings.Split(arg, ",")
abbrev split : Bytes → List Bytes
split [] = [] ∷ []
split (b ∷ bs) = let parts = split bs in if b == comma then [] ∷ parts else onto_first b parts

unfoldable pub parse_locators : Bytes → List Bytes
parse_locators arg = if has_comma arg then split arg else arg ∷ []

-- strings.Join(*l, ",")
unfoldable pub locators_string : List Bytes → Bytes
locators_string [] = []
locators_string (l ∷ []) = l
locators_string (l ∷ m ∷ ls) = l ++ comma ∷ locators_string (m ∷ ls)

-- Set replaces what was there.
unfoldable pub set_locators : Bytes → List Bytes → List Bytes
unfolding parse_locators
set_locators value old = parse_locators value

-- The parts of a split are never none, and the first byte belongs to the first part.
record Parts (arg : Bytes) : Type 0 where
  first : Bytes
  rest : List Bytes
  parts : split arg ≡ first ∷ rest
  joined : locators_string (first ∷ rest) ≡ arg

split-Parts : (arg : Bytes) → Parts arg
unfolding locators_string
split-Parts [] = record { first = []; rest = []; parts = refl; joined = refl }
split-Parts (b ∷ bs) =
    let p = split-Parts bs in
    elim (Bool-cases (b == comma)) [
      | inl e ↦
          let same : b ≡ comma = ground arith in
          record {
            first = [];
            rest = p.first ∷ p.rest;
            parts = rw (e, p.parts) refl;
            joined = ap (◌∷◌ comma) p.joined ∙ ap (λ x. x ∷ bs) (sym same);
          }
      | inr e ↦ record {
        first = b ∷ p.first;
        rest = p.rest;
        parts = rw (e, p.parts) refl;
        joined = onto b p.first p.rest ∙ ap (◌∷◌ b) p.joined;
      }
    ]
  where
    onto :
        (b : ℕ) (l : Bytes) (ls : List Bytes)
        → locators_string ((b ∷ l) ∷ ls) ≡ b ∷ locators_string (l ∷ ls)
    onto b l [] = refl
    onto b l (m ∷ ls) = refl

abbrev pub NoComma : Bytes → Type 0
NoComma [] = Unit {0}
NoComma (b ∷ bs) = (b ≢ comma) × NoComma bs

split-NoComma : (l : Bytes) → NoComma l → split l ≡ l ∷ []
split-NoComma [] h = refl
split-NoComma (b ∷ l) (ne, h) =
    let e : (b == comma) ≡ false = ground arith in rw (e, split-NoComma l h) refl

split-append : (l rest : Bytes) → NoComma l → split (l ++ comma ∷ rest) ≡ l ∷ split rest
split-append [] rest h = refl
split-append (b ∷ l) rest (ne, h) =
    let e : (b == comma) ≡ false = ground arith in rw (e, split-append l rest h) refl

split-locators_string :
    (l : Bytes) (ls : List Bytes)
    → NoComma l
    → All NoComma ls
    → split (locators_string (l ∷ ls)) ≡ l ∷ ls
unfolding locators_string
split-locators_string l [] h hs = split-NoComma l h
split-locators_string l (m ∷ ls) h (hm, hs) =
    split-append l (locators_string (m ∷ ls)) h ∙ ap (◌∷◌ l) (split-locators_string m ls hm hs)

has_comma-NoComma : (l : Bytes) → has_comma l ≡ false → NoComma l
has_comma-NoComma [] e = tt
has_comma-NoComma (b ∷ l) e = (ground arith, has_comma-NoComma l (ground arith))

parse_locators-split : (arg : Bytes) → parse_locators arg ≡ split arg
unfolding parse_locators
parse_locators-split arg = elim (Bool-cases (has_comma arg)) [
  | inl e ↦ rw e refl
  | inr e ↦ rw e (sym (split-NoComma arg (has_comma-NoComma arg e)))
]

-- Printing what was parsed of any flag gives the flag back; and for a list of endpoints, which has at
-- least one and none with a comma, parsing what was printed gives the list back.
pub locators_round_trip :
    (arg l : Bytes) (ls : List Bytes)
    → NoComma l
    → All NoComma ls
    → (locators_string (parse_locators arg) ≡ arg)
      × (parse_locators (locators_string (l ∷ ls)) ≡ l ∷ ls)
locators_round_trip arg l ls h hs =
    let p = split-Parts arg in
    (
      ap locators_string (parse_locators-split arg ∙ p.parts) ∙ p.joined,
      parse_locators-split (locators_string (l ∷ ls)) ∙ split-locators_string l ls h hs,
    )

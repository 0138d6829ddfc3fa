-- ===== src/Http/Header/RoundTrip.antt =====
-- Headers survive the conversion to cocaine's form and back.
use cocaine_framework_go.Prelude.{
  ◌≡◌, ◌≢◌, refl, sym, ap, ◌∙◌, false, Bytes, bytes_eq, bytes_eq_refl, bytes_eq_sound, List, [],
  ◌∷◌, ◌++◌, append_assoc, append-nil, Bool-cases, inl, inr,
}
use cocaine_framework_go.Http.Header.{
  Header, canonical_name, add_value, header_add, add_all, with_name, headers_http_to_cocaine,
  headers_cocaine_to_http,
}

abbrev pub Absent : Bytes → Header → Type 0
Absent name [] = Unit {0}
Absent name ((n, vs) ∷ h) = (n ≢ name) × Absent name h

-- What Set and Add build: canonical names, each once, with at least one value.
abbrev pub IsCanonical : Header → Type 0
IsCanonical [] = Unit {0}
IsCanonical ((n, vs) ∷ h) = (canonical_name n ≡ n) × (vs ≢ []) × Absent n h × IsCanonical h

-- No name of the second header is in the first.
abbrev AllAbsent : Header → Header → Type 0
AllAbsent before [] = Unit {0}
AllAbsent before ((n, vs) ∷ h) = Absent n before × AllAbsent before h

differs : (n m : Bytes) → n ≢ m → bytes_eq n m ≡ false
differs n m h = elim (Bool-cases (bytes_eq n m)) [
  | inl e ↦ absurd (h (bytes_eq_sound n m e))
  | inr e ↦ e
]

add_value-Absent : (n v : Bytes) (h : Header) → Absent n h → add_value n v h ≡ h ++ (n, v ∷ []) ∷ []
add_value-Absent n v [] a = refl
add_value-Absent n v ((m, vs) ∷ h) (d, a) =
    rw (differs m n d) (ap (◌∷◌ (m, vs)) (add_value-Absent n v h a))

add_value-present :
    (n v : Bytes) (vs : List Bytes) (h : Header)
    → Absent n h
    → add_value n v (h ++ (n, vs) ∷ []) ≡ h ++ (n, vs ++ v ∷ []) ∷ []
add_value-present n v vs [] a = rw (bytes_eq_refl n) refl
add_value-present n v vs ((m, ws) ∷ h) (d, a) =
    rw (differs m n d) (ap (◌∷◌ (m, ws)) (add_value-present n v vs h a))

-- The pairs of one name, when its entry is the last one.
add_all-with_name :
    (n : Bytes) (vs ws : List Bytes) (h : Header) (rest : List (Bytes × Bytes))
    → canonical_name n ≡ n
    → Absent n h
    → add_all (h ++ (n, vs) ∷ []) (with_name n ws ++ rest) ≡ add_all (h ++ (n, vs ++ ws) ∷ []) rest
unfolding add_all header_add
add_all-with_name n vs [] h rest c a =
    ap (λ x. add_all (h ++ (n, x) ∷ []) rest) (sym (append-nil vs))
add_all-with_name n vs (w ∷ ws) h rest c a =
    ap (λ x. add_all x (with_name n ws ++ rest))
      (ap (λ x. add_value x w (h ++ (n, vs) ∷ [])) c ∙ add_value-present n w vs h a)
    ∙ add_all-with_name n (vs ++ w ∷ []) ws h rest c a
    ∙ ap (λ x. add_all (h ++ (n, x) ∷ []) rest) (append_assoc vs (w ∷ []) ws)

Absent-append :
    (n m : Bytes) (vs : List Bytes) (h : Header) → Absent n h → m ≢ n → Absent n (h ++ (m, vs) ∷ [])
Absent-append n m vs [] a d = (d, tt)
Absent-append n m vs ((k, ws) ∷ h) (e, a) d = (e, Absent-append n m vs h a d)

AllAbsent-append :
    (before h : Header) (n : Bytes) (vs : List Bytes)
    → AllAbsent before h
    → Absent n h
    → AllAbsent (before ++ (n, vs) ∷ []) h
AllAbsent-append before [] n vs a d = tt
AllAbsent-append before ((m, ws) ∷ h) n vs (a, b) (d, e) =
    (Absent-append m n vs before a (λ q. d (sym q)), AllAbsent-append before h n vs b e)

add_all-canonical :
    (before h : Header)
    → IsCanonical h
    → AllAbsent before h
    → add_all before (headers_http_to_cocaine h) ≡ before ++ h
unfolding add_all headers_http_to_cocaine header_add
add_all-canonical before [] c a = sym (append-nil before)
add_all-canonical before ((n, []) ∷ h) (c, v, d, k) (a, b) = absurd (v refl)
add_all-canonical before ((n, v ∷ vs) ∷ h) (c, p, d, k) (a, b) =
    ap (λ x. add_all x (with_name n vs ++ headers_http_to_cocaine h))
      (ap (λ x. add_value x v before) c ∙ add_value-Absent n v before a)
    ∙ add_all-with_name n (v ∷ []) vs before (headers_http_to_cocaine h) c a
    ∙ add_all-canonical (before ++ (n, v ∷ vs) ∷ []) h k (AllAbsent-append before h n (v ∷ vs) b d)
    ∙ append_assoc before ((n, v ∷ vs) ∷ []) h

AllAbsent-nil : (h : Header) → AllAbsent [] h
AllAbsent-nil [] = tt
AllAbsent-nil ((n, vs) ∷ h) = (tt, AllAbsent-nil h)

-- A header with canonical names, each once and with a value, comes back from cocaine's form as it
-- was: the names in their order, and the values of each in theirs.
pub headers_cocaine_to_http-headers_http_to_cocaine :
    (h : Header) → IsCanonical h → headers_cocaine_to_http (headers_http_to_cocaine h) ≡ h
unfolding headers_cocaine_to_http
headers_cocaine_to_http-headers_http_to_cocaine h c = add_all-canonical [] h c (AllAbsent-nil h)

-- ===== src/Http/Reader/Drain.antt =====
-- What a caller that reads again and again gets.
use cocaine_framework_go.Prelude.{
  ℕ, zero, suc, ◌+◌, ◌≤◌, ◌<◌, ◌≡◌, refl, sym, ap, ◌∙◌, Bytes, length, take, drop, take-append-drop,
  length-append, List, [], ◌∷◌, ◌++◌, append_assoc, Option, none, some, arith,
}
use cocaine_framework_go.Errors.{Error, eof}
use cocaine_framework_go.Http.Reader.{RequestReader, request_reader, fill, read}

abbrev pub concat : List Bytes → Bytes
concat [] = []
concat (c ∷ cs) = c ++ concat cs

-- Up to `k` reads into a slice of length n, until one returns an error.
abbrev pub next_read :
    (RequestReader → List Bytes → Bytes × Option Error)
    → (RequestReader × List Bytes) × (Bytes × Option Error)
    → Bytes × Option Error
next_read rest ((r, cs), (out, some e)) = (out, some e)
next_read rest ((r, cs), (out, none)) = let (more, e) = rest r cs in (out ++ more, e)

unfoldable pub read_all : ℕ → ℕ → RequestReader → List Bytes → Bytes × Option Error
read_all zero n r cs = ([], none)
read_all (suc k) n r cs = next_read (read_all k n) (read n r cs)

-- What is left to read, and how many reads that takes at most.
abbrev left : RequestReader → List Bytes → Bytes
left r cs = r.buffer ++ concat cs

abbrev pub reads_left : RequestReader → List Bytes → ℕ
reads_left r cs = length (left r cs) + length cs

length-drop_le {ℓ} : {A : Type ℓ} (n : ℕ) (xs : List A) → length (drop n xs) ≤ length xs
length-drop_le n xs =
    let whole = ap length (take-append-drop n xs) in
    omega (arith, whole, length-append (take n xs) (drop n xs))

-- A read either finds the end, or takes the head of what is left.
data ReadCase (n : ℕ) (r : RequestReader) (cs : List Bytes) : Type 0 where
  at_end : left r cs ≡ [] → read n r cs ≡ ((r, []), ([], some eof)) → ReadCase n r cs
  reads :
      (r' : RequestReader) (cs' : List Bytes) (out : Bytes)
      → read n r cs ≡ ((r', cs'), (out, none))
      → left r cs ≡ out ++ left r' cs'
      → reads_left r' cs' < reads_left r cs
      → ReadCase n r cs

read_cases : (n : ℕ) (b : Bytes) (cs : List Bytes) → 0 < n → ReadCase n (record { buffer = b }) cs
unfolding read fill
read_cases n [] [] p = at_end refl refl
read_cases n [] (c ∷ cs) p =
    let split = append_assoc (take n c) (drop n c) (concat cs) in
    let joined = ap (λ x. x ++ concat cs) (take-append-drop n c) in
    reads (record { buffer = drop n c }) cs (take n c) refl (sym joined ∙ split)
      (omega (
        arith,
        length-append c (concat cs),
        length-append (drop n c) (concat cs),
        length-drop_le n c,
      ))
read_cases zero (x ∷ bs) cs p = absurd (omega (arith, p))
read_cases (suc m) (x ∷ bs) cs p =
    let split = append_assoc (take m bs) (drop m bs) (concat cs) in
    let joined = ap (λ y. y ++ concat cs) (take-append-drop m bs) in
    reads (record { buffer = drop m bs }) cs (x ∷ take m bs) refl (ap (◌∷◌ x) (sym joined ∙ split))
      (omega (
        arith,
        length-append bs (concat cs),
        length-append (drop m bs) (concat cs),
        length-drop_le m bs,
      ))

read_all-left :
    (k n : ℕ) (r : RequestReader) (cs : List Bytes)
    → 0 < n
    → reads_left r cs < k
    → read_all k n r cs ≡ (left r cs, some eof)
unfolding read_all
read_all-left zero n r cs p b = absurd (omega (arith, b))
read_all-left (suc k) n r cs p b = elim (read_cases n r.buffer cs p) [
  | at_end nothing e ↦ rw (e, nothing) refl
  | reads r' cs' out e split less ↦
      rw (e, split, read_all-left k n r' cs' p (omega (arith, less))) refl
]

-- A caller that reads into a slice of a fixed length, not 0, until Read returns an error gets the
-- chunks of the request in order, with nothing lost or twice, and then io.EOF; as many reads as
-- there are bytes and chunks, and one more, are enough.
pub read_all_complete :
    (k n : ℕ) (chunks : List Bytes)
    → 0 < n
    → length (concat chunks) + length chunks < k
    → read_all k n request_reader chunks ≡ (concat chunks, some eof)
read_all_complete k n chunks p b = read_all-left k n request_reader chunks p b

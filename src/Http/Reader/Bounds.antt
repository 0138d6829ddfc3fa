-- ===== src/Http/Reader/Bounds.antt =====
-- cocaine12/utils.go: what one Read of requestReader returns and keeps.
use cocaine_framework_go.Prelude.{
  ℕ, ◌≤◌, ◌≡◌, refl, sym, ap, ◌∙◌, Bytes, length, take, drop, take-append-drop, length-take, List,
  [], ◌∷◌, ◌++◌, append_assoc, arith,
}
use cocaine_framework_go.Http.Reader.{RequestReader, fill, read}
use cocaine_framework_go.Http.Reader.Drain.{concat}

length-take_le {ℓ} : {A : Type ℓ} (n : ℕ) (xs : List A) → length (take n xs) ≤ n
length-take_le n xs = omega (arith, length-take n xs)

take-drop-append : (n : ℕ) (xs rest : Bytes) → take n xs ++ (drop n xs ++ rest) ≡ xs ++ rest
take-drop-append n xs rest =
    sym (append_assoc (take n xs) (drop n xs) rest) ∙ ap (λ x. x ++ rest) (take-append-drop n xs)

-- A Read returns at most as many bytes as its slice holds, an empty slice included, and loses none:
-- what it returns, what it keeps and what the request still has are, in this order, what was kept
-- and what the request had.
pub read_bounded :
    (n : ℕ) (r : RequestReader) (chunks : List Bytes)
    → (length (read n r chunks).1.0 ≤ n)
      × ((read n r chunks).1.0 ++ ((read n r chunks).0.0.buffer ++ concat (read n r chunks).0.1)
          ≡ r.buffer ++ concat chunks)
unfolding read fill
read_bounded n r chunks = by_buffer r.buffer chunks
  where
    by_buffer :
        (b : Bytes) (cs : List Bytes)
        → (length (read n (record { buffer = b }) cs).1.0 ≤ n)
          × ((read n (record { buffer = b }) cs).1.0
                ++ ((read n (record { buffer = b }) cs).0.0.buffer
                    ++ concat (read n (record { buffer = b }) cs).0.1)
              ≡ b ++ concat cs)
    by_buffer [] [] = (omega arith, refl)
    by_buffer [] (c ∷ cs) = (length-take_le n c, take-drop-append n c (concat cs))
    by_buffer (x ∷ bs) cs = (length-take_le n (x ∷ bs), take-drop-append n (x ∷ bs) (concat cs))

-- ===== src/Prelude/Encoding.antt =====
-- Texts as lists of bytes, and the unsigned little-endian coding of encoding/binary.
use Prim.Native.Nat.{ℕ, zero, suc, ◌+◌, ◌*◌, ◌/◌, ◌%◌, ◌^◌, ◌<◌}
use Prim.Native.String.{String}
use Prim.Native.Char.{code}
use mathlib.Core.Path.{◌≡◌, refl, ap}
use mathlib.Core.Bool.{Bool, true, false, ◌&&◌}
use mathlib.Core.List.{List, [], ◌∷◌, ◌++◌}
use native.Mathlib.Omega.{arith}
use native.Mathlib.Nat.{pow-suc}
use cocaine_framework_go.Prelude.Tests.{◌==◌}
use cocaine_framework_go.Prelude.Lists.{length}

-- A Go string or []byte.
abbrev pub Bytes : Type 0
Bytes = List ℕ

-- The bytes of an ASCII text.
abbrev pub bytes : String → Bytes
bytes String.[] = []
bytes (String.◌∷◌ c s) = code c ∷ bytes s

-- bytes.Equal, and == on strings.
abbrev pub bytes_eq : Bytes → Bytes → Bool
bytes_eq [] [] = true
bytes_eq [] (y ∷ ys) = false
bytes_eq (x ∷ xs) [] = false
bytes_eq (x ∷ xs) (y ∷ ys) = x == y && bytes_eq xs ys

pub bytes_eq_refl : (xs : Bytes) → bytes_eq xs xs ≡ true
bytes_eq_refl [] = refl
bytes_eq_refl (x ∷ xs) = ground (arith, bytes_eq_refl xs)

pub bytes_eq_sound : (xs ys : Bytes) → bytes_eq xs ys ≡ true → xs ≡ ys
bytes_eq_sound [] [] h = refl
bytes_eq_sound [] (y ∷ ys) h = cc
bytes_eq_sound (x ∷ xs) [] h = cc
bytes_eq_sound (x ∷ xs) (y ∷ ys) h = ground (arith, bytes_eq_sound xs ys)

-- The k low bytes of n, the lowest first.
pub put_uint : ℕ → ℕ → Bytes
put_uint zero n = []
put_uint (suc k) n = n % 256 ∷ put_uint k (n / 256)

-- The number that the first k bytes stand for.
pub get_uint : ℕ → Bytes → ℕ
get_uint zero bs = 0
get_uint (suc k) [] = 0
get_uint (suc k) (b ∷ bs) = b + 256 * get_uint k bs

pub length-put_uint : (k n : ℕ) → length (put_uint k n) ≡ k
unfolding put_uint
length-put_uint zero n = refl
length-put_uint (suc k) n = ap suc (length-put_uint k (n / 256))

pub get_uint-put_uint :
    (k n : ℕ) (rest : Bytes) → n < 256 ^ k → get_uint k (put_uint k n ++ rest) ≡ n
unfolding get_uint put_uint
get_uint-put_uint zero n rest h = omega arith
get_uint-put_uint (suc k) n rest h =
    omega (arith, get_uint-put_uint k (n / 256) rest (quotient k n h))
  where
    quotient : (k n : ℕ) → n < 256 ^ suc k → n / 256 < 256 ^ k
    quotient k n h = omega (arith, pow-suc 256 k)

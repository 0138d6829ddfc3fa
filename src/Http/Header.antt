-- ===== src/Http/Header.antt =====
-- Headers of HTTP: net/http.Header as far as cocaine12 uses it, and the conversion of
-- cocaine12/httphandler.go to the headers of cocaine.
pub mod RoundTrip
use cocaine_framework_go.Prelude.{
  ℕ, ◌+◌, ◌*◌, ◌-◌, ◌^◌, if◌then◌else◌, ltb, leb, ◌==◌, ◌&&◌, ◌||◌, not, Bool, true, false, Bytes,
  bytes, bytes_eq, List, [], ◌∷◌, ◌++◌, Option, none, some,
}

-- http.Header: the values of each name, the names being canonical.
abbrev pub Header : Type 0
Header = List (Bytes × List Bytes)

abbrev first_value : List Bytes → Bytes
first_value [] = []
first_value (v ∷ vs) = v

-- Get and Del of a canonical name.
unfoldable pub header_get : Bytes → Header → Bytes
header_get name [] = []
header_get name ((n, vs) ∷ h) = if bytes_eq n name then first_value vs else header_get name h

unfoldable pub header_del : Bytes → Header → Header
header_del name [] = []
header_del name ((n, vs) ∷ h) =
    let rest = header_del name h in if bytes_eq n name then rest else (n, vs) ∷ rest

-- The pairs of one name.
abbrev pub with_name : Bytes → List Bytes → List (Bytes × Bytes)
with_name name [] = []
with_name name (v ∷ vs) = (name, v) ∷ with_name name vs

unfoldable pub headers_http_to_cocaine : Header → List (Bytes × Bytes)
headers_http_to_cocaine [] = []
headers_http_to_cocaine ((name, vs) ∷ h) = with_name name vs ++ headers_http_to_cocaine h

-- The characters of a token: letters, digits and !#$%&'*+-.^_`|~
abbrev is_letter_or_digit : ℕ → Bool
is_letter_or_digit c = (leb 48 c && leb c 57) || ((leb 65 c && leb c 90) || (leb 97 c && leb c 122))

abbrev one_of : ℕ → Bytes → Bool
one_of c [] = false
one_of c (x ∷ xs) = (c == x) || one_of c xs

abbrev is_token : Bytes → Bool
is_token [] = true
is_token (c ∷ cs) = (is_letter_or_digit c || one_of c (bytes "!#$%&'*+-.^_`|~")) && is_token cs

abbrev recase : Bool → ℕ → ℕ
recase upper c =
    if upper && (leb 97 c && leb c 122)
    then c - 32
    else if not upper && (leb 65 c && leb c 90)
    then c + 32
    else c

abbrev recase_all : Bool → Bytes → Bytes
recase_all upper [] = []
recase_all upper (c ∷ cs) = recase upper c ∷ recase_all (recase upper c == 45) cs

-- CanonicalHeaderKey: capitals at the start and after each `-`; a name that is no token stays.
unfoldable pub canonical_name : Bytes → Bytes
canonical_name name = if is_token name then recase_all true name else name

-- Add: the value is appended to those of its name.
abbrev pub add_value : Bytes → Bytes → Header → Header
add_value name value [] = (name, value ∷ []) ∷ []
add_value name value ((n, vs) ∷ h) =
    let rest = add_value name value h in
    if bytes_eq n name then (n, vs ++ value ∷ []) ∷ h else (n, vs) ∷ rest

unfoldable pub header_add : Bytes → Bytes → Header → Header
unfolding canonical_name
header_add name value h = add_value (canonical_name name) value h

unfoldable pub add_all : Header → List (Bytes × Bytes) → Header
unfolding header_add
add_all header [] = header
add_all header ((name, value) ∷ hdr) = add_all (header_add name value header) hdr

unfoldable pub headers_cocaine_to_http : List (Bytes × Bytes) → Header
unfolding add_all
headers_cocaine_to_http hdr = add_all [] hdr

-- The number that a list of digits stands for.
unfoldable pub parse_digits : ℕ → Bytes → Option ℕ
parse_digits acc [] = some acc
parse_digits acc (c ∷ cs) =
    let rest = parse_digits (10 * acc + (c - 48)) cs in if leb 48 c && leb c 57 then rest else none

-- At least one digit, and no more than an int64 holds.
abbrev pub parse_unsigned : Bytes → Option ℕ
parse_unsigned [] = none
parse_unsigned (c ∷ cs) = elim (parse_digits 0 (c ∷ cs)) [
  | none ↦ none
  | some v ↦ if ltb v (2 ^ 63) then some v else none
]

abbrev pub if_zero : Option ℕ → Option ℕ
if_zero none = none
if_zero (some v) = if v == 0 then some 0 else none

-- strconv.ParseInt(cl, 10, 64), when it returns no error and a value that is not negative.
unfoldable pub parse_length : Bytes → Option ℕ
unfolding parse_digits
parse_length [] = none
parse_length (c ∷ cs) =
    if c == 43
    then parse_unsigned cs
    else if c == 45
    then if_zero (parse_unsigned cs)
    else parse_unsigned (c ∷ cs)

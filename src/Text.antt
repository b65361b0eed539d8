-- ===== src/Text.antt =====
-- Go strings as lists of code points, and the functions of Go's `strings` and `strconv` packages that
-- the program uses. A byte that is part of no UTF-8 encoding stands as 0x110000 plus its value.
pub mod Laws
pub mod Fields
pub mod Joins
pub mod Occurs
pub mod Decimal
pub mod Dict
pub mod Suffixes
pub mod Paths
use Prim.Native.Char.{code}
use ovn_kubernetes_mcp.Prelude.{
  ℕ, zero, suc, ◌+◌, ◌-◌, ◌*◌, ◌≡◌, refl, Bool, true, false, not, ◌&&◌, ◌||◌, List, [], ◌∷◌, ◌++◌,
  Option, none, some, arith, ltb, leb, ◌==◌, between, if◌then◌else◌, is_empty, keep, any, every,
  String, reverse, drop, length,
}

abbrev pub Text : Type 0
Text = List ℕ

-- The code points of a literal.
abbrev pub codes : String → Text
codes String.[] = []
codes (String.◌∷◌ c s) = code c ∷ codes s

-- `s == t`.
abbrev pub text_eq : Text → Text → Bool
text_eq [] [] = true
text_eq [] (d ∷ t) = false
text_eq (c ∷ s) [] = false
text_eq (c ∷ s) (d ∷ t) = c == d && text_eq s t

-- Membership of a Go set `map[string]bool`, or `slices.Contains`.
abbrev pub elem : Text → List Text → Bool
elem s [] = false
elem s (t ∷ ts) = text_eq s t || elem s ts

-- `len(s)`, in bytes of UTF-8.
abbrev pub width : ℕ → ℕ
width c =
    if ltb c 0x80
    then 1
    else if ltb c 0x800
    then 2
    else if ltb c 0x10000
    then 3
    else if ltb c 0x110000
    then 4
    else 1

unfoldable pub len : Text → ℕ
len [] = 0
len (c ∷ s) = width c + len s

-- `unicode.IsSpace`.
abbrev pub is_space : ℕ → Bool
is_space c =
    between 9 13 c
    || c == 32
    || c == 0x85
    || c == 0xa0
    || c == 0x1680
    || between 0x2000 0x200a c
    || c == 0x2028
    || c == 0x2029
    || c == 0x202f
    || c == 0x205f
    || c == 0x3000

unfoldable pub trim_left : Text → Text
trim_left [] = []
trim_left (c ∷ s) = let rest = trim_left s in if is_space c then rest else c ∷ s

unfoldable pub trim_right : Text → Text
trim_right [] = []
trim_right (c ∷ s) = let rest = trim_right s in if is_space c && is_empty rest then [] else c ∷ rest

-- `strings.TrimSpace`.
unfoldable pub trim_space : Text → Text
unfolding trim_left trim_right
trim_space s = trim_right (trim_left s)

abbrev pub onto_head : ℕ → List Text → List Text
onto_head c [] = (c ∷ []) ∷ []
onto_head c (p ∷ ps) = (c ∷ p) ∷ ps

unfoldable pub split_by : (ℕ → Bool) → Text → List Text
split_by p [] = [] ∷ []
split_by p (c ∷ s) = let rest = split_by p s in if p c then [] ∷ rest else onto_head c rest

-- `strings.Split` at a separator of one character.
unfoldable pub split : Text → ℕ → List Text
unfolding split_by
split s sep = split_by (λ c. c == sep) s

-- `strings.Fields`.
unfoldable pub fields : Text → List Text
unfolding split_by
fields s = keep (λ p. not (is_empty p)) (split_by is_space s)

-- `strings.Join` with a separator of one character.
unfoldable pub join : List Text → ℕ → Text
join [] sep = []
join (p ∷ []) sep = p
join (p ∷ q ∷ ps) sep = p ++ (sep ∷ join (q ∷ ps) sep)

abbrev pub has_prefix : Text → Text → Bool
has_prefix s [] = true
has_prefix [] (d ∷ t) = false
has_prefix (c ∷ s) (d ∷ t) = c == d && has_prefix s t

unfoldable pub has_suffix : Text → Text → Bool
has_suffix s t = has_prefix (reverse s) (reverse t)

-- `strings.TrimPrefix` and `strings.TrimSuffix`.
unfoldable pub trim_prefix : Text → Text → Text
trim_prefix s t = if has_prefix s t then drop (length t) s else s

unfoldable pub trim_suffix : Text → Text → Text
unfolding has_suffix
trim_suffix s t = if has_suffix s t then reverse (drop (length t) (reverse s)) else s

-- `strings.Contains`.
unfoldable pub contains : Text → Text → Bool
contains [] sub = has_prefix [] sub
contains (c ∷ s) sub = has_prefix (c ∷ s) sub || contains s sub

-- The rest behind a literal, and the rest behind `\d+`, as a regular expression consumes them.
abbrev pub after : Text → Text → Option Text
after [] s = some s
after (d ∷ t) [] = none
after (d ∷ t) (c ∷ s) = if c == d then after t s else none

abbrev pub is_digit : ℕ → Bool
is_digit c = between b'0' b'9' c

abbrev pub is_letter : ℕ → Bool
is_letter c = between b'a' b'z' c || between b'A' b'Z' c

abbrev pub is_alnum : ℕ → Bool
is_alnum c = is_letter c || is_digit c

unfoldable pub skip_digits : Text → Text
skip_digits [] = []
skip_digits (c ∷ s) = let rest = skip_digits s in if is_digit c then rest else c ∷ s

unfoldable pub after_digits : Text → Option Text
unfolding skip_digits
after_digits [] = none
after_digits (c ∷ s) = if is_digit c then some (skip_digits s) else none

-- The decimal value of digits behind the value read so far.
unfoldable pub digits_value : ℕ → Text → Option ℕ
digits_value n [] = some n
digits_value n (c ∷ s) =
    let rest = digits_value (n * 10 + (c - b'0')) s in if is_digit c then rest else none

-- Digits of at least one place with a value of at most `bound`.
unfoldable pub bounded_digits : ℕ → Text → Bool
unfolding digits_value
bounded_digits bound [] = false
bounded_digits bound (c ∷ s) = elim (digits_value 0 (c ∷ s)) [ none ↦ false | some n ↦ leb n bound ]

-- Whether `strconv.Atoi` succeeds: an optional sign and digits, in the range of a 64-bit `int`.
unfoldable pub is_atoi : Text → Bool
unfolding bounded_digits
is_atoi [] = false
is_atoi (c ∷ s) =
    if c == b'-'
    then bounded_digits 0x8000000000000000 s
    else if c == b'+'
    then bounded_digits 0x7fffffffffffffff s
    else bounded_digits 0x7fffffffffffffff (c ∷ s)

abbrev lines_sample : Text
lines_sample = codes "a\n\nb c\n"

split_test : split lines_sample 10 ≡ codes "a" ∷ [] ∷ codes "b c" ∷ [] ∷ []
unfolding split
split_test = refl

fields_test : fields (codes " list  ruleset\t") ≡ codes "list" ∷ codes "ruleset" ∷ []
unfolding fields
fields_test = refl

trim_test : trim_space (codes " \ta b\n ") ≡ codes "a b"
unfolding trim_space
trim_test = refl

contains_test : contains (codes "xxWarning: y") (codes "Warning") ≡ true
unfolding contains
contains_test = refl

atoi_test :
    (is_atoi (codes "-42") ≡ true)
    × (is_atoi (codes "9223372036854775808") ≡ false)
    × (is_atoi (codes "-9223372036854775808") ≡ true)
    × (is_atoi (codes "-L") ≡ false)
unfolding is_atoi
atoi_test = (refl, refl, refl, refl)

len_test : len (codes "é€x") ≡ 6
unfolding len
len_test = refl

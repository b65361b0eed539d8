-- ===== src/Text/Laws.antt =====
-- Laws of the string functions: equality and membership, trimming, splitting, numerals.
use ovn_kubernetes_mcp.Prelude.{
  ℕ, ◌+◌, ◌-◌, ◌*◌, ◌≡◌, refl, ◌↔◌, ◌⊎◌, inl, inr, Bool, true, false, List, [], ◌∷◌, ◌++◌, some,
  arith, ◌==◌, ==_iff, All, Any, Bool-cases, Option-cases,
}
use ovn_kubernetes_mcp.Text.{
  Text, text_eq, elem, trim_left, trim_right, trim_space, onto_head, split_by, split, join,
  has_prefix, is_digit, digits_value, bounded_digits, is_atoi,
}

pub text_eq_iff : (s t : Text) → (text_eq s t ≡ true) ↔ (s ≡ t)
text_eq_iff [] [] = (λ _. refl, λ _. refl)
text_eq_iff [] (d ∷ t) = ground arith
text_eq_iff (c ∷ s) [] = ground arith
text_eq_iff (c ∷ s) (d ∷ t) = ground (arith, text_eq_iff s t)

pub elem_iff : (s : Text) (ts : List Text) → (elem s ts ≡ true) ↔ Any (λ t. s ≡ t) ts
elem_iff s [] = (λ h. cc, λ h. absurd h)
elem_iff s (t ∷ ts) = ground (arith, elem_iff s ts, text_eq_iff s t)

module _ (P : ℕ → Type 0) where
  All-trim_left : (s : Text) → All P s → All P (trim_left s)
  unfolding trim_left
  All-trim_left [] h = tt
  All-trim_left (c ∷ s) (p, h) = ground (arith, All-trim_left s h)

  All-trim_right : (s : Text) → All P s → All P (trim_right s)
  unfolding trim_right
  All-trim_right [] h = tt
  All-trim_right (c ∷ s) (p, h) = ground (arith, All-trim_right s h)

  pub All-trim_space : (s : Text) → All P s → All P (trim_space s)
  unfolding trim_space
  All-trim_space s h = All-trim_right (trim_left s) (All-trim_left s h)

-- The characters of a numeral.
abbrev pub IsNumeric : ℕ → Type 0
IsNumeric c = (is_digit c ≡ true) ⊎ (c ≡ b'-') ⊎ (c ≡ b'+')

digits_value-IsNumeric : (n : ℕ) (s : Text) {r : ℕ} → digits_value n s ≡ some r → All IsNumeric s
unfolding digits_value
digits_value-IsNumeric n [] h = tt
digits_value-IsNumeric n (c ∷ s) h = elim (Bool-cases (is_digit c)) [
  | inl d ↦ (inl d, digits_value-IsNumeric (n * 10 + (c - b'0')) s (rw d at h))
  | inr d ↦ ground arith
]

bounded_digits-IsNumeric : (b : ℕ) (s : Text) → bounded_digits b s ≡ true → All IsNumeric s
unfolding bounded_digits
bounded_digits-IsNumeric b [] h = tt
bounded_digits-IsNumeric b (c ∷ s) h = elim (Option-cases (digits_value 0 (c ∷ s))) [
  | inl e ↦ ground arith
  | inr (r, e) ↦ digits_value-IsNumeric 0 (c ∷ s) e
]

-- What `Atoi` accepts holds digits and signs only.
pub is_atoi-IsNumeric : (s : Text) → is_atoi s ≡ true → All IsNumeric s
unfolding is_atoi
is_atoi-IsNumeric [] h = tt
is_atoi-IsNumeric (c ∷ s) h = ground (
  arith,
  bounded_digits-IsNumeric 0x8000000000000000 s,
  bounded_digits-IsNumeric 0x7fffffffffffffff s,
  bounded_digits-IsNumeric 0x7fffffffffffffff (c ∷ s),
)

onto_head-join : (c sep : ℕ) (ps : List Text) → join (onto_head c ps) sep ≡ c ∷ join ps sep
unfolding join
onto_head-join c sep [] = refl
onto_head-join c sep (p ∷ []) = refl
onto_head-join c sep (p ∷ q ∷ ps) = refl

-- Splitting never returns an empty list.
pub split_by-cons :
    (p : ℕ → Bool) (s : Text) → (q : Text) × (qs : List Text) × (split_by p s ≡ q ∷ qs)
unfolding split_by
split_by-cons p [] = ([], [], refl)
split_by-cons p (c ∷ s) = elim (Bool-cases (p c)) [
  | inl e ↦ ([], split_by p s, rw e)
  | inr e ↦ let (q, qs, r) = split_by-cons p s in (c ∷ q, qs, rw (e, r))
]

join-cons-nil :
    (sep : ℕ) (q : Text) (qs : List Text) → join ([] ∷ q ∷ qs) sep ≡ sep ∷ join (q ∷ qs) sep
unfolding join
join-cons-nil sep q qs = refl

-- Joining the parts of a split gives the text back.
pub join-split : (s : Text) (sep : ℕ) → join (split s sep) sep ≡ s
unfolding split split_by
join-split [] sep = unfold join in refl
join-split (c ∷ s) sep =
    let (q, qs, r) = split_by-cons (λ d. d == sep) s in
    let ih : join (q ∷ qs) sep ≡ s = rw r at (join-split s sep) in
    elim (Bool-cases (c == sep)) [
      | inl e ↦ rw (e, r) (cc (join-cons-nil sep q qs, ih, (==_iff c sep).0 e))
      | inr e ↦ rw (e, r) (cc (onto_head-join c sep (q ∷ qs), ih))
    ]

-- No part of a split holds a separator.
pub split_by-All : (p : ℕ → Bool) (s : Text) → All (All (λ c. p c ≡ false)) (split_by p s)
unfolding split_by
split_by-All p [] = (tt, tt)
split_by-All p (c ∷ s) =
    let (q, qs, r) = split_by-cons p s in
    let ih : All (All (λ c. p c ≡ false)) (q ∷ qs) = rw r at (split_by-All p s) in
    elim (Bool-cases (p c)) [
      | inl e ↦ rw e (tt, split_by-All p s)
      | inr e ↦ rw (e, r) ((e, ih.0), ih.1)
    ]

has_prefix_sound : (s t : Text) → has_prefix s t ≡ true → (r : Text) × (s ≡ t ++ r)
has_prefix_sound s [] h = (s, refl)
has_prefix_sound [] (d ∷ t) h = cc
has_prefix_sound (c ∷ s) (d ∷ t) h =
    let (r, e) = has_prefix_sound s t (ground arith) in (r, ground (arith, e))

has_prefix-append : (t r : Text) → has_prefix (t ++ r) t ≡ true
has_prefix-append [] r = refl
has_prefix-append (d ∷ t) r = ground (arith, has_prefix-append t r)

-- A text has the prefixes that it is an extension of.
pub has_prefix_iff : (s t : Text) → (has_prefix s t ≡ true) ↔ ((r : Text) × (s ≡ t ++ r))
has_prefix_iff s t = (has_prefix_sound s t, λ (r, e). rw e (has_prefix-append t r))

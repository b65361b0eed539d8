-- ===== src/Text/Decimal.antt =====
-- `strconv.Itoa`, and its round trip through the digits that `strconv.Atoi` reads.
use ovn_kubernetes_mcp.Prelude.{
  ◌-◌, true, inr, ap, ◌∙◌, ◌*◌, zero, inl, arith, ◌∷◌, ltb, ◌%◌, [], ◌/◌, Bool-cases, refl, ◌+◌,
  some, suc, ◌<◌, ℕ, ◌≡◌, if◌then◌else◌,
}
use ovn_kubernetes_mcp.Prelude.Int.{ℤ, pos, negsuc}
use ovn_kubernetes_mcp.Text.{is_digit, codes, Text, digits_value}

-- The decimal digits of a number in front of a text, on fuel.
unfoldable pub digits_of : ℕ → ℕ → Text → Text
digits_of zero n out = out
digits_of (suc f) n out =
    let rest = digits_of f (n / 10) ((b'0' + n % 10) ∷ out) in
    if ltb n 10 then (b'0' + n) ∷ out else rest

unfoldable pub itoa : ℤ → Text
unfolding digits_of
itoa (pos n) = digits_of (suc n) n []
itoa (negsuc n) = b'-' ∷ digits_of (suc (suc n)) (suc n) []

digits_value-cons :
    (n d : ℕ) (s : Text) → d < 10 → digits_value n ((b'0' + d) ∷ s) ≡ digits_value (n * 10 + d) s
unfolding digits_value
digits_value-cons n d s h =
    let digit : is_digit (b'0' + d) ≡ true = ground arith in
    let value : n * 10 + (b'0' + d - b'0') ≡ n * 10 + d = omega arith in
    rw digit (ap (λ (m : ℕ). digits_value m s) value)

digits_value-digits_of :
    (f n : ℕ) (out : Text) → n < f → digits_value 0 (digits_of f n out) ≡ digits_value n out
unfolding digits_of
digits_value-digits_of zero n out h = elim h [ ]
digits_value-digits_of (suc f) n out h = elim (Bool-cases (ltb n 10)) [
  | inl e ↦
      rw e (
        digits_value-cons 0 n out (ground arith) ∙ ap (λ (m : ℕ). digits_value m out) (omega arith))
  | inr e ↦ rw e (
      digits_value-digits_of f (n / 10) ((b'0' + n % 10) ∷ out) (ground arith)
      ∙ digits_value-cons (n / 10) (n % 10) out (omega arith)
      ∙ ap (λ (m : ℕ). digits_value m out) (omega arith))
]

-- The digits that are printed for a number are read back as it.
pub digits_value-itoa : (n : ℕ) → digits_value 0 (itoa (pos n)) ≡ some n
unfolding itoa
digits_value-itoa n =
    digits_value-digits_of (suc n) n [] (omega arith) ∙ unfold digits_value in refl

itoa_test : (itoa (pos 1500) ≡ codes "1500") × (itoa (negsuc 41) ≡ codes "-42")
unfolding itoa
itoa_test = (refl, refl)

-- ===== src/Kernel/Conntrack/SummaryLine.antt =====
use ovn_kubernetes_mcp.Text.Laws.{text_eq_iff}
use ovn_kubernetes_mcp.Kernel.Util.{◌then_after◌, conntrack_summary_pattern, ends_with_dot}
use ovn_kubernetes_mcp.Prelude.{
  none, ==_iff, arith, ◌∙◌, inr, ap, refl, ◌⊎◌, true, ◌≢◌, inl, some, ◌++◌, Bool-cases, ◌↔◌, false,
  [], ◌∷◌, Bool, All, ◌≡◌, Option,
}
use ovn_kubernetes_mcp.Text.{is_digit, codes, after, Text, after_digits, skip_digits}

-- The lines that `conntrackSummaryPattern` of pkg/kernel/mcp/util.go matches.

-- A text that begins with `t` and goes on as `P` says.
abbrev pub Literal : Text → (Text → Type 0) → Text → Type 0
Literal t P l = (rest : Text) × (l ≡ t ++ rest) × P rest

-- A text that begins with one or more digits and goes on as `P` says.
abbrev pub Number : (Text → Type 0) → Text → Type 0
Number P l =
    (digits : Text) × (rest : Text) × (l ≡ digits ++ rest)
    × (digits ≢ [])
    × All (λ c. is_digit c ≡ true) digits
    × P rest

abbrev pub IsEnd : Text → Type 0
IsEnd l = (l ≡ []) ⊎ (l ≡ codes ".")

-- "conntrack vN.N.N (conntrack-tools): N flow entries have been shown", with or without a full stop.
abbrev pub IsSummaryLine : Text → Type 0
IsSummaryLine = Literal (codes "conntrack v") (
    Number (
      Literal (codes ".") (
        Number (
          Literal (codes ".") (
            Number (
              Literal (codes " (conntrack-tools): ")
                (Number (Literal (codes " flow entries have been shown") IsEnd))))))))

-- A match so far, whose rest is as `P` says.
abbrev Leaves : Option Text → (Text → Type 0) → Type 0
Leaves o P = (rest : Text) × (o ≡ some rest) × P rest

after_iff : (t s r : Text) → (after t s ≡ some r) ↔ (s ≡ t ++ r)
after_iff [] s r = (λ e. cc, λ e. rw e refl)
after_iff (d ∷ t) [] r = (λ e. cc, λ e. cc)
after_iff (d ∷ t) (c ∷ s) r = ground (arith, after_iff t s r, ==_iff c d)

Leaves-after : (t : Text) (P : Text → Type 0) (s : Text) → Leaves (after t s) P ↔ Literal t P s
Leaves-after t P s =
    (λ (r, e, p). (r, (after_iff t s r).0 e, p), λ (r, e, p). (r, (after_iff t s r).1 e, p))

abbrev starts_with_digit : Text → Bool
starts_with_digit [] = false
starts_with_digit (c ∷ s) = is_digit c

skip_digits_sound :
    (s : Text)
    → (digits : Text) × (s ≡ digits ++ skip_digits s) × All (λ c. is_digit c ≡ true) digits
unfolding skip_digits
skip_digits_sound [] = ([], refl, tt)
skip_digits_sound (c ∷ s) = elim (Bool-cases (is_digit c)) [
  | inl e ↦
      let (digits, whole, h) = skip_digits_sound s in
      (c ∷ digits, rw e (ap (λ (t : Text). c ∷ t) whole), (e, h))
  | inr e ↦ ([], rw e refl, tt)
]

skip_digits-append :
    (digits r : Text)
    → All (λ c. is_digit c ≡ true) digits
    → starts_with_digit r ≡ false
    → skip_digits (digits ++ r) ≡ r
unfolding skip_digits
skip_digits-append [] [] h n = refl
skip_digits-append [] (c ∷ r) h n = rw n refl
skip_digits-append (d ∷ digits) r (e, h) n = rw (e, skip_digits-append digits r h n) refl

after_digits-Number : (P : Text → Type 0) (s : Text) → Leaves (after_digits s) P → Number P s
unfolding after_digits
after_digits-Number P [] (r, e, p) = cc
after_digits-Number P (c ∷ s) (r, e, p) = elim (Bool-cases (is_digit c)) [
  | inl d ↦
      let (digits, whole, h) = skip_digits_sound s in
      let same : skip_digits s ≡ r = let found = rw d at e in cc in
      (
        c ∷ digits,
        r,
        ap (λ (t : Text). c ∷ t) (whole ∙ ap (λ (t : Text). digits ++ t) same),
        (λ q. cc),
        (d, h),
        p,
      )
  | inr n ↦ let bad = rw n at e in cc
]

Number-after_digits :
    (P : Text → Type 0) (s : Text)
    → ((r : Text) → P r → starts_with_digit r ≡ false)
    → Number P s
    → Leaves (after_digits s) P
unfolding after_digits
Number-after_digits P s no_digit ([], r, whole, set, h, p) = absurd (set refl)
Number-after_digits P s no_digit (c ∷ digits, r, whole, set, (d, h), p) =
    (r, rw (whole, d, skip_digits-append digits r h (no_digit r p)) refl, p)

-- One step of the pattern: what follows it is as `P` says exactly when what it starts from is as `Q`.
abbrev IsStep : (Text → Option Text) → (Text → Type 0) → (Text → Type 0) → Type 0
IsStep f P Q = (s : Text) → Leaves (f s) P ↔ Q s

then_after-Leaves :
    (o : Option Text) (f : Text → Option Text) (P Q : Text → Type 0)
    → IsStep f P Q
    → Leaves (o then_after f) P ↔ Leaves o Q
then_after-Leaves none f P Q step = (λ (r, e, p). absurd cc, λ (r, e, p). absurd cc)
then_after-Leaves (some s) f P Q step =
    (λ h. (s, refl, (step s).0 h), λ (t, e, q). let same : s ≡ t = cc in (step s).1 (rw same q))

after_digits-IsStep :
    (P : Text → Type 0)
    → ((r : Text) → P r → starts_with_digit r ≡ false)
    → IsStep after_digits P (Number P)
after_digits-IsStep P no_digit s = (after_digits-Number P s, Number-after_digits P s no_digit)

ends_with_dot-Leaves : (o : Option Text) → (ends_with_dot o ≡ true) ↔ Leaves o IsEnd
ends_with_dot-Leaves none = (λ e. cc, λ (r, e, p). cc)
ends_with_dot-Leaves (some []) = (λ e. ([], refl, inl refl), λ h. refl)
ends_with_dot-Leaves (some (c ∷ s)) = (
  λ e. (c ∷ s, refl, inr ((text_eq_iff (c ∷ s) (codes ".")).0 e)),
  λ (r, e, p). elim p [
    | inl n ↦ cc
    | inr d ↦ let same : c ∷ s ≡ codes "." = cc in (text_eq_iff (c ∷ s) (codes ".")).1 same
  ],
)

iff_trans : {A B C : Type 0} → A ↔ B → B ↔ C → A ↔ C
iff_trans (f, g) (h, k) = (λ a. h (f a), λ c. g (k c))

-- The pattern matches exactly the summary lines.
pub conntrack_summary_pattern_iff :
    (line : Text) → (conntrack_summary_pattern line ≡ true) ↔ IsSummaryLine line
unfolding conntrack_summary_pattern
conntrack_summary_pattern_iff line = iff_trans (ends_with_dot-Leaves _) (
    iff_trans
      (then_after-Leaves _ _ _ _ (Leaves-after (codes " flow entries have been shown") IsEnd))
      (iff_trans (then_after-Leaves _ _ _ _ (after_digits-IsStep _ (λ r (s, e, p). rw e refl))) (
        iff_trans (then_after-Leaves _ _ _ _ (Leaves-after (codes " (conntrack-tools): ") _)) (
          iff_trans (then_after-Leaves _ _ _ _ (after_digits-IsStep _ (λ r (s, e, p). rw e refl))) (
            iff_trans (then_after-Leaves _ _ _ _ (Leaves-after (codes ".") _)) (
              iff_trans
                (then_after-Leaves _ _ _ _ (after_digits-IsStep _ (λ r (s, e, p). rw e refl)))
                (iff_trans (then_after-Leaves _ _ _ _ (Leaves-after (codes ".") _)) (
                  iff_trans
                    (then_after-Leaves _ _ _ _ (after_digits-IsStep _ (λ r (s, e, p). rw e refl)))
                    (Leaves-after (codes "conntrack v") _ line)))))))))

-- ===== src/MustGather/Omc/Names.antt =====
-- Which names `validateKubernetesName` of pkg/must-gather/omc-client/utils.go accepts.
use ovn_kubernetes_mcp.Prelude.{
  ℕ, ◌==◌, ◌≡◌, ◌≢◌, refl, ◌⊎◌, inl, inr, Bool, true, false, not, ◌&&◌, ◌||◌, [], ◌∷◌, All, arith,
  ok, then-eq-ok, reject_if, Error,
}
use ovn_kubernetes_mcp.Text.{Text, is_alnum}
use ovn_kubernetes_mcp.MustGather.Omc.{
  lower_char, to_lower, is_lower_alnum, ends_in_alnum, validate_kubernetes_name,
}

-- Letters, digits, `.`, `_` and `-`, and the two characters whose lower case is an ASCII letter.
abbrev pub is_name_char : ℕ → Bool
is_name_char c = is_alnum c || c == b'.' || c == b'_' || c == b'-' || c == 0x212a || c == 0x130

-- Only such characters, and no hyphen in front: no option of a command.
abbrev pub IsName : Text → Type 0
IsName [] = ⊥
IsName (c ∷ s) = (c ≢ b'-') × All (λ d. is_name_char d ≡ true) (c ∷ s)

alnum_lower : (c : ℕ) → is_lower_alnum (lower_char c) ≡ true → (is_name_char c ≡ true) × (c ≢ b'-')
alnum_lower c h = ground arith

inner_lower :
    (c : ℕ)
    → is_lower_alnum (lower_char c)
        || lower_char c == b'.'
        || lower_char c == b'_'
        || lower_char c == b'-'
      ≡ true
    → is_name_char c ≡ true
inner_lower c h = ground arith

both : (a b : Bool) → a && b ≡ true → (a ≡ true) × (b ≡ true)
both a b h = ground arith

ends_in_alnum-All :
    (s : Text) → ends_in_alnum (to_lower s) ≡ true → All (λ d. is_name_char d ≡ true) s
ends_in_alnum-All [] h = tt
ends_in_alnum-All (c ∷ []) h = ((alnum_lower c h).0, tt)
ends_in_alnum-All (c ∷ d ∷ s) h =
    let (a, b) = both _ _ h in (inner_lower c a, ends_in_alnum-All (d ∷ s) b)

accepted : (b : Bool) (e : Error) {u : Unit {0}} → reject_if (not b) e ≡ ok u → b ≡ true
accepted true e h = refl
accepted false e h = cc

pub validate_kubernetes_name-IsName :
    (t : Text) (allow_empty : Bool)
    → validate_kubernetes_name t allow_empty ≡ ok tt
    → ((t ≡ []) × (allow_empty ≡ true)) ⊎ IsName t
unfolding validate_kubernetes_name
validate_kubernetes_name-IsName [] allow_empty h = inl (refl, ground arith)
validate_kubernetes_name-IsName (c ∷ s) allow_empty h =
    let (a, b) = both _ _ (accepted _ _ (then-eq-ok _ _ h).1) in
    let (first, front) = alnum_lower c a in inr (front, (first, ends_in_alnum-All s b))

pub required : (t : Text) → validate_kubernetes_name t false ≡ ok tt → IsName t
required t h = elim (validate_kubernetes_name-IsName t false h) [
  | inl (e, f) ↦ absurd (ground arith)
  | inr n ↦ n
]

ok-injective {ℓ} : {A : Type ℓ} {a b : A} → ok a ≡ ok b → a ≡ b
ok-injective e = cc

-- What holds of the value that was returned holds of the result.
pub of_ok {ℓ κ} : {A : Type ℓ} (P : A → Type κ) {a b : A} → ok a ≡ ok b → P a → P b
of_ok P {a} {b} e p = let same : a ≡ b = ok-injective e in rw (← same) p

-- Empty, or a name.
abbrev pub IsOptionalName : Text → Type 0
IsOptionalName t = (t ≡ []) ⊎ IsName t

pub optional : (t : Text) → validate_kubernetes_name t true ≡ ok tt → IsOptionalName t
optional t h = elim (validate_kubernetes_name-IsName t true h) [
  | inl (e, f) ↦ inl e
  | inr n ↦ inr n
]

-- ===== src/Text/Paths/Elements.antt =====
-- `strings.LastIndex` and `filepath.Base`: what is behind the last separator has none.
use mathlib.Core.Path.{subst}
use ovn_kubernetes_mcp.Prelude.{
  ==_iff, ◌++◌, ℕ, ◌≡◌, refl, ◌⊎◌, inl, inr, [], ◌∷◌, Option, none, some, arith, Option-cases,
}
use ovn_kubernetes_mcp.Text.{Text, codes}
use ovn_kubernetes_mcp.Text.Joins.{Lacks}
use ovn_kubernetes_mcp.Text.Paths.{
  last_element, behind_slash, slash, base, split_last, trim_slashes,
}

pub split_last-none : (s : Text) (sep : ℕ) → split_last sep s ≡ none → Lacks sep s
unfolding split_last
split_last-none [] sep h = tt
split_last-none (c ∷ s) sep h = elim (Option-cases (split_last sep s)) [
  | inl e ↦ (ground arith, split_last-none s sep e)
  | inr (p, e) ↦ absurd (ground arith)
]

pub split_last-behind :
    (s : Text) (sep : ℕ) (a b : Text) → split_last sep s ≡ some (a, b) → Lacks sep b
unfolding split_last
split_last-behind [] sep a b h = cc
split_last-behind (c ∷ s) sep a b h = elim (Option-cases (split_last sep s)) [
  | inl e ↦ let same : s ≡ b = ground arith in subst (Lacks sep) same (split_last-none s sep e)
  | inr ((a', b'), e) ↦
      let same : b' ≡ b = ground arith in subst (Lacks sep) same (split_last-behind s sep a' b' e)
]

behind_slash-Lacks :
    (t : Text) (o : Option (Text × Text)) → split_last slash t ≡ o → Lacks slash (behind_slash t o)
behind_slash-Lacks t none e = split_last-none t slash e
behind_slash-Lacks t (some (a, b)) e = split_last-behind t slash a b e

last_element-Lacks : (t : Text) → (last_element t ≡ codes "/") ⊎ Lacks slash (last_element t)
unfolding last_element
last_element-Lacks [] = inl refl
last_element-Lacks (c ∷ s) = inr (behind_slash-Lacks (c ∷ s) (split_last slash (c ∷ s)) refl)

-- `filepath.Base` returns a single slash or a name without one.
pub base-Lacks : (s : Text) → (base s ≡ codes "/") ⊎ Lacks slash (base s)
unfolding base
base-Lacks [] = inr (refl, tt)
base-Lacks (c ∷ s) = last_element-Lacks (trim_slashes (c ∷ s))

-- What is before the last separator, the separator and what is behind make up the text.
pub split_last_sound :
    (s : Text) (sep : ℕ) (a b : Text) → split_last sep s ≡ some (a, b) → s ≡ a ++ (sep ∷ b)
unfolding split_last
split_last_sound [] sep a b h = cc
split_last_sound (c ∷ s) sep a b h = elim (Option-cases (split_last sep s)) [
  | inl e ↦ ground (arith, ==_iff c sep)
  | inr ((a', b'), e) ↦ ground (arith, split_last_sound s sep a' b' e)
]

split_last_lacking : (sep : ℕ) (s : Text) → Lacks sep s → split_last sep s ≡ none
unfolding split_last
split_last_lacking sep [] h = refl
split_last_lacking sep (c ∷ s) (e, h) = rw (split_last_lacking sep s h, e)

-- The last separator is the one that none comes behind.
pub split_last-append :
    (sep : ℕ) (before behind : Text)
    → Lacks sep behind
    → split_last sep (before ++ (sep ∷ behind)) ≡ some (before, behind)
unfolding split_last
split_last-append sep [] behind h = rw (split_last_lacking sep behind h, (==_iff sep sep).1 refl)
split_last-append sep (c ∷ before) behind h = rw (split_last-append sep before behind h)

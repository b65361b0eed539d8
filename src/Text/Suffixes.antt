-- ===== src/Text/Suffixes.antt =====
-- `strings.HasSuffix`, `TrimPrefix` and `TrimSuffix`, by what stands before and behind.
use ovn_kubernetes_mcp.Prelude.{
  length-append, ℕ, ◌≡◌, refl, sym, ap, ◌∙◌, true, false, [], ◌∷◌, ◌++◌, arith, List, reverse, drop,
  length,
}
use mathlib.Core.List.{reverse-cons, reverse-append, reverse-reverse}
use ovn_kubernetes_mcp.Text.{Text, has_suffix, trim_prefix, trim_suffix}
use ovn_kubernetes_mcp.Text.Laws.{has_prefix_iff}

pub has_suffix_sound : (s t : Text) → has_suffix s t ≡ true → (r : Text) × (s ≡ r ++ t)
unfolding has_suffix
has_suffix_sound s t h =
    let (r, e) = (has_prefix_iff (reverse s) (reverse t)).0 h in
    (
      reverse r,
      sym (reverse-reverse s)
          ∙ ap (λ (x : Text). reverse x) e
          ∙ reverse-append (reverse t) r
          ∙ ap (λ (x : Text). reverse r ++ x) (reverse-reverse t),
    )

pub has_suffix-append : (r t : Text) → has_suffix (r ++ t) t ≡ true
unfolding has_suffix
has_suffix-append r t =
    (has_prefix_iff (reverse (r ++ t)) (reverse t)).1 (reverse r, reverse-append r t)

drop-length {ℓ} : {A : Type ℓ} (xs ys : List A) → drop (length xs) (xs ++ ys) ≡ ys
drop-length [] ys = refl
drop-length (x ∷ xs) ys = drop-length xs ys

pub trim_prefix-append : (t r : Text) → trim_prefix (t ++ r) t ≡ r
unfolding trim_prefix
trim_prefix-append t r = rw ((has_prefix_iff (t ++ r) t).1 (r, refl)) (drop-length t r)

length-reverse : (t : Text) → length (reverse t) ≡ length t
length-reverse [] = refl
length-reverse (c ∷ t) =
    let cons : length (reverse (c ∷ t)) ≡ length (reverse t ++ (c ∷ [])) =
      ap (λ (x : Text). length x) (reverse-cons c t) in
    omega (arith, cons, length-append {0} (reverse t) (c ∷ []), length-reverse t)

reversed_suffix : (r t : Text) → reverse (drop (length t) (reverse (r ++ t))) ≡ r
reversed_suffix r t =
    ap (λ (n : ℕ). reverse (drop n (reverse (r ++ t)))) (sym (length-reverse t))
    ∙ ap (λ (x : Text). reverse (drop (length (reverse t)) x)) (reverse-append r t)
    ∙ ap (λ (x : Text). reverse x) (drop-length (reverse t) (reverse r))
    ∙ reverse-reverse r

pub trim_suffix-append : (r t : Text) → trim_suffix (r ++ t) t ≡ r
unfolding trim_suffix
trim_suffix-append r t = rw (has_suffix-append r t) (reversed_suffix r t)

pub trim_suffix_none : (s t : Text) → has_suffix s t ≡ false → trim_suffix s t ≡ s
unfolding trim_suffix
trim_suffix_none s t h = rw h

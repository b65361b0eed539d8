-- ===== src/Text/Occurs.antt =====
-- `strings.Contains` decides whether a text occurs in another.
use ovn_kubernetes_mcp.Prelude.{
  ℕ, ap, inr, refl, [], inl, Bool-cases, arith, false, ◌↔◌, ◌∷◌, ◌||◌, ◌++◌, true, Bool, ◌≡◌,
}
use ovn_kubernetes_mcp.Text.{Text, has_prefix, contains}
use ovn_kubernetes_mcp.Text.Laws.{has_prefix_iff}

pub record Occurs (sub s : Text) : Type 0 where
  pub before : Text
  pub behind : Text
  pub whole : s ≡ before ++ (sub ++ behind)

or_right : (a b : Bool) → a ≡ false → a || b ≡ true → b ≡ true
or_right a b p h = ground arith

or_of_right : (a b : Bool) → b ≡ true → a || b ≡ true
or_of_right a b h = ground arith

contains_of_prefix : (s sub : Text) → has_prefix s sub ≡ true → contains s sub ≡ true
unfolding contains
contains_of_prefix [] sub h = h
contains_of_prefix (c ∷ s) sub h = rw h

contains-cons : (c : ℕ) (s sub : Text) → contains s sub ≡ true → contains (c ∷ s) sub ≡ true
unfolding contains
contains-cons c s sub h = or_of_right _ _ h

contains_sound : (s sub : Text) → contains s sub ≡ true → Occurs sub s
unfolding contains
contains_sound [] sub h =
    let (r, e) = (has_prefix_iff [] sub).0 h in record { before = []; behind = r; whole = e }
contains_sound (c ∷ s) sub h = elim (Bool-cases (has_prefix (c ∷ s) sub)) [
  | inl p ↦
      let (r, e) = (has_prefix_iff (c ∷ s) sub).0 p in record { before = []; behind = r; whole = e }
  | inr p ↦
      let o = contains_sound s sub (or_right _ _ p h) in
      record { before = c ∷ o.before; behind = o.behind; whole = ap (λ (t : Text). c ∷ t) o.whole }
]

contains-append : (before sub behind : Text) → contains (before ++ (sub ++ behind)) sub ≡ true
contains-append [] sub behind =
    contains_of_prefix (sub ++ behind) sub ((has_prefix_iff _ sub).1 (behind, refl))
contains-append (c ∷ a) sub behind = contains-cons c _ sub (contains-append a sub behind)

pub contains_iff : (s sub : Text) → (contains s sub ≡ true) ↔ Occurs sub s
contains_iff s sub = (contains_sound s sub, λ o. rw o.whole (contains-append o.before sub o.behind))

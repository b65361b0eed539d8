-- ===== src/Text/Fields.antt =====
-- `strings.Fields`: its words are not empty, keep what holds of the characters, and do not depend on the
-- space around the text.
use mathlib.Core.List.{[], ◌∷◌, cons-ne-nil}
use ovn_kubernetes_mcp.Prelude.{
  inr, inl, not, Bool-cases, ◌∙◌, is_empty, sym, keep, ◌∷◌, arith, refl, ◌≢◌, false, true, Bool, ℕ,
  ◌≡◌, List, All,
}
use ovn_kubernetes_mcp.Text.{Text, is_space, trim_left, trim_right, trim_space, split_by, fields}
use ovn_kubernetes_mcp.Text.Laws.{split_by-cons}

module _ (P : ℕ → Type 0) where
  All-split_by : (p : ℕ → Bool) (s : Text) → All P s → All (All P) (split_by p s)
  unfolding split_by
  All-split_by p [] h = (tt, tt)
  All-split_by p (c ∷ s) (pc, h) =
      let (q, qs, r) = split_by-cons p s in
      let ih : All (All P) (q ∷ qs) = rw r at (All-split_by p s h) in
      elim (Bool-cases (p c)) [
        | inl e ↦ rw e (tt, All-split_by p s h)
        | inr e ↦ rw (e, r) ((pc, ih.0), ih.1)
      ]

  All-keep_words :
      (words : List Text) → All (All P) words → All (All P) (keep (λ w. not (is_empty w)) words)
  All-keep_words [] h = tt
  All-keep_words ([] ∷ ws) (_, h) = All-keep_words ws h
  All-keep_words ((c ∷ w) ∷ ws) (p, h) = (p, All-keep_words ws h)

  -- What holds of every character holds of the characters of every word.
  pub All-fields : (s : Text) → All P s → All (All P) (fields s)
  unfolding fields
  All-fields s h = All-keep_words (split_by is_space s) (All-split_by is_space s h)

keep_words-nonempty : (ws : List Text) → All (λ w. w ≢ []) (keep (λ w. not (is_empty w)) ws)
keep_words-nonempty [] = tt
keep_words-nonempty ([] ∷ ws) = keep_words-nonempty ws
keep_words-nonempty ((c ∷ w) ∷ ws) = (cons-ne-nil c w, keep_words-nonempty ws)

-- No word is empty.
pub fields-nonempty : (s : Text) → All (λ w. w ≢ []) (fields s)
unfolding fields
fields-nonempty s = keep_words-nonempty (split_by is_space s)

-- The words of a list of parts.
abbrev words_of : List Text → List Text
words_of = keep (λ w. not (is_empty w))

fields_lem : (s : Text) → fields s ≡ words_of (split_by is_space s)
unfolding fields
fields_lem s = refl

fields-trim_left : (s : Text) → fields (trim_left s) ≡ fields s
unfolding trim_left fields split_by
fields-trim_left [] = refl
fields-trim_left (c ∷ s) = elim (Bool-cases (is_space c)) [
  | inl e ↦ rw e (fields-trim_left s)
  | inr e ↦ rw e (rw e)
]

-- Two texts split alike up to empty parts behind the first.
record SplitsAlike (s t : Text) : Type 0 where
  first : Text
  rest_s : List Text
  rest_t : List Text
  splits_s : split_by is_space s ≡ first ∷ rest_s
  splits_t : split_by is_space t ≡ first ∷ rest_t
  same_words : words_of rest_s ≡ words_of rest_t

SplitsAlike-words :
    {s t : Text} → SplitsAlike s t → words_of (split_by is_space s) ≡ words_of (split_by is_space t)
SplitsAlike-words h = rw (h.splits_s, h.splits_t) (ground (arith, h.same_words))

empty_lem : (s : Text) → is_empty s ≡ true → s ≡ []
empty_lem [] h = refl
empty_lem (c ∷ s) h = cc

SplitsAlike-space :
    (c : ℕ) (s t : Text) → is_space c ≡ true → SplitsAlike s t → SplitsAlike (c ∷ s) (c ∷ t)
unfolding split_by
SplitsAlike-space c s t e h = record {
  first = [];
  rest_s = split_by is_space s;
  rest_t = split_by is_space t;
  splits_s = rw e;
  splits_t = rw e;
  same_words = SplitsAlike-words h;
}

SplitsAlike-letter :
    (c : ℕ) (s t : Text) → is_space c ≡ false → SplitsAlike s t → SplitsAlike (c ∷ s) (c ∷ t)
unfolding split_by
SplitsAlike-letter c s t e h = record {
  first = c ∷ h.first;
  rest_s = h.rest_s;
  rest_t = h.rest_t;
  splits_s = rw (e, h.splits_s);
  splits_t = rw (e, h.splits_t);
  same_words = h.same_words;
}

-- A text of which trimming leaves nothing.
SplitsAlike-blank :
    (c : ℕ) (s : Text) → is_space c ≡ true → SplitsAlike s [] → SplitsAlike (c ∷ s) []
unfolding split_by
SplitsAlike-blank c s e h = record {
  first = [];
  rest_s = split_by is_space s;
  rest_t = [];
  splits_s = rw e;
  splits_t = refl;
  same_words = SplitsAlike-words h;
}

trim_right-SplitsAlike : (s : Text) → SplitsAlike s (trim_right s)
unfolding trim_right
trim_right-SplitsAlike [] = record {
  first = [];
  rest_s = [];
  rest_t = [];
  splits_s = unfold split_by in refl;
  splits_t = unfold split_by in refl;
  same_words = refl;
}
trim_right-SplitsAlike (c ∷ s) = elim (Bool-cases (is_space c)) [
  | inl e ↦ elim (Bool-cases (is_empty (trim_right s))) [
    | inl b ↦
        rw (e, b)
          (SplitsAlike-blank c s e (rw (empty_lem (trim_right s) b) at (trim_right-SplitsAlike s)))
    | inr b ↦ rw (e, b) (SplitsAlike-space c s (trim_right s) e (trim_right-SplitsAlike s))
  ]
  | inr e ↦ rw e (SplitsAlike-letter c s (trim_right s) e (trim_right-SplitsAlike s))
]

-- The space around a text does not change its words.
pub fields-trim_space : (s : Text) → fields (trim_space s) ≡ fields s
unfolding trim_space
fields-trim_space s =
    sym (
      fields_lem (trim_left s)
      ∙ SplitsAlike-words (trim_right-SplitsAlike (trim_left s))
      ∙ sym (fields_lem (trim_right (trim_left s))))
    ∙ fields-trim_left s

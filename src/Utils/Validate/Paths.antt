-- ===== src/Utils/Validate/Paths.antt =====
-- Which paths `ValidatePath` accepts, and where they lead.
use ovn_kubernetes_mcp.Text.Laws.{text_eq_iff}
use ovn_kubernetes_mcp.Prelude.{
  tail, ◌||◌, if◌then◌else◌, ◌>>◌, append_assoc, reject_if, ap, Error, ◌∙◌, ◌++◌, Option, not, sym,
  ◌≢◌, All-mono, ok, false, Bool, ◌⊎◌, ◌≤◌, List, ℕ, ◌≡◌, refl, ◌+◌, ◌↔◌, inl, inr, true, [], ◌∷◌,
  none, arith, All, Bool-cases,
}
use ovn_kubernetes_mcp.Text.{text_eq, split, codes, elem, Text, width}
use ovn_kubernetes_mcp.Utils.Validate.{
  reject_unsafe, is_abs, validate_path, path_safe_char, find_unsafe,
}

find_unsafe_iff :
    (i : ℕ) (s : Text) → (find_unsafe i s ≡ none) ↔ All (λ c. path_safe_char c ≡ true) s
unfolding find_unsafe
find_unsafe_iff i [] = (λ _. tt, λ _. refl)
find_unsafe_iff i (c ∷ s) = elim (Bool-cases (path_safe_char c)) [
  | inl e ↦
      let (to, from) = find_unsafe_iff (i + width c) s in
      (λ h. (e, to (rw e at h)), λ (_, h). rw e (from h))
  | inr e ↦ (λ h. absurd (ground arith), λ (h, _). absurd (ground arith))
]

-- A letter, a digit or one of `/ _ . ~ -`.
abbrev pub IsPathChar : ℕ → Type 0
IsPathChar c =
    ((b'a' ≤ c) × (c ≤ b'z'))
    ⊎ ((b'A' ≤ c) × (c ≤ b'Z'))
    ⊎ ((b'0' ≤ c) × (c ≤ b'9'))
    ⊎ (c ≡ b'/')
    ⊎ (c ≡ b'_')
    ⊎ (c ≡ b'.')
    ⊎ (c ≡ b'~')
    ⊎ (c ≡ b'-')

path_safe_char_iff : (c : ℕ) → (path_safe_char c ≡ true) ↔ IsPathChar c
path_safe_char_iff c = ground arith

pub record IsSafePath (path : Text) : Type 0 where
  pub absolute : (rest : Text) × (path ≡ b'/' ∷ rest)
  pub no_traversal : All (λ p. p ≢ codes "..") (split path b'/')
  pub clean : All IsPathChar path

not_elem_iff : (s : Text) (ts : List Text) → (elem s ts ≡ false) ↔ All (λ t. t ≢ s) ts
not_elem_iff s [] = (λ _. tt, λ _. refl)
not_elem_iff s (t ∷ ts) =
    let (to, from) = not_elem_iff s ts in
    elim (Bool-cases (text_eq s t)) [
      | inl e ↦ (λ h. absurd (ground arith), λ (n, _). absurd (n (sym ((text_eq_iff s t).0 e))))
      | inr e ↦ (
        λ h. (λ q. absurd (ground (arith, text_eq_iff s t)), to (rw e at h)),
        λ (_, h). rw e (from h),
      )
    ]

is_abs_iff : (path : Text) → (is_abs path ≡ true) ↔ ((rest : Text) × (path ≡ b'/' ∷ rest))
is_abs_iff [] = (λ h. cc, λ (r, e). cc)
is_abs_iff (c ∷ s) = (λ h. (s, ground arith), λ (r, e). ground arith)

-- The three checks pass together exactly if each passes.
checks_iff :
    (not_abs up : Bool) (found : Option (ℕ × ℕ)) (d e : Error) (path_type : Text)
    → ((reject_if not_abs d >> (reject_if up e >> reject_unsafe path_type found)) ≡ ok tt)
      ↔ ((not_abs ≡ false) × (up ≡ false) × (found ≡ none))
checks_iff false false none d e path_type = (λ _. (refl, refl, refl), λ _. refl)
checks_iff not_abs up found d e path_type = ground arith

validate_path_sound :
    (c : ℕ) (s path_type : Text) (allow_empty : Bool)
    → validate_path (c ∷ s) path_type allow_empty ≡ ok tt
    → IsSafePath (c ∷ s)
unfolding validate_path
validate_path_sound c s path_type allow_empty h =
    let (abs, up, found) = (checks_iff (not (is_abs (c ∷ s))) _ _ _ _ path_type).0 h in
    record {
      absolute = (is_abs_iff (c ∷ s)).0 (ground arith);
      no_traversal = (not_elem_iff (codes "..") (split (c ∷ s) b'/')).0 up;
      clean =
          All-mono (λ d. (path_safe_char_iff d).0) (c ∷ s) ((find_unsafe_iff 0 (c ∷ s)).0 found);
    }

validate_path_complete :
    (c : ℕ) (s path_type : Text) (allow_empty : Bool)
    → IsSafePath (c ∷ s)
    → validate_path (c ∷ s) path_type allow_empty ≡ ok tt
unfolding validate_path
validate_path_complete c s path_type allow_empty h =
    let abs = (is_abs_iff (c ∷ s)).1 h.absolute in
    let up = (not_elem_iff (codes "..") (split (c ∷ s) b'/')).1 h.no_traversal in
    let clean = All-mono (λ d. (path_safe_char_iff d).1) (c ∷ s) h.clean in
    let found = (find_unsafe_iff 0 (c ∷ s)).1 clean in
    (checks_iff (not (is_abs (c ∷ s))) _ _ _ _ path_type).1 (ground arith, up, found)

-- `ValidatePath` accepts the empty path exactly where it is allowed, and another path exactly if it is
-- absolute, has no element `..` and holds safe characters only.
pub validate_path_iff :
    (path path_type : Text) (allow_empty : Bool)
    → (validate_path path path_type allow_empty ≡ ok tt)
      ↔ (((path ≡ []) × (allow_empty ≡ true)) ⊎ IsSafePath path)
validate_path_iff [] path_type allow_empty = (
  λ h. inl (refl, unfold validate_path in ground arith),
  λ h. elim h [
    | inl (_, e) ↦ unfold validate_path in rw e
    | inr safe ↦ let (r, e) = safe.absolute in cc
  ],
)
validate_path_iff (c ∷ s) path_type allow_empty = (
  λ h. inr (validate_path_sound c s path_type allow_empty h),
  λ h. elim h [
    | inl (e, _) ↦ cc
    | inr safe ↦ validate_path_complete c s path_type allow_empty safe
  ],
)

-- Following a path from a directory, whose names are given from the innermost out.
abbrev pub enter : List Text → Text → List Text
enter dir name =
    if text_eq name [] || text_eq name (codes ".")
    then dir
    else if text_eq name (codes "..")
    then tail dir
    else name ∷ dir

abbrev pub follow : List Text → List Text → List Text
follow dir [] = dir
follow dir (p ∷ ps) = follow (enter dir p) ps

enter_down :
    (dir : List Text) (p : Text)
    → p ≢ codes ".."
    → (deeper : List Text) × (enter dir p ≡ deeper ++ dir)
enter_down dir p h = elim (Bool-cases (text_eq p [] || text_eq p (codes "."))) [
  | inl e ↦ ([], rw e)
  | inr e ↦
      let up : text_eq p (codes "..") ≡ false = ground (arith, text_eq_iff p (codes "..")) in
      (p ∷ [], rw (e, up))
]

follow_down :
    (dir parts : List Text)
    → All (λ p. p ≢ codes "..") parts
    → (deeper : List Text) × (follow dir parts ≡ deeper ++ dir)
follow_down dir [] h = ([], refl)
follow_down dir (p ∷ ps) (hp, hps) =
    let (a, e) = enter_down dir p hp in
    let (b, e') = follow_down (enter dir p) ps hps in
    (b ++ a, e' ∙ ap (λ (d : List Text). b ++ d) e ∙ sym (append_assoc b a dir))

-- An accepted path never leads out of the directory where it is followed from.
pub validate_path_down :
    (path path_type : Text) (allow_empty : Bool) (dir : List Text)
    → validate_path path path_type allow_empty ≡ ok tt
    → (deeper : List Text) × (follow dir (split path b'/') ≡ deeper ++ dir)
validate_path_down path path_type allow_empty dir h =
    elim ((validate_path_iff path path_type allow_empty).0 h) [
      | inl (e, _) ↦ rw e (unfold split in ([], refl))
      | inr safe ↦ follow_down dir (split path b'/') safe.no_traversal
    ]

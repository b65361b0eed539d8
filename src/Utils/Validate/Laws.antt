-- ===== src/Utils/Validate/Laws.antt =====
-- Which strings `ValidateSafeString` accepts, and how the four policies compare.
use ovn_kubernetes_mcp.Prelude.{
  ℕ, ◌≡◌, ◌≢◌, refl, ◌↔◌, ◌⊎◌, inl, inr, Bool, true, false, List, [], ◌∷◌, arith, any, All,
  any-eq-false_iff, All-mono, Result, ok, err, reject_if, wrap, Error, String,
}
use ovn_kubernetes_mcp.Text.{Text}
use ovn_kubernetes_mcp.Utils.Validate.{
  ShellMetaCharactersType, default, allow_brackets, allow_brackets_allow_amp,
  disallow_special_characters, other, validate_shell_metacharacters, validate_safe_string,
  shell_meta_characters, shell_meta_characters_no_brackets,
  shell_meta_characters_no_brackets_no_amp, shell_meta_characters_no_brackets_special_characters,
}

-- None of the characters with which a shell ends, joins or redirects a command, or expands a word:
-- ``; | $ ` < > \``.
pub record IsPlain (c : ℕ) : Type 0 where
  pub no_semicolon : c ≢ b';'
  pub no_pipe : c ≢ b'|'
  pub no_dollar : c ≢ b'$'
  pub no_backquote : c ≢ 96
  pub no_redirect_in : c ≢ b'<'
  pub no_redirect_out : c ≢ b'>'
  pub no_backslash : c ≢ 92

-- What each policy lets through; the strings that name no policy let nothing through.
abbrev pub Admits : ShellMetaCharactersType → ℕ → Type 0
Admits default c = IsPlain c × (c ≢ b'&') × (c ≢ b'(') × (c ≢ b')')
Admits allow_brackets c = IsPlain c × (c ≢ b'&')
Admits allow_brackets_allow_amp c = IsPlain c
Admits disallow_special_characters c = IsPlain c × (c ≢ b'&') × (c ≢ 10) × (c ≢ 0) × (c ≢ 39)
Admits (other t) c = ⊥

default_class : (c : ℕ) → (shell_meta_characters c ≡ false) ↔ Admits default c
default_class c = ground arith

brackets_class : (c : ℕ) → (shell_meta_characters_no_brackets c ≡ false) ↔ Admits allow_brackets c
brackets_class c = ground arith

amp_class :
    (c : ℕ)
    → (shell_meta_characters_no_brackets_no_amp c ≡ false) ↔ Admits allow_brackets_allow_amp c
amp_class c = ground arith

special_class :
    (c : ℕ)
    → (shell_meta_characters_no_brackets_special_characters c ≡ false)
      ↔ Admits disallow_special_characters c
special_class c = ground arith

-- A class that no character is in.
class_iff :
    (p : ℕ → Bool) (P : ℕ → Type 0) (e : Error) (s : Text)
    → ((c : ℕ) → (p c ≡ false) ↔ P c)
    → (reject_if (any p s) e ≡ ok tt) ↔ All P s
class_iff p P e s h =
    let (to, from) = any-eq-false_iff p s in
    (
      λ r. All-mono (λ c. (h c).0) s (to (ground arith)),
      λ a. let no_match : any p s ≡ false = from (All-mono (λ c. (h c).1) s a) in rw no_match,
    )

validate_shell_metacharacters_iff :
    (c : ℕ) (s : Text) (type : ShellMetaCharactersType)
    → (validate_shell_metacharacters (c ∷ s) type ≡ ok tt) ↔ All (Admits type) (c ∷ s)
unfolding validate_shell_metacharacters
validate_shell_metacharacters_iff c s default = class_iff _ (Admits default) _ (c ∷ s) default_class
validate_shell_metacharacters_iff c s allow_brackets =
    class_iff _ (Admits allow_brackets) _ (c ∷ s) brackets_class
validate_shell_metacharacters_iff c s allow_brackets_allow_amp =
    class_iff _ (Admits allow_brackets_allow_amp) _ (c ∷ s) amp_class
validate_shell_metacharacters_iff c s disallow_special_characters =
    class_iff _ (Admits disallow_special_characters) _ (c ∷ s) special_class
validate_shell_metacharacters_iff c s (other t) = (λ h. cc, λ h. absurd h.0)

wrap_iff :
    (format : String) (args : List Text) (r : Result (Unit {0}))
    → (wrap format args r ≡ ok tt) ↔ (r ≡ ok tt)
wrap_iff format args (ok tt) = (λ _. refl, λ _. refl)
wrap_iff format args (err e) = (λ h. cc, λ h. cc)

-- `ValidateSafeString` accepts the empty string exactly where it is allowed, and another string exactly
-- if its policy lets every character through.
pub validate_safe_string_iff :
    (value field_name : Text) (allow_empty : Bool) (type : ShellMetaCharactersType)
    → (validate_safe_string value field_name allow_empty type ≡ ok tt)
      ↔ (((value ≡ []) × (allow_empty ≡ true)) ⊎ ((value ≢ []) × All (Admits type) value))
unfolding validate_safe_string
validate_safe_string_iff [] field_name allow_empty type = ground arith
validate_safe_string_iff (c ∷ s) field_name allow_empty type = ground (
  arith,
  validate_shell_metacharacters_iff c s type,
  wrap_iff "invalid %s: contains potentially dangerous characters: %w" (field_name ∷ [])
      (validate_shell_metacharacters (c ∷ s) type),
)

-- What is accepted is empty or let through by the policy.
pub validate_safe_string-All :
    (value field_name : Text) (allow_empty : Bool) (type : ShellMetaCharactersType)
    → validate_safe_string value field_name allow_empty type ≡ ok tt
    → All (Admits type) value
validate_safe_string-All [] field_name allow_empty type h = tt
validate_safe_string-All (c ∷ s) field_name allow_empty type h =
    elim ((validate_safe_string_iff (c ∷ s) field_name allow_empty type).0 h) [
      | inl (e, _) ↦ cc
      | inr (_, a) ↦ a
    ]

-- The policies from the strictest: each accepts whatever the one before it accepts.
pub data Weaker : ShellMetaCharactersType → ShellMetaCharactersType → Type 0 where
  brackets_allowed : Weaker default allow_brackets
  amp_allowed : Weaker allow_brackets allow_brackets_allow_amp
  special_allowed : Weaker disallow_special_characters allow_brackets

Weaker-Admits : {t u : ShellMetaCharactersType} → Weaker t u → (c : ℕ) → Admits t c → Admits u c
Weaker-Admits brackets_allowed c h = (h.0, h.1)
Weaker-Admits amp_allowed c h = h.0
Weaker-Admits special_allowed c h = (h.0, h.1)

-- A string that `ValidateSafeString` accepts under a policy is accepted under a policy that is weaker:
-- brackets allowed is weaker than the default and than the special characters disallowed, and ampersands
-- allowed as well is weaker still.
pub validate_safe_string-Weaker :
    (value field_name : Text) (allow_empty : Bool) {t u : ShellMetaCharactersType}
    → Weaker t u
    → validate_safe_string value field_name allow_empty t ≡ ok tt
    → validate_safe_string value field_name allow_empty u ≡ ok tt
validate_safe_string-Weaker value field_name allow_empty {t} {u} w h =
    let (_, accept) = validate_safe_string_iff value field_name allow_empty u in
    elim ((validate_safe_string_iff value field_name allow_empty t).0 h) [
      | inl empty ↦ accept (inl empty)
      | inr (nonempty, a) ↦ accept (inr (nonempty, All-mono (Weaker-Admits w) value a))
    ]

-- ===== src/Utils/Validate.antt =====
-- `validateShellMetacharacters`, `ValidateSafeString` and `ValidatePath` of pkg/utils/utils.go. Each
-- regular expression there is one character class, so a match is a character of the class.
pub mod Laws
pub mod Paths
use ovn_kubernetes_mcp.Prelude.{
  refl, ◌≡◌, ◌≢◌, ℕ, Bool, true, false, not, ◌&&◌, ◌||◌, List, [], ◌∷◌, Option, none, some, ltb,
  leb, ◌==◌, if◌then◌else◌, any, Error, errorf, wrap, Result, ok, err, ◌+◌, reject_if, ◌>>◌, ◌>>=◌,
  is_empty,
}
use ovn_kubernetes_mcp.Text.{Text, codes, text_eq, elem, width, split, is_alnum, has_prefix}

-- `ShellMetaCharactersType` is a string; `other` is any string but the four constants.
pub data ShellMetaCharactersType : Type 0 where
  default allow_brackets allow_brackets_allow_amp disallow_special_characters :
      ShellMetaCharactersType
  other : Text → ShellMetaCharactersType

-- ``[;&|$`<>\\()]``
abbrev pub shell_meta_characters : ℕ → Bool
shell_meta_characters c =
    c == b';'
    || c == b'&'
    || c == b'|'
    || c == b'$'
    || c == 96
    || c == b'<'
    || c == b'>'
    || c == 92
    || c == b'('
    || c == b')'

-- ``[;&|$`<>\\]``
abbrev pub shell_meta_characters_no_brackets : ℕ → Bool
shell_meta_characters_no_brackets c =
    c == b';' || c == b'&' || c == b'|' || c == b'$' || c == 96 || c == b'<' || c == b'>' || c == 92

-- ``[;|$`<>\\]``
abbrev pub shell_meta_characters_no_brackets_no_amp : ℕ → Bool
shell_meta_characters_no_brackets_no_amp c =
    c == b';' || c == b'|' || c == b'$' || c == 96 || c == b'<' || c == b'>' || c == 92

-- ``[;&|$`\n\x00'<>\\]``
abbrev pub shell_meta_characters_no_brackets_special_characters : ℕ → Bool
shell_meta_characters_no_brackets_special_characters c =
    c == b';'
    || c == b'&'
    || c == b'|'
    || c == b'$'
    || c == 96
    || c == 10
    || c == 0
    || c == 39
    || c == b'<'
    || c == b'>'
    || c == 92

abbrev metacharacter_error : Text → Error
metacharacter_error param = errorf "invalid use of metacharacters in parameter: %s" (param ∷ [])

unfoldable pub validate_shell_metacharacters : Text → ShellMetaCharactersType → Result (Unit {0})
validate_shell_metacharacters param allow_brackets_allow_amp =
    reject_if (any shell_meta_characters_no_brackets_no_amp param) (metacharacter_error param)
validate_shell_metacharacters param allow_brackets =
    reject_if (any shell_meta_characters_no_brackets param) (metacharacter_error param)
validate_shell_metacharacters param disallow_special_characters =
    reject_if (any shell_meta_characters_no_brackets_special_characters param)
      (metacharacter_error param)
validate_shell_metacharacters param default =
    reject_if (any shell_meta_characters param) (metacharacter_error param)
validate_shell_metacharacters param (other t) =
    err (errorf "invalid shell metacharacters type: %s" (t ∷ []))

unfoldable pub validate_safe_string :
    Text → Text → Bool → ShellMetaCharactersType → Result (Unit {0})
unfolding validate_shell_metacharacters
validate_safe_string [] field_name allow_empty type =
    if allow_empty then ok tt else err (errorf "%s cannot be empty" (field_name ∷ []))
validate_safe_string (c ∷ s) field_name allow_empty type =
    wrap "invalid %s: contains potentially dangerous characters: %w" (field_name ∷ [])
      (validate_shell_metacharacters (c ∷ s) type)

-- The complement of `[^a-zA-Z0-9/_.~-]`.
abbrev pub path_safe_char : ℕ → Bool
path_safe_char c = is_alnum c || c == b'/' || c == b'_' || c == b'.' || c == b'~' || c == b'-'

-- `pathUnsafeChar.FindStringIndex`: the byte position of the first unsafe character, and it.
unfoldable pub find_unsafe : ℕ → Text → Option (ℕ × ℕ)
find_unsafe i [] = none
find_unsafe i (c ∷ s) =
    let rest = find_unsafe (i + width c) s in if path_safe_char c then rest else some (i, c)

-- `utf8.DecodeRuneInString` gives `(RuneError, 1)` exactly at a byte of no encoding.
abbrev pub unsafe_error : Text → ℕ × ℕ → Error
unsafe_error path_type (i, c) =
    if ltb c 0x110000
    then errorf "%s contains unsafe character at position %d: %c (U+%04X)"
        (path_type ∷ (i ∷ []) ∷ (c ∷ []) ∷ [])
    else errorf "%s contains invalid/unsafe byte at position %d: 0x%02X"
        (path_type ∷ (i ∷ []) ∷ (c ∷ []) ∷ [])

abbrev pub reject_unsafe : Text → Option (ℕ × ℕ) → Result (Unit {0})
reject_unsafe path_type none = ok tt
reject_unsafe path_type (some loc) = err (unsafe_error path_type loc)

-- `filepath.IsAbs` on Unix.
abbrev pub is_abs : Text → Bool
is_abs path = has_prefix path (codes "/")

unfoldable pub validate_path : Text → Text → Bool → Result (Unit {0})
validate_path [] path_type allow_empty =
    if allow_empty then ok tt else err (errorf "%s cannot be empty" (path_type ∷ []))
validate_path (c ∷ s) path_type allow_empty = do
  reject_if (not (is_abs (c ∷ s)))
      (errorf "%s must be an absolute path (start with /), got: %s" (path_type ∷ (c ∷ s) ∷ []))
  reject_if (elem (codes "..") (split (c ∷ s) b'/'))
      (errorf "%s contains path traversal element '..': %s" (path_type ∷ (c ∷ s) ∷ []))
  reject_unsafe path_type (find_unsafe 0 (c ∷ s))

path_test :
    (validate_path (codes "/a/../b") [] false ≢ ok tt)
    × (validate_path (codes "/a..b/~x") [] false ≡ ok tt)
unfolding validate_path find_unsafe split
path_test = (cc, refl)

-- ===== src/Ovn/Validate/Laws.antt =====
-- What the validators of pkg/ovn/mcp/commands.go and pkg/utils/ovndb accept.
use ovn_kubernetes_mcp.Prelude.{
  ◌≡◌, ◌≢◌, refl, ℕ, inl, inr, true, false, Bool-cases, [], ◌∷◌, All, ok, ◌==◌, ◌||◌, arith,
  every_iff, is_empty, not, if◌then◌else◌,
}
use ovn_kubernetes_mcp.Text.{Text, codes, text_eq, is_letter, is_alnum}
use ovn_kubernetes_mcp.Text.Laws.{text_eq_iff}
use ovn_kubernetes_mcp.Utils.OvnDb.{validate_ovn_table_name}
use ovn_kubernetes_mcp.Utils.Validate.{default, ShellMetaCharactersType, validate_safe_string}
use ovn_kubernetes_mcp.Utils.Validate.Laws.{
  Admits, validate_safe_string-All, validate_safe_string_iff,
}
use ovn_kubernetes_mcp.Ovn.Types.{northbound_db, southbound_db}
use ovn_kubernetes_mcp.Ovn.Validate.{validate_database, validate_datapath, get_db_command}

-- The program for each of the two databases.
pub data DbCommand : Text → Text → Type 0 where
  northbound : DbCommand (codes "nbdb") (codes "ovn-nbctl")
  southbound : DbCommand (codes "sbdb") (codes "ovn-sbctl")

-- A letter, then letters, digits and underscores.
abbrev pub IsTable : Text → Type 0
IsTable t =
    (c : ℕ) × (s : Text) × (t ≡ c ∷ s)
    × (is_letter c ≡ true)
    × All (λ d. is_alnum d || d == b'_' ≡ true) s

-- Not empty, and no character that the policy rejects.
abbrev pub IsSafe : ShellMetaCharactersType → Text → Type 0
IsSafe type t = (t ≢ []) × All (Admits type) t

pub validate_database-DbCommand :
    (db : Text) {u : Unit {0}} → validate_database db ≡ ok u → DbCommand db (get_db_command db)
unfolding validate_database get_db_command
validate_database-DbCommand db h = elim (Bool-cases (text_eq db southbound_db)) [
  | inl e ↦ rw (e, (text_eq_iff db southbound_db).0 e) southbound
  | inr e ↦ elim (Bool-cases (text_eq db northbound_db)) [
    | inl f ↦ rw (e, (text_eq_iff db northbound_db).0 f) northbound
    | inr f ↦ absurd (ground (arith, rw (e, f) at h))
  ]
]

pub validate_ovn_table_name-IsTable :
    (t : Text) {u : Unit {0}} → validate_ovn_table_name t ≡ ok u → IsTable t
unfolding validate_ovn_table_name
validate_ovn_table_name-IsTable [] h = cc
validate_ovn_table_name-IsTable (c ∷ s) h =
    (c, s, refl, ground arith, (every_iff (λ d. is_alnum d || d == b'_') s).0 (ground arith))

pub validate_safe_string-IsSafe :
    (value field_name : Text) (type : ShellMetaCharactersType)
    → validate_safe_string value field_name false type ≡ ok tt
    → IsSafe type value
validate_safe_string-IsSafe value field_name type h =
    elim ((validate_safe_string_iff value field_name false type).0 h) [
      | inl (e, f) ↦ cc
      | inr a ↦ a
    ]

pub given_datapath :
    (datapath : Text) {u : Unit {0}}
    → (if not (is_empty datapath) then validate_datapath datapath else ok tt) ≡ ok u
    → All (Admits default) datapath
unfolding validate_datapath
given_datapath [] h = tt
given_datapath (c ∷ s) h = validate_safe_string-All (c ∷ s) _ false default h

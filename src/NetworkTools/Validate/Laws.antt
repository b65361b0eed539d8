-- ===== src/NetworkTools/Validate/Laws.antt =====
-- What the validators of pkg/network-tools/mcp/utils.go accept.
use ovn_kubernetes_mcp.Prelude.{
  ℕ, ◌≤◌, ◌≡◌, refl, inl, inr, true, [], ◌∷◌, arith, All, ok, Bool-cases,
}
use ovn_kubernetes_mcp.Prelude.Int.{ℤ, pos, negsuc}
use ovn_kubernetes_mcp.Text.{Text, codes, len, text_eq}
use ovn_kubernetes_mcp.Text.Laws.{text_eq_iff}
use ovn_kubernetes_mcp.Utils.Validate.{disallow_special_characters}
use ovn_kubernetes_mcp.Utils.Validate.Laws.{Admits, validate_safe_string-All}
use ovn_kubernetes_mcp.NetworkTools.Validate.{
  interface_name_pattern, validate_interface, validate_packet_filter, validate_int_max, or_default,
}

-- No interface, all of them, or a name of at most 15 bytes in the pattern of the names.
pub data IsInterface (t : Text) : Type 0 where
  no_interface : t ≡ [] → IsInterface t
  any_interface : t ≡ codes "any" → IsInterface t
  named : len t ≤ 15 → interface_name_pattern t ≡ true → IsInterface t

-- At most 1024 bytes, with no character that the strictest policy rejects.
abbrev pub IsPacketFilter : Text → Type 0
IsPacketFilter t = (len t ≤ 1024) × All (Admits disallow_special_characters) t

-- A number within bounds, which a default that is not 0 keeps from being 0.
pub bounded :
    (value : ℤ) (def bound : ℕ) (field_name unit : Text) {u : Unit {0}}
    → 1 ≤ def
    → validate_int_max (or_default value def) bound field_name unit ≡ ok u
    → (n : ℕ) × (or_default value def ≡ pos n) × (1 ≤ n) × (n ≤ bound)
unfolding validate_int_max
bounded (pos ℕ.zero) def bound field_name unit d h = (def, refl, d, ground arith)
bounded (pos (ℕ.suc n)) def bound field_name unit d h = (ℕ.suc n, refl, omega arith, ground arith)
bounded (negsuc n) def bound field_name unit d h = cc

pub validate_interface-IsInterface :
    (t : Text) {u : Unit {0}} → validate_interface t ≡ ok u → IsInterface t
unfolding validate_interface
validate_interface-IsInterface [] h = no_interface refl
validate_interface-IsInterface (c ∷ s) h = elim (Bool-cases (text_eq (c ∷ s) (codes "any"))) [
  | inl e ↦ any_interface ((text_eq_iff (c ∷ s) (codes "any")).0 e)
  | inr e ↦ named (ground arith) (ground arith)
]

pub validate_packet_filter-IsPacketFilter :
    (t : Text) {u : Unit {0}} → validate_packet_filter t ≡ ok u → IsPacketFilter t
unfolding validate_packet_filter
validate_packet_filter-IsPacketFilter t h = (
  ground arith,
  validate_safe_string-All t (codes "packet filter") true disallow_special_characters
      (ground arith),
)

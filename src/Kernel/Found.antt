-- ===== src/Kernel/Found.antt =====
-- `utilityExists` of pkg/kernel/mcp/util.go: when a utility counts as there.
use ovn_kubernetes_mcp.Kernel.Params.{Config}
use ovn_kubernetes_mcp.Utils.Lines.{newline}
use ovn_kubernetes_mcp.Kernel.Report.{NoWarning}
use ovn_kubernetes_mcp.Kernel.ReportOf.{filter_warnings-join, has_no_warning_iff}
use ovn_kubernetes_mcp.Kernel.Util.{has_no_warning, filter_warnings, utility_exists, on_node}
use ovn_kubernetes_mcp.Exec.{◌>>◌, check_error, ret, ◌>>=◌, ◌>>=◌, run, Context, Reply, Call}
use ovn_kubernetes_mcp.Text.{join, split, codes, trim_space, Text}
use ovn_kubernetes_mcp.Prelude.{
  Selection-keep, keep, reject_if, Selection, some, Error, Option, String, ap, is_empty, none, refl,
  false, true, is_ok, ◌≢◌, not, ◌∷◌, [], ◌≡◌, List, Bool,
}

-- What `GetConntrack` of pkg/kernel/mcp/conntrack.go returns.

-- The lines of a standard error that do not warn, joined and trimmed.
abbrev pub Says : Text → Text → Type 0
Says stderr text =
    (said : List Text) × Selection NoWarning said (split stderr newline)
    × (text ≡ trim_space (join said newline))

-- The utility is there if asking for its version does not fail and says nothing on its standard error,
-- but for warnings and blanks.
pub data IsFound (reply : Reply) : Bool → Type 0 where
  found_well : reply.error ≡ none → Says reply.stderr [] → IsFound reply true
  found_failing : (e : Error) → reply.error ≡ some e → IsFound reply false
  found_saying : (text : Text) → text ≢ [] → Says reply.stderr text → IsFound reply false

filter_warnings-Says : (stderr : Text) → Says stderr (trim_space (filter_warnings stderr))
filter_warnings-Says stderr = (
  keep has_no_warning (split stderr newline),
  Selection-keep _ has_no_warning _ has_no_warning_iff,
  ap trim_space (filter_warnings-join stderr),
)

check-IsFound :
    (answer : Call → Reply) (format : String) (args : List Text) (reply : Reply)
    (error : Option Error) (text : Text) (complaint : Error)
    → reply.error ≡ error
    → Says reply.stderr text
    → IsFound reply (
        is_ok (
          run answer (
            ret (check_error format args error)
            >> ret (reject_if (not (is_empty text)) complaint))))
unfolding run ◌>>=◌
check-IsFound answer format args reply none [] complaint e says = found_well e says
check-IsFound answer format args reply none (c ∷ s) complaint e says =
    found_saying (c ∷ s) (λ q. cc) says
check-IsFound answer format args reply (some x) text complaint e says = found_failing x e

module _ (answer : Call → Reply) (cfg : Config) (ctx : Context) (namespace node : Text) where
  pub utility_exists-IsFound :
      (utility : Text)
      → IsFound
          (answer (on_node cfg ctx namespace node (utility ∷ codes "-V" ∷ [])))
          (is_ok (run answer (utility_exists cfg ctx namespace node utility)))
  unfolding utility_exists run ◌>>=◌
  utility_exists-IsFound utility =
      let reply = answer (on_node cfg ctx namespace node (utility ∷ codes "-V" ∷ [])) in
      check-IsFound answer _ _ reply reply.error (trim_space (filter_warnings reply.stderr)) _ refl
        (filter_warnings-Says reply.stderr)

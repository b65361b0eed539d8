-- ===== src/Kernel/Calls.antt =====
-- The calls of the shared steps of pkg/kernel/mcp: `utilityExists` and `executeCommand`.
use ovn_kubernetes_mcp.Prelude.{refl, [], ◌∷◌, ◌≡◌, List}
use ovn_kubernetes_mcp.Text.{Text, codes}
use ovn_kubernetes_mcp.Exec.{Context, Call}
use ovn_kubernetes_mcp.Exec.Laws.{
  Satisfies-Anything, Ensures-issue, Ensures, Anything, Ensures-lift,
}
use ovn_kubernetes_mcp.Kernel.Params.{Config}
use ovn_kubernetes_mcp.Kernel.Util.{on_node, utility_exists, execute_command}

-- A command on the node that was asked for, under the given context, with no mount, whose arguments are
-- as `Argv` says.
abbrev pub IsNodeCall : Config → Context → Text → Text → (List Text → Type 0) → Call → Type 0
IsNodeCall cfg ctx namespace node Argv c =
    (args : List Text) × (c ≡ on_node cfg ctx namespace node args) × Argv args

module _ (cfg : Config) (ctx : Context) (namespace node : Text) (Argv : List Text → Type 0) where
  pub Ensures-utility_exists :
      (utility : Text)
      → Argv (utility ∷ codes "-V" ∷ [])
      → Ensures
          (IsNodeCall cfg ctx namespace node Argv)
          Anything
          (utility_exists cfg ctx namespace node utility)
  unfolding utility_exists
  Ensures-utility_exists utility h =
      Ensures-issue _ Anything _ _ (_, refl, h)
        λ r. Ensures-lift _ Anything _ _ λ _ _. Satisfies-Anything _

  pub Ensures-execute_command :
      (command : List Text)
      → Argv command
      → Ensures
          (IsNodeCall cfg ctx namespace node Argv)
          Anything
          (execute_command cfg ctx namespace node command)
  unfolding execute_command
  Ensures-execute_command command h =
      Ensures-issue _ Anything _ _ (_, refl, h) λ r. Ensures-lift _ Anything _ _ λ _ _. tt

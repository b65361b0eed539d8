-- ===== src/MustGather/Path.antt =====
-- `ValidateMustGatherPath` of pkg/must-gather/utils/utils.go, and `useMustGather` of
-- pkg/must-gather/omc-client/omc-client.go with the commands that run under the client's lock.
use ovn_kubernetes_mcp.Prelude.{false, [], ◌∷◌, String, wrapf, Result, ok, err, none, some}
use ovn_kubernetes_mcp.Text.{Text, codes}
use ovn_kubernetes_mcp.Text.Paths.{clean, join_paths}
use ovn_kubernetes_mcp.Exec.{Context}
use ovn_kubernetes_mcp.Files.{
  Stat, found, missing, unknown, Outcome, stat, run_command, leaf, ask, asked, Program, ◌>>◌,
  wrap_all,
}
use ovn_kubernetes_mcp.Utils.Validate.{validate_path}
use ovn_kubernetes_mcp.MustGather.Omc.{Session}

-- `if _, err := os.Stat(path); err != nil`, with an error of its own where nothing is there.
abbrev pub found_or : String → String → Text → Stat → Result (Unit {0})
found_or not_found failed path (found is_dir) = ok tt
found_or not_found failed path (missing e) = err (wrapf not_found (path ∷ []) e)
found_or not_found failed path (unknown e) = err (wrapf failed (path ∷ []) e)

abbrev pub check_found : String → String → Text → Program (Unit {0})
check_found not_found failed path = ask (stat path) (λ s. leaf (found_or not_found failed path s))

unfoldable pub validate_must_gather_path : Text → Program (Unit {0})
validate_must_gather_path path = do
  leaf (validate_path path (codes "must gather path") false)
  check_found "must gather path %s does not exist: %w" "failed to stat must gather path %s: %w"
      (clean path)
  check_found "must gather log file %s not found: %w" "failed to stat must gather log file %s: %w"
      (join_paths (clean path ∷ codes "must-gather.logs" ∷ []))

-- The error of a command, wrapped together with its output.
abbrev pub checked_outcome : String → Outcome → Result (Unit {0})
checked_outcome format o = elim o.error [
  | none ↦ ok tt
  | some e ↦ err (wrapf format (o.output ∷ []) e)
]

unfoldable pub use_must_gather : Context → Text → Text → Program (Unit {0})
use_must_gather ctx omc path = do
  wrap_all "failed to validate must gather path: %w" [] (validate_must_gather_path path)
  ask (run_command ctx omc (codes "use" ∷ path ∷ []))
      (λ o. leaf (checked_outcome "failed to execute omc command. output: %s, error: %w" o))

-- What a call of the client does while it holds the lock.
unfoldable pub run_session : Context → Text → Session → Program Outcome
run_session ctx omc s = do
  wrap_all "failed to use must gather: %w" [] (use_must_gather ctx omc s.path)
  asked (run_command ctx omc s.args)

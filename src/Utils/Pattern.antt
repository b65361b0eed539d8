-- ===== src/Utils/Pattern.antt =====
-- pkg/utils/pattern/pattern.go. `regexp.Compile` is the parameter `compile`: a pattern is refused or
-- becomes a test on lines. The function argument `f` is a handler, since it may run a command.
pub mod Laws
use ovn_kubernetes_mcp.Prelude.{
  Bool, true, false, not, List, [], ◌∷◌, if◌then◌else◌, is_empty, keep, errorf, wrap, Result, ok,
}
use ovn_kubernetes_mcp.Text.{Text}
use ovn_kubernetes_mcp.Exec.{M, ◌>>=◌, ret, done, fail}

pub record PatternParams : Type 0 where
  pub pattern : Text

abbrev pub Regexp : Type 0
Regexp = Text → Result (Text → Bool)

unfoldable pub execute_with_match : Regexp → PatternParams → M (List Text) → Bool → M (List Text)
execute_with_match compile p f false =
    if not (is_empty p.pattern)
    then fail
        (errorf "pattern matching is not supported in this mode (got pattern %q)" (p.pattern ∷ []))
    else f
execute_with_match compile p f true =
    let matched : M (List Text) = do
      search_pattern ←
          ret (wrap "invalid search pattern %q: %w" (p.pattern ∷ []) (compile p.pattern))
      lines ← f
      done (keep search_pattern lines)
    in if is_empty p.pattern then f else matched

-- `ExecuteWithMatch` with matching allowed, as the callers use it whose function is no handler: the
-- test of the lines, which is made before the function runs. Without a pattern every line passes.
unfoldable pub pattern_test : Regexp → PatternParams → Result (Text → Bool)
pattern_test compile p =
    if is_empty p.pattern
    then ok (λ line. true)
    else wrap "invalid search pattern %q: %w" (p.pattern ∷ []) (compile p.pattern)

-- ===== src/Kernel/Util.antt =====
-- pkg/kernel/mcp/util.go, and `executeCommand` of pkg/kernel/mcp/mcp.go.
use ovn_kubernetes_mcp.Prelude.{
  ℕ, Bool, false, not, ◌&&◌, ◌||◌, List, [], ◌∷◌, Option, none, some, if◌then◌else◌, is_empty, keep,
  errorf, reject_if,
}
use ovn_kubernetes_mcp.Text.{
  Text, codes, trim_space, split, join, contains, after, after_digits, text_eq,
}
use ovn_kubernetes_mcp.Exec.{
  Context, Call, debug_node, ret, M, ◌>>=◌, ◌>>◌, done, issue, check_reply,
}
use ovn_kubernetes_mcp.Utils.CommandBuilder.{new_command, build}
use ovn_kubernetes_mcp.Utils.Lines.{newline, strip_empty_lines}
use ovn_kubernetes_mcp.Utils.HeadTail.{HeadTailParams, apply}
use ovn_kubernetes_mcp.Kernel.Params.{Config}

abbrev pub default_max_output_lines : ℕ
default_max_output_lines = 100

-- A line that holds none of the three spellings of "warning".
abbrev pub has_no_warning : Text → Bool
has_no_warning line =
    not (contains line (codes "Warning"))
    && not (contains line (codes "warning"))
    && not (contains line (codes "WARNING"))

unfoldable pub filter_warnings : Text → Text
filter_warnings [] = []
filter_warnings (c ∷ s) = join (keep has_no_warning (split (c ∷ s) newline)) newline

infixl 5 ◌then_after◌
abbrev pub ◌then_after◌ : Option Text → (Text → Option Text) → Option Text
none then_after f = none
some s then_after f = f s

-- `\.?$` at the end of a line.
abbrev pub ends_with_dot : Option Text → Bool
ends_with_dot none = false
ends_with_dot (some s) = is_empty s || text_eq s (codes ".")

-- `^conntrack v\d+\.\d+\.\d+ \(conntrack-tools\): \d+ flow entries have been shown\.?$`. What follows a
-- run of digits is no digit, so a match takes each run whole.
unfoldable pub conntrack_summary_pattern : Text → Bool
conntrack_summary_pattern line = ends_with_dot (
    after (codes "conntrack v") line
    then_after after_digits
    then_after after (codes ".")
    then_after after_digits
    then_after after (codes ".")
    then_after after_digits
    then_after after (codes " (conntrack-tools): ")
    then_after after_digits
    then_after after (codes " flow entries have been shown"))

-- The summary and the rest.
unfoldable pub split_conntrack_summary : Text → Text × Text
split_conntrack_summary [] = ([], [])
split_conntrack_summary (c ∷ s) =
    let lines = split (c ∷ s) newline in
    (
      join (keep conntrack_summary_pattern lines) newline,
      join (keep (λ l. not (conntrack_summary_pattern l)) lines) newline,
    )

-- A call of `s.runDebugNodeCommand(ctx, namespace, node, s.cfg.Image, command, "", "", 0)`.
abbrev pub on_node : Config → Context → Text → Text → List Text → Call
on_node cfg ctx namespace node command = debug_node (record {
  ctx = ctx;
  namespace = namespace;
  node = node;
  image = cfg.image;
  command = command;
  host_path = [];
  mount_path = [];
  timeout = 0;
})

unfoldable pub utility_exists : Config → Context → Text → Text → Text → M (Unit {0})
utility_exists cfg ctx namespace node utility = do
  reply ← issue (on_node cfg ctx namespace node (build (new_command (utility ∷ codes "-V" ∷ []))))
  ret (check_reply "error while checking availability of the utility %s: %w" (utility ∷ []) reply)
  let stderr = trim_space (filter_warnings reply.stderr)
  ret (
      reject_if (not (is_empty stderr))
        (errorf "utility %s is unavailable in configured image: %s" (utility ∷ stderr ∷ [])))

-- The standard output and the standard error, without the lines that warn.
unfoldable pub execute_command : Config → Context → Text → Text → List Text → M (Text × Text)
execute_command cfg ctx namespace node command = do
  reply ← issue (on_node cfg ctx namespace node command)
  ret (check_reply "error while establishing tty connection to the node: %w" [] reply)
  done (
    filter_warnings reply.stdout,
    (if not (is_empty reply.stderr) then filter_warnings reply.stderr else reply.stderr),
  )

-- The end of each handler: strip the empty lines, apply head and tail, join.
unfoldable pub render : HeadTailParams → Text → Text
render params stdout =
    join (apply params (strip_empty_lines (split stdout newline)) default_max_output_lines) newline

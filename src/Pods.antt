-- ===== src/Pods.antt =====
-- The step that every handler of pkg/ovs/mcp/mcp.go and pkg/ovn/mcp/mcp.go repeats: a command in a
-- pod, its error wrapped, its standard error refused, its standard output cut into lines that are not
-- blank.
pub mod Laws
pub mod Runs
use ovn_kubernetes_mcp.Prelude.{List, [], ◌∷◌, ◌++◌, not, is_empty, errorf, reject_if, String}
use ovn_kubernetes_mcp.Text.{Text, split}
use ovn_kubernetes_mcp.Exec.{Context, M, ◌>>=◌, ◌>>◌, ret, done, issue, pod_exec, check_reply}
use ovn_kubernetes_mcp.Utils.Lines.{newline, strip_empty_lines}

-- `wrapped` and `refused` are the formats of the two errors: the same words, ended by `%w` and by `%s`.
unfoldable pub pod_lines :
    Context → Text → Text → List Text → String → String → List Text → M (List Text)
pod_lines ctx namespace name command wrapped refused args = do
  reply ← issue (
      pod_exec (record {
        ctx = ctx;
        namespace = namespace;
        name = name;
        container = [];
        command = command;
      }))
  ret (check_reply wrapped args reply)
  ret (reject_if (not (is_empty reply.stderr)) (errorf refused (args ++ (reply.stderr ∷ []))))
  done (strip_empty_lines (split reply.stdout newline))

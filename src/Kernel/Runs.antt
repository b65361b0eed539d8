-- ===== src/Kernel/Runs.antt =====
-- What the handlers of pkg/kernel/mcp return from a cluster that answers.
use ovn_kubernetes_mcp.Kernel.ReportOf.{render-IsReportOf, IsReportOf}
use ovn_kubernetes_mcp.Kernel.Nft.Allowed.{
  validate_nft_address_family-elem, validate_nft_command-elem, nft_args-AsksFor, AsksFor,
}
use ovn_kubernetes_mcp.Utils.Timeout.{with_timeout}
use ovn_kubernetes_mcp.Utils.Validate.{default, validate_safe_string}
use ovn_kubernetes_mcp.Kernel.Nft.{
  nft_args, validate_nft_address_family, validate_nft_command, get_nft,
}
use ovn_kubernetes_mcp.Kernel.Conntrack.{
  validate_conntrack_command, conntrack_summary, get_conntrack_from_file, get_conntrack,
}
use ovn_kubernetes_mcp.Prelude.{
  refl, wrap, some, none, Error, err, wrapf, ap, ◌∙◌, false, true, ℕ, arith, [], ◌∷◌, ◌≡◌, ok, List,
}
use ovn_kubernetes_mcp.Text.{Text, codes, trim_space}
use ovn_kubernetes_mcp.Exec.{ret, Context, Call, Reply, run, ◌>>=◌}
use ovn_kubernetes_mcp.Exec.Runs.{run-attempt, run-done, run-wrap_all, run->>=, IsHealthy}
use ovn_kubernetes_mcp.Kernel.Params.{ListConntrackParams, ListNftParams, Config}
use ovn_kubernetes_mcp.Kernel.Util.{
  render, on_node, utility_exists, execute_command, filter_warnings,
}

utility_exists-run :
    (answer : Call → Reply) (cfg : Config) (ctx : Context) (namespace node utility : Text)
    → IsHealthy answer
    → run answer (utility_exists cfg ctx namespace node utility) ≡ ok tt
unfolding utility_exists run ◌>>=◌ filter_warnings trim_space
utility_exists-run answer cfg ctx namespace node utility h =
    let (no_error, no_stderr) = h (on_node cfg ctx namespace node (utility ∷ codes "-V" ∷ [])) in
    ground arith

utility_missing-run :
    (answer : Call → Reply) (cfg : Config) (ctx : Context) (namespace node utility : Text)
    (e : Error)
    → (answer (on_node cfg ctx namespace node (utility ∷ codes "-V" ∷ []))).error ≡ some e
    → run answer (utility_exists cfg ctx namespace node utility)
      ≡ err (wrapf "error while checking availability of the utility %s: %w" (utility ∷ []) e)
unfolding utility_exists run ◌>>=◌
utility_missing-run answer cfg ctx namespace node utility e h = ground arith

execute_command-run :
    (answer : Call → Reply) (cfg : Config) (ctx : Context) (namespace node : Text)
    (command : List Text)
    → (answer (on_node cfg ctx namespace node command)).error ≡ none
    → (answer (on_node cfg ctx namespace node command)).stderr ≡ []
    → run answer (execute_command cfg ctx namespace node command)
      ≡ ok (filter_warnings (answer (on_node cfg ctx namespace node command)).stdout, [])
unfolding execute_command run ◌>>=◌
execute_command-run answer cfg ctx namespace node command no_error no_stderr = ground arith

get_nft-run :
    (cfg : Config) (now : ℕ) (parent : Context) (inp : ListNftParams) (answer : Call → Reply)
    → validate_nft_command inp.command ≡ ok tt
    → validate_safe_string inp.address_families (codes "address families") true default ≡ ok tt
    → validate_nft_address_family inp.address_families ≡ ok tt
    → IsHealthy answer
    → run answer (get_nft cfg now parent inp)
      ≡ ok (
          render inp.head_tail (
            filter_warnings
              (answer (
                on_node cfg
                  (with_timeout now inp.timeout parent)
                  inp.namespace
                  inp.node
                  (nft_args (trim_space inp.command) (trim_space inp.address_families)))).stdout))
unfolding get_nft run
get_nft-run cfg now parent inp answer command_ok safe_ok family_ok healthy =
    let out : Text × Text = (
      filter_warnings
          (answer (
            on_node cfg (with_timeout now inp.timeout parent) inp.namespace inp.node
              (nft_args (trim_space inp.command) (trim_space inp.address_families)))).stdout,
      [],
    ) in
    run->>= answer _ _ (
      run-wrap_all answer _ _ _
      ∙ rw
          (utility_exists-run answer cfg (with_timeout now inp.timeout parent) inp.namespace
            inp.node (codes "nft") healthy)
          refl)
    ∙ run->>= answer (ret (wrap _ [] (validate_nft_command inp.command))) _ (rw command_ok refl)
    ∙ run->>= answer (ret (wrap _ [] (validate_safe_string inp.address_families _ true default))) _
        (rw safe_ok refl)
    ∙ run->>= answer (ret (wrap _ [] (validate_nft_address_family inp.address_families))) _
        (rw family_ok refl)
    ∙ run->>= answer _ _ {a = out} (
        run-wrap_all answer _ _ _
        ∙ rw
            (execute_command-run answer cfg (with_timeout now inp.timeout parent) inp.namespace
              inp.node (nft_args (trim_space inp.command) (trim_space inp.address_families))
              (healthy _).0 (healthy _).1)
            refl)
    ∙ run-done answer _

-- The command that the request asks for, and the report of its output.
pub record IsNftReport (cfg : Config) (ctx : Context) (inp : ListNftParams) (answer : Call → Reply)
    (out : Text) : Type 0 where
  pub command : List Text
  pub asked : AsksFor (trim_space inp.command) (trim_space inp.address_families) command
  pub report :
      IsReportOf inp.head_tail (answer (on_node cfg ctx inp.namespace inp.node command)).stdout out

-- A request to `GetNFT` that is accepted succeeds when the cluster answers without errors. The command
-- that gives the output is `nft list`, the object of the request's command and the request's address
-- family, if there is one, on the node that is asked for and under the request's timeout. The result is
-- what head and tail leave, at most 100 lines without them, of the lines of this output that are not
-- blank and do not warn, all of them and in order.
pub get_nft-completes :
    (cfg : Config) (now : ℕ) (parent : Context) (inp : ListNftParams) (answer : Call → Reply)
    → validate_nft_command inp.command ≡ ok tt
    → validate_safe_string inp.address_families (codes "address families") true default ≡ ok tt
    → validate_nft_address_family inp.address_families ≡ ok tt
    → IsHealthy answer
    → (out : Text) × (run answer (get_nft cfg now parent inp) ≡ ok out)
      × IsNftReport cfg (with_timeout now inp.timeout parent) inp answer out
get_nft-completes cfg now parent inp answer command_ok safe_ok family_ok healthy = (
  _,
  get_nft-run cfg now parent inp answer command_ok safe_ok family_ok healthy,
  record {
    command = nft_args (trim_space inp.command) (trim_space inp.address_families);
    asked =
        nft_args-AsksFor (trim_space inp.command) (trim_space inp.address_families)
          (validate_nft_command-elem inp.command command_ok)
          (validate_nft_address_family-elem inp.address_families family_ok);
    report = render-IsReportOf inp.head_tail _;
  },
)

conntrack_summary-nil : conntrack_summary [] ≡ ok []
unfolding conntrack_summary
conntrack_summary-nil = refl

-- The two calls of `GetConntrack` without the conntrack utility.
abbrev pub version_call : Config → ℕ → Context → ListConntrackParams → Call
version_call cfg now parent inp =
    on_node cfg (with_timeout now inp.timeout parent) inp.namespace inp.node
      (codes "conntrack" ∷ codes "-V" ∷ [])

abbrev pub file_call : Config → ℕ → Context → ListConntrackParams → Call
file_call cfg now parent inp =
    on_node cfg (with_timeout now inp.timeout parent) inp.namespace inp.node
      (codes "cat" ∷ codes "/proc/net/nf_conntrack" ∷ [])

-- When the image has no conntrack utility, so that asking for its version fails, an accepted request to
-- `GetConntrack` returns the lines of /proc/net/nf_conntrack, as a report without the lines that warn,
-- provided that the file is read without errors.
pub get_conntrack-reads_file :
    (cfg : Config) (now : ℕ) (parent : Context) (inp : ListConntrackParams) (answer : Call → Reply)
    (e : Error)
    → (answer (version_call cfg now parent inp)).error ≡ some e
    → (answer (file_call cfg now parent inp)).error ≡ none
    → (answer (file_call cfg now parent inp)).stderr ≡ []
    → validate_conntrack_command inp.command false ≡ ok tt
    → validate_safe_string inp.filter_parameters (codes "filter parameters") true default ≡ ok tt
    → run answer (get_conntrack cfg now parent inp)
      ≡ ok (render inp.head_tail (filter_warnings (answer (file_call cfg now parent inp)).stdout))
unfolding get_conntrack run get_conntrack_from_file
get_conntrack-reads_file cfg now parent inp answer e missing no_error no_stderr command_ok safe_ok =
    let out : Text × Text = (filter_warnings (answer (file_call cfg now parent inp)).stdout, []) in
    run->>= answer _ _ (
      run-attempt answer _
      ∙ ap ok (
          utility_missing-run answer cfg (with_timeout now inp.timeout parent) inp.namespace
            inp.node (codes "conntrack") e missing))
    ∙ run->>= answer (ret (wrap _ [] (validate_conntrack_command inp.command false))) _
        (rw command_ok refl)
    ∙ run->>= answer (ret (wrap _ [] (validate_safe_string inp.filter_parameters _ true default))) _
        (rw safe_ok refl)
    ∙ run->>= answer _ _ {a = out} (
        run-wrap_all answer _ _ _
        ∙ rw
            (execute_command-run answer cfg (with_timeout now inp.timeout parent) inp.namespace
              inp.node (codes "cat" ∷ codes "/proc/net/nf_conntrack" ∷ []) no_error no_stderr)
            refl)
    ∙ run->>= answer (ret (conntrack_summary [])) _ conntrack_summary-nil

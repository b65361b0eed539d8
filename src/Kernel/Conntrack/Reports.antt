-- ===== src/Kernel/Conntrack/Reports.antt =====
use ovn_kubernetes_mcp.Kernel.Found.{utility_exists-IsFound, IsFound}
use ovn_kubernetes_mcp.Utils.HeadTail.{HeadTailParams}
use mathlib.Core.Path.{subst}
use ovn_kubernetes_mcp.Exec.Runs.{run-wrap_all, run-attempt, run->>=-eq-ok}
use ovn_kubernetes_mcp.Utils.Timeout.{with_timeout}
use ovn_kubernetes_mcp.Kernel.Conntrack.Summary.{conntrack_summary-IsSummaryOf, IsSummaryOf}
use ovn_kubernetes_mcp.Kernel.ReportOf.{render-IsReportOf, IsReportOf}
use ovn_kubernetes_mcp.Text.Laws.{elem_iff}
use ovn_kubernetes_mcp.Kernel.Conntrack.Allowed.{counter_actions, list_actions}
use ovn_kubernetes_mcp.Kernel.Util.{
  render, filter_warnings, utility_exists, on_node, execute_command,
}
use ovn_kubernetes_mcp.Kernel.Params.{ListConntrackParams}
use ovn_kubernetes_mcp.Exec.{
  done, ◌>>◌, check_error, ret, wrap_all, ◌>>=◌, ◌>>=◌, run, Context, Reply, Call,
}
use ovn_kubernetes_mcp.Text.{fields, codes, trim_space, Text}
use ovn_kubernetes_mcp.Kernel.Conntrack.{
  conntrack_summary, get_conntrack, valid_commands, get_conntrack_using_cli,
  get_conntrack_from_file, Config, with_summary, conntrack_args, validate_conntrack_command,
}
use ovn_kubernetes_mcp.Prelude.{
  some, Error, Option, wrap-eq-ok, String, ◌∙◌, sym, ap, ℕ, is_empty, none, refl, arith, false,
  ◌++◌, true, inr, Any, is_ok, ◌≢◌, not, ◌⊎◌, ◌∷◌, inl, [], ok, if◌then◌else◌, ◌≡◌, List, Bool,
}

-- What `GetConntrack` of pkg/kernel/mcp/conntrack.go returns.

-- The words of the command that a request is answered with. Without the utility the table of the kernel
-- is read, which only stands for a list of the entries; with it, the entries are listed, which is also
-- done for a request without a command, or counters are shown.
pub data IsChosen (command filter : Text) : Bool → List Text → Type 0 where
  from_file :
      (command ≡ []) ⊎ Any (λ t. command ≡ t) list_actions
      → IsChosen command filter false (codes "cat" ∷ codes "/proc/net/nf_conntrack" ∷ [])
  entries :
      Any (λ t. command ≡ t) list_actions
      → IsChosen command filter true (codes "conntrack" ∷ command ∷ fields filter)
  entries_by_default :
      command ≡ [] → IsChosen command filter true (codes "conntrack" ∷ codes "-L" ∷ fields filter)
  counters :
      Any (λ t. command ≡ t) counter_actions
      → IsChosen command filter true (codes "conntrack" ∷ command ∷ [])

-- The summary stands behind the report, under a heading, unless it is empty.
abbrev pub IsWritten : Text → Text → Text → Type 0
IsWritten report summary out =
    ((summary ≡ []) × (out ≡ report))
    ⊎ ((summary ≢ []) × (out ≡ report ++ (codes "\n -- conntrack summary --\n" ++ summary)))

pub record IsConntrackReport (cfg : Config) (ctx : Context) (inp : ListConntrackParams)
    (answer : Call → Reply) (out : Text) : Type 0 where
  pub found : Bool
  pub command : List Text
  pub report : Text
  pub summary : Text
  pub is_found :
      IsFound
        (answer (on_node cfg ctx inp.namespace inp.node (codes "conntrack" ∷ codes "-V" ∷ [])))
        found
  pub chosen : IsChosen (trim_space inp.command) inp.filter_parameters found command
  pub answered : (answer (on_node cfg ctx inp.namespace inp.node command)).error ≡ none
  pub is_report :
      IsReportOf inp.head_tail
        (answer (on_node cfg ctx inp.namespace inp.node command)).stdout
        report
  pub is_summary :
      IsSummaryOf (answer (on_node cfg ctx inp.namespace inp.node command)).stderr summary
  pub written : IsWritten report summary out

abbrev chosen_words : Bool → Text → Text → List Text
chosen_words found command filter =
    if not found
    then codes "cat" ∷ codes "/proc/net/nf_conntrack" ∷ []
    else conntrack_args command filter

with_summary-IsWritten :
    (report summary : Text) → IsWritten report summary (with_summary report summary)
with_summary-IsWritten report [] = inl (refl, refl)
with_summary-IsWritten report (c ∷ s) = inr ((λ e. cc), refl)

conntrack_args-IsChosen :
    (command filter : Text)
    → (command ≡ []) ⊎ Any (λ t. command ≡ t) valid_commands
    → IsChosen command filter true (conntrack_args command filter)
unfolding conntrack_args
conntrack_args-IsChosen command filter (inl e) = rw e (entries_by_default refl)
conntrack_args-IsChosen command filter (inr (inl e)) = rw e (entries (inl refl))
conntrack_args-IsChosen command filter (inr (inr (inl e))) = rw e (counters (inl refl))
conntrack_args-IsChosen command filter (inr (inr (inr (inl e)))) =
    rw e (counters (inr (inr (inl refl))))
conntrack_args-IsChosen command filter (inr (inr (inr (inr (inl e))))) =
    rw e (entries (inr (inl refl)))
conntrack_args-IsChosen command filter (inr (inr (inr (inr (inr (inl e)))))) =
    rw e (counters (inr (inl refl)))
conntrack_args-IsChosen command filter (inr (inr (inr (inr (inr (inr (inl e))))))) =
    rw e (counters (inr (inr (inr (inl refl)))))
conntrack_args-IsChosen command filter (inr (inr (inr (inr (inr (inr (inr h))))))) = absurd h

validated-IsChosen :
    (command filter : Text) (found : Bool)
    → {u : Unit {0}} → validate_conntrack_command command found ≡ ok u
    → IsChosen (trim_space command) filter found (chosen_words found (trim_space command) filter)
unfolding validate_conntrack_command
validated-IsChosen [] filter true h =
    conntrack_args-IsChosen _ filter (inl (unfold trim_space in refl))
validated-IsChosen [] filter false h = from_file (inl (unfold trim_space in refl))
validated-IsChosen (c ∷ s) filter true h =
    conntrack_args-IsChosen _ filter
      (inr ((elem_iff (trim_space (c ∷ s)) valid_commands).0 (ground arith)))
validated-IsChosen (c ∷ s) filter false h =
    from_file (inr ((elem_iff (trim_space (c ∷ s)) list_actions).0 (ground arith)))

filtered_stderr :
    (stderr : Text)
    → (if not (is_empty stderr) then filter_warnings stderr else stderr) ≡ filter_warnings stderr
unfolding filter_warnings
filtered_stderr [] = refl
filtered_stderr (c ∷ s) = refl

filtered-IsReportOf :
    (params : HeadTailParams) (stdout filtered : Text)
    → filter_warnings stdout ≡ filtered
    → IsReportOf params stdout (render params filtered)
filtered-IsReportOf params stdout filtered same =
    subst (λ (t : Text). IsReportOf params stdout (render params t)) same
      (render-IsReportOf params stdout)

ok-injective : {A : Type 0} {a b : A} → ok a ≡ ok b → a ≡ b
ok-injective e = cc

checked_reply :
    (answer : Call → Reply) (format : String) (error : Option Error) (sent out : Text × Text)
    → run answer (ret (check_error format [] error) >> done sent) ≡ ok out
    → (error ≡ none) × (sent ≡ out)
unfolding run ◌>>=◌
checked_reply answer format none sent out e = (refl, ok-injective e)
checked_reply answer format (some x) sent out e = absurd cc

module _ (answer : Call → Reply) (cfg : Config) (ctx : Context) (namespace node : Text) where
  execute_command-eq-ok :
      (command : List Text) (out : Text × Text)
      → run answer (execute_command cfg ctx namespace node command) ≡ ok out
      → ((answer (on_node cfg ctx namespace node command)).error ≡ none)
        × (filter_warnings (answer (on_node cfg ctx namespace node command)).stdout ≡ out.0)
        × (filter_warnings (answer (on_node cfg ctx namespace node command)).stderr ≡ out.1)
  unfolding execute_command run ◌>>=◌
  execute_command-eq-ok command out e =
      let reply = answer (on_node cfg ctx namespace node command) in
      let (no_error, same) = checked_reply answer _ reply.error _ out e in
      (
        no_error,
        ap (λ (o : Text × Text). o.0) same,
        sym (filtered_stderr reply.stderr) ∙ ap (λ (o : Text × Text). o.1) same,
      )

  fetch_lem :
      (found : Bool) (command filter : Text)
      → (if not found
          then get_conntrack_from_file cfg ctx namespace node
          else get_conntrack_using_cli cfg ctx namespace node command filter)
        ≡ execute_command cfg ctx namespace node (chosen_words found command filter)
  unfolding get_conntrack_from_file get_conntrack_using_cli
  fetch_lem true command filter = refl
  fetch_lem false command filter = refl

  fetch-eq-ok :
      (found : Bool) (command filter : Text) (out : Text × Text)
      → run answer (
          wrap_all "error while getting list of conntrack entries: %w" [] (
            if not found
            then get_conntrack_from_file cfg ctx namespace node
            else get_conntrack_using_cli cfg ctx namespace node command filter))
        ≡ ok out
      → ((answer (on_node cfg ctx namespace node (chosen_words found command filter))).error ≡ none)
        × (filter_warnings
              (answer (on_node cfg ctx namespace node (chosen_words found command filter))).stdout
            ≡ out.0)
        × (filter_warnings
              (answer (on_node cfg ctx namespace node (chosen_words found command filter))).stderr
            ≡ out.1)
  fetch-eq-ok found command filter out e =
      execute_command-eq-ok (chosen_words found command filter) out (
        ap (run answer) (sym (fetch_lem found command filter))
        ∙ wrap-eq-ok _ _ _ (sym (run-wrap_all answer _ _ _) ∙ e))

-- Whenever `GetConntrack` succeeds, whatever the cluster answers, it has run the command that the request
-- asks for on the node, under the request's timeout: a list of entries or counters of the conntrack
-- utility, or, if asking the utility for its version fails or says more than warnings on standard
-- error, the table of the kernel for a request that lists entries. This command did not fail. The
-- result is what head and tail leave, at most 100 lines without them, of the lines of its standard
-- output that are not blank and do not warn. What its standard error says besides warnings and blank
-- lines is summary lines of the conntrack utility, and they stand behind the result under a heading,
-- unless there are none.
pub get_conntrack-IsConntrackReport :
    (cfg : Config) (now : ℕ) (parent : Context) (inp : ListConntrackParams) (answer : Call → Reply)
    (out : Text)
    → run answer (get_conntrack cfg now parent inp) ≡ ok out
    → IsConntrackReport cfg (with_timeout now inp.timeout parent) inp answer out
unfolding get_conntrack run
get_conntrack-IsConntrackReport cfg now parent inp answer out e =
    let ctx = with_timeout now inp.timeout parent in
    let check = utility_exists cfg ctx inp.namespace inp.node (codes "conntrack") in
    let (tried, checked, e) = run->>=-eq-ok answer _ _ _ e in
    let (u, command_ok, e) = run->>=-eq-ok answer _ _ _ e in
    let (v, filter_ok, e) = run->>=-eq-ok answer _ _ _ e in
    let (output, fetched, e) = run->>=-eq-ok answer _ _ _ e in
    let (summary, summed, e) = run->>=-eq-ok answer _ _ _ e in
    let (answered, stdout, stderr) =
      fetch-eq-ok answer cfg ctx inp.namespace inp.node (is_ok tried) (trim_space inp.command)
        inp.filter_parameters output fetched in
    record {
      found = is_ok tried;
      command = chosen_words (is_ok tried) (trim_space inp.command) inp.filter_parameters;
      report = render inp.head_tail output.0;
      summary = summary;
      is_found =
          subst (IsFound _) (ap is_ok (ok-injective (sym (run-attempt answer check) ∙ checked)))
            (utility_exists-IsFound answer cfg ctx inp.namespace inp.node (codes "conntrack"));
      chosen =
          validated-IsChosen inp.command inp.filter_parameters (is_ok tried)
            (wrap-eq-ok _ _ _ command_ok);
      answered = answered;
      is_report = filtered-IsReportOf inp.head_tail _ output.0 stdout;
      is_summary = conntrack_summary-IsSummaryOf _ summary (ap conntrack_summary stderr ∙ summed);
      written =
          subst (λ (t : Text). IsWritten (render inp.head_tail output.0) summary t) (ok-injective e)
            (with_summary-IsWritten (render inp.head_tail output.0) summary);
    }

-- ===== src/Kernel/Conntrack/Allowed.antt =====
-- The commands that `GetConntrack` of pkg/kernel/mcp/conntrack.go runs.
use ovn_kubernetes_mcp.Utils.Timeout.{with_timeout}
use ovn_kubernetes_mcp.Text.Laws.{elem_iff}
use ovn_kubernetes_mcp.Kernel.Calls.{Ensures-execute_command, Ensures-utility_exists, IsNodeCall}
use ovn_kubernetes_mcp.Exec.Laws.{
  Ensures-wrap_all, Ensures-lift, Ensures-attempt, Ensures-bind, Anything, Ensures,
}
use ovn_kubernetes_mcp.Exec.{M, Call, Context}
use ovn_kubernetes_mcp.Text.Fields.{All-fields}
use ovn_kubernetes_mcp.Kernel.Params.{ListConntrackParams, Config}
use ovn_kubernetes_mcp.Utils.Validate.{default}
use ovn_kubernetes_mcp.Utils.Validate.Laws.{validate_safe_string-All, Admits}
use ovn_kubernetes_mcp.Kernel.Conntrack.{
  conntrack_system_file, get_conntrack_from_file, get_conntrack_using_cli, conntrack_args,
  get_conntrack,
}
use ovn_kubernetes_mcp.Prelude.{
  false, not, is_ok, if◌then◌else◌, wrap-eq-ok, Bool, true, refl, inr, inl, Bool-cases, ℕ, [], All,
  ◌∷◌, ◌≡◌, List, Any,
}
use ovn_kubernetes_mcp.Text.{trim_space, elem, Text, codes, fields}

abbrev pub list_actions : List Text
list_actions = codes "-L" ∷ codes "--dump" ∷ []

abbrev pub counter_actions : List Text
counter_actions = codes "-S" ∷ codes "--stats" ∷ codes "-C" ∷ codes "--count" ∷ []

-- `conntrack -V`; reading the table of the kernel; a list action with a filter; or one of the counters.
pub data ConntrackAllowed (args : List Text) : Type 0 where
  version : args ≡ codes "conntrack" ∷ codes "-V" ∷ [] → ConntrackAllowed args
  read_file : args ≡ codes "cat" ∷ conntrack_system_file ∷ [] → ConntrackAllowed args
  listing :
      (action : Text) (filter : List Text)
      → Any (λ t. action ≡ t) list_actions
      → All (All (Admits default)) filter
      → args ≡ codes "conntrack" ∷ action ∷ filter
      → ConntrackAllowed args
  counters :
      (action : Text)
      → Any (λ t. action ≡ t) counter_actions
      → args ≡ codes "conntrack" ∷ action ∷ []
      → ConntrackAllowed args

stats-counter :
    (command : Text)
    → Any (λ t. command ≡ t) (codes "-S" ∷ codes "--stats" ∷ [])
    → Any (λ t. command ≡ t) counter_actions
stats-counter command (inl e) = inl e
stats-counter command (inr (inl e)) = inr (inl e)
stats-counter command (inr (inr h)) = absurd h

count-counter :
    (command : Text)
    → Any (λ t. command ≡ t) (codes "-C" ∷ codes "--count" ∷ [])
    → Any (λ t. command ≡ t) counter_actions
count-counter command h = inr (inr h)

conntrack_args-ConntrackAllowed :
    (command filter : Text)
    → All (Admits default) filter
    → ConntrackAllowed (conntrack_args command filter)
unfolding conntrack_args
conntrack_args-ConntrackAllowed command filter h =
    let words = All-fields (Admits default) filter h in
    elim (Bool-cases (elem command list_actions)) [
      | inl e ↦ listing command (fields filter) ((elem_iff command list_actions).0 e) words (rw e)
      | inr e ↦ elim (Bool-cases (elem command (codes "-S" ∷ codes "--stats" ∷ []))) [
        | inl s ↦
            counters command
              (stats-counter command ((elem_iff command (codes "-S" ∷ codes "--stats" ∷ [])).0 s))
              (rw (e, s))
        | inr s ↦ elim (Bool-cases (elem command (codes "-C" ∷ codes "--count" ∷ []))) [
          | inl k ↦
              counters command
                (count-counter command ((elem_iff command (codes "-C" ∷ codes "--count" ∷ [])).0 k))
                (rw (e, s, k))
          | inr k ↦ listing (codes "-L") (fields filter) (inl refl) words (rw (e, s, k))
        ]
      ]
    ]

Ensures-either :
    {A : Type 0} (P : Call → Type 0) (Q : A → Type 0) (b : Bool) (m n : M A)
    → Ensures P Q m
    → Ensures P Q n
    → Ensures P Q (if not b then m else n)
Ensures-either P Q true m n hm hn = hn
Ensures-either P Q false m n hm hn = hm

-- Whatever the request and whatever the cluster answers, every command that `GetConntrack` runs is
-- `conntrack -V`, `cat /proc/net/nf_conntrack`, a list of the table with a filter without shell
-- metacharacters, or one of the four counters without a filter. It runs on the node, in the namespace
-- and with the image that are asked for, under the request's timeout.
pub get_conntrack-ConntrackAllowed :
    (cfg : Config) (now : ℕ) (parent : Context) (inp : ListConntrackParams)
    → Ensures
        (IsNodeCall cfg
          (with_timeout now inp.timeout parent)
          inp.namespace
          inp.node
          ConntrackAllowed)
        Anything
        (get_conntrack cfg now parent inp)
unfolding get_conntrack get_conntrack_using_cli get_conntrack_from_file
get_conntrack-ConntrackAllowed cfg now parent inp =
    Ensures-bind _ Anything _ _ _
      (Ensures-attempt _ Anything _ (
        Ensures-utility_exists cfg _ inp.namespace inp.node ConntrackAllowed (codes "conntrack")
          (version refl)))
      λ found _. Ensures-lift _ Anything _ _ λ _ _. Ensures-lift _ Anything _ _ λ _ filter_ok.
        let filter =
          validate_safe_string-All inp.filter_parameters _ true default
            (wrap-eq-ok _ _ _ filter_ok) in
        Ensures-bind _ Anything _ Anything _
          (Ensures-wrap_all _ Anything _ _ _ (
            Ensures-either _ _ (is_ok found) _ _
              (Ensures-execute_command cfg _ inp.namespace inp.node ConntrackAllowed _
                (read_file refl))
              (Ensures-execute_command cfg _ inp.namespace inp.node ConntrackAllowed _ (
                conntrack_args-ConntrackAllowed (trim_space inp.command) inp.filter_parameters
                  filter))))
          λ _ _. Ensures-lift _ Anything _ _ λ _ _. tt

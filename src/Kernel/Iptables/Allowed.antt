-- ===== src/Kernel/Iptables/Allowed.antt =====
-- The commands that `GetIptables` of pkg/kernel/mcp/iptables.go runs.
use ovn_kubernetes_mcp.Utils.Timeout.{with_timeout}
use ovn_kubernetes_mcp.Kernel.Calls.{Ensures-execute_command, Ensures-utility_exists, IsNodeCall}
use ovn_kubernetes_mcp.Exec.Laws.{Ensures-lift, Ensures-wrap_all, Ensures-bind, Anything, Ensures}
use ovn_kubernetes_mcp.Text.Fields.{All-fields}
use ovn_kubernetes_mcp.Text.Laws.{elem_iff}
use ovn_kubernetes_mcp.Utils.Validate.{default}
use ovn_kubernetes_mcp.Exec.{Context}
use ovn_kubernetes_mcp.Utils.Validate.Laws.{validate_safe_string-All, Admits}
use ovn_kubernetes_mcp.Kernel.Params.{ListIptablesParams, Config}
use ovn_kubernetes_mcp.Kernel.Iptables.{
  asks_for_ipv6, valid_commands, valid_tables, validate_table_name, validate_iptables_command,
  iptables_command, iptables_args, get_iptables,
}
use ovn_kubernetes_mcp.Prelude.{
  true, wrap-eq-ok, ◌&&◌, refl, inr, inl, is_empty, not, ◌⊎◌, ℕ, arith, any, All, if◌then◌else◌,
  ◌∷◌, Bool-cases, [], ok, ◌≡◌, List, Any,
}
use ovn_kubernetes_mcp.Text.{text_eq, split, trim_space, Text, codes, fields}

abbrev pub binaries : List Text
binaries = codes "iptables" ∷ codes "ip6tables" ∷ []

-- The words of a filter are free of shell metacharacters.
abbrev pub IsFilter : List Text → Type 0
IsFilter = All (All (Admits default))

-- `iptables -V`, or `iptables -t <table> <list action> <filter>`; `-S` and `--list-rules` take no filter.
pub data IptablesAllowed (args : List Text) : Type 0 where
  version : args ≡ codes "iptables" ∷ codes "-V" ∷ [] → IptablesAllowed args
  listing :
      (binary table action : Text) (filter : List Text)
      → Any (λ t. binary ≡ t) binaries
      → Any (λ t. table ≡ t) valid_tables
      → Any (λ t. action ≡ t) valid_commands
      → IsFilter filter
      → (filter ≡ []) ⊎ (action ≡ codes "-L") ⊎ (action ≡ codes "--list")
      → args ≡ binary ∷ codes "-t" ∷ table ∷ action ∷ filter
      → IptablesAllowed args

iptables_command-binary : (filter : Text) → Any (λ t. iptables_command filter ≡ t) binaries
unfolding iptables_command
iptables_command-binary filter = elim (Bool-cases (any asks_for_ipv6 (split filter b' '))) [
  | inl e ↦ inr (inl (rw e))
  | inr e ↦ inl (rw e)
]

validate_table_name-elem :
    (table : Text) {u : Unit {0}}
    → validate_table_name table ≡ ok u
    → (trim_space table ≡ []) ⊎ Any (λ t. trim_space table ≡ t) valid_tables
unfolding validate_table_name
validate_table_name-elem [] h = inl (unfold trim_space in refl)
validate_table_name-elem (c ∷ s) h =
    inr ((elem_iff (trim_space (c ∷ s)) valid_tables).0 (ground arith))

validate_iptables_command-elem :
    (command : Text) {u : Unit {0}}
    → validate_iptables_command command ≡ ok u
    → (trim_space command ≡ []) ⊎ Any (λ t. trim_space command ≡ t) valid_commands
unfolding validate_iptables_command
validate_iptables_command-elem [] h = inl (unfold trim_space in refl)
validate_iptables_command-elem (c ∷ s) h =
    inr ((elem_iff (trim_space (c ∷ s)) valid_commands).0 (ground arith))

-- The table and the action that stand for empty ones.
abbrev table_or : Text → Text
table_or [] = codes "filter"
table_or (c ∷ s) = c ∷ s

abbrev action_or : Text → Text
action_or [] = codes "-L"
action_or (c ∷ s) = c ∷ s

-- The words of the filter where the action takes one.
abbrev filter_for : Text → Text → List Text
filter_for command filter =
    if not (is_empty filter)
      && not (text_eq command (codes "-S"))
      && not (text_eq command (codes "--list-rules"))
    then fields filter
    else []

iptables_args_lem :
    (table command filter : Text)
    → iptables_args table command filter
      ≡ iptables_command filter
        ∷ codes "-t"
        ∷ table_or table
        ∷ action_or command
        ∷ filter_for command filter
unfolding iptables_args
iptables_args_lem [] [] filter = ground arith
iptables_args_lem [] (c ∷ s) filter = ground arith
iptables_args_lem (d ∷ t) [] filter = ground arith
iptables_args_lem (d ∷ t) (c ∷ s) filter = ground arith

table_or-listed :
    (table : Text)
    → (table ≡ []) ⊎ Any (λ t. table ≡ t) valid_tables
    → Any (λ t. table_or table ≡ t) valid_tables
table_or-listed [] h = inl refl
table_or-listed (c ∷ s) (inl e) = cc
table_or-listed (c ∷ s) (inr h) = h

action_or-listed :
    (command : Text)
    → (command ≡ []) ⊎ Any (λ t. command ≡ t) valid_commands
    → Any (λ t. action_or command ≡ t) valid_commands
action_or-listed [] h = inl refl
action_or-listed (c ∷ s) (inl e) = cc
action_or-listed (c ∷ s) (inr h) = h

filter_for-IsFilter :
    (command filter : Text) → All (Admits default) filter → IsFilter (filter_for command filter)
filter_for-IsFilter command filter h = ground (arith, All-fields (Admits default) filter h)

filter_for-nil :
    (command action filter : Text)
    → command ≡ action
    → (action ≡ codes "-S") ⊎ (action ≡ codes "--list-rules")
    → filter_for command filter ≡ []
filter_for-nil command action [] e h = refl
filter_for-nil command action (d ∷ f) e (inl h) = rw (e, h)
filter_for-nil command action (d ∷ f) e (inr h) = rw (e, h)

-- Only the two actions that list a chain take a filter.
filter_for-action :
    (command filter : Text)
    → Any (λ t. action_or command ≡ t) valid_commands
    → (filter_for command filter ≡ [])
      ⊎ (action_or command ≡ codes "-L")
      ⊎ (action_or command ≡ codes "--list")
filter_for-action [] filter h = inr (inl refl)
filter_for-action (c ∷ s) filter (inl e) = inr (inl e)
filter_for-action (c ∷ s) filter (inr (inl e)) =
    inl (filter_for-nil (c ∷ s) (codes "-S") filter e (inl refl))
filter_for-action (c ∷ s) filter (inr (inr (inl e))) = inr (inr e)
filter_for-action (c ∷ s) filter (inr (inr (inr (inl e)))) =
    inl (filter_for-nil (c ∷ s) (codes "--list-rules") filter e (inr refl))
filter_for-action (c ∷ s) filter (inr (inr (inr (inr h)))) = absurd h

iptables_args-IptablesAllowed :
    (table command filter : Text)
    → (table ≡ []) ⊎ Any (λ t. table ≡ t) valid_tables
    → (command ≡ []) ⊎ Any (λ t. command ≡ t) valid_commands
    → All (Admits default) filter
    → IptablesAllowed (iptables_args table command filter)
iptables_args-IptablesAllowed table command filter ht hc hf =
    let action = action_or-listed command hc in
    listing (iptables_command filter) (table_or table) (action_or command)
      (filter_for command filter) (iptables_command-binary filter) (table_or-listed table ht) action
      (filter_for-IsFilter command filter hf) (filter_for-action command filter action)
      (iptables_args_lem table command filter)

-- Whatever the request and whatever the cluster answers, every command that `GetIptables` runs is
-- `iptables -V`, or `iptables` or `ip6tables` with one of five tables, one of the four list actions and
-- a filter without shell metacharacters, which is empty unless the action is `-L` or `--list`. It runs
-- on the node, in the namespace and with the image that are asked for, under the request's timeout.
pub get_iptables-IptablesAllowed :
    (cfg : Config) (now : ℕ) (parent : Context) (inp : ListIptablesParams)
    → Ensures
        (IsNodeCall cfg
          (with_timeout now inp.timeout parent)
          inp.namespace
          inp.node
          IptablesAllowed)
        Anything
        (get_iptables cfg now parent inp)
unfolding get_iptables
get_iptables-IptablesAllowed cfg now parent inp =
    Ensures-bind _ Anything _ Anything _
      (Ensures-wrap_all _ Anything _ _ _ (
        Ensures-utility_exists cfg _ inp.namespace inp.node IptablesAllowed (codes "iptables")
          (version refl)))
      λ _ _. Ensures-lift _ Anything _ _ λ _ table_ok. Ensures-lift _ Anything _ _ λ _ command_ok.
        Ensures-lift _ Anything _ _ λ _ filter_ok.
          Ensures-bind _ Anything _ Anything _
            (Ensures-wrap_all _ Anything _ _ _ (
              Ensures-execute_command cfg _ inp.namespace inp.node IptablesAllowed _ (
                iptables_args-IptablesAllowed (trim_space inp.table) (trim_space inp.command)
                  inp.filter_parameters
                  (validate_table_name-elem inp.table (wrap-eq-ok _ _ _ table_ok))
                  (validate_iptables_command-elem inp.command (wrap-eq-ok _ _ _ command_ok))
                  (validate_safe_string-All inp.filter_parameters _ true default
                    (wrap-eq-ok _ _ _ filter_ok)))))
            λ _ _. Ensures-lift _ Anything _ _ λ _ _. tt

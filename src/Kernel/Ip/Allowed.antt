-- ===== src/Kernel/Ip/Allowed.antt =====
-- The commands that `GetIPCommandOutput` of pkg/kernel/mcp/ip.go runs.
use ovn_kubernetes_mcp.Kernel.Ip.Shows.{IpShows, validate_ip_command-IpShows}
use ovn_kubernetes_mcp.Utils.Timeout.{with_timeout}
use ovn_kubernetes_mcp.Kernel.Calls.{Ensures-execute_command, Ensures-utility_exists, IsNodeCall}
use ovn_kubernetes_mcp.Exec.Laws.{Ensures-lift, Ensures-wrap_all, Ensures-bind, Anything, Ensures}
use ovn_kubernetes_mcp.Exec.{Context}
use ovn_kubernetes_mcp.Text.Fields.{All-fields}
use ovn_kubernetes_mcp.Kernel.Params.{ListIpParams, Config}
use ovn_kubernetes_mcp.Utils.Validate.{default}
use ovn_kubernetes_mcp.Utils.Validate.Laws.{validate_safe_string-All, Admits}
use ovn_kubernetes_mcp.Kernel.Ip.{get_ip_command_output, ip_args}
use ovn_kubernetes_mcp.Prelude.{
  wrap-eq-ok, append-nil, ℕ, true, refl, All, ◌++◌, [], ◌∷◌, ◌≡◌, List,
}
use ovn_kubernetes_mcp.Text.{Text, codes, fields}

-- `ip -V`, or options and filter without shell metacharacters around a command that shows.
pub data IpAllowed (args : List Text) : Type 0 where
  version : args ≡ codes "ip" ∷ codes "-V" ∷ [] → IpAllowed args
  shows :
      (options words filter : List Text)
      → All (All (Admits default)) options
      → IpShows words
      → All (All (Admits default)) filter
      → args ≡ codes "ip" ∷ ((options ++ words) ++ filter)
      → IpAllowed args

fields-nil : fields [] ≡ []
unfolding fields
fields-nil = refl

ip_args_lem :
    (options command filter : Text)
    → ip_args options command filter
      ≡ codes "ip" ∷ ((fields options ++ fields command) ++ fields filter)
unfolding ip_args
ip_args_lem [] command [] = simp (fields-nil, append-nil)
ip_args_lem [] command (d ∷ t) = simp fields-nil
ip_args_lem (c ∷ s) command [] = simp (fields-nil, append-nil)
ip_args_lem (c ∷ s) command (d ∷ t) = refl

-- Whatever the request and whatever the cluster answers, every command that `GetIPCommandOutput` runs is
-- `ip -V`, or `ip` with options and a filter without shell metacharacters around words that begin with
-- an abbreviation of one of seven nouns and of `show`, or of `xfrm state list` or `xfrm policy list`;
-- the words `l... s` are excluded. It runs on the node, in the namespace and with the image that are
-- asked for, under the request's timeout.
pub get_ip_command_output-IpAllowed :
    (cfg : Config) (now : ℕ) (parent : Context) (inp : ListIpParams)
    → Ensures
        (IsNodeCall cfg (with_timeout now inp.timeout parent) inp.namespace inp.node IpAllowed)
        Anything
        (get_ip_command_output cfg now parent inp)
unfolding get_ip_command_output
get_ip_command_output-IpAllowed cfg now parent inp =
    Ensures-bind _ Anything _ Anything _
      (Ensures-wrap_all _ Anything _ _ _
        (Ensures-utility_exists cfg _ inp.namespace inp.node IpAllowed (codes "ip") (version refl)))
      λ _ _. Ensures-lift _ Anything _ _ λ _ command_ok. Ensures-lift _ Anything _ _ λ _ filter_ok.
        Ensures-lift _ Anything _ _ λ _ options_ok.
          Ensures-bind _ Anything _ Anything _
            (Ensures-wrap_all _ Anything _ _ _ (
              Ensures-execute_command cfg _ inp.namespace inp.node IpAllowed _ (
                shows (fields inp.options) (fields inp.command) (fields inp.filter_parameters)
                  (All-fields (Admits default) inp.options (
                    validate_safe_string-All inp.options _ true default
                      (wrap-eq-ok _ _ _ options_ok)))
                  (validate_ip_command-IpShows inp.command (wrap-eq-ok _ _ _ command_ok))
                  (All-fields (Admits default) inp.filter_parameters (
                    validate_safe_string-All inp.filter_parameters _ true default
                      (wrap-eq-ok _ _ _ filter_ok)))
                  (ip_args_lem inp.options inp.command inp.filter_parameters))))
            λ _ _. Ensures-lift _ Anything _ _ λ _ _. tt

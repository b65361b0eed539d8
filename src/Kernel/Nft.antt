-- ===== src/Kernel/Nft.antt =====
-- pkg/kernel/mcp/nft.go.
pub mod Allowed
use ovn_kubernetes_mcp.Prelude.{
  reject_if, true, ℕ, not, List, [], ◌∷◌, if◌then◌else◌, is_empty, errorf, wrap, Result, ok, err,
}
use ovn_kubernetes_mcp.Text.{Text, codes, elem, trim_space, fields, is_atoi}
use ovn_kubernetes_mcp.Exec.{Context, M, ◌>>=◌, ◌>>◌, ret, done, wrap_all}
use ovn_kubernetes_mcp.Utils.CommandBuilder.{new_command, add, build, add_if}
use ovn_kubernetes_mcp.Utils.Validate.{validate_safe_string, default}
use ovn_kubernetes_mcp.Utils.Timeout.{with_timeout}
use ovn_kubernetes_mcp.Kernel.Util.{utility_exists, execute_command, render}
use ovn_kubernetes_mcp.Kernel.Params.{ListNftParams, Config}

abbrev pub valid_commands : List Text
valid_commands =
    codes "list ruleset"
    ∷ codes "list tables"
    ∷ codes "list chains"
    ∷ codes "list sets"
    ∷ codes "list maps"
    ∷ codes "list flowtables"
    ∷ []

abbrev pub valid_addr_families : List Text
valid_addr_families =
    codes "ip" ∷ codes "ip6" ∷ codes "inet" ∷ codes "arp" ∷ codes "bridge" ∷ codes "netdev" ∷ []

unfoldable pub validate_nft_command : Text → Result (Unit {0})
validate_nft_command command =
    if is_atoi command
    then err (errorf "invalid nft command: %s" (command ∷ []))
    else reject_if (not (elem (trim_space command) valid_commands))
        (errorf "invalid nft command: %s" (command ∷ []))

unfoldable pub validate_nft_address_family : Text → Result (Unit {0})
validate_nft_address_family [] = ok tt
validate_nft_address_family (c ∷ s) =
    if is_atoi (c ∷ s)
    then err (errorf "invalid nft address family: %s" ((c ∷ s) ∷ []))
    else reject_if (not (elem (trim_space (c ∷ s)) valid_addr_families))
        (errorf "invalid nft address family: %s" ((c ∷ s) ∷ []))

abbrev pub nft_error : {A : Type 0} → Result A → M A
nft_error r = ret (wrap "error while getting nft data: %w" [] r)

-- The argument vector that `GetNFT` builds.
unfoldable pub nft_args : Text → Text → List Text
nft_args command address_families =
    let cmd = add (new_command (codes "nft" ∷ [])) (fields command) in
    build (add_if cmd (not (is_empty address_families)) (address_families ∷ []))

unfoldable pub get_nft : Config → ℕ → Context → ListNftParams → M Text
get_nft cfg now parent inp = do
  let ctx = with_timeout now inp.timeout parent
  wrap_all
      "error while getting nft data: failed to verify nft utility availability in configured image: %w"
      [] (utility_exists cfg ctx inp.namespace inp.node (codes "nft"))
  nft_error (validate_nft_command inp.command)
  nft_error (validate_safe_string inp.address_families (codes "address families") true default)
  nft_error (validate_nft_address_family inp.address_families)
  (stdout, stderr) ← wrap_all "error while getting nft data: %w" [] (
      execute_command cfg ctx inp.namespace inp.node
        (nft_args (trim_space inp.command) (trim_space inp.address_families)))
  ret (reject_if (not (is_empty stderr)) (errorf "error while running command: %s" (stderr ∷ [])))
  done (render inp.head_tail stdout)

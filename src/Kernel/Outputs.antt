-- ===== src/Kernel/Outputs.antt =====
-- The results of the handlers of pkg/kernel/mcp.
use ovn_kubernetes_mcp.Exec.Laws.{Anything, Ensures-bind, Ensures}
use ovn_kubernetes_mcp.Kernel.Params.{ListIpParams, ListIptablesParams, ListNftParams, Config}
use ovn_kubernetes_mcp.Exec.{◌>>=◌, Context, M}
use ovn_kubernetes_mcp.Prelude.{ℕ}
use ovn_kubernetes_mcp.Kernel.Report.{AnyCall, IsReport, Ensures-IsReport, Ensures-unit}
use ovn_kubernetes_mcp.Kernel.Nft.{get_nft}
use ovn_kubernetes_mcp.Kernel.Iptables.{get_iptables}
use ovn_kubernetes_mcp.Kernel.Ip.{get_ip_command_output}

-- Steps before the last one: whatever they return, the rest is as `R` says.
then_ :
    {A B : Type 0} (R : B → Type 0) (m : M A) (f : A → M B)
    → ((a : A) → Ensures AnyCall R (f a))
    → Ensures AnyCall R (m >>= f)
then_ R m f h = Ensures-bind AnyCall R f Anything m (Ensures-unit m) λ a _. h a

-- Every successful result of `GetNFT` consists of lines that are not blank and do not warn, and there are no
-- more of them than head and tail allow.
pub get_nft-IsReport :
    (cfg : Config) (now : ℕ) (parent : Context) (inp : ListNftParams)
    → Ensures AnyCall (IsReport inp.head_tail) (get_nft cfg now parent inp)
unfolding get_nft
get_nft-IsReport cfg now parent inp = then_ _ _ _ λ _. then_ _ _ _ λ _.
    then_ _ _ _
      λ _. then_ _ _ _ λ _. Ensures-IsReport cfg _ inp.namespace inp.node _ inp.head_tail _ _

-- Every successful result of `GetIptables` consists of lines that are not blank and do not warn, and there are
-- no more of them than head and tail allow.
pub get_iptables-IsReport :
    (cfg : Config) (now : ℕ) (parent : Context) (inp : ListIptablesParams)
    → Ensures AnyCall (IsReport inp.head_tail) (get_iptables cfg now parent inp)
unfolding get_iptables
get_iptables-IsReport cfg now parent inp = then_ _ _ _ λ _. then_ _ _ _ λ _.
    then_ _ _ _
      λ _. then_ _ _ _ λ _. Ensures-IsReport cfg _ inp.namespace inp.node _ inp.head_tail _ _

-- Every successful result of `GetIPCommandOutput` consists of lines that are not blank and do not warn, and
-- there are no more of them than head and tail allow.
pub get_ip_command_output-IsReport :
    (cfg : Config) (now : ℕ) (parent : Context) (inp : ListIpParams)
    → Ensures AnyCall (IsReport inp.head_tail) (get_ip_command_output cfg now parent inp)
unfolding get_ip_command_output
get_ip_command_output-IsReport cfg now parent inp = then_ _ _ _ λ _. then_ _ _ _ λ _.
    then_ _ _ _
      λ _. then_ _ _ _ λ _. Ensures-IsReport cfg _ inp.namespace inp.node _ inp.head_tail _ _

-- ===== src/Kernel/Nft/Allowed.antt =====
-- The commands that `GetNFT` of pkg/kernel/mcp/nft.go runs.
use ovn_kubernetes_mcp.Utils.Timeout.{with_timeout}
use ovn_kubernetes_mcp.Kernel.Calls.{Ensures-execute_command, Ensures-utility_exists, IsNodeCall}
use ovn_kubernetes_mcp.Exec.Laws.{Ensures-lift, Ensures-wrap_all, Ensures-bind, Anything, Ensures}
use ovn_kubernetes_mcp.Text.Laws.{elem_iff}
use ovn_kubernetes_mcp.Exec.{Context}
use ovn_kubernetes_mcp.Kernel.Params.{ListNftParams, Config}
use ovn_kubernetes_mcp.Kernel.Nft.{
  valid_commands, valid_addr_families, validate_nft_command, validate_nft_address_family, nft_args,
  get_nft,
}
use ovn_kubernetes_mcp.Prelude.{
  ◌++◌, wrap-eq-ok, arith, ℕ, refl, ok, inr, inl, ◌⊎◌, [], ◌∷◌, ◌≡◌, List, Any,
}
use ovn_kubernetes_mcp.Text.{trim_space, fields, Text, codes}

abbrev pub objects : List Text
objects =
    codes "ruleset"
    ∷ codes "tables"
    ∷ codes "chains"
    ∷ codes "sets"
    ∷ codes "maps"
    ∷ codes "flowtables"
    ∷ []

-- `nft -V`, or `nft list <object> [<family>]`.
pub data NftAllowed : List Text → Type 0 where
  version : NftAllowed (codes "nft" ∷ codes "-V" ∷ [])
  list_object :
      {object : Text}
      → Any (λ t. object ≡ t) objects
      → NftAllowed (codes "nft" ∷ codes "list" ∷ object ∷ [])
  list_family :
      {object family : Text}
      → Any (λ t. object ≡ t) objects
      → Any (λ t. family ≡ t) valid_addr_families
      → NftAllowed (codes "nft" ∷ codes "list" ∷ object ∷ family ∷ [])

-- The words of an allowed command.
fields-command :
    (command : Text)
    → Any (λ t. command ≡ t) valid_commands
    → (object : Text) × Any (λ t. object ≡ t) objects
      × (fields command ≡ codes "list" ∷ object ∷ [])
      × (command ≡ codes "list " ++ object)
unfolding fields
fields-command command (inl e) = (codes "ruleset", inl refl, rw e, e)
fields-command command (inr (inl e)) = (codes "tables", inr (inl refl), rw e, e)
fields-command command (inr (inr (inl e))) = (codes "chains", inr (inr (inl refl)), rw e, e)
fields-command command (inr (inr (inr (inl e)))) =
    (codes "sets", inr (inr (inr (inl refl))), rw e, e)
fields-command command (inr (inr (inr (inr (inl e))))) =
    (codes "maps", inr (inr (inr (inr (inl refl)))), rw e, e)
fields-command command (inr (inr (inr (inr (inr (inl e)))))) =
    (codes "flowtables", inr (inr (inr (inr (inr (inl refl))))), rw e, e)
fields-command command (inr (inr (inr (inr (inr (inr h)))))) = absurd h

-- An accepted command is one of the table, once trimmed.
pub validate_nft_command-elem :
    (command : Text) {u : Unit {0}}
    → validate_nft_command command ≡ ok u
    → Any (λ t. trim_space command ≡ t) valid_commands
unfolding validate_nft_command
validate_nft_command-elem command h =
    (elem_iff (trim_space command) valid_commands).0 (ground arith)

pub validate_nft_address_family-elem :
    (family : Text) {u : Unit {0}}
    → validate_nft_address_family family ≡ ok u
    → (trim_space family ≡ []) ⊎ Any (λ t. trim_space family ≡ t) valid_addr_families
unfolding validate_nft_address_family
validate_nft_address_family-elem [] h = inl (unfold trim_space in refl)
validate_nft_address_family-elem (c ∷ s) h =
    inr ((elem_iff (trim_space (c ∷ s)) valid_addr_families).0 (ground arith))

nft_args-NftAllowed :
    (command family : Text)
    → Any (λ t. command ≡ t) valid_commands
    → (family ≡ []) ⊎ Any (λ t. family ≡ t) valid_addr_families
    → NftAllowed (nft_args command family)
unfolding nft_args
nft_args-NftAllowed command [] h k =
    let (object, listed, e, _) = fields-command command h in rw e (list_object listed)
nft_args-NftAllowed command (c ∷ s) h (inl e) = cc
nft_args-NftAllowed command (c ∷ s) h (inr k) =
    let (object, listed, e, _) = fields-command command h in rw e (list_family listed k)

-- The words of a command that stand for the address family: none without one.
abbrev pub FamilyWords : Text → List Text → Type 0
FamilyWords family words =
    ((family ≡ []) × (words ≡ []))
    ⊎ (Any (λ t. family ≡ t) valid_addr_families × (words ≡ family ∷ []))

-- The request asks for `words`: `nft list` with the object of its command, and its address family.
pub record AsksFor (command family : Text) (words : List Text) : Type 0 where
  pub object : Text
  pub family_words : List Text
  pub listed : Any (λ t. object ≡ t) objects
  pub asked : command ≡ codes "list " ++ object
  pub of_family : FamilyWords family family_words
  pub whole : words ≡ codes "nft" ∷ codes "list" ∷ object ∷ family_words

pub nft_args-AsksFor :
    (command family : Text)
    → Any (λ t. command ≡ t) valid_commands
    → (family ≡ []) ⊎ Any (λ t. family ≡ t) valid_addr_families
    → AsksFor command family (nft_args command family)
unfolding nft_args
nft_args-AsksFor command [] h k =
    let (object, listed, e, asked) = fields-command command h in
    record {
      object = object;
      family_words = [];
      listed = listed;
      asked = asked;
      of_family = inl (refl, refl);
      whole = rw e refl;
    }
nft_args-AsksFor command (c ∷ s) h (inl e) = cc
nft_args-AsksFor command (c ∷ s) h (inr k) =
    let (object, listed, e, asked) = fields-command command h in
    record {
      object = object;
      family_words = (c ∷ s) ∷ [];
      listed = listed;
      asked = asked;
      of_family = inr (k, refl);
      whole = rw e refl;
    }

-- Whatever the request and whatever the cluster answers, every command that `GetNFT` runs is `nft -V` or
-- `nft list` with one of six objects and at most one of six address families. It runs on the node, in
-- the namespace and with the image that are asked for, and under the request's timeout.
pub get_nft-NftAllowed :
    (cfg : Config) (now : ℕ) (parent : Context) (inp : ListNftParams)
    → Ensures
        (IsNodeCall cfg (with_timeout now inp.timeout parent) inp.namespace inp.node NftAllowed)
        Anything
        (get_nft cfg now parent inp)
unfolding get_nft
get_nft-NftAllowed cfg now parent inp =
    Ensures-bind _ Anything _ Anything _
      (Ensures-wrap_all _ Anything _ _ _
        (Ensures-utility_exists cfg _ inp.namespace inp.node NftAllowed (codes "nft") version))
      λ _ _. Ensures-lift _ Anything _ _ λ _ command_ok. Ensures-lift _ Anything _ _ λ _ _.
        Ensures-lift _ Anything _ _ λ _ family_ok.
          Ensures-bind _ Anything _ Anything _
            (Ensures-wrap_all _ Anything _ _ _ (
              Ensures-execute_command cfg _ inp.namespace inp.node NftAllowed _ (
                nft_args-NftAllowed (trim_space inp.command) (trim_space inp.address_families)
                  (validate_nft_command-elem inp.command (wrap-eq-ok _ _ _ command_ok))
                  (validate_nft_address_family-elem inp.address_families
                    (wrap-eq-ok _ _ _ family_ok)))))
            λ _ _. Ensures-lift _ Anything _ _ λ _ _. tt

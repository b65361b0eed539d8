-- ===== src/Utils/CommandBuilder.antt =====
-- pkg/utils/commandbuilder/command_builder.go. A method that returns its receiver returns the new
-- builder; `slices.Clone` is the identity on values.
use ovn_kubernetes_mcp.Prelude.{
  false, ◌≡◌, refl, [], ◌∷◌, Bool, not, List, ◌++◌, if◌then◌else◌, is_empty,
}
use ovn_kubernetes_mcp.Text.{Text}

pub record CommandBuilder : Type 0 where
  pub args : List Text

abbrev pub new_command : List Text → CommandBuilder
new_command base_cmd = record { args = base_cmd }

abbrev pub add : CommandBuilder → List Text → CommandBuilder
add cb args = record cb { args = cb.args ++ args }

abbrev pub add_if : CommandBuilder → Bool → List Text → CommandBuilder
add_if cb condition args = if condition then record cb { args = cb.args ++ args } else cb

abbrev pub add_if_not_empty : CommandBuilder → Text → List Text → CommandBuilder
add_if_not_empty cb value args =
    if not (is_empty value) then record cb { args = cb.args ++ args } else cb

abbrev pub build : CommandBuilder → List Text
build cb = cb.args

-- Words that are given only with the value they stand for.
abbrev pub when_given : Text → List Text → List Text
when_given [] words = []
when_given (c ∷ s) words = words

pub when_given_lem :
    (t : Text) (words : List Text) → is_empty t ≡ false → when_given t words ≡ words
when_given_lem [] words h = cc
when_given_lem (c ∷ s) words h = refl

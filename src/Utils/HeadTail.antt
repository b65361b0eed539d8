-- ===== src/Utils/HeadTail.antt =====
-- pkg/utils/headtail/head_tail.go. `Head` and `Tail` are Go ints, so they may be negative.
pub mod Runs
pub mod Laws
use ovn_kubernetes_mcp.Prelude.{
  ℕ, ◌-◌, Bool, true, false, not, ◌&&◌, ◌||◌, List, [], ◌∷◌, leb, if◌then◌else◌, length, take, drop,
}
use ovn_kubernetes_mcp.Prelude.Int.{ℤ, pos, negsuc, is_zero, pos_part}
use ovn_kubernetes_mcp.Text.{Text}

pub record HeadTailParams : Type 0 where
  pub head : ℤ
  pub tail : ℤ
  pub apply_tail_first : Bool

-- `n <= 0 || n >= len(lines)`
abbrev pub keeps_all : ℤ → List Text → Bool
keeps_all n lines = leb (pos_part n) 0 || leb (length lines) (pos_part n)

unfoldable pub head_lines : List Text → ℤ → List Text
head_lines [] n = []
head_lines (l ∷ ls) n = if keeps_all n (l ∷ ls) then l ∷ ls else take (pos_part n) (l ∷ ls)

unfoldable pub tail_lines : List Text → ℤ → List Text
tail_lines [] n = []
tail_lines (l ∷ ls) n =
    if keeps_all n (l ∷ ls) then l ∷ ls else drop (length (l ∷ ls) - pos_part n) (l ∷ ls)

unfoldable pub apply : HeadTailParams → List Text → ℕ → List Text
apply h lines default_max_lines =
    if is_zero h.head && is_zero h.tail
    then head_lines lines (pos default_max_lines)
    else if not (is_zero h.head) && not (is_zero h.tail)
    then (if h.apply_tail_first
        then head_lines (tail_lines lines h.tail) h.head
        else tail_lines (head_lines lines h.head) h.tail)
    else if not (is_zero h.head)
    then head_lines lines h.head
    else tail_lines lines h.tail

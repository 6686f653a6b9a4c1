-- ===== src/Table.antt =====
-- crates/neo-ax/src/table.rs: which of the elements that a window and its menus offer stand in the table,
-- and how much of the visible text. The walk over the window is not modelled: its candidates are given,
-- each with the role and the container that it is grouped by.
pub mod Spread
pub mod Rows
pub mod Lines
use starkbot_neo.Common.{
  ℕ, zero, suc, ◌+◌, ◌-◌, ◌*◌, ◌/◌, String, Bool, true, false, not, ◌&&◌, ◌||◌, Option, none, some,
  List, [], ◌∷◌, ◌++◌, str_eq,
}
use starkbot_neo.Common.Tests.{ltb, leb, ◌==◌, if◌then◌else◌}
use starkbot_neo.Common.Lists.{length, any}
use starkbot_neo.Common.Text.{is_whitespace}

abbrev pub max_elements : ℕ
max_elements = 250

abbrev pub group_share_percent : ℕ
group_share_percent = 40

abbrev pub window_cap : ℕ
window_cap = 170

abbrev pub menu_min : ℕ
menu_min = max_elements - window_cap

abbrev pub text_budget : ℕ
text_budget = 6_000

abbrev pub min : ℕ → ℕ → ℕ
min a b = if leb a b then a else b

abbrev pub max : ℕ → ℕ → ℕ
max a b = if leb a b then b else a

-- How many rows of the window and of the menus are taken, of so many that are left and ranked.
pub record Shares : Type 0 where
  pub window_take : ℕ
  pub menu_take : ℕ

unfoldable pub shares : ℕ → ℕ → Shares
shares ordered ranked =
    let cap = max window_cap (max_elements - ranked) in
    let window = min ordered cap in
    let menu_cap = max (max_elements - window) (if ranked == 0 then 0 else min menu_min ranked) in
    record { window_take = window; menu_take = min ranked menu_cap }

-- `truncated`: `offered` counts the candidates before they are spread.
unfoldable pub truncated : Bool → ℕ → ℕ → Shares → Bool
truncated text_truncated offered ranked s =
    text_truncated || (ltb s.window_take offered || ltb s.menu_take ranked)

-- `collapse_whitespace`: `in_space` says that white space was read, and the text so far is not empty
-- where a space is put.
abbrev collapse_from : Bool → Bool → List ℕ → List ℕ
collapse_from in_space started [] = []
collapse_from in_space started (c ∷ s) =
    let spaced = collapse_from true started s in
    let rest = collapse_from false true s in
    if is_whitespace c then spaced else if in_space && started then b' ' ∷ c ∷ rest else c ∷ rest

unfoldable pub collapse_whitespace : List ℕ → List ℕ
unfolding is_whitespace
collapse_whitespace s = collapse_from false false s

abbrev take : ℕ → List ℕ → List ℕ
take zero s = []
take (suc n) [] = []
take (suc n) (c ∷ s) = c ∷ take n s

-- The text of an observation, in code points.
pub record Visible : Type 0 where
  pub text : List ℕ
  pub cut : Bool

abbrev is_empty : List ℕ → Bool
is_empty [] = true
is_empty (c ∷ s) = false

abbrev newline : List ℕ → List ℕ
newline [] = []
newline (c ∷ s) = (c ∷ s) ++ (10 ∷ [])

unfoldable pub push_text : List ℕ → Visible → Visible
push_text raw v =
    let line = collapse_whitespace raw in
    if is_empty line
    then v
    else if v.cut
    then v
    else let extra = if is_empty v.text then 0 else 1 in
      let remaining = text_budget - (length v.text + extra) in
      if remaining == 0
      then record v { cut = true }
      else if ltb remaining (length line)
      then record { text = newline v.text ++ take remaining line; cut = true }
      else record v { text = newline v.text ++ line }

unfoldable pub push_all : List (List ℕ) → Visible → Visible
unfolding push_text
push_all [] v = v
push_all (line ∷ lines) v = push_all lines (push_text line v)

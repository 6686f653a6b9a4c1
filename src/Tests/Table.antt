-- ===== src/Tests/Table.antt =====
-- crates/neo-ax/src/table.rs on concrete tables.
use starkbot_neo.Common.{
  ℕ, zero, suc, ◌+◌, ◌≤◌, ◌≡◌, refl, false, none, some, List, [], ◌∷◌, ◌++◌, arith,
}
use starkbot_neo.Common.Lists.{length}
use starkbot_neo.Table.{shares, collapse_whitespace, push_all, min, max_elements, text_budget}
use starkbot_neo.Table.Spread.{Key, key_eq, spread, reserved, count, keys_of}
use starkbot_neo.Table.Spread.Reserve.{size}
use starkbot_neo.Table.Spread.Kept.{spread-reserved}
use starkbot_neo.Table.Spread.Full.{IsSome, spread-full}
use starkbot_neo.Table.Rows.{window_rows, shares_fair}
use starkbot_neo.Table.Lines.{blank, push_all-whole}

abbrev cell : Key
cell = record { role = "AXCell"; container = some "table" }

abbrev item : Key
item = record { role = "AXMenuItem"; container = none }

abbrev button : Key
button = record { role = "AXButton"; container = none }

abbrev copies : ℕ → Key → List Key
copies zero k = []
copies (suc n) k = k ∷ copies n k

abbrev itself : Key → Key
itself k = k

-- Ten items, two buttons and five cells, for nine rows: of each group its share of three is reserved.
abbrev mixed : List Key
mixed = copies 10 item ++ (copies 2 button ++ copies 5 cell)

nine_rows : spread itself 9 mixed ≡ copies 4 item ++ (copies 2 button ++ copies 3 cell)
unfolding spread
nine_rows = refl

spread-full_example : (length (spread itself 9 mixed) ≡ 9) × IsSome (spread itself 9 mixed) mixed
spread-full_example = spread-full itself 9 mixed

mixed-count : count (reserved itself 9 mixed) ≡ 8
unfolding reserved key_eq
mixed-count = refl

mixed-fits : count (reserved itself 9 mixed) ≤ 9
mixed-fits = omega (arith, mixed-count)

spread-reserved_example : min 2 3 ≤ size button (keys_of itself (spread itself 9 mixed))
unfolding key_eq
spread-reserved_example = spread-reserved itself 9 mixed mixed-fits button

-- Four groups for three rows: the last one is crowded out.
crowded_out :
    spread itself 3 (cell ∷ item ∷ button ∷ record { role = "AXSlider"; container = none } ∷ [])
    ≡ cell ∷ item ∷ button ∷ []
unfolding spread
crowded_out = refl

-- With 80 menu leaves a window of 200 items, 200 cells and 60 buttons has no button in its table.
abbrev busy : List Key
busy = window_rows itself (copies 200 item ++ (copies 200 cell ++ copies 60 button)) [] 80

no_button : size button busy ≡ 0
unfolding window_rows
no_button = refl

shares_fair_example : (shares 250 100).window_take + (shares 250 100).menu_take ≤ max_elements
shares_fair_example = (shares_fair 250 100).0

push_all-whole_example :
    length (push_all ((32 ∷ 65 ∷ []) ∷ (66 ∷ []) ∷ []) blank).text ≤ text_budget
push_all-whole_example = (push_all-whole ((32 ∷ 65 ∷ []) ∷ (66 ∷ []) ∷ [])).0

two_lines :
    push_all ((32 ∷ 65 ∷ []) ∷ (32 ∷ []) ∷ (66 ∷ 10 ∷ 32 ∷ 67 ∷ []) ∷ []) blank
    ≡ record { text = 65 ∷ 10 ∷ 66 ∷ 32 ∷ 67 ∷ []; cut = false }
unfolding push_all collapse_whitespace
two_lines = refl

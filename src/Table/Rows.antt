-- ===== src/Table/Rows.antt =====
-- crates/neo-ax/src/table.rs: how the rows of a table are shared between the window and the menus
-- (`build_table`).
use starkbot_neo.Common.{List, ◌++◌, ℕ, ◌+◌, ◌≤◌, ◌≡◌, Bool, false, arith}
use starkbot_neo.Common.Lists.{length}
use starkbot_neo.Table.Spread.{Key, take, spread}
use starkbot_neo.Table.{max_elements, window_cap, menu_min, min, shares, truncated}

-- The elements of the window that are in the table: those on the screen before the others, spread over
-- the whole budget, and the first of them up to the window's share.
module _ {ℓ} {A : Type ℓ} (key : A → Key) (on_screen off_screen : List A) (ranked : ℕ) where
  unfoldable pub window_rows : List A
  unfolding spread shares
  window_rows =
      let ordered = spread key max_elements (on_screen ++ off_screen) in
      take (shares (length ordered) ranked).window_take ordered

-- For any numbers of elements and of menu leaves: a table has at most 250 rows, none that is not there;
-- each side gets its guaranteed rows or all that it has; rows are left unused only where everything is
-- in; and a table that is not marked as truncated has all that was offered, where what was offered is
-- spread over at most as many elements.
pub shares_fair :
    (ordered ranked : ℕ)
    → let s = shares ordered ranked in
      (s.window_take + s.menu_take ≤ max_elements)
      × (s.window_take ≤ ordered)
      × (s.menu_take ≤ ranked)
      × (min window_cap ordered ≤ s.window_take)
      × (min menu_min ranked ≤ s.menu_take)
      × (min max_elements (ordered + ranked) ≤ s.window_take + s.menu_take)
      × ((cut : Bool) (offered : ℕ)
          → ordered ≤ offered
          → truncated cut offered ranked s ≡ false
          → (s.window_take ≡ offered) × (s.menu_take ≡ ranked) × (cut ≡ false))
unfolding shares truncated
shares_fair ordered ranked = (
  ground arith,
  ground arith,
  ground arith,
  ground arith,
  ground arith,
  ground arith,
  λ cut offered h t. ground arith,
)

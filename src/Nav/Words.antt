-- ===== src/Nav/Words.antt =====
-- crates/jev-nav/src/gate.rs: the confirm words, and the search for one in a label.
pub mod Whole
use starkbot_neo.Common.{
  ℕ, ◌-◌, String, Bool, true, false, not, ◌&&◌, ◌||◌, Option, none, some, List, [], ◌∷◌,
}
use starkbot_neo.Common.Tests.{◌==◌, if◌then◌else◌}
use starkbot_neo.Common.Lists.{length, drop, find_if}
use starkbot_neo.Common.Text.{codes, lower_codes, codes_prefix}

-- Words in a control's label that make an action a confirm.
abbrev pub confirm_words : List String
confirm_words =
    "pay" ∷ "buy" ∷ "purchase" ∷ "order" ∷ "checkout" ∷ "subscribe" ∷ "upgrade" ∷ "donate"
    ∷ "transfer" ∷ "withdraw" ∷ "send" ∷ "post" ∷ "publish" ∷ "share" ∷ "invite" ∷ "submit"
    ∷ "apply" ∷ "delete" ∷ "remove" ∷ "discard" ∷ "erase" ∷ "cancel account" ∷ "deactivate"
    ∷ "unsubscribe" ∷ "deploy" ∷ "confirm and" ∷ []

-- An edge of the label, or a character that is no letter and no digit.
abbrev pub boundary : (ℕ → Bool) → Option ℕ → Bool
boundary alnum none = true
boundary alnum (some c) = not (alnum c)

abbrev pub head : List ℕ → Option ℕ
head [] = none
head (c ∷ s) = some c

-- `match_indices(word).any(…)`: `skip` counts down what is left of a match, for matches do not
-- overlap, and `before` is the character in front of the rest.
unfoldable pub scan : (ℕ → Bool) → List ℕ → Option ℕ → ℕ → List ℕ → Bool
scan alnum word before skip [] = false
scan alnum word before skip (c ∷ s) =
    let found = skip == 0 && codes_prefix word (c ∷ s) in
    let next = if found then length word - 1 else skip - 1 in
    (found && boundary alnum before && boundary alnum (head (drop (length word) (c ∷ s))))
    || scan alnum word (some c) next s

-- Whether the label contains the word as a word of its own, whatever its case.
abbrev pub contains_word : (ℕ → Bool) → String → String → Bool
contains_word alnum label word = scan alnum (codes word) none 0 (lower_codes (codes label))

-- The first confirm word that a label contains.
unfoldable pub confirm_word : (ℕ → Bool) → String → Option String
unfolding scan find_if
confirm_word alnum label = find_if (contains_word alnum label) confirm_words

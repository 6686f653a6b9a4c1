-- ===== src/Nav/Policy/Space.antt =====
-- crates/jev-nav/src/policy.rs, `action_space`: the elements, the targets of each operation, and
-- the control actions, built from the offered actions one after the other.
use text.Mathlib.Text.{find?}
use Prim.Native.String.{slice, ◌++◌}
use starkbot_neo.Common.{
  ℕ, zero, suc, ◌+◌, String, Bool, true, false, ◌&&◌, Option, none, some, List, [], ◌∷◌,
}
use starkbot_neo.Common.Tests.{if◌then◌else◌}
use starkbot_neo.Common.Lists.{length, get_elem?}
use starkbot_neo.Common.Text.{show}
use starkbot_neo.Common.Map.{lookup, put, nat_ord, string_ord}
use starkbot_neo.Json.{
  Json, array, object, string, Items, nil, cons, Fields, end, get, insert, get_str, get_u64,
  fields_of, of_option, or_else, json_eq,
}
use starkbot_neo.Nav.Externals.{Externals}
use starkbot_neo.Nav.Decision.{Action, Operation, select, press_key, name, from_kind, operation_ord}

-- The elements are the objects of the source's `elements`.
pub record ActionSpace : Type 0 where
  pub elements : List Fields
  pub targets : List (Operation × List (String × Action))
  pub controls : List (String × Action)

-- The locals of the loop.
pub record Building : Type 0 where
  pub space : ActionSpace
  pub open space use *
  pub index_of : List (ℕ × ℕ)

abbrev pub text_at : Action → String → String
text_at action key = or_else "" (get_str action key)

-- Copy the entries of the keys that the action has.
unfoldable pub copy : List String → Action → Fields → Fields
unfolding get insert
copy [] action element = element
copy (key ∷ keys) action element =
    copy keys action (elim (get action key) [ none ↦ element | some v ↦ insert key v element ])

-- `label.split(" → ").next()`.
unfoldable pub before_arrow : String → String
before_arrow label = elim (find? label " → ") [ none ↦ label | some at ↦ slice label 0 at ]

unfoldable pub new_element : ℕ → Action → Fields
unfolding copy insert get_str before_arrow show
new_element number action =
    let copied = copy ("role" ∷ "value" ∷ "checked" ∷ "selected" ∷ "expanded" ∷ []) action end in
    insert "operations" (array nil) (
      insert "label" (string (before_arrow (text_at action "label")))
        (insert "index" (string (show number)) copied))

abbrev pub has_item : Items → Json → Bool
has_item nil v = false
has_item (cons x xs) v = elim (json_eq x v) [ true ↦ true | false ↦ has_item xs v ]

abbrev pub push_item : Items → Json → Items
push_item nil v = cons v nil
push_item (cons x xs) v = cons x (push_item xs v)

abbrev pub count_items : Items → ℕ
count_items nil = 0
count_items (cons x xs) = suc (count_items xs)

abbrev is_select : Operation → Bool
is_select select = true
is_select _ = false

abbrev is_none {ℓ} : {A : Type ℓ} → Option A → Bool
is_none none = true
is_none (some _) = false

-- The first SELECT on an element opens its bucket of options.
unfoldable pub open_options : Operation → Action → Fields → Fields
unfolding get insert
open_options op action element =
    if is_select op && is_none (get element "options")
    then insert "options" (array nil)
        (insert "value" (or_else (string "") (get action "current_value")) element)
    else element

unfoldable pub add_operation : Operation → Fields → Fields
unfolding get insert json_eq
add_operation op element = elim (get element "operations") [
  | some (array ops) ↦
      if has_item ops (string (name op))
      then element
      else insert "operations" (array (push_item ops (string (name op)))) element
  | _ ↦ element
]

-- The element and the id of the target: `index`, `index:option` or `index:key`.
unfoldable pub place : Operation → String → Action → Fields → Fields × String
unfolding get insert fields_of show get_str
place select index action element = elim (get element "options") [
  | some (array options) ↦
      let id = index ++ ":" ++ show (count_items options + 1) in
      let option = object (
        fields_of (
          ("index", string id)
          ∷ ("label", of_option (get action "label"))
          ∷ ("value", of_option (get action "value"))
          ∷ [])) in
      (insert "options" (array (push_item options option)) element, id)
  | _ ↦ (element, index)
]
place press_key index action element = (element, index ++ ":" ++ text_at action "key")
place _ index action element = (element, index)

abbrev pub modify_at : ℕ → Fields → List Fields → List Fields
modify_at i element [] = []
modify_at zero element (x ∷ xs) = element ∷ xs
modify_at (suc i) element (x ∷ xs) = x ∷ modify_at i element xs

abbrev append_one : List Fields → Fields → List Fields
append_one [] element = element ∷ []
append_one (x ∷ xs) element = x ∷ append_one xs element

-- `index_of.entry(node).or_insert_with(…)`: the position of the element of the node.
unfoldable pub row_of : ℕ → Action → Building → Building × ℕ
unfolding new_element lookup put
row_of node action b = elim (lookup node b.index_of) [
  | some position ↦ (b, position)
  | none ↦ (
    record {
      space = record {
        elements = append_one b.elements (new_element (length b.elements + 1) action);
        targets = b.targets;
        controls = b.controls;
      };
      index_of = put node (length b.elements) b.index_of;
    },
    length b.elements,
  )
]

-- `targets.entry(operation).or_default().insert(target, action)`.
unfoldable pub add_target :
    Operation
    → String
    → Action
    → List (Operation × List (String × Action))
    → List (Operation × List (String × Action))
add_target op id action targets = put op (put id action (or_else [] (lookup op targets))) targets

-- The rest of a round, at an element of the list.
unfoldable pub offer : Operation → Action → Building → ℕ → Building
offer op action b position =
    let element = or_else end (get_elem? b.elements position) in
    let ready = add_operation op (open_options op action element) in
    let (placed, id) = place op (show (position + 1)) action ready in
    record {
      space = record {
        elements = modify_at position placed b.elements;
        targets = add_target op id action b.targets;
        controls = b.controls;
      };
      index_of = b.index_of;
    }

unfoldable pub add_control : Externals → Action → Building → Building
unfolding get_str
add_control x action b = record {
  space = record {
    elements = b.elements;
    targets = b.targets;
    controls = put (x.to_uppercase (text_at action "id")) action b.controls;
  };
  index_of = b.index_of;
}

-- One round of the loop.
unfoldable pub add_action : Externals → Building → Action → Building
unfolding get_str
add_action x b action = elim (from_kind (text_at action "kind")) [
  | none ↦ add_control x action b
  | some op ↦ elim (get_u64 action "node") [
    | none ↦ b
    | some node ↦ let (b', position) = row_of node action b in offer op action b' position
  ]
]

abbrev pub empty : Building
empty = record { space = record { elements = []; targets = []; controls = [] }; index_of = [] }

unfoldable pub build : Externals → Building → List Action → Building
build x b [] = b
build x b (action ∷ rest) = build x (add_action x b action) rest

unfoldable pub action_space : Externals → List Action → ActionSpace
unfolding build
action_space x actions = (build x empty actions).space

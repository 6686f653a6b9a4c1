-- ===== src/Nav/Decision.antt =====
-- crates/jev-nav/src/policy.rs: one executable action, the operations, and a decision.
use starkbot_neo.Common.{ℕ, String, Option, none, some, List}
use starkbot_neo.Common.{◌≡◌, str_eq}
use starkbot_neo.Common.Tests.{if◌then◌else◌}
use starkbot_neo.Common.Float.{F64}
use starkbot_neo.Common.Map.{Ord, compare-eq, compare_self}
use starkbot_neo.Json.{Fields}
use Prim.Native.Nat.{compare, Ordering}
use native.Mathlib.Omega.{arith}

-- One row of an observation's `actions`.
abbrev pub Action : Type 0
Action = Fields

pub data Operation : Type 0 where
  click type_text select upload press_key : Operation

abbrev pub name : Operation → String
name click = "CLICK"
name type_text = "TYPE_TEXT"
name select = "SELECT"
name upload = "UPLOAD"
name press_key = "PRESS_KEY"

unfoldable pub from_kind : String → Option Operation
from_kind kind =
    if str_eq kind "click"
    then some click
    else if str_eq kind "fill"
    then some type_text
    else if str_eq kind "select"
    then some select
    else if str_eq kind "upload"
    then some upload
    else if str_eq kind "press"
    then some press_key
    else none

unfoldable pub describe : Operation → String
describe click = "Click an element, button, menu option, autocomplete suggestion, or calendar day."
describe type_text =
    "Enter or replace text in an editable field. A small LLM will supply the value from the goal."
describe select = "Select an observed dropdown value."
describe upload = "Upload the file supplied with the goal to a file input."
describe press_key = "Press one offered key in the currently focused control."

-- The place of an operation in the derived order.
abbrev pub rank : Operation → ℕ
rank click = 0
rank type_text = 1
rank select = 2
rank upload = 3
rank press_key = 4

pub rank_inj : (a b : Operation) → rank a ≡ rank b → a ≡ b
rank_inj a b h = ground arith

pub record Decision : Type 0 where
  pub operation : String
  pub operation_confidence : F64
  pub operation_probabilities : List (String × F64)
  pub action : Option Action
  pub target : Option String
  pub target_confidence : Option F64
  pub safety : List (String × F64)

pub op_cmp-eq : (a b : Operation) → compare (rank a) (rank b) ≡ Ordering.eq → a ≡ b
op_cmp-eq a b h = rank_inj a b (compare-eq (rank a) (rank b) h)

instance abbrev pub operation_ord : Ord Operation
operation_ord = record {
  cmp = λ a b. compare (rank a) (rank b);
  cmp-eq = op_cmp-eq;
  cmp_self = λ a. compare_self (rank a);
}

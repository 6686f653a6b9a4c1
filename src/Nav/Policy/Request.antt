-- ===== src/Nav/Policy/Request.antt =====
-- crates/jev-nav/src/policy.rs, `build_request` and `resolve`: the questions of one request, and
-- the answers read back into one decision.
use Prim.Native.String.{◌++◌}
use starkbot_neo.Common.{String, Bool, false, ◌||◌, Option, none, some, List, [], ◌∷◌, map, str_eq}
use starkbot_neo.Common.Tests.{ltb, if◌then◌else◌}
use starkbot_neo.Common.Lists.{take_last}
use starkbot_neo.Common.Text.{to_ascii_lowercase}
use starkbot_neo.Common.Float.{F64, f64_zero, f64_lt}
use starkbot_neo.Common.Map.{lookup, put, keys, string_ord}
use starkbot_neo.Common.Result.{Result, ok, ◌>>=◌}
use starkbot_neo.Json.{
  Json, bool, pos_int, string, array, object, Fields, end, field, get, insert, index, get_str,
  as_u64, as_bool, fields_of, or_else, of_list,
}
use starkbot_neo.Nav.Rules.{next_action, target, safety, on_task_head}
use starkbot_neo.Nav.Externals.{Externals}
use starkbot_neo.Nav.Decision.{Action, Operation, Decision, name, describe}
use starkbot_neo.Nav.Wire.{Evaluation, WireError, choice, noul}
use starkbot_neo.Nav.Policy.Space.{ActionSpace, copy, text_at}

pub record Request : Type 0 where
  pub state : Json
  pub questions : Json
  pub operations : List String
  pub safety : List String

abbrev record_of : List (String × Json) → Json
unfolding fields_of
record_of entries = object (fields_of entries)

abbrev pub field_keys : Fields → List String
field_keys end = []
field_keys (field k v rest) = k ∷ field_keys rest

-- The offered operations, the controls under their labels, and the two ends.
unfoldable pub add_operations : List (Operation × List (String × Action)) → Fields → Fields
unfolding insert describe
add_operations [] out = out
add_operations ((op, _) ∷ rest) out =
    add_operations rest (insert (name op) (string (describe op)) out)

unfoldable pub add_controls : List (String × Action) → Fields → Fields
unfolding insert get
add_controls [] out = out
add_controls ((id, control) ∷ rest) out =
    add_controls rest (insert id (or_else (string id) (get control "label")) out)

unfoldable pub operations_of : ActionSpace → Fields
unfolding add_operations add_controls insert
operations_of space = insert "BLOCKED" (string "No supported operation can progress.") (
    insert "DONE" (string "Every requirement is visibly satisfied.")
      (add_controls space.controls (add_operations space.targets end)))

unfoldable pub criterion : String → Action → Json
unfolding get insert copy get_str
criterion id action =
    let current : Json = elim (get action "current_value") [
      | some v ↦ v
      | none ↦ or_else (string "") (get action "value")
    ] in
    object (
      copy ("role" ∷ "checked" ∷ "selected" ∷ "expanded" ∷ []) action (
        insert "current_value" current
          (insert "element" (string ("[" ++ id ++ "] " ++ text_at action "label")) end)))

unfoldable pub criteria : List (String × Action) → Fields → Fields
unfolding insert criterion
criteria [] out = out
criteria ((id, action) ∷ rest) out = criteria rest (insert id (criterion id action) out)

abbrev pub head_of : String → String
unfolding to_ascii_lowercase
head_of operation = to_ascii_lowercase operation ++ "_target"

unfoldable pub target_questions :
    String → List (Operation × List (String × Action)) → Fields → Fields
unfolding insert criteria fields_of of_list next_action target
target_questions goal [] out = out
target_questions goal ((op, candidates) ∷ rest) out = target_questions goal rest (
    insert (head_of (name op))
      (record_of (
        ("type", string "choice")
        ∷ ("criteria", object (criteria candidates end))
        ∷ (
          "instructions",
          record_of (
              ("goal", string goal)
              ∷ ("operation", string (name op))
              ∷ ("rules", array (of_list (string next_action ∷ string target ∷ [])))
              ∷ []),
        )
        ∷ []))
      out)

unfoldable pub head_questions : String → List (String × String) → Fields → Fields
unfolding insert fields_of
head_questions goal [] out = out
head_questions goal ((name, instructions) ∷ rest) out = head_questions goal rest (
    insert name
      (record_of (
        ("type", string "noul")
        ∷ ("instructions", record_of (("goal", string goal) ∷ ("rules", string instructions) ∷ []))
        ∷ []))
      out)

-- The heads that this run can act on: the risk heads, and the drift head where there is a floor.
unfoldable pub asked_heads : Bool → F64 → List (String × String)
unfolding f64_lt
asked_heads safety_heads floor = join (if safety_heads then safety else [])
  where
    drift : List (String × String)
    drift = if f64_lt f64_zero floor then on_task_head ∷ [] else []

    join : List (String × String) → List (String × String)
    join [] = drift
    join (h ∷ hs) = h ∷ join hs

abbrev pub names_of : List (String × String) → List String
names_of [] = []
names_of ((name, _) ∷ rest) = name ∷ names_of rest

unfoldable pub recent_entry : Json → Json
unfolding index fields_of
recent_entry entry = record_of (
    ("action", index entry "action")
    ∷ ("kind", index entry "kind")
    ∷ ("text", index entry "text")
    ∷ ("page_changed", index entry "page_changed")
    ∷ [])

unfoldable pub state_of : Json → ActionSpace → List Json → Json
unfolding index fields_of of_list recent_entry
state_of page space history =
    let omitted = or_else 0 (as_u64 (index page "omitted_actions")) in
    record_of (
      (
        "page",
        record_of (
            ("url", index page "url")
            ∷ ("title", index page "title")
            ∷ ("text", index page "text")
            ∷ []),
      )
      ∷ ("elements", array (of_list (map object space.elements)))
      ∷ ("recent_actions", array (of_list (map recent_entry (take_last 10 history))))
      ∷ ("omitted_actions", pos_int omitted)
      ∷ (
        "actions_truncated",
        bool (ltb 0 omitted || or_else false (as_bool (index page "omitted_actions"))),
      )
      ∷ (
        "unreadable_frames",
        pos_int (or_else 0 (as_u64 (index (index page "signals") "cross_origin_frames"))),
      )
      ∷ [])

unfoldable pub build_request : Json → ActionSpace → String → List Json → Bool → F64 → Request
unfolding operations_of target_questions head_questions asked_heads state_of insert fields_of
    next_action
build_request page space goal history safety_heads floor =
    let operations = operations_of space in
    let asked = asked_heads safety_heads floor in
    let first =
      insert "operation"
        (record_of (
          ("type", string "choice")
          ∷ ("criteria", object operations)
          ∷ ("instructions", record_of (("goal", string goal) ∷ ("rules", string next_action) ∷ []))
          ∷ []))
        end in
    record {
      state = state_of page space history;
      questions = object (head_questions goal asked (target_questions goal space.targets first));
      operations = field_keys operations;
      safety = names_of asked;
    }

-- The candidates of the operation of that name.
unfoldable pub candidates_of :
    String → List (Operation × List (String × Action)) → Option (List (String × Action))
candidates_of operation [] = none
candidates_of operation ((op, candidates) ∷ rest) =
    if str_eq (name op) operation then some candidates else candidates_of operation rest

-- Only the chosen operation's target head is read.
unfoldable pub resolve_target :
    Externals → ActionSpace → Evaluation → Decision → Result WireError Decision
unfolding to_ascii_lowercase
resolve_target x space evaluation decision = elim (candidates_of decision.operation space.targets) [
  | none ↦ ok decision
  | some candidates ↦
      choice x evaluation (head_of decision.operation) (keys candidates) >>= λ answer.
      ok (record decision {
        action = lookup answer.choice candidates;
        target_confidence = some answer.confidence;
        target = some answer.choice;
      })
]

-- Each head that was asked must have an answer.
unfoldable pub resolve_safety :
    Externals
    → Evaluation
    → List String
    → List (String × F64)
    → Result WireError (List (String × F64))
unfolding noul put
resolve_safety x evaluation [] answers = ok answers
resolve_safety x evaluation (name ∷ names) answers =
    noul x evaluation name >>= λ p. resolve_safety x evaluation names (put name p answers)

unfoldable pub resolve : Externals → Request → ActionSpace → Evaluation → Result WireError Decision
resolve x request space evaluation = do
  answer ← choice x evaluation "operation" request.operations
  decision ← resolve_target x space evaluation (record {
    operation = answer.choice;
    operation_confidence = answer.confidence;
    operation_probabilities = answer.probabilities;
    action = lookup answer.choice space.controls;
    target = none;
    target_confidence = none;
    safety = [];
  })
  heads ← resolve_safety x evaluation request.safety []
  ok (record decision { safety = heads })

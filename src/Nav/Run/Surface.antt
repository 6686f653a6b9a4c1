-- ===== src/Nav/Run/Surface.antt =====
-- crates/jev-nav/src/lib.rs and text.rs: what the loop reads of an observation and of its history.
use Prim.Native.String.{◌++◌}
use starkbot_neo.Common.{
  ℕ, suc, String, Bool, false, not, ◌&&◌, Option, none, some, List, [], ◌∷◌, map, str_eq,
}
use starkbot_neo.Common.Tests.{leb, if◌then◌else◌}
use starkbot_neo.Common.Lists.{length, take_last, all, any, keep_if}
use starkbot_neo.Json.{
  Json, null, bool, string, array, object, end, get, insert, index, get_str, as_str, fields_of,
  of_option, or_else, of_list, to_list, json_eq,
}
use starkbot_neo.Nav.Externals.{Externals}
use starkbot_neo.Nav.Decision.{Action, Decision}
use starkbot_neo.Nav.Gate.{
  NeedsUser, sign_in, captcha, value, ConfirmReason, safety_head, label, first_upload,
}
use starkbot_neo.Nav.Session.{Escalation}
use starkbot_neo.Nav.Policy.Space.{copy}

-- What makes two offered actions the same action.
unfoldable pub identity_of : Action → Json
unfolding get of_list
identity_of action = array (
    of_list (
      of_option (get action "kind")
      ∷ of_option (get action "node")
      ∷ of_option (get action "label")
      ∷ of_option (get action "value")
      ∷ []))

-- One offered action reduced to the keys that carry its meaning.
unfoldable pub semantics : Json → Json
unfolding copy
semantics (object action) = object (
    copy
      ("kind" ∷ "id" ∷ "node" ∷ "label" ∷ "role" ∷ "value" ∷ "current_value" ∷ "options" ∷ "checked"
        ∷ "selected" ∷ "expanded" ∷ [])
      action end)
semantics _ = object end

abbrev items_of : Json → List Json
unfolding to_list
items_of (array xs) = to_list xs
items_of _ = []

-- A digest of what the surface says, without geometry.
unfoldable pub fingerprint : Externals → Json → String
unfolding index semantics of_list to_list
fingerprint x observation = x.to_string (
    array (
      of_list (
        index observation "url"
        ∷ index observation "text"
        ∷ array (of_list (map semantics (items_of (index observation "actions"))))
        ∷ index observation "scroll"
        ∷ [])))

abbrev objects_of : List Json → List Action
objects_of [] = []
objects_of (object action ∷ rest) = action ∷ objects_of rest
objects_of (_ ∷ rest) = objects_of rest

-- The actions of an observation.
unfoldable pub actions_of : Json → List Action
unfolding index to_list
actions_of observation = objects_of (items_of (index observation "actions"))

-- `denied.contains(&identity_of(action))`.
unfoldable pub is_refused : List Json → Action → Bool
unfolding identity_of json_eq
is_refused denied action = any (λ d. json_eq d (identity_of action)) denied

-- The actions that no person refused.
unfoldable pub offered_of : List Json → Json → List Action
unfolding is_refused actions_of
offered_of denied observation =
    keep_if (λ action. not (is_refused denied action)) (actions_of observation)

-- What the text helper is told of a field.
unfoldable pub field_context : String → Action → Json → List Json → Json
unfolding index get fields_of of_list
field_context goal action observation history = object (
    fields_of (
      ("goal", string goal)
      ∷ (
        "field",
        object (
            fields_of (
              ("label", of_option (get action "label"))
              ∷ ("role", of_option (get action "role"))
              ∷ ("value", of_option (get action "value"))
              ∷ [])),
      )
      ∷ (
        "page",
        object (
            fields_of (
              ("title", index observation "title")
              ∷ ("text", string (take_chars 6000 (or_else "" (as_str (index observation "text")))))
              ∷ [])),
      )
      ∷ ("recent_actions", array (of_list (map recent (take_last 6 history))))
      ∷ []))
  where
    take_chars : ℕ → String → String
    take_chars ℕ.zero s = ""
    take_chars (suc n) String.[] = ""
    take_chars (suc n) (String.◌∷◌ c s) = String.◌∷◌ c (take_chars n s)

    recent : Json → Json
    recent h = object (fields_of (("action", index h "action") ∷ ("text", index h "text") ∷ []))

-- A recorded action, before it is known whether the page changed.
unfoldable pub history_entry : Option String → Action → Option String → Json
unfolding get fields_of
history_entry title action typed = object (
    fields_of (
      ("action", text title)
      ∷ ("kind", of_option (get action "kind"))
      ∷ ("text", text typed)
      ∷ ("page_changed", null)
      ∷ []))
  where
    text : Option String → Json
    text none = null
    text (some s) = string s

-- `last["page_changed"] = json!(changed)`.
unfoldable pub mark_last : Bool → List Json → List Json
unfolding insert
mark_last changed [] = []
mark_last changed (object h ∷ []) = object (insert "page_changed" (bool changed) h) ∷ []
mark_last changed (h ∷ []) = h ∷ []
mark_last changed (h ∷ g ∷ rest) = h ∷ mark_last changed (g ∷ rest)

abbrev pub push_last : List Json → Json → List Json
push_last [] h = h ∷ []
push_last (g ∷ rest) h = g ∷ push_last rest h

-- The last three recorded actions changed nothing, and none of them was a wait.
unfoldable pub is_stuck : List Json → Bool
unfolding index json_eq
is_stuck history =
    leb 3 (length history)
    && all
        (λ h.
          json_eq (index h "page_changed") (bool false)
          && not (json_eq (index h "kind") (string "wait")))
        (take_last 3 history)

-- The card's line for a confirm.
unfoldable pub confirm_sentence : ConfirmReason → String → String
confirm_sentence (safety_head head p) l =
    if str_eq head "spends"
    then "`" ++ l ++ "` looks like it spends money."
    else if str_eq head "destructive"
    then "`" ++ l ++ "` looks like it deletes something."
    else "`" ++ l ++ "` looks like it sends something to other people."
confirm_sentence (label word) l = "`" ++ l ++ "` says “" ++ word ++ "”."
confirm_sentence (first_upload origin) l = "First upload to " ++ origin ++ "."

unfoldable pub user_sentence : NeedsUser → String
user_sentence sign_in = "Sign in and I'll pick up where I stopped."
user_sentence captcha = "Clear the challenge and I'll carry on."
user_sentence (value field) = "Tell me what goes in “" ++ field ++ "” and I'll carry on."

abbrev pub text_in : Json → String → String
unfolding index
text_in observation key = or_else "" (as_str (index observation key))

-- What a card for one action says.
unfoldable pub escalation : Decision → Action → Option ConfirmReason → Json → List Json → Escalation
unfolding get_str index confirm_sentence
escalation decision action reason observation history =
    let l = get_str action "label" in
    record {
      action = some action;
      label = l;
      operation = decision.operation;
      sentence = elim reason [
        | some r ↦ confirm_sentence r (or_else "this" l)
        | none ↦ "I don't know what to type in “" ++ or_else "this field" l ++ "”."
      ];
      reason = reason;
      safety = decision.safety;
      url = text_in observation "url";
      title = text_in observation "title";
      history = take_last 5 history;
    }

-- What a card says when the whole surface is handed to the person.
unfoldable pub handed : NeedsUser → Json → List Json → Escalation
unfolding index user_sentence
handed reason observation history = record {
  action = none;
  label = none;
  operation = "NEEDS_USER";
  sentence = user_sentence reason;
  reason = none;
  safety = [];
  url = text_in observation "url";
  title = text_in observation "title";
  history = take_last 5 history;
}

-- ===== src/Steer.antt =====
-- crates/neo-agent/src/agent/metal.rs (`Steering`, `mailbox`, `runtime_guard`), agent/mod.rs (`steer`)
-- and runtime.rs (`register_run`, `forget_run`, `live_run`), with the caller in crates/neo-tui/src/run.rs.
-- The ids of runs are fresh, so an inbox stands under its run; one that the table of runs has forgotten
-- is not live, and only its mailbox still holds it. The locks are never poisoned.
pub mod Inboxes
pub mod Delivery
pub mod Answers
use starkbot_neo.Common.{
  ℕ, String, Bool, true, false, Option, none, some, List, [], ◌∷◌, ◌++◌, str_eq,
}
use starkbot_neo.Common.Tests.{if◌then◌else◌}
use starkbot_neo.Common.Map.{lookup, put, string_ord}
use starkbot_neo.Common.Result.{Result, ok, err}
use starkbot_neo.Json.{string, bool, object, fields_of}
use starkbot_neo.Thread.{
  Bytes, Message, NewMessage, Tables, StoreError, user, typed, text as text_kind, append_message,
}

-- `Steering`, with what the mailbox has given to the run.
pub record Inbox : Type 0 where
  pub conversation : String
  pub queue : List Bytes
  pub live : Bool
  pub heard : List Bytes

pub data AgentError : Type 0 where
  clock : AgentError
  store : StoreError → AgentError

pub data Event : Type 0 where
  message : Message → Event
  turn_steered : String → Bytes → Event

pub record Agent : Type 0 where
  pub inboxes : List (String × Inbox)
  pub tables : Tables
  pub published : List Event  -- the newest first

abbrev keep : String → Inbox → Agent → Agent
keep run b a = record a { inboxes = put run b a.inboxes }

-- `Steering::new` and `register_run`.
unfoldable pub register_run : String → String → Agent → Agent
unfolding put
register_run run conversation a =
    keep run (record { conversation = conversation; queue = []; live = true; heard = [] }) a

unfoldable pub forget_run : String → Agent → Agent
forget_run run a = elim (lookup run a.inboxes) [
  | none ↦ a
  | some b ↦ keep run (record b { live = false }) a
]

unfoldable pub live_run : String → Agent → Option Inbox
live_run run a = elim (lookup run a.inboxes) [
  | none ↦ none
  | some b ↦ if b.live then some b else none
]

-- `Steering::post`.
abbrev pub post : Bytes → Inbox → Inbox
post text b = record b { queue = b.queue ++ (text ∷ []) }

-- The row of a steered message.
unfoldable pub steered_row : String → String → Bytes → ℕ → NewMessage
unfolding fields_of
steered_row run conversation text at = record {
  conversation_id = conversation;
  role = user;
  source = typed;
  kind = text_kind;
  text = text;
  task_id = none;
  meta = some (object (fields_of (("run", string run) ∷ ("steered", bool true) ∷ [])));
  at = at;
}

-- `steer`. `now` is what the clock reads, `works` says whether the store carries the write out, and `id`
-- is the identifier of the row.
unfoldable pub steer :
    Option ℕ → Bool → String → String → Bytes → Agent → Result AgentError Bool × Agent
unfolding live_run steered_row
steer now works id run text a = elim (live_run run a) [
  | none ↦ (ok false, a)
  | some b ↦
      let a' = keep run (post text b) a in
      elim now [
        | none ↦ (err clock, a')
        | some at ↦
            let r = append_message works id (steered_row run b.conversation text at) a'.tables in
            elim r.0 [
              | err e ↦ (err (store e), record a' { tables = r.1 })
              | ok stored ↦ (
                ok true,
                record a' {
                  tables = r.1;
                  published = turn_steered run text ∷ message stored ∷ a'.published;
                },
              )
            ]
      ]
]

-- `mailbox`: after a step of the run, where the model is about to be called, all that waits is given
-- to it.
unfoldable pub mailbox : String → String → Agent → Agent
mailbox run next a = elim (lookup run a.inboxes) [
  | none ↦ a
  | some b ↦
      if str_eq next "agent"
      then keep run (record b { queue = []; heard = b.heard ++ b.queue }) a
      else a
]

-- What the terminal does with the answer of `steer`: the text is sent as a new turn, or not.
abbrev pub resent : Result AgentError Bool → Bool
resent (ok true) = false
resent (ok false) = true
resent (err e) = true

-- ===== src/Cards.antt =====
-- crates/neo-agent/src/confirm.rs: the confirm broker. A waiting run is modelled by what happens
-- before its wait (`open_confirm`, `open_ask`) and after it (`close_confirm`, `close_ask`); the
-- channel of a card is the mail that stands under its id. That a wait ends is the timer's.
pub mod Apart
pub mod Answers
pub mod Once
pub mod Wait
use starkbot_neo.Common.{ℕ, ◌+◌, String, Bool, true, false, Option, none, some, List, [], ◌∷◌}
use starkbot_neo.Common.Tests.{if◌then◌else◌}
use starkbot_neo.Common.Map.{lookup, put, remove, string_ord}
use starkbot_neo.Common.Result.{Result, ok, err}
use starkbot_neo.Json.{or_else}

pub data GateOutcome : Type 0 where
  confirmed denied timed_out cancelled : GateOutcome

-- The sender that a parked card holds: it answers the run that waits under the card's id.
pub data Waiting : Type 0 where
  confirm ask : Waiting

pub data RuntimeError : Type 0 where
  clock : RuntimeError
  no_such_card : String → RuntimeError

pub record ConfirmView : Type 0 where
  pub id : String
  pub task_id : String
  pub cause : String
  pub action_sentence : String
  pub context : Option String
  pub can_remember : Bool
  pub expires_at : ℕ

pub record AskView : Type 0 where
  pub id : String
  pub task_id : String
  pub question : String
  pub options : List String

pub data AppEvent : Type 0 where
  confirm_request : ConfirmView → AppEvent
  confirm_resolved : String → GateOutcome → AppEvent
  ask_request : AskView → AppEvent
  ask_resolved : String → String → AppEvent

-- The broker's table, what its channels carry, and what was published, the newest first.
pub record Desk : Type 0 where
  pub poisoned : Bool
  pub waiting : List (String × Waiting)
  pub confirms : List (String × GateOutcome)
  pub answers : List (String × Option String)
  pub published : List AppEvent

abbrev pub card_timeout : ℕ
card_timeout = 600_000

unfoldable pub park : String → Waiting → Desk → Desk
park key w d = if d.poisoned then d else record d { waiting = put key w d.waiting }

unfoldable pub take : String → Desk → Option Waiting × Desk
take key d =
    if d.poisoned
    then (none, d)
    else (lookup key d.waiting, record d { waiting = remove key d.waiting })

abbrev pub publish : AppEvent → Desk → Desk
publish e d = record d { published = e ∷ d.published }

-- A call that returns at once, or that waits on its card.
pub data Opened (A : Type 0) : Type 0 where
  returns : Result RuntimeError A → Opened A
  waits : Opened A

-- `confirm`, up to its wait. `skipped` is what `skipped_gate` says and `now` what `now_ms` reads.
unfoldable pub open_confirm :
    Bool
    → Option ℕ
    → String
    → String
    → String
    → String
    → Option String
    → Desk
    → Opened GateOutcome × Desk
open_confirm skipped now id task cause sentence context d =
    if skipped
    then (returns (ok denied), d)
    else let d' = park id confirm d in
      elim now [
        | none ↦ (returns (err clock), d')
        | some t ↦ (
          waits,
          publish
              (confirm_request (record {
                id = id;
                task_id = task;
                cause = cause;
                action_sentence = sentence;
                context = context;
                can_remember = false;
                expires_at = t + card_timeout;
              }))
              d',
        )
      ]

-- `confirm`, from the end of its wait: an answer, or a timeout or a closed channel.
unfoldable pub close_confirm : String → Desk → GateOutcome × Desk
close_confirm id d =
    let outcome = or_else timed_out (lookup id d.confirms) in
    (outcome, publish (confirm_resolved id outcome) (take id d).1)

unfoldable pub open_ask :
    Bool → String → String → String → List String → Desk → Opened (Option String) × Desk
open_ask skipped id task question options d = if skipped then (returns (ok none), d) else (
  waits,
  publish (ask_request (record { id = id; task_id = task; question = question; options = options }))
      (park id ask d),
)

unfoldable pub close_ask : String → Desk → Option String × Desk
close_ask id d =
    let answer = or_else none (lookup id d.answers) in
    (answer, publish (ask_resolved id (or_else "" answer)) (take id d).1)

-- A front end's answer to a confirm card.
unfoldable pub resolve_confirm : String → GateOutcome → Desk → Result RuntimeError (Unit {0}) × Desk
resolve_confirm id outcome d =
    let r = take id d in
    elim r.0 [
      | some confirm ↦ (ok tt, record r.1 { confirms = put id outcome r.1.confirms })
      | some ask ↦ (err (no_such_card id), park id ask r.1)
      | none ↦ (err (no_such_card id), r.1)
    ]

-- What `answer_ask` and `cancel_ask` share: they differ in what they send.
unfoldable pub send_ask : String → Option String → Desk → Result RuntimeError (Unit {0}) × Desk
send_ask id answer d =
    let r = take id d in
    elim r.0 [
      | some ask ↦ (ok tt, record r.1 { answers = put id answer r.1.answers })
      | some confirm ↦ (err (no_such_card id), park id confirm r.1)
      | none ↦ (err (no_such_card id), r.1)
    ]

abbrev pub answer_ask : String → String → Desk → Result RuntimeError (Unit {0}) × Desk
answer_ask id answer d = send_ask id (some answer) d

abbrev pub cancel_ask : String → Desk → Result RuntimeError (Unit {0}) × Desk
cancel_ask id d = send_ask id none d

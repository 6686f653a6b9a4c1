-- ===== src/Nav/Session.antt =====
-- crates/jev-nav/src/lib.rs: the navigator's state, what a run returns, and the effects of its
-- loop. The observer, the classifier and the text helper are effects on a world of any type; each
-- call that the loop makes is recorded in the order in which it is made. Timers are left out.
use starkbot_neo.Common.{ℕ, String, Bool, Option, List}
use starkbot_neo.Common.Float.{F64}
use starkbot_neo.Common.Result.{Result}
use starkbot_neo.Json.{Json}
use starkbot_neo.Nav.Decision.{Action, Decision}
use starkbot_neo.Nav.Gate.{Gate, NeedsUser, BlockReason, ConfirmReason}
use starkbot_neo.Nav.Wire.{Evaluation, WireError}

pub data ObserveError : Type 0 where
  stale : String → ObserveError
  uncertain : String → ObserveError
  cdp : ObserveError

pub data TextError : Type 0 where
  unconfigured : TextError
  request : String → TextError
  invalid unknown : TextError

pub data NavError : Type 0 where
  wire : WireError → NavError
  observe : ObserveError → NavError
  text : TextError → NavError

-- Everything a confirm card needs.
pub record Escalation : Type 0 where
  pub action : Option Action
  pub label : Option String
  pub operation : String
  pub sentence : String
  pub reason : Option ConfirmReason
  pub safety : List (String × F64)
  pub url : String
  pub title : String
  pub history : List Json

-- What a paused run needs to carry on.
pub record ResumeToken : Type 0 where
  pub decisions : ℕ
  pub pending : Option Action
  pub field : Option Json

pub data Outcome : Type 0 where
  done : Outcome
  needs_confirm : Escalation → ResumeToken → Outcome
  needs_user : NeedsUser → Escalation → ResumeToken → Outcome
  blocked : BlockReason → Outcome

pub data Approval : Type 0 where
  approve : Approval
  deny : String → Approval
  ready : Approval
  value : String → Approval

-- One cycle, as the caller is told of it, without its timings.
pub record StepEvent : Type 0 where
  pub decision : Decision
  pub label : Option String
  pub typed : Option String
  pub candidates : ℕ
  pub stale : Bool
  pub usage : Json

pub record RunConfig : Type 0 where
  pub goal : String
  pub safety_heads : Bool
  pub confirm_at : F64
  pub denied_origins : List String
  pub on_task_floor : F64  -- an f32, widened

pub record Navigator : Type 0 where
  pub history : List Json
  pub pending_text : Option (Json × String)
  pub gate : Option Gate
  pub approved : Option Action
  pub denied : List Json
  pub handed_at : Option String

-- The other side of the loop: the observer, the classifier, and the text helper where there is one.
pub record World (W : Type 0) : Type 0 where
  pub observe : W → Result ObserveError Json × W
  pub fresh : W → Json → Result ObserveError (Option String) × W
  pub act : W → Action → Json → Option String → Result ObserveError (Unit {0}) × W
  pub evaluate : W → Json → Json → Result WireError Evaluation × W
  pub helper : Option (W → Json → Result TextError String × W)

-- The calls that the loop makes, and the steps that it reports.
pub data Call : Type 0 where
  observed : Result ObserveError Json → Call
  evaluated : Result WireError Evaluation → Call
  checked helped : Call
  acted : Action → Option String → Call
  stepped : StepEvent → Call

pub record Io (W : Type 0) : Type 0 where
  pub world : W
  pub calls : List Call  -- the newest first

-- ===== src/Attend.antt =====
-- crates/neo-agent/src/agent/tools.rs, `drive_with_cards`: a run of the navigator that asks the person
-- by cards, as long as it pauses. What the others do while a card waits is given for each card; the
-- loop runs on fuel, a round for each card, and `none` as the result means that it still asks.
pub mod Round
pub mod Consent
pub mod Ending
use Prim.Native.String.{◌++◌}
use starkbot_neo.Common.{
  ℕ, zero, suc, String, Bool, true, false, Option, none, some, List, [], ◌∷◌, str_eq,
}
use starkbot_neo.Common.Tests.{if◌then◌else◌}
use starkbot_neo.Common.Result.{Result, ok, err}
use starkbot_neo.Nav.Externals.{Externals}
use starkbot_neo.Nav.Gate.{
  NeedsUser, value, ConfirmReason, safety_head, label, first_upload, unanswered,
}
use starkbot_neo.Nav.Session.{
  World, Io, RunConfig, Navigator, Outcome, done, needs_confirm, needs_user, blocked, NavError,
  Escalation, ResumeToken, Approval, approve, deny, ready, value as typed_value, Call,
}
use starkbot_neo.Nav.Run.Surface.{user_sentence}
use starkbot_neo.Nav.Run.Drive.{End, run, resume}
use starkbot_neo.Cards.{GateOutcome, confirmed, denied, timed_out, cancelled, RuntimeError, Desk}
use starkbot_neo.Cards.Wait.{Wait, confirm_card, ask_user}

abbrev pub ready_option : String
ready_option = "I'm ready"

-- What a refused action tells the next decision.
abbrev pub refused : String
refused = "the user did not approve this; find another way or stop"

unfoldable pub cause_of : Escalation → String
cause_of escalation = elim escalation.reason [
  | some (safety_head head p) ↦ "safety:" ++ head
  | some (label word) ↦ "label:" ++ word
  | some (first_upload origin) ↦ "upload:" ++ origin
  | none ↦ "ask"
]

unfoldable pub where_of : Escalation → String
where_of escalation =
    if str_eq escalation.title ""
    then escalation.url
    else escalation.title ++ " — " ++ escalation.url

abbrev pub is_typed : NeedsUser → Bool
is_typed (value field) = true
is_typed _ = false

-- Return, or carry the paused run on with an answer.
pub data Reply : Type 0 where
  ends : Outcome → Reply
  goes_on : Escalation → ResumeToken → Approval → Reply

-- What an answer to a confirm card is read as: silence refuses.
abbrev pub judged : Escalation → ResumeToken → Result RuntimeError GateOutcome → Reply
judged card token (ok confirmed) = goes_on card token approve
judged card token (ok denied) = goes_on card token (deny refused)
judged card token (ok timed_out) = goes_on card token (deny refused)
judged card token (ok cancelled) = goes_on card token (deny refused)
judged card token (err e) = ends (blocked unanswered)

-- And an answer to a question.
abbrev pub heard : Bool → Escalation → ResumeToken → Result RuntimeError (Option String) → Reply
heard typed card token (ok (some answer)) =
    goes_on card token (if typed then typed_value answer else ready)
heard typed card token (ok none) = ends (blocked unanswered)
heard typed card token (err e) = ends (blocked unanswered)

-- One round: the card for what the run stopped at, and its answer.
unfoldable pub reply : String → Wait → Outcome → Desk → Reply × Desk
unfolding cause_of where_of
reply task w (needs_confirm card token) d =
    let r = confirm_card w task (cause_of card) card.sentence (some (where_of card)) d in
    (judged card token r.0, r.1)
reply task w (needs_user reason card token) d =
    let r =
      ask_user w task (user_sentence reason) (if is_typed reason then [] else (ready_option ∷ []))
        d in
    (heard (is_typed reason) card token r.0, r.1)
reply task w done d = (ends done, d)
reply task w (blocked reason) d = (ends (blocked reason), d)

-- What a leg of the run answers: nothing, or the card of a round.
pub data Said : Type 0 where
  opening : Said
  answered : ℕ → Escalation → ResumeToken → Approval → Said

-- One call of the navigator, with the calls that it made.
pub record Leg : Type 0 where
  pub said : Said
  pub calls : List Call  -- the newest first

pub record Closed (W : Type 0) : Type 0 where
  pub result : Option (Result NavError Outcome)
  pub nav : Navigator
  pub world : W
  pub desk : Desk
  pub legs : List Leg  -- the newest first

module _ {W : Type 0} (x : Externals) (w : World W) (config : RunConfig) (task : String)
    (waits : ℕ → Wait) where
  abbrev closed : Option (Result NavError Outcome) → End W → Desk → List Leg → Closed W
  closed result e d legs = record {
    result = result;
    nav = e.1;
    world = e.2.world;
    desk = d;
    legs = legs;
  }

  -- The `loop`, from the n-th card.
  unfoldable pub attend : ℕ → ℕ → End W → Desk → List Leg → Closed W
  attend zero n e d legs = closed none e d legs
  attend (suc fuel) n e d legs = elim e.0 [
    | err error ↦ closed (some (err error)) e d legs
    | ok outcome ↦
        let r = reply task (waits n) outcome d in
        elim r.0 [
          | ends last ↦ closed (some (ok last)) e r.1 legs
          | goes_on card token a ↦
              elim (resume x w config e.1 token a (record { world = e.2.world; calls = [] })) [
                | none ↦ closed none e r.1 legs
                | some e' ↦
                    attend fuel (suc n) e' r.1
                      (record { said = answered n card token a; calls = e'.2.calls } ∷ legs)
              ]
        ]
  ]

  unfoldable pub drive_with_cards : ℕ → Navigator → W → Desk → Closed W
  unfolding attend
  drive_with_cards fuel nav world d =
      elim (run x w config nav (record { world = world; calls = [] })) [
        | none ↦ record { result = none; nav = nav; world = world; desk = d; legs = [] }
        | some e ↦ attend fuel 0 e d (record { said = opening; calls = e.2.calls } ∷ [])
      ]

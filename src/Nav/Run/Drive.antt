-- ===== src/Nav/Run/Drive.antt =====
-- crates/jev-nav/src/lib.rs: the loop, and its two entries `run` and `resume`.
use starkbot_neo.Common.{ℕ, zero, suc, Option, none, some, [], ◌∷◌, false}
use starkbot_neo.Common.Result.{Result, ok, err}
use starkbot_neo.Json.{string, bool, object, fields_of, of_option, get}
use starkbot_neo.Nav.Rules.{max_decisions}
use starkbot_neo.Nav.Externals.{Externals}
use starkbot_neo.Nav.Gate.{Gate, new}
use starkbot_neo.Nav.Session.{
  World, Io, RunConfig, Navigator, Outcome, NavError, observe as observe_error, ResumeToken,
  Approval, approve, deny, ready, value,
}
use starkbot_neo.Nav.Run.Surface.{identity_of, push_last}
use starkbot_neo.Nav.Run.Effects.{observe}
use starkbot_neo.Nav.Run.Round.{Loop, again, stop, turn}

-- How a run ended, with what is left of the navigator and of the world.
abbrev pub End : Type 0 → Type 0
End W = Result NavError Outcome × Navigator × Io W

module _ {W : Type 0} (x : Externals) (w : World W) (config : RunConfig) where
  -- The `loop`, for a number of turns.
  unfoldable pub turns : ℕ → Loop W → Option (End W)
  turns zero l = none
  turns (suc fuel) l = elim (turn x w config l) [
    | stop r nav io ↦ some (r, nav, io)
    | again l' ↦ turns fuel l'
  ]

  -- Each turn that does not end the run makes a decision, so the budget bounds the turns.
  unfoldable pub drive : Navigator → ℕ → Io W → Option (End W)
  unfolding turns
  drive nav spent io = elim (observe w io).0 [
    | err e ↦ some (err (observe_error e), nav, (observe w io).1)
    | ok observation ↦ turns (suc max_decisions) (record {
      nav = nav;
      decisions = spent;
      consecutive_stale = 0;
      observation = observation;
      io = (observe w io).1;
    })
  ]

  abbrev pub fresh_gate : Gate
  unfolding new
  fresh_gate = new config.confirm_at config.safety_heads config.denied_origins

  -- Drive the goal from a fresh start.
  unfoldable pub run : Navigator → Io W → Option (End W)
  unfolding new
  run nav io = drive (record nav { gate = some fresh_gate }) 0 io

  unfoldable pub install : Navigator → Navigator
  unfolding new
  install nav = elim nav.gate [ none ↦ record nav { gate = some fresh_gate } | some g ↦ nav ]

  -- What a person's answer changes.
  unfoldable pub answer : Navigator → ResumeToken → Approval → Navigator
  unfolding identity_of fields_of get
  answer nav token approve = record nav { approved = token.pending }
  answer nav token (deny note) = elim token.pending [
    | none ↦ nav
    | some action ↦ record nav {
      denied = push_last nav.denied (identity_of action);
      history = push_last nav.history (
          object (
            fields_of (
              ("action", of_option (get action "label"))
              ∷ ("kind", string "refused")
              ∷ ("text", string note)
              ∷ ("page_changed", bool false)
              ∷ [])));
    }
  ]
  answer nav token ready = nav
  answer nav token (value text) = elim token.field [
    | none ↦ nav
    | some field ↦ record nav { pending_text = some (field, text) }
  ]

  -- Carry on a paused run once the person has answered.
  unfoldable pub resume : Navigator → ResumeToken → Approval → Io W → Option (End W)
  unfolding new
  resume nav token approval io = drive (answer (install nav) token approval) token.decisions io

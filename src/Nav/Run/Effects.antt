-- ===== src/Nav/Run/Effects.antt =====
-- crates/jev-nav/src/lib.rs: the calls of the loop, each recorded as it is made.
use starkbot_neo.Common.{String, Option, none, some, ◌∷◌}
use starkbot_neo.Common.Result.{Result, err}
use starkbot_neo.Json.{Json}
use starkbot_neo.Nav.Decision.{Action}
use starkbot_neo.Nav.Wire.{Evaluation, WireError}
use starkbot_neo.Nav.Session.{
  World, Io, StepEvent, ObserveError, TextError, unconfigured, observed, evaluated, checked, helped,
  acted, stepped,
}

-- The callback for one step.
abbrev pub report : {W : Type 0} → StepEvent → Io W → Io W
report event io = record io { calls = stepped event ∷ io.calls }

module _ {W : Type 0} (w : World W) where
  unfoldable pub observe : Io W → Result ObserveError Json × Io W
  observe io =
      let r = w.observe io.world in (r.0, record { world = r.1; calls = observed r.0 ∷ io.calls })

  unfoldable pub evaluate : Json → Json → Io W → Result WireError Evaluation × Io W
  evaluate state questions io =
      let r = w.evaluate io.world state questions in
      (r.0, record { world = r.1; calls = evaluated r.0 ∷ io.calls })

  unfoldable pub fresh : Json → Io W → Result ObserveError (Option String) × Io W
  fresh observation io =
      let r = w.fresh io.world observation in
      (r.0, record { world = r.1; calls = checked ∷ io.calls })

  unfoldable pub act : Action → Json → Option String → Io W → Result ObserveError (Unit {0}) × Io W
  act action observation typed io =
      let r = w.act io.world action observation typed in
      (r.0, record { world = r.1; calls = acted action typed ∷ io.calls })

  -- A run without a helper types nothing.
  unfoldable pub helper : Json → Io W → Result TextError String × Io W
  helper context io = elim w.helper [
    | none ↦ (err unconfigured, io)
    | some ask ↦
        let r = ask io.world context in (r.0, record { world = r.1; calls = helped ∷ io.calls })
  ]

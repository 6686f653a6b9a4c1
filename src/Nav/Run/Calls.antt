-- ===== src/Nav/Run/Calls.antt =====
-- crates/jev-nav/src/lib.rs: what the recorded calls of a run say.
use starkbot_neo.Common.{ℕ, suc, Option, none, some, List, [], ◌∷◌}
use starkbot_neo.Common.Result.{ok, err}
use starkbot_neo.Json.{Json}
use starkbot_neo.Nav.Wire.{Evaluation}
use starkbot_neo.Nav.Decision.{Action}
use starkbot_neo.Nav.Session.{Call, observed, evaluated, checked, helped, acted, stepped}

-- The actions that were given to the surface, the newest first. One that it refused as stale counts.
abbrev pub acts : List Call → List Action
acts [] = []
acts (acted action typed ∷ calls) = action ∷ acts calls
acts (observed r ∷ calls) = acts calls
acts (evaluated r ∷ calls) = acts calls
acts (checked ∷ calls) = acts calls
acts (helped ∷ calls) = acts calls
acts (stepped event ∷ calls) = acts calls

-- How often the classifier was asked.
abbrev pub evaluations : List Call → ℕ
evaluations [] = 0
evaluations (evaluated r ∷ calls) = suc (evaluations calls)
evaluations (acted action typed ∷ calls) = evaluations calls
evaluations (observed r ∷ calls) = evaluations calls
evaluations (checked ∷ calls) = evaluations calls
evaluations (helped ∷ calls) = evaluations calls
evaluations (stepped event ∷ calls) = evaluations calls

-- The last observation, and the classifier's answer since then.
abbrev pub seen : List Call → Option Json
seen [] = none
seen (observed (ok o) ∷ calls) = some o
seen (observed (err e) ∷ calls) = none
seen (evaluated r ∷ calls) = seen calls
seen (acted action typed ∷ calls) = seen calls
seen (checked ∷ calls) = seen calls
seen (helped ∷ calls) = seen calls
seen (stepped event ∷ calls) = seen calls

abbrev pub answered : List Call → Option Evaluation
answered [] = none
answered (observed r ∷ calls) = none
answered (evaluated (ok ev) ∷ calls) = some ev
answered (evaluated (err e) ∷ calls) = none
answered (acted action typed ∷ calls) = answered calls
answered (checked ∷ calls) = answered calls
answered (helped ∷ calls) = answered calls
answered (stepped event ∷ calls) = answered calls

-- An action that was given to the surface, with what was seen before it and what the classifier said.
pub record Made : Type 0 where
  pub action : Action
  pub seen : Option Json
  pub answer : Option Evaluation

abbrev pub made_after : Action → List Call → Made
made_after action calls = record { action = action; seen = seen calls; answer = answered calls }

abbrev pub made : List Call → List Made
made [] = []
made (acted action typed ∷ calls) = made_after action calls ∷ made calls
made (observed r ∷ calls) = made calls
made (evaluated r ∷ calls) = made calls
made (checked ∷ calls) = made calls
made (helped ∷ calls) = made calls
made (stepped event ∷ calls) = made calls

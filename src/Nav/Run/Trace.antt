-- ===== src/Nav/Run/Trace.antt =====
-- crates/jev-nav/src/lib.rs: the phases of a turn behind the gate, for any property of the gate, the
-- refusals, the approval at hand and the actions that were made.
use starkbot_neo.Common.{String, Option, some, List, ◌∷◌, ◌≡◌, arith}
use starkbot_neo.Json.{Json}
use starkbot_neo.Nav.Externals.{Externals}
use starkbot_neo.Nav.Decision.{Action}
use starkbot_neo.Nav.Gate.{Gate}
use starkbot_neo.Nav.Session.{World, RunConfig, Navigator, StepEvent}
use starkbot_neo.Nav.Run.Effects.{observe, act, fresh, helper}
use starkbot_neo.Nav.Run.Calls.{Made, made, made_after, seen}
use starkbot_neo.Nav.Run.Round.{
  Loop, Round, again, stop, reobserve, moved, finish, settle, execute, ask_value, fill, type_or_act,
}

module _ (J : Option Gate → List Json → Option Action → List Made → Type 0) where
  -- The property at a navigator, over the actions made so far.
  abbrev pub At : Navigator → List Made → Type 0
  At nav all = J nav.gate nav.denied nav.approved all

  -- Another turn starts from what was seen last.
  abbrev pub Left : {W : Type 0} → Round W → Type 0
  Left (again l) = At l.nav (made l.io.calls) × (seen l.io.calls ≡ some l.observation)
  Left (stop r nav io) = At nav (made io.calls)

  module _ {W : Type 0} (x : Externals) (w : World W) (config : RunConfig) where
    reobserve-Left : (l : Loop W) → At l.nav (made l.io.calls) → Left (reobserve x w config l)
    unfolding reobserve observe
    reobserve-Left l j = ground arith

    moved-Left :
        (l : Loop W) (e : StepEvent) (s : String)
        → At l.nav (made l.io.calls)
        → Left (moved x w config l e s)
    unfolding moved
    moved-Left l e s j = grind (arith, reobserve-Left)

    pub finish-Left :
        (l : Loop W) (e : StepEvent) → At l.nav (made l.io.calls) → Left (finish x w config l e)
    unfolding finish fresh
    finish-Left l e j = grind (arith, moved-Left)

    settle-Left : (l : Loop W) → At l.nav (made l.io.calls) → Left (settle x w config l)
    unfolding settle observe
    settle-Left l j = ground arith

    pub execute-Left :
        (l : Loop W) (e : StepEvent) (a : Action) (t : Option String)
        → At l.nav (made_after a l.io.calls ∷ made l.io.calls)
        → Left (execute x w config l e a t)
    unfolding execute act
    execute-Left l e a t j = grind (arith, moved-Left, settle-Left)

    fill-Left :
        (l : Loop W) (e : StepEvent) (a : Action)
        → At l.nav (made l.io.calls)
        → At l.nav (made_after a l.io.calls ∷ made l.io.calls)
        → Left (fill x w config l e a)
    unfolding fill ask_value helper
    fill-Left l e a i j = grind (arith, execute-Left)

    pub type_or_act-Left :
        (l : Loop W) (e : StepEvent) (a : Action)
        → At l.nav (made l.io.calls)
        → At l.nav (made_after a l.io.calls ∷ made l.io.calls)
        → Left (type_or_act x w config l e a)
    unfolding type_or_act
    type_or_act-Left l e a i j = grind (arith, fill-Left, execute-Left)

-- ===== src/Nav/Run/Pace.antt =====
-- crates/jev-nav/src/lib.rs: what one turn of the loop spends.
use starkbot_neo.Common.{ℕ, suc, ◌≤◌, ◌<◌, ◌≡◌, refl, Option, List, [], ◌∷◌, arith, Bool, String}
use starkbot_neo.Common.Lists.{length}
use starkbot_neo.Common.Result.{Result, ok, err}
use starkbot_neo.Json.{Json, object}
use starkbot_neo.Nav.Rules.{max_consecutive_stale}
use starkbot_neo.Nav.Externals.{Externals}
use starkbot_neo.Nav.Decision.{Action, Decision}
use starkbot_neo.Nav.Gate.{Verdict, allow}
use starkbot_neo.Nav.Session.{
  World, Io, RunConfig, Navigator, Outcome, NavError, StepEvent, done, needs_confirm, needs_user,
  blocked,
}
use starkbot_neo.Nav.Run.Surface.{mark_last, push_last, escalation}
use starkbot_neo.Nav.Run.Effects.{observe, act, fresh, helper, evaluate}
use starkbot_neo.Nav.Run.Calls.{acts, evaluations}
use starkbot_neo.Nav.Run.Round.{
  Loop, Round, again, stop, reobserve, moved, finish, settle, execute, ask_value, fill, type_or_act,
  obey, judge, watch, follow, ask, look,
}

pub length-push_last : (h : List Json) (e : Json) → length (push_last h e) ≡ suc (length h)
length-push_last [] e = refl
length-push_last (g ∷ h) e = ground (arith, length-push_last h e)

-- The calls of `d` decisions: no more questions and no more actions than that.
abbrev pub Paid : {W : Type 0} → ℕ → Io W → Type 0
Paid d io = (evaluations io.calls ≤ d) × (length (acts io.calls) ≤ d)

-- A run that is paused can be carried on: its token stays within the budget of decisions, and the
-- history has room for one entry more.
abbrev pub IsResumable : ℕ → ℕ → Navigator → Result NavError Outcome → Type 0
IsResumable d n nav (ok (needs_confirm card token)) =
    (token.decisions ≤ d) × (length nav.history < n)
IsResumable d n nav (ok (needs_user reason card token)) =
    (token.decisions ≤ d) × (length nav.history < n)
IsResumable d n nav (ok done) = Unit
IsResumable d n nav (ok (blocked reason)) = Unit
IsResumable d n nav (err e) = Unit

pub IsResumable-mono :
    (d e n : ℕ) (nav : Navigator) (r : Result NavError Outcome)
    → d ≤ e
    → IsResumable d n nav r
    → IsResumable e n nav r
IsResumable-mono d e n nav (ok (needs_confirm card token)) h v = omega arith
IsResumable-mono d e n nav (ok (needs_user reason card token)) h v = omega arith
IsResumable-mono d e n nav (ok done) h v = tt
IsResumable-mono d e n nav (ok (blocked reason)) h v = tt
IsResumable-mono d e n nav (err x) h v = tt

-- A confirm card was paid for with a decision, and its token is for the action on the card.
abbrev pub Costs : ℕ → Result NavError Outcome → Type 0
Costs d (ok (needs_confirm card token)) = (d ≤ token.decisions) × (token.pending ≡ card.action)
Costs d (ok (needs_user reason card token)) = Unit
Costs d (ok done) = Unit
Costs d (ok (blocked reason)) = Unit
Costs d (err e) = Unit

pub Costs-mono : (d e : ℕ) (r : Result NavError Outcome) → e ≤ d → Costs d r → Costs e r
Costs-mono d e (ok (needs_confirm card token)) h c = (omega arith, c.1)
Costs-mono d e (ok (needs_user reason card token)) h c = tt
Costs-mono d e (ok done) h c = tt
Costs-mono d e (ok (blocked reason)) h c = tt
Costs-mono d e (err x) h c = tt

-- After a turn: `d` decisions, at most `n` recorded actions, fewer than five stale decisions.
abbrev pub Within : {W : Type 0} → ℕ → ℕ → Round W → Type 0
Within d n (again l) =
    (l.decisions ≡ d)
    × (length l.nav.history ≤ n)
    × (l.consecutive_stale < max_consecutive_stale)
    × Paid d l.io
Within d n (stop r nav io) =
    (length nav.history ≤ n) × Paid d io × IsResumable d n nav r × Costs d r

-- A decided turn: its decision is counted, its action is not made yet.
abbrev Ready : {W : Type 0} → ℕ → ℕ → Loop W → Type 0
Ready d n l =
    (l.decisions ≡ d)
    × (length l.nav.history < n)
    × (l.consecutive_stale < max_consecutive_stale)
    × (evaluations l.io.calls ≤ d)
    × (length (acts l.io.calls) < d)

-- The same when its action is made.
abbrev Made : {W : Type 0} → ℕ → ℕ → Loop W → Type 0
Made d n l =
    (l.decisions ≡ d)
    × (length l.nav.history ≤ n)
    × (l.consecutive_stale < max_consecutive_stale)
    × Paid d l.io

length-mark_last : (c : Bool) (h : List Json) → length (mark_last c h) ≡ length h
unfolding mark_last
length-mark_last c [] = refl
length-mark_last c (object h ∷ []) = refl
length-mark_last c (h ∷ []) = refl
length-mark_last c (h ∷ g ∷ rest) = ground (arith, length-mark_last c (g ∷ rest))

module _ {W : Type 0} (x : Externals) (w : World W) (config : RunConfig) (d n : ℕ) where
  reobserve-Within : (l : Loop W) → Made d n l → Within d n (reobserve x w config l)
  unfolding reobserve observe
  reobserve-Within l r = ground arith

  moved-Within :
      (l : Loop W) (e : StepEvent) (s : String) → Made d n l → Within d n (moved x w config l e s)
  unfolding moved
  moved-Within l e s r = grind (arith, reobserve-Within)

  finish-Within : (l : Loop W) (e : StepEvent) → Ready d n l → Within d n (finish x w config l e)
  unfolding finish fresh
  finish-Within l e r = grind (arith, moved-Within)

  settle-Within : (l : Loop W) → Made d n l → Within d n (settle x w config l)
  unfolding settle observe
  settle-Within l r = grind (arith, length-mark_last)

  execute-Within :
      (l : Loop W) (e : StepEvent) (a : Action) (t : Option String)
      → Ready d n l
      → Within d n (execute x w config l e a t)
  unfolding execute act
  execute-Within l e a t r = grind (arith, moved-Within, settle-Within, length-push_last)

  fill-Within :
      (l : Loop W) (e : StepEvent) (a : Action) → Ready d n l → Within d n (fill x w config l e a)
  unfolding fill ask_value helper
  fill-Within l e a r = grind (arith, execute-Within)

  type_or_act-Within :
      (l : Loop W) (e : StepEvent) (a : Action)
      → Ready d n l
      → Within d n (type_or_act x w config l e a)
  unfolding type_or_act
  type_or_act-Within l e a r = grind (arith, fill-Within, execute-Within)

  obey-Within :
      (l : Loop W) (e : StepEvent) (a : Action) (v : Verdict)
      → Ready d n l
      → Within d n (obey x w config l e a v)
  unfolding obey escalation
  obey-Within l e a allow r = type_or_act-Within l e a r
  obey-Within l e a v r = ground arith

  judge-Within :
      (l : Loop W) (e : StepEvent) (a : Action) → Ready d n l → Within d n (judge x w config l e a)
  unfolding judge
  judge-Within l e a r = grind (arith, obey-Within, type_or_act-Within)

  watch-Within :
      (l : Loop W) (e : StepEvent) (a : Action) → Ready d n l → Within d n (watch x w config l e a)
  unfolding watch
  watch-Within l e a r = grind (arith, judge-Within)

  follow-Within :
      (l : Loop W) (dec : Decision) (c : ℕ) (u : Json)
      → Ready d n l
      → Within d n (follow x w config l dec c u)
  unfolding follow
  follow-Within l dec c u r = grind (arith, finish-Within, watch-Within)

  ask-Within :
      (l : Loop W)
      → suc l.decisions ≡ d
      → length l.nav.history < n
      → l.consecutive_stale < max_consecutive_stale
      → Paid l.decisions l.io
      → Within d n (ask x w config l)
  unfolding ask evaluate
  ask-Within l a b c p = grind (arith, follow-Within)

  pub look-Within :
      (l : Loop W)
      → suc l.decisions ≡ d
      → length l.nav.history < n
      → l.consecutive_stale < max_consecutive_stale
      → Paid l.decisions l.io
      → Within d n (look x w config l)
  unfolding look
  look-Within l a b c p = grind (arith, ask-Within)

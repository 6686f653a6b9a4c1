-- ===== src/Nav/Gate/Drift.antt =====
-- crates/jev-nav/src/gate.rs: the tripwire for drift over a sequence of answers.
use starkbot_neo.Common.{
  String, ◌≡◌, refl, Bool, true, false, not, ◌&&◌, ◌||◌, Option, none, some, List, [], ◌∷◌, arith,
}
use starkbot_neo.Common.Tests.{if◌then◌else◌}
use starkbot_neo.Common.Float.{F64, f64_zero, f64_ge, f64_le}
use starkbot_neo.Common.Map.{lookup, string_ord}
use starkbot_neo.Json.{or_else}
use starkbot_neo.Nav.Gate.{Gate, BlockReason, off_task, new, on_task}

-- The answers of the steps in turn, up to the first that ends the run.
unfoldable pub drift : F64 → Gate → List (List (String × F64)) → Option BlockReason
drift floor g [] = none
drift floor g (a ∷ rest) = elim (on_task g a floor).1 [
  | some r ↦ some r
  | none ↦ drift floor (on_task g a floor).0 rest
]

-- An answer under the floor; a head without an answer counts as 0.0.
abbrev pub is_low : F64 → List (String × F64) → Bool
is_low floor a = not (f64_ge (or_else f64_zero (lookup "on_task" a)) floor)

-- Whether two answers in a row are low, the first of them possibly before the list.
unfoldable pub two_low : F64 → Bool → List (List (String × F64)) → Bool
two_low floor before [] = false
two_low floor before (a ∷ rest) = (before && is_low floor a) || two_low floor (is_low floor a) rest

drift_from :
    (floor : F64) (g : Gate) (before : Bool) (answers : List (List (String × F64)))
    → f64_le floor f64_zero ≡ false
    → g.off_task_strikes ≡ (if before then 1 else 0)
    → drift floor g answers ≡ (if two_low floor before answers then some off_task else none)
unfolding drift two_low on_task
drift_from floor g before [] h s = refl
drift_from floor g before (a ∷ rest) h s =
    ground (arith, drift_from floor (on_task g a floor).0 (is_low floor a) rest h)

-- With a floor above zero the run ends for drift exactly when two answers in a row lie under it:
-- one low answer is forgiven by the next answer at or above the floor.
pub drift_lem :
    (c : F64) (heads : Bool) (denied : List String) (floor : F64)
    (answers : List (List (String × F64)))
    → f64_le floor f64_zero ≡ false
    → drift floor (new c heads denied) answers
      ≡ (if two_low floor false answers then some off_task else none)
unfolding new
drift_lem c heads denied floor answers h = drift_from floor _ false answers h refl

-- With a floor of zero no answer ends the run.
pub drift_off :
    (floor : F64) (g : Gate) (answers : List (List (String × F64)))
    → f64_le floor f64_zero ≡ true
    → drift floor g answers ≡ none
unfolding drift on_task
drift_off floor g [] h = refl
drift_off floor g (a ∷ rest) h = ground (arith, drift_off floor g rest h)

-- ===== src/Nav/Run/Budget.antt =====
-- crates/jev-nav/src/lib.rs: every run ends, within its budgets.
use starkbot_neo.Common.{ℕ, zero, suc, ◌+◌, ◌≤◌, ◌<◌, ◌≡◌, refl, some, ◌⊎◌, inl, inr, [], arith}
use starkbot_neo.Common.Tests.{leb, Bool-cases}
use starkbot_neo.Common.Lists.{length}
use starkbot_neo.Common.Result.{ok, err, Result-cases}
use starkbot_neo.Nav.Rules.{max_actions, max_decisions, max_consecutive_stale}
use starkbot_neo.Nav.Externals.{Externals}
use starkbot_neo.Nav.Gate
use starkbot_neo.Nav.Gate.{Verdict, budget, allow, confirm, hand, refuse}
use starkbot_neo.Nav.Session.{
  World, Io, RunConfig, Navigator, observe as observe_error, ResumeToken, Approval, approve, deny,
  ready, value, blocked,
}
use starkbot_neo.Nav.Run.Effects.{observe}
use starkbot_neo.Nav.Run.Round.{Loop, Round, again, stop, look, turn}
use starkbot_neo.Nav.Run.Drive.{End, fresh_gate, install, answer, turns, drive, run, resume}
use starkbot_neo.Nav.Run.Pace.{
  length-push_last, Paid, IsResumable, IsResumable-mono, Costs, Costs-mono, Within, look-Within,
}

-- How a run is left: both budgets kept.
abbrev pub IsWithinBudget : {W : Type 0} → End W → Type 0
IsWithinBudget (r, nav, io) =
    (length nav.history ≤ max_actions)
    × Paid max_decisions io
    × IsResumable max_decisions max_actions nav r

module _ {W : Type 0} (x : Externals) (w : World W) (config : RunConfig) where
  -- What a run keeps between its turns.
  abbrev Going : Loop W → Type 0
  Going l =
      (l.decisions ≤ max_decisions)
      × (length l.nav.history ≤ max_actions)
      × (l.consecutive_stale < max_consecutive_stale)
      × Paid l.decisions l.io

  -- Another turn with its decision counted, or the end.
  abbrev Next : Loop W → Round W → Type 0
  Next l r =
      ((l' : Loop W) × (r ≡ again l') × (l'.decisions ≡ suc l.decisions) × Going l')
      ⊎ ((e : End W) × (r ≡ stop e.0 e.1 e.2) × IsWithinBudget e × Costs (suc l.decisions) e.0)

  Within-Next :
      (l : Loop W) (r : Round W)
      → l.decisions < max_decisions
      → Within (suc l.decisions) max_actions r
      → Next l r
  Within-Next l (again l') h v = inl (l', refl, v.0, omega arith)
  Within-Next l (stop r nav io) h v = inr (
    (r, nav, io),
    refl,
    (v.0, omega arith, IsResumable-mono (suc l.decisions) max_decisions max_actions nav r h v.2),
    v.3,
  )

  turn-Next : (l : Loop W) → Going l → Next l (turn x w config l)
  unfolding turn
  turn-Next l g = elim (Bool-cases (leb max_decisions l.decisions)) [
    | inl spent ↦
        inr ((ok (blocked (budget "decision")), l.nav, l.io), rw spent refl, omega arith, tt)
    | inr left ↦ elim (Bool-cases (leb max_actions (length l.nav.history))) [
      | inl full ↦
          inr ((ok (blocked (budget "action")), l.nav, l.io), rw (left, full) refl, omega arith, tt)
      | inr room ↦
          let under : l.decisions < max_decisions = ground arith in
          let free : length l.nav.history < max_actions = ground arith in
          rw (left, room)
            (Within-Next l (look x w config l) under
              (look-Within x w config (suc l.decisions) max_actions l refl free g.2 g.3))
    ]
  ]

  turns-total :
      (fuel : ℕ) (l : Loop W)
      → Going l
      → max_decisions < fuel + l.decisions
      → (e : End W) × (turns x w config fuel l ≡ some e)
        × IsWithinBudget e
        × Costs (suc l.decisions) e.0
  unfolding turns
  turns-total zero l g f = absurd (omega arith)
  turns-total (suc fuel) l g f = elim (turn-Next l g) [
    | inl (l', e, d, g') ↦
        let (end, q, b, c) = turns-total fuel l' g' (omega arith) in
        rw (e, turns)
          (end, q, b, Costs-mono (suc l'.decisions) (suc l.decisions) end.0 (omega arith) c)
    | inr (e, q, b, c) ↦ (e, rw (q, turns) refl, b, c)
  ]

  -- A run from `spent` decisions ends within the budgets, and a confirm card cost a decision more.
  pub drive-total :
      (nav : Navigator) (spent : ℕ) (io : Io W)
      → spent ≤ max_decisions
      → length nav.history ≤ max_actions
      → Paid spent io
      → (e : End W) × (drive x w config nav spent io ≡ some e)
        × IsWithinBudget e
        × Costs (suc spent) e.0
  unfolding drive
  drive-total nav spent io a b p = elim (Result-cases (observe w io).0) [
    | inl (e, q) ↦ (
      (err (observe_error e), nav, (observe w io).1),
      rw (q, drive) refl,
      unfold observe in omega arith,
      tt,
    )
    | inr (o, q) ↦
        rw (q, drive)
          (turns-total (suc max_decisions)
            (record {
              nav = nav;
              decisions = spent;
              consecutive_stale = 0;
              observation = o;
              io = (observe w io).1;
            })
            (unfold observe in omega arith) (omega arith))
  ]

  -- A run whose navigator starts with at most 60 actions recorded ends: it asks for at most 120 decisions, makes at most that many actions, leaves at most
  -- 60 actions recorded, and where it pauses it can be carried on.
  pub run-total :
      (nav : Navigator) (world : W)
      → length nav.history ≤ max_actions
      → (e : End W) × (run x w config nav (record { world = world; calls = [] }) ≡ some e)
        × IsWithinBudget e
  unfolding run
  run-total nav world h =
      let (e, q, b, c) =
        drive-total (record nav { gate = some (fresh_gate x w config) }) 0
          (record { world = world; calls = [] }) (omega arith) h (omega arith) in
      (e, q, b)

  pub length-answer :
      (nav : Navigator) (token : ResumeToken) (a : Approval)
      → length nav.history < max_actions
      → length (answer x w config (install x w config nav) token a).history ≤ max_actions
  unfolding answer install Gate.new
  length-answer nav token approve h = ground arith
  length-answer nav token (deny note) h = grind (arith, length-push_last)
  length-answer nav token ready h = ground arith
  length-answer nav token (value text) h = ground arith

  -- So does a run that a person's answer carries on, where fewer than 60 actions are recorded and the
  -- token has at most 120 decisions: those count towards its budget.
  pub resume-total :
      (nav : Navigator) (token : ResumeToken) (approval : Approval) (world : W)
      → length nav.history < max_actions
      → token.decisions ≤ max_decisions
      → (e : End W) × (resume x w config nav token approval (record { world = world; calls = [] })
          ≡ some e)
        × IsWithinBudget e
  unfolding resume
  resume-total nav token a world h t =
      let (e, q, b, c) =
        drive-total (answer x w config (install x w config nav) token a) token.decisions
          (record { world = world; calls = [] }) t (length-answer nav token a h) (omega arith) in
      (e, q, b)

-- ===== src/Nav/Run/Held.antt =====
-- crates/jev-nav/src/lib.rs: what a person's answers leave of the refusals and the approvals, from
-- one run to the next.
use starkbot_neo.Common.{
  String, suc, ◌≤◌, ◌<◌, ◌≡◌, refl, ◌∙◌, inl, Option, none, some, List, [], arith,
}
use starkbot_neo.Common.Lists.{length}
use starkbot_neo.Json.{Json}
use starkbot_neo.Nav.Rules.{max_actions, max_decisions}
use starkbot_neo.Nav.Externals.{Externals}
use starkbot_neo.Nav.Decision.{Action}
use starkbot_neo.Nav.Gate.{Gate, new}
use starkbot_neo.Nav.Session.{
  World, Io, RunConfig, Navigator, ResumeToken, Approval, approve, deny, ready, value,
}
use starkbot_neo.Nav.Run.Surface.{identity_of, push_last}
use starkbot_neo.Nav.Run.Calls.{made}
use starkbot_neo.Nav.Run.Pace.{Costs}
use starkbot_neo.Nav.Run.Budget.{IsWithinBudget, drive-total, length-answer}
use starkbot_neo.Nav.Run.Safety.{Fits, Spending}
use starkbot_neo.Nav.Run.Drive.{End, fresh_gate, install, answer, run, resume}
use starkbot_neo.Nav.Run.Approval.{drive_sound, installed}

-- The refusals after an answer, and the approval at hand.
abbrev pub denied_by : List Json → ResumeToken → Approval → List Json
denied_by denied token (deny note) = elim token.pending [
  | none ↦ denied
  | some a ↦ push_last denied (identity_of a)
]
denied_by denied token approve = denied
denied_by denied token ready = denied
denied_by denied token (value text) = denied

abbrev pub given_by : Option Action → ResumeToken → Approval → Option Action
given_by held token approve = token.pending
given_by held token (deny note) = held
given_by held token ready = held
given_by held token (value text) = held

-- How a run leaves the approved uploads, the refusals and the approval that it had at hand.
abbrev pub Kept :
    Externals → RunConfig → List String → List Json → Option Action → {W : Type 0} → End W → Type 0
Kept x config uploads denied given e =
    (g : Gate) × (e.1.gate ≡ some g)
    × Fits config g
    × (e.1.denied ≡ denied)
    × Spending x config uploads denied given g.approved_uploads e.1.approved (made e.2.calls)

module _ (x : Externals) (config : RunConfig) {W : Type 0} (w : World W) where
  answer-denied :
      (nav : Navigator) (token : ResumeToken) (a : Approval)
      → (answer x w config nav token a).denied ≡ denied_by nav.denied token a
  unfolding answer
  answer-denied nav token approve = refl
  answer-denied nav token (deny note) = ground arith
  answer-denied nav token ready = refl
  answer-denied nav token (value text) = ground arith

  answer-given :
      (nav : Navigator) (token : ResumeToken) (a : Approval)
      → (answer x w config nav token a).approved ≡ given_by nav.approved token a
  unfolding answer
  answer-given nav token approve = refl
  answer-given nav token (deny note) = ground arith
  answer-given nav token ready = refl
  answer-given nav token (value text) = ground arith

  answer-gate :
      (nav : Navigator) (token : ResumeToken) (a : Approval)
      → (answer x w config nav token a).gate ≡ nav.gate
  unfolding answer
  answer-gate nav token approve = refl
  answer-gate nav token (deny note) = ground arith
  answer-gate nav token ready = refl
  answer-gate nav token (value text) = ground arith

  -- A run with no approval at hand.
  pub run-Kept :
      (nav : Navigator) (world : W)
      → nav.approved ≡ none
      → length nav.history ≤ max_actions
      → (e : End W) × (run x w config nav (record { world = world; calls = [] }) ≡ some e)
        × IsWithinBudget e
        × Costs 1 e.0
        × Kept x config [] nav.denied none e
  unfolding run new
  run-Kept nav world a h =
      let io : Io W = record { world = world; calls = [] } in
      let nav' : Navigator = record nav { gate = some (fresh_gate x w config) } in
      let (e, q, b, c) = drive-total x w config nav' 0 io (omega arith) h (omega arith) in
      let kept =
        drive_sound x config [] nav.denied none w nav' 0 io e
          (_, refl, (refl, refl, refl), refl, inl (inl a, refl, tt)) q in
      (e, q, b, c, kept)

  -- A run that an answer carries on, whatever the answer.
  pub resume-Kept :
      (nav : Navigator) (g : Gate) (token : ResumeToken) (a : Approval) (world : W)
      → nav.gate ≡ some g
      → Fits config g
      → length nav.history < max_actions
      → token.decisions ≤ max_decisions
      → (e : End W) × (resume x w config nav token a (record { world = world; calls = [] })
          ≡ some e)
        × IsWithinBudget e
        × Costs (suc token.decisions) e.0
        × Kept x config g.approved_uploads
            (denied_by nav.denied token a)
            (given_by nav.approved token a)
            e
  unfolding resume
  resume-Kept nav g token a world q f h t =
      let io : Io W = record { world = world; calls = [] } in
      let nav' = answer x w config (install x w config nav) token a in
      let same = installed x config w nav g q in
      let (e, p, b, c) =
        drive-total x w config nav' token.decisions io t (length-answer x w config nav token a h)
          (omega arith) in
      let kept =
        drive_sound x config g.approved_uploads (denied_by nav.denied token a)
          (given_by nav.approved token a) w nav' token.decisions io e
          (rw same (
            g,
            answer-gate nav token a ∙ q,
            f,
            answer-denied nav token a,
            inl (inl (answer-given nav token a), refl, tt),
          ))
          p in
      (e, p, b, c, kept)

-- ===== src/Attend/Ending.antt =====
-- crates/neo-agent/src/agent/tools.rs, `drive_with_cards`: the loop ends once nobody answers any more.
use starkbot_neo.Common.{
  ℕ, zero, suc, ◌+◌, ◌-◌, ◌≤◌, ◌<◌, String, ◌≡◌, refl, ◌∙◌, ap, subst, inl, inr, none, some, List,
  ◌∷◌, arith,
}
use starkbot_neo.Common.Tests.{leb, Bool-cases}
use starkbot_neo.Common.Lists.{length}
use starkbot_neo.Common.Result.{Result, ok, err, Result-cases}
use starkbot_neo.Json.{Json}
use starkbot_neo.Nav.Rules.{max_actions, max_decisions}
use starkbot_neo.Nav.Externals.{Externals}
use starkbot_neo.Nav.Session.{World, RunConfig, Navigator, Outcome, NavError}
use starkbot_neo.Nav.Run.Pace.{Costs}
use starkbot_neo.Nav.Run.Drive.{End}
use starkbot_neo.Cards.{Desk}
use starkbot_neo.Cards.Wait.{Wait, IsSilent}
use starkbot_neo.Attend.{reply, answered, Leg, attend, drive_with_cards}
use starkbot_neo.Attend.Round.{IsFresh, IsBlank, Reply-cases, reply-goes}
use starkbot_neo.Attend.Consent.{Standing, Paused-room, round-Standing, opening-Standing}

-- The rounds left: one for each decision left, where nobody answers any more, and all decisions may be
-- left after an answer.
abbrev Suffices : ℕ → ℕ → ℕ → ℕ → Type 0
Suffices quiet fuel s n =
    (s ≤ suc max_decisions)
    × (quiet ≤ n → suc max_decisions < fuel + s)
    × (n < quiet → suc max_decisions + (quiet - n) < fuel)

spent :
    (quiet fuel s n t : ℕ)
    → Suffices quiet (suc fuel) s n
    → t ≤ max_decisions
    → (quiet ≤ n → s ≤ t)
    → Suffices quiet fuel (suc t) (suc n)
spent quiet fuel s n t (b, p, q) h c = elim (Bool-cases (leb quiet n)) [
  | inl e ↦
      let past : quiet ≤ n = ground arith in
      let left = p past in
      let more = c past in (omega arith, λ z. omega arith, λ z. absurd (omega arith))
  | inr e ↦
      let before : n < quiet = ground arith in
      let left = q before in (omega arith, λ z. omega arith, λ z. omega arith)
]

module _ (x : Externals) (config : RunConfig) (waits : ℕ → Wait) (fresh : IsFresh waits) (quiet : ℕ)
    (silence : (k : ℕ) → quiet ≤ k → IsSilent (waits k)) {W : Type 0} (w : World W)
    (task : String) where
  attend-ends :
      (denied : List Json) (fuel s n : ℕ) (e : End W) (d : Desk) (legs : List Leg)
      → Standing x config waits denied s n e d legs
      → Suffices quiet fuel s n
      → (r : Result NavError Outcome) × ((attend x w config task waits fuel n e d legs).result
          ≡ some r)
  unfolding attend
  attend-ends denied zero s n e d legs st (b, p, q) = elim (Bool-cases (leb quiet n)) [
    | inl h ↦ let left = p (ground arith) in absurd (omega arith)
    | inr h ↦ let left = q (ground arith) in absurd (omega arith)
  ]
  attend-ends denied (suc fuel) s n e d legs st enough = elim (Result-cases e.0) [
    | inl (error, q) ↦ (err error, rw (q, attend) refl)
    | inr (o, q) ↦ elim (Reply-cases (reply task (waits n) o d).0) [
      | inl (last, p) ↦ (ok last, rw (q, p, attend) refl)
      | inr (card, token, a, p) ↦
          let (e', z, next) =
            round-Standing x config waits denied fresh w task s n e d legs o card token a st q p in
          let (paused, granted, silent) = reply-goes task waits fresh n o d card token a st.0 p in
          let (t, h) = Paused-room x config waits denied e o card token st.1 q paused in
          let cost =
            λ (z : quiet ≤ n). (subst (Costs s) (q ∙ ap ok (silent (silence n z))) st.2).0 in
          rw (q, p, z, attend)
            (attend-ends denied fuel (suc token.decisions) (suc n) e' (reply task (waits n) o d).1
              (record { said = answered n card token a; calls = e'.2.calls } ∷ legs) next
              (spent quiet fuel s n token.decisions enough t cost))
    ]
  ]

  -- For a run with no approval at hand and at most 60 recorded actions, over cards with fresh ids and a
  -- desk that is not poisoned and has nothing for them: where nobody answers any card from the n-th on,
  -- the loop returns, after at most n + 122 rounds, whatever the surface, the classifier and the earlier
  -- answers do.
  pub drive_with_cards-ends :
      (nav : Navigator) (world : W) (d : Desk)
      → IsBlank waits 0 d
      → nav.approved ≡ none
      → length nav.history ≤ max_actions
      → (r : Result NavError Outcome) × ((drive_with_cards x w config task waits
            (quiet + 122)
            nav
            world
            d).result
          ≡ some r)
  unfolding drive_with_cards
  drive_with_cards-ends nav world d blank a h =
      let (e, z, st) =
        opening-Standing x config waits nav.denied fresh w task nav world d blank a refl h in
      rw (z, drive_with_cards)
        (attend-ends nav.denied (quiet + 122) 1 0 e d _ st
          (omega arith, λ p. omega arith, λ p. omega arith))

-- ===== src/Attend/Consent.antt =====
-- crates/neo-agent/src/agent/tools.rs, `drive_with_cards`: nothing is executed past the gate without a
-- person's consent.
use starkbot_neo.Common.{
  ℕ, zero, suc, ◌≤◌, ◌<◌, String, ◌≡◌, refl, ◌∙◌, ap, subst, inl, inr, Option, none, some, List, [],
  ◌∷◌,
}
use starkbot_neo.Common.Lists.{length}
use starkbot_neo.Common.Result.{Result, ok, Result-cases}
use starkbot_neo.Json.{Json}
use starkbot_neo.Nav.Rules.{max_actions, max_decisions}
use starkbot_neo.Nav.Externals.{Externals}
use starkbot_neo.Nav.Decision.{Action}
use starkbot_neo.Nav.Gate.{Gate}
use starkbot_neo.Nav.Session.{
  World, RunConfig, Navigator, Outcome, needs_confirm, NavError, Escalation, ResumeToken, Approval,
  approve, deny, ready, value,
}
use starkbot_neo.Nav.Run.Calls.{made}
use starkbot_neo.Nav.Run.Pace.{Costs, IsResumable}
use starkbot_neo.Nav.Run.Budget.{IsWithinBudget}
use starkbot_neo.Nav.Run.Safety.{Fits, Spending}
use starkbot_neo.Nav.Run.Drive.{End, run, resume}
use starkbot_neo.Nav.Run.Held.{denied_by, given_by, run-Kept, resume-Kept}
use starkbot_neo.Cards.{Desk}
use starkbot_neo.Cards.Wait.{Wait}
use starkbot_neo.Attend.{goes_on, reply, Said, opening, answered, Leg, attend, drive_with_cards}
use starkbot_neo.Attend.Round.{
  IsFresh, IsBlank, IsGranted, Paused, Reply-cases, reply-IsBlank, reply-goes,
}

-- The refusals after the legs.
abbrev pub denials : List Json → List Leg → List Json
denials denied [] = denied
denials denied (leg ∷ older) = after leg.said (denials denied older)
  where
    after : Said → List Json → List Json
    after opening denied = denied
    after (answered n card token a) denied = denied_by denied token a

-- The approval at hand in a leg: its own, or one that was not spent before.
abbrev pub given : Said → Option Action → Option Action
given opening before = before
given (answered n card token a) before = given_by before token a

-- An approval was given to the card of its round, for the action on that card.
abbrev pub IsAsked : (ℕ → Wait) → Said → Type 0
IsAsked waits opening = Unit
IsAsked waits (answered n card token approve) = IsGranted (waits n) × (token.pending ≡ card.action)
IsAsked waits (answered n card token (deny note)) = Unit
IsAsked waits (answered n card token ready) = Unit
IsAsked waits (answered n card token (value text)) = Unit

module _ (x : Externals) (config : RunConfig) (waits : ℕ → Wait) (denied : List Json) where
  -- In each leg every action was let through by the gate and refused by no person before, but for at
  -- most one, on which an approval from a card of this leg or an earlier one is spent. `now` are the
  -- uploads that were approved by then: there are none before the first leg.
  abbrev pub IsConsented : List String → Option Action → List Leg → Type 0
  IsConsented now held [] = (now ≡ []) × (held ≡ none)
  IsConsented now held (leg ∷ older) =
      (uploads : List String) × (before : Option Action) × IsConsented uploads before older
      × Spending x config uploads (denials denied (leg ∷ older)) (given leg.said before) now held
          (made leg.calls)
      × IsAsked waits leg.said

  -- At a navigator whose gate has the settings of the run.
  abbrev pub IsLegal : Navigator → List Leg → Type 0
  IsLegal nav legs =
      (g : Gate) × (nav.gate ≡ some g)
      × Fits config g
      × IsConsented g.approved_uploads nav.approved legs

  -- What the loop keeps at its n-th card.
  abbrev pub Standing : {W : Type 0} → ℕ → ℕ → End W → Desk → List Leg → Type 0
  Standing s n e d legs =
      IsBlank waits n d
      × IsWithinBudget e
      × Costs s e.0
      × (e.1.denied ≡ denials denied legs)
      × IsLegal e.1 legs

  pub Paused-room :
      {W : Type 0} (e : End W) (o : Outcome) (card : Escalation) (token : ResumeToken)
      → IsWithinBudget e
      → e.0 ≡ ok o
      → Paused o card token
      → (token.decisions ≤ max_decisions) × (length e.1.history < max_actions)
  Paused-room e o card token b q (inl p) =
      subst (IsResumable max_decisions max_actions e.1) (q ∙ ap ok p) b.2
  Paused-room e o card token b q (inr (reason, p)) =
      subst (IsResumable max_decisions max_actions e.1) (q ∙ ap ok p) b.2

  answered-IsAsked :
      (s n : ℕ) (o : Outcome) (r : Result NavError Outcome) (card : Escalation)
      (token : ResumeToken) (a : Approval)
      → r ≡ ok o
      → Costs s r
      → (a ≡ approve → IsGranted (waits n) × (o ≡ needs_confirm card token))
      → IsAsked waits (answered n card token a)
  answered-IsAsked s n o r card token approve q c g =
      let (granted, p) = g refl in (granted, (subst (Costs s) (q ∙ ap ok p) c).1)
  answered-IsAsked s n o r card token (deny note) q c g = tt
  answered-IsAsked s n o r card token ready q c g = tt
  answered-IsAsked s n o r card token (value text) q c g = tt

  module _ (fresh : IsFresh waits) {W : Type 0} (w : World W) (task : String) where
    -- One round: the run is carried on, and all of it is kept.
    pub round-Standing :
        (s n : ℕ) (e : End W) (d : Desk) (legs : List Leg) (o : Outcome) (card : Escalation)
        (token : ResumeToken) (a : Approval)
        → Standing s n e d legs
        → e.0 ≡ ok o
        → (reply task (waits n) o d).0 ≡ goes_on card token a
        → (e' : End W) × (resume x w config e.1 token a (record { world = e.2.world; calls = [] })
            ≡ some e')
          × Standing
              (suc token.decisions)
              (suc n)
              e'
              (reply task (waits n) o d).1
              (record { said = answered n card token a; calls = e'.2.calls } ∷ legs)
    round-Standing s n e d legs o card token a (blank, b, c, r, (g, gq, gf, k)) q p =
        let (paused, granted, silent) = reply-goes task waits fresh n o d card token a blank p in
        let (t, h) = Paused-room e o card token b q paused in
        let (e', z, b', c', (g', gq', gf', r', sp)) =
          resume-Kept x config w e.1 g token a e.2.world gq gf h t in
        let same = ap (λ l. denied_by l token a) r in
        (
          e',
          z,
          (
            reply-IsBlank task waits fresh n o d blank,
            b',
            c',
            r' ∙ same,
            (
              g',
              gq',
              gf',
              (
                g.approved_uploads,
                e.1.approved,
                k,
                subst
                    (λ l.
                      Spending x config g.approved_uploads l (given_by e.1.approved token a)
                        g'.approved_uploads e'.1.approved (made e'.2.calls))
                    same sp,
                answered-IsAsked s n o e.0 card token a q c granted,
              ),
            ),
          ),
        )

    attend-IsConsented :
        (fuel s n : ℕ) (e : End W) (d : Desk) (legs : List Leg)
        → Standing s n e d legs
        → let c = attend x w config task waits fuel n e d legs in IsLegal c.nav c.legs
    unfolding attend
    attend-IsConsented zero s n e d legs st = st.4
    attend-IsConsented (suc fuel) s n e d legs st = elim (Result-cases e.0) [
      | inl (error, q) ↦ rw (q, attend) st.4
      | inr (o, q) ↦ elim (Reply-cases (reply task (waits n) o d).0) [
        | inl (last, p) ↦ rw (q, p, attend) st.4
        | inr (card, token, a, p) ↦
            let (e', z, next) = round-Standing s n e d legs o card token a st q p in
            rw (q, p, z, attend)
              (attend-IsConsented fuel (suc token.decisions) (suc n) e' (reply task (waits n) o d).1
                (record { said = answered n card token a; calls = e'.2.calls } ∷ legs) next)
      ]
    ]

    pub opening-Standing :
        (nav : Navigator) (world : W) (d : Desk)
        → IsBlank waits 0 d
        → nav.approved ≡ none
        → nav.denied ≡ denied
        → length nav.history ≤ max_actions
        → (e : End W) × (run x w config nav (record { world = world; calls = [] }) ≡ some e)
          × Standing 1 0 e d (record { said = opening; calls = e.2.calls } ∷ [])
    opening-Standing nav world d blank a q h =
        let (e, z, b, c, (g, gq, gf, r, sp)) = run-Kept x config w nav world a h in
        (
          e,
          z,
          (
            blank,
            b,
            c,
            r ∙ q,
            (
              g,
              gq,
              gf,
              (
                [],
                none,
                (refl, refl),
                subst
                    (λ l.
                      Spending x config [] l none g.approved_uploads e.1.approved (made e.2.calls))
                    q sp,
                tt,
              ),
            ),
          ),
        )

    -- For a run with no approval at hand and at most 60 recorded actions, over cards with fresh ids and
    -- a desk that is not poisoned and has nothing for them: at any number of rounds, each leg of the run
    -- executed only actions that no person had refused and that were the decision which the classifier
    -- gave on the last observation, let through by a gate with the settings of the run for that decision
    -- and on that page, but for at most one action of the leg, on which an approval was spent. The
    -- uploads that the gate takes for approved are those on which an approval was spent before. Each
    -- approval was the first answer given to its card while it waited, and for the action on that card.
    pub drive_with_cards-IsConsented :
        (fuel : ℕ) (nav : Navigator) (world : W) (d : Desk)
        → IsBlank waits 0 d
        → nav.approved ≡ none
        → nav.denied ≡ denied
        → length nav.history ≤ max_actions
        → let c = drive_with_cards x w config task waits fuel nav world d in IsLegal c.nav c.legs
    unfolding drive_with_cards
    drive_with_cards-IsConsented fuel nav world d blank a q h =
        let (e, z, st) = opening-Standing nav world d blank a q h in
        rw (z, drive_with_cards) (attend-IsConsented fuel 1 0 e d _ st)

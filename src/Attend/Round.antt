-- ===== src/Attend/Round.antt =====
-- crates/neo-agent/src/agent/tools.rs, `drive_with_cards`: one card and its answer.
use starkbot_neo.Common.{
  ℕ, suc, ◌≤◌, ◌<◌, String, ◌≡◌, ◌≢◌, refl, ◌∙◌, Bool, true, false, Option, none, some, ◌⊎◌, inl,
  inr, arith,
}
use starkbot_neo.Common.Lists.{All}
use starkbot_neo.Common.Map.{lookup, string_ord}
use starkbot_neo.Common.Result.{Result, ok, err}
use starkbot_neo.Nav.Gate.{NeedsUser}
use starkbot_neo.Nav.Session.{
  Outcome, done, needs_confirm, needs_user, blocked, Escalation, ResumeToken, Approval, approve,
}
use starkbot_neo.Nav.Run.Surface.{user_sentence}
use starkbot_neo.Cards.{GateOutcome, confirmed, denied, timed_out, cancelled, RuntimeError, Desk}
use starkbot_neo.Cards.Apart.{IsApart, IsElsewhere}
use starkbot_neo.Cards.Answers.{first_answer}
use starkbot_neo.Cards.Wait.{
  Wait, IsSilent, confirm_card-Same, ask_user-Same, confirm_card-poisoned, ask_user-poisoned,
  confirm_card-confirmed, ask_user-silent,
}
use starkbot_neo.Attend.{Reply, ends, goes_on, is_typed, judged, heard, reply}

-- The ids of the cards are fresh: no card has the id of an earlier one, and while a card waits no call
-- is made for the id of a later one, nor does another run open or close it.
abbrev pub IsFresh : (ℕ → Wait) → Type 0
IsFresh waits =
    ((j k : ℕ)
      → j < k
      → ((waits j).id ≢ (waits k).id) × All (IsElsewhere (waits k).id) (waits j).meanwhile)
    × ((k : ℕ) → All (IsApart (waits k).id) (waits k).meanwhile)

-- The broker's lock is not poisoned, and nothing was sent to the cards from the n-th on.
abbrev pub IsBlank : (ℕ → Wait) → ℕ → Desk → Type 0
IsBlank waits n d =
    (d.poisoned ≡ false)
    × ((k : ℕ)
        → n ≤ k
        → (lookup (waits k).id d.confirms ≡ none) × (lookup (waits k).id d.answers ≡ none))

pub Reply-cases :
    (r : Reply)
    → ((o : Outcome) × (r ≡ ends o))
      ⊎ ((card : Escalation) × (token : ResumeToken) × (a : Approval) × (r ≡ goes_on card token a))
Reply-cases (ends o) = inl (o, refl)
Reply-cases (goes_on card token a) = inr (card, token, a, refl)

judged-goes :
    (c : Escalation) (t : ResumeToken) (r : Result RuntimeError GateOutcome) (card : Escalation)
    (token : ResumeToken) (a : Approval)
    → judged c t r ≡ goes_on card token a
    → (c ≡ card) × (t ≡ token) × (a ≡ approve → r ≡ ok confirmed)
judged-goes c t (ok confirmed) card token a q = (ground arith, ground arith, λ e. refl)
judged-goes c t (ok denied) card token a q =
    (ground arith, ground arith, λ e. absurd (ground arith))
judged-goes c t (ok timed_out) card token a q =
    (ground arith, ground arith, λ e. absurd (ground arith))
judged-goes c t (ok cancelled) card token a q =
    (ground arith, ground arith, λ e. absurd (ground arith))
judged-goes c t (err e) card token a q = absurd (ground arith)

heard-goes :
    (typed : Bool) (c : Escalation) (t : ResumeToken) (r : Result RuntimeError (Option String))
    (card : Escalation) (token : ResumeToken) (a : Approval)
    → heard typed c t r ≡ goes_on card token a
    → (c ≡ card) × (t ≡ token) × (a ≢ approve) × (r ≢ ok none)
heard-goes true c t (ok (some answer)) card token a q =
    (ground arith, ground arith, λ e. absurd (ground arith), λ e. absurd (ground arith))
heard-goes false c t (ok (some answer)) card token a q =
    (ground arith, ground arith, λ e. absurd (ground arith), λ e. absurd (ground arith))
heard-goes typed c t (ok none) card token a q = absurd (ground arith)
heard-goes typed c t (err e) card token a q = absurd (ground arith)

-- The run stopped for the card that was shown, and its token is the one that is handed back.
abbrev pub Paused : Outcome → Escalation → ResumeToken → Type 0
Paused o card token =
    (o ≡ needs_confirm card token) ⊎ ((reason : NeedsUser) × (o ≡ needs_user reason card token))

-- An approval is the first answer that was given to a confirm card.
abbrev pub IsGranted : Wait → Type 0
IsGranted w = (w.skipped ≡ false) × (first_answer w.id w.meanwhile ≡ confirmed)

module _ (task : String) (waits : ℕ → Wait) (fresh : IsFresh waits) (n : ℕ) where
  pub reply-IsBlank :
      (o : Outcome) (d : Desk)
      → IsBlank waits n d
      → IsBlank waits (suc n) (reply task (waits n) o d).1
  unfolding reply
  reply-IsBlank done d b = (b.0, λ k h. b.1 k (omega arith))
  reply-IsBlank (blocked reason) d b = (b.0, λ k h. b.1 k (omega arith))
  reply-IsBlank (needs_confirm card token) d b = (
    confirm_card-poisoned (waits n) task _ _ _ d ∙ b.0,
    λ k h.
        let (elsewhere, away) = fresh.0 n k (omega arith) in
        let (c, a) = b.1 k (omega arith) in
        let same =
          confirm_card-Same (waits k).id (waits n) task _ card.sentence _ d elsewhere away in
        (same.1 ∙ c, same.2 ∙ a),
  )
  reply-IsBlank (needs_user reason card token) d b = (
    ask_user-poisoned (waits n) task _ _ d ∙ b.0,
    λ k h.
        let (elsewhere, away) = fresh.0 n k (omega arith) in
        let (c, a) = b.1 k (omega arith) in
        let same =
          ask_user-Same (waits k).id (waits n) task (user_sentence reason) _ d elsewhere away in
        (same.1 ∙ c, same.2 ∙ a),
  )

  pub reply-goes :
      (o : Outcome) (d : Desk) (card : Escalation) (token : ResumeToken) (a : Approval)
      → IsBlank waits n d
      → (reply task (waits n) o d).0 ≡ goes_on card token a
      → Paused o card token
        × (a ≡ approve → IsGranted (waits n) × (o ≡ needs_confirm card token))
        × (IsSilent (waits n) → o ≡ needs_confirm card token)
  unfolding reply
  reply-goes done d card token a b q = absurd (ground arith)
  reply-goes (blocked reason) d card token a b q = absurd (ground arith)
  reply-goes (needs_confirm c t) d card token a b q =
      let (ec, et, granted) = judged-goes c t _ card token a q in
      let same : needs_confirm c t ≡ needs_confirm card token = cc in
      (
        inl same,
        λ e. (
          confirm_card-confirmed (waits n) task _ c.sentence _ d b.0 (b.1 n (omega arith)).0
              (fresh.1 n) (granted e),
          same,
        ),
        λ s. same,
      )
  reply-goes (needs_user reason c t) d card token a b q =
      let (ec, et, other, some_answer) = heard-goes (is_typed reason) c t _ card token a q in
      let same : needs_user reason c t ≡ needs_user reason card token = cc in
      (
        inr (reason, same),
        λ e. absurd (other e),
        λ s. absurd (some_answer (ask_user-silent (waits n) task _ _ d (b.1 n (omega arith)).1 s)),
      )

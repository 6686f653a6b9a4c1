-- ===== src/Cards/Wait.antt =====
-- crates/neo-agent/src/confirm.rs: the two calls that wait, from their start to their end, with what
-- the other runs and the front ends do at the desk in the meantime.
use starkbot_neo.Common.{
  ℕ, String, ◌≡◌, ◌≢◌, refl, ◌∙◌, Bool, false, Option, none, List, [], ◌∷◌, arith, ◌⊎◌, inl, inr,
}
use starkbot_neo.Common.Tests.{Bool-cases, Option-cases}
use starkbot_neo.Common.Lists.{All}
use starkbot_neo.Common.Map.{lookup, string_ord}
use starkbot_neo.Common.Result.{Result, ok}
use starkbot_neo.Cards.{
  GateOutcome, confirmed, RuntimeError, Desk, Opened, returns, waits, open_confirm, close_confirm,
  open_ask, close_ask, resolve_confirm, send_ask, park, take,
}
use starkbot_neo.Cards.Apart.{
  Op, opens_confirm, closes_confirm, opens_ask, closes_ask, resolves, sends, perform, perform_all,
  IsApart, IsElsewhere, Same, perform-Same,
}
use starkbot_neo.Cards.Answers.{first_answer, confirm-first_answer}

-- What is chosen for one call: whether `skipped_gate` ends it, its fresh id, what `now_ms` reads, and
-- what happens while it waits.
pub record Wait : Type 0 where
  pub skipped : Bool
  pub id : String
  pub now : Option ℕ
  pub meanwhile : List Op

unfoldable pub confirm_card :
    Wait → String → String → String → Option String → Desk → Result RuntimeError GateOutcome × Desk
confirm_card w task cause sentence context d =
    let r = open_confirm w.skipped w.now w.id task cause sentence context d in
    elim r.0 [
      | returns o ↦ (o, r.1)
      | waits ↦ let c = close_confirm w.id (perform_all w.meanwhile r.1) in (ok c.0, c.1)
    ]

unfoldable pub ask_user :
    Wait → String → String → List String → Desk → Result RuntimeError (Option String) × Desk
ask_user w task question options d =
    let r = open_ask w.skipped w.id task question options d in
    elim r.0 [
      | returns o ↦ (o, r.1)
      | waits ↦ let c = close_ask w.id (perform_all w.meanwhile r.1) in (ok c.0, c.1)
    ]

-- Nobody at all answers the call.
abbrev pub IsSilent : Wait → Type 0
IsSilent w = All (IsElsewhere w.id) w.meanwhile

Same-refl : (id : String) (d : Desk) → Same id d d
Same-refl id d = (refl, refl, refl, refl)

Same-trans : (id : String) (a b c : Desk) → Same id a b → Same id b c → Same id a c
Same-trans id a b c p q = (q.0 ∙ p.0, q.1 ∙ p.1, q.2 ∙ p.2, q.3 ∙ p.3)

perform_all-Same :
    (id : String) (ops : List Op) (d : Desk)
    → All (IsElsewhere id) ops
    → Same id d (perform_all ops d)
perform_all-Same id [] d n = Same-refl id d
perform_all-Same id (op ∷ ops) d n =
    Same-trans id d (perform op d) (perform_all ops (perform op d)) (perform-Same id op d n.0)
      (perform_all-Same id ops (perform op d) n.1)

Opened-cases :
    {A : Type 0} (o : Opened A) → ((r : Result RuntimeError A) × (o ≡ returns r)) ⊎ (o ≡ waits)
Opened-cases (returns r) = inl (r, refl)
Opened-cases waits = inr refl

-- A whole call changes nothing of a card that neither it nor the others in the meantime touch.
pub confirm_card-Same :
    (id : String) (w : Wait) (task cause sentence : String) (context : Option String) (d : Desk)
    → w.id ≢ id
    → All (IsElsewhere id) w.meanwhile
    → Same id d (confirm_card w task cause sentence context d).1
unfolding confirm_card
confirm_card-Same id w task cause sentence context d n m =
    let r = open_confirm w.skipped w.now w.id task cause sentence context d in
    let opened =
      perform-Same id (opens_confirm w.skipped w.now w.id task cause sentence context) d n in
    elim (Opened-cases r.0) [
      | inl (o, e) ↦ rw (e, confirm_card) opened
      | inr e ↦
          let after = perform_all w.meanwhile r.1 in
          rw (e, confirm_card)
            (Same-trans id d r.1 (close_confirm w.id after).1 opened (
              Same-trans id r.1 after (close_confirm w.id after).1
                (perform_all-Same id w.meanwhile r.1 m)
                (perform-Same id (closes_confirm w.id) after n)))
    ]

pub ask_user-Same :
    (id : String) (w : Wait) (task question : String) (options : List String) (d : Desk)
    → w.id ≢ id
    → All (IsElsewhere id) w.meanwhile
    → Same id d (ask_user w task question options d).1
unfolding ask_user
ask_user-Same id w task question options d n m =
    let r = open_ask w.skipped w.id task question options d in
    let opened = perform-Same id (opens_ask w.skipped w.id task question options) d n in
    elim (Opened-cases r.0) [
      | inl (o, e) ↦ rw (e, ask_user) opened
      | inr e ↦
          let after = perform_all w.meanwhile r.1 in
          rw (e, ask_user)
            (Same-trans id d r.1 (close_ask w.id after).1 opened (
              Same-trans id r.1 after (close_ask w.id after).1
                (perform_all-Same id w.meanwhile r.1 m)
                (perform-Same id (closes_ask w.id) after n)))
    ]

-- The broker's lock is poisoned by none of this.
perform-poisoned : (op : Op) (d : Desk) → (perform op d).poisoned ≡ d.poisoned
unfolding open_confirm close_confirm open_ask close_ask resolve_confirm send_ask park take
perform-poisoned (opens_confirm s t j k c m x) d = ground arith
perform-poisoned (closes_confirm j) d = ground arith
perform-poisoned (opens_ask s j k q m) d = ground arith
perform-poisoned (closes_ask j) d = ground arith
perform-poisoned (resolves j r) d = ground arith
perform-poisoned (sends j r) d = ground arith

perform_all-poisoned : (ops : List Op) (d : Desk) → (perform_all ops d).poisoned ≡ d.poisoned
perform_all-poisoned [] d = refl
perform_all-poisoned (op ∷ ops) d = perform_all-poisoned ops (perform op d) ∙ perform-poisoned op d

pub confirm_card-poisoned :
    (w : Wait) (task cause sentence : String) (context : Option String) (d : Desk)
    → (confirm_card w task cause sentence context d).1.poisoned ≡ d.poisoned
unfolding confirm_card
confirm_card-poisoned w task cause sentence context d =
    let op = opens_confirm w.skipped w.now w.id task cause sentence context in
    let r = open_confirm w.skipped w.now w.id task cause sentence context d in
    elim (Opened-cases r.0) [
      | inl (o, e) ↦ rw (e, confirm_card) (perform-poisoned op d)
      | inr e ↦
          let after = perform_all w.meanwhile r.1 in
          rw (e, confirm_card)
            (perform-poisoned (closes_confirm w.id) after
              ∙ (perform_all-poisoned w.meanwhile r.1 ∙ perform-poisoned op d))
    ]

pub ask_user-poisoned :
    (w : Wait) (task question : String) (options : List String) (d : Desk)
    → (ask_user w task question options d).1.poisoned ≡ d.poisoned
unfolding ask_user
ask_user-poisoned w task question options d =
    let op = opens_ask w.skipped w.id task question options in
    let r = open_ask w.skipped w.id task question options d in
    elim (Opened-cases r.0) [
      | inl (o, e) ↦ rw (e, ask_user) (perform-poisoned op d)
      | inr e ↦
          let after = perform_all w.meanwhile r.1 in
          rw (e, ask_user)
            (perform-poisoned (closes_ask w.id) after
              ∙ (perform_all-poisoned w.meanwhile r.1 ∙ perform-poisoned op d))
    ]

-- A confirm is granted only where the first answer that was given to its card grants it.
pub confirm_card-confirmed :
    (w : Wait) (task cause sentence : String) (context : Option String) (d : Desk)
    → d.poisoned ≡ false
    → lookup w.id d.confirms ≡ none
    → All (IsApart w.id) w.meanwhile
    → (confirm_card w task cause sentence context d).0 ≡ ok confirmed
    → (w.skipped ≡ false) × (first_answer w.id w.meanwhile ≡ confirmed)
unfolding confirm_card
confirm_card-confirmed w task cause sentence context d h c n q = elim (Bool-cases w.skipped) [
  | inl s ↦ absurd (unfold open_confirm in ground arith)
  | inr s ↦ elim (Option-cases w.now) [
    | inl t ↦ absurd (unfold open_confirm in ground arith)
    | inr (now, t) ↦
        let (opened, outcome) =
          confirm-first_answer now w.id task cause sentence context w.meanwhile d h c n in
        (s, ground (arith, opened, outcome))
  ]
]

-- Nobody answers a question: the call says so.
pub ask_user-silent :
    (w : Wait) (task question : String) (options : List String) (d : Desk)
    → lookup w.id d.answers ≡ none
    → IsSilent w
    → (ask_user w task question options d).0 ≡ ok none
unfolding ask_user
ask_user-silent w task question options d c n = elim (Bool-cases w.skipped) [
  | inl s ↦ unfold open_ask in ground arith
  | inr s ↦
      let opened = (open_ask false w.id task question options d).1 in
      let same = perform_all-Same w.id w.meanwhile opened n in
      unfold open_ask in unfold close_ask in unfold park in ground (arith, same)
]

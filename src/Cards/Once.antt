-- ===== src/Cards/Once.antt =====
-- crates/neo-agent/src/confirm.rs: a card is answered once.
use starkbot_neo.Common.{
  String, ◌≡◌, refl, inl, inr, ap, Bool, true, false, Option, none, some, List, [], ◌∷◌, arith, ◌∙◌,
}
use starkbot_neo.Common.Tests.{if◌then◌else◌, Bool-cases}
use starkbot_neo.Common.Map.{lookup, put, remove, string_ord, lookup-put_self, lookup-remove_self}
use starkbot_neo.Common.Result.{Result, ok, err}
use starkbot_neo.Cards.{
  GateOutcome, Waiting, confirm, ask, RuntimeError, no_such_card, Desk, park, take, resolve_confirm,
  send_ask,
}

-- What a front end may answer to a card: an outcome, or a text, or that there is none.
pub data Given : Type 0 where
  outcome : GateOutcome → Given
  reply : Option String → Given

abbrev pub fits : Waiting → Given → Bool
fits confirm (outcome o) = true
fits confirm (reply a) = false
fits ask (outcome o) = false
fits ask (reply a) = true

abbrev pub give : String → Given → Desk → Result RuntimeError (Unit {0}) × Desk
give id (outcome o) d = resolve_confirm id o d
give id (reply a) d = send_ask id a d

-- One answer after the other, with what each is told.
abbrev pub give_all : String → List Given → Desk → List (Result RuntimeError (Unit {0})) × Desk
give_all id [] d = ([], d)
give_all id (g ∷ gs) d =
    let rest = give_all id gs (give id g d).1 in ((give id g d).0 ∷ rest.0, rest.1)

-- Only the first answer that fits the card is taken.
abbrev pub refused : String → List Given → List (Result RuntimeError (Unit {0}))
refused id [] = []
refused id (g ∷ gs) = err (no_such_card id) ∷ refused id gs

abbrev pub told : String → Waiting → List Given → List (Result RuntimeError (Unit {0}))
told id w [] = []
told id w (g ∷ gs) =
    let rest = told id w gs in
    if fits w g then ok tt ∷ refused id gs else err (no_such_card id) ∷ rest

abbrev pub taken : Waiting → List Given → Option Given
taken w [] = none
taken w (g ∷ gs) = let rest = taken w gs in if fits w g then some g else rest

-- What is sent to the run that waits.
abbrev pub IsSent : String → Given → Desk → Desk → Type 0
IsSent id (outcome o) d d' = (d'.confirms ≡ put id o d.confirms) × (d'.answers ≡ d.answers)
IsSent id (reply a) d d' = (d'.confirms ≡ d.confirms) × (d'.answers ≡ put id a d.answers)

-- The card that was not answered still waits and nothing was sent; the one that was does not, and the
-- answer that was taken is all that was sent.
abbrev pub Leaves : String → Waiting → Option Given → Desk → Desk → Type 0
Leaves id w none d d' =
    (lookup id d'.waiting ≡ some w) × (d'.confirms ≡ d.confirms) × (d'.answers ≡ d.answers)
Leaves id w (some g) d d' = (lookup id d'.waiting ≡ none) × IsSent id g d d'

module _ (id : String) where
  gone-give :
      (g : Given) (d : Desk)
      → d.poisoned ≡ false
      → lookup id d.waiting ≡ none
      → let r = give id g d in
        (r.0 ≡ err (no_such_card id))
        × (r.1.poisoned ≡ false)
        × (lookup id r.1.waiting ≡ none)
        × (r.1.confirms ≡ d.confirms)
        × (r.1.answers ≡ d.answers)
  unfolding resolve_confirm send_ask take
  gone-give (outcome o) d h w = ground (arith, lookup-remove_self id d.waiting)
  gone-give (reply a) d h w = ground (arith, lookup-remove_self id d.waiting)

  gone-give_all :
      (gs : List Given) (d : Desk)
      → d.poisoned ≡ false
      → lookup id d.waiting ≡ none
      → let r = give_all id gs d in
        (r.0 ≡ refused id gs)
        × (lookup id r.1.waiting ≡ none)
        × (r.1.confirms ≡ d.confirms)
        × (r.1.answers ≡ d.answers)
  gone-give_all [] d h w = (refl, w, refl, refl)
  gone-give_all (g ∷ gs) d h w =
      let (e, p, v, c, a) = gone-give g d h w in
      let (es, vs, cs, bs) = gone-give_all gs (give id g d).1 p v in
      (λ i. e i ∷ es i, vs, cs ∙ c, bs ∙ a)

  -- An answer of the other kind leaves the card where it was.
  wrong-give :
      (w : Waiting) (g : Given) (d : Desk)
      → d.poisoned ≡ false
      → lookup id d.waiting ≡ some w
      → fits w g ≡ false
      → let r = give id g d in
        (r.0 ≡ err (no_such_card id))
        × (r.1.poisoned ≡ false)
        × (lookup id r.1.waiting ≡ some w)
        × (r.1.confirms ≡ d.confirms)
        × (r.1.answers ≡ d.answers)
  unfolding resolve_confirm send_ask take park
  wrong-give confirm (outcome o) d h w f = cc
  wrong-give confirm (reply a) d h w f =
      ground (arith, lookup-put_self id confirm (remove id d.waiting))
  wrong-give ask (outcome o) d h w f = ground (arith, lookup-put_self id ask (remove id d.waiting))
  wrong-give ask (reply a) d h w f = cc

  right-give :
      (w : Waiting) (g : Given) (d : Desk)
      → d.poisoned ≡ false
      → lookup id d.waiting ≡ some w
      → fits w g ≡ true
      → let r = give id g d in
        (r.0 ≡ ok tt) × (r.1.poisoned ≡ false) × (lookup id r.1.waiting ≡ none) × IsSent id g d r.1
  unfolding resolve_confirm send_ask take park
  right-give confirm (outcome o) d h w f = ground (arith, lookup-remove_self id d.waiting)
  right-give confirm (reply a) d h w f = cc
  right-give ask (outcome o) d h w f = cc
  right-give ask (reply a) d h w f = ground (arith, lookup-remove_self id d.waiting)

  Leaves-after :
      (w : Waiting) (o : Option Given) (d d' d'' : Desk)
      → d'.confirms ≡ d.confirms
      → d'.answers ≡ d.answers
      → Leaves id w o d' d''
      → Leaves id w o d d''
  Leaves-after w none d d' d'' c a (l, m, n) = (l, m ∙ c, n ∙ a)
  Leaves-after w (some (outcome o)) d d' d'' c a (l, (m, n)) = (l, (m ∙ ap (put id o) c, n ∙ a))
  Leaves-after w (some (reply t)) d d' d'' c a (l, (m, n)) = (l, (m ∙ c, n ∙ ap (put id t) a))

  IsSent-after :
      (g : Given) (d d' d'' : Desk)
      → d''.confirms ≡ d'.confirms
      → d''.answers ≡ d'.answers
      → IsSent id g d d'
      → IsSent id g d d''
  IsSent-after (outcome o) d d' d'' c a (m, n) = (c ∙ m, a ∙ n)
  IsSent-after (reply t) d d' d'' c a (m, n) = (c ∙ m, a ∙ n)

  -- A card of either kind that waits is answered once, whatever answers come one after the other: those
  -- of the other kind are told that there is no such card and leave it waiting; the first that fits is
  -- accepted, takes the card away, and is all that is sent; and each later one, of either kind, is told
  -- that there is no such card.
  pub give_all-once :
      (w : Waiting) (gs : List Given) (d : Desk)
      → d.poisoned ≡ false
      → lookup id d.waiting ≡ some w
      → let r = give_all id gs d in (r.0 ≡ told id w gs) × Leaves id w (taken w gs) d r.1
  give_all-once w [] d h p = (refl, (p, refl, refl))
  give_all-once w (g ∷ gs) d h p = elim (Bool-cases (fits w g)) [
    | inl f ↦
        let (e, q, v, s) = right-give w g d h p f in
        let (es, vs, cs, bs) = gone-give_all gs (give id g d).1 q v in
        rw f (
          λ i. e i ∷ es i,
          (vs, IsSent-after g d (give id g d).1 (give_all id gs (give id g d).1).1 cs bs s),
        )
    | inr f ↦
        let (e, q, v, c, a) = wrong-give w g d h p f in
        let (es, l) = give_all-once w gs (give id g d).1 q v in
        rw f (
          λ i. e i ∷ es i,
          Leaves-after w (taken w gs) d (give id g d).1 (give_all id gs (give id g d).1).1 c a l,
        )
  ]

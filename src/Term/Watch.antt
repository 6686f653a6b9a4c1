-- ===== src/Term/Watch.antt =====
-- crates/neo-tui/src/state.rs: what the clock and the events leave of a card that is watched.
use starkbot_neo.Common.{
  ℕ, ◌+◌, ◌-◌, ◌≤◌, ◌≡◌, ◌≢◌, refl, sym, ap, ◌∙◌, subst, ◌⊎◌, inl, inr, true, false, not, ◌||◌,
  none, some, List, ◌∷◌, arith,
}
use starkbot_neo.Common.Tests.{ltb, Bool-cases, Option-cases}
use starkbot_neo.Common.Lists.{All}
use starkbot_neo.Term.Card.{Card, State, arm, tick, card_arm_ms}
use starkbot_neo.Term.Arming.{Op, ticks, paints, perform, after, gate, on_screen, Watched, watched}
use starkbot_neo.Term.Handling.{IsUnseen, IsSame, same, IsStep, some_inj}

-- A card is armed only where it was watched long enough.
abbrev pub IsHonest : List Op → Card → Type 0
IsHonest history c =
    (c.rendered ≡ false → c.armed ≡ false)
    × (c.rendered ≡ true
        → (t : ℕ) × (c.shown_ms ≡ some t)
          × Watched (gate c) history t
          × (c.armed ≡ true → t + card_arm_ms ≤ (after history).now_ms))

abbrev pub IsSound : List Op → Type 0
IsSound history =
    ((c : Card) → (after history).card ≡ some c → IsHonest history c)
    × All IsUnseen (after history).queued_cards

pub unseen-IsHonest : (history : List Op) (c : Card) → IsUnseen c → IsHonest history c
unseen-IsHonest history c (r, a) = (λ _. a, λ h. absurd (ground arith))

pub on_screen-some : (s : State) (c : Card) → s.card ≡ some c → on_screen s ≡ some (gate c)
on_screen-some s c h = rw h refl

-- The same card after a step, where the clock did not go back.
pub kept-IsHonest :
    (op : Op) (past : List Op) (c c' : Card)
    → op ≢ paints false
    → (after (op ∷ past)).card ≡ some c'
    → IsSame c c'
    → (after past).now_ms ≤ (after (op ∷ past)).now_ms
    → IsHonest past c
    → IsHonest (op ∷ past) c'
kept-IsHonest op past c c' n e (g, r, s, a) l (un, seen) = (
  λ h. a ∙ un (sym r ∙ h),
  λ h.
      let (t, shown, w, long) = seen (sym r ∙ h) in
      (
        t,
        s ∙ shown,
        watched n (on_screen-some (after (op ∷ past)) c' e)
            (subst (λ x. Watched x past t) (sym g) w),
        λ q. omega (arith, l, long (sym a ∙ q)),
      ),
)

pub IsStep-IsSound :
    (op : Op) (past : List Op)
    → op ≢ paints false
    → IsStep (after past) (after (op ∷ past))
    → IsSound past
    → IsSound (op ∷ past)
IsStep-IsSound op past n (now, card, queue) (honest, unseen) = (
  λ c' e. elim (card c' e) [
    | inl u ↦ unseen-IsHonest (op ∷ past) c' u
    | inr (c, q, s) ↦ kept-IsHonest op past c c' n e s (omega (arith, now)) (honest c q)
  ],
  queue unseen,
)

-- `arm` leaves the card, or arms one that has been shown long enough.
arm-cases :
    (now : ℕ) (c : Card)
    → (arm now c ≡ c)
      ⊎ ((t : ℕ) × (c.shown_ms ≡ some t)
          × (c.rendered ≡ true)
          × (t + card_arm_ms ≤ now)
          × (arm now c ≡ record c { armed = true }))
unfolding arm
arm-cases now c = elim (Bool-cases (c.armed || not c.rendered)) [
  | inl e ↦ inl (rw (e, arm) refl)
  | inr e ↦ elim (Option-cases c.shown_ms) [
    | inl n ↦ inl (ground arith)
    | inr (t, n) ↦ elim (Bool-cases (ltb (now - t) card_arm_ms)) [
      | inl l ↦ inl (ground arith)
      | inr l ↦ inr (t, n, ground arith, ground arith, ground arith)
    ]
  ]
]

-- A card that was armed now.
armed-IsHonest :
    (now t : ℕ) (past : List Op) (c : Card)
    → (after past).card ≡ some c
    → (after (ticks now ∷ past)).card ≡ some (record c { armed = true })
    → (after (ticks now ∷ past)).now_ms ≡ now
    → c.shown_ms ≡ some t
    → c.rendered ≡ true
    → t + card_arm_ms ≤ now
    → IsHonest past c
    → IsHonest (ticks now ∷ past) (record c { armed = true })
unfolding gate
armed-IsHonest now t past c e f clock s r l (un, seen) = (
  λ h. absurd (ground arith),
  λ h.
      let (t', shown, w, long) = seen r in
      let same : t' ≡ t = ground arith in
      (
        t',
        shown,
        watched (λ q. cc) (on_screen-some (after (ticks now ∷ past)) (record c { armed = true }) f)
            w,
        λ q. omega (arith, clock, l, same),
      ),
)

tick-card :
    (now : ℕ) (s : State) (c : Card) → s.card ≡ some c → (tick now s).card ≡ some (arm now c)
unfolding tick
tick-card now s c e = rw e refl

tick-none : (now : ℕ) (s : State) → s.card ≡ none → (tick now s).card ≡ none
unfolding tick
tick-none now s e = rw e refl

tick-rest :
    (now : ℕ) (s : State)
    → ((tick now s).now_ms ≡ now) × ((tick now s).queued_cards ≡ s.queued_cards)
unfolding tick
tick-rest now s = ground arith

pub tick-IsSound :
    (now : ℕ) (past : List Op)
    → (after past).now_ms ≤ now
    → IsSound past
    → IsSound (ticks now ∷ past)
unfolding perform
tick-IsSound now past l (honest, unseen) =
    let (clock, queue) = tick-rest now (after past) in
    (
      λ c' e. elim (Option-cases (after past).card) [
        | inl n ↦ absurd (ground (arith, tick-none now (after past) n))
        | inr (c, n) ↦
            let card = tick-card now (after past) c n in
            let q : arm now c ≡ c' = some_inj (arm now c) c' (sym card ∙ e) in
            elim (arm-cases now c) [
              | inl s ↦
                  kept-IsHonest (ticks now) past c c' (λ p. cc) e
                    (subst (IsSame c) (sym s ∙ q) (same c)) (omega (arith, l, clock)) (honest c n)
              | inr (t, shown, r, long, a) ↦ subst (IsHonest (ticks now ∷ past)) (sym a ∙ q) (
                  armed-IsHonest now t past c n (card ∙ ap (λ x. some x) a) clock shown r long
                    (honest c n))
            ]
      ],
      subst (All IsUnseen) (sym queue) unseen,
    )

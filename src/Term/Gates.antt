-- ===== src/Term/Gates.antt =====
-- crates/neo-tui/src/state.rs: a key resolves a gate only after the gate was on the screen long enough.
use starkbot_neo.Common.{
  ℕ, ◌+◌, ◌-◌, ◌≤◌, ◌≡◌, refl, sym, ap, ◌∙◌, subst, ◌⊎◌, inl, inr, Bool, true, false, Option, none,
  some, List, [], ◌∷◌, arith,
}
use starkbot_neo.Common.Tests.{Bool-cases, Option-cases}
use starkbot_neo.Common.Lists.{All}
use starkbot_neo.Term.Card.{
  Card, Command, State, of_confirm, of_ask, live, is_confirm, is_ask, select, paint, painted,
  answer_highlighted, resolve_card, answer_option, card_arm_ms,
}
use starkbot_neo.Term.Arming.{
  Op, ticks, paints, asks_confirm, asks, settles_confirm, settles_ask, resolves, picks, moves,
  perform, after, IsRising, gate, on_screen, Watched, sighted, addressed,
}
use starkbot_neo.Term.Handling.{
  IsUnseen, IsSame, select-IsSame, same, raise_card-IsStep, clear_card-IsStep, resolve_card-same,
  same-IsStep, answer_option-IsStep, move_option-IsStep, some_inj,
}
use starkbot_neo.Term.Watch.{
  IsHonest, IsSound, unseen-IsHonest, on_screen-some, kept-IsHonest, IsStep-IsSound, tick-IsSound,
}

painted-card :
    (b : Bool) (s : State) (c : Card)
    → s.card ≡ some c
    → (painted b s).card ≡ some (paint b s.now_ms c).1
unfolding painted
painted-card b s c e = rw e refl

painted-none : (b : Bool) (s : State) → s.card ≡ none → (painted b s).card ≡ none
unfolding painted
painted-none b s e = rw e refl

painted-rest :
    (b : Bool) (s : State)
    → ((painted b s).now_ms ≡ s.now_ms) × ((painted b s).queued_cards ≡ s.queued_cards)
unfolding painted
painted-rest b s = ground arith

-- A card that a frame lost, or did not show.
paint-IsUnseen :
    (now : ℕ) (c : Card) → (c.rendered ≡ false → c.armed ≡ false) → IsUnseen (paint false now c).1
unfolding paint
paint-IsUnseen now c un = ground (arith, un)

-- A frame with the sentence: the first one, or one more.
paint-cases :
    (now : ℕ) (c : Card)
    → ((c.rendered ≡ true) × ((paint true now c).1 ≡ c))
      ⊎ ((c.rendered ≡ false)
          × ((paint true now c).1 ≡ record c { rendered = true; shown_ms = some now }))
unfolding paint
paint-cases now c = elim (Bool-cases c.rendered) [
  | inl e ↦ inl (e, ground arith)
  | inr e ↦ inr (e, ground arith)
]

first-IsHonest :
    (past : List Op) (c : Card)
    → (after past).card ≡ some c
    → c.armed ≡ false
    → IsHonest
        (paints true ∷ past)
        (record c { rendered = true; shown_ms = some (after past).now_ms })
unfolding gate
first-IsHonest past c e a = (
  λ h. a,
  λ h. (
    (after past).now_ms,
    refl,
    sighted (on_screen-some (after past) c e),
    λ q. absurd (ground arith),
  ),
)

paint-IsSound : (b : Bool) (past : List Op) → IsSound past → IsSound (paints b ∷ past)
unfolding perform
paint-IsSound b past (honest, unseen) =
    let (clock, queue) = painted-rest b (after past) in
    (
      λ c' e. elim (Option-cases (after past).card) [
        | inl n ↦ absurd (ground (arith, painted-none b (after past) n))
        | inr (c, n) ↦
            let q = some_inj _ c' (sym (painted-card b (after past) c n) ∙ e) in
            shown b c c' n q e (omega (arith, clock))
      ],
      subst (All IsUnseen) (sym queue) unseen,
    )
  where
    shown :
        (b : Bool) (c c' : Card)
        → (after past).card ≡ some c
        → (paint b (after past).now_ms c).1 ≡ c'
        → (after (paints b ∷ past)).card ≡ some c'
        → (after past).now_ms ≤ (after (paints b ∷ past)).now_ms
        → IsHonest (paints b ∷ past) c'
    shown false c c' n q e l = subst (IsHonest (paints false ∷ past)) q (
        unseen-IsHonest (paints false ∷ past) _
          (paint-IsUnseen (after past).now_ms c (honest c n).0))
    shown true c c' n q e l = elim (paint-cases (after past).now_ms c) [
      | inl (r, s) ↦
          kept-IsHonest (paints true) past c c' (λ p. cc) e (subst (IsSame c) (sym s ∙ q) (same c))
            l (honest c n)
      | inr (r, s) ↦
          subst (IsHonest (paints true ∷ past)) (sym s ∙ q)
            (first-IsHonest past c n ((honest c n).0 r))
    ]

history-IsSound : (history : List Op) → IsRising history → IsSound history
unfolding perform
history-IsSound [] r = (λ c e. absurd (ground arith), tt)
history-IsSound (ticks now ∷ past) (l, r) = tick-IsSound now past l (history-IsSound past r)
history-IsSound (paints b ∷ past) r = paint-IsSound b past (history-IsSound past r)
history-IsSound (asks_confirm v ∷ past) r =
    IsStep-IsSound (asks_confirm v) past (λ p. cc)
      (raise_card-IsStep (of_confirm v) (after past) (refl, refl)) (history-IsSound past r)
history-IsSound (asks v ∷ past) r =
    IsStep-IsSound (asks v) past (λ p. cc) (raise_card-IsStep (of_ask v) (after past) (refl, refl))
      (history-IsSound past r)
history-IsSound (settles_confirm id ∷ past) r =
    let s = history-IsSound past r in
    IsStep-IsSound (settles_confirm id) past (λ p. cc)
      (clear_card-IsStep (is_confirm id) (after past) s.1) s
history-IsSound (settles_ask id ∷ past) r =
    let s = history-IsSound past r in
    IsStep-IsSound (settles_ask id) past (λ p. cc) (clear_card-IsStep (is_ask id) (after past) s.1)
      s
history-IsSound (resolves approve ∷ past) r =
    let (now, card, queue) = resolve_card-same approve (after past) in
    IsStep-IsSound (resolves approve) past (λ p. cc)
      (same-IsStep (after past) (resolve_card approve (after past)).1 now card queue)
      (history-IsSound past r)
history-IsSound (picks option ∷ past) r =
    IsStep-IsSound (picks option) past (λ p. cc) (answer_option-IsStep option (after past))
      (history-IsSound past r)
history-IsSound (moves down by ∷ past) r =
    IsStep-IsSound (moves down by) past (λ p. cc) (move_option-IsStep down by (after past))
      (history-IsSound past r)

-- What a key sends.
abbrev pub command : Op → State → Option Command
command (resolves approve) s = (resolve_card approve s).0
command (picks option) s = (answer_option option s).0
command _ s = none

-- The card on the screen that a command answers.
abbrev Answers : Command → State → Type 0
Answers cmd s = (c : Card) × (s.card ≡ some c) × (live c ≡ true) × (gate c ≡ addressed cmd)

answer_highlighted-gate :
    (c : Card) (s : State) (cmd : Command)
    → s.card ≡ some c
    → (answer_highlighted s).0 ≡ some cmd
    → gate c ≡ addressed cmd
unfolding answer_highlighted gate
answer_highlighted-gate c s cmd e h = ground arith

resolve_card-Answers :
    (approve : Bool) (s : State) (cmd : Command)
    → (resolve_card approve s).0 ≡ some cmd
    → Answers cmd s
unfolding resolve_card gate
resolve_card-Answers approve s cmd h = elim (Option-cases s.card) [
  | inl n ↦ absurd (ground arith)
  | inr (c, n) ↦ (c, n, ground arith, ground (arith, answer_highlighted-gate c s cmd n))
]

answer_option-Answers :
    (option : ℕ) (s : State) (cmd : Command) → (answer_option option s).0 ≡ some cmd → Answers cmd s
unfolding answer_option
answer_option-Answers option s cmd h = elim (Option-cases s.card) [
  | inl n ↦ absurd (ground arith)
  | inr (c, n) ↦ elim (Option-cases (select (option - 1) c)) [
    | inl e ↦ absurd (ground arith)
    | inr (d, e) ↦
        let chosen : (answer_highlighted (record s { card = some d })).0 ≡ some cmd =
          ground arith in
        let same_gate = (select-IsSame (option - 1) c d e).0 in
        (c, n, ground arith, sym same_gate ∙ answer_highlighted-gate d _ cmd refl chosen)
  ]
]

live-both : (c : Card) → live c ≡ true → (c.armed ≡ true) × (c.rendered ≡ true)
unfolding live
live-both c h = ground arith

-- A key answers a gate only where the gate is on the screen and its sentence has been there, in
-- every frame since the one that first showed it and with the gate never replaced, for at least
-- 600 ms by the loop's clock, which never goes back. Keys that approve, that deny and that pick an
-- answer are alike in this, whatever events came before.
pub command-Watched :
    (key : Op) (history : List Op) (cmd : Command)
    → IsRising history
    → command key (after history) ≡ some cmd
    → (t : ℕ) × (on_screen (after history) ≡ some (addressed cmd))
      × Watched (addressed cmd) history t
      × (t + card_arm_ms ≤ (after history).now_ms)
command-Watched key history cmd r h =
    let (c, e, l, g) = answered key h in
    let honest = (history-IsSound history r).0 c e in
    let (armed, rendered) = live-both c l in
    let (t, shown, w, long) = honest.1 rendered in
    (
      t,
      on_screen-some (after history) c e ∙ ap (λ x. some x) g,
      subst (λ x. Watched x history t) g w,
      long armed,
    )
  where
    answered : (key : Op) → command key (after history) ≡ some cmd → Answers cmd (after history)
    answered (resolves approve) h = resolve_card-Answers approve (after history) cmd h
    answered (picks option) h = answer_option-Answers option (after history) cmd h
    answered (ticks now) h = cc
    answered (paints b) h = cc
    answered (asks_confirm v) h = cc
    answered (asks v) h = cc
    answered (settles_confirm id) h = cc
    answered (settles_ask id) h = cc
    answered (moves down by) h = cc

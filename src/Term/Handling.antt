-- ===== src/Term/Handling.antt =====
-- crates/neo-tui/src/state.rs: what each event and each key leaves of the card on the screen.
use starkbot_neo.Common.{
  ℕ, ◌-◌, ◌≡◌, refl, sym, ◌∙◌, subst, ◌⊎◌, inl, inr, Bool, false, not, some, List, [], ◌∷◌, arith,
}
use starkbot_neo.Common.Tests.{Bool-cases, Option-cases}
use starkbot_neo.Common.Lists.{List-cases, any, keep_if, All, All-append}
use starkbot_neo.Term.Card.{
  Card, State, live, same_gate, select, raise_card, next_card, clear_card, open_ask_prompt,
  answer_highlighted, resolve_card, answer_option, move_selection, move_option,
}
use starkbot_neo.Term.Arming.{gate}

-- A card that no frame has shown.
abbrev pub IsUnseen : Card → Type 0
IsUnseen c = (c.rendered ≡ false) × (c.armed ≡ false)

-- The same card but for the answer chosen.
abbrev pub IsSame : Card → Card → Type 0
IsSame c c' =
    (gate c' ≡ gate c)
    × (c'.rendered ≡ c.rendered)
    × (c'.shown_ms ≡ c.shown_ms)
    × (c'.armed ≡ c.armed)

pub some_inj : (c d : Card) → some c ≡ some d → c ≡ d
some_inj c d h = cc

pub same : (c : Card) → IsSame c c
same c = (refl, refl, refl, refl)

-- What the events and the keys may do: the clock stays, and the card on the screen is the same or
-- one that no frame has shown.
abbrev pub IsStep : State → State → Type 0
IsStep s s' =
    (s'.now_ms ≡ s.now_ms)
    × ((c' : Card)
        → s'.card ≡ some c'
        → IsUnseen c' ⊎ ((c : Card) × (s.card ≡ some c) × IsSame c c'))
    × (All IsUnseen s.queued_cards → All IsUnseen s'.queued_cards)

-- A step that leaves the card and the queue.
pub same-IsStep :
    (s s' : State)
    → s'.now_ms ≡ s.now_ms
    → s'.card ≡ s.card
    → s'.queued_cards ≡ s.queued_cards
    → IsStep s s'
same-IsStep s s' n c q =
    (n, λ c' e. inr (c', sym c ∙ e, same c'), λ a. subst (All IsUnseen) (sym q) a)

pub raise_card-IsStep : (c : Card) (s : State) → IsUnseen c → IsStep s (raise_card c s)
unfolding raise_card
raise_card-IsStep c s u = elim (Bool-cases (any (λ q. same_gate q c) s.queued_cards)) [
  | inl e ↦ rw (e, raise_card) (same-IsStep s s refl refl refl)
  | inr e ↦ elim (Option-cases s.card) [
    | inl n ↦ rw (e, n, raise_card) (refl, λ c' q. inl (ground arith), λ a. a)
    | inr (shown, n) ↦ elim (Bool-cases (same_gate shown c)) [
      | inl m ↦ rw (e, n, m, raise_card) (refl, λ c' q. inr (c', cc, same c'), λ a. a)
      | inr m ↦
          rw (e, n, m, raise_card)
            (
              refl,
              λ c' q. inr (c', cc, same c'),
              λ a. All-append IsUnseen s.queued_cards (c ∷ []) a (u, tt),
            )
    ]
  ]
]

All-keep_if : (p : Card → Bool) (cs : List Card) → All IsUnseen cs → All IsUnseen (keep_if p cs)
All-keep_if p [] a = a
All-keep_if p (c ∷ cs) a = ground (arith, All-keep_if p cs)

next_card-IsUnseen :
    (s : State)
    → All IsUnseen s.queued_cards
    → ((c : Card) → (next_card s).card ≡ some c → IsUnseen c)
      × All IsUnseen (next_card s).queued_cards
unfolding next_card
next_card-IsUnseen s a = elim (List-cases s.queued_cards) [
  | inl e ↦ rw (e, next_card) (λ c h. ground arith, a)
  | inr (c, cs, e) ↦
      let (u, us) : IsUnseen c × All IsUnseen cs = subst (All IsUnseen) e a in
      rw (e, next_card) (λ d h. ground arith, us)
]

next_card-now : (s : State) → (next_card s).now_ms ≡ s.now_ms
unfolding next_card
next_card-now s = ground arith

pub clear_card-IsStep :
    (settled : Card → Bool) (s : State)
    → All IsUnseen s.queued_cards
    → IsStep s (clear_card settled s)
unfolding clear_card
clear_card-IsStep settled s a =
    let rest = All-keep_if (λ c. not (settled c)) s.queued_cards a in
    let swept = record s { queued_cards = keep_if (λ c. not (settled c)) s.queued_cards } in
    elim (Option-cases s.card) [
      | inl n ↦ rw (n, clear_card) (refl, λ c' q. absurd (ground arith), λ _. rest)
      | inr (c, n) ↦ elim (Bool-cases (settled c)) [
        | inl e ↦
            let (u, us) = next_card-IsUnseen swept rest in
            rw (n, e, clear_card) (next_card-now swept, λ c' q. inl (u c' q), λ _. us)
        | inr e ↦ rw (n, e, clear_card) (refl, λ c' q. inr (c', cc, same c'), λ _. rest)
      ]
    ]

pub resolve_card-same :
    (approve : Bool) (s : State)
    → let s' = (resolve_card approve s).1 in
      (s'.now_ms ≡ s.now_ms) × (s'.card ≡ s.card) × (s'.queued_cards ≡ s.queued_cards)
unfolding resolve_card answer_highlighted open_ask_prompt
resolve_card-same approve s = ground arith

pub move_selection-IsSame : (down : Bool) (by : ℕ) (c : Card) → IsSame c (move_selection down by c)
unfolding move_selection gate
move_selection-IsSame down by c = ground arith

pub select-IsSame : (index : ℕ) (c c' : Card) → select index c ≡ some c' → IsSame c c'
unfolding select gate
select-IsSame index c c' h = ground arith

pub answer_highlighted-same :
    (s : State)
    → let s' = (answer_highlighted s).1 in
      (s'.now_ms ≡ s.now_ms) × (s'.card ≡ s.card) × (s'.queued_cards ≡ s.queued_cards)
unfolding answer_highlighted open_ask_prompt
answer_highlighted-same s = ground arith

pub answer_option-IsStep : (option : ℕ) (s : State) → IsStep s (answer_option option s).1
unfolding answer_option
answer_option-IsStep option s = elim (Option-cases s.card) [
  | inl n ↦ rw (n, answer_option) (refl, λ c' q. absurd (ground arith), λ a. a)
  | inr (c, n) ↦ elim (Bool-cases (live c)) [
    | inl l ↦ elim (Option-cases (select (option - 1) c)) [
      | inl e ↦ rw (n, l, e, answer_option) (refl, λ c' q. inr (c', cc, same c'), λ a. a)
      | inr (d, e) ↦
          let (now, card, queue) = answer_highlighted-same (record s { card = some d }) in
          rw (n, l, e, answer_option)
            (
              now,
              λ c' q. inr (
                c,
                refl,
                subst (IsSame c) (some_inj d c' (sym card ∙ q)) (select-IsSame (option - 1) c d e),
              ),
              λ a. subst (All IsUnseen) (sym queue) a,
            )
    ]
    | inr l ↦ rw (n, l, answer_option) (refl, λ c' q. inr (c', cc, same c'), λ a. a)
  ]
]

pub move_option-IsStep : (down : Bool) (by : ℕ) (s : State) → IsStep s (move_option down by s)
move_option-IsStep down by s = elim (Option-cases s.card) [
  | inl n ↦ rw n (refl, λ c' q. absurd (ground arith), λ a. a)
  | inr (c, n) ↦ rw n (
    refl,
    λ c' q. inr (
      c,
      refl,
      subst (IsSame c) (some_inj (move_selection down by c) c' q) (move_selection-IsSame down by c),
    ),
    λ a. a,
  )
]

-- ===== src/Term/Queue.antt =====
-- crates/neo-tui/src/state.rs: the gates that wait, the one on the screen first.
use starkbot_neo.Common.{
  ℕ, ◌-◌, ◌≡◌, refl, sym, ap, ◌∙◌, inl, inr, String, Bool, false, not, Option, none, some, List, [],
  ◌∷◌, ◌++◌, map, str_eq, arith,
}
use starkbot_neo.Common.Tests.{if◌then◌else◌, Bool-cases, Option-cases}
use starkbot_neo.Common.Lists.{List-cases, any, keep_if}
use starkbot_neo.Term.Card.{
  Card, State, of_confirm, of_ask, is_confirm, is_ask, same_gate, tick, painted, raise_card,
  next_card, clear_card, resolve_card, answer_option, move_option, move_selection, paint, arm,
  select,
}
use starkbot_neo.Term.Arming.{
  Op, ticks, paints, asks_confirm, asks, settles_confirm, settles_ask, resolves, picks, moves,
  perform, after, Gate, confirm_gate, ask_gate, gate, on_screen,
}
use starkbot_neo.Term.Handling.{
  resolve_card-same, answer_highlighted-same, select-IsSame, move_selection-IsSame,
}

abbrev pub gate_eq : Gate → Gate → Bool
gate_eq (confirm_gate a) (confirm_gate b) = str_eq a b
gate_eq (ask_gate a) (ask_gate b) = str_eq a b
gate_eq (confirm_gate a) (ask_gate b) = false
gate_eq (ask_gate a) (confirm_gate b) = false

-- The gates that wait, in order.
abbrev pub gates_of : Option Gate → List Card → List Gate
gates_of none cs = []
gates_of (some g) cs = g ∷ map gate cs

abbrev pub gates : State → List Gate
gates s = gates_of (on_screen s) s.queued_cards

-- A gate that is asked for waits behind the others, once.
abbrev pub enqueue : Gate → List Gate → List Gate
enqueue g gs = if any (λ h. gate_eq h g) gs then gs else gs ++ (g ∷ [])

-- A gate that is settled waits no more.
abbrev pub settle : Gate → List Gate → List Gate
settle g gs = keep_if (λ h. not (gate_eq h g)) gs

abbrev pub step : Op → List Gate → List Gate
step (asks_confirm v) gs = enqueue (confirm_gate v.id) gs
step (asks v) gs = enqueue (ask_gate v.id) gs
step (settles_confirm id) gs = settle (confirm_gate id) gs
step (settles_ask id) gs = settle (ask_gate id) gs
step _ gs = gs

abbrev pub waiting : List Op → List Gate
waiting [] = []
waiting (op ∷ past) = step op (waiting past)

same_gate-eq : (c d : Card) → same_gate c d ≡ gate_eq (gate c) (gate d)
unfolding same_gate gate is_confirm is_ask
same_gate-eq c d = ground arith

is_confirm-eq : (id : String) (c : Card) → is_confirm id c ≡ gate_eq (gate c) (confirm_gate id)
unfolding is_confirm gate
is_confirm-eq id c = ground arith

is_ask-eq : (id : String) (c : Card) → is_ask id c ≡ gate_eq (gate c) (ask_gate id)
unfolding is_ask gate
is_ask-eq id c = ground arith

any-same_gate :
    (c : Card) (cs : List Card)
    → any (λ q. same_gate q c) cs ≡ any (λ h. gate_eq h (gate c)) (map gate cs)
any-same_gate c [] = refl
any-same_gate c (d ∷ cs) = rw (same_gate-eq d c, any-same_gate c cs) refl

map-append : (cs : List Card) (c : Card) → map gate (cs ++ (c ∷ [])) ≡ map gate cs ++ (gate c ∷ [])
map-append [] c = refl
map-append (d ∷ cs) c = ap (λ r. gate d ∷ r) (map-append cs c)

map-keep_if :
    (p : Card → Bool) (g : Gate) (cs : List Card)
    → ((c : Card) → p c ≡ gate_eq (gate c) g)
    → map gate (keep_if (λ c. not (p c)) cs) ≡ settle g (map gate cs)
map-keep_if p g [] h = refl
map-keep_if p g (c ∷ cs) h = ground (arith, h c, map-keep_if p g cs h)

-- Where nothing is on the screen, nothing is queued.
abbrev pub IsPlaced : State → Type 0
IsPlaced s = s.card ≡ none → s.queued_cards ≡ []

-- What a step makes of the gates.
abbrev Steps : State → State → (List Gate → List Gate) → Type 0
Steps s s' f = (gates s' ≡ f (gates s)) × IsPlaced s'

raise_card-Steps : (c : Card) (s : State) → IsPlaced s → Steps s (raise_card c s) (enqueue (gate c))
unfolding raise_card
raise_card-Steps c s p = elim (Option-cases s.card) [
  | inl n ↦ let q = p n in rw (n, q, raise_card) (refl, λ h. cc)
  | inr (d, n) ↦
      let e = same_gate-eq d c in
      let es = any-same_gate c s.queued_cards in
      elim (Bool-cases (any (λ q. same_gate q c) s.queued_cards)) [
        | inl x ↦ rw (n, x, raise_card) (ground (arith, e, es), λ h. cc)
        | inr x ↦ elim (Bool-cases (same_gate d c)) [
          | inl y ↦ rw (n, x, y, raise_card) (ground (arith, e, es), λ h. cc)
          | inr y ↦
              rw (n, x, y, raise_card) (ground (arith, e, es, map-append s.queued_cards c), λ h. cc)
        ]
      ]
]

next_card-gates :
    (s : State) → (gates (next_card s) ≡ map gate s.queued_cards) × IsPlaced (next_card s)
unfolding next_card
next_card-gates s = elim (List-cases s.queued_cards) [
  | inl e ↦ rw (e, next_card) (refl, λ h. e)
  | inr (c, cs, e) ↦ rw (e, next_card) (refl, λ h. cc)
]

clear_card-Steps :
    (p : Card → Bool) (g : Gate) (s : State)
    → ((c : Card) → p c ≡ gate_eq (gate c) g)
    → IsPlaced s
    → Steps s (clear_card p s) (settle g)
unfolding clear_card
clear_card-Steps p g s same placed =
    let rest = map-keep_if p g s.queued_cards same in
    let swept = record s { queued_cards = keep_if (λ c. not (p c)) s.queued_cards } in
    elim (Option-cases s.card) [
      | inl n ↦ let q = placed n in rw (n, clear_card) (ground (arith, n), λ h. rw q refl)
      | inr (c, n) ↦ elim (Bool-cases (p c)) [
        | inl e ↦
            let (now, put) = next_card-gates swept in
            rw (n, e, clear_card) (ground (arith, now, rest, same c), put)
        | inr e ↦ rw (n, e, clear_card) (ground (arith, rest, same c), λ h. cc)
      ]
    ]

-- A step that leaves the gates.
same-Steps :
    (s s' : State)
    → (s'.card ≡ none → s.card ≡ none)
    → on_screen s' ≡ on_screen s
    → s'.queued_cards ≡ s.queued_cards
    → IsPlaced s
    → Steps s s' (λ gs. gs)
same-Steps s s' none_yet e queue placed = (
  ap (λ o. gates_of o s'.queued_cards) e ∙ ap (gates_of (on_screen s)) queue,
  λ h. queue ∙ placed (none_yet h),
)

-- A step that changes the card on the screen, but not its gate.
card-Steps :
    (f : Card → Card) (s s' : State)
    → ((c : Card) → gate (f c) ≡ gate c)
    → s'.card ≡ (elim s.card [ none ↦ none | some c ↦ some (f c) ])
    → s'.queued_cards ≡ s.queued_cards
    → IsPlaced s
    → Steps s s' (λ gs. gs)
card-Steps f s s' same card queue placed = elim (Option-cases s.card) [
  | inl n ↦ same-Steps s s' (λ h. n) (ground (arith, card, n)) queue placed
  | inr (c, n) ↦
      same-Steps s s' (λ h. ground (arith, card, n)) (ground (arith, card, n, same c)) queue placed
]

arm-gate : (now : ℕ) (c : Card) → gate (arm now c) ≡ gate c
unfolding arm gate
arm-gate now c = ground arith

paint-gate : (b : Bool) (now : ℕ) (c : Card) → gate (paint b now c).1 ≡ gate c
unfolding paint gate
paint-gate b now c = ground arith

tick-Steps : (now : ℕ) (s : State) → IsPlaced s → Steps s (tick now s) (λ gs. gs)
unfolding tick
tick-Steps now s = card-Steps (arm now) s (tick now s) (arm-gate now) (ground arith) (ground arith)

painted-Steps : (b : Bool) (s : State) → IsPlaced s → Steps s (painted b s) (λ gs. gs)
unfolding painted
painted-Steps b s =
    card-Steps (λ c. (paint b s.now_ms c).1) s (painted b s) (paint-gate b s.now_ms) (ground arith)
      (ground arith)

move_option-Steps :
    (down : Bool) (by : ℕ) (s : State) → IsPlaced s → Steps s (move_option down by s) (λ gs. gs)
move_option-Steps down by s =
    card-Steps (move_selection down by) s (move_option down by s)
      (λ c. (move_selection-IsSame down by c).0) (ground arith) (ground arith)

resolve_card-Steps :
    (approve : Bool) (s : State) → IsPlaced s → Steps s (resolve_card approve s).1 (λ gs. gs)
resolve_card-Steps approve s =
    let (now, card, queue) = resolve_card-same approve s in
    same-Steps s (resolve_card approve s).1 (λ h. sym card ∙ h)
      (ap (λ (o : Option Card). elim o [ none ↦ none | some c ↦ some (gate c) ]) card) queue

answer_option-Steps :
    (option : ℕ) (s : State) → IsPlaced s → Steps s (answer_option option s).1 (λ gs. gs)
unfolding answer_option
answer_option-Steps option s placed = elim (Option-cases s.card) [
  | inl n ↦
      same-Steps s (answer_option option s).1 (λ h. n) (ground (arith, n)) (ground (arith, n))
        placed
  | inr (c, n) ↦ elim (Option-cases (select (option - 1) c)) [
    | inl e ↦
        same-Steps s (answer_option option s).1 (λ h. ground arith) (ground arith) (ground arith)
          placed
    | inr (d, e) ↦
        let (now, card, queue) = answer_highlighted-same (record s { card = some d }) in
        let same_gate = (select-IsSame (option - 1) c d e).0 in
        same-Steps s (answer_option option s).1 (λ h. ground arith) (ground arith) (ground arith)
          placed
  ]
]

history-Steps :
    (history : List Op) → (gates (after history) ≡ waiting history) × IsPlaced (after history)
unfolding perform gate
history-Steps [] = (refl, λ h. refl)
history-Steps (op ∷ past) =
    let (same, placed) = history-Steps past in
    let (e, put) = stepped op (after past) placed in (e ∙ ap (step op) same, put)
  where
    stepped : (op : Op) (s : State) → IsPlaced s → Steps s (perform op s) (step op)
    stepped (ticks now) s p = tick-Steps now s p
    stepped (paints b) s p = painted-Steps b s p
    stepped (asks_confirm v) s p = raise_card-Steps (of_confirm v) s p
    stepped (asks v) s p = raise_card-Steps (of_ask v) s p
    stepped (settles_confirm id) s p =
        clear_card-Steps (is_confirm id) (confirm_gate id) s (is_confirm-eq id) p
    stepped (settles_ask id) s p = clear_card-Steps (is_ask id) (ask_gate id) s (is_ask-eq id) p
    stepped (resolves approve) s p = resolve_card-Steps approve s p
    stepped (picks option) s p = answer_option-Steps option s p
    stepped (moves down by) s p = move_option-Steps down by s p

-- The card on the screen and the queue behind it implement a queue of gates without repetition: a
-- gate that is asked for goes to the end unless it waits already, one that is settled goes away
-- wherever it stands, and no key and no frame changes what waits. In particular, the gate that
-- has waited longest is the one on the screen, and none is lost.
pub gates-waiting : (history : List Op) → gates (after history) ≡ waiting history
gates-waiting history = (history-Steps history).0

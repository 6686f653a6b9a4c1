-- ===== src/Term/Card.antt =====
-- crates/neo-tui/src/state.rs: the card of a gate on the screen, and the queue behind it. What the
-- card displays beside its sentence, the status line and the `dirty` flag are the view's and left out;
-- a text that is only displayed is a string.
use starkbot_neo.Common.{
  ℕ, ◌+◌, ◌-◌, String, Bool, true, false, not, ◌&&◌, ◌||◌, Option, none, some, List, [], ◌∷◌, ◌++◌,
  str_eq,
}
use starkbot_neo.Common.Tests.{ltb, if◌then◌else◌}
use starkbot_neo.Common.Lists.{any, keep_if, length, get_elem?}
use starkbot_neo.Cards.{GateOutcome, confirmed, denied, ConfirmView, AskView}

abbrev pub card_arm_ms : ℕ
card_arm_ms = 600

pub data CardKind : Type 0 where
  confirm : String → String → CardKind  -- the gate and its task
  ask : String → String → List String → ℕ → CardKind  -- and the answers, with the one chosen

pub record Card : Type 0 where
  pub kind : CardKind
  pub sentence : String
  pub context : Option String
  pub cause : Option String
  pub can_remember : Bool
  pub armed : Bool
  pub rendered : Bool
  pub shown_ms : Option ℕ

pub data Mode : Type 0 where
  normal card_up elsewhere : Mode

pub data Command : Type 0 where
  resolve_confirm : String → GateOutcome → Command
  answer_ask : String → String → Command

-- The parts of the terminal's state that the gates use.
pub record State : Type 0 where
  pub card : Option Card
  pub queued_cards : List Card
  pub mode : Mode
  pub prompt : Option String  -- the question whose answer is typed
  pub now_ms : ℕ

-- `Card::confirm`.
abbrev pub of_confirm : ConfirmView → Card
of_confirm v = record {
  kind = confirm v.id v.task_id;
  sentence = v.action_sentence;
  context = v.context;
  cause = some v.cause;
  can_remember = v.can_remember;
  armed = false;
  rendered = false;
  shown_ms = none;
}

-- `Card::ask`.
abbrev pub of_ask : AskView → Card
of_ask v = record {
  kind = ask v.id v.task_id v.options 0;
  sentence = v.question;
  context = none;
  cause = none;
  can_remember = false;
  armed = false;
  rendered = false;
  shown_ms = none;
}

unfoldable pub highlighted : Card → Option String
highlighted c = elim c.kind [ confirm id task ↦ none | ask id task options n ↦ get_elem? options n ]

unfoldable pub live : Card → Bool
live c = c.armed && c.rendered

unfoldable pub is_confirm : String → Card → Bool
is_confirm id c = elim c.kind [
  | confirm mine task ↦ str_eq mine id
  | ask mine task options n ↦ false
]

unfoldable pub is_ask : String → Card → Bool
is_ask id c = elim c.kind [ confirm mine task ↦ false | ask mine task options n ↦ str_eq mine id ]

unfoldable pub same_gate : Card → Card → Bool
same_gate c next = elim next.kind [
  | confirm id task ↦ is_confirm id c
  | ask id task options n ↦ is_ask id c
]

-- `select`, with whether there was an answer there.
unfoldable pub select : ℕ → Card → Option Card
select index c = elim c.kind [
  | confirm id task ↦ none
  | ask id task options n ↦
      if ltb index (length options)
      then some (record c { kind = ask id task options index })
      else none
]

-- `Card::painted`, with whether anything changed.
unfoldable pub paint : Bool → ℕ → Card → Bool × Card
paint true now c =
    if c.rendered then (false, c) else (true, record c { rendered = true; shown_ms = some now })
paint false now c =
    if c.rendered
    then (true, record c { rendered = false; shown_ms = none; armed = false })
    else (false, c)

-- `arm`, without the answer.
unfoldable pub arm : ℕ → Card → Card
arm now c = if c.armed || not c.rendered then c else elim c.shown_ms [
  | none ↦ c
  | some shown ↦ if ltb (now - shown) card_arm_ms then c else record c { armed = true }
]

abbrev pub on_card : (Card → Card) → State → State
on_card f s = elim s.card [ none ↦ s | some c ↦ record s { card = some (f c) } ]

-- `tick`.
unfoldable pub tick : ℕ → State → State
tick now s = on_card (arm now) (record s { now_ms = now })

-- `painted`: what the frame shows of the card.
unfoldable pub painted : Bool → State → State
painted on_screen s = on_card (λ c. (paint on_screen s.now_ms c).1) s

unfoldable pub raise_card : Card → State → State
raise_card c s = if any (λ q. same_gate q c) s.queued_cards then s else elim s.card [
  | none ↦ record s { card = some c; mode = card_up }
  | some shown ↦
      if same_gate shown c then s else record s { queued_cards = s.queued_cards ++ (c ∷ []) }
]

abbrev pub leave_card : Mode → Mode
leave_card card_up = normal
leave_card m = m

-- The next card of the queue, where the one on the screen went.
unfoldable pub next_card : State → State
next_card s = elim s.queued_cards [
  | [] ↦ record s { card = none; mode = leave_card s.mode }
  | c ∷ cs ↦ record s { card = some c; queued_cards = cs }
]

unfoldable pub clear_card : (Card → Bool) → State → State
clear_card settled s =
    let swept = record s { queued_cards = keep_if (λ c. not (settled c)) s.queued_cards } in
    elim s.card [ none ↦ swept | some c ↦ if settled c then next_card swept else swept ]

abbrev pub free_text : Card → Bool
free_text c = elim c.kind [
  | confirm id task ↦ false
  | ask id task options n ↦ elim options [ [] ↦ true | o ∷ os ↦ false ]
]

unfoldable pub open_ask_prompt : State → State
open_ask_prompt s = elim s.card [
  | none ↦ s
  | some c ↦ elim c.kind [
    | confirm id task ↦ s
    | ask id task options n ↦ if free_text c then record s { prompt = some id } else s
  ]
]

unfoldable pub answer_highlighted : State → Option Command × State
answer_highlighted s = elim s.card [
  | none ↦ (none, s)
  | some c ↦ elim c.kind [
    | confirm id task ↦ (none, s)
    | ask id task options n ↦ elim (highlighted c) [
      | some answer ↦ (some (answer_ask id answer), s)
      | none ↦ (none, open_ask_prompt s)
    ]
  ]
]

unfoldable pub resolve_card : Bool → State → Option Command × State
resolve_card approve s = elim s.card [
  | none ↦ (none, s)
  | some c ↦ if not (live c) then (none, s) else elim c.kind [
    | confirm id task ↦ (some (resolve_confirm id (if approve then confirmed else denied)), s)
    | ask id task options n ↦ if approve then answer_highlighted s else (none, s)
  ]
]

unfoldable pub answer_option : ℕ → State → Option Command × State
answer_option option s = elim s.card [
  | none ↦ (none, s)
  | some c ↦ if not (live c) then (none, s) else elim (select (option - 1) c) [
    | none ↦ (none, s)
    | some c' ↦ answer_highlighted (record s { card = some c' })
  ]
]

abbrev pub min : ℕ → ℕ → ℕ
min a b = if ltb b a then b else a

-- `move_selection`, down or up by a number of answers.
unfoldable pub move_selection : Bool → ℕ → Card → Card
move_selection down by c = elim c.kind [
  | confirm id task ↦ c
  | ask id task options n ↦ elim options [
    | [] ↦ c
    | o ∷ os ↦ record c {
      kind =
          ask id task (o ∷ os)
            (if down then min (n + by) (length os) else min (n - by) (length os));
    }
  ]
]

-- `move_option`.
abbrev pub move_option : Bool → ℕ → State → State
move_option down by s = on_card (move_selection down by) s

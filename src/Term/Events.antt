-- ===== src/Term/Events.antt =====
-- crates/neo-tui/src/state.rs: an event of the core folded into the run that it belongs to. The
-- rows of the conversation that a steering message adds are left out.
use starkbot_neo.Common.{
  ℕ, suc, String, Bool, true, false, Option, none, some, List, [], ◌∷◌, ◌++◌, str_eq,
}
use Prim.Native.String.{◌++◌ as str_append}
use starkbot_neo.Common.Tests.{ltb, ◌==◌, if◌then◌else◌}
use starkbot_neo.Common.Lists.{length, find_if, drop}
use starkbot_neo.Common.Text.{show, codes, trim_start, codes_prefix}
use starkbot_neo.Term.Answer.{Bytes, delta, saturating_suc}
use starkbot_neo.Term.Runs.{
  RunState, running, done, failed, cancelled, is_stopping, step, thought, observation, note, launch,
  decision, outcome, summary, case_line, result, TraceLine, Run, push, settle, StepCard,
  TurnProgress, State, turn_card_cap, on_run, is_run,
}

-- What a navigator's step is, with a decision as it displays, without the white space at its end.
pub data NavStepKind : Type 0 where
  launch_step : NavStepKind
  decision_step : String → NavStepKind
  outcome_step : NavStepKind
  summary_step : NavStepKind

pub data AppEvent : Type 0 where
  turn_started : String → AppEvent
  turn_step : ℕ → String → String → AppEvent
  turn_step_done : ℕ → String → ℕ → AppEvent
  turn_delta : ℕ → Bytes → AppEvent
  turn_cost : String → AppEvent
  turn_steered : String → AppEvent
  turn_note : String → AppEvent
  turn_finished : String → ℕ → Bool → Option (ℕ × ℕ × ℕ) → AppEvent
  turn_failed : String → AppEvent
  nav_step : ℕ → String → NavStepKind → AppEvent
  eval_case : ℕ → String → AppEvent

infixr 20 ◌<>◌
abbrev pub ◌<>◌ : String → String → String
a <> b = str_append a b

unfoldable pub nav_trace : String → NavStepKind → TraceLine
nav_trace line launch_step = record { kind = launch; text = line }
nav_trace line (decision_step text) = record { kind = decision; text = text }
nav_trace line outcome_step = record { kind = outcome; text = line }
nav_trace line summary_step = record { kind = summary; text = line }

-- `TurnFinished`'s summary.
unfoldable pub finished_summary : Bool → Bool → Option (ℕ × ℕ × ℕ) → String
finished_summary stopped exhausted usage =
    (if stopped then "stopped" else (if exhausted then "step budget spent" else "answered"))
    <> (elim usage [
      | none ↦ ""
      | some (input, output, requests) ↦
          " · "
          <> show input
          <> " in / "
          <> show output
          <> " out over "
          <> show requests
          <> " request(s)"
    ])

abbrev pub is_empty : String → Bool
is_empty s = str_eq s ""

-- What an event makes of its run.
unfoldable pub fold_run : ℕ → AppEvent → Run → Run
fold_run now (turn_started conversation) r = push note ("turn started in " <> conversation) r
fold_run now (turn_step n why line) r =
    let r' =
      push step ("#" <> show n <> " " <> line)
        (record r { steps = saturating_suc n; last = line }) in
    if is_empty why then r' else push thought why r'
fold_run now (turn_step_done n seen ms) r = push observation (seen <> " · " <> show ms <> " ms") r
fold_run now (turn_delta seq text) r = r
fold_run now (turn_cost usage) r = r
fold_run now (turn_steered text) r = record (push note ("steered: " <> text) r) {
  last = "steered: " <> text;
}
fold_run now (turn_note line) r = record (push note line r) { last = line }
fold_run now (turn_finished text steps exhausted usage) r =
    let line = finished_summary (is_stopping r.state) exhausted usage in
    settle (if is_stopping r.state then cancelled else done) now
      (record (push result (line <> " — " <> text) (record r { steps = steps })) { last = line })
fold_run now (turn_failed e) r =
    settle (if is_stopping r.state then cancelled else failed e) now
      (record (push result e r) { last = e })
fold_run now (nav_step n line kind) r =
    let t = nav_trace line kind in
    push t.kind t.text (record r { steps = if ltb r.steps n then n else r.steps; last = t.text })
fold_run now (eval_case index line) r =
    push case_line line (record r { steps = saturating_suc index; last = line })

abbrev pub failed_observation : String → Bool
failed_observation s = codes_prefix (codes "that failed") (trim_start (codes s))

-- `StepCard::close`.
unfoldable pub close : String → ℕ → StepCard → StepCard
close seen ms c = record c {
  detail = some seen;
  duration_ms = some ms;
  state = if failed_observation seen then failed seen else done;
}

-- The first card of the step, closed.
unfoldable pub close_step : ℕ → String → ℕ → List StepCard → List StepCard
close_step n seen ms [] = []
close_step n seen ms (c ∷ cs) =
    let rest = close_step n seen ms cs in if c.step == n then close seen ms c ∷ cs else c ∷ rest

abbrev pub is_running : RunState → Bool
is_running running = true
is_running _ = false

-- The newest card that runs, changed by `f`.
unfoldable pub on_live_card : (StepCard → StepCard) → List StepCard → Option (List StepCard)
on_live_card f [] = none
on_live_card f (c ∷ cs) = elim (on_live_card f cs) [
  | some cs' ↦ some (c ∷ cs')
  | none ↦ if is_running c.state then some (f c ∷ cs) else none
]

unfoldable pub on_newest : (StepCard → StepCard) → List StepCard → List StepCard
on_newest f cs = elim (on_live_card f cs) [ some cs' ↦ cs' | none ↦ cs ]

-- The agent's own marker for a step that was cut short.
abbrev pub stopped_marker : String
stopped_marker = "stopped"

-- What an event makes of the turn in flight, where it is this turn's.
unfoldable pub fold_turn : AppEvent → TurnProgress → Option TurnProgress
fold_turn (turn_step n why line) t =
    let kept = if length t.cards == turn_card_cap then drop 1 t.cards else t.cards in
    let card : StepCard = record {
      step = n;
      intent = line;
      thought = if is_empty why then none else some why;
      detail = none;
      state = running;
      duration_ms = none;
    } in
    some (record t { cards = kept ++ (card ∷ []) })
fold_turn (turn_step_done n seen ms) t =
    some (record t { completed = suc t.completed; cards = close_step n seen ms t.cards })
fold_turn (turn_delta seq text) t = some (record t { answer = delta seq text t.answer })
fold_turn (turn_cost usage) t = some (record t { usage = some usage })
fold_turn (turn_note line) t = some (record t {
  cards =
      on_newest
        (λ (c : StepCard).
          if str_eq line stopped_marker
          then record c { state = cancelled }
          else record c { detail = some line })
        t.cards;
})
fold_turn (turn_finished text steps exhausted usage) t = none
fold_turn (turn_failed e) t = none
fold_turn (nav_step n line kind) t = some (record t {
  cards =
      on_newest (λ (c : StepCard). record c { detail = some (nav_trace line kind).text }) t.cards;
})
fold_turn _ t = some t

abbrev pub fold_turn_of : ℕ → AppEvent → Option TurnProgress → Option TurnProgress
fold_turn_of id e none = none
fold_turn_of id e (some t) = if t.run == id then fold_turn e t else some t

-- `reduce_run`, for an event of the run `id`.
unfoldable pub reduce_run : ℕ → AppEvent → State → State
reduce_run id e s = elim (find_if (is_run id) s.runs) [
  | none ↦ s
  | some r ↦ record s {
    runs = on_run id (fold_run s.now_ms e) s.runs;
    turn = fold_turn_of id e s.turn;
  }
]

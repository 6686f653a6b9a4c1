-- ===== src/Term/Runs.antt =====
-- crates/neo-tui/src/runs.rs and state.rs: what this front end started, and how each run goes. An
-- identifier is a number; a summary, a cost and a decision are the texts they display as.
use starkbot_neo.Common.{
  ℕ, zero, suc, ◌-◌, String, Bool, true, false, not, Option, none, some, List, [], ◌∷◌, ◌++◌,
}
use starkbot_neo.Common.Tests.{ltb, ◌==◌, if◌then◌else◌}
use starkbot_neo.Common.Lists.{length, find_if, drop}
use starkbot_neo.Common.Result.{Result, ok, err}
use starkbot_neo.Term.Answer.{Progress, blank}

abbrev pub trace_cap : ℕ
trace_cap = 300

abbrev pub runs_cap : ℕ
runs_cap = 50

abbrev pub turn_card_cap : ℕ
turn_card_cap = 40

pub data RunKind : Type 0 where
  chat nav app ax eval : RunKind

pub data RunState : Type 0 where
  running stopping done : RunState
  failed : String → RunState
  cancelled : RunState

abbrev pub live : RunState → Bool
live running = true
live stopping = true
live done = false
live (failed e) = false
live cancelled = false

abbrev pub is_stopping : RunState → Bool
is_stopping stopping = true
is_stopping _ = false

pub data TraceKind : Type 0 where
  step thought observation note launch decision outcome summary case_line result : TraceKind

pub record TraceLine : Type 0 where
  pub kind : TraceKind
  pub text : String

pub record Run : Type 0 where
  pub id : ℕ
  pub kind : RunKind
  pub title : String
  pub state : RunState
  pub started_ms : ℕ
  pub ended_ms : Option ℕ
  pub steps : ℕ
  pub last : String
  pub trace : List TraceLine

-- `Run::new`.
abbrev pub new_run : ℕ → RunKind → String → ℕ → Run
new_run id kind title now = record {
  id = id;
  kind = kind;
  title = title;
  state = running;
  started_ms = now;
  ended_ms = none;
  steps = 0;
  last = "";
  trace = [];
}

unfoldable pub elapsed_ms : ℕ → Run → ℕ
elapsed_ms now r = elim r.ended_ms [ some end ↦ end - r.started_ms | none ↦ now - r.started_ms ]

-- `push`: the oldest line goes where the trace is full.
unfoldable pub push : TraceKind → String → Run → Run
push kind text r =
    let kept = if length r.trace == trace_cap then drop 1 r.trace else r.trace in
    record r { trace = kept ++ (record { kind = kind; text = text } ∷ []) }

unfoldable pub settle : RunState → ℕ → Run → Run
settle state now r = if live r.state then record r { state = state; ended_ms = some now } else r

pub record StepCard : Type 0 where
  pub step : ℕ
  pub intent : String
  pub thought : Option String
  pub detail : Option String
  pub state : RunState
  pub duration_ms : Option ℕ

-- `TurnProgress`, the streamed answer as a part of its own.
pub record TurnProgress : Type 0 where
  pub run : ℕ
  pub cards : List StepCard
  pub answer : Progress
  pub usage : Option String
  pub completed : ℕ

abbrev pub new_turn : ℕ → TurnProgress
new_turn id = record { run = id; cards = []; answer = blank; usage = none; completed = 0 }

-- The parts of the terminal's state that the runs use; `follow` is the runs pane's.
pub record State : Type 0 where
  pub runs : List Run
  pub selected_run : Option ℕ
  pub follow : Bool
  pub now_ms : ℕ
  pub turn : Option TurnProgress

abbrev pub is_run : ℕ → Run → Bool
is_run id r = r.id == id

-- `iter_mut().find(|run| run.id == id)`, changed by `f`.
unfoldable pub on_run : ℕ → (Run → Run) → List Run → List Run
on_run id f [] = []
on_run id f (r ∷ rs) = let rest = on_run id f rs in if r.id == id then f r ∷ rs else r ∷ rest

abbrev pub last_id : List Run → Option ℕ
last_id [] = none
last_id (r ∷ []) = some r.id
last_id (r ∷ q ∷ rs) = last_id (q ∷ rs)

-- The first settled run and the others, in their order.
unfoldable pub take_settled : List Run → Option (Run × List Run)
take_settled [] = none
take_settled (r ∷ rs) =
    if live r.state
    then elim (take_settled rs) [ none ↦ none | some (q, rest) ↦ some (q, r ∷ rest) ]
    else some (r, rs)

abbrev pub is_selected : Option ℕ → Run → Bool
is_selected none r = false
is_selected (some id) r = r.id == id

-- `prune_runs`, as many times as there are runs.
unfoldable pub prune : ℕ → State → State
prune zero s = s
prune (suc n) s =
    if ltb runs_cap (length s.runs)
    then elim (take_settled s.runs) [
      | none ↦ s
      | some (dropped, rest) ↦
          let selected =
            if is_selected s.selected_run dropped then last_id rest else s.selected_run in
          prune n (record s { runs = rest; selected_run = selected })
    ]
    else s

abbrev pub prune_runs : State → State
prune_runs s = prune (length s.runs) s

abbrev pub is_none {ℓ} : {A : Type ℓ} → Option A → Bool
is_none none = true
is_none (some a) = false

abbrev pub is_chat : RunKind → Bool
is_chat chat = true
is_chat _ = false

unfoldable pub start_run : ℕ → RunKind → String → State → State
start_run id kind title s = prune_runs (record s {
  runs = s.runs ++ (new_run id kind title s.now_ms ∷ []);
  turn = if is_chat kind then some (new_turn id) else s.turn;
  selected_run =
      if s.follow then some id else (if is_none s.selected_run then some id else s.selected_run);
})

abbrev pub push_all : List String → Run → Run
push_all [] r = r
push_all (line ∷ lines) r = push_all lines (push observation line r)

unfoldable pub ended : ℕ → List String → Result String String → Run → Run
ended now detail (ok text) r =
    settle done now (record (push result text (push_all detail r)) { last = text })
ended now detail (err e) r =
    settle (if is_stopping r.state then cancelled else failed e) now
      (record (push result e (push_all detail r)) { last = e })

abbrev pub is_turn : ℕ → Option TurnProgress → Bool
is_turn id none = false
is_turn id (some t) = t.run == id

unfoldable pub finish_run : ℕ → List String → Result String String → State → State
finish_run id detail end s = elim (find_if (is_run id) s.runs) [
  | none ↦ s
  | some r ↦ if not (live r.state) then s else record s {
    runs = on_run id (ended s.now_ms detail end) s.runs;
    turn = if is_turn id s.turn then none else s.turn;
  }
]

-- `iter().rev().find(..)` for a live run.
unfoldable pub last_live : List Run → Option ℕ
last_live [] = none
last_live (r ∷ rs) = elim (last_live rs) [
  | some id ↦ some id
  | none ↦ if live r.state then some r.id else none
]

unfoldable pub stoppable_run : State → Option ℕ
stoppable_run s = elim s.selected_run [
  | none ↦ last_live s.runs
  | some id ↦ elim (find_if (is_run id) s.runs) [
    | none ↦ last_live s.runs
    | some r ↦ if live r.state then some r.id else last_live s.runs
  ]
]

abbrev pub stop : Run → Run
stop r = record r { state = stopping }

-- `stop_selected`, with the run that is told to stop.
unfoldable pub stop_selected : State → Option ℕ × State
stop_selected s = elim (stoppable_run s) [
  | none ↦ (none, s)
  | some id ↦ (some id, record s { runs = on_run id stop s.runs })
]

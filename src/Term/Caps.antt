-- ===== src/Term/Caps.antt =====
-- crates/neo-tui/src/runs.rs and state.rs: what the runs pane keeps, and what it may drop.
use starkbot_neo.Common.{
  ℕ, zero, suc, ◌-◌, ◌≤◌, ◌<◌, ◌≡◌, refl, sym, ◌∙◌, subst, ◌⊎◌, inl, inr, String, true, none, some,
  List, [], ◌∷◌, ◌++◌, arith,
}
use starkbot_neo.Common.Tests.{ltb, ◌==◌, if◌then◌else◌, Bool-cases, Option-cases}
use starkbot_neo.Common.Lists.{length, find_if, drop, keep_if, All, All-append, length-append}
use starkbot_neo.Common.Result.{Result, ok, err}
use starkbot_neo.Term.Runs.{
  RunKind, RunState, live, TraceKind, step, thought, observation, result, Run, new_run, push,
  settle, State, trace_cap, runs_cap, on_run, is_run, take_settled, is_selected, last_id, is_none,
  is_chat, new_turn, prune, start_run, push_all, ended, finish_run, stop, stop_selected,
  stoppable_run,
}
use starkbot_neo.Term.Events.{
  AppEvent, turn_started, turn_step, turn_step_done, turn_delta, turn_cost, turn_steered, turn_note,
  turn_finished, turn_failed, nav_step, eval_case, fold_run, reduce_run, is_empty, ◌<>◌,
}
use starkbot_neo.Common.Text.{show}
use starkbot_neo.Term.Answer.{saturating_suc}

pub data Op : Type 0 where
  starts : ℕ → RunKind → String → Op
  reduces : ℕ → AppEvent → Op
  finishes : ℕ → List String → Result String String → Op
  stops : Op
  ticks : ℕ → Op

abbrev pub perform : Op → State → State
perform (starts id kind title) s = start_run id kind title s
perform (reduces id e) s = reduce_run id e s
perform (finishes id detail end) s = finish_run id detail end s
perform stops s = (stop_selected s).1
perform (ticks now) s = record s { now_ms = now }

abbrev pub perform_all : List Op → State → State
perform_all [] s = s
perform_all (op ∷ ops) s = perform_all ops (perform op s)

abbrev pub IsCapped : Run → Type 0
IsCapped r = length r.trace ≤ trace_cap

length-drop_one {ℓ} : {A : Type ℓ} (xs : List A) → length (drop 1 xs) ≡ length xs - 1
length-drop_one [] = refl
length-drop_one (x ∷ xs) = omega arith

push-IsCapped :
    (kind : TraceKind) (text : String) (r : Run) → IsCapped r → IsCapped (push kind text r)
unfolding push
push-IsCapped kind text r h = elim (Bool-cases (length r.trace == trace_cap)) [
  | inl e ↦ rw e (
      omega (
        arith,
        length-append (drop 1 r.trace) (record { kind = kind; text = text } ∷ []),
        length-drop_one r.trace,
        h,
      ))
  | inr e ↦
      let less : length r.trace < trace_cap = ground (arith, h) in
      rw e (omega (arith, length-append r.trace (record { kind = kind; text = text } ∷ []), less))
]

settle-IsCapped :
    (state : RunState) (now : ℕ) (r : Run) → IsCapped r → IsCapped (settle state now r)
unfolding settle
settle-IsCapped state now r h = ground (arith, h)

push_all-IsCapped : (lines : List String) (r : Run) → IsCapped r → IsCapped (push_all lines r)
push_all-IsCapped [] r h = h
push_all-IsCapped (line ∷ lines) r h =
    push_all-IsCapped lines (push observation line r) (push-IsCapped observation line r h)

ended-IsCapped :
    (now : ℕ) (detail : List String) (end : Result String String) (r : Run)
    → IsCapped r
    → IsCapped (ended now detail end r)
unfolding ended
ended-IsCapped now detail (ok text) r h =
    settle-IsCapped _ now _ (push-IsCapped result text _ (push_all-IsCapped detail r h))
ended-IsCapped now detail (err e) r h =
    settle-IsCapped _ now _ (push-IsCapped result e _ (push_all-IsCapped detail r h))

on_run-All :
    (P : Run → Type 0) (id : ℕ) (f : Run → Run) (rs : List Run)
    → ((r : Run) → P r → P (f r))
    → All P rs
    → All P (on_run id f rs)
unfolding on_run
on_run-All P id f [] h a = a
on_run-All P id f (r ∷ rs) h (p, a) = elim (Bool-cases (r.id == id)) [
  | inl e ↦ rw e (h r p, a)
  | inr e ↦ rw e (p, on_run-All P id f rs h a)
]

-- What is left when the first settled run goes: one run less, and the live ones in their order.
abbrev IsRest : (Run → Type 0) → List Run → List Run → Type 0
IsRest P rs rest =
    (length rs ≡ suc (length rest))
    × (keep_if (λ q. live q.state) rest ≡ keep_if (λ q. live q.state) rs)
    × (All P rs → All P rest)

take_settled-IsRest :
    (P : Run → Type 0) (rs : List Run) (r : Run) (rest : List Run)
    → take_settled rs ≡ some (r, rest)
    → IsRest P rs rest
unfolding take_settled
take_settled-IsRest P [] r rest h = cc
take_settled-IsRest P (q ∷ rs) r rest h = elim (Bool-cases (live q.state)) [
  | inl l ↦ elim (Option-cases (take_settled rs)) [
    | inl n ↦ absurd (ground arith)
    | inr ((b, rs'), n) ↦
        let (len, kept, all) = take_settled-IsRest P rs b rs' n in
        let e : q ∷ rs' ≡ rest = ground arith in
        subst (IsRest P (q ∷ rs)) e (omega (arith, len), rw (l, kept) refl, λ a. (a.0, all a.1))
  ]
  | inr l ↦
      let e : rs ≡ rest = ground arith in subst (IsRest P (q ∷ rs)) e (refl, rw l refl, λ a. a.1)
]

take_settled-none : (rs : List Run) → take_settled rs ≡ none → All (λ r. live r.state ≡ true) rs
unfolding take_settled
take_settled-none [] h = tt
take_settled-none (q ∷ rs) h = elim (Bool-cases (live q.state)) [
  | inl l ↦ elim (Option-cases (take_settled rs)) [
    | inl n ↦ (l, take_settled-none rs n)
    | inr ((b, rs'), n) ↦ absurd (ground arith)
  ]
  | inr l ↦ absurd (ground arith)
]

-- What pruning leaves, with as many rounds as there are runs.
abbrev IsPruned : (Run → Type 0) → State → State → Type 0
IsPruned P s s' =
    ((length s'.runs ≤ runs_cap) ⊎ All (λ r. live r.state ≡ true) s'.runs)
    × (keep_if (λ q. live q.state) s'.runs ≡ keep_if (λ q. live q.state) s.runs)
    × (All P s.runs → All P s'.runs)

prune-IsPruned :
    (P : Run → Type 0) (n : ℕ) (s : State) → length s.runs ≤ n → IsPruned P s (prune n s)
unfolding prune
prune-IsPruned P zero s l = (inl (omega arith), refl, λ a. a)
prune-IsPruned P (suc n) s l = elim (Bool-cases (ltb runs_cap (length s.runs))) [
  | inl m ↦ elim (Option-cases (take_settled s.runs)) [
    | inl e ↦ rw (m, e, prune) (inr (take_settled-none s.runs e), refl, λ a. a)
    | inr ((r, rest), e) ↦
        let (len, kept, all) = take_settled-IsRest P s.runs r rest e in
        let (most, live_ones, more) =
          prune-IsPruned P n
            (record s {
              runs = rest;
              selected_run = if is_selected s.selected_run r then last_id rest else s.selected_run;
            })
            (omega (arith, len, l)) in
        rw (m, e, prune) (most, live_ones ∙ kept, λ a. more (all a))
  ]
  | inr m ↦ rw (m, prune) (inl (ground arith), refl, λ a. a)
]

keep_if-append :
    (rs : List Run) (r : Run)
    → live r.state ≡ true
    → keep_if (λ q. live q.state) (rs ++ (r ∷ [])) ≡ keep_if (λ q. live q.state) rs ++ (r ∷ [])
keep_if-append [] r h = rw h refl
keep_if-append (q ∷ rs) r h = ground (arith, keep_if-append rs r h)

-- The state to prune when a run is registered.
abbrev registered : ℕ → RunKind → String → State → State
registered id kind title s = record s {
  runs = s.runs ++ (new_run id kind title s.now_ms ∷ []);
  turn = if is_chat kind then some (new_turn id) else s.turn;
  selected_run =
      if s.follow then some id else (if is_none s.selected_run then some id else s.selected_run);
}

start_run-IsPruned :
    (P : Run → Type 0) (id : ℕ) (kind : RunKind) (title : String) (s : State)
    → IsPruned P (registered id kind title s) (start_run id kind title s)
unfolding start_run
start_run-IsPruned P id kind title s =
    prune-IsPruned P (length (registered id kind title s).runs) (registered id kind title s)
      (omega arith)

-- Registering a run leaves at most 50 runs, or live ones only; every run that was live stays, in
-- its order, and the new one is the last of them.
pub start_run-capped :
    (id : ℕ) (kind : RunKind) (title : String) (s : State)
    → let s' = start_run id kind title s in
      ((length s'.runs ≤ runs_cap) ⊎ All (λ r. live r.state ≡ true) s'.runs)
      × (keep_if (λ r. live r.state) s'.runs
          ≡ keep_if (λ r. live r.state) s.runs ++ (new_run id kind title s.now_ms ∷ []))
start_run-capped id kind title s =
    let (most, kept, all) = start_run-IsPruned (λ r. Unit) id kind title s in
    (most, kept ∙ keep_if-append s.runs (new_run id kind title s.now_ms) refl)

fold_run-IsCapped : (now : ℕ) (e : AppEvent) (r : Run) → IsCapped r → IsCapped (fold_run now e r)
unfolding fold_run
fold_run-IsCapped now (turn_started c) r h = push-IsCapped _ _ r h
fold_run-IsCapped now (turn_step n why line) r h =
    let said =
      push-IsCapped step ("#" <> show n <> " " <> line)
        (record r { steps = saturating_suc n; last = line }) h in
    elim (Bool-cases (is_empty why)) [
      | inl e ↦ rw e said
      | inr e ↦ rw e (push-IsCapped thought why _ said)
    ]
fold_run-IsCapped now (turn_step_done n seen ms) r h = push-IsCapped _ _ r h
fold_run-IsCapped now (turn_delta seq text) r h = h
fold_run-IsCapped now (turn_cost usage) r h = h
fold_run-IsCapped now (turn_steered text) r h = push-IsCapped _ _ r h
fold_run-IsCapped now (turn_note line) r h = push-IsCapped _ _ r h
fold_run-IsCapped now (turn_finished text steps exhausted usage) r h =
    settle-IsCapped _ now _ (push-IsCapped result _ (record r { steps = steps }) h)
fold_run-IsCapped now (turn_failed e) r h = settle-IsCapped _ now _ (push-IsCapped result e r h)
fold_run-IsCapped now (nav_step n line kind) r h = push-IsCapped _ _ _ h
fold_run-IsCapped now (eval_case index line) r h = push-IsCapped _ _ _ h

stop_selected-runs :
    (s : State)
    → ((stop_selected s).1.runs ≡ s.runs)
      ⊎ ((id : ℕ) × ((stop_selected s).1.runs ≡ on_run id stop s.runs))
unfolding stop_selected
stop_selected-runs s = elim (Option-cases (stoppable_run s)) [
  | inl n ↦ inl (rw (n, stop_selected) refl)
  | inr (id, n) ↦ inr (id, rw (n, stop_selected) refl)
]

on_runs-IsCapped : (op : Op) (s : State) → All IsCapped s.runs → All IsCapped (perform op s).runs
unfolding reduce_run finish_run stop_selected
on_runs-IsCapped (starts id kind title) s a =
    let (most, kept, all) = start_run-IsPruned IsCapped id kind title s in
    all (All-append IsCapped s.runs (new_run id kind title s.now_ms ∷ []) a (omega arith, tt))
on_runs-IsCapped (reduces id e) s a = elim (Option-cases (find_if (is_run id) s.runs)) [
  | inl n ↦ rw (n, reduce_run) a
  | inr (r, n) ↦
      rw (n, reduce_run)
        (on_run-All IsCapped id (fold_run s.now_ms e) s.runs (fold_run-IsCapped s.now_ms e) a)
]
on_runs-IsCapped (finishes id detail end) s a = elim (Option-cases (find_if (is_run id) s.runs)) [
  | inl n ↦ rw (n, finish_run) a
  | inr (r, n) ↦ elim (Bool-cases (live r.state)) [
    | inl l ↦
        rw (n, l, finish_run)
          (on_run-All IsCapped id (ended s.now_ms detail end) s.runs
            (ended-IsCapped s.now_ms detail end) a)
    | inr l ↦ rw (n, l, finish_run) a
  ]
]
on_runs-IsCapped stops s a = elim (stop_selected-runs s) [
  | inl e ↦ subst (All IsCapped) (sym e) a
  | inr (id, e) ↦ subst (All IsCapped) (sym e) (on_run-All IsCapped id stop s.runs (λ r h. h) a)
]
on_runs-IsCapped (ticks now) s a = a

-- No trace ever holds more than 300 lines, whatever runs start, end, are stopped and get events.
pub perform_all-IsCapped :
    (ops : List Op) (s : State) → All IsCapped s.runs → All IsCapped (perform_all ops s).runs
perform_all-IsCapped [] s a = a
perform_all-IsCapped (op ∷ ops) s a =
    perform_all-IsCapped ops (perform op s) (on_runs-IsCapped op s a)

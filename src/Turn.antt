-- ===== src/Turn.antt =====
-- crates/neo-agent/src/agent/metal.rs: the reporter of a turn, which publishes the answer slice by
-- slice and keeps it in the store. Its locks are never poisoned; whether a flush is due and how long
-- the turn took are the clock's. An action's summary is the text it displays as. Trace annotations are
-- left out.
pub mod Usage
pub mod Ops
pub mod Stored
pub mod Kept
pub mod Shown
pub mod Agreement
use starkbot_neo.Common.{
  ℕ, suc, ◌+◌, ◌%◌, ◌^◌, String, Bool, true, false, not, ◌&&◌, Option, none, some, List, [], ◌∷◌,
  ◌++◌,
}
use starkbot_neo.Common.Tests.{ltb, leb, ◌==◌, if◌then◌else◌}
use starkbot_neo.Common.Lists.{length, drop, take_last}
use starkbot_neo.Common.Result.{ok, err}
use starkbot_neo.Json.{Json, string, object, field, end, pos_int}
use starkbot_neo.Thread.{
  Bytes, MessageRole, MessageKind, MessageSource, assistant, tool, from_system, answer, NewMessage,
  Message, Turn, StoreError, Tables, append_message, upsert_streaming_message, record_turn,
}
use starkbot_neo.Turn.Usage.{TurnUsage, LlmUsage, add, to_value}

pub record StepRecord : Type 0 where
  pub action : String
  pub observation : Bytes
  pub duration_ms : ℕ

pub data AppEvent : Type 0 where
  turn_step : String → ℕ → String → AppEvent
  turn_step_done : String → ℕ → Bytes → ℕ → AppEvent
  turn_note : String → ℕ → Bytes → AppEvent
  turn_delta : String → ℕ → Bytes → AppEvent
  turn_cost : String → TurnUsage → AppEvent
  turn_finished : String → Bytes → ℕ → Bool → Option TurnUsage → AppEvent
  turn_failed : String → String → String → AppEvent
  message : Message → AppEvent
  notice : String → StoreError → AppEvent

pub data Card : Type 0 where
  started : ℕ → String → Card
  done : ℕ → String → Bytes → ℕ → Card
  note : Bytes → Card

-- The reporter with its `Answer` and its `Tally`, the store, and what was published, the newest
-- first.
pub record Reporter : Type 0 where
  pub run : String
  pub conversation : String
  pub at : ℕ
  pub steps : ℕ
  pub seq : ℕ
  pub said : Bytes
  pub flushed : ℕ
  pub row : Option String
  pub usage : TurnUsage
  pub model : String
  pub provider : String
  pub records : List StepRecord
  pub tables : Tables
  pub published : List AppEvent

abbrev pub publish : AppEvent → Reporter → Reporter
publish e w = record w { published = e ∷ w.published }

-- What the store is asked to make up and whether it works, for one call.
pub record Try : Type 0 where
  pub works : Bool
  pub fresh : String

abbrev pub run_meta : String → Json
run_meta run = object (field "run" (string run) end)

abbrev pub answer_row : Reporter → NewMessage
answer_row w = record {
  conversation_id = w.conversation;
  role = assistant;
  source = from_system;
  kind = answer;
  text = [];
  task_id = none;
  meta = some (run_meta w.run);
  at = w.at;
}

-- `flush`.
unfoldable pub flush : Try → Reporter → Reporter
flush s w = elim (drop w.flushed w.said) [
  | [] ↦ w
  | b ∷ bs ↦
      let r = upsert_streaming_message s.works s.fresh (answer_row w) (b ∷ bs) w.tables in
      elim r.0 [
        | ok id ↦ record w { flushed = length w.said; row = some id; tables = r.1 }
        | err e ↦ w
      ]
]

-- `fetch_add(1)` on `AtomicU32`.
abbrev pub fetch_add : ℕ → ℕ
fetch_add n = (n + 1) % 2 ^ 32

-- `delta`; `due` is what the time since the last flush says.
unfoldable pub delta : Bytes → Bool → Try → Reporter → Reporter
delta [] due s w = w
delta (b ∷ bs) due s w =
    let w' =
      publish (turn_delta w.run w.seq (b ∷ bs))
        (record w { seq = fetch_add w.seq; said = w.said ++ (b ∷ bs) }) in
    if due then flush s w' else w'

abbrev bytes_eq : Bytes → Bytes → Bool
bytes_eq [] [] = true
bytes_eq (x ∷ xs) (y ∷ ys) = (x == y) && bytes_eq xs ys
bytes_eq [] (y ∷ ys) = false
bytes_eq (x ∷ xs) [] = false

-- `ends_with`.
abbrev pub ends_with : Bytes → Bytes → Bool
ends_with said text =
    leb (length text) (length said) && bytes_eq (take_last (length text) said) text

unfoldable pub whole_answer : Bytes → Bool → Try → Reporter → Reporter
whole_answer [] due s w = w
whole_answer (b ∷ bs) due s w = if ends_with w.said (b ∷ bs) then w else delta (b ∷ bs) due s w

unfoldable pub round_trip : LlmUsage → Reporter → Reporter
round_trip u w =
    let total = add u w.usage in publish (turn_cost w.run total) (record w { usage = total })

-- `record`, for a tool's row.
abbrev pub tool_row : Reporter → ℕ → Bytes → NewMessage
tool_row w step observation = record {
  conversation_id = w.conversation;
  role = tool;
  source = from_system;
  kind = MessageKind.result;
  text = observation;
  task_id = none;
  meta = some (object (field "run" (string w.run) (field "step" (pos_int step) end)));
  at = w.at;
}

unfoldable pub record_tool : ℕ → Bytes → Try → Reporter → Reporter
record_tool step observation s w =
    let r = append_message s.works s.fresh (tool_row w step observation) w.tables in
    elim r.0 [ ok stored ↦ publish (message stored) (record w { tables = r.1 }) | err e ↦ w ]

unfoldable pub publish_card : Card → Try → Reporter → Reporter
publish_card (started step summary) s w = publish (turn_step w.run step summary) w
publish_card (done step summary observation ms) s w =
    let w' =
      record_tool step observation s (publish (turn_step_done w.run step observation ms) w) in
    record w' {
      records =
          w'.records
          ++ (record { action = summary; observation = observation; duration_ms = ms } ∷ []);
    }
publish_card (note line) s w = publish (turn_note w.run w.steps line) w

abbrev pub turn_row : ℕ → String → Reporter → Turn
turn_row elapsed id w = record {
  id = id;
  conversation_id = w.conversation;
  model = w.model;
  provider = w.provider;
  duration_ms = elapsed;
  usage = some (to_value w.usage);
  started_at = w.at;
}

-- `Tally::record` and the runtime's `record_turn`: the turn's row, where the model was reached.
unfoldable pub record_usage : ℕ → Try → Reporter → Option TurnUsage × Reporter
record_usage elapsed s w = if w.usage.requests == 0 then (none, w) else (
  some w.usage,
  (let r = record_turn s.works (turn_row elapsed s.fresh w) w.tables in
      elim r.0 [
        | ok stored ↦ record w { tables = r.1 }
        | err e ↦ publish (notice "turn_not_recorded" e) (record w { tables = r.1 })
      ]),
)

unfoldable pub announce_answer : Bytes → Reporter → Reporter
announce_answer text w = elim w.row [
  | none ↦ w
  | some id ↦
      let m : Message = record {
        id = id;
        conversation_id = w.conversation;
        role = assistant;
        source = from_system;
        kind = answer;
        text = text;
        at = w.at;
        task_id = none;
        spoken = false;
        meta = some (run_meta w.run);
      } in
      publish (message m) w
]

abbrev pub u32_of : ℕ → ℕ
u32_of n = if ltb n (2 ^ 32) then n else 4_294_967_295

-- `finish`; the first attempt is the flush's and the second the turn row's.
unfoldable pub finish : Bool → ℕ → Try → Try → Reporter → Reporter
finish exhausted elapsed s s' w =
    let (usage, w') = record_usage elapsed s' (flush s w) in
    announce_answer w'.said
      (publish (turn_finished w'.run w'.said (u32_of (length w'.records)) exhausted usage) w')

-- `fail`, with the error's text and code.
unfoldable pub fail : String → String → ℕ → Try → Try → Reporter → Reporter
fail error code elapsed s s' w =
    let w' = (record_usage elapsed s' (flush s w)).1 in
    announce_answer w'.said (publish (turn_failed w'.run error code) w')

-- ===== src/Turn/Ops.antt =====
-- crates/neo-agent/src/agent/metal.rs: what happens in a turn until it is sealed.
use starkbot_neo.Common.{ℕ, ◌≡◌, String, Bool, false, ◌&&◌, none, List, [], ◌∷◌, str_eq}
use starkbot_neo.Thread.{
  Bytes, NewMessage, Tables, append_message, create, rename, is_run, encode_role,
}
use starkbot_neo.Turn.Usage.{LlmUsage, no_usage}
use starkbot_neo.Turn.{
  Reporter, Card, Try, AppEvent, turn_delta, delta, whole_answer, round_trip, publish_card,
}

-- The reporter's calls, and what others do to the threads meanwhile.
pub data Op : Type 0 where
  says : Bytes → Bool → Try → Op
  answers : Bytes → Bool → Try → Op
  prices : LlmUsage → Op
  shows : Card → Try → Op
  appends : NewMessage → Try → Op
  creates : ℕ → Try → Op
  renames : String → String → ℕ → Try → Op

abbrev pub perform : Op → Reporter → Reporter
perform (says text due s) w = delta text due s w
perform (answers text due s) w = whole_answer text due s w
perform (prices u) w = round_trip u w
perform (shows c s) w = publish_card c s w
perform (appends m s) w = record w { tables = (append_message s.works s.fresh m w.tables).1 }
perform (creates at s) w = record w { tables = (create s.works s.fresh none at w.tables).1 }
perform (renames id title at s) w = record w { tables = (rename s.works id title at w.tables).1 }

abbrev pub perform_all : List Op → Reporter → Reporter
perform_all [] w = w
perform_all (op ∷ ops) w = perform_all ops (perform op w)

-- Nobody else writes an assistant's message under the name of the run.
abbrev pub IsOther : String → Op → Type 0
IsOther run (appends m s) = (is_run run m.meta && str_eq (encode_role m.role) "assistant") ≡ false
IsOther run _ = Unit

-- A turn that begins: nothing was said, and its run has no answer in the thread.
abbrev pub begin : String → String → ℕ → String → String → Tables → Reporter
begin run conversation at model provider t = record {
  run = run;
  conversation = conversation;
  at = at;
  steps = 0;
  seq = 0;
  said = [];
  flushed = 0;
  row = none;
  usage = no_usage;
  model = model;
  provider = provider;
  records = [];
  tables = t;
  published = [];
}

-- The slices published, the newest first.
abbrev pub slices : List AppEvent → List (ℕ × Bytes)
slices [] = []
slices (turn_delta run seq text ∷ es) = (seq, text) ∷ slices es
slices (_ ∷ es) = slices es

-- ===== src/Thread.antt =====
-- crates/neo-store/src/conversations.rs: the threads, their messages and the turns. Each operation
-- is one transaction: `works` says whether SQLite carries it out, and where it does not the tables
-- are as they were. A text is its bytes; identifiers, which the store makes up, are arguments.
pub mod Growth
pub mod Steps
pub mod Order
pub mod Sound
use starkbot_neo.Common.{
  ℕ, zero, suc, ◌+◌, ◌≡◌, String, Bool, true, false, not, ◌&&◌, Option, none, some, List, [], ◌∷◌,
  ◌++◌, map, str_eq,
}
use starkbot_neo.Common.Tests.{ltb, leb, ◌==◌, if◌then◌else◌}
use starkbot_neo.Common.Lists.{any, keep_if, length, drop}
use starkbot_neo.Common.Result.{Result, ok, err}
use starkbot_neo.Json.{Json, get, as_object, as_str}

abbrev pub Bytes : Type 0
Bytes = List ℕ

pub data MessageRole : Type 0 where
  user assistant tool system : MessageRole

pub data MessageKind : Type 0 where
  text ask result answer : MessageKind

pub data MessageSource : Type 0 where
  voice typed from_system : MessageSource

pub data StoreError : Type 0 where
  sqlite : StoreError
  unknown_conversation : String → StoreError
  value_overflow : String → StoreError

pub record Conversation : Type 0 where
  pub id : String
  pub title : Option String
  pub created_at : ℕ
  pub updated_at : ℕ

pub record NewMessage : Type 0 where
  pub conversation_id : String
  pub role : MessageRole
  pub source : MessageSource
  pub kind : MessageKind
  pub text : Bytes
  pub task_id : Option String
  pub meta : Option Json
  pub at : ℕ

pub record Message : Type 0 where
  pub id : String
  pub conversation_id : String
  pub role : MessageRole
  pub source : MessageSource
  pub kind : MessageKind
  pub text : Bytes
  pub at : ℕ
  pub task_id : Option String
  pub spoken : Bool
  pub meta : Option Json

-- A row of `messages`: the message with its place in the thread.
pub record Row : Type 0 where
  pub seq : ℕ
  pub message : Message

pub record Turn : Type 0 where
  pub id : String
  pub conversation_id : String
  pub model : String
  pub provider : String
  pub duration_ms : ℕ
  pub usage : Option Json
  pub started_at : ℕ

-- The rows in the order of their insertion.
pub record Tables : Type 0 where
  pub conversations : List Conversation
  pub messages : List Row
  pub turns : List Turn

abbrev pub max : ℕ → ℕ → ℕ
max a b = if ltb a b then b else a

-- `encode_role`, and the comparison of two roles that the query makes on what it gives.
abbrev pub encode_role : MessageRole → String
encode_role user = "user"
encode_role assistant = "assistant"
encode_role tool = "tool"
encode_role system = "system"

unfoldable pub touch_row : String → ℕ → Conversation → Conversation
touch_row id at c = if str_eq c.id id then record c { updated_at = max c.updated_at at } else c

unfoldable pub touch : String → ℕ → Tables → Tables
touch id at t = record t { conversations = map (touch_row id at) t.conversations }

abbrev pub is_conversation : String → Conversation → Bool
is_conversation id c = str_eq c.id id

abbrev pub in_conversation : String → Row → Bool
in_conversation id r = str_eq r.message.conversation_id id

-- `COALESCE(MAX(seq), 0)` of a thread.
unfoldable pub last_seq : String → List Row → ℕ
last_seq id [] = 0
last_seq id (r ∷ rs) =
    let rest = last_seq id rs in if in_conversation id r then max r.seq rest else rest

-- `create`. The identifier is a primary key.
unfoldable pub create :
    Bool → String → Option String → ℕ → Tables → Result StoreError Conversation × Tables
create works id title at t =
    let row : Conversation = record { id = id; title = title; created_at = at; updated_at = at } in
    if works && not (any (is_conversation id) t.conversations)
    then (ok row, record t { conversations = t.conversations ++ (row ∷ []) })
    else (err sqlite, t)

-- A message as it is stored.
abbrev pub stored : String → NewMessage → Message
stored id m = record {
  id = id;
  conversation_id = m.conversation_id;
  role = m.role;
  source = m.source;
  kind = m.kind;
  text = m.text;
  at = m.at;
  task_id = m.task_id;
  spoken = false;
  meta = m.meta;
}

-- The row of a message at the end of its thread.
abbrev pub next_row : Message → List Row → Row
next_row m rows = record { seq = suc (last_seq m.conversation_id rows); message = m }

-- The `INSERT` into `messages`: the identifier is a primary key and the thread a foreign one.
unfoldable pub insert : Message → Tables → Option Tables
insert m t =
    if any (is_conversation m.conversation_id) t.conversations
      && not (any (λ (r : Row). str_eq r.message.id m.id) t.messages)
    then some (record t { messages = t.messages ++ (next_row m t.messages ∷ []) })
    else none

unfoldable pub append_message :
    Bool → String → NewMessage → Tables → Result StoreError Message × Tables
append_message works fresh m t =
    if works
    then elim (insert (stored fresh m) t) [
      | some t' ↦ (ok (stored fresh m), touch m.conversation_id m.at t')
      | none ↦ (err sqlite, t)
    ]
    else (err sqlite, t)

-- `meta.get("run").and_then(as_str)`, which is `json_extract(meta, '$.run')` on a text.
unfoldable pub run_of : Option Json → Option String
run_of none = none
run_of (some meta) = elim (as_object meta) [
  | none ↦ none
  | some fields ↦ elim (get fields "run") [ none ↦ none | some v ↦ as_str v ]
]

unfoldable pub is_run : String → Option Json → Bool
is_run run meta = elim (run_of meta) [ none ↦ false | some r ↦ str_eq r run ]

-- The `WHERE` of the query for the row that a run grows.
unfoldable pub grows : String → String → MessageRole → Row → Bool
grows id run role r =
    str_eq r.message.conversation_id id
    && is_run run r.message.meta
    && str_eq (encode_role r.message.role) (encode_role role)

-- `ORDER BY seq DESC LIMIT 1`.
unfoldable pub newest : (Row → Bool) → List Row → Option Row
newest p [] = none
newest p (r ∷ rs) =
    let rest = newest p rs in
    if p r
    then elim rest [ none ↦ some r | some q ↦ if leb r.seq q.seq then some q else some r ]
    else rest

unfoldable pub grow_row : String → Bytes → Row → Row
grow_row id more r =
    if str_eq r.message.id id
    then record r { message = record r.message { text = r.message.text ++ more } }
    else r

unfoldable pub upsert_streaming_message :
    Bool → String → NewMessage → Bytes → Tables → Result StoreError String × Tables
upsert_streaming_message works fresh m more t =
    let existing : Option Row = elim (run_of m.meta) [
      | none ↦ none
      | some run ↦ newest (grows m.conversation_id run m.role) t.messages
    ] in
    if works
    then elim existing [
      | some r ↦ (
        ok r.message.id,
        touch m.conversation_id m.at
            (record t { messages = map (grow_row r.message.id more) t.messages }),
      )
      | none ↦ elim (insert (stored fresh (record m { text = m.text ++ more })) t) [
        | some t' ↦ (ok fresh, touch m.conversation_id m.at t')
        | none ↦ (err sqlite, t)
      ]
    ]
    else (err sqlite, t)

-- The order of `created_at DESC, seq DESC`: whether the first row comes before the other.
abbrev pub is_newer : Row → Row → Bool
is_newer a b =
    if a.message.at == b.message.at then leb b.seq a.seq else ltb b.message.at a.message.at

-- `ORDER BY`, and `LIMIT`.
unfoldable pub place : Row → List Row → List Row
place r [] = r ∷ []
place r (q ∷ qs) = let rest = place r qs in if is_newer r q then r ∷ q ∷ qs else q ∷ rest

unfoldable pub order_by : List Row → List Row
order_by [] = []
order_by (r ∷ rs) = place r (order_by rs)

abbrev pub take {ℓ} : {A : Type ℓ} → ℕ → List A → List A
take zero xs = []
take (suc n) [] = []
take (suc n) (x ∷ xs) = x ∷ take n xs

abbrev pub reverse_onto {ℓ} : {A : Type ℓ} → List A → List A → List A
reverse_onto [] ys = ys
reverse_onto (x ∷ xs) ys = reverse_onto xs (x ∷ ys)

-- `messages`: the newest `limit` rows, the oldest first.
unfoldable pub messages : String → ℕ → Tables → List Row
messages id limit t =
    reverse_onto (take limit (order_by (keep_if (in_conversation id) t.messages))) []

abbrev pub i64_max : ℕ
i64_max = 9_223_372_036_854_775_807

unfoldable pub record_turn : Bool → Turn → Tables → Result StoreError Turn × Tables
record_turn works turn t =
    if not works
    then (err sqlite, t)
    else (if leb turn.duration_ms i64_max
        then (if any (is_conversation turn.conversation_id) t.conversations
              && not (any (λ (u : Turn). str_eq u.id turn.id) t.turns)
            then (
              ok turn,
              touch turn.conversation_id turn.started_at
                  (record t { turns = t.turns ++ (turn ∷ []) }),
            )
            else (err sqlite, t))
        else (err (value_overflow "turns.duration_ms"), t))

unfoldable pub rename_row : String → String → ℕ → Conversation → Conversation
rename_row id title at c =
    if str_eq c.id id then record c { title = some title; updated_at = max c.updated_at at } else c

unfoldable pub rename : Bool → String → String → ℕ → Tables → Result StoreError (Unit {0}) × Tables
rename works id title at t =
    if works
    then (if any (is_conversation id) t.conversations
        then (ok tt, record t { conversations = map (rename_row id title at) t.conversations })
        else (err (unknown_conversation id), t))
    else (err sqlite, t)

-- `delete`: the messages and the turns cascade.
unfoldable pub delete : Bool → String → Tables → Result StoreError (Unit {0}) × Tables
delete works id t =
    if works
    then (
      ok tt,
      record {
        conversations = keep_if (λ c. not (is_conversation id c)) t.conversations;
        messages = keep_if (λ r. not (in_conversation id r)) t.messages;
        turns = keep_if (λ (u : Turn). not (str_eq u.conversation_id id)) t.turns;
      },
    )
    else (err sqlite, t)

-- ===== src/Thread/Steps.antt =====
-- crates/neo-store/src/conversations.rs: what is asked of the threads in turn, and what holds of the
-- tables.
use starkbot_neo.Common.{ℕ, ◌≤◌, ◌<◌, String, ◌≡◌, Bool, true, Option, List, [], ◌∷◌, str_eq}
use starkbot_neo.Common.Lists.{any, All}
use starkbot_neo.Thread.{
  Bytes, NewMessage, Row, Conversation, Turn, Tables, is_conversation, create, append_message,
  upsert_streaming_message, record_turn, rename, delete,
}

-- An operation, with whether SQLite carries it out.
pub data Op : Type 0 where
  creates : Bool → String → Option String → ℕ → Op
  appends : Bool → String → NewMessage → Op
  upserts : Bool → String → NewMessage → Bytes → Op
  records : Bool → Turn → Op
  renames : Bool → String → String → ℕ → Op
  deletes : Bool → String → Op

abbrev pub perform : Op → Tables → Tables
perform (creates works id title at) t = (create works id title at t).1
perform (appends works fresh m) t = (append_message works fresh m t).1
perform (upserts works fresh m more) t = (upsert_streaming_message works fresh m more t).1
perform (records works turn) t = (record_turn works turn t).1
perform (renames works id title at) t = (rename works id title at t).1
perform (deletes works id) t = (delete works id t).1

abbrev pub perform_all : List Op → Tables → Tables
perform_all [] t = t
perform_all (op ∷ ops) t = perform_all ops (perform op t)

abbrev pub empty : Tables
empty = record { conversations = []; messages = []; turns = [] }

-- The row's thread is there.
abbrev pub IsLinked : List Conversation → Row → Type 0
IsLinked cs r = any (is_conversation r.message.conversation_id) cs ≡ true

-- A thread is as recent as each of its messages.
abbrev pub IsRecent : List Conversation → Row → Type 0
IsRecent cs r =
    All (λ c. is_conversation r.message.conversation_id c ≡ true → r.message.at ≤ c.updated_at) cs

abbrev pub IsBefore : Row → Row → Type 0
IsBefore r q = str_eq q.message.conversation_id r.message.conversation_id ≡ true → r.seq < q.seq

-- In each thread, the numbers rise in the order of insertion.
abbrev pub IsRising : List Row → Type 0
IsRising [] = Unit
IsRising (r ∷ rs) = All (IsBefore r) rs × IsRising rs

abbrev pub IsSound : Tables → Type 0
IsSound t =
    All (IsLinked t.conversations) t.messages
    × All (IsRecent t.conversations) t.messages
    × IsRising t.messages

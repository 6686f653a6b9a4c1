-- ===== src/Tests/Turn.antt =====
-- crates/neo-store/src/conversations.rs, crates/neo-agent/src/agent/metal.rs and the terminal: a
-- thread in which a run answers.
use starkbot_neo.Common.{
  ℕ, String, ◌≡◌, ◌≢◌, refl, str_eq, true, false, none, some, List, [], ◌∷◌, ◌++◌, arith,
}
use mathlib.Core.List.{Memᴰ}
use mathlib.Core.List.Memᴰ.{head, tail}
use starkbot_neo.Common.Lists.{any}
use starkbot_neo.Json.{get}
use starkbot_neo.Term.Answer.{Bytes, blank, deltas}
use starkbot_neo.Thread.{
  Row, Tables, assistant, newest, grows, is_run, run_of, is_conversation, upsert_streaming_message,
  insert, grow_row, touch, touch_row, last_seq,
}
use starkbot_neo.Thread.Growth.{IsGrown, text_before, upsert-IsGrown}
use starkbot_neo.Thread.{NewMessage, user, typed, text}
use starkbot_neo.Thread.Steps
use starkbot_neo.Thread.Steps.{creates, appends, deletes, perform_all, empty, IsSound}
use starkbot_neo.Thread.Sound.{threads-IsSound}
use starkbot_neo.Turn.{Reporter, answer_row, delta, flush, finish, record_usage, announce_answer}
use starkbot_neo.Turn.Ops.{Op, says, slices, begin}
use starkbot_neo.Turn.Stored.{answer_of}
use starkbot_neo.Turn.Agreement.{IsDelivered, Announces, turned, sealed, finish_agrees}

abbrev thread : Tables
thread = record {
  conversations = record { id = "c1"; title = none; created_at = 5; updated_at = 5 } ∷ [];
  messages = [];
  turns = [];
}

abbrev reporter : Reporter
reporter = begin "r1" "c1" 7 "gpt" "openai" thread

r1-run : run_of (answer_row reporter).meta ≡ some "r1"
unfolding run_of get
r1-run = refl

upsert-IsGrown_example :
    let find = grows "c1" "r1" assistant in
    IsGrown find
      (text_before (answer_row reporter) (newest find thread.messages) ++ (72 ∷ []))
      thread
      (upsert_streaming_message true "m1" (answer_row reporter) (72 ∷ []) thread)
upsert-IsGrown_example = upsert-IsGrown true "m1" "r1" (answer_row reporter) (72 ∷ []) thread r1-run

abbrev spoken_turn : List Op
spoken_turn =
    says (72 ∷ []) true (record { works = true; fresh = "m1" })
    ∷ says (105 ∷ []) false (record { works = true; fresh = "m2" })
    ∷ []

abbrev at_end : Reporter
at_end = turned "r1" "c1" 7 "gpt" "openai" thread spoken_turn "m9"

abbrev end_of_turn : Reporter
end_of_turn =
    sealed "r1" "c1" 7 "gpt" "openai" thread spoken_turn "m9" false 3
      (record { works = true; fresh = "t1" })

swap : (a b d : ℕ × Bytes) → Memᴰ d (a ∷ b ∷ []) → Memᴰ d (b ∷ a ∷ [])
swap a b d (head e) = tail (head e)
swap a b d (tail (head e)) = head e
swap a b d (tail (tail m)) = elim m [ ]

abbrev in_order : List (ℕ × Bytes)
in_order = (0, 72 ∷ []) ∷ (1, 105 ∷ []) ∷ []

not_yet : answer_of "r1" "c1" thread ≡ none
unfolding newest
not_yet = refl

there : any (is_conversation "c1") at_end.tables.conversations ≡ true
unfolding delta flush upsert_streaming_message run_of get newest insert touch touch_row
there = refl

is_new : any (λ (r : Row). str_eq r.message.id "m9") at_end.tables.messages ≡ false
unfolding delta flush upsert_streaming_message run_of get newest insert touch touch_row
is_new = refl

something : at_end.said ≢ []
unfolding delta flush upsert_streaming_message run_of get newest insert touch touch_row
something q = cc

delivered : IsDelivered in_order (slices end_of_turn.published)
unfolding delta flush upsert_streaming_message run_of get newest insert touch touch_row finish
    record_usage announce_answer grow_row grows is_run last_seq
delivered d = (swap (0, 72 ∷ []) (1, 105 ∷ []) d, swap (1, 105 ∷ []) (0, 72 ∷ []) d)

finish_agrees_example :
    ((r : Row) × (answer_of "r1" "c1" end_of_turn.tables ≡ some r)
      × (r.message.text ≡ at_end.said)
      × Announces r.message.id at_end.said end_of_turn.published)
    × ((deltas in_order blank).answer ≡ at_end.said)
finish_agrees_example =
    finish_agrees "r1" "c1" 7 "gpt" "openai" thread spoken_turn "m9" false 3
      (record { works = true; fresh = "t1" }) in_order not_yet (tt, (tt, tt)) (omega arith) there
      is_new something delivered

-- The slices came as the bytes of "Hi".
all_said : at_end.said ≡ 72 ∷ 105 ∷ []
unfolding delta flush upsert_streaming_message run_of get newest insert touch touch_row
all_said = refl

-- Two threads, a message in each and a late one, and one of the threads goes.
abbrev user_says : String → ℕ → NewMessage
user_says id at = record {
  conversation_id = id;
  role = user;
  source = typed;
  kind = text;
  text = 104 ∷ [];
  task_id = none;
  meta = none;
  at = at;
}

abbrev asked : List Steps.Op
asked =
    creates true "c1" none 5
    ∷ creates true "c2" none 6
    ∷ appends true "m1" (user_says "c1" 9)
    ∷ appends true "m2" (user_says "c2" 8)
    ∷ appends true "m3" (user_says "c1" 7)
    ∷ appends true "m1" (user_says "c1" 7)
    ∷ deletes true "c2"
    ∷ []

threads-IsSound_example : IsSound (perform_all asked empty)
threads-IsSound_example = threads-IsSound asked

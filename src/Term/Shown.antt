-- ===== src/Term/Shown.antt =====
-- crates/neo-tui/src/state.rs: each stored message stands in the thread once, also one that was steered.
use starkbot_neo.Common.{ℕ, ◌+◌, ◌-◌, ◌≡◌, String, false, Option, str_eq, List, [], ◌∷◌}
use starkbot_neo.Common.Tests.{if◌then◌else◌}
use starkbot_neo.Term.Steered.{
  Stored, ThreadRow, Rows, contains, push_steered, steer_missed, on_message, on_updated,
  on_turn_steered,
}
use starkbot_neo.Common.Lists.{any}
use starkbot_neo.Term.Texts.{same, says}
use starkbot_neo.Term.Told.{waits_after, told_after}
use starkbot_neo.Term.Settled.{IsNew, added_by}

pub data Op : Type 0 where
  steers : ℕ → ℕ → String → Op
  hears : ℕ → ℕ → String → Op
  records : Stored → Op
  updates : ℕ → String → Op
  misses : String → Op
  resets : Op

abbrev pub perform : Op → Rows → Rows
perform (steers id now said) s = push_steered id now said s
perform (hears id now said) s = on_turn_steered id now said s
perform (records m) s = on_message m s
perform (updates id said) s = record s { thread = on_updated id said s.thread }
perform (misses said) s = steer_missed said s
perform resets s = record s { thread = [] }

abbrev pub perform_all : List Op → Rows → Rows
perform_all [] s = s
perform_all (op ∷ ops) s = perform_all ops (perform op s)

-- An identifier is minted once, no stored message has it, and only stored messages are updated.
abbrev IsFresh : Op → Rows → Type 0
IsFresh (steers id now said) s = IsNew id s
IsFresh (hears id now said) s = IsNew id s
IsFresh (records m) s = IsNew m.id s
IsFresh (updates id said) s = contains id s.pending_steers ≡ false
IsFresh (misses said) s = Unit
IsFresh resets s = Unit

abbrev pub AreFresh : List Op → Rows → Type 0
AreFresh [] s = Unit
AreFresh (op ∷ ops) s = IsFresh op s × AreFresh ops (perform op s)

-- How often a message was recorded that is shown, since the thread was reset.
abbrev pub recorded : ℕ → ℕ → List Op → ℕ
recorded i n [] = n
recorded i n (records m ∷ ops) = recorded i (n + added_by m i) ops
recorded i n (resets ∷ ops) = recorded i 0 ops
recorded i n (steers id now said ∷ ops) = recorded i n ops
recorded i n (hears id now said ∷ ops) = recorded i n ops
recorded i n (updates id said ∷ ops) = recorded i n ops
recorded i n (misses said ∷ ops) = recorded i n ops

abbrev pub no_rows : Rows
no_rows = record { thread = []; pending_steers = [] }

-- How many messages of a text wait to be recorded: a steer makes one, and a stored message of the user or a
-- miss ends one of that text, if there is one.
abbrev waits_next : Op → Rows → (String → ℕ) → String → ℕ
waits_next (steers id now said) s n t = n t + same said t
waits_next (hears id now said) s n t =
    if any (λ (row : ThreadRow). str_eq row.text said) s.thread then n t else n t + same said t
waits_next (records m) s n t = waits_after m n t
waits_next (updates id said) s n t = n t
waits_next (misses said) s n t = n t - same said t
waits_next resets s n t = 0

abbrev pub waiting : (String → ℕ) → List Op → Rows → String → ℕ
waiting n [] s = n
waiting n (op ∷ ops) s = waiting (waits_next op s n) ops (perform op s)

-- What was said last of an identifier.
abbrev told_next : Op → (ℕ → Option String) → ℕ → Option String
told_next (steers id now said) told = says id said told
told_next (hears id now said) told = says id said told
told_next (records m) told = told_after m told
told_next (updates id said) told = says id said told
told_next (misses said) told = told
told_next resets told = told

abbrev pub told_last : (ℕ → Option String) → List Op → ℕ → Option String
told_last told [] = told
told_last told (op ∷ ops) = told_last (told_next op told) ops

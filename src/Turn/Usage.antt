-- ===== src/Turn/Usage.antt =====
-- crates/neo-core/src/events.rs: what a turn cost, and the accumulator that seals it.
use starkbot_neo.Common.{
  ℕ, ◌+◌, ◌-◌, ◌^◌, String, Bool, true, false, ◌&&◌, Option, none, some, List, [], ◌∷◌,
}
use starkbot_neo.Common.Tests.{ltb, if◌then◌else◌}
use starkbot_neo.Json.{Json, pos_int, object, field, end, index, or_else, as_u64}

pub record TurnUsage : Type 0 where
  pub input_tokens : ℕ
  pub output_tokens : ℕ
  pub cached_input_tokens : ℕ
  pub requests : ℕ

-- What a model's reply says that it used, as far as the accumulator reads it.
pub record LlmUsage : Type 0 where
  pub input_tokens : ℕ
  pub output_tokens : ℕ
  pub cached_input_tokens : ℕ

abbrev pub no_usage : TurnUsage
no_usage = record { input_tokens = 0; output_tokens = 0; cached_input_tokens = 0; requests = 0 }

-- `saturating_add` on a `w`-bit integer.
abbrev pub saturating_add : ℕ → ℕ → ℕ → ℕ
saturating_add w a b = if ltb (a + b) (2 ^ w) then a + b else 2 ^ w - 1

-- `TurnUsage::add`.
unfoldable pub add_usage : TurnUsage → TurnUsage → TurnUsage
add_usage a b = record {
  input_tokens = saturating_add 64 a.input_tokens b.input_tokens;
  output_tokens = saturating_add 64 a.output_tokens b.output_tokens;
  cached_input_tokens = saturating_add 64 a.cached_input_tokens b.cached_input_tokens;
  requests = saturating_add 32 a.requests b.requests;
}

-- `Tally::add`.
unfoldable pub add : LlmUsage → TurnUsage → TurnUsage
add u total = add_usage total (record {
  input_tokens = u.input_tokens;
  output_tokens = u.output_tokens;
  cached_input_tokens = u.cached_input_tokens;
  requests = 1;
})

-- `serde_json::to_value`.
unfoldable pub to_value : TurnUsage → Json
to_value u = object (
    field "input_tokens" (pos_int u.input_tokens) (
      field "output_tokens" (pos_int u.output_tokens) (
        field "cached_input_tokens" (pos_int u.cached_input_tokens)
          (field "requests" (pos_int u.requests) end))))

abbrev is_none {ℓ} : {A : Type ℓ} → Option A → Bool
is_none none = true
is_none (some a) = false

-- The first of the names under which the object has a count.
unfoldable pub count : Json → List String → Option ℕ
unfolding index
count usage [] = none
count usage (name ∷ names) =
    let rest = count usage names in
    elim (as_u64 (index usage name)) [ some n ↦ some n | none ↦ rest ]

-- `from_vendor`, both spellings of the counts.
unfoldable pub from_vendor : Json → Option TurnUsage
from_vendor usage =
    let input = count usage ("input_tokens" ∷ "prompt_tokens" ∷ []) in
    let output = count usage ("output_tokens" ∷ "completion_tokens" ∷ []) in
    let cached = count usage ("cache_read_input_tokens" ∷ "cached_tokens" ∷ []) in
    if is_none input && is_none output && is_none cached
    then none
    else some (record {
      input_tokens = or_else 0 input;
      output_tokens = or_else 0 output;
      cached_input_tokens = or_else 0 cached;
      requests = 1;
    })

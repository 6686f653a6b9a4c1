-- ===== src/Models/Ids.antt =====
-- crates/neo-core/src/registry.rs: the names of vendors and tiers, and the pieces of an id, which is
-- scanned by its code points.
use starkbot_neo.Common.{
  ℕ, ◌+◌, ◌-◌, ◌*◌, ◌^◌, String, Bool, ◌&&◌, ◌||◌, Option, none, some, List, [], ◌∷◌, str_eq,
}
use starkbot_neo.Common.Tests.{leb, ◌==◌, if◌then◌else◌}
use starkbot_neo.Common.Lists.{any}
use starkbot_neo.Common.Text.{codes, codes_prefix}

pub data ModelTier : Type 0 where
  sol terra luna : ModelTier

pub data ModelUseCase : Type 0 where
  inference text_helper speech_to_text text_to_speech : ModelUseCase

pub record Classified : Type 0 where
  pub id : String
  pub tier : Option ModelTier
  pub version : List ℕ
  pub dated : Bool
  pub use_cases : List ModelUseCase

abbrev hide_prefixes : List String
hide_prefixes =
    "whisper-1" ∷ "gpt-4o-transcribe" ∷ "gpt-4o-mini-transcribe" ∷ "tts-1" ∷ "gpt-image" ∷ "dall-e"
    ∷ []

abbrev pub starts_with : String → String → Bool
starts_with id prefix = codes_prefix (codes prefix) (codes id)

-- An id that is never offered.
unfoldable pub hidden : String → Bool
hidden id = any (λ prefix. str_eq id prefix || starts_with id prefix) hide_prefixes

-- The vendors.
pub data Vendor : Type 0 where
  openai anthropic : Vendor

-- Whose catalogue a connection draws on.
unfoldable pub vendor : String → Option Vendor
vendor provider =
    if str_eq provider "openai"
      || (str_eq provider "openai-codex" || str_eq provider "chatgpt-codex")
    then some openai
    else if str_eq provider "anthropic"
        || (str_eq provider "anthropic-oauth" || str_eq provider "claude-subscription")
    then some anthropic
    else none

unfoldable pub sol_fallback : String → Option String
unfolding vendor
sol_fallback provider = elim (vendor provider) [
  | some openai ↦ some "gpt-5.6-sol"
  | some anthropic ↦ some "claude-opus-5"
  | none ↦ none
]

-- `split`: the pieces between the separators, at least one.
abbrev push : ℕ → List (List ℕ) → List (List ℕ)
push c [] = (c ∷ []) ∷ []
push c (w ∷ ws) = (c ∷ w) ∷ ws

unfoldable pub split : ℕ → List ℕ → List (List ℕ)
split sep [] = [] ∷ []
split sep (c ∷ s) = let rest = split sep s in if c == sep then [] ∷ rest else push c rest

abbrev pub is_digit : ℕ → Bool
is_digit c = leb b'0' c && leb c b'9'

abbrev u32_max : ℕ
u32_max = 2 ^ 32 - 1

digits : ℕ → List ℕ → Option ℕ
digits acc [] = some acc
digits acc (c ∷ s) =
    let next = acc * 10 + (c - b'0') in
    let rest = digits next s in if is_digit c && leb next u32_max then rest else none

-- `parse::<u32>`: digits, after a plus sign if there is one, of a number that fits.
unfoldable pub parse_u32 : List ℕ → Option ℕ
unfolding digits
parse_u32 [] = none
parse_u32 (c ∷ []) = digits 0 (c ∷ [])
parse_u32 (c ∷ d ∷ s) = if c == b'+' then digits 0 (d ∷ s) else digits 0 (c ∷ d ∷ s)

parse_all : List (List ℕ) → Option (List ℕ)
unfolding parse_u32
parse_all [] = some []
parse_all (piece ∷ pieces) = elim (parse_u32 piece) [
  | none ↦ none
  | some n ↦ elim (parse_all pieces) [ none ↦ none | some ns ↦ some (n ∷ ns) ]
]

-- `5.10` is 5 and 10.
unfoldable pub numeric_tuple : List ℕ → Option (List ℕ)
unfolding parse_all split
numeric_tuple segment = parse_all (split b'.' segment)

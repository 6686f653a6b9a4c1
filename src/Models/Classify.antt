-- ===== src/Models/Classify.antt =====
-- crates/neo-core/src/registry.rs: what the id of a model says.
use starkbot_neo.Common.{
  ℕ, String, Bool, true, false, ◌&&◌, ◌||◌, Option, none, some, List, [], ◌∷◌, ◌++◌, str_eq,
}
use starkbot_neo.Common.Tests.{◌==◌, if◌then◌else◌}
use starkbot_neo.Common.Lists.{length, all}
use starkbot_neo.Common.Text.{codes, codes_eq, ends_with, contains_codes}
use starkbot_neo.Models.Ids.{
  ModelTier, sol, terra, luna, ModelUseCase, inference, text_helper, speech_to_text, text_to_speech,
  Classified, starts_with, hidden, openai, anthropic, vendor, split, is_digit, numeric_tuple,
}

abbrev both : List ModelUseCase
both = inference ∷ text_helper ∷ []

abbrev speech : String → ModelUseCase → Bool → Classified
speech id use_case dated = record {
  id = id;
  tier = none;
  version = [];
  dated = dated;
  use_cases = use_case ∷ [];
}

abbrev openai_tier : List ℕ → Option ModelTier
openai_tier word =
    if codes_eq word (codes "sol")
    then some sol
    else if codes_eq word (codes "terra")
    then some terra
    else if codes_eq word (codes "luna")
    then some luna
    else none

abbrev has_tail : List (List ℕ) → Bool
has_tail [] = false
has_tail (_ ∷ _) = true

-- `gpt-<version>-<tier>`; whatever follows the tier is not the evergreen id.
unfoldable pub classify_parts : String → List (List ℕ) → Option Classified
unfolding numeric_tuple
classify_parts id (number ∷ word ∷ tail) = elim (numeric_tuple number) [
  | none ↦ none
  | some version ↦ elim (openai_tier word) [
    | none ↦ none
    | some tier ↦ some (record {
      id = id;
      tier = some tier;
      version = version;
      dated = has_tail tail;
      use_cases = both;
    })
  ]
]
classify_parts id _ = none

-- `strip_prefix`.
abbrev pub strip_prefix : List ℕ → List ℕ → Option (List ℕ)
strip_prefix [] s = some s
strip_prefix (p ∷ ps) [] = none
strip_prefix (p ∷ ps) (c ∷ s) = let rest = strip_prefix ps s in if p == c then rest else none

-- The speech families.
unfoldable pub is_transcribe : String → Bool
is_transcribe id = str_eq id "gpt-transcribe" || starts_with id "gpt-transcribe-"

unfoldable pub is_live_transcribe : String → Bool
is_live_transcribe id = str_eq id "gpt-live-transcribe" || starts_with id "gpt-live-transcribe-"

unfoldable pub is_tts : String → Bool
unfolding contains_codes ends_with
is_tts id = contains_codes (codes "-tts-") (codes id) || ends_with (codes id) (codes "-tts")

unfoldable pub classify_gpt : String → Option Classified
unfolding classify_parts split
classify_gpt id = elim (strip_prefix (codes "gpt-") (codes id)) [
  | none ↦ none
  | some rest ↦ classify_parts id (split b'-' rest)
]

unfoldable pub classify_openai : String → Option Classified
classify_openai id =
    if is_transcribe id
    then some (speech id speech_to_text false)
    else if is_live_transcribe id
    then some (speech id speech_to_text true)
    else if is_tts id
    then some (speech id text_to_speech true)
    else classify_gpt id

-- What the scan of an Anthropic id has read.
pub record Scan : Type 0 where
  pub tier : Option ModelTier
  pub version : List ℕ
  pub dated : Bool

abbrev anthropic_tier : List ℕ → Option ModelTier
anthropic_tier word =
    if codes_eq word (codes "opus")
    then some sol
    else if codes_eq word (codes "sonnet")
    then some terra
    else if codes_eq word (codes "haiku")
    then some luna
    else none

-- One segment: a tier, the date of a snapshot, a piece of the version, or another word.
unfoldable pub scan_segment : List ℕ → Scan → Option Scan
unfolding numeric_tuple
scan_segment word s = elim (anthropic_tier word) [
  | some tier ↦ some (record s { tier = some tier })
  | none ↦
      if length word == 8 && all is_digit word
      then some (record s { dated = true })
      else if all is_digit word
      then elim (numeric_tuple word) [
        | some parsed ↦ some (record s { version = s.version ++ parsed })
        | none ↦ none
      ]
      else some (record s { dated = true })
]

unfoldable pub scan_segments : List (List ℕ) → Scan → Option Scan
unfolding scan_segment
scan_segments [] s = some s
scan_segments (word ∷ words) s = elim (scan_segment word s) [
  | none ↦ none
  | some s' ↦ scan_segments words s'
]

abbrev pub scanned : String → Scan → Option Classified
scanned id s = elim s.tier [
  | none ↦ none
  | some tier ↦
      some (record {
        id = id;
        tier = some tier;
        version = s.version;
        dated = s.dated;
        use_cases = both;
      })
]

unfoldable pub classify_anthropic : String → Option Classified
unfolding scan_segments split
classify_anthropic id = elim (strip_prefix (codes "claude-") (codes id)) [
  | none ↦ none
  | some rest ↦
      elim (scan_segments (split b'-' rest) (record { tier = none; version = []; dated = false })) [
        | none ↦ none
        | some s ↦ scanned id s
      ]
]

-- Understand one id; `none` is never offered.
unfoldable pub classify : String → String → Option Classified
unfolding hidden vendor
classify provider id = if hidden id then none else elim (vendor provider) [
  | some openai ↦ classify_openai id
  | some anthropic ↦ classify_anthropic id
  | none ↦ none
]

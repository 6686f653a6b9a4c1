-- ===== src/Nav/Wire.antt =====
-- crates/jev-nav/src/wire.rs: reading the answers of one evaluation. The HTTP client around
-- `evaluate` is an effect of the loop.
use starkbot_neo.Common.{ℕ, String, Bool, true, false, ◌&&◌, Option, none, some, List, [], ◌∷◌}
use starkbot_neo.Common.Tests.{◌==◌, if◌then◌else◌}
use starkbot_neo.Common.Lists.{length, all}
use starkbot_neo.Common.Float.{
  F64, f64_zero, f64_minus_zero, f64_one, f64_lt, f64_ge, is_nan, is_unit, magnitude,
}
use starkbot_neo.Common.Map.{lookup, put, string_ord, values}
use starkbot_neo.Common.Result.{Result, ok, err, ◌>>=◌, ok_or}
use starkbot_neo.Json.{
  Json, array, cons, nil, pos_int, neg_int, float, object, Fields, end, field, get, as_str, or_else,
}
use starkbot_neo.Nav.Externals.{Externals}

pub data WireError : Type 0 where
  connection : WireError
  status : ℕ → WireError
  invalid : String → WireError

pub record ChoiceAnswer : Type 0 where
  pub choice : String
  pub probabilities : List (String × F64)
  pub confidence : F64

-- The fields `model` and `latency`, which no decision reads, are left out.
pub record Evaluation : Type 0 where
  pub answers : Fields
  pub usage : Json

-- `value.as_f64()`.
unfoldable pub as_f64 : Externals → Json → Option F64
as_f64 x (pos_int n) = some (x.from_u64 n)
as_f64 x (neg_int n) = some (x.from_neg n)
as_f64 x (float f) = some f
as_f64 x _ = none

-- An object of numbers as a BTreeMap.
unfoldable pub numbers : Externals → Fields → Option (List (String × F64))
unfolding as_f64 put
numbers x end = some []
numbers x (field k v rest) = elim (as_f64 x v) [
  | none ↦ none
  | some n ↦ elim (numbers x rest) [ none ↦ none | some m ↦ some (put k n m) ]
]

abbrev number_map : Externals → Option Json → Option (List (String × F64))
number_map x (some (object fs)) = numbers x fs
number_map x _ = none

abbrev text_of : Option Json → Option String
text_of (some v) = as_str v
text_of none = none

abbrev number_of : Externals → Option Json → Option F64
number_of x (some v) = as_f64 x v
number_of x none = none

infixl 6 ◌>>?◌
abbrev ◌>>?◌ {ℓ κ} : {A : Type ℓ} {B : Type κ} → Option A → (A → Option B) → Option B
none >>? f = none
some a >>? f = f a

-- `serde_json::from_value::<ChoiceAnswer>`: from an object, whose other keys are ignored, or from
-- an array of the three fields in order.
unfoldable pub parse_choice : Externals → Json → Option ChoiceAnswer
unfolding get numbers
parse_choice x (object fs) = text_of (get fs "choice") >>? λ c.
    number_map x (get fs "probabilities") >>? λ ps. number_of x (get fs "confidence") >>? λ conf.
    some (record { choice = c; probabilities = ps; confidence = conf })
parse_choice x (array (cons c (cons ps (cons conf nil)))) = as_str c >>? λ c'.
    number_map x (some ps) >>? λ ps'. as_f64 x conf >>? λ conf'.
    some (record { choice = c'; probabilities = ps'; confidence = conf' })
parse_choice x _ = none

-- `iter().sum()`, from -0.0 as Rust starts it.
unfoldable pub sum : Externals → F64 → List F64 → F64
sum x acc [] = acc
sum x acc (p ∷ ps) = sum x (x.add acc p) ps

-- `fold(0.0, f64::max)`: the maximum passes over a NaN.
unfoldable pub maximum : F64 → List F64 → F64
unfolding f64_ge
maximum acc [] = acc
maximum acc (p ∷ ps) = maximum (if is_nan p then acc else if f64_ge acc p then acc else p) ps

-- The constants 0.02, 1e-6 and -1.0 as bit patterns.
abbrev pub tolerance : F64
tolerance = 0x3f94_7ae1_47ae_147b

abbrev pub slack : F64
slack = 0x3eb0_c6f7_a0b5_ed8d

abbrev pub minus_one : F64
minus_one = 0xbff0_0000_0000_0000

-- What makes a choice valid: it answers for the ids that were offered and no others, all numbers
-- are in [0, 1], they add up to 1, and the chosen one is at the top.
unfoldable pub is_valid_choice : Externals → List String → ChoiceAnswer → Bool
unfolding sum maximum is_unit lookup f64_lt f64_ge
is_valid_choice x offered answer =
    let ps = values answer.probabilities in
    let same_keys =
      length answer.probabilities == length offered
      && all (λ id. has (lookup id answer.probabilities)) offered in
    let top = maximum f64_zero ps in
    let chosen = or_else minus_one (lookup answer.choice answer.probabilities) in
    same_keys
    && is_unit answer.confidence
    && all is_unit ps
    && f64_lt (magnitude (x.sub (sum x f64_minus_zero ps) f64_one)) tolerance
    && f64_ge chosen (x.sub top slack)
  where
    has : Option F64 → Bool
    has none = false
    has (some _) = true

-- A `choice` answer, checked against the ids that were actually offered.
unfoldable pub choice :
    Externals → Evaluation → String → List String → Result WireError ChoiceAnswer
unfolding get parse_choice
choice x evaluation name offered = do
  answer ← ok_or (get evaluation.answers name >>? parse_choice x) (invalid name)
  if is_valid_choice x offered answer then ok answer else err (invalid name)

abbrev noul_field : Json → Option Json
unfolding get
noul_field (object fs) = get fs "noul"
noul_field _ = none

abbrev within_unit : F64 → Option F64
unfolding is_unit
within_unit p = if is_unit p then some p else none

-- A yes/no head's probability: an absent or unreadable one is an error.
unfoldable pub noul : Externals → Evaluation → String → Result WireError F64
unfolding get is_unit as_f64
noul x evaluation name =
    ok_or (get evaluation.answers name >>? noul_field >>? as_f64 x >>? within_unit) (invalid name)

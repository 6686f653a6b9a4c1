-- ===== src/Json.antt =====
-- serde_json's `Value` and `Map`: what the navigator reads of an observation and of a decision.
-- With the feature `preserve_order` an object keeps its keys in the order of insertion, and two
-- objects are equal when they have the same entries in any order.
use starkbot_neo.Common.{
  ℕ, suc, String, Bool, true, false, ◌&&◌, Option, none, some, List, [], ◌∷◌, str_eq,
}
use starkbot_neo.Common.Tests.{◌==◌, if◌then◌else◌}
use starkbot_neo.Common.Float.{F64, f64_le}

mutual
  pub data Json : Type 0 where
    null : Json
    bool : Bool → Json
    pos_int : ℕ → Json
    neg_int : ℕ → Json  -- `neg_int n` is -(n + 1)
    float : F64 → Json
    string : String → Json
    array : Items → Json
    object : Fields → Json

  pub data Items : Type 0 where
    nil : Items
    cons : Json → Items → Items

  pub data Fields : Type 0 where
    end : Fields
    field : String → Json → Fields → Fields

-- `map.get(key)`.
unfoldable pub get : Fields → String → Option Json
get end key = none
get (field k v rest) key = if str_eq k key then some v else get rest key

-- `map.insert(key, value)`: a key that is present keeps its place.
unfoldable pub insert : String → Json → Fields → Fields
insert key v end = field key v end
insert key v (field k w rest) =
    if str_eq k key then field k v rest else field k w (insert key v rest)

abbrev pub as_str : Json → Option String
as_str (string s) = some s
as_str _ = none

abbrev pub as_u64 : Json → Option ℕ
as_u64 (pos_int n) = some n
as_u64 _ = none

abbrev pub as_bool : Json → Option Bool
as_bool (bool b) = some b
as_bool _ = none

abbrev pub as_object : Json → Option Fields
as_object (object fs) = some fs
as_object _ = none

abbrev pub as_array : Json → Option Items
as_array (array xs) = some xs
as_array _ = none

-- `value[key]`: `null` where the value is no object or has no such key.
unfoldable pub index : Json → String → Json
unfolding get
index (object fs) key = elim (get fs key) [ none ↦ null | some v ↦ v ]
index _ key = null

abbrev pub or_else {ℓ} : {A : Type ℓ} → A → Option A → A
or_else a none = a
or_else a (some b) = b

-- An absent value in a `json!` literal is `null`.
abbrev pub of_option : Option Json → Json
of_option none = null
of_option (some v) = v

-- `map.get(key).and_then(Value::as_str)`.
unfoldable pub get_str : Fields → String → Option String
unfolding get
get_str fs key = elim (get fs key) [ none ↦ none | some v ↦ as_str v ]

unfoldable pub get_u64 : Fields → String → Option ℕ
unfolding get
get_u64 fs key = elim (get fs key) [ none ↦ none | some v ↦ as_u64 v ]

unfoldable pub to_list : Items → List Json
to_list nil = []
to_list (cons x xs) = x ∷ to_list xs

unfoldable pub of_list : List Json → Items
of_list [] = nil
of_list (x ∷ xs) = cons x (of_list xs)

unfoldable pub fields_of : List (String × Json) → Fields
fields_of [] = end
fields_of ((k, v) ∷ rest) = field k v (fields_of rest)

unfoldable pub length_fields : Fields → ℕ
length_fields end = 0
length_fields (field k v rest) = suc (length_fields rest)

abbrev bool_eq : Bool → Bool → Bool
bool_eq true b = b
bool_eq false true = false
bool_eq false false = true

-- `==` on two values. `within fs gs` says that `gs` has each entry of `fs`.
unfoldable mutual
  unfolding get length_fields f64_le

  pub json_eq : Json → Json → Bool
  json_eq null null = true
  json_eq null _ = false
  json_eq (bool a) (bool b) = bool_eq a b
  json_eq (bool a) _ = false
  json_eq (pos_int a) (pos_int b) = a == b
  json_eq (pos_int a) _ = false
  json_eq (neg_int a) (neg_int b) = a == b
  json_eq (neg_int a) _ = false
  json_eq (float a) (float b) = f64_le a b && f64_le b a
  json_eq (float a) _ = false
  json_eq (string a) (string b) = str_eq a b
  json_eq (string a) _ = false
  json_eq (array a) (array b) = items_eq a b
  json_eq (array a) _ = false
  json_eq (object a) (object b) = length_fields a == length_fields b && within a b
  json_eq (object a) _ = false

  pub items_eq : Items → Items → Bool
  items_eq nil nil = true
  items_eq nil _ = false
  items_eq (cons x xs) nil = false
  items_eq (cons x xs) (cons y ys) = json_eq x y && items_eq xs ys

  pub within : Fields → Fields → Bool
  within end gs = true
  within (field k v fs) gs = elim (get gs k) [ none ↦ false | some w ↦ json_eq v w && within fs gs ]

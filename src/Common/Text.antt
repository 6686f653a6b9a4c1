-- ===== src/Common/Text.antt =====
-- Text as Rust's `str` and `char` treat it: code points, ASCII case, white space, decimal numerals.
use Prim.Native.Nat.{ℕ, zero, suc, ◌+◌, ◌-◌, ◌/◌, ◌%◌}
use Prim.Native.Char.{Char, code}
use Prim.Native.String.{String, ◌++◌, char_at, slice}
use mathlib.Core.Bool.{Bool, true, false, ◌&&◌, ◌||◌}
use mathlib.Core.List.{List, [], ◌∷◌, reverse}
use starkbot_neo.Common.Tests.{ltb, leb, ◌==◌, if◌then◌else◌}

-- The code points of a text.
abbrev pub codes : String → List ℕ
codes String.[] = []
codes (String.◌∷◌ c s) = code c ∷ codes s

abbrev pub to_lower : ℕ → ℕ
to_lower c = if leb b'A' c && leb c b'Z' then c + 32 else c

-- `to_ascii_lowercase`, over the code points.
abbrev pub lower_codes : List ℕ → List ℕ
lower_codes [] = []
lower_codes (c ∷ s) = to_lower c ∷ lower_codes s

lower_char : Char → Char
lower_char c =
    if leb b'A' (code c) && leb (code c) b'Z'
    then char_at "abcdefghijklmnopqrstuvwxyz" (code c - b'A')
    else c

-- `to_ascii_lowercase`, as a text.
unfoldable pub to_ascii_lowercase : String → String
unfolding lower_char
to_ascii_lowercase String.[] = String.[]
to_ascii_lowercase (String.◌∷◌ c s) = String.◌∷◌ (lower_char c) (to_ascii_lowercase s)

upper_char : Char → Char
upper_char c =
    if leb b'a' (code c) && leb (code c) b'z'
    then char_at "ABCDEFGHIJKLMNOPQRSTUVWXYZ" (code c - b'a')
    else c

-- `to_uppercase` on ASCII text.
unfoldable pub to_ascii_uppercase : String → String
unfolding upper_char
to_ascii_uppercase String.[] = String.[]
to_ascii_uppercase (String.◌∷◌ c s) = String.◌∷◌ (upper_char c) (to_ascii_uppercase s)

-- `char::is_whitespace`: the characters with the property White_Space.
unfoldable pub is_whitespace : ℕ → Bool
is_whitespace c =
    (leb 9 c && leb c 13)
    || c == 32
    || c == 0x85
    || c == 0xa0
    || c == 0x1680
    || (leb 0x2000 c && leb c 0x200a)
    || c == 0x2028
    || c == 0x2029
    || c == 0x202f
    || c == 0x205f
    || c == 0x3000

unfoldable pub trim_start : List ℕ → List ℕ
unfolding is_whitespace
trim_start [] = []
trim_start (c ∷ s) = let rest = trim_start s in if is_whitespace c then rest else c ∷ s

-- `str::trim`.
unfoldable pub trim : List ℕ → List ℕ
unfolding trim_start
trim s = reverse (trim_start (reverse (trim_start s)))

abbrev pub codes_eq : List ℕ → List ℕ → Bool
codes_eq [] [] = true
codes_eq [] (d ∷ t) = false
codes_eq (c ∷ s) [] = false
codes_eq (c ∷ s) (d ∷ t) = c == d && codes_eq s t

abbrev pub codes_prefix : List ℕ → List ℕ → Bool
codes_prefix [] t = true
codes_prefix (c ∷ s) [] = false
codes_prefix (c ∷ s) (d ∷ t) = c == d && codes_prefix s t

-- `ends_with(suffix)`.
unfoldable pub ends_with : List ℕ → List ℕ → Bool
ends_with [] suffix = codes_eq [] suffix
ends_with (c ∷ s) suffix = codes_eq (c ∷ s) suffix || ends_with s suffix

-- `contains`.
unfoldable pub contains_codes : List ℕ → List ℕ → Bool
contains_codes part [] = codes_prefix part []
contains_codes part (c ∷ s) = let rest = contains_codes part s in codes_prefix part (c ∷ s) || rest

unfoldable pub contains : String → String → Bool
contains s part = contains_codes (codes part) (codes s)

digit : ℕ → String
digit n = slice "0123456789" n (n + 1)

digits_from : ℕ → ℕ → String → String
unfolding digit
digits_from zero n acc = acc
digits_from (suc fuel) n acc =
    let rest = digits_from fuel (n / 10) (digit (n % 10) ++ acc) in
    if ltb n 10 then digit n ++ acc else rest

-- A number in decimal. A number below 10 ^ f has at most f digits, so n + 1 rounds are enough.
unfoldable pub show : ℕ → String
unfolding digits_from
show n = digits_from (n + 1) n ""

-- ===== src/Term/Answer.antt =====
-- crates/neo-tui/src/state.rs: the answer that a running turn streams, put together from slices
-- that may come in any order and more than once. A text is its bytes.
use starkbot_neo.Common.{ℕ, suc, List, [], ◌∷◌, ◌++◌}
use starkbot_neo.Common.Tests.{ltb, ◌==◌, if◌then◌else◌}

abbrev pub Bytes : Type 0
Bytes = List ℕ

abbrev pub u32_max : ℕ
u32_max = 4_294_967_295

-- `saturating_add(1)` on `u32`.
abbrev pub saturating_suc : ℕ → ℕ
saturating_suc n = if ltb n u32_max then suc n else u32_max

-- What `delta` reads and writes of a turn: the answer so far, the next slice expected, and the
-- slices that came early, by their number.
pub record Progress : Type 0 where
  pub answer : Bytes
  pub next_seq : ℕ
  pub pending : List (ℕ × Bytes)

abbrev pub blank : Progress
blank = record { answer = []; next_seq = 0; pending = [] }

-- `binary_search_by_key` and `insert`: a number that is there keeps its slice.
unfoldable pub hold : ℕ → Bytes → List (ℕ × Bytes) → List (ℕ × Bytes)
hold seq text [] = (seq, text) ∷ []
hold seq text ((s, t) ∷ rest) =
    let later = hold seq text rest in
    if ltb seq s
    then (seq, text) ∷ (s, t) ∷ rest
    else (if seq == s then (s, t) ∷ rest else (s, t) ∷ later)

-- The `while` loop over the slices that are next.
unfoldable pub drain : Bytes → ℕ → List (ℕ × Bytes) → Progress
drain answer next [] = record { answer = answer; next_seq = next; pending = [] }
drain answer next ((s, t) ∷ rest) =
    let more = drain (answer ++ t) (saturating_suc s) rest in
    if s == next then more else record { answer = answer; next_seq = next; pending = (s, t) ∷ rest }

unfoldable pub delta : ℕ → Bytes → Progress → Progress
delta seq text p =
    if ltb seq p.next_seq
    then p
    else (if ltb p.next_seq seq
        then record p { pending = hold seq text p.pending }
        else drain (p.answer ++ text) (saturating_suc seq) p.pending)

-- Slices delivered one after the other.
abbrev pub deltas : List (ℕ × Bytes) → Progress → Progress
deltas [] p = p
deltas ((s, t) ∷ ds) p = deltas ds (delta s t p)

-- ===== src/Term/Moves.antt =====
-- crates/neo-tui/src/state.rs: the search of the thread for a row that waits to be recorded.
use starkbot_neo.Common.{
  ℕ, ◌+◌, ◌≡◌, inl, inr, String, true, false, not, ◌&&◌, ◌||◌, Option, none, some, List, [], ◌∷◌,
  ◌++◌, str_eq, arith,
}
use starkbot_neo.Common.Tests.{◌==◌, if◌then◌else◌, Bool-cases, Option-cases}
use starkbot_neo.Term.Steered.{ThreadRow, contains, is_waiting, adopt, behind, forget, remove_last}

abbrev pub one : ℕ → ℕ → ℕ
one j i = if j == i then 1 else 0

-- How many rows have an identifier.
abbrev pub occ : ℕ → List ThreadRow → ℕ
occ i [] = 0
occ i (row ∷ rows) = one row.id i + occ i rows

pub occ-append : (i : ℕ) (a b : List ThreadRow) → occ i (a ++ b) ≡ occ i a + occ i b
occ-append i [] b = omega arith
occ-append i (row ∷ a) b = let rest = occ-append i a b in omega arith

pub untrue : false ≡ true → ⊥
untrue e = cc

waiting-pending :
    (pending : List ℕ) (said : String) (row : ThreadRow)
    → is_waiting pending said row ≡ true
    → contains row.id pending ≡ true
waiting-pending pending said row h = elim (Bool-cases row.steered) [
  | inl s ↦ elim (Bool-cases (str_eq row.text said)) [
    | inl t ↦ (rw (s, t) at h)
    | inr t ↦ absurd (untrue (rw (s, t) at h))
  ]
  | inr s ↦ absurd (untrue (rw s at h))
]

-- What is found was pending, and where it stood are now `added` rows.
abbrev pub Moves : List ℕ → (ℕ → ℕ) → List ThreadRow → Option (ℕ × List ThreadRow) → Type 0
Moves pending added rows none = Unit
Moves pending added rows (some (minted, later)) =
    (contains minted pending ≡ true) × ((i : ℕ) → occ i later + one minted i ≡ occ i rows + added i)

behind-Moves :
    (pending : List ℕ) (added : ℕ → ℕ) (row : ThreadRow) (rows : List ThreadRow)
    (o : Option (ℕ × List ThreadRow))
    → Moves pending added rows o
    → Moves pending added (row ∷ rows) (behind row o)
behind-Moves pending added row rows none h = tt
behind-Moves pending added row rows (some (minted, later)) h = (h.0, λ i. omega (arith, h.1 i))

pub adopt-Moves :
    (pending : List ℕ) (stored : ThreadRow) (rows : List ThreadRow)
    → Moves pending (one stored.id) rows (adopt pending stored rows)
unfolding adopt
adopt-Moves pending stored [] = tt
adopt-Moves pending stored (row ∷ rows) = elim (Bool-cases (is_waiting pending stored.text row)) [
  | inl w ↦ rw w (waiting-pending pending stored.text row w, λ i. omega arith)
  | inr w ↦ rw w (
      behind-Moves pending (one stored.id) row rows (adopt pending stored rows)
        (adopt-Moves pending stored rows))
]

pub remove_last-Moves :
    (pending : List ℕ) (said : String) (rows : List ThreadRow)
    → Moves pending (λ i. 0) rows (remove_last pending said rows)
unfolding remove_last
remove_last-Moves pending said [] = tt
remove_last-Moves pending said (row ∷ rows) =
    let rest = remove_last-Moves pending said rows in
    elim (Option-cases (remove_last pending said rows)) [
      | inl e ↦ elim (Bool-cases (is_waiting pending said row)) [
        | inl w ↦ rw (e, w) (waiting-pending pending said row w, λ i. omega arith)
        | inr w ↦ rw (e, w) tt
      ]
      | inr (found, e) ↦ rw e (behind-Moves pending (λ i. 0) row rows (some found) (rw e at rest))
    ]

pub contains-forget :
    (i minted : ℕ) (ids : List ℕ)
    → contains i (forget minted ids) ≡ (not (minted == i) && contains i ids)
contains-forget i minted [] = ground arith
contains-forget i minted (j ∷ ids) = elim (Bool-cases (j == minted)) [
  | inl e ↦ rw e (ground (arith, contains-forget i minted ids))
  | inr e ↦ rw e (ground (arith, contains-forget i minted ids))
]

pub contains-push :
    (i id : ℕ) (ids : List ℕ) → contains i (ids ++ (id ∷ [])) ≡ (contains i ids || id == i)
contains-push i id [] = ground arith
contains-push i id (j ∷ ids) = ground (arith, contains-push i id ids)

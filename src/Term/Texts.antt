-- ===== src/Term/Texts.antt =====
-- crates/neo-tui/src/state.rs: which texts wait to be recorded, and that a row keeps its text.
use starkbot_neo.Common.{
  ℕ, ◌+◌, ◌≤◌, ◌<◌, ◌≡◌, refl, sym, subst, inl, inr, String, true, false, ◌&&◌, Option, none, some,
  List, [], ◌∷◌, ◌++◌, str_eq, eq_iff, arith,
}
use starkbot_neo.Common.Tests.{◌==◌, if◌then◌else◌, Bool-cases, Option-cases}
use starkbot_neo.Common.Lists.{All}
use starkbot_neo.Term.Steered.{
  ThreadRow, contains, is_waiting, adopt, behind, remove_last, on_updated,
}
use starkbot_neo.Term.Moves.{occ, untrue}

abbrev pub same : String → String → ℕ
same s t = if str_eq s t then 1 else 0

-- How many rows of a text wait.
abbrev pub awaits : List ℕ → String → List ThreadRow → ℕ
awaits pending t [] = 0
awaits pending t (row ∷ rows) = (if is_waiting pending t row then 1 else 0) + awaits pending t rows

pub awaits-append :
    (pending : List ℕ) (t : String) (a b : List ThreadRow)
    → awaits pending t (a ++ b) ≡ awaits pending t a + awaits pending t b
awaits-append pending t [] b = omega arith
awaits-append pending t (row ∷ a) b = let rest = awaits-append pending t a b in omega arith

-- Only the identifiers of the rows count.
pub awaits-pending :
    (p q : List ℕ) (t : String) (rows : List ThreadRow)
    → ((i : ℕ) → 0 < occ i rows → contains i p ≡ contains i q)
    → awaits p t rows ≡ awaits q t rows
awaits-pending p q t [] h = refl
awaits-pending p q t (row ∷ rows) h =
    let here : contains row.id p ≡ contains row.id q = h row.id (ground arith) in
    let rest = awaits-pending p q t rows (λ i o. h i (omega (arith, o))) in
    λ i. (if row.steered && (str_eq row.text t && here i) then 1 else 0) + rest i

waiting-text :
    (pending : List ℕ) (said : String) (row : ThreadRow)
    → is_waiting pending said row ≡ true
    → (row.text ≡ said) × ((t : String) → is_waiting pending t row ≡ str_eq said t)
waiting-text pending said row h = elim (Bool-cases row.steered) [
  | inl s ↦ elim (Bool-cases (str_eq row.text said)) [
    | inl e ↦
        let text = (eq_iff row.text said).0 e in
        let there : contains row.id pending ≡ true = rw (s, e) at h in
        (
          text,
          λ t.
              rw (s, there)
                (elim (Bool-cases (str_eq row.text t)) [
                  | inl a ↦ rw a (sym (subst (λ u. str_eq u t ≡ true) text a))
                  | inr a ↦ rw a (sym (subst (λ u. str_eq u t ≡ false) text a))
                ]),
        )
    | inr e ↦ absurd (untrue (rw (s, e) at h))
  ]
  | inr s ↦ absurd (untrue (rw s at h))
]

-- Of the rows that wait for the text one less waits, or there was none.
abbrev pub Awaits : List ℕ → String → String → List ThreadRow → Option (ℕ × List ThreadRow) → Type 0
Awaits pending said t rows none = awaits pending said rows ≡ 0
Awaits pending said t rows (some (minted, later)) =
    awaits pending t later + same said t ≡ awaits pending t rows

behind-Awaits :
    (pending : List ℕ) (said t : String) (row : ThreadRow) (rows : List ThreadRow)
    (o : Option (ℕ × List ThreadRow))
    → is_waiting pending said row ≡ false
    → Awaits pending said t rows o
    → Awaits pending said t (row ∷ rows) (behind row o)
behind-Awaits pending said t row rows none w h = rw w (omega (arith, h))
behind-Awaits pending said t row rows (some (minted, later)) w h = omega (arith, h)

pub adopt-Awaits :
    (pending : List ℕ) (stored : ThreadRow) (t : String) (rows : List ThreadRow)
    → contains stored.id pending ≡ false
    → Awaits pending stored.text t rows (adopt pending stored rows)
unfolding adopt
adopt-Awaits pending stored t [] n = refl
adopt-Awaits pending stored t (row ∷ rows) n =
    elim (Bool-cases (is_waiting pending stored.text row)) [
      | inl w ↦
          let counted = (waiting-text pending stored.text row w).1 t in
          rw (w, n, counted) (ground arith)
      | inr w ↦ rw w (
          behind-Awaits pending stored.text t row rows (adopt pending stored rows) w
            (adopt-Awaits pending stored t rows n))
    ]

pub remove_last-Awaits :
    (pending : List ℕ) (said t : String) (rows : List ThreadRow)
    → Awaits pending said t rows (remove_last pending said rows)
unfolding remove_last
remove_last-Awaits pending said t [] = refl
remove_last-Awaits pending said t (row ∷ rows) =
    let rest = remove_last-Awaits pending said t rows in
    elim (Option-cases (remove_last pending said rows)) [
      | inl e ↦ elim (Bool-cases (is_waiting pending said row)) [
        | inl w ↦
            let counted = (waiting-text pending said row w).1 t in rw (e, w, counted) (omega arith)
        | inr w ↦ let none_there = rw e at rest in rw (e, w) (rw w (omega (arith, none_there)))
      ]
      | inr ((minted, later), e) ↦ let found = rw e at rest in rw e (omega (arith, found))
    ]

-- A row has the text that is said of its identifier.
abbrev pub IsTold : (ℕ → Option String) → ThreadRow → Type 0
IsTold told row = told row.id ≡ some row.text

abbrev pub says : ℕ → String → (ℕ → Option String) → ℕ → Option String
says id said told i = if id == i then some said else told i

pub IsTold-says :
    (id : ℕ) (said : String) (told : ℕ → Option String) (rows : List ThreadRow)
    → occ id rows ≡ 0
    → All (IsTold told) rows
    → All (IsTold (says id said told)) rows
IsTold-says id said told [] o a = tt
IsTold-says id said told (row ∷ rows) o (h, hs) =
    let apart : (id == row.id) ≡ false = ground arith in
    (rw apart h, IsTold-says id said told rows (omega (arith, o)) hs)

abbrev pub AllTold : (ℕ → Option String) → Option (ℕ × List ThreadRow) → Type 0
AllTold told none = Unit
AllTold told (some (minted, later)) = All (IsTold told) later

behind-AllTold :
    (told : ℕ → Option String) (row : ThreadRow) (o : Option (ℕ × List ThreadRow))
    → IsTold told row
    → AllTold told o
    → AllTold told (behind row o)
behind-AllTold told row none h a = tt
behind-AllTold told row (some (minted, later)) h a = (h, a)

pub adopt-AllTold :
    (pending : List ℕ) (stored : ThreadRow) (told : ℕ → Option String) (rows : List ThreadRow)
    → occ stored.id rows ≡ 0
    → All (IsTold told) rows
    → AllTold (says stored.id stored.text told) (adopt pending stored rows)
unfolding adopt
adopt-AllTold pending stored told [] o a = tt
adopt-AllTold pending stored told (row ∷ rows) o (h, hs) =
    let apart : (stored.id == row.id) ≡ false = ground arith in
    let new : occ stored.id rows ≡ 0 = omega (arith, o) in
    let rest = adopt-AllTold pending stored told rows new hs in
    elim (Bool-cases (is_waiting pending stored.text row)) [
      | inl w ↦
          let text = (waiting-text pending stored.text row w).0 in
          rw w (ground arith, IsTold-says stored.id stored.text told rows new hs)
      | inr w ↦ rw w (
          behind-AllTold (says stored.id stored.text told) row (adopt pending stored rows)
            (rw apart h) rest)
    ]

pub remove_last-AllTold :
    (pending : List ℕ) (said : String) (told : ℕ → Option String) (rows : List ThreadRow)
    → All (IsTold told) rows
    → AllTold told (remove_last pending said rows)
unfolding remove_last
remove_last-AllTold pending said told [] a = tt
remove_last-AllTold pending said told (row ∷ rows) (h, hs) =
    let rest = remove_last-AllTold pending said told rows hs in
    elim (Option-cases (remove_last pending said rows)) [
      | inl e ↦ elim (Bool-cases (is_waiting pending said row)) [
        | inl w ↦ rw (e, w) hs
        | inr w ↦ rw (e, w) tt
      ]
      | inr ((minted, later), e) ↦ rw e (h, rw e at rest)
    ]

pub on_updated-IsTold :
    (id : ℕ) (said : String) (told : ℕ → Option String) (rows : List ThreadRow)
    → occ id rows ≤ 1
    → All (IsTold told) rows
    → All (IsTold (says id said told)) (on_updated id said rows)
unfolding on_updated
on_updated-IsTold id said told [] o a = tt
on_updated-IsTold id said told (row ∷ rows) o (h, hs) = elim (Bool-cases (row.id == id)) [
  | inl e ↦ rw e (ground arith, IsTold-says id said told rows (ground arith) hs)
  | inr e ↦
      let apart : (id == row.id) ≡ false = ground arith in
      rw e (rw apart h, on_updated-IsTold id said told rows (omega (arith, o)) hs)
]

pub on_updated-awaits :
    (pending : List ℕ) (id : ℕ) (said t : String) (rows : List ThreadRow)
    → contains id pending ≡ false
    → awaits pending t (on_updated id said rows) ≡ awaits pending t rows
unfolding on_updated
on_updated-awaits pending id said t [] n = refl
on_updated-awaits pending id said t (row ∷ rows) n = elim (Bool-cases (row.id == id)) [
  | inl e ↦
      let off : contains row.id pending ≡ false =
        subst (λ j. contains j pending ≡ false) (ground arith) n in
      rw (e, off) (ground arith)
  | inr e ↦ rw e (omega (arith, on_updated-awaits pending id said t rows n))
]

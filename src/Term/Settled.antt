-- ===== src/Term/Settled.antt =====
-- crates/neo-tui/src/state.rs: what a steer, a stored message and a miss do to the rows that do not wait.
use starkbot_neo.Common.{
  ℕ, ◌+◌, ◌≤◌, ◌≡◌, refl, sym, subst, ◌∙◌, inl, inr, String, Bool, true, false, ◌||◌, some, List,
  [], ◌∷◌, ◌++◌, str_eq, arith,
}
use starkbot_neo.Common.Tests.{◌==◌, if◌then◌else◌, Bool-cases, Option-cases}
use starkbot_neo.Common.Lists.{any}
use starkbot_neo.Term.Steered.{
  Stored, ThreadRow, Rows, row_of, shown_row, is_shown, is_user, contains, push_steered, adopt,
  forget, adopt_steered, remove_last, steer_missed, on_message, on_updated, on_turn_steered,
}
use starkbot_neo.Term.Moves.{
  one, occ, occ-append, untrue, Moves, adopt-Moves, remove_last-Moves, contains-forget,
  contains-push,
}

-- A pending identifier stands in the thread at most once.
abbrev pub IsPaired : Rows → Type 0
IsPaired s = (i : ℕ) → contains i s.pending_steers ≡ true → occ i s.thread ≤ 1

-- How often a message stands in the thread that is not pending.
abbrev pub settled : ℕ → Rows → ℕ
settled i s = if contains i s.pending_steers then 0 else occ i s.thread

abbrev pub IsNew : ℕ → Rows → Type 0
IsNew id s = (contains id s.pending_steers ≡ false) × (occ id s.thread ≡ 0)

-- What an operation does: `added` more rows are settled.
abbrev pub Adds : (ℕ → ℕ) → Rows → Rows → Type 0
Adds added s s' = IsPaired s' × ((i : ℕ) → settled i s' ≡ settled i s + added i)

pub IsNew-at : (id i : ℕ) (s : Rows) → IsNew id s → (id == i) ≡ true → IsNew i s
IsNew-at id i s n e = let same : id ≡ i = ground arith in subst (λ j. IsNew j s) same n

pub one-true : (id i : ℕ) → (id == i) ≡ true → one id i ≡ 1
one-true id i e = rw e refl

pub one-false : (id i : ℕ) → (id == i) ≡ false → one id i ≡ 0
one-false id i e = rw e refl

pub or-false : (a b : Bool) → b ≡ false → (a || b) ≡ true → a ≡ true
or-false true b e h = refl
or-false false b e h = sym (cc)

if-same : (b : Bool) (m n : ℕ) → m ≡ n → (if b || false then 0 else m) ≡ (if b then 0 else n) + 0
if-same true m n h = omega arith
if-same false m n h = omega arith

pub push_steered-Adds :
    (id now : ℕ) (said : String) (s : Rows)
    → IsNew id s
    → IsPaired s
    → Adds (λ i. 0) s (push_steered id now said s)
unfolding push_steered
push_steered-Adds id now said s n p = (
  λ i h. elim (Bool-cases (id == i)) [
    | inl e ↦
        let there = (IsNew-at id i s n e).1 in
        omega (arith, occ-append i s.thread _, one-true id i e)
    | inr e ↦ omega (
      arith,
      occ-append i s.thread _,
      one-false id i e,
      p i (
          or-false (contains i s.pending_steers) (id == i) e
            (sym (contains-push i id s.pending_steers) ∙ h)),
    )
  ],
  λ i. elim (Bool-cases (id == i)) [
    | inl e ↦
        let there = IsNew-at id i s n e in
        rw (contains-push i id s.pending_steers, e, there.0) (omega (arith, there.1))
    | inr e ↦
        rw (contains-push i id s.pending_steers, e)
          (if-same (contains i s.pending_steers) (occ i (push_steered id now said s).thread)
            (occ i s.thread) (omega (arith, occ-append i s.thread _, one-false id i e)))
  ],
)

-- A row that was found leaves the pending ones.
found-Adds :
    (added : ℕ → ℕ) (minted : ℕ) (later : List ThreadRow) (s : Rows)
    → Moves s.pending_steers added s.thread (some (minted, later))
    → ((i : ℕ) → contains i s.pending_steers ≡ true → added i ≡ 0)
    → IsPaired s
    → Adds added s (record { thread = later; pending_steers = forget minted s.pending_steers })
found-Adds added minted later s h new p = (
  λ i c. elim (Bool-cases (minted == i)) [
    | inl e ↦ absurd (untrue (rw (contains-forget i minted s.pending_steers, e) at c))
    | inr e ↦
        let was = rw (contains-forget i minted s.pending_steers, e) at c in
        omega (arith, h.1 i, new i was, p i was)
  ],
  λ i. elim (Bool-cases (minted == i)) [
    | inl e ↦
        let same : minted ≡ i = ground arith in
        let was = subst (λ j. contains j s.pending_steers ≡ true) same h.0 in
        rw (contains-forget i minted s.pending_steers, e, was)
          (omega (arith, h.1 i, one-true minted i e, new i was, p i was))
    | inr e ↦ elim (Bool-cases (contains i s.pending_steers)) [
      | inl was ↦ rw (contains-forget i minted s.pending_steers, e, was) (omega (arith, new i was))
      | inr was ↦
          rw (contains-forget i minted s.pending_steers, e, was)
            (omega (arith, h.1 i, one-false minted i e))
    ]
  ],
)

none-Adds : (s : Rows) → IsPaired s → Adds (λ i. 0) s s
none-Adds s p = (p, λ i. omega arith)

pub steer_missed-Adds :
    (said : String) (s : Rows) → IsPaired s → Adds (λ i. 0) s (steer_missed said s)
unfolding steer_missed
steer_missed-Adds said s p =
    let moves = remove_last-Moves s.pending_steers said s.thread in
    elim (Option-cases (remove_last s.pending_steers said s.thread)) [
      | inl e ↦ rw (steer_missed, e) (none-Adds s p)
      | inr ((minted, later), e) ↦
          rw (steer_missed, e) (found-Adds (λ i. 0) minted later s (rw e at moves) (λ i c. refl) p)
    ]

pub occ-on_updated :
    (i id : ℕ) (said : String) (rows : List ThreadRow)
    → occ i (on_updated id said rows) ≡ occ i rows
unfolding on_updated
occ-on_updated i id said [] = refl
occ-on_updated i id said (row ∷ rows) = elim (Bool-cases (row.id == id)) [
  | inl e ↦ rw e refl
  | inr e ↦ rw e (omega (arith, occ-on_updated i id said rows))
]

-- A stored message that no row has yet.
pub new-zero :
    (id : ℕ) (s : Rows) → IsNew id s → (i : ℕ) → contains i s.pending_steers ≡ true → one id i ≡ 0
new-zero id s n i c = elim (Bool-cases (id == i)) [
  | inl e ↦ absurd (untrue (sym (IsNew-at id i s n e).0 ∙ c))
  | inr e ↦ one-false id i e
]

row-Adds :
    (row : ThreadRow) (s : Rows)
    → IsNew row.id s
    → IsPaired s
    → Adds (one row.id) s (record s { thread = s.thread ++ (row ∷ []) })
row-Adds row s n p = (
  λ i c. omega (arith, occ-append i s.thread (row ∷ []), p i c, new-zero row.id s n i c),
  λ i. elim (Bool-cases (contains i s.pending_steers)) [
    | inl c ↦ rw c (omega (arith, new-zero row.id s n i c))
    | inr c ↦ rw c (omega (arith, occ-append i s.thread (row ∷ [])))
  ],
)

adopted-Adds :
    (row : ThreadRow) (s : Rows)
    → IsNew row.id s
    → IsPaired s
    → let r = adopt_steered row s in
      Adds (one row.id) s (if r.0 then r.1 else record r.1 { thread = r.1.thread ++ (row ∷ []) })
unfolding adopt_steered
adopted-Adds row s n p = elim (Bool-cases (is_user row.role)) [
  | inl u ↦
      let moves = adopt-Moves s.pending_steers row s.thread in
      elim (Option-cases (adopt s.pending_steers row s.thread)) [
        | inl e ↦ rw (u, e) (row-Adds row s n p)
        | inr ((minted, later), e) ↦
            rw (u, e)
              (found-Adds (one row.id) minted later s (rw e at moves) (new-zero row.id s n) p)
      ]
  | inr u ↦ rw u (row-Adds row s n p)
]

abbrev pub added_by : Stored → ℕ → ℕ
added_by m i = if is_shown m.role then one m.id i else 0

pub on_message-Adds :
    (m : Stored) (s : Rows) → IsNew m.id s → IsPaired s → Adds (added_by m) s (on_message m s)
unfolding on_message
on_message-Adds m s n p = elim (Bool-cases (is_shown m.role)) [
  | inl e ↦ rw (on_message, row_of, e) (adopted-Adds (shown_row m) s n p)
  | inr e ↦ rw (on_message, row_of, e) (none-Adds s p)
]

pub hears-Adds :
    (id now : ℕ) (said : String) (s : Rows)
    → IsNew id s
    → IsPaired s
    → Adds (λ i. 0) s (on_turn_steered id now said s)
unfolding on_turn_steered
hears-Adds id now said s n p = elim (Bool-cases (any (λ row. str_eq row.text said) s.thread)) [
  | inl e ↦ rw (on_turn_steered, e) (none-Adds s p)
  | inr e ↦ rw (on_turn_steered, e) (push_steered-Adds id now said s n p)
]

-- ===== src/Term/Steered.antt =====
-- crates/neo-tui/src/state.rs: the rows of the thread, with those of the messages that were steered into
-- a turn. An identifier is a number, and a new one is given with the operation that mints it.
use starkbot_neo.Common.{
  ℕ, String, Bool, true, false, not, ◌&&◌, Option, none, some, List, [], ◌∷◌, ◌++◌, str_eq,
}
use starkbot_neo.Common.Tests.{◌==◌, if◌then◌else◌}
use starkbot_neo.Common.Lists.{any, keep_if}
use starkbot_neo.Thread.{MessageRole, user, system, MessageKind, text}

pub record Stored : Type 0 where
  pub id : ℕ
  pub role : MessageRole
  pub kind : MessageKind
  pub at : ℕ
  pub text : String

-- Its role is never `system`.
pub record ThreadRow : Type 0 where
  pub id : ℕ
  pub role : MessageRole
  pub kind : MessageKind
  pub at : ℕ
  pub text : String
  pub steered : Bool

abbrev pub shown_row : Stored → ThreadRow
shown_row m = record {
  id = m.id;
  role = m.role;
  kind = m.kind;
  at = m.at;
  text = m.text;
  steered = false;
}

abbrev pub is_shown : MessageRole → Bool
is_shown system = false
is_shown _ = true

-- `ThreadRow::of`.
unfoldable pub row_of : Stored → Option ThreadRow
row_of m = if is_shown m.role then some (shown_row m) else none

abbrev pub is_user : MessageRole → Bool
is_user user = true
is_user _ = false

pub record Rows : Type 0 where
  pub thread : List ThreadRow
  pub pending_steers : List ℕ

abbrev pub contains : ℕ → List ℕ → Bool
contains id ids = any (λ j. j == id) ids

abbrev pub is_waiting : List ℕ → String → ThreadRow → Bool
is_waiting pending said row = row.steered && (str_eq row.text said && contains row.id pending)

unfoldable pub push_steered : ℕ → ℕ → String → Rows → Rows
push_steered id now said s =
    let row : ThreadRow = record {
      id = id;
      role = user;
      kind = text;
      at = now;
      text = said;
      steered = true;
    } in
    record { thread = s.thread ++ (row ∷ []); pending_steers = s.pending_steers ++ (id ∷ []) }

abbrev pub behind : ThreadRow → Option (ℕ × List ThreadRow) → Option (ℕ × List ThreadRow)
behind row none = none
behind row (some (minted, later)) = some (minted, row ∷ later)

-- The first row that waits for this text takes the stored identifier; its own is given back.
unfoldable pub adopt : List ℕ → ThreadRow → List ThreadRow → Option (ℕ × List ThreadRow)
adopt pending stored [] = none
adopt pending stored (row ∷ rows) =
    let rest = adopt pending stored rows in
    if is_waiting pending stored.text row
    then some (row.id, record row { id = stored.id; at = stored.at; kind = stored.kind } ∷ rows)
    else behind row rest

abbrev pub forget : ℕ → List ℕ → List ℕ
forget minted ids = keep_if (λ j. not (j == minted)) ids

unfoldable pub adopt_steered : ThreadRow → Rows → Bool × Rows
unfolding adopt
adopt_steered stored s =
    if is_user stored.role
    then elim (adopt s.pending_steers stored s.thread) [
      | none ↦ (false, s)
      | some (minted, rows) ↦
          (true, record { thread = rows; pending_steers = forget minted s.pending_steers })
    ]
    else (false, s)

-- The last row that waits for this text goes.
unfoldable pub remove_last : List ℕ → String → List ThreadRow → Option (ℕ × List ThreadRow)
remove_last pending said [] = none
remove_last pending said (row ∷ rows) =
    let rest = remove_last pending said rows in
    elim rest [
      | none ↦ if is_waiting pending said row then some (row.id, rows) else none
      | some found ↦ behind row (some found)
    ]

unfoldable pub steer_missed : String → Rows → Rows
unfolding remove_last
steer_missed said s = elim (remove_last s.pending_steers said s.thread) [
  | none ↦ s
  | some (minted, rows) ↦ record { thread = rows; pending_steers = forget minted s.pending_steers }
]

-- The events: `Message` of the open conversation, `MessageUpdated`, `ConversationReset`, `TurnSteered`.
unfoldable pub on_message : Stored → Rows → Rows
unfolding row_of adopt_steered
on_message m s = elim (row_of m) [
  | none ↦ s
  | some row ↦
      let r = adopt_steered row s in
      if r.0 then r.1 else record r.1 { thread = r.1.thread ++ (row ∷ []) }
]

unfoldable pub on_updated : ℕ → String → List ThreadRow → List ThreadRow
on_updated id said [] = []
on_updated id said (row ∷ rows) =
    let rest = on_updated id said rows in
    if row.id == id then record row { text = said } ∷ rows else row ∷ rest

unfoldable pub on_turn_steered : ℕ → ℕ → String → Rows → Rows
unfolding push_steered
on_turn_steered id now said s =
    if any (λ row. str_eq row.text said) s.thread then s else push_steered id now said s

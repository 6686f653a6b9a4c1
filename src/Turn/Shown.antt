-- ===== src/Turn/Shown.antt =====
-- crates/neo-agent/src/agent/metal.rs with crates/neo-tui/src/state.rs: the slices that a turn
-- publishes, and what a terminal makes of them.
use starkbot_neo.Common.{
  ℕ, zero, suc, ◌+◌, ◌≤◌, ◌<◌, ◌≡◌, refl, sym, ap, ◌∙◌, subst, inl, inr, Bool, true, false, List,
  [], ◌∷◌, ◌++◌, arith,
}
use starkbot_neo.Common.Tests.{◌==◌, if◌then◌else◌, Bool-cases}
use starkbot_neo.Common.Lists.{length, All, All-map}
use starkbot_neo.Term.Answer.{Bytes, u32_max}
use starkbot_neo.Term.Reassembly.{spoken, came}
use starkbot_neo.Turn.{
  Reporter, Try, flush, delta, whole_answer, round_trip, publish_card, record_tool, started, done,
  note, publish, turn_delta, turn_step_done, fetch_add, ends_with,
}
use starkbot_neo.Turn.Ops.{
  Op, says, answers, prices, shows, appends, creates, renames, perform, perform_all, slices,
}

-- A slice that has been said.
abbrev pub IsSaid : (ℕ → Bytes) → ℕ → ℕ × Bytes → Type 0
IsSaid say n d = (d.1 ≡ say d.0) × (d.0 < n)

-- The slices published are numbered from 0 without a gap, and make what was said.
abbrev pub IsPublished : ℕ → Bytes → List (ℕ × Bytes) → Type 0
IsPublished n said ds =
    (say : ℕ → Bytes) × (spoken say n ≡ said)
    × All (IsSaid say n) ds
    × ((m : ℕ) → m < n → came m ds ≡ true)

-- The turn's later slices change nothing of the ones before.
abbrev extend : (ℕ → Bytes) → ℕ → Bytes → ℕ → Bytes
extend say n text m = if m == n then text else say m

extend-before :
    (say : ℕ → Bytes) (n : ℕ) (text : Bytes) (m : ℕ) → m < n → extend say n text m ≡ say m
extend-before say n text m l = ground arith

spoken-same : (f g : ℕ → Bytes) (n : ℕ) → ((m : ℕ) → m < n → f m ≡ g m) → spoken f n ≡ spoken g n
unfolding spoken
spoken-same f g zero h = refl
spoken-same f g (suc n) h =
    rw (spoken-same f g n (λ m l. h m (omega arith)), h n (omega arith)) refl

spoken-suc : (f : ℕ → Bytes) (n : ℕ) → spoken f (suc n) ≡ spoken f n ++ f n
unfolding spoken
spoken-suc f n = refl

pub spoken-zero : (f : ℕ → Bytes) → spoken f 0 ≡ []
unfolding spoken
spoken-zero f = refl

IsPublished-more :
    (n : ℕ) (said text : Bytes) (ds : List (ℕ × Bytes))
    → IsPublished n said ds
    → IsPublished (suc n) (said ++ text) ((n, text) ∷ ds)
IsPublished-more n said text ds (say, e, a, c) = (
  extend say n text,
  spoken-suc (extend say n text) n
      ∙ rw (spoken-same (extend say n text) say n (extend-before say n text), e) (ground arith),
  (
    (ground arith, omega arith),
    All-map (λ d i. (i.0 ∙ sym (extend-before say n text d.0 i.1), omega (arith, i.1))) ds a,
  ),
  λ m l. ground (arith, c m),
)

pub flush-published :
    (s : Try) (w : Reporter)
    → ((flush s w).seq ≡ w.seq)
      × ((flush s w).said ≡ w.said)
      × ((flush s w).published ≡ w.published)
unfolding flush
flush-published s w = ground arith

record_tool-published :
    (step : ℕ) (observation : Bytes) (s : Try) (w : Reporter)
    → ((record_tool step observation s w).seq ≡ w.seq)
      × ((record_tool step observation s w).said ≡ w.said)
      × (slices (record_tool step observation s w).published ≡ slices w.published)
unfolding record_tool
record_tool-published step observation s w = ground arith

fetch_add-suc : (n : ℕ) → n < u32_max → fetch_add n ≡ suc n
fetch_add-suc n l = ground arith

-- What a terminal is shown of the turn.
abbrev pub IsShown : Reporter → Type 0
IsShown w = IsPublished w.seq w.said (slices w.published)

IsShown-same :
    (w w' : Reporter)
    → (w'.seq ≡ w.seq) × (w'.said ≡ w.said) × (slices w'.published ≡ slices w.published)
    → IsShown w
    → IsShown w'
IsShown-same w w' (n, s, p) i = rw (n, s, p) i

-- A slice before its flush.
abbrev sent : Bytes → Reporter → Reporter
sent text w =
    publish (turn_delta w.run w.seq text)
      (record w { seq = fetch_add w.seq; said = w.said ++ text })

sent-IsShown :
    (text : Bytes) (w : Reporter)
    → w.seq < u32_max
    → IsShown w
    → IsShown (sent text w) × ((sent text w).seq ≤ suc w.seq)
sent-IsShown text w l i =
    let e = fetch_add-suc w.seq l in
    (
      subst (λ n. IsPublished n (w.said ++ text) ((w.seq, text) ∷ slices w.published)) (sym e)
          (IsPublished-more w.seq w.said text (slices w.published) i),
      omega (arith, e),
    )

delta-IsShown :
    (text : Bytes) (due : Bool) (s : Try) (w : Reporter)
    → w.seq < u32_max
    → IsShown w
    → IsShown (delta text due s w) × ((delta text due s w).seq ≤ suc w.seq)
unfolding delta
delta-IsShown [] due s w l i = (i, omega arith)
delta-IsShown (b ∷ bs) false s w l i = sent-IsShown (b ∷ bs) w l i
delta-IsShown (b ∷ bs) true s w l i =
    let (j, k) = sent-IsShown (b ∷ bs) w l i in
    let (n, said, p) = flush-published s (sent (b ∷ bs) w) in
    (
      IsShown-same (sent (b ∷ bs) w) (flush s (sent (b ∷ bs) w)) (n, said, ap slices p) j,
      subst (λ m. m ≤ suc w.seq) (sym n) k,
    )

perform-IsShown :
    (op : Op) (w : Reporter)
    → w.seq < u32_max
    → IsShown w
    → IsShown (perform op w) × ((perform op w).seq ≤ suc w.seq)
unfolding whole_answer round_trip publish_card
perform-IsShown (says text due s) w l i = delta-IsShown text due s w l i
perform-IsShown (answers [] due s) w l i = (i, omega arith)
perform-IsShown (answers (b ∷ bs) due s) w l i = elim (Bool-cases (ends_with w.said (b ∷ bs))) [
  | inl e ↦ rw (e, whole_answer) (i, omega arith)
  | inr e ↦ rw (e, whole_answer) (delta-IsShown (b ∷ bs) due s w l i)
]
perform-IsShown (prices u) w l i = (i, omega arith)
perform-IsShown (shows (started step summary) s) w l i = (i, omega arith)
perform-IsShown (shows (note line) s) w l i = (i, omega arith)
perform-IsShown (shows (done step summary observation ms) s) w l i =
    let shown = publish (turn_step_done w.run step observation ms) w in
    let same = record_tool-published step observation s shown in
    (
      IsShown-same w (record_tool step observation s shown) same i,
      subst (λ m. m ≤ suc w.seq) (sym same.0) (omega arith),
    )
perform-IsShown (appends m s) w l i = (i, omega arith)
perform-IsShown (creates at s) w l i = (i, omega arith)
perform-IsShown (renames id title at s) w l i = (i, omega arith)

pub perform_all-IsShown :
    (ops : List Op) (w : Reporter)
    → w.seq + length ops ≤ u32_max
    → IsShown w
    → IsShown (perform_all ops w) × ((perform_all ops w).seq ≤ u32_max)
perform_all-IsShown [] w l i = (i, omega arith)
perform_all-IsShown (op ∷ ops) w l i =
    let (j, k) = perform-IsShown op w (omega arith) i in
    perform_all-IsShown ops (perform op w) (omega arith) j

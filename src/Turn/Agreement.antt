-- ===== src/Turn/Agreement.antt =====
-- crates/neo-agent/src/agent/metal.rs, crates/neo-store/src/conversations.rs and
-- crates/neo-tui/src/state.rs: the end of a turn, for the thread and for a terminal.
use starkbot_neo.Common.{
  ℕ, ◌≤◌, ◌<◌, String, ◌≡◌, ◌≢◌, refl, sym, ap, ◌∙◌, subst, ◌↔◌, inl, inr, Bool, true, false, none,
  some, List, [], ◌∷◌, arith, str_eq,
}
use mathlib.Core.List.{Memᴰ}
use mathlib.Core.List.Memᴰ.{head, tail}
use starkbot_neo.Common.Tests.{◌==◌, ==_iff, Bool-cases}
use starkbot_neo.Common.Lists.{any, length, All}
use starkbot_neo.Term.Answer.{Bytes, u32_max, blank, deltas}
use starkbot_neo.Term.Reassembly.{came, IsSlice, deltas_whole}
use starkbot_neo.Thread.{
  Row, Tables, Message, is_conversation, record_turn, touch, assistant, newest, grows,
}
use starkbot_neo.Turn.{
  Reporter, Try, AppEvent, message, flush, finish, record_usage, announce_answer, turn_finished,
  publish, u32_of,
}
use starkbot_neo.Turn.Ops.{Op, perform_all, IsOther, begin, slices}
use starkbot_neo.Turn.Stored.{IsStored, answer_of, flush-answer_of}
use starkbot_neo.Turn.Kept.{perform_all-IsStored}
use starkbot_neo.Turn.Shown.{IsSaid, IsPublished, spoken-zero, flush-published, perform_all-IsShown}

-- The same slices, in any order and each as often as it likes.
abbrev pub IsDelivered : List (ℕ × Bytes) → List (ℕ × Bytes) → Type 0
IsDelivered ds published = (d : ℕ × Bytes) → Memᴰ d ds ↔ Memᴰ d published

came-Mem :
    (m : ℕ) (ds : List (ℕ × Bytes)) → came m ds ≡ true → (d : ℕ × Bytes) × Memᴰ d ds × (d.0 ≡ m)
came-Mem m [] h = cc
came-Mem m (d ∷ ds) h = elim (Bool-cases (d.0 == m)) [
  | inl e ↦ (d, head refl, (==_iff d.0 m).0 e)
  | inr e ↦ let (b, i, q) = came-Mem m ds (ground arith) in (b, tail i, q)
]

Mem-came : (d : ℕ × Bytes) (ds : List (ℕ × Bytes)) → Memᴰ d ds → came d.0 ds ≡ true
Mem-came d [] i = elim i [ ]
Mem-came d (b ∷ ds) (head e) = rw e (ground arith)
Mem-came d (b ∷ ds) (tail i) = ground (arith, Mem-came d ds i)

All-Mem :
    (P : ℕ × Bytes → Type 0) (d : ℕ × Bytes) (ds : List (ℕ × Bytes)) → All P ds → Memᴰ d ds → P d
All-Mem P d [] a i = elim i [ ]
All-Mem P d (b ∷ ds) (p, a) (head e) = subst P (sym e) p
All-Mem P d (b ∷ ds) (p, a) (tail i) = All-Mem P d ds a i

Mem-All :
    (P : ℕ × Bytes → Type 0) (ds : List (ℕ × Bytes))
    → ((d : ℕ × Bytes) → Memᴰ d ds → P d)
    → All P ds
Mem-All P [] f = tt
Mem-All P (d ∷ ds) f = (f d (head refl), Mem-All P ds (λ b i. f b (tail i)))

-- What was published is what a terminal puts together, in whatever order it gets the slices.
IsPublished-answer :
    (n : ℕ) (said : Bytes) (published ds : List (ℕ × Bytes))
    → n ≤ u32_max
    → IsPublished n said published
    → IsDelivered ds published
    → (deltas ds blank).answer ≡ said
IsPublished-answer n said published ds l (say, e, a, c) same =
    let slice : (d : ℕ × Bytes) → Memᴰ d ds → IsSaid say n d =
      λ d i. All-Mem (IsSaid say n) d published a ((same d).0 i) in
    let below : (m : ℕ) → came m ds ≡ true → m < n =
      λ m h. let (d, i, q) = came-Mem m ds h in subst (λ k. k < n) q (slice d i).1 in
    let above : (m : ℕ) → m < n → came m ds ≡ true = λ m h.
      let (d, i, q) = came-Mem m published (c m h) in
      subst (λ k. came k ds ≡ true) q (Mem-came d ds ((same d).1 i)) in
    deltas_whole say ds n
      (Mem-All (IsSlice say) ds (λ d i. ((slice d i).0, omega (arith, l, (slice d i).1))))
      (λ m. (below m, above m))
    ∙ e

record_usage-same :
    (elapsed : ℕ) (s : Try) (w : Reporter)
    → let w' = (record_usage elapsed s w).1 in
      (w'.said ≡ w.said)
      × (w'.row ≡ w.row)
      × (w'.tables.messages ≡ w.tables.messages)
      × (slices w'.published ≡ slices w.published)
unfolding record_usage record_turn touch
record_usage-same elapsed s w = ground arith

-- The event that announces an answer.
abbrev pub Announces : String → Bytes → List AppEvent → Type 0
Announces id said es =
    (m : Message) × (rest : List AppEvent) × (es ≡ message m ∷ rest) × (m.id ≡ id) × (m.text ≡ said)

announce_answer-Announces :
    (text : Bytes) (w : Reporter) (id : String)
    → w.row ≡ some id
    → let f = announce_answer text w in
      (f.tables.messages ≡ w.tables.messages)
      × (slices f.published ≡ slices w.published)
      × Announces id text f.published
unfolding announce_answer
announce_answer-Announces text w id h =
    rw (h, announce_answer) (refl, refl, (_, w.published, refl, refl, refl))

finish-same :
    (exhausted : Bool) (elapsed : ℕ) (s s' : Try) (w : Reporter) (id : String)
    → (flush s w).row ≡ some id
    → let f = finish exhausted elapsed s s' w in
      (f.tables.messages ≡ (flush s w).tables.messages)
      × (slices f.published ≡ slices w.published)
      × Announces id (flush s w).said f.published
unfolding finish
finish-same exhausted elapsed s s' w id h =
    let (usage, u) = record_usage elapsed s' (flush s w) in
    let (said, row, rows, shown) = record_usage-same elapsed s' (flush s w) in
    let (a, b, c) =
      announce_answer-Announces u.said
        (publish (turn_finished u.run u.said (u32_of (length u.records)) exhausted usage) u) id
        (row ∙ h) in
    let (n, same, events) = flush-published s w in
    (
      a ∙ rows,
      b ∙ shown ∙ ap slices events,
      subst (λ x. Announces id x (finish exhausted elapsed s s' w).published) said c,
    )

module _ (run conversation : String) (at : ℕ) (model provider : String) (t : Tables) (ops : List Op)
    (fresh : String) where
  -- The turn before it is sealed.
  abbrev pub turned : Reporter
  turned = perform_all ops (begin run conversation at model provider t)

  -- The turn sealed, with a last flush that SQLite carries out.
  abbrev pub sealed : Bool → ℕ → Try → Reporter
  sealed exhausted elapsed s =
      finish exhausted elapsed (record { works = true; fresh = fresh }) s turned

  -- However a turn goes on, with flushes that fail and with messages of others in between: when it
  -- is sealed and SQLite carries out the last flush, the run's row in the thread, the message that
  -- is announced for the row, and the answer of every terminal that got the turn's slices, in
  -- whatever order and however often each, are all that the turn said. The turn's thread is there,
  -- the run had no answer and said something, at most 2^32 - 1 calls, and the identifier is new.
  pub finish_agrees :
      (exhausted : Bool) (elapsed : ℕ) (s : Try) (ds : List (ℕ × Bytes))
      → answer_of run conversation t ≡ none
      → All (IsOther run) ops
      → length ops ≤ u32_max
      → any (is_conversation conversation) turned.tables.conversations ≡ true
      → any (λ (r : Row). str_eq r.message.id fresh) turned.tables.messages ≡ false
      → turned.said ≢ []
      → IsDelivered ds (slices (sealed exhausted elapsed s).published)
      → ((r : Row) × (answer_of run conversation (sealed exhausted elapsed s).tables ≡ some r)
          × (r.message.text ≡ turned.said)
          × Announces r.message.id turned.said (sealed exhausted elapsed s).published)
        × ((deltas ds blank).answer ≡ turned.said)
  finish_agrees exhausted elapsed s ds none_yet others few there new something same =
      let w = turned in
      let last : Try = record { works = true; fresh = fresh } in
      let stored : IsStored run conversation w =
        perform_all-IsStored run conversation ops (begin run conversation at model provider t)
          others (refl, refl, rw none_yet (refl, refl)) in
      let (shown, most) =
        perform_all-IsShown ops (begin run conversation at model provider t) (omega (arith, few))
          ((λ n. []), spoken-zero (λ n. []), tt, (λ m l. ground arith)) in
      let (r, found, text, row, said) =
        flush-answer_of run conversation fresh w stored there new something in
      let (rows, events, told) = finish-same exhausted elapsed last s w r.message.id row in
      (
        (
          r,
          ap (newest (grows conversation run assistant)) rows ∙ found,
          text,
          subst (λ x. Announces r.message.id x (finish exhausted elapsed last s w).published) said
              told,
        ),
        IsPublished-answer w.seq w.said (slices w.published) ds most shown
            (subst (IsDelivered ds) events same),
      )

-- ===== src/Thread/Order.antt =====
-- crates/neo-store/src/conversations.rs: the order of the messages, and how recent a thread is.
use starkbot_neo.Common.{
  ℕ, ◌≤◌, String, ◌≡◌, refl, sym, ◌∙◌, subst, inl, inr, Bool, true, false, not, ◌&&◌, some, List,
  [], ◌∷◌, ◌++◌, map, arith, str_eq, eq_refl, eq_iff,
}
use starkbot_neo.Common.Tests.{Bool-cases, Option-cases}
use starkbot_neo.Common.Lists.{any, All, All-map, All-append}
use starkbot_neo.Thread.{
  Bytes, Conversation, NewMessage, Message, Row, Turn, Tables, is_conversation, last_seq, next_row,
  touch, touch_row, rename_row, stored, insert, append_message, grow_row, upsert_streaming_message,
  run_of, newest, grows,
}
use starkbot_neo.Thread.Steps.{IsLinked, IsRecent, IsBefore, IsRising, IsSound}

-- Threads that changed only in their titles, and to be more recent.
abbrev IsLater : (Conversation → Conversation) → Type 0
IsLater f = (c : Conversation) → ((f c).id ≡ c.id) × (c.updated_at ≤ (f c).updated_at)

pub touch_row-IsLater : (id : String) (at : ℕ) → IsLater (touch_row id at)
unfolding touch_row
touch_row-IsLater id at c = ground arith

pub rename_row-IsLater : (id title : String) (at : ℕ) → IsLater (rename_row id title at)
unfolding rename_row
rename_row-IsLater id title at c = ground arith

any-map :
    (f : Conversation → Conversation) (id : String) (cs : List Conversation)
    → IsLater f
    → any (is_conversation id) (map f cs) ≡ any (is_conversation id) cs
any-map f id [] h = refl
any-map f id (c ∷ cs) h = rw ((h c).0, any-map f id cs h) refl

IsRecent-map :
    (f : Conversation → Conversation) (r : Row) (cs : List Conversation)
    → IsLater f
    → IsRecent cs r
    → IsRecent (map f cs) r
IsRecent-map f r [] h a = tt
IsRecent-map f r (c ∷ cs) h (e, a) = (λ q. ground (arith, h c, e), IsRecent-map f r cs h a)

-- The threads changed, and the rows did not.
pub IsSound-map :
    (f : Conversation → Conversation) (cs : List Conversation) (rows : List Row) (us : List Turn)
    → IsLater f
    → IsSound (record { conversations = cs; messages = rows; turns = us })
    → IsSound (record { conversations = map f cs; messages = rows; turns = us })
IsSound-map f cs rows us h (linked, recent, rising) = (
  All-map (λ (r : Row) i. any-map f r.message.conversation_id cs h ∙ i) rows linked,
  All-map (λ r i. IsRecent-map f r cs h i) rows recent,
  rising,
)

abbrev IsUpTo : String → ℕ → Row → Type 0
IsUpTo id n r = str_eq r.message.conversation_id id ≡ true → r.seq ≤ n

-- No row of the thread has a number past the last.
last_seq-last : (id : String) (rows : List Row) → All (IsUpTo id (last_seq id rows)) rows
unfolding last_seq
last_seq-last id [] = tt
last_seq-last id (r ∷ rows) =
    let more : last_seq id rows ≤ last_seq id (r ∷ rows) = ground arith in
    (
      λ e. ground (arith, e),
      All-map {P = IsUpTo id (last_seq id rows)} {Q = IsUpTo id (last_seq id (r ∷ rows))}
          (λ q h e. omega (arith, more, h e)) rows (last_seq-last id rows),
    )

IsRising-append :
    (rows : List Row) (q : Row)
    → IsRising rows
    → All (λ r. IsBefore r q) rows
    → IsRising (rows ++ (q ∷ []))
IsRising-append [] q h a = (tt, tt)
IsRising-append (r ∷ rows) q (h, hs) (a, as_) =
    (All-append (IsBefore r) rows (q ∷ []) h (a, tt), IsRising-append rows q hs as_)

-- A row behind the others, in a thread that is there and that is touched.
IsRecent-touch :
    (r : Row) (cs : List Conversation)
    → IsRecent (map (touch_row r.message.conversation_id r.message.at) cs) r
unfolding touch_row
IsRecent-touch r [] = tt
IsRecent-touch r (c ∷ cs) = (λ q. ground arith, IsRecent-touch r cs)

str_eq_sym : (a b : String) → str_eq a b ≡ true → str_eq b a ≡ true
str_eq_sym a b h = rw ((eq_iff a b).0 h) (eq_refl b)

appended-IsSound :
    (m : Message) (t : Tables)
    → any (is_conversation m.conversation_id) t.conversations ≡ true
    → IsSound t
    → IsSound (
        touch m.conversation_id m.at
          (record t { messages = t.messages ++ (next_row m t.messages ∷ []) }))
unfolding touch
appended-IsSound m t there s =
    let row = next_row m t.messages in
    let f = touch_row m.conversation_id m.at in
    let later = touch_row-IsLater m.conversation_id m.at in
    let (linked, recent, rising) = IsSound-map f t.conversations t.messages t.turns later s in
    (
      All-append (IsLinked (map f t.conversations)) t.messages (row ∷ []) linked
          (any-map f m.conversation_id t.conversations later ∙ there, tt),
      All-append (IsRecent (map f t.conversations)) t.messages (row ∷ []) recent
          (IsRecent-touch row t.conversations, tt),
      IsRising-append t.messages row rising (
          All-map {P = IsUpTo m.conversation_id (last_seq m.conversation_id t.messages)}
            {Q = λ r. IsBefore r row}
            (λ r h e. omega (arith, h (str_eq_sym m.conversation_id r.message.conversation_id e)))
            t.messages (last_seq-last m.conversation_id t.messages)),
    )

insert-inv :
    (m : Message) (t t' : Tables)
    → insert m t ≡ some t'
    → (any (is_conversation m.conversation_id) t.conversations ≡ true)
      × (t' ≡ record t { messages = t.messages ++ (next_row m t.messages ∷ []) })
unfolding insert
insert-inv m t t' h =
    elim (Bool-cases (
      any (is_conversation m.conversation_id) t.conversations
      && not (any (λ (r : Row). str_eq r.message.id m.id) t.messages))) [
        | inl e ↦ (ground arith, ground arith)
        | inr e ↦ absurd (ground arith)
      ]

insert-IsSound :
    (m : Message) (t t' : Tables)
    → insert m t ≡ some t'
    → IsSound t
    → IsSound (touch m.conversation_id m.at t')
insert-IsSound m t t' h s =
    let (there, e) = insert-inv m t t' h in
    subst (λ x. IsSound (touch m.conversation_id m.at x)) (sym e) (appended-IsSound m t there s)

pub append_message-IsSound :
    (works : Bool) (fresh : String) (m : NewMessage) (t : Tables)
    → IsSound t
    → IsSound (append_message works fresh m t).1
unfolding append_message
append_message-IsSound false fresh m t s = s
append_message-IsSound true fresh m t s = elim (Option-cases (insert (stored fresh m) t)) [
  | inl e ↦ rw (e, append_message) s
  | inr (t', e) ↦ rw (e, append_message) (insert-IsSound (stored fresh m) t t' e s)
]

-- Rows that changed only in their texts.
abbrev IsSameRow : (Row → Row) → Type 0
IsSameRow g =
    (r : Row)
    → ((g r).message.conversation_id ≡ r.message.conversation_id)
      × ((g r).message.at ≡ r.message.at)
      × ((g r).seq ≡ r.seq)

grow_row-IsSameRow : (id : String) (more : Bytes) → IsSameRow (grow_row id more)
unfolding grow_row
grow_row-IsSameRow id more r = ground arith

All-over {ℓ} :
    {A : Type ℓ} (P Q : A → Type 0) (g : A → A) (xs : List A)
    → ((x : A) → P x → Q (g x))
    → All P xs
    → All Q (map g xs)
All-over P Q g [] h a = tt
All-over P Q g (x ∷ xs) h (p, a) = (h x p, All-over P Q g xs h a)

IsRising-over :
    (g : Row → Row) (rows : List Row) → IsSameRow g → IsRising rows → IsRising (map g rows)
IsRising-over g [] h a = tt
IsRising-over g (r ∷ rows) h (a, as_) = (
  All-over (IsBefore r) (IsBefore (g r)) g rows (λ q b. rw ((h q).0, (h q).2, (h r).0, (h r).2) b)
      a,
  IsRising-over g rows h as_,
)

grown-IsSound :
    (g : Row → Row) (t : Tables)
    → IsSameRow g
    → IsSound t
    → IsSound (record t { messages = map g t.messages })
grown-IsSound g t h (linked, recent, rising) = (
  All-over (IsLinked t.conversations) (IsLinked t.conversations) g t.messages (λ r i. rw (h r).0 i)
      linked,
  All-over (IsRecent t.conversations) (IsRecent t.conversations) g t.messages
      (λ r i. rw ((h r).0, (h r).1) i) recent,
  IsRising-over g t.messages h rising,
)

pub upsert-IsSound :
    (works : Bool) (fresh : String) (m : NewMessage) (more : Bytes) (t : Tables)
    → IsSound t
    → IsSound (upsert_streaming_message works fresh m more t).1
unfolding upsert_streaming_message touch
upsert-IsSound false fresh m more t s = s
upsert-IsSound true fresh m more t s = elim (Option-cases (run_of m.meta)) [
  | inl n ↦ elim (Option-cases (insert (stored fresh (record m { text = m.text ++ more })) t)) [
    | inl e ↦ rw (n, e, upsert_streaming_message) s
    | inr (t', e) ↦ rw (n, e, upsert_streaming_message) (insert-IsSound _ t t' e s)
  ]
  | inr (run, n) ↦ elim (Option-cases (newest (grows m.conversation_id run m.role) t.messages)) [
    | inl k ↦ elim (Option-cases (insert (stored fresh (record m { text = m.text ++ more })) t)) [
      | inl e ↦ rw (n, k, e, upsert_streaming_message) s
      | inr (t', e) ↦ rw (n, k, e, upsert_streaming_message) (insert-IsSound _ t t' e s)
    ]
    | inr (r, k) ↦
        rw (n, k, upsert_streaming_message)
          (IsSound-map (touch_row m.conversation_id m.at) t.conversations
            (map (grow_row r.message.id more) t.messages) t.turns
            (touch_row-IsLater m.conversation_id m.at)
            (grown-IsSound (grow_row r.message.id more) t (grow_row-IsSameRow r.message.id more) s))
  ]
]

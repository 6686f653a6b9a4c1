-- ===== src/Thread/Growth.antt =====
-- crates/neo-store/src/conversations.rs: the row in which a run's answer grows.
use starkbot_neo.Common.{
  ℕ, String, ◌≡◌, refl, ap, ◌∙◌, inl, inr, Bool, true, false, Option, none, some, List, [], ◌∷◌,
  ◌++◌, map, arith, str_eq, eq_refl,
}
use starkbot_neo.Common.Tests.{leb, if◌then◌else◌, Option-cases}
use starkbot_neo.Common.Lists.{any}
use starkbot_neo.Common.Result.{Result, ok, err}
use starkbot_neo.Thread.{
  Bytes, MessageRole, StoreError, is_conversation, NewMessage, Message, Row, Tables, touch, stored,
  next_row, insert, run_of, is_run, grows, encode_role, newest, grow_row, upsert_streaming_message,
}

pub newest-append :
    (p : Row → Bool) (rows : List Row) (r : Row)
    → newest p rows ≡ none
    → p r ≡ true
    → newest p (rows ++ (r ∷ [])) ≡ some r
unfolding newest
newest-append p [] r n h = ground arith
newest-append p (q ∷ rows) r n h = ground (arith, newest-append p rows r)

pub newest-append_other :
    (p : Row → Bool) (rows : List Row) (r : Row)
    → p r ≡ false
    → newest p (rows ++ (r ∷ [])) ≡ newest p rows
unfolding newest
newest-append_other p [] r h = ground arith
newest-append_other p (q ∷ rows) r h = rw (newest-append_other p rows r h) refl

abbrev map_row : (Row → Row) → Option Row → Option Row
map_row f none = none
map_row f (some r) = some (f r)

abbrev later : Row → Option Row → Option Row
later q none = some q
later q (some r) = if leb q.seq r.seq then some r else some q

later-map_row :
    (f : Row → Row) (b : Bool) (q : Row) (o : Option Row)
    → ((q : Row) → (f q).seq ≡ q.seq)
    → (if b then later (f q) (map_row f o) else map_row f o)
      ≡ map_row f (if b then later q o else o)
later-map_row f false q o s = refl
later-map_row f true q none s = refl
later-map_row f true q (some r) s = ground (arith, s q, s r)

-- A change of the rows that keeps what the query reads changes the row found.
pub newest-map :
    (p : Row → Bool) (f : Row → Row) (rows : List Row)
    → ((q : Row) → p (f q) ≡ p q)
    → ((q : Row) → (f q).seq ≡ q.seq)
    → newest p (map f rows) ≡ map_row f (newest p rows)
unfolding newest
newest-map p f [] k s = refl
newest-map p f (q ∷ rows) k s =
    rw (k q, newest-map p f rows k s) (later-map_row f (p q) q (newest p rows) s)

pub insert-messages :
    (m : Message) (t t' : Tables)
    → insert m t ≡ some t'
    → t'.messages ≡ t.messages ++ (next_row m t.messages ∷ [])
unfolding insert
insert-messages m t t' h = ground arith

-- What the query for the row that grows reads of a message.
grows-new :
    (fresh run : String) (m : NewMessage) (n : ℕ)
    → run_of m.meta ≡ some run
    → grows m.conversation_id run m.role (record { seq = n; message = stored fresh m }) ≡ true
unfolding grows is_run
grows-new fresh run m n h =
    ground (arith, eq_refl m.conversation_id, eq_refl run, eq_refl (encode_role m.role))

grows-grow_row :
    (c run id : String) (role : MessageRole) (more : Bytes) (q : Row)
    → grows c run role (grow_row id more q) ≡ grows c run role q
unfolding grows grow_row
grows-grow_row c run id role more q = ground arith

grow_row-seq : (id : String) (more : Bytes) (q : Row) → (grow_row id more q).seq ≡ q.seq
unfolding grow_row
grow_row-seq id more q = ground arith

grow_row_self :
    (more : Bytes) (q : Row) → (grow_row q.message.id more q).message.text ≡ q.message.text ++ more
unfolding grow_row
grow_row_self more q = rw (eq_refl q.message.id) refl

grow_row-id :
    (id : String) (more : Bytes) (q : Row) → (grow_row id more q).message.id ≡ q.message.id
unfolding grow_row
grow_row-id id more q = ground arith

-- The text that a run has in the thread before the call.
abbrev pub text_before : NewMessage → Option Row → Bytes
text_before m none = m.text
text_before m (some r) = r.message.text

-- The row that the query finds is the one named, with the text given; or the tables are as before.
abbrev pub IsGrown : (Row → Bool) → Bytes → Tables → Result StoreError String × Tables → Type 0
IsGrown p text t (ok id, t') =
    (q : Row) × (newest p t'.messages ≡ some q) × (q.message.id ≡ id) × (q.message.text ≡ text)
IsGrown p text t (err e, t') = t' ≡ t

upsert-IsGrown_new :
    (fresh run : String) (m : NewMessage) (more : Bytes) (t : Tables)
    → run_of m.meta ≡ some run
    → newest (grows m.conversation_id run m.role) t.messages ≡ none
    → IsGrown
        (grows m.conversation_id run m.role)
        (m.text ++ more)
        t
        (upsert_streaming_message true fresh m more t)
unfolding upsert_streaming_message touch
upsert-IsGrown_new fresh run m more t h n =
    rw (h, n)
      (elim (Option-cases (insert (stored fresh (record m { text = m.text ++ more })) t)) [
        | inl e ↦ rw e refl
        | inr (t', e) ↦ rw e (
          next_row (stored fresh (record m { text = m.text ++ more })) t.messages,
          ap (newest (grows m.conversation_id run m.role)) (insert-messages _ t t' e)
              ∙ newest-append _ t.messages _ n
                  (grows-new fresh run (record m { text = m.text ++ more }) _ h),
          refl,
          refl,
        )
      ])

upsert-IsGrown_old :
    (fresh run : String) (m : NewMessage) (more : Bytes) (t : Tables) (r : Row)
    → run_of m.meta ≡ some run
    → newest (grows m.conversation_id run m.role) t.messages ≡ some r
    → IsGrown
        (grows m.conversation_id run m.role)
        (r.message.text ++ more)
        t
        (upsert_streaming_message true fresh m more t)
unfolding upsert_streaming_message touch
upsert-IsGrown_old fresh run m more t r h n =
    let found =
      newest-map (grows m.conversation_id run m.role) (grow_row r.message.id more) t.messages
        (grows-grow_row m.conversation_id run r.message.id m.role more)
        (grow_row-seq r.message.id more) in
    rw (h, n)
      (
        grow_row r.message.id more r,
        found ∙ ap (map_row (grow_row r.message.id more)) n,
        grow_row-id r.message.id more r,
        grow_row_self more r,
      )

-- Growing an answer puts the slice after the text that the run's row has, or makes the row; the
-- row is then the one that the next slice finds, under the identifier returned. Where the call
-- fails, the tables are as they were.
pub upsert-IsGrown :
    (works : Bool) (fresh run : String) (m : NewMessage) (more : Bytes) (t : Tables)
    → run_of m.meta ≡ some run
    → let find = grows m.conversation_id run m.role in
      IsGrown find
        (text_before m (newest find t.messages) ++ more)
        t
        (upsert_streaming_message works fresh m more t)
unfolding upsert_streaming_message
upsert-IsGrown false fresh run m more t h = refl
upsert-IsGrown true fresh run m more t h =
    elim (Option-cases (newest (grows m.conversation_id run m.role) t.messages)) [
      | inl e ↦ rw e (upsert-IsGrown_new fresh run m more t h e)
      | inr (r, e) ↦ rw e (upsert-IsGrown_old fresh run m more t r h e)
    ]

-- A call that SQLite carries out grows the run's row or, where it has none yet, makes one, if the
-- thread is there and the identifier is new.
pub upsert-ok :
    (fresh run : String) (m : NewMessage) (more : Bytes) (t : Tables)
    → run_of m.meta ≡ some run
    → any (is_conversation m.conversation_id) t.conversations ≡ true
    → any (λ (r : Row). str_eq r.message.id fresh) t.messages ≡ false
    → (id : String) × ((upsert_streaming_message true fresh m more t).0 ≡ ok id)
unfolding upsert_streaming_message insert
upsert-ok fresh run m more t h c f =
    elim (Option-cases (newest (grows m.conversation_id run m.role) t.messages)) [
      | inl e ↦ rw (h, e, c, f) (fresh, refl)
      | inr (r, e) ↦ rw (h, e) (r.message.id, refl)
    ]

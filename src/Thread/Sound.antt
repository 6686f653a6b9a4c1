-- ===== src/Thread/Sound.antt =====
-- crates/neo-store/src/conversations.rs: what holds of the tables, whatever is asked of them.
use starkbot_neo.Common.{
  ℕ, ◌≤◌, String, ◌≡◌, sym, subst, inl, inr, Bool, true, false, not, ◌&&◌, Option, List, [], ◌∷◌,
  ◌++◌, arith, str_eq, eq_iff,
}
use starkbot_neo.Common.Tests.{leb, Bool-cases}
use starkbot_neo.Common.Lists.{any, keep_if, All, All-map, All-append}
use starkbot_neo.Thread.{
  Conversation, Row, Turn, Tables, is_conversation, in_conversation, i64_max, touch, touch_row,
  rename_row, create, record_turn, rename, delete,
}
use starkbot_neo.Thread.Steps.{
  Op, creates, appends, upserts, records, renames, deletes, perform, perform_all, empty, IsLinked,
  IsRecent, IsBefore, IsRising, IsSound,
}
use starkbot_neo.Thread.Order.{
  IsSound-map, rename_row-IsLater, touch_row-IsLater, append_message-IsSound, upsert-IsSound,
}

any-append :
    (p : Conversation → Bool) (cs ds : List Conversation)
    → any p cs ≡ true
    → any p (cs ++ ds) ≡ true
any-append p [] ds h = absurd (ground arith)
any-append p (c ∷ cs) ds h = ground (arith, any-append p cs ds)

-- A row of a thread that is there is not of one whose identifier is new.
IsLinked-new :
    (c : Conversation) (cs : List Conversation) (r : Row)
    → any (is_conversation c.id) cs ≡ false
    → IsLinked cs r
    → is_conversation r.message.conversation_id c ≡ true
    → ⊥
IsLinked-new c cs r n h e =
    let same = (eq_iff c.id r.message.conversation_id).0 e in
    absurd (ground (arith, subst (λ x. any (is_conversation x) cs ≡ false) same n))

module _ (c : Conversation) (cs : List Conversation)
    (fresh : any (is_conversation c.id) cs ≡ false) where
  created-IsLinked :
      (rows : List Row) → All (IsLinked cs) rows → All (IsLinked (cs ++ (c ∷ []))) rows
  created-IsLinked [] a = tt
  created-IsLinked (r ∷ rows) (h, a) = (
    any-append (is_conversation r.message.conversation_id) cs (c ∷ []) h,
    created-IsLinked rows a,
  )

  created-IsRecent :
      (rows : List Row)
      → All (IsLinked cs) rows
      → All (IsRecent cs) rows
      → All (IsRecent (cs ++ (c ∷ []))) rows
  created-IsRecent [] a b = tt
  created-IsRecent (r ∷ rows) (h, a) (k, b) = (
    All-append
        (λ d. is_conversation r.message.conversation_id d ≡ true → r.message.at ≤ d.updated_at) cs
        (c ∷ []) k ((λ e. absurd (IsLinked-new c cs r fresh h e)), tt),
    created-IsRecent rows a b,
  )

create-IsSound :
    (works : Bool) (id : String) (title : Option String) (at : ℕ) (t : Tables)
    → IsSound t
    → IsSound (create works id title at t).1
unfolding create
create-IsSound works id title at t (linked, recent, rising) =
    elim (Bool-cases (works && not (any (is_conversation id) t.conversations))) [
      | inl e ↦
          let c : Conversation = record {
            id = id;
            title = title;
            created_at = at;
            updated_at = at;
          } in
          let fresh : any (is_conversation id) t.conversations ≡ false = ground arith in
          rw (e, create)
            (
              created-IsLinked c t.conversations fresh t.messages linked,
              created-IsRecent c t.conversations fresh t.messages linked recent,
              rising,
            )
      | inr e ↦ rw (e, create) (linked, recent, rising)
    ]

record_turn-IsSound :
    (works : Bool) (turn : Turn) (t : Tables) → IsSound t → IsSound (record_turn works turn t).1
unfolding record_turn touch
record_turn-IsSound works turn t s =
    let touched =
      IsSound-map (touch_row turn.conversation_id turn.started_at) t.conversations t.messages
        (t.turns ++ (turn ∷ [])) (touch_row-IsLater turn.conversation_id turn.started_at) s in
    elim (Bool-cases works) [
      | inr e ↦ rw (e, record_turn) s
      | inl e ↦ elim (Bool-cases (leb turn.duration_ms i64_max)) [
        | inr f ↦ rw (e, f, record_turn) s
        | inl f ↦
            elim (Bool-cases (
              any (is_conversation turn.conversation_id) t.conversations
              && not (any (λ (u : Turn). str_eq u.id turn.id) t.turns))) [
                | inl g ↦ rw (e, f, g, record_turn) touched
                | inr g ↦ rw (e, f, g, record_turn) s
              ]
      ]
    ]

rename-IsSound :
    (works : Bool) (id title : String) (at : ℕ) (t : Tables)
    → IsSound t
    → IsSound (rename works id title at t).1
unfolding rename
rename-IsSound false id title at t s = s
rename-IsSound true id title at t s = elim (Bool-cases (any (is_conversation id) t.conversations)) [
  | inl e ↦
      rw (e, rename)
        (IsSound-map (rename_row id title at) t.conversations t.messages t.turns
          (rename_row-IsLater id title at) s)
  | inr e ↦ rw (e, rename) s
]

All-keep_if {ℓ} :
    {A : Type ℓ} (P : A → Type 0) (p : A → Bool) (xs : List A) → All P xs → All P (keep_if p xs)
All-keep_if P p [] a = tt
All-keep_if P p (x ∷ xs) (h, a) = elim (Bool-cases (p x)) [
  | inl e ↦ rw e (h, All-keep_if P p xs a)
  | inr e ↦ rw e (All-keep_if P p xs a)
]

-- A thread other than the one deleted stays.
any-keep_if :
    (id other : String) (cs : List Conversation)
    → str_eq other id ≡ false
    → any (is_conversation other) cs ≡ true
    → any (is_conversation other) (keep_if (λ c. not (is_conversation id c)) cs) ≡ true
any-keep_if id other [] n h = absurd (ground arith)
any-keep_if id other (c ∷ cs) n h = elim (Bool-cases (is_conversation other c)) [
  | inl e ↦
      let kept : is_conversation id c ≡ false =
        subst (λ x. str_eq x id ≡ false) (sym ((eq_iff c.id other).0 e)) n in
      rw kept (ground (arith, e))
  | inr e ↦ ground (arith, any-keep_if id other cs n (ground arith))
]

deleted-IsLinked :
    (id : String) (cs : List Conversation) (rows : List Row)
    → All (IsLinked cs) rows
    → All
        (IsLinked (keep_if (λ c. not (is_conversation id c)) cs))
        (keep_if (λ r. not (in_conversation id r)) rows)
deleted-IsLinked id cs [] a = tt
deleted-IsLinked id cs (r ∷ rows) (h, a) = elim (Bool-cases (in_conversation id r)) [
  | inl e ↦ rw e (deleted-IsLinked id cs rows a)
  | inr e ↦ rw e (any-keep_if id r.message.conversation_id cs e h, deleted-IsLinked id cs rows a)
]

IsRising-keep_if : (p : Row → Bool) (rows : List Row) → IsRising rows → IsRising (keep_if p rows)
IsRising-keep_if p [] a = tt
IsRising-keep_if p (r ∷ rows) (h, a) = elim (Bool-cases (p r)) [
  | inl e ↦ rw e (All-keep_if (IsBefore r) p rows h, IsRising-keep_if p rows a)
  | inr e ↦ rw e (IsRising-keep_if p rows a)
]

delete-IsSound :
    (works : Bool) (id : String) (t : Tables) → IsSound t → IsSound (delete works id t).1
unfolding delete
delete-IsSound false id t s = s
delete-IsSound true id t (linked, recent, rising) = (
  deleted-IsLinked id t.conversations t.messages linked,
  All-keep_if (IsRecent _) (λ r. not (in_conversation id r)) t.messages
      (All-map (λ (r : Row) k. All-keep_if _ (λ c. not (is_conversation id c)) t.conversations k)
        t.messages recent),
  IsRising-keep_if (λ r. not (in_conversation id r)) t.messages rising,
)

perform-IsSound : (op : Op) (t : Tables) → IsSound t → IsSound (perform op t)
perform-IsSound (creates works id title at) t s = create-IsSound works id title at t s
perform-IsSound (appends works fresh m) t s = append_message-IsSound works fresh m t s
perform-IsSound (upserts works fresh m more) t s = upsert-IsSound works fresh m more t s
perform-IsSound (records works turn) t s = record_turn-IsSound works turn t s
perform-IsSound (renames works id title at) t s = rename-IsSound works id title at t s
perform-IsSound (deletes works id) t s = delete-IsSound works id t s

-- From tables without threads, whatever is asked and whatever fails: every message is of a thread
-- that is there, the thread's `updated_at` is never before the time of one of its messages, and
-- the numbers of the messages of a thread rise in the order in which they were stored.
pub threads-IsSound : (ops : List Op) → IsSound (perform_all ops empty)
threads-IsSound ops = kept ops empty (tt, tt, tt)
  where
    kept : (ops : List Op) (t : Tables) → IsSound t → IsSound (perform_all ops t)
    kept [] t s = s
    kept (op ∷ ops) t s = kept ops (perform op t) (perform-IsSound op t s)

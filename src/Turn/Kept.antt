-- ===== src/Turn/Kept.antt =====
-- crates/neo-agent/src/agent/metal.rs: a turn's answer in the thread, whatever the turn does.
use starkbot_neo.Common.{
  ℕ, String, ◌≡◌, refl, sym, ap, ◌∙◌, subst, inl, inr, Bool, true, false, ◌&&◌, Option, none, List,
  [], ◌∷◌, arith, str_eq,
}
use starkbot_neo.Common.Tests.{Bool-cases, Option-cases}
use starkbot_neo.Common.Lists.{All}
use starkbot_neo.Common.Result.{Result-cases}
use starkbot_neo.Thread.{
  Bytes, Tables, NewMessage, assistant, grows, newest, append_message, create, rename, touch,
  stored, is_run, encode_role, insert,
}
use starkbot_neo.Thread.Growth.{newest-append_other, insert-messages}
use starkbot_neo.Turn.{
  Reporter, Try, delta, whole_answer, round_trip, publish_card, record_tool, tool_row, Card,
  started, done, note, ends_with,
}
use starkbot_neo.Turn.Ops.{
  Op, says, answers, prices, shows, appends, creates, renames, perform, perform_all, IsOther,
}
use starkbot_neo.Turn.Stored.{IsStored, answer_of, Holds, Holds-append, flush-IsStored}

module _ (run conversation : String) where
  grows-other :
      (fresh : String) (m : NewMessage) (n : ℕ)
      → (is_run run m.meta && str_eq (encode_role m.role) "assistant") ≡ false
      → grows conversation run assistant (record { seq = n; message = stored fresh m }) ≡ false
  unfolding grows
  grows-other fresh m n h = ground arith

  append-answer_of :
      (works : Bool) (fresh : String) (m : NewMessage) (t : Tables)
      → (is_run run m.meta && str_eq (encode_role m.role) "assistant") ≡ false
      → answer_of run conversation (append_message works fresh m t).1 ≡ answer_of run conversation t
  unfolding append_message touch
  append-answer_of false fresh m t h = refl
  append-answer_of true fresh m t h = elim (Option-cases (insert (stored fresh m) t)) [
    | inl e ↦ rw e refl
    | inr (t', e) ↦ rw e (
        ap (newest (grows conversation run assistant)) (insert-messages _ t t' e)
        ∙ newest-append_other _ t.messages _ (grows-other fresh m _ h))
  ]

  create-messages :
      (works : Bool) (id : String) (title : Option String) (at : ℕ) (t : Tables)
      → (create works id title at t).1.messages ≡ t.messages
  unfolding create
  create-messages works id title at t = ground arith

  rename-messages :
      (works : Bool) (id title : String) (at : ℕ) (t : Tables)
      → (rename works id title at t).1.messages ≡ t.messages
  unfolding rename
  rename-messages works id title at t = ground arith

  -- Other rows were written.
  IsStored-tables :
      (w : Reporter) (t : Tables)
      → answer_of run conversation t ≡ answer_of run conversation w.tables
      → IsStored run conversation w
      → IsStored run conversation (record w { tables = t })
  IsStored-tables w t e (h, k, a) =
      (h, k, subst (λ o. Holds run conversation o w.flushed w.row w.said) (sym e) a)

  delta-IsStored :
      (text : Bytes) (due : Bool) (s : Try) (w : Reporter)
      → IsStored run conversation w
      → IsStored run conversation (delta text due s w)
  unfolding delta
  delta-IsStored [] due s w i = i
  delta-IsStored (b ∷ bs) false s w (h, k, a) = (
    h,
    k,
    Holds-append run conversation (answer_of run conversation w.tables) w.flushed w.row w.said
        (b ∷ bs) a,
  )
  delta-IsStored (b ∷ bs) true s w (h, k, a) = flush-IsStored run conversation s _ (
    h,
    k,
    Holds-append run conversation (answer_of run conversation w.tables) w.flushed w.row w.said
        (b ∷ bs) a,
  )

  record_tool-IsStored :
      (step : ℕ) (observation : Bytes) (s : Try) (w : Reporter)
      → IsStored run conversation w
      → IsStored run conversation (record_tool step observation s w)
  unfolding record_tool
  record_tool-IsStored step observation s w i =
      let other =
        append-answer_of s.works s.fresh (tool_row w step observation) w.tables (ground arith) in
      elim (Result-cases
        (append_message s.works s.fresh (tool_row w step observation) w.tables).0) [
          | inl (e, q) ↦ rw (q, record_tool) i
          | inr (m, q) ↦
              rw (q, record_tool)
                (IsStored-tables w
                  (append_message s.works s.fresh (tool_row w step observation) w.tables).1 other i)
        ]

  publish_card-IsStored :
      (c : Card) (s : Try) (w : Reporter)
      → IsStored run conversation w
      → IsStored run conversation (publish_card c s w)
  unfolding publish_card
  publish_card-IsStored (started step summary) s w i = i
  publish_card-IsStored (note line) s w i = i
  publish_card-IsStored (done step summary observation ms) s w i =
      record_tool-IsStored step observation s _ i

  perform-IsStored :
      (op : Op) (w : Reporter)
      → IsOther run op
      → IsStored run conversation w
      → IsStored run conversation (perform op w)
  unfolding whole_answer round_trip
  perform-IsStored (says text due s) w o i = delta-IsStored text due s w i
  perform-IsStored (answers [] due s) w o i = i
  perform-IsStored (answers (b ∷ bs) due s) w o i = elim (Bool-cases (ends_with w.said (b ∷ bs))) [
    | inl e ↦ rw (e, whole_answer) i
    | inr e ↦ rw (e, whole_answer) (delta-IsStored (b ∷ bs) due s w i)
  ]
  perform-IsStored (prices u) w o i = i
  perform-IsStored (shows c s) w o i = publish_card-IsStored c s w i
  perform-IsStored (appends m s) w o i =
      IsStored-tables w (append_message s.works s.fresh m w.tables).1
        (append-answer_of s.works s.fresh m w.tables o) i
  perform-IsStored (creates at s) w o i =
      IsStored-tables w (create s.works s.fresh none at w.tables).1
        (ap (newest (grows conversation run assistant))
          (create-messages s.works s.fresh none at w.tables))
        i
  perform-IsStored (renames id title at s) w o i =
      IsStored-tables w (rename s.works id title at w.tables).1
        (ap (newest (grows conversation run assistant))
          (rename-messages s.works id title at w.tables))
        i

  pub perform_all-IsStored :
      (ops : List Op) (w : Reporter)
      → All (IsOther run) ops
      → IsStored run conversation w
      → IsStored run conversation (perform_all ops w)
  perform_all-IsStored [] w o i = i
  perform_all-IsStored (op ∷ ops) w (o, os) i =
      perform_all-IsStored ops (perform op w) os (perform-IsStored op w o i)

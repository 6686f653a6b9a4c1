-- ===== src/Turn/Stored.antt =====
-- crates/neo-agent/src/agent/metal.rs: what the thread holds of a turn's answer.
use starkbot_neo.Common.{
  ℕ, String, ◌≡◌, ◌≢◌, refl, sym, ap, ◌∙◌, subst, inl, inr, true, false, Option, none, some, [],
  ◌∷◌, ◌++◌, str_eq,
}
use starkbot_neo.Common.Lists.{List-cases, any, length, drop}
use starkbot_neo.Common.Result.{Result, ok, err}
use starkbot_neo.Json.{get}
use starkbot_neo.Thread.{
  Bytes, is_conversation, StoreError, Row, Tables, assistant, grows, newest,
  upsert_streaming_message, run_of,
}
use starkbot_neo.Thread.Growth.{upsert-IsGrown, IsGrown, text_before, upsert-ok}
use starkbot_neo.Turn.{Reporter, Try, flush, answer_row}

-- The rest of a text after a part that was stored.
abbrev IsPrefix : Bytes → Bytes → Type 0
IsPrefix xs ys = (rest : Bytes) × (ys ≡ xs ++ rest)

drop-append : (xs ys : Bytes) → drop (length xs) (xs ++ ys) ≡ ys
drop-append [] ys = refl
drop-append (x ∷ xs) ys = drop-append xs ys

append_assoc : (xs ys zs : Bytes) → (xs ++ ys) ++ zs ≡ xs ++ (ys ++ zs)
append_assoc [] ys zs = refl
append_assoc (x ∷ xs) ys zs = ap (λ r. x ∷ r) (append_assoc xs ys zs)

append_nil : (xs : Bytes) → xs ++ [] ≡ xs
append_nil [] = refl
append_nil (x ∷ xs) = ap (λ r. x ∷ r) (append_nil xs)

module _ (run conversation : String) where
  -- The row in which the run's answer grows.
  abbrev pub answer_of : Tables → Option Row
  answer_of t = newest (grows conversation run assistant) t.messages

  -- Either nothing was stored, or the row holds what was said up to `flushed`.
  abbrev pub Holds : Option Row → ℕ → Option String → Bytes → Type 0
  Holds none flushed row said = (flushed ≡ 0) × (row ≡ none)
  Holds (some r) flushed row said =
      IsPrefix r.message.text said × (flushed ≡ length r.message.text) × (row ≡ some r.message.id)

  abbrev pub IsStored : Reporter → Type 0
  IsStored w =
      (w.run ≡ run)
      × (w.conversation ≡ conversation)
      × Holds (answer_of w.tables) w.flushed w.row w.said

  -- The row and what is left to store make what was said.
  Holds-rest :
      (w : Reporter) (o : Option Row)
      → Holds o w.flushed w.row w.said
      → text_before (answer_row w) o ++ drop w.flushed w.said ≡ w.said
  Holds-rest w none (f, r) = rw f refl
  Holds-rest w (some r) ((rest, p), f, i) =
      rw (f, p) (ap (λ x. r.message.text ++ x) (drop-append r.message.text rest))

  pub Holds-append :
      (o : Option Row) (flushed : ℕ) (row : Option String) (said more : Bytes)
      → Holds o flushed row said
      → Holds o flushed row (said ++ more)
  Holds-append none flushed row said more h = h
  Holds-append (some r) flushed row said more ((rest, p), f, i) =
      ((rest ++ more, ap (λ x. x ++ more) p ∙ append_assoc r.message.text rest more), f, i)

  run_of-answer_row : (w : Reporter) → run_of (answer_row w).meta ≡ some w.run
  unfolding run_of get
  run_of-answer_row w = refl

  -- What the flush's call of the store gives.
  flush-IsGrown :
      (s : Try) (w : Reporter)
      → IsStored w
      → IsGrown
          (grows conversation run assistant)
          w.said
          w.tables
          (upsert_streaming_message s.works s.fresh (answer_row w) (drop w.flushed w.said) w.tables)
  flush-IsGrown s w (h, k, a) =
      let g =
        upsert-IsGrown s.works s.fresh w.run (answer_row w) (drop w.flushed w.said) w.tables
          (run_of-answer_row w) in
      let find = grows w.conversation w.run assistant in
      let held : Holds (newest find w.tables.messages) w.flushed w.row w.said = rw (h, k) a in
      rw (sym h, sym k)
        (subst
          (λ text. IsGrown find text w.tables (
            upsert_streaming_message s.works s.fresh (answer_row w) (drop w.flushed w.said)
              w.tables))
          (Holds-rest w (newest find w.tables.messages) held) g)

  pub flush-IsStored : (s : Try) (w : Reporter) → IsStored w → IsStored (flush s w)
  unfolding flush
  flush-IsStored s w i = elim (List-cases (drop w.flushed w.said)) [
    | inl e ↦ rw (e, flush) i
    | inr (b, bs, e) ↦
        rw (e, flush)
          (grown (upsert_streaming_message s.works s.fresh (answer_row w) (b ∷ bs) w.tables)
            (rw⁻¹ e (flush-IsGrown s w i)))
  ]
    where
      grown :
          (r : Result StoreError String × Tables)
          → IsGrown (grows conversation run assistant) w.said w.tables r
          → IsStored (elim r.0 [
            | ok id ↦ record w { flushed = length w.said; row = some id; tables = r.1 }
            | err e ↦ w
          ])
      grown (err e, t) g = i
      grown (ok id, t) (q, f, n, text) =
          (i.0, i.1, rw (f, text) (([], sym (append_nil w.said)), refl, ap (λ x. some x) (sym n)))

  -- Where the thread is there, the identifier is new and SQLite works, all that was said is stored.
  pub flush-answer_of :
      (fresh : String) (w : Reporter)
      → IsStored w
      → any (is_conversation conversation) w.tables.conversations ≡ true
      → any (λ (r : Row). str_eq r.message.id fresh) w.tables.messages ≡ false
      → w.said ≢ []
      → let w' = flush (record { works = true; fresh = fresh }) w in
        (r : Row) × (answer_of w'.tables ≡ some r)
        × (r.message.text ≡ w.said)
        × (w'.row ≡ some r.message.id)
        × (w'.said ≡ w.said)
  unfolding flush
  flush-answer_of fresh w (h, k, a) c f n = elim (List-cases (drop w.flushed w.said)) [
    | inl e ↦ rw (e, flush) (whole (answer_of w.tables) a refl e)
    | inr (b, bs, e) ↦
        let (id, good) =
          upsert-ok fresh w.run (answer_row w) (b ∷ bs) w.tables (run_of-answer_row w) (rw k c) f in
        let g : IsGrown (grows conversation run assistant) w.said w.tables
            (upsert_streaming_message true fresh (answer_row w) (b ∷ bs) w.tables) =
          rw⁻¹ e (flush-IsGrown (record { works = true; fresh = fresh }) w (h, k, a)) in
        rw (e, flush)
          (grown (upsert_streaming_message true fresh (answer_row w) (b ∷ bs) w.tables) id good g)
  ]
    where
      whole :
          (o : Option Row)
          → Holds o w.flushed w.row w.said
          → answer_of w.tables ≡ o
          → drop w.flushed w.said ≡ []
          → (r : Row) × (answer_of w.tables ≡ some r)
            × (r.message.text ≡ w.said)
            × (w.row ≡ some r.message.id)
            × (w.said ≡ w.said)
      whole none (z, i) q e = absurd (n (subst (λ k. drop k w.said ≡ []) z e))
      whole (some r) (p, l, i) q e = (
        r,
        q,
        sym (append_nil r.message.text)
            ∙ ap (λ x. r.message.text ++ x) (sym e)
            ∙ Holds-rest w (some r) (p, l, i),
        i,
        refl,
      )

      grown :
          (r : Result StoreError String × Tables) (id : String)
          → r.0 ≡ ok id
          → IsGrown (grows conversation run assistant) w.said w.tables r
          → let w' : Reporter = (elim r.0 [
            | ok id ↦ record w { flushed = length w.said; row = some id; tables = r.1 }
            | err e ↦ w
          ]) in
            (r : Row) × (answer_of w'.tables ≡ some r)
            × (r.message.text ≡ w.said)
            × (w'.row ≡ some r.message.id)
            × (w'.said ≡ w.said)
      grown (err e, t) id good g = cc
      grown (ok i, t) id good (q, f, m, text) = (q, f, text, ap (λ x. some x) (sym m), refl)

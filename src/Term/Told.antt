-- ===== src/Term/Told.antt =====
-- crates/neo-tui/src/state.rs: what a steer, a stored message and a miss do to the texts.
use starkbot_neo.Common.{
  ℕ, ◌+◌, ◌-◌, ◌≤◌, ◌<◌, ◌≡◌, refl, sym, subst, ◌∙◌, ◌⊎◌, inl, inr, String, Bool, true, false, ◌&&◌,
  ◌||◌, Option, some, List, [], ◌∷◌, ◌++◌, str_eq, eq_iff, arith,
}
use starkbot_neo.Common.Tests.{◌==◌, if◌then◌else◌, Bool-cases, Option-cases}
use starkbot_neo.Common.Lists.{All, All-append, All-map, any}
use starkbot_neo.Thread.{user, text}
use starkbot_neo.Term.Steered.{
  Stored, ThreadRow, Rows, row_of, shown_row, is_shown, is_user, contains, push_steered, adopt,
  forget, adopt_steered, remove_last, steer_missed, on_message, on_updated, on_turn_steered,
}
use starkbot_neo.Term.Moves.{
  Moves, one, occ, occ-append, adopt-Moves, remove_last-Moves, contains-forget, contains-push,
}
use starkbot_neo.Term.Settled.{IsNew, IsNew-at, occ-on_updated, new-zero, one-true, one-false}
use starkbot_neo.Term.Texts.{
  same, awaits, awaits-append, awaits-pending, Awaits, adopt-Awaits, remove_last-Awaits, IsTold,
  says, IsTold-says, adopt-AllTold, remove_last-AllTold, on_updated-IsTold, on_updated-awaits,
}

-- No identifier stands twice, so many rows of each text wait, and each row has the text that is said of
-- its identifier.
pub record Tells (n : String → ℕ) (told : ℕ → Option String) (s : Rows) : Type 0 where
  pub single : (i : ℕ) → occ i s.thread ≤ 1
  pub waiting : (t : String) → awaits s.pending_steers t s.thread ≡ n t
  pub texts : All (IsTold told) s.thread

kept-push :
    (id i : ℕ) (s : Rows)
    → IsNew id s
    → 0 < occ i s.thread
    → contains i (s.pending_steers ++ id ∷ []) ≡ contains i s.pending_steers
kept-push id i s new o = elim (Bool-cases (id == i)) [
  | inl e ↦ let none_there = (IsNew-at id i s new e).1 in absurd (omega arith)
  | inr e ↦ contains-push i id s.pending_steers ∙ rw e (or_false (contains i s.pending_steers))
]
  where
    or_false : (b : Bool) → (b || false) ≡ b
    or_false true = refl
    or_false false = refl

kept-forget :
    (minted i : ℕ) (later : List ThreadRow) (pending : List ℕ)
    → occ minted later ≡ 0
    → 0 < occ i later
    → contains i (forget minted pending) ≡ contains i pending
kept-forget minted i later pending left o = elim (Bool-cases (minted == i)) [
  | inl e ↦
      let at : minted ≡ i = ground arith in
      let none_there = subst (λ j. occ j later ≡ 0) at left in absurd (omega arith)
  | inr e ↦ contains-forget i minted pending ∙ rw e refl
]

pub push_steered-Tells :
    (n : String → ℕ) (told : ℕ → Option String) (id now : ℕ) (said : String) (s : Rows)
    → IsNew id s
    → Tells n told s
    → Tells (λ t. n t + same said t) (says id said told) (push_steered id now said s)
unfolding push_steered
push_steered-Tells n told id now said s new h =
    let row : ThreadRow = record {
      id = id;
      role = user;
      kind = text;
      at = now;
      text = said;
      steered = true;
    } in
    let kept : (t : String) → awaits (s.pending_steers ++ id ∷ []) t s.thread ≡ n t = λ t.
      awaits-pending (s.pending_steers ++ id ∷ []) s.pending_steers t s.thread
        (λ i o. kept-push id i s new o)
      ∙ h.waiting t in
    let here : (t : String) → awaits (s.pending_steers ++ id ∷ []) t (row ∷ []) ≡ same said t =
      λ t. rw (contains-push id id s.pending_steers) (ground arith) in
    record {
      single = λ i. elim (Bool-cases (id == i)) [
        | inl e ↦
            omega
              (arith, occ-append i s.thread (row ∷ []), one-true id i e, (IsNew-at id i s new e).1)
        | inr e ↦ omega (arith, occ-append i s.thread (row ∷ []), one-false id i e, h.single i)
      ];
      waiting = λ t. omega (
        arith,
        awaits-append (s.pending_steers ++ id ∷ []) t s.thread (row ∷ []),
        kept t,
        here t,
      );
      texts =
          All-append (IsTold (says id said told)) s.thread (row ∷ [])
            (IsTold-says id said told s.thread new.1 h.texts) (ground arith, tt);
    }

-- A row that was found waits no more.
found-Tells :
    (n : String → ℕ) (told : ℕ → Option String) (added : ℕ → ℕ) (said : String) (minted : ℕ)
    (later : List ThreadRow) (s : Rows)
    → Moves s.pending_steers added s.thread (some (minted, later))
    → ((i : ℕ) → (added i ≡ 0) ⊎ ((occ i s.thread ≡ 0) × (added i ≤ 1)))
    → added minted ≡ 0
    → ((t : String) → Awaits s.pending_steers said t s.thread (some (minted, later)))
    → All (IsTold told) later
    → ((i : ℕ) → occ i s.thread ≤ 1)
    → ((t : String) → awaits s.pending_steers t s.thread ≡ n t)
    → Tells
        (λ t. n t - same said t)
        told
        (record { thread = later; pending_steers = forget minted s.pending_steers })
found-Tells n told added said minted later s m new own w a one_each h =
    let left : occ minted later ≡ 0 =
      omega (arith, m.1 minted, one_each minted, own, one-true minted minted (ground arith)) in
    record {
      single = λ i. elim (new i) [
        | inl z ↦ omega (arith, m.1 i, z, one_each i)
        | inr (z, l) ↦ omega (arith, m.1 i, z, l)
      ];
      waiting = λ t.
          let same_rows =
            awaits-pending (forget minted s.pending_steers) s.pending_steers t later
              (λ i o. kept-forget minted i later s.pending_steers left o) in
          omega (arith, same_rows, w t, h t);
      texts = a;
    }

less : (n : String → ℕ) (said t : String) → n said ≡ 0 → n t ≡ n t - same said t
less n said t z = elim (Bool-cases (str_eq said t)) [
  | inl e ↦ let here = subst (λ u. n u ≡ 0) ((eq_iff said t).0 e) z in rw e (omega arith)
  | inr e ↦ rw e (omega arith)
]

Tells-same :
    (n m : String → ℕ) (told : ℕ → Option String) (s : Rows)
    → ((t : String) → n t ≡ m t)
    → Tells n told s
    → Tells m told s
Tells-same n m told s e h = record {
  single = h.single;
  waiting = λ t. h.waiting t ∙ e t;
  texts = h.texts;
}

pub steer_missed-Tells :
    (n : String → ℕ) (told : ℕ → Option String) (said : String) (s : Rows)
    → Tells n told s
    → Tells (λ t. n t - same said t) told (steer_missed said s)
unfolding steer_missed
steer_missed-Tells n told said s h =
    let moves = remove_last-Moves s.pending_steers said s.thread in
    let texts = remove_last-AllTold s.pending_steers said told s.thread h.texts in
    let waits : (t : String)
        → Awaits s.pending_steers said t s.thread (remove_last s.pending_steers said s.thread) =
      λ t. remove_last-Awaits s.pending_steers said t s.thread in
    elim (Option-cases (remove_last s.pending_steers said s.thread)) [
      | inl e ↦
          rw (steer_missed, e)
            (Tells-same n (λ t. n t - same said t) told s
              (λ t. less n said t (sym (h.waiting said) ∙ (rw e at waits said))) h)
      | inr ((minted, later), e) ↦
          rw (steer_missed, e)
            (found-Tells n told (λ i. 0) said minted later s (rw e at moves) (λ i. inl refl) refl
              (λ t. rw e at waits t) (rw e at texts) h.single h.waiting)
    ]

-- A row that does not wait is put at the end.
row-Tells :
    (n : String → ℕ) (told : ℕ → Option String) (row : ThreadRow) (s : Rows)
    → row.steered ≡ false
    → IsNew row.id s
    → Tells n told s
    → Tells n (says row.id row.text told) (record s { thread = s.thread ++ (row ∷ []) })
row-Tells n told row s off new h = record {
  single = λ i. elim (Bool-cases (row.id == i)) [
    | inl e ↦ omega (
      arith,
      occ-append i s.thread (row ∷ []),
      one-true row.id i e,
      (IsNew-at row.id i s new e).1,
    )
    | inr e ↦ omega (arith, occ-append i s.thread (row ∷ []), one-false row.id i e, h.single i)
  ];
  waiting = λ t.
      let apart : awaits s.pending_steers t (row ∷ []) ≡ 0 = ground arith in
      omega (arith, awaits-append s.pending_steers t s.thread (row ∷ []), h.waiting t);
  texts =
      All-append (IsTold (says row.id row.text told)) s.thread (row ∷ [])
        (IsTold-says row.id row.text told s.thread new.1 h.texts) (ground arith, tt);
}

new-or :
    (id : ℕ) (s : Rows)
    → IsNew id s
    → (i : ℕ) → (one id i ≡ 0) ⊎ ((occ i s.thread ≡ 0) × (one id i ≤ 1))
new-or id s new i = elim (Bool-cases (id == i)) [
  | inl e ↦ inr ((IsNew-at id i s new e).1, omega (arith, one-true id i e))
  | inr e ↦ inl (one-false id i e)
]

-- A message that is shown and whose identifier is new.
adopted-Tells :
    (n : String → ℕ) (told : ℕ → Option String) (row : ThreadRow) (s : Rows)
    → row.steered ≡ false
    → IsNew row.id s
    → Tells n told s
    → let r = adopt_steered row s in
      Tells
        (λ t. if is_user row.role then n t - same row.text t else n t)
        (says row.id row.text told)
        (if r.0 then r.1 else record r.1 { thread = r.1.thread ++ (row ∷ []) })
unfolding adopt_steered
adopted-Tells n told row s off new h = elim (Bool-cases (is_user row.role)) [
  | inl u ↦
      let moves = adopt-Moves s.pending_steers row s.thread in
      let texts = adopt-AllTold s.pending_steers row told s.thread new.1 h.texts in
      let waits : (t : String)
          → Awaits s.pending_steers row.text t s.thread (adopt s.pending_steers row s.thread) =
        λ t. adopt-Awaits s.pending_steers row t s.thread new.0 in
      elim (Option-cases (adopt s.pending_steers row s.thread)) [
        | inl e ↦
            rw (u, e)
              (Tells-same n (λ t. n t - same row.text t) (says row.id row.text told) _
                (λ t. less n row.text t (sym (h.waiting row.text) ∙ (rw e at waits row.text)))
                (row-Tells n told row s off new h))
        | inr ((minted, later), e) ↦
            rw (u, e)
              (found-Tells n (says row.id row.text told) (one row.id) row.text minted later s
                (rw e at moves) (new-or row.id s new)
                (new-zero row.id s new minted (rw e at moves).0) (λ t. rw e at waits t)
                (rw e at texts) h.single h.waiting)
      ]
  | inr u ↦ rw u (row-Tells n told row s off new h)
]

Tells-as :
    (n m : String → ℕ) (told told' : ℕ → Option String) (s : Rows)
    → ((t : String) → n t ≡ m t)
    → ((i : ℕ) → told i ≡ told' i)
    → Tells n told s
    → Tells m told' s
Tells-as n m told told' s e f h = record {
  single = h.single;
  waiting = λ t. h.waiting t ∙ e t;
  texts = All-map (λ row q. sym (f row.id) ∙ q) s.thread h.texts;
}

-- What an event makes of the number of rows that wait for a text, and of what is said of the rows.
abbrev pub waits_after : Stored → (String → ℕ) → String → ℕ
waits_after m n t = if is_shown m.role && is_user m.role then n t - same m.text t else n t

abbrev pub told_after : Stored → (ℕ → Option String) → ℕ → Option String
told_after m told i = if is_shown m.role then says m.id m.text told i else told i

pub on_message-Tells :
    (n : String → ℕ) (told : ℕ → Option String) (m : Stored) (s : Rows)
    → IsNew m.id s
    → Tells n told s
    → Tells (waits_after m n) (told_after m told) (on_message m s)
unfolding on_message
on_message-Tells n told m s new h = elim (Bool-cases (is_shown m.role)) [
  | inl e ↦
      Tells-as (λ t. if is_user m.role then n t - same m.text t else n t) (waits_after m n)
        (says m.id m.text told) (told_after m told) (on_message m s) (λ t. rw e refl)
        (λ i. rw e refl)
        (rw (on_message, row_of, e) (adopted-Tells n told (shown_row m) s refl new h))
  | inr e ↦
      Tells-as n (waits_after m n) told (told_after m told) (on_message m s) (λ t. rw e refl)
        (λ i. rw e refl) (rw (on_message, row_of, e) h)
]

pub on_turn_steered-Tells :
    (n : String → ℕ) (told : ℕ → Option String) (id now : ℕ) (said : String) (s : Rows)
    → IsNew id s
    → Tells n told s
    → Tells
        (λ t.
          if any (λ (row : ThreadRow). str_eq row.text said) s.thread
          then n t
          else n t + same said t)
        (says id said told)
        (on_turn_steered id now said s)
unfolding on_turn_steered
on_turn_steered-Tells n told id now said s new h =
    elim (Bool-cases (any (λ (row : ThreadRow). str_eq row.text said) s.thread)) [
      | inl e ↦
          rw (on_turn_steered, e)
            (record {
              single = h.single;
              waiting = h.waiting;
              texts = IsTold-says id said told s.thread new.1 h.texts;
            })
      | inr e ↦ rw (on_turn_steered, e) (push_steered-Tells n told id now said s new h)
    ]

pub on_updated-Tells :
    (n : String → ℕ) (told : ℕ → Option String) (id : ℕ) (said : String) (s : Rows)
    → contains id s.pending_steers ≡ false
    → Tells n told s
    → Tells n (says id said told) (record s { thread = on_updated id said s.thread })
on_updated-Tells n told id said s c h = record {
  single = λ i. omega (arith, occ-on_updated i id said s.thread, h.single i);
  waiting = λ t. on_updated-awaits s.pending_steers id said t s.thread c ∙ h.waiting t;
  texts = on_updated-IsTold id said told s.thread (h.single id) h.texts;
}

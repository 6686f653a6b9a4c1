-- ===== src/Cards/Answers.antt =====
-- crates/neo-agent/src/confirm.rs: the first answer to a card counts, and silence refuses.
use starkbot_neo.Common.{
  ℕ, String, ◌≡◌, refl, sym, subst, inl, inr, false, Option, none, some, List, [], ◌∷◌, arith,
  str_eq, eq_iff, eq_refl, ◌∙◌,
}
use starkbot_neo.Common.Tests.{if◌then◌else◌}
use starkbot_neo.Common.Lists.{All}
use starkbot_neo.Common.Map.{lookup, remove, string_ord, lookup-put_self, lookup-remove_self}
use starkbot_neo.Json.{or_else}
use starkbot_neo.Cards.{
  GateOutcome, timed_out, Waiting, confirm, Desk, waits, park, take, open_confirm, close_confirm,
  resolve_confirm, send_ask,
}
use starkbot_neo.Cards.Apart.{
  Op, opens_confirm, closes_confirm, opens_ask, closes_ask, resolves, sends, perform, perform_all,
  IsApart, IsElsewhere, IsApart-cases, perform-Same,
}

-- The first answer that was given to the confirm card.
abbrev pub first_answer : String → List Op → GateOutcome
first_answer id [] = timed_out
first_answer id (resolves j o ∷ ops) = if str_eq j id then o else first_answer id ops
first_answer id (_ ∷ ops) = first_answer id ops

-- A card waits under the id.
abbrev IsParked : String → Waiting → Desk → Type 0
IsParked id w d =
    (lookup id d.waiting ≡ some w) × (lookup id d.confirms ≡ none) × (d.poisoned ≡ false)

-- The card was answered.
abbrev IsAnswered : String → GateOutcome → Desk → Type 0
IsAnswered id o d = (lookup id d.waiting ≡ none) × (lookup id d.confirms ≡ some o)

resolve-IsAnswered :
    (id : String) (o : GateOutcome) (d : Desk)
    → IsParked id confirm d
    → IsAnswered id o (resolve_confirm id o d).1
unfolding resolve_confirm take
resolve-IsAnswered id o d (w, c, h) =
    ground (arith, lookup-remove_self id d.waiting, lookup-put_self id o d.confirms)

-- An answer of the other kind leaves the card where it was.
send-IsParked :
    (id : String) (a : Option String) (d : Desk)
    → IsParked id confirm d
    → IsParked id confirm (send_ask id a d).1
unfolding send_ask take park
send-IsParked id a d (w, c, h) = ground (arith, lookup-put_self id confirm (remove id d.waiting))

resolve-IsAnswered_kept :
    (id : String) (o o' : GateOutcome) (d : Desk)
    → IsAnswered id o d
    → IsAnswered id o (resolve_confirm id o' d).1
unfolding resolve_confirm take
resolve-IsAnswered_kept id o o' d (w, c) = ground (arith, lookup-remove_self id d.waiting)

send-IsAnswered :
    (id : String) (o : GateOutcome) (a : Option String) (d : Desk)
    → IsAnswered id o d
    → IsAnswered id o (send_ask id a d).1
unfolding send_ask take
send-IsAnswered id o a d (w, c) = ground (arith, lookup-remove_self id d.waiting)

elsewhere-IsParked :
    (id : String) (w : Waiting) (op : Op) (d : Desk)
    → IsElsewhere id op
    → IsParked id w d
    → IsParked id w (perform op d)
elsewhere-IsParked id w op d n (a, b, c) =
    let (sw, sc, sa, sp) = perform-Same id op d n in (sw ∙ a, sc ∙ b, sp ∙ c)

elsewhere-IsAnswered :
    (id : String) (o : GateOutcome) (op : Op) (d : Desk)
    → IsElsewhere id op
    → IsAnswered id o d
    → IsAnswered id o (perform op d)
elsewhere-IsAnswered id o op d n (a, b) =
    let (sw, sc, sa, sp) = perform-Same id op d n in (sw ∙ a, sc ∙ b)

-- Nothing changes an answer that was given.
perform_all-IsAnswered :
    (id : String) (o : GateOutcome) (ops : List Op) (d : Desk)
    → All (IsApart id) ops
    → IsAnswered id o d
    → IsAnswered id o (perform_all ops d)
perform_all-IsAnswered id o [] d n a = a
perform_all-IsAnswered id o (op ∷ ops) d (n, ns) a =
    perform_all-IsAnswered id o ops (perform op d) ns (elim (IsApart-cases id op n) [
      | inl away ↦ elsewhere-IsAnswered id o op d away a
      | inr (inl (r, e)) ↦
          subst (λ op. IsAnswered id o (perform op d)) (sym e) (resolve-IsAnswered_kept id o r d a)
      | inr (inr (r, e)) ↦
          subst (λ op. IsAnswered id o (perform op d)) (sym e) (send-IsAnswered id o r d a)
    ])

first_answer-elsewhere :
    (id : String) (op : Op) (ops : List Op)
    → IsElsewhere id op
    → first_answer id (op ∷ ops) ≡ first_answer id ops
first_answer-elsewhere id (opens_confirm s t j k c m x) ops n = refl
first_answer-elsewhere id (closes_confirm j) ops n = refl
first_answer-elsewhere id (opens_ask s j k q m) ops n = refl
first_answer-elsewhere id (closes_ask j) ops n = refl
first_answer-elsewhere id (resolves j r) ops n = ground (arith, eq_iff j id)
first_answer-elsewhere id (sends j r) ops n = refl

-- What the parked run will read, when it reads after the calls.
parked-first_answer :
    (id : String) (ops : List Op) (d : Desk)
    → All (IsApart id) ops
    → IsParked id confirm d
    → or_else timed_out (lookup id (perform_all ops d).confirms) ≡ first_answer id ops
parked-first_answer id [] d n (w, c, h) = rw c refl
parked-first_answer id (op ∷ ops) d (n, ns) p = elim (IsApart-cases id op n) [
  | inl away ↦
      parked-first_answer id ops (perform op d) ns (elsewhere-IsParked id confirm op d away p)
      ∙ sym (first_answer-elsewhere id op ops away)
  | inr (inl (r, e)) ↦
      let (w, c) =
        perform_all-IsAnswered id r ops (resolve_confirm id r d).1 ns
          (resolve-IsAnswered id r d p) in
      rw (e, eq_refl id, c) refl
  | inr (inr (r, e)) ↦
      rw e (parked-first_answer id ops (send_ask id r d).1 ns (send-IsParked id r d p))
]

-- The outcome of a confirm is the first answer that was given to its card while it waited, whatever
-- else the runs and the front ends did, and a timeout where none was given: for a fresh id, under
-- which nothing is in the channel, that no other call opens or closes.
pub confirm-first_answer :
    (now : ℕ) (id task cause sentence : String) (context : Option String) (ops : List Op) (d : Desk)
    → d.poisoned ≡ false
    → lookup id d.confirms ≡ none
    → All (IsApart id) ops
    → let r = open_confirm false (some now) id task cause sentence context d in
      (r.0 ≡ waits) × ((close_confirm id (perform_all ops r.1)).0 ≡ first_answer id ops)
unfolding open_confirm close_confirm park
confirm-first_answer now id task cause sentence context ops d h c n =
    (refl, parked-first_answer id ops _ n (rw h (lookup-put_self id confirm d.waiting, c, refl)))

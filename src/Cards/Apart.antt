-- ===== src/Cards/Apart.antt =====
-- crates/neo-agent/src/confirm.rs: what the runs and the front ends do in turn, and that a call for
-- one card changes nothing of another.
use starkbot_neo.Common.{
  ℕ, String, ◌≡◌, ◌≢◌, sym, subst, inl, inr, Bool, false, Option, List, [], ◌∷◌, arith, str_eq,
  eq_iff, eq_refl, ap, ◌⊎◌,
}
use starkbot_neo.Common.Tests.{Bool-cases}
use starkbot_neo.Common.Map.{lookup, string_ord, lookup-put_other, lookup-remove_other}
use starkbot_neo.Cards.{
  GateOutcome, Waiting, confirm, ask, Desk, park, take, open_confirm, close_confirm, open_ask,
  close_ask, resolve_confirm, send_ask,
}

-- What the runs and the front ends do to the desk.
pub data Op : Type 0 where
  opens_confirm : Bool → Option ℕ → String → String → String → String → Option String → Op
  closes_confirm : String → Op
  opens_ask : Bool → String → String → String → List String → Op
  closes_ask : String → Op
  resolves : String → GateOutcome → Op
  sends : String → Option String → Op

abbrev pub perform : Op → Desk → Desk
perform (opens_confirm skipped now id task cause sentence context) d =
    (open_confirm skipped now id task cause sentence context d).1
perform (closes_confirm id) d = (close_confirm id d).1
perform (opens_ask skipped id task question options) d =
    (open_ask skipped id task question options d).1
perform (closes_ask id) d = (close_ask id d).1
perform (resolves id o) d = (resolve_confirm id o d).1
perform (sends id a) d = (send_ask id a d).1

abbrev pub perform_all : List Op → Desk → Desk
perform_all [] d = d
perform_all (op ∷ ops) d = perform_all ops (perform op d)

-- No other run opens or closes the card: ids are fresh.
abbrev pub IsApart : String → Op → Type 0
IsApart id (opens_confirm skipped now j task cause sentence context) = j ≢ id
IsApart id (closes_confirm j) = j ≢ id
IsApart id (opens_ask skipped j task question options) = j ≢ id
IsApart id (closes_ask j) = j ≢ id
IsApart id (resolves j o) = Unit
IsApart id (sends j a) = Unit

pub not_eq : (a b : String) → str_eq a b ≡ false → a ≢ b
not_eq a b h e = absurd (ground (arith, eq_refl b, subst (λ c. str_eq c b ≡ false) e h))

-- What stands under an id is the same on both desks.
abbrev pub Same : String → Desk → Desk → Type 0
Same id d e =
    (lookup id e.waiting ≡ lookup id d.waiting)
    × (lookup id e.confirms ≡ lookup id d.confirms)
    × (lookup id e.answers ≡ lookup id d.answers)
    × (e.poisoned ≡ d.poisoned)

pub park-Same : (id key : String) (w : Waiting) (d : Desk) → key ≢ id → Same id d (park key w d)
unfolding park
park-Same id key w d n =
    let m : id ≢ key = λ e. n (sym e) in ground (arith, lookup-put_other id key w d.waiting m)

pub take-Same : (id key : String) (d : Desk) → key ≢ id → Same id d (take key d).1
unfolding take
take-Same id key d n =
    let m : id ≢ key = λ e. n (sym e) in ground (arith, lookup-remove_other id key d.waiting m)

resolve-Same :
    (id key : String) (o : GateOutcome) (d : Desk)
    → key ≢ id
    → Same id d (resolve_confirm key o d).1
unfolding resolve_confirm
resolve-Same id key o d n =
    let m : id ≢ key = λ e. n (sym e) in
    let t = take-Same id key d n in
    let p = park-Same id key ask (take key d).1 n in
    let q = lookup-put_other id key o (take key d).1.confirms m in ground (arith, t, p, q)

send-Same :
    (id key : String) (a : Option String) (d : Desk) → key ≢ id → Same id d (send_ask key a d).1
unfolding send_ask
send-Same id key a d n =
    let m : id ≢ key = λ e. n (sym e) in
    let t = take-Same id key d n in
    let p = park-Same id key confirm (take key d).1 n in
    let q = lookup-put_other id key a (take key d).1.answers m in ground (arith, t, p, q)

open_confirm-Same :
    (skipped : Bool) (now : Option ℕ) (id key task cause sentence : String)
    (context : Option String) (d : Desk)
    → key ≢ id
    → Same id d (open_confirm skipped now key task cause sentence context d).1
unfolding open_confirm
open_confirm-Same skipped now id key task cause sentence context d n =
    ground (arith, park-Same id key confirm d n)

open_ask-Same :
    (skipped : Bool) (id key task question : String) (options : List String) (d : Desk)
    → key ≢ id
    → Same id d (open_ask skipped key task question options d).1
unfolding open_ask
open_ask-Same skipped id key task question options d n = ground (arith, park-Same id key ask d n)

close_confirm-Same : (id key : String) (d : Desk) → key ≢ id → Same id d (close_confirm key d).1
unfolding close_confirm
close_confirm-Same id key d n = take-Same id key d n

close_ask-Same : (id key : String) (d : Desk) → key ≢ id → Same id d (close_ask key d).1
unfolding close_ask
close_ask-Same id key d n = take-Same id key d n

-- The call is for another card.
abbrev pub IsElsewhere : String → Op → Type 0
IsElsewhere id (opens_confirm skipped now j task cause sentence context) = j ≢ id
IsElsewhere id (closes_confirm j) = j ≢ id
IsElsewhere id (opens_ask skipped j task question options) = j ≢ id
IsElsewhere id (closes_ask j) = j ≢ id
IsElsewhere id (resolves j o) = j ≢ id
IsElsewhere id (sends j a) = j ≢ id

pub perform-Same : (id : String) (op : Op) (d : Desk) → IsElsewhere id op → Same id d (perform op d)
perform-Same id (opens_confirm s t j k c m x) d n = open_confirm-Same s t id j k c m x d n
perform-Same id (closes_confirm j) d n = close_confirm-Same id j d n
perform-Same id (opens_ask s j k q m) d n = open_ask-Same s id j k q m d n
perform-Same id (closes_ask j) d n = close_ask-Same id j d n
perform-Same id (resolves j r) d n = resolve-Same id j r d n
perform-Same id (sends j r) d n = send-Same id j r d n

-- A call is for another card, or it answers this one.
pub IsApart-cases :
    (id : String) (op : Op)
    → IsApart id op
    → IsElsewhere id op
      ⊎ ((o : GateOutcome) × (op ≡ resolves id o))
      ⊎ ((a : Option String) × (op ≡ sends id a))
IsApart-cases id (opens_confirm s t j k c m x) n = inl n
IsApart-cases id (closes_confirm j) n = inl n
IsApart-cases id (opens_ask s j k q m) n = inl n
IsApart-cases id (closes_ask j) n = inl n
IsApart-cases id (resolves j r) n = elim (Bool-cases (str_eq j id)) [
  | inl e ↦ inr (inl (r, ap (λ k. resolves k r) ((eq_iff j id).0 e)))
  | inr e ↦ inl (not_eq j id e)
]
IsApart-cases id (sends j r) n = elim (Bool-cases (str_eq j id)) [
  | inl e ↦ inr (inr (r, ap (λ k. sends k r) ((eq_iff j id).0 e)))
  | inr e ↦ inl (not_eq j id e)
]

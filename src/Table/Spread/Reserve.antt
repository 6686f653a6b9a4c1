-- ===== src/Table/Spread/Reserve.antt =====
-- crates/neo-ax/src/table.rs, `spread`, pass one: the share of each group.
use starkbot_neo.Common.{
  ℕ, suc, ◌+◌, ◌-◌, ◌≡◌, refl, ap, subst, ◌∙◌, String, Bool, true, false, inl, inr, Option, none,
  some, List, [], ◌∷◌, ◌&&◌, arith, str_eq, eq_iff, eq_refl,
}
use starkbot_neo.Common.Tests.{ltb, Bool-cases, if◌then◌else◌}
use starkbot_neo.Table.{min}
use starkbot_neo.Table.Spread.{Key, container_eq, key_eq, reserve, pass_one}

container_eq-true : (a b : Option String) → container_eq a b ≡ true → a ≡ b
container_eq-true none none h = refl
container_eq-true (some a) (some b) h = ap some ((eq_iff a b).0 h)
container_eq-true none (some b) h = cc
container_eq-true (some a) none h = cc

container_eq_refl : (a : Option String) → container_eq a a ≡ true
container_eq_refl none = refl
container_eq_refl (some a) = eq_refl a

both : (a b : Bool) → (a && b) ≡ true → (a ≡ true) × (b ≡ true)
both true true h = (refl, refl)
both true false h = (refl, h)
both false b h = cc

pub key_eq-true : (a b : Key) → key_eq a b ≡ true → a ≡ b
unfolding key_eq
key_eq-true a b h =
    let (r, c) = both (str_eq a.role b.role) (container_eq a.container b.container) h in
    let same = (eq_iff a.role b.role).0 r in
    let held = container_eq-true a.container b.container c in
    λ i. record { role = same i; container = held i }

pub key_eq_refl : (a : Key) → key_eq a a ≡ true
unfolding key_eq
key_eq_refl a = rw (eq_refl a.role, container_eq_refl a.container) refl

-- What a group has reserved.
abbrev pub held : Key → List (Key × ℕ) → ℕ
held k [] = 0
held k ((j, n) ∷ slots) = if key_eq j k then n else held k slots

pub reserve-own :
    (share : ℕ) (k : Key) (slots : List (Key × ℕ))
    → let r = reserve share k slots in
      (r.0 ≡ ltb (held k slots) share)
      × (held k r.1 ≡ held k slots + (if ltb (held k slots) share then 1 else 0))
unfolding reserve
reserve-own share k [] = elim (Bool-cases (ltb 0 share)) [
  | inl e ↦ rw (e, key_eq_refl k) (refl, refl)
  | inr e ↦ rw (e, key_eq_refl k) (refl, refl)
]
reserve-own share k ((j, n) ∷ slots) =
    let rest = reserve-own share k slots in
    elim (Bool-cases (key_eq j k)) [
      | inl e ↦ elim (Bool-cases (ltb n share)) [
        | inl l ↦ rw (e, l, e) (refl, omega arith)
        | inr l ↦ rw (e, l, e) (refl, omega arith)
      ]
      | inr e ↦ rw (e, e) rest
    ]

pub reserve-other :
    (share : ℕ) (k j : Key) (slots : List (Key × ℕ))
    → key_eq k j ≡ false
    → held j (reserve share k slots).1 ≡ held j slots
unfolding reserve
reserve-other share k j [] h = elim (Bool-cases (ltb 0 share)) [
  | inl e ↦ rw (e, h) refl
  | inr e ↦ rw (e, h) refl
]
reserve-other share k j ((i, n) ∷ slots) h =
    let rest = reserve-other share k j slots h in
    elim (Bool-cases (key_eq i k)) [
      | inl e ↦
          let apart : key_eq i j ≡ false = ap (λ a. key_eq a j) (key_eq-true i k e) ∙ h in
          elim (Bool-cases (ltb n share)) [ inl l ↦ rw (e, l, apart) refl | inr l ↦ rw (e, l) refl ]
      | inr e ↦ rw e (ap (λ m. if key_eq i j then n else m) rest)
    ]

-- How many candidates a group has, and how many of them are kept.
abbrev pub size : Key → List Key → ℕ
size k [] = 0
size k (j ∷ keys) = let rest = size k keys in if key_eq j k then suc rest else rest

abbrev pub kept_of : Key → List Key → List Bool → ℕ
kept_of k [] keep = 0
kept_of k (j ∷ keys) [] = 0
kept_of k (j ∷ keys) (kept ∷ keep) =
    let rest = kept_of k keys keep in if kept && key_eq j k then suc rest else rest

own-step :
    (b c : Bool) (kept total n after share : ℕ)
    → c ≡ true
    → b ≡ ltb n share
    → after ≡ n + (if ltb n share then 1 else 0)
    → kept ≡ min total (share - after)
    → (if b && c then suc kept else kept) ≡ min (if c then suc total else total) (share - n)
own-step b true kept total n after share e h m r = elim (Bool-cases (ltb n share)) [
  | inl l ↦ rw (h, l) (ground arith)
  | inr l ↦ rw (h, l) (ground arith)
]
own-step b false kept total n after share e h m r = cc

other-step :
    (b c : Bool) (kept total n : ℕ)
    → c ≡ false
    → kept ≡ min total n
    → (if b && c then suc kept else kept) ≡ min (if c then suc total else total) n
other-step true false kept total n e r = r
other-step false false kept total n e r = r
other-step b true kept total n e r = cc

-- Pass one keeps of each group its share, or all of it.
pub pass_one-kept :
    (share : ℕ) (k : Key) (keys : List Key) (slots : List (Key × ℕ))
    → kept_of k keys (pass_one share slots keys).0 ≡ min (size k keys) (share - held k slots)
unfolding pass_one
pass_one-kept share k [] slots = ground arith
pass_one-kept share k (j ∷ keys) slots =
    let r = reserve share j slots in
    let kept = kept_of k keys (pass_one share r.1 keys).0 in
    let rest = pass_one-kept share k keys r.1 in
    elim (Bool-cases (key_eq j k)) [
      | inl e ↦
          let (b, n) =
            subst
              (λ i.
                (r.0 ≡ ltb (held i slots) share)
                × (held i r.1 ≡ held i slots + (if ltb (held i slots) share then 1 else 0)))
              (key_eq-true j k e) (reserve-own share j slots) in
          own-step r.0 (key_eq j k) kept (size k keys) (held k slots) (held k r.1) share e b n rest
      | inr e ↦
          let other = reserve-other share j k slots e in
          other-step r.0 (key_eq j k) kept (size k keys) (share - held k slots) e
            (rest ∙ ap (λ n. min (size k keys) (share - n)) other)
    ]

-- ===== src/Table/Spread/Gather.antt =====
-- crates/neo-ax/src/table.rs, `spread`, pass two: the groups have the positions that pass one left, each
-- once.
use starkbot_neo.Common.{
  ℕ, zero, suc, ◌+◌, ◌≤◌, ◌<◌, ◌≡◌, refl, ap, ◌∙◌, Bool, true, false, not, inl, inr, List, [], ◌∷◌,
  ◌&&◌, ◌||◌, arith,
}
use starkbot_neo.Common.Tests.{ltb, ◌==◌, Bool-cases, if◌then◌else◌}
use starkbot_neo.Common.Lists.{length, length-append, All, All-map}
use starkbot_neo.Table.Spread.{
  Key, key_eq, reserve, pass_one, add_member, gather, no_members, positions, total, count,
}
use starkbot_neo.Table.Spread.Reserve.{key_eq_refl}
use starkbot_neo.Table.Spread.Rest.{occ_all, occ-append, free}

abbrev pub has {ℓ} : {A : Type ℓ} → Key → List (Key × A) → Bool
has k [] = false
has k ((j, a) ∷ rest) = key_eq j k || has k rest

or-right : (a b : Bool) → b ≡ true → (a || b) ≡ true
or-right true b h = refl
or-right false b h = h

or-le : (a b c : Bool) → (b ≡ true → c ≡ true) → (a || b) ≡ true → (a || c) ≡ true
or-le true b c f h = refl
or-le false b c f h = f h

reserve-own_has :
    (share : ℕ) (k : Key) (slots : List (Key × ℕ)) → has k (reserve share k slots).1 ≡ true
unfolding reserve
reserve-own_has share k [] = elim (Bool-cases (ltb 0 share)) [
  | inl e ↦ rw (e, key_eq_refl k) refl
  | inr e ↦ rw (e, key_eq_refl k) refl
]
reserve-own_has share k ((j, n) ∷ slots) =
    let rest = reserve-own_has share k slots in
    elim (Bool-cases (key_eq j k)) [
      | inl e ↦ elim (Bool-cases (ltb n share)) [
        | inl l ↦ rw (e, l, e) refl
        | inr l ↦ rw (e, l, e) refl
      ]
      | inr e ↦ rw e (or-right (key_eq j k) (has k (reserve share k slots).1) rest)
    ]

reserve-has :
    (share : ℕ) (k j : Key) (slots : List (Key × ℕ))
    → has j slots ≡ true
    → has j (reserve share k slots).1 ≡ true
unfolding reserve
reserve-has share k j ((i, n) ∷ slots) h = elim (Bool-cases (key_eq i k)) [
  | inl e ↦ elim (Bool-cases (ltb n share)) [ inl l ↦ rw (e, l) h | inr l ↦ rw (e, l) h ]
  | inr e ↦ rw e (
      or-le (key_eq i j) (has j slots) (has j (reserve share k slots).1)
        (reserve-has share k j slots) h)
]
reserve-has share k j [] h = cc

pass_one-has :
    (share : ℕ) (j : Key) (keys : List Key) (slots : List (Key × ℕ))
    → has j slots ≡ true
    → has j (pass_one share slots keys).1 ≡ true
unfolding pass_one
pass_one-has share j [] slots h = h
pass_one-has share j (k ∷ keys) slots h =
    pass_one-has share j keys (reserve share k slots).1 (reserve-has share k j slots h)

pub pass_one-All-has :
    (share : ℕ) (keys : List Key) (slots : List (Key × ℕ))
    → All (λ j. has j (pass_one share slots keys).1 ≡ true) keys
unfolding pass_one
pass_one-All-has share [] slots = tt
pass_one-All-has share (k ∷ keys) slots =
    let next = (reserve share k slots).1 in
    (
      pass_one-has share k keys next (reserve-own_has share k slots),
      pass_one-All-has share keys next,
    )

pub pass_one-length :
    (share : ℕ) (keys : List Key) (slots : List (Key × ℕ))
    → length (pass_one share slots keys).0 ≡ length keys
unfolding pass_one
pass_one-length share [] slots = refl
pass_one-length share (k ∷ keys) slots =
    ap (λ n. suc n) (pass_one-length share keys (reserve share k slots).1)

pub no_members-has : (k : Key) (slots : List (Key × ℕ)) → has k (no_members slots) ≡ has k slots
no_members-has k [] = refl
no_members-has k ((j, n) ∷ slots) = ap (λ b. key_eq j k || b) (no_members-has k slots)

pub no_members-empty :
    (p : ℕ) (slots : List (Key × ℕ))
    → (total (positions (no_members slots)) ≡ 0) × (occ_all p (positions (no_members slots)) ≡ 0)
no_members-empty p [] = (refl, refl)
no_members-empty p ((j, n) ∷ slots) =
    let (t, o) = no_members-empty p slots in (omega arith, omega arith)

add_member-has :
    (k j : Key) (q : ℕ) (groups : List (Key × List ℕ))
    → has j groups ≡ true
    → has j (add_member k q groups) ≡ true
unfolding add_member
add_member-has k j q [] h = h
add_member-has k j q ((i, group) ∷ groups) h = elim (Bool-cases (key_eq i k)) [
  | inl e ↦ rw e h
  | inr e ↦ rw e (
      or-le (key_eq i j) (has j groups) (has j (add_member k q groups))
        (add_member-has k j q groups) h)
]

add_member-total :
    (k : Key) (q : ℕ) (groups : List (Key × List ℕ))
    → has k groups ≡ true
    → total (positions (add_member k q groups)) ≡ suc (total (positions groups))
unfolding add_member
add_member-total k q [] h = cc
add_member-total k q ((i, group) ∷ groups) h = elim (Bool-cases (key_eq i k)) [
  | inl e ↦ rw e (omega (arith, length-append {0} group (q ∷ [])))
  | inr e ↦ rw e (omega (arith, add_member-total k q groups (rw e at h)))
]

add_member-occ :
    (p : ℕ) (k : Key) (q : ℕ) (groups : List (Key × List ℕ))
    → occ_all p (positions (add_member k q groups))
      ≤ occ_all p (positions groups) + (if q == p then 1 else 0)
unfolding add_member
add_member-occ p k q [] = ground arith
add_member-occ p k q ((i, group) ∷ groups) = elim (Bool-cases (key_eq i k)) [
  | inl e ↦ rw e (ground (arith, occ-append p group (q ∷ [])))
  | inr e ↦ let rest = add_member-occ p k q groups in rw e (omega arith)
]

pub gather-total :
    (q : ℕ) (keys : List Key) (keep : List Bool) (groups : List (Key × List ℕ))
    → All (λ k. has k groups ≡ true) keys
    → length keep ≡ length keys
    → total (positions (gather q keys keep groups)) + count keep
      ≡ total (positions groups) + length keys
unfolding gather
gather-total q [] [] groups a h = refl
gather-total q (k ∷ keys) [] groups a h = omega arith
gather-total q [] (kept ∷ keep) groups a h = omega arith
gather-total q (k ∷ keys) (true ∷ keep) groups a h =
    let rest = gather-total (suc q) keys keep groups a.1 (omega arith) in omega arith
gather-total q (k ∷ keys) (false ∷ keep) groups a h =
    let more = add_member k q groups in
    let all : All (λ j. has j more ≡ true) keys =
      All-map (λ j i. add_member-has k j q groups i) keys a.1 in
    let rest = gather-total (suc q) keys keep more all (omega arith) in
    omega (arith, add_member-total k q groups a.0)

-- What is free among the positions from `q` on.
abbrev pub free_from : ℕ → ℕ → List Bool → ℕ
free_from q p [] = 0
free_from q p (kept ∷ keep) = (if not kept && q == p then 1 else 0) + free_from (suc q) p keep

free_from-above : (q p : ℕ) (keep : List Bool) → p < q → free_from q p keep ≡ 0
free_from-above q p [] h = refl
free_from-above q p (true ∷ keep) h =
    let rest = free_from-above (suc q) p keep (omega arith) in omega arith
free_from-above q p (false ∷ keep) h =
    let rest = free_from-above (suc q) p keep (omega arith) in ground arith

apart : (kept : Bool) (q p : ℕ) → ◌≡◌ {A = ℕ} (if not kept && q == q + suc p then 1 else 0) 0
apart true q p = refl
apart false q p = ground arith

free_from-free : (q p : ℕ) (keep : List Bool) → free_from q (q + p) keep ≡ free p keep
free_from-free q p [] = refl
free_from-free q zero (true ∷ keep) =
    ground (arith, free_from-above (suc q) (q + 0) keep (omega arith))
free_from-free q zero (false ∷ keep) =
    ground (arith, free_from-above (suc q) (q + 0) keep (omega arith))
free_from-free q (suc p) (kept ∷ keep) =
    let e : q + suc p ≡ suc q + p = omega arith in
    let other = apart kept q p in
    let rest = ap (λ r. free_from (suc q) r keep) e ∙ free_from-free (suc q) p keep in omega arith

pub free_from-zero : (p : ℕ) (keep : List Bool) → free_from 0 p keep ≡ free p keep
free_from-zero p keep =
    let e : p ≡ 0 + p = omega arith in ap (λ r. free_from 0 r keep) e ∙ free_from-free 0 p keep

pub gather-occ :
    (p q : ℕ) (keys : List Key) (keep : List Bool) (groups : List (Key × List ℕ))
    → occ_all p (positions (gather q keys keep groups))
      ≤ occ_all p (positions groups) + free_from q p keep
unfolding gather
gather-occ p q [] keep groups = omega arith
gather-occ p q (k ∷ keys) [] groups = omega arith
gather-occ p q (k ∷ keys) (true ∷ keep) groups =
    let rest = gather-occ p (suc q) keys keep groups in omega arith
gather-occ p q (k ∷ keys) (false ∷ keep) groups =
    let rest = gather-occ p (suc q) keys keep (add_member k q groups) in
    let one = add_member-occ p k q groups in omega arith

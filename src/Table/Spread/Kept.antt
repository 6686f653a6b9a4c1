-- ===== src/Table/Spread/Kept.antt =====
-- crates/neo-ax/src/table.rs, `spread`: what both passes keep.
use starkbot_neo.Common.{
  ℕ, zero, suc, ◌+◌, ◌-◌, ◌≤◌, ◌≡◌, refl, ap, Bool, true, false, inl, inr, List, [], ◌∷◌, ◌&&◌,
  ◌||◌, arith,
}
use starkbot_neo.Common.Tests.{leb, ◌==◌, Bool-cases, if◌then◌else◌}
use starkbot_neo.Common.Lists.{length, length-append}
use starkbot_neo.Table.{min}
use starkbot_neo.Table.Spread.{
  Key, key_eq, pass_one, gather, no_members, positions, lap, laps, total, mark, mark_all, count,
  take, select, keys_of, share_of, reserved, chosen, spread,
}
use starkbot_neo.Table.Spread.Reserve.{size, kept_of, pass_one-kept}

suc-le : (b : Bool) (n : ℕ) → n ≤ (if b then suc n else n)
suc-le true n = omega arith
suc-le false n = omega arith

both-le : (b : Bool) (n m : ℕ) → n ≤ m → (if b then suc n else n) ≤ (if b then suc m else m)
both-le true n m h = omega arith
both-le false n m h = h

mark-kept :
    (k : Key) (keys : List Key) (p : ℕ) (keep : List Bool)
    → kept_of k keys keep ≤ kept_of k keys (mark p keep)
unfolding mark
mark-kept k [] p keep = omega arith
mark-kept k (j ∷ keys) p [] = omega arith
mark-kept k (j ∷ keys) zero (true ∷ keep) = omega arith
mark-kept k (j ∷ keys) zero (false ∷ keep) = suc-le (key_eq j k) (kept_of k keys keep)
mark-kept k (j ∷ keys) (suc p) (kept ∷ keep) =
    both-le (kept && key_eq j k) (kept_of k keys keep) (kept_of k keys (mark p keep))
      (mark-kept k keys p keep)

mark_all-kept :
    (k : Key) (keys : List Key) (ps : List ℕ) (keep : List Bool)
    → kept_of k keys keep ≤ kept_of k keys (mark_all ps keep)
unfolding mark_all
mark_all-kept k keys [] keep = omega arith
mark_all-kept k keys (p ∷ ps) keep =
    let first = mark-kept k keys p keep in
    let rest = mark_all-kept k keys ps (mark p keep) in omega arith

mark-count : (p : ℕ) (keep : List Bool) → count (mark p keep) ≤ suc (count keep)
unfolding mark
mark-count p [] = omega arith
mark-count zero (true ∷ keep) = omega arith
mark-count zero (false ∷ keep) = omega arith
mark-count (suc p) (true ∷ keep) = let rest = mark-count p keep in omega arith
mark-count (suc p) (false ∷ keep) = mark-count p keep

mark_all-count :
    (ps : List ℕ) (keep : List Bool) → count (mark_all ps keep) ≤ count keep + length ps
unfolding mark_all
mark_all-count [] keep = omega arith
mark_all-count (p ∷ ps) keep =
    let first = mark-count p keep in let rest = mark_all-count ps (mark p keep) in omega arith

lap-fits : (room : ℕ) (groups : List (List ℕ)) → length (lap room groups).0 ≤ room
unfolding lap
lap-fits room [] = omega arith
lap-fits room ([] ∷ groups) = lap-fits room groups
lap-fits zero ((p ∷ group) ∷ groups) = omega arith
lap-fits (suc room) ((p ∷ group) ∷ groups) = let rest = lap-fits room groups in omega arith

laps-fits : (fuel room : ℕ) (groups : List (List ℕ)) → length (laps fuel room groups) ≤ room
unfolding laps
laps-fits zero room groups = omega arith
laps-fits (suc fuel) room groups =
    let r = lap room groups in
    let first = lap-fits room groups in
    let rest = laps-fits fuel (room - length r.0) r.1 in
    elim (Bool-cases (room == 0 || total groups == 0)) [
      | inl e ↦ rw e (omega arith)
      | inr e ↦ rw e (omega (arith, length-append {0} r.0 (laps fuel (room - length r.0) r.1)))
    ]

none-left : (n : ℕ) → suc n ≤ 0 → ⊥
none-left n h = omega arith

all-left : (a b : ℕ) → min a (b - 0) ≡ min a b
all-left a b = ground arith

module _ {ℓ} {A : Type ℓ} where
  length-select : (xs : List A) (keep : List Bool) → length (select xs keep) ≤ count keep
  length-select [] keep = omega arith
  length-select (x ∷ xs) [] = omega arith
  length-select (x ∷ xs) (true ∷ keep) = let rest = length-select xs keep in omega arith
  length-select (x ∷ xs) (false ∷ keep) = length-select xs keep

  take-all : (n : ℕ) (xs : List A) → length xs ≤ n → take n xs ≡ xs
  take-all zero [] h = refl
  take-all zero (x ∷ xs) h = absurd (none-left (length xs) h)
  take-all (suc n) [] h = refl
  take-all (suc n) (x ∷ xs) h = ap (λ t. x ∷ t) (take-all n xs (omega arith))

  length-take-le : (n : ℕ) (xs : List A) → length (take n xs) ≤ n
  length-take-le zero xs = omega arith
  length-take-le (suc n) [] = omega arith
  length-take-le (suc n) (x ∷ xs) = let rest = length-take-le n xs in omega arith

  size-select :
      (key : A → Key) (k : Key) (xs : List A) (keep : List Bool)
      → size k (keys_of key (select xs keep)) ≡ kept_of k (keys_of key xs) keep
  size-select key k [] keep = refl
  size-select key k (x ∷ xs) [] = refl
  size-select key k (x ∷ xs) (true ∷ keep) =
      ap (λ n. if key_eq (key x) k then suc n else n) (size-select key k xs keep)
  size-select key k (x ∷ xs) (false ∷ keep) = size-select key k xs keep

module _ {ℓ} {A : Type ℓ} (key : A → Key) (cap : ℕ) (ordered : List A) where
  chosen-count : count (reserved key cap ordered) ≤ cap → count (chosen key cap ordered) ≤ cap
  unfolding chosen
  chosen-count h =
      let slots = (pass_one (share_of cap) [] (keys_of key ordered)).1 in
      let groups =
        positions (gather 0 (keys_of key ordered) (reserved key cap ordered) (no_members slots)) in
      let room = cap - count (reserved key cap ordered) in
      let marks = mark_all-count (laps (total groups) room groups) (reserved key cap ordered) in
      let fits = laps-fits (total groups) room groups in omega arith

  chosen-kept :
      (k : Key)
      → min (size k (keys_of key ordered)) (share_of cap)
        ≤ kept_of k (keys_of key ordered) (chosen key cap ordered)
  unfolding chosen reserved
  chosen-kept k =
      let keys = keys_of key ordered in
      let slots = (pass_one (share_of cap) [] keys).1 in
      let groups = positions (gather 0 keys (reserved key cap ordered) (no_members slots)) in
      let room = cap - count (reserved key cap ordered) in
      let own = pass_one-kept (share_of cap) k keys [] in
      let more =
        mark_all-kept k keys (laps (total groups) room groups) (reserved key cap ordered) in
      omega (arith, all-left (size k keys) (share_of cap))

  -- Where the reserved rows fit, each group keeps its share, or all that it has.
  pub spread-reserved :
      count (reserved key cap ordered) ≤ cap
      → (k : Key)
      → min (size k (keys_of key ordered)) (share_of cap)
        ≤ size k (keys_of key (spread key cap ordered))
  unfolding spread
  spread-reserved h k = elim (Bool-cases (leb (length ordered) cap)) [
    | inl e ↦ rw e (ground arith)
    | inr e ↦
        let keep = chosen key cap ordered in
        let rows = select ordered keep in
        let short = length-select ordered keep in
        let all : take cap rows ≡ rows = take-all cap rows (omega (arith, chosen-count h)) in
        rw (e, all) (omega (arith, size-select key k ordered keep, chosen-kept k))
  ]

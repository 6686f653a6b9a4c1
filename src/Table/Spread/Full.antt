-- ===== src/Table/Spread/Full.antt =====
-- crates/neo-ax/src/table.rs, `spread`: how many rows there are, and in which order.
use starkbot_neo.Common.{
  ℕ, zero, suc, ◌-◌, ◌≤◌, ◌≡◌, refl, ap, ◌∙◌, Bool, true, false, inl, inr, List, [], ◌∷◌, arith,
}
use starkbot_neo.Common.Tests.{leb, Bool-cases}
use starkbot_neo.Common.Lists.{length, All, All-map}
use starkbot_neo.Table.{min}
use starkbot_neo.Table.Spread.{
  Key, pass_one, gather, no_members, positions, laps, total, mark, mark_all, count, take, select,
  keys_of, share_of, reserved, chosen, spread,
}
use starkbot_neo.Table.Spread.Rest.{occ, laps-occ, laps-full, free, mark_all-counts}
use starkbot_neo.Table.Spread.Gather.{
  has, pass_one-All-has, pass_one-length, no_members-has, no_members-empty, gather-total,
  gather-occ, free_from-zero,
}

length-mark : (p : ℕ) (keep : List Bool) → length (mark p keep) ≡ length keep
unfolding mark
length-mark p [] = refl
length-mark zero (kept ∷ keep) = refl
length-mark (suc p) (kept ∷ keep) = ap (λ n. suc n) (length-mark p keep)

length-mark_all : (ps : List ℕ) (keep : List Bool) → length (mark_all ps keep) ≡ length keep
unfolding mark_all
length-mark_all [] keep = refl
length-mark_all (p ∷ ps) keep = length-mark_all ps (mark p keep) ∙ length-mark p keep

module _ {ℓ} {A : Type ℓ} where
  length-keys_of : (key : A → Key) (xs : List A) → length (keys_of key xs) ≡ length xs
  length-keys_of key [] = refl
  length-keys_of key (x ∷ xs) = ap (λ n. suc n) (length-keys_of key xs)

  select-count :
      (xs : List A) (keep : List Bool)
      → length keep ≡ length xs
      → length (select xs keep) ≡ count keep
  select-count [] [] h = refl
  select-count [] (kept ∷ keep) h = omega arith
  select-count (x ∷ xs) [] h = refl
  select-count (x ∷ xs) (true ∷ keep) h = ap (λ n. suc n) (select-count xs keep (omega arith))
  select-count (x ∷ xs) (false ∷ keep) h = select-count xs keep (omega arith)

  take-count : (n : ℕ) (xs : List A) → length (take n xs) ≡ min (length xs) n
  take-count zero xs = ground arith
  take-count (suc n) [] = ground arith
  take-count (suc n) (x ∷ xs) = let rest = take-count n xs in ground arith

  -- Some of a list, in the order of the list.
  pub data IsSome : List A → List A → Type ℓ where
    done : IsSome [] []
    skip : {x : A} {xs ys : List A} → IsSome xs ys → IsSome xs (x ∷ ys)
    same : {x : A} {xs ys : List A} → IsSome xs ys → IsSome (x ∷ xs) (x ∷ ys)

  none_of : (ys : List A) → IsSome [] ys
  none_of [] = done
  none_of (y ∷ ys) = skip (none_of ys)

  IsSome-refl : (ys : List A) → IsSome ys ys
  IsSome-refl [] = done
  IsSome-refl (y ∷ ys) = same (IsSome-refl ys)

  take-select : (n : ℕ) (xs : List A) (keep : List Bool) → IsSome (take n (select xs keep)) xs
  take-select zero xs keep = none_of xs
  take-select (suc n) [] keep = done
  take-select (suc n) (x ∷ xs) [] = none_of (x ∷ xs)
  take-select (suc n) (x ∷ xs) (true ∷ keep) = same (take-select n xs keep)
  take-select (suc n) (x ∷ xs) (false ∷ keep) = skip (take-select (suc n) xs keep)

module _ {ℓ} {A : Type ℓ} (key : A → Key) (cap : ℕ) (ordered : List A) where
  chosen-full :
      (length (chosen key cap ordered) ≡ length ordered)
      × (min cap (length ordered) ≤ count (chosen key cap ordered))
  unfolding chosen reserved
  chosen-full =
      let keys = keys_of key ordered in
      let keep = reserved key cap ordered in
      let slots = (pass_one (share_of cap) [] keys).1 in
      let start = no_members slots in
      let groups = positions (gather 0 keys keep start) in
      let room = cap - count keep in
      let ps = laps (total groups) room groups in
      let wide : length keep ≡ length keys = pass_one-length (share_of cap) keys [] in
      let all : All (λ j. has j start ≡ true) keys =
        All-map (λ j h. no_members-has j slots ∙ h) keys
          (pass_one-All-has (share_of cap) keys []) in
      let left = gather-total 0 keys keep start all wide in
      let fresh : (p : ℕ) → occ p ps ≤ free p keep = λ p. omega (
        arith,
        laps-occ p (total groups) room groups,
        gather-occ p 0 keys keep start,
        free_from-zero p keep,
        (no_members-empty p slots).1,
      ) in
      let kept = mark_all-counts ps keep fresh in
      let full = laps-full (total groups) room groups (omega arith) in
      let empty = (no_members-empty 0 slots).0 in
      (
        length-mark_all ps keep ∙ (wide ∙ length-keys_of key ordered),
        ground (arith, length-keys_of key ordered),
      )

  -- As many elements stay as there are, up to the cap, and they stay in the order in which they came.
  pub spread-full :
      (length (spread key cap ordered) ≡ min (length ordered) cap)
      × IsSome (spread key cap ordered) ordered
  unfolding spread
  spread-full = elim (Bool-cases (leb (length ordered) cap)) [
    | inl e ↦ rw e (ground arith, IsSome-refl ordered)
    | inr e ↦
        let keep = chosen key cap ordered in
        let (wide, full) = chosen-full in
        rw e (
          ground (arith, take-count cap (select ordered keep), select-count ordered keep wide),
          take-select cap ordered keep,
        )
  ]

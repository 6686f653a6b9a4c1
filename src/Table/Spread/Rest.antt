-- ===== src/Table/Spread/Rest.antt =====
-- crates/neo-ax/src/table.rs, `spread`, pass two: each position is taken once, and all the room is used.
use starkbot_neo.Common.{
  ℕ, zero, suc, ◌+◌, ◌-◌, ◌≤◌, ◌<◌, ◌≡◌, refl, Bool, true, false, inl, inr, List, [], ◌∷◌, ◌++◌,
  ◌||◌, arith,
}
use starkbot_neo.Common.Tests.{◌==◌, Bool-cases, if◌then◌else◌}
use starkbot_neo.Common.Lists.{length, length-append}
use starkbot_neo.Table.{min}
use starkbot_neo.Table.Spread.{lap, laps, total, mark, mark_all, count}

-- How often a position stands among the groups, and in a list.
abbrev pub occ : ℕ → List ℕ → ℕ
occ p [] = 0
occ p (q ∷ qs) = let rest = occ p qs in if q == p then suc rest else rest

abbrev pub occ_all : ℕ → List (List ℕ) → ℕ
occ_all p [] = 0
occ_all p (group ∷ groups) = occ p group + occ_all p groups

pub occ-append : (p : ℕ) (a b : List ℕ) → occ p (a ++ b) ≡ occ p a + occ p b
occ-append p [] b = omega arith
occ-append p (q ∷ a) b = let rest = occ-append p a b in ground arith

-- A lap takes some of what is there, and something where there is something and room for it.
pub lap-occ :
    (p room : ℕ) (groups : List (List ℕ))
    → occ p (lap room groups).0 + occ_all p (lap room groups).1 ≡ occ_all p groups
unfolding lap
lap-occ p room [] = omega arith
lap-occ p room ([] ∷ groups) = let rest = lap-occ p room groups in omega arith
lap-occ p zero ((q ∷ group) ∷ groups) = omega arith
lap-occ p (suc room) ((q ∷ group) ∷ groups) = let rest = lap-occ p room groups in ground arith

pub lap-total :
    (room : ℕ) (groups : List (List ℕ))
    → length (lap room groups).0 + total (lap room groups).1 ≡ total groups
unfolding lap
lap-total room [] = omega arith
lap-total room ([] ∷ groups) = let rest = lap-total room groups in omega arith
lap-total zero ((q ∷ group) ∷ groups) = omega arith
lap-total (suc room) ((q ∷ group) ∷ groups) = let rest = lap-total room groups in omega arith

pub lap-takes :
    (room : ℕ) (groups : List (List ℕ))
    → 0 < room
    → 0 < total groups
    → 0 < length (lap room groups).0
unfolding lap
lap-takes room [] h t = omega arith
lap-takes room ([] ∷ groups) h t = lap-takes room groups h (omega arith)
lap-takes zero ((q ∷ group) ∷ groups) h t = omega arith
lap-takes (suc room) ((q ∷ group) ∷ groups) h t = omega arith

pub laps-occ :
    (p fuel room : ℕ) (groups : List (List ℕ)) → occ p (laps fuel room groups) ≤ occ_all p groups
unfolding laps
laps-occ p zero room groups = omega arith
laps-occ p (suc fuel) room groups =
    let r = lap room groups in
    let left = room - length r.0 in
    elim (Bool-cases (room == 0 || total groups == 0)) [
      | inl e ↦ rw e (omega arith)
      | inr e ↦ rw e (
          omega (
            arith,
            occ-append p r.0 (laps fuel left r.1),
            lap-occ p room groups,
            laps-occ p fuel left r.1,
          ))
    ]

-- The laps take all that is left, or all that there is room for.
pub laps-full :
    (fuel room : ℕ) (groups : List (List ℕ))
    → total groups ≤ fuel
    → min room (total groups) ≤ length (laps fuel room groups)
unfolding laps
laps-full zero room groups h = ground arith
laps-full (suc fuel) room groups h =
    let r = lap room groups in
    let left = room - length r.0 in
    let same = lap-total room groups in
    elim (Bool-cases (room == 0 || total groups == 0)) [
      | inl e ↦ rw e (ground arith)
      | inr e ↦
          let some_room : 0 < room = ground arith in
          let some_left : 0 < total groups = ground arith in
          let first = lap-takes room groups some_room some_left in
          let rest = laps-full fuel left r.1 (omega arith) in
          rw e (ground (arith, length-append {0} r.0 (laps fuel left r.1)))
    ]

-- Whether a position is there and not kept.
abbrev pub free : ℕ → List Bool → ℕ
free p [] = 0
free zero (kept ∷ keep) = if kept then 0 else 1
free (suc p) (kept ∷ keep) = free p keep

mark-free :
    (p q : ℕ) (keep : List Bool) → free q (mark p keep) ≡ (if p == q then 0 else free q keep)
unfolding mark
mark-free p q [] = ground arith
mark-free zero zero (kept ∷ keep) = refl
mark-free zero (suc q) (kept ∷ keep) = ground arith
mark-free (suc p) zero (kept ∷ keep) = ground arith
mark-free (suc p) (suc q) (kept ∷ keep) = ground (arith, mark-free p q keep)

mark-counts : (p : ℕ) (keep : List Bool) → count (mark p keep) ≡ count keep + free p keep
unfolding mark
mark-counts p [] = omega arith
mark-counts zero (true ∷ keep) = omega arith
mark-counts zero (false ∷ keep) = omega arith
mark-counts (suc p) (true ∷ keep) = let rest = mark-counts p keep in omega arith
mark-counts (suc p) (false ∷ keep) = mark-counts p keep

free-le : (p : ℕ) (keep : List Bool) → free p keep ≤ 1
free-le p [] = omega arith
free-le zero (kept ∷ keep) = ground arith
free-le (suc p) (kept ∷ keep) = free-le p keep

mark-fresh :
    (q p n f : ℕ) → (if q == p then suc n else n) ≤ f → f ≤ 1 → n ≤ (if q == p then 0 else f)
mark-fresh q p n f h l = ground arith

-- Positions that are not kept, each once, are kept one by one.
pub mark_all-counts :
    (ps : List ℕ) (keep : List Bool)
    → ((p : ℕ) → occ p ps ≤ free p keep)
    → count (mark_all ps keep) ≡ count keep + length ps
unfolding mark_all
mark_all-counts [] keep h = omega arith
mark_all-counts (q ∷ ps) keep h =
    let fresh : (p : ℕ) → occ p ps ≤ free p (mark q keep) = λ p.
      let left = mark-fresh q p (occ p ps) (free p keep) (h p) (free-le p keep) in
      omega (arith, mark-free q p keep) in
    let rest = mark_all-counts ps (mark q keep) fresh in
    let own = mark-counts q keep in
    let once : 1 ≤ free q keep = ground (arith, h q) in omega (arith, free-le q keep)

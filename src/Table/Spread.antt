-- ===== src/Table/Spread.antt =====
-- crates/neo-ax/src/table.rs, `spread`: no kind of control takes all the rows. The `cursor` that goes
-- round the groups is a lap over them, again and again.
pub mod Reserve
pub mod Rest
pub mod Gather
pub mod Full
pub mod Kept
use starkbot_neo.Common.{
  ℕ, zero, suc, ◌+◌, ◌-◌, ◌*◌, ◌/◌, String, Bool, true, false, not, ◌&&◌, ◌||◌, Option, none, some,
  List, [], ◌∷◌, ◌++◌, str_eq,
}
use starkbot_neo.Common.Tests.{ltb, leb, ◌==◌, if◌then◌else◌}
use starkbot_neo.Common.Lists.{length, all}
use starkbot_neo.Table.{group_share_percent, max}

-- What the candidates are grouped by.
pub record Key : Type 0 where
  pub role : String
  pub container : Option String

abbrev pub container_eq : Option String → Option String → Bool
container_eq none none = true
container_eq (some a) (some b) = str_eq a b
container_eq none (some b) = false
container_eq (some a) none = false

unfoldable pub key_eq : Key → Key → Bool
key_eq a b = str_eq a.role b.role && container_eq a.container b.container

-- Pass one: the groups met so far with what each has reserved.
unfoldable pub reserve : ℕ → Key → List (Key × ℕ) → Bool × List (Key × ℕ)
reserve share k [] = if ltb 0 share then (true, (k, 1) ∷ []) else (false, (k, 0) ∷ [])
reserve share k ((j, n) ∷ slots) =
    let rest = reserve share k slots in
    if key_eq j k
    then if ltb n share then (true, (j, suc n) ∷ slots) else (false, (j, n) ∷ slots)
    else (rest.0, (j, n) ∷ rest.1)

unfoldable pub pass_one : ℕ → List (Key × ℕ) → List Key → List Bool × List (Key × ℕ)
unfolding reserve
pass_one share slots [] = ([], slots)
pass_one share slots (k ∷ keys) =
    let r = reserve share k slots in let rest = pass_one share r.1 keys in (r.0 ∷ rest.0, rest.1)

-- The positions that are left, by group.
unfoldable pub add_member : Key → ℕ → List (Key × List ℕ) → List (Key × List ℕ)
unfolding key_eq
add_member k position [] = []
add_member k position ((j, group) ∷ groups) =
    let rest = add_member k position groups in
    if key_eq j k then (j, group ++ (position ∷ [])) ∷ groups else (j, group) ∷ rest

unfoldable pub gather : ℕ → List Key → List Bool → List (Key × List ℕ) → List (Key × List ℕ)
unfolding add_member
gather position (k ∷ keys) (kept ∷ keep) groups =
    gather (suc position) keys keep (if kept then groups else add_member k position groups)
gather position [] keep groups = groups
gather position (k ∷ keys) [] groups = groups

abbrev pub no_members : List (Key × ℕ) → List (Key × List ℕ)
no_members [] = []
no_members ((k, n) ∷ slots) = (k, []) ∷ no_members slots

abbrev pub positions : List (Key × List ℕ) → List (List ℕ)
positions [] = []
positions ((k, group) ∷ groups) = group ∷ positions groups

-- Pass two, once round the groups: the first position of each that has one, while there is room.
unfoldable pub lap : ℕ → List (List ℕ) → List ℕ × List (List ℕ)
lap room [] = ([], [])
lap room ([] ∷ groups) = let rest = lap room groups in (rest.0, [] ∷ rest.1)
lap zero ((p ∷ group) ∷ groups) = ([], (p ∷ group) ∷ groups)
lap (suc room) ((p ∷ group) ∷ groups) = let rest = lap room groups in (p ∷ rest.0, group ∷ rest.1)

abbrev pub total : List (List ℕ) → ℕ
total [] = 0
total (group ∷ groups) = length group + total groups

-- The `while`, for a number of laps.
unfoldable pub laps : ℕ → ℕ → List (List ℕ) → List ℕ
unfolding lap
laps zero room groups = []
laps (suc fuel) room groups =
    let r = lap room groups in
    let rest = laps fuel (room - length r.0) r.1 in
    if room == 0 || total groups == 0 then [] else r.0 ++ rest

-- `keep[position] = true`.
unfoldable pub mark : ℕ → List Bool → List Bool
mark position [] = []
mark zero (kept ∷ keep) = true ∷ keep
mark (suc position) (kept ∷ keep) = kept ∷ mark position keep

unfoldable pub mark_all : List ℕ → List Bool → List Bool
unfolding mark
mark_all [] keep = keep
mark_all (p ∷ ps) keep = mark_all ps (mark p keep)

abbrev pub count : List Bool → ℕ
count [] = 0
count (true ∷ keep) = suc (count keep)
count (false ∷ keep) = count keep

abbrev pub take {ℓ} : {A : Type ℓ} → ℕ → List A → List A
take zero xs = []
take (suc n) [] = []
take (suc n) (x ∷ xs) = x ∷ take n xs

abbrev pub select {ℓ} : {A : Type ℓ} → List A → List Bool → List A
select [] keep = []
select (x ∷ xs) [] = []
select (x ∷ xs) (true ∷ keep) = x ∷ select xs keep
select (x ∷ xs) (false ∷ keep) = select xs keep

abbrev pub keys_of {ℓ} : {A : Type ℓ} → (A → Key) → List A → List Key
keys_of key [] = []
keys_of key (x ∷ xs) = key x ∷ keys_of key xs

abbrev pub share_of : ℕ → ℕ
share_of cap = max (cap * group_share_percent / 100) 1

module _ {ℓ} {A : Type ℓ} (key : A → Key) (cap : ℕ) (ordered : List A) where
  -- What pass one keeps.
  unfoldable pub reserved : List Bool
  unfolding pass_one
  reserved = (pass_one (share_of cap) [] (keys_of key ordered)).0

  -- What both passes keep. Each lap takes a position, so there are enough laps.
  unfoldable pub chosen : List Bool
  unfolding pass_one gather laps mark_all reserved
  chosen =
      let slots = (pass_one (share_of cap) [] (keys_of key ordered)).1 in
      let groups = positions (gather 0 (keys_of key ordered) reserved (no_members slots)) in
      mark_all (laps (total groups) (cap - count reserved) groups) reserved

  unfoldable pub spread : List A
  unfolding chosen
  spread = if leb (length ordered) cap then ordered else take cap (select ordered chosen)

-- ===== src/Models/Versions.antt =====
-- crates/neo-core/src/registry.rs: the order of versions, and the newest of some models.
use Prim.Native.Nat.{Ordering}
use mathlib.Core.List.{Memᴰ}
use starkbot_neo.Common.{
  ℕ, ◌≡◌, refl, subst, Bool, true, false, ◌⊎◌, inl, inr, List, [], ◌∷◌, arith,
}
use starkbot_neo.Common.Lists.{All}
use starkbot_neo.Models.Ids.{Classified}
use starkbot_neo.Models.Resolve.{compare_versions, newer, newest}

-- `Ordering::is_le`.
abbrev pub is_le : Ordering → Bool
is_le Ordering.gt = false
is_le _ = true

versions_refl : (v : List ℕ) → is_le (compare_versions v v) ≡ true
unfolding compare_versions
versions_refl [] = refl
versions_refl (n ∷ v) = ground (arith, versions_refl v)

versions_trans :
    (u v w : List ℕ)
    → is_le (compare_versions u v) ≡ true
    → is_le (compare_versions v w) ≡ true
    → is_le (compare_versions u w) ≡ true
unfolding compare_versions
versions_trans [] v [] p q = refl
versions_trans [] v (n ∷ w) p q = refl
versions_trans (l ∷ u) [] w p q = cc
versions_trans (l ∷ u) (m ∷ v) [] p q = cc
versions_trans (l ∷ u) (m ∷ v) (n ∷ w) p q = ground (arith, versions_trans u v w)

versions_flip :
    (v w : List ℕ) → compare_versions v w ≡ Ordering.gt → is_le (compare_versions w v) ≡ true
unfolding compare_versions
versions_flip [] [] h = refl
versions_flip [] (n ∷ w) h = cc
versions_flip (m ∷ v) [] h = refl
versions_flip (m ∷ v) (n ∷ w) h = ground (arith, versions_flip v w)

newer-cases :
    (best m : Classified)
    → ((newer best m ≡ best) × (is_le (compare_versions m.version best.version) ≡ true))
      ⊎ ((newer best m ≡ m) × (is_le (compare_versions best.version m.version) ≡ true))
unfolding newer
newer-cases best m = ground (arith, versions_flip best.version m.version)

-- The second is not older.
abbrev pub Orders : Classified → Classified → Type 0
Orders m n = is_le (compare_versions m.version n.version) ≡ true

-- The model that the fold ends with is one of them, and none is newer.
pub newest-greatest :
    (best : Classified) (ms : List Classified)
    → Memᴰ (newest best ms) (best ∷ ms) × All (λ m. Orders m (newest best ms)) (best ∷ ms)
unfolding newest
newest-greatest best [] = (Memᴰ.head refl, (versions_refl best.version, tt))
newest-greatest best (m ∷ ms) =
    let top = newest (newer best m) ms in
    let (among, (above, rest)) = newest-greatest (newer best m) ms in
    elim (newer-cases best m) [
      | inl (e, less) ↦ (
        place top (subst (λ n. Memᴰ top (n ∷ ms)) e among),
        (
          subst (λ n. Orders n top) e above,
          (
            versions_trans m.version best.version top.version less
                (subst (λ n. Orders n top) e above),
            rest,
          ),
        ),
      )
      | inr (e, less) ↦ (
        Memᴰ.tail (subst (λ n. Memᴰ top (n ∷ ms)) e among),
        (
          versions_trans best.version m.version top.version less
              (subst (λ n. Orders n top) e above),
          (subst (λ n. Orders n top) e above, rest),
        ),
      )
    ]
  where
    place : (a : Classified) → Memᴰ a (best ∷ ms) → Memᴰ a (best ∷ m ∷ ms)
    place a (Memᴰ.head e) = Memᴰ.head e
    place a (Memᴰ.tail r) = Memᴰ.tail (Memᴰ.tail r)

-- ===== src/Common/Map.antt =====
-- BTreeMap: an association list in the order of its keys, which `insert` keeps.
use Prim.Native.Nat.{ℕ, Ordering, compare}
use Prim.Native.String.{String}
use Prim.Native.String.{compare as compare_text}
use mathlib.Core.Path.{◌≡◌}
use mathlib.Core.Option.{Option, none, some}
use mathlib.Core.List.{List, [], ◌∷◌}
use native.Mathlib.Omega.{arith}
use text.Mathlib.TextEquality.{path_by_compare}
use text.Mathlib.TextPositions.{compare_refl}

pub record Ord (K : Type 0) : Type 0 where
  pub cmp : K → K → Ordering
  pub cmp-eq : (a b : K) → cmp a b ≡ Ordering.eq → a ≡ b
  pub cmp_self : (a : K) → cmp a a ≡ Ordering.eq

pub compare-eq : (a b : ℕ) → compare a b ≡ Ordering.eq → a ≡ b
compare-eq a b h = ground arith

pub compare_self : (a : ℕ) → compare a a ≡ Ordering.eq
compare_self a = ground arith

instance abbrev pub nat_ord : Ord ℕ
nat_ord = record { cmp = compare; cmp-eq = compare-eq; cmp_self = compare_self }

instance abbrev pub string_ord : Ord String
string_ord = record { cmp = compare_text; cmp-eq = path_by_compare; cmp_self = compare_refl }

-- `keys()`.
abbrev pub keys {ℓ} : {K : Type 0} {V : Type ℓ} → List (K × V) → List K
keys [] = []
keys ((k, v) ∷ m) = k ∷ keys m

-- `values()`.
abbrev pub values {ℓ} : {K : Type 0} {V : Type ℓ} → List (K × V) → List V
values [] = []
values ((k, v) ∷ m) = v ∷ values m

module _ {ℓ} {K : Type 0} {V : Type ℓ} ⦃o : Ord K⦄ where
  unfoldable pub lookup : K → List (K × V) → Option V
  lookup k [] = none
  lookup k ((j, v) ∷ m) = elim (o.cmp k j) [ Ordering.eq ↦ some v | _ ↦ lookup k m ]

  -- `insert(k, v)`.
  unfoldable pub put : K → V → List (K × V) → List (K × V)
  put k v [] = (k, v) ∷ []
  put k v ((j, w) ∷ m) = elim (o.cmp k j) [
    | Ordering.lt ↦ (k, v) ∷ (j, w) ∷ m
    | Ordering.eq ↦ (k, v) ∷ m
    | Ordering.gt ↦ (j, w) ∷ put k v m
  ]

  pub lookup-put_self : (k : K) (v : V) (m : List (K × V)) → lookup k (put k v m) ≡ some v
  unfolding lookup put
  lookup-put_self k v [] = ground (arith, o.cmp_self k)
  lookup-put_self k v ((j, w) ∷ m) = ground (arith, o.cmp_self k, lookup-put_self k v m)

  pub lookup-put_other :
      (j k : K) (v : V) (m : List (K × V)) → (j ≡ k → ⊥) → lookup j (put k v m) ≡ lookup j m
  unfolding lookup put
  lookup-put_other j k v [] h = ground (arith, o.cmp-eq j k)
  lookup-put_other j k v ((i, w) ∷ m) h =
      ground (arith, o.cmp-eq j k, o.cmp-eq k i, lookup-put_other j k v m h)

-- Every value of the map satisfies `P`.
abbrev pub AllValues {ℓ κ} : {K : Type 0} {V : Type ℓ} → (V → Type κ) → List (K × V) → Type κ
AllValues P [] = Unit
AllValues P ((k, v) ∷ m) = P v × AllValues P m

module _ {ℓ κ} {K : Type 0} {V : Type ℓ} (P : V → Type κ) ⦃o : Ord K⦄ where
  pub AllValues-put :
      (k : K) (v : V) (m : List (K × V)) → P v → AllValues P m → AllValues P (put k v m)
  unfolding put
  AllValues-put k v [] p a = (p, tt)
  AllValues-put k v ((j, w) ∷ m) p a = ground (arith, AllValues-put k v m p)

  pub AllValues-lookup :
      (k : K) (v : V) (m : List (K × V)) → AllValues P m → lookup k m ≡ some v → P v
  unfolding lookup
  AllValues-lookup k v [] a e = cc
  AllValues-lookup k v ((j, w) ∷ m) a e = ground (arith, AllValues-lookup k v m)

module _ {ℓ} {K : Type 0} {V : Type ℓ} ⦃o : Ord K⦄ where
  -- `remove(&k)`, without the value.
  unfoldable pub remove : K → List (K × V) → List (K × V)
  remove k [] = []
  remove k ((j, v) ∷ m) =
      let rest = remove k m in elim (o.cmp k j) [ Ordering.eq ↦ rest | _ ↦ (j, v) ∷ rest ]

  pub lookup-remove_self : (k : K) (m : List (K × V)) → lookup k (remove k m) ≡ none
  unfolding lookup remove
  lookup-remove_self k [] = ground arith
  lookup-remove_self k ((j, v) ∷ m) = ground (arith, lookup-remove_self k m)

  pub lookup-remove_other :
      (j k : K) (m : List (K × V)) → (j ≡ k → ⊥) → lookup j (remove k m) ≡ lookup j m
  unfolding lookup remove
  lookup-remove_other j k [] h = ground arith
  lookup-remove_other j k ((i, v) ∷ m) h =
      ground
        (arith, o.cmp-eq j k, o.cmp-eq j i, o.cmp-eq k i, o.cmp_self i, lookup-remove_other j k m h)

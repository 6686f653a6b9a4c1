-- ===== src/Models/Resolve.antt =====
-- crates/neo-core/src/registry.rs: what a symbolic id resolves to.
use Prim.Native.Nat.{Ordering, compare}
use starkbot_neo.Common.{
  ℕ, String, Bool, true, false, not, ◌&&◌, Option, none, some, List, [], ◌∷◌, str_eq,
}
use starkbot_neo.Common.Tests.{if◌then◌else◌}
use starkbot_neo.Common.Lists.{find_if}
use starkbot_neo.Models.Ids.{ModelTier, sol, terra, luna, Classified, hidden}
use starkbot_neo.Models.Classify.{classify}

abbrev pub sol_latest : String
sol_latest = "sol-latest"

-- Numeric order: 5.10 is above 5.9, and a longer version above its prefix.
unfoldable pub compare_versions : List ℕ → List ℕ → Ordering
compare_versions [] [] = Ordering.eq
compare_versions [] (n ∷ w) = Ordering.lt
compare_versions (m ∷ v) [] = Ordering.gt
compare_versions (m ∷ v) (n ∷ w) =
    let rest = compare_versions v w in
    elim (compare m n) [
      | Ordering.lt ↦ Ordering.lt
      | Ordering.gt ↦ Ordering.gt
      | Ordering.eq ↦ rest
    ]

abbrev pub tier_is : ModelTier → Option ModelTier → Bool
tier_is sol (some sol) = true
tier_is terra (some terra) = true
tier_is luna (some luna) = true
tier_is _ _ = false

-- `filter_map(classify).filter(...)`: the evergreen models of the tier.
unfoldable pub evergreens : String → ModelTier → List String → List Classified
evergreens provider tier [] = []
evergreens provider tier (id ∷ ids) =
    let rest = evergreens provider tier ids in
    elim (classify provider id) [
      | none ↦ rest
      | some m ↦ if tier_is tier m.tier && not m.dated then m ∷ rest else rest
    ]

unfoldable pub newer : Classified → Classified → Classified
unfolding compare_versions
newer best m = elim (compare_versions best.version m.version) [ Ordering.gt ↦ best | _ ↦ m ]

-- `max_by`: the last of the greatest.
unfoldable pub newest : Classified → List Classified → Classified
unfolding newer
newest best [] = best
newest best (m ∷ ms) = newest (newer best m) ms

unfoldable pub max_by_version : List Classified → Option Classified
unfolding newest
max_by_version [] = none
max_by_version (m ∷ ms) = some (newest m ms)

unfoldable pub resolve_latest : String → ModelTier → List String → Option String
resolve_latest provider tier ids = elim (max_by_version (evergreens provider tier ids)) [
  | none ↦ none
  | some m ↦ some m.id
]

-- What a saved id means against a catalogue.
unfoldable pub resolve : String → String → List String → Option String
unfolding resolve_latest hidden find_if
resolve provider requested ids =
    if str_eq requested sol_latest
    then resolve_latest provider sol ids
    else if hidden requested
    then none
    else find_if (λ id. str_eq id requested) ids

-- ===== src/Models/Newest.antt =====
-- crates/neo-core/src/registry.rs: a symbolic id resolves to the newest evergreen model.
use mathlib.Core.List.{Memᴰ}
use starkbot_neo.Common.{
  ℕ, String, ◌≡◌, ◌≢◌, refl, sym, ◌∙◌, ap, subst, true, false, not, ◌&&◌, ◌↔◌, Option, none, some,
  ◌⊎◌, inl, inr, List, [], ◌∷◌, arith, str_eq, eq_iff,
}
use starkbot_neo.Common.Tests.{Bool-cases, Option-cases}
use starkbot_neo.Common.Text.{codes}
use starkbot_neo.Common.Lists.{All-Memᴰ, find_if-some}
use starkbot_neo.Models.Ids.{
  ModelTier, Vendor, sol, terra, luna, Classified, hidden, vendor, openai, anthropic, split,
}
use starkbot_neo.Models.Classify.{
  classify, classify_gpt, classify_openai, classify_parts, classify_anthropic, strip_prefix,
}
use starkbot_neo.Models.Resolve.{
  sol_latest, compare_versions, tier_is, evergreens, newest, max_by_version, resolve_latest,
  resolve,
}
use starkbot_neo.Models.Versions.{is_le, newest-greatest}

-- An evergreen model of the tier, under that id.
abbrev pub IsEvergreen : String → ModelTier → String → Classified → Type 0
IsEvergreen provider tier id m =
    (classify provider id ≡ some m) × (m.tier ≡ some tier) × (m.dated ≡ false)

classify_parts-id :
    (id : String) (words : List (List ℕ)) (m : Classified)
    → classify_parts id words ≡ some m
    → m.id ≡ id
unfolding classify_parts
classify_parts-id id [] m h = ground arith
classify_parts-id id (number ∷ []) m h = ground arith
classify_parts-id id (number ∷ word ∷ tail) m h = ground arith

-- Whatever it says, it says of that id.
abbrev Names : String → Option Classified → Type 0
Names id o = (m : Classified) → o ≡ some m → m.id ≡ id

some-Names : (id : String) (c : Classified) → c.id ≡ id → Names id (some c)
some-Names id c e m h = ground arith

classify_gpt-id : (id : String) → Names id (classify_gpt id)
unfolding classify_gpt
classify_gpt-id id m h = rest (strip_prefix (codes "gpt-") (codes id)) h
  where
    rest :
        (o : Option (List ℕ))
        → (elim o [ none ↦ none | some r ↦ classify_parts id (split b'-' r) ]) ≡ some m
        → m.id ≡ id
    rest none h = ground arith
    rest (some r) h = classify_parts-id id (split b'-' r) m h

classify_openai-id : (id : String) → Names id (classify_openai id)
unfolding classify_openai
classify_openai-id id m h = ground (arith, classify_gpt-id id m)

classify_anthropic-id : (id : String) (m : Classified) → classify_anthropic id ≡ some m → m.id ≡ id
unfolding classify_anthropic
classify_anthropic-id id m h = ground arith

-- What is classified keeps its id, and is not hidden.
pub classify-id :
    (provider id : String) (m : Classified)
    → classify provider id ≡ some m
    → (m.id ≡ id) × (hidden id ≡ false)
unfolding classify
classify-id provider id m h = elim (Bool-cases (hidden id)) [
  | inl e ↦ absurd (ground arith)
  | inr e ↦ (by_vendor (vendor provider) (rw e at h), e)
]
  where
    by_vendor :
        (v : Option Vendor)
        → (elim v [
          | some openai ↦ classify_openai id
          | some anthropic ↦ classify_anthropic id
          | none ↦ none
        ])
          ≡ some m
        → m.id ≡ id
    by_vendor (some openai) k = classify_openai-id id m k
    by_vendor (some anthropic) k = classify_anthropic-id id m k
    by_vendor none k = ground arith

tier_is_iff : (t : ModelTier) (o : Option ModelTier) → (tier_is t o ≡ true) ↔ (o ≡ some t)
tier_is_iff sol (some sol) = ground arith
tier_is_iff sol (some terra) = ground arith
tier_is_iff sol (some luna) = ground arith
tier_is_iff terra (some sol) = ground arith
tier_is_iff terra (some terra) = ground arith
tier_is_iff terra (some luna) = ground arith
tier_is_iff luna (some sol) = ground arith
tier_is_iff luna (some terra) = ground arith
tier_is_iff luna (some luna) = ground arith
tier_is_iff sol none = ground arith
tier_is_iff terra none = ground arith
tier_is_iff luna none = ground arith

some_inj : {a b : Classified} → some a ≡ some b → a ≡ b
some_inj h = cc

module _ (provider : String) (tier : ModelTier) where
  not_kept :
      (m n : Classified) (o : Option Classified)
      → o ≡ some m
      → (tier_is tier m.tier && not m.dated) ≡ false
      → o ≡ some n
      → n.tier ≡ some tier
      → n.dated ≡ false
      → ⊥
  not_kept m n o e k c t d =
      let same : m ≡ n = ground arith in
      let it = (tier_is_iff tier n.tier).1 t in
      let k' = subst (λ (m : Classified). (tier_is tier m.tier && not m.dated) ≡ false) same k in
      ground arith

  -- One listed id: it adds its evergreen model, or it has none.
  evergreens-cases :
      (id : String) (ids : List String)
      → ((m : Classified) × IsEvergreen provider tier id m
          × (evergreens provider tier (id ∷ ids) ≡ m ∷ evergreens provider tier ids))
        ⊎ ((evergreens provider tier (id ∷ ids) ≡ evergreens provider tier ids)
            × ((m : Classified) → IsEvergreen provider tier id m → ⊥))
  unfolding evergreens
  evergreens-cases id ids = elim (Option-cases (classify provider id)) [
    | inl e ↦ inr (rw (e, evergreens) refl, λ m (c, t, d). cc)
    | inr (m, e) ↦ elim (Bool-cases (tier_is tier m.tier && not m.dated)) [
      | inl k ↦ inl (
        m,
        (e, (tier_is_iff tier m.tier).0 (ground arith), ground arith),
        rw (e, k, evergreens) refl,
      )
      | inr k ↦ inr (rw (e, k, evergreens) refl, λ n (c, t, d). not_kept m n _ e k c t d)
    ]
  ]

  -- The models among which the newest is chosen are the evergreen ones of the listed ids.
  no_model : (m : Classified) → Memᴰ m (evergreens provider tier []) → ⊥
  unfolding evergreens
  no_model m h = elim h [ ]

  evergreens_sound :
      (ids : List String) (m : Classified)
      → Memᴰ m (evergreens provider tier ids)
      → Memᴰ m.id ids × IsEvergreen provider tier m.id m
  evergreens_sound [] m h = absurd (no_model m h)
  evergreens_sound (id ∷ ids) m h = elim (evergreens-cases id ids) [
    | inl (n, ever, e) ↦ found n ever (subst (Memᴰ m) e h) (evergreens_sound ids m)
    | inr (e, never) ↦ let (a, b) = evergreens_sound ids m (subst (Memᴰ m) e h) in (Memᴰ.tail a, b)
  ]
    where
      found :
          (n : Classified)
          → IsEvergreen provider tier id n
          → Memᴰ m (n ∷ evergreens provider tier ids)
          → (Memᴰ m (evergreens provider tier ids)
              → Memᴰ m.id ids × IsEvergreen provider tier m.id m)
          → Memᴰ m.id (id ∷ ids) × IsEvergreen provider tier m.id m
      found n ever (Memᴰ.head e) rest =
          let here = ap (λ (m : Classified). m.id) e ∙ (classify-id provider id n ever.0).0 in
          (
            Memᴰ.head here,
            subst (λ a. IsEvergreen provider tier a m) (sym here)
                (subst (IsEvergreen provider tier id) (sym e) ever),
          )
      found n ever (Memᴰ.tail r) rest = let (a, b) = rest r in (Memᴰ.tail a, b)

  evergreens_complete :
      (ids : List String) (id : String) (m : Classified)
      → Memᴰ id ids
      → IsEvergreen provider tier id m
      → Memᴰ m (evergreens provider tier ids)
  evergreens_complete [] id m h ever = elim h [ ]
  evergreens_complete (j ∷ ids) id m (Memᴰ.head q) ever = elim (evergreens-cases j ids) [
    | inl (n, also, e) ↦
        let same : m ≡ n = some_inj (sym ever.0 ∙ (ap (classify provider) q ∙ also.0)) in
        subst (Memᴰ m) (sym e) (Memᴰ.head same)
    | inr (e, never) ↦ absurd (never m (subst (λ a. IsEvergreen provider tier a m) q ever))
  ]
  evergreens_complete (j ∷ ids) id m (Memᴰ.tail r) ever =
      let rest = evergreens_complete ids id m r ever in
      elim (evergreens-cases j ids) [
        | inl (n, also, e) ↦ subst (Memᴰ m) (sym e) (Memᴰ.tail rest)
        | inr (e, never) ↦ subst (Memᴰ m) (sym e) rest
      ]

  -- Where an evergreen model of the tier is listed, the symbolic id resolves, and to the id of a listed
  -- evergreen model that is not older than this one.
  pub resolve_latest-newest :
      (ids : List String) (id : String) (n : Classified)
      → Memᴰ id ids
      → IsEvergreen provider tier id n
      → (m : Classified) × (resolve_latest provider tier ids ≡ some m.id)
        × Memᴰ m.id ids
        × IsEvergreen provider tier m.id m
        × (is_le (compare_versions n.version m.version) ≡ true)
  unfolding resolve_latest max_by_version
  resolve_latest-newest ids id n h ever =
      among (evergreens provider tier ids) refl (evergreens_complete ids id n h ever)
    where
      among :
          (ms : List Classified)
          → evergreens provider tier ids ≡ ms
          → Memᴰ n ms
          → (m : Classified) × (resolve_latest provider tier ids ≡ some m.id)
            × Memᴰ m.id ids
            × IsEvergreen provider tier m.id m
            × (is_le (compare_versions n.version m.version) ≡ true)
      among [] e k = elim k [ ]
      among (m ∷ ms) e k =
          let (top, all) = newest-greatest m ms in
          let (a, b) =
            evergreens_sound ids (newest m ms) (subst (Memᴰ (newest m ms)) (sym e) top) in
          (newest m ms, rw (e, resolve_latest) refl, a, b, All-Memᴰ _ (m ∷ ms) all k)

  -- What a symbolic id resolves to is listed and evergreen.
  resolve_latest-listed :
      (ids : List String) (i : String)
      → resolve_latest provider tier ids ≡ some i
      → Memᴰ i ids × ((m : Classified) × IsEvergreen provider tier i m)
  unfolding resolve_latest max_by_version
  resolve_latest-listed ids i h = among (evergreens provider tier ids) refl
    where
      among :
          (ms : List Classified)
          → evergreens provider tier ids ≡ ms
          → Memᴰ i ids × ((m : Classified) × IsEvergreen provider tier i m)
      among [] e = absurd (ground arith)
      among (m ∷ ms) e =
          let (top, all) = newest-greatest m ms in
          let (a, b) =
            evergreens_sound ids (newest m ms) (subst (Memᴰ (newest m ms)) (sym e) top) in
          let same : (newest m ms).id ≡ i = ground arith in
          (
            subst (λ i. Memᴰ i ids) same a,
            (newest m ms, subst (λ i. IsEvergreen provider tier i (newest m ms)) same b),
          )

-- What an id resolves to against a catalogue is listed there and not hidden: the id itself, or for the
-- symbolic id an evergreen model of the top tier.
pub resolve-listed :
    (provider requested : String) (ids : List String) (i : String)
    → resolve provider requested ids ≡ some i
    → Memᴰ i ids
      × (hidden i ≡ false)
      × (((requested ≢ sol_latest) × (i ≡ requested))
          ⊎ ((requested ≡ sol_latest) × ((m : Classified) × IsEvergreen provider sol i m)))
unfolding resolve
resolve-listed provider requested ids i h = elim (Bool-cases (str_eq requested sol_latest)) [
  | inl e ↦
      let (a, (m, ever)) = resolve_latest-listed provider sol ids i (rw e at h) in
      (a, (classify-id provider i m ever.0).1, inr ((eq_iff requested sol_latest).0 e, (m, ever)))
  | inr e ↦ elim (Bool-cases (hidden requested)) [
    | inl k ↦ absurd (ground arith)
    | inr k ↦
        let (t, m) = find_if-some (λ id. str_eq id requested) ids i (rw (e, k) at h) in
        let same = (eq_iff i requested).0 t in
        (
          m,
          subst (λ r. hidden r ≡ false) (sym same) k,
          inl ((λ q. ground (arith, (eq_iff requested sol_latest).1 q)), same),
        )
  ]
]

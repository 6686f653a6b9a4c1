-- ===== src/Models/Resolved.antt =====
-- crates/neo-agent/src/runtime.rs, `resolved_model`: the model that a turn is sent to. The catalogue of
-- a vendor, read from the store, is a function.
use starkbot_neo.Common.{
  String, ◌≡◌, ◌≢◌, refl, sym, ◌∙◌, subst, inl, inr, Option, none, some, List, arith, str_eq,
  eq_iff,
}
use starkbot_neo.Common.Tests.{if◌then◌else◌, Bool-cases}
use starkbot_neo.Common.Result.{Result, ok, err}
use starkbot_neo.Json.{or_else}
use starkbot_neo.Models.Ids.{hidden, Vendor, openai, anthropic, vendor, sol_fallback}
use starkbot_neo.Models.Classify.{
  classify, classify_gpt, classify_openai, is_transcribe, is_live_transcribe, is_tts,
  classify_anthropic,
}
use starkbot_neo.Models.Resolve.{sol_latest, resolve}
use starkbot_neo.Models.Newest.{resolve-listed}

-- `PROVIDER_OPENAI` and `PROVIDER_ANTHROPIC`.
abbrev vendor_name : Vendor → String
vendor_name openai = "openai"
vendor_name anthropic = "anthropic"

-- The name under which the catalogue of a connection is kept.
unfoldable pub catalogue_of : String → String
unfolding vendor
catalogue_of provider = elim (vendor provider) [ none ↦ provider | some v ↦ vendor_name v ]

unfoldable pub resolved_model {ε} :
    {E : Type ε}
    → (String → Result E (List String))
    → String
    → Option String
    → String
    → Result E String
unfolding resolve sol_fallback catalogue_of
resolved_model models provider requested saved =
    let wanted = or_else saved requested in
    if str_eq wanted sol_latest
    then elim (models (catalogue_of provider)) [
      | err e ↦ err e
      | ok ids ↦ elim (resolve provider wanted ids) [
        | some id ↦ ok id
        | none ↦ ok (or_else wanted (sol_fallback provider))
      ]
    ]
    else ok wanted

-- The symbolic id names no model.
symbolic-none : (provider : String) → classify provider sol_latest ≡ none
unfolding classify hidden classify_openai is_transcribe is_live_transcribe is_tts classify_gpt
    classify_anthropic
symbolic-none provider = by_vendor (vendor provider)
  where
    by_vendor :
        (v : Option Vendor)
        → (elim v [
          | some openai ↦ classify_openai sol_latest
          | some anthropic ↦ classify_anthropic sol_latest
          | none ↦ none
        ])
          ≡ none
    by_vendor (some openai) = refl
    by_vendor (some anthropic) = refl
    by_vendor none = refl

fallback-concrete :
    (provider wanted : String) (v : Vendor)
    → vendor provider ≡ some v
    → or_else wanted (sol_fallback provider) ≢ sol_latest
unfolding sol_fallback
fallback-concrete provider wanted openai q =
    rw (q, sol_fallback) (λ e. ground (arith, (eq_iff "gpt-5.6-sol" sol_latest).1 e))
fallback-concrete provider wanted anthropic q =
    rw (q, sol_fallback) (λ e. ground (arith, (eq_iff "claude-opus-5" sol_latest).1 e))

resolve-concrete :
    (provider : String) (ids : List String) (i : String)
    → resolve provider sol_latest ids ≡ some i
    → i ≢ sol_latest
resolve-concrete provider ids i h e =
    let (listed, shown, which) = resolve-listed provider sol_latest ids i h in
    elim which [
      | inl (other, same) ↦ other refl
      | inr (same, (m, ever)) ↦
          let c = subst (λ j. classify provider j ≡ some m) e ever.0 in
          ground (arith, symbolic-none provider)
    ]

ok_inj {ε} : {E : Type ε} {a b : String} → ◌≡◌ {A = Result E String} (ok a) (ok b) → a ≡ b
ok_inj h = cc

module _ {ε} {E : Type ε} (models : String → Result E (List String)) (provider saved : String)
    (requested : Option String) where
  module _ (v : Vendor) (q : vendor provider ≡ some v) (wanted : String)
      (symbolic : wanted ≡ sol_latest) (i : String) where
    looked_up :
        (ids : List String) (r : Option String)
        → resolve provider wanted ids ≡ r
        → (let o : Result E String = elim r [
          | some id ↦ ok id
          | none ↦ ok (or_else wanted (sol_fallback provider))
        ] in
            o ≡ ok i)
        → i ≢ sol_latest
    looked_up ids (some id) e h =
        let found = subst (λ w. resolve provider w ids ≡ some id) symbolic e in
        subst (λ j. j ≢ sol_latest) (ok_inj h) (resolve-concrete provider ids id found)
    looked_up ids none e h =
        subst (λ j. j ≢ sol_latest) (ok_inj h) (fallback-concrete provider wanted v q)

    fetched :
        (r : Result E (List String))
        → (let o : Result E String = elim r [
          | err e ↦ err e
          | ok ids ↦ elim (resolve provider wanted ids) [
            | some id ↦ ok id
            | none ↦ ok (or_else wanted (sol_fallback provider))
          ]
        ] in
            o ≡ ok i)
        → i ≢ sol_latest
    fetched (err e) h = absurd (ground arith)
    fetched (ok ids) h = looked_up ids (resolve provider wanted ids) refl h

  -- On a connection of a known vendor: a concrete id is sent as it is, also one that is hidden, and
  -- where the symbolic id is asked for, what is sent is never the symbolic id.
  pub resolved_model-concrete :
      (v : Vendor)
      → vendor provider ≡ some v
      → ((or_else saved requested ≢ sol_latest)
          → resolved_model models provider requested saved ≡ ok (or_else saved requested))
        × ((i : String) → resolved_model models provider requested saved ≡ ok i → i ≢ sol_latest)
  unfolding resolved_model
  resolved_model-concrete v q =
      let wanted = or_else saved requested in
      let other = eq_iff wanted sol_latest in
      elim (Bool-cases (str_eq wanted sol_latest)) [
        | inr k ↦ (
          λ n. rw (k, resolved_model) refl,
          λ i h e.
              let same : i ≡ wanted = ok_inj (sym h ∙ rw (k, resolved_model) refl) in
              let it = other.1 (sym same ∙ e) in cc,
        )
        | inl k ↦ (
          λ n. absurd (n (other.0 k)),
          λ i h.
              fetched v q wanted (other.0 k) i (models (catalogue_of provider))
                (rw (k, resolved_model) at h),
        )
      ]

-- ===== src/Tests/Models.antt =====
-- crates/neo-core/src/registry.rs and crates/neo-agent/src/runtime.rs: ids of the two vendors.
use mathlib.Core.List.{Memᴰ}
use starkbot_neo.Common.{String, ◌≡◌, ◌≢◌, ◌⊎◌, refl, true, false, some, List, [], ◌∷◌, Bool}
use starkbot_neo.Common.Result.{Result, ok}
use starkbot_neo.Models.Ids.{Classified, sol, openai, hidden, inference, text_helper, vendor}
use starkbot_neo.Models.Classify.{classify}
use starkbot_neo.Models.Versions.{is_le}
use starkbot_neo.Models.Resolve.{sol_latest, compare_versions, resolve_latest, resolve}
use starkbot_neo.Models.Newest.{IsEvergreen, resolve_latest-newest, resolve-listed}
use starkbot_neo.Models.Resolved.{resolved_model, resolved_model-concrete}

abbrev listed : List String
listed = "gpt-5.9-sol" ∷ "gpt-5.10-sol" ∷ "gpt-6-sol-2026-09-01" ∷ "gpt-7-terra" ∷ "whisper-1" ∷ []

abbrev model_5_9 : Classified
model_5_9 = record {
  id = "gpt-5.9-sol";
  tier = some sol;
  version = 5 ∷ 9 ∷ [];
  dated = false;
  use_cases = inference ∷ text_helper ∷ [];
}

model_5_9-classified : classify "openai" "gpt-5.9-sol" ≡ some model_5_9
unfolding classify hidden vendor starkbot_neo.Models.Classify.classify_openai
    starkbot_neo.Models.Classify.is_transcribe starkbot_neo.Models.Classify.is_live_transcribe
    starkbot_neo.Models.Classify.is_tts starkbot_neo.Models.Classify.classify_gpt
model_5_9-classified = refl

newest_is : resolve_latest "openai" sol listed ≡ some "gpt-5.10-sol"
unfolding resolve_latest starkbot_neo.Models.Resolve.evergreens
    starkbot_neo.Models.Resolve.max_by_version classify hidden vendor
    starkbot_neo.Models.Classify.classify_openai starkbot_neo.Models.Classify.is_transcribe
    starkbot_neo.Models.Classify.is_live_transcribe starkbot_neo.Models.Classify.is_tts
    starkbot_neo.Models.Classify.classify_gpt
newest_is = refl

resolve_latest-newest_example :
    (m : Classified) × (resolve_latest "openai" sol listed ≡ some m.id)
    × Memᴰ m.id listed
    × IsEvergreen "openai" sol m.id m
    × (is_le (compare_versions (5 ∷ 9 ∷ []) m.version) ≡ true)
resolve_latest-newest_example =
    resolve_latest-newest "openai" sol listed "gpt-5.9-sol" model_5_9 (Memᴰ.head refl)
      (model_5_9-classified, refl, refl)

-- The second id is listed, so it is what it resolves to.
taken : resolve "openai" "gpt-7-terra" listed ≡ some "gpt-7-terra"
unfolding resolve hidden
taken = refl

resolve-listed_example :
    Memᴰ "gpt-7-terra" listed
    × (hidden "gpt-7-terra" ≡ false)
    × ((("gpt-7-terra" ≢ sol_latest) × (◌≡◌ {A = String} "gpt-7-terra" "gpt-7-terra"))
        ⊎ ((◌≡◌ {A = String} "gpt-7-terra" sol_latest)
            × ((m : Classified) × IsEvergreen "openai" sol "gpt-7-terra" m)))
resolve-listed_example = resolve-listed "openai" "gpt-7-terra" listed "gpt-7-terra" taken

-- A hidden id that is asked for by name is sent as it is.
abbrev empty_catalogue : String → Result Bool (List String)
empty_catalogue provider = ok []

openai_vendor : vendor "openai-codex" ≡ some openai
unfolding vendor
openai_vendor = refl

resolved_model-concrete_example :
    (("whisper-1" ≢ sol_latest)
      → resolved_model empty_catalogue "openai-codex" (some "whisper-1") sol_latest
        ≡ ok "whisper-1")
    × ((i : String)
        → resolved_model empty_catalogue "openai-codex" (some "whisper-1") sol_latest ≡ ok i
        → i ≢ sol_latest)
resolved_model-concrete_example =
    resolved_model-concrete empty_catalogue "openai-codex" sol_latest (some "whisper-1") openai
      openai_vendor

-- ===== src/Nav/Gate/Actions.antt =====
-- crates/jev-nav/src/gate.rs: when the gate lets an action through, and what it answers otherwise.
use starkbot_neo.Common.{
  String, ◌≡◌, refl, ◌↔◌, ◌⊎◌, true, false, ◌||◌, none, some, List, [], ◌∷◌, arith, str_eq,
}
use starkbot_neo.Common.Lists.{All}
use starkbot_neo.Common.Float.{F64, f64_one, f64_ge}
use starkbot_neo.Common.Map.{lookup, string_ord}
use starkbot_neo.Json.{get_str, or_else}
use starkbot_neo.Nav.Rules.{safety}
use starkbot_neo.Nav.Externals.{Externals}
use starkbot_neo.Nav.Decision.{Action, Decision}
use starkbot_neo.Nav.Words.{confirm_word}
use starkbot_neo.Nav.Gate.{
  Gate, allow, action, destination, check_url, upload_guard, head_guard, risky_head, origin_of,
  contains,
}

abbrev pub kind_of : Action → String
kind_of act = or_else "" (get_str act "kind")

abbrev pub label_of : Action → String
label_of act = or_else "" (get_str act "label")

-- A wait or a scroll, which changes nothing outside.
abbrev pub IsPassive : Action → Type 0
IsPassive act = (str_eq (kind_of act) "wait" || str_eq (kind_of act) "scroll") ≡ true

-- The answer of a risk head, 1.0 where there is none.
abbrev pub risk : Decision → String → F64
risk d head = or_else f64_one (lookup head d.safety)

-- Every risk head stays under the threshold.
abbrev pub IsUnderThreshold : Gate → Decision → Type 0
IsUnderThreshold g d =
    All (λ (h : String × String). f64_ge (risk d h.0) g.confirm_at ≡ false) safety

abbrev pub IsUploadApproved : Externals → Gate → Action → String → Type 0
IsUploadApproved x g act url =
    str_eq (kind_of act) "upload" ≡ true → contains g.approved_uploads (origin_of x act url) ≡ true

risky_head-none_iff :
    (c : F64) (answers : List (String × F64)) (heads : List (String × String))
    → (risky_head c answers heads ≡ none)
      ↔ All (λ (h : String × String). f64_ge (or_else f64_one (lookup h.0 answers)) c ≡ false) heads
unfolding risky_head
risky_head-none_iff c answers [] = (λ _. tt, λ _. refl)
risky_head-none_iff c answers ((h, q) ∷ heads) =
    let (to, from) = risky_head-none_iff c answers heads in ground (arith, to, from)

head_guard-none_iff :
    (g : Gate) (d : Decision)
    → (head_guard g d ≡ none) ↔ ((g.safety_heads ≡ true) → IsUnderThreshold g d)
unfolding head_guard
head_guard-none_iff g d =
    let (to, from) = risky_head-none_iff g.confirm_at d.safety safety in ground (arith, to, from)

upload_guard-none_iff :
    (x : Externals) (g : Gate) (act : Action) (url : String)
    → (upload_guard x g act url ≡ none) ↔ IsUploadApproved x g act url
unfolding upload_guard
upload_guard-none_iff x g act url = ground arith

destination-ne-allow :
    (x : Externals) (g : Gate) (act : Action) → destination x g act ≡ some allow → ⊥
unfolding destination check_url
destination-ne-allow x g act h = ground arith

-- The gate lets an action through exactly when the destination is no objection, and the action is
-- a wait or a scroll, or its label holds no confirm word, its upload (if it is one) goes to an
-- approved origin, and, where the risk heads are asked, all of them stay under the threshold.
pub action-allow_iff :
    (x : Externals) (g : Gate) (d : Decision) (act : Action) (url : String)
    → (action x g d act url ≡ allow) ↔ (
        (destination x g act ≡ none)
        × (IsPassive act
            ⊎ ((confirm_word x.is_alphanumeric (label_of act) ≡ none)
                × IsUploadApproved x g act url
                × ((g.safety_heads ≡ true) → IsUnderThreshold g d))))
unfolding action
action-allow_iff x g d act url =
    let (up, up') = upload_guard-none_iff x g act url in
    let (he, he') = head_guard-none_iff g d in
    ground (arith, destination-ne-allow x g act, up, up', he, he')

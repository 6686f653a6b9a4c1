-- ===== src/Tests/Nav.antt =====
-- crates/jev-nav: the gate, the words and the loop on concrete inputs.
use mathlib.Core.List.{Memᴰ}
use starkbot_neo.Common.{
  ℕ, ◌≡◌, ◌≢◌, refl, ◌↔◌, ◌⊎◌, inr, true, false, Option, none, some, List, [], ◌∷◌, arith,
}
use starkbot_neo.Common.Lists.{All}
use starkbot_neo.Common.Float.{f64_le, f64_ge}
use starkbot_neo.Common.Map.{lookup}
use starkbot_neo.Common.Text.{codes, lower_codes, trim, to_ascii_lowercase}
use starkbot_neo.Json.{get_str}
use starkbot_neo.Nav.Words.{confirm_word, confirm_words}
use starkbot_neo.Nav.Words.Whole.{IsWhole, confirm_word_sound, confirm_word_complete}
use starkbot_neo.Nav.Decision.{Action}
use starkbot_neo.Nav.Gate.{
  Gate, allow, confirm, refuse, label, denied_origin, action, destination, upload_guard, is_denied,
  off_task, new, check_url, refuse_denied, covers, head_guard,
}
use starkbot_neo.Nav.Gate.Actions.{
  action-allow_iff, label_of, IsPassive, IsUploadApproved, IsUnderThreshold,
}
use starkbot_neo.Nav.Gate.Hosts.{
  Leads, IsPermitted, destination-none_iff, is_denied-below, entry_codes,
}
use starkbot_neo.Nav.Gate.Drift.{drift, two_low, drift_lem}
use starkbot_neo.Nav.Run.Calls.{acts, made}
use starkbot_neo.Nav.Run.Drive.{End, run}
use starkbot_neo.Nav.Run.Safety.{IsCleared}
use starkbot_neo.Nav.Run.Budget.{run-total, IsWithinBudget}
use starkbot_neo.Nav.Run.Approval.{IsSettled, run-IsCleared}
use starkbot_neo.Tests.Fixtures.{
  ascii_alphanumeric, x, config, navigator, world, clicker, pay, read_more, leave, decision,
}

abbrev gate : Gate
gate = record {
  confirm_at = config.confirm_at;
  safety_heads = false;
  denied_origins = "bank.test" ∷ [];
  approved_uploads = [];
  off_task_strikes = 0;
}

pay_word : confirm_word ascii_alphanumeric "Pay now" ≡ some "pay"
unfolding confirm_word
pay_word = refl

payload_word : confirm_word ascii_alphanumeric "Payload" ≡ none
unfolding confirm_word
payload_word = refl

pay_asks : action x gate decision pay "https://a.test" ≡ confirm (label "pay")
unfolding action destination confirm_word get_str
pay_asks = refl

leave_refused : action x gate decision leave "https://a.test" ≡ refuse (denied_origin "bank.test")
unfolding action destination check_url refuse_denied covers get_str trim to_ascii_lowercase
leave_refused = refl

read_allowed : action x gate decision read_more "https://a.test" ≡ allow
unfolding action destination confirm_word upload_guard head_guard get_str
read_allowed = refl

confirm_word_sound_example :
    Memᴰ "pay" confirm_words
    × IsWhole ascii_alphanumeric (codes "pay") none (lower_codes (codes "Pay now"))
confirm_word_sound_example = confirm_word_sound ascii_alphanumeric "Pay now" "pay" pay_word

confirm_word_complete_example : confirm_word ascii_alphanumeric "Pay now" ≢ none
confirm_word_complete_example =
    confirm_word_complete ascii_alphanumeric "Pay now" "pay" confirm_word_sound_example.0
      (λ h. ground arith) (refl, (refl, (refl, tt))) confirm_word_sound_example.1

action-allow_iff_example : (action x gate decision read_more "https://a.test" ≡ allow) ↔ (
    (destination x gate read_more ≡ none)
    × (IsPassive read_more
        ⊎ ((confirm_word x.is_alphanumeric (label_of read_more) ≡ none)
            × IsUploadApproved x gate read_more "https://a.test"
            × ((gate.safety_heads ≡ true) → IsUnderThreshold gate decision))))
action-allow_iff_example = action-allow_iff x gate decision read_more "https://a.test"

destination-none_iff_example :
    (destination x gate leave ≡ none)
    ↔ ((url : starkbot_neo.Nav.Externals.Url) → Leads x leave url → IsPermitted gate url)
destination-none_iff_example = destination-none_iff x gate leave

bank_named : entry_codes " Bank.test" ≢ []
unfolding trim
bank_named h = ground arith

is_denied-below_example : is_denied ("a.test" ∷ " Bank.test" ∷ []) "www.bank.test" ≡ true
unfolding trim
is_denied-below_example =
    is_denied-below ("a.test" ∷ []) [] " Bank.test" "www.bank.test" (codes "www") bank_named
      (inr refl)

drift_lem_example : drift 0x3fd0_0000_0000_0000 (new 0 false []) ([] ∷ [] ∷ []) ≡ some off_task
unfolding two_low f64_le f64_ge lookup
drift_lem_example = drift_lem 0 false [] 0x3fd0_0000_0000_0000 ([] ∷ [] ∷ []) refl

run-total_example :
    (e : End ℕ) × (run x world config navigator (record { world = 0; calls = [] }) ≡ some e)
    × IsWithinBudget e
run-total_example = run-total x world config navigator 0 (omega arith)

-- A page with a link, which is clicked once.
abbrev acted_in : Option (End ℕ) → List Action
acted_in none = []
acted_in (some e) = acts e.2.calls

read_once :
    acted_in (run x (clicker read_more) config navigator (record { world = 0; calls = [] }))
    ≡ read_more ∷ []
unfolding run starkbot_neo.Nav.Run.Drive.drive starkbot_neo.Nav.Run.Effects.observe
    starkbot_neo.Nav.Run.Round.turn starkbot_neo.Nav.Run.Round.look starkbot_neo.Nav.Gate.page
    starkbot_neo.Nav.Run.Round.ask starkbot_neo.Nav.Run.Effects.evaluate
    starkbot_neo.Nav.Policy.Request.resolve starkbot_neo.Nav.Wire.choice
    starkbot_neo.Nav.Wire.is_valid_choice starkbot_neo.Nav.Policy.Request.build_request
    starkbot_neo.Nav.Policy.Space.action_space starkbot_neo.Nav.Run.Surface.offered_of
    starkbot_neo.Nav.Policy.Space.add_action starkbot_neo.Nav.Decision.from_kind
    starkbot_neo.Json.get_u64 starkbot_neo.Nav.Policy.Space.offer
    starkbot_neo.Nav.Policy.Space.row_of starkbot_neo.Nav.Policy.Space.add_target
    starkbot_neo.Nav.Policy.Request.resolve_target starkbot_neo.Nav.Policy.Request.candidates_of
    starkbot_neo.Nav.Policy.Space.place starkbot_neo.Nav.Policy.Request.resolve_safety
    starkbot_neo.Nav.Run.Round.follow starkbot_neo.Nav.Run.Round.watch
    starkbot_neo.Nav.Run.Round.drift_of starkbot_neo.Nav.Gate.on_task
    starkbot_neo.Nav.Run.Round.judge starkbot_neo.Nav.Run.Round.same_action
    starkbot_neo.Nav.Run.Round.obey starkbot_neo.Nav.Gate.action starkbot_neo.Nav.Gate.destination
    starkbot_neo.Nav.Words.confirm_word starkbot_neo.Nav.Run.Round.type_or_act
    starkbot_neo.Nav.Run.Round.execute starkbot_neo.Nav.Run.Effects.act
    starkbot_neo.Nav.Run.Round.settle starkbot_neo.Nav.Run.Surface.is_stuck
    starkbot_neo.Nav.Run.Surface.mark_last starkbot_neo.Nav.Run.Surface.history_entry upload_guard
    head_guard
read_once = refl

run-IsCleared_example :
    (e : End ℕ) × (run x (clicker read_more) config navigator (record { world = 0; calls = [] })
      ≡ some e)
    × All (IsCleared x config [] []) (made e.2.calls)
    × IsSettled config e.1
run-IsCleared_example = run-IsCleared x config (clicker read_more) navigator 0 refl (omega arith)

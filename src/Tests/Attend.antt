-- ===== src/Tests/Attend.antt =====
-- crates/neo-agent/src/agent/tools.rs, `drive_with_cards`: a payment that a person approves.
use starkbot_neo.Common.{
  ℕ, zero, suc, ◌+◌, ◌<◌, ◌≤◌, ap, String, ◌≡◌, ◌≢◌, refl, true, false, Option, none, some, List,
  [], ◌∷◌, map, arith,
}
use starkbot_neo.Common.Result.{Result}
use starkbot_neo.Json.{Json, float, string, object, array, Fields, field, end, nil, cons}
use starkbot_neo.Nav.Wire.{Evaluation, WireError}
use starkbot_neo.Nav.Session.{World, NavError, Outcome}
use starkbot_neo.Nav.Run.Calls.{acts}
use starkbot_neo.Cards.{Desk, confirmed}
use starkbot_neo.Cards.Apart.{resolves}
use starkbot_neo.Cards.Wait.{Wait, IsSilent}
use starkbot_neo.Attend.{Leg, Closed, attend, drive_with_cards}
use starkbot_neo.Attend.Round.{IsFresh, IsBlank}
use starkbot_neo.Attend.Consent.{IsLegal, drive_with_cards-IsConsented}
use starkbot_neo.Attend.Ending.{drive_with_cards-ends}
use starkbot_neo.Tests.Fixtures.{x, config, navigator, pay, clicker}

abbrev shopping : World ℕ
shopping = clicker pay

abbrev desk : Desk
desk = record { poisoned = false; waiting = []; confirms = []; answers = []; published = [] }

-- A text of n letters.
abbrev name_of : ℕ → String
name_of zero = String.[]
name_of (suc n) = String.◌∷◌ "a" (name_of n)

-- The first card is approved, and nobody answers another.
abbrev schedule : ℕ → Wait
schedule zero = record {
  skipped = false;
  id = name_of 0;
  now = some 5;
  meanwhile = resolves (name_of 0) confirmed ∷ [];
}
schedule (suc n) = record { skipped = false; id = name_of (suc n); now = some 5; meanwhile = [] }

bought : Closed ℕ
bought = drive_with_cards x shopping config "task" schedule 5 navigator 0 desk

-- The button is clicked once, in the leg that the approval opened.
bought_once : map (λ l. acts l.calls) bought.legs ≡ (pay ∷ []) ∷ [] ∷ []
unfolding bought drive_with_cards attend starkbot_neo.Attend.reply
    starkbot_neo.Cards.Wait.confirm_card starkbot_neo.Nav.Run.Drive.run
    starkbot_neo.Nav.Run.Drive.drive starkbot_neo.Nav.Run.Effects.observe
    starkbot_neo.Nav.Run.Round.turn starkbot_neo.Nav.Run.Round.look starkbot_neo.Nav.Gate.page
    starkbot_neo.Nav.Run.Round.ask starkbot_neo.Nav.Run.Effects.evaluate
    starkbot_neo.Nav.Policy.Request.resolve starkbot_neo.Nav.Wire.choice
    starkbot_neo.Nav.Wire.is_valid_choice starkbot_neo.Nav.Policy.Request.build_request
    starkbot_neo.Nav.Policy.Space.action_space starkbot_neo.Nav.Run.Surface.offered_of
    starkbot_neo.Nav.Policy.Space.add_action starkbot_neo.Nav.Decision.from_kind
    starkbot_neo.Json.get_u64 starkbot_neo.Nav.Policy.Space.offer
    starkbot_neo.Nav.Policy.Space.row_of starkbot_neo.Nav.Policy.Space.add_target
    starkbot_neo.Nav.Policy.Request.resolve_target starkbot_neo.Nav.Policy.Request.candidates_of
    starkbot_neo.Nav.Policy.Space.place starkbot_neo.Nav.Policy.Request.resolve_safety
    starkbot_neo.Nav.Run.Round.follow starkbot_neo.Nav.Run.Round.watch
    starkbot_neo.Nav.Run.Round.drift_of starkbot_neo.Nav.Gate.on_task
    starkbot_neo.Nav.Run.Round.judge starkbot_neo.Nav.Run.Round.same_action
    starkbot_neo.Nav.Run.Round.obey starkbot_neo.Nav.Gate.action starkbot_neo.Nav.Gate.destination
    starkbot_neo.Nav.Words.confirm_word starkbot_neo.Cards.open_confirm
    starkbot_neo.Cards.close_confirm starkbot_neo.Cards.resolve_confirm starkbot_neo.Cards.take
    starkbot_neo.Cards.park starkbot_neo.Nav.Run.Drive.resume starkbot_neo.Nav.Run.Drive.answer
    starkbot_neo.Nav.Run.Drive.install starkbot_neo.Nav.Run.Round.type_or_act
    starkbot_neo.Nav.Run.Round.execute starkbot_neo.Nav.Run.Effects.act
    starkbot_neo.Nav.Run.Round.settle starkbot_neo.Nav.Run.Surface.is_stuck
    starkbot_neo.Nav.Run.Surface.mark_last starkbot_neo.Nav.Run.Surface.history_entry
bought_once = refl

size : String → ℕ
size String.[] = 0
size (String.◌∷◌ c s) = suc (size s)

size-name_of : (n : ℕ) → size (name_of n) ≡ n
unfolding size
size-name_of zero = refl
size-name_of (suc n) = ground (arith, size-name_of n)

name_of-ne : (j k : ℕ) → j < k → name_of j ≢ name_of k
name_of-ne j k h e = absurd (omega (arith, size-name_of j, size-name_of k, ap size e))

schedule-IsFresh : IsFresh schedule
schedule-IsFresh = (apart, own)
  where
    apart :
        (j k : ℕ)
        → j < k
        → ((schedule j).id ≢ (schedule k).id)
          × starkbot_neo.Common.Lists.All
              (starkbot_neo.Cards.Apart.IsElsewhere (schedule k).id)
              (schedule j).meanwhile
    apart j zero h = absurd (omega arith)
    apart zero (suc k) h = (name_of-ne zero (suc k) h, (name_of-ne zero (suc k) h, tt))
    apart (suc j) (suc k) h = (name_of-ne (suc j) (suc k) h, tt)

    own :
        (k : ℕ)
        → starkbot_neo.Common.Lists.All
            (starkbot_neo.Cards.Apart.IsApart (schedule k).id)
            (schedule k).meanwhile
    own zero = (tt, tt)
    own (suc k) = tt

schedule-IsSilent : (k : ℕ) → 1 ≤ k → IsSilent (schedule k)
schedule-IsSilent zero h = absurd (omega arith)
schedule-IsSilent (suc k) h = tt

desk-IsBlank : IsBlank schedule 0 desk
unfolding starkbot_neo.Common.Map.lookup
desk-IsBlank = (refl, λ k h. (refl, refl))

drive_with_cards-IsConsented_example :
    let c = drive_with_cards x shopping config "task" schedule 5 navigator 0 desk in
    IsLegal x config schedule [] c.nav c.legs
drive_with_cards-IsConsented_example =
    drive_with_cards-IsConsented x config schedule [] schedule-IsFresh shopping "task" 5 navigator 0
      desk desk-IsBlank refl refl (omega arith)

drive_with_cards-ends_example :
    (r : Result NavError Outcome) × ((drive_with_cards x shopping config "task" schedule
        (1 + 122)
        navigator
        0
        desk).result
      ≡ some r)
drive_with_cards-ends_example =
    drive_with_cards-ends x config schedule schedule-IsFresh 1 schedule-IsSilent shopping "task"
      navigator 0 desk desk-IsBlank refl (omega arith)

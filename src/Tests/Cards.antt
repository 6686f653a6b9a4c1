-- ===== src/Tests/Cards.antt =====
-- crates/neo-agent/src/confirm.rs: a card on the desk.
use starkbot_neo.Common.{◌≡◌, refl, false, none, some, List, [], ◌∷◌}
use starkbot_neo.Common.Map.{lookup, put, string_ord}
use starkbot_neo.Common.Result.{ok, err}
use starkbot_neo.Cards.{
  confirmed, denied, ask, no_such_card, Desk, waits, open_confirm, close_confirm,
}
use starkbot_neo.Cards.Apart.{Op, resolves, sends, perform_all}
use starkbot_neo.Cards.Answers.{confirm-first_answer}
use starkbot_neo.Cards.Once.{Given, outcome, reply, give_all, give_all-once}

abbrev desk : Desk
desk = record { poisoned = false; waiting = []; confirms = []; answers = []; published = [] }

-- Two front ends answer the same card.
abbrev calls : List Op
calls = sends "c1" (some "yes") ∷ resolves "c1" denied ∷ resolves "c1" confirmed ∷ []

no_answer : lookup "c1" desk.confirms ≡ none
unfolding lookup
no_answer = refl

confirm-first_answer_example :
    let r = open_confirm false (some 5) "c1" "t1" "label:pay" "Pay?" none desk in
    (r.0 ≡ waits) × ((close_confirm "c1" (perform_all calls r.1)).0 ≡ denied)
confirm-first_answer_example =
    confirm-first_answer 5 "c1" "t1" "label:pay" "Pay?" none calls desk refl no_answer
      (tt, (tt, (tt, tt)))

abbrev question_desk : Desk
question_desk = record desk { waiting = ("c2", ask) ∷ [] }

question_waits : lookup "c2" question_desk.waiting ≡ some ask
unfolding lookup
question_waits = refl

-- A question that is first taken for a confirm, then answered, then answered again and cancelled.
abbrev answers : List Given
answers = outcome confirmed ∷ reply (some "blue") ∷ reply (some "red") ∷ reply none ∷ []

give_all-once_example :
    let r = give_all "c2" answers question_desk in
    (r.0 ≡ err (no_such_card "c2") ∷ ok tt ∷ err (no_such_card "c2") ∷ err (no_such_card "c2") ∷ [])
    × ((lookup "c2" r.1.waiting ≡ none)
        × ((r.1.confirms ≡ []) × (r.1.answers ≡ put "c2" (some "blue") [])))
give_all-once_example = give_all-once "c2" ask answers question_desk refl question_waits

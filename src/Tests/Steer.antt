-- ===== src/Tests/Steer.antt =====
-- crates/neo-agent/src/agent: two messages for a run, one before it ends and one after.
use starkbot_neo.Common.{String, ◌≡◌, ◌≢◌, ◌⊎◌, refl, true, false, some, List, [], ◌∷◌, ◌++◌}
use starkbot_neo.Common.Map.{lookup, put, string_ord}
use starkbot_neo.Steer.{Inbox, Agent, register_run, live_run, mailbox, steer, resent}
use starkbot_neo.Steer.Inboxes.{Op, steers, steps, forgets, perform_all}
use starkbot_neo.Steer.Delivery.{said_to, steered-delivered}
use starkbot_neo.Steer.Answers.{IsHeard, IsRecorded, steer-resent}

abbrev start : Agent
start = record {
  inboxes = [];
  tables = record { conversations = []; messages = []; turns = [] };
  published = [];
}

abbrev busy : List Op
busy =
    steers (some 4) true "m" "run" (1 ∷ [])
    ∷ steps "run" "tools"
    ∷ forgets "run"
    ∷ steers (some 5) true "n" "run" (2 ∷ [])
    ∷ []

said_once : said_to "run" true busy ≡ (1 ∷ []) ∷ []
said_once = refl

steered-delivered_example :
    let st = perform_all busy (register_run "run" "thread" start) in
    (b : Inbox) × (lookup "run" st.inboxes ≡ some b)
    × (b.heard ++ b.queue ≡ said_to "run" true busy)
    × (lookup "run" (mailbox "run" "agent" st).inboxes
        ≡ some (record b { queue = []; heard = said_to "run" true busy }))
    × ((next : String) → next ≢ "agent" → mailbox "run" next st ≡ st)
steered-delivered_example = steered-delivered "run" "thread" busy start (tt, (tt, (tt, (tt, tt))))

-- The thread is not there, so the row is refused: the message waits at the run and is sent again.
steer-resent_example :
    let a = register_run "run" "thread" start in
    let r = steer (some 4) true "m" "run" (1 ∷ []) a in
    ((resent r.0 ≡ false)
      × ((h : IsHeard "run" (1 ∷ []) a r.1) × IsRecorded "run" (1 ∷ []) h.inbox.conversation a r.1))
    ⊎ ((resent r.0 ≡ true)
        × (r.1.tables ≡ a.tables)
        × (r.1.published ≡ a.published)
        × ((r.1 ≡ a) ⊎ IsHeard "run" (1 ∷ []) a r.1))
steer-resent_example =
    steer-resent (some 4) true "m" "run" (1 ∷ []) (register_run "run" "thread" start)

twice : resent (steer (some 4) true "m" "run" (1 ∷ []) (register_run "run" "thread" start)).0 ≡ true
unfolding steer live_run register_run lookup put starkbot_neo.Thread.append_message
    starkbot_neo.Thread.insert
twice = refl

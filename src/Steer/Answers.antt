-- ===== src/Steer/Answers.antt =====
-- crates/neo-agent/src/agent and crates/neo-tui/src/run.rs: what becomes of a message that is steered.
use starkbot_neo.Common.{
  ℕ, String, ◌≡◌, refl, sym, ◌∙◌, ap, Bool, true, false, Option, some, ◌⊎◌, inl, inr, [], ◌∷◌, ◌++◌,
  arith, str_eq, not, ◌&&◌,
}
use starkbot_neo.Common.Tests.{Option-cases, Bool-cases}
use starkbot_neo.Common.Lists.{any}
use starkbot_neo.Common.Map.{lookup, string_ord, lookup-put_self}
use starkbot_neo.Common.Result.{ok, err}
use starkbot_neo.Thread.{
  Bytes, NewMessage, Row, Tables, StoreError, sqlite, append_message, insert, touch, stored,
  next_row, is_conversation,
}
use starkbot_neo.Steer.{
  Inbox, Agent, message, turn_steered, live_run, post, mailbox, steer, resent, steered_row,
}
use starkbot_neo.Steer.Inboxes.{steer-inboxes}

-- The store has a new row at the end for the message, or is as it was.
append_message-cases :
    (works : Bool) (id : String) (m : NewMessage) (t : Tables)
    → let r = append_message works id m t in
      ((r.0 ≡ ok (stored id m))
        × (r.1.messages ≡ t.messages ++ next_row (stored id m) t.messages ∷ []))
      ⊎ ((e : StoreError) × (r.0 ≡ err e) × (r.1 ≡ t))
unfolding append_message insert touch
append_message-cases works id m t =
    elim (Bool-cases (
      any (is_conversation m.conversation_id) t.conversations
      && not (any (λ (r : Row). str_eq r.message.id id) t.messages))) [
        | inl e ↦ elim (Bool-cases works) [
          | inl w ↦
              inl (rw (append_message, insert, w, e) refl, rw (append_message, insert, w, e) refl)
          | inr w ↦ inr (sqlite, rw (append_message, w) refl, rw (append_message, w) refl)
        ]
        | inr e ↦ elim (Bool-cases works) [
          | inl w ↦ inr (
            sqlite,
            rw (append_message, insert, w, e) refl,
            rw (append_message, insert, w, e) refl,
          )
          | inr w ↦ inr (sqlite, rw (append_message, w) refl, rw (append_message, w) refl)
        ]
      ]

live_run-found :
    (run : String) (a : Agent) (b : Inbox)
    → live_run run a ≡ some b
    → (lookup run a.inboxes ≡ some b) × (b.live ≡ true)
unfolding live_run
live_run-found run a b q = elim (Option-cases (lookup run a.inboxes)) [
  | inl e ↦ absurd (ground arith)
  | inr (c, e) ↦ elim (Bool-cases c.live) [
    | inl l ↦ (ground arith, ground arith)
    | inr l ↦ absurd (ground arith)
  ]
]

-- What the model is given at its next call.
mailbox-given :
    (run : String) (a : Agent) (b : Inbox)
    → lookup run a.inboxes ≡ some b
    → lookup run (mailbox run "agent" a).inboxes
      ≡ some (record b { queue = []; heard = b.heard ++ b.queue })
unfolding mailbox
mailbox-given run a b q =
    rw (q, mailbox)
      (lookup-put_self run (record b { queue = []; heard = b.heard ++ b.queue }) a.inboxes)

-- The run is live, and the next call of its model is given the message last.
pub record IsHeard (run : String) (text : Bytes) (a a' : Agent) : Type 0 where
  pub inbox : Inbox
  pub waits : lookup run a.inboxes ≡ some inbox
  pub alive : inbox.live ≡ true
  pub heard :
      lookup run (mailbox run "agent" a').inboxes
      ≡ some (record inbox { queue = []; heard = inbox.heard ++ (inbox.queue ++ text ∷ []) })

-- The message is one new row at the end, in the thread of the run; it and the steering are published.
pub record IsRecorded (run : String) (text : Bytes) (conversation : String) (a a' : Agent)
    : Type 0 where
  pub row : Row
  pub kept : a'.tables.messages ≡ a.tables.messages ++ row ∷ []
  pub said : row.message.text ≡ text
  pub there : row.message.conversation_id ≡ conversation
  pub told : a'.published ≡ turn_steered run text ∷ message row.message ∷ a.published

steer-IsHeard :
    (now : Option ℕ) (works : Bool) (id run : String) (text : Bytes) (a : Agent) (b : Inbox)
    → live_run run a ≡ some b
    → (h : IsHeard run text a (steer now works id run text a).1) × (h.inbox ≡ b)
steer-IsHeard now works id run text a b q =
    let (waits, alive) = live_run-found run a b q in
    let found =
      ap (λ l. lookup run l) (steer-inboxes now works id run text a b q)
      ∙ lookup-put_self run (post text b) a.inboxes in
    let given = mailbox-given run (steer now works id run text a).1 (post text b) found in
    (record { inbox = b; waits = waits; alive = alive; heard = given }, refl)

-- Whatever the run, the clock and the store do, one of two things comes of a steered message. Either it is
-- not sent again: then the run is live and its model is given it next, and it is recorded once in the
-- thread of the run and published. Or it is sent again as a new turn: then nothing was stored and nothing
-- published, and nothing changed at all unless the run is live and is given it as well.
pub steer-resent :
    (now : Option ℕ) (works : Bool) (id run : String) (text : Bytes) (a : Agent)
    → let r = steer now works id run text a in
      ((resent r.0 ≡ false)
        × ((h : IsHeard run text a r.1) × IsRecorded run text h.inbox.conversation a r.1))
      ⊎ ((resent r.0 ≡ true)
          × (r.1.tables ≡ a.tables)
          × (r.1.published ≡ a.published)
          × ((r.1 ≡ a) ⊎ IsHeard run text a r.1))
unfolding steer steered_row
steer-resent now works id run text a = elim (Option-cases (live_run run a)) [
  | inl q ↦
      inr (rw (q, steer) refl, rw (q, steer) refl, rw (q, steer) refl, inl (rw (q, steer) refl))
  | inr (b, q) ↦
      let (h, same) = steer-IsHeard now works id run text a b q in
      elim (Option-cases now) [
        | inl e ↦ inr (rw (q, e, steer) refl, rw (q, e, steer) refl, rw (q, e, steer) refl, inr h)
        | inr (at, e) ↦
            let new = steered_row run b.conversation text at in
            elim (append_message-cases works id new a.tables) [
              | inl (f, grown) ↦ inl (
                rw (q, e, f, steer) refl,
                (
                  h,
                  record {
                    row = next_row (stored id new) a.tables.messages;
                    kept = rw (q, e, f, steer) grown;
                    said = refl;
                    there = ap (λ (b : Inbox). b.conversation) (sym same);
                    told = rw (q, e, f, steer) refl;
                  },
                ),
              )
              | inr (er, f, left) ↦ inr (
                rw (q, e, f, steer) refl,
                rw (q, e, f, steer) left,
                rw (q, e, f, steer) refl,
                inr h,
              )
            ]
      ]
]

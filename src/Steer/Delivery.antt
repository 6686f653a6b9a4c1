-- ===== src/Steer/Delivery.antt =====
-- crates/neo-agent/src/agent: what becomes of the messages that are steered into a run.
use mathlib.Core.List.{append-nil, append_assoc}
use starkbot_neo.Common.{
  String, ◌≡◌, ◌≢◌, refl, sym, ◌∙◌, ap, Bool, true, false, ◌&&◌, some, inl, inr, List, [], ◌∷◌,
  ◌++◌, arith, str_eq, eq_iff, eq_refl,
}
use starkbot_neo.Common.Tests.{if◌then◌else◌, Bool-cases, Option-cases}
use starkbot_neo.Common.Lists.{All}
use starkbot_neo.Common.Map.{lookup, string_ord, lookup-put_self}
use starkbot_neo.Thread.{Bytes}
use starkbot_neo.Steer.{Inbox, Agent, register_run, post, mailbox}
use starkbot_neo.Steer.Inboxes.{
  Op, registers, steers, steps, forgets, perform, perform_all, IsOnce, change, steps-change,
  perform-change,
}

-- What was said to the run while it was live, in order.
abbrev pub said_to : String → Bool → List Op → List Bytes
said_to run live [] = []
said_to run live (steers now works id r text ∷ ops) =
    let rest = said_to run live ops in if str_eq r run && live then text ∷ rest else rest
said_to run live (forgets r ∷ ops) = said_to run (if str_eq r run then false else live) ops
said_to run live (steps r next ∷ ops) = said_to run live ops
said_to run live (registers r conversation ∷ ops) = said_to run live ops

-- All that was said to it, heard or waiting.
abbrev all_of : Inbox → List Bytes
all_of b = b.heard ++ b.queue

posted-all_of :
    (c : Bool) (run : String) (text : Bytes) (ops : List Op) (b : Inbox)
    → all_of (if c then post text b else b) ++ said_to run (if c then post text b else b).live ops
      ≡ all_of b ++ (if c then text ∷ said_to run b.live ops else said_to run b.live ops)
posted-all_of true run text ops b = simp append_assoc
posted-all_of false run text ops b = refl

drained-all_of :
    (c : Bool) (run : String) (ops : List Op) (b : Inbox)
    → let d : Inbox = if c then record b { queue = []; heard = b.heard ++ b.queue } else b in
      all_of d ++ said_to run d.live ops ≡ all_of b ++ said_to run b.live ops
drained-all_of true run ops b = simp append-nil
drained-all_of false run ops b = refl

change-all_of :
    (run : String) (op : Op) (ops : List Op) (b : Inbox)
    → all_of (change run op b) ++ said_to run (change run op b).live ops
      ≡ all_of b ++ said_to run b.live (op ∷ ops)
unfolding change
change-all_of run (registers r conversation) ops b = refl
change-all_of run (steers now works id r text) ops b =
    posted-all_of (str_eq r run && b.live) run text ops b
change-all_of run (steps r next) ops b =
    drained-all_of (str_eq r run && str_eq next "agent") run ops b
change-all_of run (forgets r) ops b = ground arith

-- After a run was registered, whatever else happens: what its model was given, with what waits for it,
-- is what was said to it while it was live, in order and each message once.
pub perform_all-heard :
    (run : String) (ops : List Op) (a : Agent) (b : Inbox)
    → All (IsOnce run) ops
    → lookup run a.inboxes ≡ some b
    → (b' : Inbox) × (lookup run (perform_all ops a).inboxes ≡ some b')
      × (b'.heard ++ b'.queue ≡ (b.heard ++ b.queue) ++ said_to run b.live ops)
perform_all-heard run [] a b n q = (b, q, sym (append-nil _))
perform_all-heard run (op ∷ ops) a b n q =
    let (b', at, eq) =
      perform_all-heard run ops (perform op a) (change run op b) n.1
        (perform-change run op a b n.0 q) in
    (b', at, eq ∙ change-all_of run op ops b)

emptied :
    (run : String) (st : Agent) (b : Inbox) (said : List Bytes)
    → lookup run st.inboxes ≡ some b
    → b.heard ++ b.queue ≡ said
    → lookup run (mailbox run "agent" st).inboxes ≡ some (record b { queue = []; heard = said })
emptied run st b said at eq =
    steps-change run run "agent" st b at
    ∙ (chosen' (str_eq run run) (eq_refl run) (record b { queue = []; heard = b.heard ++ b.queue })
          b
        ∙ ap (λ h. some (record b { queue = []; heard = h })) eq)
  where
    chosen' :
        (c : Bool)
        → c ≡ true
        → (x y : Inbox) → some (if c && str_eq "agent" "agent" then x else y) ≡ some x
    chosen' true h x y = refl
    chosen' false h x y = cc

ignored : (run next : String) (st : Agent) → next ≢ "agent" → mailbox run next st ≡ st
unfolding mailbox
ignored run next st m = elim (Bool-cases (str_eq next "agent")) [
  | inl e ↦ absurd (m ((eq_iff next "agent").0 e))
  | inr e ↦ elim (Option-cases (lookup run st.inboxes)) [
    | inl gone ↦ rw (gone, mailbox) refl
    | inr (b, at) ↦ rw (at, e, mailbox) refl
  ]
]

-- From its registration on, whatever else happens: what the model of the run was given, with what waits
-- for it, is what was said to the run while it was live, in order and each message once; a step after
-- which the model is called gives it all of that, and no other step gives it anything.
pub steered-delivered :
    (run conversation : String) (ops : List Op) (a : Agent)
    → All (IsOnce run) ops
    → let st = perform_all ops (register_run run conversation a) in
      (b : Inbox) × (lookup run st.inboxes ≡ some b)
      × (b.heard ++ b.queue ≡ said_to run true ops)
      × (lookup run (mailbox run "agent" st).inboxes
          ≡ some (record b { queue = []; heard = said_to run true ops }))
      × ((next : String) → next ≢ "agent" → mailbox run next st ≡ st)
unfolding register_run
steered-delivered run conversation ops a n =
    let st = perform_all ops (register_run run conversation a) in
    let b0 : Inbox = record { conversation = conversation; queue = []; live = true; heard = [] } in
    let (b, at, eq) =
      perform_all-heard run ops (register_run run conversation a) b0 n
        (lookup-put_self run b0 a.inboxes) in
    (b, at, eq, emptied run st b (said_to run true ops) at eq, λ next m. ignored run next st m)

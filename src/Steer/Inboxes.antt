-- ===== src/Steer/Inboxes.antt =====
-- crates/neo-agent/src/agent: what an operation makes of the inbox of a run.
use starkbot_neo.Common.{
  ℕ, String, ◌≡◌, ◌≢◌, refl, sym, ◌∙◌, ap, subst, Bool, true, false, ◌&&◌, Option, none, some, inl,
  inr, List, [], ◌∷◌, ◌++◌, arith, str_eq, eq_iff, eq_refl,
}
use starkbot_neo.Common.Tests.{if◌then◌else◌, Bool-cases, Option-cases}
use starkbot_neo.Common.Map.{lookup, put, string_ord, lookup-put_self, lookup-put_other}
use starkbot_neo.Cards.Apart.{not_eq}
use starkbot_neo.Thread.{Bytes}
use starkbot_neo.Steer.{Inbox, Agent, register_run, forget_run, live_run, post, steer, mailbox}

-- What happens at the agent.
pub data Op : Type 0 where
  registers : String → String → Op
  steers : Option ℕ → Bool → String → String → Bytes → Op
  steps : String → String → Op
  forgets : String → Op

abbrev pub perform : Op → Agent → Agent
perform (registers run conversation) a = register_run run conversation a
perform (steers now works id run text) a = (steer now works id run text a).1
perform (steps run next) a = mailbox run next a
perform (forgets run) a = forget_run run a

abbrev pub perform_all : List Op → Agent → Agent
perform_all [] a = a
perform_all (op ∷ ops) a = perform_all ops (perform op a)

-- The run is not registered again: its id is fresh.
abbrev pub IsOnce : String → Op → Type 0
IsOnce run (registers r conversation) = r ≢ run
IsOnce run (steers now works id r text) = Unit
IsOnce run (steps r next) = Unit
IsOnce run (forgets r) = Unit

-- What one operation makes of the inbox of the run.
unfoldable pub change : String → Op → Inbox → Inbox
change run (registers r conversation) b = b
change run (steers now works id r text) b = if str_eq r run && b.live then post text b else b
change run (steps r next) b =
    if str_eq r run && str_eq next "agent"
    then record b { queue = []; heard = b.heard ++ b.queue }
    else b
change run (forgets r) b = if str_eq r run then record b { live = false } else b

pub steer-inboxes :
    (now : Option ℕ) (works : Bool) (id run : String) (text : Bytes) (a : Agent) (b : Inbox)
    → live_run run a ≡ some b
    → (steer now works id run text a).1.inboxes ≡ put run (post text b) a.inboxes
unfolding steer
steer-inboxes now works id run text a b q = ground arith

steer-dead :
    (now : Option ℕ) (works : Bool) (id run : String) (text : Bytes) (a : Agent)
    → live_run run a ≡ none
    → (steer now works id run text a).1 ≡ a
unfolding steer
steer-dead now works id run text a q = rw (q, steer) refl

-- An operation at another run leaves the inbox where it was.
away :
    (run r : String) (b : Inbox) (a : Agent)
    → str_eq r run ≡ false
    → lookup run (put r b a.inboxes) ≡ lookup run a.inboxes
away run r b a n = lookup-put_other run r b a.inboxes (λ e. not_eq r run n (sym e))

chosen : (c : Bool) → c ≡ true → (x y : Inbox) → some x ≡ some (if c then x else y)
chosen true h x y = refl
chosen false h x y = cc

other : (c : Bool) → c ≡ false → (x y : Inbox) → some y ≡ some (if c then x else y)
other true h x y = cc
other false h x y = refl

steers-change :
    (run : String) (now : Option ℕ) (works : Bool) (id r : String) (text : Bytes) (a : Agent)
    (b : Inbox)
    → lookup run a.inboxes ≡ some b
    → lookup run (steer now works id r text a).1.inboxes
      ≡ some (if str_eq r run && b.live then post text b else b)
unfolding live_run
steers-change run now works id r text a b q = elim (Bool-cases (str_eq r run)) [
  | inl e ↦
      let same = (eq_iff r run).0 e in
      subst
        (λ k.
          lookup run (steer now works id k text a).1.inboxes
          ≡ some (if str_eq k run && b.live then post text b else b))
        (sym same) (rw (eq_refl run) here)
  | inr e ↦ elim (Option-cases (live_run r a)) [
    | inl dead ↦ rw (e, steer-dead now works id r text a dead) q
    | inr (c, live) ↦
        rw (e, steer-inboxes now works id r text a c live) (away run r (post text c) a e ∙ q)
  ]
]
  where
    here :
        lookup run (steer now works id run text a).1.inboxes
        ≡ some (if b.live then post text b else b)
    here = elim (Bool-cases b.live) [
      | inl l ↦
          let live : live_run run a ≡ some b = rw (q, l, live_run) refl in
          let at = steer-inboxes now works id run text a b live in
          let found = ap (lookup run) at ∙ lookup-put_self run (post text b) a.inboxes in
          found ∙ chosen b.live l (post text b) b
      | inr l ↦
          let dead : live_run run a ≡ none = rw (q, l, live_run) refl in
          let at =
            ap (λ (a : Agent). lookup run a.inboxes) (steer-dead now works id run text a dead) in
          at ∙ (q ∙ other b.live l (post text b) b)
    ]

pub steps-change :
    (run r next : String) (a : Agent) (b : Inbox)
    → lookup run a.inboxes ≡ some b
    → lookup run (mailbox r next a).inboxes
      ≡ some (
          if str_eq r run && str_eq next "agent"
          then record b { queue = []; heard = b.heard ++ b.queue }
          else b)
unfolding mailbox
steps-change run r next a b q = elim (Bool-cases (str_eq r run)) [
  | inl e ↦
      let same = (eq_iff r run).0 e in
      let found : lookup r a.inboxes ≡ some b =
        subst (λ k. lookup k a.inboxes ≡ some b) (sym same) q in
      subst
        (λ k.
          lookup k (mailbox r next a).inboxes
          ≡ some (
              if str_eq r k && str_eq next "agent"
              then record b { queue = []; heard = b.heard ++ b.queue }
              else b))
        same
        (ground (
          arith,
          eq_refl r,
          found,
          lookup-put_self r (record b { queue = []; heard = b.heard ++ b.queue }) a.inboxes,
        ))
  | inr e ↦ elim (Option-cases (lookup r a.inboxes)) [
    | inl gone ↦ rw (e, gone, mailbox) q
    | inr (c, found) ↦
        let put_away = away run r (record c { queue = []; heard = c.heard ++ c.queue }) a e in
        ground arith
  ]
]

forgets-change :
    (run r : String) (a : Agent) (b : Inbox)
    → lookup run a.inboxes ≡ some b
    → lookup run (forget_run r a).inboxes
      ≡ some (if str_eq r run then record b { live = false } else b)
unfolding forget_run
forgets-change run r a b q = elim (Bool-cases (str_eq r run)) [
  | inl e ↦
      let same = (eq_iff r run).0 e in
      let found : lookup r a.inboxes ≡ some b =
        subst (λ k. lookup k a.inboxes ≡ some b) (sym same) q in
      subst
        (λ k.
          lookup k (forget_run r a).inboxes
          ≡ some (if str_eq r k then record b { live = false } else b))
        same
        (ground (arith, eq_refl r, found, lookup-put_self r (record b { live = false }) a.inboxes))
  | inr e ↦ elim (Option-cases (lookup r a.inboxes)) [
    | inl gone ↦ rw (e, gone, forget_run) q
    | inr (c, found) ↦ let put_away = away run r (record c { live = false }) a e in ground arith
  ]
]

pub perform-change :
    (run : String) (op : Op) (a : Agent) (b : Inbox)
    → IsOnce run op
    → lookup run a.inboxes ≡ some b
    → lookup run (perform op a).inboxes ≡ some (change run op b)
unfolding change register_run
perform-change run (registers r conversation) a b n q =
    lookup-put_other run r _ a.inboxes (λ e. n (sym e)) ∙ q
perform-change run (steers now works id r text) a b n q =
    steers-change run now works id r text a b q
perform-change run (steps r next) a b n q = steps-change run r next a b q
perform-change run (forgets r) a b n q = forgets-change run r a b q

-- ===== src/Nav/Run/Safety.antt =====
-- crates/jev-nav/src/lib.rs: what a run executes.
use starkbot_neo.Common.{
  ℕ, String, ◌≡◌, refl, ◌∙◌, ap, subst, ◌⊎◌, inl, inr, true, false, ◌||◌, str_eq, eq_iff, sym,
  Option, none, some, List, [], ◌∷◌, ◌++◌, arith,
}
use starkbot_neo.Common.Tests.{Bool-cases, Option-cases, if◌then◌else◌}
use starkbot_neo.Common.Lists.{All}
use starkbot_neo.Common.Float.{F64}
use starkbot_neo.Common.Result.{Result, ok}
use starkbot_neo.Json.{Json, get_str, or_else}
use starkbot_neo.Nav.Externals.{Externals}
use starkbot_neo.Nav.Wire.{Evaluation, WireError}
use starkbot_neo.Nav.Decision.{Action, Decision}
use starkbot_neo.Nav.Gate
use starkbot_neo.Nav.Gate.{Gate, Verdict, allow, confirm, hand, refuse, origin_of}
use starkbot_neo.Nav.Gate.Hosts.{approve_lem}
use starkbot_neo.Nav.Policy.Space.{action_space}
use starkbot_neo.Nav.Policy.Request.{build_request, resolve}
use starkbot_neo.Nav.Session.{World, RunConfig, Navigator, StepEvent}
use starkbot_neo.Nav.Run.Surface.{is_refused, offered_of, text_in}
use starkbot_neo.Nav.Run.Calls.{Made, made, made_after, seen, answered}
use starkbot_neo.Nav.Run.Round.{
  Loop, type_or_act, same_action, gate_of, obey, judge, drift_of, watch, follow,
}
use starkbot_neo.Nav.Run.Trace.{Left, execute-Left, finish-Left, type_or_act-Left}

-- The gate has the settings of the run.
abbrev pub Fits : RunConfig → Gate → Type 0
Fits config g =
    (g.confirm_at ≡ config.confirm_at)
    × (g.safety_heads ≡ config.safety_heads)
    × (g.denied_origins ≡ config.denied_origins)

-- The decision that the classifier's answer comes to, on an observation of which the refused actions
-- are not offered. What was done before is told to the classifier, but no decision depends on it.
abbrev pub decided :
    Externals → RunConfig → List Json → Json → Evaluation → Result WireError Decision
decided x config denied o ev =
    let space = action_space x (offered_of denied o) in
    let request = build_request o space config.goal [] config.safety_heads config.on_task_floor in
    resolve x request space ev

-- No person refused the action; it is the action of the decision that the classifier answered since
-- the last observation, and a gate with the settings of the run and with these approved uploads let it
-- through, for that decision and on the page of that observation.
abbrev pub IsCleared : Externals → RunConfig → List String → List Json → Made → Type 0
IsCleared x config uploads denied m =
    (is_refused denied m.action ≡ false)
    × ((o : Json) × (ev : Evaluation) × (d : Decision) × (g : Gate) × (m.seen ≡ some o)
        × (m.answer ≡ some ev)
        × (decided x config denied o ev ≡ ok d)
        × (d.action ≡ some m.action)
        × Fits config g
        × (g.approved_uploads ≡ uploads)
        × (Gate.action x g d m.action (text_in o "url") ≡ allow))

-- An approved upload is remembered by its origin, and nothing else is.
abbrev with_upload : Externals → List String → Action → String → List String
with_upload x uploads a url =
    if str_eq (or_else "" (get_str a "kind")) "upload"
    then uploads ++ origin_of x a url ∷ []
    else uploads

abbrev pub granted : Externals → List String → Made → List String
granted x uploads m = elim m.seen [
  | none ↦ uploads
  | some o ↦ with_upload x uploads m.action (text_in o "url")
]

module _ (x : Externals) (config : RunConfig) (uploads : List String) (denied : List Json)
    (given : Option Action) where
  -- All actions but one are cleared, and that one is the action that the person approved. `now` are the
  -- approved uploads after it.
  abbrev pub OneApproved : List String → List Made → Type 0
  OneApproved now all =
      (later : List Made) × (earlier : List Made) × (m : Made) × (all ≡ later ++ m ∷ earlier)
      × All (IsCleared x config now denied) later
      × All (IsCleared x config uploads denied) earlier
      × (same_action given m.action ≡ true)
      × (is_refused denied m.action ≡ false)
      × (now ≡ granted x uploads m)

  -- All actions are cleared, or the approval is spent on one of them.
  abbrev pub Spending : List String → Option Action → List Made → Type 0
  Spending now held all =
      (((held ≡ given) ⊎ (held ≡ none))
        × (now ≡ uploads)
        × All (IsCleared x config uploads denied) all)
      ⊎ ((held ≡ none) × OneApproved now all)

  abbrev pub Sound : Option Gate → List Json → Option Action → List Made → Type 0
  Sound gate refused held all =
      (g : Gate) × (gate ≡ some g)
      × Fits config g
      × (refused ≡ denied)
      × Spending g.approved_uploads held all

  Spending-cleared :
      (now : List String) (held : Option Action) (m : Made) (all : List Made)
      → IsCleared x config now denied m
      → Spending now held all
      → Spending now held (m ∷ all)
  Spending-cleared now held m all c (inl (e, u, cs)) =
      inl (e, u, (subst (λ n. IsCleared x config n denied m) u c, cs))
  Spending-cleared now held m all c (inr (e, (later, earlier, b, q, l, r, s, n, u))) =
      inr (e, (m ∷ later, earlier, b, ap (m ∷◌) q, (c, l), r, s, n, u))

  Spending-approved :
      (now : List String) (held : Option Action) (m : Made) (o : Json) (all : List Made)
      → m.seen ≡ some o
      → same_action held m.action ≡ true
      → is_refused denied m.action ≡ false
      → Spending now held all
      → OneApproved (with_upload x now m.action (text_in o "url")) (m ∷ all)
  unfolding same_action
  Spending-approved now held m o all v s n (inl (inl e, u, cs)) =
      ([], all, m, refl, tt, cs, subst (λ p. same_action p m.action ≡ true) e s, n, rw (v, u) refl)
  Spending-approved now none m o all v s n h = cc
  Spending-approved now (some p) m o all v s n (inl (inr e, u, cs)) = absurd (ground arith)
  Spending-approved now (some p) m o all v s n (inr (e, one)) = absurd (ground arith)

  -- An approval that is taken is held no more.
  Spending-taken :
      (now : List String) (held : Option Action) (all : List Made)
      → Spending now held all
      → Spending now none all
  Spending-taken now held all (inl (e, u, cs)) = inl (inr refl, u, cs)
  Spending-taken now held all (inr (e, one)) = inr (refl, one)

  module _ {W : Type 0} (w : World W) where
    -- Sound at a navigator.
    abbrev SoundAt : Navigator → List Made → Type 0
    SoundAt nav all = Sound nav.gate nav.denied nav.approved all

    -- The decision is what the classifier answered to what was seen last.
    abbrev pub Decides : Loop W → Decision → Type 0
    Decides l d =
        (ev : Evaluation) × (seen l.io.calls ≡ some l.observation)
        × (answered l.io.calls ≡ some ev)
        × (decided x config denied l.observation ev ≡ ok d)

    obey-Left :
        (l : Loop W) (e : StepEvent) (a : Action) (v : Verdict)
        → SoundAt l.nav (made l.io.calls)
        → (v ≡ allow → SoundAt l.nav (made_after a l.io.calls ∷ made l.io.calls))
        → Left Sound (obey x w config l e a v)
    unfolding obey
    obey-Left l e a allow i j = type_or_act-Left Sound x w config l e a i (j refl)
    obey-Left l e a (confirm r) i j = i
    obey-Left l e a (hand r) i j = i
    obey-Left l e a (refuse r) i j = i

    -- The gate that stands installed is the one that is asked.
    pub gate_of-same : (nav : Navigator) (g : Gate) → nav.gate ≡ some g → g ≡ gate_of nav
    gate_of-same nav g q = ground arith

    approve-Fits :
        (g : Gate) (a : Action) (url : String)
        → Fits config g
        → Fits config (Gate.approve x g a url)
    approve-Fits g a url f =
        let (u, c, h, d, s, e) = approve_lem x g a url in (c ∙ f.0, h ∙ f.1, d ∙ f.2)

    approve-uploads :
        (g : Gate) (a : Action) (url : String)
        → (Gate.approve x g a url).approved_uploads ≡ with_upload x g.approved_uploads a url
    unfolding Gate.approve
    approve-uploads g a url = ground arith

    not_fill : (kind : String) → str_eq kind "upload" ≡ true → str_eq kind "fill" ≡ false
    not_fill kind u =
        let same = (eq_iff kind "upload").0 u in
        subst (λ k. str_eq k "fill" ≡ false) (sym same) refl

    -- An upload is not typed, so it is executed at once.
    spent-Left :
        (l : Loop W) (e : StepEvent) (a : Action)
        → (str_eq (or_else "" (get_str a "kind")) "upload" ≡ true) ⊎ SoundAt l.nav (made l.io.calls)
        → SoundAt l.nav (made_after a l.io.calls ∷ made l.io.calls)
        → Left Sound (type_or_act x w config l e a)
    unfolding type_or_act
    spent-Left l e a (inr i) j = type_or_act-Left Sound x w config l e a i j
    spent-Left l e a (inl u) j =
        rw (type_or_act, not_fill (or_else "" (get_str a "kind")) u)
          (execute-Left Sound x w config l e a none j)

    judge-Left :
        (l : Loop W) (e : StepEvent) (a : Action)
        → e.decision.action ≡ some a
        → is_refused denied a ≡ false
        → Decides l e.decision
        → SoundAt l.nav (made l.io.calls)
        → Left Sound (judge x w config l e a)
    unfolding judge
    judge-Left l e a d n (ev, v, an, dec) (g, q, f, r, sp) =
        let url = text_in l.observation "url" in
        let same = gate_of-same l.nav g q in
        let m = made_after a l.io.calls in
        let all = made l.io.calls in
        let fits : Fits config (gate_of l.nav) = subst (Fits config) same f in
        let here : Spending (gate_of l.nav).approved_uploads l.nav.approved all =
          subst (λ (g : Gate). Spending g.approved_uploads l.nav.approved all) same sp in
        elim (Bool-cases (same_action l.nav.approved a)) [
          | inl spend ↦
              let gate = gate_of l.nav in
              let grown = approve-uploads gate a url in
              let fits' = approve-Fits gate a url fits in
              let one =
                Spending-approved gate.approved_uploads l.nav.approved m l.observation all v spend n
                  here in
              let through = subst (λ u. OneApproved u (m ∷ all)) (sym grown) one in
              let before : (h : Gate)
                  → h ≡ gate
                  → Fits config h
                  → SoundAt (record l.nav { approved = none; gate = some h }) all =
                λ h k fits. (
                  h,
                  refl,
                  fits,
                  r,
                  Spending-taken h.approved_uploads l.nav.approved all (
                      subst (λ (g : Gate). Spending g.approved_uploads l.nav.approved all) (sym k)
                        here),
                ) in
              rw (spend, judge)
                (spent-Left _ e a
                  (elim (approve_lem x gate a url).5 [
                    | inl u ↦ inl u
                    | inr k ↦ inr (before (Gate.approve x gate a url) k fits')
                  ])
                  (_, refl, fits', r, inr (refl, through)))
          | inr check ↦
              rw (check, judge)
                (obey-Left _ e a _ (_, refl, fits, r, here)
                  λ through. (
                    _,
                    refl,
                    fits,
                    r,
                    Spending-cleared (gate_of l.nav).approved_uploads l.nav.approved m all
                        (
                          n,
                          (
                            l.observation,
                            ev,
                            e.decision,
                            gate_of l.nav,
                            v,
                            an,
                            dec,
                            d,
                            fits,
                            refl,
                            through,
                          ),
                        )
                        here,
                  ))
        ]

    on_task-Fits :
        (g : Gate) (answers : List (String × F64)) (floor : F64)
        → Fits config g
        → Fits config (Gate.on_task g answers floor).0
          × ((Gate.on_task g answers floor).0.approved_uploads ≡ g.approved_uploads)
    unfolding Gate.on_task
    on_task-Fits g answers floor f = ground arith

    drift_of-Fits :
        (g : Gate) (d : Decision) (a : Action)
        → Fits config g
        → Fits config (drift_of x w config g d a).0
          × ((drift_of x w config g d a).0.approved_uploads ≡ g.approved_uploads)
    unfolding drift_of
    drift_of-Fits g d a f = grind (arith, on_task-Fits)

    watch-Left :
        (l : Loop W) (e : StepEvent) (a : Action)
        → e.decision.action ≡ some a
        → is_refused denied a ≡ false
        → Decides l e.decision
        → SoundAt l.nav (made l.io.calls)
        → Left Sound (watch x w config l e a)
    unfolding watch
    watch-Left l e a d n c (g, q, f, r, sp) =
        let same = gate_of-same l.nav g q in
        let (fits, kept) =
          drift_of-Fits (gate_of l.nav) e.decision a (subst (Fits config) same f) in
        let up : g.approved_uploads
            ≡ (drift_of x w config (gate_of l.nav) e.decision a).0.approved_uploads =
          ap (λ (g : Gate). g.approved_uploads) same ∙ sym kept in
        let here = subst (λ u. Spending u l.nav.approved (made l.io.calls)) up sp in
        elim (Option-cases (drift_of x w config (gate_of l.nav) e.decision a).1) [
          | inl calm ↦ rw (calm, watch) (judge-Left _ e a d n c (_, refl, fits, r, here))
          | inr (reason, drifted) ↦ rw (drifted, watch) (_, refl, fits, r, here)
        ]

    pub follow-Left :
        (l : Loop W) (d : Decision) (c : ℕ) (u : Json)
        → ((a : Action) → d.action ≡ some a → is_refused denied a ≡ false)
        → Decides l d
        → SoundAt l.nav (made l.io.calls)
        → Left Sound (follow x w config l d c u)
    unfolding follow
    follow-Left l d c u n dec s =
        elim (Bool-cases (str_eq d.operation "DONE" || str_eq d.operation "BLOCKED")) [
          | inl over ↦ rw (over, follow) (finish-Left Sound x w config l _ s)
          | inr on ↦ elim (Option-cases d.action) [
            | inl nothing ↦ rw (on, nothing, follow) s
            | inr (a, q) ↦ rw (on, q, follow) (watch-Left l _ a q (n a q) dec s)
          ]
        ]

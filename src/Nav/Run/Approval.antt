-- ===== src/Nav/Run/Approval.antt =====
-- crates/jev-nav/src/lib.rs: a whole run executes nothing that the gate or a person did not let
-- through.
use starkbot_neo.Common.{
  ℕ, zero, suc, ◌≤◌, String, ◌≡◌, refl, sym, ◌∙◌, subst, ap, ◌⊎◌, inl, inr, true, false, not,
  Option, none, some, List, [], ◌∷◌, arith,
}
use starkbot_neo.Common.Lists.{All, keep_if, length}
use starkbot_neo.Common.Result.{Result, ok, Result-cases}
use starkbot_neo.Json.{Json}
use starkbot_neo.Nav.Rules.{max_actions, max_decisions}
use starkbot_neo.Nav.Externals.{Externals}
use starkbot_neo.Nav.Decision.{Action}
use starkbot_neo.Nav.Gate.{Gate, new}
use starkbot_neo.Nav.Wire.{Evaluation}
use starkbot_neo.Nav.Policy.Space.{action_space}
use starkbot_neo.Nav.Policy.Request.{build_request, resolve}
use starkbot_neo.Nav.Policy.Offered.{resolve-action}
use starkbot_neo.Nav.Session.{
  World, RunConfig, Navigator, Io, Outcome, NavError, observed, evaluated,
}
use starkbot_neo.Nav.Run.Surface.{is_refused, offered_of, actions_of}
use starkbot_neo.Nav.Run.Effects.{observe, evaluate}
use starkbot_neo.Nav.Run.Calls.{Made, made, seen, answered}
use starkbot_neo.Nav.Run.Round.{Loop, Round, again, stop, same_action, gate_of, ask, look, turn}
use starkbot_neo.Nav.Run.Drive.{End, turns, drive, run, fresh_gate, install}
use starkbot_neo.Nav.Run.Trace.{Left}
use starkbot_neo.Nav.Run.Safety.{
  Fits, decided, IsCleared, Spending, Sound, gate_of-same, follow-Left,
}
use starkbot_neo.Nav.Run.Budget.{run-total}

offered_of-All :
    (denied : List Json) (o : Json) → All (λ a. is_refused denied a ≡ false) (offered_of denied o)
unfolding offered_of
offered_of-All denied o = kept (actions_of o)
  where
    kept :
        (xs : List Action)
        → All (λ a. is_refused denied a ≡ false) (keep_if (λ a. not (is_refused denied a)) xs)
    kept [] = tt
    kept (a ∷ xs) = let rest = kept xs in ground arith

Round-cases :
    {W : Type 0} (r : Round W)
    → ((l : Loop W) × (r ≡ again l))
      ⊎ ((o : Result NavError Outcome) × (nav : Navigator) × (io : Io W) × (r ≡ stop o nav io))
Round-cases (again l) = inl (l, refl)
Round-cases (stop o nav io) = inr (o, nav, io, refl)

module _ (x : Externals) (config : RunConfig) (uploads : List String) (denied : List Json)
    (given : Option Action) where
  module _ {W : Type 0} (w : World W) where
    abbrev SoundAt : Navigator → List Made → Type 0
    SoundAt nav all = Sound x config uploads denied given nav.gate nav.denied nav.approved all

    -- What was done before is told to the classifier, but no decision depends on it.
    resolve-history :
        (o : Json) (offered : List Action) (history : List Json) (ev : Evaluation)
        → let space = action_space x offered in
          resolve x
            (build_request o space config.goal history config.safety_heads config.on_task_floor)
            space
            ev
          ≡ resolve x
              (build_request o space config.goal [] config.safety_heads config.on_task_floor)
              space
              ev
    unfolding resolve build_request
    resolve-history o offered history ev = refl

    abbrev IsSeen : Loop W → Type 0
    IsSeen l = seen l.io.calls ≡ some l.observation

    ask-Left :
        (l : Loop W)
        → IsSeen l
        → SoundAt l.nav (made l.io.calls)
        → Left (Sound x config uploads denied given) (ask x w config l)
    unfolding ask evaluate
    ask-Left l v (g, k, f, r, sp) =
        let offered = offered_of l.nav.denied l.observation in
        let space = action_space x offered in
        let request =
          build_request l.observation space config.goal l.nav.history config.safety_heads
            config.on_task_floor in
        let fine =
          subst (λ d. All (λ a. is_refused d a ≡ false) (offered_of l.nav.denied l.observation)) r
            (offered_of-All l.nav.denied l.observation) in
        elim (Result-cases (w.evaluate l.io.world request.state request.questions).0) [
          | inl (e, q) ↦ rw (q, ask, evaluate) (g, k, f, r, sp)
          | inr (ev, q) ↦ elim (Result-cases (resolve x request space ev)) [
            | inl (e, p) ↦ rw (q, p, ask, evaluate) (g, k, f, r, sp)
            | inr (d, p) ↦
                let came =
                  subst (λ l'. decided x config l' l.observation ev ≡ ok d) r
                    (sym (resolve-history l.observation offered l.nav.history ev) ∙ p) in
                rw (q, p, ask, evaluate)
                  (follow-Left x config uploads denied given w _ d _ _
                    (λ a named.
                      resolve-action (λ b. is_refused denied b ≡ false) x request offered ev d a
                        fine p named)
                    (ev, v, ap (λ r. answered (evaluated r ∷ l.io.calls)) q, came) (g, k, f, r, sp))
          ]
        ]

    look-Left :
        (l : Loop W)
        → IsSeen l
        → SoundAt l.nav (made l.io.calls)
        → Left (Sound x config uploads denied given) (look x w config l)
    unfolding look
    look-Left l v (g, q, f, r, sp) =
        let same = gate_of-same x config uploads denied given w l.nav g q in
        let gated : SoundAt (record l.nav { gate = some (gate_of l.nav) }) (made l.io.calls) = (
          gate_of l.nav,
          refl,
          subst (Fits config) same f,
          r,
          subst
              (λ (g : Gate).
                Spending x config uploads denied given g.approved_uploads l.nav.approved
                  (made l.io.calls))
              same sp,
        ) in
        grind (arith, ask-Left l v (g, q, f, r, sp), gated)

    turn-Left :
        (l : Loop W)
        → IsSeen l
        → SoundAt l.nav (made l.io.calls)
        → Left (Sound x config uploads denied given) (turn x w config l)
    unfolding turn
    turn-Left l v s = grind (arith, look-Left l v s)

    turns_sound :
        (fuel : ℕ) (l : Loop W) (e : End W)
        → IsSeen l
        → SoundAt l.nav (made l.io.calls)
        → turns x w config fuel l ≡ some e
        → SoundAt e.1 (made e.2.calls)
    unfolding turns
    turns_sound zero l e v s q = absurd (ground arith)
    turns_sound (suc fuel) l e v s q = elim (Round-cases (turn x w config l)) [
      | inl (l', p) ↦
          let (s', v') = subst (Left (Sound x config uploads denied given)) p (turn-Left l v s) in
          turns_sound fuel l' e v' s' (ground arith)
      | inr (r, nav, io, p) ↦
          let same : (r, nav, io) ≡ e = ground arith in
          subst (λ (e : End W). SoundAt e.1 (made e.2.calls)) same
            (subst (Left (Sound x config uploads denied given)) p (turn-Left l v s))
    ]

    pub drive_sound :
        (nav : Navigator) (spent : ℕ) (io : Io W) (e : End W)
        → SoundAt nav (made io.calls)
        → drive x w config nav spent io ≡ some e
        → SoundAt e.1 (made e.2.calls)
    unfolding drive observe
    drive_sound nav spent io e s = elim (Result-cases (w.observe io.world).0) [
      | inl (er, p) ↦
          rw (p, drive, observe)
            (λ q. subst (λ (e : End W). SoundAt e.1 (made e.2.calls)) (some-inj q) s)
      | inr (o, p) ↦
          rw (p, drive, observe)
            (λ q.
              turns_sound (suc max_decisions)
                (record {
                  nav = nav;
                  decisions = spent;
                  consecutive_stale = 0;
                  observation = o;
                  io = (observe w io).1;
                })
                e (ap (λ r. seen (observed r ∷ io.calls)) p) s q)
    ]
      where
        some-inj : {a b : End W} → some a ≡ some b → a ≡ b
        some-inj q = ground arith

  Spending-none :
      (now : List String) (held : Option Action) (all : List Made)
      → given ≡ none
      → Spending x config uploads denied given now held all
      → (held ≡ none) × (now ≡ uploads) × All (IsCleared x config uploads denied) all
  unfolding same_action
  Spending-none now held all q (inl (inl e, u, cs)) = (e ∙ q, u, cs)
  Spending-none now held all q (inl (inr e, u, cs)) = (e, u, cs)
  Spending-none now held all q (inr (e, (later, earlier, m, split, l, r, same, n, u))) = absurd (
      subst (λ g. same_action g m.action ≡ true → ⊥) (sym q) (λ (h : false ≡ true). ground arith)
        same)

-- The navigator has a gate with the settings of the run and no approved upload, and holds no approval.
abbrev pub IsSettled : RunConfig → Navigator → Type 0
IsSettled config nav =
    ((g : Gate) × (nav.gate ≡ some g) × Fits config g × (g.approved_uploads ≡ []))
    × (nav.approved ≡ none)

module _ (x : Externals) (config : RunConfig) {W : Type 0} (w : World W) where
  -- A run that starts with no approval at hand and at most 60 actions recorded ends. For each action that
  -- it executes: no person refused it; it is the action of the decision that the classifier gave on the
  -- last observation; and a gate with the settings of the run and no approved upload let it through, for
  -- that decision and on the page of that observation. The navigator is left with such a gate and with
  -- no approval.
  pub run-IsCleared :
      (nav : Navigator) (world : W)
      → nav.approved ≡ none
      → length nav.history ≤ max_actions
      → (e : End W) × (run x w config nav (record { world = world; calls = [] }) ≡ some e)
        × All (IsCleared x config [] nav.denied) (made e.2.calls)
        × IsSettled config e.1
  unfolding run new
  run-IsCleared nav world a h =
      let (e, q, b) = run-total x w config nav world h in
      let (g, k, f, r, s) =
        drive_sound x config [] nav.denied none w
          (record nav { gate = some (fresh_gate x w config) }) 0
          (record { world = world; calls = [] }) e
          (_, refl, (refl, refl, refl), refl, inl (inl a, refl, tt)) q in
      let (held, u, all) =
        Spending-none x config [] nav.denied none g.approved_uploads e.1.approved (made e.2.calls)
          refl s in
      (e, q, all, ((g, k, f, u), held))

  pub installed : (nav : Navigator) (g : Gate) → nav.gate ≡ some g → install x w config nav ≡ nav
  unfolding install
  installed nav g q = rw (q) refl

-- ===== src/Nav/Run/Round.antt =====
-- crates/jev-nav/src/lib.rs, `drive`: one turn of the loop, from the last phase to the first.
use starkbot_neo.Common.{
  ℕ, ◌+◌, String, Bool, true, false, not, ◌||◌, Option, none, some, [], str_eq,
}
use starkbot_neo.Common.Tests.{leb, if◌then◌else◌}
use starkbot_neo.Common.Lists.{length}
use starkbot_neo.Common.Float.{F64}
use starkbot_neo.Common.Result.{Result, ok, err}
use starkbot_neo.Json.{Json, index, get_str, or_else, json_eq}
use starkbot_neo.Nav.Rules.{max_actions, max_decisions, max_consecutive_stale}
use starkbot_neo.Nav.Externals.{Externals}
use starkbot_neo.Nav.Decision.{Action, Decision}
use starkbot_neo.Nav.Gate.{
  Gate, new, NeedsUser, BlockReason, no_operation, no_progress, no_action, unstable, budget,
  Verdict, allow, confirm, hand, refuse,
}
use starkbot_neo.Nav.Gate
use starkbot_neo.Nav.Policy.Space.{action_space}
use starkbot_neo.Nav.Policy.Request.{build_request, resolve}
use starkbot_neo.Nav.Session.{
  World, Io, StepEvent, RunConfig, Navigator, Outcome, done, needs_confirm, needs_user, blocked,
  NavError, wire, observe as observe_error, text, stale, unknown,
}
use starkbot_neo.Nav.Run.Surface.{
  identity_of, fingerprint, offered_of, field_context, history_entry, mark_last, push_last,
  is_stuck, escalation, handed, text_in,
}
use starkbot_neo.Nav.Run.Effects.{report, observe, evaluate, fresh, act, helper}

-- The locals of the loop.
pub record Loop (W : Type 0) : Type 0 where
  pub nav : Navigator
  pub decisions : ℕ
  pub consecutive_stale : ℕ
  pub observation : Json
  pub io : Io W

-- Another turn, or the end of the run with what is left of the navigator.
pub data Round (W : Type 0) : Type 0 where
  again : Loop W → Round W
  stop : Result NavError Outcome → Navigator → Io W → Round W

-- The threshold 0.4 of the gate that stands in where no run has installed one.
abbrev default_threshold : F64
default_threshold = 0x3fd9_9999_9999_999a

abbrev pub gate_of : Navigator → Gate
gate_of nav =
    or_else
      (record {
        confirm_at = default_threshold;
        safety_heads = true;
        denied_origins = [];
        approved_uploads = [];
        off_task_strikes = 0;
      })
      nav.gate

abbrev pub kind_is : Action → String → Bool
kind_is action kind = str_eq (or_else "" (get_str action "kind")) kind

unfoldable pub same_action : Option Action → Action → Bool
same_action none action = false
same_action (some approved) action = json_eq (identity_of approved) (identity_of action)

module _ {W : Type 0} (x : Externals) (w : World W) (config : RunConfig) where
  -- Observe again and go on, with the state given.
  unfoldable pub reobserve : Loop W → Round W
  reobserve l = elim (observe w l.io).0 [
    | err e ↦ stop (err (observe_error e)) l.nav (observe w l.io).1
    | ok observation ↦ again (record l { observation = observation; io = (observe w l.io).1 })
  ]

  -- The surface moved under the decision.
  unfoldable pub moved : Loop W → StepEvent → String → Round W
  moved l event reason =
      let io = report (record event { stale = true }) l.io in
      let n = l.consecutive_stale + 1 in
      if leb max_consecutive_stale n
      then stop (ok (blocked (unstable reason))) l.nav io
      else reobserve (record l { consecutive_stale = n; io = io })

  -- DONE and BLOCKED are checked against the surface first.
  unfoldable pub finish : Loop W → StepEvent → Round W
  finish l event =
      let checked = fresh w l.observation l.io in
      elim checked.0 [
        | err e ↦ stop (err (observe_error e)) l.nav checked.1
        | ok (some reason) ↦ moved (record l { io = checked.1 }) event reason
        | ok none ↦
            stop
              (ok (if str_eq event.decision.operation "DONE" then done else blocked no_operation))
              l.nav (report event checked.1)
      ]

  -- After an action: observe, note whether the page changed, and stop where nothing moves.
  unfoldable pub settle : Loop W → Round W
  settle l = elim (observe w l.io).0 [
    | err e ↦ stop (err (observe_error e)) l.nav (observe w l.io).1
    | ok observation ↦
        let changed = not (str_eq (fingerprint x observation) (fingerprint x l.observation)) in
        let history = mark_last changed l.nav.history in
        let nav = record l.nav { history = history } in
        if is_stuck history
        then stop (ok (blocked no_progress)) nav (observe w l.io).1
        else again (record l { nav = nav; observation = observation; io = (observe w l.io).1 })
  ]

  -- Execute the action. It is recorded before the page is observed again.
  unfoldable pub execute : Loop W → StepEvent → Action → Option String → Round W
  execute l event action typed =
      let told = record event { typed = typed } in
      let r = act w action l.observation typed l.io in
      elim r.0 [
        | err (stale reason) ↦ moved (record l { io = r.1 }) told reason
        | err e ↦ stop (err (observe_error e)) l.nav r.1
        | ok _ ↦ settle (record l {
          nav = record l.nav {
            pending_text = none;
            history = push_last l.nav.history (history_entry event.label action typed);
          };
          consecutive_stale = 0;
          io = report told r.1;
        })
      ]

  -- Ask the person for the value of a field that the goal does not describe.
  unfoldable pub ask_value : Loop W → StepEvent → Action → Json → Round W
  ask_value l event action field =
      stop
        (ok (
          needs_user (NeedsUser.value (or_else "this field" event.label))
            (escalation event.decision action none l.observation l.nav.history)
            (record { decisions = l.decisions; pending = some action; field = some field })))
        l.nav (report event l.io)

  -- The value that was kept for this very field.
  abbrev pub cached_text : Navigator → Json → Option String
  unfolding json_eq
  cached_text nav context = elim nav.pending_text [
    | none ↦ none
    | some (cached, value) ↦ if json_eq cached context then some value else none
  ]

  -- A field wants its value before it is filled.
  unfoldable pub fill : Loop W → StepEvent → Action → Round W
  unfolding json_eq
  fill l event action =
      let context = field_context config.goal action l.observation l.nav.history in
      elim (cached_text l.nav context) [
        | some typed ↦ execute l event action (some typed)
        | none ↦
            let r = helper w context l.io in
            elim r.0 [
              | ok typed ↦
                  execute
                    (record l {
                      nav = record l.nav { pending_text = some (context, typed) };
                      io = r.1;
                    })
                    event action (some typed)
              | err unknown ↦ ask_value (record l { io = r.1 }) event action context
              | err e ↦ stop (err (text e)) l.nav r.1
            ]
      ]

  unfoldable pub type_or_act : Loop W → StepEvent → Action → Round W
  unfolding get_str
  type_or_act l event action =
      if kind_is action "fill" then fill l event action else execute l event action none

  -- What the gate's verdict makes of the decision.
  unfoldable pub obey : Loop W → StepEvent → Action → Verdict → Round W
  obey l event action allow = type_or_act l event action
  obey l event action (confirm reason) =
      stop
        (ok (
          needs_confirm (escalation event.decision action (some reason) l.observation l.nav.history)
            (record { decisions = l.decisions; pending = some action; field = none })))
        l.nav (report event l.io)
  obey l event action (hand reason) =
      stop
        (ok (
          needs_user reason (handed reason l.observation l.nav.history)
            (record { decisions = l.decisions; pending = none; field = none })))
        l.nav (report event l.io)
  obey l event action (refuse reason) = stop (ok (blocked reason)) l.nav (report event l.io)

  -- The gate's verdict, an approval spent on the action that it was given for.
  unfoldable pub judge : Loop W → StepEvent → Action → Round W
  unfolding index
  judge l event action =
      let url = text_in l.observation "url" in
      let gate = gate_of l.nav in
      if same_action l.nav.approved action
      then type_or_act
          (record l {
            nav = record l.nav { approved = none; gate = some (Gate.approve x gate action url) };
          })
          event action
      else obey (record l { nav = record l.nav { gate = some gate } }) event action
          (Gate.action x gate event.decision action url)

  -- The tripwire for drift, from which a wait is exempt.
  unfoldable pub drift_of : Gate → Decision → Action → Gate × Option BlockReason
  unfolding get_str
  drift_of gate decision action =
      if kind_is action "wait"
      then (gate, none)
      else Gate.on_task gate decision.safety config.on_task_floor

  -- The tripwire and then the gate.
  unfoldable pub watch : Loop W → StepEvent → Action → Round W
  watch l event action =
      let r = drift_of (gate_of l.nav) event.decision action in
      let nav = record l.nav { gate = some r.0 } in
      elim r.1 [
        | some reason ↦ stop (ok (blocked reason)) nav (report event l.io)
        | none ↦ judge (record l { nav = nav }) event action
      ]

  -- What becomes of one decision.
  unfoldable pub follow : Loop W → Decision → ℕ → Json → Round W
  unfolding get_str
  follow l decision candidates usage =
      let event : StepEvent = record {
        decision = decision;
        label = elim decision.action [ none ↦ none | some a ↦ get_str a "label" ];
        typed = none;
        candidates = candidates;
        stale = false;
        usage = usage;
      } in
      if str_eq decision.operation "DONE" || str_eq decision.operation "BLOCKED"
      then finish l event
      else elim decision.action [
        | none ↦ stop (ok (blocked no_action)) l.nav l.io
        | some action ↦ watch l event action
      ]

  -- Ask for one decision among the actions that no person refused.
  unfoldable pub ask : Loop W → Round W
  ask l =
      let offered = offered_of l.nav.denied l.observation in
      let space = action_space x offered in
      let request =
        build_request l.observation space config.goal l.nav.history config.safety_heads
          config.on_task_floor in
      let r = evaluate w request.state request.questions l.io in
      elim r.0 [
        | err e ↦ stop (err (wire e)) l.nav r.1
        | ok evaluation ↦ elim (resolve x request space evaluation) [
          | err e ↦ stop (err (wire e)) l.nav r.1
          | ok decision ↦
              follow (record l { decisions = l.decisions + 1; io = r.1 }) decision (length offered)
                evaluation.usage
        ]
      ]

  -- The page's own signals come first, but are not handed over twice on one surface.
  unfoldable pub look : Loop W → Round W
  look l =
      let surface = fingerprint x l.observation in
      let again_here : Bool = elim l.nav.handed_at [ none ↦ false | some s ↦ str_eq s surface ] in
      elim (if again_here then none else Gate.page l.observation) [
        | some reason ↦
            stop
              (ok (
                needs_user reason (handed reason l.observation l.nav.history)
                  (record { decisions = l.decisions; pending = none; field = none })))
              (record l.nav { gate = some (gate_of l.nav); handed_at = some surface }) l.io
        | none ↦ ask l
      ]

  unfoldable pub turn : Loop W → Round W
  turn l =
      if leb max_decisions l.decisions
      then stop (ok (blocked (budget "decision"))) l.nav l.io
      else if leb max_actions (length l.nav.history)
      then stop (ok (blocked (budget "action"))) l.nav l.io
      else look l

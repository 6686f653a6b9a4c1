-- ===== src/Nav/Policy/Offered.antt =====
-- crates/jev-nav/src/policy.rs: a decision can only name an action that was offered.
use starkbot_neo.Common.{
  ℕ, String, ◌≡◌, refl, Option, none, some, List, [], ◌∷◌, arith, inl, inr, subst, str_eq,
}
use starkbot_neo.Common.Lists.{All}
use starkbot_neo.Common.Tests.{Bool-cases, Option-cases}
use starkbot_neo.Common.Map.{
  AllValues, AllValues-put, AllValues-lookup, lookup, put, keys, string_ord,
}
use starkbot_neo.Common.Result.{ok, Result-cases, >>=-eq-ok}
use starkbot_neo.Json.{or_else, get_u64}
use starkbot_neo.Nav.Externals.{Externals}
use starkbot_neo.Nav.Decision.{Action, Operation, Decision, name, from_kind, operation_ord}
use starkbot_neo.Nav.Wire.{Evaluation, choice}
use starkbot_neo.Nav.Policy.Space.{
  ActionSpace, Building, text_at, add_target, offer, row_of, add_control, add_action, build, empty,
  action_space,
}
use starkbot_neo.Nav.Policy.Request.{
  Request, candidates_of, resolve_target, resolve_safety, resolve, head_of,
}

module _ (P : Action → Type 0) where
  abbrev Targets : List (Operation × List (String × Action)) → Type 0
  Targets = AllValues (AllValues P)

  abbrev Space : ActionSpace → Type 0
  Space s = Targets s.targets × AllValues P s.controls

  add_target-Targets :
      (op : Operation) (id : String) (a : Action) (ts : List (Operation × List (String × Action)))
      → P a
      → Targets ts
      → Targets (add_target op id a ts)
  unfolding add_target
  add_target-Targets op id a ts p t =
      AllValues-put (AllValues P) op (put id a (or_else [] (lookup op ts))) ts
        (AllValues-put P id a (or_else [] (lookup op ts)) p (found (lookup op ts) refl)) t
    where
      found : (o : Option (List (String × Action))) → lookup op ts ≡ o → AllValues P (or_else [] o)
      found none e = tt
      found (some m) e = AllValues-lookup (AllValues P) op m ts t e

  offer-Space :
      (op : Operation) (a : Action) (b : Building) (position : ℕ)
      → P a
      → Space b.space
      → Space (offer op a b position).space
  unfolding offer
  offer-Space op a b position p s = (add_target-Targets op _ a b.targets p s.0, s.1)

  row_of-Space :
      (node : ℕ) (a : Action) (b : Building) → Space b.space → Space (row_of node a b).0.space
  unfolding row_of
  row_of-Space node a b s = ground arith

  add_control-Space :
      (x : Externals) (a : Action) (b : Building)
      → P a
      → Space b.space
      → Space (add_control x a b).space
  unfolding add_control
  add_control-Space x a b p s = (s.0, AllValues-put P _ a b.controls p s.1)

  add_action-Space :
      (x : Externals) (b : Building) (a : Action)
      → P a
      → Space b.space
      → Space (add_action x b a).space
  unfolding add_action
  add_action-Space x b a p s = elim (Option-cases (from_kind (text_at a "kind"))) [
    | inl e ↦ rw (e, add_action) (add_control-Space x a b p s)
    | inr (op, e) ↦ elim (Option-cases (get_u64 a "node")) [
      | inl q ↦ rw (e, q, add_action) s
      | inr (node, q) ↦
          let (b', position) = row_of node a b in
          rw (e, q, add_action)
            (offer-Space op a (row_of node a b).0 (row_of node a b).1 p (row_of-Space node a b s))
    ]
  ]

  build-Space :
      (x : Externals) (b : Building) (actions : List Action)
      → All P actions
      → Space b.space
      → Space (build x b actions).space
  unfolding build
  build-Space x b [] ps s = s
  build-Space x b (a ∷ rest) ps s =
      build-Space x (add_action x b a) rest ps.1 (add_action-Space x b a ps.0 s)

  candidates-All :
      (operation : String) (ts : List (Operation × List (String × Action)))
      {m : List (String × Action)}
      → Targets ts
      → candidates_of operation ts ≡ some m
      → AllValues P m
  unfolding candidates_of
  candidates-All operation [] t e = cc
  candidates-All operation ((op, m') ∷ ts) {m} t e =
      elim (Bool-cases (str_eq (name op) operation)) [
        | inl hit ↦ let same : m' ≡ m = ground arith in subst (AllValues P) same t.0
        | inr miss ↦ candidates-All operation ts t.1 (ground arith)
      ]

  resolve_target-action :
      (x : Externals) (s : ActionSpace) (ev : Evaluation) (d d' : Decision) (a : Action)
      → Space s
      → ((b : Action) → d.action ≡ some b → P b)
      → resolve_target x s ev d ≡ ok d'
      → d'.action ≡ some a
      → P a
  unfolding resolve_target
  resolve_target-action x s ev d d' a ps p e q =
      elim (Option-cases (candidates_of d.operation s.targets)) [
        | inl none_of ↦ p a (ground arith)
        | inr (m, of) ↦ elim (Result-cases (choice x ev (head_of d.operation) (keys m))) [
          | inl (er, c) ↦ ground arith
          | inr (answer, c) ↦
              AllValues-lookup P answer.choice a m (candidates-All d.operation s.targets ps.0 of)
                (ground arith)
        ]
      ]

  -- What holds of every offered action holds of the action of the decision.
  pub resolve-action :
      (x : Externals) (r : Request) (actions : List Action) (ev : Evaluation) (d : Decision)
      (a : Action)
      → All P actions
      → resolve x r (action_space x actions) ev ≡ ok d
      → d.action ≡ some a
      → P a
  unfolding resolve
  resolve-action x r actions ev d a ps e q =
      let (answer, e1, rest) = >>=-eq-ok (choice x ev "operation" r.operations) _ e in
      let (dec, e2, rest') = >>=-eq-ok (resolve_target x (action_space x actions) ev _) _ rest in
      let (heads, e3, rest'') = >>=-eq-ok (resolve_safety x ev r.safety []) _ rest' in
      let good = build-Space x empty actions ps (tt, tt) in
      resolve_target-action x (action_space x actions) ev _ dec a (unfold action_space in good)
        (λ b h.
          AllValues-lookup P answer.choice b (action_space x actions).controls
            (unfold action_space in good.1) h)
        e2 (ground arith)

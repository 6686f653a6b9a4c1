-- ===== src/Mode/Bounds.antt =====
-- src-tauri/src/mode_control.rs: how many requests wait, and under which numbers.
use starkbot_neo.Common.{
  ℕ, suc, ◌≤◌, ◌<◌, ◌≡◌, ◌≢◌, refl, sym, ◌∙◌, subst, ◌⊎◌, inl, inr, String, Bool, true, false,
  Option, none, some, List, [], ◌∷◌, arith,
}
use starkbot_neo.Common.Tests.{ltb, leb, ◌==◌, ==_iff, Bool-cases, Option-cases}
use starkbot_neo.Common.Lists.{length}
use starkbot_neo.Common.Map.{
  lookup, put, remove, nat_ord, lookup-put_other, lookup-remove_self, lookup-remove_other,
}
use starkbot_neo.Common.Result.{Result, err}
use starkbot_neo.Mode.{
  WindowAction, WindowMode, UiError, window_closed, Desk, max_pending, u32_max, drop_request,
  request, judge, complete, close_all, shutdown, end_request, complete_window_mode,
}

pub data Op : Type 0 where
  requests : Bool → Bool → WindowAction → Op
  completes : Bool → ℕ → WindowMode → Option String → Op
  ends : ℕ → Op
  shuts : Op

abbrev pub perform : Op → Desk → Desk
perform (requests shown emits desired) d = (request shown emits desired d).1
perform (completes main id actual e) d = (complete_window_mode main id actual e d).1
perform (ends id) d = (end_request id d).1
perform shuts d = shutdown d

abbrev pub perform_all : List Op → Desk → Desk
perform_all [] d = d
perform_all (op ∷ ops) d = perform_all ops (perform op d)

abbrev pub empty : Desk
empty = record { next = 0; closed = false; pending = []; replies = []; emitted = [] }

length-put {ℓ} :
    {V : Type ℓ} (k : ℕ) (v : V) (m : List (ℕ × V)) → length (put k v m) ≤ suc (length m)
unfolding put
length-put k v [] = omega arith
length-put k v ((j, w) ∷ m) = ground (arith, length-put k v m)

length-remove {ℓ} : {V : Type ℓ} (k : ℕ) (m : List (ℕ × V)) → length (remove k m) ≤ length m
unfolding remove
length-remove k [] = omega arith
length-remove k ((j, w) ∷ m) = ground (arith, length-remove k m)

-- A key that a lookup finds after a removal, or an insertion of another.
remove-lookup {ℓ} :
    {V : Type ℓ} (j k : ℕ) (v : V) (m : List (ℕ × V))
    → lookup j (remove k m) ≡ some v
    → (j ≢ k) × (lookup j m ≡ some v)
remove-lookup j k v m h = elim (Bool-cases (j == k)) [
  | inl e ↦ absurd (
      ground (
        arith,
        subst (λ i. lookup i (remove i m) ≡ none) (sym ((==_iff j k).0 e)) (lookup-remove_self k m),
      ))
  | inr e ↦ ((λ q. ground arith), sym (lookup-remove_other j k m (λ q. ground arith)) ∙ h)
]

put-lookup {ℓ} :
    {V : Type ℓ} (j k : ℕ) (v w : V) (m : List (ℕ × V))
    → lookup j (put k w m) ≡ some v
    → (j ≡ k) ⊎ ((j ≢ k) × (lookup j m ≡ some v))
put-lookup j k v w m h = elim (Bool-cases (j == k)) [
  | inl e ↦ inl ((==_iff j k).0 e)
  | inr e ↦ inr ((λ q. ground arith), sym (lookup-put_other j k w m (λ q. ground arith)) ∙ h)
]

-- Each waiting request has a number that was given out, and no reply yet; and each reply is for
-- such a number.
abbrev pub IsSound : Desk → Type 0
IsSound d =
    (length d.pending ≤ max_pending)
    × (d.next ≤ u32_max)
    × ((id : ℕ) (w : WindowAction)
        → lookup id d.pending ≡ some w
        → (id ≤ d.next) × (lookup id d.replies ≡ none))
    × ((id : ℕ) (r : Result UiError WindowMode) → lookup id d.replies ≡ some r → id ≤ d.next)

drop_request-IsSound : (id : ℕ) (d : Desk) → IsSound d → IsSound (drop_request id d)
unfolding drop_request
drop_request-IsSound id d (few, most, waiting, replied) = (
  omega (arith, length-remove id d.pending, few),
  most,
  λ j w h. waiting j w (remove-lookup j id w d.pending h).1,
  replied,
)

-- A request that is registered.
registered-IsSound :
    (desired : WindowAction) (d : Desk)
    → length d.pending < max_pending
    → d.next < u32_max
    → IsSound d
    → IsSound (record d { next = suc d.next; pending = put (suc d.next) desired d.pending })
registered-IsSound desired d room left (few, most, waiting, replied) = (
  omega (arith, length-put (suc d.next) desired d.pending, room),
  left,
  λ j w h. elim (put-lookup j (suc d.next) w desired d.pending h) [
    | inl e ↦ elim (Option-cases (lookup j d.replies)) [
      | inl free ↦ (omega (arith, e), free)
      | inr (r, g) ↦ absurd (omega (arith, e, replied j r g))
    ]
    | inr (n, g) ↦ let (l, free) = waiting j w g in (omega (arith, l), free)
  ],
  λ j r h. omega (arith, replied j r h),
)

request-IsSound :
    (shown emits : Bool) (desired : WindowAction) (d : Desk)
    → IsSound d
    → IsSound (request shown emits desired d).1
unfolding request
request-IsSound false emits desired d s = s
request-IsSound true emits desired d s = elim (Bool-cases d.closed) [
  | inl c ↦ rw (c, request) s
  | inr c ↦ elim (Bool-cases (leb max_pending (length d.pending))) [
    | inl f ↦ rw (c, f, request) s
    | inr f ↦ elim (Bool-cases (ltb d.next u32_max)) [
      | inr n ↦ rw (c, f, n, request) s
      | inl n ↦
          let new = registered-IsSound desired d (ground arith) (ground arith) s in
          elim emits as (λ emits. IsSound (request true emits desired d).1) [
            | true ↦ rw (c, f, n, request) new
            | false ↦ rw (c, f, n, request) (drop_request-IsSound (suc d.next) _ new)
          ]
    ]
  ]
]

complete-IsSound :
    (id : ℕ) (actual : WindowMode) (e : Option String) (d : Desk)
    → IsSound d
    → IsSound (complete id actual e d).1
unfolding complete
complete-IsSound id actual e d (few, most, waiting, replied) =
    elim (Option-cases (lookup id d.pending)) [
      | inl n ↦ rw (n, complete) (few, most, waiting, replied)
      | inr (w, n) ↦
          rw (n, complete)
            (
              omega (arith, length-remove id d.pending, few),
              most,
              λ j v h.
                  let (other, g) = remove-lookup j id v d.pending h in
                  let (l, free) = waiting j v g in
                  (l, lookup-put_other j id (judge w actual e) d.replies other ∙ free),
              λ j r h. elim (put-lookup j id r (judge w actual e) d.replies h) [
                | inl q ↦ omega (arith, q, (waiting id w n).0)
                | inr (other, g) ↦ replied j r g
              ],
            )
    ]

-- A reply that is there when the window closes, or that closing sends.
pub close_all-lookup :
    (pending : List (ℕ × WindowAction)) (replies : List (ℕ × Result UiError WindowMode)) (id : ℕ)
    (r : Result UiError WindowMode)
    → lookup id (close_all pending replies) ≡ some r
    → ((w : WindowAction) × (lookup id pending ≡ some w)) ⊎ (lookup id replies ≡ some r)
unfolding lookup
close_all-lookup [] replies id r h = inr h
close_all-lookup ((j, w) ∷ pending) replies id r h =
    elim (close_all-lookup pending (put j (err window_closed) replies) id r h) [
      | inl (v, g) ↦ elim (Bool-cases (id == j)) [
        | inl e ↦ inl (w, ground arith)
        | inr e ↦ inl (v, ground (arith, g))
      ]
      | inr g ↦ elim (put-lookup id j r (err window_closed) replies g) [
        | inl e ↦ inl (w, ground (arith, e))
        | inr (n, k) ↦ inr k
      ]
    ]

shutdown-IsSound : (d : Desk) → IsSound d → IsSound (shutdown d)
unfolding shutdown lookup
shutdown-IsSound d (few, most, waiting, replied) = (
  omega arith,
  most,
  λ j w h. absurd (ground arith),
  λ j r h. elim (close_all-lookup d.pending d.replies j r h) [
    | inl (w, g) ↦ (waiting j w g).0
    | inr g ↦ replied j r g
  ],
)

pub end_request-desk : (id : ℕ) (d : Desk) → (end_request id d).1 ≡ drop_request id d
unfolding end_request
end_request-desk id d = elim (Option-cases (lookup id d.replies)) [
  | inl n ↦ rw (n, end_request) refl
  | inr (r, n) ↦ rw (n, end_request) refl
]

pub perform-IsSound : (op : Op) (d : Desk) → IsSound d → IsSound (perform op d)
unfolding complete_window_mode
perform-IsSound (requests shown emits desired) d s = request-IsSound shown emits desired d s
perform-IsSound (completes true id actual e) d s = complete-IsSound id actual e d s
perform-IsSound (completes false id actual e) d s = s
perform-IsSound (ends id) d s =
    subst IsSound (sym (end_request-desk id d)) (drop_request-IsSound id d s)
perform-IsSound shuts d s = shutdown-IsSound d s

pub empty-IsSound : IsSound empty
unfolding lookup
empty-IsSound =
    (omega arith, omega arith, λ j w h. absurd (ground arith), λ j r h. absurd (ground arith))

-- However requests come, are answered, end and are cut off by the window's closing: at most 32
-- wait, the numbers stay within 32 bits, a request that waits has no reply yet, and no reply is
-- for a number that was not given out.
pub perform_all-IsSound : (ops : List Op) (d : Desk) → IsSound d → IsSound (perform_all ops d)
perform_all-IsSound [] d s = s
perform_all-IsSound (op ∷ ops) d s = perform_all-IsSound ops (perform op d) (perform-IsSound op d s)

-- ===== src/Mode/Replies.antt =====
-- src-tauri/src/mode_control.rs: every caller that waits is answered, once.
use starkbot_neo.Common.{
  ℕ, ◌≡◌, ◌≢◌, refl, sym, ap, ◌∙◌, subst, inl, inr, String, Bool, true, false, Option, none, some,
  List, [], ◌∷◌, arith,
}
use starkbot_neo.Common.Tests.{◌==◌, ==_iff, Bool-cases, Option-cases}
use starkbot_neo.Common.Map.{lookup, put, nat_ord, lookup-put_self, lookup-put_other}
use starkbot_neo.Common.Result.{Result, err}
use starkbot_neo.Mode.{
  WindowAction, WindowMode, UiError, window_closed, Desk, drop_request, request, judge, complete,
  close_all, shutdown, end_request, complete_window_mode,
}
use starkbot_neo.Mode.Bounds.{
  Op, requests, completes, ends, shuts, perform, perform_all, empty, IsSound, perform-IsSound,
  perform_all-IsSound, empty-IsSound, end_request-desk,
}

replies-request :
    (shown emits : Bool) (desired : WindowAction) (d : Desk)
    → (request shown emits desired d).1.replies ≡ d.replies
unfolding request drop_request
replies-request shown emits desired d = ground arith

complete-reply :
    (j : ℕ) (actual : WindowMode) (e : Option String) (d : Desk) (id : ℕ)
    (r : Result UiError WindowMode)
    → IsSound d
    → lookup id d.replies ≡ some r
    → lookup id (complete j actual e d).1.replies ≡ some r
unfolding complete
complete-reply j actual e d id r s h = elim (Option-cases (lookup j d.pending)) [
  | inl n ↦ rw (n, complete) h
  | inr (w, n) ↦
      let free = (s.2 j w n).1 in
      let other : id ≢ j =
        λ q. absurd (ground (arith, subst (λ k. lookup k d.replies ≡ some r) q h)) in
      rw (n, complete) (lookup-put_other id j (judge w actual e) d.replies other ∙ h)
]

close_all-kept :
    (pending : List (ℕ × WindowAction)) (replies : List (ℕ × Result UiError WindowMode)) (id : ℕ)
    (r : Result UiError WindowMode)
    → lookup id pending ≡ none
    → lookup id replies ≡ some r
    → lookup id (close_all pending replies) ≡ some r
unfolding lookup
close_all-kept [] replies id r n h = h
close_all-kept ((j, w) ∷ pending) replies id r n h = elim (Bool-cases (id == j)) [
  | inl e ↦ absurd (ground arith)
  | inr e ↦
      close_all-kept pending (put j (err window_closed) replies) id r (ground arith)
        (lookup-put_other id j (err window_closed) replies (λ q. ground arith) ∙ h)
]

-- A caller who was told that the window closed is told nothing else by its closing.
close_all-told :
    (pending : List (ℕ × WindowAction)) (replies : List (ℕ × Result UiError WindowMode)) (id : ℕ)
    → lookup id replies ≡ some (err window_closed)
    → lookup id (close_all pending replies) ≡ some (err window_closed)
close_all-told [] replies id h = h
close_all-told ((j, w) ∷ pending) replies id h =
    close_all-told pending (put j (err window_closed) replies) id (elim (Bool-cases (id == j)) [
      | inl e ↦
          subst (λ k. lookup k (put j (err window_closed) replies) ≡ some (err window_closed))
            (sym ((==_iff id j).0 e)) (lookup-put_self j (err window_closed) replies)
      | inr e ↦ lookup-put_other id j (err window_closed) replies (λ q. ground arith) ∙ h
    ])

close_all-closed :
    (pending : List (ℕ × WindowAction)) (replies : List (ℕ × Result UiError WindowMode)) (id : ℕ)
    (w : WindowAction)
    → lookup id pending ≡ some w
    → lookup id (close_all pending replies) ≡ some (err window_closed)
unfolding lookup
close_all-closed [] replies id w h = cc
close_all-closed ((j, v) ∷ pending) replies id w h = elim (Bool-cases (id == j)) [
  | inl e ↦ close_all-told pending (put j (err window_closed) replies) id (
      subst (λ k. lookup k (put j (err window_closed) replies) ≡ some (err window_closed))
        (sym ((==_iff id j).0 e)) (lookup-put_self j (err window_closed) replies))
  | inr e ↦ close_all-closed pending (put j (err window_closed) replies) id w (ground arith)
]

-- A reply that was sent stays.
perform-reply :
    (op : Op) (d : Desk) (id : ℕ) (r : Result UiError WindowMode)
    → IsSound d
    → lookup id d.replies ≡ some r
    → lookup id (perform op d).replies ≡ some r
unfolding complete_window_mode shutdown drop_request
perform-reply (requests shown emits desired) d id r s h =
    ap (lookup id) (replies-request shown emits desired d) ∙ h
perform-reply (completes false j actual e) d id r s h = h
perform-reply (completes true j actual e) d id r s h = complete-reply j actual e d id r s h
perform-reply (ends j) d id r s h =
    ap (λ (x : Desk). lookup id x.replies) (end_request-desk j d) ∙ h
perform-reply shuts d id r s h =
    close_all-kept d.pending d.replies id r
      (elim (Option-cases (lookup id d.pending)) [
        | inl n ↦ n
        | inr (w, n) ↦ absurd (ground (arith, (s.2 id w n).1))
      ])
      h

perform_all-reply :
    (ops : List Op) (d : Desk) (id : ℕ) (r : Result UiError WindowMode)
    → IsSound d
    → lookup id d.replies ≡ some r
    → lookup id (perform_all ops d).replies ≡ some r
perform_all-reply [] d id r s h = h
perform_all-reply (op ∷ ops) d id r s h =
    perform_all-reply ops (perform op d) id r (perform-IsSound op d s) (perform-reply op d id r s h)

end_request-answer :
    (id : ℕ) (d : Desk) (r : Result UiError WindowMode)
    → lookup id d.replies ≡ some r
    → (end_request id d).0 ≡ r
unfolding end_request
end_request-answer id d r h = rw (h, end_request) refl

complete-sent :
    (id : ℕ) (actual : WindowMode) (e : Option String) (d : Desk) (w : WindowAction)
    → lookup id d.pending ≡ some w
    → lookup id (complete id actual e d).1.replies ≡ some (judge w actual e)
unfolding complete
complete-sent id actual e d w h = rw (h, complete) (lookup-put_self id (judge w actual e) d.replies)

-- The callers that wait are answered. When the window closes, each of them is told so; and the
-- first answer of the window to a request is what its caller gets, read against the mode that it
-- asked for. Nothing that happens between the answer and the caller's reading of it changes it: not
-- a second answer, and not the window's closing.
pub end_request_answered :
    (before later : List Op) (id : ℕ) (w : WindowAction) (actual : WindowMode) (e : Option String)
    → lookup id (perform_all before empty).pending ≡ some w
    → let d = perform_all before empty in
      ((end_request id (perform_all later (shutdown d))).0 ≡ err window_closed)
      × ((end_request id (perform_all later (complete id actual e d).1)).0 ≡ judge w actual e)
unfolding shutdown complete_window_mode
end_request_answered before later id w actual e h =
    let d = perform_all before empty in
    let s = perform_all-IsSound before empty empty-IsSound in
    let closed = close_all-closed d.pending d.replies id w h in
    let told = complete-sent id actual e d w h in
    (
      end_request-answer id _ (err window_closed) (
          perform_all-reply later (shutdown d) id (err window_closed) (perform-IsSound shuts d s)
            closed),
      end_request-answer id _ (judge w actual e) (
          perform_all-reply later (complete id actual e d).1 id (judge w actual e)
            (perform-IsSound (completes true id actual e) d s) told),
    )

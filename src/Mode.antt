-- ===== src/Mode.antt =====
-- src-tauri/src/mode_control.rs: requests of the control socket that wait for the webview. A waiting
-- caller is modelled by what happens before its wait (`request`) and after it (`drop`); the channel
-- of a request is the mail that stands under its number.
pub mod Bounds
pub mod Replies
use starkbot_neo.Common.{
  ℕ, suc, ◌+◌, String, Bool, true, false, not, Option, none, some, List, [], ◌∷◌,
}
use starkbot_neo.Common.Tests.{ltb, leb, if◌then◌else◌}
use starkbot_neo.Common.Lists.{length}
use starkbot_neo.Common.Map.{lookup, put, remove, nat_ord}
use starkbot_neo.Common.Result.{Result, ok, err}

pub data WindowAction : Type 0 where
  to_mini to_full toggle status : WindowAction

pub data WindowMode : Type 0 where
  mini full : WindowMode

-- The codes of the errors.
pub data UiError : Type 0 where
  window_closed window_busy window_event window_timeout window_request_missing : UiError
  window_mode : String → UiError

-- `Requests`, with what the channels carry and what was emitted to the window, the newest first.
pub record Desk : Type 0 where
  pub next : ℕ
  pub closed : Bool
  pub pending : List (ℕ × WindowAction)
  pub replies : List (ℕ × Result UiError WindowMode)
  pub emitted : List (ℕ × WindowAction)

abbrev pub max_pending : ℕ
max_pending = 32

abbrev pub u32_max : ℕ
u32_max = 4_294_967_295

-- `checked_add(1)` on `u32`.
abbrev pub checked_suc : ℕ → Option ℕ
checked_suc n = if ltb n u32_max then some (suc n) else none

-- A call that returns at once, or that waits under its number.
pub data Opened : Type 0 where
  returns : UiError → Opened
  waits : ℕ → Opened

-- The guard's `drop`.
unfoldable pub drop_request : ℕ → Desk → Desk
drop_request id d = record d { pending = remove id d.pending }

-- `request`, up to its wait. `shown` says whether the main window is there, `emits` whether the
-- event could be sent to it.
unfoldable pub request : Bool → Bool → WindowAction → Desk → Opened × Desk
request shown emits desired d =
    if not shown
    then (returns window_closed, d)
    else (if d.closed
        then (returns window_closed, d)
        else (if leb max_pending (length d.pending)
            then (returns window_busy, d)
            else elim (checked_suc d.next) [
              | none ↦ (returns window_busy, d)
              | some id ↦
                  let d' = record d { next = id; pending = put id desired d.pending } in
                  if emits
                  then (waits id, record d' { emitted = (id, desired) ∷ d'.emitted })
                  else (returns window_event, drop_request id d')
            ]))

-- What the webview's answer means for the request.
unfoldable pub judge : WindowAction → WindowMode → Option String → Result UiError WindowMode
judge desired actual (some e) = err (window_mode e)
judge to_mini full none = err (window_mode "the Starkbot window did not reach the requested mode")
judge to_full mini none = err (window_mode "the Starkbot window did not reach the requested mode")
judge desired actual none = ok actual

unfoldable pub complete : ℕ → WindowMode → Option String → Desk → Result UiError (Unit {0}) × Desk
complete id actual e d = elim (lookup id d.pending) [
  | none ↦ (err window_request_missing, d)
  | some desired ↦ (
    ok tt,
    record d { pending = remove id d.pending; replies = put id (judge desired actual e) d.replies },
  )
]

abbrev pub close_all :
    List (ℕ × WindowAction)
    → List (ℕ × Result UiError WindowMode)
    → List (ℕ × Result UiError WindowMode)
close_all [] replies = replies
close_all ((id, desired) ∷ pending) replies = close_all pending (put id (err window_closed) replies)

unfoldable pub shutdown : Desk → Desk
shutdown d = record d { closed = true; pending = []; replies = close_all d.pending d.replies }

-- The end of a wait: a reply, or a timeout; and the guard's `drop`.
unfoldable pub end_request : ℕ → Desk → Result UiError WindowMode × Desk
end_request id d = elim (lookup id d.replies) [
  | some r ↦ (r, drop_request id d)
  | none ↦ (err window_timeout, drop_request id d)
]

-- `complete_window_mode`, where `main` says whether the main window asks.
unfoldable pub complete_window_mode :
    Bool → ℕ → WindowMode → Option String → Desk → Result UiError (Unit {0}) × Desk
complete_window_mode main id actual e d =
    if main
    then complete id actual e d
    else (err (window_mode "only the main Starkbot window can confirm its mode"), d)

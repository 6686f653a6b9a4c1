-- ===== src/Screen.antt =====
-- crates/neo-agent/src/screen.rs: the screen lease. Each process that shares a data directory has
-- one lease; the lock file and the kernel's `flock` are one value `F` that they share, whose
-- operations are given by the record `Os`. A guard is the right to one `release`.
pub mod Exclusion
pub mod Machine
pub mod Nesting
pub mod Scopes
use Prim.Native.String.{◌++◌}
use starkbot_neo.Common.{
  ℕ, suc, ◌+◌, ◌-◌, String, Bool, true, false, not, ◌&&◌, Option, none, some, str_eq,
}
use starkbot_neo.Common.Tests.{ltb, ◌==◌, if◌then◌else◌}
use starkbot_neo.Common.Text.{show}
use starkbot_neo.Common.Result.{Result, ok, err}

-- Who holds the screen, as the lock file records it. `run` is a RunId.
pub record Holder : Type 0 where
  pub pid : ℕ
  pub surface : String
  pub run : String
  pub what : String
  pub since : ℕ

-- `Display` for a holder.
unfoldable pub display : Holder → String
unfolding show
display h =
    h.surface
    ++ (" is running `" ++ (h.what ++ ("` (pid " ++ (show h.pid ++ (", run " ++ (h.run ++ ")"))))))

pub data ScreenBusy : Type 0 where
  held_by : Holder → ScreenBusy
  held_by_unknown : ScreenBusy

-- `ScreenBusy::holder`.
abbrev pub named : ScreenBusy → Option Holder
named (held_by h) = some h
named held_by_unknown = none

-- What a process holds. The file is the process's own descriptor in the `Os`.
pub record Held : Type 0 where
  pub holder : Holder
  pub depth : ℕ
  pub scope : ℕ

-- A lease, with the process's counter of scopes.
pub record Process : Type 0 where
  pub pid : ℕ
  pub surface : String
  pub state : Option Held
  pub next_scope : ℕ

pub record ScreenGuard : Type 0 where
  pub scope : ℕ

-- The lock file under the processes, each known by its number: opening it, the two locks (tried,
-- never waited for), the record in it, and closing it, which gives the lock back.
pub record Os (F : Type 0) : Type 0 where
  pub can_open : ℕ → F → Bool
  pub can_read : ℕ → F → Bool
  pub try_exclusive : ℕ → F → Bool × F
  pub try_shared : ℕ → F → Bool
  pub write_holder : ℕ → Holder → F → F
  pub read_holder : F → Option Holder
  pub set_len_zero : ℕ → F → F
  pub close : ℕ → F → F

abbrev pub refusal : Option Holder → ScreenBusy
refusal none = held_by_unknown
refusal (some h) = held_by h

-- Whether work that presents the scope, under the run, belongs to the hold.
abbrev pub belongs : Option ℕ → String → Held → Bool
belongs none run held = str_eq held.holder.run run
belongs (some s) run held = if s == held.scope then true else str_eq held.holder.run run

module _ {F : Type 0} (os : Os F) where
  -- Take the file lock where this process holds nothing.
  unfoldable pub take_lock :
      ℕ → String → String → ℕ → Process → F → Result ScreenBusy ScreenGuard × Process × F
  take_lock i run what now p f =
      if os.can_open i f
      then (let r = os.try_exclusive i f in
          if r.0
          then (let holder : Holder = record {
            pid = p.pid;
            surface = p.surface;
            run = run;
            what = what;
            since = now;
          } in
              (
                ok (record { scope = p.next_scope }),
                record p {
                  state = some (record { holder = holder; depth = 1; scope = p.next_scope });
                  next_scope = p.next_scope + 1;
                },
                os.write_holder i holder r.1,
              ))
          else (err (refusal (os.read_holder r.1)), p, r.1))
      else (err held_by_unknown, p, f)

  unfoldable pub acquire_within :
      ℕ → Option ℕ → String → String → ℕ → Process → F → Result ScreenBusy ScreenGuard × Process × F
  acquire_within i scope run what now p f = elim p.state [
    | none ↦ take_lock i run what now p f
    | some held ↦
        if belongs scope run held
        then (
          ok (record { scope = held.scope }),
          record p { state = some (record held { depth = held.depth + 1 }) },
          f,
        )
        else (err (held_by held.holder), p, f)
  ]

  abbrev pub acquire :
      ℕ → String → String → ℕ → Process → F → Result ScreenBusy ScreenGuard × Process × F
  acquire i run what now p f = acquire_within i none run what now p f

  -- Who holds the screen now.
  unfoldable pub holder : ℕ → Process → F → Option Holder
  holder i p f = elim p.state [
    | some held ↦ some held.holder
    | none ↦
        if os.can_read i f then (if os.try_shared i f then none else os.read_holder f) else none
  ]

  -- What dropping a guard does.
  unfoldable pub release : ℕ → Process → F → Process × F
  release i p f = elim p.state [
    | none ↦ (p, f)
    | some held ↦
        let depth = held.depth - 1 in
        if ltb 0 depth
        then (record p { state = some (record held { depth = depth }) }, f)
        else (record p { state = none }, os.close i (os.set_len_zero i f))
  ]

-- ===== src/Screen/Machine.antt =====
-- crates/neo-agent/src/screen.rs: the processes of one machine over one lock file, as steps.
use starkbot_neo.Common.{ℕ, String, ◌≡◌, ◌≢◌, Bool, true, false, Option, none}
use starkbot_neo.Common.Tests.{◌==◌, if◌then◌else◌}
use starkbot_neo.Screen.{Holder, Process, Os, acquire_within}
use starkbot_neo.Screen

-- The processes by their number, and the lock file.
pub record Machine (F : Type 0) : Type 0 where
  pub process : ℕ → Process
  pub file : F

abbrev pub set : ℕ → Process → (ℕ → Process) → ℕ → Process
set i p ps j = if j == i then p else ps j

-- What `flock(2)` documents of the exclusive lock, for a reading `owns` of who has it: it is given
-- only when nobody else has it, then to the one who asked; a refusal, a write or a truncation
-- changes nobody's lock; closing the file gives back one's own and no other.
pub record IsFlock {F : Type 0} (os : Os F) (owns : ℕ → F → Bool) : Type 0 where
  pub given :
      (i : ℕ) (f : F) → (os.try_exclusive i f).0 ≡ true → owns i (os.try_exclusive i f).1 ≡ true
  pub excludes : (i j : ℕ) (f : F) → (os.try_exclusive i f).0 ≡ true → j ≢ i → owns j f ≡ false
  pub try_other : (i j : ℕ) (f : F) → j ≢ i → owns j (os.try_exclusive i f).1 ≡ owns j f
  pub refused :
      (i : ℕ) (f : F)
      → (os.try_exclusive i f).0 ≡ false
      → owns i (os.try_exclusive i f).1 ≡ owns i f
  pub try_free : (i : ℕ) (f : F) → ((j : ℕ) → owns j f ≡ false) → (os.try_exclusive i f).0 ≡ true
  pub written : (i j : ℕ) (h : Holder) (f : F) → owns j (os.write_holder i h f) ≡ owns j f
  pub truncated : (i j : ℕ) (f : F) → owns j (os.set_len_zero i f) ≡ owns j f
  pub closed : (i : ℕ) (f : F) → owns i (os.close i f) ≡ false
  pub closed_other : (i j : ℕ) (f : F) → j ≢ i → owns j (os.close i f) ≡ owns j f

module _ {F : Type 0} (os : Os F) where
  unfoldable pub acquired : ℕ → Option ℕ → String → String → ℕ → Machine F → Machine F
  acquired i scope run what now m =
      let r = acquire_within os i scope run what now (m.process i) m.file in
      record { process = set i r.1 m.process; file = r.2 }

  unfoldable pub released : ℕ → Machine F → Machine F
  released i m =
      let r = Screen.release os i (m.process i) m.file in
      record { process = set i r.0 m.process; file = r.1 }

  -- A process dies, holding or not: the kernel closes its file, and the process that starts in its
  -- place holds nothing.
  unfoldable pub killed : ℕ → ℕ → Machine F → Machine F
  killed i pid m = record {
    process =
        set i (record { pid = pid; surface = (m.process i).surface; state = none; next_scope = 1 })
          m.process;
    file = os.close i m.file;
  }

  pub data Step (m : Machine F) : Machine F → Type 0 where
    acquire :
        (i : ℕ) (scope : Option ℕ) (run what : String) (now : ℕ)
        → Step m (acquired i scope run what now m)
    release : (i : ℕ) → Step m (released i m)
    kill : (i pid : ℕ) → Step m (killed i pid m)

  -- What a machine comes to, one step after another.
  pub data Reaches (m : Machine F) : Machine F → Type 0 where
    onward : {n k : Machine F} → Step n k → Reaches m n → Reaches m k
    still : Reaches m m

-- ===== src/Screen/Scopes.antt =====
-- crates/neo-agent/src/screen.rs: a scope names one hold and no later one.
use starkbot_neo.Common.{ℕ, suc, ◌≤◌, ◌<◌, String, ◌≡◌, ◌≢◌, Option, none, some, arith}
use starkbot_neo.Common.Tests.{Option-cases}
use starkbot_neo.Common.{inl, inr}
use starkbot_neo.Screen.{Held, Process, Os, acquire_within, take_lock}
use starkbot_neo.Screen

module _ {F : Type 0} (os : Os F) (i : ℕ) where
  -- What a process does with its lease, while the other processes do what they do to the file.
  pub data Lives (p : Process) : Process → Type 0 where
    starts : Lives p p
    acquires :
        {q : Process}
        → Lives p q
        → (scope : Option ℕ) (run what : String) (now : ℕ) (f : F)
        → Lives p (acquire_within os i scope run what now q f).1
    releases : {q : Process} → Lives p q → (f : F) → Lives p (Screen.release os i q f).0

  -- Holds taken from now on have scopes from `s` on.
  abbrev IsLater : ℕ → Process → Type 0
  IsLater s p = (s ≤ p.next_scope) × ((h : Held) → p.state ≡ some h → s ≤ h.scope)

  acquire-IsLater :
      (s : ℕ) (p : Process) (scope : Option ℕ) (run what : String) (now : ℕ) (f : F)
      → IsLater s p
      → IsLater s (acquire_within os i scope run what now p f).1
  unfolding acquire_within take_lock
  acquire-IsLater s p scope run what now f (n, l) = elim (Option-cases p.state) [
    | inl q ↦ ground arith
    | inr (h, q) ↦ let m = l h q in ground arith
  ]

  release-IsLater :
      (s : ℕ) (p : Process) (f : F) → IsLater s p → IsLater s (Screen.release os i p f).0
  unfolding Screen.release
  release-IsLater s p f (n, l) = elim (Option-cases p.state) [
    | inl q ↦ ground arith
    | inr (h, q) ↦ let m = l h q in ground arith
  ]

  Lives-IsLater : (s : ℕ) (p q : Process) → Lives p q → IsLater s p → IsLater s q
  Lives-IsLater s p q starts l = l
  Lives-IsLater s p q (acquires {q = r} t scope run what now f) l =
      acquire-IsLater s r scope run what now f (Lives-IsLater s p r t l)
  Lives-IsLater s p q (releases {q = r} t f) l = release-IsLater s r f (Lives-IsLater s p r t l)

  -- Once a process holds nothing, no scope that it gave out before is the scope of a hold that it
  -- has later.
  pub stale-scope :
      (p q : Process) (s : ℕ) (h : Held)
      → p.state ≡ none
      → s < p.next_scope
      → Lives p q
      → q.state ≡ some h
      → h.scope ≢ s
  stale-scope p q s h idle old t e =
      let (n, l) = Lives-IsLater (suc s) p q t (omega arith, λ g f. ground arith) in
      let m = l h e in omega arith

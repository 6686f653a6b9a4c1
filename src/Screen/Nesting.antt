-- ===== src/Screen/Nesting.antt =====
-- crates/neo-agent/src/screen.rs: who is let into a hold, and when the hold ends.
use starkbot_neo.Common.{
  ℕ, ◌+◌, String, ◌≡◌, ◌≢◌, refl, ap, ◌↔◌, ◌⊎◌, inl, inr, true, false, Option, none, some, arith,
  str_eq,
}
use starkbot_neo.Common.Tests.{Bool-cases, Option-cases}
use starkbot_neo.Common.Result.{ok, err}
use starkbot_neo.Screen.{
  Held, Process, Os, held_by, ScreenGuard, belongs, acquire_within, take_lock, release,
}
use starkbot_neo.Screen.Exclusion.{IsOrdered}

belongs_iff :
    (scope : Option ℕ) (run : String) (h : Held)
    → (belongs scope run h ≡ true) ↔ ((scope ≡ some h.scope) ⊎ (str_eq h.holder.run run ≡ true))
belongs_iff none run h = ground arith
belongs_iff (some s) run h = ground arith

not_belongs :
    (scope : Option ℕ) (run : String) (h : Held)
    → belongs scope run h ≡ false
    → (scope ≢ some h.scope) × (str_eq h.holder.run run ≡ false)
not_belongs none run h b = ground arith
not_belongs (some s) run h b = ground arith

module _ {F : Type 0} (os : Os F) where
  -- While a process holds the screen, work is let in exactly when it presents the scope of the hold
  -- or runs under the holder's run. It then gets that scope, the hold is one deeper, and nothing
  -- else changes; all other work is told who holds the screen, and changes nothing.
  pub acquire_within-nested :
      (i : ℕ) (scope : Option ℕ) (run what : String) (now : ℕ) (p : Process) (f : F) (h : Held)
      → p.state ≡ some h
      → let r = acquire_within os i scope run what now p f in
        (r.2 ≡ f)
        × ((((scope ≡ some h.scope) ⊎ (str_eq h.holder.run run ≡ true))
              × (r.0 ≡ ok (record { scope = h.scope }))
              × (r.1 ≡ record p { state = some (record h { depth = h.depth + 1 }) }))
            ⊎ ((scope ≢ some h.scope)
                × (str_eq h.holder.run run ≡ false)
                × (r.0 ≡ err (held_by h.holder))
                × (r.1 ≡ p)))
  unfolding acquire_within
  acquire_within-nested i scope run what now p f h e = elim (Bool-cases (belongs scope run h)) [
    | inl b ↦ rw (e, b, acquire_within) (refl, inl ((belongs_iff scope run h).0 b, refl, refl))
    | inr b ↦
        let (other, stranger) = not_belongs scope run h b in
        rw (e, b, acquire_within)
          (refl, inr (other, stranger, refl, ap (λ (o : Option Held). record p { state = o }) e))
  ]

  -- A guard that is granted and dropped at once leaves the process holding what it held before.
  pub release-acquire_within :
      (i : ℕ) (scope : Option ℕ) (run what : String) (now : ℕ) (p : Process) (f : F)
      (g : ScreenGuard)
      → IsOrdered p
      → (acquire_within os i scope run what now p f).0 ≡ ok g
      → let r = acquire_within os i scope run what now p f in
        (release os i r.1 r.2).0.state ≡ p.state
  unfolding acquire_within take_lock release
  release-acquire_within i scope run what now p f g o e = elim (Option-cases p.state) [
    | inl q ↦ ground arith
    | inr (h, q) ↦ let (d, s) = o h q in ground arith
  ]

-- ===== src/Screen/Exclusion.antt =====
-- crates/neo-agent/src/screen.rs: of all processes over one lock file, at most one holds the screen.
use starkbot_neo.Common.{
  ℕ, ◌≤◌, ◌<◌, String, ◌≡◌, ◌≢◌, refl, sym, subst, ◌∙◌, inl, inr, Bool, true, false, Option, none,
  some, arith,
}
use starkbot_neo.Common.Tests.{Bool-cases, Option-cases, ◌==◌, ==_iff}
use starkbot_neo.Screen.{Holder, Held, Process, Os, acquire_within, take_lock}
use starkbot_neo.Screen
use starkbot_neo.Screen.Machine.{
  Machine, set, IsFlock, acquired, released, killed, Step, acquire, release, kill, Reaches, onward,
  still,
}

-- Whether a process holds the screen.
abbrev pub holds : Process → Bool
holds p = elim p.state [ none ↦ false | some h ↦ true ]

-- A hold has at least one guard, and its scope was given out.
abbrev pub IsOrdered : Process → Type 0
IsOrdered p = (h : Held) → p.state ≡ some h → (1 ≤ h.depth) × (h.scope < p.next_scope)

not_equal : (a b : ℕ) → (a == b) ≡ false → a ≢ b
not_equal a b h = ground arith

module _ {F : Type 0} (os : Os F) (owns : ℕ → F → Bool) (flock : IsFlock os owns) where
  acquire-owns :
      (i : ℕ) (scope : Option ℕ) (run what : String) (now : ℕ) (p : Process) (f : F)
      → owns i f ≡ holds p
      → owns i (acquire_within os i scope run what now p f).2
        ≡ holds (acquire_within os i scope run what now p f).1
  unfolding acquire_within take_lock
  acquire-owns i scope run what now p f a = grind (arith, flock.given, flock.refused, flock.written)

  acquire-owns_other :
      (i j : ℕ) (scope : Option ℕ) (run what : String) (now : ℕ) (p : Process) (f : F)
      → j ≢ i
      → owns j (acquire_within os i scope run what now p f).2 ≡ owns j f
  unfolding acquire_within take_lock
  acquire-owns_other i j scope run what now p f n = grind (arith, flock.try_other, flock.written)

  -- A process that comes to hold the screen was alone.
  acquire-alone :
      (i j : ℕ) (scope : Option ℕ) (run what : String) (now : ℕ) (p : Process) (f : F)
      → j ≢ i
      → holds p ≡ false
      → holds (acquire_within os i scope run what now p f).1 ≡ true
      → owns j f ≡ false
  unfolding acquire_within take_lock
  acquire-alone i j scope run what now p f n a b = grind (arith, flock.excludes)

  acquire-keeps :
      (i : ℕ) (scope : Option ℕ) (run what : String) (now : ℕ) (p : Process) (f : F)
      → holds p ≡ true
      → holds (acquire_within os i scope run what now p f).1 ≡ true
  unfolding acquire_within
  acquire-keeps i scope run what now p f a = ground arith

  acquire-IsOrdered :
      (i : ℕ) (scope : Option ℕ) (run what : String) (now : ℕ) (p : Process) (f : F)
      → IsOrdered p
      → IsOrdered (acquire_within os i scope run what now p f).1
  unfolding acquire_within take_lock
  acquire-IsOrdered i scope run what now p f o h e = grind (arith, o)

  release-owns :
      (i : ℕ) (p : Process) (f : F)
      → owns i f ≡ holds p
      → owns i (Screen.release os i p f).1 ≡ holds (Screen.release os i p f).0
  unfolding Screen.release
  release-owns i p f a = grind (arith, flock.closed)

  release-owns_other :
      (i j : ℕ) (p : Process) (f : F) → j ≢ i → owns j (Screen.release os i p f).1 ≡ owns j f
  unfolding Screen.release
  release-owns_other i j p f n = grind (arith, flock.closed_other, flock.truncated)

  release-holds :
      (i : ℕ) (p : Process) (f : F) → holds (Screen.release os i p f).0 ≡ true → holds p ≡ true
  unfolding Screen.release
  release-holds i p f h = ground arith

  release-IsOrdered :
      (i : ℕ) (p : Process) (f : F) → IsOrdered p → IsOrdered (Screen.release os i p f).0
  unfolding Screen.release
  release-IsOrdered i p f o h e = elim (Option-cases p.state) [
    | inl q ↦ ground arith
    | inr (held, q) ↦ let (d, s) = o held q in ground arith
  ]

  -- Who owns the file lock holds the screen, nobody else does, and the holds are ordered.
  abbrev pub IsSound : Machine F → Type 0
  IsSound m =
      ((i : ℕ) → owns i m.file ≡ holds (m.process i))
      × ((i j : ℕ) → holds (m.process i) ≡ true → holds (m.process j) ≡ true → i ≡ j)
      × ((i : ℕ) → IsOrdered (m.process i))

  -- One process changed, and the others' locks did not.
  changed :
      (m : Machine F) (i : ℕ) (p : Process) (f : F)
      → IsSound m
      → owns i f ≡ holds p
      → ((j : ℕ) → j ≢ i → owns j f ≡ owns j m.file)
      → (holds p ≡ true → holds (m.process i) ≡ false → (j : ℕ) → j ≢ i → owns j m.file ≡ false)
      → IsOrdered p
      → IsSound (record { process = set i p m.process; file = f })
  changed m i p f (agree, one, ordered) own others alone o = (
    λ j. elim (Bool-cases (j == i)) [
      | inl e ↦ rw e (subst (λ k. owns k f ≡ holds p) (sym ((==_iff j i).0 e)) own)
      | inr e ↦ rw e (others j (not_equal j i e) ∙ agree j)
    ],
    λ j k hj hk. elim (Bool-cases (j == i)) [
      | inl e ↦ elim (Bool-cases (k == i)) [
        | inl d ↦ (==_iff j i).0 e ∙ sym ((==_iff k i).0 d)
        | inr d ↦ (==_iff j i).0 e ∙ with_new k d (ground arith) (ground arith)
      ]
      | inr e ↦ elim (Bool-cases (k == i)) [
        | inl d ↦ sym ((==_iff k i).0 d ∙ with_new j e (ground arith) (ground arith))
        | inr d ↦ one j k (ground arith) (ground arith)
      ]
    ],
    λ j. elim (Bool-cases (j == i)) [ inl e ↦ rw e o | inr e ↦ rw e (ordered j) ],
  )
    where
      with_new : (k : ℕ) → (k == i) ≡ false → holds p ≡ true → holds (m.process k) ≡ true → i ≡ k
      with_new k d hp hk = elim (Bool-cases (holds (m.process i))) [
        | inl h ↦ one i k h hk
        | inr h ↦ let free = alone hp h k (not_equal k i d) in absurd (ground (arith, agree k))
      ]

  pub step-IsSound : (m n : Machine F) → Step os m n → IsSound m → IsSound n
  unfolding acquired released killed
  step-IsSound m n (acquire i scope run what now) s =
      let (agree, one, ordered) = s in
      changed m i _ _ s (acquire-owns i scope run what now (m.process i) m.file (agree i))
        (λ j. acquire-owns_other i j scope run what now (m.process i) m.file)
        (λ new old j n. acquire-alone i j scope run what now (m.process i) m.file n old new)
        (acquire-IsOrdered i scope run what now (m.process i) m.file (ordered i))
  step-IsSound m n (release i) s =
      let (agree, one, ordered) = s in
      changed m i _ _ s (release-owns i (m.process i) m.file (agree i))
        (λ j. release-owns_other i j (m.process i) m.file)
        (λ new old j n. absurd (ground (arith, release-holds i (m.process i) m.file new)))
        (release-IsOrdered i (m.process i) m.file (ordered i))
  step-IsSound m n (kill i pid) s =
      changed m i _ _ s (flock.closed i m.file) (λ j. flock.closed_other i j m.file)
        (λ new old j n. ground arith) (λ h e. ground arith)

  pub Reaches-IsSound : (m n : Machine F) → Reaches os m n → IsSound m → IsSound n
  Reaches-IsSound m n still s = s
  Reaches-IsSound m n (onward {n = l} st r) s = step-IsSound l n st (Reaches-IsSound m l r s)

  -- From a machine on which no process holds the screen and nobody has the lock, no steps lead to
  -- two processes that hold the screen at once; and the lock is then the holder's.
  pub exclusive :
      (m n : Machine F) (i j : ℕ) (g h : Held)
      → ((k : ℕ) → (m.process k).state ≡ none)
      → ((k : ℕ) → owns k m.file ≡ false)
      → Reaches os m n
      → (n.process i).state ≡ some g
      → (n.process j).state ≡ some h
      → (i ≡ j) × (owns i n.file ≡ true)
  exclusive m n i j g h idle free r p q =
      let start : IsSound m = (
        λ k. free k ∙ rw (idle k) refl,
        λ a b x y. absurd (ground (arith, idle a)),
        λ k held e. absurd (ground (arith, idle k)),
      ) in
      let (agree, one, ordered) = Reaches-IsSound m n r start in
      (one i j (rw p refl) (rw q refl), agree i ∙ rw p refl)

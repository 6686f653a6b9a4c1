-- ===== src/Term/Reassembly.antt =====
-- crates/neo-tui/src/state.rs: what the slices of a turn's answer make, in whatever order they come.
use starkbot_neo.Common.{
  ℕ, zero, suc, ◌≤◌, ◌<◌, ◌≡◌, refl, sym, ap, ◌∙◌, ◌↔◌, subst, inl, inr, Bool, true, false, ◌||◌,
  List, [], ◌∷◌, ◌++◌, arith,
}
use starkbot_neo.Common.Tests.{ltb, ◌==◌, ==_iff, Bool-cases, lt→ltb}
use starkbot_neo.Common.Lists.{All, any}
use starkbot_neo.Term.Answer.{Bytes, u32_max, Progress, blank, hold, drain, delta, deltas}

-- The first `n` slices of what a turn says, one after the other.
unfoldable pub spoken : (ℕ → Bytes) → ℕ → Bytes
spoken say zero = []
spoken say (suc n) = spoken say n ++ say n

-- Whether slice `n` is among those that came.
abbrev pub came : ℕ → List (ℕ × Bytes) → Bool
came n ds = any (λ d. d.0 == n) ds

-- A slice of what the turn says, with a number that can be counted up.
abbrev pub IsSlice : (ℕ → Bytes) → ℕ × Bytes → Type 0
IsSlice say d = (d.1 ≡ say d.0) × (d.0 < u32_max)

module _ (say : ℕ → Bytes) where
  -- The held slices rise from above `n`, and each is what the turn says.
  abbrev pub IsHeld : ℕ → List (ℕ × Bytes) → Type 0
  IsHeld n [] = Unit
  IsHeld n ((s, t) ∷ rest) = (n < s) × IsSlice say (s, t) × IsHeld s rest

  abbrev pub IsSpoken : Progress → Type 0
  IsSpoken p = (p.answer ≡ spoken say p.next_seq) × IsHeld p.next_seq p.pending

  IsHeld-hold :
      (n seq : ℕ) (text : Bytes) (ds : List (ℕ × Bytes))
      → n < seq
      → IsSlice say (seq, text)
      → IsHeld n ds
      → IsHeld n (hold seq text ds)
  unfolding hold
  IsHeld-hold n seq text [] l w h = (l, w, tt)
  IsHeld-hold n seq text ((s, t) ∷ ds) l w h = ground (arith, IsHeld-hold s seq text ds)

  came-hold :
      (n seq : ℕ) (text : Bytes) (ds : List (ℕ × Bytes))
      → came n (hold seq text ds) ≡ came n ((seq, text) ∷ ds)
  unfolding hold
  came-hold n seq text [] = refl
  came-hold n seq text ((s, t) ∷ ds) = ground (arith, came-hold n seq text ds)

  -- No held slice is at `n` or before.
  came-held : (n m : ℕ) (ds : List (ℕ × Bytes)) → IsHeld n ds → m ≤ n → came m ds ≡ false
  came-held n m [] h l = refl
  came-held n m ((s, t) ∷ ds) h l = ground (arith, came-held s m ds)

  -- A state in which the slices in `seen` have come: those before the next were appended and the
  -- others are held.
  abbrev pub IsReceived : (ℕ → Bool) → Progress → Type 0
  IsReceived seen p =
      IsSpoken p
      × ((m : ℕ) → m < p.next_seq → seen m ≡ true)
      × ((m : ℕ) → p.next_seq ≤ m → came m p.pending ≡ seen m)

  IsReceived-same :
      (f g : ℕ → Bool) (p : Progress) → ((m : ℕ) → f m ≡ g m) → IsReceived f p → IsReceived g p
  IsReceived-same f g p e (h, a, b) = (h, λ m l. sym (e m) ∙ a m l, λ m l. b m l ∙ e m)

  next_slice :
      (answer : Bytes) (n s : ℕ) (t : Bytes)
      → answer ≡ spoken say n
      → t ≡ say s
      → s ≡ n
      → answer ++ t ≡ spoken say (suc s)
  unfolding spoken
  next_slice answer n s t e w same = rw (w, same, e) refl

  drain-IsReceived :
      (seen : ℕ → Bool) (answer : Bytes) (n : ℕ) (ds : List (ℕ × Bytes))
      → answer ≡ spoken say (suc n)
      → IsHeld n ds
      → ((m : ℕ) → m < suc n → seen m ≡ true)
      → ((m : ℕ) → suc n ≤ m → came m ds ≡ seen m)
      → IsReceived seen (drain answer (suc n) ds)
  unfolding drain
  drain-IsReceived seen answer n [] e h a b = ((e, tt), a, b)
  drain-IsReceived seen answer n ((s, t) ∷ ds) e (l, (w, u), h) a b =
      elim (Bool-cases (s == suc n)) [
        | inl q ↦
            let same = (==_iff s (suc n)).0 q in
            let more =
              drain-IsReceived seen (answer ++ t) s ds (next_slice answer (suc n) s t e w same) h
                (λ m g. ground (arith, a m, b m)) (λ m g. ground (arith, b m)) in
            rw q (rw (lt→ltb s u32_max u) more)
        | inr q ↦ rw q ((e, (ground arith, (w, u), h)), a, b)
      ]

  delta-IsReceived :
      (seen : ℕ → Bool) (seq : ℕ) (text : Bytes) (p : Progress)
      → IsSlice say (seq, text)
      → IsReceived seen p
      → IsReceived (λ m. (seq == m) || seen m) (delta seq text p)
  unfolding delta
  delta-IsReceived seen seq text p w ((e, h), a, b) = elim (Bool-cases (ltb seq p.next_seq)) [
    | inl q ↦ rw q ((e, h), (λ m l. ground (arith, a m l)), (λ m l. ground (arith, b m l)))
    | inr q ↦ elim (Bool-cases (ltb p.next_seq seq)) [
      | inl r ↦
          rw (q, r)
            (
              (e, IsHeld-hold p.next_seq seq text p.pending (ground arith) w h),
              (λ m l. ground (arith, a m l)),
              (λ m l. came-hold m seq text p.pending ∙ ap (λ c. (seq == m) || c) (b m l)),
            )
      | inr r ↦
          let same : seq ≡ p.next_seq = ground arith in
          rw (q, r)
            (rw (lt→ltb seq u32_max w.1) (
              drain-IsReceived (λ m. (seq == m) || seen m) (p.answer ++ text) seq p.pending
                (next_slice p.answer p.next_seq seq text e w.0 same)
                (subst (λ n. IsHeld n p.pending) (sym same) h) (λ m l. ground (arith, a m))
                (λ m l. ground (arith, b m))))
    ]
  ]

  deltas-IsReceived :
      (seen : ℕ → Bool) (ds : List (ℕ × Bytes)) (p : Progress)
      → All (IsSlice say) ds
      → IsReceived seen p
      → IsReceived (λ m. came m ds || seen m) (deltas ds p)
  deltas-IsReceived seen [] p w h = h
  deltas-IsReceived seen ((s, t) ∷ ds) p (u, w) h =
      IsReceived-same (λ m. came m ds || ((s == m) || seen m)) (λ m. came m ((s, t) ∷ ds) || seen m)
        (deltas ds (delta s t p)) (λ m. ground arith)
        (deltas-IsReceived (λ m. (s == m) || seen m) ds (delta s t p) w
          (delta-IsReceived seen s t p u h))

  -- In whatever order the slices of a turn come, and however often each does, the answer shown is
  -- the slices up to the first one that has not come, in their order and each once.
  pub deltas-spoken :
      (ds : List (ℕ × Bytes))
      → All (IsSlice say) ds
      → let p = deltas ds blank in
        (p.answer ≡ spoken say p.next_seq)
        × ((m : ℕ) → m < p.next_seq → came m ds ≡ true)
        × (came p.next_seq ds ≡ false)
  unfolding spoken
  deltas-spoken ds w =
      let ((e, h), a, b) =
        deltas-IsReceived (λ m. false) ds blank w
          ((refl, tt), (λ m l. ground arith), (λ m l. refl)) in
      let n = (deltas ds blank).next_seq in
      (
        e,
        (λ m l. ground (arith, a m l)),
        ground (arith, b n, came-held n n (deltas ds blank).pending h),
      )

  -- Where the slices up to `n` came and no later ones, the answer shown is all that the turn said.
  pub deltas_whole :
      (ds : List (ℕ × Bytes)) (n : ℕ)
      → All (IsSlice say) ds
      → ((m : ℕ) → (came m ds ≡ true) ↔ (m < n))
      → (deltas ds blank).answer ≡ spoken say n
  deltas_whole ds n w all =
      let (e, a, b) = deltas-spoken ds w in
      let k = (deltas ds blank).next_seq in
      let below : k ≤ n =
        elim k as (λ k. ((m : ℕ) → m < k → came m ds ≡ true) → k ≤ n) [
          | zero ↦ λ g. omega arith
          | suc j ↦ λ g. (all j).0 (g j (omega arith))
        ]
          a in
      let above : n ≤ k = ground (arith, all k) in e ∙ ap (spoken say) (omega arith)

-- ===== src/Table/Lines.antt =====
-- crates/neo-ax/src/table.rs: the visible text is the start of the whole text, within its budget.
use mathlib.Core.List.{append-nil, append_assoc}
use starkbot_neo.Common.{
  ℕ, zero, suc, ◌+◌, ◌-◌, ◌≤◌, ◌<◌, ◌⊎◌, ◌≡◌, refl, sym, ◌∙◌, ap, true, false, inl, inr, List, [],
  ◌∷◌, ◌++◌, arith,
}
use starkbot_neo.Common.Tests.{ltb, ◌==◌, Bool-cases, if◌then◌else◌}
use starkbot_neo.Common.Lists.{length, length-append}
use starkbot_neo.Table.{
  text_budget, collapse_whitespace, is_empty, newline, take, Visible, push_text, push_all,
}

-- The whole text: the lines that are not blank, with their white space collapsed.
abbrev pub add_line : List ℕ → List ℕ → List ℕ
add_line raw acc =
    if is_empty (collapse_whitespace raw) then acc else newline acc ++ collapse_whitespace raw

abbrev pub whole_from : List (List ℕ) → List ℕ → List ℕ
whole_from [] acc = acc
whole_from (raw ∷ lines) acc = whole_from lines (add_line raw acc)

abbrev pub whole : List (List ℕ) → List ℕ
whole lines = whole_from lines []

abbrev IsPrefix : List ℕ → List ℕ → Type 0
IsPrefix s t = (r : List ℕ) × (s ++ r ≡ t)

IsPrefix-append : (s t r : List ℕ) → IsPrefix s t → IsPrefix s (t ++ r)
IsPrefix-append s t r (q, e) = (q ++ r, sym (append_assoc s q r) ∙ ap (λ t. t ++ r) e)

newline-IsPrefix : (s t : List ℕ) → IsPrefix s t → IsPrefix s (newline t)
newline-IsPrefix s [] h = h
newline-IsPrefix s (c ∷ t) h = IsPrefix-append s (c ∷ t) (10 ∷ []) h

add_line-IsPrefix : (s raw t : List ℕ) → IsPrefix s t → IsPrefix s (add_line raw t)
add_line-IsPrefix s raw t h = elim (Bool-cases (is_empty (collapse_whitespace raw))) [
  | inl e ↦ rw e h
  | inr e ↦ rw e (IsPrefix-append s (newline t) (collapse_whitespace raw) (newline-IsPrefix s t h))
]

take-IsPrefix : (n : ℕ) (s : List ℕ) → IsPrefix (take n s) s
take-IsPrefix zero s = (s, refl)
take-IsPrefix (suc n) [] = ([], refl)
take-IsPrefix (suc n) (c ∷ s) = let (r, e) = take-IsPrefix n s in (r, ap (λ t. c ∷ t) e)

length-take-le : (n : ℕ) (s : List ℕ) → length (take n s) ≤ n
length-take-le zero s = omega arith
length-take-le (suc n) [] = omega arith
length-take-le (suc n) (c ∷ s) = ground (arith, length-take-le n s)

length-newline : (s : List ℕ) → length (newline s) ≡ length s + (if is_empty s then 0 else 1)
length-newline [] = refl
length-newline (c ∷ s) = omega (arith, length-append {0} s (10 ∷ []))

-- What holds of the text while the lines are pushed.
record Fits (v : Visible) (acc : List ℕ) : Type 0 where
  pub short : length v.text ≤ text_budget
  pub start : IsPrefix v.text acc
  pub uncut : v.cut ≡ false → v.text ≡ acc

-- What is left of the budget, and the branches of `push_text`.
abbrev remaining : Visible → ℕ
remaining v = text_budget - (length v.text + (if is_empty v.text then 0 else 1))

module _ (raw : List ℕ) (v : Visible) where
  abbrev line : List ℕ
  line = collapse_whitespace raw

  push_text-cases :
      ((is_empty line ≡ true) × (push_text raw v ≡ v))
      ⊎ ((is_empty line ≡ false)
          × (((v.cut ≡ true) × (push_text raw v ≡ v))
              ⊎ ((remaining v ≡ 0) × (push_text raw v ≡ record v { cut = true }))
              ⊎ ((v.cut ≡ false)
                  × (0 < remaining v)
                  × (push_text raw v
                      ≡ record { text = newline v.text ++ take (remaining v) line; cut = true }))
              ⊎ ((v.cut ≡ false)
                  × (0 < remaining v)
                  × (length line ≤ remaining v)
                  × (push_text raw v ≡ record { text = newline v.text ++ line; cut = false }))))
  unfolding push_text
  push_text-cases = elim (Bool-cases (is_empty line)) [
    | inl e ↦ inl (e, rw (e, push_text) refl)
    | inr e ↦ elim (Bool-cases v.cut) [
      | inl c ↦ inr (e, inl (c, ground arith))
      | inr c ↦ elim (Bool-cases (remaining v == 0)) [
        | inl z ↦ inr (e, inr (inl (ground arith, ground arith)))
        | inr z ↦ elim (Bool-cases (ltb (remaining v) (length line))) [
          | inl l ↦ inr (e, inr (inr (inl (c, ground arith, ground arith))))
          | inr l ↦ inr (e, inr (inr (inr (c, ground arith, ground arith, ground arith))))
        ]
      ]
    ]
  ]

  add_line-shown : (acc : List ℕ) → is_empty line ≡ false → add_line raw acc ≡ newline acc ++ line
  add_line-shown acc e = rw e refl

  push_text-Fits : (acc : List ℕ) → Fits v acc → Fits (push_text raw v) (add_line raw acc)
  push_text-Fits acc f = elim push_text-cases [
    | inl (e, q) ↦ rw (q, e) f
    | inr (e, inl (c, q)) ↦ rw q (record {
      short = f.short;
      start = add_line-IsPrefix v.text raw acc f.start;
      uncut = λ h. cc;
    })
    | inr (e, inr (inl (z, q))) ↦ rw q (record {
      short = f.short;
      start = add_line-IsPrefix v.text raw acc f.start;
      uncut = λ h. cc;
    })
    | inr (e, inr (inr (inl (c, z, q)))) ↦
        let (r, t) = take-IsPrefix (remaining v) line in
        rw q (record {
          short = omega (
            arith,
            length-append {0} (newline v.text) (take (remaining v) line),
            length-newline v.text,
            length-take-le (remaining v) line,
          );
          start = (
            r,
            append_assoc (newline v.text) (take (remaining v) line) r
                ∙ (ap (λ l. newline v.text ++ l) t
                    ∙ (ap (λ l. newline l ++ line) (f.uncut c) ∙ sym (add_line-shown acc e))),
          );
          uncut = λ h. cc;
        })
    | inr (e, inr (inr (inr (c, z, l, q)))) ↦
        let same = ap (λ l. newline l ++ line) (f.uncut c) ∙ sym (add_line-shown acc e) in
        rw q (record {
          short = omega (arith, length-append {0} (newline v.text) line, length-newline v.text);
          start = ([], append-nil (newline v.text ++ line) ∙ same);
          uncut = λ h. same;
        })
  ]

push_all-Fits :
    (lines : List (List ℕ)) (v : Visible) (acc : List ℕ)
    → Fits v acc
    → Fits (push_all lines v) (whole_from lines acc)
unfolding push_all
push_all-Fits [] v acc f = f
push_all-Fits (raw ∷ lines) v acc f =
    push_all-Fits lines (push_text raw v) (add_line raw acc) (push_text-Fits raw v acc f)

abbrev pub blank : Visible
blank = record { text = []; cut = false }

-- The visible text has at most 6,000 characters and is the start of the whole text, and where it is not
-- marked as cut it is the whole text.
pub push_all-whole :
    (lines : List (List ℕ))
    → let v = push_all lines blank in
      (length v.text ≤ text_budget)
      × ((rest : List ℕ) × (v.text ++ rest ≡ whole lines))
      × (v.cut ≡ false → v.text ≡ whole lines)
push_all-whole lines =
    let f =
      push_all-Fits lines blank []
        (record { short = omega arith; start = ([], refl); uncut = λ h. refl }) in
    (f.short, f.start, f.uncut)

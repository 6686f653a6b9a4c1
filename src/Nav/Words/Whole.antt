-- ===== src/Nav/Words/Whole.antt =====
-- crates/jev-nav/src/gate.rs: what the search for a confirm word finds.
use mathlib.Core.List.{Memᴰ}
use starkbot_neo.Common.{
  ℕ, zero, suc, ◌-◌, ◌<◌, String, ◌≡◌, refl, ap, ◌≢◌, inl, inr, Bool, true, false, ◌&&◌, Option,
  none, some, List, [], ◌∷◌, ◌++◌, arith,
}
use starkbot_neo.Common.Tests.{◌==◌, if◌then◌else◌, Bool-cases}
use starkbot_neo.Common.Lists.{length, drop, All, find_if-some, find_if-none}
use starkbot_neo.Common.Text.{codes, lower_codes, codes_prefix}
use starkbot_neo.Nav.Words.{boundary, head, scan, contains_word, confirm_word, confirm_words}

-- The last character, `before` where the text is empty.
abbrev pub last_or : Option ℕ → List ℕ → Option ℕ
last_or before [] = before
last_or before (c ∷ s) = last_or (some c) s

-- The word stands in the text with an edge, or no letter and no digit, on both its sides.
abbrev pub IsWhole : (ℕ → Bool) → List ℕ → Option ℕ → List ℕ → Type 0
IsWhole alnum word before text =
    (pre : List ℕ) × (post : List ℕ) × (text ≡ pre ++ (word ++ post))
    × (boundary alnum (last_or before pre) ≡ true)
    × (boundary alnum (head post) ≡ true)

prefix_lem : (word s : List ℕ) → codes_prefix word s ≡ true → s ≡ word ++ drop (length word) s
prefix_lem [] s h = refl
prefix_lem (c ∷ w) [] h = cc
prefix_lem (c ∷ w) (d ∷ s) h = ground (arith, prefix_lem w s)

prefix-append : (word post : List ℕ) → codes_prefix word (word ++ post) ≡ true
prefix-append [] post = refl
prefix-append (c ∷ w) post = ground (arith, prefix-append w post)

drop-append : (word post : List ℕ) → drop (length word) (word ++ post) ≡ post
drop-append [] post = refl
drop-append (c ∷ w) post = drop-append w post

IsWhole-cons :
    (alnum : ℕ → Bool) (word : List ℕ) (before : Option ℕ) (c : ℕ) (s : List ℕ)
    → IsWhole alnum word (some c) s
    → IsWhole alnum word before (c ∷ s)
IsWhole-cons alnum word before c s (pre, post, e, l, r) = (c ∷ pre, post, ap (c ∷◌) e, l, r)

scan_sound :
    (alnum : ℕ → Bool) (word : List ℕ) (before : Option ℕ) (skip : ℕ) (s : List ℕ)
    → scan alnum word before skip s ≡ true
    → IsWhole alnum word before s
unfolding scan
scan_sound alnum word before skip [] h = cc
scan_sound alnum word before skip (c ∷ s) h =
    let found = skip == 0 && codes_prefix word (c ∷ s) in
    let next = if found then length word - 1 else skip - 1 in
    elim (Bool-cases (scan alnum word (some c) next s)) [
      | inl later ↦ IsWhole-cons alnum word before c s (scan_sound alnum word (some c) next s later)
      | inr never ↦ (
        [],
        drop (length word) (c ∷ s),
        ground (arith, prefix_lem word (c ∷ s)),
        ground arith,
        ground arith,
      )
    ]

-- The next `n` characters are letters or digits.
abbrev Letters : (ℕ → Bool) → ℕ → List ℕ → Type 0
Letters alnum zero s = Unit
Letters alnum (suc n) [] = Unit
Letters alnum (suc n) (c ∷ s) = (alnum c ≡ true) × Letters alnum n s

Letters-of_prefix :
    (alnum : ℕ → Bool) (word s : List ℕ)
    → All (λ c. alnum c ≡ true) word
    → codes_prefix word s ≡ true
    → Letters alnum (length word) s
Letters-of_prefix alnum [] s a h = tt
Letters-of_prefix alnum (c ∷ w) [] a h = tt
Letters-of_prefix alnum (c ∷ w) (d ∷ s) a h = ground (arith, Letters-of_prefix alnum w s a.1)

-- Inside a match the search stands behind a letter, and letters follow.
abbrev Inside : (ℕ → Bool) → ℕ → Option ℕ → List ℕ → Type 0
Inside alnum skip before s = (0 < skip → boundary alnum before ≡ false) × Letters alnum skip s

-- One character on, the search is again inside a match, or at a place that it tests.
Inside-next :
    (alnum : ℕ → Bool) (w : ℕ) (ws : List ℕ) (before : Option ℕ) (skip c : ℕ) (s : List ℕ)
    → All (λ c. alnum c ≡ true) (w ∷ ws)
    → Inside alnum skip before (c ∷ s)
    → Inside alnum
        (if skip == 0 && codes_prefix (w ∷ ws) (c ∷ s) then length (w ∷ ws) - 1 else skip - 1)
        (some c)
        s
Inside-next alnum w ws before zero c s a i =
    let e : length (w ∷ ws) - 1 ≡ length ws = omega arith in
    rw e (ground (arith, Letters-of_prefix alnum ws s a.1))
Inside-next alnum w ws before (suc zero) c s a i = ground arith
Inside-next alnum w ws before (suc (suc k)) c s a i =
    let e : suc (suc k) - 1 ≡ suc k = omega arith in rw e (ground arith)

scan_complete :
    (alnum : ℕ → Bool) (w : ℕ) (ws : List ℕ) (before : Option ℕ) (skip : ℕ) (pre post : List ℕ)
    → All (λ c. alnum c ≡ true) (w ∷ ws)
    → Inside alnum skip before (pre ++ (w ∷ ws ++ post))
    → boundary alnum (last_or before pre) ≡ true
    → boundary alnum (head post) ≡ true
    → scan alnum (w ∷ ws) before skip (pre ++ (w ∷ ws ++ post)) ≡ true
unfolding scan
scan_complete alnum w ws before skip [] post a i l r =
    ground (arith, prefix-append (w ∷ ws) post, drop-append (w ∷ ws) post)
scan_complete alnum w ws before skip (c ∷ pre) post a i l r =
    let next = Inside-next alnum w ws before skip c (pre ++ (w ∷ ws ++ post)) a i in
    ground (arith, scan_complete alnum w ws (some c) _ pre post a next l r)

-- A word that the search reports is one of the confirm words, and stands in the label in lower
-- case as a word of its own.
pub confirm_word_sound :
    (alnum : ℕ → Bool) (label word : String)
    → confirm_word alnum label ≡ some word
    → Memᴰ word confirm_words × IsWhole alnum (codes word) none (lower_codes (codes label))
unfolding confirm_word
confirm_word_sound alnum label word h =
    let (t, m) = find_if-some (contains_word alnum label) confirm_words word h in
    (m, scan_sound alnum (codes word) none 0 (lower_codes (codes label)) t)

IsWhole-scan :
    (alnum : ℕ → Bool) (word s : List ℕ)
    → word ≢ []
    → All (λ c. alnum c ≡ true) word
    → IsWhole alnum word none s
    → scan alnum word none 0 s ≡ true
IsWhole-scan alnum [] s ne a w = absurd (ne refl)
IsWhole-scan alnum (c ∷ ws) s ne a (pre, post, e, l, r) =
    rw e (scan_complete alnum c ws none 0 pre post a ((λ h. elim h [ ]), tt) l r)

-- A label in which a confirm word of letters alone stands as a word of its own, in any case, is
-- never let through by the search.
pub confirm_word_complete :
    (alnum : ℕ → Bool) (label word : String)
    → Memᴰ word confirm_words
    → codes word ≢ []
    → All (λ c. alnum c ≡ true) (codes word)
    → IsWhole alnum (codes word) none (lower_codes (codes label))
    → confirm_word alnum label ≢ none
unfolding confirm_word
confirm_word_complete alnum label word m ne a w h =
    let found = IsWhole-scan alnum (codes word) (lower_codes (codes label)) ne a w in
    cc (found, find_if-none (contains_word alnum label) confirm_words m h)

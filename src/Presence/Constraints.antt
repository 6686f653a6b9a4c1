-- ===== src/Presence/Constraints.antt =====
-- crates/neo-store/migrations/0005_presence_and_leases.sql: the constraints of the two tables, which
-- every operation keeps.
use starkbot_neo.Common.{
  ℕ, String, ◌≡◌, refl, sym, ◌∙◌, subst, inl, inr, ◌⊎◌, Bool, true, false, not, ◌&&◌, Option, some,
  List, [], ◌∷◌, map, arith, str_eq, eq_iff, eq_refl,
}
use starkbot_neo.Common.Tests.{Bool-cases, Option-cases}
use starkbot_neo.Common.Lists.{any, keep_if, All, All-map}
use starkbot_neo.Presence.{
  Row, Lease, Tables, Resource, announce, heartbeat, renew, refresh_session, saturating_add,
  delete_sessions, sessions, claim, upsert_session, upsert_lease, acquire, release, depart,
  has_session,
}
use starkbot_neo.Presence.Steps.{
  Op, announces, heartbeats, lists, acquires, releases, departs, perform,
}

-- No two rows have the same key.
abbrev pub Distinct {ℓ} : {A : Type ℓ} → (A → String) → List A → Type 0
Distinct f [] = Unit
Distinct f (x ∷ xs) = All (λ y. str_eq (f y) (f x) ≡ false) xs × Distinct f xs

-- PRIMARY KEY on both tables, and REFERENCES sessions on the holders.
abbrev pub IsConsistent : Tables → Type 0
IsConsistent t =
    Distinct (λ (s : Row). s.id) t.sessions
    × Distinct (λ (l : Lease). l.resource) t.leases
    × All (λ (l : Lease). has_session l.holder t.sessions ≡ true) t.leases

All-keep_if {ℓ} :
    {A : Type ℓ} (P : A → Type 0) (q : A → Bool) (xs : List A) → All P xs → All P (keep_if q xs)
All-keep_if P q [] a = tt
All-keep_if P q (x ∷ xs) (p, a) = let rest = All-keep_if P q xs a in ground arith

Distinct-keep_if {ℓ} :
    {A : Type ℓ} (f : A → String) (q : A → Bool) (xs : List A)
    → Distinct f xs
    → Distinct f (keep_if q xs)
Distinct-keep_if f q [] d = tt
Distinct-keep_if f q (x ∷ xs) (n, d) =
    let rest = Distinct-keep_if f q xs d in
    let kept = All-keep_if (λ y. str_eq (f y) (f x) ≡ false) q xs n in
    elim (Bool-cases (q x)) [ inl e ↦ rw e (kept, rest) | inr e ↦ rw e rest ]

-- A change of the rows that leaves the keys.
Distinct-map {ℓ} :
    {A : Type ℓ} (f : A → String) (g : A → A) (xs : List A)
    → ((x : A) → f (g x) ≡ f x)
    → Distinct f xs
    → Distinct f (map g xs)
Distinct-map f g [] h d = tt
Distinct-map {A = A} f g (x ∷ xs) h (n, d) = (others xs n, Distinct-map f g xs h d)
  where
    others :
        (ys : List A)
        → All (λ y. str_eq (f y) (f x) ≡ false) ys
        → All (λ y. str_eq (f y) (f (g x)) ≡ false) (map g ys)
    others [] n = tt
    others (y ∷ ys) (e, n) = (rw (h x, h y) e, others ys n)

renew-resource : (id : String) (e : ℕ) (l : Lease) → (renew id e l).resource ≡ l.resource
renew-resource id e l = ground arith

refresh_session-id :
    (id : String) (a : Option String) (at : ℕ) (s : Row) → (refresh_session id a at s).id ≡ s.id
refresh_session-id id a at s = ground arith

pub has_session-refresh_session :
    (who id : String) (a : Option String) (at : ℕ) (rows : List Row)
    → has_session who (map (refresh_session id a at) rows) ≡ has_session who rows
has_session-refresh_session who id a at [] = refl
has_session-refresh_session who id a at (s ∷ rows) =
    rw (refresh_session-id id a at s, has_session-refresh_session who id a at rows) refl

has_session-upsert_session :
    (who : String) (row : Row) (rows : List Row)
    → has_session who rows ≡ true
    → has_session who (upsert_session row rows) ≡ true
unfolding upsert_session
has_session-upsert_session who row [] h = ground arith
has_session-upsert_session who row (s ∷ rows) h =
    ground (arith, has_session-upsert_session who row rows)

upsert_session-apart :
    (k : String) (row : Row) (rows : List Row)
    → str_eq row.id k ≡ false
    → All (λ (s : Row). str_eq s.id k ≡ false) rows
    → All (λ (s : Row). str_eq s.id k ≡ false) (upsert_session row rows)
unfolding upsert_session
upsert_session-apart k row [] n a = (n, tt)
upsert_session-apart k row (s ∷ rows) n (e, a) =
    let rest = upsert_session-apart k row rows n a in
    elim (Bool-cases (str_eq s.id row.id)) [
      | inl q ↦ rw (q, upsert_session) (e, a)
      | inr q ↦ rw (q, upsert_session) (e, rest)
    ]

eq_sym : (a b : String) → str_eq a b ≡ false → str_eq b a ≡ false
eq_sym a b e = elim (Bool-cases (str_eq b a)) [
  | inl q ↦
      absurd
        (ground (arith, e, subst (λ k. str_eq a k ≡ true) (sym ((eq_iff b a).0 q)) (eq_refl a)))
  | inr q ↦ q
]

upsert_session-Distinct :
    (row : Row) (rows : List Row)
    → Distinct (λ (s : Row). s.id) rows
    → Distinct (λ (s : Row). s.id) (upsert_session row rows)
unfolding upsert_session
upsert_session-Distinct row [] d = (tt, tt)
upsert_session-Distinct row (s ∷ rows) (n, d) = elim (Bool-cases (str_eq s.id row.id)) [
  | inl e ↦ rw (e, upsert_session) (n, d)
  | inr e ↦
      rw (e, upsert_session)
        (
          upsert_session-apart s.id row rows (eq_sym s.id row.id e) n,
          upsert_session-Distinct row rows d,
        )
]

-- What an upsert makes of a list: the row in place of the one with its key, or behind the first.
upsert_lease-cases :
    (row : Lease) (at : ℕ) (l : Lease) (ls new : List Lease)
    → upsert_lease row at (l ∷ ls) ≡ some new
    → ((str_eq l.resource row.resource ≡ true) × (row ∷ ls ≡ new))
      ⊎ ((str_eq l.resource row.resource ≡ false)
          × ((rest : List Lease) × (upsert_lease row at ls ≡ some rest) × (l ∷ rest ≡ new)))
unfolding upsert_lease
upsert_lease-cases row at l ls new h = elim (Bool-cases (str_eq l.resource row.resource)) [
  | inl e ↦ inl (e, ground arith)
  | inr e ↦ elim (Option-cases (upsert_lease row at ls)) [
    | inl u ↦ absurd (ground arith)
    | inr (rest, u) ↦ inr (e, (rest, u, ground arith))
  ]
]

upsert_lease-All :
    (P : Lease → Type 0) (row : Lease) (at : ℕ) (leases new : List Lease)
    → upsert_lease row at leases ≡ some new
    → P row
    → All P leases
    → All P new
unfolding upsert_lease
upsert_lease-All P row at [] new h p a =
    let e : row ∷ [] ≡ new = ground arith in subst (All P) e (p, tt)
upsert_lease-All P row at (l ∷ ls) new h p (q, a) = elim (upsert_lease-cases row at l ls new h) [
  | inl (e, n) ↦ subst (All P) n (p, a)
  | inr (e, (rest, u, n)) ↦ subst (All P) n (q, upsert_lease-All P row at ls rest u p a)
]

upsert_lease-Distinct :
    (row : Lease) (at : ℕ) (leases new : List Lease)
    → upsert_lease row at leases ≡ some new
    → Distinct (λ (l : Lease). l.resource) leases
    → Distinct (λ (l : Lease). l.resource) new
unfolding upsert_lease
upsert_lease-Distinct row at [] new h d =
    let e : row ∷ [] ≡ new = ground arith in subst (Distinct (λ (l : Lease). l.resource)) e (tt, tt)
upsert_lease-Distinct row at (l ∷ ls) new h (a, d) = elim (upsert_lease-cases row at l ls new h) [
  | inl (e, n) ↦ subst (Distinct (λ (l : Lease). l.resource)) n (
    subst (λ k. All (λ (y : Lease). str_eq y.resource k ≡ false) ls)
        ((eq_iff l.resource row.resource).0 e) a,
    d,
  )
  | inr (e, (rest, u, n)) ↦ subst (Distinct (λ (l : Lease). l.resource)) n (
    upsert_lease-All (λ (y : Lease). str_eq y.resource l.resource ≡ false) row at ls rest u
        (eq_sym l.resource row.resource e) a,
    upsert_lease-Distinct row at ls rest u d,
  )
]

-- Deleting sessions deletes the leases that refer to them.
delete_sessions-IsConsistent :
    (gone : Row → Bool) (t : Tables) → IsConsistent t → IsConsistent (delete_sessions gone t)
unfolding delete_sessions
delete_sessions-IsConsistent gone t (ids, keys, refs) = (
  Distinct-keep_if (λ (s : Row). s.id) (λ s. not (gone s)) t.sessions ids,
  Distinct-keep_if (λ (l : Lease). l.resource) _ t.leases keys,
  All-kept _ t.leases refs,
)
  where
    survivor :
        (rows : List Row) (who : String)
        → has_session who rows ≡ true
        → any (λ s. gone s && str_eq s.id who) rows ≡ false
        → has_session who (keep_if (λ s. not (gone s)) rows) ≡ true
    survivor [] who h n = h
    survivor (s ∷ rows) who h n = let rest = survivor rows who in ground (arith, rest)

    All-kept :
        (rows : List Row) (ls : List Lease)
        → All (λ (l : Lease). has_session l.holder rows ≡ true) ls
        → All
            (λ (l : Lease). has_session l.holder (keep_if (λ s. not (gone s)) rows) ≡ true)
            (keep_if (λ (l : Lease). not (any (λ s. gone s && str_eq s.id l.holder) rows)) ls)
    All-kept rows [] a = tt
    All-kept rows (l ∷ ls) (r, a) =
        let rest = All-kept rows ls a in
        elim (Bool-cases (any (λ s. gone s && str_eq s.id l.holder) rows)) [
          | inl e ↦ rw e rest
          | inr e ↦ rw e (survivor rows l.holder r e, rest)
        ]

All-renew :
    (id : String) (e : ℕ) (rows : List Row) (ls : List Lease)
    → All (λ (l : Lease). has_session l.holder rows ≡ true) ls
    → All (λ (l : Lease). has_session l.holder rows ≡ true) (map (renew id e) ls)
All-renew id e rows [] a = tt
All-renew id e rows (l ∷ ls) (r, a) =
    let same : (renew id e l).holder ≡ l.holder = ground arith in
    (rw same r, All-renew id e rows ls a)

heartbeat-IsConsistent :
    (id : String) (activity : Option String) (at ttl : ℕ) (t : Tables)
    → IsConsistent t
    → IsConsistent (heartbeat id activity at ttl t).1
unfolding heartbeat
heartbeat-IsConsistent id activity at ttl t (ids, keys, refs) =
    elim (Bool-cases (has_session id t.sessions)) [
      | inl e ↦
          rw (e, heartbeat)
            (
              Distinct-map (λ (s : Row). s.id) (refresh_session id activity at) t.sessions
                  (refresh_session-id id activity at) ids,
              Distinct-map (λ (l : Lease). l.resource) (renew id (saturating_add at ttl)) t.leases
                  (renew-resource id (saturating_add at ttl)) keys,
              All-map (λ l r. has_session-refresh_session l.holder id activity at t.sessions ∙ r) _
                  (All-renew id (saturating_add at ttl) t.sessions t.leases refs),
            )
      | inr e ↦ rw (e, heartbeat) (ids, keys, refs)
    ]

acquire-IsConsistent :
    (r : Resource) (who : String) (reason : Option String) (at ttl : ℕ) (t : Tables)
    → IsConsistent t
    → IsConsistent (acquire r who reason at ttl t).1
unfolding acquire
acquire-IsConsistent r who reason at ttl t (ids, keys, refs) =
    elim (Option-cases (upsert_lease (claim r who reason at ttl) at t.leases)) [
      | inl e ↦ rw (e, acquire) (ids, keys, refs)
      | inr (new, e) ↦ elim (Bool-cases (has_session who t.sessions)) [
        | inl known ↦
            rw (e, known, acquire)
              (
                ids,
                upsert_lease-Distinct _ at t.leases new e keys,
                upsert_lease-All (λ (l : Lease). has_session l.holder t.sessions ≡ true)
                    (claim r who reason at ttl) at t.leases new e known refs,
              )
        | inr strange ↦ rw (e, strange, acquire) (ids, keys, refs)
      ]
    ]

-- Every operation keeps the constraints, whatever it answers.
pub perform-IsConsistent : (op : Op) (t : Tables) → IsConsistent t → IsConsistent (perform op t)
unfolding announce sessions release depart
perform-IsConsistent (announces id kind pid host at) t (ids, keys, refs) = (
  upsert_session-Distinct _ t.sessions ids,
  keys,
  All-map (λ l r. has_session-upsert_session l.holder _ t.sessions r) t.leases refs,
)
perform-IsConsistent (heartbeats id activity at ttl) t c =
    heartbeat-IsConsistent id activity at ttl t c
perform-IsConsistent (lists now stale) t c = delete_sessions-IsConsistent _ t c
perform-IsConsistent (acquires r who reason at ttl) t c =
    acquire-IsConsistent r who reason at ttl t c
perform-IsConsistent (releases r who) t (ids, keys, refs) = (
  ids,
  Distinct-keep_if (λ (l : Lease). l.resource) _ t.leases keys,
  All-keep_if (λ (l : Lease). has_session l.holder t.sessions ≡ true) _ t.leases refs,
)
perform-IsConsistent (departs id) t c = delete_sessions-IsConsistent _ t c

-- ===== src/Presence/Leases.antt =====
-- crates/neo-store/src/presence.rs: while a lease runs, nobody else gets the resource.
use starkbot_neo.Common.{
  ℕ, ◌≤◌, String, ◌≡◌, ◌≢◌, refl, ap, sym, ◌∙◌, subst, inl, inr, Bool, true, false, not, ◌&&◌,
  Option, none, some, List, [], ◌∷◌, map, arith, str_eq, eq_iff, eq_refl,
}
use starkbot_neo.Common.Tests.{leb, Bool-cases, Option-cases}
use starkbot_neo.Common.Lists.{any, keep_if, find_if, All}
use starkbot_neo.Common.Result.{Result, ok}
use starkbot_neo.Presence.{
  StoreError, Row, Lease, Tables, Resource, chrome, key, announce, heartbeat, renew, saturating_add,
  delete_sessions, holds_one, sessions, claim, upsert_lease, acquire, holder, release, depart,
}
use starkbot_neo.Presence.Steps.{
  Op, announces, heartbeats, lists, acquires, releases, departs, perform, perform_all, IsOther,
}

-- The row of a resource.
abbrev lease_of : String → List Lease → Option Lease
lease_of k leases = find_if (λ (l : Lease). str_eq l.resource k) leases

find_if-keep_if {ℓ} :
    {A : Type ℓ} (p q : A → Bool) (xs : List A) (a : A)
    → find_if p xs ≡ some a
    → q a ≡ true
    → find_if p (keep_if q xs) ≡ some a
unfolding find_if
find_if-keep_if p q [] a h k = cc
find_if-keep_if p q (x ∷ xs) a h k = ground (arith, find_if-keep_if p q xs a)

find_if-true {ℓ} :
    {A : Type ℓ} (p : A → Bool) (xs : List A) (a : A) → find_if p xs ≡ some a → p a ≡ true
unfolding find_if
find_if-true p [] a h = cc
find_if-true p (x ∷ xs) a h = ground (arith, find_if-true p xs a)

-- The row is the answer of `holder` while it runs.
holder-lease_of :
    (k : String) (now : ℕ) (leases : List Lease) (l : Lease)
    → lease_of k leases ≡ some l
    → now ≤ l.expires_at
    → find_if (λ (l : Lease). str_eq l.resource k && leb now l.expires_at) leases ≡ some l
unfolding find_if
holder-lease_of k now [] l h t = cc
holder-lease_of k now (g ∷ ls) l h t = ground (arith, holder-lease_of k now ls l)

lease_of-renew :
    (k id : String) (expires : ℕ) (leases : List Lease) (l : Lease)
    → lease_of k leases ≡ some l
    → str_eq l.holder id ≡ false
    → lease_of k (map (renew id expires) leases) ≡ some l
unfolding find_if
lease_of-renew k id expires [] l h n = cc
lease_of-renew k id expires (g ∷ ls) l h n = ground (arith, lease_of-renew k id expires ls l)

-- Nobody else takes a row that runs.
upsert_lease-none :
    (row : Lease) (at : ℕ) (leases : List Lease) (l : Lease)
    → lease_of row.resource leases ≡ some l
    → str_eq l.holder row.holder ≡ false
    → at ≤ l.expires_at
    → upsert_lease row at leases ≡ none
unfolding find_if upsert_lease
upsert_lease-none row at [] l h n t = cc
upsert_lease-none row at (g ∷ ls) l h n t = ground (arith, upsert_lease-none row at ls l)

any-false {ℓ} :
    {A : Type ℓ} (p : A → Bool) (xs : List A) → ((x : A) → p x ≡ false) → any p xs ≡ false
any-false p [] h = refl
any-false p (x ∷ xs) h = ground (arith, h x, any-false p xs h)

-- The row stays where no session of its holder is deleted.
lease_of-delete_sessions :
    (k : String) (gone : Row → Bool) (t : Tables) (l : Lease)
    → lease_of k t.leases ≡ some l
    → ((s : Row) → (gone s && str_eq s.id l.holder) ≡ false)
    → lease_of k (delete_sessions gone t).leases ≡ some l
unfolding delete_sessions
lease_of-delete_sessions k gone t l h n =
    find_if-keep_if (λ (l : Lease). str_eq l.resource k)
      (λ (l : Lease). not (any (λ s. gone s && str_eq s.id l.holder) t.sessions)) t.leases l h
      (ground (arith, any-false (λ s. gone s && str_eq s.id l.holder) t.sessions n))

-- A row that runs shows its holder among the holders.
holds_one-lease_of :
    (k : String) (now : ℕ) (leases : List Lease) (l : Lease)
    → lease_of k leases ≡ some l
    → now ≤ l.expires_at
    → holds_one leases now l.holder ≡ true
unfolding find_if
holds_one-lease_of k now [] l h t = cc
holds_one-lease_of k now (g ∷ ls) l h t =
    ground (arith, holds_one-lease_of k now ls l, eq_refl l.holder)

not_eq : (a b : String) → a ≢ b → str_eq a b ≡ false
not_eq a b n = elim (Bool-cases (str_eq a b)) [ inl e ↦ absurd (n ((eq_iff a b).0 e)) | inr e ↦ e ]

eq_both : (a b c : String) → str_eq a b ≡ true → str_eq a c ≡ true → b ≡ c
eq_both a b c h k = sym ((eq_iff a b).0 h) ∙ (eq_iff a c).0 k

upsert_lease-lease_of :
    (row : Lease) (at : ℕ) (leases new : List Lease)
    → upsert_lease row at leases ≡ some new
    → lease_of row.resource new ≡ some row
unfolding upsert_lease find_if
upsert_lease-lease_of row at [] new h = ground (arith, eq_refl row.resource)
upsert_lease-lease_of row at (g ∷ ls) new h = elim (Option-cases (upsert_lease row at ls)) [
  | inl e ↦ ground (arith, eq_refl row.resource)
  | inr (rest, e) ↦ ground (arith, eq_refl row.resource, upsert_lease-lease_of row at ls rest e)
]

-- Somebody else's attempt on a row that runs.
acquire-none :
    (r : Resource) (who : String) (reason : Option String) (at ttl : ℕ) (t : Tables) (l : Lease)
    → lease_of (key r) t.leases ≡ some l
    → who ≢ l.holder
    → at ≤ l.expires_at
    → acquire r who reason at ttl t ≡ (ok none, t)
unfolding acquire
acquire-none r who reason at ttl t l h n o =
    let other = not_eq l.holder who (λ e. n (sym e)) in
    let kept = upsert_lease-none (claim r who reason at ttl) at t.leases l h other o in
    rw (kept, acquire) refl

-- A row that was taken.
acquire-lease_of :
    (r : Resource) (me : String) (reason : Option String) (at ttl : ℕ) (t : Tables) (l : Lease)
    → (acquire r me reason at ttl t).0 ≡ ok (some l)
    → (l ≡ claim r me reason at ttl)
      × (lease_of (key r) (acquire r me reason at ttl t).1.leases ≡ some l)
unfolding acquire
acquire-lease_of r me reason at ttl t l h =
    elim (Option-cases (upsert_lease (claim r me reason at ttl) at t.leases)) [
      | inl e ↦ ground arith
      | inr (new, e) ↦
          let q = upsert_lease-lease_of (claim r me reason at ttl) at t.leases new e in ground arith
    ]

perform-lease_of :
    (r : Resource) (op : Op) (t : Tables) (l : Lease)
    → lease_of (key r) t.leases ≡ some l
    → IsOther l.holder l.expires_at op
    → lease_of (key r) (perform op t).leases ≡ some l
unfolding announce heartbeat sessions acquire release depart
perform-lease_of r (announces id kind pid host at) t l h o = h
perform-lease_of r (heartbeats id activity at ttl) t l h o =
    let other = not_eq l.holder id (λ e. o (sym e)) in
    ground (arith, lease_of-renew (key r) id (saturating_add at ttl) t.leases l h other)
perform-lease_of r (lists now stale) t l h o = lease_of-delete_sessions (key r) _ t l h (λ s.
    elim (Bool-cases (str_eq s.id l.holder)) [
      | inl e ↦
          let held = holds_one-lease_of (key r) now t.leases l h o in
          rw ((eq_iff s.id l.holder).0 e, held) (ground arith)
      | inr e ↦ ground arith
    ])
perform-lease_of chrome (acquires chrome who reason at ttl) t l h (n, o) =
    ap (λ (q : Result StoreError (Option Lease) × Tables). lease_of (key chrome) q.1.leases)
      (acquire-none chrome who reason at ttl t l h n o)
    ∙ h
perform-lease_of r (releases q who) t l h o =
    find_if-keep_if _ _ t.leases l h
      (let other = not_eq l.holder who (λ e. o (sym e)) in ground arith)
perform-lease_of r (departs id) t l h o = lease_of-delete_sessions (key r) _ t l h (λ s.
    elim (Bool-cases (str_eq s.id id)) [
      | inl a ↦ elim (Bool-cases (str_eq s.id l.holder)) [
        | inl b ↦ absurd (o (eq_both s.id id l.holder a b))
        | inr b ↦ ground arith
      ]
      | inr a ↦ ground arith
    ])

perform_all-lease_of :
    (r : Resource) (ops : List Op) (t : Tables) (l : Lease)
    → lease_of (key r) t.leases ≡ some l
    → All (IsOther l.holder l.expires_at) ops
    → lease_of (key r) (perform_all ops t).leases ≡ some l
perform_all-lease_of r [] t l h o = h
perform_all-lease_of r (op ∷ ops) t l h (o, os) =
    perform_all-lease_of r ops (perform op t) l (perform-lease_of r op t l h o) os

-- A lease that was taken is the holder's until it expires, whatever other sessions do meanwhile:
-- announce, report, list and prune the roster, try to take it, release it or depart. Nobody else
-- takes it while it runs, and an attempt changes nothing.
pub acquire-kept :
    (r : Resource) (me : String) (reason : Option String) (at ttl : ℕ) (t : Tables) (l : Lease)
    (ops : List Op) (now : ℕ) (who : String) (why : Option String) (ttl' : ℕ)
    → (acquire r me reason at ttl t).0 ≡ ok (some l)
    → All (IsOther me l.expires_at) ops
    → now ≤ l.expires_at
    → who ≢ me
    → let after = perform_all ops (acquire r me reason at ttl t).1 in
      (l ≡ claim r me reason at ttl)
      × (holder r now after ≡ some l)
      × (acquire r who why now ttl' after ≡ (ok none, after))
unfolding holder
acquire-kept r me reason at ttl t l ops now who why ttl' h o n other =
    let (same, row) = acquire-lease_of r me reason at ttl t l h in
    let mine : l.holder ≡ me = ap (λ (l : Lease). l.holder) same in
    let kept =
      perform_all-lease_of r ops (acquire r me reason at ttl t).1 l row
        (subst (λ m. All (IsOther m l.expires_at) ops) (sym mine) o) in
    (
      same,
      holder-lease_of (key r) now _ l kept n,
      acquire-none r who why now ttl' _ l kept (λ e. other (e ∙ mine)) n,
    )

-- ===== src/Presence/Roster.antt =====
-- crates/neo-store/src/presence.rs, `sessions` and `heartbeat`: the roster.
use mathlib.Core.List.{Perm}
use mathlib.Core.List.Perm as Permutation
use starkbot_neo.Common.{
  ℕ, ◌-◌, ◌≤◌, String, ◌≡◌, refl, sym, subst, ◌⊎◌, eq_iff, inl, inr, Bool, true, false, not, ◌&&◌,
  Option, none, some, List, [], ◌∷◌, map, arith, str_eq, eq_refl,
}
use starkbot_neo.Common.Tests.{ltb, leb, Bool-cases}
use starkbot_neo.Common.Lists.{any, keep_if, find_if, All, All-map}
use starkbot_neo.Common.Result.{ok, err}
use starkbot_neo.Presence.{
  Row, Session, Lease, Tables, Resource, heartbeat, renew, saturating_add, delete_sessions,
  holds_one, refresh_session, sessions, session_evicted, insert_newest, newest_first, read_row,
  holder, has_session,
}

-- In the order of the last report, the newest first.
abbrev pub IsNewestFirst : List Session → Type 0
IsNewestFirst [] = Unit
IsNewestFirst (s ∷ rest) =
    All (λ (r : Session). r.last_seen ≤ s.last_seen) rest × IsNewestFirst rest

insert_newest-All :
    (P : Session → Type 0) (s : Row) (rows : List Row)
    → P (read_row s)
    → All P (map read_row rows)
    → All P (map read_row (insert_newest s rows))
unfolding insert_newest
insert_newest-All P s [] p a = (p, tt)
insert_newest-All P s (r ∷ rows) p (q, a) =
    let rest = insert_newest-All P s rows p a in
    elim (Bool-cases (leb r.last_seen s.last_seen)) [
      | inl e ↦ rw (e, insert_newest) (p, (q, a))
      | inr e ↦ rw (e, insert_newest) (q, rest)
    ]

insert_newest-IsNewestFirst :
    (s : Row) (rows : List Row)
    → IsNewestFirst (map read_row rows)
    → IsNewestFirst (map read_row (insert_newest s rows))
unfolding insert_newest read_row
insert_newest-IsNewestFirst s [] h = (tt, tt)
insert_newest-IsNewestFirst s (r ∷ rows) (a, h) = elim (Bool-cases (leb r.last_seen s.last_seen)) [
  | inl e ↦
      let le : r.last_seen ≤ s.last_seen = ground arith in
      rw (e, insert_newest) ((le, All-map (λ x q. omega (arith, q, le)) _ a), (a, h))
  | inr e ↦
      let le : s.last_seen ≤ r.last_seen = ground arith in
      rw (e, insert_newest)
        (
          insert_newest-All (λ x. x.last_seen ≤ r.last_seen) s rows le a,
          insert_newest-IsNewestFirst s rows h,
        )
]

newest_first-IsNewestFirst : (rows : List Row) → IsNewestFirst (map read_row (newest_first rows))
unfolding newest_first
newest_first-IsNewestFirst [] = tt
newest_first-IsNewestFirst (s ∷ rows) =
    insert_newest-IsNewestFirst s (newest_first rows) (newest_first-IsNewestFirst rows)

-- Two filters, of which the first drops nothing that the second keeps.
keep_if-keep_if {ℓ} :
    {A : Type ℓ} (p q : A → Bool) (xs : List A)
    → ((x : A) → p x ≡ true → q x ≡ true)
    → keep_if p (keep_if q xs) ≡ keep_if p xs
keep_if-keep_if p q [] h = refl
keep_if-keep_if p q (x ∷ xs) h = ground (arith, h x, keep_if-keep_if p q xs h)

insert_newest-Perm :
    (s : Row) (rows : List Row)
    → Perm (map read_row (insert_newest s rows)) (map read_row (s ∷ rows))
unfolding insert_newest
insert_newest-Perm s [] = Permutation.refl _
insert_newest-Perm s (r ∷ rows) = elim (Bool-cases (leb r.last_seen s.last_seen)) [
  | inl e ↦ rw (e, insert_newest) (Permutation.refl _)
  | inr e ↦
      rw (e, insert_newest)
        (Permutation.trans (Permutation.cons (read_row r) (insert_newest-Perm s rows))
          (Permutation.swap (read_row s) (read_row r) (map read_row rows)))
]

newest_first-Perm : (rows : List Row) → Perm (map read_row (newest_first rows)) (map read_row rows)
unfolding newest_first
newest_first-Perm [] = Permutation.refl _
newest_first-Perm (s ∷ rows) =
    Permutation.trans (insert_newest-Perm s (newest_first rows))
      (Permutation.cons (read_row s) (newest_first-Perm rows))

-- The roster is in the order of the last report, and it has each session that reported within the time
-- given, once for its row and as the row says, and no other, whatever the prune deletes.
pub sessions-roster :
    (now stale : ℕ) (t : Tables)
    → let roster = (sessions now stale t).0 in
      IsNewestFirst roster
      × Perm roster (map read_row (keep_if (λ s. leb (now - stale) s.last_seen) t.sessions))
unfolding sessions delete_sessions
sessions-roster now stale t =
    let cutoff = now - stale in
    let left : Row → Bool =
      λ s. not (ltb s.last_seen cutoff && not (holds_one t.leases now s.id)) in
    let lately : Row → Bool = λ s. leb cutoff s.last_seen in
    let kept = keep_if-keep_if lately left t.sessions (λ s h. ground arith) in
    (
      newest_first-IsNewestFirst _,
      subst
          (λ rows.
            Perm (map read_row (newest_first (keep_if lately (keep_if left t.sessions))))
              (map read_row rows))
          kept (newest_first-Perm (keep_if lately (keep_if left t.sessions))),
    )

find_if-keep_if {ℓ} :
    {A : Type ℓ} (p q : A → Bool) (xs : List A)
    → All (λ x. p x ≡ true → q x ≡ true) xs
    → find_if p (keep_if q xs) ≡ find_if p xs
unfolding find_if
find_if-keep_if p q [] h = refl
find_if-keep_if p q (x ∷ xs) (h, hs) = ground (arith, h, find_if-keep_if p q xs hs)

-- Who has a lease that runs is among the holders.
holders :
    (now : ℕ) (ls : List Lease)
    → All (λ (l : Lease). leb now l.expires_at ≡ true → holds_one ls now l.holder ≡ true) ls
holders now [] = tt
holders now (l ∷ ls) = (
  λ e. ground (arith, e, eq_refl l.holder),
  All-map (λ g h e. ground (arith, h e)) ls (holders now ls),
)

-- Pruning takes no lease that runs from its holder, however long ago the holder reported.
pub sessions-holder :
    (r : Resource) (now stale : ℕ) (t : Tables)
    → holder r now (sessions now stale t).1 ≡ holder r now t
unfolding sessions delete_sessions holder
sessions-holder r now stale t = find_if-keep_if _ _ t.leases (
    All-map
      (λ l h e.
        let running : leb now l.expires_at ≡ true = ground arith in
        rw (not_gone now stale t.leases l.holder (h running) t.sessions) refl)
      t.leases (holders now t.leases))
  where
    not_gone :
        (now stale : ℕ) (ls : List Lease) (who : String)
        → holds_one ls now who ≡ true
        → (rows : List Row)
        → any
            (λ (s : Row).
              (ltb s.last_seen (now - stale) && not (holds_one ls now s.id)) && str_eq s.id who)
            rows
          ≡ false
    not_gone now stale ls who h [] = refl
    not_gone now stale ls who h (s ∷ rows) =
        let rest = not_gone now stale ls who h rows in
        elim (Bool-cases (str_eq s.id who)) [
          | inl e ↦
              let held = subst (λ k. holds_one ls now k ≡ true) (sym ((eq_iff s.id who).0 e)) h in
              ground (arith, rest, held)
          | inr e ↦ ground (arith, rest)
        ]

-- The leases of a session.
abbrev pub held : String → Tables → List Lease
held who t = keep_if (λ (l : Lease). str_eq l.holder who) t.leases

renewed :
    (id : String) (e : ℕ) (ls : List Lease)
    → keep_if (λ (l : Lease). str_eq l.holder id) (map (renew id e) ls)
      ≡ map
          (λ (l : Lease). record l { expires_at = e })
          (keep_if (λ (l : Lease). str_eq l.holder id) ls)
renewed id e [] = refl
renewed id e (l ∷ ls) = let rest = renewed id e ls in ground arith

-- The row of a session, and those of the others.
abbrev pub row_of : String → Tables → List Row
row_of id t = keep_if (λ (s : Row). str_eq s.id id) t.sessions

abbrev pub other_rows : String → Tables → List Row
other_rows id t = keep_if (λ (s : Row). not (str_eq s.id id)) t.sessions

abbrev pub seen_at : ℕ → Option String → Row → Row
seen_at at activity s = record s {
  last_seen = at;
  activity = elim activity [ none ↦ s.activity | some a ↦ some a ];
}

refreshed :
    (id : String) (activity : Option String) (at : ℕ) (rows : List Row)
    → (keep_if (λ (s : Row). str_eq s.id id) (map (refresh_session id activity at) rows)
        ≡ map (seen_at at activity) (keep_if (λ (s : Row). str_eq s.id id) rows))
      × (keep_if (λ (s : Row). not (str_eq s.id id)) (map (refresh_session id activity at) rows)
          ≡ keep_if (λ (s : Row). not (str_eq s.id id)) rows)
refreshed id activity at [] = (refl, refl)
refreshed id none at (s ∷ rows) =
    let (a, b) = refreshed id none at rows in (ground arith, ground arith)
refreshed id (some t) at (s ∷ rows) =
    let (a, b) = refreshed id (some t) at rows in (ground arith, ground arith)

-- The leases of the others.
abbrev pub other_leases : String → Tables → List Lease
other_leases id t = keep_if (λ (l : Lease). not (str_eq l.holder id)) t.leases

unrenewed :
    (id : String) (e : ℕ) (ls : List Lease)
    → keep_if (λ (l : Lease). not (str_eq l.holder id)) (map (renew id e) ls)
      ≡ keep_if (λ (l : Lease). not (str_eq l.holder id)) ls
unrenewed id e [] = refl
unrenewed id e (l ∷ ls) = let rest = unrenewed id e ls in ground arith

-- A report of a session that is on the roster is accepted: its row stays, seen now and with the activity
-- reported, if any; its leases all stay and run to the time given from now; and the rows and the leases
-- of the others stay as they are. A report of a session that is not on the roster is told that it was
-- evicted, and changes nothing.
pub heartbeat-roster :
    (id : String) (activity : Option String) (at ttl : ℕ) (t : Tables)
    → let r = heartbeat id activity at ttl t in
      ((has_session id t.sessions ≡ true)
        × (r.0 ≡ ok tt)
        × (row_of id r.1 ≡ map (seen_at at activity) (row_of id t))
        × (other_rows id r.1 ≡ other_rows id t)
        × (held id r.1
            ≡ map (λ (l : Lease). record l { expires_at = saturating_add at ttl }) (held id t))
        × (other_leases id r.1 ≡ other_leases id t))
      ⊎ ((has_session id t.sessions ≡ false) × (r ≡ (err (session_evicted id), t)))
unfolding heartbeat
heartbeat-roster id activity at ttl t = elim (Bool-cases (has_session id t.sessions)) [
  | inl e ↦
      let (own, others) = refreshed id activity at t.sessions in
      inl (
        rw (e, heartbeat)
          (
            refl,
            refl,
            own,
            others,
            renewed id (saturating_add at ttl) t.leases,
            unrenewed id (saturating_add at ttl) t.leases,
          ))
  | inr e ↦ inr (e, rw (e, heartbeat) refl)
]

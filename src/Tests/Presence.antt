-- ===== src/Tests/Presence.antt =====
-- crates/neo-store/src/presence.rs: two sessions and the managed browser.
use mathlib.Core.List.{Perm}
use starkbot_neo.Common.{
  ℕ, ◌-◌, String, ◌≡◌, refl, ◌⊎◌, true, false, none, some, [], ◌∷◌, map, arith,
}
use starkbot_neo.Common.Tests.{leb}
use starkbot_neo.Common.Lists.{keep_if}
use starkbot_neo.Common.Result.{ok, err}
use starkbot_neo.Presence.{
  Row, Lease, Tables, chrome, claim, acquire, upsert_lease, holder, sessions, heartbeat,
  has_session, saturating_add, session_evicted, read_row,
}
use starkbot_neo.Presence.Steps.{lists, acquires, departs, perform, perform_all}
use starkbot_neo.Cards.Apart.{not_eq}
use starkbot_neo.Presence.Leases.{acquire-kept}
use starkbot_neo.Presence.Constraints.{IsConsistent, perform-IsConsistent}
use starkbot_neo.Presence.Roster.{
  IsNewestFirst, row_of, other_rows, other_leases, seen_at, held, sessions-roster, heartbeat-roster,
}

abbrev row : String → ℕ → Row
row id seen = record {
  id = id;
  kind = "tui";
  pid = 101;
  host = "laptop";
  activity = none;
  started_at = 10;
  last_seen = seen;
}

abbrev tables : Tables
tables = record { sessions = row "a" 10 ∷ row "b" 20 ∷ []; leases = [] }

abbrev lease : Lease
lease = record {
  resource = "chrome";
  holder = "a";
  reason = none;
  acquired_at = 30;
  expires_at = 60;
}

abbrev leased : Tables
leased = record tables { leases = lease ∷ [] }

taken : (acquire chrome "a" none 30 30 tables).0 ≡ ok (some lease)
unfolding acquire upsert_lease
taken = refl

acquire-kept_example :
    let after =
      perform_all
        (lists 50 10 ∷ acquires chrome "b" none 55 9 ∷ [])
        (acquire chrome "a" none 30 30 tables).1 in
    (lease ≡ claim chrome "a" none 30 30)
    × (holder chrome 60 after ≡ some lease)
    × (acquire chrome "b" none 60 9 after ≡ (ok none, after))
acquire-kept_example =
    acquire-kept chrome "a" none 30 30 tables lease
      (lists 50 10 ∷ acquires chrome "b" none 55 9 ∷ []) 60 "b" none 9 taken
      (omega arith, ((not_eq "b" "a" refl, omega arith), tt)) (omega arith) (not_eq "b" "a" refl)

leased-IsConsistent : IsConsistent leased
leased-IsConsistent = (((refl, tt), (tt, tt)), (tt, tt), (refl, tt))

perform-IsConsistent_example : IsConsistent (perform (departs "a") leased)
perform-IsConsistent_example = perform-IsConsistent (departs "a") leased leased-IsConsistent

sessions-roster_example :
    let roster = (sessions 40 25 leased).0 in
    IsNewestFirst roster
    × Perm roster (map read_row (keep_if (λ s. leb (40 - 25) s.last_seen) leased.sessions))
sessions-roster_example = sessions-roster 40 25 leased

heartbeat-roster_example :
    let r = heartbeat "a" (some "mail") 40 30 leased in
    ((has_session "a" leased.sessions ≡ true)
      × (r.0 ≡ ok tt)
      × (row_of "a" r.1 ≡ map (seen_at 40 (some "mail")) (row_of "a" leased))
      × (other_rows "a" r.1 ≡ other_rows "a" leased)
      × (held "a" r.1
          ≡ map (λ (l : Lease). record l { expires_at = saturating_add 40 30 }) (held "a" leased))
      × (other_leases "a" r.1 ≡ other_leases "a" leased))
    ⊎ ((has_session "a" leased.sessions ≡ false) × (r ≡ (err (session_evicted "a"), leased)))
heartbeat-roster_example = heartbeat-roster "a" (some "mail") 40 30 leased

-- ===== src/Presence.antt =====
-- crates/neo-store/src/presence.rs over migrations/0005_presence_and_leases.sql: the roster of
-- processes and the leases. The two tables are lists of rows, each SQL statement a function on
-- them, and a transaction that fails leaves them as they were. Times are milliseconds from 0.
pub mod Kind
pub mod Steps
pub mod Constraints
pub mod Leases
pub mod Roster
use starkbot_neo.Common.{
  ℕ, ◌+◌, ◌-◌, String, Bool, true, false, not, ◌&&◌, ◌||◌, Option, none, some, List, [], ◌∷◌, map,
  str_eq,
}
use starkbot_neo.Common.Tests.{ltb, leb, if◌then◌else◌}
use starkbot_neo.Common.Lists.{any, keep_if, find_if}
use starkbot_neo.Common.Result.{Result, ok, err}
use starkbot_neo.Json.{or_else}

pub data SessionKind : Type 0 where
  tui desktop cli eval test : SessionKind

unfoldable pub as_str : SessionKind → String
as_str tui = "tui"
as_str desktop = "desktop"
as_str cli = "cli"
as_str eval = "eval"
as_str test = "test"

unfoldable pub parse : String → Option SessionKind
parse s =
    if str_eq s "tui"
    then some tui
    else if str_eq s "desktop"
    then some desktop
    else if str_eq s "cli"
    then some cli
    else if str_eq s "eval"
    then some eval
    else if str_eq s "test"
    then some test
    else none

-- A row of `sessions`, with the kind as the table has it.
pub record Row : Type 0 where
  pub id : String
  pub kind : String
  pub pid : ℕ
  pub host : String
  pub activity : Option String
  pub started_at : ℕ
  pub last_seen : ℕ

pub record Session : Type 0 where
  pub id : String
  pub kind : SessionKind
  pub pid : ℕ
  pub host : String
  pub activity : Option String
  pub started_at : ℕ
  pub last_seen : ℕ

pub record Lease : Type 0 where
  pub resource : String
  pub holder : String
  pub reason : Option String
  pub acquired_at : ℕ
  pub expires_at : ℕ

pub record Tables : Type 0 where
  pub sessions : List Row
  pub leases : List Lease

pub data Resource : Type 0 where
  chrome : Resource

abbrev pub key : Resource → String
key chrome = "chrome"

pub data StoreError : Type 0 where
  session_evicted : String → StoreError
  foreign_key : StoreError  -- the constraint on `leases.holder`

abbrev i64_max : ℕ
i64_max = 9_223_372_036_854_775_807

abbrev pub saturating_add : ℕ → ℕ → ℕ
saturating_add a b = if leb (a + b) i64_max then a + b else i64_max

abbrev pub has_session : String → List Row → Bool
has_session id rows = any (λ (s : Row). str_eq s.id id) rows

-- INSERT INTO sessions … ON CONFLICT(id) DO UPDATE SET last_seen = excluded.last_seen.
unfoldable pub upsert_session : Row → List Row → List Row
upsert_session row [] = row ∷ []
upsert_session row (s ∷ rows) =
    let rest = upsert_session row rows in
    if str_eq s.id row.id then record s { last_seen = row.last_seen } ∷ rows else s ∷ rest

unfoldable pub announce : String → SessionKind → ℕ → String → ℕ → Tables → Session × Tables
unfolding as_str
announce id kind pid host at t = (
  record {
    id = id;
    kind = kind;
    pid = pid;
    host = host;
    activity = none;
    started_at = at;
    last_seen = at;
  },
  record t {
    sessions =
        upsert_session
          (record {
            id = id;
            kind = as_str kind;
            pid = pid;
            host = host;
            activity = none;
            started_at = at;
            last_seen = at;
          })
          t.sessions;
  },
)

-- COALESCE(?, activity).
abbrev coalesce : Option String → Option String → Option String
coalesce none old = old
coalesce (some a) old = some a

abbrev pub refresh_session : String → Option String → ℕ → Row → Row
refresh_session id activity at s =
    if str_eq s.id id
    then record s { last_seen = at; activity = coalesce activity s.activity }
    else s

abbrev pub renew : String → ℕ → Lease → Lease
renew id expires l = if str_eq l.holder id then record l { expires_at = expires } else l

unfoldable pub heartbeat :
    String → Option String → ℕ → ℕ → Tables → Result StoreError (Unit {0}) × Tables
heartbeat id activity at ttl t =
    if has_session id t.sessions
    then (
      ok tt,
      record {
        sessions = map (refresh_session id activity at) t.sessions;
        leases = map (renew id (saturating_add at ttl)) t.leases;
      },
    )
    else (err (session_evicted id), t)

-- DELETE FROM sessions WHERE …, with the leases that cascade.
unfoldable pub delete_sessions : (Row → Bool) → Tables → Tables
delete_sessions gone t = record {
  sessions = keep_if (λ s. not (gone s)) t.sessions;
  leases =
      keep_if (λ (l : Lease). not (any (λ s. gone s && str_eq s.id l.holder) t.sessions)) t.leases;
}

-- ORDER BY last_seen DESC.
unfoldable pub insert_newest : Row → List Row → List Row
insert_newest s [] = s ∷ []
insert_newest s (r ∷ rows) =
    let rest = insert_newest s rows in
    if leb r.last_seen s.last_seen then s ∷ r ∷ rows else r ∷ rest

unfoldable pub newest_first : List Row → List Row
newest_first [] = []
newest_first (s ∷ rows) = insert_newest s (newest_first rows)

unfoldable pub read_row : Row → Session
unfolding parse
read_row s = record {
  id = s.id;
  kind = or_else cli (parse s.kind);
  pid = s.pid;
  host = s.host;
  activity = s.activity;
  started_at = s.started_at;
  last_seen = s.last_seen;
}

-- `id IN (SELECT holder FROM leases WHERE expires_at >= now)`.
abbrev pub holds_one : List Lease → ℕ → String → Bool
holds_one leases now id = any (λ (l : Lease). leb now l.expires_at && str_eq l.holder id) leases

-- Prune the roster, then return who was seen lately.
unfoldable pub sessions : ℕ → ℕ → Tables → List Session × Tables
unfolding read_row
sessions now stale_after t =
    let cutoff = now - stale_after in
    let left =
      delete_sessions (λ s. ltb s.last_seen cutoff && not (holds_one t.leases now s.id)) t in
    (map read_row (newest_first (keep_if (λ s. leb cutoff s.last_seen) left.sessions)), left)

-- INSERT INTO leases … ON CONFLICT(resource) DO UPDATE … WHERE: no list where no row changes.
unfoldable pub upsert_lease : Lease → ℕ → List Lease → Option (List Lease)
upsert_lease row at [] = some (row ∷ [])
upsert_lease row at (l ∷ leases) =
    let rest = upsert_lease row at leases in
    if str_eq l.resource row.resource
    then (if str_eq l.holder row.holder || ltb l.expires_at at then some (row ∷ leases) else none)
    else elim rest [ none ↦ none | some ls ↦ some (l ∷ ls) ]

abbrev pub claim : Resource → String → Option String → ℕ → ℕ → Lease
claim resource holder reason at ttl = record {
  resource = key resource;
  holder = holder;
  reason = reason;
  acquired_at = at;
  expires_at = saturating_add at ttl;
}

-- Take a claim, or nothing where somebody else has it.
unfoldable pub acquire :
    Resource → String → Option String → ℕ → ℕ → Tables → Result StoreError (Option Lease) × Tables
acquire resource holder reason at ttl t =
    let lease = claim resource holder reason at ttl in
    elim (upsert_lease lease at t.leases) [
      | none ↦ (ok none, t)
      | some leases ↦
          if has_session holder t.sessions
          then (ok (some lease), record t { leases = leases })
          else (err foreign_key, t)
    ]

unfoldable pub holder : Resource → ℕ → Tables → Option Lease
holder resource now t =
    find_if (λ (l : Lease). str_eq l.resource (key resource) && leb now l.expires_at) t.leases

unfoldable pub release : Resource → String → Tables → Tables
release resource holder t = record t {
  leases =
      keep_if (λ (l : Lease). not (str_eq l.resource (key resource) && str_eq l.holder holder))
        t.leases;
}

unfoldable pub depart : String → Tables → Tables
depart id t = delete_sessions (λ s. str_eq s.id id) t

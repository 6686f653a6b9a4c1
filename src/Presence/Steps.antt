-- ===== src/Presence/Steps.antt =====
-- crates/neo-store/src/presence.rs: what the processes do to the tables in turn.
use starkbot_neo.Common.{ℕ, ◌≤◌, String, ◌≢◌, Option, List, [], ◌∷◌}
use starkbot_neo.Presence.{
  SessionKind, Resource, Tables, announce, heartbeat, sessions, acquire, release, depart,
}

pub data Op : Type 0 where
  announces : String → SessionKind → ℕ → String → ℕ → Op
  heartbeats : String → Option String → ℕ → ℕ → Op
  lists : ℕ → ℕ → Op
  acquires : Resource → String → Option String → ℕ → ℕ → Op
  releases : Resource → String → Op
  departs : String → Op

abbrev pub perform : Op → Tables → Tables
perform (announces id kind pid host at) t = (announce id kind pid host at t).1
perform (heartbeats id activity at ttl) t = (heartbeat id activity at ttl t).1
perform (lists now stale) t = (sessions now stale t).1
perform (acquires resource holder reason at ttl) t = (acquire resource holder reason at ttl t).1
perform (releases resource holder) t = release resource holder t
perform (departs id) t = depart id t

abbrev pub perform_all : List Op → Tables → Tables
perform_all [] t = t
perform_all (op ∷ ops) t = perform_all ops (perform op t)

-- Another session's doing, no later than the time given.
abbrev pub IsOther : String → ℕ → Op → Type 0
IsOther me end (announces id kind pid host at) = Unit
IsOther me end (heartbeats id activity at ttl) = id ≢ me
IsOther me end (lists now stale) = now ≤ end
IsOther me end (acquires resource holder reason at ttl) = (holder ≢ me) × (at ≤ end)
IsOther me end (releases resource holder) = holder ≢ me
IsOther me end (departs id) = id ≢ me

-- ===== src/Tests/Screen.antt =====
-- crates/neo-agent/src/screen.rs: two processes over one lock file.
use starkbot_neo.Common.{ℕ, ◌≡◌, ◌≢◌, refl, Bool, true, false, Option, none, some, arith}
use starkbot_neo.Common.Tests.{◌==◌, if◌then◌else◌}
use starkbot_neo.Common.Result.{ok}
use starkbot_neo.Screen.{Held, Process, Os, acquire_within, take_lock, release}
use starkbot_neo.Screen.Machine.{Machine, IsFlock, acquired, acquire, Reaches, onward, still}
use starkbot_neo.Screen.Exclusion.{exclusive}
use starkbot_neo.Screen.Nesting.{release-acquire_within}

-- A lock file that says who has the lock, with no record in it.
abbrev File : Type 0
File = Option ℕ

abbrev locked_by : ℕ → File → Bool
locked_by i none = false
locked_by i (some j) = i == j

abbrev try : ℕ → File → Bool × File
try i none = (true, some i)
try i (some j) = if i == j then (true, some j) else (false, some j)

abbrev let_go : ℕ → File → File
let_go i none = none
let_go i (some j) = if i == j then none else some j

abbrev os : Os File
os = record {
  can_open = λ i f. true;
  can_read = λ i f. true;
  try_exclusive = try;
  try_shared = λ i f. true;
  write_holder = λ i h f. f;
  read_holder = λ f. none;
  set_len_zero = λ i f. f;
  close = let_go;
}

locked_by-given : (i : ℕ) (f : File) → (try i f).0 ≡ true → locked_by i (try i f).1 ≡ true
locked_by-given i none h = ground arith
locked_by-given i (some j) h = ground arith

locked_by-excludes : (i j : ℕ) (f : File) → (try i f).0 ≡ true → j ≢ i → locked_by j f ≡ false
locked_by-excludes i j none h n = refl
locked_by-excludes i j (some k) h n = ground arith

locked_by-other : (i j : ℕ) (f : File) → j ≢ i → locked_by j (try i f).1 ≡ locked_by j f
locked_by-other i j none n = ground arith
locked_by-other i j (some k) n = ground arith

locked_by-refused :
    (i : ℕ) (f : File) → (try i f).0 ≡ false → locked_by i (try i f).1 ≡ locked_by i f
locked_by-refused i none h = ground arith
locked_by-refused i (some j) h = ground arith

locked_by-free : (i : ℕ) (f : File) → ((j : ℕ) → locked_by j f ≡ false) → (try i f).0 ≡ true
locked_by-free i none h = refl
locked_by-free i (some j) h = ground (arith, h j)

locked_by-closed : (i : ℕ) (f : File) → locked_by i (let_go i f) ≡ false
locked_by-closed i none = refl
locked_by-closed i (some j) = ground arith

locked_by-closed_other : (i j : ℕ) (f : File) → j ≢ i → locked_by j (let_go i f) ≡ locked_by j f
locked_by-closed_other i j none n = refl
locked_by-closed_other i j (some k) n = ground arith

flock : IsFlock os locked_by
flock = record {
  given = locked_by-given;
  excludes = locked_by-excludes;
  try_other = locked_by-other;
  refused = locked_by-refused;
  try_free = locked_by-free;
  written = λ i j h f. refl;
  truncated = λ i j f. refl;
  closed = locked_by-closed;
  closed_other = locked_by-closed_other;
}

abbrev idle : Process
idle = record { pid = 7; surface = "neo-tui"; state = none; next_scope = 1 }

abbrev start : Machine File
start = record { process = λ i. idle; file = none }

abbrev held : Held
held = record {
  holder = record { pid = 7; surface = "neo-tui"; run = "r1"; what = "drive TextEdit"; since = 5 };
  depth = 1;
  scope = 1;
}

-- Process 0 takes the screen, and process 1 is refused.
unfoldable after : Machine File
after = acquired os 1 none "r2" "eval suite" 6 (acquired os 0 none "r1" "drive TextEdit" 5 start)

steps : Reaches os start after
unfolding after
steps =
    onward (acquire 1 none "r2" "eval suite" 6)
      (onward (acquire 0 none "r1" "drive TextEdit" 5) still)

after_0 : (after.process 0).state ≡ some held
unfolding after acquired acquire_within take_lock
after_0 = refl

exclusive_example : (◌≡◌ {A = ℕ} 0 0) × (locked_by 0 after.file ≡ true)
exclusive_example =
    exclusive os locked_by flock start after 0 0 held held (λ k. refl) (λ k. refl) steps after_0
      after_0

abbrev holding : Process
holding = record idle { state = some held; next_scope = 2 }

granted :
    (acquire_within os 0 (some 1) "r9" "a case" 8 holding (some 0)).0 ≡ ok (record { scope = 1 })
unfolding acquire_within
granted = refl

release-acquire_within_example :
    let r = acquire_within os 0 (some 1) "r9" "a case" 8 holding (some 0) in
    (release os 0 r.1 r.2).0.state ≡ some held
release-acquire_within_example =
    release-acquire_within os 0 (some 1) "r9" "a case" 8 holding (some 0) (record { scope = 1 })
      (λ h e. ground arith) granted

-- A process that has given out the scopes up to 4.
abbrev later : Process
later = record idle { next_scope = 5 }

taken :
    (acquire_within os 0 none "r1" "drive TextEdit" 5 later none).1.state
    ≡ some (record held { scope = 5 })
unfolding acquire_within take_lock
taken = refl

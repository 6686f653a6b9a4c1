-- ===== src/Nav/Gate.antt =====
-- crates/jev-nav/src/gate.rs: the deterministic layer between a decision and the surface.
pub mod Actions
pub mod Drift
pub mod Hosts
use starkbot_neo.Common.{
  ℕ, suc, ◌+◌, String, Bool, true, false, not, ◌&&◌, ◌||◌, Option, none, some, List, [], ◌∷◌, ◌++◌,
  str_eq,
}
use mathlib.Core.Option
use starkbot_neo.Common.Tests.{ltb, leb, if◌then◌else◌}
use starkbot_neo.Common.Lists.{any}
use starkbot_neo.Common.Text.{codes, lower_codes, to_ascii_lowercase, trim, codes_eq, ends_with}
use starkbot_neo.Common.Float.{F64, f64_zero, f64_one, f64_ge, f64_le}
use starkbot_neo.Common.Map.{lookup, string_ord}
use starkbot_neo.Json.{Json, index, get, get_str, as_str, as_u64, or_else}
use starkbot_neo.Nav.Words.{confirm_word}
use starkbot_neo.Nav.Rules.{safety, on_task_head}
use starkbot_neo.Nav.Externals.{Externals, Url}
use starkbot_neo.Nav.Decision.{Action, Decision}

abbrev pub max_off_task_strikes : ℕ
max_off_task_strikes = 2

pub data ConfirmReason : Type 0 where
  safety_head : String → F64 → ConfirmReason
  label : String → ConfirmReason
  first_upload : String → ConfirmReason

pub data NeedsUser : Type 0 where
  sign_in captcha : NeedsUser
  value : String → NeedsUser

pub data BlockReason : Type 0 where
  no_operation no_progress off_task : BlockReason
  denied_origin : String → BlockReason
  not_web : String → BlockReason
  no_action : BlockReason
  unstable : String → BlockReason
  unanswered : BlockReason
  budget : String → BlockReason

pub data Verdict : Type 0 where
  allow : Verdict
  confirm : ConfirmReason → Verdict
  hand : NeedsUser → Verdict
  refuse : BlockReason → Verdict

-- `off_task_strikes` is a u32 that a run stops at 2, so it does not wrap.
pub record Gate : Type 0 where
  pub confirm_at : F64
  pub safety_heads : Bool
  pub denied_origins : List String
  pub approved_uploads : List String
  pub off_task_strikes : ℕ

unfoldable pub new : F64 → Bool → List String → Gate
new confirm_at safety_heads denied_origins = record {
  confirm_at = confirm_at;
  safety_heads = safety_heads;
  denied_origins = denied_origins;
  approved_uploads = [];
  off_task_strikes = 0;
}

-- `observation["signals"][name].as_u64().unwrap_or(0)`.
unfoldable pub signal : Json → String → ℕ
unfolding index
signal observation name = or_else 0 (as_u64 (index (index observation "signals") name))

-- What the page itself demands, before any decision is considered.
unfoldable pub page : Json → Option NeedsUser
unfolding signal
page observation =
    if ltb 0 (signal observation "captcha")
    then some captcha
    else if ltb 0 (signal observation "password_fields")
    then some sign_in
    else none

abbrev pub contains : List String → String → Bool
contains xs s = any (λ x. str_eq x s) xs

infixl 5 ◌>>=◌
abbrev ◌>>=◌ {ℓ κ} : {A : Type ℓ} {B : Type κ} → Option A → (A → Option B) → Option B
none >>= f = none
some a >>= f = f a

unfoldable pub host_of : Externals → String → Option String
host_of x s = x.parse_url s >>= λ url. url.host

unfoldable pub frame_host : Externals → Action → Option String
unfolding get_str host_of
frame_host x action = get_str action "frame" >>= host_of x

-- The host an action belongs to: its own frame's, or the page's.
unfoldable pub origin_of : Externals → Action → String → String
unfolding frame_host host_of
origin_of x action page_url = elim (frame_host x action) [
  | some host ↦ host
  | none ↦ or_else "this page" (host_of x page_url)
]

-- Whether one entry of the list of denied hosts covers a host in lower case.
unfoldable pub covers : String → String → Bool
unfolding trim ends_with
covers host entry =
    let e = lower_codes (trim (codes entry)) in
    not (codes_eq e [])
    && (codes_eq (codes host) e || ends_with (codes host) (b'.' ∷ e) || codes_eq e (codes "*"))

abbrev pub is_denied : List String → String → Bool
is_denied entries host = any (covers host) entries

unfoldable pub refuse_denied : Gate → String → Option Verdict
refuse_denied g host =
    if is_denied g.denied_origins host then some (refuse (denied_origin host)) else none

unfoldable pub check_url : Gate → Url → Option Verdict
unfolding refuse_denied
check_url g url =
    if str_eq url.scheme "http" || str_eq url.scheme "https"
    then (url.host >>= λ host. refuse_denied g (to_ascii_lowercase host))
    else some (refuse (not_web url.scheme))

-- Where a click would take the run, when the action carries a destination.
unfoldable pub destination : Externals → Gate → Action → Option Verdict
destination x g action = do href ← get_str action "href"; url ← x.parse_url href; check_url g url

-- The first risk head that reaches the threshold. A head with no answer counts as 1.0.
unfoldable pub risky_head :
    F64 → List (String × F64) → List (String × String) → Option ConfirmReason
unfolding lookup f64_ge
risky_head confirm_at answers [] = none
risky_head confirm_at answers ((head, _) ∷ heads) =
    let probability = or_else f64_one (lookup head answers) in
    if f64_ge probability confirm_at
    then some (safety_head head probability)
    else risky_head confirm_at answers heads

-- The guards of `action` behind the label.
unfoldable pub upload_guard : Externals → Gate → Action → String → Option ConfirmReason
unfolding get_str
upload_guard x g action page_url =
    if str_eq (or_else "" (get_str action "kind")) "upload"
    then (if contains g.approved_uploads (origin_of x action page_url)
        then none
        else some (first_upload (origin_of x action page_url)))
    else none

unfoldable pub head_guard : Gate → Decision → Option ConfirmReason
head_guard g decision =
    if g.safety_heads then risky_head g.confirm_at decision.safety safety else none

-- What one decision is allowed to do.
unfoldable pub action : Externals → Gate → Decision → Action → String → Verdict
unfolding get_str
action x g decision act page_url = elim (destination x g act) [
  | some verdict ↦ verdict
  | none ↦
      let kind = or_else "" (get_str act "kind") in
      if str_eq kind "wait" || str_eq kind "scroll"
      then allow
      else elim (confirm_word x.is_alphanumeric (or_else "" (get_str act "label"))) [
        | some word ↦ confirm (label word)
        | none ↦ elim (upload_guard x g act page_url) [
          | some reason ↦ confirm reason
          | none ↦ elim (head_guard g decision) [ some reason ↦ confirm reason | none ↦ allow ]
        ]
      ]
]

-- Record that the user approved an action: an upload's origin is remembered, nothing else.
unfoldable pub approve : Externals → Gate → Action → String → Gate
unfolding get_str origin_of
approve x g act page_url =
    if str_eq (or_else "" (get_str act "kind")) "upload"
    then record g { approved_uploads = g.approved_uploads ++ origin_of x act page_url ∷ [] }
    else g

-- The tripwire for drift: the gate with its strikes, and the reason that ends the run.
unfoldable pub on_task : Gate → List (String × F64) → F64 → Gate × Option BlockReason
on_task g answers floor =
    if f64_le floor f64_zero
    then (g, none)
    else if f64_ge (or_else f64_zero (lookup on_task_head.0 answers)) floor
    then (record g { off_task_strikes = 0 }, none)
    else (
      record g { off_task_strikes = g.off_task_strikes + 1 },
      if leb max_off_task_strikes (g.off_task_strikes + 1) then some off_task else none,
    )

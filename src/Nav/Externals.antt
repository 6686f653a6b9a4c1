-- ===== src/Nav/Externals.antt =====
-- What the navigator takes from other crates, and Rust's tables and arithmetic that it uses.
use starkbot_neo.Common.{ℕ, String, Bool, Option}
use starkbot_neo.Common.Float.{F64}
use starkbot_neo.Json.{Json}

-- What the crate `url` makes of an absolute URL: its scheme and its host.
pub record Url : Type 0 where
  pub scheme : String
  pub host : Option String

pub record Externals : Type 0 where
  pub parse_url : String → Option Url  -- `url::Url::parse(s).ok()`
  pub is_alphanumeric : ℕ → Bool  -- `char::is_alphanumeric`
  pub to_uppercase : String → String  -- `str::to_uppercase`
  pub to_string : Json → String  -- serde_json's printer
  pub add : F64 → F64 → F64
  pub sub : F64 → F64 → F64
  pub from_u64 : ℕ → F64  -- `n as f64`
  pub from_neg : ℕ → F64  -- -(n + 1) as f64

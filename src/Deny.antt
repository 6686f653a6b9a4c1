-- ===== src/Deny.antt =====
-- crates/neo-ax/src/deny.rs: the applications that are never read or driven. `to_lowercase` of a text
-- is Unicode's, and a parameter; a process identifier is a number.
pub mod Extra
use starkbot_neo.Common.{
  ℕ, String, Bool, true, false, not, ◌&&◌, ◌||◌, Option, none, some, List, [], ◌∷◌, str_eq,
}
use starkbot_neo.Common.Tests.{◌==◌, if◌then◌else◌}
use starkbot_neo.Common.Lists.{any}
use starkbot_neo.Common.Text.{codes, lower_codes, codes_eq, codes_prefix, contains}

abbrev pub denied_bundle_ids : List String
denied_bundle_ids =
    "com.apple.Terminal" ∷ "com.googlecode.iterm2" ∷ "dev.warp.Warp-Stable"
    ∷ "com.mitchellh.ghostty" ∷ "net.kovidgoyal.kitty" ∷ "org.alacritty" ∷ "com.github.wez.wezterm"
    ∷ "co.zeit.hyper" ∷ "org.tabby" ∷ "com.microsoft.VSCode" ∷ "com.microsoft.VSCodeInsiders"
    ∷ "com.vscodium" ∷ "com.todesktop.230313mzl4w4u92" ∷ "com.exafunction.windsurf" ∷ "dev.zed.Zed"
    ∷ "com.panic.Nova" ∷ "com.apple.ScriptEditor2" ∷ "com.apple.Automator" ∷ "com.apple.shortcuts"
    ∷ "com.apple.keychainaccess" ∷ "com.apple.Passwords" ∷ "com.agilebits.onepassword7"
    ∷ "com.1password.1password" ∷ "com.bitwarden.desktop" ∷ "com.apple.systempreferences"
    ∷ "com.apple.SystemProfiler" ∷ "Alacritty" ∷ "kitty" ∷ "foot" ∷ "footclient"
    ∷ "org.wezfurlong.wezterm" ∷ "org.gnome.Terminal" ∷ "org.gnome.Console" ∷ "org.kde.konsole"
    ∷ "code" ∷ "code-url-handler" ∷ "org.gnome.seahorse.Application" ∷ "org.kde.kwalletmanager5"
    ∷ []

abbrev pub denied_prefixes : List String
denied_prefixes = "com.jetbrains." ∷ "com.google.android.studio" ∷ "jetbrains-" ∷ []

abbrev pub denied_names : List String
denied_names =
    "terminal" ∷ "iterm" ∷ "iterm2" ∷ "warp" ∷ "ghostty" ∷ "kitty" ∷ "alacritty" ∷ "wezterm"
    ∷ "hyper" ∷ "tabby" ∷ "visual studio code" ∷ "code" ∷ "cursor" ∷ "windsurf" ∷ "vscodium" ∷ "zed"
    ∷ "nova" ∷ "script editor" ∷ "automator" ∷ "shortcuts" ∷ "keychain access" ∷ "passwords"
    ∷ "system settings" ∷ []

-- What the policy reads of an application.
pub record AppInfo : Type 0 where
  pub pid : ℕ
  pub bundle_id : Option String
  pub name : String

pub record AxPolicy : Type 0 where
  pub extra : List String
  pub own_pid : ℕ

-- `AxPolicy::new`.
abbrev pub new_policy : ℕ → AxPolicy
new_policy pid = record { extra = []; own_pid = pid }

-- `eq_ignore_ascii_case`.
unfoldable pub eq_ignore_ascii_case : String → String → Bool
eq_ignore_ascii_case a b = codes_eq (lower_codes (codes a)) (lower_codes (codes b))

-- The built-in lists of identities.
unfoldable pub is_listed_id : (String → String) → String → Bool
is_listed_id lower bundle =
    any (λ d. eq_ignore_ascii_case d bundle) denied_bundle_ids
    || any (λ p. codes_prefix (codes p) (codes (lower bundle))) denied_prefixes

-- What the identity of an application is matched against.
unfoldable pub is_denied_id : (String → String) → List String → String → Bool
is_denied_id lower extra bundle =
    is_listed_id lower bundle || any (λ e. eq_ignore_ascii_case e bundle) extra

abbrev pub is_denied_bundle : (String → String) → List String → Option String → Bool
is_denied_bundle lower extra none = false
is_denied_bundle lower extra (some bundle) = is_denied_id lower extra bundle

unfoldable pub is_listed_name : String → Bool
is_listed_name name = any (λ d. str_eq d name) denied_names

-- What its name is matched against; `name` is in lower case.
unfoldable pub is_denied_name : (String → String) → List String → String → Bool
is_denied_name lower extra name =
    is_listed_name name || any (λ e. not (str_eq (lower e) "") && contains name (lower e)) extra

unfoldable pub is_denied : (String → String) → AxPolicy → AppInfo → Bool
is_denied lower policy app =
    if app.pid == policy.own_pid
    then true
    else (if is_denied_bundle lower policy.extra app.bundle_id
        then true
        else is_denied_name lower policy.extra (lower app.name))

abbrev pub chrome_family : List String
chrome_family =
    "com.google.Chrome" ∷ "com.google.Chrome.beta" ∷ "com.google.Chrome.canary"
    ∷ "org.chromium.Chromium" ∷ "com.brave.Browser" ∷ "com.microsoft.edgemac"
    ∷ "company.thebrowser.Browser" ∷ "com.vivaldi.Vivaldi" ∷ "com.operasoftware.Opera" ∷ "chromium"
    ∷ "chromium-browser" ∷ "google-chrome" ∷ "google-chrome-beta" ∷ "google-chrome-unstable"
    ∷ "brave-browser" ∷ "microsoft-edge" ∷ "vivaldi-stable" ∷ []

-- `is_chrome_family`.
unfoldable pub is_chrome_family : AppInfo → Bool
is_chrome_family app = elim app.bundle_id [
  | none ↦ false
  | some bundle ↦ any (λ c. eq_ignore_ascii_case c bundle) chrome_family
]

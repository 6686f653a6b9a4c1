-- ===== src/Nav/Gate/Hosts.antt =====
-- crates/jev-nav/src/gate.rs: destinations, the denied hosts, and the uploads a person approved.
use starkbot_neo.Common.{
  ℕ, String, ◌≡◌, refl, ◌↔◌, ◌⊎◌, inl, inr, ◌≢◌, Bool, true, false, not, ◌||◌, none, some, List, [],
  ◌∷◌, ◌++◌, arith, str_eq, eq_refl,
}
use starkbot_neo.Common.Tests.{Option-cases}
use starkbot_neo.Common.Lists.{any}
use starkbot_neo.Common.Text.{codes, lower_codes, to_ascii_lowercase, trim, codes_eq, ends_with}
use starkbot_neo.Json.{get_str, or_else}
use starkbot_neo.Nav.Externals.{Externals, Url}
use starkbot_neo.Nav.Decision.{Action}
use starkbot_neo.Nav.Gate.{
  Gate, approve, destination, check_url, covers, is_denied, upload_guard, origin_of,
}

-- The action carries a destination that parses as the URL.
abbrev pub Leads : Externals → Action → Url → Type 0
Leads x act url = (href : String) × (get_str act "href" ≡ some href) × (x.parse_url href ≡ some url)

-- A web page on a host that is not denied, or on no host.
abbrev pub IsPermitted : Gate → Url → Type 0
IsPermitted g url =
    ((str_eq url.scheme "http" || str_eq url.scheme "https") ≡ true)
    × ((host : String)
        → url.host ≡ some host
        → is_denied g.denied_origins (to_ascii_lowercase host) ≡ false)

check_url-none_iff : (g : Gate) (url : Url) → (check_url g url ≡ none) ↔ IsPermitted g url
unfolding check_url
check_url-none_iff g url = (
  λ h. (ground arith, λ host e. ground arith),
  λ p. elim (Option-cases url.host) [ inl e ↦ ground arith | inr (h, e) ↦ ground (arith, p.1 h e) ],
)

-- The destination is no objection exactly when every URL that the action leads to is permitted.
pub destination-none_iff :
    (x : Externals) (g : Gate) (act : Action)
    → (destination x g act ≡ none) ↔ ((url : Url) → Leads x act url → IsPermitted g url)
unfolding destination
destination-none_iff x g act = (
  λ h url (href, e, q). (check_url-none_iff g url).0 (ground arith),
  λ p. elim (Option-cases (get_str act "href")) [
    | inl e ↦ ground arith
    | inr (href, e) ↦ elim (Option-cases (x.parse_url href)) [
      | inl q ↦ ground arith
      | inr (url, q) ↦ ground (arith, (check_url-none_iff g url).1 (p url (href, e, q)))
    ]
  ],
)

codes_eq_refl : (s : List ℕ) → codes_eq s s ≡ true
codes_eq_refl [] = refl
codes_eq_refl (c ∷ s) = ground (arith, codes_eq_refl s)

ends_with-append : (s t : List ℕ) → ends_with (s ++ t) t ≡ true
unfolding ends_with
ends_with-append [] [] = refl
ends_with-append [] (c ∷ t) = ground (arith, codes_eq_refl t)
ends_with-append (c ∷ s) t = ground (arith, ends_with-append s t)

not-nil : (s : List ℕ) → s ≢ [] → not (codes_eq s []) ≡ true
not-nil [] h = absurd (h refl)
not-nil (c ∷ s) h = refl

-- An entry as the list is read: white space trimmed, in lower case.
abbrev pub entry_codes : String → List ℕ
entry_codes entry = lower_codes (trim (codes entry))

covers_below :
    (entry host : String) (below : List ℕ)
    → entry_codes entry ≢ []
    → (codes host ≡ entry_codes entry) ⊎ (codes host ≡ below ++ (b'.' ∷ entry_codes entry))
    → covers host entry ≡ true
unfolding covers
covers_below entry host below ne (inl e) =
    rw e (ground (arith, codes_eq_refl (entry_codes entry), not-nil (entry_codes entry) ne))
covers_below entry host below ne (inr e) = rw e (
    ground
      (arith, ends_with-append below (b'.' ∷ entry_codes entry), not-nil (entry_codes entry) ne))

any-middle {ℓ} :
    {A : Type ℓ} (p : A → Bool) (xs ys : List A) (a : A) → p a ≡ true → any p (xs ++ a ∷ ys) ≡ true
any-middle p [] ys a h = ground arith
any-middle p (x ∷ xs) ys a h = ground (arith, any-middle p xs ys a h)

-- An entry that is not blank covers its own host and every host below it, wherever it stands.
pub is_denied-below :
    (before after : List String) (entry host : String) (below : List ℕ)
    → entry_codes entry ≢ []
    → (codes host ≡ entry_codes entry) ⊎ (codes host ≡ below ++ (b'.' ∷ entry_codes entry))
    → is_denied (before ++ entry ∷ after) host ≡ true
is_denied-below before after entry host below ne h =
    any-middle (covers host) before after entry (covers_below entry host below ne h)

-- An approval of an upload lets the next upload from the same place through that guard, and
-- changes nothing else of the gate; an approval of any other action changes nothing.
pub approve_lem :
    (x : Externals) (g : Gate) (act : Action) (url : String)
    → let h = approve x g act url in
      (upload_guard x h act url ≡ none)
      × (h.confirm_at ≡ g.confirm_at)
      × (h.safety_heads ≡ g.safety_heads)
      × (h.denied_origins ≡ g.denied_origins)
      × (h.off_task_strikes ≡ g.off_task_strikes)
      × ((str_eq (or_else "" (get_str act "kind")) "upload" ≡ true) ⊎ (h ≡ g))
unfolding upload_guard approve
approve_lem x g act url = ground (
  arith,
  any-middle (λ s. str_eq s (origin_of x act url)) g.approved_uploads [] (origin_of x act url)
      (eq_refl (origin_of x act url)),
)

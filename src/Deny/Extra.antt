-- ===== src/Deny/Extra.antt =====
-- crates/neo-ax/src/deny.rs: configuration only tightens what is denied.
use starkbot_neo.Common.{
  ℕ, String, ◌≡◌, refl, inl, inr, Bool, not, ◌&&◌, ◌||◌, List, [], ◌∷◌, ◌++◌, arith, str_eq,
}
use starkbot_neo.Common.Tests.{Option-cases}
use starkbot_neo.Common.Lists.{any}
use starkbot_neo.Deny.{
  AppInfo, is_listed_id, is_listed_name, eq_ignore_ascii_case, contains, is_denied_id,
  is_denied_name, is_denied,
}

any-append {ℓ} :
    {A : Type ℓ} (p : A → Bool) (xs ys : List A) → any p (xs ++ ys) ≡ (any p xs || any p ys)
any-append p [] ys = refl
any-append p (x ∷ xs) ys = ground (arith, any-append p xs ys)

or_both : (a c d : Bool) → (a || (c || d)) ≡ ((a || c) || (a || d))
or_both a c d = ground arith

is_denied_id-append :
    (lower : String → String) (xs ys : List String) (bundle : String)
    → is_denied_id lower (xs ++ ys) bundle
      ≡ (is_denied_id lower xs bundle || is_denied_id lower ys bundle)
unfolding is_denied_id
is_denied_id-append lower xs ys bundle =
    rw (any-append (λ e. eq_ignore_ascii_case e bundle) xs ys) (
      or_both (is_listed_id lower bundle) (any (λ e. eq_ignore_ascii_case e bundle) xs)
        (any (λ e. eq_ignore_ascii_case e bundle) ys))

is_denied_name-append :
    (lower : String → String) (xs ys : List String) (name : String)
    → is_denied_name lower (xs ++ ys) name
      ≡ (is_denied_name lower xs name || is_denied_name lower ys name)
unfolding is_denied_name
is_denied_name-append lower xs ys name =
    rw (any-append (λ e. not (str_eq (lower e) "") && contains name (lower e)) xs ys) (
      or_both (is_listed_name name)
        (any (λ e. not (str_eq (lower e) "") && contains name (lower e)) xs)
        (any (λ e. not (str_eq (lower e) "") && contains name (lower e)) ys))

-- An application is denied under two lists of extra entries together exactly when it is under one
-- of them: an entry of the configuration denies more applications, and never lets one through that
-- the built-in lists, the process's own identifier or another entry deny.
pub is_denied-append :
    (lower : String → String) (pid : ℕ) (xs ys : List String) (app : AppInfo)
    → is_denied lower (record { extra = xs ++ ys; own_pid = pid }) app ≡ (
        is_denied lower (record { extra = xs; own_pid = pid }) app
        || is_denied lower (record { extra = ys; own_pid = pid }) app)
unfolding is_denied
is_denied-append lower pid xs ys app =
    let name = is_denied_name-append lower xs ys (lower app.name) in
    elim (Option-cases app.bundle_id) [
      | inl n ↦ ground (arith, name)
      | inr (bundle, n) ↦
          let id = is_denied_id-append lower xs ys bundle in ground (arith, name, id, n)
    ]

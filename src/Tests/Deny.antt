-- ===== src/Tests/Deny.antt =====
-- crates/neo-ax/src/deny.rs: a terminal, an editor and a notebook.
use starkbot_neo.Common.{◌≡◌, refl, true, false, ◌||◌, some, [], ◌∷◌, ◌++◌}
use starkbot_neo.Common.Text.{to_ascii_lowercase, contains, contains_codes}
use starkbot_neo.Deny.{
  AppInfo, is_denied, is_denied_id, is_listed_id, is_denied_name, is_listed_name,
  eq_ignore_ascii_case,
}
use starkbot_neo.Deny.Extra.{is_denied-append}

abbrev notes : AppInfo
notes = record { pid = 40; bundle_id = some "com.example.notes"; name = "Notes" }

is_denied-append_example :
    is_denied to_ascii_lowercase
      (record { extra = ("note" ∷ []) ++ ("mail" ∷ []); own_pid = 7 })
      notes
    ≡ (is_denied to_ascii_lowercase (record { extra = "note" ∷ []; own_pid = 7 }) notes
        || is_denied to_ascii_lowercase (record { extra = "mail" ∷ []; own_pid = 7 }) notes)
is_denied-append_example = is_denied-append to_ascii_lowercase 7 ("note" ∷ []) ("mail" ∷ []) notes

-- An extra entry denies what the built-in lists let through.
notes-denied :
    is_denied to_ascii_lowercase (record { extra = "note" ∷ []; own_pid = 7 }) notes ≡ true
unfolding is_denied is_denied_id is_listed_id is_denied_name is_listed_name eq_ignore_ascii_case
    contains contains_codes to_ascii_lowercase
notes-denied = refl

notes-allowed : is_denied to_ascii_lowercase (record { extra = []; own_pid = 7 }) notes ≡ false
unfolding is_denied is_denied_id is_listed_id is_denied_name is_listed_name eq_ignore_ascii_case
    contains contains_codes to_ascii_lowercase
notes-allowed = refl

-- ===== src/Presence/Kind.antt =====
-- crates/neo-store/src/presence.rs, `SessionKind`: its text form.
use starkbot_neo.Common.{String, ◌≡◌, refl, ◌↔◌, some, arith, eq_iff}
use starkbot_neo.Presence.{SessionKind, tui, desktop, cli, eval, test, as_str, parse}

-- A text parses as a kind exactly when it is the kind's own text.
pub parse-as_str_iff : (s : String) (k : SessionKind) → (parse s ≡ some k) ↔ (s ≡ as_str k)
unfolding parse as_str
parse-as_str_iff s k = (to k, from k)
  where
    to : (k : SessionKind) → parse s ≡ some k → s ≡ as_str k
    to k h = grind (arith, eq_iff)

    from : (k : SessionKind) → s ≡ as_str k → parse s ≡ some k
    from tui e = rw e refl
    from desktop e = rw e refl
    from cli e = rw e refl
    from eval e = rw e refl
    from test e = rw e refl

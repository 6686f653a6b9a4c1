-- ===== src/Tests/Mode.antt =====
-- src-tauri/src/mode_control.rs: two requests, of which the window answers one.
use starkbot_neo.Common.{◌≡◌, refl, true, none, some, List, [], ◌∷◌}
use starkbot_neo.Common.Map.{lookup, put, nat_ord}
use starkbot_neo.Common.Result.{err}
use starkbot_neo.Mode.{
  to_mini, to_full, mini, window_closed, judge, complete, shutdown, end_request, request,
}
use starkbot_neo.Mode.Bounds.{
  Op, requests, completes, shuts, perform_all, empty, IsSound, empty-IsSound, perform_all-IsSound,
}
use starkbot_neo.Mode.Replies.{end_request_answered}

abbrev two : List Op
two = requests true true to_mini ∷ requests true true to_full ∷ []

abbrev later : List Op
later = completes true 2 mini none ∷ shuts ∷ []

perform_all-IsSound_example : IsSound (perform_all two empty)
perform_all-IsSound_example = perform_all-IsSound two empty empty-IsSound

first_waits : lookup 1 (perform_all two empty).pending ≡ some to_mini
unfolding request lookup put
first_waits = refl

end_request_answered_example :
    let d = perform_all two empty in
    ((end_request 1 (perform_all later (shutdown d))).0 ≡ err window_closed)
    × ((end_request 1 (perform_all later (complete 1 mini none d).1)).0 ≡ judge to_mini mini none)
end_request_answered_example = end_request_answered two later 1 to_mini mini none first_waits

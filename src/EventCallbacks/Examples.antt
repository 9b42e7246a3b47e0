-- ===== src/EventCallbacks/Examples.antt =====
-- Requests to run the functions of the callbacks on.
use neat.Base.{some, none, refl, ◌==◌, if◌then◌else◌, ℕ, ◌≡◌, List, [], ◌∷◌, arith}
use neat.EventCallbacks.{
  EventCbs, created, insert, add_apart, entangles, add_event_cb, run_event_cb,
}
use neat.EventCallbacks.Last.{
  Request, add, drop, after, is_added, count, as_number, run_event_cb-is_added,
}

-- The callback 7 is for new addresses and 8 for those that go: both are added, 7 a second time, and 8
-- is removed again.
abbrev requests : List Request
requests = drop 2 8 ∷ add 0 7 ∷ add 2 8 ∷ add 0 7 ∷ []

abbrev home : ℕ → ℕ
home cb = if cb == 7 then 0 else 2

run_event_cb-is_added_example :
    (cbs : EventCbs) × (after requests ≡ some cbs)
    × (count 7 (run_event_cb cbs 0) ≡ as_number (is_added requests 0 7))
run_event_cb-is_added_example =
    run_event_cb-is_added home requests 0 7 (refl, (refl, (refl, tt))) (omega arith)

-- A callback that is added for two events ties their lists together.
tied : after (add 2 7 ∷ add 0 7 ∷ []) ≡ none
unfolding add_event_cb entangles add_apart created insert
tied = refl

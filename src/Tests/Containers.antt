-- ===== src/Tests/Containers.antt =====
-- Runs of the multicast container and of a signal, whose delegates are numbers.
use async_http.Prelude.{ℕ, Bool, false, some, List, [], ◌∷◌, ◌≡◌, refl, ◌==◌}
use async_http.Multicast.{Run, Event, pushed, removed, began, advanced, step, run, fresh}
use async_http.Multicast.Tidy.{IsSound}
use async_http.Multicast.Sound.{run-IsSound}
use async_http.Multicast.Live.{live_in, live-step}
use async_http.Signals.{Operation, connected_to, disconnected, operate_all, new_signal, emit}
use async_http.Signals.Promise.{promise_all}
use async_http.Signals.Emission.{emit-operate_all}

abbrev same : ℕ → ℕ → Bool
same i j = i == j

-- The first delegate removes the second one and itself, and adds a third.
abbrev events : List (Event ℕ)
events =
    pushed 1
    ∷ pushed 2
    ∷ began
    ∷ advanced
    ∷ removed 2
    ∷ removed 1
    ∷ pushed 3
    ∷ advanced
    ∷ advanced
    ∷ []

run-IsSound_example : IsSound (run same events fresh)
run-IsSound_example = run-IsSound same events

-- The second delegate is passed over, and the third is called.
events_calls : (run same events fresh).calls ≡ 1 ∷ 3 ∷ []
unfolding run
events_calls = refl

live-step_example :
    live_in (step same (removed 2) (run same (pushed 1 ∷ pushed 2 ∷ began ∷ []) fresh)) ≡ 1 ∷ []
unfolding run
live-step_example = live-step same (removed 2) (run same (pushed 1 ∷ pushed 2 ∷ began ∷ []) fresh)

abbrev three_pushed : Run ℕ
three_pushed = record {
  container = record {
    delegates = some 4 ∷ some 5 ∷ some 6 ∷ [];
    broadcast_count = 0;
    cleanup = false;
  };
  iterators = [];
  calls = [];
}

-- Nine slots, so that a snapshot is a large one, and a connection that is dropped.
abbrev operations : List (Operation ℕ)
operations =
    connected_to 10
    ∷ connected_to 11
    ∷ connected_to 12
    ∷ connected_to 13
    ∷ connected_to 14
    ∷ connected_to 15
    ∷ connected_to 16
    ∷ connected_to 17
    ∷ connected_to 18
    ∷ connected_to 19
    ∷ disconnected 1
    ∷ []

emit-operate_all_example :
    emit (operate_all operations new_signal) ≡ 10 ∷ 12 ∷ 13 ∷ 14 ∷ 15 ∷ 16 ∷ 17 ∷ 18 ∷ 19 ∷ []
unfolding promise_all
emit-operate_all_example = emit-operate_all operations

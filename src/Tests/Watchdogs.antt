-- ===== src/Tests/Watchdogs.antt =====
-- Runs of the watchdog of StdlibThread.cpp.
use async_http.Prelude.{ℕ, ◌≡◌, ◌↔◌, refl, true, some, List, [], ◌∷◌, contains}
use async_http.Prelude.Distinct.{IsDistinct}
use async_http.Watchdog.{Watch, watchdog_check_all}
use async_http.Watchdog.Checked.{
  Call, creates, checks, destroys, run, IsStale, watchdog_check_all-IsStale,
}

abbrev none_yet : Watch
none_yet = record { last_alive = λ i. 0; timeout = λ i. 0; registered = [] }

-- Threads 1 and 2 are watched, 2 shows that it is alive, and 3 has gone.
abbrev calls : List Call
calls =
    creates 0 1 (some 10)
    ∷ creates 0 2 (some 10)
    ∷ creates 0 3 (some 10)
    ∷ checks 15 2
    ∷ destroys 3
    ∷ []

watchdog_check_all-IsStale_example :
    let s' = run calls none_yet in
    let reported = watchdog_check_all 20 s' s'.registered in
    IsDistinct reported × ((i : ℕ) → (contains i reported ≡ true) ↔ IsStale 20 s' i)
watchdog_check_all-IsStale_example = watchdog_check_all-IsStale calls none_yet 20 refl

abbrev two : Watch
two = record none_yet { registered = 2 ∷ 1 ∷ [] }

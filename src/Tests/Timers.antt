-- ===== src/Tests/Timers.antt =====
-- Runs of the timers of Timer.cpp.
use async_http.Prelude.{
  ℕ, ◌≡◌, refl, true, false, some, List, [], ◌∷◌, ◌==◌, if◌then◌else◌, contains, arith,
}
use async_http.Timer.{Timer, Timers, process_timers}
use async_http.Timer.Linked.{IsLinked, starts, call, call-IsLinked}
use async_http.Timer.Drain.{IsOnTime, process_timers_drains}

abbrev overdue : Timer
overdue = record { timeout = 10; expire_time = 5; enabled = true; once = false }

-- Timers 1 and 2 were started, and no other.
abbrev two_timers : Timers
two_timers = record {
  cell = λ i.
      if i == 1
      then overdue
      else if i == 2
      then record overdue { once = true }
      else record overdue { enabled = false };
  linked = 2 ∷ 1 ∷ [];
  stopped = false;
}

two_timers-IsLinked : IsLinked two_timers
two_timers-IsLinked = record { distinct = (refl, (refl, tt)); on_list = λ i h. ground arith }

call-IsLinked_example : IsLinked (call (starts 3 100 false 40) two_timers)
call-IsLinked_example = call-IsLinked (starts 3 100 false 40) two_timers tt two_timers-IsLinked

process_timers_drains_example :
    (r : List ℕ × Timers) × (process_timers 1 (λ _. 40) (λ _ u. u) two_timers ≡ some r)
    × ((j : ℕ) → contains j r.1.linked ≡ true → IsOnTime 40 (r.1.cell j))
process_timers_drains_example =
    process_timers_drains 1 40 two_timers two_timers-IsLinked (λ i h. ground arith) (omega arith)

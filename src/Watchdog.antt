-- ===== src/Watchdog.antt =====
-- The watchdog of DelegateMQ/port/os/stdlib/StdlibThread.cpp: the list of threads that it checks.
-- Threads are numbered; `registered` is the list that starts at `GetWatchdogHead`, with
-- `m_watchdogNext` left to the list's structure. A function is what happens under the list's lock.
-- `WatchdogHandler` is a call that the result names. Whether a thread exists is left to Thread.antt:
-- `create_thread` is the branch that starts it.
pub mod Checked
use async_http.Prelude.{
  ℕ, ◌+◌, ◌-◌, Bool, true, false, ◌&&◌, Option, none, some, List, [], ◌∷◌, ltb, ◌==◌, if◌then◌else◌,
  contains, erase_first,
}

pub record Watch : Type 0 where
  pub last_alive : ℕ → ℕ
  pub timeout : ℕ → ℕ  -- 0 for none
  pub registered : List ℕ

abbrev pub set : (ℕ → ℕ) → ℕ → ℕ → ℕ → ℕ
set f i x j = if j == i then x else f j

unfoldable pub thread_check : ℕ → ℕ → Watch → Watch
thread_check now i s = record s { last_alive = set s.last_alive i now }

-- `CreateThread` of a thread that does not exist, once it has started.
unfoldable pub create_thread : ℕ → ℕ → Option ℕ → Watch → Watch
create_thread now i none s = record s { last_alive = set s.last_alive i now }
create_thread now i (some timeout) s = record s {
  last_alive = set s.last_alive i now;
  timeout = set s.timeout i timeout;
  registered = (if contains i s.registered then s.registered else i ∷ s.registered);
}

-- The destructor, after `ExitThread`.
unfoldable pub destroy : ℕ → Watch → Watch
destroy i s = record s { registered = erase_first i s.registered }

-- `WatchdogCheck`: whether it calls the handler.
unfoldable pub watchdog_check : ℕ → Watch → ℕ → Bool
watchdog_check now s i =
    if ltb 0 (s.timeout i) then ltb (s.timeout i) (now - s.last_alive i) else false

-- `WatchdogCheckAll`: the threads whose handler is called, in order.
unfoldable pub watchdog_check_all : ℕ → Watch → List ℕ → List ℕ
unfolding watchdog_check
watchdog_check_all now s [] = []
watchdog_check_all now s (p ∷ ps) =
    let rest = watchdog_check_all now s ps in if watchdog_check now s p then p ∷ rest else rest

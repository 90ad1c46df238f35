-- ===== src/Watchdog/Checked.antt =====
-- Which threads the watchdog of StdlibThread.cpp reports.
use async_http.Prelude.{
  ℕ, ◌+◌, ◌<◌, ◌≡◌, ◌↔◌, true, false, Option, none, some, List, [], ◌∷◌, ◌==◌, if◌then◌else◌,
  contains, arith, Bool-cases, ==_iff, inl, inr, ap,
}
use async_http.Prelude.Distinct.{IsDistinct, contains-erase_first, erase_first-IsDistinct}
use async_http.Watchdog.{
  Watch, thread_check, create_thread, destroy, watchdog_check, watchdog_check_all,
}

pub data Call : Type 0 where
  checks : ℕ → ℕ → Call
  creates : ℕ → ℕ → Option ℕ → Call
  destroys : ℕ → Call

abbrev pub call : Call → Watch → Watch
call (checks now i) s = thread_check now i s
call (creates now i timeout) s = create_thread now i timeout s
call (destroys i) s = destroy i s

abbrev pub run : List Call → Watch → Watch
run [] s = s
run (c ∷ cs) s = run cs (call c s)

call-IsDistinct :
    (c : Call) (s : Watch) → IsDistinct s.registered → IsDistinct (call c s).registered
unfolding thread_check create_thread destroy
call-IsDistinct (checks now i) s d = d
call-IsDistinct (creates now i none) s d = d
call-IsDistinct (creates now i (some timeout)) s d = ground arith
call-IsDistinct (destroys i) s d = erase_first-IsDistinct i s.registered d

run-IsDistinct :
    (cs : List Call) (s : Watch) → IsDistinct s.registered → IsDistinct (run cs s).registered
run-IsDistinct [] s d = d
run-IsDistinct (c ∷ cs) s d = run-IsDistinct cs (call c s) (call-IsDistinct c s d)

-- The thread is on the list and has a timeout, which has passed since it was last alive.
abbrev pub IsStale : ℕ → Watch → ℕ → Type 0
IsStale now s i =
    (contains i s.registered ≡ true) × (0 < s.timeout i) × (s.last_alive i + s.timeout i < now)

check_all-contains :
    (now : ℕ) (s : Watch) (i : ℕ) (ps : List ℕ)
    → contains i (watchdog_check_all now s ps)
      ≡ (if watchdog_check now s i then contains i ps else false)
unfolding watchdog_check_all
check_all-contains now s i [] = ground arith
check_all-contains now s i (p ∷ ps) =
    let ih = check_all-contains now s i ps in
    elim (Bool-cases (p == i)) [
      | inl e ↦
          let same = ap (watchdog_check now s) ((==_iff p i).0 e) in ground (arith, ih, same, e)
      | inr e ↦ ground (arith, ih, e)
    ]

check_all-IsDistinct :
    (now : ℕ) (s : Watch) (ps : List ℕ) → IsDistinct ps → IsDistinct (watchdog_check_all now s ps)
unfolding watchdog_check_all
check_all-IsDistinct now s [] d = d
check_all-IsDistinct now s (p ∷ ps) d =
    ground (arith, check_all-IsDistinct now s ps d.1, check_all-contains now s p ps)

watchdog_check-IsStale :
    (now : ℕ) (s : Watch) (i : ℕ)
    → contains i s.registered ≡ true
    → watchdog_check now s i ≡ true
    → IsStale now s i
unfolding watchdog_check
watchdog_check-IsStale now s i r h = (r, ground arith, ground arith)

watchdog_check_stale :
    (now : ℕ) (s : Watch) (i : ℕ) → IsStale now s i → watchdog_check now s i ≡ true
unfolding watchdog_check
watchdog_check_stale now s i h = ground arith

-- After any calls on threads of which none was registered, the watchdog reports each thread at most
-- once, and exactly those that are on its list and whose timeout, which is not 0, has passed since
-- they were last alive.
pub watchdog_check_all-IsStale :
    (cs : List Call) (s : Watch) (now : ℕ)
    → s.registered ≡ []
    → let s' = run cs s in
      let reported = watchdog_check_all now s' s'.registered in
      IsDistinct reported × ((i : ℕ) → (contains i reported ≡ true) ↔ IsStale now s' i)
watchdog_check_all-IsStale cs s now e =
    let s' = run cs s in
    let d = run-IsDistinct cs s (rw e tt) in
    (
      check_all-IsDistinct now s' s'.registered d,
      λ i.
          let c = check_all-contains now s' i s'.registered in
          (
            λ h. watchdog_check-IsStale now s' i (ground (arith, c)) (ground (arith, c)),
            λ h. ground (arith, c, watchdog_check_stale now s' i h),
          ),
    )

-- A thread that has been destroyed is not on the list, and the others stay as they were. The list
-- has no repetitions.
pub destroy-registered :
    (s : Watch) (i j : ℕ)
    → IsDistinct s.registered
    → contains j (destroy i s).registered ≡ (if j == i then false else contains j s.registered)
unfolding destroy
destroy-registered s i j d = contains-erase_first i j s.registered d

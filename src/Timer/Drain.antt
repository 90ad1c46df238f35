-- ===== src/Timer/Drain.antt =====
-- The loop of Timer::ProcessTimers: it ends, and no timer is overdue when it has.
-- Stated for a clock that stands still during the call and callbacks that leave the timers alone.
use async_http.Prelude.{
  contains, ℕ, zero, suc, ◌+◌, ◌*◌, ◌≤◌, ◌<◌, ◌≡◌, refl, inl, inr, true, false, List, [], ◌∷◌, ◌++◌,
  arith, ◌==◌, leb, ◌||◌, ◌&&◌, Option, some, none, keep_if, if◌then◌else◌, length, Bool-cases,
}
use async_http.Timer.{
  Timer, Timers, purge, scan, pass, update, check_expired, stops_once, max_timer_expired,
  invoke_all, process_timers,
}
use async_http.Prelude.Distinct.{IsDistinct}
use async_http.Timer.Linked.{IsLinked, linked-scan, pass-IsLinked, purge-IsLinked}

-- How often a timer can still fire at one time.
abbrev weight : ℕ → Timer → ℕ
weight now t =
    if t.enabled && leb t.expire_time now
    then (if t.once || t.expire_time == now then 1 else 2)
    else 0

abbrev weights : ℕ → (ℕ → Timer) → List ℕ → ℕ
weights now cell [] = 0
weights now cell (i ∷ is) = weight now (cell i) + weights now cell is

-- A period of an enabled timer is not 0, as `Start` sees to.
abbrev pub HasPeriods : Timers → Type 0
HasPeriods s = (i : ℕ) → (s.cell i).enabled ≡ true → 0 < (s.cell i).timeout

-- The timer's time is not in the past.
abbrev pub IsOnTime : ℕ → Timer → Type 0
IsOnTime now t = t.enabled ≡ true → now ≤ t.expire_time

abbrev walked : ℕ → ℕ → Timers → Timers
walked now i s = record s {
  cell = update s.cell i (check_expired now (s.cell i)).1;
  stopped = s.stopped || stops_once now (s.cell i);
}

weight-check_expired :
    (now : ℕ) (t : Timer)
    → (t.enabled ≡ true → 0 < t.timeout)
    → (weight now (check_expired now t).1 + (if (check_expired now t).0 then 1 else 0)
        ≤ weight now t)
unfolding check_expired
weight-check_expired now t h = ground arith

period-check_expired :
    (now : ℕ) (t : Timer)
    → (t.enabled ≡ true → 0 < t.timeout)
    → (check_expired now t).1.enabled ≡ true
    → 0 < (check_expired now t).1.timeout
unfolding check_expired
period-check_expired now t h e = ground arith

check_expired-IsOnTime : (now : ℕ) (t : Timer) → IsOnTime now (check_expired now t).1
unfolding check_expired
check_expired-IsOnTime now t = ground arith

walked-HasPeriods : (now i : ℕ) (s : Timers) → HasPeriods s → HasPeriods (walked now i s)
walked-HasPeriods now i s h j e = ground (arith, h j, period-check_expired now (s.cell i) (h i))

weights-update :
    (now i : ℕ) (t : Timer) (cell : ℕ → Timer) (is : List ℕ)
    → contains i is ≡ false
    → weights now (update cell i t) is ≡ weights now cell is
weights-update now i t cell [] h = refl
weights-update now i t cell (j ∷ js) h = ground (arith, weights-update now i t cell js)

-- A walk leaves alone the timers that it does not come to.
cell-scan :
    (room now : ℕ) (is : List ℕ) (s : Timers) (j : ℕ)
    → contains j is ≡ false
    → (scan room now is s).1.cell j ≡ s.cell j
unfolding scan
cell-scan room now [] s j h = refl
cell-scan zero now (i ∷ is) s j h = refl
cell-scan (suc room) now (i ∷ is) s j h = ground (
  arith,
  cell-scan room now is (walked now i s) j,
  cell-scan (suc room) now is (walked now i s) j,
)

scan-HasPeriods :
    (room now : ℕ) (is : List ℕ) (s : Timers) → HasPeriods s → HasPeriods (scan room now is s).1
unfolding scan
scan-HasPeriods room now [] s h j e = h j e
scan-HasPeriods zero now (i ∷ is) s h j e = h j e
scan-HasPeriods (suc room) now (i ∷ is) s h j e = ground (
  arith,
  scan-HasPeriods room now is (walked now i s) (walked-HasPeriods now i s h) j,
  scan-HasPeriods (suc room) now is (walked now i s) (walked-HasPeriods now i s h) j,
)

-- Every timer that fires uses up one of the times that it can still fire.
scan_weight :
    (room now : ℕ) (is : List ℕ) (s : Timers)
    → HasPeriods s
    → IsDistinct is
    → weights now (scan room now is s).1.cell is + length (scan room now is s).0
      ≤ weights now s.cell is
unfolding scan
scan_weight room now [] s h d = omega arith
scan_weight zero now (i ∷ is) s h d = omega arith
scan_weight (suc room) now (i ∷ is) s h d = ground (
  arith,
  scan_weight room now is (walked now i s) (walked-HasPeriods now i s h) d.1,
  scan_weight (suc room) now is (walked now i s) (walked-HasPeriods now i s h) d.1,
  cell-scan room now is (walked now i s) i d.0,
  cell-scan (suc room) now is (walked now i s) i d.0,
  weights-update now i (check_expired now (s.cell i)).1 s.cell is d.0,
  weight-check_expired now (s.cell i) (h i),
)

scan-length-le : (room now : ℕ) (is : List ℕ) (s : Timers) → length (scan room now is s).0 ≤ room
unfolding scan
scan-length-le room now [] s = omega arith
scan-length-le zero now (i ∷ is) s = omega arith
scan-length-le (suc room) now (i ∷ is) s = ground (
  arith,
  scan-length-le room now is (walked now i s),
  scan-length-le (suc room) now is (walked now i s),
)

-- A walk that does not fill its batch leaves every timer that it came to on time.
scan-IsOnTime :
    (room now : ℕ) (is : List ℕ) (s : Timers) (j : ℕ)
    → IsDistinct is
    → length (scan room now is s).0 < room
    → contains j is ≡ true
    → IsOnTime now ((scan room now is s).1.cell j)
unfolding scan
scan-IsOnTime room now [] s j d h c e = absurd (ground arith)
scan-IsOnTime zero now (i ∷ is) s j d h c e = absurd (omega arith)
scan-IsOnTime (suc room) now (i ∷ is) s j d h c e = ground (
  arith,
  scan-IsOnTime room now is (walked now i s) j d.1,
  scan-IsOnTime (suc room) now is (walked now i s) j d.1,
  cell-scan room now is (walked now i s) j,
  cell-scan (suc room) now is (walked now i s) j,
  check_expired-IsOnTime now (s.cell i),
)

weights-keep_if :
    (now : ℕ) (cell : ℕ → Timer) (is : List ℕ)
    → weights now cell (keep_if (λ i. (cell i).enabled) is) ≡ weights now cell is
weights-keep_if now cell [] = refl
weights-keep_if now cell (i ∷ is) = ground (arith, weights-keep_if now cell is)

weights-le : (now : ℕ) (cell : ℕ → Timer) (is : List ℕ) → weights now cell is ≤ 2 * length is
weights-le now cell [] = omega arith
weights-le now cell (i ∷ is) = ground (arith, weights-le now cell is)

abbrev load : ℕ → Timers → ℕ
load now s = weights now s.cell s.linked

purge-load : (now : ℕ) (s : Timers) → (load now (purge s) ≡ load now s) × ((purge s).cell ≡ s.cell)
unfolding purge
purge-load now s = ground (arith, weights-keep_if now s.cell s.linked)

-- What one pass does: the load falls by what has fired, at most a batch fires, and after a pass
-- that fires less than a batch every linked timer is on time.
record Passed (now : ℕ) (s : Timers) : Type 0 where
  periods : HasPeriods (pass now s).1
  lighter : load now (pass now s).1 + length (pass now s).0 ≤ load now s
  batch : length (pass now s).0 ≤ max_timer_expired
  settled :
      length (pass now s).0 < max_timer_expired
      → (j : ℕ) → contains j (pass now s).1.linked ≡ true
      → IsOnTime now ((pass now s).1.cell j)

pass-Passed : (now : ℕ) (s : Timers) → IsLinked s → HasPeriods s → Passed now s
unfolding pass
pass-Passed now s v h = record {
  periods = scan-HasPeriods max_timer_expired now (purge s).linked (purge s) h';
  lighter = rw (linked-scan max_timer_expired now (purge s).linked (purge s)) (
      omega (
        arith,
        scan_weight max_timer_expired now (purge s).linked (purge s) h' v'.distinct,
        (purge-load now s).0,
      ));
  batch = scan-length-le max_timer_expired now (purge s).linked (purge s);
  settled = λ few j c.
      scan-IsOnTime max_timer_expired now (purge s).linked (purge s) j v'.distinct few
        (rw linked-scan at c);
}
  where
    v' : IsLinked (purge s)
    v' = purge-IsLinked v

    h' : HasPeriods (purge s)
    h' = rw (purge-load now s).1 h

invoke_all-inert : (is : List ℕ) (s : Timers) → invoke_all (λ _ u. u) is s ≡ s
invoke_all-inert [] s = refl
invoke_all-inert (i ∷ is) s = invoke_all-inert is s

abbrev Drained : ℕ → Option (List ℕ × Timers) → Type 0
Drained now o =
    (r : List ℕ × Timers) × (o ≡ some r)
    × ((j : ℕ) → contains j r.1.linked ≡ true → IsOnTime now (r.1.cell j))

Drained-more :
    (now : ℕ) (fired : List ℕ) (o : Option (List ℕ × Timers))
    → Drained now o
    → Drained now (elim o [ none ↦ none | some r ↦ some (fired ++ r.0, r.1) ])
Drained-more now fired o (r, e, h) = rw e ((fired ++ r.0, r.1), refl, h)

process_timers_loop :
    (fuel now : ℕ) (s : Timers)
    → IsLinked s
    → HasPeriods s
    → load now s < max_timer_expired * fuel
    → Drained now (process_timers fuel (λ _. now) (λ _ u. u) s)
unfolding process_timers
process_timers_loop zero now s v h few = absurd (omega arith)
process_timers_loop (suc fuel) now s v h few =
    let k = pass-Passed now s v h in
    elim (Bool-cases (length (pass now s).0 == max_timer_expired)) [
      | inl full ↦
          rw (full, invoke_all-inert (pass now s).0 (pass now s).1)
            (Drained-more now (pass now s).0 _ (
              process_timers_loop fuel now (pass now s).1 (pass-IsLinked now v) k.periods
                (ground (arith, k.lighter))))
      | inr last ↦
          rw (last, invoke_all-inert (pass now s).0 (pass now s).1)
            (pass now s, refl, k.settled (ground (arith, k.batch)))
    ]

-- With a clock that stands still and callbacks that leave the timers alone, a pass for every eight
-- timers on the list, and one more, is enough for ProcessTimers to return; and then every enabled
-- timer on the list is due now or later. Enabled timers are on the list once and have a positive
-- period.
pub process_timers_drains :
    (fuel now : ℕ) (s : Timers)
    → IsLinked s
    → HasPeriods s
    → length s.linked < 8 * fuel
    → (r : List ℕ × Timers) × (process_timers fuel (λ _. now) (λ _ u. u) s ≡ some r)
      × ((j : ℕ) → contains j r.1.linked ≡ true → IsOnTime now (r.1.cell j))
process_timers_drains fuel now s v h few =
    process_timers_loop fuel now s v h (omega (arith, weights-le now s.cell s.linked))

-- ===== src/Timer.antt =====
-- DelegateMQ/extras/util/Timer.cpp and Timer.h: timers, the intrusive list of those that were
-- started, and the loop that fires the expired ones in batches.
-- Timers are numbered; `cell` holds their fields and `linked` is the list that starts at
-- `GetTimersHead`, with `m_next` left to the list's structure. A function is what happens under the
-- lock. A timeout is a count of milliseconds: a negative one is refused as 0 is, and is not modelled
-- apart. The clock is read once in each pass. The arrays of snapshots are lists of timers.
pub mod Expiry
pub mod Linked
pub mod Drain
use async_http.Prelude.{
  ℕ, zero, suc, ◌+◌, ◌-◌, Bool, true, false, not, ◌&&◌, ◌||◌, Option, none, some, List, [], ◌∷◌,
  ◌++◌, ltb, leb, ◌==◌, if◌then◌else◌, length, keep_if, contains, erase_first,
}

pub record Timer : Type 0 where
  pub timeout : ℕ
  pub expire_time : ℕ
  pub enabled : Bool
  pub once : Bool

pub record Timers : Type 0 where
  pub cell : ℕ → Timer
  pub linked : List ℕ
  pub stopped : Bool  -- `m_timerStopped`

abbrev pub max_timer_expired : ℕ
max_timer_expired = 16

abbrev pub update : (ℕ → Timer) → ℕ → Timer → ℕ → Timer
update cell i t j = if j == i then t else cell j

-- The fields that a constructed timer has.
abbrev new_timer : Timer
new_timer = record { timeout = 0; expire_time = 0; enabled = false; once = false }

unfoldable pub construct : ℕ → Timers → Timers
construct i s = record s { cell = update s.cell i new_timer }

-- The destructor, whose loop unlinks the timer. The timer's fields are dead after it, so it cannot be enabled.
unfoldable pub destroy : ℕ → Timers → Timers
destroy i s = record s { cell = update s.cell i new_timer; linked = erase_first i s.linked }

-- `Start`; `none` is the exception.
unfoldable pub start : ℕ → ℕ → Bool → ℕ → Timers → Option Timers
start i timeout once now s =
    let t = record (s.cell i) {
      timeout = timeout;
      once = once;
      expire_time = now + timeout;
      enabled = true;
    } in
    if leb timeout 0
    then none
    else some (record s {
      cell = update s.cell i t;
      linked = (if contains i s.linked then s.linked else i ∷ s.linked);
    })

unfoldable pub stop : ℕ → Timers → Timers
stop i s =
    let t = record (s.cell i) { enabled = false } in
    record s { cell = update s.cell i t; stopped = true }

-- `CheckExpired`: whether the timer has expired, and its fields after the call.
unfoldable pub check_expired : ℕ → Timer → Bool × Timer
check_expired now t =
    let next = t.expire_time + t.timeout in
    if not t.enabled
    then (false, t)
    else if ltb now t.expire_time
    then (false, t)
    else if t.once
    then (true, record t { enabled = false })
    else (true, record t { expire_time = (if ltb next now then now else next) })

-- Whether `CheckExpired` sets `m_timerStopped`.
unfoldable pub stops_once : ℕ → Timer → Bool
stops_once now t = t.enabled && leb t.expire_time now && t.once

-- The disabled timers leave the list, if a timer was stopped.
unfoldable pub purge : Timers → Timers
purge s =
    if s.stopped
    then record s { linked = keep_if (λ i. (s.cell i).enabled) s.linked; stopped = false }
    else s

-- The walk along the list, with the number of snapshots that the batch still has room for: the timers
-- that fire, and the state after it.
unfoldable pub scan : ℕ → ℕ → List ℕ → Timers → List ℕ × Timers
unfolding check_expired stops_once
scan room now [] s = ([], s)
scan zero now (i ∷ is) s = ([], s)
scan (suc room) now (i ∷ is) s =
    let r = check_expired now (s.cell i) in
    let s' = record s {
      cell = update s.cell i r.1;
      stopped = s.stopped || stops_once now (s.cell i);
    } in
    let hit = scan room now is s' in
    let miss = scan (suc room) now is s' in elim r.0 [ true ↦ (i ∷ hit.0, hit.1) | false ↦ miss ]

-- One pass of the loop of `ProcessTimers`, up to the release of the lock.
unfoldable pub pass : ℕ → Timers → List ℕ × Timers
unfolding purge scan
pass now s = let s' = purge s in scan max_timer_expired now s'.linked s'

-- The callbacks of a batch, in order. What a callback does to the timers is up to the client.
abbrev pub invoke_all : (ℕ → Timers → Timers) → List ℕ → Timers → Timers
invoke_all callback [] s = s
invoke_all callback (i ∷ is) s = invoke_all callback is (callback i s)

-- `ProcessTimers`, with one unit of fuel for a pass and the time at which each pass reads the clock:
-- the timers fired in order, and the state; `none` means that the fuel ran out.
unfoldable pub process_timers :
    ℕ → (ℕ → ℕ) → (ℕ → Timers → Timers) → Timers → Option (List ℕ × Timers)
unfolding pass
process_timers zero clock callback s = none
process_timers (suc fuel) clock callback s =
    let p = pass (clock fuel) s in
    let s' = invoke_all callback p.0 p.1 in
    let rest = process_timers fuel clock callback s' in
    if length p.0 == max_timer_expired
    then elim rest [ none ↦ none | some r ↦ some (p.0 ++ r.0, r.1) ]
    else some (p.0, s')

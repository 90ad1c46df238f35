-- ===== src/Timer/Linked.antt =====
-- The list of started timers of Timer.cpp: no timer twice, and every enabled timer on it.
use async_http.Prelude.{
  Bool-cases, ◌++◌, contains, inl, inr, Option-cases, length, zero, ℕ, suc, ◌≡◌, refl, true, Bool,
  List, [], ◌∷◌, arith, ◌==◌, ◌||◌, Option, some, none,
}
use async_http.Prelude.Distinct.{
  IsDistinct, contains-erase_first, erase_first-IsDistinct, contains-keep_if, keep_if-IsDistinct,
}
use async_http.Timer.{
  max_timer_expired, invoke_all, process_timers, Timer, Timers, construct, destroy, start, stop,
  purge, scan, pass, update, check_expired, stops_once,
}

pub record IsLinked (s : Timers) : Type 0 where
  pub distinct : IsDistinct s.linked
  pub on_list : (i : ℕ) → (s.cell i).enabled ≡ true → contains i s.linked ≡ true

start-IsLinked :
    (i timeout : ℕ) (once : Bool) (now : ℕ) {s u : Timers}
    → IsLinked s
    → start i timeout once now s ≡ some u
    → IsLinked u
unfolding start
start-IsLinked i timeout once now {s} {u} v e = record {
  distinct = ground arith;
  on_list = λ j h. ground (arith, v.on_list j);
}

destroy-IsLinked : (i : ℕ) {s : Timers} → IsLinked s → IsLinked (destroy i s)
unfolding destroy
destroy-IsLinked i {s} v = record {
  distinct = erase_first-IsDistinct i s.linked v.distinct;
  on_list = λ j h. ground (arith, v.on_list j, contains-erase_first i j s.linked v.distinct);
}

stop-IsLinked : (i : ℕ) {s : Timers} → IsLinked s → IsLinked (stop i s)
unfolding stop
stop-IsLinked i {s} v = record {
  distinct = v.distinct;
  on_list = λ j h. ground (arith, v.on_list j);
}

construct-IsLinked : (i : ℕ) {s : Timers} → IsLinked s → IsLinked (construct i s)
unfolding construct
construct-IsLinked i {s} v = record {
  distinct = v.distinct;
  on_list = λ j h. ground (arith, v.on_list j);
}

pub purge-IsLinked : {s : Timers} → IsLinked s → IsLinked (purge s)
unfolding purge
purge-IsLinked {s} v = record {
  distinct =
      ground (arith, v.distinct, keep_if-IsDistinct (λ i. (s.cell i).enabled) s.linked v.distinct);
  on_list =
      λ j h. ground (arith, v.on_list j, contains-keep_if (λ i. (s.cell i).enabled) j s.linked);
}

-- The walk links nothing and enables nothing.
pub linked-scan :
    (room now : ℕ) (is : List ℕ) (s : Timers) → (scan room now is s).1.linked ≡ s.linked
unfolding scan
linked-scan room now [] s = refl
linked-scan zero now (i ∷ is) s = refl
linked-scan (suc room) now (i ∷ is) s =
    let s' = record s {
      cell = update s.cell i (check_expired now (s.cell i)).1;
      stopped = s.stopped || stops_once now (s.cell i);
    } in
    ground (arith, linked-scan room now is s', linked-scan (suc room) now is s')

enabled-check_expired :
    (now : ℕ) (t : Timer) → (check_expired now t).1.enabled ≡ true → t.enabled ≡ true
unfolding check_expired
enabled-check_expired now t h = ground arith

enabled-scan :
    (room now : ℕ) (is : List ℕ) (s : Timers) (j : ℕ)
    → ((scan room now is s).1.cell j).enabled ≡ true
    → (s.cell j).enabled ≡ true
unfolding scan
enabled-scan room now [] s j h = h
enabled-scan zero now (i ∷ is) s j h = h
enabled-scan (suc room) now (i ∷ is) s j h =
    let s' = record s {
      cell = update s.cell i (check_expired now (s.cell i)).1;
      stopped = s.stopped || stops_once now (s.cell i);
    } in
    ground (
      arith,
      enabled-scan room now is s' j,
      enabled-scan (suc room) now is s' j,
      enabled-check_expired now (s.cell i),
    )

scan-IsLinked : (room now : ℕ) {s : Timers} → IsLinked s → IsLinked (scan room now s.linked s).1
scan-IsLinked room now {s} v = record {
  distinct = rw (linked-scan room now s.linked s) v.distinct;
  on_list = λ j h.
      rw (linked-scan room now s.linked s) (v.on_list j (enabled-scan room now s.linked s j h));
}

pub pass-IsLinked : (now : ℕ) {s : Timers} → IsLinked s → IsLinked (pass now s).1
unfolding pass
pass-IsLinked now v = scan-IsLinked max_timer_expired now (purge-IsLinked v)

invoke_all-IsLinked :
    (callback : ℕ → Timers → Timers)
    → ((i : ℕ) (u : Timers) → IsLinked u → IsLinked (callback i u))
    → (is : List ℕ) (s : Timers) → IsLinked s
    → IsLinked (invoke_all callback is s)
invoke_all-IsLinked callback keep [] s v = v
invoke_all-IsLinked callback keep (i ∷ is) s v =
    invoke_all-IsLinked callback keep is (callback i s) (keep i s v)

-- What a client can call, on a timer of its choice.
pub data Call : Type 0 where
  constructs destroys stops : ℕ → Call
  starts : ℕ → ℕ → Bool → ℕ → Call
  processes : ℕ → (ℕ → ℕ) → (ℕ → Timers → Timers) → Call

abbrev or_same : Timers → Option Timers → Timers
or_same s none = s
or_same s (some u) = u

abbrev drained : Timers → Option (List ℕ × Timers) → Timers
drained s none = s
drained s (some r) = r.1

-- The state after a call; a `Start` that throws leaves it as it was.
abbrev pub call : Call → Timers → Timers
call (constructs i) s = construct i s
call (destroys i) s = destroy i s
call (stops i) s = stop i s
call (starts i timeout once now) s = or_same s (start i timeout once now s)
call (processes fuel clock callback) s = drained s (process_timers fuel clock callback s)

-- The callbacks of a call keep what the client's own calls keep.
abbrev pub Behaves : Call → Type 0
Behaves (processes fuel clock callback) =
    (i : ℕ) (u : Timers) → IsLinked u → IsLinked (callback i u)
Behaves _ = Unit {0}

more :
    (s s' : Timers) (rest : Option (List ℕ × Timers)) (fired : List ℕ)
    → IsLinked s
    → IsLinked (drained s' rest)
    → IsLinked (drained s (elim rest [ none ↦ none | some r ↦ some (fired ++ r.0, r.1) ]))
more s s' none fired v w = v
more s s' (some r) fired v w = w

process_timers-IsLinked :
    (fuel : ℕ) (clock : ℕ → ℕ) (callback : ℕ → Timers → Timers)
    → ((i : ℕ) (u : Timers) → IsLinked u → IsLinked (callback i u))
    → (s : Timers) → IsLinked s
    → IsLinked (drained s (process_timers fuel clock callback s))
unfolding process_timers
process_timers-IsLinked zero clock callback keep s v = v
process_timers-IsLinked (suc fuel) clock callback keep s v =
    let p = pass (clock fuel) s in
    let s' = invoke_all callback p.0 p.1 in
    let v' = invoke_all-IsLinked callback keep p.0 p.1 (pass-IsLinked (clock fuel) v) in
    elim (Bool-cases (length p.0 == max_timer_expired)) [
      | inr last ↦ rw last v'
      | inl full ↦ rw full (
          more s s' (process_timers fuel clock callback s') p.0 v
            (process_timers-IsLinked fuel clock callback keep s' v'))
    ]

-- Every call keeps the list of timers free of repetitions, and every enabled timer on it, whatever
-- the callbacks of a ProcessTimers do, as long as they keep this too.
pub call-IsLinked : (c : Call) (s : Timers) → Behaves c → IsLinked s → IsLinked (call c s)
call-IsLinked (constructs i) s b v = construct-IsLinked i v
call-IsLinked (destroys i) s b v = destroy-IsLinked i v
call-IsLinked (stops i) s b v = stop-IsLinked i v
call-IsLinked (starts i timeout once now) s b v = elim (Option-cases (start i timeout once now s)) [
  | inl e ↦ rw e v
  | inr (u, e) ↦ rw e (start-IsLinked i timeout once now v e)
]
call-IsLinked (processes fuel clock callback) s b v =
    process_timers-IsLinked fuel clock callback b s v

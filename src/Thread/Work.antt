-- ===== src/Thread/Work.antt =====
-- The worker's loop of StdlibThread.cpp on a thread that is not told to exit.
use async_http.Prelude.{
  ℕ, zero, suc, ◌+◌, ◌<◌, ◌≡◌, refl, ap, true, false, List, [], ◌∷◌, ◌++◌, arith, length,
  length-append, append_assoc, take,
}
use async_http.Thread.{
  Thread, ThreadMsg, DelegateMsg, dispatch_msg, exit_msg, completed, Run, process_step, delegates,
  normal, dispatch_delegate, enqueue, accepted, is_full,
}
use async_http.Thread.Bounds.{
  IsValid, process_step-IsValid, delegates-append, dispatch_delegate-IsValid, length-delegates-le,
}
use async_http.Thread.Exit.{process, pending, counted}

abbrev pub drop_first {ℓ} : {A : Type ℓ} → ℕ → List A → List A
drop_first zero xs = xs
drop_first (suc n) [] = []
drop_first (suc n) (x ∷ xs) = drop_first n xs

module _ {ℓ} {M : Type ℓ} where
  process-IsValid : (n : ℕ) (run : M → Run) (t : Thread M) → IsValid t → IsValid (process n run t).2
  unfolding process
  process-IsValid zero run t v = v
  process-IsValid (suc n) run t v =
      let v' = process_step-IsValid run false v in
      let ih = process-IsValid n run (process_step run false t).1 v' in ground (arith, v', ih)

  -- What the worker leaves of a quiet thread after some rounds.
  pub record IsWorked (n : ℕ) (t t' : Thread M) : Type ℓ where
    pub alive : t'.exit ≡ false
    pub same_created : t'.created ≡ t.created
    pub same_limit : t'.max_queue_size ≡ t.max_queue_size
    pub same_policy : t'.full_policy ≡ t.full_policy
    pub left : pending t' ≡ drop_first n (pending t)

  drop_first-[] : (n : ℕ) → drop_first {A = DelegateMsg M} n [] ≡ []
  drop_first-[] zero = refl
  drop_first-[] (suc n) = refl

  take-[] : (n : ℕ) → take {A = DelegateMsg M} n [] ≡ []
  take-[] zero = refl
  take-[] (suc n) = refl

  take_lanes :
      (n : ℕ) (run : M → Run) (t : Thread M) (hs ns : List (ThreadMsg M))
      → t.exit ≡ false
      → length hs ≡ length (delegates hs)
      → length ns ≡ length (delegates ns)
      → ((m : M) → (run m).result ≡ completed)
      → let t' : Thread M = record t { high_queue = hs; normal_queue = ns } in
        ((process n run t').1 ≡ take n (pending t')) × IsWorked n t' (process n run t').2
  unfolding process process_step
  take_lanes zero run t hs ns e qh qn good = (
    refl,
    record { alive = e; same_created = refl; same_limit = refl; same_policy = refl; left = refl },
  )
  take_lanes (suc n) run t (dispatch_msg m i ∷ hs) ns e qh qn good =
      let ih = take_lanes n run (counted (run m.invoker) i t) hs ns e (omega arith) qn good in
      rw (good m.invoker) (
        ap (◌∷◌ m) ih.0,
        record {
          alive = ih.1.alive;
          same_created = ih.1.same_created;
          same_limit = ih.1.same_limit;
          same_policy = ih.1.same_policy;
          left = ih.1.left;
        },
      )
  take_lanes (suc n) run t (exit_msg ∷ hs) ns e qh qn good =
      absurd (omega (arith, length-delegates-le hs))
  take_lanes (suc n) run t [] (dispatch_msg m i ∷ ns) e qh qn good =
      let ih = take_lanes n run (counted (run m.invoker) i t) [] ns e refl (omega arith) good in
      rw (good m.invoker) (
        ap (◌∷◌ m) ih.0,
        record {
          alive = ih.1.alive;
          same_created = ih.1.same_created;
          same_limit = ih.1.same_limit;
          same_policy = ih.1.same_policy;
          left = ih.1.left;
        },
      )
  take_lanes (suc n) run t [] (exit_msg ∷ ns) e qh qn good =
      absurd (omega (arith, length-delegates-le ns))
  take_lanes (suc n) run t [] [] e qh qn good = rw e (
    refl,
    record {
      alive = refl;
      same_created = refl;
      same_limit = refl;
      same_policy = refl;
      left = refl;
    },
  )

  -- The worker of a valid thread that is not told to exit, whose delegates complete, runs the
  -- messages that wait from the front, the high lane first, one in each round, and leaves the
  -- others, on a thread that is still valid.
  pub process_takes :
      (n : ℕ) (run : M → Run) (t : Thread M)
      → IsValid t
      → t.exit ≡ false
      → ((m : M) → (run m).result ≡ completed)
      → ((process n run t).1 ≡ take n (pending t))
        × IsWorked n t (process n run t).2
        × IsValid (process n run t).2
  process_takes n run t v e good =
      let r =
        take_lanes n run t t.high_queue t.normal_queue e (v.quiet_high e) (v.quiet_normal e) good in
      (r.0, r.1, process-IsValid n run t v)

  -- A thread that can be sent to.
  pub record IsReady (t : Thread M) : Type ℓ where
    pub valid : IsValid t
    pub live : t.created ≡ true
    pub alive : t.exit ≡ false

  -- A message of normal priority that a ready thread has room for waits behind all others.
  pub dispatch_delegate_appends :
      (t : Thread M) (msg : DelegateMsg M) (now : ℕ)
      → IsReady t
      → msg.priority ≡ normal
      → length (pending t) < t.max_queue_size
      → let d = dispatch_delegate t t msg now in
        (d.0 ≡ accepted)
        × IsReady d.1
        × (pending d.1 ≡ pending t ++ (msg ∷ []))
        × (d.1.max_queue_size ≡ t.max_queue_size)
        × (d.1.full_policy ≡ t.full_policy)
  unfolding dispatch_delegate enqueue
  dispatch_delegate_appends t msg now r n room =
      let size : length (pending t)
          ≡ length (delegates t.high_queue) + length (delegates t.normal_queue) =
        length-append (delegates t.high_queue) (delegates t.normal_queue) in
      let qh = r.valid.quiet_high r.alive in
      let qn = r.valid.quiet_normal r.alive in
      let open_lanes : is_full t ≡ false = ground (arith, size, qh, qn, room) in
      let v = dispatch_delegate-IsValid msg now (λ e c. λ e'. c) r.valid r.valid in
      let lanes = delegates-append t.normal_queue (dispatch_msg msg now ∷ []) in
      ground (
        arith,
        v,
        n,
        open_lanes,
        lanes,
        append_assoc (delegates t.high_queue) (delegates t.normal_queue) (msg ∷ []),
      )

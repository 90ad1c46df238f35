-- ===== src/Thread/Bounds.antt =====
-- The size of the message lanes of StdlibThread.cpp, and the outcomes of a dispatch.
use async_http.Prelude.{
  ℕ, ◌+◌, ◌≤◌, ◌<◌, ◌≡◌, refl, ap, Bool, true, false, List, [], ◌∷◌, ◌++◌, arith, append-nil,
  length, length-append,
}
use async_http.Thread.{
  Thread, ThreadMsg, DelegateMsg, drain, discard, FullPolicy, ExitPolicy, Run, dispatch_msg,
  exit_msg, make, create_thread, enqueue, wake, dispatch_delegate, process_step, exit_begin,
  exit_end, delegates, get_queue_size,
}

module _ {ℓ} {M : Type ℓ} where
  -- Messages that carry a delegate never exceed the limit, an exit message waits only while the
  -- thread is asked to exit, and a thread that does not exist has empty lanes.
  pub record IsValid (t : Thread M) : Type ℓ where
    pub positive : 0 < t.max_queue_size
    pub bounded :
        length (delegates t.high_queue) + length (delegates t.normal_queue) ≤ t.max_queue_size
    pub quiet_high : t.exit ≡ false → length t.high_queue ≡ length (delegates t.high_queue)
    pub quiet_normal : t.exit ≡ false → length t.normal_queue ≡ length (delegates t.normal_queue)
    pub idle_high : t.created ≡ false → t.high_queue ≡ []
    pub idle_normal : t.created ≡ false → t.normal_queue ≡ []

  pub delegates-append :
      (xs ys : List (ThreadMsg M)) → delegates (xs ++ ys) ≡ delegates xs ++ delegates ys
  delegates-append [] ys = refl
  delegates-append (dispatch_msg m t ∷ xs) ys = ground (arith, delegates-append xs ys)
  delegates-append (exit_msg ∷ xs) ys = delegates-append xs ys

  length-delegates-snoc :
      (xs : List (ThreadMsg M)) (m : DelegateMsg M) (now : ℕ)
      → length (delegates (xs ++ (dispatch_msg m now ∷ []))) ≡ length (delegates xs) + 1
  length-delegates-snoc xs m now = omega (
    arith,
    ap length (delegates-append xs (dispatch_msg m now ∷ [])),
    length-append (delegates xs) (m ∷ []),
  )

  pub make-IsValid : (size : ℕ) (policy : FullPolicy) → IsValid (make size policy)
  unfolding make
  make-IsValid size policy = ground arith

  pub create_thread-IsValid : {t : Thread M} → IsValid t → IsValid (create_thread t)
  unfolding create_thread
  create_thread-IsValid v = ground arith

  enqueue-IsValid :
      {t : Thread M} (msg : DelegateMsg M) (now : ℕ)
      → IsValid t
      → (t.exit ≡ false → (t.created ≡ true) × (get_queue_size t < t.max_queue_size))
      → IsValid (enqueue t msg now).1
  unfolding enqueue
  enqueue-IsValid {t} msg now v live = ground (
    arith,
    length-delegates-snoc t.high_queue msg now,
    length-delegates-snoc t.normal_queue msg now,
    length-append t.high_queue (dispatch_msg msg now ∷ []),
    length-append t.normal_queue (dispatch_msg msg now ∷ []),
  )

  -- A producer that waits for space does so on a thread that exists, or that has been told to exit.
  pub wake-IsValid :
      {w : Thread M} (msg : DelegateMsg M) (now : ℕ)
      → (w.exit ≡ false → w.created ≡ true)
      → IsValid w
      → IsValid (wake w msg now).1
  unfolding wake
  wake-IsValid {w} msg now live v = ground (arith, enqueue-IsValid msg now v)

  -- No dispatch, on any branch, lets the lanes hold more delegates than the limit.
  pub dispatch_delegate-IsValid :
      {t w : Thread M} (msg : DelegateMsg M) (now : ℕ)
      → (t.exit ≡ false → t.created ≡ true → w.exit ≡ false → w.created ≡ true)
      → IsValid t
      → IsValid w
      → IsValid (dispatch_delegate t w msg now).1
  unfolding dispatch_delegate
  dispatch_delegate-IsValid {t} {w} msg now live v u = ground (
    arith,
    enqueue-IsValid msg now v,
    λ (e : t.exit ≡ false) (c : t.created ≡ true). wake-IsValid msg now (live e c) u,
  )

  pub length-delegates-le : (xs : List (ThreadMsg M)) → length (delegates xs) ≤ length xs
  length-delegates-le [] = omega arith
  length-delegates-le (dispatch_msg m e ∷ xs) = omega (arith, length-delegates-le xs)
  length-delegates-le (exit_msg ∷ xs) = omega (arith, length-delegates-le xs)

  -- A thread's lanes taken apart: every thread is of this form.
  lanes-IsValid :
      (run : M → Run) (idle_due : Bool) (t : Thread M) (hs ns : List (ThreadMsg M))
      → IsValid (record t { high_queue = hs; normal_queue = ns })
      → IsValid (process_step run idle_due (record t { high_queue = hs; normal_queue = ns })).1
  unfolding process_step
  lanes-IsValid run idle_due t (dispatch_msg m e ∷ hs) ns v = ground arith
  lanes-IsValid run idle_due t (exit_msg ∷ hs) ns v = ground (arith, length-delegates-le hs)
  lanes-IsValid run idle_due t [] (dispatch_msg m e ∷ ns) v = ground arith
  lanes-IsValid run idle_due t [] (exit_msg ∷ ns) v = ground (arith, length-delegates-le ns)
  lanes-IsValid run idle_due t [] [] v = ground arith

  pub process_step-IsValid :
      {t : Thread M} (run : M → Run) (idle_due : Bool)
      → IsValid t
      → IsValid (process_step run idle_due t).1
  process_step-IsValid {t} run idle_due v =
      lanes-IsValid run idle_due t t.high_queue t.normal_queue v

  pub exit_begin-IsValid :
      {t : Thread M} (policy : ExitPolicy)
      → t.created ≡ true
      → IsValid t
      → IsValid (exit_begin policy t).1
  unfolding exit_begin
  exit_begin-IsValid {t} drain live v = ground (
    arith,
    delegates-append t.normal_queue (exit_msg ∷ []),
    append-nil (delegates t.normal_queue),
  )
  exit_begin-IsValid {t} discard live v = ground arith

  pub exit_end-IsValid : {t : Thread M} → IsValid t → IsValid (exit_end t).1
  unfolding exit_end
  exit_end-IsValid v = ground arith

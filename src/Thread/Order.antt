-- ===== src/Thread/Order.antt =====
-- The order in which StdlibThread.cpp runs messages: a history of everything that the thread
-- accepted, beside what became of it, under any interleaving of producers, worker and exits.
use async_http.Prelude.{
  ℕ, ◌≡◌, refl, ap, Bool, false, List, [], ◌∷◌, ◌++◌, arith, append-nil, append_assoc, All,
  All-append, keep_if-append,
}
use async_http.Thread.{
  Thread, ThreadMsg, DelegateMsg, normal, high, Priority, FullPolicy, ExitPolicy, drain, discard,
  Outcome, accepted, Run, Event, invoked, dispatch_msg, exit_msg, make, create_thread, enqueue,
  wake, dispatch_delegate, process_step, exit_begin, exit_end, delegates,
}
use async_http.Thread.Bounds.{
  IsValid, delegates-append, make-IsValid, create_thread-IsValid, wake-IsValid,
  dispatch_delegate-IsValid, process_step-IsValid, exit_begin-IsValid, exit_end-IsValid,
}
use async_http.Thread.History.{
  Fate, ran, same, History, only, lane, messages, all_cancelled, admit, settle, cancel, Step,
  creates, dispatches, wakes, processes, exits, leaves, Reach, here, next,
}

module _ {ℓ} {M : Type ℓ} where
  abbrev OfPriority : Priority → DelegateMsg M → Type 0
  OfPriority p m = m.priority ≡ p

  -- Each lane holds messages of its own priority, and what was accepted at one priority is what has
  -- left at that priority followed by what still waits in its lane.
  pub record InOrder (s : History M) : Type ℓ where
    pub high_lane : All (OfPriority high) (lane high s.thread)
    pub normal_lane : All (OfPriority normal) (lane normal s.thread)
    pub high_order : only high s.taken_in ≡ only high (messages s.settled) ++ lane high s.thread
    pub normal_order :
        only normal s.taken_in ≡ only normal (messages s.settled) ++ lane normal s.thread

  messages-append :
      (xs ys : List (DelegateMsg M × Fate)) → messages (xs ++ ys) ≡ messages xs ++ messages ys
  messages-append [] ys = refl
  messages-append ((m, f) ∷ xs) ys = ap (◌∷◌ m) (messages-append xs ys)

  messages-all_cancelled : (ms : List (DelegateMsg M)) → messages (all_cancelled ms) ≡ ms
  messages-all_cancelled [] = refl
  messages-all_cancelled (m ∷ ms) = ap (◌∷◌ m) (messages-all_cancelled ms)

  only-lane : (p : Priority) (xs : List (DelegateMsg M)) → All (OfPriority p) xs → only p xs ≡ xs
  only-lane p [] h = refl
  only-lane normal (x ∷ xs) h = rw (h.0, only-lane normal xs h.1)
  only-lane high (x ∷ xs) h = rw (h.0, only-lane high xs h.1)

  only-other :
      (p q : Priority) (xs : List (DelegateMsg M))
      → same p q ≡ false
      → All (OfPriority q) xs
      → only p xs ≡ []
  only-other p q [] e h = refl
  only-other p q (x ∷ xs) e h = rw (h.0, e) (only-other p q xs e h.1)

  -- Messages that leave together, first those of the high lane.
  only_settled :
      (p : Priority) (xs : List (DelegateMsg M × Fate)) (hs ns : List (DelegateMsg M))
      → All (OfPriority high) hs
      → All (OfPriority normal) ns
      → only p (messages (xs ++ all_cancelled (hs ++ ns)))
        ≡ only p (messages xs) ++ elim p [ high ↦ hs | normal ↦ ns ]
  only_settled normal xs hs ns h n =
      simp (messages-append, messages-all_cancelled, keep_if-append)
        (rw (only-other normal high hs refl h, only-lane normal ns n))
  only_settled high xs hs ns h n =
      simp (messages-append, messages-all_cancelled, keep_if-append)
        (rw (only-lane high hs h, only-other high normal ns refl n, append-nil))

  enqueue-InOrder :
      (s : History M) (m : DelegateMsg M) (now : ℕ)
      → InOrder s
      → InOrder (admit m (enqueue s.thread m now) s)
  unfolding enqueue
  enqueue-InOrder s m now v = ground (
    arith,
    delegates-append s.thread.high_queue (dispatch_msg m now ∷ []),
    delegates-append s.thread.normal_queue (dispatch_msg m now ∷ []),
    keep_if-append (λ x. same high x.priority) s.taken_in (m ∷ []),
    keep_if-append (λ x. same normal x.priority) s.taken_in (m ∷ []),
    append_assoc (only high (messages s.settled)) (lane high s.thread) (m ∷ []),
    append_assoc (only normal (messages s.settled)) (lane normal s.thread) (m ∷ []),
    append-nil (only high s.taken_in),
    append-nil (only normal s.taken_in),
    All-append (OfPriority high) (lane high s.thread) (m ∷ []),
    All-append (OfPriority normal) (lane normal s.thread) (m ∷ []),
  )

  wake-InOrder :
      (s : History M) (m : DelegateMsg M) (now : ℕ)
      → InOrder s
      → InOrder (admit m (wake s.thread m now) s)
  unfolding wake
  wake-InOrder s m now v = ground (arith, enqueue-InOrder s m now v)

  dispatch_delegate-InOrder :
      (s : History M) (m : DelegateMsg M) (now : ℕ)
      → InOrder s
      → InOrder (admit m (dispatch_delegate s.thread s.thread m now) s)
  unfolding dispatch_delegate
  dispatch_delegate-InOrder s m now v =
      ground (arith, enqueue-InOrder s m now v, wake-InOrder s m now v)

  -- The head of a lane joins the settled messages.
  only_ran :
      (p : Priority) (xs : List (DelegateMsg M × Fate)) (m : DelegateMsg M)
      → only p (messages (xs ++ ((m, ran) ∷ []))) ≡ only p (messages xs) ++ only p (m ∷ [])
  only_ran p xs m = simp (messages-append, keep_if-append)

  lanes-InOrder :
      (run : M → Run) (due : Bool) (s : History M) (hs ns : List (ThreadMsg M))
      → let t = record s.thread { high_queue = hs; normal_queue = ns } in
        InOrder (record s { thread = t })
        → InOrder (settle (process_step run due t) (record s { thread = t }))
  unfolding process_step
  lanes-InOrder run due s (dispatch_msg m e ∷ hs) ns v = ground (
    arith,
    only_ran high s.settled m,
    only_ran normal s.settled m,
    append_assoc (only high (messages s.settled)) (m ∷ []) (delegates hs),
    append-nil (only normal (messages s.settled)),
  )
  lanes-InOrder run due s (exit_msg ∷ hs) ns v = ground arith
  lanes-InOrder run due s [] (dispatch_msg m e ∷ ns) v = ground (
    arith,
    only_ran high s.settled m,
    only_ran normal s.settled m,
    append_assoc (only normal (messages s.settled)) (m ∷ []) (delegates ns),
    append-nil (only high (messages s.settled)),
  )
  lanes-InOrder run due s [] (exit_msg ∷ ns) v = ground arith
  lanes-InOrder run due s [] [] v = ground arith

  exit_begin-InOrder :
      (p : ExitPolicy) (s : History M) → InOrder s → InOrder (cancel (exit_begin p s.thread) s)
  unfolding exit_begin
  exit_begin-InOrder drain s v = ground (
    arith,
    append-nil s.settled,
    delegates-append s.thread.normal_queue (exit_msg ∷ []),
    append-nil (delegates s.thread.normal_queue),
  )
  exit_begin-InOrder discard s v = ground (
    arith,
    only_settled high s.settled (lane high s.thread) (lane normal s.thread) v.high_lane
        v.normal_lane,
    only_settled normal s.settled (lane high s.thread) (lane normal s.thread) v.high_lane
        v.normal_lane,
    append-nil (only high (messages s.settled) ++ lane high s.thread),
    append-nil (only normal (messages s.settled) ++ lane normal s.thread),
  )

  exit_end-InOrder : (s : History M) → InOrder s → InOrder (cancel (exit_end s.thread) s)
  unfolding exit_end
  exit_end-InOrder s v = ground (
    arith,
    only_settled high s.settled (lane high s.thread) (lane normal s.thread) v.high_lane
        v.normal_lane,
    only_settled normal s.settled (lane high s.thread) (lane normal s.thread) v.high_lane
        v.normal_lane,
    append-nil (only high (messages s.settled) ++ lane high s.thread),
    append-nil (only normal (messages s.settled) ++ lane normal s.thread),
  )

  Step-InOrder : {s u : History M} → Step s u → InOrder s → InOrder u
  unfolding create_thread
  Step-InOrder creates v = ground arith
  Step-InOrder {s} (dispatches m now) v = dispatch_delegate-InOrder s m now v
  Step-InOrder {s} (wakes m now live) v = wake-InOrder s m now v
  Step-InOrder {s} (processes run due) v =
      lanes-InOrder run due s s.thread.high_queue s.thread.normal_queue v
  Step-InOrder {s} (exits p live) v = exit_begin-InOrder p s v
  Step-InOrder {s} leaves v = exit_end-InOrder s v

  -- Under any interleaving of creations, dispatches, woken producers, rounds of the worker and
  -- exits with either policy, the messages of each priority that the thread has accepted are those
  -- that have left it, each run once or cancelled once, followed by those that wait, in the order
  -- of their acceptance.
  pub Reach-InOrder :
      {size : ℕ} {policy : FullPolicy} {s : History M} → Reach size policy s → InOrder s
  unfolding make
  Reach-InOrder here = ground arith
  Reach-InOrder (next r st) = Step-InOrder st (Reach-InOrder r)

  thread-admit :
      (m : DelegateMsg M) (r : Outcome × Thread M) (s : History M) → (admit m r s).thread ≡ r.1
  thread-admit m (accepted, t) s = refl
  thread-admit m (_, t) s = refl

  thread-settle : (r : Event M × Thread M) (s : History M) → (settle r s).thread ≡ r.1
  thread-settle (invoked m r, t) s = refl
  thread-settle (_, t) s = refl

  Step-IsValid : {s u : History M} → Step s u → IsValid s.thread → IsValid u.thread
  Step-IsValid creates v = create_thread-IsValid v
  Step-IsValid {s} (dispatches m now) v =
      rw (thread-admit m (dispatch_delegate s.thread s.thread m now) s)
        (dispatch_delegate-IsValid m now (λ _ c _. c) v v)
  Step-IsValid {s} (wakes m now live) v =
      rw (thread-admit m (wake s.thread m now) s) (wake-IsValid m now live v)
  Step-IsValid {s} (processes run due) v =
      rw (thread-settle (process_step run due s.thread) s) (process_step-IsValid run due v)
  Step-IsValid {s} (exits p live) v = exit_begin-IsValid p live v
  Step-IsValid {s} leaves v = exit_end-IsValid v

  -- In every state that a thread can reach, the delegates that wait do not exceed the thread's
  -- limit, which is not 0; an exit message waits only once the thread is told to exit; and a thread
  -- that does not exist has empty lanes.
  pub Reach-bounded :
      {size : ℕ} {policy : FullPolicy} {s : History M} → Reach size policy s → IsValid s.thread
  Reach-bounded here = make-IsValid _ _
  Reach-bounded (next r st) = Step-IsValid st (Reach-bounded r)

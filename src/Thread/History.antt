-- ===== src/Thread/History.antt =====
-- A history of what a thread of StdlibThread.cpp accepted and of what became of it, and the steps
-- that any interleaving of callers, worker and exits is made of.
use async_http.Prelude.{ℕ, ◌≡◌, Bool, true, false, List, [], ◌∷◌, ◌++◌, keep_if}
use async_http.Thread.{
  Thread, DelegateMsg, normal, high, Priority, FullPolicy, ExitPolicy, Outcome, accepted, Run,
  Event, invoked, make, create_thread, wake, dispatch_delegate, process_step, exit_begin, exit_end,
  delegates,
}

-- What became of an accepted message.
pub data Fate : Type 0 where
  ran cancelled : Fate

abbrev pub same : Priority → Priority → Bool
same normal normal = true
same high high = true
same _ _ = false

-- The thread, with the messages that it accepted and those that have left it, each in order.
pub record History {ℓ} (M : Type ℓ) : Type ℓ where
  pub thread : Thread M
  pub taken_in : List (DelegateMsg M)
  pub settled : List (DelegateMsg M × Fate)

module _ {ℓ} {M : Type ℓ} where
  -- The delegates of one priority, in order.
  abbrev pub only : Priority → List (DelegateMsg M) → List (DelegateMsg M)
  only p = keep_if (λ m. same p m.priority)

  abbrev pub lane : Priority → Thread M → List (DelegateMsg M)
  lane normal t = delegates t.normal_queue
  lane high t = delegates t.high_queue

  abbrev pub messages : List (DelegateMsg M × Fate) → List (DelegateMsg M)
  messages [] = []
  messages ((m, f) ∷ rest) = m ∷ messages rest

  abbrev pub all_cancelled : List (DelegateMsg M) → List (DelegateMsg M × Fate)
  all_cancelled [] = []
  all_cancelled (m ∷ ms) = (m, cancelled) ∷ all_cancelled ms

  abbrev pub admit : DelegateMsg M → Outcome × Thread M → History M → History M
  admit m (accepted, t) s = record s { thread = t; taken_in = s.taken_in ++ (m ∷ []) }
  admit m (_, t) s = record s { thread = t }

  abbrev pub settle : Event M × Thread M → History M → History M
  settle (invoked m r, t) s = record s { thread = t; settled = s.settled ++ ((m, ran) ∷ []) }
  settle (_, t) s = record s { thread = t }

  abbrev pub cancel : List (DelegateMsg M) × Thread M → History M → History M
  cancel (ms, t) s = record s { thread = t; settled = s.settled ++ all_cancelled ms }

  -- What can happen to a thread: any caller, and the worker itself, may move at any time.
  pub data Step (s : History M) : History M → Type ℓ where
    creates : Step s (record s { thread = create_thread s.thread })
    dispatches :
        (m : DelegateMsg M) (now : ℕ)
        → Step s (admit m (dispatch_delegate s.thread s.thread m now) s)
    wakes :
        (m : DelegateMsg M) (now : ℕ)
        → (s.thread.exit ≡ false → s.thread.created ≡ true)
        → Step s (admit m (wake s.thread m now) s)
    processes : (run : M → Run) (due : Bool) → Step s (settle (process_step run due s.thread) s)
    exits : (p : ExitPolicy) → s.thread.created ≡ true → Step s (cancel (exit_begin p s.thread) s)
    leaves : Step s (cancel (exit_end s.thread) s)

  abbrev pub start : ℕ → FullPolicy → History M
  start size policy = record { thread = make size policy; taken_in = []; settled = [] }

  pub data Reach (size : ℕ) (policy : FullPolicy) : History M → Type ℓ where
    here : Reach size policy (start size policy)
    next : {s u : History M} → Reach size policy s → Step s u → Reach size policy u

-- ===== src/Thread/Exit.antt =====
-- `ExitThread` of StdlibThread.cpp: the worker's loop run to its end, and what happens to the messages
-- that wait when a thread is told to exit.
use async_http.Prelude.{
  ℕ, zero, suc, ◌+◌, ◌<◌, ◌≡◌, refl, ap, true, false, List, [], ◌∷◌, ◌++◌, arith, length,
  if◌then◌else◌, length-append, append-nil,
}
use async_http.Thread.{
  Thread, ThreadMsg, DelegateMsg, dispatch_msg, exit_msg, ExitPolicy, drain, discard, completed,
  failed, self_exit, Run, loop_returned, idle_waited, idle_run, invoked, process_step, exit_begin,
  exit_end, delegates, get_queue_size, after_run,
}
use async_http.Thread.Bounds.{IsValid, delegates-append, length-delegates-le}

-- How the loop of `Process` ends: it returns, a delegate fails (a fault, which does not return), or it
-- goes to wait for a message. Fuel that runs out is told apart.
pub data Ending : Type 0 where
  returned crashed waiting out_of_fuel : Ending

pub record Exited {ℓ} (M : Type ℓ) : Type ℓ where
  pub ending : Ending
  pub ran : List (DelegateMsg M)
  pub cancelled : List (DelegateMsg M)
  pub thread : Thread M

module _ {ℓ} {M : Type ℓ} where
  abbrev before :
      DelegateMsg M
      → Ending × List (DelegateMsg M) × Thread M
      → Ending × List (DelegateMsg M) × Thread M
  before m r = (r.0, m ∷ r.1, r.2)

  -- The loop of `Process`, with no producer beside it and no idle handler due.
  unfoldable pub process : ℕ → (M → Run) → Thread M → Ending × List (DelegateMsg M) × Thread M
  unfolding process_step
  process zero run t = (out_of_fuel, [], t)
  process (suc f) run t =
      let step = process_step run false t in
      let rest = process f run step.1 in
      elim step.0 [
        | loop_returned ↦ (returned, [], step.1)
        | idle_waited ↦ (waiting, [], step.1)
        | idle_run ↦ rest
        | invoked m completed ↦ before m rest
        | invoked m failed ↦ (crashed, m ∷ [], step.1)
        | invoked m self_exit ↦ (returned, m ∷ [], step.1)
      ]

  -- `ExitThread` called from another thread, which joins the worker. The fuel is one round for each
  -- message that waits.
  unfoldable pub exit_thread : ExitPolicy → (M → Run) → Thread M → Exited M
  unfolding exit_begin exit_end process
  exit_thread policy run t =
      let begun = exit_begin policy t in
      let joined = process (get_queue_size begun.1) run begun.1 in
      let left = exit_end joined.2 in
      if t.created
      then record {
        ending = joined.0;
        ran = joined.1;
        cancelled = begun.0 ++ left.0;
        thread = left.1;
      }
      else record { ending = returned; ran = []; cancelled = []; thread = t }

  -- `ExitThread` called by a delegate that runs on the thread itself, which it detaches.
  unfoldable pub exit_thread_self : ExitPolicy → Thread M → List (DelegateMsg M) × Thread M
  unfolding exit_begin exit_end
  exit_thread_self policy t =
      let begun = exit_begin policy t in
      let left = exit_end begun.1 in if t.created then (begun.0 ++ left.0, left.1) else ([], t)

  abbrev pub counted : Run → ℕ → Thread M → Thread M
  counted r e t = record t { stats = after_run r e t.stats }

  -- Both lanes, run from the front until the exit message at the back of the normal lane.
  process_drains :
      (run : M → Run) (t : Thread M) (hs ns : List (ThreadMsg M)) (f : ℕ)
      → ((m : M) → (run m).result ≡ completed)
      → length hs ≡ length (delegates hs)
      → length ns ≡ length (delegates ns)
      → length hs + length ns < f
      → let r =
          process f run (record t { high_queue = hs; normal_queue = ns ++ (exit_msg ∷ []) }) in
        (r.0 ≡ returned)
        × (r.1 ≡ delegates hs ++ delegates ns)
        × (r.2.high_queue ≡ [])
        × (r.2.normal_queue ≡ [])
  unfolding process
  process_drains run t hs ns zero good qh qn h = absurd (omega arith)
  process_drains run t (dispatch_msg m e ∷ hs) ns (suc f) good qh qn h =
      let ih =
        process_drains run (counted (run m.invoker) e t) hs ns f good (omega arith) qn
          (omega arith) in
      rw (good m.invoker) (ih.0, ap (◌∷◌ m) ih.1, ih.2, ih.3)
  process_drains run t (exit_msg ∷ hs) ns (suc f) good qh qn h =
      absurd (omega (arith, length-delegates-le hs))
  process_drains run t [] (dispatch_msg m e ∷ ns) (suc f) good qh qn h =
      let ih =
        process_drains run (counted (run m.invoker) e t) [] ns f good refl (omega arith)
          (omega arith) in
      rw (good m.invoker) (ih.0, ap (◌∷◌ m) ih.1, ih.2, ih.3)
  process_drains run t [] (exit_msg ∷ ns) (suc f) good qh qn h =
      absurd (omega (arith, length-delegates-le ns))
  process_drains run t [] [] (suc f) good qh qn h = (refl, refl, refl, refl)

  -- What waits in a thread, in the order in which its worker would run it.
  abbrev pub pending : Thread M → List (DelegateMsg M)
  pending t = delegates t.high_queue ++ delegates t.normal_queue

  -- ExitThread with the drain policy, on a valid thread that exists and is not yet told to exit,
  -- whose delegates complete, returns after the worker has run everything that waits, the high lane
  -- first and each lane in order; it cancels nothing and leaves no thread and empty lanes.
  pub exit_thread_drains :
      (t : Thread M) (run : M → Run)
      → IsValid t
      → t.created ≡ true
      → t.exit ≡ false
      → ((m : M) → (run m).result ≡ completed)
      → let x = exit_thread drain run t in
        (x.ending ≡ returned)
        × (x.ran ≡ pending t)
        × (x.cancelled ≡ [])
        × (x.thread.created ≡ false)
        × (pending x.thread ≡ [])
  unfolding exit_thread
  exit_thread_drains t run v c e good = ground (
    arith,
    process_drains run (record t { exit = true }) t.high_queue t.normal_queue
        (length t.high_queue + length (t.normal_queue ++ (exit_msg ∷ []))) good (v.quiet_high e)
        (v.quiet_normal e),
    length-append t.normal_queue (exit_msg ∷ []),
  )

  -- ExitThread with the discard policy, on a thread that exists, runs nothing more and cancels
  -- everything that waits, the high lane first and each lane in order; it leaves no thread and
  -- empty lanes.
  exit_thread_discards :
      (t : Thread M) (run : M → Run)
      → t.created ≡ true
      → let x = exit_thread discard run t in
        (x.ending ≡ returned)
        × (x.ran ≡ [])
        × (x.cancelled ≡ pending t)
        × (x.thread.created ≡ false)
        × (pending x.thread ≡ [])
  unfolding exit_thread
  exit_thread_discards t run c = ground (arith, append-nil (pending t))

  -- A thread that exits itself cancels everything that waits, the high lane first and each lane in
  -- order, whatever the policy, and leaves no thread and empty lanes.
  pub exit_thread_self_discards :
      (t : Thread M) (policy : ExitPolicy)
      → t.created ≡ true
      → let (cancelled, t') = exit_thread_self policy t in
        (cancelled ≡ pending t) × (t'.created ≡ false) × (t'.exit ≡ true) × (pending t' ≡ [])
  unfolding exit_thread_self
  exit_thread_self_discards t drain c = ground (
    arith,
    delegates-append t.normal_queue (exit_msg ∷ []),
    append-nil (delegates t.normal_queue),
  )
  exit_thread_self_discards t discard c = ground (arith, append-nil (pending t))

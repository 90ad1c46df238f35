-- ===== src/Tests/Threads.antt =====
-- Runs of the worker thread of StdlibThread.cpp.
use async_http.Prelude.{ℕ, ◌≡◌, ◌≢◌, ◌↔◌, refl, true, false, some, [], ◌∷◌, arith}
use async_http.Thread.{
  Thread, DelegateMsg, dispatch_msg, normal, high, drop, drain, Run, completed, accepted, dropped,
  create_thread, dispatch_delegate, no_stats,
}
use async_http.Thread.Bounds.{IsValid}
use async_http.Thread.Dispatch.{dispatch_delegate-accepted_iff, HasRoom}
use async_http.Thread.History.{History, start, admit, Reach, here, next, creates, dispatches}
use async_http.Thread.Order.{InOrder, Reach-InOrder, Reach-bounded}
use async_http.Thread.Exit.{returned, exit_thread, pending, exit_thread_drains}

abbrev message : ℕ → DelegateMsg ℕ
message n = record { priority = normal; invoker = n }

abbrev urgent : ℕ → DelegateMsg ℕ
urgent n = record { priority = high; invoker = n }

abbrev completes : ℕ → Run
completes n = record { result = completed; dequeued = 9; started = 9; ended = 12 }

-- A thread with a limit of three, on which three messages wait.
abbrev busy : Thread ℕ
busy = record {
  created = true;
  exit = false;
  high_queue = dispatch_msg (urgent 3) 7 ∷ [];
  normal_queue = dispatch_msg (message 1) 5 ∷ dispatch_msg (message 2) 6 ∷ [];
  max_queue_size = 3;
  full_policy = drop;
  dropped_handler = true;
  stats = no_stats;
}

busy-IsValid : IsValid busy
busy-IsValid = ground arith

abbrev created : History ℕ
created = record (start 2 drop) { thread = create_thread (start 2 drop).thread }

abbrev sent : History ℕ
sent = admit (message 7) (dispatch_delegate created.thread created.thread (message 7) 5) created

sent_reached : Reach 2 drop sent
sent_reached = next (next here creates) (dispatches (message 7) 5)

Reach-InOrder_example : InOrder sent
Reach-InOrder_example = Reach-InOrder sent_reached

Reach-bounded_example : IsValid sent.thread
Reach-bounded_example = Reach-bounded sent_reached

exit_thread_drains_example :
    let x = exit_thread drain completes busy in
    (x.ending ≡ returned)
    × (x.ran ≡ urgent 3 ∷ message 1 ∷ message 2 ∷ [])
    × (x.cancelled ≡ [])
    × (x.thread.created ≡ false)
    × (pending x.thread ≡ [])
exit_thread_drains_example = exit_thread_drains busy completes busy-IsValid refl refl (λ m. refl)

dispatch_delegate-accepted_iff_example :
    ((dispatch_delegate busy busy (message 4) 8).0 ≡ accepted)
    ↔ ((busy.exit ≡ false) × (busy.created ≡ true) × HasRoom busy busy (message 4) 8)
dispatch_delegate-accepted_iff_example =
    dispatch_delegate-accepted_iff busy busy (message 4) 8 busy-IsValid

refuses : (dispatch_delegate busy busy (message 4) 8).0 ≢ accepted
unfolding dispatch_delegate
refuses h = ground arith

drops : (dispatch_delegate busy busy (message 4) 8).0 ≡ dropped (some 3)
unfolding dispatch_delegate
drops = refl

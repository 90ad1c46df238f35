-- ===== src/Thread/Dispatch.antt =====
-- When StdlibThread::DispatchDelegate accepts a message, and what it leaves alone when it does not.
use async_http.Prelude.{ℕ, ◌<◌, ◌≤◌, ◌≡◌, ◌≢◌, ◌↔◌, ◌⊎◌, true, false, arith, some}
use async_http.Thread.{
  Thread, DelegateMsg, fault, timeout, accepted, dropped, dispatch_delegate, get_queue_size,
}
use async_http.Thread.Bounds.{IsValid}

module _ {ℓ} {M : Type ℓ} (t w : Thread M) (msg : DelegateMsg M) (now : ℕ) where
  -- There is room in the thread, or a wait ends with room in the state woken in.
  abbrev pub HasRoom : Type 0
  HasRoom =
      (get_queue_size t < t.max_queue_size)
      ⊎ ((t.max_queue_size ≤ get_queue_size t)
          × (t.full_policy ≡ timeout)
          × (w.exit ≡ false)
          × (get_queue_size w < w.max_queue_size))

  -- A dispatch to a valid thread is accepted exactly when the thread exists, is not told to exit,
  -- and has room: at once, or under the timeout policy when the wait ends, if it is not told to
  -- exit then.
  pub dispatch_delegate-accepted_iff :
      IsValid t
      → ((dispatch_delegate t w msg now).0 ≡ accepted)
        ↔ ((t.exit ≡ false) × (t.created ≡ true) × HasRoom)
  unfolding dispatch_delegate
  dispatch_delegate-accepted_iff v =
      (λ h. (ground arith, ground arith, ground arith), λ h. ground arith)

  -- A message that is not accepted changes nothing: the thread is as it was found, or as it was
  -- when the wait ended.
  pub dispatch_delegate_refused :
      (dispatch_delegate t w msg now).0 ≢ accepted
      → ((dispatch_delegate t w msg now).1 ≡ t) ⊎ ((dispatch_delegate t w msg now).1 ≡ w)
  unfolding dispatch_delegate
  dispatch_delegate_refused h = ground arith

  -- The dropped handler is called only when the thread is full, with the number of messages that it
  -- then holds, and never under the fault policy.
  pub dispatch_delegate-dropped :
      (n : ℕ)
      → (dispatch_delegate t w msg now).0 ≡ dropped (some n)
      → (t.full_policy ≢ fault)
        × (t.max_queue_size ≤ get_queue_size t)
        × (n ≡ get_queue_size (dispatch_delegate t w msg now).1)
        × ((dispatch_delegate t w msg now).1.max_queue_size ≤ n)
  unfolding dispatch_delegate
  dispatch_delegate-dropped n h = ground arith

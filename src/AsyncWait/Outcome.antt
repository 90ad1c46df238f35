-- ===== src/AsyncWait/Outcome.antt =====
-- The interleavings of the two threads of a blocking call of DelegateAsyncWait.h.
use async_http.Prelude.{
  ℕ, ◌≤◌, ◌≡◌, ◌≢◌, refl, sym, ◌∙◌, ◌⊎◌, inl, inr, Bool, true, false, Option, none, some, arith,
}
use async_http.AsyncWait.{
  Msg, blocked, woken, ended, Receiver, queued, running, handled, dispatch, cancel, wait,
  start_invoke, end_invoke, finish,
}

abbrev is_some {ℓ} : {V : Type ℓ} → Option V → Bool
is_some none = false
is_some (some v) = true

-- How often the target may have been called.
abbrev calls : Receiver → ℕ
calls queued = 0
calls running = 1
calls handled = 1

module _ {ℓ} {V : Type ℓ} where
  pub data Step : Msg V → Msg V → Type ℓ where
    cancel_step : (m : Msg V) → m.receiver ≡ queued → Step m (cancel m)
    start_step : (m : Msg V) → m.receiver ≡ queued → Step m (start_invoke m)
    end_step : (m : Msg V) (result : Option V) → m.receiver ≡ running → Step m (end_invoke result m)
    wait_step : (m : Msg V) → m.caller ≡ blocked → Step m (wait m)
    finish_step :
        (m : Msg V) (default : V) (waited : Bool)
        → m.caller ≡ woken waited
        → m.receiver ≢ running
        → Step m (finish default waited m)

  pub data Reach : Msg V → Type ℓ where
    begin : (is_accepted : Bool) → Reach (dispatch is_accepted)
    step : {m m' : Msg V} → Reach m → Step m m' → Reach m'

  pub data Later : Msg V → Msg V → Type ℓ where
    same : {m : Msg V} → Later m m
    next : {m m' m'' : Msg V} → Later m m' → Step m' m'' → Later m m''

  -- What holds between any two steps.
  record IsSound (m : Msg V) : Type ℓ where
    counted : m.invocations ≤ calls m.receiver
    running_once : m.receiver ≡ running → m.invocations ≡ 1
    stored :
        m.invoke_succeeded ≡ true
        → (m.invocations ≡ 1) × (is_some m.ret_val ≡ true) × (m.receiver ≡ handled)
    unsuccessful : m.invoke_succeeded ≡ false → m.ret_val ≡ none
    left :
        (r : Option V)
        → m.caller ≡ ended r
        → (m.invoker_waiting ≡ false)
          × (m.receiver ≢ running)
          × ((r ≡ none) ⊎ ((r ≡ m.ret_val) × (m.invoke_succeeded ≡ true)))
    waits :
        m.caller ≡ blocked → (m.invoker_waiting ≡ true) × (m.receiver ≡ handled → m.signaled ≡ true)
    woken_waits : (b : Bool) → m.caller ≡ woken b → m.invoker_waiting ≡ true

  dispatch-IsSound : (b : Bool) → IsSound (dispatch b)
  unfolding dispatch
  dispatch-IsSound true = ground arith
  dispatch-IsSound false = ground arith

  Step-IsSound : {m m' : Msg V} → IsSound m → Step m m' → IsSound m'
  unfolding cancel wait start_invoke end_invoke finish
  Step-IsSound v (cancel_step m q) = ground arith
  Step-IsSound v (start_step m q) = ground arith
  Step-IsSound v (end_step m none q) = ground arith
  Step-IsSound v (end_step m (some x) q) = ground arith
  Step-IsSound v (wait_step m b) = ground arith
  Step-IsSound v (finish_step m default w b free) = ground arith

  Reach-IsSound : {m : Msg V} → Reach m → IsSound m
  Reach-IsSound (begin b) = dispatch-IsSound b
  Reach-IsSound (step r t) = Step-IsSound (Reach-IsSound r) t

  -- In every interleaving of the two threads, a blocking call returns a value only if its target
  -- has been called exactly once and has returned that value.
  pub call_returns :
      {m : Msg V} (v : V)
      → Reach m
      → m.caller ≡ ended (some v)
      → (m.invocations ≡ 1)
        × (m.receiver ≡ handled)
        × (m.invoke_succeeded ≡ true)
        × (m.ret_val ≡ some v)
  call_returns v r e =
      let s = Reach-IsSound r in
      elim ((s.left (some v) e).2) [
        | inl nothing ↦ absurd (ground (arith, nothing))
        | inr (same_value, ok) ↦ let done = s.stored ok in (done.0, done.2, ok, sym same_value)
      ]

  ended_stays :
      {m m' : Msg V} (r : Option V)
      → IsSound m
      → m.caller ≡ ended r
      → Step m m'
      → (m'.caller ≡ ended r) × (m'.invocations ≡ m.invocations)
  unfolding cancel wait start_invoke end_invoke finish
  ended_stays r s e (cancel_step m q) = ground arith
  ended_stays r s e (start_step m q) = ground (arith, s.left r e)
  ended_stays r s e (end_step m result q) = absurd ((s.left r e).1 q)
  ended_stays r s e (wait_step m b) = ground arith
  ended_stays r s e (finish_step m default w b free) = ground arith

  later :
      {m m' : Msg V} {r : Option V}
      → Reach m
      → m.caller ≡ ended r
      → Later m m'
      → Reach m' × (m'.caller ≡ ended r) × (m'.invocations ≡ m.invocations)
  later reach e same = (reach, e, refl)
  later {r = r} reach e (next l t) =
      let ih = later reach e l in
      let n = ended_stays r (Reach-IsSound ih.0) ih.1 t in (step ih.0 t, n.0, n.1 ∙ ih.2)

  -- In every interleaving of the two threads, once a blocking call has returned, with a value or
  -- without, its result stays and its target is not called any more.
  pub returned_call_stays :
      {m m' : Msg V} (r : Option V)
      → Reach m
      → m.caller ≡ ended r
      → Later m m'
      → (m'.caller ≡ ended r) × (m'.invocations ≡ m.invocations)
  returned_call_stays r reach e l = let x = later reach e l in (x.1, x.2)

  -- In every interleaving of the two threads, a sender that still waits when its message has been
  -- dealt with, by a call of the target, one that threw, or a cancellation, is woken by the
  -- semaphore.
  pub blocked_call_wakes :
      {m : Msg V}
      → Reach m
      → m.caller ≡ blocked
      → m.receiver ≡ handled
      → (wait m).caller ≡ woken true
  unfolding wait
  blocked_call_wakes r b h = let w = (Reach-IsSound r).waits b in rw (w.1 h) refl

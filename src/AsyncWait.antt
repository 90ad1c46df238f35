-- ===== src/AsyncWait.antt =====
-- DelegateMQ/delegate/DelegateAsyncWait.h with Semaphore.h: a call that blocks until another thread
-- has run its target, or a timeout.
-- One call is a message shared by two threads. Its lock is held from `start_invoke` to `end_invoke`,
-- and by `finish`, so what happens under it is one step; the wait can end between any two.
pub mod Outcome
use async_http.Prelude.{
  ℕ, zero, suc, ◌+◌, Bool, true, false, not, ◌&&◌, Option, none, some, if◌then◌else◌,
}

-- The sender: in `Semaphore::Wait`, past it with what it returned, or returned with the result.
pub data Caller {ℓ} (V : Type ℓ) : Type ℓ where
  blocked : Caller V
  woken : Bool → Caller V
  ended : Option V → Caller V

-- The message at its destination: in the queue, its target running, or dealt with.
pub data Receiver : Type 0 where
  queued running handled : Receiver

pub record Msg {ℓ} (V : Type ℓ) : Type ℓ where
  pub invoker_waiting : Bool
  pub invoke_succeeded : Bool
  pub signaled : Bool  -- of the semaphore
  pub ret_val : Option V  -- what the clone that the receiver runs has stored
  pub caller : Caller V
  pub receiver : Receiver
  pub invocations : ℕ  -- how often the target has been called

module _ {ℓ} {V : Type ℓ} where
  -- `DispatchAsyncWait` up to its wait; a dispatch that is refused goes on without one.
  unfoldable pub dispatch : Bool → Msg V
  dispatch is_accepted = record {
    invoker_waiting = true;
    invoke_succeeded = false;
    signaled = false;
    ret_val = none;
    caller = (if is_accepted then blocked else woken false);
    receiver = (if is_accepted then queued else handled);
    invocations = 0;
  }

  -- `Semaphore::Signal`, and `Cancel`.
  abbrev pub signal : Msg V → Msg V
  signal m = record m { signaled = true }

  unfoldable pub cancel : Msg V → Msg V
  cancel m = record (signal m) { receiver = handled }

  -- `Semaphore::Wait` when it returns, in the state that it returns in.
  unfoldable pub wait : Msg V → Msg V
  wait m =
      if m.signaled
      then record m { signaled = false; caller = woken true }
      else record m { caller = woken false }

  -- `Invoke` up to the call of the target.
  unfoldable pub start_invoke : Msg V → Msg V
  start_invoke m =
      if m.invoker_waiting
      then record m { receiver = running; invocations = m.invocations + 1 }
      else record m { receiver = handled }

  -- The rest of `Invoke`, once the target has returned a value or thrown.
  unfoldable pub end_invoke : Option V → Msg V → Msg V
  end_invoke (some v) m = record (signal m) {
    ret_val = some v;
    invoke_succeeded = true;
    receiver = handled;
  }
  end_invoke none m = record (signal m) { receiver = handled }

  -- The value that a call returns, or `RetType()` if none was stored.
  abbrev value_or : V → Option V → V
  value_or default none = default
  value_or default (some v) = v

  -- The end of `DispatchAsyncWait` and of `AsyncInvoke`, with what the wait has returned.
  unfoldable pub finish : V → Bool → Msg V → Msg V
  finish default waited m =
      let success = waited && m.invoke_succeeded in
      record m {
        invoker_waiting = false;
        caller = ended (if success then some (value_or default m.ret_val) else none);
      }

-- ===== src/Tests/Waits.antt =====
-- Runs of the blocking call of DelegateAsyncWait.h.
use async_http.Prelude.{ℕ, ◌≡◌, refl, true, false, some, none, arith}
use async_http.AsyncWait.{
  Msg, blocked, woken, ended, handled, dispatch, wait, start_invoke, end_invoke, finish,
}
use async_http.AsyncWait.Outcome.{
  Reach, Later, begin, step, same, next, start_step, end_step, wait_step, finish_step, call_returns,
  returned_call_stays, blocked_call_wakes,
}

abbrev sent : Msg ℕ
sent = dispatch true

abbrev ran : Msg ℕ
ran = end_invoke (some 5) (start_invoke sent)

ran_reached : Reach ran
unfolding dispatch start_invoke
ran_reached =
    step (step (begin true) (start_step sent refl)) (end_step (start_invoke sent) (some 5) refl)

ran_blocked : ran.caller ≡ blocked
unfolding dispatch start_invoke end_invoke
ran_blocked = refl

ran_handled : ran.receiver ≡ handled
unfolding end_invoke
ran_handled = refl

blocked_call_wakes_example : (wait ran).caller ≡ woken true
blocked_call_wakes_example = blocked_call_wakes ran_reached ran_blocked ran_handled

abbrev answered : Msg ℕ
answered = finish 0 true (wait ran)

answered_reached : Reach answered
unfolding dispatch start_invoke end_invoke wait
answered_reached =
    step (step ran_reached (wait_step ran refl))
      (finish_step (wait ran) 0 true refl (λ h. ground arith))

answered_ended : answered.caller ≡ ended (some 5)
unfolding dispatch start_invoke end_invoke wait finish
answered_ended = refl

call_returns_example :
    (answered.invocations ≡ 1)
    × (answered.receiver ≡ handled)
    × (answered.invoke_succeeded ≡ true)
    × (answered.ret_val ≡ some 5)
call_returns_example = call_returns 5 answered_reached answered_ended

-- The sender gives up before its message is reached.
abbrev expired : Msg ℕ
expired = finish 0 false (wait sent)

expired_reached : Reach expired
unfolding dispatch wait
expired_reached =
    step (step (begin true) (wait_step sent refl))
      (finish_step (wait sent) 0 false refl (λ h. ground arith))

expired_ended : expired.caller ≡ ended none
unfolding dispatch wait finish
expired_ended = refl

expired_later : Later expired (start_invoke expired)
unfolding dispatch wait finish
expired_later = next same (start_step expired refl)

returned_call_stays_example :
    ((start_invoke expired).caller ≡ ended none)
    × ((start_invoke expired).invocations ≡ expired.invocations)
returned_call_stays_example = returned_call_stays none expired_reached expired_ended expired_later

-- ===== src/Http/Client/Expired.antt =====
-- A blocking call of async_http.cpp whose deadline comes before the worker reaches its message.
use async_http.Prelude.{
  ℕ, zero, suc, ◌≤◌, ◌≡◌, refl, ap, sym, ◌∙◌, subst, Bool, false, none, some, List, [], ◌∷◌, ◌++◌,
  length, take, All, contains, erase_first, ◌==◌, arith,
}
use async_http.Prelude.Maps.{lookup, erase, lookup-insert, lookup-erase}
use async_http.Thread.{DelegateMsg, Run, completed, dispatch_delegate}
use async_http.Thread.Exit.{pending}
use async_http.Thread.Work.{IsReady, drop_first, dispatch_delegate_appends}
use async_http.Http.{Bytes, HttpResponse, Curl}
use async_http.Http.Client.{
  Request, get, post, Task, wait_task, callback_task, future_task, cleanup_task, Worker, Client,
  Result, done, threw, timed_out, message, transfer, invoke, execute, work, await, start_waiting,
  send_wait, answered, wait_for, get_wait, post_wait,
}
use async_http.Http.Client.Wait.{
  not_taken, IsUp, take-short, erase_first-head, work_takes, execute-append, execute-waiting,
}

-- Whether a task belongs to a blocking call.
abbrev pub awaits : ℕ → Task → Bool
awaits i (wait_task j q) = j == i
awaits i (callback_task q cb) = false
awaits i (future_task j q) = false
awaits i (cleanup_task j) = j == i

-- No message is that of the call.
abbrev pub NoneAwaits : ℕ → List (DelegateMsg Task) → Type 0
NoneAwaits i ms = All (λ (m : DelegateMsg Task). awaits i m.invoker ≡ false) ms

All-take : (i n : ℕ) (ms : List (DelegateMsg Task)) → NoneAwaits i ms → NoneAwaits i (take n ms)
All-take i zero ms h = tt
All-take i (suc n) [] h = h
All-take i (suc n) (m ∷ ms) h = (h.0, All-take i n ms h.1)

pub take_drop : (n : ℕ) (ms : List (DelegateMsg Task)) → take n ms ++ drop_first n ms ≡ ms
take_drop zero ms = refl
take_drop (suc n) [] = refl
take_drop (suc n) (m ∷ ms) = ap (◌∷◌ m) (take_drop n ms)

module _ (curl : Curl) where
  open curl use {Handle}

  -- With one more caller, and without its result.
  abbrev also : ℕ → Worker Handle → Worker Handle
  also i w = record w { waiting = i ∷ w.waiting }

  invoke-also :
      (i : ℕ) (k : Task) (w : Worker Handle)
      → awaits i k ≡ false
      → invoke curl k (also i w) ≡ also i (invoke curl k w)
  unfolding invoke
  invoke-also i (wait_task j q) w h = ground arith
  invoke-also i (callback_task q none) w h = refl
  invoke-also i (callback_task q (some f)) w h = refl
  invoke-also i (future_task j q) w h = refl
  invoke-also i (cleanup_task j) w h = ground arith

  execute-also :
      (i : ℕ) (ms : List (DelegateMsg Task)) (w : Worker Handle)
      → NoneAwaits i ms
      → execute curl ms (also i w) ≡ also i (execute curl ms w)
  unfolding execute
  execute-also i [] w h = refl
  execute-also i (m ∷ ms) w h =
      ap (execute curl ms) (invoke-also i m.invoker w h.0)
      ∙ execute-also i ms (invoke curl m.invoker w) h.1

  invoke-lookup :
      (i : ℕ) (k : Task) (w : Worker Handle)
      → awaits i k ≡ false
      → lookup i (invoke curl k w).answers ≡ lookup i w.answers
  unfolding invoke
  invoke-lookup i (wait_task j q) w h =
      ground (arith, lookup-insert j i (transfer curl q w.curl).0 w.answers)
  invoke-lookup i (callback_task q none) w h = refl
  invoke-lookup i (callback_task q (some f)) w h = refl
  invoke-lookup i (future_task j q) w h = refl
  invoke-lookup i (cleanup_task j) w h = ground arith

  execute-lookup :
      (i : ℕ) (ms : List (DelegateMsg Task)) (w : Worker Handle)
      → NoneAwaits i ms
      → lookup i (execute curl ms w).answers ≡ lookup i w.answers
  unfolding execute
  execute-lookup i [] w h = refl
  execute-lookup i (m ∷ ms) w h =
      execute-lookup i ms (invoke curl m.invoker w) h.1 ∙ invoke-lookup i m.invoker w h.0

  -- The call's message is skipped once its caller has left.
  invoke_left :
      (i : ℕ) (q : Request) (w : Worker Handle)
      → contains i w.waiting ≡ false
      → invoke curl (wait_task i q) w ≡ w
  unfolding invoke
  invoke_left i q w h = ground arith

  -- The worker before a call, with no result for it.
  abbrev pub before : ℕ → Client Handle → Worker Handle
  before i c = record c.worker { answers = erase i c.worker.answers }

  -- A blocking request that has timed out, and left the worker to do what it had to do before.
  pub HasExpired : ℕ → Client Handle → Result HttpResponse × Client Handle → Type 0
  HasExpired i c r =
      (r.0 ≡ done timed_out)
      × (execute curl (pending r.1.thread) r.1.worker
          ≡ execute curl (pending c.thread) (before i c))

  module _ (run : Task → Run) (good : (k : Task) → (run k).result ≡ completed) where
    await_missed :
        (rounds i : ℕ) (c : Client Handle)
        → lookup i (work curl run rounds c).worker.answers ≡ none
        → await curl run rounds false i c ≡ work curl run rounds c
    await_missed rounds i c h = rw (h, await) refl

    -- A call whose message the worker does not reach in time.
    pub send_wait_missed :
        (rounds now i : ℕ) (k : Task) (c : Client Handle)
        → IsUp c
        → rounds ≤ length (pending c.thread)
        → NoneAwaits i (pending c.thread)
        → let s = send_wait curl run rounds false now i k c in
          (s.0 ≡ done none)
          × (s.1.worker ≡ execute curl (take rounds (pending c.thread)) (before i c))
          × IsReady s.1.thread
          × (pending s.1.thread ≡ drop_first rounds (pending c.thread) ++ (message k ∷ []))
          × (s.1.running ≡ c.running)
    unfolding send_wait execute
    send_wait_missed rounds now i k c up short fresh =
        let d = dispatch_delegate_appends c.thread (message k) now up.ready refl up.room in
        let w0 = start_waiting curl i c.worker in
        let c0 : Client Handle = record c {
          thread = (dispatch_delegate c.thread c.thread (message k) now).1;
          worker = w0;
        } in
        let cut = take-short rounds (pending c.thread) (message k ∷ []) short in
        let taken = work_takes curl run good rounds c0 d.1 in
        let early = All-take i rounds (pending c.thread) fresh in
        let ran = execute curl (take rounds (pending c.thread)) (before i c) in
        let worker : (work curl run rounds c0).worker ≡ also i ran =
          taken.0
          ∙ (ap (λ ms. execute curl (take rounds ms) w0) d.2
              ∙ (ap (λ ms. execute curl ms w0) cut.0
                  ∙ execute-also i (take rounds (pending c.thread)) (before i c) early)) in
        let rest = taken.2 ∙ (ap (drop_first rounds) d.2 ∙ cut.1) in
        let gone : lookup i (work curl run rounds c0).worker.answers ≡ none =
          ap (λ w. lookup i w.answers) worker
          ∙ (execute-lookup i (take rounds (pending c.thread)) (before i c) early
              ∙ (lookup-erase i i c.worker.answers ∙ ground arith)) in
        let stop : Worker Handle → Worker Handle =
          λ v. record v { waiting = erase_first i v.waiting } in
        let leave : List ℕ → Worker Handle = λ xs. record ran { waiting = xs } in
        let left = ap stop worker ∙ ap leave (erase_first-head i ran.waiting) in
        let idle = await_missed rounds i c0 gone in
        rw (d.0, send_wait)
          (
            ap done gone,
            ap (λ (c' : Client Handle). stop c'.worker) idle ∙ left,
            subst (λ (c' : Client Handle). IsReady c'.thread) (sym idle) taken.1,
            ap (λ (c' : Client Handle). pending c'.thread) idle ∙ rest,
            ap (λ (c' : Client Handle). c'.running) idle,
          )

    -- The rest of the queue runs as if the call had not been made.
    pub skips :
        (rounds i : ℕ) (k : Task) (c : Client Handle)
        → ((w : Worker Handle) → contains i w.waiting ≡ false → invoke curl k w ≡ w)
        → contains i c.worker.waiting ≡ false
        → let ms = pending c.thread in
          execute curl
            (drop_first rounds ms ++ (message k ∷ []))
            (execute curl (take rounds ms) (before i c))
          ≡ execute curl ms (before i c)
    unfolding execute
    skips rounds i k c skip away =
        let ms = pending c.thread in
        let w0 = before i c in
        let w1 = execute curl (take rounds ms) w0 in
        let own = message k ∷ [] in
        let whole =
          sym (execute-append curl (take rounds ms) (drop_first rounds ms) w0)
          ∙ ap (λ xs. execute curl xs w0) (take_drop rounds ms) in
        let left = ap (contains i) (execute-waiting curl ms w0) ∙ away in
        execute-append curl (drop_first rounds ms) own w1
        ∙ (ap (execute curl own) whole ∙ skip (execute curl ms w0) left)

    wait_for_expires :
        (rounds now i : ℕ) (q : Request) (c : Client Handle)
        → IsUp c
        → rounds ≤ length (pending c.thread)
        → NoneAwaits i (pending c.thread)
        → contains i c.worker.waiting ≡ false
        → HasExpired i c (wait_for curl run false rounds false now i q c)
    unfolding HasExpired
    wait_for_expires rounds now i q c up short fresh away =
        let s = send_wait_missed rounds now i (wait_task i q) c up short fresh in
        let r = send_wait curl run rounds false now i (wait_task i q) c in
        subst (HasExpired i c) (sym (not_taken (threw, c) up.ready.live)) (
          ap (answered curl run) s.0,
          ap (λ ms. execute curl ms r.1.worker) s.3
              ∙ (ap
                    (execute curl
                      (drop_first rounds (pending c.thread) ++ (message (wait_task i q) ∷ [])))
                    s.1
                  ∙ skips rounds i (wait_task i q) c (invoke_left i q) away),
        )

    -- GetWait or PostWait from another thread whose deadline comes before the worker takes up its
    -- message, and not during a round, is answered with the time-out error and never performed:
    -- what the worker still has to do comes to what it had to do before. The client runs and has
    -- room, the number of the call belongs to no message that waits and to no caller, and what runs
    -- on the worker completes.
    pub wait_expires :
        (rounds now i : ℕ) (u body content_type : Bytes) (c : Client Handle)
        → IsUp c
        → rounds ≤ length (pending c.thread)
        → NoneAwaits i (pending c.thread)
        → contains i c.worker.waiting ≡ false
        → HasExpired i c (get_wait curl run false rounds false now i u c)
          × HasExpired i c (post_wait curl run false rounds false now i u body content_type c)
    unfolding get_wait post_wait
    wait_expires rounds now i u body content_type c up short fresh away = (
      wait_for_expires rounds now i (get u) c up short fresh away,
      wait_for_expires rounds now i (post u body content_type) c up short fresh away,
    )

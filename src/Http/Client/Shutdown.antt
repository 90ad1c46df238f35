-- ===== src/Http/Client/Shutdown.antt =====
-- `shutdown` of async_http.cpp: what has been sent still runs, then the handle is released and the
-- thread ends.
use async_http.Prelude.{
  ℕ, ◌≤◌, ◌<◌, ◌≡◌, refl, ap, ◌∙◌, Bool, true, false, Option, none, [], ◌∷◌, ◌++◌, length, contains,
  if_pos, arith,
}
use async_http.Thread.{Run, completed}
use async_http.Thread.Exit.{pending, exit_thread_drains}
use async_http.Thread.Work.{IsReady, drop_first}
use async_http.Http.{Curl, HttpResponse}
use async_http.Http.Global.{Globals, curl_global_release}
use async_http.Http.Client.{
  Task, cleanup_task, finish, Worker, Client, Result, done, message, invoke, execute, start_waiting,
  send_wait, shutdown,
}
use async_http.Http.Client.Wait.{
  contains-head, IsUp, reached_in, send_wait_reached, execute-waiting,
}
use async_http.Http.Client.Expired.{NoneAwaits, before, send_wait_missed, skips}
use async_http.Prelude.Maps.{lookup}

module _ (curl : Curl) where
  open curl use {Handle}

  -- A client that has shut down, with what its functions have left.
  pub record IsDown (g : Globals) (w : Worker Handle) (r : Result ℕ × Globals × Client Handle)
      : Type 0 where
    pub returns : r.0 ≡ done 0
    pub released : r.1 ≡ curl_global_release g
    pub stopped : r.2.running ≡ false
    pub joined : r.2.thread.created ≡ false
    pub empty : pending r.2.thread ≡ []
    pub left : r.2.worker ≡ w

  cleanup_reached :
      (i : ℕ) (w : Worker Handle)
      → contains i w.waiting ≡ true
      → invoke curl (cleanup_task i) w ≡ record w { curl = none }
  unfolding invoke
  cleanup_reached i w h = ground arith

  cleanup_left :
      (i : ℕ) (w : Worker Handle)
      → contains i w.waiting ≡ false
      → invoke curl (cleanup_task i) w ≡ w
  unfolding invoke
  cleanup_left i w h = ground arith

  module _ (run : Task → Run) (good : (k : Task) → (run k).result ≡ completed) where
    execute_waits : (i : ℕ) (c : Client Handle) → contains i (reached_in curl i c).waiting ≡ true
    execute_waits i c =
        ap (contains i) (execute-waiting curl (pending c.thread) (start_waiting curl i c.worker))
        ∙ contains-head i c.worker.waiting

    finish-IsDown :
        (g : Globals) (r : Result (Option HttpResponse)) (o : Option HttpResponse)
        (c : Client Handle) (w : Worker Handle)
        → r ≡ done o
        → IsReady c.thread
        → execute curl (pending c.thread) c.worker ≡ w
        → IsDown g w (finish curl run g (r, c))
    unfolding finish
    finish-IsDown g r o c w d ready h =
        let x = exit_thread_drains c.thread run ready.valid ready.live ready.alive good in
        let ran = ap (λ ms. execute curl ms c.worker) x.1 ∙ h in
        rw d (record {
          returns = refl;
          released = refl;
          stopped = refl;
          joined = x.3;
          empty = x.4;
          left = ran;
        })

    shutdown-IsDown :
        (rounds : ℕ) (in_flight : Bool) (now i : ℕ) (g : Globals) (c : Client Handle)
        (w : Worker Handle)
        → c.running ≡ true
        → IsDown g w
            (finish curl run g (send_wait curl run rounds in_flight now i (cleanup_task i) c))
        → IsDown g w (shutdown curl run rounds in_flight now i (g, c))
    unfolding shutdown
    shutdown-IsDown rounds in_flight now i g c w up h =
        if_pos (IsDown g w) c.running
          (finish curl run g (send_wait curl run rounds in_flight now i (cleanup_task i) c))
          (done 0, curl_global_release g, c) up h

    -- shutdown of a client that runs and has room, whose worker reaches the clean-up before the
    -- deadline: everything that was sent runs and delivers first, the curl handle is released, the
    -- thread is joined with an empty queue, the client no longer runs, one reference is given up,
    -- and the result is 0. What runs on the worker completes.
    pub shutdown_drains :
        (rounds : ℕ) (in_flight : Bool) (now i : ℕ) (g : Globals) (c : Client Handle)
        → c.running ≡ true
        → IsUp c
        → length (pending c.thread) < rounds
        → IsDown g
            (record (reached_in curl i c) { curl = none; waiting = c.worker.waiting })
            (shutdown curl run rounds in_flight now i (g, c))
    unfolding execute
    shutdown_drains rounds in_flight now i g c running up long =
        let s = send_wait_reached curl run good rounds in_flight now i (cleanup_task i) c up long in
        let w = reached_in curl i c in
        let t = send_wait curl run rounds in_flight now i (cleanup_task i) c in
        let here = execute_waits i c in
        let leave : Worker Handle → Worker Handle = λ v. record v { waiting = c.worker.waiting } in
        let left : t.1.worker ≡ leave (record w { curl = none }) =
          s.1 ∙ ap leave (cleanup_reached i w here) in
        let rest = ap (λ ms. execute curl ms t.1.worker) s.3 ∙ left in
        shutdown-IsDown rounds in_flight now i g c (leave (record w { curl = none })) running (
          finish-IsDown g t.0 (lookup i (invoke curl (cleanup_task i) w).answers) t.1
            (leave (record w { curl = none })) s.0 s.2 rest)

    -- shutdown of a client that runs and has room, whose deadline comes before the worker takes up
    -- the clean-up, and not during a round: everything that was sent still runs and delivers before
    -- the thread is joined, the result is 0 and the reference is given up, but the handle stays
    -- what the last request left: it is not released. What runs on the worker completes, and the
    -- number of the call belongs to no message that waits and to no caller.
    pub shutdown_expires :
        (rounds now i : ℕ) (g : Globals) (c : Client Handle)
        → c.running ≡ true
        → IsUp c
        → rounds ≤ length (pending c.thread)
        → NoneAwaits i (pending c.thread)
        → contains i c.worker.waiting ≡ false
        → IsDown g
            (execute curl (pending c.thread) (before curl i c))
            (shutdown curl run rounds false now i (g, c))
    shutdown_expires rounds now i g c running up short fresh away =
        let s = send_wait_missed curl run good rounds now i (cleanup_task i) c up short fresh in
        let t = send_wait curl run rounds false now i (cleanup_task i) c in
        let rest =
          ap (λ ms. execute curl ms t.1.worker) s.3
          ∙ (ap
                (execute curl
                  (drop_first rounds (pending c.thread) ++ (message (cleanup_task i) ∷ [])))
                s.1
              ∙ skips curl run good rounds i (cleanup_task i) c (cleanup_left i) away) in
        shutdown-IsDown rounds false now i g c (execute curl (pending c.thread) (before curl i c))
          running
          (finish-IsDown g t.0 none t.1 (execute curl (pending c.thread) (before curl i c)) s.0 s.2
            rest)

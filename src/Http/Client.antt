-- ===== src/Http/Client.antt =====
-- The class AsyncHttp of async_http.cpp: the requests that it hands to its worker thread, what the
-- worker does with them, and the start and the end of an instance.
-- A blocking call is told by its schedule: `rounds` messages that the worker finishes before the
-- deadline, and whether it is inside the next one when the deadline comes. A number that names a
-- callback, a future or the message of a blocking call stands for the object.
pub mod Expired
pub mod Wait
pub mod Shutdown
pub mod Start
use async_http.Prelude.{
  ℕ, ◌+◌, ◌-◌, ◌^◌, Bool, true, false, Option, none, some, List, [], ◌∷◌, ◌++◌, not, ◌==◌,
  if◌then◌else◌, contains, erase_first,
}
use async_http.Prelude.Maps.{Map, lookup, insert, erase}
use async_http.Thread.{
  Thread, DelegateMsg, Priority, normal, FullPolicy, fault, ExitPolicy, drain, Run, make,
  create_thread, dispatch_delegate, Outcome, accepted, exiting, no_thread, faulted, dropped,
}
use async_http.Thread.Exit.{process, exit_thread}
use async_http.Http.{Bytes, bytes, HttpResponse, no_response, Curl}
use async_http.Http.Global.{Globals, curl_global_addref, curl_global_release}
use async_http.Http.Request.{http_get, http_post}

pub data Request : Type 0 where
  get : Bytes → Request
  post : Bytes → Bytes → Bytes → Request

-- The functions that are bound to `m_thread`. A callback may be empty.
pub data Task : Type 0 where
  wait_task : ℕ → Request → Task
  callback_task : Request → Option ℕ → Task
  future_task : ℕ → Request → Task
  cleanup_task : ℕ → Task

-- A response that reaches a callback or a future.
pub data Delivery : Type 0 where
  called : ℕ → HttpResponse → Delivery
  fulfilled : ℕ → HttpResponse → Delivery

-- How a call ends: it returns, it throws, or it stops in the fault handler.
pub data Result (A : Type 0) : Type 0 where
  done : A → Result A
  threw halted : Result A

abbrev pub timed_out : HttpResponse
timed_out = record no_response { error = bytes "Request timed out" }

-- What the functions that run on the worker read and write.
pub record Worker (H : Type 0) : Type 0 where
  pub curl : Option H
  pub waiting : List ℕ  -- the blocking calls whose `m_invokerWaiting` is set
  pub answers : Map HttpResponse  -- the results of the blocking calls
  pub log : List Delivery

pub record Client (H : Type 0) : Type 0 where
  pub thread : Thread Task
  pub running : Bool
  pub worker : Worker H

abbrev pub message : Task → DelegateMsg Task
message k = record { priority = normal; invoker = k }

-- The bit pattern of -1.
abbrev pub init_failed : ℕ
init_failed = 2 ^ 32 - 1

module _ (curl : Curl) where
  open curl use {Handle}

  -- The constructor; the thread has its default size and policy.
  unfoldable pub construct : Client Handle
  construct = record {
    thread = make 0 fault;
    running = false;
    worker = record { curl = none; waiting = []; answers = []; log = [] };
  }

  unfoldable pub transfer : Request → Option Handle → HttpResponse × Option Handle
  unfolding http_get http_post
  transfer (get u) h = http_get curl u h
  transfer (post u body content_type) h = http_post curl u body content_type h

  -- `DoGetCallback` and `DoPostCallback`
  abbrev do_callback : Request → Option ℕ → Worker Handle → Worker Handle
  do_callback q cb w =
      let r = transfer q w.curl in
      elim cb [
        | some f ↦ record w { curl = r.1; log = w.log ++ (called f r.0 ∷ []) }
        | none ↦ record w { curl = r.1 }
      ]

  -- `HttpCleanup`
  abbrev http_cleanup : Worker Handle → Worker Handle
  http_cleanup w = record w { curl = none }

  -- What the worker does with a message. A message whose caller no longer waits is skipped.
  unfoldable pub invoke : Task → Worker Handle → Worker Handle
  unfolding transfer
  invoke (wait_task i q) w =
      let r = transfer q w.curl in
      if contains i w.waiting then record w { curl = r.1; answers = insert i r.0 w.answers } else w
  invoke (callback_task q cb) w = do_callback q cb w
  invoke (future_task i q) w =
      let r = transfer q w.curl in record w { curl = r.1; log = w.log ++ (fulfilled i r.0 ∷ []) }
  invoke (cleanup_task i) w = if contains i w.waiting then http_cleanup w else w

  unfoldable pub execute : List (DelegateMsg Task) → Worker Handle → Worker Handle
  unfolding invoke
  execute [] w = w
  execute (m ∷ ms) w = execute ms (invoke m.invoker w)

  -- The caller begins to wait, for a message whose result is empty, and stops.
  abbrev pub start_waiting : ℕ → Worker Handle → Worker Handle
  start_waiting i w = record w { waiting = i ∷ w.waiting; answers = erase i w.answers }

  abbrev pub stop_waiting : ℕ → Client Handle → Client Handle
  stop_waiting i c = record c {
    worker = record c.worker { waiting = erase_first i c.worker.waiting };
  }

  module _ (run : Task → Run) where
    -- The worker's next rounds.
    unfoldable pub work : ℕ → Client Handle → Client Handle
    unfolding process execute
    work n c =
        let p = process n run c.thread in record c { thread = p.2; worker = execute p.1 c.worker }

    -- The rounds of a blocking call. The one that the deadline interrupts ends before the call does
    -- if it is that of the call's own message, which is locked.
    abbrev pub await : ℕ → Bool → ℕ → Client Handle → Client Handle
    await rounds in_flight i c =
        let c' = work rounds c in
        elim (lookup i c'.worker.answers) [
          | some r ↦ c'
          | none ↦ if in_flight then work 1 c' else c'
        ]

    -- `AsyncInvoke` of a delegate with a timeout, from another thread.
    unfoldable pub send_wait :
        ℕ → Bool → ℕ → ℕ → Task → Client Handle → Result (Option HttpResponse) × Client Handle
    unfolding work dispatch_delegate
    send_wait rounds in_flight now i k c =
        let d = dispatch_delegate c.thread c.thread (message k) now in
        let c0 : Client Handle = record c { thread = d.1; worker = start_waiting i c.worker } in
        let c1 = work rounds c0 in
        let c2 = await rounds in_flight i c0 in
        elim d.0 [
          | accepted ↦ (done (lookup i c1.worker.answers), stop_waiting i c2)
          | exiting ↦ (done none, c)
          | dropped n ↦ (done none, c)
          | no_thread ↦ (threw, c)
          | faulted ↦ (halted, c)
        ]

    abbrev pub answered : Result (Option HttpResponse) → Result HttpResponse
    answered (done (some r)) = done r
    answered (done none) = done timed_out
    answered threw = threw
    answered halted = halted

    -- The body of `GetWait` and `PostWait`, whose `GetThreadId` throws if there is no thread.
    abbrev pub wait_for :
        Bool → ℕ → Bool → ℕ → ℕ → Request → Client Handle → Result HttpResponse × Client Handle
    wait_for on_worker rounds in_flight now i q c =
        let r = transfer q c.worker.curl in
        let s = send_wait rounds in_flight now i (wait_task i q) c in
        if not c.thread.created
        then (threw, c)
        else if on_worker
        then (done r.0, record c { worker = record c.worker { curl = r.1 } })
        else (answered s.0, s.1)

    unfoldable pub get_wait :
        Bool → ℕ → Bool → ℕ → ℕ → Bytes → Client Handle → Result HttpResponse × Client Handle
    unfolding transfer send_wait
    get_wait on_worker rounds in_flight now i u c =
        wait_for on_worker rounds in_flight now i (get u) c

    unfoldable pub post_wait :
        Bool
        → ℕ
        → Bool
        → ℕ
        → ℕ
        → Bytes
        → Bytes
        → Bytes
        → Client Handle
        → Result HttpResponse × Client Handle
    unfolding transfer send_wait
    post_wait on_worker rounds in_flight now i u body content_type c =
        wait_for on_worker rounds in_flight now i (post u body content_type) c

  -- `AsyncInvoke` of a delegate that does not wait.
  abbrev send : ℕ → Task → Client Handle → Result Unit × Client Handle
  send now k c =
      let d = dispatch_delegate c.thread c.thread (message k) now in
      elim d.0 [
        | accepted ↦ (done tt, record c { thread = d.1 })
        | exiting ↦ (done tt, c)
        | dropped n ↦ (done tt, c)
        | no_thread ↦ (threw, c)
        | faulted ↦ (halted, c)
      ]

  -- `Get` and `Post`
  unfoldable pub get_callback : ℕ → Bytes → Option ℕ → Client Handle → Result Unit × Client Handle
  unfolding dispatch_delegate
  get_callback now u cb c = send now (callback_task (get u) cb) c

  unfoldable pub post_callback :
      ℕ → Bytes → Bytes → Bytes → Option ℕ → Client Handle → Result Unit × Client Handle
  unfolding dispatch_delegate
  post_callback now u body content_type cb c =
      send now (callback_task (post u body content_type) cb) c

  -- `AsyncInvokeFuture`: `GetThreadId` throws if there is no thread, and is never empty otherwise.
  abbrev async_invoke_future : ℕ → ℕ → Request → Client Handle → Result Unit × Client Handle
  async_invoke_future now i q c =
      if not c.thread.created then (threw, c) else send now (future_task i q) c

  unfoldable pub get_future : ℕ → ℕ → Bytes → Client Handle → Result Unit × Client Handle
  unfolding dispatch_delegate
  get_future now i u c = async_invoke_future now i (get u) c

  unfoldable pub post_future :
      ℕ → ℕ → Bytes → Bytes → Bytes → Client Handle → Result Unit × Client Handle
  unfolding dispatch_delegate
  post_future now i u body content_type c = async_invoke_future now i (post u body content_type) c

  -- `init`, given what curl_global_init and curl_easy_init return.
  unfoldable pub init : ℕ → Option Handle → Globals × Client Handle → ℕ × Globals × Client Handle
  unfolding curl_global_addref create_thread
  init res easy (g, c) =
      let a = curl_global_addref res g in
      if c.running then (0, g, c) else if not (a.0 == 0) then (a.0, a.1, c) else elim easy [
        | none ↦ (init_failed, a.1, record c { worker = record c.worker { curl = none } })
        | some h ↦ (
          0,
          a.1,
          record c {
            worker = record c.worker { curl = some h };
            thread = create_thread c.thread;
            running = true;
          },
        )
      ]

  -- The end of `shutdown`, after the blocking call of `HttpCleanup`.
  unfoldable pub finish :
      (Task → Run)
      → Globals
      → Result (Option HttpResponse) × Client Handle
      → Result ℕ × Globals × Client Handle
  unfolding curl_global_release exit_thread execute
  finish run g (r, c) =
      let x = exit_thread drain run c.thread in
      elim r [
        | done o ↦ (
          done 0,
          curl_global_release g,
          record c { thread = x.thread; running = false; worker = execute x.ran c.worker },
        )
        | threw ↦ (threw, g, c)
        | halted ↦ (halted, g, c)
      ]

  -- `shutdown`, called from another thread.
  unfoldable pub shutdown :
      (Task → Run) → ℕ → Bool → ℕ → ℕ → Globals × Client Handle → Result ℕ × Globals × Client Handle
  unfolding curl_global_release send_wait finish
  shutdown run rounds in_flight now i (g, c) =
      if c.running
      then finish run g (send_wait run rounds in_flight now i (cleanup_task i) c)
      else (done 0, curl_global_release g, c)

-- ===== src/Http/Client/Wait.antt =====
-- GetWait and PostWait of async_http.cpp: a blocking request through the worker's queue.
use async_http.Prelude.{
  ℕ, zero, suc, ◌≤◌, ◌<◌, ◌≡◌, refl, ap, sym, ◌∙◌, subst, Bool, true, false, Option, some, List, [],
  ◌∷◌, ◌++◌, length, length-append, take, contains, erase_first, if◌then◌else◌, not, arith, inl,
  inr, Option-cases, Bool-cases,
}
use async_http.Prelude.Maps.{lookup, insert, lookup-insert}
use async_http.Thread.{DelegateMsg, Run, completed, dispatch_delegate}
use async_http.Thread.Exit.{pending}
use async_http.Thread.Work.{IsReady, drop_first, process_takes, dispatch_delegate_appends}
use async_http.Http.{Bytes, HttpResponse, Curl}
use async_http.Http.Request.{http_get, http_post}
use async_http.Http.Client.{
  Request, get, post, Task, wait_task, callback_task, future_task, cleanup_task, Worker, Client,
  Result, done, threw, message, transfer, invoke, execute, work, await, start_waiting, send_wait,
  answered, wait_for, get_wait, post_wait,
}

module _ {ℓ} {A : Type ℓ} where
  pub take-long : (n : ℕ) (xs : List A) → length xs ≤ n → (take n xs ≡ xs) × (drop_first n xs ≡ [])
  take-long zero [] h = (refl, refl)
  take-long zero (x ∷ xs) h = absurd (omega (arith, h))
  take-long (suc n) [] h = (refl, refl)
  take-long (suc n) (x ∷ xs) h =
      let ih = take-long n xs (omega (arith, h)) in (ap (◌∷◌ x) ih.0, ih.1)

  pub take-short :
      (n : ℕ) (xs ys : List A)
      → n ≤ length xs
      → (take n (xs ++ ys) ≡ take n xs) × (drop_first n (xs ++ ys) ≡ drop_first n xs ++ ys)
  take-short zero xs ys h = (refl, refl)
  take-short (suc n) [] ys h = absurd (omega (arith, h))
  take-short (suc n) (x ∷ xs) ys h =
      let ih = take-short n xs ys (omega (arith, h)) in (ap (◌∷◌ x) ih.0, ih.1)

pub erase_first-head : (i : ℕ) (xs : List ℕ) → erase_first i (i ∷ xs) ≡ xs
erase_first-head i xs = ground arith

pub contains-head : (i : ℕ) (xs : List ℕ) → contains i (i ∷ xs) ≡ true
contains-head i xs = ground arith

pub not_taken {ℓ} :
    {A : Type ℓ} {b : Bool} (x : A) {y : A} → b ≡ true → (if not b then x else y) ≡ y
not_taken x h = ground arith

-- A client whose worker runs, and has room for a message.
pub record IsUp {H : Type 0} (c : Client H) : Type 0 where
  pub ready : IsReady c.thread
  pub room : length (pending c.thread) < c.thread.max_queue_size

module _ (curl : Curl) where
  open curl use {Handle}

  none_to_do : (w : Worker Handle) → execute curl [] w ≡ w
  unfolding execute
  none_to_do w = refl

  pub execute-append :
      (xs ys : List (DelegateMsg Task)) (w : Worker Handle)
      → execute curl (xs ++ ys) w ≡ execute curl ys (execute curl xs w)
  unfolding execute
  execute-append [] ys w = refl
  execute-append (m ∷ xs) ys w = execute-append xs ys (invoke curl m.invoker w)

  invoke-waiting : (k : Task) (w : Worker Handle) → (invoke curl k w).waiting ≡ w.waiting
  unfolding invoke
  invoke-waiting (wait_task i q) w = ground arith
  invoke-waiting (callback_task q cb) w = ground arith
  invoke-waiting (future_task i q) w = ground arith
  invoke-waiting (cleanup_task i) w = ground arith

  pub execute-waiting :
      (ms : List (DelegateMsg Task)) (w : Worker Handle) → (execute curl ms w).waiting ≡ w.waiting
  unfolding execute
  execute-waiting [] w = refl
  execute-waiting (m ∷ ms) w =
      execute-waiting ms (invoke curl m.invoker w) ∙ invoke-waiting m.invoker w

  -- The state in which the worker reaches a blocking call that is made now: all that waits before
  -- it has run.
  abbrev pub reached_in : ℕ → Client Handle → Worker Handle
  reached_in i c = execute curl (pending c.thread) (start_waiting curl i c.worker)

  -- What a blocking request leaves if the worker reaches it in time.
  pub IsAnswered :
      ℕ
      → HttpResponse × Option Handle
      → Client Handle
      → Result HttpResponse × Client Handle
      → Type 0
  IsAnswered i answer c r =
      (r.0 ≡ done answer.0)
      × (r.1.worker.curl ≡ answer.1)
      × (r.1.worker.log ≡ (reached_in i c).log)
      × (r.1.worker.waiting ≡ c.worker.waiting)
      × (pending r.1.thread ≡ [])

  module _ (run : Task → Run) (good : (k : Task) → (run k).result ≡ completed) where
    -- Some rounds of a worker, on messages of which it takes the first.
    pub work_takes :
        (n : ℕ) (c : Client Handle)
        → IsReady c.thread
        → let c' = work curl run n c in
          (c'.worker ≡ execute curl (take n (pending c.thread)) c.worker)
          × IsReady c'.thread
          × (pending c'.thread ≡ drop_first n (pending c.thread))
          × (c'.running ≡ c.running)
    unfolding work
    work_takes n c r =
        let p = process_takes n run c.thread r.valid r.alive good in
        (
          ap (λ ms. execute curl ms c.worker) p.0,
          record { valid = p.2; live = p.1.same_created ∙ r.live; alive = p.1.alive },
          p.1.left,
          refl,
        )

    -- The rounds that an interrupted round adds change nothing once the queue is empty.
    await_idle :
        (rounds : ℕ) (in_flight : Bool) (i : ℕ) (c : Client Handle)
        → let c' = work curl run rounds c in
          IsReady c'.thread
          → pending c'.thread ≡ []
          → let c'' = await curl run rounds in_flight i c in
            (c''.worker ≡ c'.worker)
            × IsReady c''.thread
            × (pending c''.thread ≡ [])
            × (c''.running ≡ c'.running)
    await_idle rounds in_flight i c r e =
        let c' = work curl run rounds c in
        let more = work_takes 1 c' r in
        let idle : (work curl run 1 c').worker ≡ c'.worker =
          more.0
          ∙ subst (λ ms. execute curl (take 1 ms) c'.worker ≡ c'.worker) (sym e)
              (none_to_do c'.worker) in
        let empty : pending (work curl run 1 c').thread ≡ [] = more.2 ∙ ap (drop_first 1) e in
        elim (Option-cases (lookup i c'.worker.answers)) [
          | inr (h, f) ↦ rw (f, await) (refl, r, e, refl)
          | inl f ↦ elim (Bool-cases in_flight) [
            | inl y ↦ rw (f, y, await) (idle, more.1, empty, more.3)
            | inr y ↦ rw (f, y, await) (refl, r, e, refl)
          ]
        ]

    -- A call whose message the worker reaches in time.
    pub send_wait_reached :
        (rounds : ℕ) (in_flight : Bool) (now i : ℕ) (k : Task) (c : Client Handle)
        → IsUp c
        → length (pending c.thread) < rounds
        → let w = invoke curl k (execute curl (pending c.thread) (start_waiting curl i c.worker)) in
          let s = send_wait curl run rounds in_flight now i k c in
          (s.0 ≡ done (lookup i w.answers))
          × (s.1.worker ≡ record w { waiting = c.worker.waiting })
          × IsReady s.1.thread
          × (pending s.1.thread ≡ [])
          × (s.1.running ≡ c.running)
    unfolding send_wait execute
    send_wait_reached rounds in_flight now i k c up long =
        let d = dispatch_delegate_appends c.thread (message k) now up.ready refl up.room in
        let c0 : Client Handle = record c {
          thread = (dispatch_delegate c.thread c.thread (message k) now).1;
          worker = start_waiting curl i c.worker;
        } in
        let all =
          take-long rounds (pending c.thread ++ (message k ∷ []))
            (omega (arith, long, length-append (pending c.thread) (message k ∷ []))) in
        let taken = work_takes rounds c0 d.1 in
        let worker =
          taken.0
          ∙ (ap (λ ms. execute curl (take rounds ms) c0.worker) d.2
              ∙ (ap (λ ms. execute curl ms c0.worker) all.0
                  ∙ execute-append (pending c.thread) (message k ∷ []) c0.worker)) in
        let empty = taken.2 ∙ (ap (drop_first rounds) d.2 ∙ all.1) in
        let waited = await_idle rounds in_flight i c0 taken.1 empty in
        let w = invoke curl k (execute curl (pending c.thread) c0.worker) in
        let ws : erase_first i w.waiting ≡ c.worker.waiting =
          ap (erase_first i) (
            invoke-waiting k (execute curl (pending c.thread) c0.worker)
            ∙ execute-waiting (pending c.thread) c0.worker)
          ∙ erase_first-head i c.worker.waiting in
        let stop : Worker Handle → Worker Handle =
          λ v. record v { waiting = erase_first i v.waiting } in
        let leave : List ℕ → Worker Handle = λ xs. record w { waiting = xs } in
        rw (d.0, send_wait)
          (
            ap (λ v. done (lookup i v.answers)) worker,
            ap stop (waited.0 ∙ worker) ∙ ap leave ws,
            waited.1,
            waited.2,
            waited.3,
          )

    answer_reached :
        (i : ℕ) (q : Request) (c : Client Handle)
        → let w = reached_in i c in
          (invoke curl (wait_task i q) w ≡ record w {
            curl = (transfer curl q w.curl).1;
            answers = insert i (transfer curl q w.curl).0 w.answers;
          })
          × (lookup i (invoke curl (wait_task i q) w).answers ≡ some (transfer curl q w.curl).0)
    unfolding invoke
    answer_reached i q c =
        let w = reached_in i c in
        let here : contains i w.waiting ≡ true =
          ap (contains i) (execute-waiting (pending c.thread) (start_waiting curl i c.worker))
          ∙ contains-head i c.worker.waiting in
        let found = lookup-insert i i (transfer curl q w.curl).0 w.answers in
        (rw here refl, rw here (found ∙ ground arith))

    wait_for_answers :
        (rounds : ℕ) (in_flight : Bool) (now i : ℕ) (q : Request) (c : Client Handle)
        → IsUp c
        → length (pending c.thread) < rounds
        → IsAnswered i
            (transfer curl q (reached_in i c).curl)
            c
            (wait_for curl run false rounds in_flight now i q c)
    unfolding IsAnswered
    wait_for_answers rounds in_flight now i q c up long =
        let s = send_wait_reached rounds in_flight now i (wait_task i q) c up long in
        let a = answer_reached i q c in
        let leave : Worker Handle → Worker Handle = λ v. record v { waiting = c.worker.waiting } in
        let left = s.1 ∙ ap leave a.0 in
        subst (IsAnswered i (transfer curl q (reached_in i c).curl) c)
          (sym (not_taken (threw, c) up.ready.live))
          (
            ap (answered curl run) (s.0 ∙ ap done a.1),
            ap (λ v. v.curl) left,
            ap (λ v. v.log) left,
            ap (λ v. v.waiting) left,
            s.3,
          )

    -- GetWait or PostWait from another thread, on a client that runs and has room, whose message
    -- the worker reaches before the deadline, returns the response of its transfer on the handle
    -- that everything sent before leaves; all of that has run and delivered, nothing waits, and the
    -- caller is no longer registered. What runs on the worker completes.
    pub wait_answers :
        (rounds : ℕ) (in_flight : Bool) (now i : ℕ) (u body content_type : Bytes)
        (c : Client Handle)
        → IsUp c
        → length (pending c.thread) < rounds
        → let h = (reached_in i c).curl in
          IsAnswered i (http_get curl u h) c (get_wait curl run false rounds in_flight now i u c)
          × IsAnswered i
              (http_post curl u body content_type h)
              c
              (post_wait curl run false rounds in_flight now i u body content_type c)
    unfolding get_wait post_wait transfer
    wait_answers rounds in_flight now i u body content_type c up long = (
      wait_for_answers rounds in_flight now i (get u) c up long,
      wait_for_answers rounds in_flight now i (post u body content_type) c up long,
    )

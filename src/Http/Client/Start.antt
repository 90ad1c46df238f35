-- ===== src/Http/Client/Start.antt =====
-- `init` of async_http.cpp.
use async_http.Prelude.{ℕ, ◌+◌, ◌≡◌, ◌≢◌, true, false, none, some, [], arith}
use async_http.Thread.{create_thread}
use async_http.Thread.Bounds.{IsValid, create_thread-IsValid}
use async_http.Thread.Exit.{pending}
use async_http.Http.{Curl}
use async_http.Http.Global.{Globals, curl_global_addref}
use async_http.Http.Client.{Client, init, init_failed}
use async_http.Http.Client.Wait.{IsUp}

module _ (curl : Curl) where
  open curl use {Handle}

  -- An instance that does not run, whose thread does not exist.
  pub record IsIdle (c : Client Handle) : Type 0 where
    pub valid : IsValid c.thread
    pub stopped : c.running ≡ false
    pub no_worker : c.thread.created ≡ false

  -- An instance that does not run, whose valid thread does not exist, and that gets libcurl and a
  -- handle runs, has an empty queue that takes requests, and holds one reference more. Without
  -- libcurl nothing changes, and the error is returned. Without a handle -1 is returned and the
  -- instance does not run, but the reference stays taken.
  init_branches :
      (g : Globals) (c : Client Handle) (res : ℕ) (h : Handle)
      → IsIdle c
      → (let r = init curl 0 (some h) (g, c) in
          (r.0 ≡ 0)
          × (r.1.ref_count ≡ g.ref_count + 1)
          × (r.2.running ≡ true)
          × IsUp r.2
          × (pending r.2.thread ≡ [])
          × (r.2.worker.curl ≡ some h))
        × (res ≢ 0 → g.ref_count ≡ 0 → init curl res (some h) (g, c) ≡ (res, g, c))
        × (let r = init curl 0 none (g, c) in
            (r.0 ≡ init_failed)
            × (r.1.ref_count ≡ g.ref_count + 1)
            × (r.2.running ≡ false)
            × (r.2.worker.curl ≡ none))
  unfolding init curl_global_addref create_thread
  init_branches g c res h idle =
      let v = create_thread-IsValid idle.valid in
      let hs = idle.valid.idle_high idle.no_worker in
      let ns = idle.valid.idle_normal idle.no_worker in
      (ground (arith, v, hs, ns), ground arith, ground arith)

-- ===== src/Tests/Https.antt =====
-- Runs of the HTTP client of async_http.cpp.
use async_http.Prelude.{◌+◌, ℕ, ◌≡◌, refl, true, false, some, none, List, [], ◌∷◌, ◌++◌, All, arith}
use async_http.Thread.{dispatch_msg, Run, completed, fault, make, no_stats}
use async_http.Thread.Bounds.{make-IsValid}
use async_http.Thread.Exit.{pending}
use async_http.Http.{bytes, Opt, Chunk, Transfer, Curl}
use async_http.Http.Global.{fresh}
use async_http.Http.Request.{http_get, http_post}
use async_http.Http.Options.{IsPiece}
use async_http.Http.Client.{
  execute, done, get, Task, callback_task, message, Client, construct, get_wait, post_wait, init,
  shutdown,
}
use async_http.Http.Client.Wait.{IsUp, IsAnswered, reached_in, wait_answers}
use async_http.Http.Client.Expired.{HasExpired, before, wait_expires}
use async_http.Http.Client.Shutdown.{IsDown, shutdown_drains, shutdown_expires}
use async_http.Http.Client.Start.{IsIdle}
use async_http.Http.Lifecycle.{
  System, Reach, begin, create, step, init_step, IsCounted, Reach-IsCounted, shutdown_strays,
  count_running,
}

abbrev three : ℕ
three = 3

abbrev pieces : List Chunk
pieces =
    record { ptr = 104 ∷ 105 ∷ []; size = 1; nmemb = 2 }
    ∷ record { ptr = 33 ∷ []; size = 1; nmemb = 1 }
    ∷ []

abbrev transfer_ok : Transfer
transfer_ok = record { result = 0; chunks = pieces; response_code = 200 }

-- A libcurl whose handle is the options that are set, and every transfer of which succeeds.
abbrev curl : Curl
curl = record {
  Handle = List Opt;
  reset = λ h. [];
  setopt = λ o h. h ++ (o ∷ []);
  perform = λ h. (transfer_ok, h);
  strerror = λ e. bytes "error";
  options = λ h. h;
  reset_options = λ h. refl;
  setopt_options = λ o h. refl;
}

pieces-IsPiece : All IsPiece pieces
unfolding IsPiece
pieces-IsPiece = ((refl, omega arith), ((refl, omega arith), tt))

abbrev completes : Task → Run
completes k = record { result = completed; dequeued = 9; started = 9; ended = 12 }

-- A client that runs, with one request waiting.
abbrev busy : Client (List Opt)
busy = record (construct curl) {
  running = true;
  thread = record {
    created = true;
    exit = false;
    high_queue = [];
    normal_queue = dispatch_msg (message (callback_task (get (bytes "a")) (some 7))) 5 ∷ [];
    max_queue_size = 1000;
    full_policy = fault;
    dropped_handler = false;
    stats = no_stats;
  };
}

busy-IsUp : IsUp busy
busy-IsUp = record {
  ready = record { valid = ground arith; live = refl; alive = refl };
  room = omega arith;
}

wait_answers_example :
    IsAnswered curl 1
      (http_get curl (bytes "b") (reached_in curl 1 busy).curl)
      busy
      (get_wait curl completes false 2 false 6 1 (bytes "b") busy)
    × IsAnswered curl 1
        (http_post curl (bytes "b") [] [] (reached_in curl 1 busy).curl)
        busy
        (post_wait curl completes false 2 false 6 1 (bytes "b") [] [] busy)
wait_answers_example =
    wait_answers curl completes (λ k. refl) 2 false 6 1 (bytes "b") [] [] busy busy-IsUp
      (omega arith)

wait_expires_example :
    HasExpired curl 1 busy (get_wait curl completes false 1 false 6 1 (bytes "b") busy)
    × HasExpired curl 1 busy (post_wait curl completes false 1 false 6 1 (bytes "b") [] [] busy)
unfolding construct
wait_expires_example =
    wait_expires curl completes (λ k. refl) 1 6 1 (bytes "b") [] [] busy busy-IsUp (omega arith)
      (refl, tt) refl

shutdown_drains_example :
    IsDown curl
      (record { ref_count = 1; is_up = true })
      (record (reached_in curl 1 busy) { curl = none; waiting = [] })
      (shutdown curl completes 2 false 6 1 (record { ref_count = 1; is_up = true }, busy))
unfolding construct
shutdown_drains_example =
    shutdown_drains curl completes (λ k. refl) 2 false 6 1 (record { ref_count = 1; is_up = true })
      busy refl busy-IsUp (omega arith)

shutdown_expires_example :
    IsDown curl
      (record { ref_count = 1; is_up = true })
      (execute curl (pending busy.thread) (before curl 1 busy))
      (shutdown curl completes 1 false 6 1 (record { ref_count = 1; is_up = true }, busy))
unfolding construct
shutdown_expires_example =
    shutdown_expires curl completes (λ k. refl) 1 6 1 (record { ref_count = 1; is_up = true }) busy
      refl busy-IsUp (omega arith) (refl, tt) refl

construct-IsIdle : IsIdle curl (construct curl)
unfolding construct make
construct-IsIdle = record { valid = make-IsValid 0 fault; stopped = refl; no_worker = refl }

-- An instance that has started.
abbrev started : System curl
started = (
  (init curl 0 (some []) (fresh, construct curl)).1,
  (init curl 0 (some []) (fresh, construct curl)).2 ∷ [],
)

started_reached : Reach curl started
started_reached = step (create begin) (init_step fresh [] [] (construct curl) 0 [])

Reach-IsCounted_example : IsCounted curl started
Reach-IsCounted_example = Reach-IsCounted curl started_reached

idle : (construct curl).running ≡ false
unfolding construct
idle = refl

-- A second instance is made beside the one that has started, and never started.
abbrev beside : System curl
beside = (started.0, started.1 ++ (construct curl ∷ []))

beside_reached : Reach curl beside
beside_reached = create started_reached

one_runs : count_running curl started.1 + count_running curl [] ≡ 1
unfolding count_running init construct
one_runs = refl

shutdown_strays_example :
    let r = shutdown curl completes 0 false 6 1 (started.0, construct curl) in
    (r.0 ≡ done 0)
    × (r.2 ≡ construct curl)
    × (started.0.is_up ≡ true)
    × (r.1 ≡ fresh)
    × (count_running curl (started.1 ++ (r.2 ∷ [])) ≡ 1)
shutdown_strays_example =
    shutdown_strays curl completes 0 false 6 1 started.0 started.1 [] (construct curl)
      beside_reached idle one_runs

-- ===== src/Http/Lifecycle.antt =====
-- Several instances of AsyncHttp of async_http.cpp, which share libcurl's global state.
use async_http.Prelude.{
  ℕ, ◌+◌, ◌<◌, ◌≡◌, refl, ap, sym, ◌∙◌, Bool, true, false, Option, some, List, [], ◌∷◌, ◌++◌, ltb,
  if_pos, if◌then◌else◌, arith,
}
use async_http.Thread.{Run}
use async_http.Http.{Curl, HttpResponse}
use async_http.Http.Global.{Globals, fresh, curl_global_addref, curl_global_release}
use async_http.Http.Client.{
  Task, cleanup_task, Client, Result, done, threw, halted, construct, init, finish, send_wait, work,
  shutdown,
}

module _ (curl : Curl) where
  open curl use {Handle}

  abbrev pub System : Type 0
  System = Globals × List (Client Handle)

  -- One instance starts, or one that runs shuts down, among the others. curl_easy_init succeeds.
  pub data Step : System → System → Type 0 where
    init_step :
        (g : Globals) (before after : List (Client Handle)) (c : Client Handle) (res : ℕ)
        (h : Handle)
        → Step
            (g, before ++ (c ∷ after))
            (
              (init curl res (some h) (g, c)).1,
              before ++ ((init curl res (some h) (g, c)).2 ∷ after),
            )
    shutdown_step :
        (g : Globals) (before after : List (Client Handle)) (c : Client Handle) (run : Task → Run)
        (rounds : ℕ) (in_flight : Bool) (now i : ℕ)
        → c.running ≡ true
        → Step
            (g, before ++ (c ∷ after))
            (
              (shutdown curl run rounds in_flight now i (g, c)).1,
              before ++ ((shutdown curl run rounds in_flight now i (g, c)).2 ∷ after),
            )

  pub data Reach : System → Type 0 where
    begin : Reach (fresh, [])
    create :
        {g : Globals} {cs : List (Client Handle)}
        → Reach (g, cs)
        → Reach (g, cs ++ (construct curl ∷ []))
    step : {s t : System} → Reach s → Step s t → Reach t

  abbrev one_if : Bool → ℕ
  one_if b = if b then 1 else 0

  unfoldable pub count_running : List (Client Handle) → ℕ
  count_running [] = 0
  count_running (c ∷ cs) = (if c.running then 1 else 0) + count_running cs

  count_running-append :
      (xs ys : List (Client Handle))
      → count_running (xs ++ ys) ≡ count_running xs + count_running ys
  unfolding count_running
  count_running-append [] ys = omega arith
  count_running-append (c ∷ xs) ys = omega (arith, count_running-append xs ys)

  count_running-among :
      (xs ys : List (Client Handle)) (c : Client Handle)
      → count_running (xs ++ (c ∷ ys)) ≡ count_running xs + (one_if c.running + count_running ys)
  unfolding count_running
  count_running-among xs ys c = count_running-append xs (c ∷ ys)

  -- As many references as instances that run.
  pub record IsCounted (s : System) : Type 0 where
    pub counted : s.0.ref_count ≡ count_running s.1
    pub up : s.0.is_up ≡ ltb 0 s.0.ref_count

  -- A call counts an instance in or out.
  Moves : Globals → Client Handle → Globals → Client Handle → Type 0
  Moves g c g' c' =
      (g'.ref_count + one_if c.running ≡ g.ref_count + one_if c'.running)
      × (g'.is_up ≡ ltb 0 g'.ref_count)

  init-Moves :
      (g : Globals) (c : Client Handle) (res : ℕ) (h : Handle)
      → g.is_up ≡ ltb 0 g.ref_count
      → let r = init curl res (some h) (g, c) in Moves g c r.1 r.2
  unfolding init Moves curl_global_addref
  init-Moves g c res h up = ground arith

  send_wait-running :
      (run : Task → Run) (rounds : ℕ) (in_flight : Bool) (now i : ℕ) (k : Task) (c : Client Handle)
      → (send_wait curl run rounds in_flight now i k c).1.running ≡ c.running
  unfolding send_wait work
  send_wait-running run rounds in_flight now i k c = ground arith

  finish-Moves :
      (run : Task → Run) (g : Globals) (s : Result (Option HttpResponse) × Client Handle)
      → s.1.running ≡ true
      → 0 < g.ref_count
      → g.is_up ≡ ltb 0 g.ref_count
      → let r = finish curl run g s in Moves g s.1 r.1 r.2
  unfolding finish Moves curl_global_release
  finish-Moves run g (done o, c) running some_ref up = ground arith
  finish-Moves run g (threw, c) running some_ref up = ground arith
  finish-Moves run g (halted, c) running some_ref up = ground arith

  shutdown-Moves :
      (run : Task → Run) (rounds : ℕ) (in_flight : Bool) (now i : ℕ) (g : Globals)
      (c : Client Handle)
      → c.running ≡ true
      → 0 < g.ref_count
      → g.is_up ≡ ltb 0 g.ref_count
      → let r = shutdown curl run rounds in_flight now i (g, c) in Moves g c r.1 r.2
  unfolding shutdown Moves
  shutdown-Moves run rounds in_flight now i g c running some_ref up =
      let s = send_wait curl run rounds in_flight now i (cleanup_task i) c in
      let same = send_wait-running run rounds in_flight now i (cleanup_task i) c in
      let m = finish-Moves run g s (same ∙ running) some_ref up in
      if_pos (λ r. Moves g c r.1 r.2) c.running (finish curl run g s)
        (done 0, curl_global_release g, c) running
        (ap (λ b. (finish curl run g s).1.ref_count + one_if b) (sym same) ∙ m.0, m.1)

  among-IsCounted :
      (g g' : Globals) (before after : List (Client Handle)) (c c' : Client Handle)
      → IsCounted (g, before ++ (c ∷ after))
      → Moves g c g' c'
      → IsCounted (g', before ++ (c' ∷ after))
  unfolding Moves
  among-IsCounted g g' before after c c' v m = record {
    counted = omega (
      arith,
      v.counted,
      m.0,
      count_running-among before after c,
      count_running-among before after c',
    );
    up = m.1;
  }

  Step-IsCounted : {s t : System} → IsCounted s → Step s t → IsCounted t
  Step-IsCounted v (init_step g before after c res h) =
      let r = init curl res (some h) (g, c) in
      among-IsCounted g r.1 before after c r.2 v (init-Moves g c res h v.up)
  Step-IsCounted v (shutdown_step g before after c run rounds in_flight now i running) =
      let r = shutdown curl run rounds in_flight now i (g, c) in
      among-IsCounted g r.1 before after c r.2 v (
        shutdown-Moves run rounds in_flight now i g c running
          (ground (arith, v.counted, count_running-among before after c, running)) v.up)

  -- In every state that starts and shutdowns of any number of instances lead to, when only
  -- instances that run are shut down and curl_easy_init never fails, the reference count is the
  -- number of instances that run, and libcurl is initialised exactly if it is positive.
  pub Reach-IsCounted : {s : System} → Reach s → IsCounted s
  unfolding count_running construct
  Reach-IsCounted begin = record { counted = refl; up = refl }
  Reach-IsCounted (create {g = g} {cs = cs} r) =
      let ih = Reach-IsCounted r in
      record {
        counted = ih.counted ∙ (omega arith ∙ sym (count_running-append cs (construct curl ∷ [])));
        up = ih.up;
      }
  Reach-IsCounted (step r t) = Step-IsCounted (Reach-IsCounted r) t

  -- In a reachable state in which a single instance runs, shutdown of another one, which does not
  -- run, answers 0 and changes neither instance, but gives up the reference of the one that runs:
  -- libcurl, which was initialised, is cleaned up while an instance runs, and the count is 0.
  pub shutdown_strays :
      (run : Task → Run) (rounds : ℕ) (in_flight : Bool) (now i : ℕ) (g : Globals)
      (before after : List (Client Handle)) (c : Client Handle)
      → Reach (g, before ++ (c ∷ after))
      → c.running ≡ false
      → count_running before + count_running after ≡ 1
      → let r = shutdown curl run rounds in_flight now i (g, c) in
        (r.0 ≡ done 0)
        × (r.2 ≡ c)
        × (g.is_up ≡ true)
        × (r.1 ≡ fresh)
        × (count_running (before ++ (r.2 ∷ after)) ≡ 1)
  unfolding shutdown curl_global_release
  shutdown_strays run rounds in_flight now i g before after c reached idle one =
      let v = Reach-IsCounted reached in
      let among = count_running-among before after c in
      let last : g.ref_count ≡ 1 = ground (arith, v.counted, among, idle, one) in
      let still : (shutdown curl run rounds in_flight now i (g, c)).2 ≡ c = ground (arith, idle) in
      (
        ground (arith, idle),
        still,
        ground (arith, v.up, last),
        ground (arith, idle, last),
        ap (λ d. count_running (before ++ (d ∷ after))) still ∙ ground (arith, among, idle, one),
      )

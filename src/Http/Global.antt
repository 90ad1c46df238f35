-- ===== src/Http/Global.antt =====
-- The reference count of libcurl's global state in async_http.cpp.
use async_http.Prelude.{
  ℕ, ◌+◌, ◌-◌, ◌<◌, ◌≡◌, ◌↔◌, refl, Bool, true, false, List, [], ◌∷◌, ltb, ◌==◌, if◌then◌else◌,
  arith,
}

-- `g_curlRefCount`, and whether curl_global_init is in effect.
pub record Globals : Type 0 where
  pub ref_count : ℕ
  pub is_up : Bool

abbrev pub fresh : Globals
fresh = record { ref_count = 0; is_up = false }

-- `curl_global_addref`; the number is what curl_global_init returns if it is called.
unfoldable pub curl_global_addref : ℕ → Globals → ℕ × Globals
curl_global_addref res g =
    if g.ref_count == 0
    then (if res == 0 then (0, record { ref_count = 1; is_up = true }) else (res, g))
    else (0, record g { ref_count = g.ref_count + 1 })

-- `curl_global_release`, whose cleanup runs only when the count falls to 0.
unfoldable pub curl_global_release : Globals → Globals
curl_global_release g =
    let n = g.ref_count - 1 in
    if ltb 0 g.ref_count
    then (if n == 0 then record { ref_count = n; is_up = false } else record g { ref_count = n })
    else g

pub data Call : Type 0 where
  addref : ℕ → Call
  release : Call

unfoldable pub run : List Call → Globals → Globals
unfolding curl_global_addref curl_global_release
run [] g = g
run (addref res ∷ cs) g = run cs (curl_global_addref res g).1
run (release ∷ cs) g = run cs (curl_global_release g)

run-is_up :
    (cs : List Call) (g : Globals)
    → g.is_up ≡ ltb 0 g.ref_count
    → (run cs g).is_up ≡ ltb 0 (run cs g).ref_count
unfolding run
run-is_up [] g h = h
run-is_up (addref res ∷ cs) g h = run-is_up cs (curl_global_addref res g).1 (ground arith)
run-is_up (release ∷ cs) g h = run-is_up cs (curl_global_release g) (ground arith)

-- After any sequence of references taken and released, with any results of curl_global_init,
-- libcurl is initialised exactly if the count is positive.
pub run-fresh-is_up_iff :
    (cs : List Call) → ((run cs fresh).is_up ≡ true) ↔ (0 < (run cs fresh).ref_count)
run-fresh-is_up_iff cs = let h = run-is_up cs fresh refl in (λ u. ground arith, λ p. ground arith)

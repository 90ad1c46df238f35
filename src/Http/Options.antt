-- ===== src/Http/Options.antt =====
-- What HttpGet and HttpPost of async_http.cpp ask of libcurl and make of its answer.
use async_http.Prelude.{
  ◌*◌, ◌<◌, ◌≤◌, ◌%◌, ◌^◌, ◌≡◌, ◌≢◌, ◌↔◌, refl, ◌∙◌, sym, ap, true, Option, some, none, List, [],
  ◌∷◌, ◌++◌, length, take, arith, append-nil, append_assoc, All,
}
use async_http.Http.{Bytes, HttpResponse, ok, Opt, Chunk, Transfer, Curl}
use async_http.Http.Request.{
  write_callback, receive, respond, prepare, get_options, post_options, http_get, http_post,
  set_all, not_initialized,
}

-- libcurl hands over as many bytes as it says, and the number fits a size_t.
unfoldable pub IsPiece : Chunk → Type 0
IsPiece c = (c.size * c.nmemb ≡ length c.ptr) × (length c.ptr < 2 ^ 64)

abbrev pub concat : List Chunk → Bytes
concat [] = []
concat (c ∷ cs) = c.ptr ++ concat cs

take-all : (xs : Bytes) → take (length xs) xs ≡ xs
take-all [] = refl
take-all (x ∷ xs) = ap (◌∷◌ x) (take-all xs)

write_callback-accepts :
    (c : Chunk) (body : Bytes) → IsPiece c → write_callback c body ≡ (length c.ptr, body ++ c.ptr)
unfolding write_callback IsPiece
write_callback-accepts c body p =
    let n : c.size * c.nmemb % 2 ^ 64 ≡ length c.ptr = omega (arith, p.0, p.1) in
    rw n (rw (take-all c.ptr) refl)

receive-concat_onto :
    (cs : List Chunk) (body : Bytes) → All IsPiece cs → receive cs body ≡ body ++ concat cs
unfolding receive
receive-concat_onto [] body ps = sym (append-nil body)
receive-concat_onto (c ∷ cs) body ps =
    ap (λ r. receive cs r.1) (write_callback-accepts c body ps.0)
    ∙ (receive-concat_onto cs (body ++ c.ptr) ps.1 ∙ append_assoc body c.ptr (concat cs))

accepts-All :
    (cs : List Chunk) (body : Bytes)
    → All IsPiece cs
    → All (λ c. (write_callback c body).0 ≡ length c.ptr) cs
accepts-All [] body ps = ps
accepts-All (c ∷ cs) body ps =
    (ap (λ r. r.0) (write_callback-accepts c body ps.0), accepts-All cs body ps.1)

-- When every piece has as many bytes as it says, and that number fits a size_t, the body that the
-- write callback gathers is the pieces one after another, and each call returns the piece's size,
-- which tells libcurl to go on.
receive-concat :
    (cs : List Chunk)
    → All IsPiece cs
    → (receive cs [] ≡ concat cs)
      × ((body : Bytes) → All (λ c. (write_callback c body).0 ≡ length c.ptr) cs)
receive-concat cs ps = (receive-concat_onto cs [] ps, λ body. accepts-All cs body ps)

module _ (curl : Curl) where
  open curl use {Handle, reset, setopt, perform, strerror, options, reset_options, setopt_options}

  set_all-options : (os : List Opt) (h : Handle) → options (set_all curl os h) ≡ options h ++ os
  set_all-options [] h = sym (append-nil (options h))
  set_all-options (o ∷ os) h =
      rw (set_all-options os (setopt o h))
        (rw (setopt_options o h) (append_assoc (options h) (o ∷ []) os))

  prepare-options : (os : List Opt) (h : Handle) → options (prepare curl os h) ≡ os
  unfolding prepare
  prepare-options os h = set_all-options os (reset h) ∙ ap (λ xs. xs ++ os) (reset_options h)

  -- One transfer, on a handle with these options, whose response and handle are the result.
  unfoldable pub Performs : List Opt → HttpResponse × Option Handle → Type 0
  Performs os r =
      (h : Handle) × (options h ≡ os) × (r ≡ (respond curl (perform h).0, some (perform h).1))

  -- A request that has a handle performs one transfer, on a handle whose options are those of the
  -- request and none of an earlier one. Without a handle the response says so and nothing is
  -- performed.
  requests_perform :
      (u body content_type : Bytes) (h : Handle)
      → Performs (get_options u) (http_get curl u (some h))
        × Performs (post_options u body content_type) (http_post curl u body content_type (some h))
        × (http_get curl u none ≡ (not_initialized, none))
        × (http_post curl u body content_type none ≡ (not_initialized, none))
  unfolding http_get http_post Performs
  requests_perform u body content_type h = (
    (prepare curl (get_options u) h, prepare-options (get_options u) h, refl),
    (
      prepare curl (post_options u body content_type) h,
      prepare-options (post_options u body content_type) h,
      refl,
    ),
    refl,
    refl,
  )

  -- A response is ok exactly when the transfer succeeded with a code from 200 up to 299, and then
  -- it holds no error and the whole body. After a failed transfer it holds the error text of
  -- libcurl, no code and no body.
  pub respond-ok_iff :
      (t : Transfer)
      → ((ok (respond curl t) ≡ true)
          ↔ ((t.result ≡ 0) × (200 ≤ t.response_code % 2 ^ 32) × (t.response_code % 2 ^ 32 < 300)))
        × (ok (respond curl t) ≡ true
            → ((respond curl t).error ≡ []) × ((respond curl t).body ≡ receive t.chunks []))
        × (t.result ≢ 0
            → respond curl t ≡ record { status_code = 0; body = []; error = strerror t.result })
  unfolding respond ok
  respond-ok_iff t = ((λ h. ground arith, λ h. ground arith), λ h. ground arith, λ h. ground arith)

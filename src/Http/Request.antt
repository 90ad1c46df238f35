-- ===== src/Http/Request.antt =====
-- HttpGet and HttpPost of async_http.cpp: one request on the worker thread's handle.
use async_http.Prelude.{
  ℕ, ◌*◌, ◌%◌, ◌^◌, Option, some, none, List, [], ◌∷◌, ◌++◌, length, take, ◌==◌, if◌then◌else◌,
}
use async_http.Http.{
  Bytes, bytes, c_str, HttpResponse, no_response, Opt, url, http_get_opt, post, write_function,
  write_data, follow_location, post_fields, post_field_size, timeout_seconds, http_header, Chunk,
  Transfer, Curl,
}

-- `WriteCallback`: what it returns, and the body after it. The product is one of size_t.
unfoldable pub write_callback : Chunk → Bytes → ℕ × Bytes
write_callback c body = let n = c.size * c.nmemb % 2 ^ 64 in (n, body ++ take n c.ptr)

-- libcurl's calls of the write callback, in order.
unfoldable pub receive : List Chunk → Bytes → Bytes
unfolding write_callback
receive [] body = body
receive (c ∷ cs) body = receive cs (write_callback c body).1

abbrev pub not_initialized : HttpResponse
not_initialized = record no_response { error = bytes "Not initialized" }

abbrev pub get_options : Bytes → List Opt
get_options u =
    url (c_str u)
    ∷ http_get_opt
    ∷ write_function
    ∷ write_data
    ∷ follow_location
    ∷ timeout_seconds 10
    ∷ []

abbrev pub content_type_header : Bytes → Bytes
content_type_header content_type = c_str (bytes "Content-Type: " ++ content_type)

abbrev pub post_options : Bytes → Bytes → Bytes → List Opt
post_options u body content_type =
    url (c_str u)
    ∷ post
    ∷ post_fields body
    ∷ post_field_size (length body)
    ∷ http_header (content_type_header content_type ∷ [])
    ∷ write_function
    ∷ write_data
    ∷ follow_location
    ∷ timeout_seconds 10
    ∷ []

module _ (curl : Curl) where
  open curl use {Handle, reset, setopt, perform, strerror, options, reset_options, setopt_options}

  -- The end of both requests, once the transfer has ended.
  unfoldable pub respond : Transfer → HttpResponse
  unfolding receive
  respond t =
      if t.result == 0
      then record no_response { status_code = t.response_code % 2 ^ 32; body = receive t.chunks [] }
      else record no_response { error = strerror t.result }

  -- The `curl_easy_setopt` calls of a request, in order.
  abbrev pub set_all : List Opt → Handle → Handle
  set_all [] h = h
  set_all (o ∷ os) h = set_all os (setopt o h)

  -- The handle that a request performs its transfer with.
  unfoldable pub prepare : List Opt → Handle → Handle
  prepare os h = set_all os (reset h)

  -- A request on `m_curl`, which may be null.
  abbrev request : List Opt → Option Handle → HttpResponse × Option Handle
  request os none = (not_initialized, none)
  request os (some h) = let r = perform (prepare os h) in (respond r.0, some r.1)

  unfoldable pub http_get : Bytes → Option Handle → HttpResponse × Option Handle
  unfolding prepare respond
  http_get u h = request (get_options u) h

  unfoldable pub http_post : Bytes → Bytes → Bytes → Option Handle → HttpResponse × Option Handle
  unfolding prepare respond
  http_post u body content_type h = request (post_options u body content_type) h

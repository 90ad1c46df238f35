-- ===== src/Http.antt =====
-- HTTP/async_http.h and HTTP/async_http.cpp: the HTTP client.
-- libcurl is a parameter, the record `Curl`: its functions with the documented behaviour that the
-- client relies on. A std::string is its list of bytes.
pub mod Global
pub mod Request
pub mod Client
pub mod Options
pub mod Lifecycle
use Prim.Native.Char.{code}
use Prim.Native.String.{String}
use async_http.Prelude.{
  ℕ, zero, ◌≡◌, Bool, true, false, ◌&&◌, List, [], ◌∷◌, ◌++◌, ltb, leb, ◌==◌, if◌then◌else◌,
}

abbrev pub Bytes : Type 0
Bytes = List ℕ

abbrev pub bytes : String → Bytes
bytes String.[] = []
bytes (String.◌∷◌ c s) = code c ∷ bytes s

-- `s.c_str()`, as a C function reads it: up to the first NUL.
abbrev pub c_str : Bytes → Bytes
c_str [] = []
c_str (b ∷ s) = if b == 0 then [] else b ∷ c_str s

-- `status_code` is the bit pattern of the int.
pub record HttpResponse : Type 0 where
  pub status_code : ℕ
  pub body : Bytes
  pub error : Bytes

abbrev pub no_response : HttpResponse
no_response = record { status_code = 0; body = []; error = [] }

-- `ok()`. A negative int has a pattern above 2 ^ 31.
unfoldable pub ok : HttpResponse → Bool
ok r = leb 200 r.status_code && ltb r.status_code 300

-- The options that the client sets; what `WRITEFUNCTION` and `WRITEDATA` point at is always the
-- client's own callback and the body of the request at hand.
pub data Opt : Type 0 where
  url : Bytes → Opt
  http_get_opt post write_function write_data follow_location : Opt
  post_fields : Bytes → Opt
  post_field_size timeout_seconds : ℕ → Opt
  http_header : List Bytes → Opt

-- A piece of the body that libcurl hands to the write callback.
pub record Chunk : Type 0 where
  pub ptr : Bytes
  pub size : ℕ
  pub nmemb : ℕ

-- What `curl_easy_perform` does: its result, the pieces that it delivers, and the response code that
-- `curl_easy_getinfo` reads afterwards.
pub record Transfer : Type 0 where
  pub result : ℕ
  pub chunks : List Chunk
  pub response_code : ℕ

-- `reset_options` and `setopt_options` are the documented behaviour: a reset takes every option back
-- to its default, and a later option comes on top of the earlier ones.
pub record Curl : Type 1 where
  pub Handle : Type 0
  pub reset : Handle → Handle
  pub setopt : Opt → Handle → Handle
  pub perform : Handle → Transfer × Handle
  pub strerror : ℕ → Bytes
  pub options : Handle → List Opt
  pub reset_options : (h : Handle) → options (reset h) ≡ []
  pub setopt_options : (o : Opt) (h : Handle) → options (setopt o h) ≡ options h ++ (o ∷ [])

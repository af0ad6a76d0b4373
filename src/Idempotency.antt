-- ===== src/Idempotency.antt =====
-- idempotency.go: answers to requests with an Idempotency-Key are recorded in the cache and given
-- again. A handler here is the sequence of calls it makes on its response writer. Each reading of
-- the clock is an argument: `now` where the entry is read, `ended` behind the handler.
pub mod Replay
pub mod Twice
use goserver.Common.{
  arith, Bool, List, Option, [], false, if◌then◌else◌, leb, length, ltb, none, some, true, ℕ, ◌&&◌,
  ◌++◌, ◌+◌, ◌-◌, ◌==◌, ◌||◌, ◌∷◌,
}
use goserver.Text.{Str, codes, str_eq}
use goserver.Maps.{insert, delete}
use goserver.Http.{
  Request, Writer, Renderer, get, render_error_json, set_header, write, write_header,
}

pub record CachedResponse : Type 0 where
  pub headers : List (Str × List Str)
  pub body : Str
  pub status : ℕ
  pub fingerprint : Str
  pub expires_at : ℕ

pub record ResponseInterceptor : Type 0 where
  pub header : List (Str × List Str)
  pub body : Str
  pub status : ℕ
  pub wrote_header : Bool
  pub too_large : Bool

abbrev pub new_response_interceptor : ResponseInterceptor
new_response_interceptor = record {
  header = [];
  body = [];
  status = 200;
  wrote_header = false;
  too_large = false;
}

unfoldable pub intercept_header : ℕ → ResponseInterceptor → ResponseInterceptor
intercept_header code i =
    if ltb code 200 || i.wrote_header then i else record i { status = code; wrote_header = true }

abbrev pub max_idempotency_response : ℕ
max_idempotency_response = 1048576

unfoldable pub intercept_write : Str → ResponseInterceptor → ResponseInterceptor
intercept_write b i0 =
    let i = intercept_header 200 i0 in
    if i.too_large
    then i
    else if ltb (max_idempotency_response - length i.body) (length b)
    then record i { too_large = true }
    else record i { body = i.body ++ b }

-- A call that a handler makes on its `http.ResponseWriter`; `edit` is any change of `Header()`.
pub data Call : Type 0 where
  edit : (List (Str × List Str) → List (Str × List Str)) → Call
  status_line : ℕ → Call
  chunk : Str → Call

-- on the server's own writer, whose header no change reaches once the status is written
unfoldable pub edit_unsent : (List (Str × List Str) → List (Str × List Str)) → Writer → Writer
edit_unsent f w = elim w.status [ none ↦ record w { headers = f w.headers } | some _ ↦ w ]

unfoldable pub play : List Call → Writer → Writer
play [] w = w
play (edit f ∷ cs) w = play cs (edit_unsent f w)
play (status_line code ∷ cs) w = play cs (write_header code w)
play (chunk b ∷ cs) w = play cs (write b w)

unfoldable pub intercept : List Call → ResponseInterceptor → ResponseInterceptor
intercept [] i = i
intercept (edit f ∷ cs) i = intercept cs (record i { header = f i.header })
intercept (status_line code ∷ cs) i = intercept cs (intercept_header code i)
intercept (chunk b ∷ cs) i = intercept cs (intercept_write b i)

-- The server's `CacheStore`, SHA-256 and JSON. `load` gives `none` for a value that is no byte
-- slice, `store` says whether it failed, and `is_broken` is a body that cannot be read.
pub record Deps (S : Type 0) : Type 0 where
  pub has_cache : Bool
  pub load : Str → S → Option Str × S
  pub store : Str → Str → ℕ → S → Bool × S
  pub hash : List Str → Str
  pub marshal : CachedResponse → Option Str
  pub unmarshal : Str → Option CachedResponse
  pub is_broken : Request → Bool

abbrev pub idempotency_ttl : ℕ
idempotency_ttl = 86400000000000

module _ {S : Type 0} (D : Deps S) where
  -- the entry of the cache, unless it has expired
  unfoldable pub recorded : Str → ℕ → S → Option CachedResponse
  recorded key now s =
      if D.has_cache
      then elim ((D.load key s).0) [
        | none ↦ none
        | some bytes ↦ elim (D.unmarshal bytes) [
          | none ↦ none
          | some c ↦ if ltb now c.expires_at then some c else none
        ]
      ]
      else none

  unfoldable pub response_of : Str → ℕ → ResponseInterceptor → CachedResponse
  response_of fp ended i = record {
    headers = delete (codes "X-Request-Id") (delete (codes "Set-Cookie") i.header);
    body = i.body;
    status = i.status;
    fingerprint = fp;
    expires_at = ended + idempotency_ttl;
  }

  -- the answer's way to the cache; `none` where it has no JSON
  unfoldable pub persist : Str → CachedResponse → S → Option CachedResponse × S
  persist key c s =
      if D.has_cache && (leb 200 c.status && ltb c.status 400)
      then elim (D.marshal c) [
        | none ↦ (none, s)
        | some bytes ↦ (some c, (D.store key bytes idempotency_ttl s).1)
      ]
      else (some c, s)

  -- the function that runs once for all requests at a time with one key: the answer, whether it
  -- is one of the cache, and the cache after it
  unfoldable pub flight : Str → Str → List Call → ℕ → ℕ → S → Option CachedResponse × (Bool × S)
  flight key fp calls now ended s =
      let s' = if D.has_cache then (D.load key s).1 else s in
      elim (recorded key now s) [
        | some c ↦ (some c, (true, s'))
        | none ↦
            let i = intercept calls new_response_interceptor in
            if i.too_large
            then (none, (false, s'))
            else let p = persist key (response_of fp ended i) s' in (p.0, (false, p.1))
      ]

  unfoldable pub cache_key : Str → Str → Request → Str
  cache_key tenant subject r =
      codes "idemp:v2:"
      ++ D.hash (
          r.host
          ∷ tenant
          ∷ subject
          ∷ r.method
          ∷ r.path
          ∷ get (codes "Idempotency-Key") r.headers
          ∷ [])

  unfoldable pub fingerprint_of : Request → Str
  fingerprint_of r = D.hash (
      r.raw_query
      ∷ get (codes "Content-Type") r.headers
      ∷ get (codes "Content-Encoding") r.headers
      ∷ r.body
      ∷ [])

-- `w.Header()[k] = values` for every header of the response
unfoldable pub copy_headers : List (Str × List Str) → Writer → Writer
copy_headers [] w = w
copy_headers ((k, v) ∷ hs) w = copy_headers hs (record w { headers = insert k v w.headers })

unfoldable pub mark_repeated : Bool → Writer → Writer
mark_repeated b w = if b then set_header (codes "Idempotent-Replayed") (codes "true") w else w

-- the end of the middleware, with the result of the group
unfoldable pub respond : Renderer → Request → Str → Bool → Option CachedResponse → Writer → Writer
respond rd r fp repeated none w =
    render_error_json rd r 500 (codes "Idempotency response could not be recorded") w
respond rd r fp repeated (some c) w =
    if str_eq c.fingerprint fp
    then write c.body (write_header c.status (mark_repeated repeated (copy_headers c.headers w)))
    else render_error_json rd r 409 (codes "Idempotency-Key reused with a different request") w

-- Methods that the middleware lets through.
unfoldable pub is_safe_method : Str → Bool
is_safe_method m = str_eq m (codes "GET") || str_eq m (codes "HEAD") || str_eq m (codes "OPTIONS")

-- the answer and the cache of one request that leads its group; `shared` says whether others
-- joined it, `max_body` is `Config.MaxBodySize`, 0 where that is
-- negative
unfoldable pub idempotency_middleware :
    {S : Type 0}
    → Deps S
    → Renderer
    → ℕ
    → Bool
    → (Request → List Call)
    → Request
    → ℕ
    → ℕ
    → Writer
    → S
    → Writer × S
idempotency_middleware D rd max_body shared next r now ended w s =
    let key = get (codes "Idempotency-Key") r.headers in
    let limit = if max_body == 0 then 1048576 else max_body in
    if str_eq key [] || is_safe_method r.method
    then (play (next r) w, s)
    else elim r.context.scope [
      | none ↦ (render_error_json rd r 401 (codes "Authenticated idempotency scope required") w, s)
      | some scope ↦
          if str_eq scope.subject []
          then (render_error_json rd r 401 (codes "Authenticated idempotency scope required") w, s)
          else if ltb 256 (length key)
          then (render_error_json rd r 400 (codes "Idempotency-Key too long") w, s)
          else if ltb limit (length r.body)
          then (render_error_json rd r 413 (codes "Request body too large") w, s)
          else if D.is_broken r
          then (render_error_json rd r 400 (codes "Cannot read request body") w, s)
          else let fp = fingerprint_of D r in
            let f = flight D (cache_key D scope.tenant scope.subject r) fp (next r) now ended s in
            (respond rd r fp (f.1.0 || shared) f.0 w, f.1.1)
    ]

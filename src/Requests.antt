-- ===== src/Requests.antt =====
-- prefix.go, redirect.go, params.go and requestid.go: what the middleware does to a request's
-- path, the redirections, the route's parameters, the request's identifier.
pub mod Rewrites
use goserver.Common.{
  arith, Bool, List, [], if◌then◌else◌, length, ltb, none, not, some, ℕ, ◌&&◌, ◌++◌, ◌==◌, ◌||◌,
  ◌∷◌,
}
use goserver.Text.{
  Str, codes, has_prefix, has_suffix, split, str_eq, to_lower, trim_prefix, trim_space, trim_suffix,
}
use goserver.Maps.{lookup}
use goserver.Http.{
  Handler, Middleware, Request, Writer, Renderer, get, http_redirect, render_error,
  render_error_json, set_header,
}

unfoldable pub normalize_api_prefix : Str → Str
normalize_api_prefix s =
    let prefix = trim_space s in
    if str_eq prefix [] || str_eq prefix (codes "/")
    then []
    else if has_prefix prefix (codes "/")
    then trim_suffix prefix (codes "/")
    else trim_suffix (b'/' ∷ prefix) (codes "/")

-- `r.URL.RawPath` when the path is the prefix itself, and when it begins with it
unfoldable pub raw_root : Str → Str
raw_root [] = []
raw_root (c ∷ s) = codes "/"

unfoldable pub strip_prefix : Str → Request → Request
strip_prefix prefix r =
    if str_eq r.path prefix
    then record r { path = codes "/"; raw_path = raw_root r.raw_path }
    else if has_prefix r.path (prefix ++ codes "/")
    then record r { path = trim_prefix r.path prefix; raw_path = trim_prefix r.raw_path prefix }
    else r

unfoldable pub api_prefix_middleware : Str → Middleware
api_prefix_middleware configured next r w =
    let prefix = normalize_api_prefix configured in
    if str_eq prefix [] then next r w else next (strip_prefix prefix r) w

unfoldable pub first_part : List Str → Str
first_part [] = []
first_part (p ∷ ps) = p

unfoldable pub scheme_of : Request → Str
scheme_of r =
    let forwarded = get (codes "X-Forwarded-Proto") r.headers in
    if r.tls
    then codes "https"
    else if str_eq forwarded []
    then codes "http"
    else to_lower (trim_space (first_part (split b',' forwarded)))

unfoldable pub is_local : Str → Bool
is_local host =
    str_eq host (codes "localhost")
    || (str_eq host (codes "127.0.0.1")
        || (has_prefix host (codes "localhost:") || has_prefix host (codes "127.0.0.1:")))

-- the conditions of the three rewrites
unfoldable pub has_www : Request → Bool
has_www r = has_prefix r.host (codes "www.")

unfoldable pub has_slash : Request → Bool
has_slash r =
    ltb 1 (length r.path)
    && (has_suffix r.path (codes "/") && not (has_prefix r.path (codes "/assets/")))

unfoldable pub is_insecure : Request → Bool
is_insecure r = str_eq (scheme_of r) (codes "http") && not (is_local r.host)

unfoldable pub redirect_url : Request → Str
redirect_url r =
    let scheme = if is_insecure r then codes "https" else scheme_of r in
    let host = trim_prefix r.host (codes "www.") in
    let path = if has_slash r then trim_suffix r.path (codes "/") else r.path in
    let url = scheme ++ (codes "://" ++ (host ++ path)) in
    if str_eq r.raw_query [] then url else url ++ b'?' ∷ r.raw_query

unfoldable pub redirect_middleware : Middleware
redirect_middleware next r w =
    if has_www r || (has_slash r || is_insecure r)
    then http_redirect (redirect_url r) 301 w
    else next r w

-- `Redirect`; `http.Redirect` also makes a relative location absolute, which is the argument
-- `absolute`.
unfoldable pub redirect :
    Renderer → (Request → Str → Str) → Bool → Request → ℕ → Str → Writer → Writer
redirect rd absolute json_mode r code [] w =
    let message = rd.status_text 500 ++ codes ": empty redirect location" in
    if json_mode then render_error_json rd r 500 message w else render_error rd r 500 message w
redirect rd absolute json_mode r code (c ∷ location) w =
    if c == b'/' && (not (str_eq r.raw_query []) && code == 307)
    then http_redirect (absolute r (c ∷ location ++ b'?' ∷ r.raw_query)) code w
    else http_redirect (absolute r (c ∷ location)) code w

-- `Params.Get`, `GetParams` and `WithParams`
unfoldable pub get_params : Request → List (Str × Str)
get_params r = elim r.context.params [ none ↦ [] | some ps ↦ ps ]

unfoldable pub set_params : List (Str × Str) → Request → Request
set_params ps r = record r { context = record (r.context) { params = some ps } }

unfoldable pub request_id_middleware : Str → Middleware
request_id_middleware xid next r w =
    next (record r { context = record (r.context) { request_id = some xid } })
      (set_header (codes "X-Request-Id") xid w)

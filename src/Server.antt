-- ===== src/Server.antt =====
-- server.go, lifecycle.go and maintenance.go: the gate in front of the middleware chain, its
-- counters, and shutdown.
pub mod Laws
pub mod Connections
use goserver.Common.{
  map, Bool, List, Option, [], all, false, if◌then◌else◌, leb, length, ltb, none, not, null, some,
  true, ℕ, ◌&&◌, ◌*◌, ◌+◌, ◌-◌, ◌==◌, ◌||◌, ◌∷◌,
}
use goserver.Text.{codes, Str, member, str_eq, trim_left}
use goserver.Numbers.{Signed}
use goserver.Http.{
  Handler, Middleware, Renderer, Request, Writer, get, http_error, set_header, write, write_header,
}
use goserver.Router.Groups.{reject_request}

-- `maintenanceMode`; `last_check` is 0 until the file was looked at
pub record MaintenanceMode : Type 0 where
  pub fallback : Bool
  pub file : Str
  pub interval : ℕ
  pub bypass_token : Str
  pub last_check : ℕ
  pub enabled_value : Bool

-- `newMaintenanceModeAt`, for `MaintenanceCheckInterval` in nanoseconds
unfoldable pub new_maintenance_mode_at : Bool → ℕ → Str → Str → MaintenanceMode
new_maintenance_mode_at mode interval token path = record {
  fallback = mode;
  file = path;
  interval = if interval == 0 then 5 * 1000000000 else interval;
  bypass_token = token;
  last_check = 0;
  enabled_value = mode;
}

abbrev is_recent : ℕ → MaintenanceMode → Bool
is_recent now m = ltb 0 m.last_check && ltb (now - m.last_check) m.interval

-- what a check of the file stores; `stat` is `none` for an error, else `IsDir`
abbrev refreshed : ℕ → Option Bool → MaintenanceMode → MaintenanceMode
refreshed now stat m = record m {
  last_check = now;
  enabled_value = elim stat [ none ↦ m.fallback | some is_dir ↦ not is_dir ];
}

-- `enabled`: `locked` is the time that is read under the lock
unfoldable pub enabled : ℕ → ℕ → Option Bool → MaintenanceMode → Bool × MaintenanceMode
enabled now locked stat m =
    if m.fallback || str_eq m.file []
    then (m.fallback, m)
    else if is_recent now m
    then (m.enabled_value, m)
    else if is_recent locked m
    then (m.enabled_value, m)
    else ((refreshed locked stat m).enabled_value, refreshed locked stat m)

-- `allows`
unfoldable pub allows : MaintenanceMode → Request → Bool
allows m r =
    not (str_eq m.bypass_token [])
    && str_eq (get (codes "X-Goserver-Maintenance-Token") r.headers) m.bypass_token

-- `serveMaintenance`, with the page's text as `page`
unfoldable pub serve_maintenance : Str → Handler
serve_maintenance page r w =
    let typed = set_header (codes "Content-Type") (codes "text/html; charset=utf-8") (
      set_header (codes "Retry-After") (codes "300")
        (set_header (codes "Cache-Control") (codes "no-store, max-age=0") w)) in
    let done = write_header 503 typed in
    if str_eq r.method (codes "HEAD") then done else write page done

-- The part of `Server` that requests share: `work` is the counter of `backgroundWg`.
pub record ServerState : Type 0 where
  pub maintenance : MaintenanceMode
  pub stopping : Bool
  pub work : ℕ
  pub total_requests : ℕ
  pub errors4xx : ℕ
  pub errors5xx : ℕ

unfoldable pub begin_work : ServerState → Bool × ServerState
begin_work s = if s.stopping then (false, s) else (true, record s { work = s.work + 1 })

-- `backgroundWg.Done()`
abbrev pub end_work : ServerState → ServerState
end_work s = record s { work = s.work - 1 }

-- the locked region at the head of `shutdown`
unfoldable pub begin_shutdown : ServerState → ServerState
begin_shutdown s = record s { stopping = true }

pub record Limits : Type 0 where
  pub max_url_length : Signed
  pub max_headers : Signed
  pub max_body_size : Signed

-- `n > limit`, for a limit that may be negative
unfoldable pub is_over : ℕ → Signed → Bool
is_over n limit = if limit.negative then ltb 0 (n + limit.magnitude) else ltb limit.magnitude n

-- `limit > 0`
unfoldable pub is_positive : Signed → Bool
is_positive limit = not limit.negative && ltb 0 limit.magnitude

abbrev pub request_methods : List Str
request_methods =
    map codes
      ("GET" ∷ "HEAD" ∷ "POST" ∷ "PUT" ∷ "DELETE" ∷ "CONNECT" ∷ "OPTIONS" ∷ "TRACE" ∷ "PATCH" ∷ [])

unfoldable pub is_request_method : Str → Bool
is_request_method method = member method request_methods

-- the four tests of `buildHandler`, in their order; `url` is `r.URL.String()`
unfoldable pub refusal : Limits → (Request → Str) → (ℕ → Str) → Request → Option (ℕ × Str)
refusal limits url status_text r =
    if is_over (length (url r)) limits.max_url_length
    then some (414, codes "URL too long")
    else if is_over (length r.headers) limits.max_headers
    then some (431, codes "Too many headers")
    else if not (is_request_method r.method)
    then some (405, status_text 405)
    else elim r.content_length [
      | none ↦ none
      | some n ↦
          if is_positive limits.max_body_size && is_over n limits.max_body_size
          then some (413, codes "Request body too large")
          else none
    ]

-- the deferred count by `statusWriter.status`, which is 200 until a status is written
unfoldable pub count_status : Writer → ServerState → ServerState
count_status w s =
    let status : ℕ = elim w.status [ none ↦ 200 | some code ↦ code ] in
    if leb 400 status && ltb status 500
    then record s { errors4xx = s.errors4xx + 1 }
    else if leb 500 status
    then record s { errors5xx = s.errors5xx + 1 }
    else s

-- `applyBeforeHooks` and `applyAfterHooks`
unfoldable pub apply_hooks : List Handler → Handler
apply_hooks [] r w = w
apply_hooks (h ∷ hooks) r w = apply_hooks hooks r (h r w)

-- What the handler of `buildHandler` is built from: `compiled` is the middleware chain.
pub record Gate : Type 0 where
  pub limits : Limits
  pub url : Request → Str
  pub renderer : Renderer
  pub mode : Str
  pub page : Str
  pub before : List Handler
  pub after : List Handler
  pub compiled : Handler

unfoldable pub admit : Gate → Handler
admit g r w = elim (refusal g.limits g.url g.renderer.status_text r) [
  | some (code, msg) ↦ reject_request g.renderer g.mode r code msg w
  | none ↦ apply_hooks g.after r (g.compiled r (apply_hooks g.before r w))
]

-- the handler of `buildHandler`, for a request that no other overlaps
unfoldable pub build_handler :
    Gate → ℕ → ℕ → Option Bool → Request → Writer → ServerState → Writer × ServerState
build_handler g now locked stat r w s =
    let (on, m) = enabled now locked stat s.maintenance in
    let s' = record s { maintenance = m } in
    if on && not (allows m r)
    then (serve_maintenance g.page r w, s')
    else let (begun, s'') = begin_work s' in
      if not begun
      then (http_error (codes "Server shutting down") 503 w, s'')
      else let counted = record s'' { total_requests = s''.total_requests + 1 } in
        let response = admit g r w in (response, end_work (count_status response counted))

-- `compileMiddlewareChain`
unfoldable pub compile_middleware_chain : List Middleware → Handler → Handler
compile_middleware_chain [] final = final
compile_middleware_chain (m ∷ ms) final = m (compile_middleware_chain ms final)

-- `normalizeServerAddr`
abbrev is_digit : ℕ → Bool
is_digit c = leb b'0' c && leb c b'9'

unfoldable pub normalize_server_addr : Str → Str
normalize_server_addr addr =
    let port = trim_left (λ c. c == b':') addr in
    if null port then addr else if all is_digit port then b':' ∷ port else addr

-- ===== src/Server/Laws.antt =====
-- server.go, lifecycle.go and maintenance.go: the limits, the gate, the counters, maintenance.
use goserver.Common.{
  arith, Bool, List, Option, Option-cases, [], ap, false, inl, inr, length, none, refl, some, true,
  ℕ, ◌+◌, ◌<◌, ◌↔◌, ◌∷◌, ◌≡◌, ◌≢◌, ◌≤◌, ◌⊎◌, is_some, Bool-cases, ◌||◌,
}
use goserver.Text.Compare.{str_eq_iff}
use goserver.Router.{chain}
use goserver.Text.{Str, codes, str_eq}
use goserver.Numbers.{Signed}
use goserver.Http.{Handler, Middleware, Request, Writer, get}
use goserver.Server.{
  ServerState, Gate, Limits, MaintenanceMode, admit, allows, begin_shutdown, begin_work,
  build_handler, compile_middleware_chain, count_status, enabled, is_request_method, refusal,
  serve_maintenance, is_recent, refreshed, is_over, is_positive,
}

-- A body whose length is announced and limited is within the limit.
-- A size is at most a limit that may be negative.
abbrev pub IsWithin : ℕ → Signed → Type 0
IsWithin n limit =
    ((limit.negative ≡ false) × (n ≤ limit.magnitude))
    ⊎ ((limit.negative ≡ true) × (n + limit.magnitude ≡ 0))

abbrev pub BodyFits : Limits → Option ℕ → Type 0
BodyFits limits none = Unit
BodyFits limits (some n) =
    (limits.max_body_size.negative ≡ true)
    ⊎ ((limits.max_body_size.magnitude ≡ 0) ⊎ (n ≤ limits.max_body_size.magnitude))

-- A request is not refused exactly when its URL and its number of headers keep their limits,
-- its method is a request method, and its body keeps the limit on bodies where its length is
-- declared and that limit is positive; a body of unknown length is not refused here.
pub refusal-none_iff :
    (limits : Limits) (url : Request → Str) (status_text : ℕ → Str) (r : Request)
    → (refusal limits url status_text r ≡ none) ↔ (
        IsWithin (length (url r)) limits.max_url_length
        × IsWithin (length r.headers) limits.max_headers
        × (is_request_method r.method ≡ true)
        × BodyFits limits r.content_length)
unfolding refusal is_over is_positive
refusal-none_iff limits url status_text r = ground arith

admit_refused :
    (g : Gate) (h : Handler) (r : Request) (w : Writer)
    → is_some (refusal g.limits g.url g.renderer.status_text r) ≡ true
    → admit (record g { compiled = h }) r w ≡ admit g r w
unfolding admit
admit_refused g h r w refused =
    elim (Option-cases (refusal g.limits g.url g.renderer.status_text r)) [
      | inl e ↦ absurd (ground arith)
      | inr (answer, e) ↦ rw (e, admit)
    ]

-- The answer of the gate while the middleware chain is kept out.
module _ (g : Gate) (h : Handler) (now locked : ℕ) (stat : Option Bool) (r : Request) (w : Writer)
    (s : ServerState) where
  -- Under maintenance, without the bypass token, the middleware chain has no part in the answer.
  pub build_handler_maintenance :
      (enabled now locked stat s.maintenance).0 ≡ true
      → allows (enabled now locked stat s.maintenance).1 r ≡ false
      → build_handler g now locked stat r w s ≡ (
        serve_maintenance g.page r w,
        record s { maintenance = (enabled now locked stat s.maintenance).1 },
      )
  unfolding build_handler
  build_handler_maintenance on no_token = ground arith

  -- While the server stops, a request has no effect on the counters, and the chain no part in
  -- the answer.
  pub build_handler_stopping :
      s.stopping ≡ true
      → build_handler (record g { compiled = h }) now locked stat r w s
        ≡ build_handler g now locked stat r w s
  unfolding build_handler begin_work
  build_handler_stopping stopping = ground arith

  -- A request that one of the limits refuses has the same answer and effect whatever the
  -- compiled middleware chain is.
  build_handler_refused :
      is_some (refusal g.limits g.url g.renderer.status_text r) ≡ true
      → build_handler (record g { compiled = h }) now locked stat r w s
        ≡ build_handler g now locked stat r w s
  unfolding build_handler
  build_handler_refused refused = ground (arith, admit_refused g h r w refused)

-- A request leaves the number of works in progress and the stop flag as they were, adds at
-- most one to the total, and adds to the two error counters together at most what it adds to
-- the total.
build_handler_counts :
    (g : Gate) (now locked : ℕ) (stat : Option Bool) (r : Request) (w : Writer) (s : ServerState)
    → let after = (build_handler g now locked stat r w s).1 in
      (after.work ≡ s.work)
      × (after.stopping ≡ s.stopping)
      × (s.total_requests ≤ after.total_requests)
      × (after.total_requests ≤ s.total_requests + 1)
      × (after.errors4xx + after.errors5xx + s.total_requests
          ≤ s.errors4xx + s.errors5xx + after.total_requests)
unfolding build_handler begin_work count_status
build_handler_counts g now locked stat r w s = ground arith

-- Once shutdown has begun no work begins.
pub begin_work-begin_shutdown :
    (s : ServerState) → begin_work (begin_shutdown s) ≡ (false, begin_shutdown s)
unfolding begin_work begin_shutdown
begin_work-begin_shutdown s = refl

enabled_fixed :
    (m : MaintenanceMode) (now locked : ℕ) (stat : Option Bool)
    → (m.fallback || str_eq m.file []) ≡ true
    → enabled now locked stat m ≡ (m.fallback, m)
unfolding enabled
enabled_fixed m now locked stat fixed = rw fixed

no_check : (m : MaintenanceMode) (now : ℕ) → m.last_check ≡ 0 → is_recent now m ≡ false
no_check m now first = ground arith

enabled_first :
    (m : MaintenanceMode) (now locked : ℕ) (stat : Option Bool)
    → (m.fallback || str_eq m.file []) ≡ false
    → m.last_check ≡ 0
    → enabled now locked stat m ≡ ((refreshed locked stat m).enabled_value, refreshed locked stat m)
unfolding enabled
enabled_first m now locked stat free first =
    let old = no_check m now first in let old' = no_check m locked first in rw (free, old, old')

enabled_again :
    (m : MaintenanceMode) (now locked : ℕ) (stat : Option Bool)
    → (m.fallback || str_eq m.file []) ≡ false
    → 0 < m.last_check
    → 0 < m.interval
    → now < m.last_check + m.interval
    → enabled now locked stat m ≡ (m.enabled_value, m)
unfolding enabled
enabled_again m now locked stat free pos long soon =
    let young : is_recent now m ≡ true = ground arith in rw (free, young)

-- After a first look at the maintenance file, at a time after 0 and with an interval that is
-- not 0, every call before the interval is over gives the answer of that look, whatever the
-- file has become.
enabled_cached :
    (m : MaintenanceMode) (now locked later locked' : ℕ) (stat stat' : Option Bool)
    → m.last_check ≡ 0
    → 0 < locked
    → 0 < m.interval
    → later < locked + m.interval
    → (enabled later locked' stat' (enabled now locked stat m).1).0 ≡ (enabled now locked stat m).0
enabled_cached m now locked later locked' stat stat' first pos long soon =
    elim (Bool-cases (m.fallback || str_eq m.file [])) [
      | inl fixed ↦
          rw (enabled_fixed m now locked stat fixed, enabled_fixed m later locked' stat' fixed)
      | inr free ↦ rw (
        enabled_first m now locked stat free first,
        enabled_again (refreshed locked stat m) later locked' stat' free pos long soon,
      )
    ]

-- A look that is due, at a configured file, says that maintenance is on exactly when it is
-- configured on or the path is a file; the mode is off where the path is a directory or cannot
-- be read, unless it is configured on.
enabled_due :
    (m : MaintenanceMode) (now locked : ℕ) (stat : Option Bool)
    → m.last_check + m.interval ≤ now
    → now ≤ locked
    → m.file ≢ []
    → ((enabled now locked stat m).0 ≡ true) ↔ ((m.fallback ≡ true) ⊎ (stat ≡ some false))
unfolding enabled
enabled_due m now locked stat due mono named = ground (arith, named, str_eq_iff m.file [])

-- Only the configured token, which is not empty, passes maintenance.
pub allows_iff :
    (m : MaintenanceMode) (r : Request)
    → (allows m r ≡ true) ↔ (
        (m.bypass_token ≢ [])
        × (get (codes "X-Goserver-Maintenance-Token") r.headers ≡ m.bypass_token))
unfolding allows
allows_iff m r =
    let token = get (codes "X-Goserver-Maintenance-Token") r.headers in
    ground (arith, str_eq_iff m.bypass_token [], str_eq_iff token m.bypass_token)

-- The chain of the server is `chain` of the router.
pub compile_middleware_chain-chain :
    (ms : List Middleware) (h : Handler) → compile_middleware_chain ms h ≡ chain h ms
unfolding compile_middleware_chain chain
compile_middleware_chain-chain [] h = refl
compile_middleware_chain-chain (m ∷ ms) h = ap m (compile_middleware_chain-chain ms h)

-- ===== src/RateLimit.antt =====
-- ratelimit.go: a fixed window for each client. Client records are shared by pointer: the cache
-- holds addresses of a heap of records. Time is in nanoseconds, `ip` is `GetRealIP(r)`, and one
-- request runs at a time.
pub mod Windows
pub mod Sharing
use goserver.Common.{
  map, Bool, List, [], get_or, if◌then◌else◌, leb, length, ltb, none, set, some, ℕ, ◌&&◌, ◌++◌, ◌+◌,
  ◌-◌, ◌/◌, ◌∷◌,
}
use goserver.Text.{codes, Str, itoa, member}
use goserver.Http.{Handler, Middleware, Renderer, Request, Writer, render_error, set_header}
use goserver.Lru.{Lru}

pub record ClientData : Type 0 where
  pub window_start : ℕ
  pub count : ℕ

pub record RateLimiter : Type 0 where
  pub rate : ℕ
  pub window : ℕ
  pub skip_localhost : Bool

-- the window that counts at `now`: a new one when the old one is over
unfoldable pub current_window : RateLimiter → ℕ → ClientData → ClientData
current_window rl now c =
    if leb rl.window (now - c.window_start) then record { window_start = now; count = 0 } else c

-- `atomic.AddInt64(&clientData.count, 1)` after the window is chosen
unfoldable pub count_request : RateLimiter → ℕ → ClientData → ClientData
count_request rl now c = let c' = current_window rl now c in record c' { count = c'.count + 1 }

-- `currentCount > int64(rl.rate)`
unfoldable pub over_limit : RateLimiter → ClientData → Bool
over_limit rl c = ltb rl.rate c.count

-- `waitSec`, at least 1
unfoldable pub wait_seconds : RateLimiter → ℕ → ClientData → ℕ
wait_seconds rl now c =
    let wait = (c.window_start + rl.window - now) / 1000000000 in if ltb wait 1 then 1 else wait

abbrev pub is_localhost : Str → Bool
is_localhost ip = member ip (map codes ("127.0.0.1" ∷ "::1" ∷ "localhost" ∷ []))

-- the three headers, and then the answer for a client's record
unfoldable pub answer : RateLimiter → Renderer → ℕ → ClientData → Middleware
answer rl rd now c next r w =
    let limited = set_header (codes "X-Ratelimit-Limit") (itoa rl.rate) w in
    let left = set_header (codes "X-Ratelimit-Remaining") (itoa (rl.rate - c.count)) limited in
    let reset = itoa ((c.window_start + rl.window) / 1000000000) in
    let w' = set_header (codes "X-Ratelimit-Reset") reset left in
    if over_limit rl c
    then render_error rd r 429 (rd.status_text 429)
        (set_header (codes "Retry-After") (itoa (wait_seconds rl now c)) w')
    else next r w'

module _ (L : Lru ℕ) where
  pub record Clients : Type 0 where
    pub cache : L.State
    pub heap : List ClientData

  -- `getClient`, and the flight that adds a client that is missing
  unfoldable pub find_client : Str → ℕ → Clients → ℕ × Clients
  find_client ip now s = elim (L.peek ip s.cache) [
    | some address ↦ (address, record s { cache = L.touch ip s.cache })
    | none ↦ (
      length s.heap,
      record {
        cache = L.add ip (length s.heap) s.cache;
        heap = s.heap ++ record { window_start = now; count = 0 } ∷ [];
      },
    )
  ]

  abbrev pub missing : ClientData
  missing = record { window_start = 0; count = 0 }

  -- the handler of `WithRateLimiter`
  unfoldable pub with_rate_limiter :
      RateLimiter → Renderer → ℕ → Str → Handler → Request → Writer → Clients → Writer × Clients
  with_rate_limiter rl rd now ip next r w s =
      if rl.skip_localhost && is_localhost ip
      then (next r w, s)
      else let (address, found) = find_client ip now s in
        let c = count_request rl now (get_or found.heap address missing) in
        (answer rl rd now c next r w, record found { heap = set found.heap address c })

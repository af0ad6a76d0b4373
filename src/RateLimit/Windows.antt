-- ===== src/RateLimit/Windows.antt =====
-- ratelimit.go: one client's requests in a row.
use Prim.Native.Nat.{min}
use goserver.Common.{
  arith, All, Bool, List, [], false, length, not, suc, true, ℕ, ◌+◌, ◌-◌, ◌<◌, ◌∷◌, ◌≡◌, ◌≤◌,
}
use goserver.RateLimit.{RateLimiter, ClientData, count_request, current_window, over_limit}

-- The requests of one client, in order, at these times: which of them pass.
unfoldable pub run : RateLimiter → List ℕ → ClientData → List Bool
run rl [] c = []
run rl (now ∷ times) c = let c' = count_request rl now c in not (over_limit rl c') ∷ run rl times c'

unfoldable pub passed : List Bool → ℕ
passed [] = 0
passed (true ∷ bs) = suc (passed bs)
passed (false ∷ bs) = passed bs

-- Every time lies in the window that began at `start`.
abbrev pub Within : RateLimiter → ℕ → List ℕ → Type 0
Within rl start times = All (λ t. (start ≤ t) × (t < start + rl.window)) times

count_request_within :
    (rl : RateLimiter) (now : ℕ) (c : ClientData)
    → c.window_start ≤ now
    → now < c.window_start + rl.window
    → count_request rl now c ≡ record c { count = c.count + 1 }
unfolding count_request current_window
count_request_within rl now c low high = ground arith

-- Of requests that all come within one window of a client, as many pass as there are, but at
-- most as many as the rate has left.
pub passed-run :
    (rl : RateLimiter) (times : List ℕ) (c : ClientData)
    → Within rl c.window_start times
    → passed (run rl times c) ≡ min (length times) (rl.rate - c.count)
unfolding run passed over_limit
passed-run rl [] c h = omega arith
passed-run rl (now ∷ times) c ((low, high), h) =
    rw (count_request_within rl now c low high)
      (ground (arith, passed-run rl times (record c { count = c.count + 1 }) h))

-- A request that comes when the window is over starts a new one, whatever was counted before.
pub count_request_over :
    (rl : RateLimiter) (now : ℕ) (c : ClientData)
    → c.window_start + rl.window ≤ now
    → count_request rl now c ≡ record { window_start = now; count = 1 }
unfolding count_request current_window
count_request_over rl now c h = ground arith

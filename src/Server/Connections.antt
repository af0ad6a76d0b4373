-- ===== src/Server/Connections.antt =====
-- `newConnStateCallback`: the connection counter, a signed number, and the limit.
pub mod Counting
use goserver.Common.{arith, Bool, List, [], false, if◌then◌else◌, ltb, suc, true, zero, ℕ, ◌∷◌}

pub data Count : Type 0 where
  pos : ℕ → Count
  negsuc : ℕ → Count

unfoldable pub increment : Count → Count
increment (pos n) = pos (suc n)
increment (negsuc zero) = pos 0
increment (negsuc (suc n)) = negsuc n

unfoldable pub decrement : Count → Count
decrement (pos zero) = negsuc 0
decrement (pos (suc n)) = pos n
decrement (negsuc n) = negsuc (suc n)

-- `current > cfg.MaxConnections`
unfoldable pub exceeds : Count → ℕ → Bool
exceeds (pos n) limit = ltb limit n
exceeds (negsuc n) limit = false

-- `http.ConnState`
pub data ConnState : Type 0 where
  state_new state_active state_idle state_hijacked state_closed : ConnState

-- The callback: the new count, and whether it closes the connection. Deadlines are left out.
unfoldable pub conn_state_callback : ℕ → ConnState → Count → Count × Bool
conn_state_callback limit state_new c =
    let current = increment c in
    if exceeds current limit then (decrement current, true) else (current, false)
conn_state_callback limit state_hijacked c = (decrement c, false)
conn_state_callback limit state_closed c = (decrement c, false)
conn_state_callback limit state_active c = (c, false)
conn_state_callback limit state_idle c = (c, false)

unfoldable pub run_states : ℕ → List ConnState → Count → Count
run_states limit [] c = c
run_states limit (st ∷ states) c = run_states limit states (conn_state_callback limit st c).0

-- ===== src/Server/Connections/Counting.antt =====
-- `newConnStateCallback` on the states of one connection after the other.
use goserver.Common.{
  arith, All, List, [], false, refl, suc, true, zero, ℕ, ◌++◌, ◌∷◌, ◌≡◌, ◌⊎◌, ◌<◌,
}
use goserver.Server.Connections.{
  Count, ConnState, conn_state_callback, decrement, exceeds, increment, negsuc, pos, run_states,
  state_active, state_closed, state_hijacked, state_idle, state_new,
}

decrement-increment : (c : Count) → decrement (increment c) ≡ c
unfolding increment decrement
decrement-increment (pos n) = refl
decrement-increment (negsuc zero) = refl
decrement-increment (negsuc (suc n)) = refl

-- The life of a connection that was let in leaves the counter as it was, however often the
-- connection changes between active and idle.
abbrev pub IsQuiet : ConnState → Type 0
IsQuiet st = (st ≡ state_active) ⊎ (st ≡ state_idle)

run_states_quiet :
    (limit : ℕ) (states rest : List ConnState) (c : Count)
    → All IsQuiet states
    → run_states limit (states ++ rest) c ≡ run_states limit rest c
unfolding run_states conn_state_callback
run_states_quiet limit [] rest c h = refl
run_states_quiet limit (state_active ∷ states) rest c (_, h) =
    run_states_quiet limit states rest c h
run_states_quiet limit (state_idle ∷ states) rest c (_, h) = run_states_quiet limit states rest c h
run_states_quiet limit (state_new ∷ states) rest c (q, h) = absurd (ground arith)
run_states_quiet limit (state_hijacked ∷ states) rest c (q, h) = absurd (ground arith)
run_states_quiet limit (state_closed ∷ states) rest c (q, h) = absurd (ground arith)

-- A connection that is let in, changes between active and idle as often as it likes, and is
-- closed or hijacked, leaves the connection counter as it was.
run_states_accepted :
    (limit : ℕ) (states : List ConnState) (last : ConnState) (c : Count)
    → exceeds (increment c) limit ≡ false
    → All IsQuiet states
    → (last ≡ state_closed) ⊎ (last ≡ state_hijacked)
    → run_states limit (state_new ∷ states ++ last ∷ []) c ≡ c
unfolding run_states conn_state_callback
run_states_accepted limit states last c room quiet ends = ground (
  arith,
  room,
  run_states_quiet limit states (last ∷ []) (increment c) quiet,
  decrement-increment c,
)

-- A connection that the limit turns away is counted off twice, when it is turned away and when
-- `net/http` reports it closed: the counter ends one below where it began.
pub run_states_rejected :
    (limit : ℕ) (c : Count)
    → exceeds (increment c) limit ≡ true
    → run_states limit (state_new ∷ state_closed ∷ []) c ≡ decrement c
unfolding run_states conn_state_callback
run_states_rejected limit c full = ground (arith, full, decrement-increment c)

-- With a limit above 0 that the connections have reached, a new connection is closed; but
-- after that one is reported closed, the next new connection is let in, although no earlier
-- one ended.
pub limit_overrun :
    (limit : ℕ)
    → 0 < limit
    → ((conn_state_callback limit state_new (pos limit)).1 ≡ true)
      × ((conn_state_callback limit state_new
            (run_states limit (state_new ∷ state_closed ∷ []) (pos limit))).1
          ≡ false)
unfolding conn_state_callback exceeds increment run_states decrement
limit_overrun (suc limit) h = ground arith
limit_overrun zero h = absurd (ground arith)

-- ===== src/LoadShedding.antt =====
-- loadshedding.go, with the lease that timeout.go shares with its goroutine: a semaphore of
-- slots and the references that keep a slot. A lease is the number of its references.
pub mod Slots
use goserver.Common.{
  none, List, Option, [], get_or, if◌then◌else◌, ltb, set, some, ℕ, ◌++◌, ◌+◌, ◌-◌, ◌==◌, ◌∷◌,
}
use goserver.Text.{codes, Str, has_prefix, str_eq}
use goserver.Http.{Handler, Renderer, Request, Writer, render_error, render_error_json, set_header}

pub record Shedder : Type 0 where
  pub capacity : ℕ
  pub held : ℕ
  pub leases : List ℕ

-- the semaphore, made once; a limit of 0 stands for one that is not positive
unfoldable pub new_shedder : ℕ → Shedder
new_shedder limit = record { capacity = if limit == 0 then 1000 else limit; held = 0; leases = [] }

-- the `select`: a slot and a new lease with one reference, or nothing
unfoldable pub acquire : Shedder → Option Shedder
acquire s =
    if ltb s.held s.capacity
    then some (record s { held = s.held + 1; leases = s.leases ++ 1 ∷ [] })
    else none

-- `lease.refs.Add(1)` of the timeout middleware
unfoldable pub retain : ℕ → Shedder → Shedder
retain i s = record s { leases = set s.leases i (get_or s.leases i 0 + 1) }

-- `done`: the last reference gives the slot back
unfoldable pub done : ℕ → Shedder → Shedder
done i s =
    let refs = get_or s.leases i 0 - 1 in
    record s { leases = set s.leases i refs; held = if refs == 0 then s.held - 1 else s.held }

-- `LoadSheddingMiddleware` at the moment that a request arrives: what it answers, and whether it
-- took a slot. The logger is left out.
unfoldable pub load_shedding_middleware :
    Renderer → Str → Handler → Request → Writer → Shedder → Writer × Shedder
load_shedding_middleware rd mode next r w s =
    if has_prefix r.path (codes "/debug/pprof/") then (next r w, s) else elim (acquire s) [
      | some s' ↦ (next r w, s')
      | none ↦
          let msg = codes "Server is currently overloaded. Please try again later." in
          let w' =
            set_header (codes "X-Ratelimit-Error") (codes "Server Overload")
              (set_header (codes "Retry-After") (codes "5") w) in
          (
            if str_eq mode (codes "json")
                then render_error_json rd r 503 msg w'
                else render_error rd r 503 msg w',
            s,
          )
    ]

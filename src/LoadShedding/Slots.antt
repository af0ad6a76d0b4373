-- ===== src/LoadShedding/Slots.antt =====
-- loadshedding.go: the steps of the requests that take and give back slots.
use goserver.Common.{
  arith, List, [], get_or, if◌then◌else◌, none, set, some, suc, zero, ℕ, ◌++◌, ◌+◌, ◌-◌, ◌<◌, ◌==◌,
  ◌↔◌, ◌∷◌, ◌≡◌, ◌≤◌,
}
use goserver.LoadShedding.{Shedder, acquire, done, retain}

-- the leases that have references
abbrev pub live : List ℕ → ℕ
live [] = 0
live (refs ∷ leases) = if refs == 0 then live leases else suc (live leases)

live-append : (xs ys : List ℕ) → live (xs ++ ys) ≡ live xs + live ys
live-append [] ys = omega arith
live-append (x ∷ xs) ys = ground (arith, live-append xs ys)

live-set :
    (xs : List ℕ) (i v : ℕ)
    → 0 < get_or xs i 0
    → live (set xs i v) + 1 ≡ live xs + (if v == 0 then 0 else 1)
live-set [] i v h = absurd (omega arith)
live-set (x ∷ xs) zero v h = ground arith
live-set (x ∷ xs) (suc i) v h = ground (arith, live-set xs i v h)

-- The slots that are held are the live leases, and never more than the capacity.
pub record IsValid (s : Shedder) : Type 0 where
  pub counted : s.held ≡ live s.leases
  pub bounded : s.held ≤ s.capacity

-- One step of the requests that run: only who holds a reference retains or drops one.
pub data Step : Shedder → Shedder → Type 0 where
  enter : {s t : Shedder} → acquire s ≡ some t → Step s t
  keep : {s : Shedder} (i : ℕ) → 0 < get_or s.leases i 0 → Step s (retain i s)
  drop : {s : Shedder} (i : ℕ) → 0 < get_or s.leases i 0 → Step s (done i s)

pub data Reach (s : Shedder) : Shedder → Type 0 where
  here : Reach s s
  next : {t u : Shedder} → Reach s t → Step t u → Reach s u

Step-IsValid : {s t : Shedder} → Step s t → IsValid s → IsValid t
unfolding acquire retain done
Step-IsValid (enter {s} e) v = ground (arith, live-append s.leases (1 ∷ []))
Step-IsValid (keep {s} i h) v = ground (arith, live-set s.leases i (get_or s.leases i 0 + 1) h)
Step-IsValid (drop {s} i h) v = ground (arith, live-set s.leases i (get_or s.leases i 0 - 1) h)

-- From a state where the slots held are the leases with references and at most the capacity,
-- every sequence of arrivals, retains and drops by holders leads to such a state.
pub Reach-IsValid : {s t : Shedder} → IsValid s → Reach s t → IsValid t
Reach-IsValid v here = v
Reach-IsValid v (next r st) = Step-IsValid st (Reach-IsValid v r)

-- A request is shed exactly when all slots are held.
pub acquire-none_iff : (s : Shedder) → (acquire s ≡ none) ↔ (s.capacity ≤ s.held)
unfolding acquire
acquire-none_iff s = ground arith

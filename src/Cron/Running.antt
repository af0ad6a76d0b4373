-- ===== src/Cron/Running.antt =====
-- cron.go: the steps of a cron manager, the states they reach, and the time of a daily job.
use goserver.Common.{
  arith, [], false, if◌then◌else◌, length, suc, true, zero, ℕ, ◌%◌, ◌*◌, ◌+◌, ◌<◌, ◌≡◌, ◌≤◌, List,
  drop, inl, inr, null, refl, ◌∷◌, ◌⊎◌,
}
use goserver.Cron.{
  CronManager, Task, add_job, cancel, day, finish_one, minute, new_cron_manager, next_run, start,
  stopped,
}

-- Until the context is cancelled, the goroutines are those of the jobs, each once and in order,
-- or none before the start.
abbrev pub IsValid : CronManager → Type 0
IsValid c = (c.cancelled ≡ true) ⊎ (c.running ≡ (if c.started then c.tasks else []))

pub data Step : CronManager → CronManager → Type 0 where
  adding : {c : CronManager} (t : Task) → Step c (add_job t c)
  starting : {c : CronManager} → Step c (start c)
  cancelling : {c : CronManager} → Step c (cancel c)
  finishing : {c : CronManager} → Step c (finish_one c)

pub data Reach (c : CronManager) : CronManager → Type 0 where
  here : Reach c c
  next : {d e : CronManager} → Reach c d → Step d e → Reach c e

Step-IsValid : {c d : CronManager} → Step c d → IsValid c → IsValid d
unfolding add_job start cancel finish_one
Step-IsValid (adding {c} t) v = ground arith
Step-IsValid (starting {c}) v = ground arith
Step-IsValid (cancelling {c}) v = ground arith
Step-IsValid (finishing {c}) v = ground arith

Reach-IsValid : {c d : CronManager} → IsValid c → Reach c d → IsValid d
Reach-IsValid v here = v
Reach-IsValid v (next r st) = Step-IsValid st (Reach-IsValid v r)

new-IsValid : IsValid new_cron_manager
unfolding new_cron_manager
new-IsValid = inr refl

-- In every order of registrations, starts, stops and returns from the new manager on, as long
-- as the context is not cancelled the goroutines are those of the registered jobs, each once
-- and in order, when the manager is started, and none before.
pub Reach-running :
    {c : CronManager}
    → Reach new_cron_manager c
    → c.cancelled ≡ false
    → c.running ≡ (if c.started then c.tasks else [])
Reach-running {c} r n = elim (Reach-IsValid new-IsValid r) [
  | inl y ↦ absurd (ground arith)
  | inr e ↦ e
]

null_of_length : (xs : List Task) → length xs ≡ 0 → null xs ≡ true
null_of_length [] h = refl
null_of_length (x ∷ xs) h = absurd (omega arith)

-- `n` goroutines return.
abbrev pub finish_all : ℕ → CronManager → CronManager
finish_all zero c = c
finish_all (suc n) c = finish_all n (finish_one c)

length_of_drop : (xs : List Task) (n : ℕ) → length xs ≡ suc n → length (drop 1 xs) ≡ n
length_of_drop [] n h = absurd (omega arith)
length_of_drop (x ∷ xs) n h = omega arith

finish_all-stopped :
    (n : ℕ) (c : CronManager)
    → c.cancelled ≡ true
    → length c.running ≡ n
    → stopped (finish_all n c) ≡ true
unfolding finish_one
finish_all-stopped zero c y h = ground (arith, null_of_length c.running h)
finish_all-stopped (suc n) c y h =
    finish_all-stopped n (finish_one c) (ground arith)
      (ground (arith, length_of_drop c.running n h))

-- After the context is cancelled the wait ends: as many returns as there are goroutines suffice.
pub cancel_stops : (c : CronManager) → stopped (finish_all (length c.running) (cancel c)) ≡ true
unfolding cancel
cancel_stops c = finish_all-stopped (length c.running) (record c { cancelled = true }) refl refl

-- A daily job at a valid time of day runs next at that minute, not before now, and less than a
-- day after now.
next_run_bounds :
    (hour min now : ℕ)
    → hour < 24
    → min < 60
    → (now ≤ next_run hour min now)
      × (next_run hour min now < now + day)
      × (next_run hour min now % day ≡ (hour * 60 + min) * minute)
unfolding next_run
next_run_bounds hour min now h m = ground arith

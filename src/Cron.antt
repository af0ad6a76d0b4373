-- ===== src/Cron.antt =====
-- cron.go: jobs, the goroutines that run them, and the time of a daily job. A job's goroutine is
-- listed from its `go` statement until it ends.
pub mod Running
use goserver.Common.{
  none, Bool, List, Option, [], drop, false, if◌then◌else◌, ltb, null, some, true, ℕ, ◌&&◌, ◌*◌,
  ◌++◌, ◌+◌, ◌/◌, ◌∷◌,
}
use goserver.Text.{Str}

-- `runAt` is the hour and the minute of a daily job
pub record Task : Type 0 where
  pub name : Str
  pub interval : ℕ
  pub run_at : Option (ℕ × ℕ)

pub record CronManager : Type 0 where
  pub tasks : List Task
  pub running : List Task
  pub started : Bool
  pub cancelled : Bool

unfoldable pub new_cron_manager : CronManager
new_cron_manager = record { tasks = []; running = []; started = false; cancelled = false }

-- what `AddIntervalJob` and `AddDailyJob` do with the new job
unfoldable pub add_job : Task → CronManager → CronManager
add_job t c =
    let c' = record c { tasks = c.tasks ++ t ∷ [] } in
    if c.started then record c' { running = c.running ++ t ∷ [] } else c'

unfoldable pub add_interval_job : Str → ℕ → CronManager → CronManager
add_interval_job name interval c =
    add_job (record { name = name; interval = interval; run_at = none }) c

-- `parsed` is what `time.Parse("15:04", timeStr)` gave; the second part says that it succeeded
unfoldable pub add_daily_job : Str → Option (ℕ × ℕ) → CronManager → CronManager × Bool
add_daily_job name none c = (c, false)
add_daily_job name (some at) c =
    (add_job (record { name = name; interval = 0; run_at = some at }) c, true)

unfoldable pub start : CronManager → CronManager
start c = if c.started then c else record c { running = c.running ++ c.tasks; started = true }

-- the first half of `Stop`: the context is cancelled
unfoldable pub cancel : CronManager → CronManager
cancel c = record c { cancelled = true }

-- a goroutine that sees the cancelled context returns; the first one listed, say
unfoldable pub finish_one : CronManager → CronManager
finish_one c = if c.cancelled then record c { running = drop 1 c.running } else c

-- `wg.Wait()` returns when no goroutine is left
abbrev pub stopped : CronManager → Bool
stopped c = c.cancelled && null c.running

abbrev pub day : ℕ
day = 24 * 3600 * 1000000000

abbrev pub minute : ℕ
minute = 60 * 1000000000

-- `nextRun` of `runDaily` in a zone without clock changes, whose days begin at multiples of `day`
unfoldable pub next_run : ℕ → ℕ → ℕ → ℕ
next_run hour min now =
    let today = (now / day) * day + (hour * 60 + min) * minute in
    if ltb today now then today + day else today

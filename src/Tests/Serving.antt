-- ===== src/Tests/Serving.antt =====
-- Examples of the gate, maintenance, connections, load shedding, jobs and proxies.
use goserver.Common.{
  arith, [], false, if◌then◌else◌, length, none, refl, some, true, ◌↔◌, ◌∷◌, ◌≡◌, ◌≢◌,
}
use goserver.Proxies.Rotation.{get_random_proxy_complete}
use goserver.Tests.{program, request, hello, plain_renderer}
use goserver.Text.{codes, itoa}
use goserver.Http.{Handler, write}
use goserver.Server.{Gate, Limits, MaintenanceMode, ServerState, refusal, is_request_method}
use goserver.Server.Laws.{IsWithin, BodyFits, refusal-none_iff}
use goserver.Server.Connections.{conn_state_callback, run_states, pos, state_closed, state_new}
use goserver.Server.Connections.Counting.{limit_overrun}
use goserver.LoadShedding.{Shedder}
use goserver.LoadShedding.Slots.{
  IsValid as SlotsValid, Reach-IsValid, next as slots_next, here as slots_here, enter,
}
use goserver.Cron.Running.{next as jobs_next, here as jobs_here, adding, starting, Reach-running}
use goserver.Cron.{CronManager, Task, add_job, new_cron_manager, start}
use goserver.Proxies.{ProxyManager, get_random_proxy}

abbrev small_limits : Limits
small_limits = record {
  max_url_length = record { negative = false; magnitude = 20 };
  max_headers = record { negative = false; magnitude = 5 };
  max_body_size = record { negative = false; magnitude = 100 };
}

refusal-none_iff_example :
    (refusal small_limits (λ r. r.path) itoa (request (codes "GET") (codes "/about")) ≡ none) ↔ (
      IsWithin (length (codes "/about")) small_limits.max_url_length
      × IsWithin (length (request (codes "GET") (codes "/about")).headers) small_limits.max_headers
      × (is_request_method (codes "GET") ≡ true)
      × BodyFits small_limits (some 0))
refusal-none_iff_example =
    refusal-none_iff small_limits (λ r. r.path) itoa (request (codes "GET") (codes "/about"))

abbrev gate : Gate
gate = record {
  limits = small_limits;
  url = λ r. r.path;
  renderer = plain_renderer;
  mode = codes "html";
  page = codes "closed";
  before = [];
  after = [];
  compiled = hello;
}

abbrev open_mode : MaintenanceMode
open_mode = record {
  fallback = false;
  file = codes ".maintenance";
  interval = 50;
  bypass_token = codes "secret";
  last_check = 0;
  enabled_value = false;
}

abbrev idle : ServerState
idle = record {
  maintenance = open_mode;
  stopping = false;
  work = 2;
  total_requests = 7;
  errors4xx = 1;
  errors5xx = 0;
}

abbrev other_handler : Handler
other_handler r w = write (codes "other") w

limit_overrun_example :
    ((conn_state_callback 2 state_new (pos 2)).1 ≡ true)
    × ((conn_state_callback 2 state_new (run_states 2 (state_new ∷ state_closed ∷ []) (pos 2))).1
        ≡ false)
limit_overrun_example = limit_overrun 2 (omega arith)

abbrev two_slots : Shedder
two_slots = record { capacity = 2; held = 0; leases = [] }

two_slots-IsValid : SlotsValid two_slots
two_slots-IsValid = record { counted = refl; bounded = omega arith }

abbrev one_held : Shedder
one_held = record { capacity = 2; held = 1; leases = 1 ∷ [] }

Reach-IsValid_example : SlotsValid one_held
unfolding program
Reach-IsValid_example = Reach-IsValid two_slots-IsValid (slots_next slots_here (enter refl))

abbrev task : Task
task = record { name = codes "sweep"; interval = 60; run_at = none }

abbrev started_late : CronManager
unfolding program
started_late = add_job task (start (add_job task new_cron_manager))

Reach-running_example :
    started_late.running ≡ (if started_late.started then started_late.tasks else [])
unfolding program
Reach-running_example =
    Reach-running (jobs_next (jobs_next (jobs_next jobs_here (adding task)) starting) (adding task))
      refl

-- Of two proxies the first is banned at 100.
abbrev pool : ProxyManager
pool = record {
  bad_proxies = (codes "p1", 100) ∷ [];
  proxies = codes "p1" ∷ codes "p2" ∷ [];
  bad_duration = 60;
}

get_random_proxy_complete_example : get_random_proxy 0 120 pool ≢ none
unfolding program
get_random_proxy_complete_example =
    get_random_proxy_complete 0 120 1 pool (codes "p2") (omega arith) refl refl

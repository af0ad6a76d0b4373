-- ===== src/Timeout.antt =====
-- timeout.go: `timeoutWriter` and the race of a handler with its deadline. The header of a writer
-- is a list of values by key; of the underlying writer, what it was called with is kept in order.
-- `tw.mu` makes each call of the writer one step.
pub mod Race
use goserver.Common.{
  arith, Bool, List, Option, [], ◌∷◌, ◌++◌, ◌&&◌, ◌||◌, ◌==◌, ◌+◌, ◌-◌, ℕ, if◌then◌else◌, leb, ltb,
  none, not, some, true, false,
}
use goserver.Text.{Str, codes, str_eq, has_prefix}

abbrev pub Headers : Type 0
Headers = List (Str × List Str)

-- the calls of the underlying writer, each with the header at that time
pub data Call : Type 0 where
  status_call : ℕ → Headers → Call
  write_call : Str → Headers → Call
  flush_call : Headers → Call

-- `calls` and `dst` stand for `tw.w`
pub record TimeoutWriter : Type 0 where
  pub calls : List Call
  pub dst : Headers
  pub header : Headers
  pub timed_out : Bool
  pub wrote_header : Bool
  pub code : ℕ

-- `newTimeoutWriter`
unfoldable pub new_timeout_writer : Headers → TimeoutWriter
new_timeout_writer dst = record {
  calls = [];
  dst = dst;
  header = dst;
  timed_out = false;
  wrote_header = false;
  code = 0;
}

-- the handler changes the header that `Header()` gives it
unfoldable pub edit_header : (Headers → Headers) → TimeoutWriter → TimeoutWriter
edit_header f tw = record tw { header = f tw.header }

-- `syncHeader`
unfoldable pub sync_header : TimeoutWriter → TimeoutWriter
sync_header tw = record tw { dst = tw.header }

unfoldable pub call : Call → TimeoutWriter → TimeoutWriter
call c tw = record tw { calls = tw.calls ++ c ∷ [] }

-- whether the write was taken, for `http.ErrHandlerTimeout` where it was not
unfoldable pub write : Str → TimeoutWriter → Bool × TimeoutWriter
write p tw =
    if tw.timed_out
    then (false, tw)
    else (let tw1 = sync_header tw in
        (true, call (write_call p tw1.dst) (record tw1 { wrote_header = true })))

unfoldable pub write_header : ℕ → TimeoutWriter → TimeoutWriter
write_header status tw =
    if leb 100 status && ltb status 200
    then if tw.timed_out
      then tw
      else (let tw1 = sync_header tw in call (status_call status tw1.dst) tw1)
    else if tw.timed_out || tw.wrote_header
    then tw
    else (let tw1 = sync_header (record tw { wrote_header = true; code = status }) in
        call (status_call status tw1.dst) tw1)

unfoldable pub flush : TimeoutWriter → TimeoutWriter
flush tw =
    if tw.timed_out
    then tw
    else (let tw1 = sync_header tw in
        call (flush_call tw1.dst) (record tw1 { wrote_header = true }))

-- A handler that acts on the underlying writer, which `Unwrap` hands out: any change of its header
-- and of what it was called with. No deadline stands in its way.
unfoldable pub unwrap : (Headers → List Call → Headers × List Call) → TimeoutWriter → TimeoutWriter
unwrap act tw = let r = act tw.dst tw.calls in record tw { dst = r.0; calls = r.1 }

-- what `select` of `TimeoutMiddleware` waits for
pub data Outcome : Type 0 where
  panicked : Outcome
  finished : Outcome
  -- with whether the client went away
  expired : Bool → Outcome

unfoldable pub timeout_code : Bool → ℕ
timeout_code canceled = if canceled then 499 else 504

-- the deadline's case: `page` is what the renderers write to `w` for a code
unfoldable pub expire : (ℕ → Headers → List Call) → Bool → TimeoutWriter → TimeoutWriter
expire page canceled tw =
    let late = record tw { timed_out = true } in
    if not tw.wrote_header
    then record late { calls = late.calls ++ page (timeout_code canceled) late.dst }
    else late

-- the cases of `select`: whether the middleware panics, and the writer
unfoldable pub select : (ℕ → Headers → List Call) → Outcome → TimeoutWriter → Bool × TimeoutWriter
select page panicked tw = (not tw.timed_out, tw)
select page finished tw = (false, tw)
select page (expired canceled) tw = (false, expire page canceled tw)

-- What a request meets first: no deadline, a server that shuts down, or the race.
pub data Entry : Type 0 where
  no_deadline : Entry
  shutting_down : Entry
  racing : TimeoutWriter → Entry

unfoldable pub enter : Str → Bool → Headers → Entry
enter path begun dst =
    if has_prefix path (codes "/debug/pprof/")
    then no_deadline
    else if begun
    then racing (new_timeout_writer dst)
    else shutting_down

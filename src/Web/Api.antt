-- ===== src/Web/Api.antt =====
-- web_framework.go: `httpResponseCache` and the server routes that answer from it. The handler of a
-- route is a parameter: what it wrote is given. Time is in nanoseconds; an entry stored later than
-- now has the age 0. Go's order of a map is that of the list.
pub mod Steps
use goserver.Common.{
  arith, Bool, List, Option, [], ◌∷◌, ◌++◌, ◌&&◌, ◌||◌, ◌==◌, ◌+◌, ◌-◌, ◌*◌, ℕ, if◌then◌else◌, leb,
  length, ltb, none, not, null, some, true, false,
}
use goserver.Text.{Str, codes, str_eq, member, without}
use goserver.Maps.{lookup, insert, delete}
use goserver.Web.Rules.{RouteRule, route_ttl, response_cacheable}

pub record CachedResponse : Type 0 where
  pub status : ℕ
  pub headers : List (Str × List Str)
  pub body : Str
  pub stored : ℕ

pub record ResponseCache : Type 0 where
  pub items : List (Str × CachedResponse)
  pub revalidating : List Str
  pub max_entries : ℕ

-- `newHTTPResponseCache`; 0 stands for a size that is not positive
unfoldable pub new_response_cache : ℕ → ResponseCache
new_response_cache max = record {
  items = [];
  revalidating = [];
  max_entries = if max == 0 then 512 else max;
}

unfoldable pub find : Str → ResponseCache → Option CachedResponse
find key c = lookup key c.items

-- the loop that deletes one entry
unfoldable pub drop_one : List (Str × CachedResponse) → List (Str × CachedResponse)
drop_one [] = []
drop_one ((old, e) ∷ items) = items

unfoldable pub store : Str → CachedResponse → ResponseCache → ResponseCache
store key e c = record c {
  items = insert key e (if leb c.max_entries (length c.items) then drop_one c.items else c.items);
}

unfoldable pub begin : Str → ResponseCache → Bool × ResponseCache
begin key c =
    if member key c.revalidating
    then (false, c)
    else (true, record c { revalidating = key ∷ c.revalidating })

unfoldable pub finish : Str → ResponseCache → ResponseCache
finish key c = record c { revalidating = without key c.revalidating }

-- `captureWriter`: only the first status that is not 200 counts
pub record CaptureWriter : Type 0 where
  pub header : List (Str × List Str)
  pub body : Str
  pub status : ℕ

unfoldable pub capture_status : ℕ → CaptureWriter → CaptureWriter
capture_status code w = if w.status == 200 then record w { status = code } else w

unfoldable pub capture_write : Str → CaptureWriter → CaptureWriter
capture_write p w = record w { body = w.body ++ p }

-- `executeCachedRoute`, for what the handler wrote
unfoldable pub execute_cached_route : CaptureWriter → ℕ → CachedResponse
execute_cached_route w now = record {
  status = w.status;
  headers = w.header;
  body = w.body;
  stored = now;
}

-- what `serveServerRoute` does with a request before a handler runs
pub data Served : Type 0 where
  -- the handler writes the answer itself
  direct : Served
  hit : CachedResponse → Served
  -- with whether a task was started that renews the entry
  stale : CachedResponse → Bool → Served
  missed : Served

abbrev pub second : ℕ
second = 1000000000

unfoldable pub serve_server_route :
    RouteRule → Bool → Bool → Str → ℕ → ResponseCache → Served × ResponseCache
serve_server_route rule has_rule cacheable key now c =
    let (ttl, swr) = route_ttl rule in
    if not has_rule || ttl == 0 || not cacheable then (direct, c) else elim (find key c) [
      | none ↦ (missed, c)
      | some e ↦
          let age = now - e.stored in
          if ltb age (ttl * second)
          then (hit e, c)
          else if ltb 0 swr && ltb age ((ttl + swr) * second)
          then (let r = begin key c in (stale e r.0, r.1))
          else (missed, c)
    ]

unfoldable pub keep_cacheable : Str → CachedResponse → ResponseCache → ResponseCache
keep_cacheable key fresh c =
    if response_cacheable fresh.headers fresh.status then store key fresh c else c

-- the task that renews an entry
unfoldable pub renew : Str → CachedResponse → ResponseCache → ResponseCache
renew key fresh c = finish key (keep_cacheable key fresh c)

-- the function that `flights.Do` runs once for the callers of a key
unfoldable pub fetch : Str → ℕ → ℕ → CachedResponse → ResponseCache → CachedResponse × ResponseCache
fetch key ttl now fresh c =
    let missing : CachedResponse × ResponseCache = (fresh, keep_cacheable key fresh c) in
    elim (find key c) [
      | none ↦ missing
      | some e ↦ if ltb (now - e.stored) (ttl * second) then (e, c) else missing
    ]

-- `writeCachedHTTP`: the headers of a writer, its status and its body
unfoldable pub copy_headers : List (Str × List Str) → List (Str × List Str) → List (Str × List Str)
copy_headers [] w = w
copy_headers ((k, v) ∷ headers) w = copy_headers headers (insert k v w)

unfoldable pub write_cached : CachedResponse → Str → List (Str × List Str) → CachedResponse
write_cached e state w = record e {
  headers = insert (codes "X-MyelophOne-Cache") (state ∷ []) (copy_headers e.headers w);
}

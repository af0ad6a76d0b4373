-- ===== src/Web/Api/Steps.antt =====
-- web_framework.go: the cache of server routes over any order of requests, fetches and renewals.
use goserver.Common.{
  arith, List, [], ◌∷◌, ◌≡◌, ◌≤◌, ◌<◌, ◌+◌, ◌-◌, ◌*◌, ℕ, Bool, true, some, length, if_intro, inl,
  inr, leb, ltb, suc, refl, All, Option-cases, if◌then◌else◌, not, ◌&&◌, ◌==◌, ◌||◌,
}
use goserver.Text.{Str, str_eq, member}
use goserver.Maps.{lookup, insert}
use goserver.Web.Rules.{RouteRule, route_ttl, response_cacheable}
use goserver.Web.Api.{
  ResponseCache, CachedResponse, Served, new_response_cache, find, store, drop_one, begin, finish,
  serve_server_route, keep_cacheable, renew, fetch, second, direct, hit, missed, stale,
}

-- One step of the program that touches the cache.
pub data Step : ResponseCache → ResponseCache → Type 0 where
  request :
      (rule : RouteRule) (has_rule cacheable : Bool) (key : Str) (now : ℕ) (c : ResponseCache)
      → Step c (serve_server_route rule has_rule cacheable key now c).1
  fetched :
      (key : Str) (ttl now : ℕ) (fresh : CachedResponse) (c : ResponseCache)
      → Step c (fetch key ttl now fresh c).1
  renewed : (key : Str) (fresh : CachedResponse) (c : ResponseCache) → Step c (renew key fresh c)

-- The caches that steps lead to from a new one.
pub data Reachable (max : ℕ) : ResponseCache → Type 0 where
  start : Reachable max (new_response_cache max)
  next : {c c' : ResponseCache} → Reachable max c → Step c c' → Reachable max c'

-- A response that may be cached, under any key.
abbrev pub Keepable : Str × CachedResponse → Type 0
Keepable entry = response_cacheable (entry.1.headers) (entry.1.status) ≡ true

-- Every response in the cache may be cached, and the cache keeps its limit.
pub record IsSafe (c : ResponseCache) : Type 0 where
  pub cacheable : All Keepable c.items
  pub bounded : length c.items ≤ c.max_entries
  pub roomy : 1 ≤ c.max_entries

length-insert :
    (key : Str) (e : CachedResponse) (items : List (Str × CachedResponse))
    → length (insert key e items) ≤ suc (length items)
unfolding insert
length-insert key e [] = omega arith
length-insert key e ((k, x) ∷ items) = ground (arith, length-insert key e items)

All-insert :
    (key : Str) (e : CachedResponse) (items : List (Str × CachedResponse))
    → Keepable (key, e)
    → All Keepable items
    → All Keepable (insert key e items)
unfolding insert
All-insert key e [] h k = (h, tt)
All-insert key e ((j, x) ∷ items) h (k, ks) =
    if_intro (All Keepable) (str_eq j key) ((key, e) ∷ items) ((j, x) ∷ insert key e items)
      (λ _. (h, ks)) (λ _. (k, All-insert key e items h ks))

All-lookup :
    (key : Str) (e : CachedResponse) (items : List (Str × CachedResponse))
    → All Keepable items
    → lookup key items ≡ some e
    → Keepable (key, e)
unfolding lookup
All-lookup key e [] h found = cc
All-lookup key e ((j, x) ∷ items) (k, ks) found =
    ground (arith, k, found, All-lookup key e items ks)

drop_one-All :
    (items : List (Str × CachedResponse)) → All Keepable items → All Keepable (drop_one items)
unfolding drop_one
drop_one-All [] h = h
drop_one-All ((j, x) ∷ items) (k, ks) = ks

length-drop_one : (items : List (Str × CachedResponse)) → length (drop_one items) ≡ length items - 1
unfolding drop_one
length-drop_one [] = refl
length-drop_one ((j, x) ∷ items) = omega arith

store-IsSafe :
    (key : Str) (e : CachedResponse) (c : ResponseCache)
    → Keepable (key, e)
    → IsSafe c
    → IsSafe (store key e c)
unfolding store
store-IsSafe key e c h v =
    let full = leb c.max_entries (length c.items) in
    let left = if full then drop_one c.items else c.items in
    record {
      cacheable = All-insert key e left h (
          if_intro (All Keepable) full _ _ (λ _. drop_one-All c.items v.cacheable)
            (λ _. v.cacheable));
      bounded =
          ground (arith, length-insert key e left, length-drop_one c.items, v.bounded, v.roomy);
      roomy = v.roomy;
    }

keep_cacheable-IsSafe :
    (key : Str) (fresh : CachedResponse) (c : ResponseCache)
    → IsSafe c
    → IsSafe (keep_cacheable key fresh c)
unfolding keep_cacheable
keep_cacheable-IsSafe key fresh c v =
    if_intro IsSafe (response_cacheable fresh.headers fresh.status) _ _
      (λ good. store-IsSafe key fresh c good v) (λ _. v)

-- The keys that are being renewed play no part.
same_items :
    (c c' : ResponseCache)
    → c'.items ≡ c.items
    → c'.max_entries ≡ c.max_entries
    → IsSafe c
    → IsSafe c'
same_items c c' e m v = record {
  cacheable = rw e v.cacheable;
  bounded = rw (e, m) v.bounded;
  roomy = rw m v.roomy;
}

-- What an answer says of the cache: an entry that is served has the age for it.
abbrev pub Timely : RouteRule → Str → ℕ → ResponseCache → Served → Type 0
Timely rule key now c direct = Unit {0}
Timely rule key now c missed = Unit {0}
Timely rule key now c (hit e) =
    (find key c ≡ some e) × (now - e.stored < (route_ttl rule).0 * second)
Timely rule key now c (stale e started) =
    (find key c ≡ some e)
    × ((route_ttl rule).0 * second ≤ now - e.stored)
    × (now - e.stored < ((route_ttl rule).0 + (route_ttl rule).1) * second)

record IsAnswer (rule : RouteRule) (key : Str) (now : ℕ) (c : ResponseCache)
    (r : Served × ResponseCache) : Type 0 where
  timely : Timely rule key now c r.0
  items : r.1.items ≡ c.items
  limit : r.1.max_entries ≡ c.max_entries

begin_same :
    (key : Str) (c : ResponseCache)
    → ((begin key c).1.items ≡ c.items) × ((begin key c).1.max_entries ≡ c.max_entries)
unfolding begin
begin_same key c =
    if_intro
      (λ (r : Bool × ResponseCache). (r.1.items ≡ c.items) × (r.1.max_entries ≡ c.max_entries))
      (member key c.revalidating) _ _ (λ _. (refl, refl)) (λ _. (refl, refl))

found-IsAnswer :
    (rule : RouteRule) (key : Str) (now : ℕ) (c : ResponseCache) (e : CachedResponse)
    → find key c ≡ some e
    → IsAnswer rule key now c (
        if ltb (now - e.stored) ((route_ttl rule).0 * second)
        then (Served.hit e, c)
        else if ltb 0 (route_ttl rule).1
            && ltb (now - e.stored) (((route_ttl rule).0 + (route_ttl rule).1) * second)
        then (Served.stale e (begin key c).0, (begin key c).1)
        else (Served.missed, c))
found-IsAnswer rule key now c e found =
    if_intro (IsAnswer rule key now c) (ltb (now - e.stored) ((route_ttl rule).0 * second)) _ _
      (λ young. record { timely = (found, ground (arith, young)); items = refl; limit = refl })
      (λ old.
        if_intro (IsAnswer rule key now c)
          (ltb 0 (route_ttl rule).1
            && ltb (now - e.stored) (((route_ttl rule).0 + (route_ttl rule).1) * second))
          (Served.stale e (begin key c).0, (begin key c).1) (Served.missed, c)
          (λ middle. record {
            timely = (found, ground (arith, old), ground (arith, middle));
            items = (begin_same key c).0;
            limit = (begin_same key c).1;
          })
          (λ _. record { timely = tt; items = refl; limit = refl }))

serve-IsAnswer :
    (rule : RouteRule) (has_rule cacheable : Bool) (key : Str) (now : ℕ) (c : ResponseCache)
    → IsAnswer rule key now c (serve_server_route rule has_rule cacheable key now c)
unfolding serve_server_route
serve-IsAnswer rule has_rule cacheable key now c =
    if_intro (IsAnswer rule key now c) (not has_rule || (route_ttl rule).0 == 0 || not cacheable) _
      _ (λ _. record { timely = tt; items = refl; limit = refl })
      (λ _. elim (Option-cases (find key c)) [
        | inl none_found ↦ rw none_found (record { timely = tt; items = refl; limit = refl })
        | inr (e, found) ↦ rw found (found-IsAnswer rule key now c e found)
      ])

fetch-IsSafe :
    (key : Str) (ttl now : ℕ) (fresh : CachedResponse) (c : ResponseCache)
    → IsSafe c
    → IsSafe (fetch key ttl now fresh c).1
unfolding fetch
fetch-IsSafe key ttl now fresh c v =
    let kept = keep_cacheable-IsSafe key fresh c v in
    elim (Option-cases (find key c)) [
      | inl missing ↦ rw (fetch, missing) kept
      | inr (e, found) ↦
          rw (fetch, found)
            (if_intro (λ (x : CachedResponse × ResponseCache). IsSafe x.1)
              (ltb (now - e.stored) (ttl * second)) (e, c) (fresh, keep_cacheable key fresh c)
              (λ _. v) (λ _. kept))
    ]

step-IsSafe : {c c' : ResponseCache} → Step c c' → IsSafe c → IsSafe c'
unfolding renew finish
step-IsSafe (request rule has_rule cacheable key now c) v =
    let a = serve-IsAnswer rule has_rule cacheable key now c in same_items c _ a.items a.limit v
step-IsSafe (fetched key ttl now fresh c) v = fetch-IsSafe key ttl now fresh c v
step-IsSafe (renewed key fresh c) v =
    same_items (keep_cacheable key fresh c) _ refl refl (keep_cacheable-IsSafe key fresh c v)

-- Every cache that steps lead to from a new one is safe.
reachable-IsSafe : (max : ℕ) (c : ResponseCache) → Reachable max c → IsSafe c
unfolding new_response_cache
reachable-IsSafe max _ start = record {
  cacheable = tt;
  bounded = omega arith;
  roomy = ground arith;
}
reachable-IsSafe max _ (next r s) = step-IsSafe s (reachable-IsSafe max _ r)

-- What the entry that an answer holds says of its response.
abbrev pub Public : Served → Type 0
Public direct = Unit {0}
Public missed = Unit {0}
Public (hit e) = response_cacheable e.headers e.status ≡ true
Public (stale e started) = response_cacheable e.headers e.status ≡ true

Public-of_Timely :
    (rule : RouteRule) (key : Str) (now : ℕ) (c : ResponseCache) (s : Served)
    → IsSafe c
    → Timely rule key now c s
    → Public s
unfolding find
Public-of_Timely rule key now c direct v t = tt
Public-of_Timely rule key now c missed v t = tt
Public-of_Timely rule key now c (hit e) v (found, age) = All-lookup key e c.items v.cacheable found
Public-of_Timely rule key now c (stale e started) v (found, old, age) =
    All-lookup key e c.items v.cacheable found

-- In every order of requests, fetches and renewals from a new cache on, a response that a
-- server route answers from the cache may be cached, and is the entry of the key: younger than
-- the time to live where it is a hit, and not younger, but within the time for stale responses
-- behind it, where it is stale.
pub serve_server_route_lem :
    (max : ℕ) (c : ResponseCache) (rule : RouteRule) (has_rule cacheable : Bool) (key : Str)
    (now : ℕ)
    → Reachable max c
    → Timely rule key now c (serve_server_route rule has_rule cacheable key now c).0
      × Public (serve_server_route rule has_rule cacheable key now c).0
serve_server_route_lem max c rule has_rule cacheable key now r =
    let a = serve-IsAnswer rule has_rule cacheable key now c in
    (a.timely, Public-of_Timely rule key now c _ (reachable-IsSafe max c r) a.timely)

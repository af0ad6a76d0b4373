-- ===== src/Web/Rules.antt =====
-- web_framework.go: the rules of routes, and which requests and responses may be cached. A number
-- of seconds of 0 stands for one that is not positive. The names of a request's cookies are given.
pub mod Choice
use goserver.Common.{
  arith, Bool, List, Option, [], ◌∷◌, ◌++◌, ◌&&◌, ◌||◌, ◌==◌, ℕ, if◌then◌else◌, leb, length, ltb,
  none, not, null, some, true, false,
}
use goserver.Text.{
  Str, codes, str_eq, has_prefix, has_suffix, trim_suffix, trim, contains, split, join, is_slash,
  to_lower, itoa,
}
use goserver.Maps.{lookup}
use goserver.Http.{get}

-- The policy of a rule's cache is its `MaxAge`.
pub record RouteRule : Type 0 where
  pub swr : ℕ
  pub cache : Option ℕ
  pub ssr_stream : Option Bool
  pub public_static : Bool
  pub exclude : List Str

abbrev pub no_rule : RouteRule
no_rule = record { swr = 0; cache = none; ssr_stream = none; public_static = false; exclude = [] }

abbrev pub is_star : ℕ → Bool
is_star c = c == b'*'

-- the loop over two lists of segments
unfoldable pub segments_agree : List Str → List Str → Bool
segments_agree [] [] = true
segments_agree [] (s ∷ path) = false
segments_agree (p ∷ pattern) [] = false
segments_agree (p ∷ pattern) (s ∷ path) =
    let rest = segments_agree pattern path in
    if not (str_eq p (b'*' ∷ [])) && not (str_eq p s) then false else rest

unfoldable pub route_pattern_match : Str → Str → Bool
route_pattern_match pattern path =
    let star = b'*' ∷ [] in
    if has_prefix pattern star && has_suffix pattern star && ltb 2 (length pattern)
    then contains path (trim is_star pattern)
    else if str_eq pattern path
    then true
    else if has_suffix pattern (codes "/**")
    then has_prefix path (trim_suffix (trim_suffix pattern (codes "**")) (b'/' ∷ []))
    else if contains pattern star
    then segments_agree (split b'/' (trim is_slash pattern)) (split b'/' (trim is_slash path))
    else false

unfoldable pub excluded_by : List Str → Str → Bool
excluded_by [] path = false
excluded_by (pattern ∷ patterns) path =
    (not (null pattern) && route_pattern_match pattern path) || excluded_by patterns path

unfoldable pub route_rule_excluded : RouteRule → Str → Bool
route_rule_excluded rule path = excluded_by rule.exclude path

-- the loop of `routeRule` over the rules, with the best pattern so far and its rule
unfoldable pub best_rule : Str → List (Str × RouteRule) → Str → RouteRule → Str × RouteRule
best_rule path [] best rule = (best, rule)
best_rule path ((pattern, candidate) ∷ rules) best rule =
    let taken = best_rule path rules pattern candidate in
    let kept = best_rule path rules best rule in
    if route_pattern_match pattern path
      && not (route_rule_excluded candidate path)
      && ltb (length best) (length pattern)
    then taken
    else kept

unfoldable pub route_rule : List (Str × RouteRule) → Str → RouteRule × Bool
route_rule rules path = let found = best_rule path rules [] no_rule in (found.1, not (null found.0))

unfoldable pub ssr_stream_enabled : Bool → RouteRule → Bool → Bool
ssr_stream_enabled default rule has_rule =
    if has_rule then elim rule.ssr_stream [ none ↦ default | some on ↦ on ] else default

-- `routeTTL`: the seconds of the cache, and those in which a stale response serves
unfoldable pub route_ttl : RouteRule → ℕ × ℕ
route_ttl rule =
    let ttl : ℕ = elim rule.cache [ none ↦ 0 | some age ↦ age ] in
    (if ttl == 0 && ltb 0 rule.swr then rule.swr else ttl, rule.swr)

abbrev pub runtime_state_cookie : Str
runtime_state_cookie = codes "gosh_runtime"

unfoldable pub only_runtime_state : List Str → Bool
only_runtime_state [] = true
only_runtime_state (name ∷ cookies) =
    if not (str_eq name runtime_state_cookie) then false else only_runtime_state cookies

unfoldable pub cacheable_request : Str → List (Str × Str) → List Str → Bool
cacheable_request method headers cookies =
    if not (str_eq method (codes "GET")) || not (null (get (codes "Authorization") headers))
    then false
    else only_runtime_state cookies

unfoldable pub cacheable_page_request : Str → List (Str × Str) → List Str → Bool → Bool
cacheable_page_request method headers cookies public_static =
    if public_static
    then str_eq method (codes "GET") && null (get (codes "Authorization") headers)
    else cacheable_request method headers cookies

unfoldable pub public_cache_control : RouteRule → Str
public_cache_control rule =
    let (ttl, swr) = route_ttl rule in
    let parts =
      codes "public" ∷ (codes "max-age=" ++ itoa ttl) ∷ (codes "s-maxage=" ++ itoa ttl) ∷ [] in
    join (codes ", ")
      (if ltb 0 swr then parts ++ (codes "stale-while-revalidate=" ++ itoa swr) ∷ [] else parts)

-- `h.Get(key)` for the headers of a response
unfoldable pub first_value : Str → List (Str × List Str) → Str
first_value key headers = elim (lookup key headers) [
  | none ↦ []
  | some values ↦ elim values [ [] ↦ [] | v ∷ vs ↦ v ]
]

unfoldable pub response_cacheable : List (Str × List Str) → ℕ → Bool
response_cacheable headers status =
    let cc = to_lower (first_value (codes "Cache-Control") headers) in
    leb 200 status
    && ltb status 300
    && null (first_value (codes "Set-Cookie") headers)
    && not (contains cc (codes "no-store"))
    && not (contains cc (codes "private"))

-- ===== src/Router.antt =====
-- router.go: cleaning of paths, compiled patterns, the two kinds of route tables and dispatch.
pub mod Paths
pub mod Matching
pub mod Serving
pub mod Groups
use goserver.Common.{
  arith, Bool, Option, List, [], none, reverse, false, some, not, true, any, drop, if◌then◌else◌,
  length, ltb, null, tail, ◌&&◌, ◌++◌, ◌==◌, ◌||◌, ◌∷◌,
}
use goserver.Text.{
  Str, codes, str_eq, has_prefix, contains, trim, trim_left, trim_right, split, join, to_upper,
  is_slash,
}
use goserver.Maps.{lookup, insert, lookup_or}
use goserver.Http.{Context, Request, Writer, Handler, Middleware, set_header, write_header}

-- ".." in `path.Clean`: it takes back a part, and is kept in front of a path that has no root;
-- the stack has its top at the head.
unfoldable pub step_up : Bool → List Str → List Str
step_up has_root [] = if has_root then [] else codes ".." ∷ []
step_up has_root (top ∷ stack) =
    if not has_root && str_eq top (codes "..") then codes ".." ∷ top ∷ stack else stack

-- one part of `path.Clean`
unfoldable pub resolve : Bool → List Str → Str → List Str
resolve has_root stack part =
    if str_eq part [] || str_eq part (codes ".")
    then stack
    else if str_eq part (codes "..")
    then step_up has_root stack
    else part ∷ stack

unfoldable pub resolve_all : Bool → List Str → List Str → List Str
resolve_all has_root stack [] = reverse stack
resolve_all has_root stack (part ∷ parts) = resolve_all has_root (resolve has_root stack part) parts

-- `path.Clean`
unfoldable pub path_clean : Str → Str
path_clean [] = codes "."
path_clean (c ∷ p) =
    let has_root = c == b'/' in
    let cleaned = join (codes "/") (resolve_all has_root [] (split b'/' (c ∷ p))) in
    if has_root then b'/' ∷ cleaned else if str_eq cleaned [] then codes "." else cleaned

unfoldable pub rooted : Str → Str
rooted [] = codes "/"
rooted (c ∷ p) = if c == b'/' then c ∷ p else b'/' ∷ c ∷ p

unfoldable pub clean_path : Str → Str
clean_path [] = codes "/"
clean_path (c ∷ p) =
    let cp = path_clean (rooted (c ∷ p)) in
    let cut = trim_right is_slash cp in
    if str_eq cp (codes "/") then cp else if str_eq cut [] then codes "/" else cut

pub data Segment : Type 0 where
  seg_static : Str → Segment
  seg_param : Str → Segment
  seg_wildcard : Str → Segment

-- A bare ":" is a static part; a wildcard ends the pattern.
unfoldable pub compile_parts : List Str → List Segment
compile_parts [] = []
compile_parts (part ∷ parts) =
    let more = compile_parts parts in
    if has_prefix part (codes ":") && ltb 1 (length part)
    then seg_param (drop 1 part) ∷ more
    else if has_prefix part (codes "*")
    then seg_wildcard (drop 1 part) ∷ []
    else seg_static part ∷ more

unfoldable pub compile_pattern : Str → List Segment
compile_pattern p =
    if str_eq p (codes "/")
    then seg_static (codes "/") ∷ []
    else compile_parts (split b'/' (trim is_slash p))

unfoldable pub split_path : Str → List Str
split_path p = if str_eq p (codes "/") then codes "/" ∷ [] else split b'/' (trim is_slash p)

-- `len(segs) == 1 && segs[0].typ == segStatic && segs[0].lit == "/"`
unfoldable pub is_root : List Segment → Bool
is_root (seg_static lit ∷ []) = str_eq lit (codes "/")
is_root segs = false

-- the loop of `matchSegments`, with what is left of both slices
unfoldable pub match_parts : List Segment → List Str → List (Str × Str) → Option (List (Str × Str))
match_parts [] [] params = some params
match_parts [] (_ ∷ _) params = none
match_parts (_ ∷ _) [] params = none
match_parts (seg_static lit ∷ segs) (part ∷ parts) params =
    let rest = match_parts segs parts params in if str_eq part lit then rest else none
match_parts (seg_param name ∷ segs) (part ∷ parts) params =
    match_parts segs parts (insert name part params)
match_parts (seg_wildcard name ∷ segs) (part ∷ parts) params =
    some (if str_eq name [] then params else insert name (join (codes "/") (part ∷ parts)) params)

unfoldable pub match_segments : List Segment → Str → Option (List (Str × Str))
match_segments segs p =
    if is_root segs
    then (if str_eq p (codes "/") then some [] else none)
    else match_parts segs (split_path p) []

unfoldable pub fast_parts : List Segment → List Str → Bool
fast_parts [] [] = true
fast_parts [] (_ ∷ _) = false
fast_parts (_ ∷ _) [] = false
fast_parts (seg_static lit ∷ segs) (part ∷ parts) =
    let rest = fast_parts segs parts in if str_eq part lit then rest else false
fast_parts (seg_param name ∷ segs) (part ∷ parts) = fast_parts segs parts
fast_parts (seg_wildcard name ∷ segs) (part ∷ parts) = true

unfoldable pub fast_match_no_params : List Segment → Str → Bool
fast_match_no_params segs p =
    if is_root segs then str_eq p (codes "/") else fast_parts segs (split_path p)

unfoldable pub join_paths : Str → Str → Str
join_paths prefix p =
    if str_eq prefix [] || str_eq prefix (codes "/")
    then clean_path p
    else if str_eq p [] || str_eq p (codes "/")
    then clean_path prefix
    else clean_path (prefix ++ b'/' ∷ trim_left is_slash p)

-- `chain`: the first middleware of the list is the outermost.
unfoldable pub chain : Handler → List Middleware → Handler
chain h [] = h
chain h (mw ∷ mws) = mw (chain h mws)

pub record CompiledRoute : Type 0 where
  pub handler : Handler
  pub pattern : Str
  pub segments : List Segment

pub record Router : Type 0 where
  pub static : List (Str × List (Str × Handler))
  pub dyn : List (Str × List CompiledRoute)
  pub fallback_static : List (Str × List (Str × Handler))
  pub fallback_dyn : List (Str × List CompiledRoute)
  pub not_found : Handler

-- `NewRouter`, given the handler of `http.NotFoundHandler()`
unfoldable pub new_router : Handler → Router
new_router not_found = record {
  static = [];
  dyn = [];
  fallback_static = [];
  fallback_dyn = [];
  not_found = not_found;
}

-- `!strings.Contains(p, ":") && !strings.Contains(p, "*")`
unfoldable pub is_plain : Str → Bool
is_plain p = not (contains p (codes ":")) && not (contains p (codes "*"))

unfoldable pub add_static :
    Str → Str → Handler → List (Str × List (Str × Handler)) → List (Str × List (Str × Handler))
add_static m p h table = insert m (insert p h (lookup_or [] m table)) table

unfoldable pub add_dyn :
    Str → Str → Handler → List (Str × List CompiledRoute) → List (Str × List CompiledRoute)
add_dyn m p h table =
    let route : CompiledRoute = record { handler = h; pattern = p; segments = compile_pattern p } in
    insert m (lookup_or [] m table ++ route ∷ []) table

-- `cleanPath(pattern)`; the test against "" never holds
unfoldable pub handle : Str → Str → Handler → Router → Router
handle method pattern h r =
    let m = to_upper method in
    let p = clean_path pattern in
    if is_plain p
    then record r { static = add_static m p h r.static }
    else record r { dyn = add_dyn m p h r.dyn }

unfoldable pub handle_fallback : Str → Str → Handler → Router → Router
handle_fallback method pattern h r =
    let m = to_upper method in
    let p = clean_path pattern in
    if is_plain p
    then record r { fallback_static = add_static m p h r.fallback_static }
    else record r { fallback_dyn = add_dyn m p h r.fallback_dyn }

unfoldable pub set_not_found_handler : Handler → Option Handler → Router → Router
set_not_found_handler default none r = record r { not_found = default }
set_not_found_handler default (some h) r = record r { not_found = h }

-- `mm, ok := table[m]; h, ok2 := mm[p]`
unfoldable pub find_static : Str → Str → List (Str × List (Str × Handler)) → Option Handler
find_static m p table = elim (lookup m table) [ none ↦ none | some mm ↦ lookup p mm ]

-- The first route of the list that matches, with its parameters.
unfoldable pub first_match : Str → List CompiledRoute → Option (Handler × List (Str × Str))
first_match p [] = none
first_match p (cr ∷ routes) =
    let rest = first_match p routes in
    elim (match_segments cr.segments p) [ none ↦ rest | some params ↦ some (cr.handler, params) ]

unfoldable pub find_dyn :
    Str → Str → List (Str × List CompiledRoute) → Option (Handler × List (Str × Str))
find_dyn m p table = elim (lookup m table) [ none ↦ none | some routes ↦ first_match p routes ]

-- `req.WithContext(…)` where `len(params) > 0`
unfoldable pub with_params : List (Str × Str) → Request → Request
with_params params req =
    if null params
    then req
    else record req { context = record (req.context) { params = some params } }

unfoldable pub allowed_static : Str → List (Str × List (Str × Handler)) → List Str
allowed_static p [] = []
allowed_static p ((method, mm) ∷ table) =
    let rest = allowed_static p table in elim (lookup p mm) [ none ↦ rest | some _ ↦ method ∷ rest ]

unfoldable pub allowed_dyn : Str → List (Str × List CompiledRoute) → List Str
allowed_dyn p [] = []
allowed_dyn p ((method, list) ∷ table) =
    let rest = allowed_dyn p table in
    if any (λ cr. fast_match_no_params cr.segments p) list then method ∷ rest else rest

-- `serveOptionsIfKnown`, `none` where it returns false. Go visits a map in any order.
unfoldable pub serve_options_if_known : Router → Str → Writer → Option Writer
serve_options_if_known r p w =
    let allowed = allowed_static p r.static ++ allowed_dyn p r.dyn in
    if null allowed
    then none
    else some (write_header 204 (set_header (codes "Allow") (join (codes ", ") allowed) w))

unfoldable pub serve_unrouted : Router → Str → Handler
serve_unrouted r p req w =
    if str_eq req.method (codes "OPTIONS")
    then elim (serve_options_if_known r p w) [ none ↦ r.not_found req w | some w' ↦ w' ]
    else r.not_found req w

unfoldable pub serve_table :
    List (Str × List (Str × Handler)) → List (Str × List CompiledRoute) → Str → Handler → Handler
serve_table static dyn p next req w = elim (find_static req.method p static) [
  | some h ↦ h req w
  | none ↦ elim (find_dyn req.method p dyn) [
    | some (h, params) ↦ h (with_params params req) w
    | none ↦ next req w
  ]
]

-- `ServeHTTP`: the primary tables, the fallback tables, OPTIONS, and the not-found handler
unfoldable pub serve_http : Router → Handler
serve_http r req w =
    let p = clean_path req.path in
    serve_table r.static r.dyn p
      (serve_table r.fallback_static r.fallback_dyn p (serve_unrouted r p)) req w

-- `RouteParams`, a copy of the stored map
unfoldable pub route_params : Context → List (Str × Str)
route_params c = elim c.params [ none ↦ [] | some params ↦ params ]

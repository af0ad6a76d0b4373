-- ===== src/Csrf.antt =====
-- csrf.go: trusted origins, exact and by wildcard, and the cache of decisions per origin.
-- `url.Parse` and `http.CrossOriginProtection` are arguments.
pub mod Laws
pub mod Runs
use goserver.Common.{
  none, Bool, List, Option, [], any, false, if◌then◌else◌, some, true, ◌&&◌, ◌++◌, ◌||◌, ◌∷◌,
}
use goserver.Text.{
  Str, codes, contains, cut_prefix, has_suffix, member, split, str_eq, trim_prefix, trim_space,
}
use goserver.Maps.{lookup, insert}
use goserver.Http.{Handler, Middleware, Request, Writer, get, set_header}

pub record WildcardOrigin : Type 0 where
  pub scheme : Str
  pub pattern : Str

-- What `match` reads of a parsed origin.
pub record Origin : Type 0 where
  pub scheme : Str
  pub hostname : Str

-- `match`; `parse` is `none` for an error of `url.Parse`
unfoldable pub match_origin : (Str → Option Origin) → WildcardOrigin → Str → Bool
match_origin parse wo origin = elim (parse origin) [
  | none ↦ false
  | some u ↦
      str_eq u.scheme wo.scheme
      && (str_eq u.hostname wo.pattern || has_suffix u.hostname (b'.' ∷ wo.pattern))
]

unfoldable pub normalize_wildcard_origin : Str → WildcardOrigin
normalize_wildcard_origin o =
    let trimmed = trim_space o in
    elim (cut_prefix trimmed (codes "http://")) [
      | some rest ↦ record { scheme = codes "http"; pattern = trim_prefix rest (codes "*.") }
      | none ↦ elim (cut_prefix trimmed (codes "https://")) [
        | some rest ↦ record { scheme = codes "https"; pattern = trim_prefix rest (codes "*.") }
        | none ↦ record { scheme = codes "https"; pattern = trim_prefix trimmed (codes "*.") }
      ]
    ]

pub record Trusted : Type 0 where
  pub all_origins : Bool
  pub wildcards : List WildcardOrigin
  pub exact : List Str

-- the loop over the parts of `CsrfTrustedOrigins`
unfoldable pub add_origins : List Str → Trusted → Trusted
add_origins [] t = t
add_origins (part ∷ parts) t =
    let origin = trim_space part in
    add_origins parts (
      if str_eq origin []
      then t
      else if contains origin (codes "*")
      then record t { wildcards = t.wildcards ++ normalize_wildcard_origin origin ∷ [] }
      else record t { exact = t.exact ++ origin ∷ [] })

unfoldable pub trusted_origins : Str → Trusted
trusted_origins env =
    let nothing : Trusted = record { all_origins = false; wildcards = []; exact = [] } in
    if str_eq env []
    then nothing
    else if str_eq (trim_space env) (codes "*")
    then record nothing { all_origins = true }
    else add_origins (split b',' env) nothing

-- what the two loops of the handler decide for an origin
unfoldable pub is_trusted : (Str → Option Origin) → Trusted → Str → Bool
is_trusted parse t origin =
    any (λ rule. match_origin parse rule origin) t.wildcards || member origin t.exact

-- The handler of `CSRFMiddleware`, with the map of decisions as its state. `protect` is
-- `cop.Handler`, which knows the exact origins too.
unfoldable pub csrf_middleware :
    (Str → Option Origin)
    → Middleware
    → Trusted
    → Handler
    → Request
    → Writer
    → List (Str × Bool)
    → Writer × List (Str × Bool)
csrf_middleware parse protect t next r w cache =
    if t.all_origins
    then (let w' = set_header (codes "Access-Control-Allow-Origin") (codes "*") w in
        if str_eq r.method (codes "OPTIONS") then (w', cache) else (next r w', cache))
    else let origin = get (codes "Origin") r.headers in
      if str_eq origin [] then (protect next r w, cache) else elim (lookup origin cache) [
        | some known ↦ (if known then next r w else protect next r w, cache)
        | none ↦
            if is_trusted parse t origin
            then (next r w, insert origin true cache)
            else (protect next r w, insert origin false cache)
      ]

-- ===== src/Csrf/Laws.antt =====
-- csrf.go: `CSRFMiddleware` beside a version without its cache, and `match`.
use mathlib.Core.List.{reverse-append, reverse-reverse}
use goserver.Common.{
  arith, Bool, Bool-cases, List, Option, Option-cases, [], ap, if◌then◌else◌, inl, inr, reverse,
  some, sym, true, ◌++◌, ◌∙◌, ◌∷◌, ◌≡◌, ◌⊎◌,
}
use goserver.Maps.{insert, lookup, lookup-insert}
use goserver.Text.{Str, codes, cut_prefix, has_suffix, str_eq}
use goserver.Text.Compare.{str_eq_iff, append-cut_prefix, has_prefix_of_cut}
use goserver.Http.{Handler, Middleware, Request, Writer, get, set_header}
use goserver.Csrf.{Origin, Trusted, WildcardOrigin, csrf_middleware, is_trusted, match_origin}

-- Every decision that is stored is the one that the lists of origins give.
abbrev pub IsValid : (Str → Option Origin) → Trusted → List (Str × Bool) → Type 0
IsValid parse t cache =
    (origin : Str) (b : Bool) → lookup origin cache ≡ some b → b ≡ is_trusted parse t origin

-- What the middleware does without a cache, with the origins that are trusted told.
unfoldable pub uncached : (Str → Bool) → Middleware → Trusted → Middleware
uncached trusts protect t next r w =
    let origin = get (codes "Origin") r.headers in
    if t.all_origins
    then (let w' = set_header (codes "Access-Control-Allow-Origin") (codes "*") w in
        if str_eq r.method (codes "OPTIONS") then w' else next r w')
    else if str_eq origin []
    then protect next r w
    else if trusts origin
    then next r w
    else protect next r w

module _ (parse : Str → Option Origin) (protect : Middleware) (t : Trusted) where
  -- With a cache of decisions that agree with the lists of origins, the answer to a request is
  -- that of the middleware without a cache.
  pub csrf_middleware-uncached :
      (next : Handler) (r : Request) (w : Writer) (cache : List (Str × Bool))
      → IsValid parse t cache
      → (csrf_middleware parse protect t next r w cache).0
        ≡ uncached (is_trusted parse t) protect t next r w
  unfolding csrf_middleware uncached
  csrf_middleware-uncached next r w cache v =
      let origin = get (codes "Origin") r.headers in
      elim (Option-cases (lookup origin cache)) [
        | inl e ↦ ground arith
        | inr (b, e) ↦ ground (arith, v origin b e)
      ]

  insert-IsValid :
      (origin : Str) (cache : List (Str × Bool))
      → IsValid parse t cache
      → IsValid parse t (insert origin (is_trusted parse t origin) cache)
  insert-IsValid origin cache v = λ other b h. elim (Bool-cases (str_eq origin other)) [
    | inl same ↦ ground (
      arith,
      lookup-insert origin other (is_trusted parse t origin) cache,
      str_eq_iff origin other,
    )
    | inr apart ↦
        v other b (ground (arith, lookup-insert origin other (is_trusted parse t origin) cache))
  ]

  cache_after :
      (next : Handler) (r : Request) (w : Writer) (cache : List (Str × Bool))
      → ((csrf_middleware parse protect t next r w cache).1 ≡ cache)
        ⊎ ((csrf_middleware parse protect t next r w cache).1
            ≡ insert
                (get (codes "Origin") r.headers)
                (is_trusted parse t (get (codes "Origin") r.headers))
                cache)
  unfolding csrf_middleware
  cache_after next r w cache = ground arith

  -- Every request leaves the cache valid.
  pub csrf_middleware-IsValid :
      (next : Handler) (r : Request) (w : Writer) (cache : List (Str × Bool))
      → IsValid parse t cache
      → IsValid parse t (csrf_middleware parse protect t next r w cache).1
  csrf_middleware-IsValid next r w cache v =
      let origin = get (codes "Origin") r.headers in
      elim (cache_after next r w cache) [
        | inl e ↦ rw e v
        | inr e ↦ rw e (insert-IsValid origin cache v)
      ]

has_suffix_split :
    (s suffix : Str) → has_suffix s suffix ≡ true → (front : Str) × (s ≡ front ++ suffix)
unfolding has_suffix
has_suffix_split s suffix h = elim (Option-cases (cut_prefix (reverse s) (reverse suffix))) [
  | inl e ↦ absurd (ground (arith, has_prefix_of_cut (reverse s) (reverse suffix)))
  | inr (r, e) ↦ (
    reverse r,
    (sym (reverse-reverse s)
        ∙ ap reverse (append-cut_prefix (reverse s) (reverse suffix) r e)
        ∙ reverse-append (reverse suffix) r
        ∙ ap (λ t. reverse r ++ t) (reverse-reverse suffix)),
  )
]

-- A wildcard rule matches an origin only if the origin parses, has the rule's scheme, and its
-- host is the rule's domain or ends in a dot and that domain.
pub match_origin_sound :
    (parse : Str → Option Origin) (wo : WildcardOrigin) (origin : Str)
    → match_origin parse wo origin ≡ true
    → (u : Origin) × (parse origin ≡ some u)
      × (u.scheme ≡ wo.scheme)
      × ((u.hostname ≡ wo.pattern) ⊎ ((sub : Str) × (u.hostname ≡ sub ++ b'.' ∷ wo.pattern)))
unfolding match_origin
match_origin_sound parse wo origin h = elim (Option-cases (parse origin)) [
  | inl e ↦ absurd (ground arith)
  | inr (u, e) ↦ (
    u,
    e,
    (str_eq_iff u.scheme wo.scheme).0 (ground arith),
    elim (Bool-cases (str_eq u.hostname wo.pattern)) [
      | inl same ↦ inl ((str_eq_iff u.hostname wo.pattern).0 same)
      | inr other ↦ inr (has_suffix_split u.hostname (b'.' ∷ wo.pattern) (ground arith))
    ],
  )
]

-- ===== src/Router/Serving.antt =====
-- router.go: `ServeHTTP` after a registration, and the answer to OPTIONS.
use goserver.Common.{
  arith, List, Option-cases, [], if◌then◌else◌, inl, inr, none, refl, some, true, ◌&&◌, ◌≡◌, false,
  is_some, ◌++◌, ◌||◌, ◌∷◌, ◌≢◌, any, null,
}
use goserver.Router.Matching.{match_segments-fast_match}
use goserver.Text.{Str, str_eq, to_upper, codes, member, join}
use goserver.Text.Compare.{str_eq_iff, str_eq_refl}
use goserver.Maps.{lookup-insert, insert, lookup, lookup_or}
use goserver.Http.{Handler, Request, Writer, set_header, write_header}
use goserver.Router.{
  Router, add_static, clean_path, find_static, handle, is_plain, serve_http, serve_table,
  CompiledRoute, add_dyn, allowed_static, compile_pattern, find_dyn, first_match, handle_fallback,
  match_segments, serve_unrouted, with_params, allowed_dyn, fast_match_no_params,
  serve_options_if_known,
}

lookup-lookup_or {ℓ} :
    {V : Type ℓ} (k j : Str) (m : List (Str × List (Str × V)))
    → lookup k (lookup_or [] j m) ≡ (elim (lookup j m) [ none ↦ none | some mm ↦ lookup k mm ])
unfolding lookup_or lookup
lookup-lookup_or k j m = elim (Option-cases (lookup j m)) [
  | inl e ↦ rw (e, lookup_or)
  | inr (mm, e) ↦ rw (e, lookup_or)
]

pub find_static-add_static :
    (m n p q : Str) (h : Handler) (table : List (Str × List (Str × Handler)))
    → find_static n q (add_static m p h table)
      ≡ (if str_eq m n && str_eq p q then some h else find_static n q table)
unfolding find_static add_static
find_static-add_static m n p q h table = ground (
  arith,
  lookup-insert m n (insert p h (lookup_or [] m table)) table,
  lookup-insert p q h (lookup_or [] m table),
  str_eq_iff m n,
  lookup-lookup_or q m table,
)

-- A route whose cleaned pattern has no parameters answers every request of its method whose
-- cleaned path is that pattern, whatever else is registered.
pub serve_http-handle_static :
    (r : Router) (method pattern : Str) (h : Handler) (req : Request) (w : Writer)
    → is_plain (clean_path pattern) ≡ true
    → req.method ≡ to_upper method
    → clean_path req.path ≡ clean_path pattern
    → serve_http (handle method pattern h r) req w ≡ h req w
unfolding serve_http serve_table handle
serve_http-handle_static r method pattern h req w plain m p = ground (
  arith,
  plain,
  m,
  p,
  str_eq_refl req.method,
  str_eq_refl (clean_path req.path),
  find_static-add_static req.method req.method (clean_path req.path) (clean_path req.path) h
      r.static,
)

first_match-append :
    (p : Str) (routes : List CompiledRoute) (cr : CompiledRoute)
    → first_match p (routes ++ cr ∷ [])
      ≡ (elim (first_match p routes) [ none ↦ first_match p (cr ∷ []) | some hit ↦ some hit ])
unfolding first_match
first_match-append p [] cr = refl
first_match-append p (c ∷ routes) cr = ground (arith, first_match-append p routes cr)

find_dyn-first_match :
    (n q : Str) (table : List (Str × List CompiledRoute))
    → find_dyn n q table ≡ first_match q (lookup_or [] n table)
unfolding find_dyn lookup_or first_match
find_dyn-first_match n q table = elim (Option-cases (lookup n table)) [
  | inl e ↦ rw (e, find_dyn, lookup_or)
  | inr (routes, e) ↦ rw (e, find_dyn, lookup_or)
]

first_match_one :
    (q : Str) (cr : CompiledRoute)
    → first_match q (cr ∷ [])
      ≡ (elim (match_segments cr.segments q) [ none ↦ none | some ps ↦ some (cr.handler, ps) ])
unfolding first_match
first_match_one q cr = refl

lookup_or-insert {ℓ} :
    {V : Type ℓ} (d : V) (k j : Str) (v : V) (m : List (Str × V))
    → lookup_or d j (insert k v m) ≡ (if str_eq k j then v else lookup_or d j m)
unfolding lookup_or
lookup_or-insert d k j v m = ground (arith, lookup-insert k j v m)

-- Where a parameter pattern is added, a request that a route of the same method answers keeps
-- its route, and the new one gets what was left.
find_dyn-add_dyn :
    (m n p q : Str) (h : Handler) (table : List (Str × List CompiledRoute))
    → find_dyn n q (add_dyn m p h table) ≡ (elim (find_dyn n q table) [
      | some hit ↦ some hit
      | none ↦ elim (match_segments (compile_pattern p) q) [
        | some params ↦ if str_eq m n then some (h, params) else none
        | none ↦ none
      ]
    ])
unfolding add_dyn
find_dyn-add_dyn m n p q h table =
    let cr : CompiledRoute = record { handler = h; pattern = p; segments = compile_pattern p } in
    let old = lookup_or [] m table in
    ground (
      arith,
      find_dyn-first_match n q (add_dyn m p h table),
      find_dyn-first_match n q table,
      lookup_or-insert [] m n (old ++ cr ∷ []) table,
      str_eq_iff m n,
      first_match-append q old cr,
      first_match_one q cr,
    )

-- A request that some primary route answers.
abbrev pub IsRouted : Router → Request → Type 0
IsRouted r req =
    (is_some (find_static req.method (clean_path req.path) r.static)
      || is_some (find_dyn req.method (clean_path req.path) r.dyn))
    ≡ true

-- Registering a fallback route changes no answer to a request that a primary route answers.
serve_http-handle_fallback :
    (r : Router) (method pattern : Str) (h : Handler) (req : Request) (w : Writer)
    → IsRouted r req
    → serve_http (handle_fallback method pattern h r) req w ≡ serve_http r req w
unfolding serve_http serve_table handle_fallback
serve_http-handle_fallback r method pattern h req w routed = ground arith

-- Registering a pattern with parameters changes no answer to a request that a static route or
-- an earlier pattern answers.
pub serve_http-handle_dyn :
    (r : Router) (method pattern : Str) (h : Handler) (req : Request) (w : Writer)
    → is_plain (clean_path pattern) ≡ false
    → IsRouted r req
    → serve_http (handle method pattern h r) req w ≡ serve_http r req w
unfolding serve_http serve_table handle
serve_http-handle_dyn r method pattern h req w plain routed = ground (
  arith,
  plain,
  find_dyn-add_dyn (to_upper method) req.method (clean_path pattern) (clean_path req.path) h r.dyn,
)

-- A pattern with parameters answers a request of its method that it matches and that neither a
-- static route nor an earlier pattern answers, with the parameters that the match found in the
-- context.
pub serve_http-handle_params :
    (r : Router) (method pattern : Str) (h : Handler) (req : Request) (w : Writer)
    (params : List (Str × Str))
    → is_plain (clean_path pattern) ≡ false
    → req.method ≡ to_upper method
    → find_static req.method (clean_path req.path) r.static ≡ none
    → find_dyn req.method (clean_path req.path) r.dyn ≡ none
    → match_segments (compile_pattern (clean_path pattern)) (clean_path req.path) ≡ some params
    → serve_http (handle method pattern h r) req w ≡ h (with_params params req) w
unfolding serve_http serve_table handle
serve_http-handle_params r method pattern h req w params plain m no_static no_dyn found = ground (
  arith,
  plain,
  m,
  str_eq_refl req.method,
  find_dyn-add_dyn (to_upper method) req.method (clean_path pattern) (clean_path req.path) h r.dyn,
)

-- The not-found handler runs for a request, other than OPTIONS, that no table answers.
pub serve_http-not_found :
    (r : Router) (req : Request) (w : Writer)
    → req.method ≢ codes "OPTIONS"
    → find_static req.method (clean_path req.path) r.static ≡ none
    → find_dyn req.method (clean_path req.path) r.dyn ≡ none
    → find_static req.method (clean_path req.path) r.fallback_static ≡ none
    → find_dyn req.method (clean_path req.path) r.fallback_dyn ≡ none
    → serve_http r req w ≡ r.not_found req w
unfolding serve_http serve_table serve_unrouted
serve_http-not_found r req w other s d fs fd =
    ground (arith, str_eq_iff req.method (codes "OPTIONS"))

member-allowed_static :
    (m p : Str) (table : List (Str × List (Str × Handler))) (h : Handler)
    → find_static m p table ≡ some h
    → member m (allowed_static p table) ≡ true
unfolding find_static lookup allowed_static member
member-allowed_static m p [] h e = cc
member-allowed_static m p ((method, mm) ∷ table) h e =
    ground (arith, str_eq_iff method m, str_eq_refl m, member-allowed_static m p table h)

any-of-first_match :
    (p : Str) (list : List CompiledRoute) (hit : Handler × List (Str × Str))
    → first_match p list ≡ some hit
    → any (λ cr. fast_match_no_params cr.segments p) list ≡ true
unfolding first_match
any-of-first_match p [] hit e = cc
any-of-first_match p (cr ∷ list) hit e =
    ground (arith, match_segments-fast_match cr.segments p, any-of-first_match p list hit)

member-allowed_dyn :
    (m p : Str) (table : List (Str × List CompiledRoute)) (hit : Handler × List (Str × Str))
    → find_dyn m p table ≡ some hit
    → member m (allowed_dyn p table) ≡ true
unfolding find_dyn lookup allowed_dyn member
member-allowed_dyn m p [] hit e = cc
member-allowed_dyn m p ((method, list) ∷ table) hit e = ground (
  arith,
  str_eq_iff method m,
  str_eq_refl m,
  member-allowed_dyn m p table hit,
  any-of-first_match p list hit,
)

member-append : (m : Str) (xs ys : List Str) → member m (xs ++ ys) ≡ (member m xs || member m ys)
unfolding member
member-append m [] ys = refl
member-append m (x ∷ xs) ys = ground (arith, member-append m xs ys)

not_null_of_member : (m : Str) (xs : List Str) → member m xs ≡ true → null xs ≡ false
unfolding member
not_null_of_member m [] h = cc
not_null_of_member m (x ∷ xs) h = refl

routed-listed :
    (r : Router) (req : Request) (m : Str)
    → IsRouted r (record req { method = m })
    → member m
        (allowed_static (clean_path req.path) r.static ++ allowed_dyn (clean_path req.path) r.dyn)
      ≡ true
routed-listed r req m routed =
    let p = clean_path req.path in
    rw member-append (elim (Option-cases (find_static m p r.static)) [
      | inr (h, e) ↦ ground (arith, member-allowed_static m p r.static h e)
      | inl e ↦ elim (Option-cases (find_dyn m p r.dyn)) [
        | inr (hit, d) ↦ ground (arith, member-allowed_dyn m p r.dyn hit d)
        | inl d ↦ absurd (ground arith)
      ]
    ])

-- For a path that a primary route of some method answers, OPTIONS is answered with status 204,
-- and that method is among those that the Allow header joins.
serve_options-lists :
    (r : Router) (req : Request) (w : Writer) (m : Str)
    → IsRouted r (record req { method = m })
    → (allowed : List Str) × (serve_options_if_known r (clean_path req.path) w
        ≡ some (write_header 204 (set_header (codes "Allow") (join (codes ", ") allowed) w)))
      × (member m allowed ≡ true)
unfolding serve_options_if_known
serve_options-lists r req w m routed =
    let p = clean_path req.path in
    let all_of = allowed_static p r.static ++ allowed_dyn p r.dyn in
    let listed = routed-listed r req m routed in
    (all_of, ground (arith, not_null_of_member m all_of listed), listed)

-- ===== src/Router/Groups/Laws.antt =====
-- handler.go and joinPaths: joined paths, the middleware of a group, and `ANY`.
use goserver.Common.{
  arith, All, All-append, Bool-cases, List, [], ap, append_assoc, if◌then◌else◌, inl, inr, map,
  refl, some, true, ◌++◌, ◌||◌, ◌∙◌, ◌∷◌, ◌≡◌, ◌≢◌, null,
}
use goserver.Router.Serving.{find_static-add_static}
use goserver.Text.Compare.{str_eq_refl, str_eq_iff}
use goserver.Text.{Str, codes, is_slash, join, member, str_eq, to_upper, trim_left}
use goserver.Http.{Handler, Middleware, Request, Writer}
use goserver.Router.{
  Router, chain, clean_path, find_static, handle, is_plain, join_paths, serve_http, serve_table,
}
use goserver.Router.Paths.{
  IsClean, IsSafe, clean_path-IsClean, clean_path_of_safe, path_of, path_of-ne-root,
  trim_left-path_of,
}
use goserver.Router.Groups.{
  RouteGroup, add_any, add_route, add_routes, any_methods, group_add_route, use_middleware,
}

-- A joined path is clean, whatever the prefix and the path are.
pub join_paths-IsClean : (prefix p : Str) → IsClean (join_paths prefix p)
unfolding join_paths
join_paths-IsClean prefix p = elim (Bool-cases (str_eq prefix [] || str_eq prefix (codes "/"))) [
  | inl e ↦ rw (e, join_paths) (clean_path-IsClean p)
  | inr n ↦ elim (Bool-cases (str_eq p [] || str_eq p (codes "/"))) [
    | inl e ↦ rw (n, e, join_paths) (clean_path-IsClean prefix)
    | inr m ↦ rw (n, m, join_paths) (clean_path-IsClean (prefix ++ b'/' ∷ trim_left is_slash p))
  ]
]

join-append :
    (p : Str) (ps : List Str) (q : Str) (qs : List Str)
    → join (codes "/") (p ∷ ps) ++ b'/' ∷ join (codes "/") (q ∷ qs)
      ≡ join (codes "/") ((p ∷ ps) ++ q ∷ qs)
unfolding join
join-append p [] q qs = refl
join-append p (p' ∷ ps) q qs =
    append_assoc p (b'/' ∷ join (codes "/") (p' ∷ ps)) (b'/' ∷ join (codes "/") (q ∷ qs))
    ∙ ap (λ t. p ++ b'/' ∷ t) (join-append p' ps q qs)

path_of-append :
    (p : Str) (ps : List Str) (q : Str) (qs : List Str)
    → path_of (p ∷ ps) ++ b'/' ∷ join (codes "/") (q ∷ qs) ≡ path_of ((p ∷ ps) ++ q ∷ qs)
unfolding path_of
path_of-append p ps q qs = ap (◌∷◌ b'/') (join-append p ps q qs)

path_of-ne-nil : (ps : List Str) → path_of ps ≢ []
unfolding path_of
path_of-ne-nil ps = λ e. cc

-- Joining two clean paths below the root is concatenation of their parts.
pub join_paths-append :
    (p : Str) (ps : List Str) (q : Str) (qs : List Str)
    → All IsSafe (p ∷ ps)
    → All IsSafe (q ∷ qs)
    → join_paths (path_of (p ∷ ps)) (path_of (q ∷ qs)) ≡ path_of ((p ∷ ps) ++ q ∷ qs)
unfolding join_paths
join_paths-append p ps q qs h k =
    let both = All-append IsSafe (p ∷ ps) (q ∷ qs) h k in
    ground (
      arith,
      str_eq_iff (path_of (p ∷ ps)) [],
      str_eq_iff (path_of (p ∷ ps)) (codes "/"),
      str_eq_iff (path_of (q ∷ qs)) [],
      str_eq_iff (path_of (q ∷ qs)) (codes "/"),
      path_of-ne-nil (p ∷ ps),
      path_of-ne-nil (q ∷ qs),
      path_of-ne-root p ps h,
      path_of-ne-root q qs k,
      trim_left-path_of q qs k,
      path_of-append p ps q qs,
      clean_path_of_safe ((p ∷ ps) ++ q ∷ qs) both,
    )

chain-append : (h : Handler) (ms ns : List Middleware) → chain h (ms ++ ns) ≡ chain (chain h ns) ms
unfolding chain
chain-append h [] ns = refl
chain-append h (m ∷ ms) ns = ap m (chain-append h ms ns)

chain_or : (ms : List Middleware) (h : Handler) → (if null ms then h else chain h ms) ≡ chain h ms
unfolding chain
chain_or [] h = refl
chain_or (m ∷ ms) h = refl

-- The middleware that a group adds last runs innermost, next to the handler.
pub group_add_route-use_middleware :
    (g : RouteGroup) (m : Middleware) (method p : Str) (h : Handler) (r : Router)
    → group_add_route (use_middleware m g) method p h r ≡ group_add_route g method p (m h) r
unfolding group_add_route use_middleware
group_add_route-use_middleware g m method p h r =
    rw
      (
        chain_or (g.middlewares ++ m ∷ []) h,
        chain_or g.middlewares (m h),
        chain-append h g.middlewares (m ∷ []),
      )
      (unfold chain in refl)

handle-find_static :
    (r : Router) (method m pattern : Str) (h : Handler)
    → is_plain (clean_path pattern) ≡ true
    → find_static m (clean_path pattern) (handle method pattern h r).static
      ≡ (if str_eq (to_upper method) m then some h else find_static m (clean_path pattern) r.static)
unfolding handle
handle-find_static r method m pattern h plain = ground (
  arith,
  plain,
  str_eq_refl (clean_path pattern),
  find_static-add_static (to_upper method) m (clean_path pattern) (clean_path pattern) h r.static,
)

kept_by_add_routes :
    (ms : List Str) (m pattern : Str) (h : Handler) (r : Router)
    → is_plain (clean_path pattern) ≡ true
    → find_static m (clean_path pattern) r.static ≡ some h
    → find_static m (clean_path pattern) (add_routes ms pattern h r).static ≡ some h
unfolding add_routes add_route
kept_by_add_routes [] m pattern h r plain e = e
kept_by_add_routes (k ∷ ms) m pattern h r plain e =
    kept_by_add_routes ms m pattern h (handle k pattern h r) plain
      (ground (arith, handle-find_static r k m pattern h plain))

add_routes-find_static :
    (ms : List Str) (m pattern : Str) (h : Handler) (r : Router)
    → is_plain (clean_path pattern) ≡ true
    → member m (map to_upper ms) ≡ true
    → find_static m (clean_path pattern) (add_routes ms pattern h r).static ≡ some h
unfolding add_routes add_route member
add_routes-find_static [] m pattern h r plain e = cc
add_routes-find_static (k ∷ ms) m pattern h r plain e = ground (
  arith,
  handle-find_static r k m pattern h plain,
  kept_by_add_routes ms m pattern h (handle k pattern h r) plain,
  add_routes-find_static ms m pattern h (handle k pattern h r) plain,
  str_eq_iff m (to_upper k),
  str_eq_refl m,
)

-- A route without parameters that is registered by `ANY` answers its path under each of the
-- seven methods.
pub serve_http-add_any :
    (r : Router) (pattern : Str) (h : Handler) (req : Request) (w : Writer)
    → is_plain (clean_path pattern) ≡ true
    → member req.method any_methods ≡ true
    → clean_path req.path ≡ clean_path pattern
    → serve_http (add_any pattern h r) req w ≡ h req w
unfolding serve_http serve_table add_any to_upper
serve_http-add_any r pattern h req w plain known p =
    ground (arith, p, add_routes-find_static any_methods req.method pattern h r plain known)

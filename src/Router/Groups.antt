-- ===== src/Router/Groups.antt =====
-- handler.go: registration on the server and on route groups, over the router.
pub mod Laws
use goserver.Common.{map, List, [], if◌then◌else◌, null, ℕ, ◌++◌, ◌∷◌}
use goserver.Text.{codes, Str, str_eq}
use goserver.Http.{Handler, Middleware, Renderer, Request, Writer, render_error, render_error_json}
use goserver.Router.{Router, handle, join_paths, chain}

-- The methods of `ANY`, in its order.
abbrev pub any_methods : List Str
any_methods = map codes ("GET" ∷ "POST" ∷ "PUT" ∷ "DELETE" ∷ "HEAD" ∷ "PATCH" ∷ "OPTIONS" ∷ [])

-- `Server.addRoute`, to which `GET`, `POST` and the others pass their method.
unfoldable pub add_route : Str → Str → Handler → Router → Router
add_route method path h r = handle method path h r

unfoldable pub add_routes : List Str → Str → Handler → Router → Router
add_routes [] path h r = r
add_routes (method ∷ methods) path h r = add_routes methods path h (add_route method path h r)

-- `Server.ANY`
unfoldable pub add_any : Str → Handler → Router → Router
add_any path h r = add_routes any_methods path h r

pub record RouteGroup : Type 0 where
  pub prefix : Str
  pub middlewares : List Middleware

-- `Server.Group`
unfoldable pub group : Str → RouteGroup
group prefix = record { prefix = prefix; middlewares = [] }

-- `RouteGroup.Use`
unfoldable pub use_middleware : Middleware → RouteGroup → RouteGroup
use_middleware m g = record g { middlewares = g.middlewares ++ m ∷ [] }

-- `RouteGroup.addRoute`; `chain` of no middleware is the handler
unfoldable pub group_add_route : RouteGroup → Str → Str → Handler → Router → Router
group_add_route g method p h r =
    handle method (join_paths g.prefix p) (if null g.middlewares then h else chain h g.middlewares)
      r

-- `RouteGroup.ANY`
unfoldable pub group_add_routes : RouteGroup → List Str → Str → Handler → Router → Router
group_add_routes g [] p h r = r
group_add_routes g (method ∷ methods) p h r =
    group_add_routes g methods p h (group_add_route g method p h r)

-- `rejectRequest`: a JSON answer in JSON mode, else a page; the log line is left out
unfoldable pub reject_request : Renderer → Str → Request → ℕ → Str → Writer → Writer
reject_request rd mode r code msg w =
    if str_eq mode (codes "json")
    then render_error_json rd r code msg w
    else render_error rd r code msg w

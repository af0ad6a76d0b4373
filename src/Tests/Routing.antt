-- ===== src/Tests/Routing.antt =====
-- Examples of the router, on a router with one route of each kind.
use goserver.Common.{refl, ◌≡◌, List, [], is_some, true, ◌↔◌, ◌∷◌}
use goserver.Router.Matching.{Accepts, match_segments_iff}
use goserver.Http.{fresh, Handler, write}
use goserver.Tests.{hello, request, program}
use goserver.Text.{codes, Str}
use goserver.Router.{
  Router, handle, handle_fallback, new_router, serve_http, clean_path, Segment, compile_pattern,
  match_segments, with_params, path_clean,
}
use goserver.Router.Paths.{IsClean, clean_path-IsClean, IsSafe}
use goserver.Router.Serving.{
  serve_http-handle_static, serve_http-handle_dyn, serve_http-handle_params,
}

abbrev say : Str → Handler
say s r w = write s w

-- GET /users/:id and GET /about, and the fallback GET /*rest.
abbrev site : Router
site = handle_fallback (codes "GET") (codes "/*rest") (say (codes "fallback")) (
    handle (codes "GET") (codes "/about") (say (codes "about"))
      (handle (codes "get") (codes "/users/:id") hello (new_router (say (codes "none")))))

serve_http-handle_static_example :
    serve_http
      (handle (codes "get") (codes "/users/me/") (say (codes "me")) site)
      (request (codes "GET") (codes "/users//./me"))
      fresh
    ≡ say (codes "me") (request (codes "GET") (codes "/users//./me")) fresh
unfolding program
serve_http-handle_static_example =
    serve_http-handle_static site (codes "get") (codes "/users/me/") (say (codes "me"))
      (request (codes "GET") (codes "/users//./me")) fresh refl refl refl

clean_path-IsClean_example : IsClean (clean_path (codes "a/../../b//c/."))
clean_path-IsClean_example = clean_path-IsClean (codes "a/../../b//c/.")

user_segments : List Segment
unfolding program
user_segments = compile_pattern (codes "/users/:id/*rest")

match_segments_iff_example :
    (is_some (match_segments user_segments (codes "/users/7/a/b")) ≡ true)
    ↔ Accepts user_segments (codes "/users/7/a/b")
match_segments_iff_example = match_segments_iff user_segments (codes "/users/7/a/b")

a-IsSafe : IsSafe (codes "a")
a-IsSafe = (((λ e. cc), (λ e. cc), (λ e. cc)), ((λ e. cc), tt))

b-IsSafe : IsSafe (codes "b")
b-IsSafe = (((λ e. cc), (λ e. cc), (λ e. cc)), ((λ e. cc), tt))

serve_http-handle_dyn_example :
    serve_http
      (handle (codes "GET") (codes "/users/:name") (say (codes "late")) site)
      (request (codes "GET") (codes "/users/7"))
      fresh
    ≡ serve_http site (request (codes "GET") (codes "/users/7")) fresh
unfolding program
serve_http-handle_dyn_example =
    serve_http-handle_dyn site (codes "GET") (codes "/users/:name") (say (codes "late"))
      (request (codes "GET") (codes "/users/7")) fresh refl refl

serve_http-handle_params_example :
    serve_http
      (handle (codes "GET") (codes "/items/:id") (say (codes "item")) site)
      (request (codes "GET") (codes "/items/42"))
      fresh
    ≡ say
        (codes "item")
        (with_params ((codes "id", codes "42") ∷ []) (request (codes "GET") (codes "/items/42")))
        fresh
unfolding program
serve_http-handle_params_example =
    serve_http-handle_params site (codes "GET") (codes "/items/:id") (say (codes "item"))
      (request (codes "GET") (codes "/items/42")) fresh ((codes "id", codes "42") ∷ []) refl refl
      refl refl refl

-- `path.Clean` alone keeps the ".." in front of a path without a root.
path_cleaned : path_clean (codes "a/../../b//c/.") ≡ codes "../b/c"
unfolding program
path_cleaned = refl

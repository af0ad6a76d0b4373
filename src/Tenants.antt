-- ===== src/Tenants.antt =====
-- tenants.go: the store of tenants and the middleware that finds the tenant of a request.
-- `net.SplitHostPort` is an argument, `none` for its error.
pub mod Laws
use goserver.Common.{
  none, Bool, List, Option, [], drop, false, if◌then◌else◌, length, ltb, not, reverse, some, true,
  ◌&&◌, ◌++◌, ◌||◌, ◌∷◌,
}
use goserver.Text.{Str, codes, has_prefix, split, str_eq}
use goserver.Maps.{lookup, insert, delete}
use goserver.Http.{Handler, Tenant, Middleware, Request, get, http_error}

abbrev pub TenantStore : Type 0
TenantStore = List (Str × Tenant)

unfoldable pub add_tenant : Tenant → TenantStore → TenantStore
add_tenant t ts = insert t.id t ts

unfoldable pub remove_tenant : Str → TenantStore → TenantStore
remove_tenant id ts = delete id ts

unfoldable pub get_tenant : Str → TenantStore → Option Tenant
get_tenant id ts = lookup id ts

pub record TenantMiddlewareConfig : Type 0 where
  pub header_key : Str
  pub query_key : Str
  pub use_domain : Bool

-- the configuration of `MiddlewareByDomain`
abbrev pub by_domain : TenantMiddlewareConfig
by_domain = record { header_key = []; query_key = []; use_domain = true }

-- the loop of `matchWildcardExtended`, from the last parts to the first
unfoldable pub match_parts_from_end : List Str → List Str → Bool
match_parts_from_end [] host = true
match_parts_from_end (p ∷ ps) [] = false
match_parts_from_end (p ∷ ps) (h ∷ hs) = str_eq p h && match_parts_from_end ps hs

unfoldable pub match_wildcard_extended : Str → Str → Bool
match_wildcard_extended pattern hostname =
    if has_prefix pattern (codes "*.")
    then (let pattern_parts = drop 1 (split b'.' pattern) in
        let host_parts = split b'.' hostname in
        if ltb (length host_parts) (length pattern_parts)
        then false
        else match_parts_from_end (reverse pattern_parts) (reverse host_parts))
    else false

-- the host without the ports 80 and 443
unfoldable pub hostname_of : (Str → Option (Str × Str)) → Str → Str
hostname_of split_host_port host = elim (split_host_port host) [
  | none ↦ host
  | some (h, port) ↦ if str_eq port (codes "80") || str_eq port (codes "443") then h else host
]

abbrev pub domain_matches : Str → Str → Tenant → Bool
domain_matches host hostname t = elim t.domain [
  | none ↦ false
  | some domain ↦
      str_eq domain hostname || str_eq domain host || match_wildcard_extended domain hostname
]

-- the loop over the tenants, whose order Go leaves open
unfoldable pub find_by_domain : Str → Str → TenantStore → Str
find_by_domain host hostname [] = []
find_by_domain host hostname ((id, t) ∷ ts) =
    let rest = find_by_domain host hostname ts in
    if domain_matches host hostname t then id else rest

unfoldable pub tenant_id :
    (Str → Option (Str × Str)) → TenantMiddlewareConfig → TenantStore → Request → Str
tenant_id split_host_port cfg ts r =
    let by_header = if str_eq cfg.header_key [] then [] else get cfg.header_key r.headers in
    let by_query =
      if str_eq by_header [] && not (str_eq cfg.query_key [])
      then get cfg.query_key r.query
      else by_header in
    if str_eq by_query [] && cfg.use_domain
    then find_by_domain r.host (hostname_of split_host_port r.host) ts
    else by_query

-- the handler of `Middleware`
unfoldable pub tenant_middleware :
    (Str → Option (Str × Str)) → TenantMiddlewareConfig → TenantStore → Middleware
tenant_middleware split_host_port cfg ts next r w =
    let id = tenant_id split_host_port cfg ts r in
    if str_eq id [] then http_error (codes "Tenant not found") 403 w else elim (get_tenant id ts) [
      | none ↦ http_error (codes "Tenant " ++ (id ++ codes " not registered")) 403 w
      | some t ↦ next (record r { context = record (r.context) { tenant = some t } }) w
    ]

-- `GetTenant(r)`
unfoldable pub request_tenant : Request → Option Tenant
request_tenant r = r.context.tenant

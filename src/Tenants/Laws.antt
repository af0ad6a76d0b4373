-- ===== src/Tenants/Laws.antt =====
-- tenants.go: the middleware and the wildcard domains.
use mathlib.Core.List.{reverse-append, reverse-reverse}
use goserver.Common.{
  arith, Bool-cases, List, Option, Option-cases, [], ap, drop, if◌then◌else◌, inl, inr, refl,
  reverse, some, sym, true, ◌++◌, ◌∙◌, ◌∷◌, ◌≡◌, ◌≢◌, ◌⊎◌,
}
use goserver.Maps.{lookup-insert}
use goserver.Text.{Str, codes, split, str_eq}
use goserver.Text.Compare.{str_eq_iff}
use goserver.Http.{Handler, Request, Tenant, Writer, http_error}
use goserver.Tenants.{
  TenantStore, TenantMiddlewareConfig, add_tenant, get_tenant, match_parts_from_end,
  match_wildcard_extended, tenant_id, tenant_middleware,
}

-- The middleware either answers with status 403, and the handler has no part in the answer, or
-- it calls the handler with the registered tenant of a non-empty id in the context.
pub tenant_middleware_lem :
    (split_host_port : Str → Option (Str × Str)) (cfg : TenantMiddlewareConfig) (ts : TenantStore)
    (r : Request) (w : Writer)
    → ((message : Str) × ((next : Handler)
          → tenant_middleware split_host_port cfg ts next r w ≡ http_error message 403 w))
      ⊎ ((t : Tenant) × (get_tenant (tenant_id split_host_port cfg ts r) ts ≡ some t)
          × (tenant_id split_host_port cfg ts r ≢ [])
          × ((next : Handler)
              → tenant_middleware split_host_port cfg ts next r w
                ≡ next (record r { context = record (r.context) { tenant = some t } }) w))
unfolding tenant_middleware
tenant_middleware_lem split_host_port cfg ts r w =
    let id = tenant_id split_host_port cfg ts r in
    elim (Bool-cases (str_eq id [])) [
      | inl e ↦ inl (codes "Tenant not found", λ next. rw (e, tenant_middleware))
      | inr n ↦ elim (Option-cases (get_tenant id ts)) [
        | inl e ↦ inl (
          codes "Tenant " ++ (id ++ codes " not registered"),
          λ next. rw (n, e, tenant_middleware),
        )
        | inr (t, e) ↦ inr (
          t,
          e,
          λ h. ground (arith, h, n, str_eq_iff id []),
          λ next. rw (n, e, tenant_middleware),
        )
      ]
    ]

match_parts_split :
    (ps hs : List Str) → match_parts_from_end ps hs ≡ true → (rest : List Str) × (hs ≡ ps ++ rest)
unfolding match_parts_from_end
match_parts_split [] hs h = (hs, refl)
match_parts_split (p ∷ ps) [] h = absurd (ground arith)
match_parts_split (p ∷ ps) (k ∷ hs) h =
    let (rest, e) = match_parts_split ps hs (ground arith) in
    (rest, rw (← e, (str_eq_iff p k).0 (ground arith)))

-- A wildcard domain matches a host only if the last labels of the host are the labels of the
-- domain behind "*.".
match_wildcard_extended_sound :
    (pattern hostname : Str)
    → match_wildcard_extended pattern hostname ≡ true
    → (front : List Str) × (split b'.' hostname ≡ front ++ drop 1 (split b'.' pattern))
unfolding match_wildcard_extended
match_wildcard_extended_sound pattern hostname h =
    let ps = drop 1 (split b'.' pattern) in
    let hs = split b'.' hostname in
    let (rest, e) = match_parts_split (reverse ps) (reverse hs) (ground arith) in
    (
      reverse rest,
      sym (reverse-reverse hs)
          ∙ ap reverse e
          ∙ reverse-append (reverse ps) rest
          ∙ ap (λ t. reverse rest ++ t) (reverse-reverse ps),
    )

-- A tenant that is added is found under its id, and under every other id what was found before.
pub get_tenant-add_tenant :
    (t : Tenant) (id : Str) (ts : TenantStore)
    → get_tenant id (add_tenant t ts) ≡ (if str_eq t.id id then some t else get_tenant id ts)
unfolding get_tenant add_tenant
get_tenant-add_tenant t id ts = lookup-insert t.id id t ts

-- ===== src/Web/Pages/Matching.antt =====
-- web_framework.go: `matchRoute` beside a relation between the segments of a route and the parts.
use goserver.Common.{
  Bool-cases, List, [], false, inl, inr, is_some, refl, subst, sym, true, ◌↔◌, ◌∷◌, ◌≡◌,
}
use goserver.Text.{Str, str_eq}
use goserver.Text.Compare.{str_eq_iff, str_eq_refl}
use goserver.Web.Pages.{
  match_route, Param, RouteSegment, route_catch_all, route_dynamic, route_static,
}

-- A static part is itself, a dynamic one is any that is not empty, and a catch-all, with nothing
-- behind it, takes all parts that are left, one at least.
pub data RouteMatches : List RouteSegment → List Str → Type 0 where
  at_end : RouteMatches [] []
  at_static :
      {text : Str} {segs : List RouteSegment} {parts : List Str}
      → RouteMatches segs parts
      → RouteMatches (route_static text ∷ segs) (text ∷ parts)
  at_dynamic :
      {name part : Str} {segs : List RouteSegment} {parts : List Str}
      → str_eq part [] ≡ false
      → RouteMatches segs parts
      → RouteMatches (route_dynamic name ∷ segs) (part ∷ parts)
  at_catch_all :
      {name part : Str} {parts : List Str} → RouteMatches (route_catch_all name ∷ []) (part ∷ parts)

match_route_sound :
    (segs : List RouteSegment) (parts : List Str) (params : List (Str × Param))
    → is_some (match_route segs parts params) ≡ true
    → RouteMatches segs parts
unfolding match_route
match_route_sound [] [] params h = at_end
match_route_sound [] (part ∷ parts) params h = cc
match_route_sound (route_static text ∷ segs) [] params h = cc
match_route_sound (route_static text ∷ segs) (part ∷ parts) params h =
    elim (Bool-cases (str_eq part text)) [
      | inl e ↦
          subst (λ q. RouteMatches (route_static text ∷ segs) (q ∷ parts))
            (sym ((str_eq_iff part text).0 e))
            (at_static (match_route_sound segs parts params (rw e at h)))
      | inr e ↦ (let bad = rw e at h in cc)
    ]
match_route_sound (route_dynamic name ∷ segs) [] params h = cc
match_route_sound (route_dynamic name ∷ segs) (part ∷ parts) params h =
    elim (Bool-cases (str_eq part [])) [
      | inl e ↦ (let bad = rw e at h in cc)
      | inr e ↦ at_dynamic e (match_route_sound segs parts _ (rw e at h))
    ]
match_route_sound (route_catch_all name ∷ segs) [] params h = cc
match_route_sound (route_catch_all name ∷ []) (part ∷ parts) params h = at_catch_all
match_route_sound (route_catch_all name ∷ route_static t ∷ segs) (part ∷ parts) params h = cc
match_route_sound (route_catch_all name ∷ route_dynamic t ∷ segs) (part ∷ parts) params h = cc
match_route_sound (route_catch_all name ∷ route_catch_all t ∷ segs) (part ∷ parts) params h = cc

match_route_complete :
    {segs : List RouteSegment} {parts : List Str} (params : List (Str × Param))
    → RouteMatches segs parts
    → is_some (match_route segs parts params) ≡ true
unfolding match_route
match_route_complete params at_end = refl
match_route_complete params (at_static {text} m) = rw str_eq_refl (match_route_complete params m)
match_route_complete params (at_dynamic {name} {part} e m) = rw e (match_route_complete _ m)
match_route_complete params at_catch_all = refl

-- The segments of a page succeed on the parts of a path exactly when these match: a static
-- segment its own text, a dynamic one any part that is not empty, and a catch-all, which is
-- the last segment, one part or more.
pub match_route_iff :
    (segs : List RouteSegment) (parts : List Str)
    → (is_some (match_route segs parts []) ≡ true) ↔ RouteMatches segs parts
match_route_iff segs parts = (match_route_sound segs parts [], match_route_complete [])

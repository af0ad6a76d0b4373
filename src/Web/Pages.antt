-- ===== src/Web/Pages.antt =====
-- web_framework.go: routes of page files, their order, and the page of a request's path. The parsed
-- view of a page is left out; a file is its relative path and its layout, in the order of the walk.
pub mod Matching
pub mod Order
use goserver.Common.{
  arith, Bool, List, Option, [], false, if◌then◌else◌, ltb, map, none, not, reverse, some, true, ℕ,
  ◌&&◌, ◌++◌, ◌+◌, ◌==◌, ◌∷◌,
}
use goserver.Text.{
  Str, codes, has_prefix, has_suffix, is_slash, join, member, split, str_eq, to_lower, trim,
  trim_prefix, trim_suffix,
}
use goserver.Maps.{insert}

pub data RouteSegment : Type 0 where
  route_static : Str → RouteSegment
  route_dynamic : Str → RouteSegment
  route_catch_all : Str → RouteSegment

-- A value of `params`: a text, or the parts under a key "__parts:".
pub data Param : Type 0 where
  param_text : Str → Param
  param_parts : List Str → Param

pub record Page : Type 0 where
  pub route : Str
  pub relative_path : Str
  pub layout : Str
  pub segments : List RouteSegment
  pub score : ℕ

pub record Pages : Type 0 where
  pub items : List Page
  pub not_found : Option Page
  pub error_page : Option Page

-- `filepath.Ext`, on the reversed path: the last dot behind the last slash, and what follows
unfoldable pub ext_from : Str → Str → Str
ext_from acc [] = []
ext_from acc (c ∷ rev) =
    let rest = ext_from (c ∷ acc) rev in
    if c == b'/' then [] else if c == b'.' then c ∷ acc else rest

unfoldable pub file_ext : Str → Str
file_ext path = ext_from [] (reverse path)

-- `parts[:len(parts)-1]` where the last part is "index"
unfoldable pub drop_index : List Str → List Str
drop_index [] = []
drop_index (p ∷ []) = if str_eq p (codes "index") then [] else p ∷ []
drop_index (p ∷ q ∷ ps) = p ∷ drop_index (q ∷ ps)

-- the segment of a part, `none` for an empty parameter's name
unfoldable pub page_segment : Str → Option RouteSegment
page_segment part =
    let rest = trim_suffix (trim_prefix part (codes "[...")) (codes "]") in
    let name = trim_suffix (trim_prefix part (codes "[")) (codes "]") in
    if has_prefix part (codes "[...") && has_suffix part (codes "]")
    then (if str_eq rest [] then none else some (route_catch_all rest))
    else if has_prefix part (codes "[") && has_suffix part (codes "]")
    then (if str_eq name [] then none else some (route_dynamic name))
    else some (route_static part)

-- the loop over the parts; empty parts are passed over
unfoldable pub page_segments : List Str → Option (List RouteSegment)
page_segments [] = some []
page_segments (part ∷ parts) =
    let rest = page_segments parts in
    if str_eq part [] then rest else elim (page_segment part) [
      | none ↦ none
      | some seg ↦ elim rest [ none ↦ none | some segs ↦ some (seg ∷ segs) ]
    ]

unfoldable pub route_part : RouteSegment → Str
route_part (route_static text) = text
route_part (route_dynamic name) = b':' ∷ name
route_part (route_catch_all name) = b':' ∷ (name ++ codes "*")

unfoldable pub segment_score : RouteSegment → ℕ
segment_score (route_static text) = 100
segment_score (route_dynamic name) = 10
segment_score (route_catch_all name) = 1

unfoldable pub score_of : List RouteSegment → ℕ
score_of [] = 0
score_of (seg ∷ segs) = segment_score seg + score_of segs

-- `"/" + strings.Join(routeParts, "/")`, which is "/" without parts
unfoldable pub route_of : List RouteSegment → Str
route_of segs = b'/' ∷ join (codes "/") (map route_part segs)

-- `pageRoute`, on a path with slashes
unfoldable pub page_route : Str → Option (Str × List RouteSegment × ℕ)
page_route relative_path =
    let bare = trim_suffix relative_path (file_ext relative_path) in
    let path = trim_suffix (trim_suffix bare (codes ".client")) (codes ".server") in
    elim (page_segments (drop_index (split b'/' path))) [
      | none ↦ none
      | some segs ↦ some (route_of segs, segs, score_of segs)
    ]

-- `s < t` on strings
unfoldable pub str_lt : Str → Str → Bool
str_lt [] [] = false
str_lt [] (d ∷ t) = true
str_lt (c ∷ s) [] = false
str_lt (c ∷ s) (d ∷ t) = let rest = str_lt s t in if c == d then rest else ltb c d

-- the order of `LoadPages`: the higher score, and then the smaller route
unfoldable pub page_less : Page → Page → Bool
page_less a b = if a.score == b.score then str_lt a.route b.route else ltb b.score a.score

-- `sort.SliceStable` as insertion from the left: an item goes behind those that it is not less than
unfoldable pub insert_page : Page → List Page → List Page
insert_page p [] = p ∷ []
insert_page p (q ∷ qs) =
    let rest = insert_page p qs in if page_less p q then p ∷ q ∷ qs else q ∷ rest

unfoldable pub sort_pages : List Page → List Page → List Page
sort_pages [] sorted = sorted
sort_pages (p ∷ ps) sorted = sort_pages ps (insert_page p sorted)

unfoldable pub last_part : List Str → Str
last_part [] = []
last_part (p ∷ []) = p
last_part (p ∷ q ∷ ps) = last_part (q ∷ ps)

-- the last part of a path, in lower case
unfoldable pub base_name : Str → Str
base_name path = to_lower (last_part (split b'/' path))

-- one file of the walk: the special pages by their names, every other page by its route
unfoldable pub load_page : Str × Str → Pages → Option Pages
load_page (relative, layout) pages =
    let special : Str → Page = λ route. record {
      route = route;
      relative_path = relative;
      layout = layout;
      segments = [];
      score = 0;
    } in
    if str_eq (base_name relative) (codes "404.gosh")
    then some (record pages { not_found = some (special (codes "@404")) })
    else if str_eq (base_name relative) (codes "error.gosh")
    then some (record pages { error_page = some (special (codes "@error")) })
    else elim (page_route relative) [
      | none ↦ none
      | some (route, segs, score) ↦ some (record pages {
        items =
            pages.items
            ++ record {
              route = route;
              relative_path = relative;
              layout = layout;
              segments = segs;
              score = score;
            }
              ∷ [];
      })
    ]

unfoldable pub walk_pages : List (Str × Str) → Pages → Option Pages
walk_pages [] pages = some pages
walk_pages (f ∷ fs) pages = elim (load_page f pages) [
  | none ↦ none
  | some next ↦ walk_pages fs next
]

-- `LoadPages`, `none` where a file's route is an error
unfoldable pub load_pages : List (Str × Str) → Option Pages
load_pages files =
    elim (walk_pages files (record { items = []; not_found = none; error_page = none })) [
      | none ↦ none
      | some pages ↦ some (record pages { items = sort_pages pages.items [] })
    ]

-- `splitURLPath`
unfoldable pub split_url_path : Str → List Str
split_url_path path =
    let bare = trim is_slash path in if str_eq bare [] then [] else split b'/' bare

-- `matchRoute`, with the parts `request[i:]` left
unfoldable pub match_route :
    List RouteSegment → List Str → List (Str × Param) → Option (List (Str × Param))
match_route [] [] params = some params
match_route [] (part ∷ parts) params = none
match_route (route_static text ∷ segs) [] params = none
match_route (route_static text ∷ segs) (part ∷ parts) params =
    let rest = match_route segs parts params in if str_eq part text then rest else none
match_route (route_dynamic name ∷ segs) [] params = none
match_route (route_dynamic name ∷ segs) (part ∷ parts) params =
    let rest = match_route segs parts (insert name (param_text part) params) in
    if str_eq part [] then none else rest
match_route (route_catch_all name ∷ segs) [] params = none
match_route (route_catch_all name ∷ segs) (part ∷ parts) params = match_route segs [] (
    insert (codes "__parts:" ++ name) (param_parts (part ∷ parts))
      (insert name (param_text (join (codes "/") (part ∷ parts))) params))

unfoldable pub match_items : List Page → List Str → Option (Page × List (Str × Param))
match_items [] parts = none
match_items (page ∷ pages) parts =
    let rest = match_items pages parts in
    elim (match_route page.segments parts []) [ none ↦ rest | some params ↦ some (page, params) ]

-- `Match` and `MatchStatic`
unfoldable pub match_pages : Pages → Str → Option (Page × List (Str × Param))
match_pages pages path = match_items pages.items (split_url_path path)

unfoldable pub match_static : List Page → Str → Option Page
match_static [] path = none
match_static (page ∷ pages) path =
    let rest = match_static pages path in if str_eq page.route path then some page else rest

-- `publicRouteParams`
unfoldable pub public_route_params : List (Str × Param) → List (Str × Param)
public_route_params [] = []
public_route_params ((k, v) ∷ params) =
    let rest = public_route_params params in
    if has_prefix k (codes "__parts:") then rest else (k, v) ∷ rest

-- the locale that a path begins with, and the parts behind it
unfoldable pub locale_of : List Str → Str → List Str → Option (Str × List Str)
locale_of locales default_locale [] = none
locale_of locales default_locale (part ∷ parts) =
    if member part locales && not (str_eq part default_locale) then some (part, parts) else none

unfoldable pub with_locale : Option Str → List (Str × Param) → List (Str × Param)
with_locale none params = params
with_locale (some locale) params = insert (codes "locale") (param_text locale) params

-- `selectPageFrom` behind the choice of the locale: a page, its parameters and the status
unfoldable pub select_matched :
    Pages → Option Str → Str → Bool → Option (Page × List (Str × Param)) × ℕ
select_matched pages locale path include_not_found = elim (match_pages pages path) [
  | some (page, params) ↦ (some (page, with_locale locale params), 200)
  | none ↦
      if include_not_found
      then elim pages.not_found [
        | some page ↦ (some (page, with_locale locale []), 404)
        | none ↦ (none, 404)
      ]
      else (none, 404)
]

unfoldable pub select_page_from :
    Pages → List Str → Str → Str → Bool → Option (Page × List (Str × Param)) × ℕ
select_page_from pages locales default_locale path include_not_found =
    elim (locale_of locales default_locale (split_url_path path)) [
      | none ↦ select_matched pages none path include_not_found
      | some (locale, parts) ↦ elim (match_static pages.items path) [
        | some page ↦ (some (page, []), 200)
        | none ↦
            select_matched pages (some locale) (b'/' ∷ join (codes "/") parts) include_not_found
      ]
    ]

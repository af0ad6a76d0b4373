-- ===== src/Tests/Pages.antt =====
-- Examples of the pages, states and rendered documents of the web framework.
use goserver.Common.{arith, List, [], ◌∷◌, ◌≡◌, ◌↔◌, ℕ, some, none, true, false, refl, is_some}
use goserver.Text.{Str, codes, member}
use goserver.Text.Compare.{str_eq_iff}
use goserver.Tests.{program}
use goserver.Web.Pages.{RouteSegment, Page, Pages, match_route, page_less}
use goserver.Web.Pages.Matching.{RouteMatches, match_route_iff}
use goserver.Web.Pages.Order.{match_pages_best}
use goserver.Web.States.{StateStore, make_room, put, get}
use goserver.Web.States.Room.{IsRoomy, Covers, make_room-IsRoomy, get-put}
use goserver.Web.Renders.{
  RenderCache, RenderResult, CacheEntry, CachedDocument, new_render_cache, set, set_document,
}
use goserver.Web.Renders.Index.{IsIndexed, set-IsIndexed}
use goserver.Web.Renders.Invalidation.{invalidate_tags_fresh}
use goserver.Web.Renders.Bytes.{IsCounted, set-IsCounted}
use goserver.Web.Renders.Room.{set_document-IsCounted}

abbrev item_route : List RouteSegment
item_route =
    RouteSegment.route_static (codes "items") ∷ RouteSegment.route_dynamic (codes "id") ∷ []

match_route_iff_example :
    (is_some (match_route item_route (codes "items" ∷ codes "7" ∷ []) []) ≡ true)
    ↔ RouteMatches item_route (codes "items" ∷ codes "7" ∷ [])
unfolding program
match_route_iff_example = match_route_iff item_route (codes "items" ∷ codes "7" ∷ [])

-- Two files whose routes both match "/items/new".
abbrev files : List (Str × Str)
files = (codes "items/[id].gosh", codes "main") ∷ (codes "items/new.gosh", codes "main") ∷ []

abbrev new_page : Page
new_page = record {
  route = codes "/items/new";
  relative_path = codes "items/new.gosh";
  layout = codes "main";
  segments =
      RouteSegment.route_static (codes "items") ∷ RouteSegment.route_static (codes "new") ∷ [];
  score = 200;
}

abbrev id_page : Page
id_page = record {
  route = codes "/items/:id";
  relative_path = codes "items/[id].gosh";
  layout = codes "main";
  segments = item_route;
  score = 110;
}

abbrev site : Pages
site = record { items = new_page ∷ id_page ∷ []; not_found = none; error_page = none }

match_pages_best_example : page_less id_page new_page ≡ false
unfolding program
match_pages_best_example =
    match_pages_best files site (codes "/items/new") new_page [] 1 id_page refl refl refl refl

abbrev empty_states : StateStore ℕ
empty_states = record { entries = []; order = []; next_prune = none }

-- One state, put at 10.
abbrev one_state : StateStore ℕ
unfolding program
one_state = put (λ p. p) (codes "t") (codes "ann") 3 false 10 empty_states

one_state-Covers : Covers (one_state.order) (one_state.entries)
unfolding program
one_state-Covers t h = ground (arith, h, str_eq_iff (codes "t") t, str_eq_iff t (codes "t"))

make_room-IsRoomy_example :
    IsRoomy (make_room 1 (put (λ p. p) (codes "t") (codes "ann") 3 false 10 empty_states))
unfolding program
make_room-IsRoomy_example = make_room-IsRoomy 1 one_state one_state-Covers (omega arith)

get-put_example :
    (get
      (λ p. p)
      (codes "bob")
      (codes "t")
      20
      (put (λ p. p) (codes "t") (codes "ann") 3 false 10 empty_states)).0
    ≡ none
unfolding program
get-put_example = get-put (λ p. p) (codes "t") (codes "ann") (codes "bob") 3 10 20 empty_states refl

abbrev tagged_page : RenderResult
tagged_page = record { html = codes "<p>"; cache_tags = codes "news" ∷ [] }

abbrev sport_page : RenderResult
sport_page = record { html = codes "<b>"; cache_tags = codes "sport" ∷ [] }

abbrev one_render : RenderCache
unfolding program
one_render = set (codes "/a") tagged_page 5 (new_render_cache 8)

abbrev two_renders : RenderCache
unfolding program
two_renders = set (codes "/b") sport_page 6 one_render

two_renders-IsIndexed : IsIndexed (two_renders.items) (two_renders.tags)
unfolding program
two_renders-IsIndexed =
    set-IsIndexed (codes "/b") sport_page [] 6 one_render
      (set-IsIndexed (codes "/a") tagged_page [] 5 (new_render_cache 8) (λ key e tag h n m. cc))

abbrev sport_entry : CacheEntry
sport_entry = record { result = sport_page; document = none; stored = 6; tag_versions = [] }

invalidate_tags_fresh_example : member (codes "news") sport_entry.result.cache_tags ≡ false
unfolding program
invalidate_tags_fresh_example =
    invalidate_tags_fresh (codes "news" ∷ []) two_renders (codes "/b") (codes "news") sport_entry
      two_renders-IsIndexed refl refl refl

abbrev body : CachedDocument
body = record { body = codes "<html>"; public_static = true }

set_document-IsCounted_example : IsCounted (set_document (codes "/a") (some body) two_renders)
unfolding program
set_document-IsCounted_example =
    set_document-IsCounted (codes "/a") body two_renders
      (set-IsCounted (codes "/b") sport_page [] 6 one_render (
        set-IsCounted (codes "/a") tagged_page [] 5 (new_render_cache 8)
          (record { distinct = tt; counted = refl; bounded = omega arith })))
      (omega arith)

-- ===== src/Tests/Styles.antt =====
-- Examples of styles, rules, cached routes and deadlines.
use goserver.Common.{
  List, [], ◌∷◌, ◌≡◌, ◌≤◌, ◌⊎◌, ℕ, some, none, true, false, refl, length, All, any, ◌++◌,
}
use goserver.Text.{Str, codes, member, join}
use goserver.Text.Ink.{ink}
use goserver.Tests.{program}
use goserver.Web.Css.{build_css_chunks, all_units, max_chunk}
use goserver.Web.Css.Chunks.{ink-build_css_chunks}
use goserver.Web.Css.Sizes.{build_css_chunks_bound}
use goserver.Web.Rules.{RouteRule, route_rule}
use goserver.Web.Rules.Choice.{Origin, Longest, route_rule_found}
use goserver.Web.Api.{ResponseCache, CachedResponse, new_response_cache, serve_server_route, fetch}
use goserver.Web.Api.Steps.{Step, Reachable, Timely, Public, serve_server_route_lem}
use goserver.Web.Html.{compact_html, is_markup}
use goserver.Web.Html.Compact.{ink-compact_html}
use goserver.Web.Html.Styles.{safe_style_declarations-plain}
use goserver.Timeout.{
  TimeoutWriter, Call, Headers, new_timeout_writer, expire, write, write_header, unwrap, write_call,
}
use goserver.Timeout.Race.{Acts, Act, Answered, expire_once}

abbrev sheets : List Str
sheets = codes "a{b:c}d{}" ∷ codes "e;/*}*/" ∷ []

ink-build_css_chunks_example :
    ink (join [] (build_css_chunks sheets true 4 8)) ≡ ink (join [] sheets)
ink-build_css_chunks_example = ink-build_css_chunks sheets true 4 8

build_css_chunks_bound_example :
    All
      (λ chunk. (length chunk ≤ max_chunk 4 8) ⊎ (member chunk (all_units sheets) ≡ true))
      (build_css_chunks sheets true 4 8)
build_css_chunks_bound_example = build_css_chunks_bound sheets 4 8

-- Three chunks, of which the last two hold several units.
chunks_of_sheets :
    build_css_chunks sheets true 4 8 ≡ codes "a{b:c}\n" ∷ codes "d{}\ne;\n" ∷ codes "/*}*/\n" ∷ []
unfolding program
chunks_of_sheets = refl

abbrev api_rule : RouteRule
api_rule = record {
  swr = 0;
  cache = some 60;
  ssr_stream = none;
  public_static = false;
  exclude = [];
}

abbrev item_rule : RouteRule
item_rule = record {
  swr = 30;
  cache = some 5;
  ssr_stream = none;
  public_static = false;
  exclude = [];
}

abbrev rules : List (Str × RouteRule)
rules = (codes "/api/**", api_rule) ∷ (codes "/api/items/*", item_rule) ∷ []

route_rule_found_example :
    (pattern : Str) × Origin
      (codes "/api/items/7")
      rules
      (pattern, (route_rule rules (codes "/api/items/7")).0)
    × Longest (codes "/api/items/7") rules pattern
unfolding program
route_rule_found_example = route_rule_found rules (codes "/api/items/7") refl

-- The rule for "/api/**" also holds for a path that only begins with "/api".
rule_of_other_path : (route_rule rules (codes "/apixyz")).0 ≡ api_rule
unfolding program
rule_of_other_path = refl

-- The longest pattern wins: the rule of "/products/**" takes the exact path "/products".
rule_of_products :
    (route_rule
      ((codes "/products", item_rule) ∷ (codes "/products/**", api_rule) ∷ [])
      (codes "/products")).0
    ≡ api_rule
unfolding program
rule_of_products = refl

abbrev answer : CachedResponse
answer = record { status = 200; headers = []; body = codes "ok"; stored = 100 }

abbrev cached : ResponseCache
unfolding program
cached = (fetch (codes "k") 5 100 answer (new_response_cache 2)).1

serve_server_route_lem_example :
    Timely item_rule
      (codes "k")
      6000000000
      cached
      (serve_server_route item_rule true true (codes "k") 6000000000 cached).0
    × Public (serve_server_route item_rule true true (codes "k") 6000000000 cached).0
unfolding program
serve_server_route_lem_example =
    serve_server_route_lem 2 cached item_rule true true (codes "k") 6000000000 (
      Reachable.next Reachable.start (Step.fetched (codes "k") 5 100 answer (new_response_cache 2)))

ink-compact_html_example :
    (r : Str) × (compact_html (codes "<p>a</p>\n <b>c\td</b>") ≡ some r)
    × (ink r ≡ ink (codes "<p>a</p>\n <b>c\td</b>"))
unfolding program
ink-compact_html_example = ink-compact_html (codes "<p>a</p>\n <b>c\td</b>")

compacted : compact_html (codes "<p>a</p>\n <b>c\td</b>") ≡ some (codes "<p>a</p><b>c d</b>")
unfolding program
compacted = refl

safe_style_declarations-plain_example : any is_markup (codes "color:red;--x:1") ≡ false
unfolding program
safe_style_declarations-plain_example =
    safe_style_declarations-plain (codes " color : red;; --x:1") (codes "color:red;--x:1") refl

abbrev page : ℕ → Headers → List Call
page code header = Call.status_call code header ∷ []

abbrev hinted : TimeoutWriter
unfolding program
hinted = write_header 103 (new_timeout_writer [])

expire_once_example :
    Answered page false hinted (write (codes "late") (expire page false hinted)).1.calls
unfolding program
expire_once_example =
    expire_once page false [] hinted _
      (Acts.more Acts.none_yet (Act.answers 103 (new_timeout_writer [])))
      (Acts.more Acts.none_yet (Act.writes (codes "late") (expire page false hinted)))

-- A call on the writer that `Unwrap` hands out still reaches the client behind the deadline.
unwrapped_late :
    (unwrap
      (λ h calls. (h, calls ++ write_call (codes "late") h ∷ []))
      (expire page false hinted)).calls
    ≡ (expire page false hinted).calls ++ write_call (codes "late") [] ∷ []
unfolding program
unwrapped_late = refl

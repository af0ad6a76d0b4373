-- ===== src/Protect/Filters.antt =====
-- protect.go: `BlockMaliciousPathsMiddleware`, and the test for a piece of a text.
use goserver.Common.{arith, List, [], any, refl, true, ◌++◌, ◌∷◌, ◌≡◌}
use goserver.Text.{Str, contains, has_prefix, member, to_lower}
use goserver.Text.Compare.{str_eq_iff}
use goserver.Http.{Handler, Renderer, Request, Writer, render_error}
use goserver.Protect.{block_malicious_paths_middleware, blocked_paths}

any_of_contains :
    (path p : Str) (ps : List Str)
    → member p ps ≡ true
    → contains path p ≡ true
    → any (λ q. contains path q) ps ≡ true
unfolding member
any_of_contains path p [] h k = cc
any_of_contains path p (q ∷ qs) h k = ground (arith, str_eq_iff p q, any_of_contains path p qs)

has_prefix-append : (s b : Str) → has_prefix (s ++ b) s ≡ true
unfolding has_prefix
has_prefix-append [] b = refl
has_prefix-append (c ∷ s) b = ground (arith, has_prefix-append s b)

contains-append : (a s b : Str) → contains (a ++ (s ++ b)) s ≡ true
unfolding contains
contains-append [] [] [] = unfold has_prefix in refl
contains-append [] [] (c ∷ b) = unfold has_prefix in refl
contains-append [] (c ∷ s) b = ground (arith, has_prefix-append (c ∷ s) b)
contains-append (c ∷ a) s b = ground (arith, contains-append a s b)

-- A request whose path, in lower case, is a piece of the list `blocked_paths` with any bytes
-- before and after it is answered with the error 404, and the handler has no part in it.
pub block_malicious_paths_blocked :
    (rd : Renderer) (next : Handler) (r : Request) (w : Writer) (before p behind : Str)
    → member p blocked_paths ≡ true
    → to_lower r.path ≡ before ++ (p ++ behind)
    → block_malicious_paths_middleware rd next r w ≡ render_error rd r 404 (rd.status_text 404) w
unfolding block_malicious_paths_middleware
block_malicious_paths_blocked rd next r w before p behind listed found = rw (
  found,
  any_of_contains (before ++ (p ++ behind)) p blocked_paths listed
      (contains-append before p behind),
)

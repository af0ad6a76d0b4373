-- ===== src/Requests/Rewrites.antt =====
-- prefix.go: `APIPrefixMiddleware` on the paths behind the prefix.
use goserver.Common.{arith, [], false, refl, ℕ, ◌++◌, ◌∷◌, ◌≡◌, true}
use goserver.Text.{Str, str_eq, cut_prefix, has_prefix, trim_prefix}
use goserver.Text.Compare.{cut_prefix-append}
use goserver.Http.{Handler, Request, Writer}
use goserver.Requests.{normalize_api_prefix, api_prefix_middleware, strip_prefix}

str_eq_append : (p s : Str) (c : ℕ) → str_eq (p ++ c ∷ s) p ≡ false
unfolding str_eq
str_eq_append [] s c = refl
str_eq_append (d ∷ p) s c = ground (arith, str_eq_append p s c)

has_prefix-append : (p s : Str) (c : ℕ) → has_prefix (p ++ c ∷ s) (p ++ c ∷ []) ≡ true
unfolding has_prefix
has_prefix-append [] s c = ground arith
has_prefix-append (d ∷ p) s c = ground (arith, has_prefix-append p s c)

trim_prefix-append : (p s : Str) → trim_prefix (p ++ s) p ≡ s
unfolding trim_prefix
trim_prefix-append p s = rw (trim_prefix, cut_prefix-append p s)

trim_prefix-nil : (p : Str) → trim_prefix [] p ≡ []
unfolding trim_prefix cut_prefix
trim_prefix-nil [] = refl
trim_prefix-nil (c ∷ p) = refl

strip_prefix-behind :
    (p rest : Str) (r : Request)
    → r.raw_path ≡ []
    → r.path ≡ p ++ b'/' ∷ rest
    → strip_prefix p r ≡ record r { path = b'/' ∷ rest }
unfolding strip_prefix
strip_prefix-behind p rest r raw behind = simp (
  raw,
  behind,
  str_eq_append p rest b'/',
  has_prefix-append p rest b'/',
  trim_prefix-append p (b'/' ∷ rest),
  trim_prefix-nil p,
)

-- Under an API prefix whose normal form is not empty, a request without a raw path, for a path
-- behind that prefix and a slash, is served as the request for the slash and what follows it.
pub api_prefix_middleware_lem :
    (configured : Str) (next : Handler) (r : Request) (w : Writer) (rest : Str)
    → str_eq (normalize_api_prefix configured) [] ≡ false
    → r.raw_path ≡ []
    → r.path ≡ normalize_api_prefix configured ++ b'/' ∷ rest
    → api_prefix_middleware configured next r w ≡ next (record r { path = b'/' ∷ rest }) w
unfolding api_prefix_middleware
api_prefix_middleware_lem configured next r w rest some_prefix no_raw behind =
    simp (some_prefix, strip_prefix-behind (normalize_api_prefix configured) rest r no_raw behind)

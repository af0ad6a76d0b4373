-- ===== src/Tests/Sessions.antt =====
-- Examples of sessions, CSRF protection, tenants and signed tokens, with a codec that is readable:
-- a byte is encoded by the one 47 above it, so no dot occurs.
use goserver.Common.{
  arith, Bool, Option, [], ap, false, if◌then◌else◌, ltb, none, refl, some, some_inj, ℕ, ◌++◌, ◌+◌,
  ◌-◌, ◌∷◌, ◌≡◌, ◌≤◌, true, ◌↔◌, Bool-cases, inl, inr,
}
use goserver.Text.Pieces.{Free}
use goserver.Http.{Middleware, Request, fresh, write_header}
use goserver.Tests.{program, request, hello}
use goserver.Text.{Str, codes, split, str_eq}
use goserver.Lru.Unbounded.{unbounded}
use goserver.Session.{
  MemItem, Storage, get_session_value, set_session_value, get_or_set, put_new, Session, get,
}
use goserver.Session.Laws.{get_session_value-set_session_value, get_or_set_expired}
use goserver.Csrf.{Origin, Trusted, WildcardOrigin}
use goserver.Csrf.Laws.{uncached}
use goserver.Csrf.Runs.{Trusts, answers, csrf_middleware-run}
use goserver.Tokens.{Codec, validate_token, expired, jwt_header, valid}
use goserver.Tokens.RoundTrip.{validate_token-generate_token, validate_token_sound}

abbrev Sessions : Type 0
Sessions = Storage ℕ (unbounded MemItem)

-- One session, whose value "user" is 7, that expires 43,200 seconds after 0.
abbrev one_session : Sessions
unfolding program
one_session =
    put_new ℕ (unbounded MemItem) (codes "id") ((codes "user", 7) ∷ []) 0
      (record { cache = []; heap = [] })

get_session_value-set_session_value_example :
    get_session_value ℕ
      (unbounded MemItem)
      (codes "id")
      (codes "user")
      9
      (set_session_value ℕ (unbounded MemItem) (codes "id") (codes "cart") 3 5 one_session)
    ≡ (if str_eq (codes "cart") (codes "user") then some 3 else some 7)
unfolding program
get_session_value-set_session_value_example =
    get_session_value-set_session_value ℕ (unbounded MemItem) (codes "id") (codes "cart")
      (codes "user") 3 5 9 one_session (omega arith)

get_or_set_expired_example :
    ((goserver.Session.get ℕ (unbounded MemItem) (codes "id") 43200000000001 one_session).0 ≡ none)
    × ((get_or_set ℕ
          (unbounded MemItem)
          (λ s. s)
          (codes "id")
          (codes "user")
          (some 8)
          43200000000001
          43200000000002
          one_session).0
        ≡ some 7)
unfolding program
get_or_set_expired_example =
    get_or_set_expired ℕ (unbounded MemItem) (λ s. s) (codes "id") (codes "user") (some 8)
      43200000000001 43200000000002 one_session
      (record { address = 0; expires_at = 43200000000000 }) 7 refl (omega arith) refl

-- A parser of one origin.
parse_one : Str → Option Origin
parse_one s =
    if str_eq s (codes "https://a.example.com")
    then some (record { scheme = codes "https"; hostname = codes "a.example.com" })
    else none

abbrev forbid : Middleware
forbid next r w = write_header 403 w

abbrev rule : WildcardOrigin
rule = record { scheme = codes "https"; pattern = codes "example.com" }

abbrev trusted : Trusted
trusted = record { all_origins = false; wildcards = rule ∷ []; exact = [] }

abbrev from_a : Request
from_a = record (request (codes "POST") (codes "/")) {
  headers = (codes "Origin", codes "https://a.example.com") ∷ [];
}

-- Only the origin of `from_a` is trusted.
only_a : Str → Bool
only_a origin = str_eq origin (codes "https://a.example.com")

only_a-Trusts : (origin : Str) → (only_a origin ≡ true) ↔ Trusts parse_one trusted origin
unfolding only_a parse_one
only_a-Trusts origin = (
  λ e. inl (
      inl (record {
        parsed = record { scheme = codes "https"; hostname = codes "a.example.com" };
        parse_eq = ground (arith, e);
        scheme_eq = refl;
        host = inr (codes "a", refl);
      })),
  λ k. elim (Bool-cases (str_eq origin (codes "https://a.example.com"))) [
    | inl same ↦ same
    | inr apart ↦ elim k [
      | inl (inl c) ↦ (let p = c.parse_eq in absurd (ground (arith, p, apart)))
      | inl (inr impossible) ↦ absurd impossible
      | inr impossible ↦ absurd impossible
    ]
  ],
)

-- A request of an origin that is not trusted.
abbrev from_b : Request
from_b = record from_a { headers = (codes "Origin", codes "https://b.example.org") ∷ [] }

csrf_middleware-run_example :
    answers parse_one forbid trusted hello
      ((from_b, fresh) ∷ (from_a, fresh) ∷ (from_b, fresh) ∷ (from_a, fresh) ∷ [])
      []
    ≡ forbid hello from_b fresh
      ∷ hello from_a fresh
      ∷ forbid hello from_b fresh
      ∷ hello from_a fresh
      ∷ []
unfolding program uncached only_a
csrf_middleware-run_example =
    csrf_middleware-run parse_one forbid trusted hello only_a
      ((from_b, fresh) ∷ (from_a, fresh) ∷ (from_b, fresh) ∷ (from_a, fresh) ∷ []) only_a-Trusts

raised : Str → Str
raised [] = []
raised (c ∷ s) = (c + 47) ∷ raised s

lowered : Str → Str
lowered [] = []
lowered (c ∷ s) = (c - 47) ∷ lowered s

lowered-raised : (s : Str) → lowered (raised s) ≡ s
unfolding lowered raised
lowered-raised [] = refl
lowered-raised (c ∷ s) = ground (arith, lowered-raised s)

raised-Free : (s : Str) → Free b'.' (raised s)
unfolding raised
raised-Free [] = tt
raised-Free (c ∷ s) = ((λ e. omega arith), raised-Free s)

read_pair : Str → Option (ℕ × ℕ)
read_pair (d ∷ exp ∷ []) = some (d, exp)
read_pair s = none

read_pair_of : (p : ℕ × ℕ) (s : Str) → some (p.0 ∷ p.1 ∷ []) ≡ some s → read_pair s ≡ some p
unfolding read_pair
read_pair_of (d, exp) s h = rw⁻¹ (some_inj h) refl

abbrev codec : Codec ℕ
codec = record {
  sign = λ secret s. raised (secret ++ s);
  encode = raised;
  decode = λ s. some (lowered s);
  marshal = λ p. some (p.0 ∷ p.1 ∷ []);
  unmarshal = read_pair;
  sign-Free = λ secret s. raised-Free (secret ++ s);
  encode-Free = raised-Free;
  decode-encode = λ s. ap some (lowered-raised s);
  unmarshal-marshal = read_pair_of;
}

abbrev token : Str
token =
    jwt_header
    ++ b'.' ∷ raised (7 ∷ 5 ∷ [])
    ++ b'.' ∷ raised (codes "key" ++ (jwt_header ++ b'.' ∷ raised (7 ∷ 5 ∷ [])))

validate_token-generate_token_example :
    validate_token codec (codes "key") token 4000000000 ≡ (if ltb 5 4 then expired else valid 7)
unfolding program lowered raised
validate_token-generate_token_example =
    validate_token-generate_token codec (codes "key") 7 3000000000 2000000000 4000000000 token refl

validate_token_sound_example :
    (header : Str) × (encoded : Str) × (payload : Str) × (exp : ℕ) × (split b'.' token
      ≡ header ∷ encoded ∷ codec.sign (codes "key") (header ++ b'.' ∷ encoded) ∷ [])
    × (codec.decode encoded ≡ some payload)
    × (codec.unmarshal payload ≡ some (7, exp))
    × (4 ≤ exp)
unfolding program lowered raised read_pair
validate_token_sound_example = validate_token_sound codec (codes "key") token 4000000000 7 refl

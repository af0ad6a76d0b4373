-- ===== src/Tests/Repeats.antt =====
-- Examples of idempotency.go: a cache that is a map, a hash that joins its parts, and a JSON of
-- responses in which lengths stand in front of texts and lists.
use goserver.Common.{
  List, Option, [], ap, arith, false, length, none, refl, some, some_inj, suc, sym, true, zero, ℕ,
  ◌++◌, ◌∙◌, ◌∷◌, ◌≡◌,
}
use goserver.Tests.{program, request, plain_renderer, no_context}
use goserver.Text.{Str, codes, join}
use goserver.Maps.{lookup, insert, lookup-insert_self}
use goserver.Http.{Request, IdempotencyScope, Writer, fresh}
use goserver.Idempotency.{
  CachedResponse, Call, Deps, chunk, edit, flight, idempotency_middleware, intercept,
  new_response_interceptor, play, recorded, status_line,
}
use goserver.Idempotency.Replay.{Alike, IsAdmitted, IsEncodable, IsFaithful, recorded-flight}
use goserver.Idempotency.Twice.{answer_of, idempotency_middleware-twice}

cut_at : ℕ → Str → Str × Str
cut_at zero s = ([], s)
cut_at (suc n) [] = ([], [])
cut_at (suc n) (c ∷ s) = let p = cut_at n s in (c ∷ p.0, p.1)

cut_at-append : (a b : Str) → cut_at (length a) (a ++ b) ≡ (a, b)
unfolding cut_at
cut_at-append [] b = refl
cut_at-append (c ∷ a) b = rw (cut_at-append a b) refl

put_texts : List Str → Str → Str
put_texts [] rest = rest
put_texts (t ∷ ts) rest = length t ∷ (t ++ put_texts ts rest)

get_texts : ℕ → Str → List Str × Str
get_texts zero s = ([], s)
get_texts (suc n) [] = ([], [])
get_texts (suc n) (k ∷ s) = let p = cut_at k s in let q = get_texts n p.1 in (p.0 ∷ q.0, q.1)

get_texts-put_texts :
    (ts : List Str) (rest : Str) → get_texts (length ts) (put_texts ts rest) ≡ (ts, rest)
unfolding get_texts put_texts
get_texts-put_texts [] rest = refl
get_texts-put_texts (t ∷ ts) rest =
    rw (cut_at-append t (put_texts ts rest), get_texts-put_texts ts rest) refl

put_headers : List (Str × List Str) → Str → Str
put_headers [] rest = rest
put_headers ((k, vs) ∷ hs) rest = length k ∷ (k ++ length vs ∷ put_texts vs (put_headers hs rest))

get_headers : ℕ → Str → List (Str × List Str) × Str
get_headers zero s = ([], s)
get_headers (suc n) [] = ([], [])
get_headers (suc n) (m ∷ s) =
    let p = cut_at m s in
    let values : List Str × Str = elim (p.1) [ [] ↦ ([], []) | v ∷ t ↦ get_texts v t ] in
    let rest = get_headers n values.1 in ((p.0, values.0) ∷ rest.0, rest.1)

get_headers-put_headers :
    (hs : List (Str × List Str)) (rest : Str)
    → get_headers (length hs) (put_headers hs rest) ≡ (hs, rest)
unfolding get_headers put_headers
get_headers-put_headers [] rest = refl
get_headers-put_headers ((k, vs) ∷ hs) rest =
    rw
      (
        cut_at-append k (length vs ∷ put_texts vs (put_headers hs rest)),
        get_texts-put_texts vs (put_headers hs rest),
        get_headers-put_headers hs rest,
      )
      refl

packed : CachedResponse → Str
packed c =
    c.status
    ∷ c.expires_at
    ∷ length c.headers
    ∷ put_headers c.headers (length c.fingerprint ∷ (c.fingerprint ++ c.body))

unpacked : Str → Option CachedResponse
unpacked (status ∷ expires ∷ n ∷ s) =
    let hs = get_headers n s in
    let texts : Str × Str = elim (hs.1) [ [] ↦ ([], []) | m ∷ t ↦ cut_at m t ] in
    some (record {
      headers = hs.0;
      body = texts.1;
      status = status;
      fingerprint = texts.0;
      expires_at = expires;
    })
unpacked s = none

unpacked-packed : (c : CachedResponse) → unpacked (packed c) ≡ some c
unfolding packed unpacked
unpacked-packed c =
    rw
      (
        get_headers-put_headers c.headers (length c.fingerprint ∷ (c.fingerprint ++ c.body)),
        cut_at-append c.fingerprint c.body,
      )
      refl

abbrev deps : Deps (List (Str × Str))
deps = record {
  has_cache = true;
  load = λ k s. (lookup k s, s);
  store = λ k v t s. (true, insert k v s);
  hash = join (codes "|");
  marshal = λ c. some (packed c);
  unmarshal = unpacked;
  is_broken = λ r. false;
}

deps-IsFaithful : IsFaithful deps
deps-IsFaithful = record {
  load-store = λ k v t s. lookup-insert_self k v s;
  unmarshal-marshal = λ c b ascii h. (
    c,
    ap unpacked (sym (some_inj h)) ∙ unpacked-packed c,
    record {
      headers = λ k. refl;
      body = refl;
      status = refl;
      fingerprint = refl;
      expires_at = refl;
    },
  );
}

abbrev created : List Call
created =
    edit (insert (codes "Location") (codes "/7" ∷ []))
    ∷ status_line 201
    ∷ chunk (codes "created ")
    ∷ chunk (codes "order 7")
    ∷ []

abbrev answer_1 : CachedResponse
answer_1 = record {
  headers = (codes "Location", codes "/7" ∷ []) ∷ [];
  body = codes "created order 7";
  status = 201;
  fingerprint = codes "fp";
  expires_at = 86400000000007;
}

answer_1-IsEncodable : IsEncodable answer_1
answer_1-IsEncodable = record {
  headers = search arith;
  fingerprint = search arith;
  body = search arith;
}

recorded-flight_example :
    (d : CachedResponse) × (recorded deps
        (codes "key")
        1000
        (flight deps (codes "key") (codes "fp") created 5 7 []).1.1
      ≡ some d)
    × Alike d answer_1
unfolding program packed put_headers put_texts
recorded-flight_example =
    recorded-flight deps deps-IsFaithful (codes "key") (codes "fp") created 5 7 1000 []
      (flight deps (codes "key") (codes "fp") created 5 7 []).1.1 answer_1 refl refl refl refl
      answer_1-IsEncodable refl

abbrev scope : IdempotencyScope
scope = record { tenant = codes "t"; subject = codes "ann" }

abbrev order : Request
order = record (request (codes "POST") (codes "/orders")) {
  headers = (codes "Idempotency-Key", codes "k1") ∷ [];
  body = codes "{}";
  context = record no_context { scope = some scope };
}

order-IsAdmitted : IsAdmitted deps 100 order scope
unfolding program
order-IsAdmitted = record {
  has_key = refl;
  scoped = refl;
  has_subject = refl;
  fits_key = refl;
  fits_body = refl;
  is_whole = refl;
}

kept-IsEncodable :
    IsEncodable (answer_of deps plain_renderer 100 order scope order-IsAdmitted (λ r. created) 7)
unfolding program
kept-IsEncodable = record {
  headers = search arith;
  fingerprint = search arith;
  body = search arith;
}

-- The order is created once; the second request's handler would fail.
abbrev first : Writer × List (Str × Str)
first = idempotency_middleware deps plain_renderer 100 false (λ r. created) order 5 7 fresh []

abbrev second : Writer × List (Str × Str)
second =
    idempotency_middleware deps plain_renderer 100 false (λ r. status_line 500 ∷ []) order 1000 1001
      fresh first.1

idempotency_middleware-twice_example :
    (second.0.status ≡ first.0.status)
    × (second.0.body ≡ first.0.body)
    × (first.0.body ≡ codes "created order 7")
    × (lookup (codes "Idempotent-Replayed") second.0.headers ≡ some (codes "true" ∷ []))
unfolding program
idempotency_middleware-twice_example =
    idempotency_middleware-twice deps plain_renderer 100 order scope order-IsAdmitted
      deps-IsFaithful false false (λ r. created) (λ r. status_line 500 ∷ []) 5 7 1000 1001 [] _ refl
      refl refl refl refl refl kept-IsEncodable refl refl

-- A header that is set behind the status is part of the recorded answer, not of a plain one.
abbrev late : List Call
late = status_line 201 ∷ edit (insert (codes "Location") (codes "/7" ∷ [])) ∷ []

late_edit :
    ((intercept late new_response_interceptor).header ≡ answer_1.headers)
    × ((play late fresh).headers ≡ [])
unfolding program
late_edit = (refl, refl)

-- ===== src/Idempotency/Twice.antt =====
-- idempotency.go: two requests with one Idempotency-Key, one after the other.
use goserver.Common.{
  arith, Bool, List, Option, [], false, leb, ltb, none, ◌==◌, some, true, ℕ, ◌+◌, ◌||◌, ◌∷◌, ◌≡◌,
  ◌∙◌, ap, refl, subst, sym,
}
use goserver.Text.{Str, codes, str_eq}
use goserver.Text.Compare.{str_eq_iff}
use goserver.Maps.{lookup, lookup-insert_self}
use goserver.Http.{
  IdempotencyScope, Renderer, Request, Writer, fresh, set_header, write, write_header,
}
use goserver.Idempotency.{
  CachedResponse, Call, Deps, cache_key, copy_headers, fingerprint_of, flight,
  idempotency_middleware, idempotency_ttl, intercept, mark_repeated, new_response_interceptor,
  persist, recorded, respond, response_of,
}
use goserver.Idempotency.Replay.{IsFaithful, IsAdmitted, IsEncodable, flight-run, recorded-flight}

idempotency_middleware-run :
    {S : Type 0} (D : Deps S) (rd : Renderer) (max_body : ℕ) (shared : Bool)
    (next : Request → List Call) (r : Request) (now ended : ℕ) (w : Writer) (s : S)
    (scope : IdempotencyScope) (f : Option CachedResponse × (Bool × S))
    → IsAdmitted D max_body r scope
    → flight D (cache_key D scope.tenant scope.subject r) (fingerprint_of D r) (next r) now ended s
      ≡ f
    → idempotency_middleware D rd max_body shared next r now ended w s
      ≡ (respond rd r (fingerprint_of D r) (f.1.0 || shared) f.0 w, f.1.1)
unfolding idempotency_middleware
idempotency_middleware-run D rd max_body shared next r now ended w s scope f A run =
    simp (A.has_key, A.scoped, A.has_subject, A.fits_key, A.fits_body, A.is_whole, run)

flight-recorded :
    {S : Type 0} (D : Deps S) (key fp : Str) (calls : List Call) (now ended : ℕ) (s : S)
    (c : CachedResponse)
    → recorded D key now s ≡ some c
    → ((flight D key fp calls now ended s).0 ≡ some c)
      × ((flight D key fp calls now ended s).1.0 ≡ true)
unfolding flight
flight-recorded D key fp calls now ended s c e = (rw (flight, e), rw (flight, e))

copy_headers-unsent :
    (hs : List (Str × List Str)) (w : Writer)
    → ((copy_headers hs w).status ≡ w.status) × ((copy_headers hs w).body ≡ w.body)
unfolding copy_headers
copy_headers-unsent [] w = (refl, refl)
copy_headers-unsent ((k, v) ∷ hs) w = copy_headers-unsent hs _

mark_repeated-unsent :
    (b : Bool) (w : Writer)
    → ((mark_repeated b w).status ≡ w.status) × ((mark_repeated b w).body ≡ w.body)
unfolding mark_repeated set_header
mark_repeated-unsent true w = (refl, refl)
mark_repeated-unsent false w = (refl, refl)

write_unsent :
    (code : ℕ) (b : Str) (w : Writer)
    → w.status ≡ none
    → w.body ≡ []
    → leb 200 code ≡ true
    → let u = write b (write_header code w) in
      (u.status ≡ some code) × (u.body ≡ b) × (u.headers ≡ w.headers)
unfolding write write_header
write_unsent code b w st bd low = ground (arith, st, bd, low)

marked :
    (w : Writer)
    → lookup (codes "Idempotent-Replayed") (mark_repeated true w).headers ≡ some (codes "true" ∷ [])
unfolding mark_repeated set_header
marked w = lookup-insert_self (codes "Idempotent-Replayed") (codes "true" ∷ []) w.headers

-- A fresh writer holds the status and the body of an answer with the right fingerprint.
respond-fresh :
    (rd : Renderer) (r : Request) (fp : Str) (repeated : Bool) (c : CachedResponse)
    → str_eq c.fingerprint fp ≡ true
    → leb 200 c.status ≡ true
    → let w = respond rd r fp repeated (some c) fresh in
      (w.status ≡ some c.status)
      × (w.body ≡ c.body)
      × (w.headers ≡ (mark_repeated repeated (copy_headers c.headers fresh)).headers)
unfolding respond
respond-fresh rd r fp repeated c same low =
    let (st, bd) = copy_headers-unsent c.headers fresh in
    let (st', bd') = mark_repeated-unsent repeated (copy_headers c.headers fresh) in
    rw (respond, same)
      (write_unsent c.status c.body (mark_repeated repeated (copy_headers c.headers fresh))
        (st' ∙ st) (bd' ∙ bd) low)

module _ {S : Type 0} (D : Deps S) (rd : Renderer) (max_body : ℕ) (r : Request)
    (scope : IdempotencyScope) (A : IsAdmitted D max_body r scope) where
  -- What the first request leaves on a fresh writer, and in the cache.
  first_answer :
      (shared : Bool) (next : Request → List Call) (now ended : ℕ) (s s' : S) (c : CachedResponse)
      → flight D
          (cache_key D scope.tenant scope.subject r)
          (fingerprint_of D r)
          (next r)
          now
          ended
          s
        ≡ (some c, (false, s'))
      → str_eq c.fingerprint (fingerprint_of D r) ≡ true
      → leb 200 c.status ≡ true
      → let m = idempotency_middleware D rd max_body shared next r now ended fresh s in
        (m.0.status ≡ some c.status) × (m.0.body ≡ c.body) × (m.1 ≡ s')
  first_answer shared next now ended s s' c run same low =
      let (st, bd, hd) = respond-fresh rd r (fingerprint_of D r) shared c same low in
      rw (idempotency_middleware-run D rd max_body shared next r now ended fresh s scope _ A run)
        (st, bd, refl)

  replayed_answer :
      (shared : Bool) (next : Request → List Call) (now ended : ℕ) (s : S) (c : CachedResponse)
      → recorded D (cache_key D scope.tenant scope.subject r) now s ≡ some c
      → str_eq c.fingerprint (fingerprint_of D r) ≡ true
      → leb 200 c.status ≡ true
      → let m = idempotency_middleware D rd max_body shared next r now ended fresh s in
        (m.0.status ≡ some c.status)
        × (m.0.body ≡ c.body)
        × (lookup (codes "Idempotent-Replayed") m.0.headers ≡ some (codes "true" ∷ []))
  replayed_answer shared next now ended s c found same low =
      let key = cache_key D scope.tenant scope.subject r in
      let (o, b) = flight-recorded D key (fingerprint_of D r) (next r) now ended s c found in
      let ran =
        idempotency_middleware-run D rd max_body shared next r now ended fresh s scope _ A refl in
      let (st, bd, hd) = respond-fresh rd r (fingerprint_of D r) true c same low in
      rw (ran, o, b) (st, bd, ap (lookup (codes "Idempotent-Replayed")) hd ∙ marked _)

  persist_run :
      (key bytes : Str) (c : CachedResponse) (s : S)
      → D.has_cache ≡ true
      → leb 200 c.status ≡ true
      → ltb c.status 400 ≡ true
      → D.marshal c ≡ some bytes
      → persist D key c s ≡ (some c, (D.store key bytes idempotency_ttl s).1)
  unfolding persist
  persist_run key bytes c s on low high json = rw (persist, on, low, high, json) refl

  -- The response of a first run, with the handler's calls.
  abbrev pub answer_of : (Request → List Call) → ℕ → CachedResponse
  answer_of next ended =
      response_of D (fingerprint_of D r) ended (intercept (next r) new_response_interceptor)

  -- Of two requests alike that no guard stops, one after the other, of which the first finds
  -- nothing recorded and leads to an answer within the limit of size, with a status from 200
  -- to 399 that allows a body, a header and a fingerprint of ASCII, a body of bytes and a JSON
  -- text, the second, within 24 hours after the end of the first, gets the status and the body
  -- of the first, marked as repeated, whatever its handler would do; the body is what the
  -- handler of the first wrote. The cache is one that gives back what was stored.
  pub idempotency_middleware-twice :
      IsFaithful D
      → (shared shared' : Bool) (next next' : Request → List Call) (now ended later ended' : ℕ)
        (s : S) (bytes : Str)
      → D.has_cache ≡ true
      → recorded D (cache_key D scope.tenant scope.subject r) now s ≡ none
      → (intercept (next r) new_response_interceptor).too_large ≡ false
      → leb 200 (answer_of next ended).status ≡ true
      → ltb (answer_of next ended).status 400 ≡ true
      → ((answer_of next ended).status == 204 || (answer_of next ended).status == 304) ≡ false
      → IsEncodable (answer_of next ended)
      → D.marshal (answer_of next ended) ≡ some bytes
      → ltb later (ended + idempotency_ttl) ≡ true
      → let first = idempotency_middleware D rd max_body shared next r now ended fresh s in
        let second =
          idempotency_middleware D rd max_body shared' next' r later ended' fresh first.1 in
        (second.0.status ≡ first.0.status)
        × (second.0.body ≡ first.0.body)
        × (first.0.body ≡ (intercept (next r) new_response_interceptor).body)
        × (lookup (codes "Idempotent-Replayed") second.0.headers ≡ some (codes "true" ∷ []))
  unfolding response_of
  idempotency_middleware-twice F shared shared' next next' now ended later ended' s bytes on missing
        small low high bodied ascii json soon =
      let key = cache_key D scope.tenant scope.subject r in
      let fp = fingerprint_of D r in
      let c = answer_of next ended in
      let same : str_eq c.fingerprint fp ≡ true = (str_eq_iff fp fp).1 refl in
      let run =
        flight-run D key fp (next r) now ended s _ missing small
          (persist_run key bytes c _ on low high json) in
      let (d, found, alike) =
        recorded-flight D F key fp (next r) now ended later s _ c on run low high ascii soon in
      let (st, bd, after) = first_answer shared next now ended s _ c run same low in
      let (st', bd', mark) =
        replayed_answer shared' next' later ended' _ d found
          (subst (λ x. str_eq x fp ≡ true) (sym alike.fingerprint) same)
          (subst (λ n. leb 200 n ≡ true) (sym alike.status) low) in
      rw after (st' ∙ ap some alike.status ∙ sym st, bd' ∙ alike.body ∙ sym bd, bd, mark)

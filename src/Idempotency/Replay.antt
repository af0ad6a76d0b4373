-- ===== src/Idempotency/Replay.antt =====
-- idempotency.go: the recorded answers, and the interceptor beside a response writer.
use goserver.Common.{
  arith, List, false, leb, ltb, some, true, ℕ, ◌+◌, ◌≡◌, Option-cases, ap, inl, inr, sym,
  Bool-cases, Bool, [], if◌then◌else◌, length, none, ◌==◌, ◌||◌, All, refl, ◌∷◌, subst, Option, ◌<◌,
}
use goserver.Maps.{lookup}
use goserver.Text.{Str, codes, str_eq}
use goserver.Http.{Request, Writer, IdempotencyScope, get}
use goserver.Idempotency.{
  CachedResponse, ResponseInterceptor, Call, Deps, flight, idempotency_ttl, persist, recorded,
  response_of, intercept, new_response_interceptor, chunk, edit, is_safe_method, status_line,
}

-- Texts that JSON keeps: bytes of ASCII.
abbrev pub IsAscii : Str → Type 0
IsAscii s = All (λ (b : ℕ). b < 128) s

-- The names and the values of a header are ASCII.
abbrev pub IsAsciiHeader : List (Str × List Str) → Type 0
IsAsciiHeader headers = All (λ (h : Str × List Str). IsAscii h.0 × All IsAscii h.1) headers

-- A response whose header and fingerprint are ASCII, and whose body is bytes.
pub record IsEncodable (c : CachedResponse) : Type 0 where
  pub headers : IsAsciiHeader c.headers
  pub fingerprint : IsAscii c.fingerprint
  pub body : All (λ (b : ℕ). b < 256) c.body

-- Two responses alike: a header is a map, so the order of its entries is left open.
pub record Alike (a b : CachedResponse) : Type 0 where
  pub headers : (k : Str) → lookup k a.headers ≡ lookup k b.headers
  pub body : a.body ≡ b.body
  pub status : a.status ≡ b.status
  pub fingerprint : a.fingerprint ≡ b.fingerprint
  pub expires_at : a.expires_at ≡ b.expires_at

-- The cache gives back what was stored last, and the JSON of such a response is read back.
pub record IsFaithful {S : Type 0} (D : Deps S) : Type 0 where
  pub load-store : (k v : Str) (t : ℕ) (s : S) → (D.load k (D.store k v t s).1).0 ≡ some v
  pub unmarshal-marshal :
      (c : CachedResponse) (b : Str)
      → IsEncodable c
      → D.marshal c ≡ some b
      → (d : CachedResponse) × (D.unmarshal b ≡ some d) × Alike d c

-- A request that reaches the group: it has a key, its method is not safe, and no guard stops it.
pub record IsAdmitted {S : Type 0} (D : Deps S) (max_body : ℕ) (r : Request)
    (scope : IdempotencyScope) : Type 0 where
  pub has_key :
      (str_eq (get (codes "Idempotency-Key") r.headers) [] || is_safe_method r.method) ≡ false
  pub scoped : r.context.scope ≡ some scope
  pub has_subject : str_eq scope.subject [] ≡ false
  pub fits_key : ltb 256 (length (get (codes "Idempotency-Key") r.headers)) ≡ false
  pub fits_body : ltb (if max_body == 0 then 1048576 else max_body) (length r.body) ≡ false
  pub is_whole : D.is_broken r ≡ false

module _ {S : Type 0} (D : Deps S) (F : IsFaithful D) where
  persist-some : (key : Str) (a c : CachedResponse) (s : S) → (persist D key a s).0 ≡ some c → a ≡ c
  unfolding persist
  persist-some key a c s h = ground (arith, Option-cases (D.marshal a))

  persist-recorded :
      (key : Str) (a c : CachedResponse) (later : ℕ) (s s' : S)
      → D.has_cache ≡ true
      → (persist D key a s).0 ≡ some c
      → (persist D key a s).1 ≡ s'
      → leb 200 c.status ≡ true
      → ltb c.status 400 ≡ true
      → ltb later a.expires_at ≡ true
      → IsEncodable c
      → (d : CachedResponse) × (recorded D key later s' ≡ some d) × Alike d c
  unfolding persist recorded
  persist-recorded key a c later s s' on run after low high soon ascii =
      let same = persist-some key a c s run in
      let low' = subst (λ x. leb 200 x.status ≡ true) (sym same) low in
      let high' = subst (λ x. ltb x.status 400 ≡ true) (sym same) high in
      elim (Option-cases (D.marshal a)) [
        | inl e ↦ (let bad = rw (on, low', high', e) at run in cc)
        | inr (bytes, e) ↦
            let stored = rw (on, low', high', e) at after in
            let (d, read, alike) =
              F.unmarshal-marshal a bytes (subst (λ x. IsEncodable x) (sym same) ascii) e in
            let soon' = subst (λ n. ltb later n ≡ true) (sym alike.expires_at) soon in
            (
              d,
              rw (on, sym stored, F.load-store key bytes idempotency_ttl s, read, soon') refl,
              subst (λ x. Alike d x) same alike,
            )
      ]

pub flight-run :
    {S : Type 0} (D : Deps S) (key fp : Str) (calls : List Call) (now ended : ℕ) (s : S)
    (p : Option CachedResponse × S)
    → recorded D key now s ≡ none
    → (intercept calls new_response_interceptor).too_large ≡ false
    → persist D key
        (response_of D fp ended (intercept calls new_response_interceptor))
        (if D.has_cache then (D.load key s).1 else s)
      ≡ p
    → flight D key fp calls now ended s ≡ (p.0, (false, p.1))
unfolding flight
flight-run D key fp calls now ended s p e small h = simp (flight, e, small, h)

-- An answer that the run of a handler gave, not the cache, with a status from 200 to 399, a
-- header and a fingerprint of ASCII and a body of bytes is recorded: where there is a cache
-- and it gives back what was stored, the key finds it, its header as a map, until 24 hours
-- after the end of the run.
pub recorded-flight :
    {S : Type 0} (D : Deps S)
    → IsFaithful D
    → (key fp : Str) (calls : List Call) (now ended later : ℕ) (s s' : S) (c : CachedResponse)
    → D.has_cache ≡ true
    → flight D key fp calls now ended s ≡ (some c, (false, s'))
    → leb 200 c.status ≡ true
    → ltb c.status 400 ≡ true
    → IsEncodable c
    → ltb later (ended + idempotency_ttl) ≡ true
    → (d : CachedResponse) × (recorded D key later s' ≡ some d) × Alike d c
unfolding flight response_of
recorded-flight D F key fp calls now ended later s s' c on run low high ascii soon =
    elim (Option-cases (recorded D key now s)) [
      | inr (a, e) ↦ (let bad = ap (λ p. p.1.0) (rw (flight, e) at run) in cc)
      | inl e ↦ elim (Bool-cases (intercept calls new_response_interceptor).too_large) [
        | inl big ↦ (let bad = ap (λ p. p.0) (rw (flight, e, big) at run) in cc)
        | inr small ↦
            let ran = flight-run D key fp calls now ended s _ e small refl in
            persist-recorded D F key _ c later _ s' on (ap (λ p. p.0) (rw ran at run))
              (ap (λ p. p.1.1) (rw ran at run)) low high soon ascii
      ]
    ]

-- The interceptor holds the headers, the body and the status of the writer.
pub Agrees : ResponseInterceptor → Writer → Type 0
Agrees i w =
    (i.header ≡ w.headers)
    × ((i.body ≡ w.body) × (w.status ≡ (if i.wrote_header then some i.status else none)))

-- The header is changed only while no final status and no chunk is written.
unfoldable pub EditsFirst : Bool → List Call → Type 0
EditsFirst begun [] = Unit {0}
EditsFirst begun (edit f ∷ cs) = (begun ≡ false) × EditsFirst begun cs
EditsFirst begun (status_line code ∷ cs) = EditsFirst (leb 200 code || begun) cs
EditsFirst begun (chunk b ∷ cs) = EditsFirst true cs

-- a status of three digits that does not switch the protocol and allows a body
unfoldable pub IsPlainCall : Call → Type 0
IsPlainCall (status_line code) =
    (leb 100 code ≡ true)
    × ((code == 101) ≡ false)
    × (ltb code 1000 ≡ true)
    × ((code == 204 || code == 304) ≡ false)
IsPlainCall (edit f) = Unit {0}
IsPlainCall (chunk b) = Unit {0}

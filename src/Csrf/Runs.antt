-- ===== src/Csrf/Runs.antt =====
-- csrf.go: `CSRFMiddleware` on the requests of a server's life, from the empty map of decisions on,
-- beside a version without the map that is told which origins are trusted.
use mathlib.Core.List.{reverse-append}
use goserver.Common.{
  arith, Bool, Bool-cases, List, Option, [], any, false, inl, inr, map, reverse, some, sym, true,
  ◌++◌, ◌∙◌, ◌∷◌, ◌≡◌, ◌⊎◌, ◌↔◌, refl,
}
use goserver.Maps.{lookup}
use goserver.Text.{Str, codes, has_prefix, has_suffix, member, str_eq}
use goserver.Text.Compare.{str_eq_iff}
use goserver.Http.{Handler, Middleware, Request, Writer, get}
use goserver.Csrf.{Origin, Trusted, WildcardOrigin, csrf_middleware, is_trusted, match_origin}
use goserver.Csrf.Laws.{
  IsValid, csrf_middleware-IsValid, csrf_middleware-uncached, match_origin_sound, uncached,
}

-- Some element has the property.
abbrev pub Some : {A : Type 0} → (A → Type 0) → List A → Type 0
Some P [] = ⊥
Some P (x ∷ xs) = P x ⊎ Some P xs

any-Some :
    {A : Type 0} (P : A → Type 0) (f : A → Bool)
    → ((x : A) → (f x ≡ true) ↔ P x)
    → (xs : List A) → (any f xs ≡ true) ↔ Some P xs
any-Some P f h [] = (λ e. absurd (ground arith), λ k. absurd k)
any-Some P f h (x ∷ xs) = (
  λ e. elim (Bool-cases (f x)) [
    | inl yes_here ↦ inl ((h x).0 yes_here)
    | inr no_here ↦ inr ((any-Some P f h xs).0 (ground (arith, e, no_here)))
  ],
  λ k. elim k [
    | inl here ↦ (let t = (h x).1 here in ground (arith, t))
    | inr more ↦ (let t = (any-Some P f h xs).1 more in ground (arith, t))
  ],
)

member-Some : (s : Str) (xs : List Str) → (member s xs ≡ true) ↔ Some (λ x. s ≡ x) xs
unfolding member
member-Some s [] = (λ e. absurd (ground arith), λ k. absurd k)
member-Some s (x ∷ xs) = (
  λ e. elim (Bool-cases (str_eq s x)) [
    | inl same ↦ inl ((str_eq_iff s x).0 same)
    | inr apart ↦ inr ((member-Some s xs).0 (ground (arith, e, apart)))
  ],
  λ k. elim k [
    | inl here ↦ (let t = (str_eq_iff s x).1 here in ground (arith, t))
    | inr more ↦ (let t = (member-Some s xs).1 more in ground (arith, t))
  ],
)

has_prefix-append : (p s : Str) → has_prefix (p ++ s) p ≡ true
unfolding has_prefix
has_prefix-append [] s = ground arith
has_prefix-append (c ∷ p) s = ground (arith, has_prefix-append p s)

has_suffix-append : (s p : Str) → has_suffix (s ++ p) p ≡ true
unfolding has_suffix
has_suffix-append s p = rw (reverse-append s p) (has_prefix-append (reverse p) (reverse s))

-- An origin that a rule trusts: it parses, with the scheme of the rule, and its host is the domain
-- of the rule or ends in a dot and that domain.
pub record IsCovered (parse : Str → Option Origin) (origin : Str) (rule : WildcardOrigin)
    : Type 0 where
  pub parsed : Origin
  pub parse_eq : parse origin ≡ some parsed
  pub scheme_eq : parsed.scheme ≡ rule.scheme
  pub host :
      (parsed.hostname ≡ rule.pattern)
      ⊎ ((sub : Str) × (parsed.hostname ≡ sub ++ b'.' ∷ rule.pattern))

match_origin-IsCovered :
    (parse : Str → Option Origin) (origin : Str) (rule : WildcardOrigin)
    → (match_origin parse rule origin ≡ true) ↔ IsCovered parse origin rule
unfolding match_origin
match_origin-IsCovered parse origin rule = (
  λ e.
      (let (u, p, s, h) = match_origin_sound parse rule origin e in
        record { parsed = u; parse_eq = p; scheme_eq = s; host = h }),
  λ k.
      (let same = (str_eq_iff k.parsed.scheme rule.scheme).1 k.scheme_eq in
        rw (match_origin, k.parse_eq, same)
          (elim k.host [
            | inl e ↦ (let t = (str_eq_iff k.parsed.hostname rule.pattern).1 e in ground (arith, t))
            | inr (sub, e) ↦
                (let t : has_suffix k.parsed.hostname (b'.' ∷ rule.pattern) ≡ true =
                    rw e (has_suffix-append sub (b'.' ∷ rule.pattern)) in
                  ground (arith, t))
          ])),
)

-- A trusted origin stands in the list of exact ones, or a rule with a wildcard trusts it.
abbrev pub Trusts : (Str → Option Origin) → Trusted → Str → Type 0
Trusts parse t origin = Some (IsCovered parse origin) t.wildcards ⊎ Some (λ x. origin ≡ x) t.exact

is_trusted-Trusts :
    (parse : Str → Option Origin) (t : Trusted) (origin : Str)
    → (is_trusted parse t origin ≡ true) ↔ Trusts parse t origin
unfolding is_trusted
is_trusted-Trusts parse t origin =
    let wild =
      any-Some (IsCovered parse origin) (λ rule. match_origin parse rule origin)
        (match_origin-IsCovered parse origin) t.wildcards in
    let exact = member-Some origin t.exact in
    (
      λ e. elim (Bool-cases (any (λ rule. match_origin parse rule origin) t.wildcards)) [
        | inl yes_here ↦ inl (wild.0 yes_here)
        | inr no_here ↦ inr (exact.0 (ground (arith, e, no_here)))
      ],
      λ k. elim k [
        | inl w ↦ (let e = wild.1 w in ground (arith, e))
        | inr m ↦ (let e = exact.1 m in ground (arith, e))
      ],
    )

Bool-iff : (a b : Bool) (P : Type 0) → (a ≡ true) ↔ P → (b ≡ true) ↔ P → a ≡ b
Bool-iff true true P f g = refl
Bool-iff true false P f g = sym (g.1 (f.0 refl))
Bool-iff false true P f g = f.1 (g.0 refl)
Bool-iff false false P f g = refl

module _ (parse : Str → Option Origin) (protect : Middleware) (t : Trusted) (next : Handler) where
  -- The answers to requests one after the other, with the map of decisions between them.
  unfoldable pub answers : List (Request × Writer) → List (Str × Bool) → List Writer
  answers [] cache = []
  answers ((r, w) ∷ arrivals) cache =
      let a = csrf_middleware parse protect t next r w cache in a.0 ∷ answers arrivals a.1

  answers-uncached :
      (arrivals : List (Request × Writer)) (cache : List (Str × Bool))
      → IsValid parse t cache
      → answers arrivals cache
        ≡ map
            (λ (a : Request × Writer). uncached (is_trusted parse t) protect t next a.0 a.1)
            arrivals
  unfolding answers
  answers-uncached [] cache v = refl
  answers-uncached ((r, w) ∷ arrivals) cache v =
      rw
        (
          csrf_middleware-uncached parse protect t next r w cache v,
          answers-uncached arrivals _ (csrf_middleware-IsValid parse protect t next r w cache v),
        )
        refl

  uncached_same :
      (f g : Str → Bool) (arrivals : List (Request × Writer))
      → ((origin : Str) → f origin ≡ g origin)
      → map (λ (a : Request × Writer). uncached f protect t next a.0 a.1) arrivals
        ≡ map (λ (a : Request × Writer). uncached g protect t next a.0 a.1) arrivals
  unfolding uncached
  uncached_same f g [] h = refl
  uncached_same f g ((r, w) ∷ arrivals) h =
      rw (h (get (codes "Origin") r.headers), uncached_same f g arrivals h) refl

  -- The answers to any sequence of requests, from the empty map of decisions on, are those of
  -- the middleware without a map that is told which origins are trusted: those in the list of
  -- exact origins, and those that parse with the scheme of a rule with a wildcard and a host
  -- that is its domain or ends in a dot and its domain.
  pub csrf_middleware-run :
      (trusts : Str → Bool) (arrivals : List (Request × Writer))
      → ((origin : Str) → (trusts origin ≡ true) ↔ Trusts parse t origin)
      → answers arrivals []
        ≡ map (λ (a : Request × Writer). uncached trusts protect t next a.0 a.1) arrivals
  csrf_middleware-run trusts arrivals h =
      answers-uncached arrivals [] (λ origin b e. absurd (unfold lookup in ground arith))
      ∙ uncached_same (is_trusted parse t) trusts arrivals
          (λ origin. Bool-iff _ _ _ (is_trusted-Trusts parse t origin) (h origin))

-- ===== src/Web/Rules/Choice.antt =====
-- web_framework.go: which rule `routeRule` chooses.
use goserver.Common.{
  arith, List, [], ◌∷◌, ◌≡◌, ◌≤◌, ◌⊎◌, ℕ, true, false, some, get_elem?, length, if_intro, inl, inr,
  null, not, ltb, zero, suc, refl, ◌&&◌, nil_of_null, some_inj, subst, sym,
}
use goserver.Text.{Str}
use goserver.Web.Rules.{
  RouteRule, no_rule, route_pattern_match, route_rule_excluded, best_rule, route_rule,
}

-- A rule's pattern matches, and none that it excludes does.
abbrev pub Applies : Str → Str × RouteRule → Type 0
Applies path entry =
    (route_pattern_match entry.0 path ≡ true) × (route_rule_excluded entry.1 path ≡ false)

-- No rule that applies has a pattern longer than this one.
abbrev pub Longest : Str → List (Str × RouteRule) → Str → Type 0
Longest path rules best =
    (i : ℕ) (entry : Str × RouteRule)
    → get_elem? rules i ≡ some entry
    → Applies path entry
    → length (entry.0) ≤ length best

-- Where the result of the loop may come from.
abbrev pub Origin : Str → List (Str × RouteRule) → Str × RouteRule → Type 0
Origin path rules found = (i : ℕ) × (get_elem? rules i ≡ some found) × Applies path found

-- What the loop returns: the start, or a rule that applies and is longer, and the longest.
record IsBest (path : Str) (rules : List (Str × RouteRule)) (start found : Str × RouteRule)
    : Type 0 where
  longest : Longest path rules found.0
  grown : length (start.0) ≤ length (found.0)
  origin : (found ≡ start) ⊎ Origin path rules found

Longest-cons :
    (path : Str) (head : Str × RouteRule) (rules : List (Str × RouteRule)) (best : Str)
    → (Applies path head → length (head.0) ≤ length best)
    → Longest path rules best
    → Longest path (head ∷ rules) best
Longest-cons path head rules best h k zero entry e a =
    let same = some_inj e in
    subst (λ (x : Str × RouteRule). length (x.0) ≤ length best) same
      (h (subst (λ (x : Str × RouteRule). Applies path x) (sym same) a))
Longest-cons path head rules best h k (suc i) entry e a = k i entry e a

origin_here :
    (path : Str) (head : Str × RouteRule) (rules : List (Str × RouteRule)) (found : Str × RouteRule)
    → Applies path head
    → (found ≡ head) ⊎ Origin path rules found
    → Origin path (head ∷ rules) found
origin_here path head rules found a (inl e) =
    subst
      (λ (x : Str × RouteRule). (i : ℕ) × (get_elem? (head ∷ rules) i ≡ some x) × Applies path x)
      (sym e) (0, refl, a)
origin_here path head rules found a (inr (i, e, b)) = (suc i, e, b)

origin_there :
    (path : Str) (head : Str × RouteRule) (rules : List (Str × RouteRule)) (found : Str × RouteRule)
    → Origin path rules found
    → Origin path (head ∷ rules) found
origin_there path head rules found (i, e, b) = (suc i, e, b)

best_rule-IsBest :
    (path : Str) (rules : List (Str × RouteRule)) (best : Str) (rule : RouteRule)
    → IsBest path rules (best, rule) (best_rule path rules best rule)
unfolding best_rule
best_rule-IsBest path [] best rule = record {
  longest = λ i entry e a. cc;
  grown = omega arith;
  origin = inl refl;
}
best_rule-IsBest path ((pattern, candidate) ∷ rules) best rule =
    let taken = best_rule-IsBest path rules pattern candidate in
    let kept = best_rule-IsBest path rules best rule in
    if_intro (IsBest path ((pattern, candidate) ∷ rules) (best, rule))
      (route_pattern_match pattern path
        && not (route_rule_excluded candidate path)
        && ltb (length best) (length pattern))
      (best_rule path rules pattern candidate) (best_rule path rules best rule)
      (λ yes_taken. record {
        longest = Longest-cons path (pattern, candidate) rules _ (λ _. taken.grown) taken.longest;
        grown = ground (arith, yes_taken, taken.grown);
        origin = inr (
            origin_here path (pattern, candidate) rules _ (ground (arith, yes_taken)) taken.origin);
      })
      (λ no_taken. record {
        longest =
            Longest-cons path (pattern, candidate) rules _
              (λ a. ground (arith, no_taken, a.0, a.1, kept.grown)) kept.longest;
        grown = kept.grown;
        origin = elim kept.origin [
          | inl e ↦ inl e
          | inr o ↦ inr (origin_there path (pattern, candidate) rules _ o)
        ];
      })

-- Where a rule is found for a path, it is the rule of a pattern that matches the path, it does
-- not exclude the path, and no rule with a longer pattern matches the path without excluding
-- it.
pub route_rule_found :
    (rules : List (Str × RouteRule)) (path : Str)
    → (route_rule rules path).1 ≡ true
    → (pattern : Str) × Origin path rules (pattern, (route_rule rules path).0)
      × Longest path rules pattern
unfolding route_rule
route_rule_found rules path h =
    let b = best_rule-IsBest path rules [] no_rule in
    elim b.origin [
      | inl e ↦
          absurd (let bad = subst (λ (x : Str × RouteRule). not (null (x.0)) ≡ true) e h in cc)
      | inr o ↦ ((best_rule path rules [] no_rule).0, o, b.longest)
    ]

-- Where no rule is found, no pattern of a rule that applies has a byte.
route_rule_missing :
    (rules : List (Str × RouteRule)) (path : Str)
    → (route_rule rules path).1 ≡ false
    → Longest path rules []
unfolding route_rule
route_rule_missing rules path h =
    let b = best_rule-IsBest path rules [] no_rule in
    subst (λ x. Longest path rules x) (nil_of_null _ (ground (arith, h))) b.longest

-- ===== src/Proxies/Rotation.antt =====
-- proxymanager.go: the search of `GetRandomProxy`, and `MarkBad`.
use native.Mathlib.Decide.{ℕ_discrete, dec_le}
use native.Mathlib.Nat.{mod-eq_of_lt}
use goserver.Common.{
  arith, Bool-cases, List, Option-cases, [], ap, false, get_elem?, if◌then◌else◌, inl, inr, length,
  none, refl, some, some_inj, subst, suc, sym, true, zero, ℕ, ◌%◌, ◌+◌, ◌<◌, ◌∙◌, ◌∷◌, ◌≡◌, ◌≢◌,
  ◌≤◌, null, ◌-◌,
}
use goserver.Text.{Str, str_eq}
use goserver.Maps.{lookup-insert}
use goserver.Proxies.{ProxyManager, get_random_proxy, is_usable, mark_bad, pick}

pick_sound :
    (m : ProxyManager) (now start rounds i : ℕ) (p : Str)
    → pick m now start rounds i ≡ some p
    → (k : ℕ) × (get_elem? m.proxies k ≡ some p) × (is_usable m now p ≡ true)
unfolding pick
pick_sound m now start zero i p h = cc
pick_sound m now start (suc rounds) i p h =
    let k = (start + i) % length m.proxies in
    elim (Option-cases (get_elem? m.proxies k)) [
      | inl e ↦ absurd (ground arith)
      | inr (q, e) ↦ elim (Bool-cases (is_usable m now q)) [
        | inl u ↦
            let same : q ≡ p = some_inj (rw (e, pick, u) at h) in
            (k, e ∙ ap some same, subst (λ x. is_usable m now x ≡ true) same u)
        | inr n ↦ pick_sound m now start rounds (i + 1) p (rw (e, pick, n) at h)
      ]
    ]

get_elem?-in_range : (xs : List Str) (i : ℕ) → i < length xs → (x : Str) × (get_elem? xs i ≡ some x)
get_elem?-in_range [] i h = elim h [ ]
get_elem?-in_range (x ∷ xs) zero h = (x, refl)
get_elem?-in_range (x ∷ xs) (suc i) h = get_elem?-in_range xs i (omega arith)

-- Where the search fails, every place that it passed holds a banned proxy.
pick-none :
    (m : ProxyManager) (now start rounds i j : ℕ) (p : Str)
    → 0 < length m.proxies
    → pick m now start rounds i ≡ none
    → i ≤ j
    → j < i + rounds
    → get_elem? m.proxies ((start + j) % length m.proxies) ≡ some p
    → is_usable m now p ≡ false
unfolding pick
pick-none m now start zero i j p pos h low high at_j = absurd (omega arith)
pick-none m now start (suc rounds) i j p pos h low high at_j =
    let k = (start + i) % length m.proxies in
    let (q, e) = get_elem?-in_range m.proxies k (grind arith) in
    elim (Bool-cases (is_usable m now q)) [
      | inl u ↦ absurd (ground arith)
      | inr n ↦ elim (ℕ_discrete i j) [
        | yes same ↦
            let e' : get_elem? m.proxies ((start + j) % length m.proxies) ≡ some q =
              subst (λ t. get_elem? m.proxies ((start + t) % length m.proxies) ≡ some q) same e in
            subst (λ x. is_usable m now x ≡ false) (some_inj (sym e' ∙ at_j)) n
        | no other ↦
            pick-none m now start rounds (i + 1) j p pos (rw (e, pick, n) at h) (omega arith)
              (omega arith) at_j
      ]
    ]

-- A proxy that is returned is one of the pool and is not banned.
get_random_proxy_sound :
    (start now : ℕ) (m : ProxyManager) (p : Str)
    → get_random_proxy start now m ≡ some p
    → (k : ℕ) × (get_elem? m.proxies k ≡ some p) × (is_usable m now p ≡ true)
unfolding get_random_proxy
get_random_proxy_sound start now m p h =
    pick_sound m now start (length m.proxies) 0 p (ground arith)

get_elem?-lt : (xs : List Str) (i : ℕ) (x : Str) → get_elem? xs i ≡ some x → i < length xs
get_elem?-lt [] i x h = cc
get_elem?-lt (y ∷ xs) zero x h = omega arith
get_elem?-lt (y ∷ xs) (suc i) x h = omega (arith, get_elem?-lt xs i x h)

not_null : {i : ℕ} (xs : List Str) → i < length xs → null xs ≡ false
not_null [] h = elim h [ ]
not_null (x ∷ xs) h = refl

place : (start n k : ℕ) → start < n → k < n → (j : ℕ) × (j < n) × ((start + j) % n ≡ k)
place start n k hs hk = elim (dec_le start k) [
  | yes h ↦
      let e : start + (k - start) ≡ k = omega arith in
      (k - start, omega arith, rw (e, mod-eq_of_lt hk))
  | no h ↦
      let e : start + (n - start + k) ≡ n + k = omega arith in
      (n - start + k, omega arith, rw e (grind arith))
]

-- Whatever the start index within the pool, the search does not fail while some proxy of the
-- pool is usable.
pub get_random_proxy_complete :
    (start now k : ℕ) (m : ProxyManager) (p : Str)
    → start < length m.proxies
    → get_elem? m.proxies k ≡ some p
    → is_usable m now p ≡ true
    → get_random_proxy start now m ≢ none
unfolding get_random_proxy
get_random_proxy_complete start now k m p hs at_k usable = λ failed.
    let (j, small, at_j) = place start (length m.proxies) k hs (get_elem?-lt m.proxies k p at_k) in
    let here : get_elem? m.proxies ((start + j) % length m.proxies) ≡ some p =
      ap (get_elem? m.proxies) at_j ∙ at_k in
    let ran : pick m now start (length m.proxies) 0 ≡ none =
      rw (not_null m.proxies hs, get_random_proxy) at failed in
    ground (
      arith,
      usable,
      pick-none m now start (length m.proxies) 0 j p (omega arith) ran (omega arith) (omega arith)
          here,
    )

-- A proxy that is marked bad is not usable until the time is over, and the others keep their
-- state.
pub is_usable-mark_bad :
    (m : ProxyManager) (u p : Str) (marked now : ℕ)
    → now ≤ marked + m.bad_duration
    → is_usable (mark_bad (some u) marked m) now p
      ≡ (if str_eq u p then false else is_usable m now p)
unfolding is_usable mark_bad
is_usable-mark_bad m u p marked now soon = ground (arith, lookup-insert u p marked m.bad_proxies)

-- ===== src/Web/States/Room.antt =====
-- web_framework.go: how many states the store holds, and that its loop makes room.
use goserver.Common.{
  arith, List, [], is_some, length, none, true, ◌+◌, ◌<◌, ◌∷◌, ◌≡◌, ◌≤◌, Bool-cases, Option-cases,
  false, inl, inr, refl, suc, zero, ℕ, if_intro, leb, ltb, subst, ◌++◌, Bool, if◌then◌else◌, Option,
  some, ◌||◌, if_ap,
}
use goserver.Text.{Str, member, str_eq}
use goserver.Text.Compare.{str_eq_iff, str_eq_refl, member-append}
use goserver.Maps.{lookup, insert, delete, lookup-delete, lookup-insert, lookup-insert_self}
use goserver.Web.States.{
  StateEntry, StateStore, discard_from, discard_oldest, make_room, runtime_state_limit, prune_from,
  is_prune_due, prune_expired, put, get, runtime_state_ttl,
}

length-nil : (order : List Str) → length order ≤ 0 → order ≡ []
length-nil [] h = refl
length-nil (t ∷ order) h = absurd (omega arith)

module _ {Props : Type 0} where
  -- Every token with an entry stands in the order.
  abbrev pub Covers : List Str → List (Str × StateEntry Props) → Type 0
  Covers order entries = (t : Str) → is_some (lookup t entries) ≡ true → member t order ≡ true

  length-delete_le : (k : Str) (m : List (Str × StateEntry Props)) → length (delete k m) ≤ length m
  unfolding delete
  length-delete_le k [] = omega arith
  length-delete_le k ((j, v) ∷ m) = ground (arith, length-delete_le k m)

  length-delete_found :
      (k : Str) (m : List (Str × StateEntry Props))
      → is_some (lookup k m) ≡ true
      → length (delete k m) < length m
  unfolding delete lookup
  length-delete_found k [] h = cc
  length-delete_found k ((j, v) ∷ m) h =
      ground (arith, length-delete_le k m, length-delete_found k m)

  length-insert_le :
      (k : Str) (v : StateEntry Props) (m : List (Str × StateEntry Props))
      → length (insert k v m) ≤ length m + 1
  unfolding insert
  length-insert_le k v [] = omega arith
  length-insert_le k v ((j, w) ∷ m) = ground (arith, length-insert_le k v m)

  Covers-tail :
      (t : Str) (order : List Str) (entries : List (Str × StateEntry Props))
      → Covers (t ∷ order) entries
      → Covers order (delete t entries)
  unfolding member
  Covers-tail t order entries c u h =
      ground (arith, c u, lookup-delete t u entries, str_eq_iff u t, str_eq_iff t u)

  Covers-skip :
      (t : Str) (order : List Str) (entries : List (Str × StateEntry Props))
      → Covers (t ∷ order) entries
      → lookup t entries ≡ none
      → Covers order entries
  unfolding member
  Covers-skip t order entries c e u h = elim (Bool-cases (str_eq u t)) [
    | inl same ↦ (let bad = rw ((str_eq_iff u t).0 same, e) at h in cc)
    | inr other ↦ ground (arith, c u h, other)
  ]

  Covers-nil : (entries : List (Str × StateEntry Props)) → Covers [] entries → entries ≡ []
  unfolding member lookup
  Covers-nil [] c = refl
  Covers-nil ((k, v) ∷ m) c = absurd (ground (arith, c k, str_eq_refl k))

  discard-Covers :
      (order : List Str) (entries : List (Str × StateEntry Props))
      → Covers order entries
      → Covers (discard_from order entries).1 (discard_from order entries).2
  unfolding discard_from
  discard-Covers [] entries c = c
  discard-Covers (t ∷ order) entries c = elim (Option-cases (lookup t entries)) [
    | inr (v, e) ↦ rw (discard_from, e) (Covers-tail t order entries c)
    | inl e ↦ rw (discard_from, e) (discard-Covers order entries (Covers-skip t order entries c e))
  ]

  discard_found :
      (order : List Str) (entries : List (Str × StateEntry Props))
      → (discard_from order entries).0 ≡ true
      → length (discard_from order entries).1 < length order
  unfolding discard_from
  discard_found [] entries h = cc
  discard_found (t ∷ order) entries h = elim (Option-cases (lookup t entries)) [
    | inr (v, e) ↦ rw (discard_from, e) (omega arith)
    | inl e ↦
        (let rest = discard_found order entries (rw (discard_from, e) at h) in
          rw (discard_from, e) (omega (arith, rest)))
  ]

  discard_missed :
      (order : List Str) (entries : List (Str × StateEntry Props))
      → (discard_from order entries).0 ≡ false
      → ((discard_from order entries).1 ≡ []) × ((discard_from order entries).2 ≡ entries)
  unfolding discard_from
  discard_missed [] entries h = (refl, refl)
  discard_missed (t ∷ order) entries h = elim (Option-cases (lookup t entries)) [
    | inr (v, e) ↦ (let bad = rw (discard_from, e) at h in cc)
    | inl e ↦
        (let rest = discard_missed order entries (rw (discard_from, e) at h) in
          rw (discard_from, e) rest)
  ]

  -- The tokens with an entry stand in the order, and the entries keep the limit.
  pub record IsValid (s : StateStore Props) : Type 0 where
    pub covered : Covers s.order s.entries
    pub bounded : length s.entries ≤ runtime_state_limit

  -- The order covers the entries, and there is room for one more.
  abbrev pub IsRoomy : StateStore Props → Type 0
  IsRoomy s = Covers s.order s.entries × (length s.entries < runtime_state_limit)

  IsRoomy-of_nil : (s : StateStore Props) → s.order ≡ [] → Covers s.order s.entries → IsRoomy s
  IsRoomy-of_nil s e c =
      (c, rw (Covers-nil s.entries (subst (λ o. Covers o s.entries) e c)) (omega arith))

  -- Where every token with an entry stands in the order, as many turns of the loop as the
  -- order has tokens leave fewer entries than the limit, and every token with an entry in the
  -- order.
  pub make_room-IsRoomy :
      (fuel : ℕ) (s : StateStore Props)
      → Covers s.order s.entries
      → length s.order ≤ fuel
      → IsRoomy (make_room fuel s)
  unfolding make_room discard_oldest
  make_room-IsRoomy zero s c h = IsRoomy-of_nil s (length-nil s.order h) c
  make_room-IsRoomy (suc fuel) s c h =
      let d = discard_from s.order s.entries in
      let s' = (discard_oldest s).1 in
      let c' = discard-Covers s.order s.entries c in
      if_intro IsRoomy (leb runtime_state_limit (length s.entries)) _ _
        (λ full.
          if_intro IsRoomy d.0 _ _
            (λ found.
              make_room-IsRoomy fuel s' c' (omega (arith, discard_found s.order s.entries found)))
            (λ missed. IsRoomy-of_nil s' (discard_missed s.order s.entries missed).0 c'))
        (λ free. (c, ground (arith, free)))

  prune-Covers :
      (now : ℕ) (order : List Str) (entries : List (Str × StateEntry Props))
      → Covers order entries
      → Covers (prune_from now order entries).0 (prune_from now order entries).1
  unfolding prune_from
  prune-Covers now [] entries c = c
  prune-Covers now (t ∷ order) entries c = elim (Option-cases (lookup t entries)) [
    | inl e ↦ rw (prune_from, e) (prune-Covers now order entries (Covers-skip t order entries c e))
    | inr (v, e) ↦
        rw (prune_from, e)
          (if_intro (λ (r : List Str × List (Str × StateEntry Props)). Covers r.0 r.1)
            (ltb now v.expires) _ _ (λ _. c)
            (λ _. prune-Covers now order (delete t entries) (Covers-tail t order entries c)))
  ]

  Covers-insert :
      (t : Str) (v : StateEntry Props) (order : List Str) (entries : List (Str × StateEntry Props))
      → Covers order entries
      → Covers (order ++ t ∷ []) (insert t v entries)
  unfolding member
  Covers-insert t v order entries c u h = ground (
    arith,
    c u,
    lookup-insert t u v entries,
    member-append u order (t ∷ []),
    str_eq_iff t u,
    str_eq_iff u t,
  )

  -- After a state is put, the store keeps its limit and its order covers the entries.
  put-IsValid :
      (clone : Props → Props) (token owner : Str) (props : Props) (trusted : Bool) (now : ℕ)
      (s : StateStore Props)
      → Covers s.order s.entries
      → IsValid (put clone token owner props trusted now s)
  unfolding put prune_expired
  put-IsValid clone token owner props trusted now s c =
      let pruned = if is_prune_due now s then prune_expired now s else s in
      let c' =
        if_intro (λ (x : StateStore Props). Covers x.order x.entries) (is_prune_due now s)
          (prune_expired now s) s (λ _. prune-Covers now s.order s.entries c) (λ _. c) in
      let fit = make_room-IsRoomy (length pruned.order) pruned c' (omega arith) in
      record {
        covered = Covers-insert token _ _ _ fit.0;
        bounded = omega (
          arith,
          fit.1,
          length-insert_le token _ (make_room (length pruned.order) pruned).entries,
        );
      }

  Covers-delete :
      (t : Str) (order : List Str) (entries : List (Str × StateEntry Props))
      → Covers order entries
      → Covers order (delete t entries)
  Covers-delete t order entries c u h = ground (arith, c u, lookup-delete t u entries)

  -- So does it after a lookup, which may remove an entry that has expired.
  get-IsValid :
      (clone : Props → Props) (owner token : Str) (now : ℕ) (s : StateStore Props)
      → IsValid s
      → IsValid (get clone owner token now s).1
  unfolding get
  get-IsValid clone owner token now s v =
      let P = λ (r : Option Props × StateStore Props). IsValid r.1 in
      if_intro P (str_eq token [] || ltb 128 (length token)) _ _ (λ _. v)
        (λ _. elim (Option-cases (lookup token s.entries)) [
          | inl e ↦ rw e v
          | inr (entry, e) ↦ rw e (
              if_intro P (ltb now entry.expires) _ _ (λ _. v)
                (λ _. record {
                  covered = Covers-delete token s.order s.entries v.covered;
                  bounded = omega (arith, v.bounded, length-delete_le token s.entries);
                }))
        ])

  -- A state that was put under a token of 1 to 128 bytes is read back, until its expiry and by
  -- its owner only, as its copy; nothing is read after the expiry or by others.
  pub get-put :
      (clone : Props → Props) (token owner other : Str) (props : Props) (now later : ℕ)
      (s : StateStore Props)
      → (str_eq token [] || ltb 128 (length token)) ≡ false
      → (get clone other token later (put clone token owner props false now s)).0 ≡ (
          if ltb later (now + runtime_state_ttl)
          then (if str_eq owner other then some (clone (clone props)) else none)
          else none)
  unfolding get put
  get-put clone token owner other props now later s h =
      rw (h, lookup-insert_self)
        (if_ap (λ (r : Option Props × StateStore Props). r.0) (ltb later (now + runtime_state_ttl))
          _ _)

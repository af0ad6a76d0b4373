-- ===== src/Web/Css/Sizes.antt =====
-- web_framework.go: the sizes of the chunks of `buildCSSChunks`.
use mathlib.Core.List.{reverse-cons}
use goserver.Common.{
  arith, ℕ, List, [], ◌∷◌, ◌++◌, ◌≡◌, ◌≤◌, ◌+◌, ◌-◌, ◌⊎◌, ◌&&◌, ◌||◌, length, length-append, All,
  All-append, null, true, false, inl, inr, if_intro, ltb, leb, refl, map, reverse, Bool-cases, sym,
  ◌∙◌, nil_of_null, ap,
}
use goserver.Text.{Str, join, trim_space, trim, trim_left, trim_right, is_space, member}
use goserver.Text.Compare.{str_eq_refl}
use goserver.Web.Css.{
  CssScan, css_step, add_unit, units_from, split_css_units, all_css, all_units, chunk_size, flush,
  fill_chunks, borrow, balance, pack_units, max_chunk, min_chunk, build_css_chunks,
}
use goserver.Text.Ink.{ink}
use goserver.Web.Css.Lossless.{ink-all_css, ink-all_units}

chunk_size-append : (xs ys : List Str) → chunk_size (xs ++ ys) ≡ chunk_size xs + chunk_size ys
unfolding chunk_size
chunk_size-append [] ys = omega arith
chunk_size-append (x ∷ xs) ys = omega (arith, chunk_size-append xs ys)

chunk_size-snoc : (xs : List Str) (x : Str) → chunk_size (xs ++ x ∷ []) ≡ chunk_size xs + length x
unfolding chunk_size
chunk_size-snoc xs x = omega (arith, chunk_size-append xs (x ∷ []))

chunk_size-reverse : (xs : List Str) → chunk_size (reverse xs) ≡ chunk_size xs
unfolding chunk_size
chunk_size-reverse [] = refl
chunk_size-reverse (x ∷ xs) =
    rw (reverse-cons x xs, chunk_size-append (reverse xs) (x ∷ []), chunk_size-reverse xs)
      (omega arith)

length-join : (chunk : List Str) → length (join [] chunk) ≡ chunk_size chunk
unfolding join chunk_size
length-join [] = refl
length-join (x ∷ []) = omega arith
length-join (x ∷ y ∷ chunk) =
    omega (arith, length-append x (join [] (y ∷ chunk)), length-join (y ∷ chunk))

join_one : (x : Str) → join [] (x ∷ []) ≡ x
unfolding join
join_one x = refl

-- No unit is empty.
abbrev Full : Str → Type 0
Full unit = null unit ≡ false

module _ (max : ℕ) (Q : Str → Type 0) where
  -- A chunk within the limit, or of one unit.
  abbrev Small : List Str → Type 0
  Small chunk = (chunk_size chunk ≤ max) ⊎ ((unit : Str) × (chunk ≡ unit ∷ []) × Q unit)

  flush-Small :
      (current : List Str) (chunks : List (List Str))
      → (null current ≡ true) ⊎ Small current
      → All Small chunks
      → All Small (flush current chunks)
  unfolding flush
  flush-Small [] chunks h k = k
  flush-Small (unit ∷ current) chunks (inr h) k = (h, k)
  flush-Small (unit ∷ current) chunks (inl h) k = cc

  grown :
      (current : List Str) (unit : Str)
      → (null current ≡ true) ⊎ Small current
      → All Full current
      → (ltb 0 (chunk_size current) && ltb max (chunk_size current + length unit)) ≡ false
      → Q unit
      → Small (current ++ unit ∷ [])
  unfolding chunk_size
  grown [] unit h full low q = inr (unit, refl, q)
  grown ([] ∷ current) unit h (f, full) low q = cc
  grown ((c ∷ u) ∷ current) unit h full low q =
      inl (ground (arith, low, chunk_size-append current (unit ∷ [])))

  fill_chunks-Small :
      (units current : List Str) (size : ℕ)
      → size ≡ chunk_size current
      → (null current ≡ true) ⊎ Small current
      → All Full current
      → All Full units
      → All Q units
      → All Small (fill_chunks max units current size)
  unfolding fill_chunks
  fill_chunks-Small [] current size s h f fs qs = flush-Small current [] h tt
  fill_chunks-Small (unit ∷ units) current size s h f (fu, fs) (q, qs) =
      if_intro (All Small) (ltb 0 size && ltb max (size + length unit)) _ _
        (λ _. flush-Small current _ h (
          fill_chunks-Small units (unit ∷ []) (length unit) (unfold chunk_size in omega arith)
            (inr (inr (unit, refl, q))) (fu, tt) fs qs))
        (λ low.
          fill_chunks-Small units (current ++ unit ∷ []) (size + length unit)
            (omega (arith, s, chunk_size-snoc current unit))
            (inr (grown current unit h f (rw s at low) q))
            (All-append Full current (unit ∷ []) f (fu, tt)) fs qs)

  borrow-Small :
      (min : ℕ) (previous last : List Str)
      → Small previous
      → Small last
      → Small (borrow min max previous last).0 × Small (borrow min max previous last).1
  unfolding borrow chunk_size
  borrow-Small min [] last p l = (p, l)
  borrow-Small min (unit ∷ []) last p l = (p, l)
  borrow-Small min (unit ∷ before ∷ more) last p l =
      let P : List Str × List Str → Type 0 = λ (r : List Str × List Str). Small r.0 × Small r.1 in
      if_intro P (ltb (chunk_size last) min) _ _
        (λ _.
          if_intro P
            (ltb max (chunk_size last + length unit)
              || ltb (chunk_size (unit ∷ before ∷ more) - length unit) min)
            (unit ∷ before ∷ more, last) (borrow min max (before ∷ more) (unit ∷ last))
            (λ _. (p, l))
            (λ fits.
              borrow-Small min (before ∷ more) (unit ∷ last) (fewer unit before more p)
                (inl (ground (arith, fits)))))
        (λ _. (p, l))
    where
      fewer : (u v : Str) (rest : List Str) → Small (u ∷ v ∷ rest) → Small (v ∷ rest)
      fewer u v rest (inl h) = inl (omega (arith, h))
      fewer u v rest (inr (w, e, q)) = cc

  reverse-Small : (chunk : List Str) → Small chunk → Small (reverse chunk)
  reverse-Small chunk (inl h) = inl (rw (chunk_size-reverse chunk) h)
  reverse-Small chunk (inr (u, e, q)) = inr (u, ap reverse e, q)

  balance-Small :
      (min : ℕ) (chunks : List (List Str)) → All Small chunks → All Small (balance min max chunks)
  unfolding balance
  balance-Small min [] h = h
  balance-Small min (chunk ∷ []) h = h
  balance-Small min (previous ∷ last ∷ []) (p, (l, t)) =
      if_intro (All Small) (ltb (chunk_size last) min) _ _
        (λ _.
          (let r = borrow-Small min (reverse previous) last (reverse-Small previous p) l in
            (reverse-Small _ r.0, (r.1, tt))))
        (λ _. (p, (l, tt)))
  balance-Small min (chunk ∷ next ∷ third ∷ chunks) (h, hs) =
      (h, balance-Small min (next ∷ third ∷ chunks) hs)

  joined :
      (chunks : List (List Str))
      → All Small chunks
      → All (λ chunk. (length chunk ≤ max) ⊎ Q chunk) (map (join []) chunks)
  joined [] h = tt
  joined (chunk ∷ chunks) (inl h, hs) = (inl (rw (length-join chunk) h), joined chunks hs)
  joined (chunk ∷ chunks) (inr (u, e, q), hs) = (inr (rw (e, join_one u) q), joined chunks hs)

  pack_units_lem :
      (min : ℕ) (units : List Str)
      → All Full units
      → All Q units
      → All (λ chunk. (length chunk ≤ max) ⊎ Q chunk) (pack_units min max units)
  unfolding pack_units chunk_size
  pack_units_lem min units f q =
      joined _ (balance-Small min _ (fill_chunks-Small units [] 0 refl (inl refl) tt f q))

Full-snoc : (s : Str) (c : ℕ) → Full (s ++ c ∷ [])
Full-snoc [] c = refl
Full-snoc (d ∷ s) c = refl

add_unit-Full : (cur : Str) (units : List Str) → All Full units → All Full (add_unit cur units)
unfolding add_unit
add_unit-Full cur units h =
    let unit = trim_space cur in
    if_intro (All Full) (null unit) _ _ (λ _. h) (λ _. (Full-snoc unit b'\n', h))

units_from-Full :
    (scan : CssScan) (depth : ℕ) (cur s : Str) → All Full (units_from scan depth cur s)
unfolding units_from
units_from-Full scan depth cur [] = add_unit-Full cur [] tt
units_from-Full scan depth cur (c ∷ s) =
    let r = css_step scan depth c s in
    if_intro (All Full) r.2 _ _
      (λ _. add_unit-Full (cur ++ c ∷ []) _ (units_from-Full r.0 r.1 [] s))
      (λ _. units_from-Full r.0 r.1 (cur ++ c ∷ []) s)

all_units-Full : (parts : List Str) → All Full (all_units parts)
unfolding all_units split_css_units
all_units-Full [] = tt
all_units-Full (part ∷ parts) =
    All-append Full (split_css_units part) (all_units parts)
      (units_from-Full CssScan.plain 0 [] part) (all_units-Full parts)

member_weaken :
    (x : Str) (units more : List Str)
    → All (λ u. member u units ≡ true) more
    → All (λ u. member u (x ∷ units) ≡ true) more
unfolding member
member_weaken x units [] h = tt
member_weaken x units (u ∷ more) (h, hs) = (ground (arith, h), member_weaken x units more hs)

member-All : (units : List Str) → All (λ u. member u units ≡ true) units
unfolding member
member-All [] = tt
member-All (u ∷ units) =
    (ground (arith, str_eq_refl u), member_weaken u units units (member-All units))

trim_left_of_ink : (t : Str) → ink t ≡ [] → trim_left is_space t ≡ []
unfolding ink trim_left
trim_left_of_ink [] e = refl
trim_left_of_ink (c ∷ t) e = ground (arith, trim_left_of_ink t, e)

blank_of_ink : (s : Str) → ink s ≡ [] → null (trim_space s) ≡ true
unfolding trim_space trim trim_right trim_left
blank_of_ink s h = ap (λ x. null (reverse (trim_left is_space (reverse x)))) (trim_left_of_ink s h)

ink_of_no_units : (parts : List Str) → null (all_units parts) ≡ true → ink (all_css parts) ≡ []
unfolding join ink
ink_of_no_units parts h =
    ink-all_css parts
    ∙ sym (ink-all_units parts)
    ∙ ap (λ u. ink (join [] u)) (nil_of_null (all_units parts) h)

-- Where styles are split, a chunk is within the larger of the two sizes, or it is a single
-- unit.
pub build_css_chunks_bound :
    (parts : List Str) (min max : ℕ)
    → All
        (λ chunk. (length chunk ≤ max_chunk min max) ⊎ (member chunk (all_units parts) ≡ true))
        (build_css_chunks parts true min max)
unfolding build_css_chunks
build_css_chunks_bound parts min max =
    let full = all_css parts in
    let units = all_units parts in
    let limit = max_chunk min max in
    let P : List Str → Type 0 =
      All (λ chunk. (length chunk ≤ limit) ⊎ (member chunk units ≡ true)) in
    if_intro P (null (trim_space full)) _ _ (λ _. tt)
      (λ filled.
        if_intro P (leb (length full) limit || null units) (full ∷ [])
          (pack_units (min_chunk min) limit units)
          (λ h. elim (Bool-cases (leb (length full) limit)) [
            | inl fits ↦ (inl (ground (arith, fits)), tt)
            | inr long ↦
                (let blank = blank_of_ink full (ink_of_no_units parts (rw long at h)) in cc)
          ])
          (λ _.
            pack_units_lem limit (λ u. member u units ≡ true) (min_chunk min) units
              (all_units-Full parts) (member-All units)))

-- ===== src/Web/Css/Chunks.antt =====
-- web_framework.go: the text of the chunks of `buildCSSChunks`.
use mathlib.Core.List.{reverse-cons, reverse-reverse}
use goserver.Common.{
  Bool, List, [], ◌∷◌, ◌++◌, ℕ, ◌≡◌, refl, reverse, append_assoc, if_intro, null, sym, ◌∙◌, length,
  ltb, map, ◌&&◌, ◌+◌, leb, ◌||◌, ◌-◌,
}
use goserver.Text.{Str, trim_space, join}
use goserver.Web.Css.{
  all_css, all_units, flush, fill_chunks, borrow, balance, pack_units, build_css_chunks, chunk_size,
  max_chunk, min_chunk,
}
use goserver.Text.Ink.{ink}
use goserver.Web.Css.Lossless.{ink-all_css, ink-all_units, ink_of_blank, join_cons, join-append}

-- The text of all chunks.
abbrev text : List (List Str) → Str
text chunks = join [] (map (join []) chunks)

text-flush :
    (current : List Str) (chunks : List (List Str))
    → text (flush current chunks) ≡ join [] current ++ text chunks
unfolding flush join
text-flush [] chunks = refl
text-flush (unit ∷ current) chunks = join_cons (join [] (unit ∷ current)) (map (join []) chunks)

text-fill_chunks :
    (max : ℕ) (units current : List Str) (size : ℕ)
    → text (fill_chunks max units current size) ≡ join [] current ++ join [] units
unfolding fill_chunks join
text-fill_chunks max [] current size = text-flush current []
text-fill_chunks max (unit ∷ units) current size =
    if_intro (λ x. text x ≡ join [] current ++ join [] (unit ∷ units))
      (ltb 0 size && ltb max (size + length unit)) _ _
      (λ _.
        rw
          (
            text-flush current (fill_chunks max units (unit ∷ []) (length unit)),
            text-fill_chunks max units (unit ∷ []) (length unit),
            join_cons unit units,
          )
          refl)
      (λ _.
        rw
          (
            text-fill_chunks max units (current ++ unit ∷ []) (size + length unit),
            join-append current (unit ∷ []),
            join_cons unit units,
          )
          (append_assoc (join [] current) unit (join [] units)))

join_one : (x : Str) → join [] (x ∷ []) ≡ x
unfolding join
join_one x = refl

text-borrow :
    (min max : ℕ) (previous last : List Str)
    → join [] (reverse (borrow min max previous last).0) ++ join [] (borrow min max previous last).1
      ≡ join [] (reverse previous) ++ join [] last
unfolding borrow
text-borrow min max [] last = refl
text-borrow min max (unit ∷ []) last = refl
text-borrow min max (unit ∷ before ∷ more) last =
    let P : List Str × List Str → Type 0 = λ (r : List Str × List Str).
      join [] (reverse r.0) ++ join [] r.1
      ≡ join [] (reverse (unit ∷ before ∷ more)) ++ join [] last in
    if_intro P (ltb (chunk_size last) min) _ _
      (λ _.
        if_intro P
          (ltb max (chunk_size last + length unit)
            || ltb (chunk_size (unit ∷ before ∷ more) - length unit) min)
          (unit ∷ before ∷ more, last) (borrow min max (before ∷ more) (unit ∷ last)) (λ _. refl)
          (λ _.
            text-borrow min max (before ∷ more) (unit ∷ last) ∙ moved (before ∷ more) last unit))
      (λ _. refl)
  where
    moved :
        (rest last' : List Str) (u : Str)
        → join [] (reverse rest) ++ join [] (u ∷ last')
          ≡ join [] (reverse (u ∷ rest)) ++ join [] last'
    moved rest last' u =
        rw (reverse-cons u rest, join-append (reverse rest) (u ∷ []), join_cons u last', join_one u)
          (sym (append_assoc (join [] (reverse rest)) u (join [] last')))

text_pair : (a b : List Str) → text (a ∷ b ∷ []) ≡ join [] a ++ join [] b
unfolding join
text_pair a b = refl

text-balance :
    (min max : ℕ) (chunks : List (List Str)) → text (balance min max chunks) ≡ text chunks
unfolding balance
text-balance min max [] = refl
text-balance min max (chunk ∷ []) = refl
text-balance min max (previous ∷ last ∷ []) =
    let r = borrow min max (reverse previous) last in
    if_intro (λ x. text x ≡ text (previous ∷ last ∷ [])) (ltb (chunk_size last) min) _ _
      (λ _.
        rw
          (
            text_pair (reverse r.0) r.1,
            text_pair previous last,
            text-borrow min max (reverse previous) last,
            reverse-reverse previous,
          )
          refl)
      (λ _. refl)
text-balance min max (chunk ∷ next ∷ third ∷ chunks) =
    rw
      (
        join_cons (join [] chunk) (map (join []) (balance min max (next ∷ third ∷ chunks))),
        text-balance min max (next ∷ third ∷ chunks),
        join_cons (join [] chunk) (map (join []) (next ∷ third ∷ chunks)),
      )
      refl

ink-pack_units :
    (min max : ℕ) (units : List Str) → join [] (pack_units min max units) ≡ join [] units
unfolding pack_units join
ink-pack_units min max units =
    text-balance min max (fill_chunks max units [] 0) ∙ text-fill_chunks max units [] 0

-- With any sizes, and split or not, the chunks one after the other have the bytes of the parts
-- one after the other, in the same order, white space aside.
pub ink-build_css_chunks :
    (parts : List Str) (splits : Bool) (min max : ℕ)
    → ink (join [] (build_css_chunks parts splits min max)) ≡ ink (join [] parts)
unfolding build_css_chunks join ink
ink-build_css_chunks parts splits min max =
    let full = all_css parts in
    let P : List Str → Type 0 = λ chunks. ink (join [] chunks) ≡ ink (join [] parts) in
    if_intro P (null (trim_space full)) _ _
      (λ blank. sym (ink_of_blank full blank) ∙ ink-all_css parts)
      (λ _.
        if_intro P splits _ _
          (λ _.
            if_intro P (leb (length full) (max_chunk min max) || null (all_units parts)) (full ∷ [])
              (pack_units (min_chunk min) (max_chunk min max) (all_units parts))
              (λ _. ink-all_css parts)
              (λ _.
                rw (ink-pack_units (min_chunk min) (max_chunk min max) (all_units parts))
                  (ink-all_units parts)))
          (λ _. ink-all_css parts))

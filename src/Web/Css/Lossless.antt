-- ===== src/Web/Css/Lossless.antt =====
-- web_framework.go: what becomes of the bytes of the styles in `splitCSSUnits` and `buildCSSChunks`.
use goserver.Common.{
  List, [], ◌∷◌, ◌++◌, ℕ, ◌≡◌, refl, ap, append-nil, append_assoc, if_intro, null, sym, true, ◌∙◌,
  nil_of_null,
}
use goserver.Text.{Str, trim_space, join, has_suffix}
use goserver.Text.Ink.{ink, ink-append, ink-trim_space, ink-newline, ink_next}
use goserver.Web.Css.{CssScan, css_step, add_unit, units_from, split_css_units, all_css, all_units}

pub join_cons : (x : Str) (xs : List Str) → join [] (x ∷ xs) ≡ x ++ join [] xs
unfolding join
join_cons x [] = sym (append-nil x)
join_cons x (y ∷ ys) = refl

pub join-append : (xs ys : List Str) → join [] (xs ++ ys) ≡ join [] xs ++ join [] ys
unfolding join
join-append [] ys = refl
join-append (x ∷ xs) ys =
    rw (join_cons x (xs ++ ys), join_cons x xs, join-append xs ys)
      (sym (append_assoc x (join [] xs) (join [] ys)))

ink-join_cons : (x : Str) (xs : List Str) → ink (join [] (x ∷ xs)) ≡ ink x ++ ink (join [] xs)
ink-join_cons x xs = rw (join_cons x xs) (ink-append x (join [] xs))

pub ink_of_blank : (s : Str) → null (trim_space s) ≡ true → ink s ≡ []
unfolding ink
ink_of_blank s h = sym (ink-trim_space s) ∙ ap ink (nil_of_null (trim_space s) h)

ink-add_unit :
    (text : Str) (units : List Str)
    → ink (join [] (add_unit text units)) ≡ ink text ++ ink (join [] units)
unfolding add_unit ink
ink-add_unit text units =
    let unit = trim_space text in
    if_intro (λ x. ink (join [] x) ≡ ink text ++ ink (join [] units)) (null unit) _ _
      (λ blank. rw (ink_of_blank text blank) refl)
      (λ _.
        rw
          (
            ink-join_cons (unit ++ b'\n' ∷ []) units,
            ink-append unit (b'\n' ∷ []),
            ink-trim_space text,
            ink-newline [],
          )
          (rw (append-nil (ink text)) refl))

ink-units_from :
    (scan : CssScan) (depth : ℕ) (cur s : Str)
    → ink (join [] (units_from scan depth cur s)) ≡ ink cur ++ ink s
unfolding units_from ink join
ink-units_from scan depth cur [] = ink-add_unit cur []
ink-units_from scan depth cur (c ∷ s) =
    let r = css_step scan depth c s in
    if_intro (λ x. ink (join [] x) ≡ ink cur ++ ink (c ∷ s)) r.2 _ _
      (λ _.
        rw (ink-add_unit (cur ++ c ∷ []) (units_from r.0 r.1 [] s), ink-units_from r.0 r.1 [] s)
          (ink_next cur s c))
      (λ _. rw (ink-units_from r.0 r.1 (cur ++ c ∷ []) s) (ink_next cur s c))

pub ink-split_css_units : (css : Str) → ink (join [] (split_css_units css)) ≡ ink css
unfolding split_css_units ink
ink-split_css_units css = ink-units_from CssScan.plain 0 [] css

pub ink-all_units : (parts : List Str) → ink (join [] (all_units parts)) ≡ ink (join [] parts)
unfolding all_units
ink-all_units [] = refl
ink-all_units (part ∷ parts) =
    rw
      (
        join-append (split_css_units part) (all_units parts),
        ink-append (join [] (split_css_units part)) (join [] (all_units parts)),
        ink-split_css_units part,
        ink-all_units parts,
        ink-join_cons part parts,
      )
      refl

pub ink-all_css : (parts : List Str) → ink (all_css parts) ≡ ink (join [] parts)
unfolding all_css join
ink-all_css [] = refl
ink-all_css (part ∷ parts) =
    let ih = ink-all_css parts in
    rw (ink-join_cons part parts) (
      if_intro (λ x. ink x ≡ ink part ++ ink (join [] parts)) (null (trim_space part)) _ _
        (λ blank. rw (ink_of_blank part blank) ih)
        (λ _.
          if_intro (λ x. ink x ≡ ink part ++ ink (join [] parts)) (has_suffix part (b'\n' ∷ [])) _ _
            (λ _. rw (ink-append part (all_css parts), ih) refl)
            (λ _.
              rw (ink-append part (b'\n' ∷ all_css parts))
                (rw (ink-newline (all_css parts), ih) refl))))

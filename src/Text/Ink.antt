-- ===== src/Text/Ink.antt =====
-- The bytes of a text that are not white space.
use mathlib.Core.List.{reverse-cons, reverse-reverse}
use goserver.Common.{
  arith, [], ◌∷◌, ◌++◌, ◌≡◌, refl, reverse, if_intro, sym, append-nil, if◌then◌else◌, ap,
  append_assoc, ℕ, ◌∙◌,
}
use goserver.Text.{Str, trim_space, is_space, trim_left, trim_right, trim}

-- The bytes that are not white space, in their order.
unfoldable pub ink : Str → Str
ink [] = []
ink (c ∷ s) = let rest = ink s in if is_space c then rest else c ∷ rest

pub ink-append : (s t : Str) → ink (s ++ t) ≡ ink s ++ ink t
unfolding ink
ink-append [] t = refl
ink-append (c ∷ s) t = ground (arith, ink-append s t)

pub ink-reverse : (s : Str) → ink (reverse s) ≡ reverse (ink s)
unfolding ink
ink-reverse [] = refl
ink-reverse (c ∷ s) =
    rw (reverse-cons c s, ink-append (reverse s) (c ∷ []), ink-reverse s)
      (if_intro (λ x. reverse (ink s) ++ (if is_space c then [] else c ∷ []) ≡ reverse x)
        (is_space c) _ _ (λ blank. rw blank (append-nil (reverse (ink s))))
        (λ full. rw full (sym (reverse-cons c (ink s)))))

pub ink-newline : (s : Str) → ink (b'\n' ∷ s) ≡ ink s
unfolding ink
ink-newline s = refl

pub ink-trim_left : (s : Str) → ink (trim_left is_space s) ≡ ink s
unfolding ink trim_left
ink-trim_left [] = refl
ink-trim_left (c ∷ s) = ground (arith, ink-trim_left s)

pub ink-trim_space : (s : Str) → ink (trim_space s) ≡ ink s
unfolding trim_space trim trim_right
ink-trim_space s =
    let t = trim_left is_space s in
    rw
      (
        ink-reverse (trim_left is_space (reverse t)),
        ink-trim_left (reverse t),
        ink-reverse t,
        reverse-reverse (ink t),
      )
      (ink-trim_left s)

pub ink_next : (cur s : Str) (c : ℕ) → ink (cur ++ c ∷ []) ++ ink s ≡ ink cur ++ ink (c ∷ s)
ink_next cur s c =
    sym (ink-append (cur ++ c ∷ []) s)
    ∙ ap ink (append_assoc cur (c ∷ []) s)
    ∙ ink-append cur (c ∷ s)

-- ===== src/Text/Compare.antt =====
-- Equality of byte strings, and prefixes.
use goserver.Common.{◌≡◌, refl, ◌↔◌, true, some, [], ◌∷◌, ◌++◌, arith, is_some, subst, List, ◌||◌}
use goserver.Text.{Str, str_eq, cut_prefix, has_prefix, member}

str_eq_sound : (s t : Str) → str_eq s t ≡ true → s ≡ t
unfolding str_eq
str_eq_sound [] [] h = refl
str_eq_sound [] (d ∷ t) h = ground arith
str_eq_sound (c ∷ s) [] h = ground arith
str_eq_sound (c ∷ s) (d ∷ t) h = ground (arith, str_eq_sound s t)

pub str_eq_refl : (s : Str) → str_eq s s ≡ true
unfolding str_eq
str_eq_refl [] = refl
str_eq_refl (c ∷ s) = ground (arith, str_eq_refl s)

pub str_eq_iff : (s t : Str) → (str_eq s t ≡ true) ↔ (s ≡ t)
str_eq_iff s t = (str_eq_sound s t, λ e. subst (λ u. str_eq s u ≡ true) e (str_eq_refl s))

pub cut_prefix-append : (p s : Str) → cut_prefix (p ++ s) p ≡ some s
unfolding cut_prefix
cut_prefix-append [] s = refl
cut_prefix-append (c ∷ p) s = ground (arith, cut_prefix-append p s)

pub append-cut_prefix : (s p r : Str) → cut_prefix s p ≡ some r → s ≡ p ++ r
unfolding cut_prefix
append-cut_prefix s [] r h = ground arith
append-cut_prefix [] (d ∷ p) r h = cc
append-cut_prefix (c ∷ s) (d ∷ p) r h = ground (arith, append-cut_prefix s p r)

pub has_prefix_of_cut : (s p : Str) → has_prefix s p ≡ is_some (cut_prefix s p)
unfolding cut_prefix has_prefix
has_prefix_of_cut s [] = refl
has_prefix_of_cut [] (d ∷ p) = refl
has_prefix_of_cut (c ∷ s) (d ∷ p) = ground (arith, has_prefix_of_cut s p)

pub member-append :
    (s : Str) (xs ys : List Str) → member s (xs ++ ys) ≡ (member s xs || member s ys)
unfolding member
member-append s [] ys = refl
member-append s (x ∷ xs) ys = ground (arith, member-append s xs ys)

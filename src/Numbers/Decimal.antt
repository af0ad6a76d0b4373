-- ===== src/Numbers/Decimal.antt =====
-- Reading back the digits that `strconv.Itoa` prints.
use goserver.Common.{
  arith, [], ◌∷◌, ◌≡◌, ◌≤◌, ◌<◌, ◌+◌, ◌*◌, ◌/◌, ◌%◌, ◌-◌, ℕ, some, true, false, refl, suc, zero,
  All, if_intro, ltb, leb, null, ◌∙◌, ap, ◌&&◌,
}
use goserver.Text.{Str, itoa, itoa_from}
use goserver.Numbers.{digits_from, parse_digits, within, parse_int, int_max}

digit_value : (n k : ℕ) → n * 10 + (48 + k - 48) ≡ n * 10 + k
digit_value n k = omega arith

last_digit : (n : ℕ) → n % 10 < 10
last_digit n = omega arith

digits_of : (n : ℕ) → n / 10 * 10 + n % 10 ≡ n
digits_of n = omega arith

one_digit : (n : ℕ) → ltb n 10 ≡ true → 0 * 10 + n % 10 ≡ n
one_digit n h = ground (arith, h, digits_of n)

fewer_digits : (n fuel : ℕ) → ltb n 10 ≡ false → n < suc fuel → n / 10 < fuel
fewer_digits n fuel h k = let big : 10 ≤ n = ground (arith, h) in omega (arith, big, k)

digits_step :
    (n k : ℕ) (s : Str) → k < 10 → digits_from n ((48 + k) ∷ s) ≡ digits_from (n * 10 + k) s
unfolding digits_from
digits_step n k s h =
    if_intro (λ x. x ≡ digits_from (n * 10 + k) s) (leb 48 (48 + k) && leb (48 + k) 57) _ _
      (λ _. ap (λ m. digits_from m s) (digit_value n k)) (λ out. absurd (ground (arith, out, h)))

digits_from-itoa_from :
    (fuel n : ℕ) (s : Str) → n < fuel → digits_from 0 (itoa_from fuel n s) ≡ digits_from n s
unfolding itoa_from
digits_from-itoa_from zero n s h = absurd (omega (arith, h))
digits_from-itoa_from (suc fuel) n s h =
    if_intro (λ x. digits_from 0 x ≡ digits_from n s) (ltb n 10) _ _
      (λ small.
        digits_step 0 (n % 10) s (last_digit n) ∙ ap (λ m. digits_from m s) (one_digit n small))
      (λ large.
        digits_from-itoa_from fuel (n / 10) ((48 + n % 10) ∷ s) (fewer_digits n fuel large h)
        ∙ digits_step (n / 10) (n % 10) s (last_digit n)
        ∙ ap (λ m. digits_from m s) (digits_of n))

-- The first byte that is printed is a digit, and so are the others.
abbrev pub AllDigits : Str → Type 0
AllDigits s = All (λ c. (48 ≤ c) × (c ≤ 57)) s

itoa_from-AllDigits : (fuel n : ℕ) (s : Str) → AllDigits s → AllDigits (itoa_from fuel n s)
unfolding itoa_from
itoa_from-AllDigits zero n s h = h
itoa_from-AllDigits (suc fuel) n s h =
    let more : AllDigits ((48 + n % 10) ∷ s) = ((omega arith, omega (arith, last_digit n)), h) in
    if_intro AllDigits (ltb n 10) _ _ (λ _. more) (λ _. itoa_from-AllDigits fuel (n / 10) _ more)

itoa_from_full : (fuel n : ℕ) (s : Str) → null s ≡ false → null (itoa_from fuel n s) ≡ false
unfolding itoa_from
itoa_from_full zero n s h = h
itoa_from_full (suc fuel) n s h =
    if_intro (λ (x : Str). null x ≡ false) (ltb n 10) _ _ (λ _. refl)
      (λ _. itoa_from_full fuel (n / 10) ((48 + n % 10) ∷ s) refl)

add_one : (n : ℕ) → n + 1 ≡ suc n
add_one n = omega arith

itoa_full : (n : ℕ) → null (itoa n) ≡ false
unfolding itoa itoa_from
itoa_full n = rw (add_one n) (
    if_intro (λ (x : Str). null x ≡ false) (ltb n 10) _ _ (λ _. refl)
      (λ _. itoa_from_full n (n / 10) ((48 + n % 10) ∷ []) refl))

parse_int_of_digits :
    (s : Str) → AllDigits s → null s ≡ false → parse_int s ≡ within false (digits_from 0 s)
unfolding parse_int parse_digits
parse_int_of_digits [] d h = cc
parse_int_of_digits (c ∷ s) (d, ds) h = ground (arith, d)

pub parse_int-itoa :
    (n : ℕ) → n ≤ int_max → parse_int (itoa n) ≡ some (record { negative = false; magnitude = n })
unfolding itoa within digits_from
parse_int-itoa n h =
    parse_int_of_digits (itoa n) (itoa_from-AllDigits (n + 1) n [] tt) (itoa_full n)
    ∙ ap (within false) (digits_from-itoa_from (n + 1) n [] (omega arith))
    ∙ if_intro (λ x. x ≡ some (record { negative = false; magnitude = n })) (leb n int_max) _ _
        (λ _. refl) (λ big. absurd (ground (arith, big, h)))

pub digits_of_itoa : (n : ℕ) → AllDigits (itoa n)
unfolding itoa
digits_of_itoa n = itoa_from-AllDigits (n + 1) n [] tt

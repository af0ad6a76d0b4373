-- ===== src/WsToken/RoundTrip.antt =====
-- wstoken.go: `GenerateWSToken` and `ValidateWSToken` one after the other.
use goserver.Common.{arith, [], ◌∷◌, ◌++◌, ◌+◌, ◌≤◌, ◌≡◌, ℕ, ltb, if◌then◌else◌, refl}
use goserver.Text.{Str, itoa, join, split}
use goserver.Text.Compare.{str_eq_refl}
use goserver.Text.Pieces.{split-join, Free}
use goserver.Numbers.{int_max}
use goserver.Numbers.Decimal.{AllDigits, digits_of_itoa, parse_int-itoa}
use goserver.Tokens.{unix}
use goserver.WsToken.{WsResult, generate_ws_token, validate_ws_parts, validate_ws_token}

AllDigits-Free : (s : Str) → AllDigits s → Free b'.' s
AllDigits-Free [] h = tt
AllDigits-Free (c ∷ s) (h, hs) = ((λ e. omega (arith, e, h)), AllDigits-Free s hs)

join_two : (a b : Str) → a ++ b'.' ∷ b ≡ join (b'.' ∷ []) (a ∷ b ∷ [])
unfolding join
join_two a b = refl

split_two : (a b : Str) → Free b'.' a → Free b'.' b → split b'.' (a ++ b'.' ∷ b) ≡ a ∷ b ∷ []
split_two a b ha hb = rw (join_two a b) (split-join b'.' a (b ∷ []) (ha, (hb, tt)))

-- A token that was generated with a signature without a dot, and an expiry that fits 63 bits,
-- is accepted until the second of its expiry has passed, and after that it is expired.
pub validate_ws_token-generate_ws_token :
    (sign : Str → Str → Str) (secret : Str) (now duration later : ℕ)
    → ((s : Str) → Free b'.' (sign secret s))
    → unix (now + duration) ≤ int_max
    → validate_ws_token sign (generate_ws_token sign secret now duration) secret later ≡ (
        if ltb (unix (now + duration)) (unix later)
        then WsResult.token_expired
        else WsResult.accepted)
unfolding validate_ws_token generate_ws_token validate_ws_parts
validate_ws_token-generate_ws_token sign secret now duration later free small =
    let exp = unix (now + duration) in
    let payload = itoa exp in
    rw
      (
        split_two payload (sign secret payload) (AllDigits-Free payload (digits_of_itoa exp))
            (free payload),
        validate_ws_parts,
        str_eq_refl (sign secret payload),
        parse_int-itoa exp small,
      )
      refl

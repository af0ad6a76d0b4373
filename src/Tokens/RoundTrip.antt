-- ===== src/Tokens/RoundTrip.antt =====
-- jwt.go: `GenerateToken` and `ValidateToken` one after the other.
use goserver.Common.{
  arith, List, Option-cases, [], append_assoc, if◌then◌else◌, inl, inr, ltb, some, ℕ, ◌++◌, ◌+◌,
  ◌∷◌, ◌≡◌, ◌≤◌, some_inj, sym, ◌∙◌,
}
use goserver.Text.{Str, join, split}
use goserver.Text.Compare.{str_eq_refl, str_eq_iff}
use goserver.Text.Pieces.{split-join, Free}
use goserver.Tokens.{
  Codec, expired, generate_token, jwt_header, unix, valid, validate_parts, validate_token,
}

header-Free : Free b'.' jwt_header
header-Free = omega arith

join_three : (a b c : Str) → (a ++ b'.' ∷ b) ++ b'.' ∷ c ≡ join (b'.' ∷ []) (a ∷ b ∷ c ∷ [])
unfolding join
join_three a b c = append_assoc a (b'.' ∷ b) (b'.' ∷ c)

split_three :
    (a b c : Str)
    → Free b'.' a
    → Free b'.' b
    → Free b'.' c
    → split b'.' ((a ++ b'.' ∷ b) ++ b'.' ∷ c) ≡ a ∷ b ∷ c ∷ []
split_three a b c ha hb hc =
    rw (join_three a b c) (split-join b'.' a (b ∷ c ∷ []) (ha, (hb, (hc, tt))))

module _ {D : Type 0} (C : Codec D) where
  signed_text : Str → Str → Str → Str
  signed_text secret header encoded =
      (header ++ b'.' ∷ encoded) ++ b'.' ∷ C.sign secret (header ++ b'.' ∷ encoded)

  split_signed :
      (secret header encoded : Str)
      → Free b'.' header
      → Free b'.' encoded
      → split b'.' (signed_text secret header encoded)
        ≡ header ∷ encoded ∷ C.sign secret (header ++ b'.' ∷ encoded) ∷ []
  unfolding signed_text
  split_signed secret header encoded hh he =
      split_three header encoded (C.sign secret (header ++ b'.' ∷ encoded)) hh he
        (C.sign-Free secret (header ++ b'.' ∷ encoded))

  validate_signed :
      (secret header payload : Str) (d : D) (exp later : ℕ)
      → C.marshal (d, exp) ≡ some payload
      → validate_parts C secret
          (header ∷ C.encode payload ∷ C.sign secret (header ++ b'.' ∷ C.encode payload) ∷ [])
          later
        ≡ (if ltb exp (unix later) then expired else valid d)
  unfolding validate_parts
  validate_signed secret header payload d exp later e =
      rw (str_eq_refl, C.decode-encode payload, C.unmarshal-marshal (d, exp) payload e)

  -- A token that was generated gives its value back until the second of its expiry has passed,
  -- and after that it is expired.
  pub validate_token-generate_token :
      (secret : Str) (d : D) (now ttl later : ℕ) (token : Str)
      → generate_token C secret d now ttl ≡ some token
      → validate_token C secret token later
        ≡ (if ltb (unix (now + ttl)) (unix later) then expired else valid d)
  unfolding generate_token validate_token signed_text
  validate_token-generate_token secret d now ttl later token h =
      elim (Option-cases (C.marshal (d, unix (now + ttl)))) [
        | inl e ↦ absurd (ground arith)
        | inr (payload, e) ↦
            let whole : some token ≡ some (signed_text secret jwt_header (C.encode payload)) =
              sym h ∙ (rw (e, generate_token)) in
            rw (some_inj whole) (
              rw
                (split_signed secret jwt_header (C.encode payload) header-Free
                  (C.encode-Free payload))
                (validate_signed secret jwt_header payload d (unix (now + ttl)) later e))
      ]

  validate_parts_sound :
      (secret : Str) (parts : List Str) (now : ℕ) (d : D)
      → validate_parts C secret parts now ≡ valid d
      → (header : Str) × (encoded : Str) × (payload : Str) × (exp : ℕ) × (parts
          ≡ header ∷ encoded ∷ C.sign secret (header ++ b'.' ∷ encoded) ∷ [])
        × (C.decode encoded ≡ some payload)
        × (C.unmarshal payload ≡ some (d, exp))
        × (unix now ≤ exp)
  unfolding validate_parts
  validate_parts_sound secret (header ∷ encoded ∷ signature ∷ []) now d h =
      elim (Option-cases (C.decode encoded)) [
        | inl e ↦ absurd (ground arith)
        | inr (payload, e) ↦ elim (Option-cases (C.unmarshal payload)) [
          | inl f ↦ absurd (ground arith)
          | inr ((d', exp), f) ↦
              let signed = C.sign secret (header ++ b'.' ∷ encoded) in
              (
                header,
                encoded,
                payload,
                exp,
                ground (arith, str_eq_iff signature signed),
                e,
                ground arith,
                ground arith,
              )
        ]
      ]
  validate_parts_sound secret [] now d h = absurd (ground arith)
  validate_parts_sound secret (a ∷ []) now d h = absurd (ground arith)
  validate_parts_sound secret (a ∷ b ∷ []) now d h = absurd (ground arith)
  validate_parts_sound secret (a ∷ b ∷ c ∷ e ∷ rest) now d h = absurd (ground arith)

  -- A token that is accepted has three parts, the last of which is the signature of the other
  -- two under the secret, and its payload has not expired.
  pub validate_token_sound :
      (secret token : Str) (now : ℕ) (d : D)
      → validate_token C secret token now ≡ valid d
      → (header : Str) × (encoded : Str) × (payload : Str) × (exp : ℕ) × (split b'.' token
          ≡ header ∷ encoded ∷ C.sign secret (header ++ b'.' ∷ encoded) ∷ [])
        × (C.decode encoded ≡ some payload)
        × (C.unmarshal payload ≡ some (d, exp))
        × (unix now ≤ exp)
  unfolding validate_token
  validate_token_sound secret token now d h = validate_parts_sound secret (split b'.' token) now d h

-- ===== src/Tokens.antt =====
-- jwt.go: signed tokens. HMAC, base64 and JSON are arguments, with what their documentation
-- promises; time is in nanoseconds.
pub mod RoundTrip
use goserver.Common.{none, List, Option, [], if◌then◌else◌, ltb, some, ℕ, ◌++◌, ◌+◌, ◌/◌, ◌∷◌, ◌≡◌}
use goserver.Text.Pieces.{Free}
use goserver.Text.{Str, codes, split, str_eq}

-- `sign` is the base64 text of the HMAC-SHA256, `encode` and `decode` are base64.RawURLEncoding,
-- whose alphabet has no dot, and `marshal` is `none` for a value that has no JSON.
pub record Codec (D : Type 0) : Type 0 where
  pub sign : Str → Str → Str
  pub encode : Str → Str
  pub decode : Str → Option Str
  pub marshal : D × ℕ → Option Str
  pub unmarshal : Str → Option (D × ℕ)
  pub sign-Free : (secret s : Str) → Free b'.' (sign secret s)
  pub encode-Free : (s : Str) → Free b'.' (encode s)
  pub decode-encode : (s : Str) → decode (encode s) ≡ some s
  pub unmarshal-marshal : (p : D × ℕ) (s : Str) → marshal p ≡ some s → unmarshal s ≡ some p

abbrev pub jwt_header : Str
jwt_header = codes "eyJhbGciOiJIUzI1NiIsInR5cCI6IkpXVCJ9"

pub data Validated (D : Type 0) : Type 0 where
  valid : D → Validated D
  malformed : Validated D
  bad_signature : Validated D
  bad_json : Validated D
  expired : Validated D

-- `Unix()` of a time in nanoseconds
abbrev pub unix : ℕ → ℕ
unix t = t / 1000000000

module _ {D : Type 0} (C : Codec D) where
  -- `GenerateToken`, `none` where the value cannot be marshalled
  unfoldable pub generate_token : Str → D → ℕ → ℕ → Option Str
  generate_token secret d now ttl = elim (C.marshal (d, unix (now + ttl))) [
    | none ↦ none
    | some payload ↦
        let unsigned = jwt_header ++ b'.' ∷ C.encode payload in
        some (unsigned ++ b'.' ∷ C.sign secret unsigned)
  ]

  -- `ValidateToken` after the token is split
  unfoldable pub validate_parts : Str → List Str → ℕ → Validated D
  validate_parts secret (header ∷ encoded ∷ signature ∷ []) now =
      if str_eq signature (C.sign secret (header ++ b'.' ∷ encoded))
      then elim (C.decode encoded) [
        | none ↦ malformed
        | some payload ↦ elim (C.unmarshal payload) [
          | none ↦ bad_json
          | some (d, exp) ↦ if ltb exp (unix now) then expired else valid d
        ]
      ]
      else bad_signature
  validate_parts secret parts now = malformed

  unfoldable pub validate_token : Str → Str → ℕ → Validated D
  validate_token secret token now = validate_parts secret (split b'.' token) now

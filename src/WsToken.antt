-- ===== src/WsToken.antt =====
-- wstoken.go: tokens of WebSocket connections. The base64 text of the HMAC-SHA256 is an argument,
-- and time is in nanoseconds.
pub mod RoundTrip
use goserver.Common.{
  arith, Bool, List, Option, [], ◌∷◌, ◌++◌, ◌+◌, ◌||◌, ℕ, if◌then◌else◌, ltb, none, some, not, null,
}
use goserver.Text.{Str, codes, itoa, split, str_eq}
use goserver.Maps.{lookup}
use goserver.Http.{get}
use goserver.Numbers.{Signed, parse_int}
use goserver.Tokens.{unix}

-- `GenerateWSToken`
unfoldable pub generate_ws_token : (Str → Str → Str) → Str → ℕ → ℕ → Str
generate_ws_token sign secret now duration =
    let payload = itoa (unix (now + duration)) in payload ++ b'.' ∷ sign secret payload

-- the errors of `ValidateWSToken`, and none
pub data WsResult : Type 0 where
  accepted : WsResult
  missing_token : WsResult
  invalid_format : WsResult
  invalid_signature : WsResult
  invalid_timestamp : WsResult
  token_expired : WsResult

unfoldable pub validate_ws_parts : (Str → Str → Str) → List Str → Str → ℕ → WsResult
validate_ws_parts sign (payload ∷ signature ∷ []) secret now =
    if not (str_eq signature (sign secret payload))
    then invalid_signature
    else elim (parse_int payload) [
      | none ↦ invalid_timestamp
      | some exp ↦ if exp.negative || ltb exp.magnitude (unix now) then token_expired else accepted
    ]
validate_ws_parts sign parts secret now = invalid_format

unfoldable pub validate_ws_token : (Str → Str → Str) → Str → Str → ℕ → WsResult
validate_ws_token sign token secret now = validate_ws_parts sign (split b'.' token) secret now

unfoldable pub authenticate_ws_request : (Str → Str → Str) → List (Str × Str) → Str → ℕ → WsResult
authenticate_ws_request sign query secret now =
    let token = get (codes "token") query in
    if null token then missing_token else validate_ws_token sign token secret now

-- ===== src/Tests/Documents.antt =====
-- Examples of scopes, chains, attributes of states, connection tokens and helpers.
use goserver.Common.{
  arith, List, [], ◌∷◌, ◌++◌, ◌≡◌, ℕ, Option, Bool, some, none, true, false, refl, map, inr, ◌↔◌,
}
use goserver.Text.{Str, codes, str_eq}
use goserver.Maps.{lookup}
use goserver.Tests.{program}
use goserver.Json.{Value, Items, Fields, get_dot_path}
use goserver.Json.Paths.{segments_of}
use goserver.Json.Leads.{Leads, get_dot_path_iff}
use goserver.Utils.{get_env_bytes, is_valid_origin}
use goserver.WsToken.{WsResult, generate_ws_token, validate_ws_token}
use goserver.WsToken.RoundTrip.{validate_ws_token-generate_ws_token}
use goserver.Web.Chains.{rendered_nodes}
use goserver.Web.Chains.Branches.{if_node, else_if_node, else_node, rendered_nodes_chain}
use goserver.Web.Scopes.{
  first_attribute, remove_runtime_state_attributes, snapshot, state_prefix,
  replace_runtime_state_tokens,
}
use goserver.Web.Scopes.Attributes.{remove_runtime_state_attributes-none}
use goserver.Web.Scopes.Snapshots.{lookup-snapshot}

-- A name of the inner scope hides that of the outer one.
abbrev scopes : List (List (Str × ℕ))
scopes = ((codes "x", 2) ∷ []) ∷ ((codes "x", 1) ∷ (codes "y", 3) ∷ []) ∷ []

lookup-snapshot_example : lookup (codes "x") (snapshot scopes) ≡ some 2
unfolding program
lookup-snapshot_example = lookup-snapshot (codes "x") scopes ((refl, tt), ((refl, (refl, tt)), tt))

-- Only the condition "b" holds.
abbrev only_b : Str → Option Bool
only_b value = some (str_eq value (codes "b"))

abbrev branches : List (Str × Str)
branches = (codes "two", codes "b") ∷ (codes "three", codes "b") ∷ []

rendered_nodes_chain_example :
    rendered_nodes {E = Str} none only_b (
      if_node (codes "one") (codes "a")
      ∷ (map else_if_node branches ++ else_node (codes "four") ∷ []))
    ≡ inr (else_if_node (codes "two", codes "b") ∷ [])
unfolding program
rendered_nodes_chain_example =
    rendered_nodes_chain none only_b (codes "one") (codes "a") branches (codes "four") []

remove_runtime_state_attributes-none_example :
    (r : Str) × (remove_runtime_state_attributes (codes "<b data-gosh-state=\"t\">") ≡ some r)
    × (first_attribute (b' ' ∷ state_prefix) r ≡ none)
unfolding program
remove_runtime_state_attributes-none_example =
    remove_runtime_state_attributes-none (codes "<b data-gosh-state=\"t\">")

attributes_replaced :
    replace_runtime_state_tokens (codes "<b data-gosh-state=\"t\">") ((codes "t", codes "u") ∷ [])
    ≡ some (codes "<b data-gosh-state=\"u\">")
unfolding program
attributes_replaced = refl

abbrev signature : Str → Str → Str
signature secret s = codes "sig"

validate_ws_token-generate_ws_token_example :
    validate_ws_token signature
      (generate_ws_token signature (codes "k") 5000000000 60000000000)
      (codes "k")
      7000000000
    ≡ WsResult.accepted
unfolding program
validate_ws_token-generate_ws_token_example =
    validate_ws_token-generate_ws_token signature (codes "k") 5000000000 60000000000 7000000000
      (λ s. omega arith) (omega arith)

-- A size of two to the 53rd kilobytes is two to the 63rd bytes, which is negative.
bytes_wrap : get_env_bytes (some (codes "9007199254740992kb")) 7 ≡ 9223372036854775808
unfolding program
bytes_wrap = refl

-- An origin whose host begins with "localhost" is let in.
origin_of_prefix :
    is_valid_origin false
      (λ o. some (codes "localhost.evil.com"))
      (λ h. false)
      (codes "http://localhost.evil.com")
      (codes "example.com")
    ≡ true
unfolding program
origin_of_prefix = refl

-- {"a": {"b": ["x", "y"]}}
abbrev decoded : Fields
decoded =
    Fields.field (codes "a")
      (Value.object (
        Fields.field (codes "b")
          (Value.array (
            Items.item (Value.text (codes "x"))
              (Items.item (Value.text (codes "y")) Items.nil_array)))
          Fields.nil_object))
      Fields.nil_object

get_dot_path_iff_example :
    ((get_dot_path (some decoded) (codes "a.b.1") []).0 ≡ some (Value.text (codes "y")))
    ↔ Leads (segments_of (codes "a.b.1")) (Value.object decoded) (Value.text (codes "y"))
unfolding program
get_dot_path_iff_example =
    get_dot_path_iff decoded (codes "a.b.1") [] (Value.text (codes "y")) refl
      (λ path segments h. cc)

-- ===== src/Web/Chains.antt =====
-- web_framework.go: the nodes that `renderNodes` renders, with the chains of `m-if`, `m-else-if`
-- and `m-else`. An expression's value is given by an argument, `none` where it fails; a node whose
-- rendering fails is logged and the loop goes on, so rendering is left as the list of nodes.
pub mod Branches
use goserver.Common.{
  arith, Bool, List, Option, [], ◌∷◌, ◌&&◌, if◌then◌else◌, none, some, true, false, not, inl, inr,
  ◌⊎◌,
}
use goserver.Text.{Str}

pub record Node : Type 0 where
  pub name : Str
  pub blank_text : Bool
  pub element : Bool
  pub if_value : Option Str
  pub else_if_value : Option Str
  pub is_else : Bool

-- the value of a condition: an error counts as false
unfoldable pub holds : (Str → Option Bool) → Str → Bool
holds eval value = elim (eval value) [ none ↦ false | some v ↦ v ]

-- what the loop's body does with a node: whether it is rendered, `chainActive` and `chainMatched`
unfoldable pub chain_step : (Str → Option Bool) → Bool → Bool → Node → Bool × Bool × Bool
chain_step eval active matched node =
    let plain : Bool × Bool × Bool = (true, false, false) in
    let at_else : Bool × Bool × Bool =
      if node.is_else && active
      then if matched then (false, false, true) else (true, false, true)
      else plain in
    if node.blank_text
    then (true, active, matched)
    else if node.element
    then elim node.if_value [
      | some value ↦ (holds eval value, true, holds eval value)
      | none ↦ elim node.else_if_value [
        | some value ↦
            if active
            then if matched then (false, true, true) else (holds eval value, true, holds eval value)
            else at_else
        | none ↦ at_else
      ]
    ]
    else plain

unfoldable pub rendered_from : (Str → Option Bool) → Bool → Bool → List Node → List Node
rendered_from eval active matched [] = []
rendered_from eval active matched (node ∷ nodes) =
    let r = chain_step eval active matched node in
    let rest = rendered_from eval r.1 r.2 nodes in if r.0 then node ∷ rest else rest

-- `renderNodes`: an error of the context of the request, where there is one, is returned before any
-- node is rendered
unfoldable pub rendered_nodes :
    {E : Type 0} → Option E → (Str → Option Bool) → List Node → E ⊎ List Node
rendered_nodes context_error eval nodes = elim context_error [
  | some err ↦ inl err
  | none ↦ inr (rendered_from eval false false nodes)
]

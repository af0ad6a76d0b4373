-- ===== src/Web/Chains/Branches.antt =====
-- web_framework.go: which branch of a chain is rendered.
use goserver.Common.{
  arith, Bool, List, Option, [], ◌∷◌, ◌++◌, ◌≡◌, none, some, map, true, false, refl, if_intro,
  if◌then◌else◌, Bool-cases, inl, inr, ap,
}
use goserver.Text.{Str}
use goserver.Web.Chains.{Node, holds, chain_step, rendered_from, rendered_nodes}

-- Elements with one directive each: `m-if`, `m-else-if`, `m-else`.
abbrev pub if_node : Str → Str → Node
if_node name value = record {
  name = name;
  blank_text = false;
  element = true;
  if_value = some value;
  else_if_value = none;
  is_else = false;
}

abbrev pub else_if_node : Str × Str → Node
else_if_node (name, value) = record {
  name = name;
  blank_text = false;
  element = true;
  if_value = none;
  else_if_value = some value;
  is_else = false;
}

abbrev pub else_node : Str → Node
else_node name = record {
  name = name;
  blank_text = false;
  element = true;
  if_value = none;
  else_if_value = none;
  is_else = true;
}

-- The first branch whose condition holds, and else the last one.
unfoldable pub first_branch : (Str → Option Bool) → List (Str × Str) → Str → Node
first_branch eval [] last = else_node last
first_branch eval ((name, value) ∷ branches) last =
    let rest = first_branch eval branches last in
    if holds eval value then else_if_node (name, value) else rest

same_step :
    (eval : Str → Option Bool) (m n : Bool) (node : Node)
    → node.blank_text ≡ false
    → chain_step eval false m node ≡ chain_step eval false n node
unfolding chain_step
same_step eval m n node b = ground (arith, b)

blank_step :
    (eval : Str → Option Bool) (m : Bool) (node : Node)
    → node.blank_text ≡ true
    → chain_step eval false m node ≡ (true, false, m)
unfolding chain_step
blank_step eval m node b =
    if_intro (λ (x : Bool × Bool × Bool). x ≡ (true, false, m)) node.blank_text _ _ (λ _. refl)
      (λ n. cc)

-- The state of the loop does not matter where no chain is active.
inactive :
    (eval : Str → Option Bool) (m n : Bool) (nodes : List Node)
    → rendered_from eval false m nodes ≡ rendered_from eval false n nodes
unfolding rendered_from chain_step
inactive eval m n [] = refl
inactive eval m n (node ∷ nodes) = elim (Bool-cases node.blank_text) [
  | inl blank ↦
      rw (rendered_from, blank_step eval m node blank, blank_step eval n node blank)
        (ap (λ x. node ∷ x) (inactive eval m n nodes))
  | inr shown ↦ rw (rendered_from, same_step eval m n node shown) refl
]

skipped :
    (eval : Str → Option Bool) (branches : List (Str × Str)) (last : Str) (nodes : List Node)
    → rendered_from eval true true (map else_if_node branches ++ else_node last ∷ nodes)
      ≡ rendered_from eval false false nodes
unfolding rendered_from chain_step
skipped eval [] last nodes = inactive eval true false nodes
skipped eval ((name, value) ∷ branches) last nodes = skipped eval branches last nodes

tried :
    (eval : Str → Option Bool) (branches : List (Str × Str)) (last : Str) (nodes : List Node)
    → rendered_from eval true false (map else_if_node branches ++ else_node last ∷ nodes)
      ≡ first_branch eval branches last ∷ rendered_from eval false false nodes
unfolding rendered_from chain_step first_branch
tried eval [] last nodes = ap (λ x. else_node last ∷ x) (inactive eval true false nodes)
tried eval ((name, value) ∷ branches) last nodes = elim (Bool-cases (holds eval value)) [
  | inl yes_here ↦
      rw (rendered_from, chain_step, first_branch, yes_here)
        (ap (λ x. else_if_node (name, value) ∷ x) (skipped eval branches last nodes))
  | inr no_here ↦
      rw (rendered_from, chain_step, first_branch, no_here) (tried eval branches last nodes)
]

chain_branch :
    (eval : Str → Option Bool) (name value : Str) (branches : List (Str × Str)) (last : Str)
    (nodes : List Node)
    → rendered_from eval false false
        (if_node name value ∷ (map else_if_node branches ++ else_node last ∷ nodes))
      ≡ (if holds eval value then if_node name value else first_branch eval branches last)
        ∷ rendered_from eval false false nodes
unfolding rendered_from chain_step
chain_branch eval name value branches last nodes = elim (Bool-cases (holds eval value)) [
  | inl yes_here ↦
      rw (rendered_from, yes_here)
        (ap (λ x. if_node name value ∷ x) (skipped eval branches last nodes))
  | inr no_here ↦ rw (rendered_from, no_here) (tried eval branches last nodes)
]

-- Of an element with m-if, elements with m-else-if and one with m-else, each with this
-- directive only, one is rendered: the first whose condition holds, else the last; and the
-- nodes behind them are rendered as they are without the chain. Where the context of the
-- request has an error, that is returned with the chain as it is without.
pub rendered_nodes_chain :
    {E : Type 0} (context_error : Option E) (eval : Str → Option Bool) (name value : Str)
    (branches : List (Str × Str)) (last : Str) (nodes : List Node)
    → rendered_nodes context_error eval
        (if_node name value ∷ (map else_if_node branches ++ else_node last ∷ nodes))
      ≡ (elim (rendered_nodes context_error eval nodes) [
        | inl err ↦ inl err
        | inr shown ↦ inr (
            (if holds eval value then if_node name value else first_branch eval branches last)
            ∷ shown)
      ])
unfolding rendered_nodes
rendered_nodes_chain (some err) eval name value branches last nodes = refl
rendered_nodes_chain none eval name value branches last nodes =
    ap inr (chain_branch eval name value branches last nodes)

-- ===== src/Plan/Passed.antt =====
-- The tests of validatePlan that a plan has passed which it does not refuse.
use jinn.Base.{
  ℕ, ◌≤◌, ◌<◌, ◌≡◌, refl, Bool, true, false, not, ◌&&◌, Option, none, some, List, [], ◌∷◌, map,
  Bytes, bytes_eq, length, ltb, ◌==◌, if◌then◌else◌, arith,
}
use jinn.Plan.{
  PlanOp, PlanEdge, PlanNode, PlanTree, PlanInvalid, bad_command, bad_condition, empty, is_in,
  max_plan_nodes, max_plan_commands, max_plan_edges,
}
use jinn.Plan.Conditions.{high_confidence, validate_condition}
use jinn.Plan.Validate.{
  has_mutating, validate_plan_op, validate_commands, validate_nodes, validate_edges,
  validate_targets, validate_plan, bad_depth,
}

-- No error comes out of a test exactly where the test fails and none comes out behind it.
pub passed_if :
    {E : Type 0} (b : Bool) (e : E) (rest : Option E)
    → (if b then some e else rest) ≡ none
    → (b ≡ false) × (rest ≡ none)
passed_if true e rest h = ground arith
passed_if false e rest h = (refl, h)

passed_part :
    {D E : Type 0} (wrap : D → E) (part : Option D) (rest : Option E)
    → (elim part [ some e ↦ some (wrap e) | none ↦ rest ]) ≡ none
    → (part ≡ none) × (rest ≡ none)
passed_part wrap none rest h = (refl, h)
passed_part wrap (some e) rest h = ground arith

low_target : (a b : Bool) → (not a && b) ≡ false → a ≡ false → b ≡ false
low_target true b h e = ground arith
low_target false b h e = h

module _ (known : Bytes → Bool) (groups : Bytes → Option ℕ) where
  abbrev pub CommandsPass : List PlanOp → Type 0
  CommandsPass [] = Unit
  CommandsPass (op ∷ ops) = (validate_plan_op known op ≡ none) × CommandsPass ops

  -- The limits of a node, and its operations.
  abbrev pub NodePasses : PlanNode → Type 0
  NodePasses n =
      (0 < length n.id)
      × (length n.id ≤ 256)
      × (0 < length n.commands)
      × (length n.commands ≤ max_plan_commands)
      × (length n.edges ≤ max_plan_edges)
      × ((n.parallel && n.mutates) ≡ false)
      × CommandsPass n.commands

  -- The nodes pass, and their ids differ from each other and from those seen.
  abbrev pub NodesPass : List Bytes → List PlanNode → Type 0
  NodesPass seen [] = Unit
  NodesPass seen (n ∷ nodes) =
      (is_in n.id seen ≡ false) × NodePasses n × NodesPass (n.id ∷ seen) nodes

  -- An edge leads to a node of the plan; one of low confidence leads to no node that mutates.
  abbrev pub EdgePasses : List PlanNode → PlanEdge → Type 0
  EdgePasses all e =
      (validate_condition groups e.when ≡ none)
      × (is_in e.to (map (λ n. n.id) all) ≡ true)
      × (high_confidence e.when.kind ≡ false → has_mutating known groups e.to all ≡ false)

  abbrev pub EdgesPass : List PlanNode → List PlanEdge → Type 0
  EdgesPass all [] = Unit
  EdgesPass all (e ∷ edges) = EdgePasses all e × EdgesPass all edges

  abbrev pub TargetsPass : List PlanNode → List PlanNode → Type 0
  TargetsPass all [] = Unit
  TargetsPass all (n ∷ nodes) = EdgesPass all n.edges × TargetsPass all nodes

  abbrev pub Passed : PlanTree → Type 0
  Passed plan =
      (0 < length plan.nodes)
      × (length plan.nodes ≤ max_plan_nodes)
      × (bad_depth plan.max_depth ≡ false)
      × (is_in plan.root (map (λ n. n.id) plan.nodes) ≡ true)
      × NodesPass [] plan.nodes
      × TargetsPass plan.nodes plan.nodes

  validate_commands-Pass :
      (id : Bytes) (ops : List PlanOp)
      → validate_commands known groups id ops ≡ none
      → CommandsPass ops
  unfolding validate_commands
  validate_commands-Pass id [] h = tt
  validate_commands-Pass id (op ∷ ops) h =
      let (a, b) = passed_part (bad_command id) (validate_plan_op known op) _ h in
      (a, validate_commands-Pass id ops b)

  positive_id : (s : Bytes) → empty s ≡ false → 0 < length s
  positive_id [] h = unfold bytes_eq in ground arith
  positive_id (c ∷ s) h = omega arith

  validate_nodes-Pass :
      (seen : List Bytes) (nodes : List PlanNode)
      → validate_nodes known groups seen nodes ≡ none
      → NodesPass seen nodes
  unfolding validate_nodes
  validate_nodes-Pass seen [] h = tt
  validate_nodes-Pass seen (n ∷ nodes) h =
      let (a, h1) = passed_if (ltb 256 (length n.id)) _ _ h in
      let (b, h2) = passed_if (ltb max_plan_commands (length n.commands)) _ _ h1 in
      let (c, h3) = passed_if (ltb max_plan_edges (length n.edges)) _ _ h2 in
      let (d, h4) = passed_if (empty n.id) _ _ h3 in
      let (e, h5) = passed_if (is_in n.id seen) _ _ h4 in
      let (f, h6) = passed_if (n.parallel && n.mutates) _ _ h5 in
      let (g, h7) = passed_if (length n.commands == 0) _ _ h6 in
      let (i, h8) =
        passed_part (λ (x : PlanInvalid). x) (validate_commands known groups n.id n.commands) _
          h7 in
      (
        e,
        (
          positive_id n.id d,
          ground arith,
          ground arith,
          ground arith,
          ground arith,
          f,
          validate_commands-Pass n.id n.commands i,
        ),
        validate_nodes-Pass (n.id ∷ seen) nodes h8,
      )

  validate_edges-Pass :
      (all : List PlanNode) (from : Bytes) (edges : List PlanEdge)
      → validate_edges known groups all (map (λ n. n.id) all) from edges ≡ none
      → EdgesPass all edges
  unfolding validate_edges
  validate_edges-Pass all from [] h = tt
  validate_edges-Pass all from (e ∷ edges) h =
      let (a, h1) = passed_part (bad_condition from) (validate_condition groups e.when) _ h in
      let (b, h2) = passed_if (not (is_in e.to (map (λ n. n.id) all))) _ _ h1 in
      let (c, h3) =
        passed_if (not (high_confidence e.when.kind) && has_mutating known groups e.to all) _ _
          h2 in
      ((a, ground arith, λ low. low_target _ _ c low), validate_edges-Pass all from edges h3)

  validate_targets-Pass :
      (all nodes : List PlanNode)
      → validate_targets known groups all (map (λ n. n.id) all) nodes ≡ none
      → TargetsPass all nodes
  unfolding validate_targets
  validate_targets-Pass all [] h = tt
  validate_targets-Pass all (n ∷ nodes) h =
      let (a, h1) =
        passed_part (λ (x : PlanInvalid). x)
          (validate_edges known groups all (map (λ m. m.id) all) n.id n.edges) _ h in
      (validate_edges-Pass all n.id n.edges a, validate_targets-Pass all nodes h1)

  -- A plan that validation does not refuse passes each of its tests.
  pub validate_plan-Passed :
      (plan : PlanTree) → validate_plan known groups plan ≡ none → Passed plan
  unfolding validate_plan
  validate_plan-Passed plan h =
      let ids = map (λ n. n.id) plan.nodes in
      let (a, h1) = passed_if (ltb max_plan_nodes (length plan.nodes)) _ _ h in
      let (b, h2) = passed_if (bad_depth plan.max_depth) _ _ h1 in
      let (c, h3) = passed_if (length plan.nodes == 0) _ _ h2 in
      let (d, h4) = passed_if (empty plan.root) _ _ h3 in
      let (e, h5) =
        passed_part (λ (x : PlanInvalid). x) (validate_nodes known groups [] plan.nodes) _ h4 in
      let (f, h6) = passed_if (not (is_in plan.root ids)) _ _ h5 in
      (
        ground arith,
        ground arith,
        b,
        ground arith,
        validate_nodes-Pass [] plan.nodes e,
        validate_targets-Pass plan.nodes plan.nodes h6,
      )

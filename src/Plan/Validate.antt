-- ===== src/Plan/Validate.antt =====
-- internal/jinn/plan_engine.go, validatePlan: which plans are run.
use jinn.Base.{
  ℕ, Bool, true, false, not, ◌&&◌, ◌||◌, Option, none, some, List, [], ◌∷◌, Bytes, codes, map,
  bytes_eq, trim_space, length, ℤ, pos, negsuc, ltb, ◌==◌, if◌then◌else◌,
}
use jinn.Plan.{
  PlanOp, PlanEdge, PlanNode, PlanTree, PlanInvalid, too_many_nodes, bad_max_depth, no_nodes,
  no_root_id, long_node_id, no_node_id, too_many_commands, too_many_edges, duplicate_node,
  parallel_and_mutates, no_commands, root_not_found, bad_command, bad_condition, unknown_target,
  low_confidence, empty, is_in, max_plan_nodes, max_plan_commands, max_plan_edges, max_plan_depth,
}
use jinn.Plan.Conditions.{high_confidence, validate_condition, first_error}

abbrev pub differ : Bool → Bool → Bool
differ true b = not b
differ false b = b

-- The tests of an operation, in order; `known` tells whether the registry has the tool.
abbrev pub op_checks : (Bytes → Bool) → PlanOp → List (Bool × Bytes)
op_checks known op =
    let has_shell = not (empty (trim_space op.shell)) in
    let has_tool = not (empty op.tool) in
    (not (differ has_shell has_tool), codes "plan op must set exactly one non-empty shell or tool")
    ∷ (
      has_tool && is_in op.tool (codes "web_fetch" ∷ codes "web_search" ∷ []),
      codes "tool is not permitted in run_plan",
    )
    ∷ (has_tool && not (known op.tool), codes "unknown tool")
    ∷ []

unfoldable pub validate_plan_op : (Bytes → Bool) → PlanOp → Option Bytes
unfolding bytes_eq is_in trim_space
validate_plan_op known op = first_error (op_checks known op)

abbrev pub bad_depth : ℤ → Bool
bad_depth (negsuc n) = true
bad_depth (pos n) = ltb max_plan_depth n

module _ (known : Bytes → Bool) (groups : Bytes → Option ℕ) where
  -- The operations of a node, in order.
  unfoldable pub validate_commands : Bytes → List PlanOp → Option PlanInvalid
  unfolding validate_plan_op
  validate_commands id [] = none
  validate_commands id (op ∷ ops) =
      let rest = validate_commands id ops in
      elim (validate_plan_op known op) [ some e ↦ some (bad_command id e) | none ↦ rest ]

  -- The first loop over the nodes; `seen` holds the ids before.
  unfoldable pub validate_nodes : List Bytes → List PlanNode → Option PlanInvalid
  unfolding validate_commands is_in bytes_eq
  validate_nodes seen [] = none
  validate_nodes seen (n ∷ nodes) =
      let rest = validate_nodes (n.id ∷ seen) nodes in
      let commands : Option PlanInvalid = elim (validate_commands n.id n.commands) [
        | some e ↦ some e
        | none ↦ rest
      ] in
      if ltb 256 (length n.id)
      then some long_node_id
      else if ltb max_plan_commands (length n.commands)
      then some (too_many_commands n.id)
      else if ltb max_plan_edges (length n.edges)
      then some (too_many_edges n.id)
      else if empty n.id
      then some no_node_id
      else if is_in n.id seen
      then some (duplicate_node n.id)
      else if n.parallel && n.mutates
      then some (parallel_and_mutates n.id)
      else if length n.commands == 0
      then some (no_commands n.id)
      else commands

  -- Whether a node of that id mutates.
  unfoldable pub has_mutating : Bytes → List PlanNode → Bool
  unfolding bytes_eq
  has_mutating id [] = false
  has_mutating id (n ∷ nodes) = bytes_eq n.id id && n.mutates || has_mutating id nodes

  -- The edges of the node `from`, among all nodes and their ids.
  unfoldable pub validate_edges :
      List PlanNode → List Bytes → Bytes → List PlanEdge → Option PlanInvalid
  unfolding validate_condition is_in high_confidence has_mutating
  validate_edges all ids from [] = none
  validate_edges all ids from (e ∷ edges) =
      let rest = validate_edges all ids from edges in
      let behind : Option PlanInvalid =
        if not (is_in e.to ids)
        then some (unknown_target from e.to)
        else if not (high_confidence e.when.kind) && has_mutating e.to all
        then some (low_confidence e.when.kind e.to)
        else rest in
      elim (validate_condition groups e.when) [
        | some problem ↦ some (bad_condition from problem)
        | none ↦ behind
      ]

  -- The second loop over the nodes.
  unfoldable pub validate_targets : List PlanNode → List Bytes → List PlanNode → Option PlanInvalid
  unfolding validate_edges
  validate_targets all ids [] = none
  validate_targets all ids (n ∷ nodes) =
      let rest = validate_targets all ids nodes in
      elim (validate_edges all ids n.id n.edges) [ some e ↦ some e | none ↦ rest ]

  -- `none` is acceptance. A negative limit and one above the maximum are refused alike.
  unfoldable pub validate_plan : PlanTree → Option PlanInvalid
  unfolding validate_nodes validate_targets is_in bytes_eq
  validate_plan plan =
      let ids = map (λ n. n.id) plan.nodes in
      let targets : Option PlanInvalid =
        if not (is_in plan.root ids)
        then some (root_not_found plan.root)
        else validate_targets plan.nodes ids plan.nodes in
      let checked : Option PlanInvalid = elim (validate_nodes [] plan.nodes) [
        | some e ↦ some e
        | none ↦ targets
      ] in
      if ltb max_plan_nodes (length plan.nodes)
      then some too_many_nodes
      else if bad_depth plan.max_depth
      then some bad_max_depth
      else if length plan.nodes == 0
      then some no_nodes
      else if empty plan.root
      then some no_root_id
      else checked

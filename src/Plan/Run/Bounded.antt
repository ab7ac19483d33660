-- ===== src/Plan/Run/Bounded.antt =====
-- The run of a plan ends, within its depth limit and the budget of operations.
use jinn.Base.{
  ℕ, zero, suc, ◌+◌, ◌-◌, ◌≤◌, ◌≡◌, ◌≢◌, sym, subst, Bool, Option, none, some, List, Bytes, length,
  ltb, if_cases, Option-cases, inl, inr, arith,
}
use jinn.Plan.{Condition, PlanOp, PlanNode, PlanTree, max_plan_operations}
use jinn.Plan.Results.{
  max_depth, aborted, resource_limit, out_of_fuel, nil_node, PlanOpResult, PlanNodeResult,
  PlanRunResult, start_result, reserve_plan_operations, find_node,
}
use jinn.Plan.Run.{
  PlanState, run_commands, stop, after_node, add_node, fit_result, run_node, enter_node, round,
  run_rounds, run_plan_tree,
}
use jinn.Plan.Run.Commands.{KeepsBudget, run_commands-Within}
use jinn.Plan.Run.Ends.{
  Ended, Promises, stop-Ended, counted, after_node-Continues, fit_result-nodes,
  fit_result-operations, add_node-counts,
}

module _ {World : Type 0} (ctx_err : World → Bool × World)
    (run_op : PlanNode → ℕ → PlanOp → PlanState World → (PlanOpResult × Bool) × PlanState World)
    (evaluate : PlanOpResult → Condition → World → Option Bool × World)
    (within_budget : List PlanNodeResult → List Bytes → ℕ → ℕ → ℕ → Bool) where
  run_node-Ended :
      KeepsBudget ctx_err run_op evaluate within_budget
      → (more : ℕ → Bytes → PlanRunResult → PlanState World → PlanRunResult × PlanState World)
        (node : PlanNode) (current : Bytes) (limit depth base : ℕ) (acc : PlanRunResult)
        (st : PlanState World)
      → Promises ctx_err run_op evaluate within_budget limit (suc depth) more
      → depth ≤ limit
      → base + length node.commands ≤ st.reserved
      → st.reserved ≤ max_plan_operations
      → Ended ctx_err run_op evaluate within_budget limit depth acc base
          (run_node ctx_err run_op evaluate within_budget more node current depth acc st)
  unfolding run_node
  run_node-Ended keeps more node current limit depth base acc st promises h room b =
      let run = run_commands ctx_err run_op evaluate within_budget node depth st in
      let (e, k, m) =
        run_commands-Within ctx_err run_op evaluate within_budget keeps node depth st b in
      let st' : PlanState World = record run.state { world = (ctx_err run.state.world).1 } in
      let acc' = add_node ctx_err run_op evaluate within_budget acc current depth run in
      let (x, y) = add_node-counts ctx_err run_op evaluate within_budget acc current depth run in
      let fits =
        within_budget acc'.transcript acc'.path_taken depth acc'.edges_evaluated
          acc'.edges_matched in
      let stopped = (ctx_err run.state.world).0 in
      let fitted = fit_result ctx_err run_op evaluate within_budget acc' depth in
      counted ctx_err run_op evaluate within_budget limit depth base run.executed acc acc' st'
        (after_node ctx_err run_op evaluate within_budget fits stopped run.blocked more node
          run.last depth acc' fitted st')
        x y (omega arith)
        (after_node-Continues ctx_err run_op evaluate within_budget fits stopped run.blocked more
          node run.last limit depth acc' fitted st'
          (fit_result-nodes ctx_err run_op evaluate within_budget acc' depth)
          (fit_result-operations ctx_err run_op evaluate within_budget acc' depth) promises h m)

  reserved_within :
      (reserved count next : ℕ)
      → reserved ≤ max_plan_operations
      → reserve_plan_operations reserved count ≡ some next
      → (next ≡ reserved + count) × (next ≤ max_plan_operations)
  unfolding reserve_plan_operations
  reserved_within reserved count next h e = ground arith

  enter_node-Ended :
      KeepsBudget ctx_err run_op evaluate within_budget
      → (more : ℕ → Bytes → PlanRunResult → PlanState World → PlanRunResult × PlanState World)
        (found : Option PlanNode) (current : Bytes) (limit depth : ℕ) (acc : PlanRunResult)
        (st : PlanState World)
      → Promises ctx_err run_op evaluate within_budget limit (suc depth) more
      → depth ≤ limit
      → st.reserved ≤ max_plan_operations
      → Ended ctx_err run_op evaluate within_budget limit depth acc st.reserved
          (enter_node ctx_err run_op evaluate within_budget more found current depth acc st)
  enter_node-Ended keeps more none current limit depth acc st promises h b =
      stop-Ended ctx_err run_op evaluate within_budget limit depth acc nil_node st (ground arith)
        (omega arith) b
  enter_node-Ended keeps more (some node) current limit depth acc st promises h b =
      let entered : Option ℕ → PlanRunResult × PlanState World = λ o. elim o [
        | none ↦ stop ctx_err run_op evaluate within_budget acc depth resource_limit st
        | some reserved ↦
            run_node ctx_err run_op evaluate within_budget more node current depth acc
              (record st { reserved = reserved })
      ] in
      let P : Option ℕ → Type 0 =
        λ o. Ended ctx_err run_op evaluate within_budget limit depth acc st.reserved (entered o) in
      elim (Option-cases (reserve_plan_operations st.reserved (length node.commands))) [
        | inl e ↦ subst P (sym e) (
            stop-Ended ctx_err run_op evaluate within_budget limit depth acc resource_limit st
              (ground arith) (omega arith) b)
        | inr (next, e) ↦
            let (x, y) = reserved_within st.reserved (length node.commands) next b e in
            subst P (sym e) (
              run_node-Ended keeps more node current limit depth st.reserved acc
                (record st { reserved = next }) promises h (omega arith) y)
      ]

  round-Ended :
      KeepsBudget ctx_err run_op evaluate within_budget
      → (more : ℕ → Bytes → PlanRunResult → PlanState World → PlanRunResult × PlanState World)
        (nodes : List PlanNode) (current : Bytes) (limit depth : ℕ) (acc : PlanRunResult)
        (st : PlanState World)
      → (depth ≤ limit → Promises ctx_err run_op evaluate within_budget limit (suc depth) more)
      → depth ≤ limit + 1
      → st.reserved ≤ max_plan_operations
      → Ended ctx_err run_op evaluate within_budget limit depth acc st.reserved
          (round ctx_err run_op evaluate within_budget more nodes limit depth current acc st)
  unfolding round
  round-Ended keeps more nodes current limit depth acc st promises h b =
      let st' : PlanState World = record st { world = (ctx_err st.world).1 } in
      let P : PlanRunResult × PlanState World → Type 0 =
        λ out. Ended ctx_err run_op evaluate within_budget limit depth acc st.reserved out in
      if_cases P (ctx_err st.world).0 _ _
        (λ t.
          stop-Ended ctx_err run_op evaluate within_budget limit depth acc aborted st'
            (ground arith) h b)
        (λ f.
          if_cases P (ltb limit depth) _ _
            (λ t.
              stop-Ended ctx_err run_op evaluate within_budget limit depth acc max_depth st'
                (ground arith) h b)
            (λ g.
              enter_node-Ended keeps more (find_node nodes current) current limit depth acc st'
                (promises (ground arith)) (ground arith) b))

  run_rounds-Ended :
      KeepsBudget ctx_err run_op evaluate within_budget
      → (nodes : List PlanNode) (limit fuel depth : ℕ) (current : Bytes) (acc : PlanRunResult)
        (st : PlanState World)
      → depth ≤ limit + 1
      → limit + 2 ≤ fuel + depth
      → st.reserved ≤ max_plan_operations
      → Ended ctx_err run_op evaluate within_budget limit depth acc st.reserved
          (run_rounds ctx_err run_op evaluate within_budget nodes limit fuel depth current acc st)
  unfolding run_rounds
  run_rounds-Ended keeps nodes limit zero depth current acc st h f b = absurd (omega arith)
  run_rounds-Ended keeps nodes limit (suc fuel) depth current acc st h f b =
      round-Ended keeps (run_rounds ctx_err run_op evaluate within_budget nodes limit fuel) nodes
        current limit depth acc st
        (λ le. λ current' acc' st' b'.
          run_rounds-Ended keeps nodes limit fuel (suc depth) current' acc' st' (omega arith)
            (omega arith) b')
        h b

  -- If no operation gives budget back or draws more than is left, the run of a plan that starts within its
  -- depth limit and the budget of 256 operations ends, at a depth no greater than the limit plus one: it
  -- runs at most one node for each depth up to the limit, and no more operations than it has drawn from the
  -- budget, which is never overdrawn.
  pub run_plan_tree-Ends :
      KeepsBudget ctx_err run_op evaluate within_budget
      → (plan : PlanTree) (depth limit : ℕ) (st : PlanState World) → depth ≤ limit
      → st.reserved ≤ max_plan_operations
      → let (r, st') = run_plan_tree ctx_err run_op evaluate within_budget plan depth limit st in
        (r.stopped_reason ≢ out_of_fuel)
        × (r.executed_operations + st.reserved ≤ st'.reserved)
        × (st'.reserved ≤ max_plan_operations)
        × (r.executed_nodes + depth ≤ limit + 1)
        × (r.depth_reached ≤ limit + 1)
  unfolding run_plan_tree
  run_plan_tree-Ends keeps plan depth limit st h b =
      let P : PlanRunResult × PlanState World → Type 0 = λ (r, st').
        (r.stopped_reason ≢ out_of_fuel)
        × (r.executed_operations + st.reserved ≤ st'.reserved)
        × (st'.reserved ≤ max_plan_operations)
        × (r.executed_nodes + depth ≤ limit + 1)
        × (r.depth_reached ≤ limit + 1) in
      let run =
        run_rounds ctx_err run_op evaluate within_budget plan.nodes limit (limit + 2 - depth) depth
          plan.root (start_result depth) st in
      let (p, q, r, s, t) =
        run_rounds-Ended keeps plan.nodes limit (limit + 2 - depth) depth plan.root
          (start_result depth) st (omega arith) (omega arith) b in
      if_cases P (ltb limit depth) (start_result depth, st) run (λ x. absurd (ground arith))
        (λ x. (p, omega arith, r, omega arith, t))

-- ===== src/Plan/Run/Ends.antt =====
-- How a round of a plan ends, behind the operations of its node.
use native.Mathlib.Nat.{le_refl}
use jinn.Base.{
  ℕ, suc, ◌+◌, ◌≤◌, ◌≡◌, ◌≢◌, refl, Bool, true, false, Option, List, Bytes, length, ◌==◌, if_cases,
  arith,
}
use jinn.Plan.{Condition, PlanOp, PlanNode, max_plan_operations}
use jinn.Plan.Results.{
  StopReason, leaf, no_edge_match, mutation_blocked, aborted, failed, resource_limit, out_of_fuel,
  PlanOpResult, PlanNodeResult, PlanRunResult,
}
use jinn.Plan.Run.{
  PlanState, NodeRun, EdgeOutcome, cancelled, broken, unmatched, follow, stop, take_edge,
  after_node, add_node, fit_result, next_round,
}

module _ {World : Type 0} (ctx_err : World → Bool × World)
    (run_op : PlanNode → ℕ → PlanOp → PlanState World → (PlanOpResult × Bool) × PlanState World)
    (evaluate : PlanOpResult → Condition → World → Option Bool × World)
    (within_budget : List PlanNodeResult → List Bytes → ℕ → ℕ → ℕ → Bool) where
  -- How a run ends that starts at a depth with a result so far and a budget of which `reserved` is used.
  abbrev pub Ended : ℕ → ℕ → PlanRunResult → ℕ → PlanRunResult × PlanState World → Type 0
  Ended limit depth acc reserved (r, st) =
      (r.stopped_reason ≢ out_of_fuel)
      × (r.executed_operations + reserved ≤ acc.executed_operations + st.reserved)
      × (st.reserved ≤ max_plan_operations)
      × (r.executed_nodes + depth ≤ acc.executed_nodes + (limit + 1))
      × (r.depth_reached ≤ limit + 1)

  -- What the rounds that follow promise.
  abbrev pub Promises :
      ℕ
      → ℕ
      → (ℕ → Bytes → PlanRunResult → PlanState World → PlanRunResult × PlanState World)
      → Type 0
  Promises limit depth more =
      (current : Bytes) (acc : PlanRunResult) (st : PlanState World)
      → st.reserved ≤ max_plan_operations
      → Ended limit depth acc st.reserved (more depth current acc st)

  pub stop-Ended :
      (limit depth : ℕ) (acc : PlanRunResult) (reason : StopReason) (st : PlanState World)
      → reason ≢ out_of_fuel
      → depth ≤ limit + 1
      → st.reserved ≤ max_plan_operations
      → Ended limit depth acc st.reserved
          (stop ctx_err run_op evaluate within_budget acc depth reason st)
  stop-Ended limit depth acc reason st a b c = (a, omega arith, c, omega arith, b)

  -- The same behind the operations of a node, which is counted already.
  abbrev pub Continues : ℕ → ℕ → PlanRunResult → ℕ → PlanRunResult × PlanState World → Type 0
  Continues limit depth acc reserved (r, st) =
      (r.stopped_reason ≢ out_of_fuel)
      × (r.executed_operations + reserved ≤ acc.executed_operations + st.reserved)
      × (st.reserved ≤ max_plan_operations)
      × (r.executed_nodes + depth ≤ acc.executed_nodes + limit)
      × (r.depth_reached ≤ limit + 1)

  pub stop-Continues :
      (limit depth : ℕ) (acc : PlanRunResult) (reason : StopReason) (st : PlanState World)
      → reason ≢ out_of_fuel
      → depth ≤ limit
      → st.reserved ≤ max_plan_operations
      → Continues limit depth acc st.reserved
          (stop ctx_err run_op evaluate within_budget acc depth reason st)
  stop-Continues limit depth acc reason st a b c = (a, le_refl _, c, omega arith, omega arith)

  take_edge-Continues :
      (more : ℕ → Bytes → PlanRunResult → PlanState World → PlanRunResult × PlanState World)
      (node : PlanNode) (limit depth : ℕ) (acc : PlanRunResult) (st : PlanState World)
      (outcome : EdgeOutcome)
      → Promises limit (suc depth) more
      → depth ≤ limit
      → st.reserved ≤ max_plan_operations
      → Continues limit depth acc st.reserved
          (take_edge ctx_err run_op evaluate within_budget more node depth acc st outcome)
  take_edge-Continues more node limit depth acc st cancelled promises h b =
      stop-Continues limit depth acc aborted st (ground arith) h b
  take_edge-Continues more node limit depth acc st broken promises h b =
      stop-Continues limit depth acc failed st (ground arith) h b
  take_edge-Continues more node limit depth acc st unmatched promises h b =
      stop-Continues limit depth acc _ st
        (if_cases (λ r. r ≢ out_of_fuel) (length node.edges == 0) leaf no_edge_match
          (λ t. ground arith) (λ f. ground arith))
        h b
  take_edge-Continues more node limit depth acc st (follow to) promises h b =
      let (p, q, r, s, t) =
        promises to (record acc { edges_matched = suc acc.edges_matched }) st b in
      (p, q, r, omega arith, t)

  next_round-Continues :
      (more : ℕ → Bytes → PlanRunResult → PlanState World → PlanRunResult × PlanState World)
      (node : PlanNode) (last : PlanOpResult) (limit depth : ℕ) (acc : PlanRunResult)
      (st : PlanState World)
      → Promises limit (suc depth) more
      → depth ≤ limit
      → st.reserved ≤ max_plan_operations
      → Continues limit depth acc st.reserved
          (next_round ctx_err run_op evaluate within_budget more node last depth acc st)
  unfolding next_round
  next_round-Continues more node last limit depth acc st promises h b =
      take_edge-Continues more node limit depth _ _ _ promises h b

  -- With the operations of the node counted.
  pub counted :
      (limit depth base used : ℕ) (acc acc' : PlanRunResult) (st : PlanState World)
      (out : PlanRunResult × PlanState World)
      → acc'.executed_nodes ≡ suc acc.executed_nodes
      → acc'.executed_operations ≡ acc.executed_operations + used
      → base + used ≤ st.reserved
      → Continues limit depth acc' st.reserved out
      → Ended limit depth acc base out
  counted limit depth base used acc acc' st out a b c (p, q, r, s, t) =
      (p, omega arith, r, omega arith, t)

  pub after_node-Continues :
      (fits stopped blocked : Bool)
      (more : ℕ → Bytes → PlanRunResult → PlanState World → PlanRunResult × PlanState World)
      (node : PlanNode) (last : PlanOpResult) (limit depth : ℕ) (acc fitted : PlanRunResult)
      (st : PlanState World)
      → fitted.executed_nodes ≡ acc.executed_nodes
      → fitted.executed_operations ≡ acc.executed_operations
      → Promises limit (suc depth) more
      → depth ≤ limit
      → st.reserved ≤ max_plan_operations
      → Continues limit depth acc st.reserved (
          after_node ctx_err run_op evaluate within_budget fits stopped blocked more node last depth
            acc fitted st)
  after_node-Continues false stopped blocked more node last limit depth acc fitted st a c promises h
        b =
      (
        if_cases (λ r. r ≢ out_of_fuel) stopped aborted resource_limit (λ i. ground arith)
            (λ i. ground arith),
        omega arith,
        b,
        omega arith,
        omega arith,
      )
  after_node-Continues true true blocked more node last limit depth acc fitted st a c promises h b =
      stop-Continues limit depth acc aborted st (ground arith) h b
  after_node-Continues true false true more node last limit depth acc fitted st a c promises h b =
      stop-Continues limit depth acc mutation_blocked st (ground arith) h b
  after_node-Continues true false false more node last limit depth acc fitted st a c promises h b =
      next_round-Continues more node last limit depth acc st promises h b

  pub fit_result-nodes :
      (acc : PlanRunResult) (depth : ℕ)
      → (fit_result ctx_err run_op evaluate within_budget acc depth).executed_nodes
        ≡ acc.executed_nodes
  unfolding fit_result
  fit_result-nodes acc depth = refl

  pub fit_result-operations :
      (acc : PlanRunResult) (depth : ℕ)
      → (fit_result ctx_err run_op evaluate within_budget acc depth).executed_operations
        ≡ acc.executed_operations
  unfolding fit_result
  fit_result-operations acc depth = refl

  pub add_node-counts :
      (acc : PlanRunResult) (current : Bytes) (depth : ℕ) (run : NodeRun World)
      → ((add_node ctx_err run_op evaluate within_budget acc current depth run).executed_nodes
          ≡ suc acc.executed_nodes)
        × ((add_node ctx_err run_op evaluate within_budget acc current depth
              run).executed_operations
            ≡ acc.executed_operations + run.executed)
  unfolding add_node
  add_node-counts acc current depth run = (refl, refl)

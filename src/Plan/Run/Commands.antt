-- ===== src/Plan/Run/Commands.antt =====
-- The operations of one node draw on the budget no further than it reaches.
use native.Mathlib.Nat.{le_refl}
use jinn.Base.{ℕ, suc, ◌≤◌, Bool, ◌&&◌, Option, List, [], ◌∷◌, Bytes, length, ltb, if_cases, arith}
use jinn.Plan.{Condition, PlanOp, PlanNode, max_plan_operations}
use jinn.Plan.Results.{PlanOpResult, PlanNodeResult}
use jinn.Plan.Run.{PlanState, NodeRun, run_serial, run_parallel, run_commands}

module _ {World : Type 0} (ctx_err : World → Bool × World)
    (run_op : PlanNode → ℕ → PlanOp → PlanState World → (PlanOpResult × Bool) × PlanState World)
    (evaluate : PlanOpResult → Condition → World → Option Bool × World)
    (within_budget : List PlanNodeResult → List Bytes → ℕ → ℕ → ℕ → Bool) where
  -- An operation does not give budget back, and a plan nested in it keeps to the limit.
  abbrev pub KeepsBudget : Type 0
  KeepsBudget =
      (node : PlanNode) (depth : ℕ) (op : PlanOp) (st : PlanState World)
      → st.reserved ≤ max_plan_operations
      → (st.reserved ≤ (run_op node depth op st).1.reserved)
        × ((run_op node depth op st).1.reserved ≤ max_plan_operations)

  -- Operations that were run, at most `most`, and the budget behind them.
  abbrev pub Within : ℕ → PlanState World → NodeRun World → Type 0
  Within most st run =
      (run.executed ≤ most)
      × (st.reserved ≤ run.state.reserved)
      × (run.state.reserved ≤ max_plan_operations)

  run_serial-Within :
      KeepsBudget
      → (node : PlanNode) (depth : ℕ) (ops : List PlanOp) (last : PlanOpResult)
        (st : PlanState World)
      → st.reserved ≤ max_plan_operations
      → Within
          (length ops)
          st
          (run_serial ctx_err run_op evaluate within_budget node depth ops last st)
  unfolding run_serial
  run_serial-Within keeps node depth [] last st h = (le_refl _, le_refl _, h)
  run_serial-Within keeps node depth (op ∷ ops) last st h =
      let st' = record st { world = (ctx_err st.world).1 } in
      let ran = run_op node depth op st' in
      let (a, b) = keeps node depth op st' h in
      let (c, d, e) = run_serial-Within keeps node depth ops ran.0.0 ran.1 b in
      if_cases (Within (suc (length ops)) st) (ctx_err st.world).0 _ _
        (λ t. (omega arith, le_refl _, h))
        (λ f.
          if_cases (Within (suc (length ops)) st) ran.0.1 _ _ (λ t. (omega arith, a, b))
            (λ g. (omega arith, omega arith, e)))

  run_parallel-Within :
      KeepsBudget
      → (node : PlanNode) (depth : ℕ) (ops : List PlanOp) (last : PlanOpResult)
        (st : PlanState World)
      → st.reserved ≤ max_plan_operations
      → Within
          (length ops)
          st
          (run_parallel ctx_err run_op evaluate within_budget node depth ops last st)
  unfolding run_parallel
  run_parallel-Within keeps node depth [] last st h = (le_refl _, le_refl _, h)
  run_parallel-Within keeps node depth (op ∷ ops) last st h =
      let ran = run_op node depth op st in
      let (a, b) = keeps node depth op st h in
      let (c, d, e) = run_parallel-Within keeps node depth ops ran.0.0 ran.1 b in
      (omega arith, omega arith, e)

  pub run_commands-Within :
      KeepsBudget
      → (node : PlanNode) (depth : ℕ) (st : PlanState World) → st.reserved ≤ max_plan_operations
      → Within
          (length node.commands)
          st
          (run_commands ctx_err run_op evaluate within_budget node depth st)
  unfolding run_commands
  run_commands-Within keeps node depth st h =
      if_cases (Within (length node.commands) st) (node.parallel && ltb 1 (length node.commands)) _
        _ (λ t. run_parallel-Within keeps node depth node.commands _ st h)
        (λ f. run_serial-Within keeps node depth node.commands _ st h)

-- ===== src/Plan/Run.antt =====
-- internal/jinn/plan_engine.go, runPlanTree: a plan is a state machine. A round runs the operations of one
-- node and follows the first edge whose condition holds.
pub mod Commands
pub mod Ends
pub mod Bounded
pub mod Known
use jinn.Base.{
  ℕ, zero, suc, ◌+◌, ◌-◌, Bool, true, false, not, ◌&&◌, ◌||◌, Option, none, some, List, [], ◌∷◌,
  ◌++◌, map, Bytes, bytes_eq, length, take, get_or, min, ℤ, pos, negsuc, ltb, leb, ◌==◌,
  if◌then◌else◌,
}
use jinn.Plan.{
  Condition, PlanOp, PlanEdge, PlanNode, PlanTree, max_plan_operations, default_max_depth,
}
use jinn.Plan.Results.{
  StopReason, leaf, no_edge_match, max_depth, mutation_blocked, aborted, failed, resource_limit,
  out_of_fuel, nil_node, PlanOpResult, PlanNodeResult, PlanRunResult, no_result, start_result,
  bound_plan_op_result, compact_plan_transcript, reserve_plan_operations, find_node,
}

-- The world that operations act on, and the budget that a plan shares with the plans nested in it.
pub record PlanState (World : Type 0) : Type 0 where
  pub world : World
  pub reserved : ℕ

-- What the operations of a node leave behind.
pub record NodeRun (World : Type 0) : Type 0 where
  pub ops : List PlanOpResult
  pub last : PlanOpResult
  pub blocked : Bool
  pub executed : ℕ
  pub state : PlanState World

-- How the search for an edge ends.
pub data EdgeOutcome : Type 0 where
  cancelled broken unmatched : EdgeOutcome
  follow : Bytes → EdgeOutcome

-- `ctx_err` asks whether the context is cancelled. `run_op` stands for runMutatingOp on a node that
-- mutates and for runPlanOp on any other: the result, whether it was blocked, and the state behind it,
-- where a nested plan has drawn on the budget. `evaluate` stands for evaluateCondition, `none` for its
-- error. `within_budget` stands for planTranscriptWithinBudget, which measures the encoded result.
module _ {World : Type 0} (ctx_err : World → Bool × World)
    (run_op : PlanNode → ℕ → PlanOp → PlanState World → (PlanOpResult × Bool) × PlanState World)
    (evaluate : PlanOpResult → Condition → World → Option Bool × World)
    (within_budget : List PlanNodeResult → List Bytes → ℕ → ℕ → ℕ → Bool) where
  -- Operations one after the other, until the context is cancelled or one is blocked.
  unfoldable pub run_serial :
      PlanNode → ℕ → List PlanOp → PlanOpResult → PlanState World → NodeRun World
  run_serial node depth [] last st = record {
    ops = [];
    last = last;
    blocked = false;
    executed = 0;
    state = st;
  }
  run_serial node depth (op ∷ ops) last st =
      let (stop, w) = ctx_err st.world in
      let st' = record st { world = w } in
      let ((r, blocked), st'') = run_op node depth op st' in
      let more = run_serial node depth ops r st'' in
      if stop
      then record { ops = []; last = last; blocked = false; executed = 0; state = st' }
      else if blocked
      then record {
        ops = bound_plan_op_result 1024 r ∷ [];
        last = r;
        blocked = true;
        executed = 1;
        state = st'';
      }
      else record more {
        ops = bound_plan_op_result 1024 r ∷ more.ops;
        executed = suc more.executed;
      }

  -- Operations at the same time: all of them run, and their effects are taken in the order of the list.
  unfoldable pub run_parallel :
      PlanNode → ℕ → List PlanOp → PlanOpResult → PlanState World → NodeRun World
  run_parallel node depth [] last st = record {
    ops = [];
    last = last;
    blocked = false;
    executed = 0;
    state = st;
  }
  run_parallel node depth (op ∷ ops) last st =
      let ((r, blocked), st') = run_op node depth op st in
      let more = run_parallel node depth ops r st' in
      record more {
        ops = bound_plan_op_result 1024 r ∷ more.ops;
        blocked = blocked || more.blocked;
        executed = suc more.executed;
      }

  unfoldable pub run_commands : PlanNode → ℕ → PlanState World → NodeRun World
  unfolding run_serial run_parallel
  run_commands node depth st =
      if node.parallel && ltb 1 (length node.commands)
      then run_parallel node depth node.commands no_result st
      else run_serial node depth node.commands no_result st

  -- The edges in order; with the number of conditions evaluated.
  unfoldable pub follow_edges : List PlanEdge → PlanOpResult → ℕ → World → (EdgeOutcome × ℕ) × World
  follow_edges [] last evaluated w = ((unmatched, evaluated), w)
  follow_edges (e ∷ edges) last evaluated w =
      let (stop, w') = ctx_err w in
      let (answer, w'') = evaluate last e.when w' in
      let later = follow_edges edges last (suc evaluated) w'' in
      if stop then ((cancelled, evaluated), w') else elim answer [
        | none ↦ ((broken, suc evaluated), w'')
        | some matched ↦ (if matched then ((follow e.to, suc evaluated), w'') else later)
      ]

  -- The transcript without its first entries, and then the path without its first ones.
  unfoldable pub fit_path : List Bytes → ℕ → ℕ → ℕ → List Bytes
  fit_path [] depth evaluated matched = []
  fit_path (id ∷ path) depth evaluated matched =
      let rest = fit_path path depth evaluated matched in
      if within_budget [] (id ∷ path) depth evaluated matched then id ∷ path else rest

  unfoldable pub fit_plan_transcript :
      List PlanNodeResult → List Bytes → ℕ → ℕ → ℕ → List PlanNodeResult × List Bytes
  unfolding fit_path
  fit_plan_transcript [] path depth evaluated matched = ([], fit_path path depth evaluated matched)
  fit_plan_transcript (n ∷ transcript) path depth evaluated matched =
      let rest = fit_plan_transcript transcript path depth evaluated matched in
      if within_budget (n ∷ transcript) path depth evaluated matched
      then (n ∷ transcript, path)
      else rest

  -- newPlanRunResult, with the result so far.
  abbrev pub stop :
      PlanRunResult → ℕ → StopReason → PlanState World → PlanRunResult × PlanState World
  stop acc depth reason st = (record acc { depth_reached = depth; stopped_reason = reason }, st)

  -- What the rounds behind this one do, from a depth and a node on.
  abbrev Rounds : Type 0
  Rounds = ℕ → Bytes → PlanRunResult → PlanState World → PlanRunResult × PlanState World

  -- What follows the search for an edge.
  abbrev pub take_edge :
      Rounds
      → PlanNode
      → ℕ
      → PlanRunResult
      → PlanState World
      → EdgeOutcome
      → PlanRunResult × PlanState World
  take_edge more node depth acc st cancelled = stop acc depth aborted st
  take_edge more node depth acc st broken = stop acc depth failed st
  take_edge more node depth acc st unmatched =
      stop acc depth (if length node.edges == 0 then leaf else no_edge_match) st
  take_edge more node depth acc st (follow to) =
      more (suc depth) to (record acc { edges_matched = suc acc.edges_matched }) st

  -- The end of a round: the search for an edge.
  unfoldable pub next_round :
      Rounds
      → PlanNode
      → PlanOpResult
      → ℕ
      → PlanRunResult
      → PlanState World
      → PlanRunResult × PlanState World
  unfolding follow_edges
  next_round more node last depth acc st =
      let ((outcome, evaluated), w) = follow_edges node.edges last 0 st.world in
      take_edge more node depth (record acc { edges_evaluated = acc.edges_evaluated + evaluated })
        (record st { world = w }) outcome

  -- What follows the operations of a node: whether the transcript is within its budget, whether the context
  -- is cancelled, and whether an operation was blocked; `fitted` is the result with the transcript cut.
  abbrev pub after_node :
      Bool
      → Bool
      → Bool
      → Rounds
      → PlanNode
      → PlanOpResult
      → ℕ
      → PlanRunResult
      → PlanRunResult
      → PlanState World
      → PlanRunResult × PlanState World
  after_node false stopped blocked more node last depth acc fitted st =
      stop fitted depth (if stopped then aborted else resource_limit) st
  after_node true true blocked more node last depth acc fitted st = stop acc depth aborted st
  after_node true false true more node last depth acc fitted st = stop acc depth mutation_blocked st
  after_node true false false more node last depth acc fitted st =
      next_round more node last depth acc st

  -- The result with the operations of a node added.
  unfoldable pub add_node : PlanRunResult → Bytes → ℕ → NodeRun World → PlanRunResult
  add_node acc current depth run = record acc {
    transcript = acc.transcript ++ record { node_id = current; depth = depth; ops = run.ops } ∷ [];
    path_taken = acc.path_taken ++ current ∷ [];
    executed_nodes = suc acc.executed_nodes;
    executed_operations = acc.executed_operations + run.executed;
  }

  -- The result with its transcript and path cut to the budget.
  unfoldable pub fit_result : PlanRunResult → ℕ → PlanRunResult
  unfolding fit_plan_transcript compact_plan_transcript
  fit_result acc depth =
      let (transcript, path) =
        fit_plan_transcript (compact_plan_transcript acc.transcript) acc.path_taken depth
          acc.edges_evaluated acc.edges_matched in
      record acc { transcript = transcript; path_taken = path }

  -- The middle of a round: the operations of the node, for which the budget has room.
  unfoldable pub run_node :
      Rounds
      → PlanNode
      → Bytes
      → ℕ
      → PlanRunResult
      → PlanState World
      → PlanRunResult × PlanState World
  run_node more node current depth acc st =
      let run = run_commands node depth st in
      let (stopped, w) = ctx_err run.state.world in
      let acc' = add_node acc current depth run in
      after_node
        (within_budget acc'.transcript acc'.path_taken depth acc'.edges_evaluated
          acc'.edges_matched)
        stopped run.blocked more node run.last depth acc' (fit_result acc' depth)
        (record run.state { world = w })

  -- The start of a round, for the node found.
  abbrev pub enter_node :
      Rounds
      → Option PlanNode
      → Bytes
      → ℕ
      → PlanRunResult
      → PlanState World
      → PlanRunResult × PlanState World
  enter_node more none current depth acc st = stop acc depth nil_node st
  enter_node more (some node) current depth acc st =
      elim (reserve_plan_operations st.reserved (length node.commands)) [
        | none ↦ stop acc depth resource_limit st
        | some reserved ↦ run_node more node current depth acc (record st { reserved = reserved })
      ]

  -- A round. `depth` and `limit` are absolute: they count from the root of the outermost plan.
  unfoldable pub round :
      Rounds
      → List PlanNode
      → ℕ
      → ℕ
      → Bytes
      → PlanRunResult
      → PlanState World
      → PlanRunResult × PlanState World
  unfolding find_node
  round more nodes limit depth current acc st =
      let (stopped, w) = ctx_err st.world in
      let st' = record st { world = w } in
      let entered = enter_node more (find_node nodes current) current depth acc st' in
      if stopped
      then stop acc depth aborted st'
      else if ltb limit depth
      then stop acc depth max_depth st'
      else entered

  -- The loop of runPlanTree.
  unfoldable pub run_rounds :
      List PlanNode
      → ℕ
      → ℕ
      → ℕ
      → Bytes
      → PlanRunResult
      → PlanState World
      → PlanRunResult × PlanState World
  unfolding round
  run_rounds nodes limit zero depth current acc st = stop acc depth out_of_fuel st
  run_rounds nodes limit (suc fuel) depth current acc st =
      round (run_rounds nodes limit fuel) nodes limit depth current acc st

  -- runPlanTree from the depth and the limit of planExecutionContextFor on, in an engine that is already
  -- scoped to the plan's directory. A round goes one deeper, so that two more rounds than the limit are enough.
  unfoldable pub run_plan_tree :
      PlanTree → ℕ → ℕ → PlanState World → PlanRunResult × PlanState World
  unfolding run_rounds
  run_plan_tree plan depth limit st =
      let run =
        run_rounds plan.nodes limit (limit + 2 - depth) depth plan.root (start_result depth) st in
      if ltb limit depth then (start_result depth, st) else run

-- planExecutionContextFor: the depth and the limit of an outermost plan, or of one nested in a node at
-- `depth` under `limit`. A limit of 0 is none.
unfoldable pub plan_limits : Option (ℕ × ℕ) → ℕ → ℕ × ℕ
plan_limits none wanted = (0, if wanted == 0 then default_max_depth else wanted)
plan_limits (some (depth, limit)) wanted =
    (suc depth, if ltb 0 wanted then min limit (suc depth + wanted) else limit)

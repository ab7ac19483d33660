-- ===== src/Tests/PlanRuns.antt =====
-- internal/jinn/plan_engine.go on a plan of two nodes.
use native.Mathlib.Nat.{le_refl}
use jinn.Base.{
  ℕ, ◌+◌, ◌≤◌, ◌≡◌, ◌≢◌, refl, inl, ◌⊎◌, Bool, true, false, Option, some, none, List, [], ◌∷◌,
  Bytes, codes, pos, bytes_eq, arith,
}
use jinn.Plan.{nothing, Condition, PlanOp, PlanNode, PlanTree, unknown_target, max_plan_operations}
use jinn.Plan.Validate.{validate_plan}
use jinn.Plan.Accepted.{Accepted, validate_plan-Accepted}
use jinn.Plan.Results.{
  PlanOpResult, PlanNodeResult, out_of_fuel, nil_node, no_result, reserve_plan_operations,
}
use jinn.Plan.Run.{PlanState, run_plan_tree, run_node, run_commands, next_round, add_node}
use jinn.Plan.Run.Known.{run_plan_tree-Known}
use jinn.Plan.Run.Bounded.{run_plan_tree-Ends}
use jinn.Plan.Gate.{
  RiskLevel, safe, dangerous, Args, blocked_plan_op, op_risk, plan_phase1_tool_allowed, run_plan_op,
  run_mutating_op,
}
use jinn.Plan.Gate.Guarded.{
  tame_shell, tame_dispatch, run_mutating_op-guarded, run_plan_op-ReadOnly,
}

abbrev always : Condition
always = record {
  kind = codes "always";
  op = [];
  value = nothing;
  path = [];
  extract = [];
  regex = [];
  stream = [];
  negate = false;
}

abbrev list_files : PlanOp
list_files = record { shell = codes "ls"; tool = []; args = [] }

abbrev remove_all : PlanOp
remove_all = record { shell = codes "rm -rf /"; tool = []; args = [] }

abbrev first : PlanNode
first = record {
  id = codes "a";
  commands = list_files ∷ [];
  parallel = false;
  mutates = false;
  force = false;
  edges = record { when = always; to = codes "b" } ∷ [];
}

abbrev second : PlanNode
second = record {
  id = codes "b";
  commands = remove_all ∷ [];
  parallel = false;
  mutates = true;
  force = true;
  edges = [];
}

abbrev plan : PlanTree
plan = record {
  root = codes "a";
  nodes = first ∷ second ∷ [];
  cwd = [];
  max_depth = pos 3;
  force = false;
}

abbrev any_tool : Bytes → Bool
any_tool tool = true

abbrev no_groups : Bytes → Option ℕ
no_groups regex = some 0

validate_plan-Accepted_example : Accepted any_tool no_groups plan
unfolding validate_plan
validate_plan-Accepted_example = validate_plan-Accepted any_tool no_groups plan refl

-- The same plan with an edge to nowhere.
abbrev broken_plan : PlanTree
broken_plan = record plan { nodes = first ∷ [] }

edge_to_nowhere :
    validate_plan any_tool no_groups broken_plan ≡ some (unknown_target (codes "a") (codes "b"))
unfolding validate_plan
edge_to_nowhere = refl

-- A world that counts the operations; every one succeeds.
abbrev never : ℕ → Bool × ℕ
never w = (false, w)

abbrev succeed : PlanNode → ℕ → PlanOp → PlanState ℕ → (PlanOpResult × Bool) × PlanState ℕ
succeed node depth op st = ((no_result, false), record st { world = st.world + 1 })

abbrev holds : PlanOpResult → Condition → ℕ → Option Bool × ℕ
holds last condition w = (some true, w)

abbrev fits : List PlanNodeResult → List Bytes → ℕ → ℕ → ℕ → Bool
fits transcript path depth evaluated matched = true

abbrev start : PlanState ℕ
start = record { world = 0; reserved = 0 }

run_plan_tree-Ends_example :
    let (r, st') = run_plan_tree never succeed holds fits plan 0 3 start in
    (r.stopped_reason ≢ out_of_fuel)
    × (r.executed_operations + 0 ≤ st'.reserved)
    × (st'.reserved ≤ max_plan_operations)
    × (r.executed_nodes + 0 ≤ 3 + 1)
    × (r.depth_reached ≤ 3 + 1)
run_plan_tree-Ends_example =
    run_plan_tree-Ends never succeed holds fits (λ node depth op st h. (le_refl _, h)) plan 0 3
      start (omega arith) (omega arith)

both_nodes_run :
    (run_plan_tree never succeed holds fits plan 0 3 start).0.path_taken
    ≡ codes "a" ∷ codes "b" ∷ []
unfolding run_plan_tree reserve_plan_operations run_node run_commands next_round add_node
both_nodes_run = refl

-- Every command with "rm" in front is dangerous.
abbrev by_first_byte : Bytes → RiskLevel
by_first_byte (c ∷ s) = elim (bytes_eq (c ∷ []) (codes "r")) [ true ↦ dangerous | false ↦ safe ]
by_first_byte [] = safe

abbrev no_tools : Bytes → Option Bool
no_tools tool = none

-- The state is the list of the commands that were run.
abbrev record_command : Bytes → Args → Bool → List Bytes → PlanOpResult × List Bytes
record_command command args force log = (no_result, command ∷ log)

abbrev ignore : Bool → Bytes → Args → List Bytes → PlanOpResult × List Bytes
ignore authority tool args log = (no_result, log)

run_mutating_op-guarded_example :
    (run_mutating_op by_first_byte no_tools record_command ignore second false remove_all []
      ≡ run_mutating_op by_first_byte no_tools
          (tame_shell by_first_byte no_tools record_command ignore)
          (tame_dispatch by_first_byte no_tools record_command ignore)
          second
          false
          remove_all
          [])
    × (op_risk by_first_byte no_tools remove_all ≡ inl dangerous
        → run_mutating_op by_first_byte no_tools record_command ignore second false remove_all []
          ≡ (
            blocked_plan_op
                (codes "blocked: dangerous mutation requires plan.force and node.force"),
            [],
          ))
run_mutating_op-guarded_example =
    run_mutating_op-guarded by_first_byte no_tools record_command ignore second false remove_all []
      refl

run_plan_op-ReadOnly_example :
    let (r, st') = run_plan_op by_first_byte no_tools record_command ignore list_files [] in
    ((r.1 ≡ true) × (st' ≡ []))
    ⊎ ((safe ≡ safe) × (((r.0, st') ≡ record_command (codes "ls") [] false [])))
    ⊎ ((plan_phase1_tool_allowed list_files ≡ true) × ((r.0, st') ≡ ignore false [] [] []))
unfolding bytes_eq
run_plan_op-ReadOnly_example =
    run_plan_op-ReadOnly by_first_byte no_tools record_command ignore list_files []

removed_nothing :
    (run_mutating_op by_first_byte no_tools record_command ignore second false remove_all []).1 ≡ []
unfolding run_mutating_op
removed_nothing = refl

run_plan_tree-Known_example :
    (run_plan_tree never succeed holds fits plan 0 3 start).0.stopped_reason ≢ nil_node
unfolding validate_plan
run_plan_tree-Known_example =
    run_plan_tree-Known any_tool no_groups never succeed holds fits plan 0 3 start refl

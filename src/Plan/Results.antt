-- ===== src/Plan/Results.antt =====
-- internal/jinn/plan_engine.go: the results of a run, their bounds, and the budget of operations.
use jinn.Base.{
  ℕ, zero, suc, ◌+◌, ◌-◌, Bool, false, ◌&&◌, Option, none, some, List, [], ◌∷◌, ◌++◌, map, Bytes,
  bytes_eq, length, take, get_or, ℤ, pos, ltb, leb, if◌then◌else◌,
}
use jinn.Plan.{PlanNode, max_plan_operations}

-- StopReason. `out_of_fuel` belongs to the model alone, and `nil_node` is the nil pointer of an id that no
-- node has.
pub data StopReason : Type 0 where
  leaf no_edge_match max_depth mutation_blocked aborted failed resource_limit : StopReason
  out_of_fuel nil_node : StopReason

pub record PlanOpResult : Type 0 where
  pub ok : Bool
  pub result : Bytes
  pub stdout : Bytes
  pub stderr : Bytes
  pub error : Bytes
  pub classification : Bytes
  pub risk : Bytes
  pub exit_code : ℤ

pub record PlanNodeResult : Type 0 where
  pub node_id : Bytes
  pub depth : ℕ
  pub ops : List PlanOpResult

pub record PlanRunResult : Type 0 where
  pub transcript : List PlanNodeResult
  pub path_taken : List Bytes
  pub depth_reached : ℕ
  pub stopped_reason : StopReason
  pub edges_evaluated : ℕ
  pub edges_matched : ℕ
  pub executed_nodes : ℕ
  pub executed_operations : ℕ

-- The zero value of a PlanOpResult.
abbrev pub no_result : PlanOpResult
no_result = record {
  ok = false;
  result = [];
  stdout = [];
  stderr = [];
  error = [];
  classification = [];
  risk = [];
  exit_code = pos 0;
}

-- The result before the first round, and that of a plan that starts below the limit.
abbrev pub start_result : ℕ → PlanRunResult
start_result depth = record {
  transcript = [];
  path_taken = [];
  depth_reached = depth;
  stopped_reason = max_depth;
  edges_evaluated = 0;
  edges_matched = 0;
  executed_nodes = 0;
  executed_operations = 0;
}

-- The last index up to `end` at which a rune starts: a byte that is no continuation byte of UTF-8.
unfoldable pub rune_start : Bytes → ℕ → ℕ
rune_start value zero = zero
rune_start value (suc end) =
    let before = rune_start value end in
    let c = get_or value (suc end) 0 in if leb 128 c && ltb c 192 then before else suc end

unfoldable pub trim_field : ℕ → Bytes → Bytes
unfolding rune_start
trim_field limit value =
    if leb (length value) limit
    then value
    else take (rune_start value limit) value ++ (226 ∷ 128 ∷ 166 ∷ [])

unfoldable pub bound_plan_op_result : ℕ → PlanOpResult → PlanOpResult
unfolding trim_field
bound_plan_op_result limit r = record r {
  result = trim_field limit r.result;
  error = trim_field limit r.error;
  stdout = trim_field limit r.stdout;
  stderr = trim_field limit r.stderr;
}

unfoldable pub compact_plan_transcript : List PlanNodeResult → List PlanNodeResult
unfolding bound_plan_op_result
compact_plan_transcript [] = []
compact_plan_transcript (n ∷ transcript) =
    record n { ops = map (bound_plan_op_result 16) n.ops } ∷ compact_plan_transcript transcript

-- The operations that are reserved behind a request for `count` more; `none` where there is no room.
unfoldable pub reserve_plan_operations : ℕ → ℕ → Option ℕ
reserve_plan_operations reserved count =
    if ltb (max_plan_operations - reserved) count then none else some (reserved + count)

-- The node of an id; the last one, if several had it.
unfoldable pub find_node : List PlanNode → Bytes → Option PlanNode
unfolding bytes_eq
find_node [] id = none
find_node (n ∷ nodes) id = elim (find_node nodes id) [
  | some m ↦ some m
  | none ↦ (if bytes_eq n.id id then some n else none)
]

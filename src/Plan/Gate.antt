-- ===== src/Plan/Gate.antt =====
-- internal/jinn/plan_engine.go, runPlanOp and runMutatingOp: which operations of a plan are let through, and
-- with what authority.
pub mod Guarded
use jinn.Base.{
  ℕ, zero, suc, Bool, true, false, not, ◌&&◌, ◌||◌, List, [], ◌∷◌, ◌++◌, Option, none, some, inl,
  inr, ◌⊎◌, Bytes, codes, bytes_eq, trim_space, pos, if◌then◌else◌,
}
use jinn.Plan.{Value, nothing, composite, truth, text, number, PlanOp, PlanNode, is_in, empty}
use jinn.Plan.Results.{PlanOpResult, no_result}

pub data RiskLevel : Type 0 where
  safe caution dangerous : RiskLevel

abbrev pub Args : Type 0
Args = List (Bytes × Value)

-- args[key].(string), "" where that is no string.
unfoldable pub text_arg : Args → Bytes → Bytes
unfolding bytes_eq
text_arg [] key = []
text_arg ((k, v) ∷ args) key =
    let later = text_arg args key in
    if bytes_eq k key
    then (elim v [ text s ↦ s | nothing ↦ [] | composite ↦ [] | truth b ↦ [] | number n ↦ [] ])
    else later

unfoldable pub plan_phase1_tool_allowed : PlanOp → Bool
unfolding is_in text_arg bytes_eq
plan_phase1_tool_allowed op =
    let action = text_arg op.args (codes "action") in
    is_in op.tool (
      codes "read_file"
      ∷ codes "multi_read"
      ∷ codes "list_dir"
      ∷ codes "search_files"
      ∷ codes "find_files"
      ∷ codes "stat_file"
      ∷ codes "lsp_query"
      ∷ codes "lsp_batch"
      ∷ [])
    || (bytes_eq op.tool (codes "memory") && is_in action (codes "recall" ∷ codes "list" ∷ [])
        || bytes_eq op.tool (codes "undo") && is_in action (codes "list" ∷ codes "preview" ∷ []))

unfoldable pub blocked_plan_op : Bytes → PlanOpResult × Bool
blocked_plan_op message = (record no_result { error = message; exit_code = pos 1 }, true)

-- `classify` stands for ClassifyCommand, and `descriptor` for lookupToolDescriptor: whether the tool's route
-- risk is that of a mutating tool, `none` for an unknown tool. The second answer is an error's text.
unfoldable pub plan_tool_risk :
    (Bytes → RiskLevel) → (Bytes → Option Bool) → Bytes → Args → RiskLevel ⊎ Bytes
unfolding text_arg bytes_eq is_in trim_space
plan_tool_risk classify descriptor tool args =
    let command = text_arg args (codes "command") in
    let action = text_arg args (codes "action") in
    let known : Bool → RiskLevel ⊎ Bytes = λ mutating.
      if bytes_eq tool (codes "run_shell")
      then (if empty (trim_space command)
          then inr (codes "run_shell command is required")
          else inl (classify command))
      else if is_in tool (
          codes "write_file"
          ∷ codes "edit_file"
          ∷ codes "multi_edit"
          ∷ codes "apply_patch"
          ∷ codes "search_replace"
          ∷ [])
      then inl caution
      else if bytes_eq tool (codes "memory") && bytes_eq action (codes "gc")
      then inl dangerous
      else if bytes_eq tool (codes "memory") && is_in action (codes "save" ∷ codes "forget" ∷ [])
      then inl caution
      else if bytes_eq tool (codes "undo") && bytes_eq action (codes "clear")
      then inl dangerous
      else if mutating
      then inl caution
      else inl safe in
    elim (descriptor tool) [
      | none ↦ inr (codes "unknown tool: " ++ tool)
      | some mutating ↦ known mutating
    ]

-- The risk of an operation on a mutating node, or the message that it is blocked with.
unfoldable pub op_risk : (Bytes → RiskLevel) → (Bytes → Option Bool) → PlanOp → RiskLevel ⊎ Bytes
unfolding plan_tool_risk bytes_eq
op_risk classify descriptor op =
    if not (empty op.shell)
    then inl (classify op.shell)
    else if not (empty op.tool)
    then plan_tool_risk classify descriptor op.tool op.args
    else inr (codes "plan op must set exactly one of shell or tool")

-- `run_shell` stands for runPlanShell with planShellResult: the command, the arguments, whether danger is
-- authorised. `dispatch` stands for Dispatch with planToolResult; its first argument is the authority that a
-- nested plan is given.
module _ {State : Type 0} (classify : Bytes → RiskLevel) (descriptor : Bytes → Option Bool)
    (run_shell : Bytes → Args → Bool → State → PlanOpResult × State)
    (dispatch : Bool → Bytes → Args → State → PlanOpResult × State) where
  abbrev let_through : PlanOpResult × State → (PlanOpResult × Bool) × State
  let_through (r, st) = ((r, false), st)

  -- A command of the shell, by its risk.
  abbrev pub shell_at : RiskLevel → PlanOp → State → (PlanOpResult × Bool) × State
  shell_at safe op st = let_through (run_shell op.shell [] false st)
  shell_at _ op st =
      (blocked_plan_op (codes "blocked: shell op risk exceeds Phase 1 read-only allowance"), st)

  unfoldable pub run_plan_op : PlanOp → State → (PlanOpResult × Bool) × State
  unfolding plan_phase1_tool_allowed blocked_plan_op bytes_eq
  run_plan_op op st =
      if not (empty op.shell)
      then shell_at (classify op.shell) op st
      else if not (empty op.tool)
      then (if plan_phase1_tool_allowed op
          then let_through (dispatch false op.tool op.args st)
          else (blocked_plan_op (codes "blocked: tool op outside Phase 1 read-only allowlist"), st))
      else (blocked_plan_op (codes "plan op must set exactly one of shell or tool"), st)

  -- The operation, let through at a risk; `forced` is planForce && node.Force.
  unfoldable pub execute_at : RiskLevel → Bool → PlanOp → State → (PlanOpResult × Bool) × State
  unfolding text_arg blocked_plan_op bytes_eq
  execute_at risk forced op st =
      let dangerously = is_dangerous risk && forced in
      let command = text_arg op.args (codes "command") in
      if is_dangerous risk && not forced
      then (
        blocked_plan_op (codes "blocked: dangerous mutation requires plan.force and node.force"),
        st,
      )
      else if not (empty op.shell)
      then let_through (run_shell op.shell [] dangerously st)
      else if bytes_eq op.tool (codes "run_shell")
      then let_through (run_shell command op.args dangerously st)
      else if bytes_eq op.tool (codes "run_plan")
      then let_through (dispatch forced op.tool op.args st)
      else let_through (dispatch false op.tool op.args st)
    where
      is_dangerous : RiskLevel → Bool
      is_dangerous dangerous = true
      is_dangerous _ = false

  -- An operation by its risk, or by the message that it is blocked with.
  abbrev pub gate : RiskLevel ⊎ Bytes → Bool → PlanOp → State → (PlanOpResult × Bool) × State
  gate (inl risk) forced op st = execute_at risk forced op st
  gate (inr message) forced op st = (blocked_plan_op message, st)

  unfoldable pub run_mutating_op : PlanNode → Bool → PlanOp → State → (PlanOpResult × Bool) × State
  unfolding op_risk execute_at blocked_plan_op
  run_mutating_op node plan_force op st =
      gate (op_risk classify descriptor op) (plan_force && node.force) op st

-- ===== src/Plan/Gate/Guarded.antt =====
-- Danger needs both force flags, and an operation on a node that does not mutate is let through only if it
-- reads.
use jinn.Base.{
  ◌≡◌, refl, Bool, true, false, not, ◌&&◌, [], Option, ◌⊎◌, inl, inr, Bytes, codes, if_cases,
}
use jinn.Plan.{PlanOp, PlanNode, empty}
use jinn.Plan.Results.{PlanOpResult}
use jinn.Plan.Gate.{
  RiskLevel, safe, caution, dangerous, Args, plan_phase1_tool_allowed, blocked_plan_op, op_risk,
  gate, shell_at, execute_at, run_mutating_op, run_plan_op,
}

module _ {State : Type 0} (classify : Bytes → RiskLevel) (descriptor : Bytes → Option Bool)
    (run_shell : Bytes → Args → Bool → State → PlanOpResult × State)
    (dispatch : Bool → Bytes → Args → State → PlanOpResult × State) where
  -- The shell and the dispatcher with no authority.
  abbrev pub tame_shell : Bytes → Args → Bool → State → PlanOpResult × State
  tame_shell command args force = run_shell command args false

  abbrev pub tame_dispatch : Bool → Bytes → Args → State → PlanOpResult × State
  tame_dispatch authority = dispatch false

  execute_at-tame :
      (risk : RiskLevel) (op : PlanOp) (st : State)
      → execute_at classify descriptor run_shell dispatch risk false op st
        ≡ execute_at classify descriptor tame_shell tame_dispatch risk false op st
  unfolding execute_at
  execute_at-tame safe op st = refl
  execute_at-tame caution op st = refl
  execute_at-tame dangerous op st = refl

  gate-tame :
      (risk : RiskLevel ⊎ Bytes) (op : PlanOp) (st : State)
      → gate classify descriptor run_shell dispatch risk false op st
        ≡ gate classify descriptor tame_shell tame_dispatch risk false op st
  gate-tame (inl risk) op st = execute_at-tame risk op st
  gate-tame (inr message) op st = refl

  execute_at-dangerous :
      (op : PlanOp) (st : State)
      → execute_at classify descriptor run_shell dispatch dangerous false op st ≡ (
        blocked_plan_op (codes "blocked: dangerous mutation requires plan.force and node.force"),
        st,
      )
  unfolding execute_at
  execute_at-dangerous op st = refl

  -- Without the force flag of the plan or of the node, an operation on a mutating node does what it does with
  -- a shell that is never forced and nested plans that are never authorised; and a dangerous one is blocked,
  -- with nothing run.
  pub run_mutating_op-guarded :
      (node : PlanNode) (plan_force : Bool) (op : PlanOp) (st : State)
      → (plan_force && node.force) ≡ false
      → (run_mutating_op classify descriptor run_shell dispatch node plan_force op st
          ≡ run_mutating_op classify descriptor tame_shell tame_dispatch node plan_force op st)
        × (op_risk classify descriptor op ≡ inl dangerous
            → run_mutating_op classify descriptor run_shell dispatch node plan_force op st ≡ (
              blocked_plan_op
                  (codes "blocked: dangerous mutation requires plan.force and node.force"),
              st,
            ))
  unfolding run_mutating_op
  run_mutating_op-guarded node plan_force op st h =
      let risk = op_risk classify descriptor op in
      (rw h (gate-tame risk op st), λ e. rw (h, e) (execute_at-dangerous op st))

  -- Blocked with nothing run, or safe and run without force.
  shell_at-ReadOnly :
      (risk : RiskLevel) (op : PlanOp) (st : State)
      → classify op.shell ≡ risk
      → let (r, st') = shell_at classify descriptor run_shell dispatch risk op st in
        ((r.1 ≡ true) × (st' ≡ st))
        ⊎ ((classify op.shell ≡ safe) × (((r.0, st') ≡ run_shell op.shell [] false st)))
        ⊎ ((plan_phase1_tool_allowed op ≡ true) × ((r.0, st') ≡ dispatch false op.tool op.args st))
  shell_at-ReadOnly safe op st e = inr (inl (e, refl))
  shell_at-ReadOnly caution op st e = inl (unfold blocked_plan_op in refl, refl)
  shell_at-ReadOnly dangerous op st e = inl (unfold blocked_plan_op in refl, refl)

  -- On a node that does not mutate, an operation is blocked with nothing run, or it is a command of the shell
  -- that is classified as safe, run without force, or it is a tool of the read-only list, dispatched without
  -- authority for nested plans.
  pub run_plan_op-ReadOnly :
      (op : PlanOp) (st : State)
      → let (r, st') = run_plan_op classify descriptor run_shell dispatch op st in
        ((r.1 ≡ true) × (st' ≡ st))
        ⊎ ((classify op.shell ≡ safe) × (((r.0, st') ≡ run_shell op.shell [] false st)))
        ⊎ ((plan_phase1_tool_allowed op ≡ true) × ((r.0, st') ≡ dispatch false op.tool op.args st))
  unfolding run_plan_op
  run_plan_op-ReadOnly op st =
      let P : (PlanOpResult × Bool) × State → Type 0 = λ (r, st').
        ((r.1 ≡ true) × (st' ≡ st))
        ⊎ ((classify op.shell ≡ safe) × (((r.0, st') ≡ run_shell op.shell [] false st)))
        ⊎ ((plan_phase1_tool_allowed op ≡ true)
            × ((r.0, st') ≡ dispatch false op.tool op.args st)) in
      if_cases P (not (empty op.shell)) _ _ (λ t. shell_at-ReadOnly (classify op.shell) op st refl)
        (λ f.
          if_cases P (not (empty op.tool)) _ _
            (λ t.
              if_cases P (plan_phase1_tool_allowed op) _ _ (λ a. inr (inr (a, refl)))
                (λ b. inl (unfold blocked_plan_op in refl, refl)))
            (λ g. inl (unfold blocked_plan_op in refl, refl)))

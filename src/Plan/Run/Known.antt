-- ===== src/Plan/Run/Known.antt =====
-- The run of a plan that passed validation never asks for a node that is not there.
use jinn.Base.{
  ℕ, zero, suc, ◌+◌, ◌-◌, ◌≡◌, ◌≢◌, ◌⊎◌, refl, sym, ap, ◌∙◌, subst, Bool, true, false, ◌||◌, Option,
  none, some, List, [], ◌∷◌, map, Bytes, bytes_eq, bytes_eq_iff, length, ltb, ◌==◌, if◌then◌else◌,
  if_cases, Option-cases, Bool-cases, inl, inr, arith,
}
use jinn.Plan.{Condition, PlanOp, PlanEdge, PlanNode, PlanTree, is_in}
use jinn.Plan.Passed.{EdgesPass, TargetsPass, validate_plan-Passed}
use jinn.Plan.Validate.{validate_plan}
use jinn.Plan.Results.{
  leaf, no_edge_match, aborted, resource_limit, nil_node, PlanOpResult, PlanNodeResult,
  PlanRunResult, start_result, reserve_plan_operations, find_node,
}
use jinn.Plan.Run.{
  PlanState, EdgeOutcome, cancelled, broken, unmatched, follow, run_commands, follow_edges, stop,
  take_edge, after_node, add_node, fit_result, next_round, run_node, enter_node, round, run_rounds,
  run_plan_tree,
}

bytes_eq_sym : (s t : Bytes) → bytes_eq s t ≡ true → bytes_eq t s ≡ true
bytes_eq_sym s t h = (bytes_eq_iff t s).1 (sym ((bytes_eq_iff s t).0 h))

-- A node found behind, or this one.
abbrev pick : Option PlanNode → Bool → PlanNode → Option PlanNode
pick behind here n = elim behind [ some m ↦ some m | none ↦ (if here then some n else none) ]

pick-found :
    (behind : Option PlanNode) (here : Bool) (n : PlanNode)
    → (behind ≢ none) ⊎ (here ≡ true)
    → pick behind here n ≢ none
pick-found none true n h e = ground arith
pick-found none false n (inl h) e = h refl
pick-found none false n (inr h) e = ground arith
pick-found (some m) here n h e = ground arith

find_node-found :
    (nodes : List PlanNode) (id : Bytes)
    → is_in id (map (λ n. n.id) nodes) ≡ true
    → find_node nodes id ≢ none
unfolding find_node is_in
find_node-found [] id h = λ e. ground arith
find_node-found (n ∷ nodes) id h = elim (Bool-cases (bytes_eq id n.id)) [
  | inl t ↦ pick-found (find_node nodes id) (bytes_eq n.id id) n (inr (bytes_eq_sym id n.id t))
  | inr f ↦
      pick-found (find_node nodes id) (bytes_eq n.id id) n (
        inl
          (find_node-found nodes id (sym (ap (λ b. b || is_in id (map (λ m. m.id) nodes)) f) ∙ h)))
]

module _ (known : Bytes → Bool) (groups : Bytes → Option ℕ) (all : List PlanNode) where
  -- The edges of the node pass, if there is one.
  abbrev Passing : Option PlanNode → Type 0
  Passing none = Unit
  Passing (some n) = EdgesPass known groups all n.edges

  pick-Passing :
      (behind : Option PlanNode) (here : Bool) (n : PlanNode)
      → Passing behind
      → EdgesPass known groups all n.edges
      → Passing (pick behind here n)
  pick-Passing none true n p q = q
  pick-Passing none false n p q = tt
  pick-Passing (some m) here n p q = p

  find_node-Passing :
      (nodes : List PlanNode) (id : Bytes)
      → TargetsPass known groups all nodes
      → Passing (find_node nodes id)
  unfolding find_node
  find_node-Passing [] id t = tt
  find_node-Passing (n ∷ nodes) id (a, t) =
      pick-Passing (find_node nodes id) (bytes_eq n.id id) n (find_node-Passing nodes id t) a

  module _ {World : Type 0} (ctx_err : World → Bool × World)
      (run_op : PlanNode → ℕ → PlanOp → PlanState World → (PlanOpResult × Bool) × PlanState World)
      (evaluate : PlanOpResult → Condition → World → Option Bool × World)
      (within_budget : List PlanNodeResult → List Bytes → ℕ → ℕ → ℕ → Bool) where
    -- An edge that is followed leads to a node of the plan.
    abbrev Leads : EdgeOutcome → Type 0
    Leads (follow to) = is_in to (map (λ n. n.id) all) ≡ true
    Leads _ = Unit

    answered :
        (answer : Option Bool) (to : Bytes) (n : ℕ) (w : World) (later : (EdgeOutcome × ℕ) × World)
        → is_in to (map (λ m. m.id) all) ≡ true
        → Leads later.0.0
        → Leads (
            (elim answer as (λ _. (EdgeOutcome × ℕ) × World) [
              | none ↦ ((broken, n), w)
              | some matched ↦ (if matched then ((follow to, n), w) else later)
            ]).0.0)
    answered none to n w later h l = tt
    answered (some true) to n w later h l = h
    answered (some false) to n w later h l = l

    follow_edges-Leads :
        (edges : List PlanEdge) (last : PlanOpResult) (evaluated : ℕ) (w : World)
        → EdgesPass known groups all edges
        → Leads (follow_edges ctx_err run_op evaluate within_budget edges last evaluated w).0.0
    unfolding follow_edges
    follow_edges-Leads [] last evaluated w p = tt
    follow_edges-Leads (e ∷ edges) last evaluated w (a, p) =
        let asked = ctx_err w in
        let answer = evaluate last e.when asked.1 in
        if_cases (λ (q : (EdgeOutcome × ℕ) × World). Leads q.0.0) asked.0 _ _ (λ t. tt)
          (λ f.
            answered answer.0 e.to (suc evaluated) answer.1 _ a.1
              (follow_edges-Leads edges last (suc evaluated) answer.1 p))

    -- A run that does not stop at a missing node.
    abbrev Sound : PlanRunResult × PlanState World → Type 0
    Sound out = out.0.stopped_reason ≢ nil_node

    abbrev Rounds : Type 0
    Rounds = ℕ → Bytes → PlanRunResult → PlanState World → PlanRunResult × PlanState World

    -- The rounds that follow are sound from every node of the plan.
    abbrev SoundRounds : Rounds → Type 0
    SoundRounds more =
        (depth : ℕ) (current : Bytes) (acc : PlanRunResult) (st : PlanState World)
        → is_in current (map (λ n. n.id) all) ≡ true
        → Sound (more depth current acc st)

    take_edge-Sound :
        (more : Rounds) (node : PlanNode) (depth : ℕ) (acc : PlanRunResult) (st : PlanState World)
        (outcome : EdgeOutcome)
        → SoundRounds more
        → Leads outcome
        → Sound (take_edge ctx_err run_op evaluate within_budget more node depth acc st outcome)
    take_edge-Sound more node depth acc st cancelled m l = λ e. ground arith
    take_edge-Sound more node depth acc st broken m l = λ e. ground arith
    take_edge-Sound more node depth acc st unmatched m l =
        if_cases (λ r. r ≢ nil_node) (length node.edges == 0) leaf no_edge_match
          (λ t. λ e. ground arith) (λ f. λ e. ground arith)
    take_edge-Sound more node depth acc st (follow to) m l = m _ to _ st l

    after_node-Sound :
        (fits stopped blocked : Bool) (more : Rounds) (node : PlanNode) (last : PlanOpResult)
        (depth : ℕ) (acc fitted : PlanRunResult) (st : PlanState World)
        → SoundRounds more
        → EdgesPass known groups all node.edges
        → Sound (
            after_node ctx_err run_op evaluate within_budget fits stopped blocked more node last
              depth acc fitted st)
    after_node-Sound false stopped blocked more node last depth acc fitted st m p =
        if_cases (λ r. r ≢ nil_node) stopped aborted resource_limit (λ t. λ e. ground arith)
          (λ f. λ e. ground arith)
    after_node-Sound true true blocked more node last depth acc fitted st m p = λ e. ground arith
    after_node-Sound true false true more node last depth acc fitted st m p = λ e. ground arith
    after_node-Sound true false false more node last depth acc fitted st m p =
        unfold next_round in
        take_edge-Sound more node depth _ _ _ m (follow_edges-Leads node.edges last 0 st.world p)

    run_node-Sound :
        (more : Rounds) (node : PlanNode) (current : Bytes) (depth : ℕ) (acc : PlanRunResult)
        (st : PlanState World)
        → SoundRounds more
        → EdgesPass known groups all node.edges
        → Sound (run_node ctx_err run_op evaluate within_budget more node current depth acc st)
    unfolding run_node
    run_node-Sound more node current depth acc st m p =
        let run = run_commands ctx_err run_op evaluate within_budget node depth st in
        let acc' = add_node ctx_err run_op evaluate within_budget acc current depth run in
        after_node-Sound
          (within_budget acc'.transcript acc'.path_taken depth acc'.edges_evaluated
            acc'.edges_matched)
          (ctx_err run.state.world).0 run.blocked more node run.last depth acc'
          (fit_result ctx_err run_op evaluate within_budget acc' depth)
          (record run.state { world = (ctx_err run.state.world).1 }) m p

    enter_node-Sound :
        (more : Rounds) (found : Option PlanNode) (current : Bytes) (depth : ℕ)
        (acc : PlanRunResult) (st : PlanState World)
        → SoundRounds more
        → Passing found
        → found ≢ none
        → Sound (enter_node ctx_err run_op evaluate within_budget more found current depth acc st)
    enter_node-Sound more none current depth acc st m p h = absurd (h refl)
    enter_node-Sound more (some node) current depth acc st m p h =
        let entered : Option ℕ → PlanRunResult × PlanState World = λ o. elim o [
          | none ↦ stop ctx_err run_op evaluate within_budget acc depth resource_limit st
          | some reserved ↦
              run_node ctx_err run_op evaluate within_budget more node current depth acc
                (record st { reserved = reserved })
        ] in
        elim (Option-cases (reserve_plan_operations st.reserved (length node.commands))) [
          | inl e ↦ subst (λ o. Sound (entered o)) (sym e) (λ i. ground arith)
          | inr (next, e) ↦
              subst (λ o. Sound (entered o)) (sym e)
                (run_node-Sound more node current depth acc (record st { reserved = next }) m p)
        ]

    round-Sound :
        (more : Rounds) (limit depth : ℕ) (current : Bytes) (acc : PlanRunResult)
        (st : PlanState World)
        → SoundRounds more
        → TargetsPass known groups all all
        → is_in current (map (λ n. n.id) all) ≡ true
        → Sound (round ctx_err run_op evaluate within_budget more all limit depth current acc st)
    unfolding round
    round-Sound more limit depth current acc st m t h =
        if_cases Sound (ctx_err st.world).0 _ _ (λ x. λ e. ground arith)
          (λ f.
            if_cases Sound (ltb limit depth) _ _ (λ x. λ e. ground arith)
              (λ g.
                enter_node-Sound more (find_node all current) current depth acc _ m
                  (find_node-Passing all current t) (find_node-found all current h)))

    run_rounds-Sound :
        (limit fuel depth : ℕ) (current : Bytes) (acc : PlanRunResult) (st : PlanState World)
        → TargetsPass known groups all all
        → is_in current (map (λ n. n.id) all) ≡ true
        → Sound
            (run_rounds ctx_err run_op evaluate within_budget all limit fuel depth current acc st)
    unfolding run_rounds
    run_rounds-Sound limit zero depth current acc st t h = λ e. ground arith
    run_rounds-Sound limit (suc fuel) depth current acc st t h =
        round-Sound (run_rounds ctx_err run_op evaluate within_budget all limit fuel) limit depth
          current acc st
          (λ depth' current' acc' st' h'. run_rounds-Sound limit fuel depth' current' acc' st' t h')
          t h

-- The run of a plan that validation does not refuse never reads through the nil pointer of an id that no
-- node has: its root and every edge that it follows lead to a node.
pub run_plan_tree-Known :
    {World : Type 0} (known : Bytes → Bool) (groups : Bytes → Option ℕ)
    (ctx_err : World → Bool × World)
    (run_op : PlanNode → ℕ → PlanOp → PlanState World → (PlanOpResult × Bool) × PlanState World)
    (evaluate : PlanOpResult → Condition → World → Option Bool × World)
    (within_budget : List PlanNodeResult → List Bytes → ℕ → ℕ → ℕ → Bool) (plan : PlanTree)
    (depth limit : ℕ) (st : PlanState World)
    → validate_plan known groups plan ≡ none
    → (run_plan_tree ctx_err run_op evaluate within_budget plan depth limit st).0.stopped_reason
      ≢ nil_node
unfolding run_plan_tree
run_plan_tree-Known known groups ctx_err run_op evaluate within_budget plan depth limit st
      accepted =
    let (a, b, c, root, d, targets) = validate_plan-Passed known groups plan accepted in
    let run =
      run_rounds ctx_err run_op evaluate within_budget plan.nodes limit (limit + 2 - depth) depth
        plan.root (start_result depth) st in
    if_cases (λ (out : PlanRunResult × PlanState _). out.0.stopped_reason ≢ nil_node)
      (ltb limit depth) (start_result depth, st) run (λ t. λ e. ground arith)
      (λ f.
        run_rounds-Sound known groups plan.nodes ctx_err run_op evaluate within_budget limit
          (limit + 2 - depth) depth plan.root (start_result depth) st targets root)

-- ===== src/Plan/Accepted.antt =====
-- What a plan that passes validation is known to satisfy.
use jinn.Base.{
  ℕ, ◌<◌, ◌≤◌, ◌≡◌, ◌≢◌, ◌⊎◌, inl, inr, refl, sym, Bool, true, false, ◌&&◌, Bool-cases, Option,
  none, List, [], ◌∷◌, map, Bytes, codes, bytes_eq, bytes_eq_iff, length, ℤ, pos, negsuc, arith,
}
use jinn.Plan.{PlanOp, PlanEdge, PlanNode, PlanTree, is_in}
use jinn.Plan.Conditions.{high_confidence}
use jinn.Plan.Validate.{has_mutating, validate_plan, bad_depth}
use jinn.Plan.Passed.{CommandsPass, NodesPass, EdgesPass, TargetsPass, validate_plan-Passed}
use jinn.Plan.Sound.{
  OneOf, ValidCondition, ValidOp, is_in-OneOf, is_in-other, validate_condition-Valid,
  validate_plan_op-Valid,
}

-- One of the nodes satisfies a property, or all do.
abbrev pub AnyNode : (PlanNode → Type 0) → List PlanNode → Type 0
AnyNode P [] = ⊥
AnyNode P (n ∷ nodes) = P n ⊎ AnyNode P nodes

abbrev pub AllNodes : (PlanNode → Type 0) → List PlanNode → Type 0
AllNodes P [] = Unit
AllNodes P (n ∷ nodes) = P n × AllNodes P nodes

abbrev pub NoneIs : Bytes → List Bytes → Type 0
NoneIs s [] = Unit
NoneIs s (t ∷ ts) = (s ≢ t) × NoneIs s ts

-- The kinds of condition that are taken for certain.
abbrev pub Certain : Bytes → Type 0
Certain = OneOf (
    codes "exitCode"
    ∷ codes "fileExists"
    ∷ codes "jsonPath"
    ∷ codes "numeric"
    ∷ codes "always"
    ∷ [])

module _ (known : Bytes → Bool) (groups : Bytes → Option ℕ) where
  abbrev pub ValidOps : List PlanOp → Type 0
  ValidOps [] = Unit
  ValidOps (op ∷ ops) = ValidOp known op × ValidOps ops

  -- The limits of a node, and its operations.
  abbrev pub ValidNode : PlanNode → Type 0
  ValidNode n =
      (0 < length n.id)
      × (length n.id ≤ 256)
      × (0 < length n.commands)
      × (length n.commands ≤ 16)
      × (length n.edges ≤ 32)
      × ((n.parallel ≡ false) ⊎ (n.mutates ≡ false))
      × ValidOps n.commands

  -- The nodes are valid, and their ids differ from each other and from those seen.
  abbrev pub ValidNodes : List Bytes → List PlanNode → Type 0
  ValidNodes seen [] = Unit
  ValidNodes seen (n ∷ nodes) = NoneIs n.id seen × ValidNode n × ValidNodes (n.id ∷ seen) nodes

  -- An edge leads to a node of the plan; if its condition is not certain, that node does not mutate.
  abbrev pub ValidEdge : List PlanNode → PlanEdge → Type 0
  ValidEdge all e =
      ValidCondition groups e.when
      × AnyNode (λ n. n.id ≡ e.to) all
      × (Certain e.when.kind ⊎ AllNodes (λ n. (n.id ≢ e.to) ⊎ (n.mutates ≡ false)) all)

  abbrev pub ValidEdges : List PlanNode → List PlanEdge → Type 0
  ValidEdges all [] = Unit
  ValidEdges all (e ∷ edges) = ValidEdge all e × ValidEdges all edges

  abbrev pub Accepted : PlanTree → Type 0
  Accepted plan =
      (0 < length plan.nodes)
      × (length plan.nodes ≤ 64)
      × ((depth : ℕ) × (plan.max_depth ≡ pos depth) × (depth ≤ 32))
      × AnyNode (λ n. n.id ≡ plan.root) plan.nodes
      × ValidNodes [] plan.nodes
      × AllNodes (λ n. ValidEdges plan.nodes n.edges) plan.nodes

  is_in-AnyNode :
      (id : Bytes) (nodes : List PlanNode)
      → is_in id (map (λ n. n.id) nodes) ≡ true
      → AnyNode (λ n. n.id ≡ id) nodes
  unfolding is_in
  is_in-AnyNode id [] h = ground arith
  is_in-AnyNode id (n ∷ nodes) h = elim (Bool-cases (bytes_eq id n.id)) [
    | inl e ↦ inl (sym ((bytes_eq_iff id n.id).0 e))
    | inr f ↦ inr (is_in-AnyNode id nodes (ground arith))
  ]

  is_in-NoneIs : (s : Bytes) (ts : List Bytes) → is_in s ts ≡ false → NoneIs s ts
  is_in-NoneIs s [] h = tt
  is_in-NoneIs s (t ∷ ts) h = let (a, b) = is_in-other s t ts h in (a, is_in-NoneIs s ts b)

  none_mutates :
      (id : Bytes) (nodes : List PlanNode)
      → has_mutating known groups id nodes ≡ false
      → AllNodes (λ n. (n.id ≢ id) ⊎ (n.mutates ≡ false)) nodes
  unfolding has_mutating
  none_mutates id [] h = tt
  none_mutates id (n ∷ nodes) h = elim (Bool-cases n.mutates) [
    | inl t ↦ (
      inl (λ e. let q : bytes_eq n.id id ≡ true = (bytes_eq_iff n.id id).1 e in ground arith),
      none_mutates id nodes (ground arith),
    )
    | inr f ↦ (inr f, none_mutates id nodes (ground arith))
  ]

  valid_depth : (d : ℤ) → bad_depth d ≡ false → (depth : ℕ) × (d ≡ pos depth) × (depth ≤ 32)
  valid_depth (pos n) h = (n, refl, ground arith)
  valid_depth (negsuc n) h = absurd (ground arith)

  one_false : (a b : Bool) → (a && b) ≡ false → (a ≡ false) ⊎ (b ≡ false)
  one_false true b h = inr h
  one_false false b h = inl refl

  certain : (kind : Bytes) → high_confidence kind ≡ true → Certain kind
  unfolding high_confidence
  certain kind h =
      is_in-OneOf kind
        (codes "exitCode"
          ∷ codes "fileExists"
          ∷ codes "jsonPath"
          ∷ codes "numeric"
          ∷ codes "always"
          ∷ [])
        h

  valid_ops : (ops : List PlanOp) → CommandsPass known groups ops → ValidOps ops
  valid_ops [] h = tt
  valid_ops (op ∷ ops) (a, b) = (validate_plan_op-Valid known op a, valid_ops ops b)

  valid_nodes :
      (seen : List Bytes) (nodes : List PlanNode)
      → NodesPass known groups seen nodes
      → ValidNodes seen nodes
  valid_nodes seen [] h = tt
  valid_nodes seen (n ∷ nodes) (a, (b, c, d, e, f, g, i), j) = (
    is_in-NoneIs n.id seen a,
    (b, c, d, e, f, one_false n.parallel n.mutates g, valid_ops n.commands i),
    valid_nodes (n.id ∷ seen) nodes j,
  )

  valid_edges :
      (all : List PlanNode) (edges : List PlanEdge)
      → EdgesPass known groups all edges
      → ValidEdges all edges
  valid_edges all [] h = tt
  valid_edges all (e ∷ edges) ((a, b, c), d) = (
    (
      validate_condition-Valid groups e.when a,
      is_in-AnyNode e.to all b,
      elim (Bool-cases (high_confidence e.when.kind)) [
        | inl t ↦ inl (certain e.when.kind t)
        | inr f ↦ inr (none_mutates e.to all (c f))
      ],
    ),
    valid_edges all edges d,
  )

  valid_targets :
      (all nodes : List PlanNode)
      → TargetsPass known groups all nodes
      → AllNodes (λ n. ValidEdges all n.edges) nodes
  valid_targets all [] h = tt
  valid_targets all (n ∷ nodes) (a, b) = (valid_edges all n.edges a, valid_targets all nodes b)

  -- A plan that validation does not refuse has 1 to 64 nodes with different ids of 1 to 256 bytes, each with
  -- 1 to 16 operations and at most 32 edges, none both parallel and mutating; a depth limit from 0 to 32; and
  -- a root that is one of its nodes. Every operation is a shell command that is not blank or a known tool
  -- other than the two for the web, not both. Every edge leads to one of the plan's nodes, to one that does
  -- not mutate unless the condition's kind is one of the five certain ones, and has a condition with the
  -- fields that its kind needs and no others.
  pub validate_plan-Accepted :
      (plan : PlanTree) → validate_plan known groups plan ≡ none → Accepted plan
  validate_plan-Accepted plan h =
      let (a, b, c, d, e, f) = validate_plan-Passed known groups plan h in
      (
        a,
        b,
        valid_depth plan.max_depth c,
        is_in-AnyNode plan.root plan.nodes d,
        valid_nodes [] plan.nodes e,
        valid_targets plan.nodes plan.nodes f,
      )

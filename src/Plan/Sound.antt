-- ===== src/Plan/Sound.antt =====
-- internal/jinn/plan_types.go and plan_engine.go: what a condition and an operation of a plan have to be.
use jinn.Base.{
  ℕ, ◌<◌, ◌≡◌, ◌≢◌, ◌⊎◌, inl, inr, refl, subst, Bool, true, false, not, ◌&&◌, ◌||◌, Bool-cases,
  Option, none, some, List, [], ◌∷◌, Bytes, codes, bytes_eq, bytes_eq_iff, trim_space,
  if◌then◌else◌, arith,
}
use jinn.Plan.{
  Value, nothing, composite, truth, text, number, Condition, PlanOp, empty, is_nothing, is_in,
}
use jinn.Plan.Conditions.{
  finite, whole, numeric_plan_value, is_numeric, valid_plan_operator, first_error, always_checks,
  exit_code_checks, file_exists_checks, numeric_checks, json_path_checks, match_checks,
  validate_condition, fails, groupless,
}
use jinn.Plan.Validate.{differ, op_checks, validate_plan_op}
use jinn.Plan.Passed.{passed_if}

-- One of some strings, and none of them.
abbrev pub OneOf : List Bytes → Bytes → Type 0
OneOf [] s = ⊥
OneOf (t ∷ ts) s = (s ≡ t) ⊎ OneOf ts s

abbrev pub Operator : Bytes → Type 0
Operator =
    OneOf (codes "eq" ∷ codes "ne" ∷ codes "lt" ∷ codes "lte" ∷ codes "gt" ∷ codes "gte" ∷ [])

-- A finite number, and a finite integer.
abbrev pub IsNumber : Value → Type 0
IsNumber v = (bits : ℕ) × (v ≡ number bits) × (finite bits ≡ true)

abbrev pub IsInteger : Value → Type 0
IsInteger v = (bits : ℕ) × (v ≡ number bits) × (finite bits ≡ true) × (whole bits ≡ true)

abbrev pub Unused : Bytes → Bytes → Bytes → Type 0
Unused a b c = (a ≡ []) × (b ≡ []) × (c ≡ [])

-- The conditions an edge may have, by their kinds: the fields each needs, and those it leaves empty.
pub data ValidCondition (groups : Bytes → Option ℕ) (c : Condition) : Type 0 where
  always :
      c.kind ≡ codes "always"
      → c.op ≡ []
      → c.value ≡ nothing
      → c.path ≡ []
      → Unused c.extract c.regex c.stream
      → ValidCondition groups c
  exit_code :
      c.kind ≡ codes "exitCode"
      → Operator c.op
      → IsInteger c.value
      → c.path ≡ []
      → Unused c.extract c.regex c.stream
      → ValidCondition groups c
  file_exists :
      c.kind ≡ codes "fileExists"
      → trim_space c.path ≢ []
      → c.op ≡ []
      → c.value ≡ nothing
      → Unused c.extract c.regex c.stream
      → ValidCondition groups c
  numeric :
      c.kind ≡ codes "numeric"
      → Operator c.op
      → IsNumber c.value
      → (c.extract ≡ []) ⊎ ((n : ℕ) × (groups c.extract ≡ some n) × (0 < n))
      → Unused c.path c.regex c.stream
      → ValidCondition groups c
  json_path :
      c.kind ≡ codes "jsonPath"
      → trim_space c.path ≢ []
      → Operator c.op
      → c.value ≢ nothing
      → OneOf (codes "eq" ∷ codes "ne" ∷ []) c.op ⊎ IsNumber c.value
      → Unused c.extract c.regex c.stream
      → ValidCondition groups c
  matches :
      c.kind ≡ codes "match"
      → OneOf (codes "stdout" ∷ codes "stderr" ∷ []) c.stream
      → (n : ℕ) → groups c.regex ≡ some n
      → c.op ≡ []
      → c.value ≡ nothing
      → Unused c.path c.extract []
      → ValidCondition groups c

-- An operation is a shell command that is not blank, or a known tool that is none of the two for the web.
abbrev pub ValidOp : (Bytes → Bool) → PlanOp → Type 0
ValidOp known op =
    ((trim_space op.shell ≢ []) × (op.tool ≡ []))
    ⊎ ((trim_space op.shell ≡ [])
        × (op.tool ≢ [])
        × (op.tool ≢ codes "web_fetch")
        × (op.tool ≢ codes "web_search")
        × (known op.tool ≡ true))

pub is_in-OneOf : (s : Bytes) (ts : List Bytes) → is_in s ts ≡ true → OneOf ts s
unfolding is_in
is_in-OneOf s [] h = ground arith
is_in-OneOf s (t ∷ ts) h = elim (Bool-cases (bytes_eq s t)) [
  | inl e ↦ inl ((bytes_eq_iff s t).0 e)
  | inr f ↦ inr (is_in-OneOf s ts (ground arith))
]

pub is_in-other :
    (s t : Bytes) (ts : List Bytes) → is_in s (t ∷ ts) ≡ false → (s ≢ t) × (is_in s ts ≡ false)
unfolding is_in
is_in-other s t ts h =
    ((λ e. let q : bytes_eq s t ≡ true = (bytes_eq_iff s t).1 e in ground arith), ground arith)

pub empty-nil : (s : Bytes) → empty s ≡ true → s ≡ []
empty-nil s h = (bytes_eq_iff s []).0 h

pub not_empty : (s : Bytes) → empty s ≡ false → s ≢ []
not_empty s h e = let q : empty s ≡ true = (bytes_eq_iff s []).1 e in ground arith

is_nothing-nothing : (v : Value) → is_nothing v ≡ true → v ≡ nothing
is_nothing-nothing nothing h = refl
is_nothing-nothing composite h = absurd (ground arith)
is_nothing-nothing (truth b) h = absurd (ground arith)
is_nothing-nothing (text s) h = absurd (ground arith)
is_nothing-nothing (number n) h = absurd (ground arith)

something : (v : Value) → is_nothing v ≡ false → v ≢ nothing
something v h e =
    let q : is_nothing nothing ≡ false = subst (λ w. is_nothing w ≡ false) e h in ground arith

number_tests :
    (f i w : Bool) (bits : ℕ)
    → (elim (if not f || i && not w then none else some bits) as (λ _. Bool) [
      | none ↦ false
      | some b ↦ true
    ])
      ≡ true
    → (f ≡ true) × (i ≡ true → w ≡ true)
number_tests true true true bits h = (refl, λ _. refl)
number_tests true true false bits h = absurd (ground arith)
number_tests true false w bits h = (refl, λ e. absurd (ground arith))
number_tests false i w bits h = absurd (ground arith)

is_numeric-number :
    (v : Value) (i : Bool)
    → is_numeric v i ≡ true
    → (bits : ℕ) × (v ≡ number bits) × (finite bits ≡ true) × (i ≡ true → whole bits ≡ true)
unfolding is_numeric numeric_plan_value
is_numeric-number nothing i h = absurd (ground arith)
is_numeric-number composite i h = absurd (ground arith)
is_numeric-number (truth b) i h = absurd (ground arith)
is_numeric-number (text s) i h = absurd (ground arith)
is_numeric-number (number bits) i h =
    let (a, b) = number_tests (finite bits) i (whole bits) bits h in (bits, refl, a, b)

is_number : (v : Value) → is_numeric v false ≡ true → IsNumber v
is_number v h = let (bits, e, f, w) = is_numeric-number v false h in (bits, e, f)

is_integer : (v : Value) → is_numeric v true ≡ true → IsInteger v
is_integer v h = let (bits, e, f, w) = is_numeric-number v true h in (bits, e, f, w refl)

operator : (op : Bytes) → valid_plan_operator op ≡ true → Operator op
unfolding valid_plan_operator
operator op h =
    is_in-OneOf op
      (codes "eq" ∷ codes "ne" ∷ codes "lt" ∷ codes "lte" ∷ codes "gt" ∷ codes "gte" ∷ []) h

three : (a b c : Bytes) → (empty a && (empty b && empty c)) ≡ true → Unused a b c
three a b c h = (empty-nil a (ground arith), empty-nil b (ground arith), empty-nil c (ground arith))

compiles : (o : Option ℕ) → fails o ≡ false → (n : ℕ) × (o ≡ some n)
compiles none h = absurd (ground arith)
compiles (some n) h = (n, refl)

with_group :
    (o : Option ℕ) → fails o ≡ false → groupless o ≡ false → (n : ℕ) × (o ≡ some n) × (0 < n)
with_group none h g = absurd (ground arith)
with_group (some n) h g = (n, refl, ground arith)

-- Every test in a list fails.
abbrev AllFail : List (Bool × Bytes) → Type 0
AllFail [] = Unit
AllFail ((failed, e) ∷ checks) = (failed ≡ false) × AllFail checks

passed_all : (checks : List (Bool × Bytes)) → first_error checks ≡ none → AllFail checks
passed_all [] h = tt
passed_all ((failed, e) ∷ checks) h =
    let (a, b) = passed_if failed e (first_error checks) h in (a, passed_all checks b)

module _ (groups : Bytes → Option ℕ) (c : Condition) where
  kind_is : (k : Bytes) → bytes_eq c.kind k ≡ true → c.kind ≡ k
  kind_is k h = (bytes_eq_iff c.kind k).0 h

  of_always :
      c.kind ≡ codes "always" → first_error (always_checks c) ≡ none → ValidCondition groups c
  of_always k h =
      let (a, _) = passed_all (always_checks c) h in
      ValidCondition.always k (empty-nil c.op (ground arith))
        (is_nothing-nothing c.value (ground arith)) (empty-nil c.path (ground arith))
        (three c.extract c.regex c.stream (ground arith))

  of_exit_code :
      c.kind ≡ codes "exitCode" → first_error (exit_code_checks c) ≡ none → ValidCondition groups c
  of_exit_code k h =
      let (a, (b, (d, _))) = passed_all (exit_code_checks c) h in
      ValidCondition.exit_code k (operator c.op (ground arith)) (is_integer c.value (ground arith))
        (empty-nil c.path (ground arith)) (three c.extract c.regex c.stream (ground arith))

  of_file_exists :
      c.kind ≡ codes "fileExists"
      → first_error (file_exists_checks c) ≡ none
      → ValidCondition groups c
  of_file_exists k h =
      let (a, (b, _)) = passed_all (file_exists_checks c) h in
      ValidCondition.file_exists k (not_empty (trim_space c.path) a) (empty-nil c.op (ground arith))
        (is_nothing-nothing c.value (ground arith))
        (three c.extract c.regex c.stream (ground arith))

  of_numeric :
      c.kind ≡ codes "numeric"
      → first_error (numeric_checks groups c) ≡ none
      → ValidCondition groups c
  of_numeric k h =
      let (a, (b, (d, (e, (f, _))))) = passed_all (numeric_checks groups c) h in
      let pattern : (c.extract ≡ []) ⊎ ((n : ℕ) × (groups c.extract ≡ some n) × (0 < n)) =
        elim (Bool-cases (empty c.extract)) [
          | inl t ↦ inl (empty-nil c.extract t)
          | inr g ↦ inr (with_group (groups c.extract) (ground arith) (ground arith))
        ] in
      ValidCondition.numeric k (operator c.op (ground arith)) (is_number c.value (ground arith))
        pattern (three c.path c.regex c.stream (ground arith))

  of_json_path :
      c.kind ≡ codes "jsonPath" → first_error (json_path_checks c) ≡ none → ValidCondition groups c
  of_json_path k h =
      let (a, (b, (d, (e, (f, _))))) = passed_all (json_path_checks c) h in
      let compared : OneOf (codes "eq" ∷ codes "ne" ∷ []) c.op ⊎ IsNumber c.value =
        elim (Bool-cases (is_in c.op (codes "eq" ∷ codes "ne" ∷ []))) [
          | inl t ↦ inl (is_in-OneOf c.op (codes "eq" ∷ codes "ne" ∷ []) t)
          | inr g ↦ inr (is_number c.value (ground arith))
        ] in
      ValidCondition.json_path k (not_empty (trim_space c.path) a) (operator c.op (ground arith))
        (something c.value d) compared (three c.extract c.regex c.stream (ground arith))

  of_match :
      c.kind ≡ codes "match" → first_error (match_checks groups c) ≡ none → ValidCondition groups c
  of_match k h =
      let (a, (b, (d, _))) = passed_all (match_checks groups c) h in
      let (n, e) = compiles (groups c.regex) b in
      ValidCondition.matches k
        (is_in-OneOf c.stream (codes "stdout" ∷ codes "stderr" ∷ []) (ground arith)) n e
        (empty-nil c.op (ground arith)) (is_nothing-nothing c.value (ground arith))
        (empty-nil c.path (ground arith), empty-nil c.extract (ground arith), refl)

  by_kind :
      (b : Bool) (x y : Option Bytes)
      → (b ≡ true → x ≡ none → ValidCondition groups c)
      → (y ≡ none → ValidCondition groups c)
      → (if b then x else y) ≡ none
      → ValidCondition groups c
  by_kind true x y f g h = f refl h
  by_kind false x y f g h = g h

  pub validate_condition-Valid : validate_condition groups c ≡ none → ValidCondition groups c
  unfolding validate_condition
  validate_condition-Valid =
      by_kind (bytes_eq c.kind (codes "always")) _ _ (λ k. of_always (kind_is _ k))
        (by_kind (bytes_eq c.kind (codes "exitCode")) _ _ (λ k. of_exit_code (kind_is _ k))
          (by_kind (bytes_eq c.kind (codes "fileExists")) _ _ (λ k. of_file_exists (kind_is _ k))
            (by_kind (bytes_eq c.kind (codes "numeric")) _ _ (λ k. of_numeric (kind_is _ k))
              (by_kind (bytes_eq c.kind (codes "jsonPath")) _ _ (λ k. of_json_path (kind_is _ k))
                (by_kind (bytes_eq c.kind (codes "match")) _ _ (λ k. of_match (kind_is _ k))
                  (λ e. absurd (ground arith)))))))

one_set :
    (a b : Bool)
    → not (differ (not a) (not b)) ≡ false
    → ((a ≡ false) × (b ≡ true)) ⊎ ((a ≡ true) × (b ≡ false))
one_set true true h = absurd (ground arith)
one_set true false h = inr (refl, refl)
one_set false true h = inl (refl, refl)
one_set false false h = absurd (ground arith)

pub validate_plan_op-Valid :
    (known : Bytes → Bool) (op : PlanOp) → validate_plan_op known op ≡ none → ValidOp known op
unfolding validate_plan_op
validate_plan_op-Valid known op h =
    let (a, (b, (d, _))) = passed_all (op_checks known op) h in
    elim (one_set (empty (trim_space op.shell)) (empty op.tool) a) [
      | inl (x, y) ↦ inl (not_empty (trim_space op.shell) x, empty-nil op.tool y)
      | inr (x, y) ↦
          let none_of : is_in op.tool (codes "web_fetch" ∷ codes "web_search" ∷ []) ≡ false =
            ground arith in
          let (u, rest) =
            is_in-other op.tool (codes "web_fetch") (codes "web_search" ∷ []) none_of in
          let (v, rest') = is_in-other op.tool (codes "web_search") [] rest in
          inr (empty-nil (trim_space op.shell) x, not_empty op.tool y, u, v, ground arith)
    ]

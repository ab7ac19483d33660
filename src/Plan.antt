-- ===== src/Plan.antt =====
-- internal/jinn/plan_types.go: the graph that run_plan executes. `Conditions` and `Validate` hold what is
-- checked before any of its nodes runs, `Passed`, `Sound` and `Accepted` what that says of a plan, `Gate` what
-- a node may run, `Results` what a run reports, and `Run` the loop.
pub mod Conditions
pub mod Validate
pub mod Passed
pub mod Sound
pub mod Accepted
pub mod Results
pub mod Run
pub mod Gate
use jinn.Base.{
  ℕ, zero, suc, ◌+◌, ◌-◌, ◌*◌, ◌/◌, ◌%◌, ◌^◌, Bool, true, false, not, ◌&&◌, ◌||◌, Option, none,
  some, List, [], ◌∷◌, Bytes, codes, map, bytes_eq, trim_space, length, ℤ, pos, negsuc, ltb, leb,
  ◌==◌, if◌then◌else◌,
}

abbrev pub max_plan_nodes : ℕ
max_plan_nodes = 64

abbrev pub max_plan_commands : ℕ
max_plan_commands = 16

abbrev pub max_plan_edges : ℕ
max_plan_edges = 32

abbrev pub max_plan_depth : ℕ
max_plan_depth = 32

abbrev pub max_plan_operations : ℕ
max_plan_operations = 256

abbrev pub default_max_depth : ℕ
default_max_depth = 8

-- A value of decoded JSON; a number is given by the bits of its float64, a list or an object is
-- `composite`.
pub data Value : Type 0 where
  nothing composite : Value
  truth : Bool → Value
  text : Bytes → Value
  number : ℕ → Value

pub record Condition : Type 0 where
  pub kind : Bytes
  pub op : Bytes
  pub value : Value
  pub path : Bytes
  pub extract : Bytes
  pub regex : Bytes
  pub stream : Bytes
  pub negate : Bool

pub record PlanOp : Type 0 where
  pub shell : Bytes
  pub tool : Bytes
  pub args : List (Bytes × Value)

pub record PlanEdge : Type 0 where
  pub when : Condition
  pub to : Bytes

pub record PlanNode : Type 0 where
  pub id : Bytes
  pub commands : List PlanOp
  pub parallel : Bool
  pub mutates : Bool
  pub force : Bool
  pub edges : List PlanEdge

pub record PlanTree : Type 0 where
  pub root : Bytes
  pub nodes : List PlanNode
  pub cwd : Bytes
  pub max_depth : ℤ
  pub force : Bool

-- What validation reports, with the name that the message quotes.
pub data PlanInvalid : Type 0 where
  too_many_nodes bad_max_depth no_nodes no_root_id long_node_id no_node_id : PlanInvalid
  too_many_commands too_many_edges duplicate_node parallel_and_mutates no_commands root_not_found :
      Bytes → PlanInvalid
  bad_command bad_condition : Bytes → Bytes → PlanInvalid
  unknown_target low_confidence : Bytes → Bytes → PlanInvalid

abbrev pub empty : Bytes → Bool
empty s = bytes_eq s []

abbrev pub is_nothing : Value → Bool
is_nothing nothing = true
is_nothing _ = false

-- Whether a string is one of a list.
unfoldable pub is_in : Bytes → List Bytes → Bool
unfolding bytes_eq
is_in s [] = false
is_in s (t ∷ ts) = bytes_eq s t || is_in s ts

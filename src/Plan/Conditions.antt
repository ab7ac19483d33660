-- ===== src/Plan/Conditions.antt =====
-- internal/jinn/plan_engine.go, validateCondition: which conditions an edge may have.
use jinn.Base.{
  ℕ, ◌-◌, ◌/◌, ◌%◌, ◌^◌, Bool, true, false, not, ◌&&◌, ◌||◌, Option, none, some, List, [], ◌∷◌,
  Bytes, codes, bytes_eq, trim_space, ltb, leb, ◌==◌, if◌then◌else◌,
}
use jinn.Plan.{Value, number, Condition, empty, is_nothing, is_in}

-- A bit pattern of float64: neither infinite nor no number.
abbrev pub finite : ℕ → Bool
finite bits = not ((bits / 2 ^ 52) % 2048 == 2047)

-- math.Trunc(x) == x, for a finite x: by the exponent, the bits below the point are zero.
abbrev pub whole : ℕ → Bool
whole bits =
    let exponent = (bits / 2 ^ 52) % 2048 in
    if ltb exponent 1023
    then bits % 2 ^ 63 == 0
    else if leb 1075 exponent
    then true
    else bits % 2 ^ (1075 - exponent) == 0

-- The bits of the number, if it is finite, and an integer where one is asked for.
unfoldable pub numeric_plan_value : Value → Bool → Option ℕ
numeric_plan_value (number bits) integer =
    if not (finite bits) || integer && not (whole bits) then none else some bits
numeric_plan_value _ integer = none

unfoldable pub is_numeric : Value → Bool → Bool
unfolding numeric_plan_value
is_numeric v integer = elim (numeric_plan_value v integer) [ none ↦ false | some bits ↦ true ]

unfoldable pub valid_plan_operator : Bytes → Bool
unfolding is_in
valid_plan_operator op =
    is_in op (codes "eq" ∷ codes "ne" ∷ codes "lt" ∷ codes "lte" ∷ codes "gt" ∷ codes "gte" ∷ [])

-- HighConfidenceKinds
unfoldable pub high_confidence : Bytes → Bool
unfolding is_in
high_confidence kind = is_in kind (
    codes "exitCode"
    ∷ codes "fileExists"
    ∷ codes "jsonPath"
    ∷ codes "numeric"
    ∷ codes "always"
    ∷ [])

-- The checks of a kind, in order: the first test that holds gives the error.
abbrev pub first_error {ℓ} : {E : Type ℓ} → List (Bool × E) → Option E
first_error [] = none
first_error ((failed, e) ∷ checks) =
    let rest = first_error checks in if failed then some e else rest

-- Any field but those that a kind takes.
abbrev pub extra_fields : Condition → Bool
extra_fields c = not (empty c.extract && (empty c.regex && empty c.stream))

abbrev pub always_checks : Condition → List (Bool × Bytes)
always_checks c =
    (
      not (empty c.op && (is_nothing c.value && (empty c.path && not (extra_fields c)))),
      codes "always does not accept comparison fields",
    )
    ∷ []

abbrev pub exit_code_checks : Condition → List (Bool × Bytes)
exit_code_checks c =
    (not (valid_plan_operator c.op), codes "exitCode requires a supported operator")
    ∷ (not (is_numeric c.value true), codes "exitCode requires an integer value")
    ∷ (
      not (empty c.path) || extra_fields c,
      codes "exitCode does not accept path, extract, regex, or stream",
    )
    ∷ []

abbrev pub file_exists_checks : Condition → List (Bool × Bytes)
file_exists_checks c =
    (empty (trim_space c.path), codes "fileExists requires a path")
    ∷ (
      not (empty c.op && is_nothing c.value) || extra_fields c,
      codes "fileExists does not accept comparison fields",
    )
    ∷ []

-- Whether a pattern does not compile, and whether it has no capture group.
abbrev pub fails : Option ℕ → Bool
fails none = true
fails (some n) = false

abbrev pub groupless : Option ℕ → Bool
groupless none = false
groupless (some n) = n == 0

-- `groups` is the answer of regexp.Compile: the number of capture groups, or `none` for an error.
abbrev pub numeric_checks : (Bytes → Option ℕ) → Condition → List (Bool × Bytes)
numeric_checks groups c =
    (not (valid_plan_operator c.op), codes "numeric requires a supported operator")
    ∷ (not (is_numeric c.value false), codes "numeric requires a numeric value")
    ∷ (not (empty c.extract) && fails (groups c.extract), codes "numeric extract regex")
    ∷ (
      not (empty c.extract) && groupless (groups c.extract),
      codes "numeric extract regex requires a capture group",
    )
    ∷ (
      not (empty c.path && (empty c.regex && empty c.stream)),
      codes "numeric does not accept path, regex, or stream",
    )
    ∷ []

abbrev pub json_path_checks : Condition → List (Bool × Bytes)
json_path_checks c =
    (empty (trim_space c.path), codes "jsonPath requires a path")
    ∷ (not (valid_plan_operator c.op), codes "jsonPath requires a supported operator")
    ∷ (is_nothing c.value, codes "jsonPath requires a value")
    ∷ (
      not (is_in c.op (codes "eq" ∷ codes "ne" ∷ [])) && not (is_numeric c.value false),
      codes "jsonPath requires a numeric value",
    )
    ∷ (extra_fields c, codes "jsonPath does not accept extract, regex, or stream")
    ∷ []

abbrev pub match_checks : (Bytes → Option ℕ) → Condition → List (Bool × Bytes)
match_checks groups c =
    (
      not (is_in c.stream (codes "stdout" ∷ codes "stderr" ∷ [])),
      codes "match requires stream stdout or stderr",
    )
    ∷ (fails (groups c.regex), codes "match regex")
    ∷ (
      not (empty c.op && (is_nothing c.value && (empty c.path && empty c.extract))),
      codes "match does not accept comparison fields",
    )
    ∷ []

-- The text of the error, up to the error that it wraps; the compiled patterns are not kept.
unfoldable pub validate_condition : (Bytes → Option ℕ) → Condition → Option Bytes
unfolding is_in bytes_eq valid_plan_operator is_numeric trim_space
validate_condition groups c =
    if bytes_eq c.kind (codes "always")
    then first_error (always_checks c)
    else if bytes_eq c.kind (codes "exitCode")
    then first_error (exit_code_checks c)
    else if bytes_eq c.kind (codes "fileExists")
    then first_error (file_exists_checks c)
    else if bytes_eq c.kind (codes "numeric")
    then first_error (numeric_checks groups c)
    else if bytes_eq c.kind (codes "jsonPath")
    then first_error (json_path_checks c)
    else if bytes_eq c.kind (codes "match")
    then first_error (match_checks groups c)
    else some (codes "unknown condition kind")

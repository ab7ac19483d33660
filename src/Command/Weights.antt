-- ===== src/Command/Weights.antt =====
-- The fields of a text are not longer than the text.
use native.Mathlib.Nat.{le_refl}
use jinn.Base.{
  ℕ, zero, suc, ◌+◌, ◌≤◌, Bool, true, false, List, [], ◌∷◌, ◌++◌, length, length-append, drop,
  arith,
}
use jinn.Command.{
  Word, ShellQuoteState, FieldStep, quotes, joins, ends, field_step, close_field, fields_from,
  weight,
}

-- The fields of a text are together no longer than it, each with one more rune, but for one.
close_field-weight :
    (b : Bool) (cur : Word) (fields : List Word) (n : ℕ)
    → weight fields ≤ suc n
    → weight (close_field b cur fields) ≤ suc (length cur + suc n)
close_field-weight true cur fields n h = omega arith
close_field-weight false cur fields n h = omega arith

step-weight :
    (q : ShellQuoteState) (cur : Word) (b : Bool) (c : ℕ) (s : Word) (escaped : Bool)
    (st : FieldStep)
    → ((q : ShellQuoteState) (cur : Word) (b : Bool)
        → weight (fields_from q cur b s) ≤ suc (length cur + length s))
    → weight (elim escaped [
      | true ↦ fields_from (record q { escaped = false }) (cur ++ c ∷ []) true s
      | false ↦ elim st [
        | quotes after ↦ fields_from after cur true s
        | joins ↦ fields_from q (cur ++ c ∷ []) true s
        | ends ↦ close_field b cur (fields_from q [] false s)
      ]
    ])
      ≤ suc (length cur + suc (length s))
step-weight q cur b c s true st ih =
    omega
      (arith, ih (record q { escaped = false }) (cur ++ c ∷ []) true, length-append cur (c ∷ []))
step-weight q cur b c s false (quotes after) ih = omega (arith, ih after cur true)
step-weight q cur b c s false joins ih =
    omega (arith, ih q (cur ++ c ∷ []) true, length-append cur (c ∷ []))
step-weight q cur b c s false ends ih =
    close_field-weight b cur (fields_from q [] false s) (length s) (omega (arith, ih q [] false))

pub fields_from-weight :
    (s : Word) (q : ShellQuoteState) (cur : Word) (b : Bool)
    → weight (fields_from q cur b s) ≤ suc (length cur + length s)
unfolding fields_from
fields_from-weight [] q cur true = omega arith
fields_from-weight [] q cur false = omega arith
fields_from-weight (c ∷ s) q cur b =
    step-weight q cur b c s q.escaped (field_step q c) (fields_from-weight s)

pub weight-drop : (i : ℕ) (tokens : List Word) → weight (drop i tokens) ≤ weight tokens
weight-drop zero tokens = le_refl (weight tokens)
weight-drop (suc i) [] = omega arith
weight-drop (suc i) (tok ∷ rest) = omega (arith, weight-drop i rest)

-- ===== src/Command.antt =====
-- internal/jinn/command_risk_parse.go: the words of a shell command, as lists of runes. `Comments` drops the comments, `Verb` reads a word,
-- `Payload` finds the words that a wrapper runs, and `Unwrap` the executable that the risk policy judges.
pub mod Verb
pub mod Comments
pub mod Payload
pub mod Unwrap
pub mod Weights
pub mod InRange
pub mod Fits
pub mod Ends
use jinn.Base.{
  ℕ, zero, suc, ◌+◌, Bool, true, false, not, ◌&&◌, ◌||◌, Option, none, some, List, [], ◌∷◌, ◌++◌,
  Bytes, codes, bytes_eq, has_prefix, length, drop, trim_right, ltb, leb, ◌==◌, if◌then◌else◌,
}
use jinn.Plan.{is_in}

abbrev pub Word : Type 0
Word = List ℕ

abbrev pub is_shell_blank : ℕ → Bool
is_shell_blank c = c == b' ' || (c == b'\t' || c == b'\r')

-- What the quotes in front of a rune say of it.
pub record ShellQuoteState : Type 0 where
  pub in_single : Bool
  pub in_double : Bool
  pub escaped : Bool

abbrev pub unquoted : ShellQuoteState
unquoted = record { in_single = false; in_double = false; escaped = false }

-- What shellFields does with one rune: only the quotes change, the rune joins the field, or the field ends.
pub data FieldStep : Type 0 where
  quotes : ShellQuoteState → FieldStep
  joins ends : FieldStep

unfoldable pub field_step : ShellQuoteState → ℕ → FieldStep
field_step q c =
    if c == b'\\' && not q.in_single
    then FieldStep.quotes (record q { escaped = true })
    else if c == b'\'' && not q.in_double
    then FieldStep.quotes (record q { in_single = not q.in_single })
    else if c == b'"' && not q.in_single
    then FieldStep.quotes (record q { in_double = not q.in_double })
    else if not q.in_single && (not q.in_double && is_shell_blank c)
    then FieldStep.ends
    else FieldStep.joins

abbrev pub close_field : Bool → Word → List Word → List Word
close_field true cur fields = cur ∷ fields
close_field false cur fields = fields

-- The loop of shellFields, with the field begun so far.
unfoldable pub fields_from : ShellQuoteState → Word → Bool → Word → List Word
fields_from q cur in_field [] = close_field in_field cur []
fields_from q cur in_field (c ∷ s) = elim q.escaped [
  | true ↦ fields_from (record q { escaped = false }) (cur ++ c ∷ []) true s
  | false ↦ elim (field_step q c) [
    | quotes next ↦ fields_from next cur true s
    | joins ↦ fields_from q (cur ++ c ∷ []) true s
    | ends ↦ close_field in_field cur (fields_from q [] false s)
  ]
]

abbrev pub shell_fields : Word → List Word
shell_fields s = fields_from unquoted [] false s

-- How much there is to read: each word counts one more than its runes.
abbrev pub weight : List Word → ℕ
weight [] = 0
weight (tok ∷ rest) = suc (length tok) + weight rest

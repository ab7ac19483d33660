-- ===== src/Command/Fits.antt =====
-- Payloads are not longer than the words behind the wrapper.
use native.Mathlib.Nat.{le_refl}
use jinn.Base.{
  ℕ, suc, ◌≤◌, Bool, true, false, Option, none, some, List, [], ◌∷◌, bytes_eq, codes, length,
  length-drop, drop, leb, if◌then◌else◌, if_cases, arith,
}
use jinn.Command.{Word, unquoted, shell_fields, weight}
use jinn.Command.Verb.{is_env_assignment, is_flag, is_any}
use jinn.Command.Payload.{
  direct_shell_wrappers, flag_skipping_shell_wrappers, Scan, scan, wrapper_payload_index,
  exec_payload_index, command_payload_index, multiplexer_payload_index, timeout_payload_index,
  time_payload_index, case_payload_index, taskset_from, coproc_payload_index, Payload, no_payload,
  panicked, words, indexed_payload, rest_payload, env_option_consumes_argument, split_equals,
  env_split_string_payload, env_payload, shell_wrapper_payload, flag_skipping_payload,
  wrapped_command_payload,
}
use jinn.Command.Weights.{fields_from-weight, weight-drop}
use jinn.Command.InRange.{
  InRange, JudgeOk, case-Ok, command-Ok, coproc-InRange, exec-Ok, multiplexer-Ok, scan-InRange,
  taskset-InRange, time-Ok, timeout-Ok, wrapper-Ok,
}

-- A payload is at most what stands behind the wrapper, and never a slice out of range.
unfoldable pub Fits : List Word → Payload → Type 0
Fits rest no_payload = Unit
Fits rest panicked = ⊥
Fits rest (words t) = weight t ≤ weight rest

indexed_payload-Fits :
    (tokens : List Word) (o : Option ℕ)
    → InRange (length tokens) o
    → Fits tokens (indexed_payload tokens o)
unfolding Fits
indexed_payload-Fits tokens none h = tt
indexed_payload-Fits tokens (some i) h =
    if_cases (Fits tokens) (leb i (length tokens)) (words (drop i tokens)) panicked
      (λ _. weight-drop i tokens) (λ e. ground arith)

scanned-Fits :
    (judge : Word → List Word → Scan) (tokens : List Word)
    → ((tok : Word) (rest : List Word) → JudgeOk rest (judge tok rest))
    → Fits tokens (indexed_payload tokens (scan judge false tokens))
scanned-Fits judge tokens ok =
    indexed_payload-Fits tokens (scan judge false tokens) (scan-InRange judge ok false tokens)

fitting :
    (rest : List Word) (b : Bool) (x y : Payload)
    → Fits rest x
    → Fits rest y
    → Fits rest (if b then x else y)
fitting rest true x y h g = h
fitting rest false x y h g = g

none-Fits : (rest : List Word) → Fits rest no_payload
unfolding Fits
none-Fits rest = tt

words-Fits : (rest t : List Word) → weight t ≤ weight rest → Fits rest (words t)
unfolding Fits
words-Fits rest t h = h

later-Fits : (tok : Word) (rest : List Word) (p : Payload) → Fits rest p → Fits (tok ∷ rest) p
unfolding Fits
later-Fits tok rest no_payload h = tt
later-Fits tok rest panicked h = h
later-Fits tok rest (words t) h = omega arith

rest_payload-Fits : (rest t : List Word) → weight t ≤ weight rest → Fits rest (rest_payload t)
rest_payload-Fits rest [] h = none-Fits rest
rest_payload-Fits rest (tok ∷ t) h = words-Fits rest (tok ∷ t) h

shell_wrapper-Fits : (verb : Word) (rest : List Word) → Fits rest (shell_wrapper_payload verb rest)
shell_wrapper-Fits verb rest =
    fitting rest _ _ _ (indexed_payload-Fits rest (coproc_payload_index rest) (coproc-InRange rest))
      (fitting rest _ _ _ (scanned-Fits case_payload_index rest case-Ok) (
        fitting rest _ _ _ (scanned-Fits exec_payload_index rest exec-Ok) (
          fitting rest _ _ _ (scanned-Fits command_payload_index rest command-Ok) (
            fitting rest _ _ _ (scanned-Fits multiplexer_payload_index rest multiplexer-Ok) (
              fitting rest _ _ _ (scanned-Fits timeout_payload_index rest timeout-Ok) (
                fitting rest _ _ _
                  (indexed_payload-Fits rest (taskset_from false false rest)
                    (taskset-InRange false false rest))
                  (fitting rest _ _ _ (scanned-Fits time_payload_index rest time-Ok)
                    (none-Fits rest))))))))

-- A string that env splits gives no more than the words it stands in.
SplitFits : List Word → Option (List Word) → Type 0
SplitFits tokens none = Unit
SplitFits tokens (some t) = weight t ≤ weight tokens

split_choice :
    (tokens : List Word) (b : Bool) (x y : Option (List Word))
    → SplitFits tokens x
    → SplitFits tokens y
    → SplitFits tokens (if b then x else y)
split_choice tokens true x y h g = h
split_choice tokens false x y h g = g

split-none : (tokens : List Word) → SplitFits tokens none
unfolding SplitFits
split-none tokens = tt

split-fields :
    (s : Word) (tokens : List Word)
    → suc (length s) ≤ weight tokens
    → SplitFits tokens (some (shell_fields s))
unfolding SplitFits
split-fields s tokens h = omega (arith, fields_from-weight s unquoted [] false)

split-empty : (tokens : List Word) → SplitFits tokens (some [])
unfolding SplitFits
split-empty tokens = omega arith

split-attached :
    (tok : Word) (rest : List Word)
    → SplitFits (tok ∷ rest) (some (shell_fields (drop (length split_equals) tok)))
split-attached tok rest =
    split-fields (drop (length split_equals) tok) (tok ∷ rest)
      (omega (arith, length-drop (length split_equals) tok))

env_split-Fits :
    (tok : Word) (rest : List Word) → SplitFits (tok ∷ rest) (env_split_string_payload tok rest)
env_split-Fits tok [] =
    split_choice (tok ∷ []) _ _ _ (split-empty (tok ∷ []))
      (split_choice (tok ∷ []) _ _ _ (split-attached tok []) (split-none (tok ∷ [])))
env_split-Fits tok (second ∷ rest) =
    split_choice (tok ∷ second ∷ rest) _ _ _
      (split-fields second (tok ∷ second ∷ rest) (omega arith))
      (split_choice (tok ∷ second ∷ rest) _ _ _ (split-attached tok (second ∷ rest))
        (split-none (tok ∷ second ∷ rest)))

env_step-Fits :
    (tok : Word) (rest : List Word) (a : Bool) (o : Option (List Word)) (b c : Bool)
    → SplitFits (tok ∷ rest) o
    → Fits rest (env_payload false rest)
    → Fits rest (env_payload true rest)
    → Fits (tok ∷ rest) (elim a [
      | true ↦ env_payload false rest
      | false ↦ elim o [
        | some payload ↦ rest_payload payload
        | none ↦ elim b [
          | true ↦ env_payload true rest
          | false ↦ elim c [ true ↦ env_payload false rest | false ↦ words (tok ∷ rest) ]
        ]
      ]
    ])
unfolding SplitFits
env_step-Fits tok rest true o b c s h g = later-Fits tok rest _ h
env_step-Fits tok rest false (some t) b c s h g = rest_payload-Fits (tok ∷ rest) t s
env_step-Fits tok rest false none true c s h g = later-Fits tok rest _ g
env_step-Fits tok rest false none false true s h g = later-Fits tok rest _ h
env_step-Fits tok rest false none false false s h g =
    words-Fits (tok ∷ rest) (tok ∷ rest) (le_refl (weight (tok ∷ rest)))

env_payload-Fits : (skip : Bool) (tokens : List Word) → Fits tokens (env_payload skip tokens)
unfolding env_payload
env_payload-Fits skip [] = none-Fits []
env_payload-Fits true (tok ∷ rest) = later-Fits tok rest _ (env_payload-Fits false rest)
env_payload-Fits false (tok ∷ rest) =
    env_step-Fits tok rest (is_env_assignment tok) (env_split_string_payload tok rest)
      (env_option_consumes_argument tok) (is_flag tok) (env_split-Fits tok rest)
      (env_payload-Fits false rest) (env_payload-Fits true rest)

flag_skipping-Fits :
    (o : Option (List Word)) (verb : Word) (rest : List Word)
    → Fits rest (flag_skipping_payload o verb rest)
flag_skipping-Fits (some flag_args) verb rest =
    scanned-Fits (wrapper_payload_index flag_args) rest (wrapper-Ok flag_args)
flag_skipping-Fits none verb rest =
    fitting rest (bytes_eq verb (codes "env")) _ _ (env_payload-Fits false rest)
      (shell_wrapper-Fits verb rest)

pub wrapped-Fits : (verb : Word) (rest : List Word) → Fits rest (wrapped_command_payload verb rest)
unfolding wrapped_command_payload
wrapped-Fits verb rest =
    fitting rest (is_any verb direct_shell_wrappers) _ _
      (rest_payload-Fits rest rest (le_refl (weight rest)))
      (flag_skipping-Fits (flag_skipping_shell_wrappers verb) verb rest)

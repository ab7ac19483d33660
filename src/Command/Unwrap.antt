-- ===== src/Command/Unwrap.antt =====
-- internal/jinn/command_risk_parse.go: effectiveCommand.
use jinn.Base.{ℕ, zero, suc, ◌&&◌, List, [], ◌∷◌, length, ltb, ◌==◌, if◌then◌else◌}
use jinn.Command.{Word, weight}
use jinn.Command.Verb.{is_env_assignment, normalized_command_verb, is_case_pattern_token}
use jinn.Command.Payload.{Payload, no_payload, panicked, words, wrapped_command_payload}

-- The executable and the words from it on.
pub data Effective : Type 0 where
  no_command slice_panic out_of_fuel : Effective
  command : Word → List Word → Effective

-- One round of effectiveCommand: its words, or its answer.
pub data Round : Type 0 where
  again : List Word → Round
  answer : Effective → Round

abbrev pub unwrapped : Word → List Word → Payload → Round
unwrapped verb tokens (no_payload) = Round.answer (Effective.command verb tokens)
unwrapped verb tokens (panicked) = Round.answer Effective.slice_panic
unwrapped verb tokens (words payload) = Round.again payload

abbrev pub judged : Word → List Word → Word → Round
judged tok rest verb =
    if length verb == 0
    then Round.again rest
    else unwrapped verb (tok ∷ rest) (wrapped_command_payload verb rest)

unfoldable pub command_round : List Word → Round
command_round [] = Round.answer Effective.no_command
command_round (tok ∷ rest) =
    if is_env_assignment tok
    then Round.again rest
    else if is_case_pattern_token tok && ltb 0 (length rest)
    then Round.again rest
    else judged tok rest (normalized_command_verb tok)

-- effectiveCommand, for at most `fuel` rounds.
unfoldable pub effective_within : ℕ → List Word → Effective
effective_within zero tokens = Effective.out_of_fuel
effective_within (suc fuel) tokens = elim (command_round tokens) [
  | again left ↦ effective_within fuel left
  | answer e ↦ e
]

abbrev pub effective_command : List Word → Effective
effective_command tokens = effective_within (suc (weight tokens)) tokens

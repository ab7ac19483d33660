-- ===== src/Command/Ends.antt =====
-- The unwrapping of commands ends, and stays within the words.
use native.Mathlib.Nat.{le_refl}
use jinn.Base.{
  ℕ, zero, suc, ◌≤◌, ◌<◌, ◌≡◌, refl, Bool, true, false, ◌&&◌, List, [], ◌∷◌, length, ltb, ◌==◌,
  if◌then◌else◌, arith,
}
use jinn.Command.{Word, weight}
use jinn.Command.Verb.{is_env_assignment, normalized_command_verb, is_case_pattern_token}
use jinn.Command.Payload.{Payload, no_payload, panicked, words, wrapped_command_payload}
use jinn.Command.Unwrap.{
  Effective, no_command, slice_panic, out_of_fuel, command, Round, again, answer, unwrapped,
  command_round, effective_within, effective_command,
}
use jinn.Command.Fits.{Fits, wrapped-Fits}

-- The answer: none, or a word that is not empty and wraps no command, with what follows it.
abbrev pub Bare : Effective → Type 0
Bare no_command = Unit
Bare slice_panic = ⊥
Bare out_of_fuel = ⊥
Bare (command verb tokens) =
    (tok : Word) × (rest : List Word) × (tokens ≡ tok ∷ rest)
    × (verb ≡ normalized_command_verb tok)
    × (0 < length verb)
    × (wrapped_command_payload verb rest ≡ no_payload)

-- A round gives an answer, or less to read.
RoundOk : List Word → Round → Type 0
RoundOk tokens (again t) = weight t < weight tokens
RoundOk tokens (answer e) = Bare e

unwrapped-Ok :
    (tok : Word) (rest : List Word) (p : Payload)
    → 0 < length (normalized_command_verb tok)
    → wrapped_command_payload (normalized_command_verb tok) rest ≡ p
    → Fits rest p
    → RoundOk (tok ∷ rest) (unwrapped (normalized_command_verb tok) (tok ∷ rest) p)
unfolding RoundOk Fits
unwrapped-Ok tok rest no_payload h e f = (tok, rest, refl, refl, h, e)
unwrapped-Ok tok rest panicked h e f = f
unwrapped-Ok tok rest (words t) h e f = omega arith

round_choice :
    (tokens : List Word) (b : Bool) (x y : Round)
    → RoundOk tokens x
    → (b ≡ false → RoundOk tokens y)
    → RoundOk tokens (if b then x else y)
round_choice tokens true x y h g = h
round_choice tokens false x y h g = g refl

again-Ok : (tok : Word) (rest : List Word) → RoundOk (tok ∷ rest) (again rest)
unfolding RoundOk
again-Ok tok rest = omega arith

command_round-Ok : (tokens : List Word) → RoundOk tokens (command_round tokens)
unfolding command_round
command_round-Ok [] = unfold RoundOk in tt
command_round-Ok (tok ∷ rest) =
    let verb = normalized_command_verb tok in
    round_choice (tok ∷ rest) (is_env_assignment tok) _ _ (again-Ok tok rest) (λ _.
      round_choice (tok ∷ rest) (is_case_pattern_token tok && ltb 0 (length rest)) _ _
        (again-Ok tok rest)
        (λ _. round_choice (tok ∷ rest) (length verb == 0) _ _ (again-Ok tok rest) (λ e.
          unwrapped-Ok tok rest (wrapped_command_payload verb rest) (ground arith) refl
            (wrapped-Fits verb rest))))

round-Bare :
    (fuel : ℕ) (tokens : List Word) (r : Round)
    → weight tokens ≤ fuel
    → RoundOk tokens r
    → ((t : List Word) → weight t < fuel → Bare (effective_within fuel t))
    → Bare (elim r [ again left ↦ effective_within fuel left | answer e ↦ e ])
unfolding RoundOk
round-Bare fuel tokens (again t) h ok ih = ih t (omega arith)
round-Bare fuel tokens (answer e) h ok ih = ok

effective_within-Bare :
    (fuel : ℕ) (tokens : List Word) → weight tokens < fuel → Bare (effective_within fuel tokens)
unfolding effective_within
effective_within-Bare zero tokens h = absurd (omega arith)
effective_within-Bare (suc fuel) tokens h =
    round-Bare fuel tokens (command_round tokens) (omega arith) (command_round-Ok tokens)
      (λ t lt. effective_within-Bare fuel t lt)

-- effectiveCommand ends on every list of words within one round for each rune and each word, with the
-- strings that env splits, and never slices out of range. What it answers, if anything, is a word that is
-- not empty and wraps no further command, with the words behind it.
pub effective_command-Bare : (tokens : List Word) → Bare (effective_command tokens)
effective_command-Bare tokens =
    effective_within-Bare (suc (weight tokens)) tokens (le_refl (suc (weight tokens)))

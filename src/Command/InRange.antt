-- ===== src/Command/InRange.antt =====
-- The indices of payloads lie in the words.
use jinn.Base.{
  ℕ, suc, ◌≤◌, Bool, true, false, ◌&&◌, ◌||◌, Option, none, some, List, [], ◌∷◌, bytes_eq, codes,
  length, leb, ltb, ◌==◌, if◌then◌else◌, if_cases, arith,
}
use jinn.Command.{Word}
use jinn.Command.Verb.{is_shell_name, is_case_pattern_token, is_flag, is_any}
use jinn.Command.Payload.{
  Scan, next, next_but_one, stop, here, suc_of, scan, behind, wrapper_payload_index,
  exec_payload_index, command_payload_index, multiplexer_payload_index, timeout_payload_index,
  time_payload_index, case_payload_index, is_cpu_list_option, cpu_list_flags, taskset_payload_index,
  taskset_from, coproc_payload_index,
}

-- An index of the words, or just behind them.
abbrev pub InRange : ℕ → Option ℕ → Type 0
InRange n none = Unit
InRange n (some i) = i ≤ n

suc_of-InRange : (n : ℕ) (o : Option ℕ) → InRange n o → InRange (suc n) (suc_of o)
suc_of-InRange n none h = tt
suc_of-InRange n (some i) h = omega arith

-- An index that is counted from a word lies in the words from there on.
pub JudgeOk : List Word → Scan → Type 0
JudgeOk rest (here k) = k ≤ suc (length rest)
JudgeOk rest _ = Unit

judged-InRange :
    (rest : List Word) (j : Scan) (a b : Option ℕ)
    → JudgeOk rest j
    → InRange (length rest) a
    → InRange (length rest) b
    → InRange
        (suc (length rest))
        (elim j [ next ↦ suc_of a | next_but_one ↦ suc_of b | stop ↦ none | here k ↦ some k ])
unfolding JudgeOk
judged-InRange rest next a b h x y = suc_of-InRange (length rest) a x
judged-InRange rest next_but_one a b h x y = suc_of-InRange (length rest) b y
judged-InRange rest stop a b h x y = tt
judged-InRange rest (here k) a b h x y = h

pub scan-InRange :
    (judge : Word → List Word → Scan)
    → ((tok : Word) (rest : List Word) → JudgeOk rest (judge tok rest))
    → (skip : Bool) (tokens : List Word) → InRange (length tokens) (scan judge skip tokens)
unfolding scan
scan-InRange judge ok skip [] = tt
scan-InRange judge ok true (tok ∷ rest) =
    suc_of-InRange (length rest) (scan judge false rest) (scan-InRange judge ok false rest)
scan-InRange judge ok false (tok ∷ rest) =
    judged-InRange rest (judge tok rest) (scan judge false rest) (scan judge true rest)
      (ok tok rest) (scan-InRange judge ok false rest) (scan-InRange judge ok true rest)

behind-Ok : (k : ℕ) (rest : List Word) → JudgeOk rest (behind k rest)
unfolding JudgeOk
behind-Ok k rest =
    if_cases (JudgeOk rest) (leb k (length rest)) (here k) stop (λ e. ground arith) (λ _. tt)

-- A choice of outcomes that are all in range.
choice :
    (rest : List Word) (b : Bool) (x y : Scan)
    → JudgeOk rest x
    → JudgeOk rest y
    → JudgeOk rest (if b then x else y)
choice rest true x y h g = h
choice rest false x y h g = g

next-Ok : (rest : List Word) → JudgeOk rest next
unfolding JudgeOk
next-Ok rest = tt

skip-Ok : (rest : List Word) → JudgeOk rest next_but_one
unfolding JudgeOk
skip-Ok rest = tt

stop-Ok : (rest : List Word) → JudgeOk rest stop
unfolding JudgeOk
stop-Ok rest = tt

here-Ok : (rest : List Word) → JudgeOk rest (here 0)
unfolding JudgeOk
here-Ok rest = omega arith

taskset-Ok :
    (mode : Bool) (tok : Word) (rest : List Word)
    → JudgeOk rest (taskset_payload_index mode tok rest)
taskset-Ok mode tok rest = choice rest (bytes_eq tok (codes "--")) _ _ (behind-Ok 2 rest) (
    choice rest (is_any tok (codes "-p" ∷ codes "--pid" ∷ [])) stop _ (stop-Ok rest) (
      choice rest (is_any tok cpu_list_flags) _ _
        (choice rest (length rest == 0) stop next_but_one (stop-Ok rest) (skip-Ok rest))
        (choice rest (is_cpu_list_option tok) next _ (next-Ok rest) (
          choice rest (is_flag tok) next _ (next-Ok rest)
            (choice rest mode (here 0) _ (here-Ok rest) (behind-Ok 1 rest))))))

pub wrapper-Ok :
    (flag_args : List Word) (tok : Word) (rest : List Word)
    → JudgeOk rest (wrapper_payload_index flag_args tok rest)
wrapper-Ok flag_args tok rest =
    choice rest _ _ _ (next-Ok rest)
      (choice rest _ _ _ (skip-Ok rest) (choice rest _ _ _ (next-Ok rest) (here-Ok rest)))

pub exec-Ok : (tok : Word) (rest : List Word) → JudgeOk rest (exec_payload_index tok rest)
exec-Ok tok rest =
    choice rest _ _ _ (next-Ok rest) (choice rest _ _ _ (next-Ok rest) (here-Ok rest))

pub command-Ok : (tok : Word) (rest : List Word) → JudgeOk rest (command_payload_index tok rest)
command-Ok tok rest =
    choice rest _ _ _ (next-Ok rest)
      (choice rest _ _ _ (stop-Ok rest) (choice rest _ _ _ (next-Ok rest) (here-Ok rest)))

pub multiplexer-Ok :
    (tok : Word) (rest : List Word) → JudgeOk rest (multiplexer_payload_index tok rest)
multiplexer-Ok tok rest = choice rest _ _ _ (next-Ok rest) (here-Ok rest)

pub timeout-Ok : (tok : Word) (rest : List Word) → JudgeOk rest (timeout_payload_index tok rest)
timeout-Ok tok rest =
    choice rest _ _ _ (behind-Ok 2 rest)
      (choice rest _ _ _ (skip-Ok rest) (choice rest _ _ _ (next-Ok rest) (behind-Ok 1 rest)))

pub time-Ok : (tok : Word) (rest : List Word) → JudgeOk rest (time_payload_index tok rest)
time-Ok tok rest =
    choice rest _ _ _ (behind-Ok 1 rest)
      (choice rest _ _ _ (skip-Ok rest) (choice rest _ _ _ (next-Ok rest) (here-Ok rest)))

pub case-Ok : (tok : Word) (rest : List Word) → JudgeOk rest (case_payload_index tok rest)
unfolding JudgeOk
case-Ok tok rest =
    if_cases (JudgeOk rest) (is_case_pattern_token tok && ltb 0 (length rest)) (here 1) next
      (λ e. omega arith) (λ _. tt)

pub taskset-InRange :
    (mode skip : Bool) (tokens : List Word)
    → InRange (length tokens) (taskset_from mode skip tokens)
unfolding taskset_from
taskset-InRange mode skip [] = tt
taskset-InRange mode true (tok ∷ rest) =
    suc_of-InRange (length rest) (taskset_from mode false rest) (taskset-InRange mode false rest)
taskset-InRange mode false (tok ∷ rest) =
    judged-InRange rest (taskset_payload_index mode tok rest) _ _ (taskset-Ok mode tok rest)
      (taskset-InRange (mode || is_cpu_list_option tok) false rest) (taskset-InRange true true rest)

pub coproc-InRange : (tokens : List Word) → InRange (length tokens) (coproc_payload_index tokens)
coproc-InRange [] = tt
coproc-InRange (tok ∷ []) = omega arith
coproc-InRange (tok ∷ second ∷ rest) =
    if_cases (InRange (suc (suc (length rest))))
      (is_shell_name tok && (bytes_eq second (codes "{") || bytes_eq second (codes "("))) (some 1)
      (some 0) (λ _. omega arith) (λ _. omega arith)

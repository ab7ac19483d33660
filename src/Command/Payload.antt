-- ===== src/Command/Payload.antt =====
-- internal/jinn/command_risk_parse.go: the payloads of the wrappers that wrappedCommandPayload knows.
use jinn.Base.{
  ℕ, suc, Bool, true, false, ◌&&◌, ◌||◌, Option, none, some, List, [], ◌∷◌, codes, bytes_eq,
  has_prefix, length, drop, ltb, leb, ◌==◌, if◌then◌else◌,
}
use jinn.Command.{Word, shell_fields}
use jinn.Command.Verb.{is_shell_name, is_env_assignment, is_case_pattern_token, is_flag, is_any}

abbrev pub direct_shell_wrappers : List Word
direct_shell_wrappers =
    codes "{"
    ∷ codes "("
    ∷ codes "!"
    ∷ codes "if"
    ∷ codes "then"
    ∷ codes "else"
    ∷ codes "elif"
    ∷ codes "do"
    ∷ codes "while"
    ∷ codes "until"
    ∷ codes "nohup"
    ∷ []

-- The flags of nice, setsid and stdbuf that take an argument; `none` for another verb.
abbrev pub flag_skipping_shell_wrappers : Word → Option (List Word)
flag_skipping_shell_wrappers verb =
    if bytes_eq verb (codes "nice")
    then some (codes "-n" ∷ codes "--adjustment" ∷ [])
    else if bytes_eq verb (codes "setsid")
    then some []
    else if bytes_eq verb (codes "stdbuf")
    then some (
        codes "-i"
        ∷ codes "-o"
        ∷ codes "-e"
        ∷ codes "--input"
        ∷ codes "--output"
        ∷ codes "--error"
        ∷ [])
    else none

-- What a loop over the words does with one of them: go on, go on behind the next one as well, give an
-- index counted from the word on, or -1.
pub data Scan : Type 0 where
  next next_but_one stop : Scan
  here : ℕ → Scan

abbrev pub suc_of : Option ℕ → Option ℕ
suc_of none = none
suc_of (some i) = some (suc i)

-- A loop over the words: whether the word at hand is passed over, and the words from there on. The index
-- is counted from the first of them.
unfoldable pub scan : (Word → List Word → Scan) → Bool → List Word → Option ℕ
scan judge skip [] = none
scan judge true (tok ∷ rest) = suc_of (scan judge false rest)
scan judge false (tok ∷ rest) = elim (judge tok rest) [
  | next ↦ suc_of (scan judge false rest)
  | next_but_one ↦ suc_of (scan judge true rest)
  | stop ↦ none
  | here k ↦ some k
]

abbrev pub behind : ℕ → List Word → Scan
behind k rest = if leb k (length rest) then Scan.here k else Scan.stop

-- The bodies of the loops of the payload functions.
abbrev pub wrapper_payload_index : List Word → Word → List Word → Scan
wrapper_payload_index flag_args tok rest =
    if is_env_assignment tok
    then Scan.next
    else if is_any tok flag_args
    then Scan.next_but_one
    else if is_flag tok
    then Scan.next
    else Scan.here 0

abbrev pub exec_payload_index : Word → List Word → Scan
exec_payload_index tok rest =
    if is_env_assignment tok then Scan.next else if is_flag tok then Scan.next else Scan.here 0

abbrev pub command_payload_index : Word → List Word → Scan
command_payload_index tok rest =
    if is_env_assignment tok
    then Scan.next
    else if is_any tok (codes "-v" ∷ codes "-V" ∷ [])
    then Scan.stop
    else if is_flag tok
    then Scan.next
    else Scan.here 0

abbrev pub multiplexer_payload_index : Word → List Word → Scan
multiplexer_payload_index tok rest = if is_flag tok then Scan.next else Scan.here 0

abbrev pub timeout_payload_index : Word → List Word → Scan
timeout_payload_index tok rest =
    if bytes_eq tok (codes "--")
    then behind 2 rest
    else if is_any tok (codes "-k" ∷ codes "--kill-after" ∷ codes "-s" ∷ codes "--signal" ∷ [])
    then Scan.next_but_one
    else if is_flag tok
    then Scan.next
    else behind 1 rest

-- parseTimeInvocation, less the output targets it collects; an output option without a word behind it is
-- passed over.
abbrev pub time_payload_index : Word → List Word → Scan
time_payload_index tok rest =
    if bytes_eq tok (codes "--")
    then behind 1 rest
    else if is_any tok (codes "-f" ∷ codes "--format" ∷ codes "-o" ∷ codes "--output" ∷ [])
    then Scan.next_but_one
    else if is_flag tok
    then Scan.next
    else Scan.here 0

abbrev pub case_payload_index : Word → List Word → Scan
case_payload_index tok rest =
    if is_case_pattern_token tok && ltb 0 (length rest) then Scan.here 1 else Scan.next

abbrev pub is_cpu_list_option : Word → Bool
is_cpu_list_option tok =
    has_prefix tok (codes "--cpu-list=") || (has_prefix tok (codes "-c") && ltb 2 (length tok))

abbrev pub cpu_list_flags : List Word
cpu_list_flags = codes "-c" ∷ codes "--cpu-list" ∷ []

-- The body of tasksetPayloadIndex, once a CPU list has been given or before.
abbrev pub taskset_payload_index : Bool → Word → List Word → Scan
taskset_payload_index cpu_list_mode tok rest =
    if bytes_eq tok (codes "--")
    then behind 2 rest
    else if is_any tok (codes "-p" ∷ codes "--pid" ∷ [])
    then Scan.stop
    else if is_any tok cpu_list_flags
    then (if length rest == 0 then Scan.stop else Scan.next_but_one)
    else if is_cpu_list_option tok
    then Scan.next
    else if is_flag tok
    then Scan.next
    else if cpu_list_mode
    then Scan.here 0
    else behind 1 rest

-- The loop of tasksetPayloadIndex.
unfoldable pub taskset_from : Bool → Bool → List Word → Option ℕ
taskset_from cpu_list_mode skip [] = none
taskset_from cpu_list_mode true (tok ∷ rest) = suc_of (taskset_from cpu_list_mode false rest)
taskset_from cpu_list_mode false (tok ∷ rest) =
    elim (taskset_payload_index cpu_list_mode tok rest) [
      | next ↦ suc_of (taskset_from (cpu_list_mode || is_cpu_list_option tok) false rest)
      | next_but_one ↦ suc_of (taskset_from true true rest)
      | stop ↦ none
      | here k ↦ some k
    ]

abbrev pub coproc_payload_index : List Word → Option ℕ
coproc_payload_index [] = none
coproc_payload_index (tok ∷ []) = some 0
coproc_payload_index (tok ∷ second ∷ rest) =
    if is_shell_name tok && (bytes_eq second (codes "{") || bytes_eq second (codes "("))
    then some 1
    else some 0

-- The payload of a wrapper: none, its words, or a slice out of range.
pub data Payload : Type 0 where
  no_payload panicked : Payload
  words : List Word → Payload

-- indexedPayload
abbrev pub indexed_payload : List Word → Option ℕ → Payload
indexed_payload tokens none = Payload.no_payload
indexed_payload tokens (some index) =
    if leb index (length tokens) then Payload.words (drop index tokens) else Payload.panicked

abbrev pub rest_payload : List Word → Payload
rest_payload [] = Payload.no_payload
rest_payload (tok ∷ rest) = Payload.words (tok ∷ rest)

abbrev pub env_option_consumes_argument : Word → Bool
env_option_consumes_argument token = is_any token (
    codes "-u"
    ∷ codes "--unset"
    ∷ codes "-C"
    ∷ codes "--chdir"
    ∷ codes "-a"
    ∷ codes "--argv0"
    ∷ codes "-P"
    ∷ [])

abbrev pub split_equals : Word
split_equals = codes "--split-string="

-- A string that env splits, and whether it has to.
abbrev pub env_split_string_payload : Word → List Word → Option (List Word)
env_split_string_payload token [] =
    if is_any token (codes "-S" ∷ codes "--split-string" ∷ [])
    then some []
    else if has_prefix token split_equals
    then some (shell_fields (drop (length split_equals) token))
    else none
env_split_string_payload token (second ∷ rest) =
    if is_any token (codes "-S" ∷ codes "--split-string" ∷ [])
    then some (shell_fields second)
    else if has_prefix token split_equals
    then some (shell_fields (drop (length split_equals) token))
    else none

-- The loop of envPayload; a token that is an attached option begins with a dash like any other flag.
unfoldable pub env_payload : Bool → List Word → Payload
env_payload skip [] = Payload.no_payload
env_payload true (tok ∷ rest) = env_payload false rest
env_payload false (tok ∷ rest) = elim (is_env_assignment tok) [
  | true ↦ env_payload false rest
  | false ↦ elim (env_split_string_payload tok rest) [
    | some payload ↦ rest_payload payload
    | none ↦ elim (env_option_consumes_argument tok) [
      | true ↦ env_payload true rest
      | false ↦ elim (is_flag tok) [
        | true ↦ env_payload false rest
        | false ↦ Payload.words (tok ∷ rest)
      ]
    ]
  ]
]

-- The verbs of shellWrapperPayloadIndex.
abbrev pub shell_wrapper_payload : Word → List Word → Payload
shell_wrapper_payload verb rest =
    if bytes_eq verb (codes "coproc")
    then indexed_payload rest (coproc_payload_index rest)
    else if bytes_eq verb (codes "case")
    then indexed_payload rest (scan case_payload_index false rest)
    else if bytes_eq verb (codes "exec")
    then indexed_payload rest (scan exec_payload_index false rest)
    else if is_any verb (codes "command" ∷ codes "builtin" ∷ [])
    then indexed_payload rest (scan command_payload_index false rest)
    else if is_any verb (codes "busybox" ∷ codes "toybox" ∷ [])
    then indexed_payload rest (scan multiplexer_payload_index false rest)
    else if bytes_eq verb (codes "timeout")
    then indexed_payload rest (scan timeout_payload_index false rest)
    else if bytes_eq verb (codes "taskset")
    then indexed_payload rest (taskset_from false false rest)
    else if bytes_eq verb (codes "time")
    then indexed_payload rest (scan time_payload_index false rest)
    else Payload.no_payload

abbrev pub flag_skipping_payload : Option (List Word) → Word → List Word → Payload
flag_skipping_payload (some flag_args) verb rest =
    indexed_payload rest (scan (wrapper_payload_index flag_args) false rest)
flag_skipping_payload none verb rest =
    if bytes_eq verb (codes "env") then env_payload false rest else shell_wrapper_payload verb rest

unfoldable pub wrapped_command_payload : Word → List Word → Payload
wrapped_command_payload verb rest =
    if is_any verb direct_shell_wrappers
    then rest_payload rest
    else flag_skipping_payload (flag_skipping_shell_wrappers verb) verb rest

-- ===== src/Command/Verb.antt =====
-- internal/jinn/command_risk_parse.go: what one word of a command is.
use jinn.Base.{
  ℕ, Bool, true, false, not, ◌&&◌, ◌||◌, List, [], ◌∷◌, ◌++◌, codes, bytes_eq, has_prefix, length,
  trim_right, leb, ◌==◌, if◌then◌else◌,
}
use jinn.Plan.{is_in}
use jinn.Command.{Word}

abbrev pub is_shell_name_start : ℕ → Bool
is_shell_name_start c = (leb b'A' c && leb c b'Z') || ((leb b'a' c && leb c b'z') || c == b'_')

abbrev pub is_digit : ℕ → Bool
is_digit c = leb b'0' c && leb c b'9'

abbrev pub is_ident_char : ℕ → Bool
is_ident_char c = is_shell_name_start c || is_digit c

abbrev pub all_of : (ℕ → Bool) → Word → Bool
all_of p [] = true
all_of p (c ∷ s) = p c && all_of p s

abbrev pub is_shell_name : Word → Bool
is_shell_name [] = false
is_shell_name (c ∷ s) = is_shell_name_start c && all_of is_ident_char s

-- The loop of isEnvAssignment behind the first rune of a name.
unfoldable pub assigns : Word → Bool
assigns [] = false
assigns (c ∷ s) = let rest = assigns s in if c == b'=' then true else is_ident_char c && rest

unfoldable pub is_env_assignment : Word → Bool
is_env_assignment [] = false
is_env_assignment (c ∷ s) = not (c == b'=') && (is_ident_char c && assigns s)

abbrev pub all_digits : Word → Bool
all_digits [] = false
all_digits (c ∷ s) = all_of is_digit (c ∷ s)

-- commandVerbBeforeRedirection, behind the runes seen.
unfoldable pub verb_before_redirection : Word → Word → Word
verb_before_redirection seen [] = seen
verb_before_redirection seen (c ∷ s) =
    let rest = verb_before_redirection (seen ++ c ∷ []) s in
    if c == b'<' || c == b'>'
    then (if length seen == 0 || all_digits seen then [] else seen)
    else rest

-- What stands behind the last slash, `seen` being what stands there so far.
unfoldable pub behind_slash : Word → Word → Word
behind_slash seen [] = seen
behind_slash seen (c ∷ s) = behind_slash (if c == b'/' then [] else seen ++ c ∷ []) s

-- path.Base of a path that is not empty.
abbrev pub path_base : Word → Word
path_base s =
    let stripped = trim_right (λ c. c == b'/') s in
    if length stripped == 0 then b'/' ∷ [] else behind_slash [] stripped

unfoldable pub trim_left : (ℕ → Bool) → Word → Word
trim_left p [] = []
trim_left p (c ∷ s) = let rest = trim_left p s in if p c then rest else c ∷ s

unfoldable pub normalized_command_verb : Word → Word
normalized_command_verb tok =
    let verb = verb_before_redirection [] tok in
    let base = path_base verb in
    let bare =
      trim_right (λ c. c == b')' || c == b'}') (trim_left (λ c. c == b'(' || c == b'{') base) in
    if length verb == 0
    then []
    else if bytes_eq verb (codes "[[") || has_prefix verb (codes "((")
    then codes "true"
    else if length bare == 0
    then base
    else bare

unfoldable pub ends_in_paren : Word → Bool
ends_in_paren [] = false
ends_in_paren (c ∷ []) = c == b')'
ends_in_paren (c ∷ d ∷ s) = ends_in_paren (d ∷ s)

abbrev pub is_case_pattern_token : Word → Bool
is_case_pattern_token tok = ends_in_paren tok && not (bytes_eq tok (codes ")"))

abbrev pub is_flag : Word → Bool
is_flag tok = has_prefix tok (codes "-")

abbrev pub is_any : Word → List Word → Bool
is_any tok words = is_in tok words

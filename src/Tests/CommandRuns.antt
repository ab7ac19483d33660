-- ===== src/Tests/CommandRuns.antt =====
-- internal/jinn/command_risk_parse.go on short commands.
use jinn.Base.{◌↔◌, ◌≡◌, refl, true, [], ◌∷◌, codes, bytes_eq, has_prefix, trim_right}
use jinn.Plan.{is_in}
use jinn.Command.Comments.{
  write_literal, strip_from, strip_shell_comments, Stripped, outside, strip_shell_comments-Stripped,
}
use jinn.Command.{fields_from, field_step, shell_fields}
use jinn.Command.Verb.{
  is_env_assignment, assigns, ends_in_paren, normalized_command_verb, verb_before_redirection,
  behind_slash, trim_left,
}
use jinn.Command.Payload.{scan, taskset_from, env_payload, wrapped_command_payload}
use jinn.Command.Unwrap.{command, command_round, effective_within, effective_command}
use jinn.Command.Ends.{Bare, effective_command-Bare}

fields_with_quotes :
    shell_fields (codes "a 'b c' \"d\\\"e\" f\\ g ''")
    ≡ codes "a" ∷ codes "b c" ∷ codes "d\"e" ∷ codes "f g" ∷ [] ∷ []
unfolding fields_from field_step
fields_with_quotes = refl

nested_wrappers :
    effective_command
      (shell_fields (codes "X=1 env -u A -S 'nice -n 5 timeout -k 1 9 /bin/rm -r x'"))
    ≡ command (codes "rm") (codes "/bin/rm" ∷ codes "-r" ∷ codes "x" ∷ [])
unfolding fields_from field_step effective_within command_round is_env_assignment assigns
    ends_in_paren normalized_command_verb verb_before_redirection behind_slash trim_left trim_right
    wrapped_command_payload env_payload scan taskset_from is_in bytes_eq has_prefix
nested_wrappers = refl

-- The name that `exec -a` gives is taken for the command.
exec_with_name :
    effective_command (shell_fields (codes "exec -a x rm -rf y"))
    ≡ command (codes "x") (codes "x" ∷ codes "rm" ∷ codes "-rf" ∷ codes "y" ∷ [])
unfolding fields_from field_step effective_within command_round is_env_assignment assigns
    ends_in_paren normalized_command_verb verb_before_redirection behind_slash trim_left trim_right
    wrapped_command_payload env_payload scan taskset_from is_in bytes_eq has_prefix
exec_with_name = refl

effective_command-Bare_example : Bare (effective_command (shell_fields (codes "env -S 'nice rm'")))
effective_command-Bare_example = effective_command-Bare (shell_fields (codes "env -S 'nice rm'"))

comment_stripped :
    strip_shell_comments (codes "ls # rm\n'# kept' a#b;#x") ≡ codes "ls \n'# kept' a#b;"
unfolding write_literal strip_from
comment_stripped = refl

strip_shell_comments-Stripped_example :
    Stripped (outside true) (codes "ls # rm\n'# kept' a#b;#x") (codes "ls \n'# kept' a#b;")
    ↔ (codes "ls \n'# kept' a#b;" ≡ strip_shell_comments (codes "ls # rm\n'# kept' a#b;#x"))
strip_shell_comments-Stripped_example =
    strip_shell_comments-Stripped (codes "ls # rm\n'# kept' a#b;#x") (codes "ls \n'# kept' a#b;")

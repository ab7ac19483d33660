-- ===== src/Tests/ShellRuns.antt =====
-- internal/jinn/exitcode.go on a few commands.
use jinn.Base.{◌≡◌, refl, ◌++◌, take, drop, Bytes, codes, pos}
use jinn.ExitCode.{
  signal, expected_nonzero, classify_exit_code, match_stderr_hint, first_hint, stderr_hints,
}
use jinn.ExitCode.Classes.{Decided, classify_exit_code-Decided}
use jinn.ExitCode.Hints.{match_stderr_hint-cargo}

-- A name without directories and upper-case letters is its own base name.
abbrev same : Bytes → Bytes
same s = s

classify_exit_code-Decided_example :
    Decided (codes "grep") (pos 1) (classify_exit_code same (codes "grep") (pos 1)).0
classify_exit_code-Decided_example = classify_exit_code-Decided same (codes "grep") (pos 1)

no_match : (classify_exit_code same (codes "grep") (pos 1)).0 ≡ expected_nonzero
unfolding classify_exit_code
no_match = refl

-- The table has a row for ssh and 255.
ssh_error : (classify_exit_code same (codes "ssh") (pos 255)).0 ≡ signal
unfolding classify_exit_code
ssh_error = refl

match_stderr_hint-cargo_example :
    match_stderr_hint same (codes "bash: cargo: command not found")
    ≡ first_hint same
        (take 9 stderr_hints ++ drop 10 stderr_hints)
        (codes "bash: cargo: command not found")
match_stderr_hint-cargo_example =
    match_stderr_hint-cargo same (codes "bash: cargo: command not found") refl refl

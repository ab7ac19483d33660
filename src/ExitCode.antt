-- ===== src/ExitCode.antt =====
-- internal/jinn/exitcode.go: how a shell command's exit code is to be read, and the hints on its error
-- output.
pub mod Classes
pub mod Hints
use jinn.Base.{
  ℕ, Bool, true, false, ◌&&◌, ◌||◌, Option, none, some, List, [], ◌∷◌, Bytes, codes, bytes_eq,
  has_prefix, ℤ, pos, negsuc, ltb, ◌==◌, if◌then◌else◌,
}

pub data Classification : Type 0 where
  success expected_nonzero failure timeout signal : Classification

pub record ExitEntry : Type 0 where
  pub command : Bytes
  pub code : ℕ
  pub class : Classification
  pub reason : Bytes

abbrev pub entry : Bytes → ℕ → Classification → Bytes → ExitEntry
entry command code class reason = record {
  command = command;
  code = code;
  class = class;
  reason = reason;
}

-- exitTable, one entry for each pair of keys.
abbrev pub exit_table : List ExitEntry
exit_table =
    entry (codes "grep") 1 expected_nonzero
      (codes "no matches found (grep exits 1 when the pattern does not match)")
    ∷ entry (codes "rg") 1 expected_nonzero
        (codes "no matches found (rg exits 1 when the pattern does not match)")
    ∷ entry (codes "ag") 1 expected_nonzero
        (codes "no matches found (ag exits 1 when the pattern does not match)")
    ∷ entry (codes "diff") 1 expected_nonzero
        (codes "files differ (diff exits 1 when inputs are not identical)")
    ∷ entry (codes "cmp") 1 expected_nonzero
        (codes "files differ (cmp exits 1 when inputs are not identical)")
    ∷ entry (codes "test") 1 expected_nonzero
        (codes "condition is false (test/[ exits 1 for a false expression)")
    ∷ entry (codes "[") 1 expected_nonzero
        (codes "condition is false ([ exits 1 for a false expression)")
    ∷ entry (codes "curl") 22 expected_nonzero
        (codes "HTTP error response (curl exits 22 for 4xx/5xx status codes)")
    ∷ entry (codes "ssh") 255 failure
        (codes "SSH connection or protocol error (exit 255 indicates a connection-level failure)")
    ∷ entry (codes "timeout") 124 timeout
        (codes "command exceeded time limit (timeout exits 124 when the child is killed)")
    ∷ []

-- The entry of the table for a command and a code.
unfoldable pub find_entry : List ExitEntry → Bytes → ℕ → Option ExitEntry
unfolding bytes_eq
find_entry [] base code = none
find_entry (e ∷ table) base code =
    let later = find_entry table base code in
    if bytes_eq e.command base && e.code == code then some e else later

abbrev pub of_entry : Option ExitEntry → Classification × Bytes
of_entry none = (failure, codes "command exited with non-zero status")
of_entry (some e) = (e.class, e.reason)

-- `basename` stands for strings.ToLower(filepath.Base(argv0)).
unfoldable pub classify_exit_code : (Bytes → Bytes) → Bytes → ℤ → Classification × Bytes
unfolding find_entry
classify_exit_code basename argv0 (negsuc n) = (signal, codes "process was terminated by a signal")
classify_exit_code basename argv0 (pos code) =
    if code == 0
    then (success, codes "command completed successfully")
    else if ltb 128 code
    then (signal, codes "process was terminated by a signal")
    else if code == 124
    then (timeout, codes "command exceeded time limit")
    else of_entry (find_entry exit_table (basename argv0) code)

pub record StderrHint : Type 0 where
  pub pattern : Bytes
  pub hint : Bytes

abbrev pub hint_on : Bytes → Bytes → StderrHint
hint_on pattern hint = record { pattern = pattern; hint = hint }

abbrev pub stderr_hints : List StderrHint
stderr_hints =
    hint_on (codes "go: no go.mod file") (codes "run: go mod init <module-path>")
    ∷ hint_on (codes "command not found") (codes "install the missing command or check PATH")
    ∷ hint_on (codes "permission denied")
        (codes "check file permissions or run with appropriate access")
    ∷ hint_on (codes "No such file or directory") (codes "verify the file path exists")
    ∷ hint_on (codes "EADDRINUSE")
        (codes "port is in use -- kill the process or choose a different port")
    ∷ hint_on (codes "EACCES") (codes "check file permissions or run with appropriate access")
    ∷ hint_on (codes "npm ERR! peer dep") (codes "run: npm install --legacy-peer-deps")
    ∷ hint_on (codes "Cannot find module") (codes "run: npm install (or bun install)")
    ∷ hint_on (codes "ModuleNotFoundError") (codes "run: pip install <missing-module>")
    ∷ hint_on (codes "cargo: command not found") (codes "install Rust via rustup")
    ∷ hint_on (codes "go: module") (codes "run: go mod tidy")
    ∷ hint_on (codes "connection refused") (codes "target service is not running or wrong port")
    ∷ hint_on (codes "certificate") (codes "check TLS certificates or use --insecure for testing")
    ∷ hint_on (codes "out of memory") (codes "increase available memory or reduce workload")
    ∷ hint_on (codes "disk full") (codes "free disk space")
    ∷ hint_on (codes "too many open files") (codes "increase ulimit: ulimit -n 4096")
    ∷ hint_on (codes "killed")
        (codes "process was killed (OOM or signal) -- check system resources")
    ∷ []

-- strings.Contains
unfoldable pub contains : Bytes → Bytes → Bool
unfolding has_prefix
contains [] p = has_prefix [] p
contains (c ∷ s) p = has_prefix (c ∷ s) p || contains s p

-- The hint of the first pattern that the text contains, "" where there is none.
unfoldable pub first_hint : (Bytes → Bytes) → List StderrHint → Bytes → Bytes
unfolding contains
first_hint to_lower [] lower = []
first_hint to_lower (h ∷ hints) lower =
    let later = first_hint to_lower hints lower in
    if contains lower (to_lower h.pattern) then h.hint else later

-- `to_lower` stands for strings.ToLower.
unfoldable pub match_stderr_hint : (Bytes → Bytes) → Bytes → Bytes
unfolding first_hint
match_stderr_hint to_lower stderr = first_hint to_lower stderr_hints (to_lower stderr)

-- ===== src/ReadWindow.antt =====
-- internal/jinn/read_window.go, with buildReadHint of internal/jinn/tool_read_trunc.go: the window of
-- lines that read_file shows, and the line from which a caller continues.
pub mod Bounds
pub mod Paging
use jinn.Base.{
  ℕ, zero, suc, ◌+◌, ◌-◌, ◌*◌, ◌/◌, Bool, true, false, not, ◌&&◌, ◌||◌, Option, none, some, List,
  [], ◌∷◌, ◌++◌, Bytes, codes, bytes_eq, length, take, split, join, decimal, ℤ, pos, negsuc,
  at_least, to_nat, ltb, leb, ◌==◌, if◌then◌else◌,
}
use jinn.Output.{TruncateResult, truncate_output_tail, truncate_output_detailed}
use jinn.Smart.{truncate_output_smart}

-- The constants of internal/jinn/tool_read.go.
abbrev pub read_default_lines : ℕ
read_default_lines = 2000

abbrev pub read_max_bytes : ℕ
read_max_bytes = 50 * 1024

-- The values of "truncate".
pub data TruncateMode : Type 0 where
  head tail middle whole smart : TruncateMode

abbrev pub or_head : Bytes → Bytes
or_head [] = codes "head"
or_head (c ∷ s) = c ∷ s

-- The answer of parseTruncateMode to the string argument, "" where it is absent; `none` is its error.
unfoldable pub parse_truncate_mode : Bytes → Option TruncateMode
unfolding bytes_eq
parse_truncate_mode arg =
    let mode = or_head arg in
    if bytes_eq mode (codes "head")
    then some head
    else if bytes_eq mode (codes "tail")
    then some tail
    else if bytes_eq mode (codes "middle")
    then some middle
    else if bytes_eq mode (codes "none")
    then some whole
    else if bytes_eq mode (codes "smart")
    then some smart
    else none

-- The arguments that choose a window, as integers; `none` where there is no number.
pub record WindowArgs : Type 0 where
  pub tail_lines : Option ℤ
  pub start_line : Option ℤ
  pub end_line : Option ℤ

pub record ReadWindow : Type 0 where
  pub start_line : ℕ
  pub end_line : ℕ
  pub total : ℕ

-- The number, if there is one that is at least n.
abbrev pub given : Option ℤ → ℕ → Option ℕ
given none n = none
given (some z) n = if at_least z n then some (to_nat z) else none

abbrev pub or_default : Option ℕ → ℕ → ℕ
or_default none d = d
or_default (some n) d = n

abbrev pub is_given : Option ℕ → Bool
is_given none = false
is_given (some n) = true

abbrev pub is_tail : TruncateMode → Bool
is_tail tail = true
is_tail _ = false

abbrev pub is_sequential : TruncateMode → Bool
is_sequential head = true
is_sequential smart = true
is_sequential _ = false

unfoldable pub explicit_or_default_window : WindowArgs → TruncateMode → ℕ → ℕ × ℕ
explicit_or_default_window args mode total =
    let given_start = given args.start_line 1 in
    let start = or_default given_start 1 in
    let given_end = given args.end_line start in
    let end = or_default given_end (start + read_default_lines - 1) in
    if is_tail mode
      && (not (is_given given_start || is_given given_end) && ltb read_default_lines total)
    then (total - read_default_lines + 1, total)
    else (start, end)

-- The last `lines` lines; total - lines + 1 is below 1 where there are fewer.
abbrev pub tail_window : ℕ → ℕ → ℕ × ℕ
tail_window lines total = (if ltb total lines then 1 else total - lines + 1, total)

-- The window of the arguments, before it is held against the total.
unfoldable pub requested_window : WindowArgs → TruncateMode → ℕ → ℕ × ℕ
unfolding explicit_or_default_window
requested_window args mode total = elim (given args.tail_lines 1) [
  | some lines ↦ tail_window lines total
  | none ↦ explicit_or_default_window args mode total
]

-- `none` is the error that the window starts past the end.
unfoldable pub resolve_read_window : WindowArgs → TruncateMode → ℕ → Option (ℕ × ℕ)
unfolding requested_window
resolve_read_window args mode total =
    let window = requested_window args mode total in
    if ltb total window.0
    then none
    else some (window.0, if ltb total window.1 then total else window.1)

-- The answer of readFileContent; its checksum is attached later.
pub record ReadContentResult : Type 0 where
  pub content : Bytes
  pub total_lines : ℕ
  pub output_lines : ℕ
  pub truncated : Bool
  pub byte_hint : Bytes
  pub temp_file : Bytes
  pub next_line : ℕ

unfoldable pub oversized_line_result : Bytes → Bytes → ℕ → ℕ → Option ReadContentResult
unfolding decimal
oversized_line_result resolved first_line start_line total =
    if leb (length first_line) read_max_bytes
    then none
    else some (record {
      content =
          codes "[Line "
          ++ (decimal start_line
              ++ (codes " is "
                  ++ (decimal (length first_line / 1024)
                      ++ (codes " KB, exceeds 50 KB limit. Use run_shell: sed -n '"
                          ++ (decimal start_line
                              ++ (codes "p' " ++ (resolved ++ codes " | head -c 50000]")))))));
      total_lines = total;
      output_lines = 1;
      truncated = false;
      byte_hint = [];
      temp_file = [];
      next_line = 0;
    })

unfoldable pub build_read_hint : ℕ → ℕ → ℕ → ℕ → Bytes → Bytes
unfolding decimal bytes_eq
build_read_hint start_line end_line total next_line tmp_path =
    (b'\n' ∷ codes "[Showing lines ")
    ++ (decimal start_line
        ++ (codes "-"
            ++ (decimal end_line
                ++ (codes " of "
                    ++ (decimal total
                        ++ (codes "."
                            ++ ((if ltb 0 next_line
                                  then codes " Use start_line="
                                    ++ (decimal next_line ++ codes " to continue.")
                                  else [])
                                ++ ((if bytes_eq tmp_path []
                                      then []
                                      else codes " Remainder saved to " ++ (tmp_path ++ codes "."))
                                    ++ codes "]"))))))))

-- `spill` stores the lines from the given one on, and returns the path, "" where that fails.
unfoldable pub assemble_read_result :
    ReadWindow → TruncateResult → TruncateMode → (ℕ → Bytes) → ReadContentResult
assemble_read_result w tr mode spill =
    let window_truncated = ltb w.end_line w.total in
    let sequential = tr.truncated && is_sequential mode in
    let hint_end = if sequential then w.start_line + tr.shown_lines - 1 else w.end_line in
    let continues = window_truncated || sequential in
    let tmp_path = if continues then spill (hint_end + 1) else [] in
    let hint =
      if continues
      then build_read_hint w.start_line hint_end w.total (hint_end + 1) tmp_path
      else [] in
    let next =
      if sequential
      then w.start_line + tr.shown_lines
      else if not tr.truncated && window_truncated
      then w.end_line + 1
      else 0 in
    if window_truncated || tr.truncated
    then record {
      content = tr.content;
      total_lines = w.total;
      output_lines = if tr.truncated then tr.shown_lines else w.end_line - w.start_line + 1;
      truncated = true;
      byte_hint = hint;
      temp_file = tmp_path;
      next_line = if ltb w.total next then 0 else next;
    }
    else record {
      content = tr.content;
      total_lines = w.total;
      output_lines = w.total;
      truncated = false;
      byte_hint = [];
      temp_file = [];
      next_line = 0;
    }

abbrev pub read_trunc_lines : ℕ
read_trunc_lines = 2000

-- The first lines of the chunk, where it has more than the limit.
unfoldable pub keep_first : Bytes → TruncateResult
unfolding split join
keep_first raw =
    let lines = split b'\n' raw in
    if ltb read_trunc_lines (length lines)
    then record {
      content = join b'\n' (take read_trunc_lines lines);
      truncated = true;
      total_lines = length lines;
      shown_lines = read_trunc_lines;
    }
    else record {
      content = raw;
      truncated = false;
      total_lines = length lines;
      shown_lines = length lines;
    }

unfoldable pub apply_truncate_strategy : Bytes → TruncateMode → Bytes → TruncateResult
unfolding keep_first truncate_output_tail truncate_output_detailed truncate_output_smart split
apply_truncate_strategy raw head ext = keep_first raw
apply_truncate_strategy raw tail ext = truncate_output_tail raw read_trunc_lines
apply_truncate_strategy raw middle ext = truncate_output_detailed raw read_trunc_lines
apply_truncate_strategy raw smart ext = truncate_output_smart raw read_trunc_lines ext
apply_truncate_strategy raw whole ext =
    let lines = split b'\n' raw in
    record {
      content = raw;
      truncated = false;
      total_lines = length lines;
      shown_lines = length lines;
    }

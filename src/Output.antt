-- ===== src/Output.antt =====
-- internal/jinn/output.go: tool output is cut to a number of lines, from the middle, the front or the
-- end, or to the lines at the end that fit a line and a byte limit.
pub mod Tail
pub mod Middle
use jinn.Base.{
  ℕ, zero, suc, ◌+◌, ◌-◌, ◌*◌, ◌/◌, Bool, true, false, ◌&&◌, ◌||◌, List, [], ◌∷◌, ◌++◌, reverse,
  Bytes, codes, length, take, drop, split, join, drop_last, ends_empty, decimal, trim_right, ltb,
  leb, ◌==◌, if◌then◌else◌,
}

unfoldable pub split_lines : Bytes → List Bytes
unfolding split drop_last ends_empty
split_lines [] = []
split_lines (c ∷ s) =
    let lines = split b'\n' (c ∷ s) in if ends_empty lines then drop_last lines else lines

pub record TruncateResult : Type 0 where
  pub content : Bytes
  pub truncated : Bool
  pub total_lines : ℕ
  pub shown_lines : ℕ

-- Every line with a line feed behind it.
unfoldable pub write_lines : List Bytes → Bytes
write_lines [] = []
write_lines (l ∷ ls) = l ++ (b'\n' ∷ write_lines ls)

abbrev pub is_newline : ℕ → Bool
is_newline c = c == b'\n'

-- "→" and "—" in UTF-8.
abbrev arrow : Bytes
arrow = 226 ∷ 134 ∷ 146 ∷ []

abbrev pub em_dash : Bytes
em_dash = 226 ∷ 128 ∷ 148 ∷ []

-- The text with a quarter of the limit from the front and from the end.
abbrev pub head_and_tail : List Bytes → ℕ → Bytes
head_and_tail lines limit =
    let count = length lines in
    let keep = limit / 4 in
    let shown = keep * 2 in
    codes "[truncated: "
    ++ (decimal count
        ++ (codes " lines "
            ++ (arrow
                ++ (codes " "
                    ++ (decimal shown
                        ++ (codes " shown (head "
                            ++ (decimal keep
                                ++ (codes " + tail "
                                    ++ (decimal keep
                                        ++ (codes ")]"
                                            ++ (b'\n'
                                                ∷ (write_lines (take keep lines)
                                                    ++ (codes "[... "
                                                        ++ (decimal (count - shown)
                                                            ++ (codes " lines omitted ...]"
                                                            ++ (b'\n'
                                                            ∷ write_lines (
                                                            drop (count - keep)
                                                            lines)))))))))))))))))

unfoldable pub truncate_output_detailed : Bytes → ℕ → TruncateResult
unfolding split_lines decimal write_lines trim_right
truncate_output_detailed raw limit =
    let lines = split_lines raw in
    let count = length lines in
    if ltb limit count
    then record {
      content = trim_right is_newline (head_and_tail lines limit);
      truncated = true;
      total_lines = count;
      shown_lines = limit / 4 * 2;
    }
    else record { content = raw; truncated = false; total_lines = count; shown_lines = count }

-- The text with the limit's lines from one end.
abbrev pub one_end : List Bytes → ℕ → Bool → Bytes
one_end lines limit true = trim_right is_newline (
    codes "[truncated: showing last "
    ++ (decimal limit
        ++ (codes " of "
            ++ (decimal (length lines)
                ++ (codes " lines]"
                    ++ (b'\n' ∷ write_lines (drop (length lines - limit) lines)))))))
one_end lines limit false =
    write_lines (take limit lines)
    ++ (codes "[truncated: showing first "
        ++ (decimal limit
            ++ (codes " of "
                ++ (decimal (length lines)
                    ++ (codes " lines "
                        ++ (em_dash
                            ++ (codes " use start_line="
                                ++ (decimal (limit + 1) ++ codes " to continue]"))))))))

unfoldable pub truncate_output_end : Bytes → ℕ → Bool → TruncateResult
unfolding split_lines decimal write_lines trim_right
truncate_output_end raw limit tail =
    let lines = split_lines raw in
    let count = length lines in
    if (if tail then leb count limit else ltb count limit)
    then record { content = raw; truncated = false; total_lines = count; shown_lines = count }
    else record {
      content = one_end lines limit tail;
      truncated = true;
      total_lines = count;
      shown_lines = limit;
    }

unfoldable pub truncate_output_head : Bytes → ℕ → TruncateResult
unfolding truncate_output_end
truncate_output_head raw limit = truncate_output_end raw limit false

unfoldable pub truncate_output_tail : Bytes → ℕ → TruncateResult
unfolding truncate_output_end
truncate_output_tail raw limit = truncate_output_end raw limit true

-- The limit that cut the text; `neither` is the empty string.
pub data TruncatedBy : Type 0 where
  neither by_lines by_bytes : TruncatedBy

pub record TruncationResult : Type 0 where
  pub truncated : Bool
  pub truncated_by : TruncatedBy
  pub total_lines : ℕ
  pub total_bytes : ℕ
  pub output_lines : ℕ
  pub output_bytes : ℕ
  pub max_lines : ℕ
  pub max_bytes : ℕ

-- What the loop has kept, the bytes it takes, and whether the byte limit ended it.
pub record Kept : Type 0 where
  pub kept : List Bytes
  pub kept_bytes : ℕ
  pub out_of_bytes : Bool

-- The bytes of a line, and of the line feed behind it.
abbrev pub line_bytes : Bytes → List Bytes → ℕ
line_bytes l [] = length l
line_bytes l (k ∷ kept) = length l + 1

-- The loop of truncateTailDetailed, over the lines in reverse.
unfoldable pub keep_lines : ℕ → ℕ → List Bytes → List Bytes → ℕ → Kept
keep_lines max_lines max_bytes [] kept kept_bytes = record {
  kept = kept;
  kept_bytes = kept_bytes;
  out_of_bytes = false;
}
keep_lines max_lines max_bytes (l ∷ above) kept kept_bytes =
    let bytes = kept_bytes + line_bytes l kept in
    let more = keep_lines max_lines max_bytes above (l ∷ kept) bytes in
    if leb max_lines (length kept)
    then record { kept = kept; kept_bytes = kept_bytes; out_of_bytes = false }
    else if ltb max_bytes bytes
    then record { kept = kept; kept_bytes = kept_bytes; out_of_bytes = true }
    else more

unfoldable pub truncate_tail_detailed : Bytes → ℕ → ℕ → Bytes × TruncationResult
unfolding split_lines keep_lines join
truncate_tail_detailed raw max_lines max_bytes =
    let lines = split_lines raw in
    let loop = keep_lines max_lines max_bytes (reverse lines) [] 0 in
    let content = join b'\n' loop.kept in
    let within_lines = leb max_lines (length loop.kept) && leb loop.kept_bytes max_bytes in
    let by = if within_lines then by_lines else if loop.out_of_bytes then by_bytes else by_lines in
    if leb (length lines) max_lines && leb (length raw) max_bytes
    then (
      raw,
      record {
        truncated = false;
        truncated_by = neither;
        total_lines = length lines;
        total_bytes = length raw;
        output_lines = length lines;
        output_bytes = length raw;
        max_lines = max_lines;
        max_bytes = max_bytes;
      },
    )
    else (
      content,
      record {
        truncated = true;
        truncated_by = by;
        total_lines = length lines;
        total_bytes = length raw;
        output_lines = length loop.kept;
        output_bytes = length content;
        max_lines = max_lines;
        max_bytes = max_bytes;
      },
    )

-- ===== src/Smart.antt =====
-- internal/jinn/truncate_smart.go: source text is cut behind a line where no block, literal or comment is
-- open.
pub mod Boundary
pub mod Plain
use jinn.Base.{
  ℕ, zero, suc, ◌+◌, ◌-◌, Bool, true, false, ◌&&◌, ◌||◌, Option, none, some, List, [], ◌∷◌, ◌++◌,
  Bytes, codes, bytes_eq, has_prefix, length, take, drop, decimal, trim_right, ℤ, pos, negsuc, ltb,
  leb, ◌==◌, if◌then◌else◌,
}
use jinn.Plan.{is_in}
use jinn.Output.{
  TruncateResult, split_lines, write_lines, is_newline, em_dash, truncate_output_head,
}

abbrev pub c_syntax_extensions : List Bytes
c_syntax_extensions =
    codes ".go"
    ∷ codes ".java"
    ∷ codes ".c"
    ∷ codes ".cpp"
    ∷ codes ".h"
    ∷ codes ".hpp"
    ∷ codes ".rs"
    ∷ codes ".ts"
    ∷ codes ".tsx"
    ∷ codes ".js"
    ∷ codes ".jsx"
    ∷ []

abbrev pub is_c_syntax_ext : Bytes → Bool
is_c_syntax_ext ext = is_in ext c_syntax_extensions

-- The scanner; no quote is 0, no raw literal is "".
pub record BraceScanner : Type 0 where
  pub depth : ℤ
  pub quote : ℕ
  pub raw_close : Bytes
  pub block_depth : ℕ

abbrev pub fresh : BraceScanner
fresh = record { depth = pos 0; quote = 0; raw_close = []; block_depth = 0 }

-- What one step gives: the scanner, how many more bytes it consumed, and whether a line comment begins.
pub record Stepped : Type 0 where
  pub scanner : BraceScanner
  pub skip : ℕ
  pub stop : Bool

abbrev pub stepped : BraceScanner → ℕ → Stepped
stepped s skip = record { scanner = s; skip = skip; stop = false }

abbrev pub increment : ℤ → ℤ
increment (pos n) = pos (suc n)
increment (negsuc zero) = pos 0
increment (negsuc (suc n)) = negsuc n

abbrev pub decrement : ℤ → ℤ
decrement (pos zero) = negsuc 0
decrement (pos (suc n)) = pos n
decrement (negsuc n) = negsuc (suc n)

-- How many bytes at the front are the given one.
unfoldable pub run_of : ℕ → Bytes → ℕ
run_of c [] = 0
run_of c (d ∷ s) = let rest = run_of c s in if d == c then suc rest else 0

abbrev pub begins_with : ℕ → Bytes → Bool
begins_with c [] = false
begins_with c (d ∷ s) = d == c

-- strings.IndexByte
unfoldable pub index_byte : Bytes → ℕ → Option ℕ
index_byte [] c = none
index_byte (d ∷ s) c =
    let rest = index_byte s c in
    if d == c then some 0 else elim rest [ none ↦ none | some i ↦ some (suc i) ]

-- The loop of charLiteralEnd behind the quote: whether it is at its first byte, and whether that byte is
-- escaped.
unfoldable pub char_literal_end_at : Bool → Bool → Bytes → Bool
char_literal_end_at first escaped [] = false
char_literal_end_at first true (c ∷ s) = char_literal_end_at false false s
char_literal_end_at first false (c ∷ s) =
    let later = char_literal_end_at false (c == b'\\') s in
    if c == b'\\'
    then later
    else if c == b'\''
    then true
    else if c == b' ' || c == b'\t'
    then first && begins_with b'\'' s
    else later

-- charLiteralEnd, on the text behind its first byte.
abbrev pub char_literal_end : Bytes → Bool
char_literal_end s = char_literal_end_at true false s

-- The branches on the character outside literals and comments.
abbrev pub step_plain : BraceScanner → ℕ → Bytes → Stepped
step_plain s c rest =
    if c == b'"'
    then stepped (record s { quote = c }) 0
    else if c == b'\''
    then (if char_literal_end rest then stepped (record s { quote = c }) 0 else stepped s 0)
    else if c == b'`'
    then stepped (record s { raw_close = b'`' ∷ [] }) 0
    else if c == b'/'
    then (if begins_with b'/' rest
        then record { scanner = s; skip = 0; stop = true }
        else if begins_with b'*' rest
        then stepped (record s { block_depth = 1 }) 1
        else stepped s 0)
    else if c == b'{'
    then stepped (record s { depth = increment s.depth }) 0
    else if c == b'}'
    then stepped (record s { depth = decrement s.depth }) 0
    else stepped s 0

-- The raw string that C++ begins with R" and a delimiter of at most 16 bytes.
abbrev pub delimited : BraceScanner → ℕ → Bytes → Option ℕ → Stepped
delimited s c rest none = step_plain s c rest
delimited s c rest (some end) =
    if leb end 16
    then stepped (record s { raw_close = b')' ∷ (take end (drop 1 rest) ++ b'"' ∷ []) }) (2 + end)
    else step_plain s c rest

-- step, at a byte and what stands behind it on the line.
unfoldable pub step : BraceScanner → ℕ → Bytes → Stepped
step s c rest =
    let text = c ∷ rest in
    let hashes = run_of b'#' rest in
    if ltb 0 (length s.raw_close)
    then (if has_prefix text s.raw_close
        then stepped (record s { raw_close = [] }) (length s.raw_close - 1)
        else stepped s 0)
    else if ltb 0 s.block_depth
    then (if has_prefix text (codes "*/")
        then stepped (record s { block_depth = s.block_depth - 1 }) 1
        else if has_prefix text (codes "/*")
        then stepped (record s { block_depth = suc s.block_depth }) 1
        else stepped s 0)
    else if ltb 0 s.quote
    then (if c == b'\\'
        then stepped s 1
        else if c == s.quote
        then stepped (record s { quote = 0 }) 0
        else stepped s 0)
    else if has_prefix text (codes "\"\"\"")
    then stepped (record s { raw_close = codes "\"\"\"" }) 2
    else if c == b'r' && begins_with b'"' (drop hashes rest)
    then stepped (record s { raw_close = b'"' ∷ take hashes rest }) (suc hashes)
    else if has_prefix text (codes "R\"")
    then delimited s c rest (index_byte (drop 1 rest) b'(')
    else step_plain s c rest

-- The loop over the bytes of a line, with the number of bytes that a step has consumed ahead of it.
unfoldable pub scan_line : BraceScanner → ℕ → Bytes → BraceScanner
scan_line s skip [] = s
scan_line s (suc k) (c ∷ rest) = scan_line s k rest
scan_line s zero (c ∷ rest) =
    let next = step s c rest in
    let behind = scan_line next.scanner next.skip rest in if next.stop then next.scanner else behind

-- lineBraceDepth
abbrev pub line_brace_depth : Bytes → ℤ
line_brace_depth line = (scan_line fresh 0 line).depth

abbrev pub is_zero : ℤ → Bool
is_zero (pos n) = n == 0
is_zero (negsuc n) = false

-- Whether no block, literal or comment is open.
abbrev pub at_top : BraceScanner → Bool
at_top s = is_zero s.depth && s.quote == 0 && length s.raw_close == 0 && s.block_depth == 0

-- The loop of braceCutLine from a line on, with the last boundary so far.
unfoldable pub cut_loop : BraceScanner → ℕ → ℕ → List Bytes → ℕ
cut_loop s line last_boundary [] = last_boundary
cut_loop s line last_boundary (l ∷ lines) =
    let next = scan_line s 0 l in
    cut_loop next (suc line) (if at_top next then suc line else last_boundary) lines

unfoldable pub brace_cut_line : List Bytes → ℕ → ℕ × Bool
brace_cut_line lines limit =
    let last_boundary = cut_loop fresh 0 0 (take limit lines) in
    (last_boundary, ltb 0 last_boundary)

-- The first lines, and where to go on.
abbrev pub shown_first : List Bytes → ℕ → Bytes
shown_first lines cut =
    write_lines (take cut lines)
    ++ (codes "[... truncated: showing first "
        ++ (decimal cut
            ++ (codes " of "
                ++ (decimal (length lines)
                    ++ (codes " lines "
                        ++ (em_dash
                            ++ (codes " use start_line="
                                ++ (decimal (cut + 1) ++ codes " to continue ...]"))))))))

unfoldable pub truncate_output_smart : Bytes → ℕ → Bytes → TruncateResult
truncate_output_smart raw limit ext =
    let lines = split_lines raw in
    let count = length lines in
    let cut = brace_cut_line lines limit in
    let cut_line = if cut.0 == 0 then limit else cut.0 in
    if bytes_eq raw []
    then record { content = []; truncated = false; total_lines = 0; shown_lines = 0 }
    else if is_c_syntax_ext ext
    then (if leb count limit
        then record { content = raw; truncated = false; total_lines = count; shown_lines = count }
        else if cut.1
        then record {
          content = trim_right is_newline (shown_first lines cut_line);
          truncated = true;
          total_lines = count;
          shown_lines = cut_line;
        }
        else truncate_output_head raw limit)
    else truncate_output_head raw limit

-- ===== src/Edit.antt =====
-- internal/jinn/edit_apply.go: one replacement in a text, found in its normal form.
pub mod Boundaries
pub mod Mapped
pub mod Aligned
pub mod Indent
pub mod Splice
use jinn.Base.{
  ℕ, zero, suc, ◌+◌, ◌-◌, Bool, true, false, not, ◌&&◌, ◌||◌, Option, none, some, List, [], ◌∷◌,
  ◌++◌, Bytes, bytes_eq, has_prefix, length, take, drop, get_elem?, get_or, split, join, runes,
  decode_rune, trim_right, trim_space, map, ltb, leb, ◌==◌, if◌then◌else◌,
}
use jinn.Normalize.{
  lf, cr, is_blank, index, normalize_rune, normalize_to_lf, normalize_for_fuzzy_match,
  restore_line_endings, detect_line_ending, strip_bom,
}

-- A normal form, with the place in the input behind which each of its bytes ends.
pub record NormalizedTextMap : Type 0 where
  pub text : Bytes
  pub boundaries : List ℕ

abbrev pub replicate : ℕ → ℕ → List ℕ
replicate zero n = []
replicate (suc k) n = n ∷ replicate k n

abbrev pub append_mapped : NormalizedTextMap → Bytes → ℕ → NormalizedTextMap
append_mapped m s end = record {
  text = m.text ++ s;
  boundaries = m.boundaries ++ replicate (length s) end;
}

abbrev pub set_last : List ℕ → ℕ → List ℕ
set_last [] n = []
set_last (b ∷ []) n = n ∷ []
set_last (b ∷ c ∷ bs) n = b ∷ set_last (c ∷ bs) n

-- A rune as it is written: a space, quote or hyphen of the table becomes ASCII in a fuzzy match.
abbrev pub mapped_rune : Bool → ℕ → Bytes → Bytes
mapped_rune false r s = s
mapped_rune true r s = elim (normalize_rune r) [ some ascii ↦ ascii ∷ [] | none ↦ s ]

-- The runes of a line from a position on, at most `fuel` of them.
unfoldable pub map_runes : ℕ → Bool → NormalizedTextMap → ℕ → Bytes → NormalizedTextMap
map_runes zero fuzzy m pos s = m
map_runes (suc fuel) fuzzy m pos [] = m
map_runes (suc fuel) fuzzy m pos (c ∷ s) =
    let rune = decode_rune c s in
    map_runes fuel fuzzy
      (append_mapped m (mapped_rune fuzzy rune.0 (take rune.1 (c ∷ s))) (pos + rune.1))
      (pos + rune.1) (drop rune.1 (c ∷ s))

abbrev pub ends_line : ℕ → Bool
ends_line c = c == lf || c == cr

-- The text up to the end of its first line.
unfoldable pub line_of : Bytes → Bytes
line_of [] = []
line_of (c ∷ s) = let rest = line_of s in if ends_line c then [] else c ∷ rest

-- The width of the line end at the front, or 0.
abbrev pub newline_width : Bytes → ℕ
newline_width [] = 0
newline_width (c ∷ []) = 1
newline_width (c ∷ d ∷ s) = if c == cr && d == lf then 2 else 1

-- The line without the blanks at its end, in a fuzzy match.
abbrev pub content_of : Bool → Bytes → Bytes
content_of true line = trim_right is_blank line
content_of false line = line

-- The boundary behind blanks that a fuzzy match leaves out.
abbrev pub close_line : Bool → NormalizedTextMap → ℕ → ℕ → NormalizedTextMap
close_line fuzzy m content_end line_end =
    if fuzzy && (ltb content_end line_end && ltb 0 (length m.boundaries))
    then record m { boundaries = set_last m.boundaries line_end }
    else m

-- One line of the input from an offset on.
abbrev pub map_line : Bool → NormalizedTextMap → ℕ → Bytes → NormalizedTextMap
map_line fuzzy m offset line =
    let content = content_of fuzzy line in
    close_line fuzzy (map_runes (length content) fuzzy m offset content) (offset + length content)
      (offset + length line)

-- The lines of the input from an offset on, at most `fuel` of them.
unfoldable pub map_lines : ℕ → Bool → NormalizedTextMap → ℕ → Bytes → NormalizedTextMap
map_lines zero fuzzy m offset s = m
map_lines (suc fuel) fuzzy m offset [] = m
map_lines (suc fuel) fuzzy m offset (c ∷ s) =
    let line = line_of (c ∷ s) in
    let mapped = map_line fuzzy m offset line in
    let behind = drop (length line) (c ∷ s) in
    let width = newline_width behind in
    let end = offset + length line + width in
    let rest = map_lines fuel fuzzy (append_mapped mapped (lf ∷ []) end) end (drop width behind) in
    if width == 0 then mapped else rest

unfoldable pub map_normalized_text : Bytes → Bool → NormalizedTextMap
map_normalized_text input fuzzy =
    map_lines (length input) fuzzy (record { text = []; boundaries = 0 ∷ [] }) 0 input

-- strings.Count of a text that is not empty, behind the bytes of a match.
unfoldable pub count_at : Bytes → ℕ → Bytes → ℕ
count_at sub skip [] = 0
count_at sub (suc k) (c ∷ s) = count_at sub k s
count_at sub zero (c ∷ s) =
    let hit = has_prefix (c ∷ s) sub in
    let rest = count_at sub (if hit then length sub - 1 else 0) s in if hit then suc rest else rest

-- strings.Count
abbrev pub count_of : Bytes → Bytes → ℕ
count_of s [] = suc (length (runes s))
count_of s (c ∷ sub) = count_at (c ∷ sub) 0 s

abbrev pub newlines : Bytes → ℕ
newlines s = count_at (lf ∷ []) 0 s

-- strings.TrimLeft(s, " \t"), and what it takes off.
unfoldable pub leading_blanks : Bytes → Bytes
leading_blanks [] = []
leading_blanks (c ∷ s) = let rest = leading_blanks s in if is_blank c then c ∷ rest else []

abbrev pub is_empty : Bytes → Bool
is_empty s = length s == 0

-- The blanks at the front of the line that holds a place of the text.
unfoldable pub match_leading_indent : Bytes → ℕ → Bytes
match_leading_indent raw idx = leading_blanks (get_or (split lf raw) (newlines (take idx raw)) [])

-- The least indentation of the lines that are not blank.
unfoldable pub least_indent : Option ℕ → List Bytes → Option ℕ
least_indent least [] = least
least_indent least (l ∷ lines) =
    let indent = length (leading_blanks l) in
    least_indent
      (if is_empty (trim_space l) then least else elim least [
        | none ↦ some indent
        | some n ↦ if ltb indent n then some indent else some n
      ])
      lines

unfoldable pub reindent_line : Bytes → ℕ → Bytes → Bytes
reindent_line leading least l =
    if is_empty (trim_space l)
    then []
    else if leb least (length l)
    then leading ++ drop least l
    else leading ++ l

unfoldable pub reindent_new_text : Bytes → Bytes → Bytes
reindent_new_text new_text leading = elim (least_indent none (split lf new_text)) [
  | none ↦ new_text
  | some least ↦ join lf (map (reindent_line leading least) (split lf new_text))
]

-- The text behind its last line feed, `behind` being what stands there so far.
unfoldable pub last_line : Bytes → Bytes → Bytes
last_line behind [] = behind
last_line behind (c ∷ s) = last_line (if c == lf then [] else behind ++ c ∷ []) s

unfoldable pub all_blank : Bytes → Bool
all_blank [] = true
all_blank (c ∷ s) = is_blank c && all_blank s

pub data EditResult : Type 0 where
  not_found panicked : EditResult
  many_matches : ℕ → EditResult
  -- The updated content, whether the match is fuzzy, and the first and the last line of the match.
  applied : Bytes → Bool → ℕ → ℕ → EditResult

-- The new text in the indentation of the match, where that is asked for.
abbrev pub indented : Bool → Bytes → ℕ → Bytes → Bytes
indented fuzzy_indent text idx new_text =
    if fuzzy_indent && all_blank (last_line [] (take idx text))
    then reindent_new_text new_text (match_leading_indent text idx)
    else new_text

-- The line ending of what is replaced, or of the whole text if it has none.
abbrev pub ending_of : Bytes → Bytes → Bytes
ending_of raw region =
    if newlines region == 0 && count_at (cr ∷ []) 0 region == 0
    then detect_line_ending raw
    else detect_line_ending region

-- The text with a region exchanged; a slice out of order or out of range panics.
abbrev pub exchanged : Bytes → Bytes → Bytes → Bool → ℕ → ℕ → Option ℕ → Option ℕ → EditResult
exchanged bom raw new_text fuzzy first_line last_line (some from) (some to) =
    let region = take (to - from) (drop from raw) in
    if leb from to && leb to (length raw)
    then EditResult.applied
        (bom
          ++ (take from raw
              ++ (restore_line_endings new_text (ending_of raw region) ++ drop to raw)))
        fuzzy first_line last_line
    else EditResult.panicked
exchanged bom raw new_text fuzzy first_line last_line _ _ = EditResult.panicked

-- The edit at the only match.
abbrev pub edit_at :
    Bytes → Bytes → NormalizedTextMap → Bytes → Bytes → Bool → Bool → Option ℕ → EditResult
edit_at bom raw m match_text new_text fuzzy fuzzy_indent none = EditResult.panicked
edit_at bom raw m match_text new_text fuzzy fuzzy_indent (some idx) =
    let start_line = suc (newlines (take idx m.text)) in
    exchanged bom raw (indented fuzzy_indent m.text idx (normalize_to_lf new_text)) fuzzy start_line
      (start_line + newlines match_text) (get_elem? m.boundaries idx)
      (get_elem? m.boundaries (idx + length match_text))

abbrev pub edit_in : Bytes → Bytes → NormalizedTextMap → Bytes → Bytes → Bool → Bool → EditResult
edit_in bom raw m match_text new_text fuzzy fuzzy_indent =
    let count = count_of m.text match_text in
    if count == 0
    then EditResult.not_found
    else if ltb 1 count
    then EditResult.many_matches count
    else edit_at bom raw m match_text new_text fuzzy fuzzy_indent (index m.text match_text)

unfoldable pub apply_edit : Bytes → Bytes → Bytes → Bool → EditResult
apply_edit content old_text new_text fuzzy_indent =
    let stripped = strip_bom content in
    let exact = map_normalized_text stripped.0 false in
    let exact_text = normalize_to_lf old_text in
    if count_of exact.text exact_text == 0
    then edit_in stripped.1 stripped.0 (map_normalized_text stripped.0 true)
        (normalize_for_fuzzy_match (normalize_to_lf old_text)) new_text true fuzzy_indent
    else edit_in stripped.1 stripped.0 exact exact_text new_text false fuzzy_indent

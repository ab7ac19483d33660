-- ===== src/Tests/EditRuns.antt =====
-- internal/jinn/edit_apply.go and multi_edit_overlap.go on short texts.
use mathlib.Core.List.{Perm}
use jinn.Base.{
  ℕ, ◌≡◌, refl, false, some, none, List, [], ◌∷◌, Bytes, codes, bytes_eq, has_prefix, decode_rune,
  runes, split, join, trim_right, arith,
}
use jinn.Normalize.{
  index, ending_at, detect_line_ending, replace_crlf, replace_cr, replace_lf, normalize_rune,
  normalize_to_lf, normalize_for_fuzzy_match, restore_line_endings, strip_bom,
}
use jinn.Edit.{
  map_normalized_text, map_lines, map_runes, line_of, count_at, apply_edit, applied, not_found,
  many_matches,
}
use jinn.Edit.Mapped.{map_normalized_text-exact}
use jinn.MultiEdit.{
  RawEntry, OffsetEntry, locate, add_offset, compute_file_offsets, edit_pair, swap_pass,
  sort_within, sort_offsets_ascending, check_file_overlaps, check_files, detect_overlaps,
}
use jinn.MultiEdit.Apart.{AllApart, Sorted, sort_offsets_ascending-Sorted, no_overlap-AllApart}

abbrev two_lines : Bytes
two_lines = codes "a = 1\r\nb = 2\r\n"

edit_keeps_endings :
    apply_edit two_lines (codes "1\nb") (codes "3\nc") false
    ≡ applied (codes "a = 3\r\nc = 2\r\n") false 1 2
unfolding apply_edit map_normalized_text map_lines map_runes line_of count_at decode_rune has_prefix
    strip_bom normalize_to_lf replace_crlf replace_cr replace_lf index ending_at detect_line_ending
    restore_line_endings bytes_eq
edit_keeps_endings = refl

edit_not_found : apply_edit two_lines (codes "z") [] false ≡ not_found
unfolding apply_edit map_normalized_text map_lines map_runes line_of count_at decode_rune has_prefix
    strip_bom normalize_to_lf replace_crlf replace_cr normalize_for_fuzzy_match normalize_rune split
    join trim_right runes
edit_not_found = refl

edit_twice_there : apply_edit two_lines (codes " = ") [] false ≡ many_matches 2
unfolding apply_edit map_normalized_text map_lines map_runes line_of count_at decode_rune has_prefix
    strip_bom normalize_to_lf replace_crlf replace_cr
edit_twice_there = refl

map_normalized_text-exact_example :
    (map_normalized_text two_lines false).text ≡ normalize_to_lf two_lines
map_normalized_text-exact_example = map_normalized_text-exact two_lines

abbrev edit : ℕ → Bytes → Bytes → RawEntry
edit idx old_text new_text = record {
  idx = idx;
  resolved = codes "f";
  old_text = old_text;
  new_text = new_text;
}

abbrev found : ℕ → ℕ → ℕ → OffsetEntry
found idx offset size = record { edit_idx = idx; match_offset = offset; match_length = size }

abbrev content : Bytes
content = codes "abcdef"

abbrev edits : List RawEntry
edits = edit 0 (codes "de") (codes "x") ∷ edit 1 (codes "bc") (codes "y") ∷ []

abbrev offsets : List OffsetEntry
offsets = found 0 3 2 ∷ found 1 1 2 ∷ []

overlap_is_named :
    detect_overlaps (λ file. content) (edit 0 (codes "cd") [] ∷ edit 1 (codes "bc") [] ∷ [])
    ≡ some (0, 1)
unfolding detect_overlaps check_files check_file_overlaps sort_within swap_pass edit_pair
    compute_file_offsets add_offset locate map_normalized_text map_lines map_runes line_of
    decode_rune has_prefix normalize_to_lf replace_crlf replace_cr index bytes_eq
overlap_is_named = refl

-- Two edits of one signature: a zero byte in the old text of one hides that they overlap.
zero_byte_hides_overlap :
    detect_overlaps
      (λ file. 97 ∷ 0 ∷ 98 ∷ [])
      (edit 0 (97 ∷ []) (98 ∷ 0 ∷ 99 ∷ []) ∷ edit 1 (97 ∷ 0 ∷ 98 ∷ []) (99 ∷ []) ∷ [])
    ≡ none
unfolding detect_overlaps check_files check_file_overlaps sort_within swap_pass edit_pair
    compute_file_offsets add_offset locate map_normalized_text map_lines map_runes line_of
    decode_rune has_prefix normalize_to_lf replace_crlf replace_cr index bytes_eq
zero_byte_hides_overlap = refl

sort_offsets_ascending-Sorted_example :
    Perm offsets (sort_offsets_ascending offsets) × Sorted (sort_offsets_ascending offsets)
sort_offsets_ascending-Sorted_example = sort_offsets_ascending-Sorted offsets

no_overlap-AllApart_example : AllApart (sort_offsets_ascending offsets)
unfolding check_file_overlaps sort_within swap_pass edit_pair locate map_normalized_text map_lines
    map_runes line_of decode_rune has_prefix normalize_to_lf replace_crlf replace_cr index bytes_eq
no_overlap-AllApart_example =
    no_overlap-AllApart content (edit_pair [] edits) offsets
      (
        (
          edit 0 (codes "de") (codes "x"),
          refl,
          ((λ e. ground arith), ((λ e. ground arith), tt)),
          refl,
        ),
        (
          (
            edit 1 (codes "bc") (codes "y"),
            refl,
            ((λ e. ground arith), ((λ e. ground arith), tt)),
            refl,
          ),
          tt,
        ),
      )
      refl

-- ===== src/MultiEdit.antt =====
-- internal/jinn/multi_edit_overlap.go: the edits of one call are refused where two of them overlap.
pub mod Apart
use jinn.Base.{
  ℕ, zero, suc, ◌+◌, ◌-◌, Bool, true, false, not, Option, none, some, List, [], ◌∷◌, ◌++◌, Bytes,
  bytes_eq, length, get_or, ltb, ◌==◌, if◌then◌else◌,
}
use jinn.Normalize.{index, normalize_to_lf, normalize_for_fuzzy_match}
use jinn.Edit.{NormalizedTextMap, map_normalized_text}

-- An edit of the call; `resolved` is the path of its file.
pub record RawEntry : Type 0 where
  pub idx : ℕ
  pub resolved : Bytes
  pub old_text : Bytes
  pub new_text : Bytes

pub record OffsetEntry : Type 0 where
  pub edit_idx : ℕ
  pub match_offset : ℕ
  pub match_length : ℕ

-- The bytes of a match in the input.
abbrev pub region_at : NormalizedTextMap → Bytes → ℕ → ℕ × ℕ
region_at m old_norm offset =
    let start = get_or m.boundaries offset 0 in
    (start, get_or m.boundaries (offset + length old_norm) 0 - start)

-- Where an old text stands in the original content of its file: its offset and its length there.
unfoldable pub locate : Bytes → Bytes → Option (ℕ × ℕ)
locate content old_text =
    let exact = map_normalized_text content false in
    let loose = map_normalized_text content true in
    let old_norm = normalize_to_lf old_text in
    let old_loose = normalize_for_fuzzy_match old_norm in
    elim (index exact.text old_norm) [
      | some offset ↦ some (region_at exact old_norm offset)
      | none ↦ elim (index loose.text old_loose) [
        | some offset ↦ some (region_at loose old_loose offset)
        | none ↦ none
      ]
    ]

-- One more offset of a file.
unfoldable pub add_offset :
    List (Bytes × List OffsetEntry) → Bytes → OffsetEntry → List (Bytes × List OffsetEntry)
add_offset [] file entry = (file, entry ∷ []) ∷ []
add_offset ((other, entries) ∷ files) file entry =
    let rest = add_offset files file entry in
    if bytes_eq other file then (other, entries ++ entry ∷ []) ∷ files else (other, entries) ∷ rest

abbrev pub located :
    List (Bytes × List OffsetEntry) → RawEntry → Option (ℕ × ℕ) → List (Bytes × List OffsetEntry)
located files re none = files
located files re (some (offset, size)) =
    add_offset files re.resolved
      (record { edit_idx = re.idx; match_offset = offset; match_length = size })

-- The loop of computeFileOffsets, with the offsets of the files so far; `original_content` gives the
-- content of a file, "" for one that is not there.
unfoldable pub compute_file_offsets :
    (Bytes → Bytes)
    → List (Bytes × List OffsetEntry)
    → List RawEntry
    → List (Bytes × List OffsetEntry)
compute_file_offsets original_content files [] = files
compute_file_offsets original_content files (re ∷ entries) =
    compute_file_offsets original_content
      (located files re (locate (original_content re.resolved) re.old_text)) entries

-- The signature of an edit.
abbrev pub signature : RawEntry → Bytes
signature re = re.old_text ++ (0 ∷ re.new_text)

-- buildEditPairLookup, as a function of the index; a later edit of the same index wins.
unfoldable pub edit_pair : Bytes → List RawEntry → ℕ → Bytes
edit_pair found [] idx = found
edit_pair found (re ∷ entries) idx =
    edit_pair (if re.idx == idx then signature re else found) entries idx

-- The inner loop of sortOffsetsAscending: the entry that ends up in front, and the others.
unfoldable pub swap_pass : OffsetEntry → List OffsetEntry → OffsetEntry × List OffsetEntry
swap_pass x [] = (x, [])
swap_pass x (y ∷ ys) =
    let swaps = ltb y.match_offset x.match_offset in
    let next = swap_pass (if swaps then y else x) ys in (next.0, (if swaps then x else y) ∷ next.1)

-- The outer loop, for at most `fuel` entries.
unfoldable pub sort_within : ℕ → List OffsetEntry → List OffsetEntry
sort_within zero entries = entries
sort_within (suc fuel) [] = []
sort_within (suc fuel) (x ∷ xs) = let next = swap_pass x xs in next.0 ∷ sort_within fuel next.1

abbrev pub sort_offsets_ascending : List OffsetEntry → List OffsetEntry
sort_offsets_ascending entries = sort_within (length entries) entries

-- The indices that the error names, the lesser first; `none` is no error.
unfoldable pub check_file_overlaps : (ℕ → Bytes) → List OffsetEntry → Option (ℕ × ℕ)
check_file_overlaps pair [] = none
check_file_overlaps pair (prev ∷ []) = none
check_file_overlaps pair (prev ∷ curr ∷ entries) =
    let rest = check_file_overlaps pair (curr ∷ entries) in
    let i = prev.edit_idx in
    let j = curr.edit_idx in
    if bytes_eq (pair i) (pair j)
    then rest
    else if ltb curr.match_offset (prev.match_offset + prev.match_length)
    then some (if ltb j i then (j, i) else (i, j))
    else rest

-- The loop of detectOverlaps over the files; which of several errors it meets first is the order of the
-- map.
unfoldable pub check_files : (ℕ → Bytes) → List (Bytes × List OffsetEntry) → Option (ℕ × ℕ)
check_files pair [] = none
check_files pair ((file, entries) ∷ files) =
    elim (check_file_overlaps pair (sort_offsets_ascending entries)) [
      | some e ↦ some e
      | none ↦ check_files pair files
    ]

-- detectOverlaps, without the order of the edits that it returns.
unfoldable pub detect_overlaps : (Bytes → Bytes) → List RawEntry → Option (ℕ × ℕ)
detect_overlaps original_content entries =
    check_files (edit_pair [] entries) (compute_file_offsets original_content [] entries)

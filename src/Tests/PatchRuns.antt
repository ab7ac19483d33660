-- ===== src/Tests/PatchRuns.antt =====
-- internal/jinn/patch.go and patch_apply.go on small patches and files.
use jinn.Base.{◌+◌, ◌-◌, ◌≡◌, refl, false, List, [], ◌∷◌, Bytes, codes, length}
use jinn.Patch.{UpdateChunk, PatchOperation, parse_patch, ok}
use jinn.Patch.Shape.{Ends, IsPatch, parse_patch-Ends}
use jinn.Patch.Seek.{First, search_start, seek_sequence-First}
use jinn.Patch.Records.{spell-split_line_records}
use jinn.Patch.Apply
use jinn.Patch.Apply.{
  Outcome, LineReplacement, passes, split_line_records, seek_sequence, derive_updated_content,
  spell,
}

abbrev chunk : Bytes → List Bytes → List Bytes → UpdateChunk
chunk context old new = record {
  context = context;
  old_lines = old;
  new_lines = new;
  is_eof = false;
}

abbrev file : Bytes
file = codes "a\nb\r\nc"

-- "b" becomes "x" and "y", behind the line "a"; then "c" becomes "z".
abbrev hunks : List UpdateChunk
hunks =
    chunk (codes "a") (codes "b" ∷ []) (codes "x" ∷ codes "y" ∷ [])
    ∷ chunk [] (codes "c" ∷ []) (codes "z" ∷ [])
    ∷ []

abbrev replaced : List LineReplacement
replaced =
    record { start = 1; old_len = 1; new_seg = codes "x" ∷ codes "y" ∷ [] }
    ∷ record { start = 2; old_len = 1; new_seg = codes "z" ∷ [] }
    ∷ []

updated_file : derive_updated_content file hunks ≡ Apply.ok (codes "a\nx\r\ny\r\nz\n")
unfolding derive_updated_content
updated_file = refl

-- A hunk that only adds lines, in front of one that takes lines away.
added_before_removed :
    derive_updated_content
      (codes "a\nb\nc\n")
      (chunk [] [] (codes "x" ∷ []) ∷ chunk [] (codes "b" ∷ codes "c" ∷ []) [] ∷ [])
    ≡ Apply.panic
unfolding derive_updated_content
added_before_removed = refl

abbrev patch : Bytes
patch = codes "*** Begin Patch\n*** Update File: f\n@@ a\n-b\n+x\n*** End Patch"

parse_patch-Ends_example : Ends IsPatch (parse_patch patch)
parse_patch-Ends_example = parse_patch-Ends patch

parsed_patch :
    parse_patch patch
    ≡ ok (
        PatchOperation.update (codes "f") (chunk (codes "a") (codes "b" ∷ []) (codes "x" ∷ []) ∷ [])
        ∷ [])
unfolding parse_patch
parsed_patch = refl

abbrev lines : List Bytes
lines = codes "a" ∷ codes "b " ∷ codes "b" ∷ []

seek_sequence-First_example :
    First passes lines
      (codes "b" ∷ [])
      (search_start lines (codes "b" ∷ []) 0 false)
      (length lines + 1 - length (codes "b" ∷ []))
      (seek_sequence lines (codes "b" ∷ []) 0 false)
seek_sequence-First_example = seek_sequence-First lines (codes "b") [] 0 false

spell-split_line_records_example : spell (split_line_records file) ≡ file
spell-split_line_records_example = spell-split_line_records file

-- ===== src/Tests/DiffRuns.antt =====
-- internal/jinn/diff.go and normalize.go on small texts.
use jinn.Base.{◌≤◌, ◌≡◌, ◌↔◌, refl, none, [], ◌∷◌, Bytes, codes, length, suc, arith}
use jinn.Normalize.{crlf, normalize_to_lf, restore_line_endings}
use jinn.Normalize.Endings.{LacksCr, normalize_to_lf-LacksCr, normalize-restore}
use jinn.Diff.{
  Tag, DiffOp, Script, keep, remove, add, compute_edit_script, split_diff_lines, old_side, new_side,
  kept,
}
use jinn.Diff.Sides.{compute_edit_script-sides}
use jinn.Diff.Shortest.{compute_edit_script_shortest}
use jinn.Diff.Hunks.{
  compute_hunks, Covered, Apart, compute_hunks_cover, compute_hunks-Apart, consecutive,
}
use jinn.Diff.Render.{render_diff_body, unified_diff}
use jinn.Diff.Change.{render_diff_body-none}
use jinn.Diff.FirstLine.{render_diff_body-first}

abbrev op : Tag → Bytes → DiffOp
op tag value = record { tag = tag; value = value }

abbrev before : Bytes
before = codes "a\nb\nc\n"

abbrev after : Bytes
after = codes "a\nx\nc\n"

-- A longer script between the same texts.
abbrev rewritten : Script
rewritten =
    op keep (codes "a")
    ∷ op remove (codes "b")
    ∷ op remove (codes "c")
    ∷ op add (codes "x")
    ∷ op add (codes "c")
    ∷ []

compute_edit_script-sides_example :
    (old_side (compute_edit_script before after) ≡ split_diff_lines before)
    × (new_side (compute_edit_script before after) ≡ split_diff_lines after)
compute_edit_script-sides_example = compute_edit_script-sides before after

compute_edit_script_shortest_example : kept rewritten ≤ kept (compute_edit_script before after)
unfolding split_diff_lines
compute_edit_script_shortest_example = compute_edit_script_shortest before after rewritten refl refl

compute_hunks_cover_example : Covered 1 (compute_hunks rewritten 3)
compute_hunks_cover_example = compute_hunks_cover rewritten 3 1 (op remove (codes "b")) refl refl

compute_hunks-Apart_example : Apart 3 0 (length rewritten) (compute_hunks rewritten 3)
compute_hunks-Apart_example = compute_hunks-Apart rewritten 3

render_diff_body-none_example :
    (render_diff_body before after 3 ≡ none) ↔ (split_diff_lines before ≡ split_diff_lines after)
render_diff_body-none_example = render_diff_body-none before after 3

render_diff_body-first_example : 2 ≡ suc (consecutive (compute_edit_script before after))
unfolding render_diff_body
render_diff_body-first_example = render_diff_body-first before after 3 refl

-- A text that loses its last line feed is reported as unchanged.
lost_newline : unified_diff (codes "a\n") (codes "a") (codes "f") ≡ codes "[dry-run] no changes"
unfolding unified_diff
lost_newline = refl

normalize-restore_example :
    normalize_to_lf (restore_line_endings (codes "a\nb\n") crlf) ≡ codes "a\nb\n"
normalize-restore_example =
    normalize-restore (codes "a\nb\n") crlf
      (ground arith, (ground arith, (ground arith, (ground arith, tt))))

normalize_to_lf-LacksCr_example :
    LacksCr (normalize_to_lf (codes "a\r\nb\rc"))
    × (normalize_to_lf (normalize_to_lf (codes "a\r\nb\rc")) ≡ normalize_to_lf (codes "a\r\nb\rc"))
normalize_to_lf-LacksCr_example = normalize_to_lf-LacksCr (codes "a\r\nb\rc")

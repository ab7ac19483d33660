-- ===== src/Diff/Render.antt =====
-- The printing half of internal/jinn/diff.go: computeHunkBounds to formatEditPreview.
use jinn.Base.{
  ℕ, suc, ◌+◌, ◌-◌, ◌≡◌, refl, Bool, Option, none, some, List, [], ◌∷◌, ◌++◌, Bytes, codes,
  bytes_eq, length, get_elem?, take, drop, min, ◌==◌, if◌then◌else◌, trim_right, decimal,
}
use jinn.Diff.{remove, add, Script, tag_byte, compute_edit_script}
use jinn.Diff.Hunks.{HunkRange, is_change, compute_hunks}

-- The lines of a piece of the script that are counted on the old side, and on the new side.
unfoldable pub count_old : Script → ℕ
count_old [] = 0
count_old (op ∷ ops) = elim op.tag [ add ↦ count_old ops | _ ↦ suc (count_old ops) ]

unfoldable pub count_new : Script → ℕ
count_new [] = 0
count_new (op ∷ ops) = elim op.tag [ remove ↦ count_new ops | _ ↦ suc (count_new ops) ]

abbrev pub slice : Script → ℕ → ℕ → Script
slice script start stop = take (stop - start) (drop start script)

pub record HunkBounds : Type 0 where
  pub start : ℕ
  pub stop : ℕ
  pub old_offset : ℕ
  pub new_offset : ℕ
  pub old_count : ℕ
  pub new_count : ℕ

unfoldable pub compute_hunk_bounds : Script → HunkRange → ℕ → HunkBounds
unfolding count_old count_new
compute_hunk_bounds script h context =
    let start = h.start - context in
    let stop = min (h.stop + context) (length script) in
    record {
      start = start;
      stop = stop;
      old_offset = count_old (take start script);
      new_offset = count_new (take start script);
      old_count = count_old (slice script start stop);
      new_count = count_new (slice script start stop);
    }

unfoldable pub first_change_new_line : Script → HunkBounds → ℕ → ℕ
unfolding count_new
first_change_new_line script bounds k = elim (get_elem? script k) [
  | none ↦ 0
  | some op ↦
      if is_change op then bounds.new_offset + 1 + count_new (slice script bounds.start k) else 0
]

-- The loop of renderHunk over the lines from index k on: what it writes, and firstChangedLine.
unfoldable pub render_lines : Script → HunkBounds → ℕ → Script → ℕ → Bytes × ℕ
render_lines script bounds k [] first = ([], first)
render_lines script bounds k (op ∷ ops) first =
    let first' = if first == 0 then first_change_new_line script bounds k else first in
    let (text, last) = render_lines script bounds (suc k) ops first' in
    (tag_byte op.tag ∷ b' ' ∷ (op.value ++ b'\n' ∷ text), last)

unfoldable pub hunk_header : HunkBounds → Bytes
unfolding decimal
hunk_header bounds =
    codes "@@ -"
    ++ decimal (bounds.old_offset + 1)
    ++ codes ","
    ++ decimal bounds.old_count
    ++ codes " +"
    ++ decimal (bounds.new_offset + 1)
    ++ codes ","
    ++ decimal bounds.new_count
    ++ codes " @@\n"

unfoldable pub render_hunk : Script → HunkBounds → Bytes × ℕ
unfolding render_lines hunk_header first_change_new_line tag_byte
render_hunk script bounds =
    let (text, first) =
      render_lines script bounds bounds.start (slice script bounds.start bounds.stop) 0 in
    (hunk_header bounds ++ text, first)

unfoldable pub format_hunks : Script → List HunkRange → ℕ → ℕ → Bytes × ℕ
unfolding render_hunk compute_hunk_bounds
format_hunks script [] context first = ([], first)
format_hunks script (h ∷ hs) context first =
    let (text, line) = render_hunk script (compute_hunk_bounds script h context) in
    let (rest, last) = format_hunks script hs context (if first == 0 then line else first) in
    (text ++ rest, last)

-- The hunks of a script; `none` stands for the result (false, 0).
unfoldable pub format_script : Script → List HunkRange → ℕ → Option (Bytes × ℕ)
unfolding format_hunks
format_script script [] context = none
format_script script (h ∷ hs) context = some (format_hunks script (h ∷ hs) context 0)

unfoldable pub render_diff_body : Bytes → Bytes → ℕ → Option (Bytes × ℕ)
unfolding format_script compute_edit_script compute_hunks bytes_eq
render_diff_body old new_text context =
    let script = compute_edit_script old new_text in
    let body = format_script script (compute_hunks script context) context in
    if bytes_eq old new_text then none else body

pub record DiffResult : Type 0 where
  pub diff : Bytes
  pub first_changed_line : ℕ

unfoldable pub generate_diff : Bytes → Bytes → Bytes → ℕ → DiffResult
unfolding render_diff_body trim_right
generate_diff old new_text label context = elim (render_diff_body old new_text context) [
  | none ↦ record { diff = []; first_changed_line = 0 }
  | some (body, first) ↦ record {
    diff =
        trim_right (λ c. c == b'\n')
          (codes "--- " ++ label ++ codes "\n+++ " ++ label ++ codes "\n" ++ body);
    first_changed_line = first;
  }
]

unfoldable pub unified_diff : Bytes → Bytes → Bytes → Bytes
unfolding render_diff_body
unified_diff old new_text label = elim (render_diff_body old new_text 3) [
  | none ↦ codes "[dry-run] no changes"
  | some (body, first) ↦ codes "[dry-run] diff for " ++ label ++ codes ":\n" ++ body
]

unfoldable pub format_edit_preview : Bytes → Bytes → Bytes → Bool → Bytes
unfolding unified_diff
format_edit_preview old updated path fuzzy =
    let diff = unified_diff old updated path in
    if fuzzy then diff ++ codes " (fuzzy match)\n" else diff

two_changes :
    (generate_diff (codes "a\nb\nc\n") (codes "a\nx\nc\n") (codes "f") 1).diff
    ≡ codes "--- f\n+++ f\n@@ -1,3 +1,3 @@\n  a\n- b\n+ x\n  c"
unfolding generate_diff
two_changes = refl

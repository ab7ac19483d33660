-- ===== src/Diff.antt =====
-- internal/jinn/diff.go, and splitDiffLines of internal/jinn/diff_edit_fast.go: the line diff that the
-- edit tools report. This file holds the LCS table and the walk back through it; `Hunks` groups the
-- script, and `Render` prints it.
mod Table
mod Walk
mod Cells
pub mod Shortest
pub mod Hunks
pub mod Render
pub mod Change
pub mod FirstLine
pub mod Sides
use mathlib.Core.List.{get_last?}
use jinn.Base.{
  drop_last, ends_empty, ℕ, zero, suc, ◌+◌, ◌-◌, ◌<◌, Bool, true, false, ◌&&◌, ◌||◌, List, [], ◌∷◌,
  ◌++◌, reverse, Bytes, bytes_eq, split, length, get_or, drop, leb, ltb, ◌==◌, if◌then◌else◌,
}

-- The tag byte of a diffOp: ' ', '-' or '+'.
pub data Tag : Type 0 where
  keep remove add : Tag

unfoldable pub tag_byte : Tag → ℕ
tag_byte keep = b' '
tag_byte remove = b'-'
tag_byte add = b'+'

-- A diffOp.
pub record DiffOp : Type 0 where
  pub tag : Tag
  pub value : Bytes

abbrev pub Script : Type 0
Script = List DiffOp

-- strings.HasSuffix(s, "\n")
unfoldable pub ends_in_newline : Bytes → Bool
ends_in_newline [] = false
ends_in_newline (c ∷ []) = c == b'\n'
ends_in_newline (c ∷ d ∷ s) = ends_in_newline (d ∷ s)

unfoldable pub split_diff_lines : Bytes → List Bytes
unfolding split drop_last ends_empty ends_in_newline bytes_eq
split_diff_lines [] = []
split_diff_lines (c ∷ s) =
    let lines = split b'\n' (c ∷ s) in
    if ends_empty lines && ends_in_newline (c ∷ s) then drop_last lines else lines

-- One cell of the table, from the two lines and the three cells around it.
unfoldable pub entry : Bytes → Bytes → ℕ → ℕ → ℕ → ℕ
entry x y diagonal up left = if bytes_eq x y then diagonal + 1 else if leb left up then up else left

-- The inner loop: a row behind its first cell, from the row above and the cell to the left.
unfoldable pub fill_row : Bytes → List Bytes → List ℕ → ℕ → List ℕ
fill_row x [] above left = []
fill_row x (y ∷ ys) above left =
    let cell = entry x y (get_or above 0 0) (get_or above 1 0) left in
    cell ∷ fill_row x ys (drop 1 above) cell

-- The outer loop: the rows below `above`.
unfoldable pub fill_table : List ℕ → List Bytes → List Bytes → List (List ℕ)
fill_table above [] ys = []
fill_table above (x ∷ xs) ys = let row = 0 ∷ fill_row x ys above 0 in row ∷ fill_table row xs ys

unfoldable pub zero_row : List Bytes → List ℕ
zero_row [] = 0 ∷ []
zero_row (y ∷ ys) = 0 ∷ zero_row ys

unfoldable pub lcs_table : List Bytes → List Bytes → List (List ℕ)
unfolding zero_row fill_table fill_row entry bytes_eq
lcs_table old_lines new_lines =
    zero_row new_lines ∷ fill_table (zero_row new_lines) old_lines new_lines

-- dp[i][j]
abbrev pub cell : List (List ℕ) → ℕ → ℕ → ℕ
cell dp i j = get_or (get_or dp i []) j 0

module _ (dp : List (List ℕ)) (old_lines new_lines : List Bytes) where
  -- The case that one round of backtrackEditScript takes at (i, j).
  unfoldable pub choice : ℕ → ℕ → Tag
  choice i j =
      if ltb 0 i && ltb 0 j && bytes_eq (get_or old_lines (i - 1) []) (get_or new_lines (j - 1) [])
      then keep
      else if ltb 0 j && (i == 0 || leb (cell dp (i - 1) j) (cell dp i (j - 1)))
      then add
      else remove

  -- The loop, for at most `fuel` rounds: the operations in the order in which they are appended.
  unfoldable pub walk : ℕ → ℕ → ℕ → Script
  walk zero i j = []
  walk (suc fuel) i j =
      let kept =
        record { tag = keep; value = get_or old_lines (i - 1) [] } ∷ walk fuel (i - 1) (j - 1) in
      let added = record { tag = add; value = get_or new_lines (j - 1) [] } ∷ walk fuel i (j - 1) in
      let removed =
        record { tag = remove; value = get_or old_lines (i - 1) [] } ∷ walk fuel (i - 1) j in
      let round : Script = elim (choice i j) [ keep ↦ kept | add ↦ added | remove ↦ removed ] in
      if ltb 0 i || ltb 0 j then round else []

  -- Every round takes a line off at least one side, so `m + n` rounds reach (0, 0).
  unfoldable pub backtrack_edit_script : Script
  unfolding walk choice
  backtrack_edit_script =
      reverse (walk (length old_lines + length new_lines) (length old_lines) (length new_lines))

unfoldable pub compute_edit_script : Bytes → Bytes → Script
unfolding split_diff_lines lcs_table backtrack_edit_script
compute_edit_script old new_text =
    let old_lines = split_diff_lines old in
    let new_lines = split_diff_lines new_text in
    backtrack_edit_script (lcs_table old_lines new_lines) old_lines new_lines

-- The lines of a script that belong to the old text, and to the new one.
abbrev pub old_side : Script → List Bytes
old_side [] = []
old_side (op ∷ ops) = elim op.tag [ add ↦ old_side ops | _ ↦ op.value ∷ old_side ops ]

abbrev pub new_side : Script → List Bytes
new_side [] = []
new_side (op ∷ ops) = elim op.tag [ remove ↦ new_side ops | _ ↦ op.value ∷ new_side ops ]

-- How many lines a script leaves alone.
abbrev pub kept : Script → ℕ
kept [] = 0
kept (op ∷ ops) = elim op.tag [ keep ↦ suc (kept ops) | _ ↦ kept ops ]

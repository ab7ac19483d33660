-- ===== src/ReadWindow/Paging.antt =====
-- From which line a caller of read_file continues.
use jinn.Base.{
  ℕ, ◌+◌, ◌-◌, ◌≤◌, ◌<◌, ◌≡◌, ◌⊎◌, refl, true, false, Bytes, inl, inr, ltb, if◌then◌else◌,
  Bool-cases, arith,
}
use jinn.Output.{TruncateResult}
use jinn.ReadWindow.{TruncateMode, ReadWindow, is_sequential, assemble_read_result}

-- The last line that is shown: a truncated chunk shows its first lines.
abbrev pub last_shown : ReadWindow → TruncateResult → ℕ
last_shown w tr = if tr.truncated then w.start_line + tr.shown_lines - 1 else w.end_line

-- In a mode that keeps the front of the chunk ("head", "smart"), for a window within the text of which
-- at least one line is shown, the answer names the line to continue at exactly where lines are left:
-- it is the line behind the last one shown, so that no line is skipped or shown twice. Where no line is
-- left behind the window and none was cut, the answer counts all lines of the file as shown.
pub assemble_read_result-next_line :
    (w : ReadWindow) (tr : TruncateResult) (mode : TruncateMode) (spill : ℕ → Bytes)
    → is_sequential mode ≡ true
    → w.start_line ≤ w.end_line
    → w.end_line ≤ w.total
    → 1 ≤ w.start_line
    → 1 ≤ tr.shown_lines
    → w.start_line + tr.shown_lines ≤ w.end_line + 1
    → let r = assemble_read_result w tr mode spill in
      (((r.next_line ≡ 0) × (last_shown w tr ≡ w.total))
        ⊎ ((r.next_line ≡ last_shown w tr + 1) × (last_shown w tr < w.total)))
      × (((r.truncated ≡ true) × (r.output_lines + w.start_line ≡ last_shown w tr + 1))
          ⊎ ((r.truncated ≡ false) × (last_shown w tr ≡ w.total) × (r.output_lines ≡ w.total)))
unfolding assemble_read_result
assemble_read_result-next_line w tr mode spill seq a b c d e = elim (Bool-cases tr.truncated) [
  | inl t ↦ elim (Bool-cases (ltb w.end_line w.total)) [
    | inl more ↦
        rw (t, seq, more)
          (elim (Bool-cases (ltb w.total (w.start_line + tr.shown_lines))) [
            | inl p ↦ rw p (inl (refl, ground arith), inl (refl, omega arith))
            | inr q ↦ rw q (inr (omega arith, ground arith), inl (refl, omega arith))
          ])
    | inr all ↦
        rw (t, seq, all)
          (elim (Bool-cases (ltb w.total (w.start_line + tr.shown_lines))) [
            | inl p ↦ rw p (inl (refl, ground arith), inl (refl, omega arith))
            | inr q ↦ rw q (inr (omega arith, ground arith), inl (refl, omega arith))
          ])
  ]
  | inr f ↦ elim (Bool-cases (ltb w.end_line w.total)) [
    | inl more ↦
        rw (f, more)
          (elim (Bool-cases (ltb w.total (w.end_line + 1))) [
            | inl p ↦ rw p (absurd (ground arith))
            | inr q ↦ rw q (inr (refl, ground arith), inl (refl, omega arith))
          ])
    | inr all ↦ rw (f, all) (inl (refl, ground arith), inr (refl, ground arith, refl))
  ]
]

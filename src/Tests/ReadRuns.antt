-- ===== src/Tests/ReadRuns.antt =====
-- internal/jinn/read_window.go on a small file.
use jinn.Base.{
  ℕ, ◌+◌, ◌≤◌, ◌<◌, ◌≡◌, ◌⊎◌, refl, min, true, false, some, none, [], Bytes, codes, pos, arith,
}
use jinn.Output.{TruncateResult}
use jinn.ReadWindow.{
  head, smart, WindowArgs, ReadWindow, resolve_read_window, assemble_read_result,
  parse_truncate_mode,
}
use jinn.ReadWindow.Bounds.{Asked, resolve_read_window_bounds}
use jinn.ReadWindow.Paging.{last_shown, assemble_read_result-next_line}

abbrev from_third : WindowArgs
from_third = record { tail_lines = none; start_line = some (pos 3); end_line = some (pos 9) }

resolve_read_window_bounds_example :
    (start : ℕ) × (end : ℕ) × Asked from_third head 5 start end
    × (((5 < start) × (resolve_read_window from_third head 5 ≡ none))
        ⊎ ((1 ≤ start)
            × (start ≤ 5)
            × (start ≤ end)
            × (resolve_read_window from_third head 5 ≡ some (start, min 5 end))))
resolve_read_window_bounds_example = resolve_read_window_bounds from_third head 5

third_to_fifth : resolve_read_window from_third head 5 ≡ some (3, 5)
unfolding resolve_read_window
third_to_fifth = refl

abbrev last_two : WindowArgs
last_two = record { tail_lines = some (pos 2); start_line = some (pos 1); end_line = none }

abbrev window : ReadWindow
window = record { start_line = 3; end_line = 5; total = 8 }

-- Two of the three lines of the window.
abbrev cut : TruncateResult
cut = record { content = codes "c\nd"; truncated = true; total_lines = 3; shown_lines = 2 }

abbrev spill : ℕ → Bytes
spill n = []

assemble_read_result-next_line_example :
    let r = assemble_read_result window cut smart spill in
    (((r.next_line ≡ 0) × (last_shown window cut ≡ 8))
      ⊎ ((r.next_line ≡ last_shown window cut + 1) × (last_shown window cut < 8)))
    × (((r.truncated ≡ true) × (r.output_lines + 3 ≡ last_shown window cut + 1))
        ⊎ ((r.truncated ≡ false) × (last_shown window cut ≡ 8) × (r.output_lines ≡ 8)))
assemble_read_result-next_line_example =
    assemble_read_result-next_line window cut smart spill refl (omega arith) (omega arith)
      (omega arith) (omega arith) (omega arith)

next_is_fifth : (assemble_read_result window cut smart spill).next_line ≡ 5
unfolding assemble_read_result
next_is_fifth = refl

unknown_mode : parse_truncate_mode (codes "front") ≡ none
unfolding parse_truncate_mode
unknown_mode = refl

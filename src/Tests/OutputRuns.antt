-- ===== src/Tests/OutputRuns.antt =====
-- internal/jinn/output.go on a small text.
use jinn.Base.{◌≡◌, refl, true, Bytes, codes, length}
use jinn.Output.{
  by_lines, split_lines, truncate_output_detailed, truncate_output_end, truncate_tail_detailed,
}
use jinn.Output.Tail.{Reported, CutToTail, truncate_tail_detailed_limits}
use jinn.Output.Middle.{CutInTheMiddle, truncate_output_detailed_parts}

abbrev five : Bytes
five = codes "1\n2\n3\n4\n5\n"

truncate_tail_detailed_limits_example :
    let (content, info) = truncate_tail_detailed five 3 4 in
    Reported five content 3 4 info × CutToTail five content 3 4 info
truncate_tail_detailed_limits_example = truncate_tail_detailed_limits five 3 4

-- Two lines fit four bytes.
tail_of_five : (truncate_tail_detailed five 3 4).0 ≡ codes "4\n5"
unfolding truncate_tail_detailed
tail_of_five = refl

-- One byte over the limit, and all lines are kept: the cut is put down to the line limit.
one_byte_over : ((truncate_tail_detailed (codes "a\nb\n") 5 3).1).truncated_by ≡ by_lines
unfolding truncate_tail_detailed
one_byte_over = refl

truncate_output_detailed_parts_example :
    ((truncate_output_detailed five 4).total_lines ≡ length (split_lines five))
    × CutInTheMiddle five 4 (truncate_output_detailed five 4)
truncate_output_detailed_parts_example = truncate_output_detailed_parts five 4

first_two :
    (truncate_output_end five 2 true).content ≡ codes "[truncated: showing last 2 of 5 lines]\n4\n5"
unfolding truncate_output_end
first_two = refl

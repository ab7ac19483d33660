-- ===== src/Tests/SmartRuns.antt =====
-- internal/jinn/truncate_smart.go on a few lines of source text.
use jinn.Base.{◌≡◌, refl, true, List, [], ◌∷◌, Bytes, codes, pos, bytes_eq, has_prefix, ltb}
use jinn.Plan.{is_in}
use jinn.Smart.{
  run_of, index_byte, char_literal_end_at, step, scan_line, cut_loop, brace_cut_line,
  line_brace_depth, truncate_output_smart,
}
use jinn.Smart.Boundary.{
  LastBoundary, SmartCut, brace_cut_line-LastBoundary, truncate_output_smart-SmartCut,
}
use jinn.Smart.Plain.{minus, line_brace_depth_lem}

abbrev source : List Bytes
source = codes "f() {" ∷ codes "  s = \"}\"; // }" ∷ codes "}" ∷ codes "g() {" ∷ codes "}" ∷ []

cut_behind_block : brace_cut_line source 4 ≡ (3, true)
unfolding brace_cut_line cut_loop scan_line step run_of index_byte char_literal_end_at has_prefix
cut_behind_block = refl

raw_literal_depth : line_brace_depth (codes "{ r#\"}\"# `{` R\"x(}}\")x\" ") ≡ pos 1
unfolding scan_line step run_of index_byte char_literal_end_at has_prefix
raw_literal_depth = refl

lifetime_is_no_literal : line_brace_depth (codes "fn f<'a>(x: &'a T) { '{' ") ≡ pos 1
unfolding scan_line step run_of index_byte char_literal_end_at has_prefix
lifetime_is_no_literal = refl

brace_cut_line-LastBoundary_example :
    LastBoundary source 4 (brace_cut_line source 4).0
    × ((brace_cut_line source 4).1 ≡ ltb 0 (brace_cut_line source 4).0)
brace_cut_line-LastBoundary_example = brace_cut_line-LastBoundary source 4

truncate_output_smart-SmartCut_example :
    SmartCut
      (codes "f() {\n}\ng() {\n}\n")
      3
      (truncate_output_smart (codes "f() {\n}\ng() {\n}\n") 3 (codes ".go"))
unfolding is_in bytes_eq
truncate_output_smart-SmartCut_example =
    truncate_output_smart-SmartCut (codes "f() {\n}\ng() {\n}\n") 3 (codes ".go") refl

line_brace_depth_lem_example : line_brace_depth (codes "{ a } {") ≡ minus 2 1
line_brace_depth_lem_example = line_brace_depth_lem (codes "{ a } {") refl

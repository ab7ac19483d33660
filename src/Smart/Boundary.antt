-- ===== src/Smart/Boundary.antt =====
-- Where source text is cut.
use jinn.Base.{
  ℕ, zero, suc, ◌+◌, ◌≤◌, ◌<◌, ◌≡◌, refl, sym, ap, ◌∙◌, subst, ◌⊎◌, inl, inr, Bool, true, false,
  List, [], ◌∷◌, ◌++◌, drop, take-append-drop, codes, decimal, Bytes, bytes_eq, if_cases, length,
  take, take-take, length-take, ltb, leb, ◌==◌, if◌then◌else◌, trim_right, arith,
}
use jinn.Output.{
  TruncateResult, one_end, truncate_output_end, split_lines, is_newline, truncate_output_head,
}
use jinn.Output.Middle.{lines_text, parts, write_lines-lines_text}
use jinn.Smart.{
  BraceScanner, fresh, scan_line, at_top, cut_loop, brace_cut_line, is_c_syntax_ext, shown_first,
  truncate_output_smart,
}

-- The scanner behind some lines.
unfoldable pub scan_lines : BraceScanner → List Bytes → BraceScanner
scan_lines s [] = s
scan_lines s (l ∷ lines) = scan_lines (scan_line s 0 l) lines

-- Whether nothing is open behind the first lines.
abbrev pub closed_at : BraceScanner → ℕ → List Bytes → Bool
closed_at s k lines = at_top (scan_lines s (take k lines))

-- The loop ends with the boundary it began with, or with the last line behind which nothing is open.
abbrev LoopEnd : BraceScanner → ℕ → ℕ → List Bytes → ℕ → Type 0
LoopEnd s line last lines k =
    ((k ≡ last) × ((j : ℕ) → j < length lines → closed_at s (suc j) lines ≡ false))
    ⊎ ((j : ℕ) × (j < length lines)
        × (k ≡ line + suc j)
        × (closed_at s (suc j) lines ≡ true)
        × ((i : ℕ) → j < i → i < length lines → closed_at s (suc i) lines ≡ false))

-- The lines behind the first one, seen from it.
later_lines :
    (s : BraceScanner) (l : Bytes) (lines : List Bytes) (j i : ℕ)
    → j < i
    → i < suc (length lines)
    → ((m : ℕ) → j < suc m → m < length lines → closed_at (scan_line s 0 l) (suc m) lines ≡ false)
    → closed_at s (suc i) (l ∷ lines) ≡ false
unfolding scan_lines
later_lines s l lines j zero a c h = absurd (omega arith)
later_lines s l lines j (suc i) a c h = h i a (omega arith)

all_lines :
    (s : BraceScanner) (l : Bytes) (lines : List Bytes)
    → at_top (scan_line s 0 l) ≡ false
    → ((m : ℕ) → m < length lines → closed_at (scan_line s 0 l) (suc m) lines ≡ false)
    → (j : ℕ) → j < suc (length lines)
    → closed_at s (suc j) (l ∷ lines) ≡ false
unfolding scan_lines
all_lines s l lines e h zero lt = e
all_lines s l lines e h (suc j) lt = h j (omega arith)

next_line :
    (s : BraceScanner) (line last k : ℕ) (l : Bytes) (lines : List Bytes) (b : Bool)
    → at_top (scan_line s 0 l) ≡ b
    → LoopEnd (scan_line s 0 l) (suc line) (if b then suc line else last) lines k
    → LoopEnd s line last (l ∷ lines) k
unfolding scan_lines
next_line s line last k l lines b e (inr (j, lt, q, top, later)) = inr (
  suc j,
  omega arith,
  omega arith,
  top,
  λ i a c. later_lines s l lines (suc j) i a c (λ m u v. later m (omega arith) v),
)
next_line s line last k l lines true e (inl (q, none)) =
    inr (0, omega arith, omega arith, e, λ i a c. later_lines s l lines 0 i a c (λ m u v. none m v))
next_line s line last k l lines false e (inl (q, none)) =
    inl (q, λ j lt. all_lines s l lines e none j lt)

cut_loop-LoopEnd :
    (s : BraceScanner) (line last : ℕ) (lines : List Bytes)
    → LoopEnd s line last lines (cut_loop s line last lines)
unfolding cut_loop
cut_loop-LoopEnd s line last [] = inl (refl, λ j lt. absurd (omega arith))
cut_loop-LoopEnd s line last (l ∷ lines) =
    next_line s line last _ l lines (at_top (scan_line s 0 l)) refl
      (cut_loop-LoopEnd (scan_line s 0 l) (suc line) _ lines)

-- A cut is at most the limit and the number of lines; where it is not 0, nothing is open there; and
-- something is open behind every later line up to the limit.
abbrev pub LastBoundary : List Bytes → ℕ → ℕ → Type 0
LastBoundary lines limit k =
    (k ≤ limit)
    × (k ≤ length lines)
    × (0 < k → closed_at fresh k lines ≡ true)
    × ((j : ℕ) → k < j → j ≤ limit → j ≤ length lines → closed_at fresh j lines ≡ false)

same_prefix :
    (lines : List Bytes) (limit k : ℕ)
    → k ≤ limit
    → closed_at fresh k (take limit lines) ≡ closed_at fresh k lines
same_prefix lines limit k h = ap (λ x. at_top (scan_lines fresh x)) (take-take k limit lines h)

before :
    (lines : List Bytes) (limit j k : ℕ)
    → k < j
    → j ≤ limit
    → j ≤ length lines
    → ((m : ℕ)
        → k < suc m
        → m < length (take limit lines)
        → closed_at fresh (suc m) (take limit lines) ≡ false)
    → closed_at fresh j lines ≡ false
before lines limit zero k a u v h = absurd (omega arith)
before lines limit (suc j) k a u v h =
    sym (same_prefix lines limit (suc j) u) ∙ h j a (omega (arith, length-take limit lines))

of_loop :
    (lines : List Bytes) (limit k : ℕ)
    → LoopEnd fresh 0 0 (take limit lines) k
    → LastBoundary lines limit k
of_loop lines limit k (inl (e, none)) = (
  omega arith,
  omega arith,
  λ h. absurd (omega arith),
  λ j a u v. before lines limit j 0 (omega arith) u v (λ m _ c. none m c),
)
of_loop lines limit k (inr (j, lt, e, top, later)) =
    let n = length-take limit lines in
    let here : closed_at fresh (suc j) lines ≡ true =
      sym (same_prefix lines limit (suc j) (omega arith)) ∙ top in
    (
      omega arith,
      omega arith,
      λ h. let q : suc j ≡ k = omega arith in subst (λ x. closed_at fresh x lines ≡ true) q here,
      λ i a u v. before lines limit i (suc j) (omega arith) u v (λ m c d. later m (omega arith) d),
    )

-- braceCutLine finds the last line up to the limit behind which no block, literal or comment is open, and
-- says that there is none exactly where it gives 0.
pub brace_cut_line-LastBoundary :
    (lines : List Bytes) (limit : ℕ)
    → LastBoundary lines limit (brace_cut_line lines limit).0
      × ((brace_cut_line lines limit).1 ≡ ltb 0 (brace_cut_line lines limit).0)
unfolding brace_cut_line
brace_cut_line-LastBoundary lines limit =
    (of_loop lines limit _ (cut_loop-LoopEnd fresh 0 0 (take limit lines)), refl)

-- The text of the first lines, with the line to go on at, between two brackets.
abbrev pub continued : List Bytes → ℕ → Bytes → Bytes → Bytes
continued front total opening closing = parts (
    lines_text front
    ∷ opening
    ∷ decimal (length front)
    ∷ codes " of "
    ∷ decimal total
    ∷ codes " lines "
    ∷ (226 ∷ 128 ∷ 148 ∷ [])
    ∷ codes " use start_line="
    ∷ decimal (length front + 1)
    ∷ closing
    ∷ [])

-- The first k lines are shown, and `written` is made of them.
abbrev pub ShowsFirst : List Bytes → ℕ → TruncateResult → (List Bytes → Bytes) → Type 0
ShowsFirst lines k r written =
    (r.truncated ≡ true)
    × (r.shown_lines ≡ k)
    × (front : List Bytes) × (back : List Bytes) × (lines ≡ front ++ back)
    × (length front ≡ k)
    × (r.content ≡ written front)

-- The three ways to show source text: whole, up to a boundary, or up to the limit.
abbrev pub SmartCut : Bytes → ℕ → TruncateResult → Type 0
SmartCut raw limit r =
    let lines = split_lines raw in
    ((length lines ≤ limit)
      × (r.truncated ≡ false)
      × (r.content ≡ raw)
      × (r.shown_lines ≡ length lines))
    ⊎ ((limit < length lines)
        × (((k : ℕ) × (0 < k)
              × (k ≤ limit)
              × (closed_at fresh k lines ≡ true)
              × ((j : ℕ) → k < j → j ≤ limit → closed_at fresh j lines ≡ false)
              × ShowsFirst lines k r (λ front. trim_right is_newline (
                  continued front (length lines) (codes "[... truncated: showing first ")
                    (codes " to continue ...]"))))
            ⊎ (((j : ℕ) → 0 < j → j ≤ limit → closed_at fresh j lines ≡ false)
                × ShowsFirst lines limit r (λ front.
                  continued front (length lines) (codes "[truncated: showing first ")
                    (codes " to continue]")))))

shown_first-continued :
    (lines : List Bytes) (k : ℕ)
    → k ≤ length lines
    → shown_first lines k
      ≡ continued
          (take k lines)
          (length lines)
          (codes "[... truncated: showing first ")
          (codes " to continue ...]")
shown_first-continued lines k h =
    let n : length (take k lines) ≡ k = omega (arith, length-take k lines) in
    rw (n, write_lines-lines_text (take k lines)) refl

one_end-continued :
    (lines : List Bytes) (k : ℕ)
    → k ≤ length lines
    → one_end lines k false
      ≡ continued
          (take k lines)
          (length lines)
          (codes "[truncated: showing first ")
          (codes " to continue]")
one_end-continued lines k h =
    let n : length (take k lines) ≡ k = omega (arith, length-take k lines) in
    rw (n, write_lines-lines_text (take k lines)) refl

truncate_output_head-cut :
    (raw : Bytes) (limit : ℕ)
    → limit < length (split_lines raw)
    → truncate_output_head raw limit ≡ record {
      content = one_end (split_lines raw) limit false;
      truncated = true;
      total_lines = length (split_lines raw);
      shown_lines = limit;
    }
unfolding truncate_output_head truncate_output_end
truncate_output_head-cut raw limit h =
    let few : ltb (length (split_lines raw)) limit ≡ false = ground arith in rw few refl

cut_open :
    (raw : Bytes) (limit k : ℕ) (found : Bool)
    → limit < length (split_lines raw)
    → LastBoundary (split_lines raw) limit k
    → found ≡ ltb 0 k
    → SmartCut raw limit (
        if found
        then record {
          content =
              trim_right is_newline (shown_first (split_lines raw) (if k == 0 then limit else k));
          truncated = true;
          total_lines = length (split_lines raw);
          shown_lines = if k == 0 then limit else k;
        }
        else truncate_output_head raw limit)
cut_open raw limit k true h (a, b, c, d) e =
    let z : (k == 0) ≡ false = ground arith in
    let lines = split_lines raw in
    rw z (
      inr (
        h,
        inl (
          k,
          ground arith,
          a,
          c (ground arith),
          (λ j p u. d j p u (omega arith)),
          (
            refl,
            refl,
            take k lines,
            drop k lines,
            sym (take-append-drop k lines),
            omega (arith, length-take k lines),
            ap (trim_right is_newline) (shown_first-continued lines k b),
          ),
        ),
      ))
cut_open raw limit k false h (a, b, c, d) e =
    let lines = split_lines raw in
    rw (truncate_output_head-cut raw limit h) (
      inr (
        h,
        inr (
          (λ j p u. d j (ground arith) u (omega arith)),
          (
            refl,
            refl,
            take limit lines,
            drop limit lines,
            sym (take-append-drop limit lines),
            omega (arith, length-take limit lines),
            one_end-continued lines limit (omega arith),
          ),
        ),
      ))

-- Source text in a language with braces is shown whole, or cut behind its last line up to the limit where
-- no block, literal or comment is open, or, if there is no such line, behind the line of the limit. It is
-- shown whole exactly if it has at most `limit` lines. Where it is cut, the text shown consists of the lines
-- in front of the cut and a last line with their number, the number of all lines and the line to go on at.
pub truncate_output_smart-SmartCut :
    (raw : Bytes) (limit : ℕ) (ext : Bytes)
    → is_c_syntax_ext ext ≡ true
    → SmartCut raw limit (truncate_output_smart raw limit ext)
unfolding truncate_output_smart bytes_eq split_lines
truncate_output_smart-SmartCut [] limit ext e = inl (omega arith, refl, refl, refl)
truncate_output_smart-SmartCut (c ∷ s) limit ext e =
    let lines = split_lines (c ∷ s) in
    let (last, found) = brace_cut_line-LastBoundary lines limit in
    rw e (
      if_cases (SmartCut (c ∷ s) limit) (leb (length lines) limit) _ _
        (λ few. inl (ground arith, refl, refl, refl))
        (λ more. cut_open (c ∷ s) limit _ _ (ground arith) last found))

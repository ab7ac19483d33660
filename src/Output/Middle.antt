-- ===== src/Output/Middle.antt =====
-- Which lines truncateOutputDetailed leaves out.
use jinn.Base.{
  ℕ, ◌+◌, ◌-◌, ◌*◌, ◌/◌, ◌≤◌, ◌≡◌, ◌⊎◌, refl, ap, sym, ◌∙◌, true, false, inl, inr, List, [], ◌∷◌,
  ◌++◌, append_assoc, codes, decimal, ◌<◌, Bytes, length, length-take, length-drop, take, drop,
  take-append-drop, drop-drop, ltb, ltb→lt, if_cases, trim_right, arith,
}
use jinn.Output.{
  split_lines, write_lines, TruncateResult, head_and_tail, is_newline, truncate_output_detailed,
}

-- The lines between the first and the last `keep`.
abbrev between : ℕ → List Bytes → List Bytes
between keep lines = take (length lines - keep * 2) (drop keep lines)

between-parts :
    (keep : ℕ) (lines : List Bytes)
    → keep * 2 ≤ length lines
    → lines ≡ take keep lines ++ (between keep lines ++ drop (length lines - keep) lines)
between-parts keep lines h =
    let rest = length lines - keep * 2 in
    sym (
      ap (λ l. take keep lines ++ l)
        (ap (λ l. between keep lines ++ l)
            (sym (drop-drop rest keep (length lines - keep) lines (omega arith)))
          ∙ take-append-drop rest (drop keep lines))
      ∙ take-append-drop keep lines)

length-between :
    (keep : ℕ) (lines : List Bytes)
    → keep * 2 ≤ length lines
    → length (between keep lines) ≡ length lines - keep * 2
length-between keep lines h =
    omega (arith, length-take (length lines - keep * 2) (drop keep lines), length-drop keep lines)

-- Lines, each with a line feed behind it.
abbrev pub lines_text : List Bytes → Bytes
lines_text [] = []
lines_text (l ∷ ls) = (l ++ codes "\n") ++ lines_text ls

pub write_lines-lines_text : (ls : List Bytes) → write_lines ls ≡ lines_text ls
unfolding write_lines
write_lines-lines_text [] = refl
write_lines-lines_text (l ∷ ls) =
    ap (λ r. l ++ (b'\n' ∷ r)) (write_lines-lines_text ls)
    ∙ sym (append_assoc l (codes "\n") (lines_text ls))

-- Several parts of a text, one behind the other.
abbrev pub parts : List Bytes → Bytes
parts [] = []
parts (p ∷ []) = p
parts (p ∷ q ∷ ps) = p ++ parts (q ∷ ps)

-- The text that shows the lines `front` and `back`, and says that `omitted` lines lie between them.
abbrev pub shows : List Bytes → ℕ → List Bytes → Bytes
shows front omitted back = parts (
    codes "[truncated: "
    ∷ decimal (length front + omitted + length back)
    ∷ codes " lines "
    ∷ (226 ∷ 134 ∷ 146 ∷ [])
    ∷ codes " "
    ∷ decimal (length front + length back)
    ∷ codes " shown (head "
    ∷ decimal (length front)
    ∷ codes " + tail "
    ∷ decimal (length back)
    ∷ codes ")]"
    ∷ (b'\n'
        ∷ parts (
            lines_text front
            ∷ codes "[... "
            ∷ decimal omitted
            ∷ codes " lines omitted ...]"
            ∷ (b'\n' ∷ lines_text back)
            ∷ []))
    ∷ [])

-- A text is shown whole if it has at most `limit` lines. Of a longer one two parts are shown that do not
-- overlap, its first quarter of `limit` lines and its last, with the number of the lines between them.
abbrev pub CutInTheMiddle : Bytes → ℕ → TruncateResult → Type 0
CutInTheMiddle raw limit r =
    ((length (split_lines raw) ≤ limit)
      × (r.truncated ≡ false)
      × (r.content ≡ raw)
      × (r.shown_lines ≡ length (split_lines raw)))
    ⊎ ((limit < length (split_lines raw))
        × (r.truncated ≡ true)
        × (front : List Bytes) × (omitted : List Bytes) × (back : List Bytes) × (split_lines raw
            ≡ front ++ (omitted ++ back))
        × (length front ≡ limit / 4)
        × (length back ≡ limit / 4)
        × (r.shown_lines ≡ length front + length back)
        × (r.content ≡ trim_right is_newline (shows front (length omitted) back)))

-- The text written for the lines is the one that shows the two parts.
head_and_tail-shows :
    (lines : List Bytes) (limit n : ℕ)
    → length (take (limit / 4) lines) ≡ limit / 4
    → length (drop (length lines - limit / 4) lines) ≡ limit / 4
    → n + limit / 4 * 2 ≡ length lines
    → head_and_tail lines limit
      ≡ shows (take (limit / 4) lines) n (drop (length lines - limit / 4) lines)
head_and_tail-shows lines limit n a b c =
    let left : length lines - limit / 4 * 2 ≡ n = omega arith in
    let all : limit / 4 + n + limit / 4 ≡ length lines = omega arith in
    let both : limit / 4 + limit / 4 ≡ limit / 4 * 2 = omega arith in
    rw
      (
        a,
        b,
        all,
        both,
        left,
        write_lines-lines_text (take (limit / 4) lines),
        write_lines-lines_text (drop (length lines - limit / 4) lines),
      )
      refl

-- A text of at most `limit` lines stays as it is. Of a longer one, the first and the last quarter of
-- `limit` lines are shown: they are parts of the text that do not overlap, and the text shown says how many
-- lines there are, how many are shown, and how many are left out between the two parts.
pub truncate_output_detailed_parts :
    (raw : Bytes) (limit : ℕ)
    → ((truncate_output_detailed raw limit).total_lines ≡ length (split_lines raw))
      × CutInTheMiddle raw limit (truncate_output_detailed raw limit)
unfolding truncate_output_detailed
truncate_output_detailed_parts raw limit =
    let lines = split_lines raw in
    let keep = limit / 4 in
    let P : TruncateResult → Type 0 =
      λ r. (r.total_lines ≡ length lines) × CutInTheMiddle raw limit r in
    if_cases P (ltb limit (length lines)) _ _
      (λ t.
        let fits : keep * 2 ≤ length lines = omega (arith, ltb→lt _ _ t) in
        let front : length (take keep lines) ≡ keep = omega (arith, length-take keep lines) in
        let back : length (drop (length lines - keep) lines) ≡ keep =
          omega (arith, length-drop (length lines - keep) lines) in
        let n : length (between keep lines) + keep * 2 ≡ length lines =
          omega (arith, length-between keep lines fits) in
        (
          refl,
          inr (
            ltb→lt _ _ t,
            refl,
            take keep lines,
            between keep lines,
            drop (length lines - keep) lines,
            between-parts keep lines fits,
            front,
            back,
            omega arith,
            ap (trim_right is_newline)
                (head_and_tail-shows lines limit (length (between keep lines)) front back n),
          ),
        ))
      (λ f. (refl, inl (ground (arith, f), refl, refl, refl)))

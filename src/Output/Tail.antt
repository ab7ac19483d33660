-- ===== src/Output/Tail.antt =====
-- What truncateTailDetailed keeps.
use mathlib.Core.List.{reverse_aux, reverse_aux-eq, reverse-reverse, nil≢cons}
use jinn.Base.{
  if_cases, leb→le, ltb→lt, subst, ℕ, ◌+◌, ◌≤◌, ◌<◌, ◌≡◌, ◌⊎◌, refl, sym, ◌∙◌, true, false, ◌&&◌,
  inl, inr, List, [], ◌∷◌, ◌++◌, reverse, Bytes, length, length-append, length-reverse, Bool-cases,
  false, if◌then◌else◌, join, ltb, leb, arith,
}
use jinn.Output.{
  split_lines, TruncationResult, TruncatedBy, neither, by_lines, by_bytes, Kept, line_bytes,
  keep_lines, truncate_tail_detailed,
}

-- The kept lines are a tail of the lines, within both limits, and the longest one.
abbrev pub LongestTail : List Bytes → ℕ → ℕ → List Bytes → Type 0
LongestTail lines max_lines max_bytes kept =
    (above : List Bytes) × (lines ≡ reverse above ++ kept)
    × (length kept ≤ max_lines)
    × (length (join b'\n' kept) ≤ max_bytes)
    × ((l : Bytes) (above' : List Bytes)
        → above ≡ l ∷ above'
        → (max_lines ≤ length kept) ⊎ (max_bytes < length (join b'\n' (l ∷ kept))))

length-join :
    (l : Bytes) (kept : List Bytes)
    → length (join b'\n' (l ∷ kept)) ≡ length (join b'\n' kept) + line_bytes l kept
unfolding join
length-join l [] = omega arith
length-join l (k ∷ kept) = omega (arith, length-append l (b'\n' ∷ join b'\n' (k ∷ kept)))

keep_lines-LongestTail :
    (lines : List Bytes) (max_lines max_bytes : ℕ) (above kept : List Bytes) (kept_bytes : ℕ)
    → lines ≡ reverse_aux above kept
    → length kept ≤ max_lines
    → kept_bytes ≤ max_bytes
    → kept_bytes ≡ length (join b'\n' kept)
    → LongestTail lines max_lines max_bytes
        (keep_lines max_lines max_bytes above kept kept_bytes).kept
unfolding keep_lines
keep_lines-LongestTail lines max_lines max_bytes [] kept kept_bytes e a b c =
    ([], e, a, omega arith, λ l above' h. absurd (nil≢cons h))
keep_lines-LongestTail lines max_lines max_bytes (l ∷ above) kept kept_bytes e a b c =
    let P : Kept → Type 0 = λ k. LongestTail lines max_lines max_bytes k.kept in
    let full : (l' : Bytes) (above' : List Bytes) → l ∷ above ≡ l' ∷ above' → l ≡ l' =
      λ l' above' h. cc in
    if_cases P (leb max_lines (length kept)) _ _
      (λ t. (
        l ∷ above,
        e ∙ reverse_aux-eq (l ∷ above) kept,
        a,
        omega arith,
        λ l' above' h. inl (leb→le _ _ t),
      ))
      (λ f.
        if_cases P (ltb max_bytes (kept_bytes + line_bytes l kept)) _ _
          (λ t. (
            l ∷ above,
            e ∙ reverse_aux-eq (l ∷ above) kept,
            a,
            omega arith,
            λ l' above' h. inr (
                subst (λ x. max_bytes < length (join b'\n' (x ∷ kept))) (full l' above' h)
                  (omega (arith, ltb→lt _ _ t, length-join l kept))),
          ))
          (λ g.
            keep_lines-LongestTail lines max_lines max_bytes above (l ∷ kept) _ e (ground arith)
              (ground arith) (omega (arith, length-join l kept))))

-- The loop ends at the byte limit where it has room for a line and a line is left, and else at the line
-- limit or with the last line.
abbrev LoopEnd : ℕ → ℕ → Kept → Type 0
LoopEnd n max_lines k =
    ((k.out_of_bytes ≡ true) × (length k.kept < max_lines) × (length k.kept < n))
    ⊎ ((k.out_of_bytes ≡ false) × ((max_lines ≤ length k.kept) ⊎ (length k.kept ≡ n)))

keep_lines-LoopEnd :
    (n max_lines max_bytes : ℕ) (above kept : List Bytes) (kept_bytes : ℕ)
    → length above + length kept ≡ n
    → LoopEnd n max_lines (keep_lines max_lines max_bytes above kept kept_bytes)
unfolding keep_lines
keep_lines-LoopEnd n max_lines max_bytes [] kept kept_bytes e = inr (refl, inr (omega arith))
keep_lines-LoopEnd n max_lines max_bytes (l ∷ above) kept kept_bytes e =
    if_cases (LoopEnd n max_lines) (leb max_lines (length kept)) _ _
      (λ t. inr (refl, inl (leb→le _ _ t)))
      (λ f.
        if_cases (LoopEnd n max_lines) (ltb max_bytes (kept_bytes + line_bytes l kept)) _ _
          (λ t. inl (refl, ground arith, omega arith))
          (λ g. keep_lines-LoopEnd n max_lines max_bytes above (l ∷ kept) _ (omega arith)))

-- The numbers that are reported with a text, and the two limits.
abbrev pub Reported : Bytes → Bytes → ℕ → ℕ → TruncationResult → Type 0
Reported raw content max_lines max_bytes info =
    (info.total_lines ≡ length (split_lines raw))
    × (info.total_bytes ≡ length raw)
    × (info.output_bytes ≡ length content)
    × (info.output_lines ≤ max_lines)
    × (info.output_bytes ≤ max_bytes)
    × (info.max_lines ≡ max_lines)
    × (info.max_bytes ≡ max_bytes)

-- The limit that is named for a number of lines kept: the bytes where lines are left for which the line
-- limit has room.
abbrev pub NamedLimit : List Bytes → ℕ → ℕ → TruncatedBy → Type 0
NamedLimit lines max_lines n by =
    ((by ≡ by_bytes) × (n < max_lines) × (n < length lines))
    ⊎ ((by ≡ by_lines) × ((max_lines ≤ n) ⊎ (n ≡ length lines)))

-- The text stays as it is, where it keeps both limits, or it is replaced by the longest tail of its lines
-- within both limits.
abbrev pub CutToTail : Bytes → Bytes → ℕ → ℕ → TruncationResult → Type 0
CutToTail raw content max_lines max_bytes info =
    ((info.truncated ≡ false)
      × (content ≡ raw)
      × (info.output_lines ≡ length (split_lines raw))
      × (info.truncated_by ≡ neither))
    ⊎ ((info.truncated ≡ true)
        × ((max_lines < length (split_lines raw)) ⊎ (max_bytes < length raw))
        × (kept : List Bytes) × (content ≡ join b'\n' kept)
        × (info.output_lines ≡ length kept)
        × NamedLimit (split_lines raw) max_lines (length kept) info.truncated_by
        × LongestTail (split_lines raw) max_lines max_bytes kept)

over_a_limit : (m n k l : ℕ) → (leb m n && leb k l) ≡ false → (n < m) ⊎ (l < k)
over_a_limit m n k l f = elim (Bool-cases (leb m n)) [
  | inl t ↦ inr (ground arith)
  | inr g ↦ inl (ground arith)
]

named :
    (lines : List Bytes) (max_lines max_bytes : ℕ) (k : Kept)
    → LoopEnd (length lines) max_lines k
    → NamedLimit lines max_lines (length k.kept) (
        if leb max_lines (length k.kept) && leb k.kept_bytes max_bytes
        then by_lines
        else if k.out_of_bytes
        then by_bytes
        else by_lines)
named lines max_lines max_bytes k (inl (a, b, c)) =
    let f : (leb max_lines (length k.kept) && leb k.kept_bytes max_bytes) ≡ false = ground arith in
    rw (f, a) (inl (refl, b, c))
named lines max_lines max_bytes k (inr (a, b)) =
    if_cases (λ by. NamedLimit lines max_lines (length k.kept) by)
      (leb max_lines (length k.kept) && leb k.kept_bytes max_bytes) _ _ (λ t. inr (refl, b))
      (λ f. rw a (inr (refl, b)))

-- The answer keeps both limits, and reports the numbers of the text and of the answer. It is the whole
-- text, if that keeps both limits, or else the longest tail of the text's lines that keeps both limits,
-- joined by line feeds; as the limit that cut it the bytes are named exactly if a line is left out that the
-- line limit has room for.
pub truncate_tail_detailed_limits :
    (raw : Bytes) (max_lines max_bytes : ℕ)
    → let (content, info) = truncate_tail_detailed raw max_lines max_bytes in
      Reported raw content max_lines max_bytes info × CutToTail raw content max_lines max_bytes info
unfolding truncate_tail_detailed
truncate_tail_detailed_limits raw max_lines max_bytes =
    let lines = split_lines raw in
    let loop = keep_lines max_lines max_bytes (reverse lines) [] 0 in
    let longest =
      keep_lines-LongestTail lines max_lines max_bytes (reverse lines) [] 0
        (sym (reverse-reverse lines)) (omega arith) (omega arith) (unfold join in refl) in
    let ended =
      keep_lines-LoopEnd (length lines) max_lines max_bytes (reverse lines) [] 0
        (omega (arith, length-reverse lines)) in
    let P : Bytes × TruncationResult → Type 0 =
      λ p. Reported raw p.0 max_lines max_bytes p.1 × CutToTail raw p.0 max_lines max_bytes p.1 in
    if_cases P (leb (length lines) max_lines && leb (length raw) max_bytes) _ _
      (λ t. (
        (refl, refl, refl, ground (arith, t), ground (arith, t), refl, refl),
        inl (refl, refl, refl, refl),
      ))
      (λ f. (
        (refl, refl, refl, longest.2, longest.3, refl, refl),
        inr (
          refl,
          over_a_limit (length lines) max_lines (length raw) max_bytes f,
          loop.kept,
          refl,
          refl,
          named lines max_lines max_bytes loop ended,
          longest,
        ),
      ))

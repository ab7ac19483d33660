-- ===== src/Edit/Aligned.antt =====
-- Where the boundaries lie that mapNormalizedText gives without fuzzy matching.
use jinn.Base.{
  ℕ, zero, suc, ◌+◌, ◌≤◌, ◌≡◌, refl, sym, ap, ◌∙◌, subst, false, some, List, [], ◌∷◌, ◌++◌,
  append_assoc, Bytes, length, length-append, length-drop, take, drop, take-append-drop,
  drop-append, drop-drop, get_elem?, decode_rune, decode_rune-WidthWithin, decode_rune-four, ◌==◌,
  if◌then◌else◌, arith,
}
use jinn.Normalize.{lf, normalize_to_lf}
use jinn.Edit.{
  NormalizedTextMap, replicate, append_mapped, map_runes, map_lines, line_of, newline_width,
  map_normalized_text,
}
use jinn.Edit.Mapped.{
  NoEnds, AtEnd, line_of-NoEnds, line_of-AtEnd, normalize-NoEnds, normalize-end,
  newline_width_positive, line_of-drop,
}

-- Boundary b for index i of the normal form: what stands behind b is, in normal form, what stands behind i,
-- or behind the rune that i stands in.
abbrev pub Aligned : Bytes → ℕ → ℕ → Type 0
Aligned raw i b =
    (k : ℕ) × (k ≤ 3) × (normalize_to_lf (drop b raw) ≡ drop (i + k) (normalize_to_lf raw))

abbrev AllAligned : Bytes → ℕ → List ℕ → Type 0
AllAligned raw i [] = Unit
AllAligned raw i (b ∷ bs) = Aligned raw i b × AllAligned raw (suc i) bs

AllAligned-append :
    (raw : Bytes) (i j : ℕ) (xs ys : List ℕ)
    → j ≡ i + length xs
    → AllAligned raw i xs
    → AllAligned raw j ys
    → AllAligned raw i (xs ++ ys)
AllAligned-append raw i j [] ys e a b =
    let q : j ≡ i = omega arith in subst (λ n. AllAligned raw n ys) q b
AllAligned-append raw i j (x ∷ xs) ys e (h, a) b =
    (h, AllAligned-append raw (suc i) j xs ys (omega arith) a b)

AllAligned-replicate :
    (raw : Bytes) (i n end last : ℕ)
    → i + n ≡ suc last
    → n ≤ 4
    → normalize_to_lf (drop end raw) ≡ drop last (normalize_to_lf raw)
    → AllAligned raw i (replicate n end)
AllAligned-replicate raw i zero end last e h g = tt
AllAligned-replicate raw i (suc n) end last e h g =
    let q : last ≡ i + n = omega arith in
    (
      (
        n,
        omega arith,
        subst (λ x. normalize_to_lf (drop end raw) ≡ drop x (normalize_to_lf raw)) q g,
      ),
      AllAligned-replicate raw (suc i) n end last (omega arith) (omega arith) g,
    )

pub AllAligned-at :
    (raw : Bytes) (i j b : ℕ) (bs : List ℕ)
    → AllAligned raw j bs
    → get_elem? bs i ≡ some b
    → Aligned raw (j + i) b
AllAligned-at raw i j b [] a e = absurd (ground arith)
AllAligned-at raw zero j b (c ∷ bs) (h, a) e =
    let q : c ≡ b = cc in
    let z : j ≡ j + 0 = omega arith in
    subst (λ n. Aligned raw n b) z (subst (λ x. Aligned raw j x) q h)
AllAligned-at raw (suc i) j b (c ∷ bs) (h, a) e =
    let z : suc j + i ≡ j + suc i = omega arith in
    subst (λ n. Aligned raw n b) z (AllAligned-at raw i (suc j) b bs a e)

-- A map of what stands in front of `rest`, with a boundary behind every byte.
abbrev MapOf : Bytes → NormalizedTextMap → ℕ → Bytes → Type 0
MapOf raw m pos rest =
    (length m.boundaries ≡ suc (length m.text))
    × (drop pos raw ≡ rest)
    × (normalize_to_lf raw ≡ m.text ++ normalize_to_lf rest)
    × AllAligned raw 0 m.boundaries

length-replicate_of : (n b : ℕ) → length (replicate n b) ≡ n
length-replicate_of zero b = refl
length-replicate_of (suc n) b = ap suc (length-replicate_of n b)

-- A rune or a line end that takes `width` bytes is appended.
append-MapOf :
    (raw : Bytes) (m : NormalizedTextMap) (s rest : Bytes) (pos width : ℕ)
    → length s ≤ 4
    → normalize_to_lf rest ≡ s ++ normalize_to_lf (drop width rest)
    → MapOf raw m pos rest
    → MapOf raw (append_mapped m s (pos + width)) (pos + width) (drop width rest)
append-MapOf raw m s rest pos width h e (l, d, t, a) =
    let n = length-replicate_of (length s) (pos + width) in
    let behind : drop (pos + width) raw ≡ drop width rest =
      sym (drop-drop width pos (pos + width) raw refl) ∙ ap (drop width) d in
    let all : normalize_to_lf raw ≡ (m.text ++ s) ++ normalize_to_lf (drop width rest) =
      t
      ∙ ap (λ x. m.text ++ x) e
      ∙ sym (append_assoc m.text s (normalize_to_lf (drop width rest))) in
    let cut : normalize_to_lf (drop (pos + width) raw)
        ≡ drop (length (m.text ++ s)) (normalize_to_lf raw) =
      ap normalize_to_lf behind
      ∙ sym (drop-append _ (m.text ++ s) (normalize_to_lf (drop width rest)) refl)
      ∙ ap (drop (length (m.text ++ s))) (sym all) in
    (
      omega (
        arith,
        l,
        n,
        length-append m.boundaries (replicate (length s) (pos + width)),
        length-append m.text s,
      ),
      behind,
      all,
      AllAligned-append raw 0 (suc (length m.text)) m.boundaries _ (omega arith) a (
          AllAligned-replicate raw (suc (length m.text)) (length s) (pos + width)
            (length (m.text ++ s)) (omega (arith, length-append m.text s)) h cut),
    )

drop-NoEnds : (n : ℕ) (s : Bytes) → NoEnds s → NoEnds (drop n s)
drop-NoEnds zero s h = h
drop-NoEnds (suc n) [] h = tt
drop-NoEnds (suc n) (c ∷ s) (e, h) = drop-NoEnds n s h

take-NoEnds : (n : ℕ) (s : Bytes) → NoEnds s → NoEnds (take n s)
take-NoEnds zero s h = tt
take-NoEnds (suc n) [] h = tt
take-NoEnds (suc n) (c ∷ s) (e, h) = (e, take-NoEnds n s h)

drop-front : (n : ℕ) (s t : Bytes) → n ≤ length s → drop n (s ++ t) ≡ drop n s ++ t
drop-front zero s t h = refl
drop-front (suc n) [] t h = absurd (omega arith)
drop-front (suc n) (c ∷ s) t h = drop-front n s t (omega arith)

length-take_le : (n : ℕ) (s : Bytes) → length (take n s) ≤ n
length-take_le zero s = omega arith
length-take_le (suc n) [] = omega arith
length-take_le (suc n) (c ∷ s) = omega (arith, length-take_le n s)

-- The runes of a line.
map_runes-MapOf :
    (fuel : ℕ) (raw : Bytes) (m : NormalizedTextMap) (pos : ℕ) (s rest : Bytes)
    → length s ≤ fuel
    → NoEnds s
    → MapOf raw m pos (s ++ rest)
    → MapOf raw (map_runes fuel false m pos s) (pos + length s) rest
unfolding map_runes
map_runes-MapOf zero raw m pos [] rest h e a =
    let q : pos ≡ pos + 0 = omega arith in subst (λ n. MapOf raw m n rest) q a
map_runes-MapOf zero raw m pos (c ∷ s) rest h e a = absurd (omega arith)
map_runes-MapOf (suc fuel) raw m pos [] rest h e a =
    let q : pos ≡ pos + 0 = omega arith in subst (λ n. MapOf raw m n rest) q a
map_runes-MapOf (suc fuel) raw m pos (c ∷ s) rest h e a =
    let line = c ∷ s in
    let width = (decode_rune c s).1 in
    let (w, v) = decode_rune-WidthWithin c s in
    let four = decode_rune-four c s in
    let front = drop-front width line rest v in
    let parts : normalize_to_lf (line ++ rest)
        ≡ take width line ++ normalize_to_lf (drop width (line ++ rest)) =
      ap normalize_to_lf (
        ap (λ x. x ++ rest) (sym (take-append-drop width line))
        ∙ append_assoc (take width line) (drop width line) rest)
      ∙ normalize-NoEnds (take width line) (drop width line ++ rest) (take-NoEnds width line e)
      ∙ ap (λ x. take width line ++ normalize_to_lf x) (sym front) in
    let next =
      append-MapOf raw m (take width line) (line ++ rest) pos width
        (omega (arith, length-take_le width line)) parts a in
    let q : pos + width + length (drop width line) ≡ pos + length line =
      omega (arith, length-drop width line) in
    subst
      (λ n.
        MapOf raw
          (map_runes fuel false (append_mapped m (take width line) (pos + width)) (pos + width)
            (drop width line))
          n rest)
      q
      (map_runes-MapOf fuel raw _ (pos + width) (drop width line) rest
        (omega (arith, length-drop width line)) (drop-NoEnds width line e)
        (subst (MapOf raw (append_mapped m (take width line) (pos + width)) (pos + width)) front
          next))

-- What follows a line, if the lines behind it are aligned.
behind-MapOf :
    (fuel : ℕ) (raw : Bytes) (m : NormalizedTextMap) (offset : ℕ) (behind : Bytes)
    → AtEnd behind
    → MapOf raw m offset behind
    → ((n : NormalizedTextMap) (pos : ℕ) (t : Bytes)
        → MapOf raw n pos t
        → AllAligned raw 0 (map_lines fuel false n pos t).boundaries)
    → AllAligned raw 0
        (if newline_width behind == 0
          then m
          else map_lines fuel false
              (append_mapped m (lf ∷ []) (offset + newline_width behind))
              (offset + newline_width behind)
              (drop (newline_width behind) behind)).boundaries
behind-MapOf fuel raw m offset [] e a next = a.3
behind-MapOf fuel raw m offset (c ∷ s) e a next =
    let width = newline_width (c ∷ s) in
    rw (newline_width_positive c s) (
      next _ (offset + width) (drop width (c ∷ s))
        (append-MapOf raw m (lf ∷ []) (c ∷ s) offset width (omega arith) (normalize-end c s e) a))

-- All lines.
map_lines-MapOf :
    (fuel : ℕ) (raw : Bytes) (m : NormalizedTextMap) (offset : ℕ) (s : Bytes)
    → MapOf raw m offset s
    → AllAligned raw 0 (map_lines fuel false m offset s).boundaries
unfolding map_lines
map_lines-MapOf zero raw m offset s a = a.3
map_lines-MapOf (suc fuel) raw m offset [] a = a.3
map_lines-MapOf (suc fuel) raw m offset (c ∷ s) a =
    let line = line_of (c ∷ s) in
    let behind = drop (length line) (c ∷ s) in
    let mapped = map_runes (length line) false m offset line in
    let first =
      map_runes-MapOf (length line) raw m offset line behind (omega arith) (line_of-NoEnds (c ∷ s))
        (subst (MapOf raw m offset) (sym (line_of-drop (c ∷ s))) a) in
    behind-MapOf fuel raw mapped (offset + length line) behind (line_of-AtEnd (c ∷ s)) first
      (map_lines-MapOf fuel raw)

-- Without fuzzy matching every boundary is aligned.
pub map_normalized_text-Aligned :
    (raw : Bytes) (i b : ℕ)
    → get_elem? (map_normalized_text raw false).boundaries i ≡ some b
    → Aligned raw i b
unfolding map_normalized_text
map_normalized_text-Aligned raw i b e =
    subst (λ n. Aligned raw n b) (omega arith)
      (AllAligned-at raw i 0 b _
        (map_lines-MapOf (length raw) raw _ 0 raw (refl, refl, refl, ((0, omega arith, refl), tt)))
        e)

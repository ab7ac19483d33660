-- ===== src/Edit/Mapped.antt =====
-- What the normal form of a text and its boundaries are.
use native.Mathlib.Nat.{le_refl}
use jinn.Base.{
  ℕ, zero, suc, ◌+◌, ◌≤◌, ◌<◌, ◌≡◌, refl, sym, ap, ap₂, ◌∙◌, Bool, true, false, ◌&&◌, [], ◌∷◌, ◌++◌,
  Bytes, append-nil, append_assoc, length, take, drop, take-append-drop, length-append, length-drop,
  ◌==◌, if◌then◌else◌, if_cases, if_false, decode_rune, decode_rune-WidthWithin, trim_right, arith,
}
use jinn.Normalize.{lf, cr, is_blank, replace_crlf, replace_cr, normalize_to_lf}
use jinn.Normalize.Endings.{replace_crlf-cons}
use jinn.Edit.{
  NormalizedTextMap, append_mapped, mapped_rune, map_runes, ends_line, line_of, newline_width,
  content_of, map_line, map_lines, map_normalized_text,
}
use jinn.Edit.Boundaries.{
  set_last-Ascending, length-set_last, Bounded, append-Bounded, Bounded-weaken,
}

map_runes-Bounded :
    (fuel : ℕ) (fuzzy : Bool) (m : NormalizedTextMap) (pos hi : ℕ) (s : Bytes)
    → pos + length s ≤ hi
    → Bounded m pos
    → Bounded (map_runes fuel fuzzy m pos s) hi
unfolding map_runes
map_runes-Bounded zero fuzzy m pos hi s h b = Bounded-weaken m pos hi (omega arith) b
map_runes-Bounded (suc fuel) fuzzy m pos hi [] h b = Bounded-weaken m pos hi (omega arith) b
map_runes-Bounded (suc fuel) fuzzy m pos hi (c ∷ s) h b =
    let rune = decode_rune c s in
    let (w, v) = decode_rune-WidthWithin c s in
    map_runes-Bounded fuel fuzzy _ (pos + rune.1) hi (drop rune.1 (c ∷ s))
      (omega (arith, length-drop rune.1 (c ∷ s)))
      (append-Bounded m (mapped_rune fuzzy rune.0 (take rune.1 (c ∷ s))) pos (pos + rune.1)
        (omega arith) b)

-- An exact match takes the bytes of a line as they are.
pub map_runes-exact :
    (fuel : ℕ) (m : NormalizedTextMap) (pos : ℕ) (s : Bytes)
    → length s ≤ fuel
    → (map_runes fuel false m pos s).text ≡ m.text ++ s
unfolding map_runes
map_runes-exact zero m pos [] h = sym (append-nil m.text)
map_runes-exact zero m pos (c ∷ s) h = absurd (omega arith)
map_runes-exact (suc fuel) m pos [] h = sym (append-nil m.text)
map_runes-exact (suc fuel) m pos (c ∷ s) h =
    let width = (decode_rune c s).1 in
    let (w, v) = decode_rune-WidthWithin c s in
    map_runes-exact fuel _ (pos + width) (drop width (c ∷ s))
      (omega (arith, length-drop width (c ∷ s)))
    ∙ append_assoc m.text (take width (c ∷ s)) (drop width (c ∷ s))
    ∙ ap (λ t. m.text ++ t) (take-append-drop width (c ∷ s))

-- A line, split off at its end.
pub line_of-drop : (s : Bytes) → line_of s ++ drop (length (line_of s)) s ≡ s
unfolding line_of
line_of-drop [] = refl
line_of-drop (c ∷ s) =
    if_cases (λ t. t ++ drop (length t) (c ∷ s) ≡ c ∷ s) (ends_line c) [] (c ∷ line_of s)
      (λ _. refl) (λ _. ap (◌∷◌ c) (line_of-drop s))

-- Bytes that end no line.
abbrev pub NoEnds : Bytes → Type 0
NoEnds [] = Unit
NoEnds (c ∷ s) = (ends_line c ≡ false) × NoEnds s

pub line_of-NoEnds : (s : Bytes) → NoEnds (line_of s)
unfolding line_of
line_of-NoEnds [] = tt
line_of-NoEnds (c ∷ s) =
    if_cases NoEnds (ends_line c) [] (c ∷ line_of s) (λ _. tt) (λ e. (e, line_of-NoEnds s))

-- What stands behind a line is nothing, or begins with its end.
abbrev pub AtEnd : Bytes → Type 0
AtEnd [] = Unit
AtEnd (c ∷ s) = ends_line c ≡ true

pub line_of-AtEnd : (s : Bytes) → AtEnd (drop (length (line_of s)) s)
unfolding line_of
line_of-AtEnd [] = tt
line_of-AtEnd (c ∷ s) =
    if_cases (λ t. AtEnd (drop (length t) (c ∷ s))) (ends_line c) [] (c ∷ line_of s) (λ e. e)
      (λ _. line_of-AtEnd s)

-- The normal form leaves bytes that end no line.
pub normalize-NoEnds : (s t : Bytes) → NoEnds s → normalize_to_lf (s ++ t) ≡ s ++ normalize_to_lf t
unfolding normalize_to_lf replace_cr
normalize-NoEnds [] t h = refl
normalize-NoEnds (c ∷ s) t (e, h) =
    let not_cr : (c == cr) ≡ false = ground arith in
    ap replace_cr (replace_crlf-cons c (s ++ t) (λ q. ground arith))
    ∙ ap₂ ◌∷◌ (if_false lf c not_cr) (normalize-NoEnds s t h)

-- The end of a line, of one byte or two, becomes a line feed.
end_is_lf : (c : ℕ) → ends_line c ≡ true → (if c == cr then lf else c) ≡ lf
end_is_lf c e = if_cases (λ x. x ≡ lf) (c == cr) lf c (λ _. refl) (λ f. ground arith)

by_width :
    (c d : ℕ) (s : Bytes) (b : Bool)
    → ends_line c ≡ true
    → replace_cr (if b then lf ∷ replace_crlf s else c ∷ replace_crlf (d ∷ s))
      ≡ lf ∷ normalize_to_lf (drop (if b then 2 else 1) (c ∷ d ∷ s))
unfolding normalize_to_lf replace_cr
by_width c d s true e = refl
by_width c d s false e = ap (λ x. x ∷ replace_cr (replace_crlf (d ∷ s))) (end_is_lf c e)

pub normalize-end :
    (c : ℕ) (s : Bytes)
    → ends_line c ≡ true
    → normalize_to_lf (c ∷ s) ≡ lf ∷ normalize_to_lf (drop (newline_width (c ∷ s)) (c ∷ s))
unfolding normalize_to_lf replace_cr replace_crlf
normalize-end c [] e = ap (λ x. x ∷ []) (end_is_lf c e)
normalize-end c (d ∷ s) e = by_width c d s (c == cr && d == lf) e

pub newline_width_positive : (c : ℕ) (s : Bytes) → (newline_width (c ∷ s) == 0) ≡ false
newline_width_positive c [] = refl
newline_width_positive c (d ∷ s) =
    if_cases (λ w. (w == 0) ≡ false) (c == cr && d == lf) 2 1 (λ _. refl) (λ _. refl)

-- What follows a line that has been mapped, if the lines behind it are mapped to their normal form.
behind_line :
    (fuel end : ℕ) (m : NormalizedTextMap) (behind : Bytes)
    → AtEnd behind
    → ((n : NormalizedTextMap) (t : Bytes)
        → length t < length behind
        → (map_lines fuel false n end t).text ≡ n.text ++ normalize_to_lf t)
    → (if newline_width behind == 0
        then m
        else map_lines fuel false
            (append_mapped m (lf ∷ []) end)
            end
            (drop (newline_width behind) behind)).text
      ≡ m.text ++ normalize_to_lf behind
behind_line fuel end m [] e next = unfold normalize_to_lf in sym (append-nil m.text)
behind_line fuel end m (c ∷ s) e next =
    let width = newline_width (c ∷ s) in
    let positive = newline_width_positive c s in
    ap (λ (n : NormalizedTextMap). n.text) (if_false m _ positive)
    ∙ next (append_mapped m (lf ∷ []) end) (drop width (c ∷ s))
        (ground (arith, length-drop width (c ∷ s)))
    ∙ append_assoc m.text (lf ∷ []) (normalize_to_lf (drop width (c ∷ s)))
    ∙ ap (λ t. m.text ++ t) (sym (normalize-end c s e))

-- The text of an exact match is the normal form of the lines.
exact_lines :
    (fuel : ℕ) (m : NormalizedTextMap) (offset : ℕ) (s : Bytes)
    → length s ≤ fuel
    → (map_lines fuel false m offset s).text ≡ m.text ++ normalize_to_lf s
unfolding map_lines
exact_lines zero m offset [] h = unfold normalize_to_lf in sym (append-nil m.text)
exact_lines zero m offset (c ∷ s) h = absurd (omega arith)
exact_lines (suc fuel) m offset [] h = unfold normalize_to_lf in sym (append-nil m.text)
exact_lines (suc fuel) m offset (c ∷ s) h =
    let line = line_of (c ∷ s) in
    let behind = drop (length line) (c ∷ s) in
    let mapped = map_runes (length line) false m offset line in
    behind_line fuel (offset + length line + newline_width behind) mapped behind
      (line_of-AtEnd (c ∷ s))
      (λ n t lt. exact_lines fuel n _ t (omega (arith, length-drop (length line) (c ∷ s))))
    ∙ ap (λ t. t ++ normalize_to_lf behind)
        (map_runes-exact (length line) m offset line (omega arith))
    ∙ append_assoc m.text line (normalize_to_lf behind)
    ∙ ap (λ t. m.text ++ t)
        (sym (normalize-NoEnds line behind (line_of-NoEnds (c ∷ s)))
          ∙ ap normalize_to_lf (line_of-drop (c ∷ s)))

-- Without fuzzy matching, a text is mapped to its form with line feeds for line ends.
pub map_normalized_text-exact : (s : Bytes) → (map_normalized_text s false).text ≡ normalize_to_lf s
unfolding map_normalized_text
map_normalized_text-exact s = exact_lines (length s) _ 0 s (le_refl (length s))

trimmed-le :
    (p : ℕ → Bool) (c n : ℕ) (rest : Bytes)
    → length rest ≤ n
    → length (elim rest [ [] ↦ (if p c then [] else c ∷ []) | x ∷ xs ↦ c ∷ x ∷ xs ]) ≤ suc n
trimmed-le p c n [] h =
    if_cases (λ t. length t ≤ suc n) (p c) [] (c ∷ []) (λ _. omega arith) (λ _. omega arith)
trimmed-le p c n (x ∷ xs) h = omega arith

trim_right-le : (p : ℕ → Bool) (s : Bytes) → length (trim_right p s) ≤ length s
unfolding trim_right
trim_right-le p [] = omega arith
trim_right-le p (c ∷ s) = trimmed-le p c (length s) (trim_right p s) (trim_right-le p s)

content_of-le : (fuzzy : Bool) (line : Bytes) → length (content_of fuzzy line) ≤ length line
content_of-le true line = trim_right-le is_blank line
content_of-le false line = le_refl (length line)

-- A mapped line and its end stay within the input.
map_line-Bounded :
    (fuzzy : Bool) (m : NormalizedTextMap) (offset : ℕ) (line : Bytes)
    → Bounded m offset
    → Bounded (map_line fuzzy m offset line) (offset + length line)
map_line-Bounded fuzzy m offset line b =
    let content = content_of fuzzy line in
    let le = content_of-le fuzzy line in
    let runes = map_runes (length content) fuzzy m offset content in
    let (l, a) =
      map_runes-Bounded (length content) fuzzy m offset (offset + length content) content
        (omega arith) b in
    if_cases (λ r. Bounded r (offset + length line)) _ _ runes
      (λ _. (
        length-set_last runes.boundaries (offset + length line) ∙ l,
        set_last-Ascending 0 (offset + length content) (offset + length line) runes.boundaries
            (omega arith) a,
      ))
      (λ _.
        Bounded-weaken runes (offset + length content) (offset + length line) (omega arith) (l, a))

newline_width_le : (s : Bytes) → newline_width s ≤ length s
newline_width_le [] = omega arith
newline_width_le (c ∷ []) = omega arith
newline_width_le (c ∷ d ∷ s) =
    if_cases (λ w. w ≤ suc (suc (length s))) (c == cr && d == lf) 2 1 (λ _. omega arith)
      (λ _. omega arith)

map_lines-Bounded :
    (fuel : ℕ) (fuzzy : Bool) (m : NormalizedTextMap) (offset hi : ℕ) (s : Bytes)
    → offset + length s ≤ hi
    → Bounded m offset
    → Bounded (map_lines fuel fuzzy m offset s) hi
unfolding map_lines
map_lines-Bounded zero fuzzy m offset hi s h b = Bounded-weaken m offset hi (omega arith) b
map_lines-Bounded (suc fuel) fuzzy m offset hi [] h b = Bounded-weaken m offset hi (omega arith) b
map_lines-Bounded (suc fuel) fuzzy m offset hi (c ∷ s) h b =
    let line = line_of (c ∷ s) in
    let behind = drop (length line) (c ∷ s) in
    let mapped = map_line fuzzy m offset line in
    let b' = map_line-Bounded fuzzy m offset line b in
    let fits : offset
          + length line
          + newline_width behind
          + length (drop (newline_width behind) behind)
        ≤ hi =
      omega (
        arith,
        newline_width_le behind,
        length-drop (newline_width behind) behind,
        length-append line behind,
        ap length (line_of-drop (c ∷ s)),
      ) in
    if_cases (λ r. Bounded r hi) (newline_width behind == 0) _ _
      (λ _. Bounded-weaken mapped (offset + length line) hi (omega arith) b')
      (λ _.
        map_lines-Bounded fuel fuzzy _ _ hi (drop (newline_width behind) behind) fits
          (append-Bounded mapped (lf ∷ []) (offset + length line) _ (omega arith) b'))

-- The map of a text has a boundary in front of its text and one behind every byte; the boundaries do not
-- fall and lie in the input.
pub map_normalized_text-Bounded :
    (s : Bytes) (fuzzy : Bool) → Bounded (map_normalized_text s fuzzy) (length s)
unfolding map_normalized_text
map_normalized_text-Bounded s fuzzy =
    map_lines-Bounded (length s) fuzzy _ 0 (length s) s (omega arith)
      (refl, (omega arith, omega arith))

-- ===== src/Normalize.antt =====
-- internal/jinn/normalize.go: byte order mark, line endings, and the normal form in which the edit
-- tools match text. The proofs are in `Endings`.
pub mod Endings
use jinn.Base.{
  ℕ, suc, ◌+◌, Bool, true, false, ◌&&◌, ◌||◌, Option, none, some, List, [], ◌∷◌, ◌++◌, map, Bytes,
  codes, bytes_eq, has_prefix, drop, take, split, join, trim_right, runes, encode_rune, ltb, leb,
  ◌==◌, if◌then◌else◌,
}
use mathlib.Core.Option

abbrev pub lf : ℕ
lf = 10

abbrev pub cr : ℕ
cr = 13

abbrev byte_order_mark : Bytes
byte_order_mark = 0xef ∷ 0xbb ∷ 0xbf ∷ []

-- The rest, and the mark.
unfoldable pub strip_bom : Bytes → Bytes × Bytes
unfolding has_prefix
strip_bom s = if has_prefix s byte_order_mark then (drop 3 s, take 3 s) else (s, [])

-- strings.Index; `none` is -1.
unfoldable pub index : Bytes → Bytes → Option ℕ
unfolding has_prefix
index [] sub = if has_prefix [] sub then some 0 else none
index (c ∷ s) sub =
    let later = Option.map suc (index s sub) in if has_prefix (c ∷ s) sub then some 0 else later

abbrev pub crlf : Bytes
crlf = cr ∷ lf ∷ []

-- The two tests of detectLineEnding, on the positions of "\r\n" and of "\n".
unfoldable pub ending_at : Option ℕ → Option ℕ → Bytes
ending_at (some at_crlf) (some at_lf) = if ltb at_crlf at_lf then crlf else lf ∷ []
ending_at _ _ = lf ∷ []

unfoldable pub detect_line_ending : Bytes → Bytes
unfolding index ending_at
detect_line_ending s = ending_at (index s crlf) (index s (lf ∷ []))

-- strings.ReplaceAll(s, "\r\n", "\n")
unfoldable pub replace_crlf : Bytes → Bytes
replace_crlf [] = []
replace_crlf (c ∷ []) = c ∷ []
replace_crlf (c ∷ d ∷ s) =
    let pair = lf ∷ replace_crlf s in
    let single = c ∷ replace_crlf (d ∷ s) in if c == cr && d == lf then pair else single

-- strings.ReplaceAll(s, "\r", "\n")
unfoldable pub replace_cr : Bytes → Bytes
replace_cr [] = []
replace_cr (c ∷ s) = (if c == cr then lf else c) ∷ replace_cr s

unfoldable pub normalize_to_lf : Bytes → Bytes
unfolding replace_crlf replace_cr
normalize_to_lf s = replace_cr (replace_crlf s)

-- strings.ReplaceAll(s, "\n", "\r\n")
unfoldable pub replace_lf : Bytes → Bytes
replace_lf [] = []
replace_lf (c ∷ s) = (if c == lf then crlf else c ∷ []) ++ replace_lf s

unfoldable pub restore_line_endings : Bytes → Bytes → Bytes
unfolding replace_lf bytes_eq
restore_line_endings s ending = if bytes_eq ending crlf then replace_lf s else s

-- The table runeASCIIMap and the range of spaces; `none` if the rune is written as it is.
unfoldable pub normalize_rune : ℕ → Option ℕ
normalize_rune r =
    if leb 0x2018 r && leb r 0x201b
    then some b'\''
    else if leb 0x201c r && leb r 0x201f
    then some b'"'
    else if (leb 0x2010 r && leb r 0x2015) || r == 0x2212
    then some b'-'
    else if r == 0xa0 || r == 0x202f || r == 0x205f || r == 0x3000
    then some b' '
    else if leb 0x2002 r && leb r 0x200a
    then some b' '
    else none

abbrev pub is_blank : ℕ → Bool
is_blank c = c == b' ' || c == b'\t'

write_normal : List ℕ → Bytes
unfolding normalize_rune encode_rune
write_normal [] = []
write_normal (r ∷ rs) =
    let rest = write_normal rs in
    elim (normalize_rune r) [ some ascii ↦ ascii ∷ rest | none ↦ encode_rune r ++ rest ]

unfoldable pub normalize_for_fuzzy_match : Bytes → Bytes
unfolding write_normal split join trim_right runes
normalize_for_fuzzy_match s =
    write_normal (runes (join lf (map (trim_right is_blank) (split lf s))))

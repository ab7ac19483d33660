-- ===== src/Patch/Apply.antt =====
-- internal/jinn/patch_apply.go: the hunks of an update are found in the file's lines, and then
-- replaced from the last to the first.
use jinn.Base.{
  drop_last, ends_empty, ℕ, zero, suc, ◌+◌, ◌-◌, Bool, true, false, ◌&&◌, ◌||◌, Option, none, some,
  List, [], ◌∷◌, ◌++◌, map, Bytes, bytes_eq, length, drop, take, get_elem?, trim_right, trim_space,
  ltb, leb, ◌==◌, if◌then◌else◌,
}
use jinn.Normalize.{
  lf, cr, crlf, is_blank, strip_bom, detect_line_ending, normalize_for_fuzzy_match,
}
use jinn.Patch.{UpdateChunk}

-- What the update ends in: a value, an error with the text that its message quotes, or an index or a
-- slice out of range.
pub data ApplyError : Type 0 where
  context_not_found : Bytes → ApplyError
  lines_not_found : List Bytes → ApplyError

pub data Outcome {ℓ} (A : Type ℓ) : Type ℓ where
  ok : A → Outcome A
  err : ApplyError → Outcome A
  panic : Outcome A

infixl 5 ◌>>=◌
abbrev pub ◌>>=◌ {ℓ κ} : {A : Type ℓ} {B : Type κ} → Outcome A → (A → Outcome B) → Outcome B
ok a >>= f = f a
err e >>= f = err e
panic >>= f = panic

pub record LineReplacement : Type 0 where
  pub start : ℕ
  pub old_len : ℕ
  pub new_seg : List Bytes

pub record LineRecord : Type 0 where
  pub text : Bytes
  pub ending : Bytes

-- The text up to the next line feed or carriage return, and the rest.
unfoldable pub line_end : Bytes → Bytes × Bytes
line_end [] = ([], [])
line_end (c ∷ s) =
    let (text, rest) = line_end s in if c == lf || c == cr then ([], c ∷ s) else (c ∷ text, rest)

-- The ending at the front, and the rest.
unfoldable pub take_ending : Bytes → Bytes × Bytes
take_ending [] = ([], [])
take_ending (c ∷ []) = (c ∷ [], [])
take_ending (c ∷ d ∷ s) = if c == cr && d == lf then (crlf, s) else (c ∷ [], d ∷ s)

-- Every round takes at least one byte.
unfoldable pub records_within : ℕ → Bytes → List LineRecord
unfolding line_end take_ending
records_within fuel [] = []
records_within zero (c ∷ s) = []
records_within (suc fuel) (c ∷ s) =
    let (text, at_end) = line_end (c ∷ s) in
    let (ending, next) = take_ending at_end in
    record { text = text; ending = ending } ∷ records_within fuel next

unfoldable pub split_line_records : Bytes → List LineRecord
unfolding records_within
split_line_records raw = records_within (length raw) raw

abbrev pub Eq : Type 0
Eq = Bytes → Bytes → Bool

-- The four passes: exact, without trailing blanks, without white space, and in normal form.
abbrev pub passes : List Eq
passes =
    bytes_eq
    ∷ (λ a b. bytes_eq (trim_right is_blank a) (trim_right is_blank b))
    ∷ (λ a b. bytes_eq (trim_space a) (trim_space b))
    ∷ (λ a b. bytes_eq (normalize_for_fuzzy_match a) (normalize_for_fuzzy_match b))
    ∷ []

-- The inner loop: every line of the pattern equals the line at its place.
unfoldable pub matches_at : Eq → List Bytes → List Bytes → Bool
matches_at eq lines [] = true
matches_at eq [] (p ∷ pattern) = false
matches_at eq (l ∷ lines) (p ∷ pattern) = eq l p && matches_at eq lines pattern

-- The middle loop, for `rounds` indices from i on.
unfoldable pub first_match : Eq → List Bytes → List Bytes → ℕ → ℕ → Option ℕ
unfolding matches_at
first_match eq lines pattern zero i = none
first_match eq lines pattern (suc rounds) i =
    let later = first_match eq lines pattern rounds (i + 1) in
    if matches_at eq (drop i lines) pattern then some i else later

-- The outer loop.
unfoldable pub first_pass : List Eq → List Bytes → List Bytes → ℕ → ℕ → Option ℕ
unfolding first_match
first_pass [] lines pattern rounds start = none
first_pass (eq ∷ eqs) lines pattern rounds start =
    elim (first_match eq lines pattern rounds start) [
      | some i ↦ some i
      | none ↦ first_pass eqs lines pattern rounds start
    ]

-- seekSequence, with its passes as an argument; `none` is -1.
unfoldable pub seek_by : List Eq → List Bytes → List Bytes → ℕ → Bool → Option ℕ
unfolding first_pass
seek_by eqs lines [] start eof = some start
seek_by eqs lines (p ∷ pattern) start eof =
    let last = length lines - length (p ∷ pattern) in
    let search_start = if eof then last else start in
    if ltb (length lines) (length (p ∷ pattern))
    then none
    else first_pass eqs lines (p ∷ pattern) (last + 1 - search_start) search_start

unfoldable pub seek_sequence : List Bytes → List Bytes → ℕ → Bool → Option ℕ
unfolding seek_by bytes_eq trim_right trim_space normalize_for_fuzzy_match
seek_sequence = seek_by passes

abbrev pub Resolved : Type 0
Resolved = Outcome (LineReplacement × ℕ)

abbrev pub found_at : ℕ → List Bytes → List Bytes → Resolved
found_at i pattern new_slice =
    ok (record { start = i; old_len = length pattern; new_seg = new_slice }, i + length pattern)

-- The second search of resolveChunk: without the empty line at the end of the pattern.
abbrev pub resolve_shorter : List Bytes → UpdateChunk → ℕ → Resolved
resolve_shorter lines chunk line_index =
    let pattern = drop_last chunk.old_lines in
    let new_slice =
      if ends_empty chunk.new_lines then drop_last chunk.new_lines else chunk.new_lines in
    elim (seek_sequence lines pattern line_index chunk.is_eof) [
      | some i ↦ found_at i pattern new_slice
      | none ↦ err (lines_not_found chunk.old_lines)
    ]

-- resolveChunk behind its search for the context.
unfoldable pub resolve_lines : List Bytes → UpdateChunk → ℕ → Resolved
unfolding seek_sequence ends_empty drop_last
resolve_lines lines chunk line_index =
    let shorter = resolve_shorter lines chunk line_index in
    let searched : Resolved = elim (seek_sequence lines chunk.old_lines line_index chunk.is_eof) [
      | some i ↦ found_at i chunk.old_lines chunk.new_lines
      | none ↦
          (if ends_empty chunk.old_lines then shorter else err (lines_not_found chunk.old_lines))
    ] in
    if length chunk.old_lines == 0
    then ok (record { start = length lines; old_len = 0; new_seg = chunk.new_lines }, line_index)
    else searched

unfoldable pub resolve_chunk : List Bytes → UpdateChunk → ℕ → Resolved
unfolding resolve_lines
resolve_chunk lines chunk line_index =
    let at_context : Resolved = elim (seek_sequence lines (chunk.context ∷ []) line_index false) [
      | some i ↦ resolve_lines lines chunk i
      | none ↦ err (context_not_found chunk.context)
    ] in
    if bytes_eq chunk.context [] then resolve_lines lines chunk line_index else at_context

-- The first loop of deriveUpdatedContent.
unfoldable pub resolve_chunks : List Bytes → List UpdateChunk → ℕ → Outcome (List LineReplacement)
resolve_chunks lines [] line_index = ok []
resolve_chunks lines (chunk ∷ chunks) line_index = do
  (r, next_index) ← resolve_chunk lines chunk line_index
  rs ← resolve_chunks lines chunks next_index
  ok (r ∷ rs)

-- The ending of record i, or "" where there is no such record.
abbrev ending_of : List LineRecord → ℕ → Bytes
ending_of records i = elim (get_elem? records i) [ none ↦ [] | some r ↦ r.ending ]

abbrev pub or_else : Bytes → Bytes → Bytes
or_else [] t = t
or_else (c ∷ s) t = c ∷ s

-- The new records: each with the line ending `ending`, the last one with `last_ending` if there is one.
unfoldable pub new_records : List Bytes → Bytes → Bytes → List LineRecord
new_records [] ending last_ending = []
new_records (t ∷ []) ending last_ending =
    record { text = t; ending = or_else last_ending ending } ∷ []
new_records (t ∷ u ∷ ts) ending last_ending =
    record { text = t; ending = ending } ∷ new_records (u ∷ ts) ending last_ending

-- Gives record i the line ending `ending` if it has none.
unfoldable pub end_line : List LineRecord → ℕ → Bytes → List LineRecord
end_line [] i ending = []
end_line (r ∷ records) zero ending = record r { ending = or_else r.ending ending } ∷ records
end_line (r ∷ records) (suc i) ending = r ∷ end_line records i ending

-- The records that a round puts in, and the line ending that it uses.
unfoldable pub ending_for : Bytes → List LineRecord → LineReplacement → Bytes
ending_for default_ending records r = or_else (ending_of records r.start) default_ending

unfoldable pub added_records : Bytes → List LineRecord → LineReplacement → List LineRecord
unfolding new_records ending_for
added_records default_ending records r =
    new_records r.new_seg (ending_for default_ending records r)
      (if ltb 0 r.old_len then ending_of records (r.start + r.old_len - 1) else [])

-- Lines are put in, none are taken out, and a record stands before them.
unfoldable pub follows_line : LineReplacement → List LineRecord → Bool
follows_line r added = r.old_len == 0 && ltb 0 r.start && ltb 0 (length added)

-- One round of the second loop.
unfoldable pub apply_replacement :
    Bytes → List LineRecord → LineReplacement → Outcome (List LineRecord)
unfolding added_records ending_for end_line follows_line
apply_replacement default_ending records r =
    let added = added_records default_ending records r in
    let records' =
      if follows_line r added
      then end_line records (r.start - 1) (ending_for default_ending records r)
      else records in
    if follows_line r added && leb (length records) (r.start - 1)
    then panic
    else if ltb (length records) (r.start + r.old_len)
    then panic
    else ok (take r.start records' ++ (added ++ drop (r.start + r.old_len) records'))

-- The second loop: the last replacement first.
unfoldable pub apply_replacements :
    Bytes → List LineRecord → List LineReplacement → Outcome (List LineRecord)
apply_replacements default_ending records [] = ok records
apply_replacements default_ending records (r ∷ rs) = do
  records' ← apply_replacements default_ending records rs
  apply_replacement default_ending records' r

abbrev pub texts : List LineRecord → List Bytes
texts = map (λ r. r.text)

-- The text that the records spell.
unfoldable pub spell : List LineRecord → Bytes
spell [] = []
spell (r ∷ records) = r.text ++ (r.ending ++ spell records)

unfoldable pub derive_updated_content : Bytes → List UpdateChunk → Outcome Bytes
unfolding strip_bom detect_line_ending split_line_records resolve_chunks resolve_chunk
    apply_replacements apply_replacement spell
derive_updated_content content chunks = do
  let raw = (strip_bom content).0
  let records = split_line_records raw
  replacements ← resolve_chunks (texts records) chunks 0
  records' ← apply_replacements (detect_line_ending raw) records replacements
  ok ((strip_bom content).1 ++ spell records')

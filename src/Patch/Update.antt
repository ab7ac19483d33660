-- ===== src/Patch/Update.antt =====
-- The hunks of an update, resolved in order and carried out.
use jinn.Base.{
  drop_last, ends_empty, ℕ, ◌+◌, ◌≤◌, ◌<◌, ◌≡◌, ◌⊎◌, true, false, none, some, List, [], ◌∷◌, Bytes,
  length, if◌then◌else◌,
}
use jinn.Patch.{UpdateChunk}
use jinn.Patch.Apply.{LineReplacement, seek_sequence}

-- A hunk that replaces or surrounds lines, and is not tied to the end of the file.
abbrev pub Anchored : UpdateChunk → Type 0
Anchored chunk = (0 < length chunk.old_lines) × (chunk.is_eof ≡ false)

abbrev pub AllAnchored : List UpdateChunk → Type 0
AllAnchored [] = Unit
AllAnchored (chunk ∷ chunks) = Anchored chunk × AllAnchored chunks

-- What a resolved hunk promises to the next one.
abbrev Advances : List Bytes → ℕ → LineReplacement → ℕ → Type 0
Advances lines line_index r next =
    (line_index ≤ r.start) × (next ≡ r.start + r.old_len) × (next ≤ length lines)

-- The lines of a replacement: a pattern, found by the search from line `from` on, and what stands for it.
abbrev pub Found : List Bytes → List Bytes → List Bytes → ℕ → LineReplacement → Type 0
Found lines pattern new_lines from r =
    (seek_sequence lines pattern from false ≡ some r.start)
    × (r.old_len ≡ length pattern)
    × (r.new_seg ≡ new_lines)

-- The lines without an empty one at the end.
abbrev pub without_empty : List Bytes → List Bytes
without_empty ls = if ends_empty ls then drop_last ls else ls

-- A hunk found from a line on: its old lines are, or, where these are not found and end in an empty line,
-- its old and new lines without that one.
abbrev pub FoundHunk : List Bytes → UpdateChunk → ℕ → LineReplacement → Type 0
FoundHunk lines chunk from r =
    Found lines chunk.old_lines chunk.new_lines from r
    ⊎ ((seek_sequence lines chunk.old_lines from false ≡ none)
        × (ends_empty chunk.old_lines ≡ true)
        × Found lines (drop_last chunk.old_lines) (without_empty chunk.new_lines) from r)

-- A replacement carries out a hunk: its lines are searched from the line of the hunk's context on, which is
-- searched from `line_index` on, or, without a context, from there.
abbrev pub CarriesOut : List Bytes → UpdateChunk → ℕ → LineReplacement → Type 0
CarriesOut lines chunk line_index r =
    ((chunk.context ≡ []) × FoundHunk lines chunk line_index r)
    ⊎ ((from : ℕ) × (seek_sequence lines (chunk.context ∷ []) line_index false ≡ some from)
        × FoundHunk lines chunk from r)

-- The replacements carry out the hunks one by one, each searched behind the one before.
abbrev pub AllCarriedOut : List Bytes → List UpdateChunk → ℕ → List LineReplacement → Type 0
AllCarriedOut lines [] line_index [] = Unit
AllCarriedOut lines (chunk ∷ chunks) line_index (r ∷ rs) =
    CarriesOut lines chunk line_index r × AllCarriedOut lines chunks (r.start + r.old_len) rs
AllCarriedOut lines _ line_index _ = ⊥

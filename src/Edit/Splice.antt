-- ===== src/Edit/Splice.antt =====
-- What an edit changes.
use jinn.Base.{
  ℕ, ◌+◌, ◌<◌, ◌≡◌, ◌⊎◌, Bool, true, false, Option, some, [], ◌++◌, Bytes, length, take, get_elem?,
}
use mathlib.Core.Option
use jinn.Normalize.{index, normalize_to_lf, restore_line_endings}
use jinn.Edit.{
  all_blank, last_line, match_leading_indent, NormalizedTextMap, map_normalized_text, count_of,
  ending_of, EditResult, not_found, panicked, many_matches, applied,
}
use jinn.Edit.Aligned.{Aligned}
use jinn.Edit.Indent.{MovedTo}

-- Where a boundary lies in the text: exactly, if the match is exact.
abbrev pub Placed : Bytes → Bool → ℕ → ℕ → Type 0
Placed raw false i b = Aligned raw i b
Placed raw true i b = get_elem? (map_normalized_text raw true).boundaries i ≡ some b

-- A text with one region exchanged, the one of a match from index i to index j of the normal form: what
-- stands in front of the region and behind it stays.
abbrev pub Exchanged : Bytes → Bytes → Bool → ℕ → ℕ → Bytes → Bytes → Type 0
Exchanged raw bom fuzzy i j new_text updated =
    (before : Bytes) × (region : Bytes) × (after : Bytes) × (raw ≡ before ++ (region ++ after))
    × Placed raw fuzzy i (length before)
    × Placed raw fuzzy j (length before + length region)
    × (updated ≡ bom ++ (before ++ (restore_line_endings new_text (ending_of raw region) ++ after)))

-- The new text as it is written: with line feeds, and as it is, or with its lines moved to the indentation
-- of the line of the match, if that is asked for and only blanks stand in front of the match on its line.
abbrev pub NewText : Bytes → Bool → Bytes → ℕ → Bytes → Type 0
NewText new_text fuzzy_indent text idx written =
    (written ≡ normalize_to_lf new_text)
    ⊎ ((fuzzy_indent ≡ true)
        × (all_blank (last_line [] (take idx text)) ≡ true)
        × MovedTo (match_leading_indent text idx) (normalize_to_lf new_text) written)

-- What the outcome of an edit says, for the normal form that was searched last.
abbrev pub SearchedIn : Bytes → Bytes → Bool → Bytes → Bytes → Bytes → Bool → EditResult → Type 0
SearchedIn bom raw loose text match_text new_text fuzzy_indent not_found =
    count_of text match_text ≡ 0
SearchedIn bom raw loose text match_text new_text fuzzy_indent panicked = ⊥
SearchedIn bom raw loose text match_text new_text fuzzy_indent (many_matches n) =
    (1 < n) × (count_of text match_text ≡ n)
SearchedIn bom raw loose text match_text new_text fuzzy_indent (applied updated fuzzy first last) =
    (count_of text match_text ≡ 1)
    × (fuzzy ≡ loose)
    × (idx : ℕ) × (index text match_text ≡ some idx)
    × (written : Bytes) × NewText new_text fuzzy_indent text idx written
    × Exchanged raw bom loose idx (idx + length match_text) written updated

module _ (bom raw match_text new_text : Bytes) (fuzzy fuzzy_indent : Bool) where
  abbrev searched : NormalizedTextMap
  searched = map_normalized_text raw fuzzy

  abbrev Searched : EditResult → Type 0
  Searched = SearchedIn bom raw fuzzy searched.text match_text new_text fuzzy_indent

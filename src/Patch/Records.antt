-- ===== src/Patch/Records.antt =====
-- A file's text and its line records.
use jinn.Base.{
  ℕ, zero, suc, ◌≤◌, ◌≡◌, refl, ap, ◌∙◌, ◌||◌, [], ◌∷◌, ◌++◌, Bytes, length, ◌==◌, Bool-cases, inl,
  inr, arith,
}
use native.Mathlib.Nat.{le_refl, le_trans}
use jinn.Normalize.{lf, cr}
use jinn.Patch.Apply.{line_end, take_ending, records_within, split_line_records, spell}

line_end_whole : (s : Bytes) → (line_end s).0 ++ (line_end s).1 ≡ s
unfolding line_end
line_end_whole [] = refl
line_end_whole (c ∷ s) = ground (arith, line_end_whole s)

take_ending_whole : (s : Bytes) → (take_ending s).0 ++ (take_ending s).1 ≡ s
unfolding take_ending
take_ending_whole [] = refl
take_ending_whole (c ∷ []) = refl
take_ending_whole (c ∷ d ∷ s) = ground arith

length-line_end : (s : Bytes) → length (line_end s).1 ≤ length s
unfolding line_end
length-line_end [] = omega arith
length-line_end (c ∷ s) = ground (arith, length-line_end s)

length-take_ending : (c : ℕ) (s : Bytes) → length (take_ending (c ∷ s)).1 ≤ length s
unfolding take_ending
length-take_ending c [] = omega arith
length-take_ending c (d ∷ s) = ground arith

length-take_ending_le : (s : Bytes) → length (take_ending s).1 ≤ length s
length-take_ending_le [] = unfold take_ending in omega arith
length-take_ending_le (c ∷ s) = omega (arith, length-take_ending c s)

-- A round takes a byte: one of the text, or one of the ending.
round_shorter : (c : ℕ) (s : Bytes) → length (take_ending (line_end (c ∷ s)).1).1 ≤ length s
unfolding line_end
round_shorter c s = elim (Bool-cases (c == lf || c == cr)) [
  | inl e ↦ rw e (length-take_ending c s)
  | inr o ↦ rw o (le_trans (length-take_ending_le (line_end s).1) (length-line_end s))
]

spell-records_within : (fuel : ℕ) (s : Bytes) → length s ≤ fuel → spell (records_within fuel s) ≡ s
unfolding records_within spell
spell-records_within fuel [] h = refl
spell-records_within zero (c ∷ s) h = absurd (omega arith)
spell-records_within (suc fuel) (c ∷ s) h =
    ap (λ t. (line_end (c ∷ s)).0 ++ ((take_ending (line_end (c ∷ s)).1).0 ++ t))
      (spell-records_within fuel _ (omega (arith, round_shorter c s)))
    ∙ ap (λ t. (line_end (c ∷ s)).0 ++ t) (take_ending_whole (line_end (c ∷ s)).1)
    ∙ line_end_whole (c ∷ s)

-- No byte of the file is lost: its line records, each text with its ending, spell it.
pub spell-split_line_records : (raw : Bytes) → spell (split_line_records raw) ≡ raw
unfolding split_line_records
spell-split_line_records raw = spell-records_within (length raw) raw (le_refl _)

-- ===== src/Patch/Splice.antt =====
-- The replacements of an update, applied from the last to the first, splice the new lines into the old
-- ones from the first to the last.
use mathlib.Core.List.{map-append}
use jinn.Base.{
  ℕ, zero, suc, ◌+◌, ◌-◌, ◌≤◌, ◌<◌, ◌≡◌, refl, ap, sym, ◌∙◌, Bool, true, false, List, [], ◌∷◌, ◌++◌,
  append_assoc, Bytes, length, length-append, length-take, take-append-drop, take-append, take-take,
  drop-append, drop-drop, take-take-drop, take, drop, if◌then◌else◌, arith,
}
use jinn.Patch.Endings.{Ended, round-Ended}
use jinn.Patch.Apply.{
  ok, LineReplacement, LineRecord, new_records, end_line, ending_for, added_records, follows_line,
  apply_replacement, apply_replacements, texts,
}

-- The replacements stand in order from line `at` on, within `high` lines, and do not overlap.
abbrev pub InOrder : ℕ → ℕ → List LineReplacement → Type 0
InOrder at high [] = at ≤ high
InOrder at high (r ∷ rs) = (at ≤ r.start) × InOrder (r.start + r.old_len) high rs

InOrder-le : (at high : ℕ) (rs : List LineReplacement) → InOrder at high rs → at ≤ high
InOrder-le at high [] h = h
InOrder-le at high (r ∷ rs) (a, b) = omega (arith, InOrder-le (r.start + r.old_len) high rs b)

-- The lines from line `at` on, with the replacements made.
abbrev pub splice : ℕ → List Bytes → List LineReplacement → List Bytes
splice at lines [] = lines
splice at lines (r ∷ rs) =
    take (r.start - at) lines
    ++ (r.new_seg ++ splice (r.start + r.old_len) (drop (r.start + r.old_len - at) lines) rs)

texts-take : (n : ℕ) (rs : List LineRecord) → texts (take n rs) ≡ take n (texts rs)
texts-take zero rs = refl
texts-take (suc n) [] = refl
texts-take (suc n) (r ∷ rs) = ap (◌∷◌ r.text) (texts-take n rs)

texts-drop : (n : ℕ) (rs : List LineRecord) → texts (drop n rs) ≡ drop n (texts rs)
texts-drop zero rs = refl
texts-drop (suc n) [] = refl
texts-drop (suc n) (r ∷ rs) = texts-drop n rs

texts-end_line :
    (rs : List LineRecord) (i : ℕ) (ending : Bytes) → texts (end_line rs i ending) ≡ texts rs
unfolding end_line
texts-end_line [] i ending = refl
texts-end_line (r ∷ rs) zero ending = refl
texts-end_line (r ∷ rs) (suc i) ending = ap (◌∷◌ r.text) (texts-end_line rs i ending)

texts-new_records :
    (ls : List Bytes) (ending last : Bytes) → texts (new_records ls ending last) ≡ ls
unfolding new_records
texts-new_records [] ending last = refl
texts-new_records (l ∷ []) ending last = refl
texts-new_records (l ∷ m ∷ ls) ending last = ap (◌∷◌ l) (texts-new_records (m ∷ ls) ending last)

pub length-texts : (rs : List LineRecord) → length (texts rs) ≡ length rs
length-texts [] = refl
length-texts (r ∷ rs) = ap suc (length-texts rs)

module _ (d : Bytes) (records : List LineRecord) (r : LineReplacement) where
  -- The records of a round whose tests are settled.
  spliced : Bool → List LineRecord
  spliced follows =
      let records' =
        if follows then end_line records (r.start - 1) (ending_for d records r) else records in
      take r.start records' ++ (added_records d records r ++ drop (r.start + r.old_len) records')

  apply_replacement-ok :
      r.start + r.old_len ≤ length records
      → apply_replacement d records r ≡ ok (spliced (follows_line r (added_records d records r)))
  unfolding apply_replacement spliced
  apply_replacement-ok h = unfold follows_line in ground arith

  spliced-Ended :
      0 < length d
      → Ended records
      → r.start + r.old_len ≤ length records
      → Ended (spliced (follows_line r (added_records d records r)))
  unfolding spliced
  spliced-Ended p ended h = round-Ended d records r p ended h _ refl

  texts-added : texts (added_records d records r) ≡ r.new_seg
  unfolding added_records
  texts-added = texts-new_records r.new_seg _ _

  texts-around :
      (rs : List LineRecord)
      → texts rs ≡ texts records
      → texts (take r.start rs ++ (added_records d records r ++ drop (r.start + r.old_len) rs))
        ≡ take r.start (texts records) ++ (r.new_seg ++ drop (r.start + r.old_len) (texts records))
  texts-around rs e = simp (map-append, texts-take, texts-drop, texts-added, e)

  texts-spliced :
      (follows : Bool)
      → texts (spliced follows)
        ≡ take r.start (texts records) ++ (r.new_seg ++ drop (r.start + r.old_len) (texts records))
  unfolding spliced
  texts-spliced true =
      texts-around _ (texts-end_line records (r.start - 1) (ending_for d records r))
  texts-spliced false = texts-around records refl

-- Cutting at the range of `r` the lines that are replaced behind it.
module _ (lines behind : List Bytes) (r : LineReplacement)
    (fits : r.start + r.old_len ≤ length lines) where
  abbrev whole : List Bytes
  whole = take (r.start + r.old_len) lines ++ behind

  length-taken : length (take (r.start + r.old_len) lines) ≡ r.start + r.old_len
  length-taken = omega (arith, length-take (r.start + r.old_len) lines)

  take-whole : take r.start whole ≡ take r.start lines
  take-whole =
      take-append r.start (take (r.start + r.old_len) lines) behind (omega (arith, length-taken))
      ∙ take-take r.start (r.start + r.old_len) lines (omega arith)

  drop-whole : drop (r.start + r.old_len) whole ≡ behind
  drop-whole = drop-append _ (take (r.start + r.old_len) lines) behind length-taken

  length-whole : r.start + r.old_len ≤ length whole
  length-whole =
      omega (arith, length-taken, length-append (take (r.start + r.old_len) lines) behind)

rejoin :
    (at : ℕ) (lines behind : List Bytes) (r : LineReplacement)
    → at ≤ r.start
    → take r.start lines ++ (r.new_seg ++ behind)
      ≡ take at lines ++ (take (r.start - at) (drop at lines) ++ (r.new_seg ++ behind))
rejoin at lines behind r h =
    sym (
      ap (λ l. l ++ (r.new_seg ++ behind))
        (take-take-drop at (r.start - at) r.start lines (omega arith)))
    ∙ append_assoc (take at lines) _ _

-- In order, the replacements all succeed, and splice the new lines in; every line but the last keeps an
-- ending.
pub apply_replacements-texts :
    (d : Bytes) (records : List LineRecord) (at : ℕ) (rs : List LineReplacement)
    → 0 < length d
    → Ended records
    → InOrder at (length records) rs
    → (records' : List LineRecord) × (apply_replacements d records rs ≡ ok records')
      × (texts records' ≡ take at (texts records) ++ splice at (drop at (texts records)) rs)
      × Ended records'
unfolding apply_replacements
apply_replacements-texts d records at [] p ended h =
    (records, refl, sym (take-append-drop at (texts records)), ended)
apply_replacements-texts d records at (r ∷ rs) p ended (a, b) =
    let e = r.start + r.old_len in
    let lines = texts records in
    let behind = splice e (drop e lines) rs in
    let (mid, done, t, ended_mid) = apply_replacements-texts d records e rs p ended b in
    let fits : e ≤ length lines = omega (arith, InOrder-le e _ rs b, length-texts records) in
    let fits_mid : e ≤ length mid =
      omega (arith, length-whole lines behind r fits, ap length t, length-texts mid) in
    (
      spliced d mid r (follows_line r (added_records d mid r)),
      rw done (apply_replacement-ok d mid r fits_mid),
      texts-spliced d mid r (follows_line r (added_records d mid r))
          ∙ rw t (
              rw (take-whole lines behind r fits, drop-whole lines behind r fits)
                (rejoin at lines behind r a
                  ∙ ap
                      (λ l.
                        take at lines
                        ++ (take (r.start - at) (drop at lines) ++ (r.new_seg ++ splice e l rs)))
                      (sym (drop-drop (e - at) at e lines (omega arith))))),
      spliced-Ended d mid r p ended_mid fits_mid,
    )

-- ===== src/Patch/Endings.antt =====
-- The line endings of the records of an update.
use jinn.Base.{
  ℕ, zero, suc, ◌+◌, ◌-◌, ◌≤◌, ◌<◌, ◌≡◌, inl, inr, refl, ap, sym, ◌∙◌, subst, Bool, true, false,
  ◌&&◌, Bool-cases, if_cases, List, [], ◌∷◌, ◌++◌, append_assoc, Bytes, length, take, drop,
  take-append-drop, ltb, ◌==◌, if◌then◌else◌, arith,
}
use jinn.Normalize.{lf, cr, crlf, detect_line_ending}
use jinn.Normalize.Endings.{first_line_is_crlf, detect_line_ending_lem}
use jinn.Patch.Apply.{
  LineReplacement, LineRecord, or_else, new_records, end_line, ending_for, added_records,
  follows_line, line_end, take_ending, records_within, split_line_records, spell,
}

abbrev AllEnded : List LineRecord → Type 0
AllEnded [] = Unit
AllEnded (r ∷ rs) = (0 < length r.ending) × AllEnded rs

-- Every line but the last has an ending.
abbrev pub Ended : List LineRecord → Type 0
Ended [] = Unit
Ended (r ∷ []) = Unit
Ended (r ∷ s ∷ rs) = (0 < length r.ending) × Ended (s ∷ rs)

Ended-later : (r : LineRecord) (rs : List LineRecord) → Ended (r ∷ rs) → Ended rs
Ended-later r [] h = tt
Ended-later r (s ∷ rs) h = h.1

Ended-of_all : (rs : List LineRecord) → AllEnded rs → Ended rs
Ended-of_all [] h = tt
Ended-of_all (r ∷ []) h = tt
Ended-of_all (r ∷ s ∷ rs) (a, b) = (a, Ended-of_all (s ∷ rs) b)

Ended-append : (xs ys : List LineRecord) → AllEnded xs → Ended ys → Ended (xs ++ ys)
Ended-append [] ys a b = b
Ended-append (x ∷ []) [] a b = tt
Ended-append (x ∷ []) (y ∷ ys) (a, c) b = (a, b)
Ended-append (x ∷ z ∷ xs) ys (a, c) b = (a, Ended-append (z ∷ xs) ys c b)

Ended-drop : (n : ℕ) (rs : List LineRecord) → Ended rs → Ended (drop n rs)
Ended-drop zero rs h = h
Ended-drop (suc n) [] h = tt
Ended-drop (suc n) (r ∷ rs) h = Ended-drop n rs (Ended-later r rs h)

AllEnded-take : (n : ℕ) (rs : List LineRecord) → n < length rs → Ended rs → AllEnded (take n rs)
AllEnded-take zero rs h e = tt
AllEnded-take (suc n) [] h e = absurd (omega arith)
AllEnded-take (suc n) (r ∷ []) h e = absurd (omega arith)
AllEnded-take (suc n) (r ∷ s ∷ rs) h (a, b) = (a, AllEnded-take n (s ∷ rs) (omega arith) b)

AllEnded-take_all : (n : ℕ) (rs : List LineRecord) → AllEnded rs → AllEnded (take n rs)
AllEnded-take_all zero rs h = tt
AllEnded-take_all (suc n) [] h = tt
AllEnded-take_all (suc n) (r ∷ rs) (a, b) = (a, AllEnded-take_all n rs b)

or_else-positive : (s t : Bytes) → 0 < length t → 0 < length (or_else s t)
or_else-positive [] t h = h
or_else-positive (c ∷ s) t h = omega arith

or_else-kept : (s t : Bytes) → 0 < length s → 0 < length (or_else s t)
or_else-kept [] t h = absurd (omega arith)
or_else-kept (c ∷ s) t h = omega arith

length-end_line :
    (rs : List LineRecord) (i : ℕ) (ending : Bytes) → length (end_line rs i ending) ≡ length rs
unfolding end_line
length-end_line [] i ending = refl
length-end_line (r ∷ rs) zero ending = refl
length-end_line (r ∷ rs) (suc i) ending = ap suc (length-end_line rs i ending)

end_line-Ended :
    (rs : List LineRecord) (i : ℕ) (ending : Bytes) → Ended rs → Ended (end_line rs i ending)
unfolding end_line
end_line-Ended [] i ending h = tt
end_line-Ended (r ∷ []) zero ending h = tt
end_line-Ended (r ∷ []) (suc i) ending h = tt
end_line-Ended (r ∷ s ∷ rs) zero ending (a, b) = (or_else-kept r.ending ending a, b)
end_line-Ended (r ∷ s ∷ rs) (suc zero) ending (a, b) = (a, end_line-Ended (s ∷ rs) zero ending b)
end_line-Ended (r ∷ s ∷ rs) (suc (suc i)) ending (a, b) =
    (a, end_line-Ended (s ∷ rs) (suc i) ending b)

-- The last line gets an ending.
end_line-AllEnded :
    (rs : List LineRecord) (i : ℕ) (ending : Bytes)
    → suc i ≡ length rs
    → 0 < length ending
    → Ended rs
    → AllEnded (end_line rs i ending)
unfolding end_line
end_line-AllEnded [] i ending e h g = tt
end_line-AllEnded (r ∷ []) zero ending e h g = (or_else-positive r.ending ending h, tt)
end_line-AllEnded (r ∷ []) (suc i) ending e h g = absurd (omega arith)
end_line-AllEnded (r ∷ s ∷ rs) zero ending e h g = absurd (omega arith)
end_line-AllEnded (r ∷ s ∷ rs) (suc i) ending e h (a, b) =
    (a, end_line-AllEnded (s ∷ rs) i ending (omega arith) h b)

new_records-AllEnded :
    (ls : List Bytes) (ending last : Bytes)
    → 0 < length ending
    → AllEnded (new_records ls ending last)
unfolding new_records
new_records-AllEnded [] ending last h = tt
new_records-AllEnded (l ∷ []) ending last h = (or_else-positive last ending h, tt)
new_records-AllEnded (l ∷ m ∷ ls) ending last h = (h, new_records-AllEnded (m ∷ ls) ending last h)

of_length : {A : Type 0} (xs : List A) → length xs ≡ 0 → xs ≡ []
of_length [] e = refl
of_length (x ∷ xs) e = absurd (omega arith)

module _ (d : Bytes) (records : List LineRecord) (r : LineReplacement) (positive : 0 < length d)
    (ended : Ended records) (fits : r.start + r.old_len ≤ length records) where
  abbrev added : List LineRecord
  added = added_records d records r

  ending-positive : 0 < length (ending_for d records r)
  unfolding ending_for
  ending-positive = or_else-positive _ d positive

  added-AllEnded : AllEnded added
  unfolding added_records
  added-AllEnded = new_records-AllEnded r.new_seg _ _ ending-positive

  abbrev around : List LineRecord → List LineRecord
  around rs = take r.start rs ++ (added ++ drop (r.start + r.old_len) rs)

  around-Ended : (rs : List LineRecord) → AllEnded (take r.start rs) → Ended rs → Ended (around rs)
  around-Ended rs a e =
      Ended-append (take r.start rs) _ a
        (Ended-append added _ added-AllEnded (Ended-drop (r.start + r.old_len) rs e))

  -- A line that is put in behind the last one.
  at_end-Ended :
      (follows : Bool)
      → r.start ≡ length records
      → follows_line r added ≡ follows
      → Ended (
          around
            (if follows then end_line records (r.start - 1) (ending_for d records r) else records))
  unfolding follows_line
  at_end-Ended true s e =
      let k : suc (r.start - 1) ≡ length records = ground arith in
      let all =
        end_line-AllEnded records (r.start - 1) (ending_for d records r) k ending-positive ended in
      around-Ended _ (AllEnded-take_all r.start _ all) (Ended-of_all _ all)
  at_end-Ended false s e = elim (Bool-cases (ltb 0 (length added))) [
    | inl t ↦
        let z : length records ≡ 0 = ground arith in
        let nil = of_length records z in
        around-Ended records
          (subst (λ x. AllEnded (take r.start x)) (sym nil) (AllEnded-take_all r.start [] tt)) ended
    | inr f ↦
        let nil : added ≡ [] = of_length added (ground arith) in
        let q : r.start ≡ r.start + r.old_len = omega arith in
        subst (λ x. Ended (take r.start records ++ (x ++ drop (r.start + r.old_len) records)))
          (sym nil)
          (subst (λ n. Ended (take r.start records ++ drop n records)) q
            (subst Ended (sym (take-append-drop r.start records)) ended))
  ]

  -- A round leaves an ending on every line but the last.
  pub round-Ended :
      (follows : Bool)
      → follows_line r added ≡ follows
      → Ended (
          around
            (if follows then end_line records (r.start - 1) (ending_for d records r) else records))
  round-Ended follows e = elim (Bool-cases (ltb r.start (length records))) [
    | inl t ↦
        let lt : r.start < length records = ground arith in
        if_cases (λ rs. Ended (around rs)) follows
          (end_line records (r.start - 1) (ending_for d records r)) records
          (λ _.
            let kept = end_line-Ended records (r.start - 1) (ending_for d records r) ended in
            around-Ended _
              (AllEnded-take r.start _
                (omega (arith, lt, length-end_line records (r.start - 1) (ending_for d records r)))
                kept)
              kept)
          (λ _. around-Ended records (AllEnded-take r.start records lt ended) ended)
    | inr f ↦ at_end-Ended follows (ground arith) e
  ]

pub detect_line_ending-positive : (s : Bytes) → 0 < length (detect_line_ending s)
detect_line_ending-positive s =
    subst (λ e. 0 < length e) (sym (detect_line_ending_lem s))
      (if_cases (λ e. 0 < length e) (first_line_is_crlf 0 s) crlf (lf ∷ []) (λ _. omega arith)
        (λ _. omega arith))

one_record :
    (text at_end : Bytes) (fuel : ℕ)
    → Ended (records_within fuel (take_ending at_end).1)
    → Ended (
        record { text = text; ending = (take_ending at_end).0 }
        ∷ records_within fuel (take_ending at_end).1)
unfolding take_ending records_within
one_record text [] zero h = tt
one_record text [] (suc fuel) h = tt
one_record text (c ∷ []) zero h = tt
one_record text (c ∷ []) (suc fuel) h = tt
one_record text (c ∷ d ∷ s) fuel h =
    if_cases
      (λ (q : Bytes × Bytes).
        Ended (records_within fuel q.1)
        → Ended (record { text = text; ending = q.0 } ∷ records_within fuel q.1))
      (c == cr && d == lf) (crlf, s) (c ∷ [], d ∷ s)
      (λ _ g. Ended-append (record { text = text; ending = crlf } ∷ []) _ (omega arith, tt) g)
      (λ _ g. Ended-append (record { text = text; ending = c ∷ [] } ∷ []) _ (omega arith, tt) g) h

records_within-Ended : (fuel : ℕ) (s : Bytes) → Ended (records_within fuel s)
unfolding records_within
records_within-Ended zero [] = tt
records_within-Ended zero (c ∷ s) = tt
records_within-Ended (suc fuel) [] = tt
records_within-Ended (suc fuel) (c ∷ s) =
    one_record (line_end (c ∷ s)).0 (line_end (c ∷ s)).1 fuel
      (records_within-Ended fuel (take_ending (line_end (c ∷ s)).1).1)

pub split_line_records-Ended : (s : Bytes) → Ended (split_line_records s)
unfolding split_line_records
split_line_records-Ended s = records_within-Ended (length s) s

-- The lines in a row, each with its ending.
abbrev pub in_a_row : List LineRecord → Bytes
in_a_row [] = []
in_a_row (r ∷ rs) = (r.text ++ r.ending) ++ in_a_row rs

pub spell-in_a_row : (rs : List LineRecord) → spell rs ≡ in_a_row rs
unfolding spell
spell-in_a_row [] = refl
spell-in_a_row (r ∷ rs) =
    ap (λ t. r.text ++ (r.ending ++ t)) (spell-in_a_row rs)
    ∙ sym (append_assoc r.text r.ending (in_a_row rs))

-- ===== src/Diff/Shortest.antt =====
-- No script between the two texts leaves more lines alone than the one of computeEditScript.
use mathlib.Core.List.{reverse-cons, reverse-reverse, concat-ne-nil}
use native.Mathlib.Nat.{le_refl}
use jinn.Base.{
  ℕ, zero, suc, ◌+◌, ◌≤◌, ◌<◌, ◌≡◌, refl, sym, ap, ◌∙◌, inl, inr, List, [], ◌∷◌, ◌++◌, reverse,
  append-nil, Bytes, length, get_or, take, take-suc, take_all, arith,
}
use jinn.Diff.{
  Tag, keep, remove, add, Script, choice, walk, compute_edit_script, lcs_table, cell,
  split_diff_lines, old_side, new_side, kept,
}
use jinn.Diff.Table.{cell-zero_left, cell-zero_right, cell-suc}
use jinn.Diff.Cells.{entry-match, entry-left, entry-up, slow}
use jinn.Diff.Walk.{
  Tag-cases, choice-keep, choice-add, choice-remove, choice-keep_lines, choice-add_cells,
  choice-remove_cells, walk-keep, walk-add, walk-remove, walk-done,
}
use jinn.Diff.Sides.{old_side-reverse, new_side-reverse}

-- A last element comes off both sides.
snoc_inj {ℓ} :
    {A : Type ℓ} (xs ys : List A) (a b : A) → xs ++ a ∷ [] ≡ ys ++ b ∷ [] → (xs ≡ ys) × (a ≡ b)
snoc_inj [] [] a b h = (refl, cc)
snoc_inj [] (y ∷ ys) a b h = absurd (concat-ne-nil b ys (cc))
snoc_inj (x ∷ xs) [] a b h = absurd (concat-ne-nil a xs (cc))
snoc_inj (x ∷ xs) (y ∷ ys) a b h = let (e, f) = snoc_inj xs ys a b (cc) in (cc, f)

-- Where a prefix ends in `v`, it is not empty, and `v` is its last line.
prefix_last :
    (xs ls : List Bytes) (v : Bytes) (i : ℕ)
    → i ≤ length ls
    → xs ++ v ∷ [] ≡ take i ls
    → (i' : ℕ) × (i ≡ suc i') × (xs ≡ take i' ls) × (v ≡ get_or ls i' [])
prefix_last xs ls v zero hi h = absurd (concat-ne-nil v xs h)
prefix_last xs ls v (suc i) hi h =
    let (e, f) = snoc_inj xs (take i ls) v (get_or ls i []) (h ∙ take-suc i ls [] hi) in
    (i, refl, e, f)

module _ (old_lines new_lines : List Bytes) where
  abbrev at : ℕ → ℕ → ℕ
  at i j = cell (lcs_table old_lines new_lines) i j

  abbrev pick : ℕ → ℕ → Tag
  pick i j = choice (lcs_table old_lines new_lines) old_lines new_lines i j

  -- The cell that a round leaves and the cell that it reaches.
  cell-add :
      (i j : ℕ)
      → i ≤ length old_lines
      → j < length new_lines
      → pick i (suc j) ≡ add
      → at i (suc j) ≡ at i j
  cell-add zero j hi hj h =
      cell-zero_left old_lines new_lines (suc j) ∙ sym (cell-zero_left old_lines new_lines j)
  cell-add (suc i) j hi hj h =
      let (differ, le) = choice-add_cells _ old_lines new_lines i j h in
      cell-suc old_lines new_lines i j hi hj ∙ entry-left _ _ _ _ _ differ le

  cell-remove :
      (i j : ℕ)
      → i < length old_lines
      → j ≤ length new_lines
      → pick (suc i) j ≡ remove
      → at (suc i) j ≡ at i j
  cell-remove i zero hi hj h =
      cell-zero_right old_lines new_lines (suc i) hi
      ∙ sym (cell-zero_right old_lines new_lines i (omega arith))
  cell-remove i (suc j) hi hj h =
      let (differ, lt) = choice-remove_cells _ old_lines new_lines i j h in
      cell-suc old_lines new_lines i j hi hj ∙ entry-up _ _ _ _ _ differ lt

  cell-keep :
      (i j : ℕ)
      → i < length old_lines
      → j < length new_lines
      → get_or old_lines i [] ≡ get_or new_lines j []
      → at (suc i) (suc j) ≡ at i j + 1
  cell-keep i j hi hj e = cell-suc old_lines new_lines i j hi hj ∙ entry-match _ _ _ _ _ e

  kept-walk :
      (f i j : ℕ)
      → i + j ≤ f
      → i ≤ length old_lines
      → j ≤ length new_lines
      → kept (walk (lcs_table old_lines new_lines) old_lines new_lines f i j) ≡ at i j
  kept-walk f zero zero hf hi hj =
      rw (walk-done (lcs_table old_lines new_lines) old_lines new_lines f)
        (sym (cell-zero_left old_lines new_lines 0))
  kept-walk zero (suc i) j hf hi hj = absurd (omega arith)
  kept-walk zero zero (suc j) hf hi hj = absurd (omega arith)
  kept-walk (suc f) zero (suc j) hf hi hj = elim (Tag-cases (pick 0 (suc j))) [
    | inl k ↦
        let (bad, _, _) = choice-keep _ old_lines new_lines 0 (suc j) k in absurd (omega arith)
    | inr (inl a) ↦
        rw (walk-add _ old_lines new_lines f 0 j a)
          (kept-walk f 0 j (omega arith) hi (omega arith) ∙ sym (cell-add 0 j hi hj a))
    | inr (inr r) ↦
        absurd (omega (arith, choice-remove _ old_lines new_lines 0 (suc j) (omega arith) r))
  ]
  kept-walk (suc f) (suc i) zero hf hi hj = elim (Tag-cases (pick (suc i) 0)) [
    | inl k ↦
        let (_, bad, _) = choice-keep _ old_lines new_lines (suc i) 0 k in absurd (omega arith)
    | inr (inl a) ↦ absurd (omega (arith, choice-add _ old_lines new_lines (suc i) 0 a))
    | inr (inr r) ↦
        rw (walk-remove _ old_lines new_lines f i 0 r)
          (kept-walk f i 0 (omega arith) (omega arith) hj ∙ sym (cell-remove i 0 hi hj r))
  ]
  kept-walk (suc f) (suc i) (suc j) hf hi hj = elim (Tag-cases (pick (suc i) (suc j))) [
    | inl k ↦ rw (walk-keep _ old_lines new_lines f i j k) (
        omega (
          arith,
          kept-walk f i j (omega arith) (omega arith) (omega arith),
          cell-keep i j hi hj (choice-keep_lines _ old_lines new_lines i j k),
        ))
    | inr (inl a) ↦
        rw (walk-add _ old_lines new_lines f (suc i) j a)
          (kept-walk f (suc i) j (omega arith) hi (omega arith) ∙ sym (cell-add (suc i) j hi hj a))
    | inr (inr r) ↦
        rw (walk-remove _ old_lines new_lines f i (suc j) r) (
          kept-walk f i (suc j) (omega arith) (omega arith) hj
          ∙ sym (cell-remove i (suc j) hi hj r))
  ]

  -- `s` keeps at most `at i j` lines, if it spells the first i old lines and the first j new ones.
  abbrev Bounded : Script → Type 0
  Bounded s =
      (i j : ℕ)
      → i ≤ length old_lines
      → j ≤ length new_lines
      → old_side (reverse s) ≡ take i old_lines
      → new_side (reverse s) ≡ take j new_lines
      → kept s ≤ at i j

  Bounded-cons :
      (t : Tag) (v : Bytes) (s : Script) → Bounded s → Bounded (record { tag = t; value = v } ∷ s)
  Bounded-cons keep v s ih i j hi hj ho hn =
      let (i', ei, oi, vi) = prefix_last _ old_lines v i hi (sym (old_side-reverse _ s) ∙ ho) in
      let (j', ej, nj, vj) = prefix_last _ new_lines v j hj (sym (new_side-reverse _ s) ∙ hn) in
      rw (ei, ej)
        (omega (
          arith,
          ih i' j' (omega arith) (omega arith) oi nj,
          cell-keep i' j' (omega arith) (omega arith) (sym vi ∙ vj),
        ))
  Bounded-cons add v s ih i j hi hj ho hn =
      let (j', ej, nj, vj) = prefix_last _ new_lines v j hj (sym (new_side-reverse _ s) ∙ hn) in
      let (le, _) = (slow old_lines new_lines i j').1 hi (omega arith) in
      rw ej (
        omega (
          arith,
          ih i j' hi (omega arith) (sym (append-nil _) ∙ sym (old_side-reverse _ s) ∙ ho) nj,
          le,
        ))
  Bounded-cons remove v s ih i j hi hj ho hn =
      let (i', ei, oi, vi) = prefix_last _ old_lines v i hi (sym (old_side-reverse _ s) ∙ ho) in
      let (le, _) = (slow old_lines new_lines i' j).0 (omega arith) hj in
      rw ei (
        omega (
          arith,
          ih i' j (omega arith) hj oi (sym (append-nil _) ∙ sym (new_side-reverse _ s) ∙ hn),
          le,
        ))

  all-Bounded : (s : Script) → Bounded s
  all-Bounded [] = λ i j hi hj ho hn. omega arith
  all-Bounded (op ∷ s) = Bounded-cons op.tag op.value s (all-Bounded s)

kept-append : (s t : Script) → kept (s ++ t) ≡ kept s + kept t
kept-append [] t = omega arith
kept-append (op ∷ s) t = ground (arith, kept-append s t)

kept-reverse : (s : Script) → kept (reverse s) ≡ kept s
kept-reverse [] = refl
kept-reverse (op ∷ s) =
    ap kept (reverse-cons op s) ∙ kept-append (reverse s) (op ∷ []) ∙ ground (arith, kept-reverse s)

-- The script of two texts is a shortest one: any other script whose sides are the lines of the two
-- texts leaves at most as many lines alone.
pub compute_edit_script_shortest :
    (old new_text : Bytes) (s : Script)
    → old_side s ≡ split_diff_lines old
    → new_side s ≡ split_diff_lines new_text
    → kept s ≤ kept (compute_edit_script old new_text)
unfolding compute_edit_script
compute_edit_script_shortest old new_text s ho hn =
    let xs = split_diff_lines old in
    let ys = split_diff_lines new_text in
    omega (
      arith,
      kept-reverse s,
      kept-reverse (walk (lcs_table xs ys) xs ys (length xs + length ys) (length xs) (length ys)),
      kept-walk xs ys (length xs + length ys) (length xs) (length ys) (le_refl _) (le_refl _)
          (le_refl _),
      all-Bounded xs ys (reverse s) (length xs) (length ys) (le_refl _) (le_refl _)
          (ap old_side (reverse-reverse s) ∙ ho ∙ sym (take_all _ xs (le_refl _)))
          (ap new_side (reverse-reverse s) ∙ hn ∙ sym (take_all _ ys (le_refl _))),
    )

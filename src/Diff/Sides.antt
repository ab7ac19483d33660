-- ===== src/Diff/Sides.antt =====
-- The script of computeEditScript spells both texts.
use mathlib.Core.List.{reverse-cons}
use native.Mathlib.Nat.{le_refl}
use jinn.Base.{
  ℕ, zero, suc, ◌+◌, ◌≤◌, ◌<◌, ◌≡◌, refl, ap, ◌∙◌, inl, inr, List, [], ◌∷◌, ◌++◌, reverse, Bytes,
  length, get_or, take, take-suc, take_all, append-nil, arith,
}
use jinn.Diff.{
  keep, remove, add, DiffOp, Script, choice, walk, compute_edit_script, lcs_table, split_diff_lines,
  old_side, new_side,
}
use jinn.Diff.Walk.{
  Tag-cases, choice-keep, choice-add, choice-remove, choice-keep_lines, walk-keep, walk-add,
  walk-remove, walk-done,
}

pub old_side-append : (s t : Script) → old_side (s ++ t) ≡ old_side s ++ old_side t
old_side-append [] t = refl
old_side-append (op ∷ s) t = ground (arith, old_side-append s t)

pub new_side-append : (s t : Script) → new_side (s ++ t) ≡ new_side s ++ new_side t
new_side-append [] t = refl
new_side-append (op ∷ s) t = ground (arith, new_side-append s t)

pub old_side-reverse :
    (op : DiffOp) (s : Script)
    → old_side (reverse (op ∷ s)) ≡ old_side (reverse s) ++ old_side (op ∷ [])
old_side-reverse op s = ap old_side (reverse-cons op s) ∙ old_side-append (reverse s) (op ∷ [])

pub new_side-reverse :
    (op : DiffOp) (s : Script)
    → new_side (reverse (op ∷ s)) ≡ new_side (reverse s) ++ new_side (op ∷ [])
new_side-reverse op s = ap new_side (reverse-cons op s) ∙ new_side-append (reverse s) (op ∷ [])

module _ (dp : List (List ℕ)) (old_lines new_lines : List Bytes) where
  -- The script between (0, 0) and (i, j) spells the first i old lines and the first j new ones.
  abbrev Spells : ℕ → ℕ → Script → Type 0
  Spells i j s =
      (old_side (reverse s) ≡ take i old_lines) × (new_side (reverse s) ≡ take j new_lines)

  Spells-keep :
      (i j : ℕ) (s : Script)
      → i < length old_lines
      → j < length new_lines
      → get_or old_lines i [] ≡ get_or new_lines j []
      → Spells i j s
      → Spells (suc i) (suc j) (record { tag = keep; value = get_or old_lines i [] } ∷ s)
  Spells-keep i j s hi hj e (ho, hn) = (
    old_side-reverse _ s ∙ cc (ho, take-suc i old_lines [] hi),
    new_side-reverse _ s ∙ cc (hn, e, take-suc j new_lines [] hj),
  )

  Spells-add :
      (i j : ℕ) (s : Script)
      → j < length new_lines
      → Spells i j s
      → Spells i (suc j) (record { tag = add; value = get_or new_lines j [] } ∷ s)
  Spells-add i j s hj (ho, hn) = (
    old_side-reverse _ s ∙ append-nil _ ∙ ho,
    new_side-reverse _ s ∙ cc (hn, take-suc j new_lines [] hj),
  )

  Spells-remove :
      (i j : ℕ) (s : Script)
      → i < length old_lines
      → Spells i j s
      → Spells (suc i) j (record { tag = remove; value = get_or old_lines i [] } ∷ s)
  Spells-remove i j s hi (ho, hn) = (
    old_side-reverse _ s ∙ cc (ho, take-suc i old_lines [] hi),
    new_side-reverse _ s ∙ append-nil _ ∙ hn,
  )

  walk-Spells :
      (f i j : ℕ)
      → i + j ≤ f
      → i ≤ length old_lines
      → j ≤ length new_lines
      → Spells i j (walk dp old_lines new_lines f i j)
  walk-Spells f zero zero hf hi hj = rw (walk-done dp old_lines new_lines f) (refl, refl)
  walk-Spells zero (suc i) j hf hi hj = absurd (omega arith)
  walk-Spells zero zero (suc j) hf hi hj = absurd (omega arith)
  walk-Spells (suc f) zero (suc j) hf hi hj =
      elim (Tag-cases (choice dp old_lines new_lines 0 (suc j))) [
        | inl k ↦
            let (bad, _, _) = choice-keep dp old_lines new_lines 0 (suc j) k in absurd (omega arith)
        | inr (inl a) ↦ rw (walk-add dp old_lines new_lines f 0 j a) (
            Spells-add 0 j (walk dp old_lines new_lines f 0 j) hj
              (walk-Spells f 0 j (omega arith) hi (omega arith)))
        | inr (inr r) ↦
            absurd (omega (arith, choice-remove dp old_lines new_lines 0 (suc j) (omega arith) r))
      ]
  walk-Spells (suc f) (suc i) zero hf hi hj =
      elim (Tag-cases (choice dp old_lines new_lines (suc i) 0)) [
        | inl k ↦
            let (_, bad, _) = choice-keep dp old_lines new_lines (suc i) 0 k in absurd (omega arith)
        | inr (inl a) ↦ absurd (omega (arith, choice-add dp old_lines new_lines (suc i) 0 a))
        | inr (inr r) ↦ rw (walk-remove dp old_lines new_lines f i 0 r) (
            Spells-remove i 0 (walk dp old_lines new_lines f i 0) hi
              (walk-Spells f i 0 (omega arith) (omega arith) hj))
      ]
  walk-Spells (suc f) (suc i) (suc j) hf hi hj =
      elim (Tag-cases (choice dp old_lines new_lines (suc i) (suc j))) [
        | inl k ↦ rw (walk-keep dp old_lines new_lines f i j k) (
            Spells-keep i j (walk dp old_lines new_lines f i j) hi hj
              (choice-keep_lines dp old_lines new_lines i j k)
              (walk-Spells f i j (omega arith) (omega arith) (omega arith)))
        | inr (inl a) ↦ rw (walk-add dp old_lines new_lines f (suc i) j a) (
            Spells-add (suc i) j (walk dp old_lines new_lines f (suc i) j) hj
              (walk-Spells f (suc i) j (omega arith) hi (omega arith)))
        | inr (inr r) ↦ rw (walk-remove dp old_lines new_lines f i (suc j) r) (
            Spells-remove i (suc j) (walk dp old_lines new_lines f i (suc j)) hi
              (walk-Spells f i (suc j) (omega arith) (omega arith) hj))
      ]

-- The script of two texts spells both: its kept and removed lines are the lines of the old text, and
-- its kept and added lines those of the new one, each in order.
pub compute_edit_script-sides :
    (old new_text : Bytes)
    → (old_side (compute_edit_script old new_text) ≡ split_diff_lines old)
      × (new_side (compute_edit_script old new_text) ≡ split_diff_lines new_text)
unfolding compute_edit_script
compute_edit_script-sides old new_text =
    let xs = split_diff_lines old in
    let ys = split_diff_lines new_text in
    let (ho, hn) =
      walk-Spells (lcs_table xs ys) xs ys _ (length xs) (length ys) (omega arith) (omega arith)
        (omega arith) in
    (ho ∙ take_all _ xs (le_refl _), hn ∙ take_all _ ys (le_refl _))

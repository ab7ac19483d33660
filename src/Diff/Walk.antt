-- ===== src/Diff/Walk.antt =====
-- One round of backtrackEditScript: which case it takes, and what that case appends.
use jinn.Base.{
  ℕ, zero, suc, ◌+◌, ◌-◌, ◌≤◌, ◌<◌, ◌≡◌, ◌≢◌, refl, ◌⊎◌, inl, inr, List, [], ◌∷◌, Bytes, get_or,
  bytes_eq_iff, arith,
}
use jinn.Diff.{Tag, keep, remove, add, choice, walk, cell}

pub Tag-cases : (t : Tag) → (t ≡ keep) ⊎ ((t ≡ add) ⊎ (t ≡ remove))
Tag-cases keep = inl refl
Tag-cases add = inr (inl refl)
Tag-cases remove = inr (inr refl)

suc-sub_one : (n : ℕ) → suc n - 1 ≡ n
suc-sub_one n = omega arith

module _ (dp : List (List ℕ)) (old_lines new_lines : List Bytes) where
  pub choice-keep :
      (i j : ℕ)
      → choice dp old_lines new_lines i j ≡ keep
      → (0 < i) × (0 < j) × (get_or old_lines (i - 1) [] ≡ get_or new_lines (j - 1) [])
  unfolding choice
  choice-keep i j h =
      ground (arith, bytes_eq_iff (get_or old_lines (i - 1) []) (get_or new_lines (j - 1) []))

  pub choice-add : (i j : ℕ) → choice dp old_lines new_lines i j ≡ add → 0 < j
  unfolding choice
  choice-add i j h = ground arith

  pub choice-remove : (i j : ℕ) → 0 < i + j → choice dp old_lines new_lines i j ≡ remove → 0 < i
  unfolding choice
  choice-remove i j m h = ground arith

  pub choice-keep_lines :
      (i j : ℕ)
      → choice dp old_lines new_lines (suc i) (suc j) ≡ keep
      → get_or old_lines i [] ≡ get_or new_lines j []
  choice-keep_lines i j h =
      let (_, _, e) = choice-keep (suc i) (suc j) h in rw (suc-sub_one i, suc-sub_one j) at e

  choice-add_tests :
      (i j : ℕ)
      → choice dp old_lines new_lines i j ≡ add
      → 0 < i
      → (get_or old_lines (i - 1) [] ≢ get_or new_lines (j - 1) [])
        × (cell dp (i - 1) j ≤ cell dp i (j - 1))
  unfolding choice
  choice-add_tests i j h pos =
      ground (arith, bytes_eq_iff (get_or old_lines (i - 1) []) (get_or new_lines (j - 1) []))

  choice-remove_tests :
      (i j : ℕ)
      → choice dp old_lines new_lines i j ≡ remove
      → 0 < i
      → 0 < j
      → (get_or old_lines (i - 1) [] ≢ get_or new_lines (j - 1) [])
        × (cell dp i (j - 1) < cell dp (i - 1) j)
  unfolding choice
  choice-remove_tests i j h pos pos' =
      ground (arith, bytes_eq_iff (get_or old_lines (i - 1) []) (get_or new_lines (j - 1) []))

  pub choice-add_cells :
      (i j : ℕ)
      → choice dp old_lines new_lines (suc i) (suc j) ≡ add
      → (get_or old_lines i [] ≢ get_or new_lines j []) × (cell dp i (suc j) ≤ cell dp (suc i) j)
  choice-add_cells i j h =
      rw (suc-sub_one i, suc-sub_one j) at (choice-add_tests (suc i) (suc j) h (omega arith))

  pub choice-remove_cells :
      (i j : ℕ)
      → choice dp old_lines new_lines (suc i) (suc j) ≡ remove
      → (get_or old_lines i [] ≢ get_or new_lines j []) × (cell dp (suc i) j < cell dp i (suc j))
  choice-remove_cells i j h =
      rw (suc-sub_one i, suc-sub_one j) at
        (choice-remove_tests (suc i) (suc j) h (omega arith) (omega arith))

  pub walk-keep :
      (f i j : ℕ)
      → choice dp old_lines new_lines (suc i) (suc j) ≡ keep
      → walk dp old_lines new_lines (suc f) (suc i) (suc j)
        ≡ record { tag = keep; value = get_or old_lines i [] } ∷ walk dp old_lines new_lines f i j
  unfolding walk
  walk-keep f i j h = rw (h, suc-sub_one i, suc-sub_one j) (ground arith)

  pub walk-add :
      (f i j : ℕ)
      → choice dp old_lines new_lines i (suc j) ≡ add
      → walk dp old_lines new_lines (suc f) i (suc j)
        ≡ record { tag = add; value = get_or new_lines j [] } ∷ walk dp old_lines new_lines f i j
  unfolding walk
  walk-add f zero j h = rw (h, suc-sub_one j) (ground arith)
  walk-add f (suc i) j h = rw (h, suc-sub_one j) (ground arith)

  pub walk-remove :
      (f i j : ℕ)
      → choice dp old_lines new_lines (suc i) j ≡ remove
      → walk dp old_lines new_lines (suc f) (suc i) j
        ≡ record { tag = remove; value = get_or old_lines i [] } ∷ walk dp old_lines new_lines f i j
  unfolding walk
  walk-remove f i j h = rw (h, suc-sub_one i) (ground arith)

  pub walk-done : (f : ℕ) → walk dp old_lines new_lines f 0 0 ≡ []
  unfolding walk
  walk-done zero = refl
  walk-done (suc f) = refl

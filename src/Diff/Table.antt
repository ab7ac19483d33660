-- ===== src/Diff/Table.antt =====
-- The cells of the LCS table obey the recurrence of the nested loops.
use jinn.Base.{ℕ, zero, suc, ◌≤◌, ◌<◌, ◌≡◌, refl, List, [], ◌∷◌, Bytes, length, get_or, drop, arith}
use jinn.Diff.{entry, fill_row, fill_table, zero_row, lcs_table, cell}

get_or-zero_row : (ys : List Bytes) (j : ℕ) → get_or (zero_row ys) j 0 ≡ 0
unfolding zero_row
get_or-zero_row [] zero = refl
get_or-zero_row [] (suc j) = refl
get_or-zero_row (y ∷ ys) zero = refl
get_or-zero_row (y ∷ ys) (suc j) = get_or-zero_row ys j

get_or-drop_one : (row : List ℕ) (j : ℕ) → get_or (drop 1 row) j 0 ≡ get_or row (suc j) 0
get_or-drop_one [] j = refl
get_or-drop_one (c ∷ row) j = refl

-- Cell j + 1 of a row, from the row above and the cell before it.
get_or-fill_row :
    (x : Bytes) (ys : List Bytes) (above : List ℕ) (left j : ℕ)
    → j < length ys
    → get_or (fill_row x ys above left) j 0
      ≡ entry x
          (get_or ys j [])
          (get_or above j 0)
          (get_or above (suc j) 0)
          (get_or (left ∷ fill_row x ys above left) j 0)
unfolding fill_row
get_or-fill_row x [] above left j h = elim h [ ]
get_or-fill_row x (y ∷ ys) above left zero h = refl
get_or-fill_row x (y ∷ ys) above left (suc j) h = rw (
  get_or-fill_row x ys (drop 1 above) _ j (omega arith),
  get_or-drop_one above j,
  get_or-drop_one above (suc j),
)

row_at :
    (above : List ℕ) (xs ys : List Bytes) (i : ℕ)
    → i < length xs
    → get_or (fill_table above xs ys) i []
      ≡ 0 ∷ fill_row (get_or xs i []) ys (get_or (above ∷ fill_table above xs ys) i []) 0
unfolding fill_table
row_at above [] ys i h = elim h [ ]
row_at above (x ∷ xs) ys zero h = refl
row_at above (x ∷ xs) ys (suc i) h = row_at (0 ∷ fill_row x ys above 0) xs ys i (omega arith)

module _ (old_lines new_lines : List Bytes) where
  pub cell-zero_left : (j : ℕ) → cell (lcs_table old_lines new_lines) 0 j ≡ 0
  unfolding lcs_table
  cell-zero_left j = get_or-zero_row new_lines j

  pub cell-zero_right :
      (i : ℕ) → i ≤ length old_lines → cell (lcs_table old_lines new_lines) i 0 ≡ 0
  unfolding lcs_table
  cell-zero_right zero h = get_or-zero_row new_lines 0
  cell-zero_right (suc i) h = rw (row_at _ old_lines new_lines i h)

  pub cell-suc :
      (i j : ℕ)
      → i < length old_lines
      → j < length new_lines
      → cell (lcs_table old_lines new_lines) (suc i) (suc j)
        ≡ entry
            (get_or old_lines i [])
            (get_or new_lines j [])
            (cell (lcs_table old_lines new_lines) i j)
            (cell (lcs_table old_lines new_lines) i (suc j))
            (cell (lcs_table old_lines new_lines) (suc i) j)
  unfolding lcs_table
  cell-suc i j hi hj = rw (row_at _ old_lines new_lines i hi) (get_or-fill_row _ new_lines _ 0 j hj)

-- ===== src/Diff/Cells.antt =====
-- The table grows by at most one from a cell to its neighbour, and never shrinks.
use jinn.Base.{
  ℕ, zero, suc, ◌+◌, ◌≤◌, ◌<◌, ◌≡◌, ◌≢◌, List, [], Bytes, length, get_or, bytes_eq_iff, arith,
}
use jinn.Diff.{entry, lcs_table, cell}
use jinn.Diff.Table.{cell-zero_left, cell-zero_right, cell-suc}

pub entry-match :
    (x y : Bytes) (diagonal up left : ℕ) → x ≡ y → entry x y diagonal up left ≡ diagonal + 1
unfolding entry
entry-match x y diagonal up left e = ground (arith, bytes_eq_iff x y)

pub entry-left :
    (x y : Bytes) (diagonal up left : ℕ) → x ≢ y → up ≤ left → entry x y diagonal up left ≡ left
unfolding entry
entry-left x y diagonal up left e h = ground (arith, bytes_eq_iff x y)

pub entry-up :
    (x y : Bytes) (diagonal up left : ℕ) → x ≢ y → left < up → entry x y diagonal up left ≡ up
unfolding entry
entry-up x y diagonal up left e h = ground (arith, bytes_eq_iff x y)

-- Bounds on an entry from bounds on the three cells around it.
entry_bounds :
    (x y : Bytes) (diagonal up left : ℕ)
    → diagonal ≤ up
    → diagonal ≤ left
    → up ≤ diagonal + 1
    → left ≤ diagonal + 1
    → (up ≤ entry x y diagonal up left)
      × (left ≤ entry x y diagonal up left)
      × (entry x y diagonal up left ≤ up + 1)
      × (entry x y diagonal up left ≤ left + 1)
unfolding entry
entry_bounds x y diagonal up left a b c d = ground arith

module _ (old_lines new_lines : List Bytes) where
  abbrev at : ℕ → ℕ → ℕ
  at i j = cell (lcs_table old_lines new_lines) i j

  -- The step down and the step to the right from (i, j).
  abbrev Slow : ℕ → ℕ → Type 0
  Slow i j =
      (i < length old_lines
        → j ≤ length new_lines
        → (at i j ≤ at (suc i) j) × (at (suc i) j ≤ at i j + 1))
      × (i ≤ length old_lines
          → j < length new_lines
          → (at i j ≤ at i (suc j)) × (at i (suc j) ≤ at i j + 1))

  square :
      (i j : ℕ)
      → Slow i j
      → i < length old_lines
      → j < length new_lines
      → (at i (suc j) ≤ at (suc i) (suc j))
        × (at (suc i) j ≤ at (suc i) (suc j))
        × (at (suc i) (suc j) ≤ at i (suc j) + 1)
        × (at (suc i) (suc j) ≤ at (suc i) j + 1)
  square i j (down, right) hi hj =
      let (d₁, d₂) = down hi (omega arith) in
      let (r₁, r₂) = right (omega arith) hj in
      rw (cell-suc old_lines new_lines i j hi hj) (
        entry_bounds (get_or old_lines i []) (get_or new_lines j []) (at i j) (at i (suc j))
          (at (suc i) j) r₁ d₁ r₂ d₂)

  right_at_top : (j : ℕ) → (at 0 j ≤ at 0 (suc j)) × (at 0 (suc j) ≤ at 0 j + 1)
  right_at_top j =
      omega
        (arith, cell-zero_left old_lines new_lines j, cell-zero_left old_lines new_lines (suc j))

  down_at_edge :
      (i : ℕ) → i < length old_lines → (at i 0 ≤ at (suc i) 0) × (at (suc i) 0 ≤ at i 0 + 1)
  down_at_edge i h =
      omega
        (arith, cell-zero_right old_lines new_lines i, cell-zero_right old_lines new_lines (suc i))

  pub slow : (i j : ℕ) → Slow i j
  slow zero zero = (λ hi hj. down_at_edge 0 hi, λ hi hj. right_at_top 0)
  slow zero (suc j) =
      let corner = slow zero j in
      (
        λ hi hj. let (a, b, c, d) = square zero j corner hi hj in (a, c),
        λ hi hj. right_at_top (suc j),
      )
  slow (suc i) zero =
      let corner = slow i zero in
      (
        λ hi hj. down_at_edge (suc i) hi,
        λ hi hj. let (a, b, c, d) = square i zero corner hi hj in (b, d),
      )
  slow (suc i) (suc j) =
      let above = slow i (suc j) in
      let before = slow (suc i) j in
      (
        λ hi hj. let (a, b, c, d) = square (suc i) j before hi hj in (a, c),
        λ hi hj. let (a, b, c, d) = square i (suc j) above hi hj in (b, d),
      )

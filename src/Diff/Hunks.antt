-- ===== src/Diff/Hunks.antt =====
-- computeHunks of internal/jinn/diff.go: the changes of a script grouped into hunks. Two changes share
-- a hunk if at most 2 * contextLines kept lines stand between them.
use native.Mathlib.Nat.{le_refl}
use jinn.Base.{
  ℕ, zero, suc, ◌+◌, ◌*◌, ◌≤◌, ◌<◌, ◌≡◌, ◌⊎◌, inl, inr, Bool, true, false, Option, none, some, List,
  [], ◌∷◌, ◌++◌, length, get_elem?, ltb, if◌then◌else◌, arith,
}
use jinn.Diff.{keep, DiffOp, Script}

-- A hunkRange: 0-based, `stop` exclusive.
pub record HunkRange : Type 0 where
  pub start : ℕ
  pub stop : ℕ

abbrev pub is_change : DiffOp → Bool
is_change op = elim op.tag [ keep ↦ false | _ ↦ true ]

-- The kept lines in a row at the front.
unfoldable pub consecutive : Script → ℕ
consecutive [] = 0
consecutive (op ∷ ops) = elim op.tag [ keep ↦ suc (consecutive ops) | _ ↦ 0 ]

-- One round of the loop at index `idx`: the hunk that it closes, and `hunkStart` if a hunk is open.
unfoldable pub hunk_round : ℕ → DiffOp → Script → ℕ → Option ℕ → List HunkRange × Option ℕ
unfolding consecutive
hunk_round context op ops idx none = ([], if is_change op then some idx else none)
hunk_round context op ops idx (some start) =
    if is_change op
    then ([], some start)
    else if ltb (2 * context) (consecutive (op ∷ ops))
    then (record { start = start; stop = idx } ∷ [], none)
    else ([], some start)

unfoldable pub hunks_from : ℕ → Script → ℕ → Option ℕ → List HunkRange
hunks_from context [] idx none = []
hunks_from context [] idx (some start) = record { start = start; stop = idx } ∷ []
hunks_from context (op ∷ ops) idx opened =
    let (closed, opened') = hunk_round context op ops idx opened in
    closed ++ hunks_from context ops (suc idx) opened'

unfoldable pub compute_hunks : Script → ℕ → List HunkRange
unfolding hunks_from hunk_round
compute_hunks script context = hunks_from context script 0 none

-- Position k of the script lies in one of the hunks.
abbrev pub Covered : ℕ → List HunkRange → Type 0
Covered k [] = ⊥
Covered k (h ∷ hs) = ((h.start ≤ k) × (k < h.stop)) ⊎ Covered k hs

-- The hunks stand in order between `low` and `high`, none is empty, and more than 2 * context
-- positions lie between one and the next.
abbrev pub Apart : ℕ → ℕ → ℕ → List HunkRange → Type 0
Apart context low high [] = Unit
Apart context low high (h ∷ hs) =
    (low ≤ h.start)
    × (h.start < h.stop)
    × (h.stop ≤ high)
    × Apart context (h.stop + 2 * context + 1) high hs

module _ (context : ℕ) where
  -- The start of an open hunk is behind the current index.
  abbrev Opened : ℕ → Option ℕ → Type 0
  Opened idx none = Unit
  Opened idx (some start) = start ≤ idx

  Covered-opened :
      (ops : Script) (start k idx : ℕ)
      → start ≤ k
      → k < idx
      → Covered k (hunks_from context ops idx (some start))
  unfolding hunks_from hunk_round
  Covered-opened [] start k idx h h' = inl (h, h')
  Covered-opened (op ∷ ops) start k idx h h' = ground (arith, Covered-opened ops start k (suc idx))

  hunk_round-Opened :
      (op : DiffOp) (ops : Script) (idx : ℕ) (opened : Option ℕ)
      → Opened idx opened
      → Opened (suc idx) (hunk_round context op ops idx opened).1
  unfolding hunk_round
  hunk_round-Opened op ops idx none h = ground arith
  hunk_round-Opened op ops idx (some start) h = ground arith

  Covered-append : (k : ℕ) (hs hs' : List HunkRange) → Covered k hs' → Covered k (hs ++ hs')
  Covered-append k [] hs' c = c
  Covered-append k (h ∷ hs) hs' c = inr (Covered-append k hs hs' c)

  Covered-now :
      (op : DiffOp) (ops : Script) (idx : ℕ) (opened : Option ℕ)
      → is_change op ≡ true
      → Opened idx opened
      → Covered idx (hunks_from context (op ∷ ops) idx opened)
  unfolding hunks_from hunk_round
  Covered-now op ops idx none change h =
      rw change (Covered-opened ops idx idx (suc idx) (omega arith) (omega arith))
  Covered-now op ops idx (some start) change h =
      rw change (Covered-opened ops start idx (suc idx) h (omega arith))

  Covered-from :
      (ops : Script) (d k idx : ℕ) (op : DiffOp) (opened : Option ℕ)
      → k ≡ idx + d
      → get_elem? ops d ≡ some op
      → is_change op ≡ true
      → Opened idx opened
      → Covered k (hunks_from context ops idx opened)
  unfolding hunks_from
  Covered-from [] d k idx op opened e at change h = cc
  Covered-from (x ∷ ops) zero k idx op opened e at change h =
      let now : idx ≡ k = omega arith in
      let same : x ≡ op = cc in rw (← now) (Covered-now x ops idx opened (rw same change) h)
  Covered-from (x ∷ ops) (suc d) k idx op opened e at change h =
      Covered-append k (hunk_round context x ops idx opened).0 _ (
        Covered-from ops d k (suc idx) op (hunk_round context x ops idx opened).1 (omega arith) at
          change (hunk_round-Opened x ops idx opened h))

  Apart-weaken :
      (low low' high : ℕ) (hs : List HunkRange)
      → low ≤ low'
      → Apart context low' high hs
      → Apart context low high hs
  Apart-weaken low low' high [] h a = tt
  Apart-weaken low low' high (x ∷ hs) h (a, b, c, d) = (omega arith, b, c, d)

  -- With no hunk open the next one starts behind the kept lines at the front; an open one is kept.
  abbrev ahead : Script → ℕ → Option ℕ → ℕ
  ahead ops idx none = idx + consecutive ops
  ahead ops idx (some start) = start

  abbrev Begun : ℕ → Option ℕ → Type 0
  Begun idx none = Unit
  Begun idx (some start) = start < idx

  Apart-from :
      (ops : Script) (idx high : ℕ) (opened : Option ℕ)
      → high ≡ idx + length ops
      → Begun idx opened
      → Apart context (ahead ops idx opened) high (hunks_from context ops idx opened)
  unfolding hunks_from hunk_round
  Apart-from [] idx high none e h = tt
  Apart-from [] idx high (some start) e h = (le_refl start, h, omega arith, tt)
  Apart-from (op ∷ ops) idx high none e h = ground (
    arith,
    Apart-from ops (suc idx) high none,
    Apart-from ops (suc idx) high (some idx),
    Apart-weaken (idx + suc (consecutive ops)) (suc idx + consecutive ops) high
        (hunks_from context ops (suc idx) none),
    Apart-weaken (idx + 0) idx high (hunks_from context ops (suc idx) (some idx)),
  )
  Apart-from (op ∷ ops) idx high (some start) e h = ground (
    arith,
    Apart-from ops (suc idx) high none,
    Apart-from ops (suc idx) high (some start),
    Apart-weaken (idx + 2 * context + 1) (suc idx + consecutive ops) high
        (hunks_from context ops (suc idx) none),
  )

-- No change is lost: every changed line of the script lies in a hunk.
pub compute_hunks_cover :
    (script : Script) (context k : ℕ) (op : DiffOp)
    → get_elem? script k ≡ some op
    → is_change op ≡ true
    → Covered k (compute_hunks script context)
unfolding compute_hunks
compute_hunks_cover script context k op at change =
    Covered-from context script k k 0 op none (omega arith) at change tt

-- The hunks are not empty, lie within the script in order, and more than 2 * context lines apart, so
-- that the printed spans, each wider by `context` on both sides, do not meet.
pub compute_hunks-Apart :
    (script : Script) (context : ℕ) → Apart context 0 (length script) (compute_hunks script context)
unfolding compute_hunks
compute_hunks-Apart script context =
    Apart-weaken context 0 _ _ _ (omega arith) (Apart-from context script 0 _ none (omega arith) tt)

-- ===== src/Patch/Seek.antt =====
-- Where seekSequence finds a pattern.
use native.Mathlib.Nat.{le_refl}
use jinn.Base.{
  ℕ, zero, suc, ◌+◌, ◌-◌, ◌≤◌, ◌<◌, ◌≡◌, subst, ◌⊎◌, inl, inr, Bool, true, false, Option, none,
  some, List, [], ◌∷◌, Bytes, length, drop, ltb, if◌then◌else◌, Bool-cases, tests, arith,
}
use jinn.Patch.Apply.{Eq, passes, matches_at, first_match, first_pass, seek_by, seek_sequence}

module _ (eq : Eq) (lines pattern : List Bytes) where
  -- The pattern stands at no index from `low` to below `high`.
  abbrev pub Absent : ℕ → ℕ → Type 0
  Absent low high = (k : ℕ) → low ≤ k → k < high → matches_at eq (drop k lines) pattern ≡ false

  -- The least index from `low` to below `high` at which the pattern stands, if there is one.
  abbrev pub Least : ℕ → ℕ → Option ℕ → Type 0
  Least low high none = Absent low high
  Least low high (some i) =
      (low ≤ i) × (i < high) × (matches_at eq (drop i lines) pattern ≡ true) × Absent low i

  Absent-below : (low high : ℕ) → high ≤ low → Absent low high
  Absent-below low high h k lo hi = absurd (omega arith)

  Absent-cons :
      (low high : ℕ)
      → matches_at eq (drop low lines) pattern ≡ false
      → Absent (low + 1) high
      → Absent low high
  Absent-cons low high here later k lo hi = elim (Bool-cases (ltb low k)) [
    | inl b ↦ later k (ground arith) hi
    | inr b ↦ let e : k ≡ low = ground arith in rw e here
  ]

  Least-cons :
      (low high : ℕ) (r : Option ℕ)
      → matches_at eq (drop low lines) pattern ≡ false
      → Least (low + 1) high r
      → Least low high r
  Least-cons low high none here h = Absent-cons low high here h
  Least-cons low high (some i) here (a, b, c, d) = (omega arith, b, c, Absent-cons low i here d)

  first_match-Least :
      (rounds low high : ℕ)
      → rounds ≡ high - low
      → Least low high (first_match eq lines pattern rounds low)
  unfolding first_match
  first_match-Least zero low high e = Absent-below low high (omega arith)
  first_match-Least (suc rounds) low high e =
      elim (Bool-cases (matches_at eq (drop low lines) pattern)) [
        | inl t ↦ rw t (le_refl low, omega arith, t, Absent-below low low (le_refl low))
        | inr f ↦ rw f (
            Least-cons low high (first_match eq lines pattern rounds (low + 1)) f
              (first_match-Least rounds (low + 1) high (omega arith)))
      ]

-- The passes are tried in order, each over the whole window: the answer is the least index of the first
-- pass that has one.
abbrev pub First : List Eq → List Bytes → List Bytes → ℕ → ℕ → Option ℕ → Type 0
First [] lines pattern low high none = Unit
First [] lines pattern low high (some i) = ⊥
First (eq ∷ eqs) lines pattern low high none =
    Absent eq lines pattern low high × First eqs lines pattern low high none
First (eq ∷ eqs) lines pattern low high (some i) =
    Least eq lines pattern low high (some i)
    ⊎ (Absent eq lines pattern low high × First eqs lines pattern low high (some i))

First-later :
    (eq : Eq) (eqs : List Eq) (lines pattern : List Bytes) (low high : ℕ) (r : Option ℕ)
    → Absent eq lines pattern low high
    → First eqs lines pattern low high r
    → First (eq ∷ eqs) lines pattern low high r
First-later eq eqs lines pattern low high none a f = (a, f)
First-later eq eqs lines pattern low high (some i) a f = inr (a, f)

First-cons :
    (eq : Eq) (eqs : List Eq) (lines pattern : List Bytes) (low high : ℕ) (r later : Option ℕ)
    → Least eq lines pattern low high r
    → First eqs lines pattern low high later
    → First (eq ∷ eqs) lines pattern low high (elim r [ some i ↦ some i | none ↦ later ])
First-cons eq eqs lines pattern low high none later a f =
    First-later eq eqs lines pattern low high later a f
First-cons eq eqs lines pattern low high (some i) later a f = inl a

first_pass-First :
    (eqs : List Eq) (lines pattern : List Bytes) (rounds low high : ℕ)
    → rounds ≡ high - low
    → First eqs lines pattern low high (first_pass eqs lines pattern rounds low)
unfolding first_pass
first_pass-First [] lines pattern rounds low high e = tt
first_pass-First (eq ∷ eqs) lines pattern rounds low high e =
    First-cons eq eqs lines pattern low high (first_match eq lines pattern rounds low)
      (first_pass eqs lines pattern rounds low)
      (first_match-Least eq lines pattern rounds low high e)
      (first_pass-First eqs lines pattern rounds low high e)

First-empty :
    (eqs : List Eq) (lines pattern : List Bytes) (low high : ℕ)
    → high ≤ low
    → First eqs lines pattern low high none
First-empty [] lines pattern low high h = tt
First-empty (eq ∷ eqs) lines pattern low high h =
    (Absent-below eq lines pattern low high h, First-empty eqs lines pattern low high h)

abbrev pub search_start : List Bytes → List Bytes → ℕ → Bool → ℕ
search_start lines pattern start eof = if eof then length lines - length pattern else start

seek_by-First :
    (eqs : List Eq) (lines : List Bytes) (p : Bytes) (pattern : List Bytes) (start : ℕ) (eof : Bool)
    → First eqs lines
        (p ∷ pattern)
        (search_start lines (p ∷ pattern) start eof)
        (length lines + 1 - length (p ∷ pattern))
        (seek_by eqs lines (p ∷ pattern) start eof)
unfolding seek_by
seek_by-First eqs lines p pattern start eof =
    elim (Bool-cases (ltb (length lines) (length (p ∷ pattern)))) [
      | inl long ↦ rw long (First-empty eqs lines (p ∷ pattern) _ _ (omega tests))
      | inr fits ↦ rw fits (first_pass-First eqs lines (p ∷ pattern) _ _ _ (ground arith))
    ]

-- A search is answered by the first pass that finds the pattern between the start of the window (its
-- last possible place, for a hunk at the end of the file) and the last place where the pattern fits,
-- and by that pass's least index; the answer is -1 exactly if no pass finds it.
pub seek_sequence-First :
    (lines : List Bytes) (p : Bytes) (pattern : List Bytes) (start : ℕ) (eof : Bool)
    → First passes lines
        (p ∷ pattern)
        (search_start lines (p ∷ pattern) start eof)
        (length lines + 1 - length (p ∷ pattern))
        (seek_sequence lines (p ∷ pattern) start eof)
unfolding seek_sequence
seek_sequence-First lines p pattern start eof = seek_by-First passes lines p pattern start eof

First-bounds :
    (eqs : List Eq) (lines pattern : List Bytes) (low high i : ℕ)
    → First eqs lines pattern low high (some i)
    → (low ≤ i) × (i < high)
First-bounds [] lines pattern low high i h = absurd h
First-bounds (eq ∷ eqs) lines pattern low high i (inl (a, b, _, _)) = (a, b)
First-bounds (eq ∷ eqs) lines pattern low high i (inr (_, h)) =
    First-bounds eqs lines pattern low high i h

-- Away from the end of the file a pattern is found behind the start, and within the lines.
pub seek_sequence_bounds :
    (lines pattern : List Bytes) (start i : ℕ)
    → start ≤ length lines
    → seek_sequence lines pattern start false ≡ some i
    → (start ≤ i) × (i + length pattern ≤ length lines)
seek_sequence_bounds lines [] start i h e = unfold seek_sequence seek_by in ground arith
seek_sequence_bounds lines (p ∷ pattern) start i h e =
    let (a, b) = First-bounds passes lines (p ∷ pattern) start _ i (
      subst (First passes lines (p ∷ pattern) start _) e
        (seek_sequence-First lines p pattern start false)) in
    (a, omega arith)

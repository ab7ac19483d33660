-- ===== src/Edit/Boundaries.antt =====
-- The boundaries of a text that mapNormalizedText builds ascend.
use native.Mathlib.Nat.{le_refl}
use jinn.Base.{
  ℕ, zero, suc, ◌≤◌, ◌≡◌, refl, ap, subst, List, [], ◌∷◌, ◌++◌, Bytes, append-nil, length,
  length-append, arith,
}
use jinn.Edit.{NormalizedTextMap, replicate, append_mapped, set_last}

-- Boundaries that do not fall, from one place to another.
abbrev pub Ascending : ℕ → List ℕ → ℕ → Type 0
Ascending lo [] hi = lo ≤ hi
Ascending lo (b ∷ bs) hi = (lo ≤ b) × Ascending b bs hi

replicate-Ascending : (lo end k : ℕ) → lo ≤ end → Ascending lo (replicate k end) end
replicate-Ascending lo end zero h = h
replicate-Ascending lo end (suc k) h = (h, replicate-Ascending end end k (omega arith))

append-Ascending :
    (lo hi end k : ℕ) (bs : List ℕ)
    → hi ≤ end
    → Ascending lo bs hi
    → Ascending lo (bs ++ replicate k end) end
append-Ascending lo hi end k [] h a = replicate-Ascending lo end k (omega (arith, a))
append-Ascending lo hi end k (b ∷ bs) h a = (a.0, append-Ascending b hi end k bs h a.1)

pub Ascending-le : (lo hi : ℕ) (bs : List ℕ) → Ascending lo bs hi → lo ≤ hi
Ascending-le lo hi [] a = a
Ascending-le lo hi (b ∷ bs) a = omega (arith, a.0, Ascending-le b hi bs a.1)

pub set_last-Ascending :
    (lo hi end : ℕ) (bs : List ℕ)
    → hi ≤ end
    → Ascending lo bs hi
    → Ascending lo (set_last bs end) end
set_last-Ascending lo hi end [] h a = omega (arith, a)
set_last-Ascending lo hi end (b ∷ []) h a = (omega (arith, a.0, a.1), le_refl end)
set_last-Ascending lo hi end (b ∷ c ∷ bs) h a = (a.0, set_last-Ascending b hi end (c ∷ bs) h a.1)

pub length-set_last : (bs : List ℕ) (n : ℕ) → length (set_last bs n) ≡ length bs
length-set_last [] n = refl
length-set_last (b ∷ []) n = refl
length-set_last (b ∷ c ∷ bs) n = ap suc (length-set_last (c ∷ bs) n)

length-replicate : (k n : ℕ) → length (replicate k n) ≡ k
length-replicate zero n = refl
length-replicate (suc k) n = omega (arith, length-replicate k n)

-- A boundary in front of the text and one behind each of its bytes, which do not fall and do not pass a
-- place of the input.
abbrev pub Bounded : NormalizedTextMap → ℕ → Type 0
Bounded m hi = (length m.boundaries ≡ suc (length m.text)) × Ascending 0 m.boundaries hi

pub append-Bounded :
    (m : NormalizedTextMap) (s : Bytes) (hi end : ℕ)
    → hi ≤ end
    → Bounded m hi
    → Bounded (append_mapped m s end) end
append-Bounded m s hi end h (l, a) = (
  omega (
    arith,
    l,
    length-append m.boundaries (replicate (length s) end),
    length-append m.text s,
    length-replicate (length s) end,
  ),
  append-Ascending 0 hi end (length s) m.boundaries h a,
)

pub Bounded-weaken : (m : NormalizedTextMap) (hi end : ℕ) → hi ≤ end → Bounded m hi → Bounded m end
Bounded-weaken m hi end h (l, a) = (
  l,
  subst (λ bs. Ascending 0 bs end) (append-nil m.boundaries)
      (append-Ascending 0 hi end 0 m.boundaries h a),
)

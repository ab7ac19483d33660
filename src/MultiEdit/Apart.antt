-- ===== src/MultiEdit/Apart.antt =====
-- Edits that are not refused do not overlap.
use native.Mathlib.Nat.{le_refl}
use mathlib.Core.List.{Perm}
use mathlib.Core.List.Perm
use jinn.Base.{
  ℕ, zero, suc, ◌+◌, ◌≤◌, ◌≡◌, ◌≢◌, refl, sym, ap, ap₂, ◌∙◌, ◌⊎◌, inl, inr, Bool, true, false, none,
  some, List, [], ◌∷◌, ◌++◌, Bytes, bytes_eq, bytes_eq_iff, length, ltb, if◌then◌else◌, if_cases,
  arith,
}
use jinn.MultiEdit.{
  RawEntry, OffsetEntry, locate, signature, swap_pass, sort_within, sort_offsets_ascending,
  check_file_overlaps,
}

abbrev pub All : (OffsetEntry → Type 0) → List OffsetEntry → Type 0
All P [] = Unit
All P (x ∷ xs) = P x × All P xs

-- No entry stands in front of one with a lower offset.
abbrev pub Sorted : List OffsetEntry → Type 0
Sorted [] = Unit
Sorted (x ∷ xs) = All (λ y. x.match_offset ≤ y.match_offset) xs × Sorted xs

swap_pass-All :
    (P : OffsetEntry → Type 0) (x : OffsetEntry) (ys : List OffsetEntry)
    → P x
    → All P ys
    → P (swap_pass x ys).0 × All P (swap_pass x ys).1
unfolding swap_pass
swap_pass-All P x [] p ps = (p, tt)
swap_pass-All P x (y ∷ ys) p ps =
    let swaps = ltb y.match_offset x.match_offset in
    let (a, b) =
      swap_pass-All P (if swaps then y else x) ys (if_cases P swaps y x (λ _. ps.0) (λ _. p))
        ps.1 in
    (a, (if_cases P swaps x y (λ _. p) (λ _. ps.0), b))

sort_within-All :
    (P : OffsetEntry → Type 0) (fuel : ℕ) (xs : List OffsetEntry)
    → All P xs
    → All P (sort_within fuel xs)
unfolding sort_within
sort_within-All P zero xs h = h
sort_within-All P (suc fuel) [] h = tt
sort_within-All P (suc fuel) (x ∷ xs) h =
    let (a, b) = swap_pass-All P x xs h.0 h.1 in (a, sort_within-All P fuel (swap_pass x xs).1 b)

All-map :
    (P Q : OffsetEntry → Type 0) (xs : List OffsetEntry)
    → ((x : OffsetEntry) → P x → Q x)
    → All P xs
    → All Q xs
All-map P Q [] f h = tt
All-map P Q (x ∷ xs) f h = (f x h.0, All-map P Q xs f h.1)

least_step :
    (x y : OffsetEntry) (b : Bool)
    → ltb y.match_offset x.match_offset ≡ b
    → (m : ℕ) → m ≤ (if b then y else x).match_offset
    → (m ≤ x.match_offset) × (m ≤ (if b then x else y).match_offset)
least_step x y true e m h = (ground arith, ground arith)
least_step x y false e m h = (h, ground arith)

-- The entry that ends up in front has the least offset.
swap_pass-least :
    (x : OffsetEntry) (ys : List OffsetEntry)
    → ((swap_pass x ys).0.match_offset ≤ x.match_offset)
      × All (λ y. (swap_pass x ys).0.match_offset ≤ y.match_offset) (swap_pass x ys).1
unfolding swap_pass
swap_pass-least x [] = (le_refl x.match_offset, tt)
swap_pass-least x (y ∷ ys) =
    let swaps = ltb y.match_offset x.match_offset in
    let (a, b) = swap_pass-least (if swaps then y else x) ys in
    let (c, d) = least_step x y swaps refl _ a in (c, (d, b))

length-swap_pass : (x : OffsetEntry) (ys : List OffsetEntry) → length (swap_pass x ys).1 ≡ length ys
unfolding swap_pass
length-swap_pass x [] = refl
length-swap_pass x (y ∷ ys) =
    ap suc (length-swap_pass (if ltb y.match_offset x.match_offset then y else x) ys)

sort_within-Sorted :
    (fuel : ℕ) (xs : List OffsetEntry) → length xs ≤ fuel → Sorted (sort_within fuel xs)
unfolding sort_within
sort_within-Sorted zero [] h = tt
sort_within-Sorted zero (x ∷ xs) h = absurd (omega arith)
sort_within-Sorted (suc fuel) [] h = tt
sort_within-Sorted (suc fuel) (x ∷ xs) h = (
  sort_within-All _ fuel (swap_pass x xs).1 (swap_pass-least x xs).1,
  sort_within-Sorted fuel (swap_pass x xs).1 (omega (arith, length-swap_pass x xs)),
)

first_two :
    (x y : OffsetEntry) (ys : List OffsetEntry) (b : Bool)
    → Perm (x ∷ y ∷ ys) ((if b then x else y) ∷ (if b then y else x) ∷ ys)
first_two x y ys true = Perm.refl (x ∷ y ∷ ys)
first_two x y ys false = Perm.swap y x ys

swap_pass-Perm :
    (x : OffsetEntry) (ys : List OffsetEntry)
    → Perm (x ∷ ys) ((swap_pass x ys).0 ∷ (swap_pass x ys).1)
unfolding swap_pass
swap_pass-Perm x [] = Perm.refl (x ∷ [])
swap_pass-Perm x (y ∷ ys) =
    let b = ltb y.match_offset x.match_offset in
    let next = swap_pass (if b then y else x) ys in
    Perm.trans (first_two x y ys b) (
      Perm.trans (Perm.cons (if b then x else y) (swap_pass-Perm (if b then y else x) ys))
        (Perm.swap next.0 (if b then x else y) next.1))

sort_within-Perm : (fuel : ℕ) (xs : List OffsetEntry) → Perm xs (sort_within fuel xs)
unfolding sort_within
sort_within-Perm zero xs = Perm.refl xs
sort_within-Perm (suc fuel) [] = Perm.refl []
sort_within-Perm (suc fuel) (x ∷ xs) =
    Perm.trans (swap_pass-Perm x xs)
      (Perm.cons (swap_pass x xs).0 (sort_within-Perm fuel (swap_pass x xs).1))

-- The offsets are sorted: none is lost or added, and they do not fall.
pub sort_offsets_ascending-Sorted :
    (entries : List OffsetEntry)
    → Perm entries (sort_offsets_ascending entries) × Sorted (sort_offsets_ascending entries)
sort_offsets_ascending-Sorted entries = (
  sort_within-Perm (length entries) entries,
  sort_within-Sorted (length entries) entries (le_refl (length entries)),
)

-- A text without the byte that separates the parts of a signature.
abbrev pub LacksNul : Bytes → Type 0
LacksNul [] = Unit
LacksNul (c ∷ s) = (c ≢ 0) × LacksNul s

old_of_signature : (s t u v : Bytes) → LacksNul s → LacksNul t → s ++ (0 ∷ u) ≡ t ++ (0 ∷ v) → s ≡ t
old_of_signature [] [] u v a b e = refl
old_of_signature [] (c ∷ t) u v a b e = absurd (b.0 (let q : 0 ≡ c = cc in sym q))
old_of_signature (c ∷ s) [] u v a b e = absurd (a.0 cc)
old_of_signature (c ∷ s) (d ∷ t) u v a b e =
    let head : c ≡ d = cc in
    let rest : s ++ (0 ∷ u) ≡ t ++ (0 ∷ v) = cc in
    ap₂ ◌∷◌ head (old_of_signature s t u v a.1 b.1 rest)

-- The same bytes of the file.
abbrev pub SameRegion : OffsetEntry → OffsetEntry → Type 0
SameRegion x y = (x.match_offset ≡ y.match_offset) × (x.match_length ≡ y.match_length)

-- One entry ends where the other begins or before, or both are for the same bytes.
abbrev pub ApartFrom : OffsetEntry → OffsetEntry → Type 0
ApartFrom x y = SameRegion x y ⊎ (x.match_offset + x.match_length ≤ y.match_offset)

abbrev pub AllApart : List OffsetEntry → Type 0
AllApart [] = Unit
AllApart (x ∷ xs) = All (ApartFrom x) xs × AllApart xs

apart_trans :
    (x y z : OffsetEntry)
    → ApartFrom x y
    → x.match_offset ≤ y.match_offset
    → y.match_offset ≤ z.match_offset
    → ApartFrom y z
    → ApartFrom x z
apart_trans x y z (inl (e, f)) o s (inl (g, h)) = inl (e ∙ g, f ∙ h)
apart_trans x y z (inl (e, f)) o s (inr g) = inr (omega arith)
apart_trans x y z (inr g) o s h = inr (omega arith)

module _ (content : Bytes) (pair : ℕ → Bytes) where
  -- An offset that was found for an edit of the file, whose old text has no zero byte.
  abbrev pub FoundFor : OffsetEntry → Type 0
  FoundFor x =
      (re : RawEntry) × (pair x.edit_idx ≡ signature re)
      × LacksNul re.old_text
      × (locate content re.old_text ≡ some (x.match_offset, x.match_length))

  alike :
      (x y : OffsetEntry)
      → FoundFor x
      → FoundFor y
      → bytes_eq (pair x.edit_idx) (pair y.edit_idx) ≡ true
      → SameRegion x y
  alike x y (re, p, n, l) (re', p', n', l') e =
      let same : signature re ≡ signature re' =
        sym p ∙ (bytes_eq_iff (pair x.edit_idx) (pair y.edit_idx)).0 e ∙ p' in
      let old = old_of_signature re.old_text re'.old_text re.new_text re'.new_text n n' same in
      let both : some (x.match_offset, x.match_length) ≡ some (y.match_offset, y.match_length) =
        sym l ∙ ap (locate content) old ∙ l' in
      let q : (x.match_offset, x.match_length) ≡ (y.match_offset, y.match_length) = cc in
      (ap (λ (t : ℕ × ℕ). t.0) q, ap (λ (t : ℕ × ℕ). t.1) q)

  neighbours :
      (x y : OffsetEntry) (zs : List OffsetEntry)
      → ApartFrom x y
      → x.match_offset ≤ y.match_offset
      → All (λ z. y.match_offset ≤ z.match_offset) zs
      → All (ApartFrom y) zs
      → All (ApartFrom x) zs
  neighbours x y [] h o s a = tt
  neighbours x y (z ∷ zs) h o s a = (apart_trans x y z h o s.0 a.0, neighbours x y zs h o s.1 a.1)

  check_file_overlaps-AllApart :
      (xs : List OffsetEntry)
      → All FoundFor xs
      → Sorted xs
      → check_file_overlaps pair xs ≡ none
      → AllApart xs
  unfolding check_file_overlaps
  check_file_overlaps-AllApart [] f s h = tt
  check_file_overlaps-AllApart (x ∷ []) f s h = (tt, tt)
  check_file_overlaps-AllApart (x ∷ y ∷ zs) f s h =
      let rest = check_file_overlaps-AllApart (y ∷ zs) f.1 s.1 in
      let both : ApartFrom x y → check_file_overlaps pair (y ∷ zs) ≡ none → AllApart (x ∷ y ∷ zs) =
        λ a k. ((a, neighbours x y zs a s.0.0 s.1.0 (rest k).0), rest k) in
      if_cases (λ o. o ≡ none → AllApart (x ∷ y ∷ zs))
        (bytes_eq (pair x.edit_idx) (pair y.edit_idx)) _ _
        (λ e k. both (inl (alike x y f.0 f.1.0 e)) k)
        (λ _.
          if_cases (λ o. o ≡ none → AllApart (x ∷ y ∷ zs))
            (ltb y.match_offset (x.match_offset + x.match_length)) _ _
            (λ _ k. absurd (ground arith)) (λ e k. both (inr (ground arith)) k))
        h

  -- If no error is reported for a file, any two of its edits are for the same bytes of the original
  -- content or for bytes that do not overlap.
  pub no_overlap-AllApart :
      (entries : List OffsetEntry)
      → All FoundFor entries
      → check_file_overlaps pair (sort_offsets_ascending entries) ≡ none
      → AllApart (sort_offsets_ascending entries)
  no_overlap-AllApart entries f h =
      check_file_overlaps-AllApart (sort_offsets_ascending entries)
        (sort_within-All FoundFor (length entries) entries f)
        (sort_offsets_ascending-Sorted entries).1 h

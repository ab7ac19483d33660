-- ===== src/Base/Text.antt =====
-- Splitting and joining text: strings.Split and strings.Join at a one-byte separator.
use Prim.Native.Nat.{ℕ, zero, suc, ◌+◌, ◌/◌, ◌%◌}
use mathlib.Core.Path.{◌≡◌, refl, ap, ◌∙◌}
use mathlib.Core.Logic.{◌≢◌}
use mathlib.Core.Bool.{Bool, false}
use mathlib.Core.List.{List, [], ◌∷◌, ◌++◌, cons-ne-nil}
use native.Mathlib.Omega.{arith}
use jinn.Base.Tests.{◌==◌, ==_iff, ltb, if◌then◌else◌, Bool-cases}
use jinn.Base.Strings.{Bytes, bytes_eq}
use mathlib.Core.Logic.{inl, inr}

-- A byte in front of the first part.
abbrev pub onto_first : ℕ → List Bytes → List Bytes
onto_first c [] = (c ∷ []) ∷ []
onto_first c (p ∷ ps) = (c ∷ p) ∷ ps

-- strings.Split(s, sep): one part more than there are separators.
unfoldable pub split : ℕ → Bytes → List Bytes
split sep [] = [] ∷ []
split sep (c ∷ s) = let rest = split sep s in if c == sep then [] ∷ rest else onto_first c rest

-- strings.Join(parts, sep)
unfoldable pub join : ℕ → List Bytes → Bytes
join sep [] = []
join sep (p ∷ []) = p
join sep (p ∷ q ∷ ps) = p ++ sep ∷ join sep (q ∷ ps)

pub split-ne-nil : (sep : ℕ) (s : Bytes) → split sep s ≢ []
unfolding split
split-ne-nil sep [] = cons-ne-nil _ _
split-ne-nil sep (c ∷ s) = ground (arith, split-ne-nil sep s)

join-onto_first :
    (sep c : ℕ) (ps : List Bytes) → ps ≢ [] → join sep (onto_first c ps) ≡ c ∷ join sep ps
unfolding join
join-onto_first sep c [] h = absurd (h refl)
join-onto_first sep c (p ∷ []) h = refl
join-onto_first sep c (p ∷ q ∷ ps) h = refl

join-nil_first : (sep : ℕ) (ps : List Bytes) → ps ≢ [] → join sep ([] ∷ ps) ≡ sep ∷ join sep ps
unfolding join
join-nil_first sep [] h = absurd (h refl)
join-nil_first sep (p ∷ ps) h = refl

pub join-split : (sep : ℕ) (s : Bytes) → join sep (split sep s) ≡ s
unfolding split
join-split sep [] = unfold join in refl
join-split sep (c ∷ s) = elim (Bool-cases (c == sep)) [
  | inl e ↦ rw e (
      join-nil_first sep (split sep s) (split-ne-nil sep s)
      ∙ ap (◌∷◌ sep) (join-split sep s)
      ∙ ap (λ b. b ∷ s) (ground (arith, ==_iff c sep)))
  | inr e ↦
      rw e
        (join-onto_first sep c (split sep s) (split-ne-nil sep s) ∙ ap (◌∷◌ c) (join-split sep s))
]

-- strings.TrimRight at the bytes that `p` accepts.
unfoldable pub trim_right : (ℕ → Bool) → Bytes → Bytes
trim_right p [] = []
trim_right p (c ∷ s) =
    let rest = trim_right p s in
    elim rest [ [] ↦ (if p c then [] else c ∷ []) | x ∷ xs ↦ c ∷ x ∷ xs ]

-- The digits of `n` in front of `out`, for at most `fuel` of them.
digits : ℕ → ℕ → Bytes → Bytes
digits zero n out = out
digits (suc fuel) n out =
    let out' = (b'0' + n % 10) ∷ out in
    let more = digits fuel (n / 10) out' in if ltb n 10 then out' else more

-- The verb %d of package fmt: a number below 10 ^ (n + 1) has at most n + 1 digits.
unfoldable pub decimal : ℕ → Bytes
unfolding digits
decimal n = digits (n + 1) n []

-- The slice without its last element.
unfoldable pub drop_last : List Bytes → List Bytes
drop_last [] = []
drop_last (x ∷ []) = []
drop_last (x ∷ y ∷ xs) = x ∷ drop_last (y ∷ xs)

-- Whether the last element is the empty string.
unfoldable pub ends_empty : List Bytes → Bool
unfolding bytes_eq
ends_empty [] = false
ends_empty (x ∷ []) = bytes_eq x []
ends_empty (x ∷ y ∷ xs) = ends_empty (y ∷ xs)

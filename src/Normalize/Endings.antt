-- ===== src/Normalize/Endings.antt =====
-- Line endings: what detectLineEnding finds, and that restoring an ending and normalising are inverse.
use jinn.Base.{
  ℕ, suc, ◌≡◌, ◌≢◌, refl, ap, ◌∙◌, Bool, true, false, ◌&&◌, Option, none, some, [], ◌∷◌, Bytes,
  has_prefix, bytes_eq, Bool-cases, inl, inr, ◌==◌, if◌then◌else◌, arith,
}
use mathlib.Core.Option
use jinn.Normalize.{
  lf, cr, crlf, index, ending_at, detect_line_ending, replace_crlf, replace_cr, normalize_to_lf,
  replace_lf, restore_line_endings,
}

-- A text with no carriage return.
abbrev pub LacksCr : Bytes → Type 0
LacksCr [] = Unit
LacksCr (c ∷ s) = (c ≢ cr) × LacksCr s

replace_cr-LacksCr : (s : Bytes) → LacksCr (replace_cr s)
unfolding replace_cr
replace_cr-LacksCr [] = tt
replace_cr-LacksCr (c ∷ s) = (ground arith, replace_cr-LacksCr s)

replace_cr_fixed : (s : Bytes) → LacksCr s → replace_cr s ≡ s
unfolding replace_cr
replace_cr_fixed [] h = refl
replace_cr_fixed (c ∷ s) (h, hs) = ground (arith, replace_cr_fixed s hs)

replace_crlf_fixed : (s : Bytes) → LacksCr s → replace_crlf s ≡ s
unfolding replace_crlf
replace_crlf_fixed [] h = refl
replace_crlf_fixed (c ∷ []) h = refl
replace_crlf_fixed (c ∷ d ∷ s) (h, hs) = ground (arith, replace_crlf_fixed (d ∷ s) hs)

normalize_fixed : (s : Bytes) → LacksCr s → normalize_to_lf s ≡ s
unfolding normalize_to_lf
normalize_fixed s h = ap replace_cr (replace_crlf_fixed s h) ∙ replace_cr_fixed s h

normalize-LacksCr : (s : Bytes) → LacksCr (normalize_to_lf s)
unfolding normalize_to_lf
normalize-LacksCr s = replace_cr-LacksCr (replace_crlf s)

-- The normal form has no carriage return, and is its own normal form.
pub normalize_to_lf-LacksCr :
    (s : Bytes)
    → LacksCr (normalize_to_lf s) × (normalize_to_lf (normalize_to_lf s) ≡ normalize_to_lf s)
normalize_to_lf-LacksCr s = (normalize-LacksCr s, normalize_fixed _ (normalize-LacksCr s))

pub replace_crlf-cons : (c : ℕ) (s : Bytes) → c ≢ cr → replace_crlf (c ∷ s) ≡ c ∷ replace_crlf s
unfolding replace_crlf
replace_crlf-cons c [] h = refl
replace_crlf-cons c (d ∷ s) h = ground arith

replace_crlf-crlf : (s : Bytes) → replace_crlf (cr ∷ lf ∷ s) ≡ lf ∷ replace_crlf s
unfolding replace_crlf
replace_crlf-crlf s = refl

replace_crlf-replace_lf : (s : Bytes) → LacksCr s → replace_crlf (replace_lf s) ≡ s
unfolding replace_lf
replace_crlf-replace_lf [] h = unfold replace_crlf in refl
replace_crlf-replace_lf (c ∷ s) (h, hs) = ground (
  arith,
  replace_crlf-crlf (replace_lf s),
  replace_crlf-cons c (replace_lf s) h,
  replace_crlf-replace_lf s hs,
)

-- Text with no carriage return comes back from either ending.
pub normalize-restore :
    (s ending : Bytes) → LacksCr s → normalize_to_lf (restore_line_endings s ending) ≡ s
unfolding restore_line_endings
normalize-restore s ending h = elim (Bool-cases (bytes_eq ending crlf)) [
  | inl e ↦
      rw e (
        unfold normalize_to_lf in
        ap replace_cr (replace_crlf-replace_lf s h) ∙ replace_cr_fixed s h)
  | inr e ↦ rw e (normalize_fixed s h)
]

-- The first line ends in "\r\n": `prev` is the byte before the text.
abbrev pub first_line_is_crlf : ℕ → Bytes → Bool
first_line_is_crlf prev [] = false
first_line_is_crlf prev (c ∷ s) =
    let later = first_line_is_crlf c s in if c == lf then prev == cr else later

-- The byte before the text counts only if the text begins with a line feed.
prev_irrelevant :
    (p q : ℕ) (s : Bytes)
    → (has_prefix s (lf ∷ []) ≡ false)
    → first_line_is_crlf p s ≡ first_line_is_crlf q s
unfolding has_prefix
prev_irrelevant p q [] h = refl
prev_irrelevant p q (c ∷ []) h = ground arith
prev_irrelevant p q (c ∷ d ∷ s) h = ground arith

ending_at-suc : (a b : Option ℕ) → ending_at (Option.map suc a) (Option.map suc b) ≡ ending_at a b
unfolding ending_at
ending_at-suc none b = refl
ending_at-suc (some a) none = refl
ending_at-suc (some a) (some b) = ground arith

ending_at-zero : (a : Option ℕ) → ending_at a (some 0) ≡ lf ∷ []
unfolding ending_at
ending_at-zero none = refl
ending_at-zero (some a) = ground arith

prev_not_cr : (c : ℕ) (s : Bytes) → c ≢ cr → first_line_is_crlf c s ≡ first_line_is_crlf 0 s
prev_not_cr c [] h = refl
prev_not_cr c (d ∷ s) h = ground arith

pub index-hit : (c : ℕ) (s sub : Bytes) → has_prefix (c ∷ s) sub ≡ true → index (c ∷ s) sub ≡ some 0
unfolding index
index-hit c s sub h = rw h

index-miss :
    (c : ℕ) (s sub : Bytes)
    → has_prefix (c ∷ s) sub ≡ false
    → index (c ∷ s) sub ≡ Option.map suc (index s sub)
unfolding index
index-miss c s sub h = rw h

index-lf : (s : Bytes) → has_prefix s (lf ∷ []) ≡ true → index s (lf ∷ []) ≡ some 0
unfolding has_prefix
index-lf [] h = cc
index-lf (c ∷ s) h = index-hit c s (lf ∷ []) h

prefix-lf : (c : ℕ) (s : Bytes) → has_prefix (c ∷ s) (lf ∷ []) ≡ (c == lf)
unfolding has_prefix
prefix-lf c s = ground arith

prefix-crlf : (c : ℕ) (s : Bytes) → has_prefix (c ∷ s) crlf ≡ (c == cr && has_prefix s (lf ∷ []))
unfolding has_prefix
prefix-crlf c s = refl

-- At the byte `c`, which is no line feed and does not begin a "\r\n", both positions move by one.
detect-skip :
    (c : ℕ) (s : Bytes)
    → has_prefix (c ∷ s) (lf ∷ []) ≡ false
    → has_prefix (c ∷ s) crlf ≡ false
    → detect_line_ending (c ∷ s) ≡ detect_line_ending s
unfolding detect_line_ending
detect-skip c s h h' =
    rw (index-miss c s (lf ∷ []) h, index-miss c s crlf h')
      (ending_at-suc (index s crlf) (index s (lf ∷ [])))

detect-lf : (c : ℕ) (s : Bytes) → (c == lf) ≡ true → detect_line_ending (c ∷ s) ≡ lf ∷ []
unfolding detect_line_ending
detect-lf c s h =
    rw (index-hit c s (lf ∷ []) (prefix-lf c s ∙ h)) (ending_at-zero (index (c ∷ s) crlf))

detect-crlf :
    (c : ℕ) (s : Bytes)
    → (c == cr) ≡ true
    → has_prefix s (lf ∷ []) ≡ true
    → detect_line_ending (c ∷ s) ≡ crlf
unfolding detect_line_ending
detect-crlf c s h h' =
    rw
      (
        index-hit c s crlf (rw (prefix-crlf c s, h) h'),
        index-miss c s (lf ∷ []) (rw (prefix-lf c s) (ground arith)),
        index-lf s h',
      )
      (unfold ending_at in refl)

first_line-crlf :
    (c : ℕ) (s : Bytes)
    → (c == cr) ≡ true
    → has_prefix s (lf ∷ []) ≡ true
    → first_line_is_crlf c s ≡ true
unfolding has_prefix
first_line-crlf c [] h h' = cc
first_line-crlf c (d ∷ s) h h' = ground arith

-- The ending is "\r\n" exactly if the first line feed of the text follows a carriage return.
pub detect_line_ending_lem :
    (s : Bytes) → detect_line_ending s ≡ (if first_line_is_crlf 0 s then crlf else lf ∷ [])
detect_line_ending_lem [] = unfold detect_line_ending in refl
detect_line_ending_lem (c ∷ s) = elim (Bool-cases (c == lf)) [
  | inl e ↦ rw (detect-lf c s e, e)
  | inr e ↦ elim (Bool-cases (c == cr)) [
    | inl r ↦ elim (Bool-cases (has_prefix s (lf ∷ []))) [
      | inl p ↦ rw (detect-crlf c s r p, e, first_line-crlf c s r p)
      | inr p ↦
          rw (e, prev_irrelevant c 0 s p)
            (detect-skip c s (prefix-lf c s ∙ e) (rw (prefix-crlf c s, r) p)
              ∙ detect_line_ending_lem s)
    ]
    | inr r ↦
        rw (e, prev_not_cr c s (ground arith))
          (detect-skip c s (prefix-lf c s ∙ e) (rw (prefix-crlf c s, r)) ∙ detect_line_ending_lem s)
  ]
]

-- ===== src/ExitCode/Hints.antt =====
-- A hint that an earlier pattern keeps from being given.
use jinn.Base.{
  ◌&&◌, ◌==◌, ℕ, ◌≡◌, refl, ap, sym, ◌∙◌, Bool, true, false, ◌||◌, inl, inr, List, [], ◌∷◌, ◌++◌,
  take, drop, if_true, if_false, Bytes, codes, has_prefix, if◌then◌else◌, Bool-cases, arith,
}
use jinn.ExitCode.{StderrHint, hint_on, stderr_hints, contains, first_hint, match_stderr_hint}

or_true : (a : Bool) {b : Bool} → b ≡ true → (a || b) ≡ true
or_true true h = refl
or_true false h = h

and_right : (a : Bool) {b : Bool} → (a && b) ≡ true → b ≡ true
and_right true h = h
and_right false h = ground arith

contains-here : (s q : Bytes) → has_prefix s q ≡ true → contains s q ≡ true
unfolding contains
contains-here [] q h = h
contains-here (c ∷ s) q h = ap (λ b. b || contains s q) h

contains-later : (c : ℕ) (s q : Bytes) → contains s q ≡ true → contains (c ∷ s) q ≡ true
unfolding contains
contains-later c s q h = or_true (has_prefix (c ∷ s) q) h

prefix-contains-rest : (s p q : Bytes) → has_prefix s (p ++ q) ≡ true → contains s q ≡ true
unfolding has_prefix
prefix-contains-rest s [] q h = contains-here s q h
prefix-contains-rest [] (c ∷ p) q h = ground arith
prefix-contains-rest (d ∷ s) (c ∷ p) q h =
    contains-later d s q (prefix-contains-rest s p q (and_right (d == c) h))

-- A text that contains p ++ q contains q.
contains-suffix : (s p q : Bytes) → contains s (p ++ q) ≡ true → contains s q ≡ true
unfolding contains
contains-suffix [] p q h = prefix-contains-rest [] p q h
contains-suffix (c ∷ s) p q h = elim (Bool-cases (has_prefix (c ∷ s) (p ++ q))) [
  | inl t ↦ prefix-contains-rest (c ∷ s) p q t
  | inr f ↦
      contains-later c s q (contains-suffix s p q (sym (ap (λ b. b || contains s (p ++ q)) f) ∙ h))
]

-- A row that does not match can be left out.
first_hint-unmatched :
    (to_lower : Bytes → Bytes) (r : StderrHint) (before after : List StderrHint) (lower : Bytes)
    → contains lower (to_lower r.pattern) ≡ false
    → first_hint to_lower (before ++ r ∷ after) lower ≡ first_hint to_lower (before ++ after) lower
unfolding first_hint
first_hint-unmatched to_lower r [] after lower e = if_false _ _ e
first_hint-unmatched to_lower r (h ∷ before) after lower e =
    ap (λ later. if contains lower (to_lower h.pattern) then h.hint else later)
      (first_hint-unmatched to_lower r before after lower e)

-- So can a row behind one that matches wherever it does.
first_hint-shadowed :
    (to_lower : Bytes → Bytes) (h r : StderrHint) (between after : List StderrHint) (lower : Bytes)
    → (contains lower (to_lower r.pattern) ≡ true → contains lower (to_lower h.pattern) ≡ true)
    → first_hint to_lower (h ∷ between ++ r ∷ after) lower
      ≡ first_hint to_lower (h ∷ between ++ after) lower
first_hint-shadowed to_lower h r between after lower covers =
    elim (Bool-cases (contains lower (to_lower r.pattern))) [
      | inl t ↦ unfold first_hint in if_true _ _ (covers t) ∙ sym (if_true _ _ (covers t))
      | inr f ↦ first_hint-unmatched to_lower r (h ∷ between) after lower f
    ]

first_hint-cons :
    (to_lower : Bytes → Bytes) (h : StderrHint) (xs ys : List StderrHint) (lower : Bytes)
    → first_hint to_lower xs lower ≡ first_hint to_lower ys lower
    → first_hint to_lower (h ∷ xs) lower ≡ first_hint to_lower (h ∷ ys) lower
unfolding first_hint
first_hint-cons to_lower h xs ys lower e =
    ap (λ later. if contains lower (to_lower h.pattern) then h.hint else later) e

-- Where lower-casing leaves these two lower-case patterns as they are, the row "cargo: command not found"
-- gives no hint: with or without it, the hint on any text is the same, since the row "command not found"
-- stands before it.
pub match_stderr_hint-cargo :
    (to_lower : Bytes → Bytes) (stderr : Bytes)
    → to_lower (codes "command not found") ≡ codes "command not found"
    → to_lower (codes "cargo: command not found") ≡ codes "cargo: command not found"
    → match_stderr_hint to_lower stderr
      ≡ first_hint to_lower (take 9 stderr_hints ++ drop 10 stderr_hints) (to_lower stderr)
unfolding match_stderr_hint
match_stderr_hint-cargo to_lower stderr a b =
    let lower = to_lower stderr in
    let not_found = codes "command not found" in
    let covers : contains lower (to_lower (codes "cargo: command not found")) ≡ true
        → contains lower (to_lower not_found) ≡ true =
      λ h.
        ap (contains lower) a
        ∙ contains-suffix lower (codes "cargo: ") not_found (sym (ap (contains lower) b) ∙ h) in
    first_hint-cons to_lower _ (drop 1 stderr_hints)
      (take 8 (drop 1 stderr_hints) ++ drop 10 stderr_hints) lower
      (first_hint-shadowed to_lower
        (hint_on not_found (codes "install the missing command or check PATH"))
        (hint_on (codes "cargo: command not found") (codes "install Rust via rustup"))
        (take 7 (drop 2 stderr_hints)) (drop 10 stderr_hints) lower covers)

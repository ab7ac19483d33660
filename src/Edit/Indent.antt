-- ===== src/Edit/Indent.antt =====
-- internal/jinn/edit_apply.go, reindentNewText: what becomes of the lines of the new text.
use jinn.Base.{
  ℕ, zero, suc, ◌≤◌, ◌≡◌, ◌≢◌, ◌⊎◌, refl, sym, ap, ◌∙◌, inl, inr, true, false, Bool-cases, Option,
  some, none, List, [], ◌∷◌, ◌++◌, Bytes, length, take, drop, take-append-drop, length-take,
  trim_space, split, join, map, leb, ltb, if◌then◌else◌, if_cases, if_true, if_false, arith,
}
use jinn.Normalize.{lf, is_blank}
use jinn.Edit.{leading_blanks, is_empty, least_indent, reindent_line, reindent_new_text}

abbrev pub AllBlank : Bytes → Type 0
AllBlank [] = Unit
AllBlank (c ∷ s) = (is_blank c ≡ true) × AllBlank s

-- A line of white space becomes empty; any other loses n blanks at its front and gets the indentation.
abbrev pub Reindented : ℕ → Bytes → Bytes → Bytes → Type 0
Reindented n indent line written =
    ((trim_space line ≡ []) × (written ≡ []))
    ⊎ ((trim_space line ≢ [])
        × (blanks : Bytes) × (rest : Bytes) × (line ≡ blanks ++ rest)
        × (length blanks ≡ n)
        × AllBlank blanks
        × (written ≡ indent ++ rest))

abbrev pub AllReindented : ℕ → Bytes → List Bytes → List Bytes → Type 0
AllReindented n indent [] [] = Unit
AllReindented n indent (l ∷ ls) (w ∷ ws) = Reindented n indent l w × AllReindented n indent ls ws
AllReindented n indent _ _ = ⊥

-- Every line of the text is moved by the same number of blanks to the indentation.
abbrev pub MovedTo : Bytes → Bytes → Bytes → Type 0
MovedTo indent new_text written =
    (n : ℕ) × (ws : List Bytes) × (written ≡ join lf ws)
    × AllReindented n indent (split lf new_text) ws

leading_blanks-AllBlank : (s : Bytes) → AllBlank (leading_blanks s)
unfolding leading_blanks
leading_blanks-AllBlank [] = tt
leading_blanks-AllBlank (c ∷ s) =
    if_cases AllBlank (is_blank c) (c ∷ leading_blanks s) [] (λ e. (e, leading_blanks-AllBlank s))
      (λ _. tt)

take_blanks :
    (n : ℕ) (s : Bytes) → n ≤ length (leading_blanks s) → AllBlank (take n s) × (n ≤ length s)
unfolding leading_blanks
take_blanks zero s h = (tt, omega arith)
take_blanks (suc n) [] h = absurd (omega arith)
take_blanks (suc n) (c ∷ s) h =
    if_cases
      (λ r.
        suc n ≤ length r → ((is_blank c ≡ true) × AllBlank (take n s)) × (suc n ≤ suc (length s)))
      (is_blank c) (c ∷ leading_blanks s) []
      (λ e g. let (a, b) = take_blanks n s (omega arith) in ((e, a), omega arith))
      (λ _ g. absurd (omega arith)) h

is_empty-nil : (s : Bytes) → is_empty s ≡ true → s ≡ []
is_empty-nil [] h = refl
is_empty-nil (c ∷ s) h = absurd (ground arith)

not_empty : (s : Bytes) → is_empty s ≡ false → s ≢ []
not_empty [] h e = ground arith
not_empty (c ∷ s) h e = ground arith

-- The number is at most the indentation of each line that is not white space.
abbrev AtMostIndent : ℕ → List Bytes → Type 0
AtMostIndent n [] = Unit
AtMostIndent n (l ∷ ls) =
    (is_empty (trim_space l) ≡ false → n ≤ length (leading_blanks l)) × AtMostIndent n ls

abbrev AtMost : ℕ → Option ℕ → Type 0
AtMost n none = Unit
AtMost n (some k) = n ≤ k

lowered :
    (n indent : ℕ) (least : Option ℕ)
    → AtMost n
        (elim least [ none ↦ some indent | some k ↦ if ltb indent k then some indent else some k ])
    → AtMost n least × (n ≤ indent)
lowered n indent none h = (tt, h)
lowered n indent (some k) h =
    if_cases (λ o. AtMost n o → (n ≤ k) × (n ≤ indent)) (ltb indent k) (some indent) (some k)
      (λ t g. (ground arith, g)) (λ f g. (g, ground arith)) h

least_indent-AtMost :
    (lines : List Bytes) (least : Option ℕ) (n : ℕ)
    → least_indent least lines ≡ some n
    → AtMost n least × AtMostIndent n lines
unfolding least_indent
least_indent-AtMost [] none n h = (tt, tt)
least_indent-AtMost [] (some k) n h = let q : k ≡ n = cc in (omega arith, tt)
least_indent-AtMost (l ∷ lines) least n h = elim (Bool-cases (is_empty (trim_space l))) [
  | inl t ↦
      let (a, b) =
        least_indent-AtMost lines least n
          (sym (ap (λ o. least_indent o lines) (if_true _ _ t)) ∙ h) in
      (a, (λ f. absurd (ground arith), b))
  | inr f ↦
      let (a, b) =
        least_indent-AtMost lines _ n (sym (ap (λ o. least_indent o lines) (if_false _ _ f)) ∙ h) in
      let (c, d) = lowered n (length (leading_blanks l)) least a in (c, (λ _. d, b))
]

reindent_line-Reindented :
    (indent : Bytes) (n : ℕ) (l : Bytes)
    → (is_empty (trim_space l) ≡ false → n ≤ length (leading_blanks l))
    → Reindented n indent l (reindent_line indent n l)
unfolding reindent_line
reindent_line-Reindented indent n l h = elim (Bool-cases (is_empty (trim_space l))) [
  | inl t ↦ inl (is_empty-nil _ t, if_true _ _ t)
  | inr f ↦
      let (a, b) = take_blanks n l (h f) in
      let fits : leb n (length l) ≡ true = ground arith in
      inr (
        not_empty _ f,
        take n l,
        drop n l,
        sym (take-append-drop n l),
        omega (arith, length-take n l, b),
        a,
        if_false _ _ f ∙ if_true _ _ fits,
      )
]

map-AllReindented :
    (indent : Bytes) (n : ℕ) (lines : List Bytes)
    → AtMostIndent n lines
    → AllReindented n indent lines (map (reindent_line indent n) lines)
map-AllReindented indent n [] h = tt
map-AllReindented indent n (l ∷ lines) (a, b) =
    (reindent_line-Reindented indent n l a, map-AllReindented indent n lines b)

-- The new text stays as it is, or its lines are moved to the indentation.
pub reindent_new_text-MovedTo :
    (new_text indent : Bytes)
    → (reindent_new_text new_text indent ≡ new_text)
      ⊎ MovedTo indent new_text (reindent_new_text new_text indent)
unfolding reindent_new_text
reindent_new_text-MovedTo new_text indent = of_least (least_indent none (split lf new_text)) refl
  where
    of_least :
        (o : Option ℕ)
        → least_indent none (split lf new_text) ≡ o
        → let written : Bytes = elim o [
          | none ↦ new_text
          | some least ↦ join lf (map (reindent_line indent least) (split lf new_text))
        ] in
          (written ≡ new_text) ⊎ MovedTo indent new_text written
    of_least none e = inl refl
    of_least (some n) e = inr (
      n,
      map (reindent_line indent n) (split lf new_text),
      refl,
      map-AllReindented indent n (split lf new_text)
          (least_indent-AtMost (split lf new_text) none n e).1,
    )

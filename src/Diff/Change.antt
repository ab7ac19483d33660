-- ===== src/Diff/Change.antt =====
-- When a diff reports a change, and which line it names as the first changed one.
use jinn.Base.{
  ℕ, suc, ◌≤◌, ◌≡◌, refl, sym, ap, ◌∙◌, subst, ◌↔◌, inl, inr, true, false, none, some, List, [],
  ◌∷◌, Bytes, bytes_eq, bytes_eq_iff, bytes_eq_refl, length, get_elem?, Bool-cases, arith,
}
use jinn.Diff.{
  keep, DiffOp, Script, compute_edit_script, split_diff_lines, old_side, new_side, kept,
}
use jinn.Diff.Sides.{compute_edit_script-sides}
use jinn.Diff.Shortest.{compute_edit_script_shortest}
use jinn.Diff.Hunks.{
  HunkRange, is_change, hunk_round, hunks_from, compute_hunks, Covered, compute_hunks_cover,
}
use jinn.Diff.Render.{format_script, render_diff_body}

-- A script with no change.
abbrev Unchanged : Script → Type 0
Unchanged [] = Unit
Unchanged (op ∷ ops) = (is_change op ≡ false) × Unchanged ops

Unchanged-sides : (s : Script) → Unchanged s → old_side s ≡ new_side s
Unchanged-sides [] h = refl
Unchanged-sides (op ∷ s) (h, hs) = ground (arith, Unchanged-sides s hs)

all_kept : List Bytes → Script
all_kept [] = []
all_kept (l ∷ ls) = record { tag = keep; value = l } ∷ all_kept ls

old_side-all_kept : (ls : List Bytes) → old_side (all_kept ls) ≡ ls
unfolding all_kept
old_side-all_kept [] = refl
old_side-all_kept (l ∷ ls) = ap (◌∷◌ l) (old_side-all_kept ls)

new_side-all_kept : (ls : List Bytes) → new_side (all_kept ls) ≡ ls
unfolding all_kept
new_side-all_kept [] = refl
new_side-all_kept (l ∷ ls) = ap (◌∷◌ l) (new_side-all_kept ls)

kept-all_kept : (ls : List Bytes) → kept (all_kept ls) ≡ length ls
unfolding all_kept
kept-all_kept [] = refl
kept-all_kept (l ∷ ls) = ap suc (kept-all_kept ls)

-- A script that keeps as many lines as each side has changes nothing.
kept-le-sides : (s : Script) → (kept s ≤ length (old_side s)) × (kept s ≤ length (new_side s))
kept-le-sides [] = omega arith
kept-le-sides (op ∷ s) = ground (arith, kept-le-sides s)

Unchanged-of_kept :
    (s : Script) → length (old_side s) ≤ kept s → length (new_side s) ≤ kept s → Unchanged s
Unchanged-of_kept [] h h' = tt
Unchanged-of_kept (op ∷ s) h h' = ground (arith, Unchanged-of_kept s, kept-le-sides s)

hunks_from-Unchanged :
    (context : ℕ) (s : Script) (idx : ℕ) → Unchanged s → hunks_from context s idx none ≡ []
unfolding hunks_from hunk_round
hunks_from-Unchanged context [] idx h = refl
hunks_from-Unchanged context (op ∷ s) idx (h, hs) =
    rw h (hunks_from-Unchanged context s (suc idx) hs)

-- Where every change is covered by no hunk at all, there is no change.
Unchanged-of_cover :
    (s : Script)
    → ((k : ℕ) (op : DiffOp) → get_elem? s k ≡ some op → is_change op ≡ true → ⊥)
    → Unchanged s
Unchanged-of_cover [] h = tt
Unchanged-of_cover (op ∷ s) h = elim (Bool-cases (is_change op)) [
  | inl c ↦ absurd (h 0 op refl c)
  | inr c ↦ (c, Unchanged-of_cover s (λ k. h (suc k)))
]

compute_hunks-nil : (s : Script) (context : ℕ) → (compute_hunks s context ≡ []) ↔ Unchanged s
compute_hunks-nil s context = (
  λ e.
      Unchanged-of_cover s
        (λ k op at c. subst (Covered k) e (compute_hunks_cover s context k op at c)),
  λ u. unfold compute_hunks in hunks_from-Unchanged context s 0 u,
)

compute_edit_script-Unchanged :
    (old new_text : Bytes)
    → (split_diff_lines old ≡ split_diff_lines new_text)
      ↔ Unchanged (compute_edit_script old new_text)
compute_edit_script-Unchanged old new_text =
    let (ho, hn) = compute_edit_script-sides old new_text in
    let ls = split_diff_lines old in
    (
      λ e.
          Unchanged-of_kept (compute_edit_script old new_text)
            (omega (arith, ap length ho, kept-all_kept ls, best e))
            (omega (arith, ap length hn, ap length e, kept-all_kept ls, best e)),
      λ u. sym ho ∙ Unchanged-sides _ u ∙ hn,
    )
  where
    best :
        split_diff_lines old ≡ split_diff_lines new_text
        → kept (all_kept (split_diff_lines old)) ≤ kept (compute_edit_script old new_text)
    best e =
        compute_edit_script_shortest old new_text (all_kept (split_diff_lines old))
          (old_side-all_kept _) (new_side-all_kept _ ∙ e)

format_script-none :
    (s : Script) (hs : List HunkRange) (context : ℕ)
    → (format_script s hs context ≡ none) ↔ (hs ≡ [])
unfolding format_script
format_script-none s [] context = (λ e. refl, λ e. refl)
format_script-none s (h ∷ hs) context = (λ e. cc, λ e. cc)

pub render_diff_body-same : (old : Bytes) (context : ℕ) → render_diff_body old old context ≡ none
unfolding render_diff_body
render_diff_body-same old context = rw (bytes_eq_refl old)

pub render_diff_body-differ :
    (old new_text : Bytes) (context : ℕ)
    → bytes_eq old new_text ≡ false
    → render_diff_body old new_text context
      ≡ format_script
          (compute_edit_script old new_text)
          (compute_hunks (compute_edit_script old new_text) context)
          context
unfolding render_diff_body
render_diff_body-differ old new_text context e = rw e

-- The diff reports no change exactly if the two texts have the same lines: a text that only gains or
-- loses the newline at its end is reported as unchanged.
pub render_diff_body-none :
    (old new_text : Bytes) (context : ℕ)
    → (render_diff_body old new_text context ≡ none)
      ↔ (split_diff_lines old ≡ split_diff_lines new_text)
render_diff_body-none old new_text context = elim (Bool-cases (bytes_eq old new_text)) [
  | inl e ↦
      let same = (bytes_eq_iff old new_text).0 e in
      (
        λ _. ap split_diff_lines same,
        λ _.
            subst (λ t. render_diff_body old t context ≡ none) same
              (render_diff_body-same old context),
      )
  | inr e ↦
      let differ = render_diff_body-differ old new_text context e in
      let script = compute_edit_script old new_text in
      let lines = compute_edit_script-Unchanged old new_text in
      let nil = compute_hunks-nil script context in
      let body = format_script-none script (compute_hunks script context) context in
      (λ h. lines.1 (nil.0 (body.0 (sym differ ∙ h))), λ h. differ ∙ body.1 (nil.1 (lines.0 h)))
]

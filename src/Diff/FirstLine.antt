-- ===== src/Diff/FirstLine.antt =====
-- The line that a diff names as the first changed one.
use native.Mathlib.Nat.{le_refl}
use jinn.Base.{
  ℕ, zero, suc, ◌+◌, ◌-◌, ◌≤◌, ◌<◌, ◌≡◌, refl, sym, ◌∙◌, inl, inr, true, false, none, some, List,
  [], ◌∷◌, Bytes, bytes_eq, bytes_eq_iff, length, length-take, length-drop, get_elem?, take, drop,
  min, ltb, Bool-cases, ltb→lt, ◌==◌, arith,
}
use jinn.Diff.{DiffOp, Script, compute_edit_script}
use jinn.Diff.Hunks.{
  HunkRange, is_change, consecutive, hunk_round, hunks_from, compute_hunks, Apart,
  compute_hunks-Apart,
}
use jinn.Diff.Render.{
  count_new, slice, HunkBounds, compute_hunk_bounds, first_change_new_line, render_lines,
  render_hunk, format_hunks, format_script, render_diff_body,
}
use jinn.Diff.Change.{render_diff_body-same, render_diff_body-differ}

-- The first hunk begins behind the kept lines at the front of the script.
abbrev Starts : ℕ → List HunkRange → Type 0
Starts n [] = Unit
Starts n (h ∷ hs) = h.start ≡ n

Starts-opened :
    (context : ℕ) (s : Script) (idx start : ℕ)
    → Starts start (hunks_from context s idx (some start))
unfolding hunks_from hunk_round
Starts-opened context [] idx start = refl
Starts-opened context (op ∷ s) idx start = ground (arith, Starts-opened context s (suc idx) start)

Starts-closed :
    (context : ℕ) (s : Script) (idx n : ℕ)
    → n ≡ idx + consecutive s
    → Starts n (hunks_from context s idx none)
unfolding hunks_from hunk_round
Starts-closed context [] idx n e = tt
Starts-closed context (op ∷ s) idx n e =
    ground (arith, Starts-closed context s (suc idx) n, Starts-opened context s (suc idx) n)

compute_hunks-Starts : (s : Script) (context : ℕ) → Starts (consecutive s) (compute_hunks s context)
unfolding compute_hunks
compute_hunks-Starts s context = Starts-closed context s 0 (consecutive s) (omega arith)

-- Among the kept lines at the front every line counts on the new side.
count_new-take : (s : Script) (n : ℕ) → n ≤ consecutive s → count_new (take n s) ≡ n
unfolding count_new consecutive
count_new-take s zero h = refl
count_new-take [] (suc n) h = absurd (omega arith)
count_new-take (op ∷ s) (suc n) h = ground (arith, count_new-take s n)

consecutive-drop :
    (s : Script) (n : ℕ) → n ≤ consecutive s → n + consecutive (drop n s) ≡ consecutive s
unfolding consecutive
consecutive-drop s zero h = omega arith
consecutive-drop [] (suc n) h = omega arith
consecutive-drop (op ∷ s) (suc n) h = ground (arith, consecutive-drop s n)

count_new-slice :
    (s : Script) (a b : ℕ) → a ≤ b → b ≤ consecutive s → count_new (slice s a b) ≡ b - a
count_new-slice s a b h h' = count_new-take (drop a s) (b - a) (omega (arith, consecutive-drop s a))

-- Position k holds a kept line as long as k lies among those at the front, and then a change.
kept_at :
    (s : Script) (k : ℕ)
    → k < consecutive s
    → (op : DiffOp) × (get_elem? s k ≡ some op) × (is_change op ≡ false)
unfolding consecutive
kept_at [] k h = absurd (omega arith)
kept_at (op ∷ s) zero h = (op, refl, ground arith)
kept_at (op ∷ s) (suc k) h = kept_at s k (ground arith)

changed_at :
    (s : Script)
    → consecutive s < length s
    → (op : DiffOp) × (get_elem? s (consecutive s) ≡ some op) × (is_change op ≡ true)
unfolding consecutive
changed_at [] h = absurd (omega arith)
changed_at (op ∷ s) h = elim (Bool-cases (is_change op)) [
  | inl c ↦ (op, ground arith, c)
  | inr c ↦ let (x, at, cx) = changed_at s (ground arith) in (x, ground arith, cx)
]

suc-==_zero : (n : ℕ) → (suc n == 0) ≡ false
suc-==_zero n = ground arith

module _ (s : Script) (bounds : HunkBounds) where
  no_line_yet : (k : ℕ) → k < consecutive s → first_change_new_line s bounds k ≡ 0
  unfolding first_change_new_line
  no_line_yet k h = let (op, at, same) = kept_at s k h in ground arith

  line_of_change :
      bounds.new_offset ≡ bounds.start
      → bounds.start ≤ consecutive s
      → consecutive s < length s
      → first_change_new_line s bounds (consecutive s) ≡ suc (consecutive s)
  unfolding first_change_new_line
  line_of_change e h h' =
      let (op, at, changed) = changed_at s h' in
      ground (arith, count_new-slice s bounds.start (consecutive s) h (le_refl _))

  -- The first line that is found stays.
  render_lines-settled : (ops : Script) (k n : ℕ) → (render_lines s bounds k ops (suc n)).1 ≡ suc n
  unfolding render_lines
  render_lines-settled [] k n = refl
  render_lines-settled (op ∷ ops) k n = rw (suc-==_zero n) (render_lines-settled ops (suc k) n)

  render_lines-first :
      (ops : Script) (k : ℕ)
      → bounds.new_offset ≡ bounds.start
      → bounds.start ≤ k
      → k ≤ consecutive s
      → consecutive s < length s
      → consecutive s < k + length ops
      → (render_lines s bounds k ops 0).1 ≡ suc (consecutive s)
  unfolding render_lines
  render_lines-first [] k e a b c d = absurd (omega arith)
  render_lines-first (op ∷ ops) k e a b c d = elim (Bool-cases (ltb k (consecutive s))) [
    | inl before ↦ rw (no_line_yet k (ltb→lt _ _ before)) (
        render_lines-first ops (suc k) e (omega arith) (omega (arith, ltb→lt k (consecutive s))) c
          (omega arith))
    | inr here ↦
        let at : k ≡ consecutive s = ground arith in
        rw (at, line_of_change e (omega arith) c) (render_lines-settled ops _ _)
  ]

render_hunk-first :
    (s : Script) (h : HunkRange) (context : ℕ)
    → h.start ≡ consecutive s
    → h.start < h.stop
    → h.stop ≤ length s
    → (render_hunk s (compute_hunk_bounds s h context)).1 ≡ suc (consecutive s)
unfolding render_hunk compute_hunk_bounds
render_hunk-first s h context e a b =
    render_lines-first s (compute_hunk_bounds s h context) (slice s start stop) start
      (count_new-take s start (omega arith)) (le_refl _) (omega arith) (omega arith)
      (omega (arith, length-take (stop - start) (drop start s), length-drop start s))
  where
    start : ℕ
    start = h.start - context

    stop : ℕ
    stop = min (h.stop + context) (length s)

format_hunks-settled :
    (s : Script) (hs : List HunkRange) (context n : ℕ)
    → (format_hunks s hs context (suc n)).1 ≡ suc n
unfolding format_hunks
format_hunks-settled s [] context n = refl
format_hunks-settled s (h ∷ hs) context n = rw (suc-==_zero n) (format_hunks-settled s hs context n)

format_hunks-first :
    (s : Script) (h : HunkRange) (hs : List HunkRange) (context : ℕ)
    → Starts (consecutive s) (h ∷ hs)
    → Apart context 0 (length s) (h ∷ hs)
    → (format_hunks s (h ∷ hs) context 0).1 ≡ suc (consecutive s)
unfolding format_hunks
format_hunks-first s h hs context e (_, a, b, _) =
    rw (render_hunk-first s h context e a b) (format_hunks-settled s hs context (consecutive s))

format_script-first :
    (s : Script) (hs : List HunkRange) (context : ℕ) {body : Bytes} {line : ℕ}
    → Starts (consecutive s) hs
    → Apart context 0 (length s) hs
    → format_script s hs context ≡ some (body, line)
    → line ≡ suc (consecutive s)
format_script-first s [] context e a r = unfold format_script in cc
format_script-first s (h ∷ hs) context {body} {line} e a r =
    let r' : some (format_hunks s (h ∷ hs) context 0) ≡ some (body, line) =
      unfold format_script in r in
    cc (format_hunks-first s h hs context e a)

-- The line that a diff names is the first one, counted from 1 in the new text, behind the lines that
-- its script keeps at the front.
pub render_diff_body-first :
    (old new_text : Bytes) (context : ℕ) {body : Bytes} {line : ℕ}
    → render_diff_body old new_text context ≡ some (body, line)
    → line ≡ suc (consecutive (compute_edit_script old new_text))
render_diff_body-first old new_text context r = elim (Bool-cases (bytes_eq old new_text)) [
  | inl e ↦ cc (render_diff_body-same old context, (bytes_eq_iff old new_text).0 e)
  | inr e ↦
      format_script-first (compute_edit_script old new_text) _ context
        (compute_hunks-Starts (compute_edit_script old new_text) context)
        (compute_hunks-Apart (compute_edit_script old new_text) context)
        (sym (render_diff_body-differ old new_text context e) ∙ r)
]

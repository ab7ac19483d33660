-- ===== src/ReadWindow/Bounds.antt =====
-- Which windows resolveReadWindow returns.
use jinn.Base.{
  Bool, true, false, ℕ, ◌+◌, ◌-◌, ◌≤◌, ◌<◌, ◌≡◌, ◌⊎◌, refl, ap, sym, ◌∙◌, subst, suc, Bool-cases,
  if_true, if_false, not, ◌&&◌, ◌||◌, Option, none, some, Option-cases, le→leb, leb→le, leb, inl,
  inr, ℤ, pos, negsuc, ltb, ltb→lt, if◌then◌else◌, if_cases, arith, min,
}
use jinn.ReadWindow.{
  head, tail, middle, whole, smart, WindowArgs, TruncateMode, given, or_default, is_given, is_tail,
  tail_window, read_default_lines, explicit_or_default_window, requested_window,
  resolve_read_window,
}

given-least : (o : Option ℤ) (n m : ℕ) → given o n ≡ some m → n ≤ m
given-least none n m e = ground arith
given-least (some (pos k)) n m e = ground arith
given-least (some (negsuc k)) n m e = ground arith

or_default-least : (o : Option ℤ) (n d : ℕ) → n ≤ d → n ≤ or_default (given o n) d
or_default-least o n d h = elim (Option-cases (given o n)) [
  | inl e ↦ subst (λ g. n ≤ or_default g d) (sym e) h
  | inr (m, e) ↦ subst (λ g. n ≤ or_default g d) (sym e) (given-least o n m e)
]

-- A window that starts at a line, and does not end before it where that line is in the text.
abbrev Forward : ℕ → ℕ × ℕ → Type 0
Forward total w = (1 ≤ w.0) × (w.0 ≤ total → w.0 ≤ w.1)

explicit_or_default_window-Forward :
    (args : WindowArgs) (mode : TruncateMode) (total : ℕ)
    → Forward total (explicit_or_default_window args mode total)
unfolding explicit_or_default_window
explicit_or_default_window-Forward args mode total =
    let start = or_default (given args.start_line 1) 1 in
    if_cases (Forward total)
      (is_tail mode
        && (not (is_given (given args.start_line 1) || is_given (given args.end_line start))
            && ltb read_default_lines total))
      _ _ (λ t. (omega arith, λ h. omega arith))
      (λ f. (
        or_default-least args.start_line 1 1 (omega arith),
        λ h. or_default-least args.end_line start (start + read_default_lines - 1) (omega arith),
      ))

tail_window-Forward : (lines total : ℕ) → 1 ≤ lines → Forward total (tail_window lines total)
tail_window-Forward lines total h =
    if_cases (λ s. Forward total (s, total)) (ltb total lines) _ _ (λ t. (omega arith, λ k. k))
      (λ f. (omega arith, λ k. k))

requested_window-Forward :
    (args : WindowArgs) (mode : TruncateMode) (total : ℕ)
    → Forward total (requested_window args mode total)
unfolding requested_window
requested_window-Forward args mode total =
    let chosen : Option ℕ → ℕ × ℕ = λ o. elim o [
      | some lines ↦ tail_window lines total
      | none ↦ explicit_or_default_window args mode total
    ] in
    elim (Option-cases (given args.tail_lines 1)) [
      | inl e ↦
          subst (λ o. Forward total (chosen o)) (sym e)
            (explicit_or_default_window-Forward args mode total)
      | inr (lines, e) ↦
          subst (λ o. Forward total (chosen o)) (sym e)
            (tail_window-Forward lines total (given-least args.tail_lines 1 lines e))
    ]

-- A number that is given, and is at least `least`.
abbrev pub Given : Option ℤ → ℕ → ℕ → Type 0
Given o least n = (o ≡ some (pos n)) × (least ≤ n)

-- No such number is given.
abbrev pub Missing : Option ℤ → ℕ → Type 0
Missing o least = (n : ℕ) → o ≡ some (pos n) → n < least

-- The lines from `start` to `end`, of which the last `n` lines of the text consist, or all lines.
abbrev pub LastLines : ℕ → ℕ → ℕ → ℕ → Type 0
LastLines n total start end =
    (end ≡ total) × (((n ≤ total) × (start + n ≡ total + 1)) ⊎ ((total < n) × (start ≡ 1)))

-- The first line: the one given, or else line 1.
abbrev pub StartsAt : Option ℤ → ℕ → Type 0
StartsAt o start = Given o 1 start ⊎ (Missing o 1 × (start ≡ 1))

-- The last line: the one given, if it is not in front of the first, or else the 2000th from there.
abbrev pub EndsAt : Option ℤ → ℕ → ℕ → Type 0
EndsAt o start end = Given o start end ⊎ (Missing o start × (end + 1 ≡ start + 2000))

-- Which lines the arguments ask for, in a text of `total` lines. A number of lines from the end goes before
-- the other arguments; without any argument, the mode "tail" asks for the last 2000 lines of a longer text.
pub data Asked (args : WindowArgs) (mode : TruncateMode) (total : ℕ) : ℕ → ℕ → Type 0 where
  last_lines :
      {start end : ℕ} (n : ℕ)
      → Given args.tail_lines 1 n
      → LastLines n total start end
      → Asked args mode total start end
  tail_of_long :
      {start end : ℕ}
      → Missing args.tail_lines 1
      → mode ≡ tail
      → Missing args.start_line 1
      → Missing args.end_line 1
      → 2000 < total
      → LastLines 2000 total start end
      → Asked args mode total start end
  from_to :
      {start end : ℕ}
      → Missing args.tail_lines 1
      → (mode ≡ tail
          → total ≤ 2000
            ⊎ (((n : ℕ) × Given args.start_line 1 n) ⊎ ((n : ℕ) × Given args.end_line start n)))
      → StartsAt args.start_line start
      → EndsAt args.end_line start end
      → Asked args mode total start end

given-cases :
    (o : Option ℤ) (least : ℕ)
    → ((given o least ≡ none) × Missing o least)
      ⊎ ((n : ℕ) × (given o least ≡ some n) × Given o least n)
given-cases none least = inl (refl, λ n e. absurd (ground arith))
given-cases (some (negsuc k)) least = inl (refl, λ n e. absurd (ground arith))
given-cases (some (pos k)) least = elim (Bool-cases (leb least k)) [
  | inl t ↦ inr (k, if_true _ _ t, (refl, leb→le _ _ t))
  | inr f ↦ inl (if_false _ _ f, λ n e. let q : k ≡ n = ground arith in ground arith)
]

tail_window-LastLines :
    (n total : ℕ) → 1 ≤ n → LastLines n total (tail_window n total).0 (tail_window n total).1
tail_window-LastLines n total h = elim (Bool-cases (ltb total n)) [
  | inl t ↦ (refl, inr (ltb→lt _ _ t, if_true _ _ t))
  | inr f ↦
      (refl, inl (ground arith, rw f (let le : n ≤ total = ground arith in omega (arith, le))))
]

is_tail-tail : (mode : TruncateMode) → is_tail mode ≡ true → mode ≡ tail
is_tail-tail tail e = refl
is_tail-tail head e = absurd (ground arith)
is_tail-tail middle e = absurd (ground arith)
is_tail-tail whole e = absurd (ground arith)
is_tail-tail smart e = absurd (ground arith)

-- The window for a first and a last line, where they are given.
abbrev window_of : TruncateMode → ℕ → Option ℕ → Option ℕ → ℕ × ℕ
window_of mode total first last =
    if is_tail mode && (not (is_given first || is_given last) && ltb read_default_lines total)
    then (total - read_default_lines + 1, total)
    else (or_default first 1, or_default last (or_default first 1 + read_default_lines - 1))

not_tail : (a b : Bool) → (a && (false && b)) ≡ false
not_tail true b = refl
not_tail false b = refl

module _ (args : WindowArgs) (mode : TruncateMode) (total : ℕ) (m : Missing args.tail_lines 1) where
  abbrev AskedAs : ℕ × ℕ → Type 0
  AskedAs w = Asked args mode total w.0 w.1

  without_start :
      Missing args.start_line 1 → AskedAs (window_of mode total none (given args.end_line 1))
  without_start first = elim (given-cases args.end_line 1) [
    | inl (e, last) ↦
        subst (λ o. AskedAs (window_of mode total none o)) (sym e)
          (if_cases AskedAs (is_tail mode && (true && ltb read_default_lines total)) _ _
            (λ t.
              Asked.tail_of_long m (is_tail-tail mode (ground arith)) first last (ground arith)
                (refl, inl (ground arith, ground arith)))
            (λ f.
              Asked.from_to m
                (λ e.
                  let g : (is_tail tail && (true && ltb read_default_lines total)) ≡ false =
                    subst (λ x. (is_tail x && (true && ltb read_default_lines total)) ≡ false) e
                      f in
                  inl (ground arith))
                (inr (first, refl)) (inr (last, refl))))
    | inr (n, e, g) ↦
        subst (λ o. AskedAs (window_of mode total none o)) (sym e)
          (subst (λ b. AskedAs (if b then (total - 2000 + 1, total) else (1, n)))
            (sym (not_tail (is_tail mode) (ltb read_default_lines total)))
            (Asked.from_to m (λ e. inr (inr (n, g))) (inr (first, refl)) (inl g)))
  ]

  with_start :
      (k : ℕ)
      → Given args.start_line 1 k
      → AskedAs (window_of mode total (some k) (given args.end_line k))
  with_start k first =
      subst
        (λ b. AskedAs (
          if b
          then (total - 2000 + 1, total)
          else (k, or_default (given args.end_line k) (k + 2000 - 1))))
        (sym (not_tail (is_tail mode) (ltb read_default_lines total)))
        (Asked.from_to m (λ e. inr (inl (k, first))) (inl first)
          (elim (given-cases args.end_line k) [
            | inl (e, last) ↦ inr (last, rw e (omega arith))
            | inr (n, e, g) ↦
                inl (subst (λ o. Given args.end_line k (or_default o (k + 2000 - 1))) (sym e) g)
          ]))

  -- Without a number of lines from the end.
  explicit-Asked : AskedAs (explicit_or_default_window args mode total)
  unfolding explicit_or_default_window
  explicit-Asked =
      let Q : Option ℕ → Type 0 =
        λ o. AskedAs (window_of mode total o (given args.end_line (or_default o 1))) in
      elim (given-cases args.start_line 1) [
        | inl (e, first) ↦ subst Q (sym e) (without_start first)
        | inr (k, e, g) ↦ subst Q (sym e) (with_start k g)
      ]

requested_window-Asked :
    (args : WindowArgs) (mode : TruncateMode) (total : ℕ)
    → let w = requested_window args mode total in Asked args mode total w.0 w.1
unfolding requested_window
requested_window-Asked args mode total =
    let chosen : Option ℕ → ℕ × ℕ = λ o. elim o [
      | some lines ↦ tail_window lines total
      | none ↦ explicit_or_default_window args mode total
    ] in
    let P : Option ℕ → Type 0 = λ o. Asked args mode total (chosen o).0 (chosen o).1 in
    elim (given-cases args.tail_lines 1) [
      | inl (e, m) ↦ subst P (sym e) (explicit-Asked args mode total m)
      | inr (n, e, g) ↦ subst P (sym e) (Asked.last_lines n g (tail_window-LastLines n total g.1))
    ]

-- The lines asked for start past the end, and then the error is returned, or the window holds of them those
-- that the text has; it is not empty then.
pub resolve_read_window_bounds :
    (args : WindowArgs) (mode : TruncateMode) (total : ℕ)
    → (start : ℕ) × (end : ℕ) × Asked args mode total start end
      × (((total < start) × (resolve_read_window args mode total ≡ none))
          ⊎ ((1 ≤ start)
              × (start ≤ total)
              × (start ≤ end)
              × (resolve_read_window args mode total ≡ some (start, min total end))))
unfolding resolve_read_window
resolve_read_window_bounds args mode total =
    let window = requested_window args mode total in
    let (a, b) = requested_window-Forward args mode total in
    (
      window.0,
      window.1,
      requested_window-Asked args mode total,
      elim (Bool-cases (ltb total window.0)) [
        | inl t ↦ inl (ltb→lt _ _ t, if_true _ _ t)
        | inr f ↦ inr (
          a,
          ground arith,
          b (ground arith),
          if_false _ _ f ∙ ap (λ e. some (window.0, e)) (ground arith),
        )
      ],
    )

requested_window-tail :
    (args : WindowArgs) (mode : TruncateMode) (total lines : ℕ)
    → args.tail_lines ≡ some (pos (suc lines))
    → requested_window args mode total ≡ tail_window (suc lines) total
unfolding requested_window
requested_window-tail args mode total lines e =
    ap
      (λ o. elim o [
        | some n ↦ tail_window n total
        | none ↦ explicit_or_default_window args mode total
      ])
      (ap (λ o. given o 1) e ∙ if_true _ _ (le→leb 1 (suc lines) (omega arith)))

-- A window that starts within the text and ends at its last line is not cut.
within_text :
    (start total : ℕ) (window : Option (ℕ × ℕ))
    → start ≤ total
    → window ≡ some (start, if ltb total total then total else total)
    → (if ltb total start then none else window) ≡ some (start, total)
within_text start total window h e = rw e (ground arith)

-- With a positive number of lines from the end, the window of a text that is not empty ends at its last
-- line and holds that many lines, or all lines where there are fewer; the other arguments are not read.
resolve_read_window_tail :
    (args : WindowArgs) (mode : TruncateMode) (total lines : ℕ)
    → args.tail_lines ≡ some (pos (suc lines))
    → 1 ≤ total
    → (start : ℕ) × (resolve_read_window args mode total ≡ some (start, total))
      × (total + 1 - start ≡ min (suc lines) total)
unfolding resolve_read_window
resolve_read_window_tail args mode total lines e h = (
  (tail_window (suc lines) total).0,
  rw (requested_window-tail args mode total lines e) (within_text _ total _ (ground arith) refl),
  ground arith,
)

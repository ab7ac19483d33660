-- ===== src/Smart/Plain.antt =====
-- The depth of a line without literals and comments.
use jinn.Base.{
  ℕ, zero, suc, ◌+◌, ◌≡◌, refl, ap, ap₂, ◌∙◌, Bool, true, false, not, ◌&&◌, ◌||◌, [], ◌∷◌, Bytes,
  codes, has_prefix, if_false, if_cases, ℤ, pos, negsuc, drop, ◌==◌, if◌then◌else◌, arith,
}
use jinn.Smart.{
  BraceScanner, run_of, begins_with, increment, decrement, step, stepped, scan_line,
  line_brace_depth,
}

-- A byte that begins no literal and no comment.
abbrev pub is_plain : ℕ → Bool
is_plain c = not (c == b'"' || c == b'\'' || c == b'`' || c == b'/')

abbrev pub all_plain : Bytes → Bool
all_plain [] = true
all_plain (c ∷ s) = is_plain c && all_plain s

-- How often a byte occurs.
abbrev pub count : ℕ → Bytes → ℕ
count c [] = 0
count c (d ∷ s) = if d == c then suc (count c s) else count c s

-- The difference of two numbers.
abbrev pub minus : ℕ → ℕ → ℤ
minus a zero = pos a
minus zero (suc b) = negsuc b
minus (suc a) (suc b) = minus a b

abbrev pub outside : ℤ → BraceScanner
outside d = record { depth = d; quote = 0; raw_close = []; block_depth = 0 }

no_quote_behind : (k : ℕ) (s : Bytes) → all_plain s ≡ true → begins_with b'"' (drop k s) ≡ false
no_quote_behind zero [] h = refl
no_quote_behind (suc k) [] h = refl
no_quote_behind zero (c ∷ s) h = ground arith
no_quote_behind (suc k) (c ∷ s) h = no_quote_behind k s (ground arith)

-- What a step does to the depth there.
abbrev turned : ℕ → ℤ → ℤ
turned c d = if c == b'{' then increment d else if c == b'}' then decrement d else d

pushed :
    (a b : Bool) (x y z : ℤ)
    → (if a
        then stepped (outside x) 0
        else if b
        then stepped (outside y) 0
        else stepped (outside z) 0)
      ≡ stepped (outside (if a then x else if b then y else z)) 0
pushed true b x y z = refl
pushed false true x y z = refl
pushed false false x y z = refl

no_quote_next : (rest : Bytes) → all_plain rest ≡ true → has_prefix rest (codes "\"") ≡ false
unfolding has_prefix
no_quote_next [] t = refl
no_quote_next (c ∷ rest) t = ground arith

second_false : (a b : Bool) → b ≡ false → (a && b) ≡ false
second_false true b h = h
second_false false b h = refl

step_plain_lem :
    (c : ℕ) (rest : Bytes) (d : ℤ)
    → is_plain c ≡ true
    → all_plain rest ≡ true
    → step (outside d) c rest ≡ stepped (outside (turned c d)) 0
unfolding step has_prefix
step_plain_lem c rest d h t =
    let a : (c == b'"' && has_prefix rest (codes "\"\"")) ≡ false = ground arith in
    let dq : (c == b'"') ≡ false = ground arith in
    let sq : (c == b'\'') ≡ false = ground arith in
    let bq : (c == b'`') ≡ false = ground arith in
    let sl : (c == b'/') ≡ false = ground arith in
    if_false _ _ a
    ∙ if_false _ _ (second_false _ _ (no_quote_behind (run_of b'#' rest) rest t))
    ∙ if_false _ _ (second_false _ _ (no_quote_next rest t))
    ∙ if_false _ _ dq
    ∙ if_false _ _ sq
    ∙ if_false _ _ bq
    ∙ if_false _ _ sl
    ∙ pushed (c == b'{') (c == b'}') (increment d) (decrement d) d

-- The depth behind a line, from the depth in front of it.
counted : Bytes → ℤ → ℤ
counted [] d = d
counted (c ∷ s) d = counted s (turned c d)

scan_line-counted :
    (s : Bytes) (d : ℤ) → all_plain s ≡ true → scan_line (outside d) 0 s ≡ outside (counted s d)
unfolding scan_line counted
scan_line-counted [] d h = refl
scan_line-counted (c ∷ s) d h =
    let e = step_plain_lem c s d (ground arith) (ground arith) in
    rw e (scan_line-counted s (turned c d) (ground arith))

increment-minus : (a b : ℕ) → increment (minus a b) ≡ minus (suc a) b
increment-minus a zero = refl
increment-minus zero (suc zero) = refl
increment-minus zero (suc (suc b)) = refl
increment-minus (suc a) (suc b) = increment-minus a b

decrement-minus : (a b : ℕ) → decrement (minus a b) ≡ minus a (suc b)
decrement-minus zero zero = refl
decrement-minus (suc a) zero = refl
decrement-minus zero (suc b) = refl
decrement-minus (suc a) (suc b) = decrement-minus a b

counted-minus :
    (s : Bytes) (a b k m : ℕ)
    → k ≡ a + count b'{' s
    → m ≡ b + count b'}' s
    → counted s (minus a b) ≡ minus k m
unfolding counted
counted-minus [] a b k m h i =
    let p : a ≡ k = omega arith in let q : b ≡ m = omega arith in ap₂ minus p q
counted-minus (c ∷ s) a b k m h i =
    if_cases (λ x. counted s x ≡ minus k m) (c == b'{') _ _
      (λ t. rw (increment-minus a b) (counted-minus s (suc a) b k m (ground arith) (ground arith)))
      (λ f.
        if_cases (λ x. counted s x ≡ minus k m) (c == b'}') _ _
          (λ t.
            rw (decrement-minus a b) (counted-minus s a (suc b) k m (ground arith) (ground arith)))
          (λ g. counted-minus s a b k m (ground arith) (ground arith)))

-- In a line without quotes and slashes the depth is the number of opening braces less that of closing
-- ones.
pub line_brace_depth_lem :
    (line : Bytes)
    → all_plain line ≡ true
    → line_brace_depth line ≡ minus (count b'{' line) (count b'}' line)
line_brace_depth_lem line h =
    ap (λ s. s.depth) (scan_line-counted line (pos 0) h)
    ∙ counted-minus line 0 0 (count b'{' line) (count b'}' line) (omega arith) (omega arith)

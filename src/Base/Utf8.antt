-- ===== src/Base/Utf8.antt =====
-- The functions of packages unicode/utf8 and strings that read runes: DecodeRune, EncodeRune and
-- TrimSpace, over bytes.
use jinn.Base.Tests.{ltb, leb, ◌==◌, if◌then◌else◌, if_cases}
use jinn.Base.Lists.{length, drop}
use jinn.Base.Strings.{Bytes}
use Prim.Native.Nat.{ℕ, zero, suc, ◌+◌, ◌-◌, ◌*◌, ◌/◌, ◌%◌, ◌≤◌, ◌<◌}
use native.Mathlib.Omega.{arith}
use mathlib.Core.Bool.{Bool, true, false, ◌&&◌, ◌||◌}
use mathlib.Core.List.{List, [], ◌∷◌, reverse}

abbrev within : ℕ → ℕ → ℕ → Bool
within lo hi c = leb lo c && leb c hi

-- The replacement rune, and one byte, for what is no UTF-8.
abbrev bad_rune : ℕ × ℕ
bad_rune = (0xfffd, 1)

decode_two : ℕ → Bytes → ℕ × ℕ
decode_two a [] = bad_rune
decode_two a (b ∷ s) = if within 0x80 0xbf b then ((a - 0xc0) * 64 + (b - 0x80), 2) else bad_rune

decode_three : ℕ → Bytes → ℕ × ℕ
decode_three a (b ∷ c ∷ s) =
    let lo : ℕ = if a == 0xe0 then 0xa0 else 0x80 in
    let hi : ℕ = if a == 0xed then 0x9f else 0xbf in
    if within lo hi b && within 0x80 0xbf c
    then ((a - 0xe0) * 4096 + (b - 0x80) * 64 + (c - 0x80), 3)
    else bad_rune
decode_three a _ = bad_rune

decode_four : ℕ → Bytes → ℕ × ℕ
decode_four a (b ∷ c ∷ d ∷ s) =
    let lo : ℕ = if a == 0xf0 then 0x90 else 0x80 in
    let hi : ℕ = if a == 0xf4 then 0x8f else 0xbf in
    if within lo hi b && within 0x80 0xbf c && within 0x80 0xbf d
    then ((a - 0xf0) * 262144 + (b - 0x80) * 4096 + (c - 0x80) * 64 + (d - 0x80), 4)
    else bad_rune
decode_four a _ = bad_rune

-- utf8.DecodeRuneInString of a text that is not empty: the rune and its width in bytes.
unfoldable pub decode_rune : ℕ → Bytes → ℕ × ℕ
unfolding decode_two decode_three decode_four
decode_rune a s =
    if ltb a 0x80
    then (a, 1)
    else if within 0xc2 0xdf a
    then decode_two a s
    else if within 0xe0 0xef a
    then decode_three a s
    else if within 0xf0 0xf4 a
    then decode_four a s
    else bad_rune

-- A width of at least one byte, and no more than there are.
abbrev pub WidthWithin : Bytes → ℕ × ℕ → Type 0
WidthWithin s rune = (0 < rune.1) × (rune.1 ≤ suc (length s))

bad_rune-WidthWithin : (s : Bytes) → WidthWithin s bad_rune
bad_rune-WidthWithin s = (omega arith, omega arith)

either-WidthWithin :
    (s : Bytes) (b : Bool) (r n : ℕ)
    → 0 < n
    → n ≤ suc (length s)
    → WidthWithin s (if b then (r, n) else bad_rune)
either-WidthWithin s true r n h g = (h, g)
either-WidthWithin s false r n h g = bad_rune-WidthWithin s

decode_two-WidthWithin : (a : ℕ) (s : Bytes) → WidthWithin s (decode_two a s)
unfolding decode_two
decode_two-WidthWithin a [] = bad_rune-WidthWithin []
decode_two-WidthWithin a (b ∷ s) = either-WidthWithin (b ∷ s) _ _ 2 (omega arith) (omega arith)

decode_three-WidthWithin : (a : ℕ) (s : Bytes) → WidthWithin s (decode_three a s)
unfolding decode_three
decode_three-WidthWithin a [] = bad_rune-WidthWithin []
decode_three-WidthWithin a (b ∷ []) = bad_rune-WidthWithin (b ∷ [])
decode_three-WidthWithin a (b ∷ c ∷ s) =
    either-WidthWithin (b ∷ c ∷ s) _ _ 3 (omega arith) (omega arith)

decode_four-WidthWithin : (a : ℕ) (s : Bytes) → WidthWithin s (decode_four a s)
unfolding decode_four
decode_four-WidthWithin a [] = bad_rune-WidthWithin []
decode_four-WidthWithin a (b ∷ []) = bad_rune-WidthWithin (b ∷ [])
decode_four-WidthWithin a (b ∷ c ∷ []) = bad_rune-WidthWithin (b ∷ c ∷ [])
decode_four-WidthWithin a (b ∷ c ∷ d ∷ s) =
    either-WidthWithin (b ∷ c ∷ d ∷ s) _ _ 4 (omega arith) (omega arith)

-- A rune is decoded from at least one byte, and from no more than there are.
pub decode_rune-WidthWithin : (a : ℕ) (s : Bytes) → WidthWithin s (decode_rune a s)
unfolding decode_rune
decode_rune-WidthWithin a s =
    if_cases (WidthWithin s) (ltb a 0x80) _ _ (λ _. (omega arith, omega arith))
      (λ _.
        if_cases (WidthWithin s) (within 0xc2 0xdf a) _ _ (λ _. decode_two-WidthWithin a s)
          (λ _.
            if_cases (WidthWithin s) (within 0xe0 0xef a) _ _ (λ _. decode_three-WidthWithin a s)
              (λ _.
                if_cases (WidthWithin s) (within 0xf0 0xf4 a) _ bad_rune
                  (λ _. decode_four-WidthWithin a s) (λ _. bad_rune-WidthWithin s))))

abbrev AtMostFour : ℕ × ℕ → Type 0
AtMostFour rune = rune.1 ≤ 4

either-four : (b : Bool) (r n : ℕ) → n ≤ 4 → AtMostFour (if b then (r, n) else bad_rune)
either-four true r n h = h
either-four false r n h = omega arith

decode_two-four : (a : ℕ) (s : Bytes) → AtMostFour (decode_two a s)
unfolding decode_two
decode_two-four a [] = omega arith
decode_two-four a (b ∷ s) = either-four _ _ 2 (omega arith)

decode_three-four : (a : ℕ) (s : Bytes) → AtMostFour (decode_three a s)
unfolding decode_three
decode_three-four a [] = omega arith
decode_three-four a (b ∷ []) = omega arith
decode_three-four a (b ∷ c ∷ s) = either-four _ _ 3 (omega arith)

decode_four-four : (a : ℕ) (s : Bytes) → AtMostFour (decode_four a s)
unfolding decode_four
decode_four-four a [] = omega arith
decode_four-four a (b ∷ []) = omega arith
decode_four-four a (b ∷ c ∷ []) = omega arith
decode_four-four a (b ∷ c ∷ d ∷ s) = either-four _ _ 4 (omega arith)

-- A rune takes at most four bytes.
pub decode_rune-four : (a : ℕ) (s : Bytes) → (decode_rune a s).1 ≤ 4
unfolding decode_rune
decode_rune-four a s =
    if_cases AtMostFour (ltb a 0x80) _ _ (λ _. omega arith)
      (λ _.
        if_cases AtMostFour (within 0xc2 0xdf a) _ _ (λ _. decode_two-four a s)
          (λ _.
            if_cases AtMostFour (within 0xe0 0xef a) _ _ (λ _. decode_three-four a s)
              (λ _.
                if_cases AtMostFour (within 0xf0 0xf4 a) _ bad_rune (λ _. decode_four-four a s)
                  (λ _. omega arith))))

-- utf8.EncodeRune
unfoldable pub encode_rune : ℕ → Bytes
encode_rune r =
    if ltb r 0x80
    then r ∷ []
    else if ltb r 0x800
    then (0xc0 + r / 64) ∷ (0x80 + r % 64) ∷ []
    else if ltb r 0x10000
    then (0xe0 + r / 4096) ∷ (0x80 + r / 64 % 64) ∷ (0x80 + r % 64) ∷ []
    else (0xf0 + r / 262144) ∷ (0x80 + r / 4096 % 64) ∷ (0x80 + r / 64 % 64) ∷ (0x80 + r % 64) ∷ []

-- The runes of a text, for at most `fuel` of them.
runes_within : ℕ → Bytes → List ℕ
runes_within zero s = []
runes_within (suc fuel) [] = []
runes_within (suc fuel) (c ∷ s) =
    let (r, size) = decode_rune c s in r ∷ runes_within fuel (drop (size - 1) s)

-- `for _, r := range s`, and []rune(s)
unfoldable pub runes : Bytes → List ℕ
unfolding runes_within decode_rune
runes s = runes_within (length s) s

-- unicode.IsSpace
unfoldable pub is_space : ℕ → Bool
is_space r =
    within 9 13 r
    || r == 32
    || r == 0x85
    || r == 0xa0
    || r == 0x1680
    || within 0x2000 0x200a r
    || r == 0x2028
    || r == 0x2029
    || r == 0x202f
    || r == 0x205f
    || r == 0x3000

-- The width of the white space at the front, or 0.
space_width : Bytes → ℕ
space_width [] = 0
space_width (c ∷ s) = let (r, size) = decode_rune c s in if is_space r then size else 0

-- The width of the white space at the end of a text that is given in reverse, or 0.
space_width_back : Bytes → ℕ
unfolding space_width
space_width_back (c ∷ d ∷ e ∷ s) =
    if ltb 0 (space_width (c ∷ []))
    then 1
    else if space_width (d ∷ c ∷ []) == 2
    then 2
    else if space_width (e ∷ d ∷ c ∷ []) == 3
    then 3
    else 0
space_width_back (c ∷ d ∷ s) =
    if ltb 0 (space_width (c ∷ [])) then 1 else if space_width (d ∷ c ∷ []) == 2 then 2 else 0
space_width_back (c ∷ s) = space_width (c ∷ [])
space_width_back [] = 0

-- Takes white space off the front, as `width` measures it, for at most `fuel` runes.
trim_while : (Bytes → ℕ) → ℕ → Bytes → Bytes
trim_while width zero s = s
trim_while width (suc fuel) s =
    let rest = trim_while width fuel (drop (width s) s) in if width s == 0 then s else rest

-- strings.TrimSpace
unfoldable pub trim_space : Bytes → Bytes
unfolding trim_while space_width space_width_back decode_rune is_space
trim_space s =
    let front = trim_while space_width (length s) s in
    reverse (trim_while space_width_back (length front) (reverse front))
